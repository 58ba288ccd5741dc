-- ===== src/Llc/Timeout.antt =====
-- How long the client of DT/Proj3_LLC waits for an S_RR: the time outs of its receiving thread between the
-- looks of its sending thread.
use hyu_3rd_1se.Prelude.{
  ℕ, suc, ◌+◌, ◌<◌, ◌≡◌, refl, true, false, List, [], ◌∷◌, ◌==◌, arith, ==-of_ne, subst, Bool-cases,
  inl, inr,
}
use hyu_3rd_1se.Llc.Peers.{Client, client_timeout, wait_rr, arrived}

pub data Event : Type 0 where
  timed_out looked : Event

-- The variables after these events, in this order.
unfoldable pub after : List Event → Client → Client
after [] c = c
after (timed_out ∷ es) c = after es (client_timeout c)
after (looked ∷ es) c = after es (wait_rr c).0

abbrev pub timeouts : List Event → ℕ
timeouts [] = 0
timeouts (timed_out ∷ es) = suc (timeouts es)
timeouts (looked ∷ es) = timeouts es

record IsWaiting (c : Client) (count : ℕ) : Type 0 where
  waits : c.waiting_rcv_flag ≡ true
  unanswered : c.rr_rcv_flag ≡ false
  counts : c.timeout_cnt ≡ count

client_timeout-IsWaiting :
    (c : Client) (k : ℕ) → IsWaiting c k → suc k < 5 → IsWaiting (client_timeout c) (suc k)
unfolding client_timeout
client_timeout-IsWaiting c k w l =
    let more : (c.timeout_cnt + 1 == 5) ≡ false =
      ==-of_ne (c.timeout_cnt + 1) 5 (λ e. absurd (omega (arith, e, w.counts, l))) in
    record {
      waits = rw (w.waits, more) refl;
      unanswered = rw (w.waits, more) w.unanswered;
      counts = rw (w.waits, more) (omega (arith, w.counts));
    }

wait_rr-IsWaiting : (c : Client) (k : ℕ) → IsWaiting c k → IsWaiting (wait_rr c).0 k
unfolding wait_rr
wait_rr-IsWaiting c k w = elim (Bool-cases c.timeoutflag) [
  | inl t ↦ record {
    waits = rw (w.unanswered, t) w.waits;
    unanswered = rw (w.unanswered, t) refl;
    counts = rw (w.unanswered, t) w.counts;
  }
  | inr t ↦ record {
    waits = rw (w.unanswered, t) w.waits;
    unanswered = rw (w.unanswered, t) refl;
    counts = rw (w.unanswered, t) w.counts;
  }
]

after-IsWaiting :
    (es : List Event) (c : Client) (k : ℕ)
    → IsWaiting c k
    → k + timeouts es < 5
    → IsWaiting (after es c) (k + timeouts es)
unfolding after
after-IsWaiting [] c k w l = subst (IsWaiting c) (omega arith) w
after-IsWaiting (timed_out ∷ es) c k w l =
    subst (IsWaiting (after es (client_timeout c))) (omega arith) (
      after-IsWaiting es (client_timeout c) (suc k)
        (client_timeout-IsWaiting c k w (omega (arith, l))) (omega (arith, l)))
after-IsWaiting (looked ∷ es) c k w l =
    after-IsWaiting es (wait_rr c).0 k (wait_rr-IsWaiting c k w) l

-- A client that waits for an S_RR goes on at the latest after the fifth time out in a row, however often it
-- looks, and sends again, between the time outs.
pub wait_rr-ends :
    (es : List Event) (c : Client)
    → c.waiting_rcv_flag ≡ true
    → c.rr_rcv_flag ≡ false
    → c.timeout_cnt + timeouts es ≡ 4
    → (wait_rr (client_timeout (after es c))).1 ≡ arrived
unfolding client_timeout wait_rr
wait_rr-ends es c w u e =
    let at : IsWaiting (after es c) (c.timeout_cnt + timeouts es) =
      after-IsWaiting es c c.timeout_cnt record { waits = w; unanswered = u; counts = refl }
        (omega (arith, e)) in
    rw (at.waits, at.counts, e) refl

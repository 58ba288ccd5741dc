-- ===== src/Mlfq/Rotate.antt =====
-- `dequeue` of mlfq.c in scheduler mode 1: the processes before the wanted one go to the rear.
use hyu_3rd_1se.Prelude.{
  ◌⊎◌, ◌≢◌, ℕ, zero, suc, ◌<◌, ◌≤◌, ◌≡◌, refl, ◌∙◌, true, false, Option, none, some, List, [], ◌∷◌,
  ◌++◌, append-nil, append_assoc, arith, length, length-append, ltb, if◌then◌else◌, All, Bool-cases,
  inl, inr, ok, Result, ◌>>=◌, ==-zero_of_pos, subst,
}
use hyu_3rd_1se.Proc.{Table}
use hyu_3rd_1se.Mlfq.{Mlfq, runs, same_proc, take_front, settle, enqueue, dequeue, dequeue_rounds}
use hyu_3rd_1se.Mlfq.Ring.{
  Holds-is_empty_nil, Holds, Holds-is_empty, enqueue-Holds, enqueue_stride, take_front-Holds,
}
use hyu_3rd_1se.Mlfq.Rcount.{runners, check_rcount-lem}

-- Nothing but `qPosi` differs, and that is `l` where it does.
abbrev pub SameButPosi : ℕ → Table → Table → Type 0
SameButPosi l t u =
    (r : ℕ)
    → (t r ≡ record (u r) { q_posi = (t r).q_posi })
      × (((t r).q_posi ≡ (u r).q_posi) ⊎ ((t r).q_posi ≡ l))

-- The processes that `enqueue` takes back: those under stride scheduling are dropped.
unfoldable pub kept : Table → List ℕ → List ℕ
kept t [] = []
kept t (x ∷ xs) = if ltb 0 (t x).stride then kept t xs else x ∷ kept t xs

-- The list holds another process than `p`, by its pid and tid.
abbrev pub Others : Table → ℕ → List ℕ → Type 0
Others t p = All (λ r. same_proc (t r) (t p) ≡ false)

kept-SameButPosi : (l : ℕ) (t u : Table) (xs : List ℕ) → SameButPosi l u t → kept u xs ≡ kept t xs
unfolding kept
kept-SameButPosi l t u [] s = refl
kept-SameButPosi l t u (x ∷ xs) s = ground (arith, s x, kept-SameButPosi l t u xs s)

Others-SameButPosi :
    (l : ℕ) (t u : Table) (p : ℕ) (xs : List ℕ) → SameButPosi l u t → Others t p xs → Others u p xs
Others-SameButPosi l t u p [] s h = tt
Others-SameButPosi l t u p (x ∷ xs) s h =
    (ground (arith, s x, s p), Others-SameButPosi l t u p xs s h.1)

pub SameButPosi-trans :
    (l : ℕ) (t u v : Table) → SameButPosi l t u → SameButPosi l u v → SameButPosi l t v
SameButPosi-trans l t u v a b r = ground (arith, a r, b r)

runners-pos :
    (t : Table) (pre : List ℕ) (p : ℕ) (post : List ℕ)
    → runs (t p) ≡ true
    → 0 < runners t (pre ++ (p ∷ post))
unfolding runners
runners-pos t [] p post h = ground arith
runners-pos t (x ∷ xs) p post h = omega (arith, runners-pos t xs p post h)

-- What `enqueue` does to a process that `dequeue` has just taken out.
enqueue-kept :
    (t : Table) (q : Mlfq) (xs : List ℕ) (x : ℕ)
    → Holds q xs
    → length xs < 64
    → let (t', q', _) = enqueue t q x in
      Holds q' (xs ++ kept t (x ∷ [])) × SameButPosi q.level t' t × (q'.level ≡ q.level)
unfolding kept
enqueue-kept t q xs x h l = elim (Bool-cases (ltb 0 (t x).stride)) [
  | inl e ↦ rw (e, enqueue_stride t q x (ground arith), append-nil) (h, λ r. (refl, inl refl), refl)
  | inr e ↦ let c = enqueue-Holds t xs x h l (ground arith) in rw e (c.1, λ r. ground arith, c.3)
]

-- One round of `dequeue` on a queue in which some process could run.
dequeue_round :
    (fuel mode : ℕ) (t : Table) (q : Mlfq) (p x : ℕ) (xs : List ℕ)
    → Holds q (x ∷ xs)
    → length (x ∷ xs) < 64
    → 0 < runners t (x ∷ xs)
    → (q' : Mlfq) × Holds q' xs
      × (q'.level ≡ q.level)
      × (dequeue (suc fuel) mode t q p
          ≡ settle (λ u v. dequeue fuel mode u v p) mode t p q' (some x))
unfolding dequeue_rounds
dequeue_round fuel mode t q p x xs h l r =
    let counted : Mlfq = record q { r_count = runners t (x ∷ xs) } in
    let h' : Holds counted (x ∷ xs) = record {
      front_in = h.front_in;
      rear_at = h.rear_at;
      counted = h.counted;
      fits = h.fits;
      slots = h.slots;
    } in
    let f = take_front-Holds x xs h' in
    (
      (take_front counted).0,
      f.1,
      f.2,
      rw (Holds-is_empty x xs h, check_rcount-lem t q (x ∷ xs) h l) (rw (==-zero_of_pos _ r, f.0)),
    )

settle_same :
    (again : Table → Mlfq → Result (Table × Mlfq × Option ℕ)) (mode : ℕ) (t : Table) (q : Mlfq)
    (p : ℕ)
    → settle again mode t p q (some p) ≡ ok (t, q, some p)
unfolding settle
settle_same again mode t q p = ground arith

settle_other :
    (again : Table → Mlfq → Result (Table × Mlfq × Option ℕ)) (t : Table) (q : Mlfq) (p x : ℕ)
    → same_proc (t x) (t p) ≡ false
    → settle again 1 t p q (some x)
      ≡ (again (enqueue t q x).0 (enqueue t q x).1 >>= λ res. ok (res.0, res.1, some x))
unfolding settle
settle_other again t q p x d = rw d

kept-append :
    (t : Table) (post pre : List ℕ) (x : ℕ)
    → (post ++ kept t (x ∷ [])) ++ kept t pre ≡ post ++ kept t (x ∷ pre)
unfolding kept
kept-append t post pre x = elim (Bool-cases (ltb 0 (t x).stride)) [
  | inl e ↦ rw (e, append-nil)
  | inr e ↦ rw (e, append_assoc)
]

length-kept_one : (t : Table) (x : ℕ) → length (kept t (x ∷ [])) ≤ 1
unfolding kept
length-kept_one t x = ground arith

-- `dequeue` in mode 1 takes a process that can run out of a queue with room, wherever it stands:
-- those before it go to the rear in their order, except those under stride scheduling, which leave
-- the queue too. Of the process table it changes no more than `qPosi`.
pub dequeue-rotates :
    (fuel : ℕ) (t : Table) (q : Mlfq) (p : ℕ) (pre post : List ℕ)
    → Holds q (pre ++ (p ∷ post))
    → length (pre ++ (p ∷ post)) < 64
    → Others t p pre
    → runs (t p) ≡ true
    → length pre < fuel
    → (t' : Table) × (q' : Mlfq) × (r : Option ℕ) × (dequeue fuel 1 t q p ≡ ok (t', q', r))
      × Holds q' (post ++ kept t pre)
      × SameButPosi q.level t' t
      × (q'.level ≡ q.level)
unfolding kept
dequeue-rotates zero t q p pre post h l o run f = absurd (omega arith)
dequeue-rotates (suc fuel) t q p [] post h l o run f =
    let (q2, h2, v, e) = dequeue_round fuel 1 t q p p post h l (runners-pos t [] p post run) in
    (t, q2, some p, e ∙ settle_same _ 1 t q2 p, rw append-nil h2, λ r. (refl, inl refl), v)
dequeue-rotates (suc fuel) t q p (x ∷ pre) post h l o run f =
    let rest = pre ++ (p ∷ post) in
    let (q2, h2, v, e) =
      dequeue_round fuel 1 t q p x rest h l (runners-pos t (x ∷ pre) p post run) in
    let (h3, s3, v3) = enqueue-kept t q2 rest x h2 (omega arith) in
    let t3 = (enqueue t q2 x).0 in
    let s4 : SameButPosi q.level t3 t = subst (λ l. SameButPosi l t3 t) v s3 in
    let q3 = (enqueue t q2 x).1 in
    let ih =
      dequeue-rotates fuel t3 q3 p pre (post ++ kept t (x ∷ []))
        (rw (← append_assoc pre (p ∷ post) (kept t (x ∷ []))) h3)
        (omega (
          arith,
          length-append pre (p ∷ post),
          length-append pre (p ∷ post ++ kept t (x ∷ [])),
          length-append post (kept t (x ∷ [])),
          length-kept_one t x,
        ))
        (Others-SameButPosi q.level t t3 p pre s4 o.1) (ground (arith, s4 p)) (omega arith) in
    (
      ih.0,
      ih.1,
      some x,
      e ∙ settle_other _ t q2 p x o.0 ∙ rw (ih.3),
      rw (← kept-append t post pre x, ← kept-SameButPosi q.level t t3 pre s4) (ih.4),
      SameButPosi-trans q.level ih.0 t3 t (subst (λ l. SameButPosi l ih.0 t3) (v3 ∙ v) ih.5) s4,
      ih.6 ∙ v3 ∙ v,
    )

-- Where no process of the queue could run, `dequeue` takes nothing out, not even the process that it
-- is called for: every pointer stays where it was.
pub dequeue_no_runner :
    (fuel mode : ℕ) (t : Table) (q : Mlfq) (p : ℕ) (xs : List ℕ)
    → Holds q xs
    → length xs < 64
    → runners t xs ≡ 0
    → 0 < fuel
    → (q' : Mlfq) × (dequeue fuel mode t q p ≡ ok (t, q', none)) × Holds q' xs
unfolding dequeue_rounds
dequeue_no_runner zero mode t q p xs h l r f = absurd (omega arith)
dequeue_no_runner (suc fuel) mode t q p [] h l r f = (q, rw (Holds-is_empty_nil h), h)
dequeue_no_runner (suc fuel) mode t q p (x ∷ xs) h l r f = (
  record q { r_count = runners t (x ∷ xs) },
  rw (Holds-is_empty x xs h, check_rcount-lem t q (x ∷ xs) h l, r),
  record {
    front_in = h.front_in;
    rear_at = h.rear_at;
    counted = h.counted;
    fits = h.fits;
    slots = h.slots;
  },
)

-- Outside mode 1 `dequeue` takes the oldest process, whichever process it is called for.
pub dequeue_other_mode :
    (fuel mode : ℕ) (t : Table) (q : Mlfq) (p x : ℕ) (xs : List ℕ)
    → mode ≢ 1
    → Holds q (x ∷ xs)
    → length (x ∷ xs) < 64
    → 0 < runners t (x ∷ xs)
    → 0 < fuel
    → (q' : Mlfq) × (dequeue fuel mode t q p ≡ ok (t, q', some x)) × Holds q' xs
unfolding settle
dequeue_other_mode zero mode t q p x xs m h l r f = absurd (omega arith)
dequeue_other_mode (suc fuel) mode t q p x xs m h l r f =
    let (q2, h2, v, e) = dequeue_round fuel mode t q p x xs h l r in (q2, e ∙ ground arith, h2)

-- ===== src/Kernel/Turns.antt =====
-- `yield` of proc.c: a process that gives up the processor waits behind all others of its queue.
use hyu_3rd_1se.Prelude.{
  ℕ, ◌<◌, ◌≤◌, ◌≡◌, ◌≢◌, refl, sym, ◌∙◌, true, false, some, List, [], ◌∷◌, ◌++◌, arith, length,
  length-append, update, ok, ==-refl, ==-of_ne, subst, ap,
}
use hyu_3rd_1se.Proc.{Table, running, runnable}
use hyu_3rd_1se.Mlfq.{runs}
use hyu_3rd_1se.Mlfq.Ring.{Holds, enqueue-Holds}
use hyu_3rd_1se.Mlfq.Rotate.{SameButPosi, SameButPosi-trans, Others, kept, dequeue-rotates}
use hyu_3rd_1se.Kernel.{
  Kernel, dequeue_fuel, dequeue_at, enqueue_at, requeue, sched, yield, set_proc,
}

length-kept : (t : Table) (xs : List ℕ) → length (kept t xs) ≤ length xs
unfolding kept
length-kept t [] = omega arith
length-kept t (x ∷ xs) = ground (arith, length-kept t xs)

pub dequeue_at-lem :
    (k : Kernel) (level p : ℕ) (pre post : List ℕ)
    → k.scheduler_mode ≡ 1
    → Holds (k.qs level) (pre ++ (p ∷ post))
    → length (pre ++ (p ∷ post)) < 64
    → Others k.table p pre
    → runs (k.table p) ≡ true
    → (k' : Kernel) × (dequeue_at k level p ≡ ok k')
      × Holds (k'.qs level) (post ++ kept k.table pre)
      × SameButPosi (k.qs level).level k'.table k.table
      × ((k'.qs level).level ≡ (k.qs level).level)
      × ((l : ℕ) → l ≢ level → k'.qs l ≡ k.qs l)
      × (k' ≡ record k { table = k'.table; qs = k'.qs })
unfolding dequeue_at
dequeue_at-lem k level p pre post m h l o r =
    let (t, q, x, e, h', s, v) =
      dequeue-rotates dequeue_fuel k.table (k.qs level) p pre post h l o r
        (omega (arith, length-append pre (p ∷ post))) in
    (
      record k { table = t; qs = update k.qs level q },
      rw (m, e),
      rw (==-refl level) h',
      s,
      rw (==-refl level) v,
      λ i n. rw (==-of_ne level i (λ z. n (sym z))),
      refl,
    )

-- `dequeue` and then `enqueue` of a process move it to the end of its queue.
pub requeue-lem :
    (k : Kernel) (p level : ℕ) (pre post : List ℕ)
    → k.scheduler_mode ≡ 1
    → runs (k.table p) ≡ true
    → (k.table p).stride ≡ 0
    → (k.table p).q_posi ≡ level
    → (k.qs level).level ≡ level
    → Holds (k.qs level) (pre ++ (p ∷ post))
    → length (pre ++ (p ∷ post)) < 64
    → Others k.table p pre
    → (k' : Kernel) × (requeue k p ≡ ok k')
      × Holds (k'.qs level) ((post ++ kept k.table pre) ++ (p ∷ []))
      × SameButPosi level k'.table k.table
      × ((l : ℕ) → l ≢ level → k'.qs l ≡ k.qs l)
      × (k' ≡ record k { table = k'.table; qs = k'.qs })
unfolding requeue enqueue_at
requeue-lem k p level pre post c d e f g h l o =
    let (k1, e1, h1, s1, v1, q1, r1) = dequeue_at-lem k level p pre post c h l o d in
    let s2 : SameButPosi level k1.table k.table =
      subst (λ i. SameButPosi i k1.table k.table) g s1 in
    let posi : (k1.table p).q_posi ≡ level = ground (arith, s2 p) in
    let en =
      enqueue-Holds k1.table (post ++ kept k.table pre) p h1
        (omega (
          arith,
          length-append pre (p ∷ post),
          length-append post (kept k.table pre),
          length-kept k.table pre,
        ))
        (ground (arith, s2 p)) in
    (
      enqueue_at k1 level p,
      rw (f, e1, posi),
      rw (==-refl level) en.1,
      SameButPosi-trans level (enqueue_at k1 level p).table k1.table k.table
          (λ r. ground (arith, en.2, v1)) s2,
      λ i n. rw (==-of_ne level i (λ z. n (sym z))) (q1 i n),
      ap
          (λ (z : Kernel). record z {
            table = (enqueue_at k1 level p).table;
            qs = (enqueue_at k1 level p).qs;
          })
          r1,
    )

pub yield_requeues :
    (others : Kernel → Kernel) (k k' : Kernel) (p : ℕ)
    → k.proc ≡ some p
    → k.yieldbytimer ≡ false
    → k.scheduler_mode ≡ 1
    → (k.table p).stride ≡ 0
    → requeue k p ≡ ok k'
    → yield others k
      ≡ ok (
          others (record (set_proc k' p (record (k'.table p) { state = runnable })) {
            yieldbytimer = false;
          }))
unfolding yield sched
yield_requeues others k k' p a b c d e = simp (a, b, c, d, e, ==-refl p)

-- A process that the timer has not interrupted gives up its turn: `yield` hands to the scheduler a
-- kernel in which the process is RUNNABLE at the end of its queue. The processes that waited before
-- it have gone behind the others, except those under stride scheduling, which have left the queue.
-- The other queues are as before, and no other process has changed but in `qPosi`.
pub yield_round_robin :
    (others : Kernel → Kernel) (k : Kernel) (p level : ℕ) (pre post : List ℕ)
    → k.proc ≡ some p
    → k.yieldbytimer ≡ false
    → k.scheduler_mode ≡ 1
    → (k.table p).state ≡ running
    → (k.table p).stride ≡ 0
    → (k.table p).q_posi ≡ level
    → (k.qs level).level ≡ level
    → Holds (k.qs level) (pre ++ (p ∷ post))
    → length (pre ++ (p ∷ post)) < 64
    → Others k.table p pre
    → (k' : Kernel) × (yield others k ≡ ok (others k'))
      × Holds (k'.qs level) ((post ++ kept k.table pre) ++ (p ∷ []))
      × ((k'.table p).state ≡ runnable)
      × (k'.proc ≡ some p)
      × ((l : ℕ) → l ≢ level → k'.qs l ≡ k.qs l)
      × ((r : ℕ) → r ≢ p → k'.table r ≡ record (k.table r) { q_posi = (k'.table r).q_posi })
yield_round_robin others k p level pre post a b c d e f g h l o =
    let (k1, e1, h1, s1, q1, r1) = requeue-lem k p level pre post c (ground arith) e f g h l o in
    (
      record (set_proc k1 p (record (k1.table p) { state = runnable })) { yieldbytimer = false },
      yield_requeues others k k1 p a b c e e1,
      h1,
      rw (==-refl p),
      ap (λ (z : Kernel). z.proc) r1 ∙ a,
      q1,
      λ r n. rw (==-of_ne p r (λ z. n (sym z))) (s1 r).0,
    )

-- A process that the timer has interrupted keeps its place.
pub yield_keeps_place :
    (others : Kernel → Kernel) (k : Kernel) (p : ℕ)
    → k.proc ≡ some p
    → k.yieldbytimer ≡ true
    → yield others k
      ≡ ok (
          others (record (set_proc k p (record (k.table p) { state = runnable })) {
            yieldbytimer = false;
          }))
unfolding yield sched
yield_keeps_place others k p a b = simp (a, b, ==-refl p)

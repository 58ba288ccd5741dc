-- ===== src/Trap/Clock.antt =====
-- What the clock interrupt of trap.c does to the process that it takes the processor from.
use hyu_3rd_1se.Prelude.{
  ℕ, ◌+◌, ◌%◌, ◌<◌, ◌≡◌, ◌≢◌, refl, ◌∙◌, ap, true, false, some, List, [], ◌∷◌, ◌++◌, arith, length,
  ok, ==-refl, ==-of_ne, ==-zero_of_pos,
}
use hyu_3rd_1se.Proc.{Table, running, runnable}
use hyu_3rd_1se.Mlfq.{Mlfq}
use hyu_3rd_1se.Mlfq.Ring.{Holds, enqueue-Holds}
use hyu_3rd_1se.Mlfq.Rotate.{Others, kept}
use hyu_3rd_1se.Kernel.{Kernel, dequeue_at, enqueue_at, requeue, set_proc}
use hyu_3rd_1se.Kernel.Turns.{dequeue_at-lem, requeue-lem, yield_keeps_place}
use hyu_3rd_1se.Trap.{divides, yield_by_timer, demote, rotate}

divides_yes : (a b : ℕ) → 0 < b → a % b ≡ 0 → divides a b ≡ ok true
divides_yes a b h e = rw (==-zero_of_pos b h, e)

yield_by_timer-lem :
    (others : Kernel → Kernel) (k : Kernel) (p : ℕ)
    → k.proc ≡ some p
    → yield_by_timer others k
      ≡ ok (
          others (record (set_proc k p (record (k.table p) { state = runnable })) {
            yieldbytimer = false;
          }))
unfolding yield_by_timer
yield_by_timer-lem others k p a =
    yield_keeps_place others (record k { yieldbytimer = true }) p a refl

demote_moves :
    (others : Kernel → Kernel) (k k1 : Kernel) (p level : ℕ)
    → (k.table p).q_posi ≡ level
    → level ≢ 2
    → 0 < (k.qs level).time_allot
    → (k.table p).consumed_time % (k.qs level).time_allot ≡ 0
    → dequeue_at k level p ≡ ok k1
    → (k1.table p).q_posi ≡ level
    → demote others k p ≡ yield_by_timer others (enqueue_at k1 (level + 1) p)
unfolding demote
demote_moves others k k1 p level f n t c e f1 =
    simp (f, divides_yes _ _ t c, ==-of_ne level 2 n, e, f1)

-- A process of the first or second queue whose time there is used up moves to the end of the queue
-- below, and waits there as RUNNABLE. In its old queue the processes before it have gone behind the
-- others, except those under stride scheduling, which have left.
pub demote-lem :
    (others : Kernel → Kernel) (k : Kernel) (p level : ℕ) (pre post ys : List ℕ)
    → k.proc ≡ some p
    → k.scheduler_mode ≡ 1
    → (k.table p).state ≡ running
    → (k.table p).stride ≡ 0
    → (k.table p).q_posi ≡ level
    → level < 2
    → (k.qs level).level ≡ level
    → (k.qs (level + 1)).level ≡ level + 1
    → 0 < (k.qs level).time_allot
    → (k.table p).consumed_time % (k.qs level).time_allot ≡ 0
    → Holds (k.qs level) (pre ++ (p ∷ post))
    → length (pre ++ (p ∷ post)) < 64
    → Others k.table p pre
    → Holds (k.qs (level + 1)) ys
    → length ys < 64
    → (k' : Kernel) × (demote others k p ≡ ok (others k'))
      × Holds (k'.qs level) (post ++ kept k.table pre)
      × Holds (k'.qs (level + 1)) (ys ++ (p ∷ []))
      × ((k'.table p).q_posi ≡ level + 1)
      × ((k'.table p).state ≡ runnable)
unfolding enqueue_at
demote-lem others k p level pre post ys a m st z f l2 g g' ta c h l o h' l' =
    let (k1, e1, h1, s1, v1, q1, r1) = dequeue_at-lem k level p pre post m h l o (ground arith) in
    let posi : (k1.table p).q_posi ≡ level = ground (arith, s1 p) in
    let other : k1.qs (level + 1) ≡ k.qs (level + 1) = q1 (level + 1) (omega arith) in
    let en =
      enqueue-Holds k1.table {q = k1.qs (level + 1)} ys p (rw other h') l' (ground (arith, s1 p)) in
    let k2 = enqueue_at k1 (level + 1) p in
    (
      record (set_proc k2 p (record (k2.table p) { state = runnable })) { yieldbytimer = false },
      demote_moves others k k1 p level f (omega arith) ta c e1 posi
          ∙ yield_by_timer-lem others k2 p (ap (λ (x : Kernel). x.proc) r1 ∙ a),
      rw (==-of_ne (level + 1) level (omega arith)) h1,
      rw (==-refl (level + 1)) en.1,
      rw (==-refl p) (
          ap (λ (t : Table). (t p).q_posi) (en.2)
          ∙ rw (==-refl p) (ap (λ (q : Mlfq). q.level) other ∙ g')),
      rw (==-refl p),
    )

rotate_moves :
    (others : Kernel → Kernel) (k k1 : Kernel) (p : ℕ)
    → 0 < (k.qs (k.table p).q_posi).time_quan
    → (k.table p).consumed_time % (k.qs (k.table p).q_posi).time_quan ≡ 0
    → requeue k p ≡ ok k1
    → rotate others k p ≡ yield_by_timer others k1
unfolding rotate
rotate_moves others k k1 p t c e = simp (divides_yes _ _ t c, e)

-- A process whose quantum is used up goes to the end of its own queue and waits as RUNNABLE, with the
-- same effect on the processes before it.
pub rotate-lem :
    (others : Kernel → Kernel) (k : Kernel) (p level : ℕ) (pre post : List ℕ)
    → k.proc ≡ some p
    → k.scheduler_mode ≡ 1
    → (k.table p).state ≡ running
    → (k.table p).stride ≡ 0
    → (k.table p).q_posi ≡ level
    → (k.qs level).level ≡ level
    → 0 < (k.qs level).time_quan
    → (k.table p).consumed_time % (k.qs level).time_quan ≡ 0
    → Holds (k.qs level) (pre ++ (p ∷ post))
    → length (pre ++ (p ∷ post)) < 64
    → Others k.table p pre
    → (k' : Kernel) × (rotate others k p ≡ ok (others k'))
      × Holds (k'.qs level) ((post ++ kept k.table pre) ++ (p ∷ []))
      × ((k'.table p).state ≡ runnable)
      × ((l : ℕ) → l ≢ level → k'.qs l ≡ k.qs l)
rotate-lem others k p level pre post a m st z f g ta c h l o =
    let (k1, e1, h1, s1, q1, r1) = requeue-lem k p level pre post m (ground arith) z f g h l o in
    (
      record (set_proc k1 p (record (k1.table p) { state = runnable })) { yieldbytimer = false },
      rotate_moves others k k1 p (rw f ta) (rw f c) e1
          ∙ yield_by_timer-lem others k1 p (ap (λ (x : Kernel). x.proc) r1 ∙ a),
      h1,
      rw (==-refl p),
      q1,
    )

-- ===== src/Scheduler/Round.antt =====
-- One round of `scheduler` of proc.c with an index that is left over.
use hyu_3rd_1se.Prelude.{
  ℕ, suc, ◌+◌, ◌<◌, ◌≤◌, ◌≡◌, refl, ap, ◌∙◌, true, false, List, ◌∷◌, length, leb, update, ok, ◌==◌,
  ==_iff, arith, Bool-cases, inl, inr, for_range,
}
use hyu_3rd_1se.Proc.{nproc, is_runnable, u32}
use hyu_3rd_1se.Mlfq.{Mlfq, Queues}
use hyu_3rd_1se.Mlfq.Ring.{Holds}
use hyu_3rd_1se.Mlfq.Rcount.{runners, check_rcount-lem}
use hyu_3rd_1se.Kernel.{Kernel}
use hyu_3rd_1se.Stride.{find_min_pass_stride, scan_pass, pass_limit}
use hyu_3rd_1se.Stride.MinPass.{find_min_pass_stride-not_runnable}
use hyu_3rd_1se.Scheduler.{check_rcounts, level_of, stride_loop, scheduler_round}
use hyu_3rd_1se.Scheduler.Choice.{mlfq_loop_stale_index}

-- The queues after `checkRcount` of each, and the kernel before the loop over the process table.
abbrev recounted : Kernel → List ℕ → List ℕ → List ℕ → Kernel
recounted k xs ys zs =
    let q0 : Mlfq = record (k.qs 0) { r_count = runners k.table xs } in
    let q1 : Mlfq = record (k.qs 1) { r_count = runners k.table ys } in
    let q2 : Mlfq = record (k.qs 2) { r_count = runners k.table zs } in
    record k { qs = update (update (update k.qs 0 q0) 1 q1) 2 q2; scheduler_mode = 0; cur_q = 0 }

recount :
    (k : Kernel) (xs ys zs : List ℕ)
    → Holds (k.qs 0) xs
    → Holds (k.qs 1) ys
    → Holds (k.qs 2) zs
    → length xs < 64
    → length ys < 64
    → length zs < 64
    → check_rcounts (record k { scheduler_mode = 0 })
      ≡ ok (record (recounted k xs ys zs) { cur_q = k.cur_q })
unfolding check_rcounts
recount k xs ys zs h0 h1 h2 l0 l1 l2 =
    rw
      (
        check_rcount-lem k.table (k.qs 0) xs h0 l0,
        check_rcount-lem k.table (k.qs 1) ys h1 l1,
        check_rcount-lem k.table (k.qs 2) zs h2 l2,
      )
      refl

-- The queues, their current level and the mode do not matter to `findMinPassStride`.
find_min_pass_stride-requeued :
    (k : Kernel) (qs : Queues) (level mode : ℕ)
    → find_min_pass_stride (record k { qs = qs; scheduler_mode = mode; cur_q = level })
      ≡ record (find_min_pass_stride k) { qs = qs; scheduler_mode = mode; cur_q = level }
unfolding find_min_pass_stride
find_min_pass_stride-requeued k qs level mode =
    elim (Bool-cases
      (for_range nproc 0 (scan_pass k.table) (k.mlfq_pass, leb pass_limit k.mlfq_pass)).1) [
        | inl o ↦ rw o refl
        | inr o ↦ rw o refl
      ]

stride_loop-mlfq_turn :
    (swtch : Kernel → Kernel) (left i : ℕ) (k : Kernel)
    → (find_min_pass_stride k).min_pass ≡ (find_min_pass_stride k).mlfq_pass
    → stride_loop swtch (suc left) i k ≡ record (find_min_pass_stride k) { scheduler_mode = 1 }
unfolding stride_loop
stride_loop-mlfq_turn swtch left i k e =
    let same : ((find_min_pass_stride k).min_pass == (find_min_pass_stride k).mlfq_pass) ≡ true =
      (==_iff _ _).1 e in
    rw same refl

level_of-first :
    (k : Kernel) (xs ys zs : List ℕ)
    → 0 < runners k.table xs
    → level_of (recounted k xs ys zs).qs ≡ 0
unfolding level_of
level_of-first k xs ys zs l = ground (arith, l)

-- The index over a queue is not reset between two rounds of `scheduler`. Where it stands at the end of
-- the first queue or behind it (but below 62), and the first process of that queue is not RUNNABLE, a round
-- in which the MLFQ has the least pass at once gives the processor to no process: its outcome is
-- the same kernel for every account of what a process does, also where a process could run second
-- or later in the queue. The index is left over further behind. (The queues hold at most 63 processes
-- each.)
pub scheduler_round-stale_index :
    (fuel : ℕ) (k : Kernel) (x : ℕ) (xs ys zs : List ℕ) (i : ℕ)
    → Holds (k.qs 0) (x ∷ xs)
    → Holds (k.qs 1) ys
    → Holds (k.qs 2) zs
    → length (x ∷ xs) < 64
    → length ys < 64
    → length zs < 64
    → 0 < runners k.table (x ∷ xs)
    → (find_min_pass_stride k).min_pass ≡ (find_min_pass_stride k).mlfq_pass
    → is_runnable (k.table x).state ≡ false
    → length xs ≤ i
    → i < 62
    → (k' : Kernel) × ((j : ℕ) → is_runnable (k.table j).state ≡ false → k'.table j ≡ k.table j)
      × ((swtch : Kernel → Kernel) → scheduler_round swtch (suc (suc fuel)) k i ≡ ok (k', i + 1))
unfolding scheduler_round
scheduler_round-stale_index fuel k x xs ys zs i h0 h1 h2 l0 l1 l2 some_run turn asleep behind b =
    let m = find_min_pass_stride k in
    let k1 = recounted k (x ∷ xs) ys zs in
    let k2 = record m { qs = k1.qs; scheduler_mode = 1; cur_q = 0 } in
    let searched : find_min_pass_stride k1
        ≡ record m { qs = k1.qs; scheduler_mode = 0; cur_q = 0 } =
      find_min_pass_stride-requeued k k1.qs 0 0 in
    let turn1 : (find_min_pass_stride k1).min_pass ≡ (find_min_pass_stride k1).mlfq_pass =
      rw searched turn in
    let level : level_of k1.qs ≡ 0 = level_of-first k (x ∷ xs) ys zs some_run in
    let kept = find_min_pass_stride-not_runnable k in
    let asleep2 : is_runnable (m.table x).state ≡ false = rw (kept x asleep) asleep in
    let holds : Holds (k2.qs 0) (x ∷ xs) = record {
      front_in = h0.front_in;
      rear_at = h0.rear_at;
      counted = h0.counted;
      fits = h0.fits;
      slots = h0.slots;
    } in
    (
      record k2 { mlfq_pass = u32 (k2.mlfq_pass + k2.mlfq_stride) },
      kept,
      λ swtch.
          let strides : stride_loop swtch nproc 0 k1 ≡ k2 =
            stride_loop-mlfq_turn swtch 63 0 k1 turn1
            ∙ ap (λ (u : Kernel). record u { scheduler_mode = 1 }) searched in
          rw
            (
              recount k (x ∷ xs) ys zs h0 h1 h2 l0 l1 l2,
              level,
              strides,
              mlfq_loop_stale_index swtch fuel 0 k2 x xs i level refl holds asleep2 behind b,
            )
            refl,
    )

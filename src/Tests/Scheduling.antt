-- ===== src/Tests/Scheduling.antt =====
-- stride.c, the clock interrupt and the scheduler at concrete kernels.
use hyu_3rd_1se.Prelude.{
  ℕ, suc, ◌+◌, ◌<◌, ◌≤◌, ◌≡◌, ◌≢◌, ◌⊎◌, refl, true, false, none, some, [], ◌∷◌, ok, arith, update,
  ◌++◌, for_range,
}
use hyu_3rd_1se.Proc.{nproc, runnable, is_runnable}
use hyu_3rd_1se.Mlfq.{idx_peek_mlfq, peek_mlfq}
use hyu_3rd_1se.Mlfq.Ring.{Holds, init_mlfq-Holds}
use hyu_3rd_1se.Mlfq.Rotate.{kept}
use hyu_3rd_1se.Kernel.{Kernel, yield}
use hyu_3rd_1se.Kernel.Turns.{yield_round_robin}
use hyu_3rd_1se.Stride.{find_min_pass_stride, scan_pass, rebase, share_stride_in_proc}
use hyu_3rd_1se.Stride.MinPass.{competes, find_min_pass_stride-least}
use hyu_3rd_1se.Stride.Share.{share_stride_in_proc-lem, each_stride_of, shared}
use hyu_3rd_1se.Trap.{demote}
use hyu_3rd_1se.Trap.Clock.{demote-lem}
use hyu_3rd_1se.Scheduler.{level_of, mlfq_loop, run_process, scheduler_round}
use hyu_3rd_1se.Scheduler.Choice.{mlfq_loop_first}
use hyu_3rd_1se.Scheduler.Round.{scheduler_round-stale_index}
use hyu_3rd_1se.Mlfq.Rcount.{runners}
use hyu_3rd_1se.Scenario.{
  procs, three, one-Holds, three-Holds, queues, kernel, three-level, one-level, tired, tired-Holds,
  sharing,
}

yield_round_robin_example :
    (k' : Kernel) × (yield (λ k. k) kernel ≡ ok k')
    × Holds (k'.qs 0) (kept procs (5 ∷ 4 ∷ []) ++ (3 ∷ []))
    × ((k'.table 3).state ≡ runnable)
    × (k'.proc ≡ some 3)
    × ((l : ℕ) → l ≢ 0 → k'.qs l ≡ kernel.qs l)
    × ((r : ℕ) → r ≢ 3 → k'.table r ≡ record (procs r) { q_posi = (k'.table r).q_posi })
yield_round_robin_example =
    yield_round_robin (λ k. k) kernel 3 0 (5 ∷ 4 ∷ []) [] refl refl refl refl refl refl three-level
      (three-Holds 0 5 4 3 refl refl refl) (omega arith) (refl, (refl, tt))

demote-lem_example :
    (k' : Kernel) × (demote (λ k. k) tired 3 ≡ ok k')
    × Holds (k'.qs 0) (kept tired.table (5 ∷ 4 ∷ []))
    × Holds (k'.qs 1) (6 ∷ 3 ∷ [])
    × ((k'.table 3).q_posi ≡ 1)
    × ((k'.table 3).state ≡ runnable)
demote-lem_example =
    demote-lem (λ k. k) tired 3 0 (5 ∷ 4 ∷ []) [] (6 ∷ []) refl refl refl refl refl (omega arith)
      three-level one-level (omega arith) refl tired-Holds (omega arith) (refl, (refl, tt))
      (one-Holds 1 6 refl) (omega arith)

find_min_pass_stride-least_example :
    let m = (find_min_pass_stride sharing).min_pass in
    (m ≤ 60)
    × ((j : ℕ) → j < nproc → competes (sharing.table j) ≡ true → m ≤ (sharing.table j).pass)
    × ((m ≡ 60)
        ⊎ ((j : ℕ) × (j < nproc)
            × (competes (sharing.table j) ≡ true)
            × (m ≡ (sharing.table j).pass)))
find_min_pass_stride-least_example = find_min_pass_stride-least sharing

-- The passes 40 and 2147463700 are rebased to 10 and 2147463670.
rebased_passes :
    let k' = find_min_pass_stride sharing in
    ((k'.table 7).pass ≡ 10) × ((k'.table 8).pass ≡ 2147463670) × (k'.mlfq_pass ≡ 30)
unfolding find_min_pass_stride scan_pass rebase for_range
rebased_passes = (refl, refl, refl)

share_stride_in_proc-lem_example :
    let p = sharing.table 8 in
    let k1 = find_min_pass_stride sharing in
    let k' = share_stride_in_proc sharing 8 in
    (p.stride ≡ 0 → k' ≡ sharing)
    × (p.stride ≢ 0 → (k'.table 8).stride ≡ each_stride_of p)
    × (p.stride ≢ 0
        → (j : ℕ) → j < nproc
        → j ≢ 8
        → k'.table j ≡ shared 8 (each_stride_of p) k1.min_pass (k1.table j))
share_stride_in_proc-lem_example = share_stride_in_proc-lem sharing 8

-- A process that comes back at once and has changed nothing.
abbrev idle : Kernel → Kernel
idle k = k

-- The first queue with its count of processes that could run.
abbrev counted : Kernel
counted = record kernel {
  qs = update queues 0 (record (three 0 5 4 3) { r_count = 2 });
  proc = none;
}

counted-Holds : Holds (record (three 0 5 4 3) { r_count = 2 }) (5 ∷ 4 ∷ 3 ∷ [])
counted-Holds =
    let h = three-Holds 0 5 4 3 refl refl refl in
    record {
      front_in = h.front_in;
      rear_at = h.rear_at;
      counted = h.counted;
      fits = h.fits;
      slots = h.slots;
    }

mlfq_loop_first_example :
    let k' = run_process idle counted 4 in
    mlfq_loop idle (1 + suc 3) 0 (peek_mlfq (counted.qs 0)) counted 0
    ≡ mlfq_loop idle 3 0 (idx_peek_mlfq (k'.qs 0) 0) k' 0
unfolding level_of
mlfq_loop_first_example =
    mlfq_loop_first idle 3 0 counted 4 (5 ∷ []) (3 ∷ []) refl refl counted-Holds (refl, tt) refl

-- 5 sleeps; 4 is RUNNABLE behind it, and the MLFQ has the least pass.
abbrev resting : Kernel
resting = record kernel { proc = none }

resting-turn : (find_min_pass_stride resting).min_pass ≡ (find_min_pass_stride resting).mlfq_pass
unfolding find_min_pass_stride scan_pass for_range
resting-turn = refl

scheduler_round-stale_index_example :
    (k' : Kernel) × ((j : ℕ)
      → is_runnable (resting.table j).state ≡ false
      → k'.table j ≡ resting.table j)
    × ((swtch : Kernel → Kernel) → scheduler_round swtch 2 resting 2 ≡ ok (k', 3))
unfolding runners
scheduler_round-stale_index_example =
    scheduler_round-stale_index 0 resting 5 (4 ∷ 3 ∷ []) (6 ∷ []) [] 2
      (three-Holds 0 5 4 3 refl refl refl) (one-Holds 1 6 refl) (init_mlfq-Holds _) (omega arith)
      (omega arith) (omega arith) (omega arith) resting-turn refl (omega arith) (omega arith)

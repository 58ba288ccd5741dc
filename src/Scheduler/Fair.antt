-- ===== src/Scheduler/Fair.antt =====
-- Which processes under stride scheduling `scheduler` of proc.c gives the processor to.
use hyu_3rd_1se.Prelude.{ℕ, zero, suc, ◌+◌, ◌≡◌, ◌≢◌, some, none}
use hyu_3rd_1se.Proc.{runnable, running, u32}
use hyu_3rd_1se.Kernel.{Kernel, set_proc}
use hyu_3rd_1se.Stride.{find_min_pass_stride}

-- The process may run under stride scheduling: it is RUNNABLE and has a share, and its pass is `minPass`.
pub record MayRun (k : Kernel) (p : ℕ) : Type 0 where
  pub is_ready : (k.table p).state ≡ runnable
  pub has_share : (k.table p).stride ≢ 0
  pub is_least : (k.table p).pass ≡ k.min_pass

-- The kernel `h` that is handed to the process: it is RUNNING and the current one, the scheduler is in its
-- mode 0, the process's pass has grown by its stride, and all other processes and the queues are as they were.
pub record Handed (k : Kernel) (p : ℕ) (h : Kernel) : Type 0 where
  pub current : h.proc ≡ some p
  pub stride_mode : h.scheduler_mode ≡ 0
  pub runs :
      h.table p
      ≡ record (k.table p) { pass = u32 ((k.table p).pass + (k.table p).stride); state = running }
  pub others : (j : ℕ) → j ≢ p → h.table j ≡ k.table j
  pub rest : record h { table = k.table; proc = k.proc; scheduler_mode = k.scheduler_mode } ≡ k

-- A run of the loop over the process table from an entry on, with so many entries left, from one kernel to
-- another.
pub data FairRun (swtch : Kernel → Kernel) : ℕ → ℕ → Kernel → Kernel → Type 0 where
  ends : (i : ℕ) (k : Kernel) → FairRun swtch zero i k k
  mlfq_turn :
      (left i : ℕ) (k : Kernel)
      → (find_min_pass_stride k).min_pass ≡ (find_min_pass_stride k).mlfq_pass
      → FairRun swtch (suc left) i k (record (find_min_pass_stride k) { scheduler_mode = 1 })
  passes_over :
      (left i : ℕ) (k k' : Kernel)
      → (find_min_pass_stride k).min_pass ≢ (find_min_pass_stride k).mlfq_pass
      → (MayRun (find_min_pass_stride k) i → ⊥)
      → FairRun swtch left (suc i) (find_min_pass_stride k) k'
      → FairRun swtch (suc left) i k k'
  switches :
      (left i : ℕ) (k h k' : Kernel)
      → (find_min_pass_stride k).min_pass ≢ (find_min_pass_stride k).mlfq_pass
      → MayRun (find_min_pass_stride k) i
      → Handed (find_min_pass_stride k) i h
      → FairRun swtch left (suc i) (record (swtch h) { proc = none }) k'
      → FairRun swtch (suc left) i k k'

-- What `scheduler` hands to the process.
abbrev handed : Kernel → ℕ → Kernel
handed k p =
    let x = k.table p in
    let k2 = record (set_proc k p (record x { pass = u32 (x.pass + x.stride) })) {
      scheduler_mode = 0;
    } in
    set_proc (record k2 { proc = some p }) p (record (k2.table p) { state = running })

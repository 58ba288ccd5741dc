-- ===== src/Scheduler.antt =====
-- OS/HW4/xv6-proj/proc.c, `scheduler`: how the next process is chosen.
--
-- `swtch` is the argument that stands for the run of the chosen process until it comes back, with
-- what it and the interrupts do to the kernel.
pub mod Choice
pub mod Fair
pub mod Round
use hyu_3rd_1se.Prelude.{
  ℕ, zero, suc, ◌+◌, ◌/◌, Bool, true, false, not, ◌&&◌, ◌||◌, Option, none, some, ◌==◌,
  if◌then◌else◌, update, for_range, Result, ok, fault, diverges, ◌>>=◌,
}
use hyu_3rd_1se.Proc.{Proc, Table, nproc, u16, u32, running, is_runnable, is_unused}
use hyu_3rd_1se.Mlfq.{Mlfq, Queues, init_mlfq, check_rcount, peek_mlfq, idx_peek_mlfq}
use hyu_3rd_1se.Kernel.{Kernel, set_proc, enqueue_at}
use hyu_3rd_1se.Stride.{find_min_pass_stride, init_stride, stride_large_number}

-- `initMlfqGlobal`, with the constants of mlfq.h
unfoldable pub init_mlfq_global : Kernel → Kernel
init_mlfq_global k =
    let q0 = record (k.qs 0) { level = 0; time_quan = 1; time_allot = 5 } in
    let q1 = record (k.qs 1) { level = 1; time_quan = 1; time_allot = 10 } in
    let q2 = record (k.qs 2) { level = 2; time_quan = 1; time_allot = 20 } in
    record k {
      qs = update (update (update k.qs 0 q0) 1 q1) 2 q2;
      mlfq_pass = 0;
      mlfq_stride = u16 (stride_large_number / 20);
      mlfq_cpu_share = 20;
    }

-- One round of the loop that puts the processes in use into the first queue.
unfoldable pub enqueue_used : ℕ → Kernel → Kernel
enqueue_used i k = if is_unused (k.table i).state then k else enqueue_at k 0 i

-- The code of `scheduler` before its endless loop.
unfoldable pub scheduler_init : Kernel → Kernel
scheduler_init k =
    let qs0 =
      update (update (update k.qs 0 (init_mlfq (k.qs 0))) 1 (init_mlfq (k.qs 1))) 2
        (init_mlfq (k.qs 2)) in
    let k1 = init_stride (init_mlfq_global (record k { cur_q = 0; qs = qs0 })) in
    for_range nproc 0 enqueue_used k1

unfoldable pub check_rcounts : Kernel → Result Kernel
check_rcounts k = check_rcount k.table (k.qs 0) >>= λ q0. check_rcount k.table (k.qs 1) >>= λ q1.
    check_rcount k.table (k.qs 2) >>= λ q2.
    ok (record k { qs = update (update (update k.qs 0 q0) 1 q1) 2 q2 })

-- The highest queue in which a process could run, or 0.
unfoldable pub level_of : Queues → ℕ
level_of qs =
    if not ((qs 0).r_count == 0)
    then 0
    else if not ((qs 1).r_count == 0)
    then 1
    else if not ((qs 2).r_count == 0)
    then 2
    else 0

unfoldable pub run_process : (Kernel → Kernel) → Kernel → ℕ → Kernel
run_process swtch k p =
    let k1 =
      swtch (set_proc (record k { proc = some p }) p (record (k.table p) { state = running })) in
    record k1 { proc = none }

-- The loop over the process table, from index `i`.
unfoldable pub stride_loop : (Kernel → Kernel) → ℕ → ℕ → Kernel → Kernel
stride_loop swtch zero i k = k
stride_loop swtch (suc rounds) i k =
    let k1 = find_min_pass_stride k in
    let p = k1.table i in
    let k2 = record (set_proc k1 i (record p { pass = u32 (p.pass + p.stride) })) {
      scheduler_mode = 0;
    } in
    let skip = stride_loop swtch rounds (suc i) k1 in
    let ran = stride_loop swtch rounds (suc i) (run_process swtch k2 i) in
    if k1.min_pass == k1.mlfq_pass
    then record k1 { scheduler_mode = 1 }
    else if not (p.pass == k1.min_pass) || p.stride == 0
    then skip
    else if not (is_runnable p.state)
    then skip
    else ran

-- The loop over the queue `next_q` at the pointer `p`; it ends where the queue ends, or where
-- another queue is to be served, and returns the kernel and its index `i`.
unfoldable pub mlfq_loop : (Kernel → Kernel) → ℕ → ℕ → Option ℕ → Kernel → ℕ → Result (Kernel × ℕ)
mlfq_loop swtch zero next_q p k i = fault diverges
mlfq_loop swtch (suc fuel) next_q none k i = ok (k, i)
mlfq_loop swtch (suc fuel) next_q (some p) k i =
    let k1 = record k { cur_q = level_of k.qs } in
    let k2 = run_process swtch k1 p in
    let skip = mlfq_loop swtch fuel next_q (idx_peek_mlfq (k1.qs next_q) (i + 1)) k1 (i + 1) in
    let ran = mlfq_loop swtch fuel next_q (idx_peek_mlfq (k2.qs next_q) 0) k2 0 in
    if not (next_q == k1.cur_q)
    then ok (k1, i)
    else if not (is_runnable (k.table p).state)
    then skip
    else ran

-- One round of the endless loop of `scheduler`. Its variable `i` keeps its value from round to
-- round. `fuel` bounds the loop over a queue, which runs as long as processes do.
unfoldable pub scheduler_round : (Kernel → Kernel) → ℕ → Kernel → ℕ → Result (Kernel × ℕ)
scheduler_round swtch fuel k i = check_rcounts (record k { scheduler_mode = 0 }) >>= λ k1.
    let next_q = level_of k1.qs in
    let k2 = stride_loop swtch nproc 0 (record k1 { cur_q = next_q }) in
    if k2.scheduler_mode == 1
    then (mlfq_loop swtch fuel next_q (peek_mlfq (k2.qs next_q)) k2 i >>= λ r.
        ok (record (r.0) { mlfq_pass = u32 ((r.0).mlfq_pass + (r.0).mlfq_stride) }, r.1))
    else ok (k2, i)

-- ===== src/Trap.antt =====
-- OS/HW4/xv6-proj/trap.c: the clock interrupt, which counts the time that a process has used and
-- takes the processor away from it.
pub mod Clock
use hyu_3rd_1se.Prelude.{
  ℕ, ◌+◌, ◌%◌, Bool, true, false, not, ◌&&◌, Option, none, some, ltb, ◌==◌, if◌then◌else◌, update,
  Result, ok, fault, div_by_zero, ◌>>=◌,
}
use hyu_3rd_1se.Proc.{Proc, Table, u32, is_running, wakeup1}
use hyu_3rd_1se.Mlfq.{Mlfq, Queues, boost_mlfq, max_queue_num}
use hyu_3rd_1se.Kernel.{Kernel, Others, deref, set_proc, dequeue_at, enqueue_at, requeue, yield}

abbrev pub mlfq_boost_time : ℕ
mlfq_boost_time = 100

abbrev pub time_per_one_pass : ℕ
time_per_one_pass = 8

-- `a % b == 0`
abbrev pub divides : ℕ → ℕ → Result Bool
divides a b = if b == 0 then fault div_by_zero else ok (a % b == 0)

-- The case `T_IRQ0 + IRQ_TIMER` on processor 0. `ticks_chan` is the address of `ticks`.
unfoldable pub count_tick : ℕ → Kernel → Kernel
count_tick ticks_chan k =
    let t : Table = elim k.proc [
      | none ↦ k.table
      | some p ↦
          update k.table p
            (record (k.table p) { consumed_time = u32 ((k.table p).consumed_time + 1) })
    ] in
    record k { table = wakeup1 ticks_chan t; ticks = u32 (k.ticks + 1) }

unfoldable pub yield_by_timer : Others → Kernel → Result Kernel
yield_by_timer others k = yield others (record k { yieldbytimer = true })

unfoldable pub boost : Kernel → Result Kernel
boost k = boost_mlfq k.table k.qs >>= λ r. ok (record k { table = r.0; qs = r.1 })

-- A process that has used the time of its queue moves to the queue below.
unfoldable pub demote : Others → Kernel → ℕ → Result Kernel
demote others k p =
    divides (k.table p).consumed_time (k.qs (k.table p).q_posi).time_allot >>= λ used.
    if used && not ((k.table p).q_posi == 2)
    then (dequeue_at k (k.table p).q_posi p >>= λ k1.
        let level = (k1.table p).q_posi in
        yield_by_timer others (enqueue_at k1 (if level == 2 then level else level + 1) p))
    else ok k

-- A process that has used its quantum goes to the end of its queue.
unfoldable pub rotate : Others → Kernel → ℕ → Result Kernel
rotate others k p =
    divides (k.table p).consumed_time (k.qs (k.table p).q_posi).time_quan >>= λ used.
    if used then (requeue k p >>= λ k1. yield_by_timer others k1) else ok k

-- The end of `trap` after a clock interrupt, while a process is RUNNING.
unfoldable pub on_clock : Others → Kernel → ℕ → Result Kernel
on_clock others k p =
    if k.scheduler_mode == 1
    then if k.ticks % mlfq_boost_time == 0
      then (boost k >>= λ k1. yield_by_timer others k1)
      else if ltb 2 (k.table p).pid && is_running (k.table p).state
      then (demote others k p >>= λ k1. deref k1.proc >>= λ p1. rotate others k1 p1)
      else ok k
    else if (k.table p).consumed_time % time_per_one_pass == 0
    then yield_by_timer others k
    else ok k

unfoldable pub after_clock : Others → Kernel → Result Kernel
after_clock others k = elim k.proc [
  | none ↦ ok k
  | some p ↦ if is_running (k.table p).state then on_clock others k p else ok k
]

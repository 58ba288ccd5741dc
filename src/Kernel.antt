-- ===== src/Kernel.antt =====
-- OS/HW4/xv6-proj: the variables that the scheduler's files share (mlfq.h, stride.h, proc.c, trap.c),
-- and `yield` and `sched` of proc.c.
--
-- The kernel runs on one processor with `ptable.lock` held, so an operation is a function on the
-- state. What happens between `swtch` to the scheduler and the return to the process is `others`, an
-- argument of the operations that wait.
pub mod Turns
use hyu_3rd_1se.Prelude.{
  ℕ, ◌+◌, ◌%◌, ◌^◌, Bool, true, false, not, ◌&&◌, Option, none, some, ◌==◌, if◌then◌else◌, update,
  Result, ok, fault, panic, null_deref, ◌>>=◌,
}
use hyu_3rd_1se.Prelude.Int.{ℤ}
use hyu_3rd_1se.Proc.{Proc, Table, runnable, is_running}
use hyu_3rd_1se.Mlfq.{Mlfq, Queues, enqueue, dequeue}

-- `proc` is the process that runs. `initproc` and the counters are those of proc.c.
pub record Kernel : Type 0 where
  pub table : Table
  pub qs : Queues
  pub proc : Option ℕ
  pub initproc : Option ℕ
  pub nextpid : ℕ
  pub nexttid : ℕ
  pub cur_q : ℕ
  pub scheduler_mode : ℕ
  pub mlfq_pass : ℕ
  pub mlfq_stride : ℕ
  pub mlfq_cpu_share : ℕ
  pub mlfq_proc : Option ℕ
  pub yieldbytimer : Bool
  pub cur_stride_por : ℤ
  pub min_pass : ℕ
  pub ticks : ℕ

abbrev pub Others : Type 0
Others = Kernel → Kernel

-- A field access through a pointer that may be null.
abbrev pub deref : Option ℕ → Result ℕ
deref none = fault null_deref
deref (some p) = ok p

abbrev pub set_proc : Kernel → ℕ → Proc → Kernel
set_proc k p v = record k { table = update k.table p v }

-- As many rounds as a queue of less than 64 processes can need.
abbrev pub dequeue_fuel : ℕ
dequeue_fuel = 65

-- `dequeue(&qOfM[level],p)` and `enqueue(&qOfM[level],p)`
unfoldable pub dequeue_at : Kernel → ℕ → ℕ → Result Kernel
dequeue_at k level p = dequeue dequeue_fuel k.scheduler_mode k.table (k.qs level) p >>= λ r.
    ok (record k { table = r.0; qs = update k.qs level r.1 })

unfoldable pub enqueue_at : Kernel → ℕ → ℕ → Kernel
enqueue_at k level p =
    let (t, q, _) = enqueue k.table (k.qs level) p in
    record k { table = t; qs = update k.qs level q }

-- `sched` with the locks and interrupts in order.
unfoldable pub sched : Others → Kernel → ℕ → Result Kernel
sched others k p = if is_running (k.table p).state then fault panic else ok (others k)

unfoldable pub requeue : Kernel → ℕ → Result Kernel
requeue k p = dequeue_at k (k.table p).q_posi p >>= λ k'. ok (enqueue_at k' (k'.table p).q_posi p)

unfoldable pub yield : Others → Kernel → Result Kernel
yield others k = deref k.proc >>= λ p.
    let turn = not k.yieldbytimer && (k.table p).stride == 0 && k.scheduler_mode == 1 in
    (if turn then requeue k p else ok k) >>= λ k'.
    let k2 = set_proc k' p (record (k'.table p) { state = runnable }) in
    sched others (record k2 { yieldbytimer = false }) p

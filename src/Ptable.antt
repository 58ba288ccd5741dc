-- ===== src/Ptable.antt =====
-- OS/HW4/xv6-proj/proc.c: the life of a process in the process table.
pub mod Setting
pub mod Life
pub mod Fork
pub mod Wait
use hyu_3rd_1se.Prelude.{
  ℕ, zero, suc, ◌+◌, ◌-◌, ◌%◌, Bool, true, false, not, ◌&&◌, ◌||◌, Option, none, some, ltb, leb,
  ◌==◌, if◌then◌else◌, update, Result, ok, fault, panic, diverges, null_deref, ◌>>=◌,
}
use hyu_3rd_1se.Proc.{
  Proc, Table, ProcState, unused, embryo, sleeping, runnable, running, zombie, nproc, is_unused,
  is_sleeping, is_zombie, points_to, wakeup1,
}
use hyu_3rd_1se.Kernel.{Kernel, Others, deref, set_proc, dequeue_at, enqueue_at, sched}
use hyu_3rd_1se.Stride.{cut_cpu_share}
use Setting.{Env}

-- The address of an entry of the process table as a channel. Other channels are above 64.
abbrev pub proc_chan : ℕ → ℕ
proc_chan p = p + 1

abbrev pub pointer_chan : Option ℕ → ℕ
pointer_chan none = 0
pointer_chan (some p) = proc_chan p

abbrev pub wake_all : ℕ → Kernel → Kernel
wake_all chan k = record k { table = wakeup1 chan k.table }

-- The first entry from index `i` on that passes a test, in a scan over `rounds` entries.
unfoldable pub find_proc : (Proc → Bool) → ℕ → ℕ → Table → Option ℕ
find_proc test zero i t = none
find_proc test (suc rounds) i t =
    let next = find_proc test rounds (suc i) t in if test (t i) then some i else next

-- The end of `allocproc` and `allocthread`: a kernel stack, or the entry is given back.
unfoldable pub give_stack : Env → Kernel → ℕ → Kernel × Option ℕ
give_stack e k p =
    let k1 = set_proc k p (record (k.table p) { kstack = e.page k }) in
    if e.page k == 0
    then (set_proc k1 p (record (k1.table p) { state = unused }), none)
    else (k1, some p)

unfoldable pub init_proc : Env → Kernel → Option ℕ → Kernel × Option ℕ
init_proc e k none = (k, none)
init_proc e k (some p) =
    let fresh = record (k.table p) {
      state = embryo;
      pid = k.nextpid;
      tid = 0;
      isthread = false;
      num_of_thread = 0;
    } in
    give_stack e (record (set_proc k p fresh) { nextpid = k.nextpid + 1 }) p

unfoldable pub allocproc : Env → Kernel → Kernel × Option ℕ
allocproc e k = init_proc e k (find_proc (λ p. is_unused p.state) nproc 0 k.table)

-- The entry is given back when the memory of the parent cannot be copied.
abbrev pub undo_alloc : Kernel → ℕ → Kernel
undo_alloc k np = set_proc k np (record (k.table np) { kstack = 0; state = unused })

-- The end of `fork` and `thread_fork` for the new process `np`. What it does with open files is left
-- out. The result is the pid of the child, or `none` for -1.
unfoldable pub start_child : Env → Kernel → ℕ → ℕ → Kernel × Option ℕ
start_child e k p np =
    if not (e.copied k)
    then (undo_alloc k np, none)
    else let k1 =
        set_proc k np
          (record (k.table np) { sz = (k.table p).sz; parent = some p; state = runnable }) in
      (enqueue_at k1 0 np, some (k1.table np).pid)

unfoldable pub fork_with : Env → Kernel → ℕ → Option ℕ → Kernel × Option ℕ
fork_with e k p none = (k, none)
fork_with e k p (some np) = start_child e k p np

-- `fork` of a process that is no thread, after its first test.
unfoldable pub fork_process : Env → Kernel → ℕ → Kernel × Option ℕ
fork_process e k p = let (k1, np) = allocproc e k in fork_with e k1 p np

-- `thread_fork` reads the parent's trap frame first. The pages that it frees are the child's.
unfoldable pub thread_fork : Env → Kernel → ℕ → Result (Kernel × Option ℕ)
thread_fork e k p = deref (k.table p).parent >>= λ _. ok (fork_process e k p)

unfoldable pub fork : Env → Kernel → Result (Kernel × Option ℕ)
fork e k = deref k.proc >>= λ p.
    if (k.table p).isthread then thread_fork e k p else ok (fork_process e k p)

-- `sleep` up to the switch, and from there on.
unfoldable pub fall_asleep : Kernel → ℕ → ℕ → Kernel
fall_asleep k p chan = set_proc k p (record (k.table p) { chan = chan; state = sleeping })

unfoldable pub sleep : Env → Kernel → ℕ → Result Kernel
sleep e k chan = elim k.proc [
  | none ↦ fault panic
  | some p ↦ sched e.others (fall_asleep k p chan) p >>= λ k1.
      deref k1.proc >>= λ p1. ok (set_proc k1 p1 (record (k1.table p1) { chan = 0 }))
]

unfoldable pub wakeup : Kernel → ℕ → Kernel
wakeup k chan = wake_all chan k

-- True where the code returns 0, and false where it returns -1.
unfoldable pub mark_killed : Kernel → Option ℕ → Kernel × Bool
mark_killed k none = (k, false)
mark_killed k (some i) =
    let p = record (k.table i) { killed = true } in
    (set_proc k i (if is_sleeping p.state then record p { state = runnable } else p), true)

unfoldable pub kill : Kernel → ℕ → Kernel × Bool
kill k pid = mark_killed k (find_proc (λ p. p.pid == pid) nproc 0 k.table)

abbrev pub is_child : ℕ → Proc → Bool
is_child parent p = points_to p.parent parent && not p.isthread

-- `wait` takes an exited child out of the table.
unfoldable pub reap : Kernel → ℕ → Kernel
reap k c =
    set_proc k c
      (record (k.table c) { kstack = 0; pid = 0; parent = none; killed = false; state = unused })

abbrev pub exited : ℕ → Proc → Bool
exited parent c = is_child parent c && is_zombie c.state

-- What a round of `wait` does with the child that has exited and the child that its scan finds;
-- `again` is the sleep and the next rounds.
unfoldable pub wait_round :
    Result (Kernel × Option ℕ) → Kernel → ℕ → Option ℕ → Option ℕ → Result (Kernel × Option ℕ)
wait_round again k p (some c) child = ok (reap k c, some (k.table c).pid)
wait_round again k p none none = ok (k, none)
wait_round again k p none (some c) = if (k.table p).killed then ok (k, none) else again

-- The loop of `wait`, with `rounds` scans of the table; `none` stands for -1.
unfoldable pub wait_loop : Env → ℕ → Kernel → Result (Kernel × Option ℕ)
wait_loop e zero k = fault diverges
wait_loop e (suc rounds) k = deref k.proc >>= λ p.
    wait_round (sleep e k (proc_chan p) >>= λ k1. wait_loop e rounds k1) k p
      (find_proc (exited p) nproc 0 k.table) (find_proc (is_child p) nproc 0 k.table)

-- One round of the loop of `exit` over the table, for a child that is no thread.
unfoldable pub adopt : Kernel → ℕ → Kernel
adopt k c =
    let k1 = set_proc k c (record (k.table c) { parent = k.initproc }) in
    if is_zombie (k1.table c).state then wake_all (pointer_chan k.initproc) k1 else k1

-- `exit` and `thread_exit`: a process leaves its queue and gives its share back.
unfoldable pub leave_queue : Kernel → ℕ → Result Kernel
leave_queue k p =
    (if (k.table p).stride == 0 then dequeue_at k (k.table p).q_posi p else ok k) >>= λ k1.
    let k2 = if ltb 2 (k1.table p).pid then cut_cpu_share k1 (k1.table p).stride else k1 in
    ok (set_proc k2 p (record (k2.table p) { consumed_time = 0; stride = 0; pass = 0; q_posi = 0 }))

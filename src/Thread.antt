-- ===== src/Thread.antt =====
-- OS/HW4/xv6-proj/proc.c: the calls of threads, and `exit`, which ends a process with its threads.
pub mod Effects
use hyu_3rd_1se.Prelude.{
  ℕ, zero, suc, ◌+◌, ◌-◌, ◌*◌, ◌/◌, ◌%◌, ◌^◌, Bool, true, false, not, ◌&&◌, ◌||◌, Option, none,
  some, ltb, leb, ◌==◌, if◌then◌else◌, update, Result, ok, fault, panic, diverges, ◌>>=◌,
}
use hyu_3rd_1se.Proc.{
  Proc, Table, unused, embryo, runnable, running, zombie, nproc, u16, u32, is_unused, is_zombie,
  points_to,
}
use hyu_3rd_1se.Kernel.{Kernel, deref, set_proc, dequeue_at, enqueue_at, sched, yield}
use hyu_3rd_1se.Stride.{cut_cpu_share, share_stride_in_proc}
use hyu_3rd_1se.Ptable.{
  proc_chan, pointer_chan, wake_all, find_proc, give_stack, sleep, adopt, leave_queue,
}
use hyu_3rd_1se.Ptable.Setting.{Env}

abbrev pub pgsize : ℕ
pgsize = 4096

-- `PGROUNDUP`
abbrev pub pground_up : ℕ → ℕ
pground_up sz = u32 (sz + pgsize - 1) / pgsize * pgsize

-- a - b on 32 bits
abbrev pub minus32 : ℕ → ℕ → ℕ
minus32 a b = (a + 2 ^ 32 - b) % 2 ^ 32

-- What `allocuvm` and `deallocuvm` of vm.c return; `room` tells whether the pages were there.
abbrev pub kernbase : ℕ
kernbase = 2147483648

unfoldable pub allocuvm : Bool → ℕ → ℕ → ℕ
allocuvm room oldsz newsz =
    if leb kernbase newsz then 0 else if ltb newsz oldsz then oldsz else if room then newsz else 0

unfoldable pub deallocuvm : ℕ → ℕ → ℕ
deallocuvm oldsz newsz = if leb oldsz newsz then oldsz else newsz

-- The `sz` that `growproc` computes for `n > 0` and `n < 0`, by the absolute value of `n`.
unfoldable pub grow_size : Bool → ℕ → ℕ → ℕ
unfolding allocuvm
grow_size room sz n = allocuvm room sz (u32 (sz + n))

unfoldable pub shrink_size : ℕ → ℕ → ℕ
unfolding deallocuvm
shrink_size sz n = deallocuvm sz (minus32 sz n)

-- The end of `growproc` with the new size; 0 is a failure. False stands for -1.
unfoldable pub store_size : Kernel → ℕ → ℕ → Result (Kernel × Bool)
store_size k p sz =
    (if (k.table p).isthread
      then (deref (k.table p).parent >>= λ r. ok (set_proc k r (record (k.table r) { sz = sz })))
      else ok k)
    >>= λ k1. ok (set_proc k1 p (record (k1.table p) { sz = sz }), true)

-- `growproc` returns with `ptable.lock` still held where it fails.
unfoldable pub growproc : Env → Kernel → Bool → ℕ → Result (Kernel × Bool)
growproc e k grows n = deref k.proc >>= λ p.
    let sz = (k.table p).sz in
    if n == 0
    then store_size k p sz
    else let sz' = if grows then grow_size (e.room k) sz n else shrink_size sz n in
      if sz' == 0 then ok (k, false) else store_size k p sz'

unfoldable pub allocthread : Env → Kernel → ℕ → Kernel × Option ℕ
allocthread e k caller = elim (find_proc (λ p. is_unused p.state) nproc 0 k.table) [
  | none ↦ (k, none)
  | some p ↦
      let fresh = record (k.table p) {
        state = embryo;
        tid = k.nexttid + (k.table caller).pid * 100;
      } in
      give_stack e (record (set_proc k p fresh) { nexttid = k.nexttid + 1 }) p
]

-- `thread_create` from the entry `np` on: the thread belongs to the process `owner`. Where its stack
-- finds no room it stays an EMBRYO.
unfoldable pub enter_thread : Env → Kernel → ℕ → ℕ → ℕ → Kernel × Option ℕ
enter_thread e k p np owner =
    let k1 =
      set_proc k np
        (record (k.table np) { pid = (k.table p).pid; parent = some owner; isthread = true }) in
    let base = pground_up (k1.table owner).sz in
    let sz = allocuvm (e.room k) base (u32 (base + 2 * pgsize)) in
    if sz == 0
    then (k1, none)
    else let k2 = set_proc k1 owner (record (k1.table owner) { sz = sz }) in
      (set_proc k2 np (record (k2.table np) { sz = sz }), some (k2.table np).tid)

-- The end of `thread_create`: the caller counts the thread, and the thread becomes RUNNABLE.
unfoldable pub start_thread : Kernel → ℕ → ℕ → Kernel
start_thread k p np =
    let k1 =
      set_proc k p (record (k.table p) { num_of_thread = u16 ((k.table p).num_of_thread + 1) }) in
    let k2 = if ltb 0 (k1.table p).stride then share_stride_in_proc k1 p else k1 in
    enqueue_at (set_proc k2 np (record (k2.table np) { state = runnable })) 0 np

-- The result is the tid that the call stores, or `none` for -1.
unfoldable pub thread_create : Env → Kernel → Result (Kernel × Option ℕ)
thread_create e k = deref k.proc >>= λ p.
    let (k1, found) = allocthread e k p in
    elim found [
      | none ↦ ok (k1, none)
      | some np ↦ (if (k1.table p).isthread then deref (k1.table p).parent else ok p) >>= λ owner.
          let (k2, tid) = enter_thread e k1 p np owner in
          elim tid [
            | none ↦ ok (k2, none)
            | some t ↦ yield e.others (start_thread k2 p np) >>= λ k3. ok (k3, some t)
          ]
    ]

-- The loops of `exit` and `thread_exit` over the table, from index `i`.
unfoldable pub for_each : ℕ → ℕ → (ℕ → Kernel → Result Kernel) → Kernel → Result Kernel
for_each zero i body k = ok k
for_each (suc rounds) i body k = body i k >>= λ k1. for_each rounds (suc i) body k1

-- `proc->parent->numOfThread--`, and the shares of that process.
unfoldable pub forget_thread : Kernel → Option ℕ → Result Kernel
forget_thread k owner = deref owner >>= λ r.
    let k1 =
      set_proc k r
        (record (k.table r) { num_of_thread = ((k.table r).num_of_thread + 65535) % 2 ^ 16 }) in
    ok (if ltb 0 (k1.table r).stride then share_stride_in_proc k1 r else k1)

unfoldable pub adopt_child : ℕ → ℕ → Kernel → Result Kernel
adopt_child p i k = if points_to (k.table i).parent p then ok (adopt k i) else ok k

-- The call does not return: the result is the kernel at the switch to the scheduler.
unfoldable pub thread_exit : Env → Kernel → ℕ → Result Kernel
thread_exit e k retval = deref k.proc >>= λ p.
    if points_to k.initproc p
    then fault panic
    else let k1 = e.closed k in
      for_each nproc 0 (adopt_child p) (wake_all (pointer_chan (k1.table p).parent) k1) >>= λ k2.
      leave_queue k2 p >>= λ k3.
      forget_thread (set_proc k3 p (record (k3.table p) { retval = retval; state = zombie }))
        (k3.table p).parent

-- A thread that has ended leaves the table, and the stack of its owner shrinks.
unfoldable pub free_thread : Kernel → ℕ → Kernel
free_thread k c =
    set_proc k c
      (record (k.table c) { kstack = 0; pid = 0; parent = none; killed = false; state = unused })

unfoldable pub shrink_stack : Env → Kernel → ℕ → Kernel × Bool
shrink_stack e k c =
    let sz = pground_up (k.table c).sz in
    if deallocuvm sz (minus32 sz (2 * pgsize)) == 0 then (k, false) else (
      elim k.proc [ none ↦ k | some p ↦ set_proc k p (record (k.table p) { sz = e.shrunk k p }) ],
      true,
    )

abbrev pub is_thread_of : ℕ → ℕ → Proc → Bool
is_thread_of parent thread p = points_to p.parent parent && p.isthread && p.tid == thread

-- What a call of `thread_join` returns: -1, or 0 with or without the thread's value.
pub data Joined : Type 0 where
  failed nothing : Joined
  value : ℕ → Joined

unfoldable pub join_thread : Env → Kernel → ℕ → Kernel × Joined
join_thread e k c =
    let k1 = free_thread k c in
    let k2 = set_proc k1 c (record (k1.table c) { tid = 0 }) in
    let (k3, fits) = shrink_stack e k2 c in
    if fits then (k3, value (k3.table c).retval) else (k3, failed)

unfoldable pub thread_join : Env → ℕ → Kernel → ℕ → Result (Kernel × Joined)
thread_join e zero k thread = fault diverges
thread_join e (suc rounds) k thread = deref k.proc >>= λ p.
    elim (find_proc (λ c. is_thread_of p thread c && is_zombie c.state) nproc 0 k.table) [
      | some c ↦ ok (join_thread e k c)
      | none ↦ elim (find_proc (is_thread_of p thread) nproc 0 k.table) [
        | none ↦ ok (k, nothing)
        | some c ↦
            let again = sleep e k (proc_chan p) >>= λ k1. thread_join e rounds k1 thread in
            if (k.table p).killed then ok (k, nothing) else again
      ]
    ]

-- `thread_clean` for the thread at `c`. It wakes the channel that has the pid as its address, and
-- counts the thread off the parent of the process that runs.
unfoldable pub clean_thread : Env → Kernel → ℕ → ℕ → Result (Kernel × Bool)
clean_thread e k c retval =
    if points_to k.initproc c
    then fault panic
    else let k1 = e.closed k in
      leave_queue (wake_all (k1.table c).pid k1) c >>= λ k2.
      let k3 = set_proc k2 c (record (k2.table c) { retval = retval }) in
      deref k3.proc >>= λ p.
      forget_thread k3 (k3.table p).parent >>= λ k4. ok (shrink_stack e (free_thread k4 c) c)

unfoldable pub thread_clean : Env → Kernel → ℕ → ℕ → Result (Kernel × Bool)
thread_clean e k thread retval =
    elim (find_proc (λ c. c.isthread && c.tid == thread) nproc 0 k.table) [
      | some c ↦ clean_thread e k c retval
      | none ↦ deref k.proc >>= λ p. ok (k, (k.table p).killed)
    ]

-- One round of the loop of `exit` over the table.
unfoldable pub end_child : Env → ℕ → ℕ → Kernel → Result Kernel
end_child e p i k =
    if points_to (k.table i).parent p
    then ((if (k.table i).isthread
          then (thread_clean e k (k.table i).tid 0 >>= λ r. ok (r.0))
          else ok k)
        >>= λ k1. ok (adopt k1 i))
    else ok k

-- `exit` of a process that is no thread, up to the switch to the scheduler.
unfoldable pub exit_process : Env → Kernel → ℕ → Result Kernel
exit_process e k p =
    if points_to k.initproc p
    then fault panic
    else let k1 = e.closed k in
      for_each nproc 0 (end_child e p) (wake_all (pointer_chan (k1.table p).parent) k1) >>= λ k2.
      leave_queue k2 p >>= λ k3.
      let k4 = wake_all (pointer_chan (k3.table p).parent) k3 in
      ok (set_proc k4 p (record (k4.table p) { state = zombie }))

-- `clean`: the process of a thread goes on in place of the thread, in `exit`.
unfoldable pub clean : Kernel → ℕ → Kernel
clean k target = wake_all (proc_chan target) (
    set_proc (record k { proc = some target }) target (record (k.table target) { state = running }))

-- A thread's process is no thread.
unfoldable pub exit : Env → Kernel → Result Kernel
exit e k = deref k.proc >>= λ p.
    if (k.table p).isthread
    then (deref (k.table p).parent >>= λ r. exit_process e (clean k r) r)
    else exit_process e k p

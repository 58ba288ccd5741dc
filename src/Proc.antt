-- ===== src/Proc.antt =====
-- OS/HW4/xv6-proj/proc.h: process states and the process structure.
--
-- A `struct proc *` is the index of its entry in `ptable.proc`, and a null pointer is `none`. The
-- fields that the scheduler and the process operations read or write are kept.
use hyu_3rd_1se.Prelude.{
  ℕ, ◌%◌, ◌^◌, Bool, true, false, Option, none, some, ◌==◌, ◌&&◌, update, for_range, if◌then◌else◌,
}

-- `enum procstate`
pub data ProcState : Type 0 where
  unused embryo sleeping runnable running zombie : ProcState

-- `struct proc`. A channel and a stack are addresses, 0 being the null pointer.
pub record Proc : Type 0 where
  pub sz : ℕ
  pub kstack : ℕ
  pub state : ProcState
  pub pid : ℕ
  pub parent : Option ℕ
  pub chan : ℕ
  pub killed : Bool
  pub q_posi : ℕ
  pub stride : ℕ
  pub pstride : ℕ
  pub pass : ℕ
  pub consumed_time : ℕ
  pub isthread : Bool
  pub num_of_thread : ℕ
  pub retval : ℕ
  pub tid : ℕ

-- `ptable.proc`
abbrev pub Table : Type 0
Table = ℕ → Proc

abbrev pub nproc : ℕ
nproc = 64

-- Stores into a `ushort` and into a 32-bit word.
abbrev pub u16 : ℕ → ℕ
u16 n = n % 2 ^ 16

abbrev pub u32 : ℕ → ℕ
u32 n = n % 2 ^ 32

abbrev pub is_unused : ProcState → Bool
is_unused unused = true
is_unused _ = false

abbrev pub is_sleeping : ProcState → Bool
is_sleeping sleeping = true
is_sleeping _ = false

abbrev pub is_runnable : ProcState → Bool
is_runnable runnable = true
is_runnable _ = false

abbrev pub is_running : ProcState → Bool
is_running running = true
is_running _ = false

abbrev pub is_zombie : ProcState → Bool
is_zombie zombie = true
is_zombie _ = false

-- `p == &ptable.proc[r]`
abbrev pub points_to : Option ℕ → ℕ → Bool
points_to none r = false
points_to (some p) r = p == r

-- One round of `wakeup1`, and its loop.
unfoldable pub wake : ℕ → ℕ → Table → Table
wake chan i t =
    let p = t i in
    if is_sleeping p.state && p.chan == chan then update t i (record p { state = runnable }) else t

unfoldable pub wakeup1 : ℕ → Table → Table
wakeup1 chan t = for_range nproc 0 (wake chan) t

-- ===== src/Ptable/Setting.antt =====
-- What the process operations of OS/HW4/xv6-proj/proc.c take from the rest of the system.
use hyu_3rd_1se.Prelude.{ℕ, Bool}
use hyu_3rd_1se.Kernel.{Kernel}

-- `others` is what happens while a process waits, and `closed` what happens while it closes its files
-- and leaves its directory. `page` is the address that `kalloc` returns, `copied` tells whether the
-- memory of the process could be copied, and `room` whether it could grow. `shrunk` is the size that
-- `empty_stack_clean` finds for a process.
pub record Env : Type 0 where
  pub others : Kernel → Kernel
  pub closed : Kernel → Kernel
  pub page : Kernel → ℕ
  pub copied : Kernel → Bool
  pub room : Kernel → Bool
  pub shrunk : Kernel → ℕ → ℕ

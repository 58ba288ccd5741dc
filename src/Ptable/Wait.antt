-- ===== src/Ptable/Wait.antt =====
-- `wait` of proc.c.
use hyu_3rd_1se.Prelude.{ℕ, ◌<◌, ◌≡◌, ◌≢◌, true, false, Option, none, some, ok, Result, ◌>>=◌}
use hyu_3rd_1se.Proc.{Proc, Table, nproc, unused, zombie}
use hyu_3rd_1se.Kernel.{Kernel}
use hyu_3rd_1se.Ptable.Setting.{Env}
use hyu_3rd_1se.Ptable.{wait_loop, sleep, proc_chan}

-- A process of the table is a child of `p`, and no thread.
abbrev pub IsChild : ℕ → Proc → Type 0
IsChild p x = (x.parent ≡ some p) × (x.isthread ≡ false)

-- No entry before `n` is an exited child of `p`.
abbrev pub NoZombie : ℕ → Table → ℕ → Type 0
NoZombie p t n = (j : ℕ) → j < n → IsChild p (t j) → (t j).state ≢ zombie

abbrev pub NoChild : ℕ → Table → Type 0
NoChild p t = (j : ℕ) → j < nproc → IsChild p (t j) → ⊥

-- The kernel after the child `c` was taken out of the table.
pub record Reaped (k k' : Kernel) (c : ℕ) : Type 0 where
  pub free : (k'.table c).state ≡ unused
  pub no_pid : (k'.table c).pid ≡ 0
  pub no_parent : (k'.table c).parent ≡ none
  pub no_stack : (k'.table c).kstack ≡ 0
  pub not_killed : (k'.table c).killed ≡ false
  pub others : (j : ℕ) → j ≢ c → k'.table j ≡ k.table j
  pub rest : record k' { table = k.table } ≡ k

-- What a scan of `wait` by the process `p` gives.
pub data Waited (e : Env) (rounds : ℕ) (k : Kernel) (p : ℕ)
    : Result (Kernel × Option ℕ) → Type 0 where
  took_out :
      (c : ℕ) (k' : Kernel)
      → c < nproc
      → IsChild p (k.table c)
      → (k.table c).state ≡ zombie
      → NoZombie p k.table c
      → Reaped k k' c
      → Waited e rounds k p (ok (k', some (k.table c).pid))
  no_children : NoChild p k.table → Waited e rounds k p (ok (k, none))
  was_killed :
      (c : ℕ)
      → c < nproc
      → IsChild p (k.table c)
      → NoZombie p k.table nproc
      → (k.table p).killed ≡ true
      → Waited e rounds k p (ok (k, none))
  goes_on :
      (c : ℕ)
      → c < nproc
      → IsChild p (k.table c)
      → NoZombie p k.table nproc
      → (k.table p).killed ≡ false
      → Waited e rounds k p (sleep e k (proc_chan p) >>= λ k1. wait_loop e rounds k1)

-- ===== src/Ptable/Life.antt =====
-- What the process operations of proc.c do to the process table.
use hyu_3rd_1se.Prelude.{
  ℕ, zero, suc, ◌+◌, ◌<◌, ◌≤◌, ◌≡◌, ◌≢◌, refl, sym, Bool, true, false, ◌&&◌, Option, none, some,
  ltb, ◌==◌, if◌then◌else◌, for_range-pointwise, arith, Bool-cases, inl, inr, ◌⊎◌, ==-refl,
  ==-of_ne,
}
use hyu_3rd_1se.Proc.{
  Proc, Table, unused, embryo, runnable, nproc, is_unused, is_sleeping, wake, wakeup1,
}
use hyu_3rd_1se.Kernel.{Kernel, set_proc}
use hyu_3rd_1se.Ptable.Setting.{Env}
use hyu_3rd_1se.Ptable.{find_proc, give_stack, allocproc, kill, init_proc, mark_killed}

-- Between `i` and `n` the test fails.
abbrev pub Fails : (Proc → Bool) → ℕ → ℕ → Table → Type 0
Fails test i n t = (j : ℕ) → i ≤ j → j < n → test (t j) ≡ false

Fails-suc :
    (test : Proc → Bool) (i n : ℕ) (t : Table)
    → test (t i) ≡ false
    → Fails test (suc i) n t
    → Fails test i n t
Fails-suc test i n t f h j a b = elim (Bool-cases (i == j)) [
  | inl e ↦ ground arith
  | inr e ↦ h j (ground arith) b
]

-- A scan finds the first entry that passes the test, or none where all fail.
abbrev pub Found : (Proc → Bool) → ℕ → ℕ → Table → Option ℕ → Type 0
Found test i n t r =
    ((r ≡ none) × Fails test i n t)
    ⊎ ((c : ℕ) × (r ≡ some c) × (i ≤ c) × (c < n) × (test (t c) ≡ true) × Fails test i c t)

find_proc-Found :
    (test : Proc → Bool) (rounds i n : ℕ) (t : Table)
    → i + rounds ≡ n
    → Found test i n t (find_proc test rounds i t)
unfolding find_proc
find_proc-Found test zero i n t e = inl (refl, λ j a b. absurd (omega arith))
find_proc-Found test (suc rounds) i n t e = elim (Bool-cases (test (t i))) [
  | inl f ↦ inr (i, rw f, omega arith, omega arith, f, λ j a b. absurd (omega arith))
  | inr f ↦ elim (find_proc-Found test rounds (suc i) n t (omega arith)) [
    | inl (a, b) ↦ inl (rw f a, Fails-suc test i n t f b)
    | inr (c, a, b, d, g, h) ↦ inr (c, rw f a, omega arith, d, g, Fails-suc test i c t f h)
  ]
]

pub find_in_table :
    (test : Proc → Bool) (t : Table) → Found test 0 nproc t (find_proc test nproc 0 t)
find_in_table test t = find_proc-Found test nproc 0 nproc t (omega arith)

-- What `wakeup1` makes of one process.
abbrev pub woken : ℕ → Proc → Proc
woken chan p = if is_sleeping p.state && p.chan == chan then record p { state = runnable } else p

wake_self : (chan : ℕ) (u : Table) (i : ℕ) → wake chan i u i ≡ woken chan (u i)
unfolding wake
wake_self chan u i = elim (Bool-cases (is_sleeping (u i).state && (u i).chan == chan)) [
  | inl e ↦ rw (e, ==-refl i)
  | inr e ↦ rw e
]

wake_ne : (chan : ℕ) (u : Table) (i j : ℕ) → i ≢ j → wake chan i u j ≡ u j
unfolding wake
wake_ne chan u i j n = elim (Bool-cases (is_sleeping (u i).state && (u i).chan == chan)) [
  | inl e ↦ rw (e, ==-of_ne i j n)
  | inr e ↦ rw e
]

-- `wakeup1` makes every process that sleeps on the channel RUNNABLE, and changes nothing else.
pub wakeup1-lem :
    (chan : ℕ) (t : Table) (j : ℕ)
    → wakeup1 chan t j ≡ (if ltb j nproc then woken chan (t j) else t j)
unfolding wakeup1
wakeup1-lem chan t j =
    for_range-pointwise (woken chan) (wake chan) (wake_self chan) (wake_ne chan) nproc t j

-- What `kill` makes of the process that it finds.
abbrev pub marked : Proc → Proc
marked p = record p { killed = true; state = if is_sleeping p.state then runnable else p.state }

-- `kill` marks the first process with the pid as killed and makes it RUNNABLE if it sleeps, and no
-- other entry changes; without such a process it returns -1 and changes nothing.
pub kill-lem :
    (k : Kernel) (pid : ℕ)
    → ((kill k pid ≡ (k, false)) × ((j : ℕ) → j < nproc → (k.table j).pid ≢ pid))
      ⊎ ((c : ℕ) × (c < nproc)
          × ((k.table c).pid ≡ pid)
          × ((j : ℕ) → j < c → (k.table j).pid ≢ pid)
          × ((kill k pid).1 ≡ true)
          × ((kill k pid).0.table c ≡ marked (k.table c))
          × ((j : ℕ) → j ≢ c → (kill k pid).0.table j ≡ k.table j))
unfolding kill mark_killed
kill-lem k pid = elim (find_in_table (λ p. p.pid == pid) k.table) [
  | inl (a, b) ↦ inl (rw a, λ j l. ground (arith, b j (omega arith) l))
  | inr (c, a, b, d, g, h) ↦ inr (
    c,
    d,
    ground arith,
    λ j l. ground (arith, h j (omega arith) l),
    rw a,
    elim (Bool-cases (is_sleeping (k.table c).state)) [
      | inl z ↦ simp (a, ==-refl c, z)
      | inr z ↦ simp (a, ==-refl c, z)
    ],
    λ j n. rw (a, ==-of_ne c j (λ z. n (sym z))),
  )
]

abbrev pub fresh : Kernel → ℕ → Proc
fresh k c = record (k.table c) {
  state = embryo;
  pid = k.nextpid;
  tid = 0;
  isthread = false;
  num_of_thread = 0;
}

pub given :
    (e : Env) (k : Kernel) (c j : ℕ) → j ≢ c → (init_proc e k (some c)).0.table j ≡ k.table j
unfolding init_proc give_stack
given e k c j n =
    elim (Bool-cases
      (e.page (record (set_proc k c (fresh k c)) { nextpid = k.nextpid + 1 }) == 0)) [
        | inl z ↦ rw (z, ==-of_ne c j (λ z. n (sym z)))
        | inr z ↦ rw (z, ==-of_ne c j (λ z. n (sym z)))
      ]

pub given_kernel :
    (e : Env) (k : Kernel) (c : ℕ)
    → ((init_proc e k (some c)).0.nextpid ≡ k.nextpid + 1) × ((init_proc e k (some c)).0.qs ≡ k.qs)
unfolding init_proc give_stack
given_kernel e k c =
    elim (Bool-cases
      (e.page (record (set_proc k c (fresh k c)) { nextpid = k.nextpid + 1 }) == 0)) [
        | inl z ↦ rw z (refl, refl)
        | inr z ↦ rw z (refl, refl)
      ]

pub given_entry :
    (e : Env) (k : Kernel) (c : ℕ)
    → let r = init_proc e k (some c) in
      (r.1 ≡ some c)
        × ((r.0.table c).state ≡ embryo)
        × ((r.0.table c).pid ≡ k.nextpid)
        × ((r.0.table c).stride ≡ (k.table c).stride)
      ⊎ (r.1 ≡ none) × ((r.0.table c).state ≡ unused)
unfolding init_proc give_stack
given_entry e k c =
    elim (Bool-cases
      (e.page (record (set_proc k c (fresh k c)) { nextpid = k.nextpid + 1 }) == 0)) [
        | inl z ↦ inr (rw z, rw (z, ==-refl c))
        | inr z ↦ inl (rw z, rw (z, ==-refl c), rw (z, ==-refl c), rw (z, ==-refl c))
      ]

init_proc-none : (e : Env) (k : Kernel) → init_proc e k none ≡ (k, none)
unfolding init_proc
init_proc-none e k = refl

-- `allocproc` takes the first UNUSED entry for an EMBRYO with the next pid and the stride that the
-- entry had, or gives the entry back; other entries and the queues stay as they are. Without an
-- UNUSED entry it changes nothing.
pub allocproc-lem :
    (e : Env) (k : Kernel)
    → ((allocproc e k ≡ (k, none)) × ((j : ℕ) → j < nproc → is_unused (k.table j).state ≡ false))
      ⊎ ((c : ℕ) × (c < nproc)
          × (is_unused (k.table c).state ≡ true)
          × ((j : ℕ) → j < c → is_unused (k.table j).state ≡ false)
          × ((j : ℕ) → j ≢ c → (allocproc e k).0.table j ≡ k.table j)
          × ((allocproc e k).0.nextpid ≡ k.nextpid + 1)
          × ((allocproc e k).0.qs ≡ k.qs)
          × (((allocproc e k).1 ≡ some c)
                × (((allocproc e k).0.table c).state ≡ embryo)
                × (((allocproc e k).0.table c).pid ≡ k.nextpid)
                × (((allocproc e k).0.table c).stride ≡ (k.table c).stride)
              ⊎ ((allocproc e k).1 ≡ none) × (((allocproc e k).0.table c).state ≡ unused)))
unfolding allocproc
allocproc-lem e k = elim (find_in_table (λ p. is_unused p.state) k.table) [
  | inl (a, b) ↦ inl (rw a (init_proc-none e k), λ j l. b j (omega arith) l)
  | inr (c, a, b, d, g, h) ↦ inr (
    c,
    d,
    g,
    λ j l. h j (omega arith) l,
    λ j n. rw a (given e k c j n),
    rw a (given_kernel e k c).0,
    rw a (given_kernel e k c).1,
    rw a (given_entry e k c),
  )
]

-- ===== src/Ptable/Fork.antt =====
-- `fork` and `wait` of proc.c.
use hyu_3rd_1se.Prelude.{
  ℕ, ◌+◌, ◌<◌, ◌≡◌, ◌≢◌, refl, sym, ap, ◌∙◌, Bool, true, false, some, List, [], ◌∷◌, ◌++◌, length,
  ◌==◌, arith, Bool-cases, inl, inr, ==-refl, ==-of_ne, ok, subst,
}
use hyu_3rd_1se.Proc.{Proc, Table, runnable, nproc, is_unused}
use hyu_3rd_1se.Mlfq.{Mlfq}
use hyu_3rd_1se.Mlfq.Ring.{Holds, enqueue-Holds}
use hyu_3rd_1se.Kernel.{Kernel, set_proc, enqueue_at}
use hyu_3rd_1se.Ptable.Setting.{Env}
use hyu_3rd_1se.Ptable.Life.{Fails, find_in_table, fresh, given, given_kernel, given_entry}
use hyu_3rd_1se.Ptable.{
  find_proc, give_stack, init_proc, allocproc, start_child, fork_with, fork_process, fork,
}

-- The kernel in which `allocproc` has given the entry `c` to a new process.
abbrev pub allocated : Env → Kernel → ℕ → Kernel
allocated e k c = (init_proc e k (some c)).0

-- A scan finds the first entry that passes.
found_first :
    (test : Proc → Bool) (t : Table) (c : ℕ)
    → c < nproc
    → test (t c) ≡ true
    → Fails test 0 c t
    → find_proc test nproc 0 t ≡ some c
found_first test t c l y f = elim (find_in_table test t) [
  | inl (a, b) ↦ ground (arith, b c (omega arith) l)
  | inr (d, a, b, m, z, g) ↦
      let low : (c < d) → ⊥ = λ h. ground (arith, g c (omega arith) h) in
      let high : (d < c) → ⊥ = λ h. ground (arith, f d (omega arith) h) in
      let same : d ≡ c = omega arith in a ∙ ap some same
]

init_proc_takes :
    (e : Env) (k : Kernel) (c : ℕ)
    → ((x : Kernel) → e.page x ≢ 0)
    → (init_proc e k (some c)).1 ≡ some c
unfolding init_proc give_stack
init_proc_takes e k c h =
    let at : Kernel = record (set_proc k c (fresh k c)) { nextpid = k.nextpid + 1 } in
    elim (Bool-cases (e.page at == 0)) [ inl z ↦ absurd (h at (ground (arith, z))) | inr z ↦ rw z ]

allocated_entry :
    (e : Env) (k : Kernel) (c : ℕ)
    → ((x : Kernel) → e.page x ≢ 0)
    → (((allocated e k c).table c).pid ≡ k.nextpid)
      × (((allocated e k c).table c).stride ≡ (k.table c).stride)
allocated_entry e k c h = elim (given_entry e k c) [
  | inl (a, b, d, g) ↦ (d, g)
  | inr (a, b) ↦ ground (arith, init_proc_takes e k c h)
]

-- A child whose memory could be copied, for any kernel in which it has its entry.
start_child_gives :
    (e : Env) (k : Kernel) (p c : ℕ) (xs : List ℕ)
    → e.copied k ≡ true
    → (k.table c).stride ≡ 0
    → Holds (k.qs 0) xs
    → length xs < 64
    → (k' : Kernel) × (start_child e k p c ≡ (k', some (k.table c).pid))
      × Holds (k'.qs 0) (xs ++ (c ∷ []))
      × ((k'.table c).state ≡ runnable)
      × ((k'.table c).parent ≡ some p)
      × ((k'.table c).pid ≡ (k.table c).pid)
      × ((k'.table c).sz ≡ (k.table p).sz)
      × ((j : ℕ) → j ≢ c → k'.table j ≡ k.table j)
unfolding start_child enqueue_at
start_child_gives e k p c xs g s q m =
    let k1 : Kernel =
      set_proc k c
        (record (k.table c) { sz = (k.table p).sz; parent = some p; state = runnable }) in
    let (a, b, t, v) = enqueue-Holds k1.table xs c q m (rw (==-refl c) s) in
    (
      enqueue_at k1 0 c,
      rw (g, ==-refl c) refl,
      b,
      rw (t, ==-refl c),
      rw (t, ==-refl c),
      rw (t, ==-refl c),
      rw (t, ==-refl c),
      λ j n. rw (t, ==-of_ne c j (λ z. n (sym z))),
    )

fork_process_gives :
    (e : Env) (k : Kernel) (p c : ℕ)
    → c < nproc
    → is_unused (k.table c).state ≡ true
    → Fails (λ x. is_unused x.state) 0 c k.table
    → ((x : Kernel) → e.page x ≢ 0)
    → fork_process e k p ≡ start_child e (allocated e k c) p c
unfolding fork_process allocproc fork_with
fork_process_gives e k p c l u f h =
    rw (found_first (λ x. is_unused x.state) k.table c l u f, init_proc_takes e k c h)

fork_of_process :
    (e : Env) (k : Kernel) (p : ℕ)
    → k.proc ≡ some p
    → (k.table p).isthread ≡ false
    → fork e k ≡ ok (fork_process e k p)
unfolding fork
fork_of_process e k p a b = simp (a, b)

-- `fork` of a process that is no thread, with an UNUSED entry and memory for the child, returns the
-- next pid. The child stands in the first UNUSED entry, is RUNNABLE, has the caller as its parent
-- and its size, and waits at the end of the first queue. (The entry is not under stride scheduling,
-- and the queue has room.)
pub fork-lem :
    (e : Env) (k : Kernel) (p c : ℕ) (xs : List ℕ)
    → k.proc ≡ some p
    → (k.table p).isthread ≡ false
    → c < nproc
    → is_unused (k.table c).state ≡ true
    → Fails (λ x. is_unused x.state) 0 c k.table
    → ((x : Kernel) → e.page x ≢ 0)
    → ((x : Kernel) → e.copied x ≡ true)
    → (k.table c).stride ≡ 0
    → Holds (k.qs 0) xs
    → length xs < 64
    → p ≢ c
    → (k' : Kernel) × (fork e k ≡ ok (k', some k.nextpid))
      × Holds (k'.qs 0) (xs ++ (c ∷ []))
      × ((k'.table c).state ≡ runnable)
      × ((k'.table c).parent ≡ some p)
      × ((k'.table c).pid ≡ k.nextpid)
      × ((k'.table c).sz ≡ (k.table p).sz)
      × ((j : ℕ) → j ≢ c → k'.table j ≡ k.table j)
fork-lem e k p c xs a b l u f h g s q m d =
    let (i, o) = allocated_entry e k c h in
    let (k', r, v, w, x, y, z, t) =
      start_child_gives e (allocated e k c) p c xs (g (allocated e k c)) (o ∙ s)
        (subst (λ (w : ℕ → Mlfq). Holds (w 0) xs) (sym (given_kernel e k c).1) q) m in
    (
      k',
      fork_of_process e k p a b
          ∙ ap ok (fork_process_gives e k p c l u f h ∙ r ∙ ap (λ n. (k', some n)) i),
      v,
      w,
      x,
      y ∙ i,
      z ∙ ap (λ (w : Proc). w.sz) (given e k c p d),
      λ j n. t j n ∙ given e k c j n,
    )

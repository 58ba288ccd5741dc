-- ===== src/Thread/Effects.antt =====
-- What the calls of threads in proc.c do to the sizes of a thread and its process.
use hyu_3rd_1se.Prelude.{
  ℕ, ◌≡◌, ◌≢◌, refl, sym, ◌∙◌, Bool, true, false, some, ◌==◌, if◌then◌else◌, Bool-cases, inl, inr,
  ◌⊎◌, ==-refl, ==-of_ne, ok,
}
use hyu_3rd_1se.Kernel.{Kernel, set_proc}
use hyu_3rd_1se.Ptable.Setting.{Env}
use hyu_3rd_1se.Thread.{growproc, store_size, grow_size, shrink_size}

-- The process `p` and its owner `r` share the size `sz` in `k'`, and nothing else changed.
abbrev pub Resized : Kernel → Kernel → ℕ → ℕ → ℕ → Type 0
Resized k k' p r sz =
    ((k'.table p).sz ≡ sz)
    × ((k'.table r).sz ≡ sz)
    × ((j : ℕ) → j ≢ p → j ≢ r → k'.table j ≡ k.table j)
    × (k'.qs ≡ k.qs)

store_size-Resized :
    (k : Kernel) (p r sz : ℕ)
    → (k.table p).isthread ≡ true
    → (k.table p).parent ≡ some r
    → (k' : Kernel) × (store_size k p sz ≡ ok (k', true)) × Resized k k' p r sz
unfolding store_size
store_size-Resized k p r sz a b =
    let k1 : Kernel = set_proc k r (record (k.table r) { sz = sz }) in
    (
      set_proc k1 p (record (k1.table p) { sz = sz }),
      simp (a, b),
      (
        rw (==-refl p),
        elim (Bool-cases (p == r)) [ inl z ↦ rw z | inr z ↦ rw (z, ==-refl r) ],
        λ j m n. rw (==-of_ne p j (λ z. m (sym z)), ==-of_ne r j (λ z. n (sym z))),
        refl,
      ),
    )

growproc_runs :
    (e : Env) (k : Kernel) (grows : Bool) (n p : ℕ)
    → k.proc ≡ some p
    → (growproc e k grows n ≡ ok (k, false))
      ⊎ ((sz : ℕ) × (growproc e k grows n ≡ store_size k p sz))
unfolding growproc
growproc_runs e k grows n p a =
    let sz = (k.table p).sz in
    let sz' = if grows then grow_size (e.room k) sz n else shrink_size sz n in
    elim (Bool-cases (n == 0)) [
      | inl z ↦ inr (sz, simp (a, z))
      | inr z ↦ elim (Bool-cases (sz' == 0)) [
        | inl y ↦ inl (simp (a, z, y))
        | inr y ↦ inr (sz', simp (a, z, y))
      ]
    ]

-- `growproc` of a thread returns. Either it fails and changes nothing, or the thread and its process
-- have one and the same new size, and no other process and no queue changes.
pub growproc-Resized :
    (e : Env) (k : Kernel) (grows : Bool) (n p r : ℕ)
    → k.proc ≡ some p
    → (k.table p).isthread ≡ true
    → (k.table p).parent ≡ some r
    → (growproc e k grows n ≡ ok (k, false))
      ⊎ ((k' : Kernel) × (sz : ℕ) × (growproc e k grows n ≡ ok (k', true)) × Resized k k' p r sz)
growproc-Resized e k grows n p r a b c = elim (growproc_runs e k grows n p a) [
  | inl z ↦ inl z
  | inr (sz, z) ↦ let (k', y, w) = store_size-Resized k p r sz b c in inr (k', sz, z ∙ y, w)
]

-- ===== src/Vm/Table.antt =====
-- `walkpgdir` where it has to make a page table.
use hyu_3rd_1se.Prelude.{
  ℕ, ◌+◌, ◌*◌, ◌<◌, ◌≡◌, ◌≢◌, sym, ap, ◌∙◌, subst, true, false, ◌&&◌, List, ◌∷◌, ltb, leb, ◌==◌,
  arith, Bool-cases, inl, inr, ==-refl, ==-of_ne, equal_cases,
}
use hyu_3rd_1se.Kalloc.{Kmem}
use hyu_3rd_1se.Kalloc.Pages.{IsPage, Fresh, IsFree}
use hyu_3rd_1se.Vm.{pte_addr, is_present, v2p, p2v, store, clear_page}
use hyu_3rd_1se.Vm.Walk.{
  pde_at, table_at, entry_at, IsVm, Within, Chain-same, two_pages, in_page, table_of_entry,
  Fresh-ne,
}

-- The state after a page `x` was put into the directory entry `i`.
module _ (s s1 : Kmem) (pgdir i x : ℕ) (xs : List ℕ) (h : IsVm s pgdir (x ∷ xs)) (l : i < 1024)
    (absent : is_present (pde_at s pgdir i) ≡ false) (f : IsFree s1 xs)
    (same : s1.memory ≡ s.memory) where
  abbrev pub with_table : Kmem
  with_table = store (clear_page s1 x) (pgdir + 4 * i) (v2p x + 7)

  x-IsPage : IsPage x
  x-IsPage = h.free.pages.0

  x_not_dir : x ≢ pgdir
  x_not_dir = h.dir_used.0

  cleared : (a : ℕ) → Within x a → with_table.memory a ≡ 0
  cleared a (b, c) =
      let off : (pgdir + 4 * i == a) ≡ false = ==-of_ne (pgdir + 4 * i) a (λ e.
        two_pages x pgdir (pgdir + 4 * i) x-IsPage h.dir_page x_not_dir (omega arith, omega arith)
          (in_page pgdir i l)) in
      let low : leb x a ≡ true = ground arith in
      let high : ltb a (x + 4096) ≡ true = ground arith in rw (off, low, high)

  kept : (a : ℕ) → (Within x a → ⊥) → a ≢ pgdir + 4 * i → with_table.memory a ≡ s.memory a
  kept a n e =
      let outside : (leb x a && ltb a (x + 4096)) ≡ false =
        elim (Bool-cases (leb x a && ltb a (x + 4096))) [
          | inl y ↦ absurd (n (ground (arith, y), ground (arith, y)))
          | inr y ↦ y
        ] in
      rw (==-of_ne (pgdir + 4 * i) a (λ y. e (sym y)), outside) (ap (λ (m : ℕ → ℕ). m a) same)

  entered : with_table.memory (pgdir + 4 * i) ≡ v2p x + 7
  entered = rw (==-refl (pgdir + 4 * i))

  pde_other : (j : ℕ) → j < 1024 → j ≢ i → pde_at with_table pgdir j ≡ pde_at s pgdir j
  pde_other j m n =
      kept (pgdir + 4 * j)
        (λ w. two_pages x pgdir (pgdir + 4 * j) x-IsPage h.dir_page x_not_dir w (in_page pgdir j m))
        (λ e. n (omega arith))

  pub table_here : table_at with_table pgdir i ≡ x
  table_here = ap (λ e. p2v (pte_addr e)) entered ∙ (table_of_entry x x-IsPage h.small.0).1

  pub present_here : is_present (pde_at with_table pgdir i) ≡ true
  present_here = ap is_present entered ∙ (table_of_entry x x-IsPage h.small.0).0

  -- A page table from before is where it was.
  was_present :
      (j : ℕ)
      → j < 1024
      → j ≢ i
      → is_present (pde_at with_table pgdir j) ≡ true
      → (is_present (pde_at s pgdir j) ≡ true) × (table_at with_table pgdir j ≡ table_at s pgdir j)
  was_present j m n p =
      (ap is_present (sym (pde_other j m n)) ∙ p, ap (λ e. p2v (pte_addr e)) (pde_other j m n))

  old_table-ne : (j : ℕ) → j < 1024 → is_present (pde_at s pgdir j) ≡ true → table_at s pgdir j ≢ x
  old_table-ne j m p = Fresh-ne (table_at s pgdir j) x xs (h.table_used j m p)

  pub with_table-IsVm : IsVm with_table pgdir xs
  with_table-IsVm = record {
    free = record {
      chain =
          Chain-same s1.memory with_table.memory s1.freelist x pgdir xs x-IsPage h.dir_page
            h.free.pages.1 h.dir_used.1 f.pages
            (λ a n m.
              kept a n (λ e. m (subst (Within pgdir) (sym e) (in_page pgdir i l)))
              ∙ ap (λ (u : ℕ → ℕ). u a) (sym same))
            f.chain;
      pages = f.pages;
    };
    small = h.small.1;
    dir_page = h.dir_page;
    dir_used = h.dir_used.1;
    table_page = λ j m p. elim (equal_cases j i) [
      | inl e ↦ subst IsPage (sym (ap (table_at with_table pgdir) e ∙ table_here)) x-IsPage
      | inr n ↦ let (q, t) = was_present j m n p in subst IsPage (sym t) (h.table_page j m q)
    ];
    table_used = λ j m p. elim (equal_cases j i) [
      | inl e ↦
          subst (λ u. Fresh u xs) (sym (ap (table_at with_table pgdir) e ∙ table_here))
            h.free.pages.1
      | inr n ↦
          let (q, t) = was_present j m n p in subst (λ u. Fresh u xs) (sym t) (h.table_used j m q).1
    ];
    table_not_dir = λ j m p. elim (equal_cases j i) [
      | inl e ↦ λ z. x_not_dir (sym (ap (table_at with_table pgdir) e ∙ table_here) ∙ z)
      | inr n ↦ let (q, t) = was_present j m n p in λ z. h.table_not_dir j m q (sym t ∙ z)
    ];
    tables_apart = λ j k m n p q e. elim (equal_cases j i) [
      | inl a ↦ elim (equal_cases k i) [
        | inl b ↦ a ∙ sym b
        | inr b ↦
            let (r, t) = was_present k n b q in
            absurd
              (old_table-ne k n r (sym t ∙ sym e ∙ ap (table_at with_table pgdir) a ∙ table_here))
      ]
      | inr a ↦
          let (r, t) = was_present j m a p in
          elim (equal_cases k i) [
            | inl b ↦
                absurd
                  (old_table-ne j m r (sym t ∙ e ∙ ap (table_at with_table pgdir) b ∙ table_here))
            | inr b ↦
                let (r', t') = was_present k n b q in h.tables_apart j k m n r r' (sym t ∙ e ∙ t')
          ]
    ];
  }

  -- The new page table has no entries, and no other entry changes.
  pub with_table-entry_at :
      (j k : ℕ) → j < 1024 → k < 1024 → entry_at with_table pgdir j k ≡ entry_at s pgdir j k
  with_table-entry_at j k m n = elim (equal_cases j i) [
    | inl e ↦
        subst (λ u. entry_at with_table pgdir u k ≡ entry_at s pgdir u k) (sym e)
          (rw (present_here, absent, table_here) (cleared (x + 4 * k) (in_page x k n)))
    | inr d ↦ elim (Bool-cases (is_present (pde_at s pgdir j))) [
      | inl p ↦
          let t = h.table_page j m p in
          let here = in_page (table_at s pgdir j) k n in
          rw (pde_other j m d, p)
            (kept (table_at s pgdir j + 4 * k)
              (λ w.
                two_pages x (table_at s pgdir j) _ x-IsPage t (λ z. old_table-ne j m p (sym z)) w
                  here)
              (λ z.
                two_pages pgdir (table_at s pgdir j) (table_at s pgdir j + 4 * k) h.dir_page t
                  (λ y. h.table_not_dir j m p (sym y))
                  (subst (Within pgdir) (sym z) (in_page pgdir i l)) here))
      | inr p ↦ rw (pde_other j m d, p)
    ]
  ]

-- ===== src/Vm/Map.antt =====
-- `walkpgdir` and `mappages` of vm.c on the entries of a page table.
use hyu_3rd_1se.Prelude.{
  bind_ext, bind_ok, ℕ, suc, ◌+◌, ◌*◌, ◌%◌, ◌<◌, ◌≡◌, ◌≢◌, refl, sym, ap, ◌∙◌, subst, Bool, true,
  false, not, List, [], ◌∷◌, Option, none, some, ◌==◌, if◌then◌else◌, arith, Bool-cases, inl, inr,
  ◌⊎◌, ==-refl, ==-of_ne, equal_cases, Result, ok, fault, panic,
}
use hyu_3rd_1se.Proc.{u32}
use hyu_3rd_1se.Thread.{minus32}
use hyu_3rd_1se.Kalloc.{Kmem, kalloc}
use hyu_3rd_1se.Kalloc.Pages.{IsPage, Fresh, kalloc-KallocResult}
use hyu_3rd_1se.Vm.{
  pdx, ptx, pte_addr, is_present, p2v, store, walkpgdir, make_pte, enter_page, map_page,
  mappages_loop, mappages, pground_down,
}
use hyu_3rd_1se.Vm.Walk.{pde_at, table_at, entry_at, IsVm, Within, Chain-same, two_pages, in_page}
use hyu_3rd_1se.Vm.Table.{
  with_table, with_table-IsVm, with_table-entry_at, present_here, table_here,
}

-- What `walkpgdir` gives when it may allocate: no entry, as there is no page table and no page, or the
-- address of the entry, with all entries as they were.
abbrev pub Walked : Kmem → ℕ → ℕ → List ℕ → Kmem × Option ℕ → Type 0
Walked s pgdir va xs r =
    ((is_present (pde_at s pgdir (pdx va)) ≡ false) × (xs ≡ []) × (r ≡ (s, none)))
    ⊎ ((s' : Kmem) × (ys : List ℕ) × (r ≡ (s', some (table_at s' pgdir (pdx va) + 4 * ptx va)))
        × (is_present (pde_at s' pgdir (pdx va)) ≡ true)
        × IsVm s' pgdir ys
        × ((j k : ℕ) → j < 1024 → k < 1024 → entry_at s' pgdir j k ≡ entry_at s pgdir j k))

walk_absent :
    (s : Kmem) (pgdir va : ℕ) (xs : List ℕ)
    → IsVm s pgdir xs
    → is_present (pde_at s pgdir (pdx va)) ≡ false
    → Walked s pgdir va xs (walkpgdir s pgdir va true)
unfolding walkpgdir
walk_absent s pgdir va [] h absent =
    let none_free : kalloc s ≡ (s, 0) = kalloc-KallocResult s [] h.free in
    inl (absent, refl, rw (absent, none_free))
walk_absent s pgdir va (x ∷ xs) h absent =
    let (got, f, u, same) = kalloc-KallocResult s (x ∷ xs) h.free in
    let s1 = (kalloc s).0 in
    let i = pdx va in
    let l : i < 1024 = omega arith in
    let page : IsPage x = h.free.pages.0 in
    let some_page : (x == 0) ≡ false = ==-of_ne x 0 (λ e. absurd (omega (arith, e, page.0))) in
    inr (
      with_table s s1 pgdir i x xs h l absent f same,
      xs,
      rw (absent, got, some_page)
          (ap (λ u. (with_table s s1 pgdir i x xs h l absent f same, some (u + 4 * ptx va)))
            (sym (table_here s s1 pgdir i x xs h l absent f same))),
      present_here s s1 pgdir i x xs h l absent f same,
      with_table-IsVm s s1 pgdir i x xs h l absent f same,
      with_table-entry_at s s1 pgdir i x xs h l absent f same,
    )

-- `walkpgdir` that may allocate gives the address of the entry of a virtual address and changes no entry.
-- It gives none only where there is neither a page table nor a free page.
pub walkpgdir-Walked :
    (s : Kmem) (pgdir va : ℕ) (xs : List ℕ)
    → IsVm s pgdir xs
    → Walked s pgdir va xs (walkpgdir s pgdir va true)
unfolding walkpgdir
walkpgdir-Walked s pgdir va xs h = elim (Bool-cases (is_present (pde_at s pgdir (pdx va)))) [
  | inr absent ↦ walk_absent s pgdir va xs h absent
  | inl there ↦ inr (s, xs, rw there, there, h, λ j k m n. refl)
]

-- The entry `j` of the page table `i` gets the value `w`.
module _ (s : Kmem) (pgdir i j w : ℕ) (xs : List ℕ) (h : IsVm s pgdir xs) (l : i < 1024)
    (m : j < 1024) (there : is_present (pde_at s pgdir i) ≡ true) where
  abbrev with_entry : Kmem
  with_entry = store s (table_at s pgdir i + 4 * j) w

  entry_kept : (a : ℕ) → a ≢ table_at s pgdir i + 4 * j → with_entry.memory a ≡ s.memory a
  entry_kept a n = rw (==-of_ne (table_at s pgdir i + 4 * j) a (λ e. n (sym e)))

  pde_kept : (k : ℕ) → k < 1024 → pde_at with_entry pgdir k ≡ pde_at s pgdir k
  pde_kept k n = entry_kept (pgdir + 4 * k) (λ e.
      two_pages (table_at s pgdir i) pgdir (pgdir + 4 * k) (h.table_page i l there) h.dir_page
        (h.table_not_dir i l there)
        (subst (Within (table_at s pgdir i)) (sym e) (in_page (table_at s pgdir i) j m))
        (in_page pgdir k n))

  table_kept : (k : ℕ) → k < 1024 → table_at with_entry pgdir k ≡ table_at s pgdir k
  table_kept k n = ap (λ e. p2v (pte_addr e)) (pde_kept k n)

  was :
      (k : ℕ)
      → k < 1024
      → is_present (pde_at with_entry pgdir k) ≡ true
      → is_present (pde_at s pgdir k) ≡ true
  was k n p = ap is_present (sym (pde_kept k n)) ∙ p

  with_entry-IsVm : IsVm with_entry pgdir xs
  with_entry-IsVm = record {
    free = record {
      chain =
          Chain-same s.memory with_entry.memory s.freelist (table_at s pgdir i) (table_at s pgdir i)
            xs (h.table_page i l there) (h.table_page i l there) (h.table_used i l there)
            (h.table_used i l there) h.free.pages
            (λ a n o. entry_kept a (λ e.
              n (subst (Within (table_at s pgdir i)) (sym e) (in_page (table_at s pgdir i) j m))))
            h.free.chain;
      pages = h.free.pages;
    };
    small = h.small;
    dir_page = h.dir_page;
    dir_used = h.dir_used;
    table_page = λ k n p. subst IsPage (sym (table_kept k n)) (h.table_page k n (was k n p));
    table_used =
        λ k n p. subst (λ u. Fresh u xs) (sym (table_kept k n)) (h.table_used k n (was k n p));
    table_not_dir = λ k n p e. h.table_not_dir k n (was k n p) (sym (table_kept k n) ∙ e);
    tables_apart = λ k o n q p r e.
        h.tables_apart k o n q (was k n p) (was o q r) (sym (table_kept k n) ∙ e ∙ table_kept o q);
  }

  entry_set : entry_at with_entry pgdir i j ≡ w
  entry_set = rw (pde_kept i l, there, ==-refl (table_at s pgdir i + 4 * j))

  entry_other :
      (k o : ℕ)
      → k < 1024
      → o < 1024
      → (k ≡ i → o ≢ j)
      → entry_at with_entry pgdir k o ≡ entry_at s pgdir k o
  entry_other k o n q d = elim (Bool-cases (is_present (pde_at s pgdir k))) [
    | inr p ↦ rw (pde_kept k n, p)
    | inl p ↦
        rw (pde_kept k n, p)
          (entry_kept (table_at s pgdir k + 4 * o) (λ e. elim (equal_cases k i) [
            | inl y ↦ d y (omega (arith, e, ap (table_at s pgdir) y))
            | inr y ↦
                two_pages (table_at s pgdir k) (table_at s pgdir i) (table_at s pgdir k + 4 * o)
                  (h.table_page k n p) (h.table_page i l there)
                  (λ z. y (h.tables_apart k i n l p there z)) (in_page (table_at s pgdir k) o q)
                  (subst (Within (table_at s pgdir i)) (sym e) (in_page (table_at s pgdir i) j m))
          ]))
  ]

-- What mapping the page at `va` gives: no room for a page table, a page that is mapped already, or the new
-- entry, with all other entries as they were.
abbrev pub Mapped : Kmem → ℕ → ℕ → ℕ → List ℕ → Result (Kmem × Bool) → Type 0
Mapped s pgdir va w xs r =
    ((is_present (pde_at s pgdir (pdx va)) ≡ false) × (xs ≡ []) × (r ≡ ok (s, false)))
    ⊎ ((is_present (entry_at s pgdir (pdx va) (ptx va)) ≡ true) × (r ≡ fault panic))
    ⊎ ((s' : Kmem) × (ys : List ℕ) × (r ≡ ok (s', true))
        × IsVm s' pgdir ys
        × (entry_at s' pgdir (pdx va) (ptx va) ≡ w)
        × ((j k : ℕ)
            → j < 1024
            → k < 1024
            → (j ≡ pdx va → k ≢ ptx va)
            → entry_at s' pgdir j k ≡ entry_at s pgdir j k))

pub map_page-Mapped :
    (s : Kmem) (pgdir va pa perm : ℕ) (xs : List ℕ)
    → IsVm s pgdir xs
    → Mapped s pgdir va (make_pte pa perm) xs (map_page s pgdir va pa perm)
unfolding map_page enter_page
map_page-Mapped s pgdir va pa perm xs h = elim (walkpgdir-Walked s pgdir va xs h) [
  | inl (a, b, e) ↦ inl (a, b, ap (enter_page pa perm) e)
  | inr (s1, ys, e, there, h1, same) ↦
      let l : pdx va < 1024 = omega arith in
      let m : ptx va < 1024 = omega arith in
      let here : s1.memory (table_at s1 pgdir (pdx va) + 4 * ptx va)
          ≡ entry_at s pgdir (pdx va) (ptx va) =
        sym (rw there) ∙ same (pdx va) (ptx va) l m in
      elim (Bool-cases (is_present (entry_at s pgdir (pdx va) (ptx va)))) [
        | inl p ↦ inr (inl (p, ap (enter_page pa perm) e ∙ rw (here, p)))
        | inr p ↦ inr (
            inr (
              with_entry s1 pgdir (pdx va) (ptx va) (make_pte pa perm) ys h1 l m there,
              ys,
              ap (enter_page pa perm) e ∙ rw (here, p),
              with_entry-IsVm s1 pgdir (pdx va) (ptx va) (make_pte pa perm) ys h1 l m there,
              entry_set s1 pgdir (pdx va) (ptx va) (make_pte pa perm) ys h1 l m there,
              λ j k n q d.
                  entry_other s1 pgdir (pdx va) (ptx va) (make_pte pa perm) ys h1 l m there j k n q
                    d
                  ∙ same j k n q,
            ))
      ]
]

reported : (x : Kmem × Bool) → (if not x.1 then ok (x.0, false) else ok (x.0, true)) ≡ ok x
reported (s, true) = refl
reported (s, false) = refl

one_round :
    (rounds : ℕ) (s : Kmem) (pgdir a last pa perm : ℕ)
    → (a == last) ≡ true
    → mappages_loop (suc rounds) s pgdir a last pa perm ≡ map_page s pgdir a pa perm
unfolding mappages_loop
one_round rounds s pgdir a last pa perm e = rw e (
    bind_ext (map_page s pgdir a pa perm)
      (λ (s1, done). if not done then ok (s1, false) else ok (s1, true)) (λ x. ok x) reported
    ∙ bind_ok (map_page s pgdir a pa perm))

-- `mappages` of one page, from a page boundary on, maps exactly this page: its entry is the physical
-- address with the permissions and the present bit, all other entries stay, and the tables keep apart. It
-- returns -1 only where there is neither a page table nor a free page, and panics where the page is mapped
-- already.
mappages-Mapped :
    (s : Kmem) (pgdir va pa perm : ℕ) (xs : List ℕ)
    → IsVm s pgdir xs
    → va % 4096 ≡ 0
    → va < 4294967296
    → Mapped s pgdir va (make_pte pa perm) xs (mappages s pgdir va 4096 pa perm)
unfolding mappages
mappages-Mapped s pgdir va pa perm xs h a l =
    let start : pground_down va ≡ va = omega arith in
    let end : pground_down (minus32 (u32 (va + 4096)) 1) ≡ va = omega arith in
    subst (Mapped s pgdir va (make_pte pa perm) xs)
      (sym (
        one_round 1048575 s pgdir (pground_down va) (pground_down (minus32 (u32 (va + 4096)) 1)) pa
          perm (ap (λ u. pground_down va == u) (end ∙ sym start) ∙ ==-refl (pground_down va))
        ∙ ap (λ u. map_page s pgdir u pa perm) start))
      (map_page-Mapped s pgdir va pa perm xs h)

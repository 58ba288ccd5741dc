-- ===== src/Vm/Pages.antt =====
-- `mappages` of vm.c on a range of pages.
use hyu_3rd_1se.Prelude.{
  ℕ, zero, suc, ◌+◌, ◌-◌, ◌*◌, ◌/◌, ◌%◌, ◌<◌, ◌≤◌, ◌≡◌, ◌≢◌, refl, sym, ap, ◌∙◌, subst, Bool, true,
  false, not, List, [], ◌==◌, if◌then◌else◌, arith, inl, inr, ◌⊎◌, ==-refl, ==-of_ne, Result, ok,
  fault, panic, ◌>>=◌,
}
use hyu_3rd_1se.Prelude.Bits.{bit_or, shift, bit_or-shift, bit_or-one}
use hyu_3rd_1se.Proc.{u32}
use hyu_3rd_1se.Thread.{minus32}
use hyu_3rd_1se.Kalloc.{Kmem}
use hyu_3rd_1se.Vm.{pdx, ptx, is_present, make_pte, map_page, mappages_loop, mappages, pground_down}
use hyu_3rd_1se.Vm.Walk.{entry_at, IsVm}
use hyu_3rd_1se.Vm.Map.{map_page-Mapped}

-- The entry of the page of this number; the address space has 2 ^ 20 pages.
abbrev pub page_entry : Kmem → ℕ → ℕ → ℕ
page_entry s pgdir v = entry_at s pgdir (v / 1024) (v % 1024)

-- What mapping the `n` pages from page `v` on to those from page `f` on gives.
pub data MapsPages (s : Kmem) (pgdir v n f perm : ℕ) : Result (Kmem × Bool) → Type 0 where
  no_memory : (s' : Kmem) → IsVm s' pgdir [] → MapsPages s pgdir v n f perm (ok (s', false))
  mapped_before :
      (i : ℕ)
      → i < n
      → is_present (page_entry s pgdir (v + i)) ≡ true
      → MapsPages s pgdir v n f perm (fault panic)
  all_mapped :
      (s' : Kmem) (ys : List ℕ)
      → IsVm s' pgdir ys
      → ((i : ℕ) → i < n → page_entry s' pgdir (v + i) ≡ 4096 * (f + i) + perm + 1)
      → ((u : ℕ) → u < 1048576 → (u < v ⊎ v + n ≤ u) → page_entry s' pgdir u ≡ page_entry s pgdir u)
      → MapsPages s pgdir v n f perm (ok (s', true))

-- The first page, with all other entries as they were.
pub data MapsPage (s : Kmem) (pgdir v f perm : ℕ) : Result (Kmem × Bool) → Type 0 where
  none_free : IsVm s pgdir [] → MapsPage s pgdir v f perm (ok (s, false))
  here_before : is_present (page_entry s pgdir v) ≡ true → MapsPage s pgdir v f perm (fault panic)
  here_mapped :
      (s' : Kmem) (ys : List ℕ)
      → IsVm s' pgdir ys
      → page_entry s' pgdir v ≡ 4096 * f + perm + 1
      → ((u : ℕ) → u < 1048576 → u ≢ v → page_entry s' pgdir u ≡ page_entry s pgdir u)
      → MapsPage s pgdir v f perm (ok (s', true))

-- The address of a frame has no digits below 4096, and flags none from there on.
make_pte-eq :
    (f perm : ℕ)
    → f < 1048576
    → perm < 4096
    → perm % 2 ≡ 0
    → make_pte (4096 * f) perm ≡ 4096 * f + perm + 1
make_pte-eq f perm l m even =
    let moved : shift 12 f ≡ 4096 * f = omega arith in
    let flags : bit_or 32 (shift 12 f) perm ≡ shift 12 f + perm =
      bit_or-shift 12 32 f perm m (omega (arith, l, m)) in
    ap (λ a. bit_or 32 (bit_or 32 a perm) 1) (sym moved)
    ∙ ap (λ a. bit_or 32 a 1) flags
    ∙ bit_or-one 31 (shift 12 f + perm) (omega (arith, even)) (omega (arith, l, m))
    ∙ omega arith

map_page-MapsPage :
    (s : Kmem) (pgdir v f perm : ℕ) (xs : List ℕ)
    → IsVm s pgdir xs
    → v < 1048576
    → f < 1048576
    → perm < 4096
    → perm % 2 ≡ 0
    → MapsPage s pgdir v f perm (map_page s pgdir (4096 * v) (4096 * f) perm)
map_page-MapsPage s pgdir v f perm xs h l lf flags even =
    let dir : pdx (4096 * v) ≡ v / 1024 = omega arith in
    let table : ptx (4096 * v) ≡ v % 1024 = omega arith in
    let pte = make_pte-eq f perm lf flags even in
    elim (map_page-Mapped s pgdir (4096 * v) (4096 * f) perm xs h) [
      | inl (a, e, r) ↦
          subst (MapsPage s pgdir v f perm) (sym r) (none_free (subst (IsVm s pgdir) e h))
      | inr (inl (p, r)) ↦
          subst (MapsPage s pgdir v f perm) (sym r) (here_before (sym (rw (dir, table)) ∙ p))
      | inr (inr (s', ys, r, h', e, same)) ↦ subst (MapsPage s pgdir v f perm) (sym r) (
          here_mapped s' ys h'
            (ap (λ x. entry_at s' pgdir x (v % 1024)) (sym dir)
              ∙ ap (entry_at s' pgdir (pdx (4096 * v))) (sym table)
              ∙ e
              ∙ pte)
            (λ u m n.
              same (u / 1024) (u % 1024) (omega arith) (omega arith)
                (λ x y. n (omega (arith, x, y, dir, table)))))
    ]

entries_from :
    (s' : Kmem) (pgdir v n f perm : ℕ)
    → page_entry s' pgdir v ≡ 4096 * f + perm + 1
    → ((i : ℕ) → i < n → page_entry s' pgdir (v + 1 + i) ≡ 4096 * (f + 1 + i) + perm + 1)
    → (i : ℕ) → i < suc n
    → page_entry s' pgdir (v + i) ≡ 4096 * (f + i) + perm + 1
entries_from s' pgdir v n f perm e new zero l =
    ap (page_entry s' pgdir) (omega arith) ∙ e ∙ omega arith
entries_from s' pgdir v n f perm e new (suc i) l =
    ap (page_entry s' pgdir) (omega arith) ∙ new i (omega (arith, l)) ∙ omega arith

later : (u v n : ℕ) → (u < v ⊎ v + suc n ≤ u) → (u < v + 1 ⊎ v + 1 + n ≤ u)
later u v n (inl a) = inl (omega (arith, a))
later u v n (inr a) = inr (omega (arith, a))

-- The rest of the pages after the first.
after_first :
    (s s1 : Kmem) (pgdir v n f perm : ℕ) {r : Result (Kmem × Bool)}
    → v + n < 1048576
    → page_entry s1 pgdir v ≡ 4096 * f + perm + 1
    → ((u : ℕ) → u < 1048576 → u ≢ v → page_entry s1 pgdir u ≡ page_entry s pgdir u)
    → MapsPages s1 pgdir (v + 1) n (f + 1) perm r
    → MapsPages s pgdir v (suc n) f perm r
after_first s s1 pgdir v n f perm l e same (no_memory s' h) = no_memory s' h
after_first s s1 pgdir v n f perm l e same (mapped_before i m p) =
    let other : page_entry s1 pgdir (v + 1 + i) ≡ page_entry s pgdir (v + 1 + i) =
      same (v + 1 + i) (omega (arith, l, m)) (λ x. omega (arith, x)) in
    mapped_before (suc i) (omega (arith, m))
      (ap (λ u. is_present (page_entry s pgdir u)) (omega arith) ∙ ap is_present (sym other) ∙ p)
after_first s s1 pgdir v n f perm l e same (all_mapped s' ys h new old) =
    all_mapped s' ys h
      (entries_from s' pgdir v n f perm (old v (omega (arith, l)) (inl (omega arith)) ∙ e) new)
      (λ u m away. old u m (later u v n away) ∙ same u m (λ x. absurd (ground (arith, x, away))))

first_then :
    (s : Kmem) (pgdir v n f perm : ℕ) (next : Kmem → Result (Kmem × Bool))
    {r : Result (Kmem × Bool)}
    → v + n < 1048576
    → MapsPage s pgdir v f perm r
    → ((s1 : Kmem) (ys : List ℕ)
        → IsVm s1 pgdir ys
        → MapsPages s1 pgdir (v + 1) n (f + 1) perm (next s1))
    → MapsPages s pgdir v
        (suc n)
        f
        perm
        (r >>= λ (s1, done). if not done then ok (s1, false) else next s1)
first_then s pgdir v n f perm next l (none_free h) rest = no_memory s h
first_then s pgdir v n f perm next l (here_before p) rest =
    mapped_before 0 (omega arith) (ap (λ u. is_present (page_entry s pgdir u)) (omega arith) ∙ p)
first_then s pgdir v n f perm next l (here_mapped s1 ys h e same) rest =
    after_first s s1 pgdir v n f perm l e same (rest s1 ys h)

mappages_loop-MapsPages :
    (n rounds : ℕ) (s : Kmem) (pgdir v f perm : ℕ) (xs : List ℕ)
    → IsVm s pgdir xs
    → v + n < 1048576
    → f + n < 1048576
    → perm < 4096
    → perm % 2 ≡ 0
    → n < rounds
    → MapsPages s pgdir v
        (suc n)
        f
        perm
        (mappages_loop rounds s pgdir (4096 * v) (4096 * (v + n)) (4096 * f) perm)
unfolding mappages_loop
mappages_loop-MapsPages n zero s pgdir v f perm xs h l m fl even k = absurd (omega (arith, k))
mappages_loop-MapsPages zero (suc rounds) s pgdir v f perm xs h l m fl even k =
    let last : (4096 * v == 4096 * (v + 0)) ≡ true =
      ap (λ u. 4096 * v == u) (omega arith) ∙ ==-refl (4096 * v) in
    rw last (
      first_then s pgdir v 0 f perm (λ s1. ok (s1, true)) l
        (map_page-MapsPage s pgdir v f perm xs h (omega (arith, l)) (omega (arith, m)) fl even)
        (λ s1 ys g. all_mapped s1 ys g (λ i a. absurd (omega (arith, a))) (λ u a b. refl)))
mappages_loop-MapsPages (suc n) (suc rounds) s pgdir v f perm xs h l m fl even k =
    let more : (4096 * v == 4096 * (v + suc n)) ≡ false =
      ==-of_ne (4096 * v) (4096 * (v + suc n)) (λ e. absurd (omega (arith, e))) in
    let page : u32 (4096 * v + 4096) ≡ 4096 * (v + 1) = omega (arith, l) in
    let frame : u32 (4096 * f + 4096) ≡ 4096 * (f + 1) = omega (arith, m) in
    let last : 4096 * (v + suc n) ≡ 4096 * (v + 1 + n) = omega arith in
    rw (more, page, frame, last)
      (first_then s pgdir v (suc n) f perm
        (λ s1.
          mappages_loop rounds s1 pgdir (4096 * (v + 1)) (4096 * (v + 1 + n)) (4096 * (f + 1)) perm)
        l (map_page-MapsPage s pgdir v f perm xs h (omega (arith, l)) (omega (arith, m)) fl even)
        (λ s1 ys g.
          mappages_loop-MapsPages n rounds s1 pgdir (v + 1) (f + 1) perm ys g (omega (arith, l))
            (omega (arith, m)) fl even (omega (arith, k))))

last_byte :
    (va size : ℕ) → 0 < size → va + size ≤ 4294967296 → minus32 (u32 (va + size)) 1 ≡ va + size - 1
last_byte va size pos l = omega (arith, pos, l)

-- `mappages` of the pages from `v` to `v + n`, where neither they nor the frames from `f` on go past the end
-- of the address space: every one of them gets the entry of its frame with the permissions and the present
-- bit, all other entries stay, and the tables keep apart. It panics only where one of them is mapped
-- already, and returns -1 only when no page of memory is free any more. The permissions are below 4096
-- and leave out the present bit.
pub mappages-MapsPages :
    (s : Kmem) (pgdir va size v n f perm : ℕ) (xs : List ℕ)
    → IsVm s pgdir xs
    → 0 < size
    → va + size ≤ 4294967296
    → va / 4096 ≡ v
    → (va + size - 1) / 4096 ≡ v + n
    → f + n < 1048576
    → perm < 4096
    → perm % 2 ≡ 0
    → MapsPages s pgdir v (suc n) f perm (mappages s pgdir va size (4096 * f) perm)
unfolding mappages
mappages-MapsPages s pgdir va size v n f perm xs h pos l first end m fl even =
    let start : pground_down va ≡ 4096 * v = omega (arith, first) in
    let last : pground_down (minus32 (u32 (va + size)) 1) ≡ 4096 * (v + n) =
      ap pground_down (last_byte va size pos l) ∙ omega (arith, end) in
    rw (start, last)
      (mappages_loop-MapsPages n 1048576 s pgdir v f perm xs h (omega (arith, pos, l, end)) m fl
        even (omega (arith, l, end)))

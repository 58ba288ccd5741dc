-- ===== src/Vm/Walk.antt =====
-- The page tables of vm.c as a map from virtual addresses to entries, and `walkpgdir`.
use hyu_3rd_1se.Prelude.{
  ℕ, ◌+◌, ◌*◌, ◌<◌, ◌≤◌, ◌≡◌, ◌≢◌, sym, subst, true, List, [], ◌∷◌, if◌then◌else◌, arith,
}
use hyu_3rd_1se.Kalloc.{Kmem}
use hyu_3rd_1se.Kalloc.Pages.{Chain, IsPage, Fresh, Pages, IsFree}
use hyu_3rd_1se.Vm.{pte_addr, is_present, v2p, p2v}

-- The directory entry `i`, and the page table that it points to.
abbrev pub pde_at : Kmem → ℕ → ℕ → ℕ
pde_at s pgdir i = s.memory (pgdir + 4 * i)

abbrev pub table_at : Kmem → ℕ → ℕ → ℕ
table_at s pgdir i = p2v (pte_addr (pde_at s pgdir i))

-- The entry `j` of the page table `i`, or 0 without a page table.
abbrev pub entry_at : Kmem → ℕ → ℕ → ℕ → ℕ
entry_at s pgdir i j =
    if is_present (pde_at s pgdir i) then s.memory (table_at s pgdir i + 4 * j) else 0

abbrev pub Small : List ℕ → Type 0
Small [] = 0 ≤ 0
Small (x ∷ xs) = (x < 4294967296) × Small xs

-- A page directory whose page tables are pages of their own, apart from the free pages `xs`.
pub record IsVm (s : Kmem) (pgdir : ℕ) (xs : List ℕ) : Type 0 where
  pub free : IsFree s xs
  pub small : Small xs
  pub dir_page : IsPage pgdir
  pub dir_used : Fresh pgdir xs
  pub table_page :
      (i : ℕ) → i < 1024 → is_present (pde_at s pgdir i) ≡ true → IsPage (table_at s pgdir i)
  pub table_used :
      (i : ℕ) → i < 1024 → is_present (pde_at s pgdir i) ≡ true → Fresh (table_at s pgdir i) xs
  pub table_not_dir :
      (i : ℕ) → i < 1024 → is_present (pde_at s pgdir i) ≡ true → table_at s pgdir i ≢ pgdir
  pub tables_apart :
      (i j : ℕ)
      → i < 1024
      → j < 1024
      → is_present (pde_at s pgdir i) ≡ true
      → is_present (pde_at s pgdir j) ≡ true
      → table_at s pgdir i ≡ table_at s pgdir j
      → i ≡ j

-- The memory of other pages than `v`.
abbrev pub Within : ℕ → ℕ → Type 0
Within v a = (v ≤ a) × (a < v + 4096)

pub Within-other : (p x : ℕ) → IsPage p → IsPage x → x ≢ p → Within p x → ⊥
Within-other p x (a, b) (c, d) n (e, f) = n (omega arith)

-- A change within two pages that are in use leaves the free pages alone.
pub Chain-same :
    (m m' : ℕ → ℕ) (h p q : ℕ) (xs : List ℕ)
    → IsPage p
    → IsPage q
    → Fresh p xs
    → Fresh q xs
    → Pages xs
    → ((a : ℕ) → (Within p a → ⊥) → (Within q a → ⊥) → m' a ≡ m a)
    → Chain m h xs
    → Chain m' h xs
Chain-same m m' h p q [] a b c d g f k = k
Chain-same m m' h p q (x ∷ xs) a b (nc, c) (nd, d) (page, u, g) f (e, k) = (
  e,
  Chain-same m m' (m' x) p q xs a b c d g f (
      subst (λ y. Chain m y xs)
        (sym (f x (Within-other p x a page nc) (Within-other q x b page nd))) k),
)

pub Fresh-ne : (t x : ℕ) (xs : List ℕ) → Fresh t (x ∷ xs) → t ≢ x
Fresh-ne t x xs (n, f) e = n (sym e)

-- A word of a page.
pub in_page : (t j : ℕ) → j < 1024 → Within t (t + 4 * j)
in_page t j l = (omega arith, omega arith)

pub two_pages : (p q a : ℕ) → IsPage p → IsPage q → p ≢ q → Within p a → Within q a → ⊥
two_pages p q a (x, y) (z, w) n (b, c) (d, e) = n (omega arith)

-- The entry for a page table in the directory leads back to it.
pub table_of_entry :
    (x : ℕ)
    → IsPage x
    → x < 4294967296
    → (is_present (v2p x + 7) ≡ true) × (p2v (pte_addr (v2p x + 7)) ≡ x)
table_of_entry x (a, b) l = (ground arith, ground arith)

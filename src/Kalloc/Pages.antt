-- ===== src/Kalloc/Pages.antt =====
-- The free pages of kalloc.c as a list.
use hyu_3rd_1se.Prelude.{
  ℕ, zero, suc, ◌+◌, ◌-◌, ◌/◌, ◌%◌, ◌<◌, ◌≤◌, ◌≡◌, ◌≢◌, refl, sym, true, false, ◌&&◌, List, [], ◌∷◌,
  ◌==◌, ltb, leb, Result, ok, arith, Bool-cases, inl, inr, ◌⊎◌, ==-refl, ==-of_ne, ==_iff, subst,
}
use hyu_3rd_1se.Proc.{u32}
use hyu_3rd_1se.Thread.{pgsize, pground_up, kernbase}
use hyu_3rd_1se.Kalloc.{
  phystop, Kmem, may_free, fill_page, kfree, freerange_loop, freerange, kalloc,
}

-- The list of the pages from an address on.
abbrev pub Chain : (ℕ → ℕ) → ℕ → List ℕ → Type 0
Chain m h [] = h ≡ 0
Chain m h (x ∷ xs) = (h ≡ x) × Chain m (m x) xs

abbrev pub IsPage : ℕ → Type 0
IsPage v = (0 < v) × (v % 4096 ≡ 0)

abbrev pub Fresh : ℕ → List ℕ → Type 0
Fresh v [] = 0 ≤ v
Fresh v (x ∷ xs) = (x ≢ v) × Fresh v xs

abbrev pub Pages : List ℕ → Type 0
Pages [] = 0 ≤ 0
Pages (x ∷ xs) = IsPage x × Fresh x xs × Pages xs

-- The free pages are the list, each once.
pub record IsFree (s : Kmem) (xs : List ℕ) : Type 0 where
  pub chain : Chain s.memory s.freelist xs
  pub pages : Pages xs

-- A page's fill does not touch another page's word.
fill_page_apart : (s : Kmem) (v x : ℕ) → IsPage v → IsPage x → x ≢ v → fill_page s v x ≡ s.memory x
fill_page_apart s v x (a, b) (c, d) n =
    let apart : (leb v x && ltb x (v + pgsize)) ≡ false = ground (arith, n) in
    rw (==-of_ne x v n, apart)

Chain-fill_page :
    (s : Kmem) (v h : ℕ) (xs : List ℕ)
    → IsPage v
    → Fresh v xs
    → Pages xs
    → Chain s.memory h xs
    → Chain (fill_page s v) h xs
Chain-fill_page s v h [] p f g c = c
Chain-fill_page s v h (x ∷ xs) p (n, f) (q, r, g) (e, c) = (
  e,
  Chain-fill_page s v (fill_page s v x) xs p f g
      (subst (λ u. Chain s.memory u xs) (sym (fill_page_apart s v x p q n)) c),
)

-- `kfree` of a page that may be freed and is not free puts it in front of the free pages, and changes no
-- word outside the page.
pub kfree-IsFree :
    (s : Kmem) (v : ℕ) (xs : List ℕ)
    → IsFree s xs
    → 0 < v
    → Fresh v xs
    → may_free s v ≡ true
    → (s' : Kmem) × (kfree v s ≡ ok s')
      × IsFree s' (v ∷ xs)
      × ((a : ℕ) → (a < v) ⊎ (v + 4096 ≤ a) → s'.memory a ≡ s.memory a)
      × (s'.kernel_end ≡ s.kernel_end)
unfolding kfree
kfree-IsFree s v xs h n f m =
    let aligned : (v % 4096 == 0) ≡ true = ground (arith, m) in
    let p : IsPage v = (n, (==_iff (v % 4096) 0).0 aligned) in
    (
      record s { memory = fill_page s v; freelist = v },
      rw m,
      record {
        chain = (refl, rw (==-refl v) (Chain-fill_page s v s.freelist xs p f h.pages h.chain));
        pages = (p, f, h.pages);
      },
      λ a o.
          let apart : (leb v a && ltb a (v + pgsize)) ≡ false = ground (arith, o) in
          let other : a ≢ v = λ e. absurd (omega (arith, o, e)) in rw (==-of_ne a v other, apart),
      refl,
    )

-- What `kalloc` gives: the first free page, or the null pointer.
abbrev pub KallocResult : Kmem → List ℕ → Kmem × ℕ → Type 0
KallocResult s [] r = r ≡ (s, 0)
KallocResult s (x ∷ xs) r = (r.1 ≡ x) × IsFree r.0 xs × Fresh x xs × (r.0.memory ≡ s.memory)

-- `kalloc` takes the first free page, and leaves the other pages free and all words as they are; without
-- a free page it returns the null pointer and changes nothing.
pub kalloc-KallocResult : (s : Kmem) (xs : List ℕ) → IsFree s xs → KallocResult s xs (kalloc s)
unfolding kalloc
kalloc-KallocResult s [] h = rw h.chain
kalloc-KallocResult s (x ∷ xs) h =
    let (e, c) = h.chain in
    let (p, f, g) = h.pages in
    let some_page : s.freelist ≢ 0 = λ z. absurd (omega (arith, z, e, p)) in
    rw (==-of_ne s.freelist 0 some_page) (
      e,
      record { chain = subst (λ u. Chain s.memory (s.memory u) xs) (sym e) c; pages = g },
      f,
      refl,
    )

-- All pages of the list lie before the address.
abbrev pub Below : ℕ → List ℕ → Type 0
Below p [] = 0 ≤ p
Below p (x ∷ xs) = (x < p) × Below p xs

Below-Fresh : (p : ℕ) (xs : List ℕ) → Below p xs → Fresh p xs
Below-Fresh p [] h = omega arith
Below-Fresh p (x ∷ xs) (l, h) = ((λ e. absurd (omega (arith, e))), Below-Fresh p xs h)

Below-later : (p q : ℕ) (xs : List ℕ) → p ≤ q → Below p xs → Below q xs
Below-later p q [] l h = omega arith
Below-later p q (x ∷ xs) l (m, h) = (omega arith, Below-later p q xs l h)

-- The free pages after the n pages from an address on were freed, the last one first.
abbrev pub freed : ℕ → ℕ → List ℕ → List ℕ
freed p zero xs = xs
freed p (suc n) xs = freed (p + 4096) n (p ∷ xs)

freerange_step :
    (rounds p q vend : ℕ) (s s1 : Kmem) (r : Result Kmem)
    → leb (u32 (p + pgsize)) vend ≡ true
    → u32 (p + pgsize) ≡ q
    → kfree p s ≡ ok s1
    → freerange_loop rounds q vend s1 ≡ r
    → freerange_loop (suc rounds) p vend s ≡ r
unfolding freerange_loop
freerange_step rounds p q vend s s1 r c n e t = rw (c, e, n) t

-- The loop of `freerange`, from a page boundary on. It needs one round for each page, and one to end.
freerange_loop-IsFree :
    (rounds p vend : ℕ) (s : Kmem) (xs : List ℕ)
    → IsFree s xs
    → Below p xs
    → p % 4096 ≡ 0
    → s.kernel_end ≤ p
    → kernbase ≤ p
    → p ≤ vend
    → vend ≤ kernbase + phystop
    → (vend - p) / 4096 < rounds
    → (s' : Kmem) × (freerange_loop rounds p vend s ≡ ok s')
      × IsFree s' (freed p ((vend - p) / 4096) xs)
unfolding freerange_loop
freerange_loop-IsFree zero p vend s xs h below a k b l top f = absurd (omega arith)
freerange_loop-IsFree (suc rounds) p vend s xs h below a k b l top f =
    elim (Bool-cases (leb (u32 (p + pgsize)) vend)) [
      | inr c ↦
          let full : vend < p + 4096 = ground (arith, c) in
          let none : 0 ≡ (vend - p) / 4096 = omega arith in
          (s, rw c, subst (λ n. IsFree s (freed p n xs)) none h)
      | inl c ↦
          let room : p + 4096 ≤ vend = ground (arith, c) in
          let free : may_free s p ≡ true = ground arith in
          let (s1, e, h1, same, end_kept) =
            kfree-IsFree s p xs h (omega arith) (Below-Fresh p xs below) free in
          let next : u32 (p + pgsize) ≡ p + 4096 = omega arith in
          let (s', e1, h') =
            freerange_loop-IsFree rounds (p + 4096) vend s1 (p ∷ xs) h1
              (omega arith, Below-later p (p + 4096) xs (omega arith) below) (omega (arith, a))
              (omega (arith, end_kept)) (omega arith) room top (omega arith) in
          let count : suc ((vend - (p + 4096)) / 4096) ≡ (vend - p) / 4096 = omega arith in
          (
            s',
            freerange_step rounds p (p + 4096) vend s s1 (ok s') c next e e1,
            subst (λ n. IsFree s' (freed p n xs)) count h',
          )
    ]

-- `freerange` of physical memory behind the kernel, above all free pages, ends. The free pages are then
-- the whole pages of the range, from the first page boundary on, each once, and those that were free
-- before. It needs one round for each page, and one to end.
pub freerange-IsFree :
    (rounds vstart vend : ℕ) (s : Kmem) (xs : List ℕ)
    → IsFree s xs
    → Below vstart xs
    → s.kernel_end ≤ vstart
    → kernbase ≤ vstart
    → pground_up vstart ≤ vend
    → vend ≤ kernbase + phystop
    → vstart ≤ vend
    → (vend - pground_up vstart) / 4096 < rounds
    → (s' : Kmem) × (freerange rounds vstart vend s ≡ ok s')
      × IsFree s' (freed (pground_up vstart) ((vend - pground_up vstart) / 4096) xs)
unfolding freerange
freerange-IsFree rounds vstart vend s xs h below k b l top w f =
    let up : vstart ≤ pground_up vstart = omega arith in
    freerange_loop-IsFree rounds (pground_up vstart) vend s xs h
      (Below-later vstart (pground_up vstart) xs up below) (omega arith) (omega arith) (omega arith)
      l top f

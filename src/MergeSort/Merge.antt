-- ===== src/MergeSort/Merge.antt =====
-- What the steps of `merge` of CSE/HW9/HW9_1_given.c keep.
use hyu_3rd_1se.Prelude.{
  ℕ, zero, suc, ◌+◌, ◌<◌, ◌≤◌, ◌≡◌, ◌≢◌, refl, sym, ap, ◌∙◌, subst, if◌then◌else◌, ◌⊎◌, inl, inr,
  update, arith, ==-of_ne, ==-refl, below_suc,
}
use hyu_3rd_1se.Prelude.Int.{ℤ, ◌≤ℤ◌}
use hyu_3rd_1se.Tree.{◌==ℤ◌}
use hyu_3rd_1se.MergeSort.{Merging, take_i, take_j}

abbrev pub IsSorted : (ℕ → ℤ) → ℕ → ℕ → Type 0
IsSorted a from n = (i j : ℕ) → from ≤ i → i < j → j < from + n → a i ≤ℤ a j

abbrev pub one_of : ℤ → ℤ → ℕ
one_of x q = if x ==ℤ q then 1 else 0

-- How often a number stands among the n elements from an index on.
abbrev pub count : (ℕ → ℤ) → ℕ → ℕ → ℤ → ℕ
count a from zero q = 0
count a from (suc n) q = one_of (a from) q + count a (suc from) n q

abbrev pub IsAbove : ℤ → (ℕ → ℤ) → ℕ → ℕ → Type 0
IsAbove x a from n = (m : ℕ) → from ≤ m → m < from + n → x ≤ℤ a m

pub count_same :
    (a b : ℕ → ℤ) (from n : ℕ) (q : ℤ)
    → ((m : ℕ) → from ≤ m → m < from + n → a m ≡ b m)
    → count a from n q ≡ count b from n q
count_same a b from zero q h = refl
count_same a b from (suc n) q h = rw (h from (omega arith) (omega arith)) (
    ap (λ x. (if b from ==ℤ q then 1 else 0) + x)
      (count_same a b (suc from) n q (λ m l k. h m (omega (arith, l)) (omega (arith, k)))))

-- What merging n1 and n2 elements, n in all, gives: they stand in the array from `k` on, in order when both
-- parts are.
pub record Merged (s : Merging) (n1 n2 n : ℕ) (a : ℕ → ℤ) : Type 0 where
  pub before : (m : ℕ) → m < s.k → a m ≡ s.list m
  pub behind : (m : ℕ) → s.k + n ≤ m → a m ≡ s.list m
  pub counts : (q : ℤ) → count a s.k n q ≡ count s.tmp s.i n1 q + count s.tmp s.j n2 q
  pub above : (x : ℤ) → IsAbove x s.tmp s.i n1 → IsAbove x s.tmp s.j n2 → IsAbove x a s.k n
  pub sorted : IsSorted s.tmp s.i n1 → IsSorted s.tmp s.j n2 → IsSorted a s.k n

updated_other : {A : Type 0} (f : ℕ → A) (i : ℕ) (v : A) (m : ℕ) → i ≢ m → update f i v m ≡ f m
updated_other f i v m d = rw (==-of_ne i m d) refl

updated_here : {A : Type 0} (f : ℕ → A) (i : ℕ) (v : A) → update f i v i ≡ v
updated_here f i v = rw (==-refl i) refl

pub same_le : {x y x' y' : ℤ} → x ≡ x' → y ≡ y' → x' ≤ℤ y' → x ≤ℤ y
same_le {x} {y} {x'} e f l = subst (λ z. z ≤ℤ y) (sym e) (subst (λ z. x' ≤ℤ z) (sym f) l)

one_more : {x y z y' z' : ℕ} (o : ℕ) → x ≡ y' + z' → y' ≡ y → z' ≡ z → o + x ≡ o + y + z
one_more o e f g = omega (arith, e, f, g)

-- The number that `take_i` moves goes to place `k`; the other numbers to be merged stay where they are.
module _ (s : Merging) (n1 n2 n : ℕ) (a : ℕ → ℤ) (apart : s.i < s.j ⊎ s.j + n2 ≤ s.i)
    (h : Merged (take_i s) n1 n2 n a) where
  here : a s.k ≡ s.tmp s.i
  here = h.before s.k (omega arith) ∙ updated_here s.list s.k (s.tmp s.i)

  rest_i : (m : ℕ) → suc s.i ≤ m → update s.tmp s.i (s.list s.k) m ≡ s.tmp m
  rest_i m p = updated_other s.tmp s.i (s.list s.k) m (λ e. absurd (omega (arith, e, p)))

  rest_j : (m : ℕ) → s.j ≤ m → m < s.j + n2 → update s.tmp s.i (s.list s.k) m ≡ s.tmp m
  rest_j m p r = updated_other s.tmp s.i (s.list s.k) m (λ e. elim apart [
    | inl x ↦ absurd (omega (arith, e, p, x))
    | inr x ↦ absurd (omega (arith, e, r, x))
  ])

  rest-IsAbove :
      (x : ℤ) → IsAbove x s.tmp (suc s.i) n1 → IsAbove x s.tmp s.j n2 → IsAbove x a (suc s.k) n
  rest-IsAbove x p r =
      h.above x (λ m u v. subst (λ y. x ≤ℤ y) (sym (rest_i m u)) (p m u v))
        (λ m u v. subst (λ y. x ≤ℤ y) (sym (rest_j m u v)) (r m u v))

  first_counts : (q : ℤ) → count a s.k (suc n) q ≡ count s.tmp s.i (suc n1) q + count s.tmp s.j n2 q
  first_counts q =
      let c1 = count_same (take_i s).tmp s.tmp (suc s.i) n1 q (λ m u v. rest_i m u) in
      let c2 = count_same (take_i s).tmp s.tmp s.j n2 q rest_j in
      let c = h.counts q in
      ap (λ x. one_of x q + count a (suc s.k) n q) here ∙ one_more (one_of (s.tmp s.i) q) c c1 c2

  first-IsAbove :
      (x : ℤ) → IsAbove x s.tmp s.i (suc n1) → IsAbove x s.tmp s.j n2 → IsAbove x a s.k (suc n)
  first-IsAbove x p r m u v = elim (below_suc s.k m (omega (arith, u))) [
    | inl e ↦
        subst (λ y. x ≤ℤ a y) e (subst (λ y. x ≤ℤ y) (sym here) (p s.i (omega arith) (omega arith)))
    | inr e ↦
        rest-IsAbove x (λ o y z. p o (omega (arith, y)) (omega (arith, z))) r m (omega (arith, e))
          (omega (arith, v))
  ]

  first-IsSorted :
      (IsSorted s.tmp s.i (suc n1) → IsSorted s.tmp s.j n2 → IsAbove (s.tmp s.i) s.tmp s.j n2)
      → IsSorted s.tmp s.i (suc n1)
      → IsSorted s.tmp s.j n2
      → IsSorted a s.k (suc n)
  first-IsSorted low p r u v l m w = elim (below_suc s.k u (omega (arith, l))) [
    | inl e ↦
        let least =
          rest-IsAbove (s.tmp s.i)
            (λ o y z. p s.i o (omega arith) (omega (arith, y)) (omega (arith, z))) (low p r) v
            (omega (arith, e, m)) (omega (arith, w)) in
        subst (λ y. a y ≤ℤ a v) e (subst (λ y. y ≤ℤ a v) (sym here) least)
    | inr e ↦
        h.sorted
          (λ b c x y z.
            same_le (rest_i b x) (rest_i c (omega (arith, x, y)))
              (p b c (omega (arith, x)) y (omega (arith, z))))
          (λ b c x y z.
            same_le (rest_j b x (omega (arith, y, z))) (rest_j c (omega (arith, x, y)) z)
              (r b c x y z))
          u v (omega (arith, e)) m (omega (arith, w))
  ]

  pub Merged-take_i :
      (IsSorted s.tmp s.i (suc n1) → IsSorted s.tmp s.j n2 → IsAbove (s.tmp s.i) s.tmp s.j n2)
      → Merged s (suc n1) n2 (suc n) a
  Merged-take_i low = record {
    before = λ m l.
        h.before m (omega (arith, l))
        ∙ updated_other s.list s.k (s.tmp s.i) m (λ e. absurd (omega (arith, e, l)));
    behind = λ m l.
        h.behind m (omega (arith, l))
        ∙ updated_other s.list s.k (s.tmp s.i) m (λ e. absurd (omega (arith, e, l)));
    counts = first_counts;
    above = first-IsAbove;
    sorted = first-IsSorted low;
  }

abbrev swap : Merging → Merging
swap s = record s { i = s.j; j = s.i }

Merged-swap :
    (s : Merging) (n1 n2 n : ℕ) (a : ℕ → ℤ) → Merged s n1 n2 n a → Merged (swap s) n2 n1 n a
Merged-swap s n1 n2 n a h = record {
  before = h.before;
  behind = h.behind;
  counts = λ q. h.counts q ∙ omega arith;
  above = λ x p r. h.above x r p;
  sorted = λ p r. h.sorted r p;
}

pub Merged-take_j :
    (s : Merging) (n1 n2 n : ℕ) (a : ℕ → ℤ)
    → s.i + n1 ≤ s.j
    → Merged (take_j s) n1 n2 n a
    → (IsSorted s.tmp s.i n1 → IsSorted s.tmp s.j (suc n2) → IsAbove (s.tmp s.j) s.tmp s.i n1)
    → Merged s n1 (suc n2) (suc n) a
Merged-take_j s n1 n2 n a l h low =
    Merged-swap (swap s) (suc n2) n1 (suc n) a (
      Merged-take_i (swap s) n2 n1 n a (inr l) (Merged-swap (take_j s) n1 n2 n a h)
        (λ p r. low r p))

pub nothing-Merged : (s : Merging) → Merged s 0 0 0 s.list
nothing-Merged s = record {
  before = λ m l. refl;
  behind = λ m l. refl;
  counts = λ q. refl;
  above = λ x p r m u v. absurd (omega (arith, u, v));
  sorted = λ p r u v l m w. absurd (omega (arith, l, m, w));
}

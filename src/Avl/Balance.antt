-- ===== src/Avl/Balance.antt =====
-- The heights and the rotations of hw6.c.
use hyu_3rd_1se.Prelude.{ℕ, ◌+◌, ◌≤◌, ◌<◌, ◌≡◌, inl, inr, ltb, arith, ◌↔◌}
use hyu_3rd_1se.Prelude.Int.{ℤ, pos, negsuc, ltb_ℤ, ◌-ℤ◌, -ℤ_parts}
use hyu_3rd_1se.Tree.{Tree, leaf, node, ◌<ℤ◌, All-imp, All-Has, All-of_Has, Has, IsOrdered}
use hyu_3rd_1se.Avl.{max, get_height}

-- Heights that differ by one at most.
pub record Near (m n : ℕ) : Type 0 where
  pub not_above : m ≤ n + 1
  pub not_below : n ≤ m + 1

abbrev pub IsBalanced : Tree → Type 0
IsBalanced leaf = Unit
IsBalanced (node l k r) = IsBalanced l × IsBalanced r × Near (get_height l) (get_height r)

-- The same keys, in order if they were.
pub record SameKeys (t t' : Tree) : Type 0 where
  pub has : (q : ℤ) → Has q t ↔ Has q t'
  pub ordered : IsOrdered t → IsOrdered t'

pub SameKeys-refl : (t : Tree) → SameKeys t t
SameKeys-refl t = record { has = λ q. (λ h. h, λ h. h); ordered = λ o. o }

pub SameKeys-trans : (t u v : Tree) → SameKeys t u → SameKeys u v → SameKeys t v
SameKeys-trans t u v a b = record {
  has = λ q. (λ h. (b.has q).0 ((a.has q).0 h), λ h. (a.has q).1 ((b.has q).1 h));
  ordered = λ o. b.ordered (a.ordered o);
}

Has-rotated :
    (a : Tree) (k : ℤ) (b : Tree) (p : ℤ) (c : Tree) (q : ℤ)
    → Has q (node (node a k b) p c) ↔ Has q (node a k (node b p c))
Has-rotated a k b p c q = (
  λ h. elim h [
    | inl (inl x) ↦ inl x
    | inl (inr (inl x)) ↦ inr (inl x)
    | inl (inr (inr x)) ↦ inr (inr (inl x))
    | inr (inl x) ↦ inr (inr (inr (inl x)))
    | inr (inr x) ↦ inr (inr (inr (inr x)))
  ],
  λ h. elim h [
    | inl x ↦ inl (inl x)
    | inr (inl x) ↦ inl (inr (inl x))
    | inr (inr (inl x)) ↦ inl (inr (inr x))
    | inr (inr (inr (inl x))) ↦ inr (inl x)
    | inr (inr (inr (inr x))) ↦ inr (inr x)
  ],
)

pub rotated_right :
    (a : Tree) (k : ℤ) (b : Tree) (p : ℤ) (c : Tree)
    → SameKeys (node (node a k b) p c) (node a k (node b p c))
rotated_right a k b p c = record {
  has = Has-rotated a k b p c;
  ordered = λ o.
      let ((la, lk, lb), rc, (xa, xb, oa, ob), oc) = o in
      (xa, (xb, lk, All-imp (λ x h. omega (arith, h, lk)) c rc), oa, (lb, rc, ob, oc));
}

pub rotated_left :
    (a : Tree) (p : ℤ) (b : Tree) (k : ℤ) (c : Tree)
    → SameKeys (node a p (node b k c)) (node (node a p b) k c)
rotated_left a p b k c = record {
  has = λ q. let (f, g) = Has-rotated a p b k c q in (g, f);
  ordered = λ o.
      let (la, (rb, rk, rc), oa, (xb, xc, ob, oc)) = o in
      ((All-imp (λ x h. omega (arith, h, rk)) a la, rk, xb), xc, (la, rb, oa, ob), oc);
}

-- A tree in the place of a subtree.
pub SameKeys-left :
    (l l' : Tree) (k : ℤ) (r : Tree) → SameKeys l l' → SameKeys (node l k r) (node l' k r)
SameKeys-left l l' k r s = record {
  has = λ q. (
    λ h. elim h [ inl x ↦ inl ((s.has q).0 x) | inr x ↦ inr x ],
    λ h. elim h [ inl x ↦ inl ((s.has q).1 x) | inr x ↦ inr x ],
  );
  ordered = λ (a, b, c, d). (
    All-of_Has (λ x. x <ℤ k) l' (λ q h. All-Has (λ x. x <ℤ k) l q a ((s.has q).1 h)),
    b,
    s.ordered c,
    d,
  );
}

pub SameKeys-right :
    (l : Tree) (k : ℤ) (r r' : Tree) → SameKeys r r' → SameKeys (node l k r) (node l k r')
SameKeys-right l k r r' s = record {
  has = λ q. (
    λ h. elim h [
      | inl x ↦ inl x
      | inr (inl x) ↦ inr (inl x)
      | inr (inr x) ↦ inr (inr ((s.has q).0 x))
    ],
    λ h. elim h [
      | inl x ↦ inl x
      | inr (inl x) ↦ inr (inl x)
      | inr (inr x) ↦ inr (inr ((s.has q).1 x))
    ],
  );
  ordered = λ (a, b, c, d). (
    a,
    All-of_Has (λ x. k <ℤ x) r' (λ q h. All-Has (λ x. k <ℤ x) r q b ((s.has q).1 h)),
    c,
    s.ordered d,
  );
}

-- What `rebalance` makes of a node: the same keys, balanced, with the height of the higher subtree or
-- one more.
abbrev pub Rebalanced : Tree → ℤ → Tree → Tree → Type 0
Rebalanced l k r t =
    SameKeys (node l k r) t
    × IsBalanced t
    × (max (get_height l) (get_height r) ≤ get_height t)
    × (get_height t ≤ 1 + max (get_height l) (get_height r))

-- The tests of a difference of heights.
diff_below_0 : (m n : ℕ) → ltb_ℤ (pos m -ℤ pos n) (pos 0) ≡ ltb m n
diff_below_0 m n = ground (arith, -ℤ_parts (pos m) (pos n))

diff_above_0 : (m n : ℕ) → ltb_ℤ (pos 0) (pos m -ℤ pos n) ≡ ltb n m
diff_above_0 m n = ground (arith, -ℤ_parts (pos m) (pos n))

diff_above_1 : (m n : ℕ) → ltb_ℤ (pos 1) (pos m -ℤ pos n) ≡ ltb (n + 1) m
diff_above_1 m n = ground (arith, -ℤ_parts (pos m) (pos n))

diff_below_minus_1 : (m n : ℕ) → ltb_ℤ (pos m -ℤ pos n) (negsuc 0) ≡ ltb (m + 1) n
diff_below_minus_1 m n = ground (arith, -ℤ_parts (pos m) (pos n))

-- The height `t` of a rebalanced node with subtrees of the heights `l` and `r`.
pub record Bounded (l r t : ℕ) : Type 0 where
  pub at_least : max l r ≤ t
  pub at_most : t ≤ 1 + max l r

-- The heights in a double rotation, where `b` and `d` are those of the subtrees that part.
pub double_heights :
    (a b d r : ℕ)
    → Near b d
    → Near a (1 + max b d)
    → a < 1 + max b d
    → 1 + max a (1 + max b d) ≡ r + 2
    → Near a b
      × Near d r
      × Near (1 + max a b) (1 + max d r)
      × Bounded (1 + max a (1 + max b d)) r (1 + max (1 + max a b) (1 + max d r))
double_heights a b d r p u c e =
    let mb : max b d ≡ r = ground arith in
    let ea : a ≡ r = ground arith in
    (
      record { not_above = ground arith; not_below = ground arith },
      record { not_above = ground arith; not_below = ground arith },
      record { not_above = ground arith; not_below = ground arith },
      record { at_least = ground arith; at_most = ground arith },
    )

pub double_heights_right :
    (a b d l : ℕ)
    → Near b d
    → Near (1 + max b d) a
    → a < 1 + max b d
    → 1 + max (1 + max b d) a ≡ l + 2
    → Near l b
      × Near d a
      × Near (1 + max l b) (1 + max d a)
      × Bounded l (1 + max (1 + max b d) a) (1 + max (1 + max l b) (1 + max d a))
double_heights_right a b d l p u c e =
    let mb : max b d ≡ l = ground arith in
    let ea : a ≡ l = ground arith in
    (
      record { not_above = ground arith; not_below = ground arith },
      record { not_above = ground arith; not_below = ground arith },
      record { not_above = ground arith; not_below = ground arith },
      record { at_least = ground arith; at_most = ground arith },
    )

pub single_heights :
    (a b r : ℕ)
    → Near a b
    → b ≤ a
    → 1 + max a b ≡ r + 2
    → Near b r × Near a (1 + max b r) × Bounded (1 + max a b) r (1 + max a (1 + max b r))
single_heights a b r p c e =
    let ea : a ≡ r + 1 = ground arith in
    (
      record { not_above = ground arith; not_below = ground arith },
      record { not_above = ground arith; not_below = ground arith },
      record { at_least = ground arith; at_most = ground arith },
    )

pub single_heights_right :
    (a b l : ℕ)
    → Near b a
    → b ≤ a
    → 1 + max b a ≡ l + 2
    → Near l b × Near (1 + max l b) a × Bounded l (1 + max b a) (1 + max (1 + max l b) a)
single_heights_right a b l p c e =
    let ea : a ≡ l + 1 = ground arith in
    (
      record { not_above = ground arith; not_below = ground arith },
      record { not_above = ground arith; not_below = ground arith },
      record { at_least = ground arith; at_most = ground arith },
    )

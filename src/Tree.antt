-- ===== src/Tree.antt =====
-- The binary trees of CSE/HW6/hw6.c, the keys that stand in them, and their order.
use hyu_3rd_1se.Prelude.{◌+◌, ◌<◌, ◌≡◌, refl, sym, subst, ◌⊎◌, inl, inr, Bool, ◌==◌, arith}
use hyu_3rd_1se.Prelude.Int.{ℤ, pos_part, neg_part}

-- A node has its left subtree, its key and its right subtree; `leaf` is the null pointer.
pub data Tree : Type 0 where
  leaf : Tree
  node : Tree → ℤ → Tree → Tree

infix 50 ◌<ℤ◌ ◌==ℤ◌
abbrev pub ◌<ℤ◌ : ℤ → ℤ → Type 0
a <ℤ b = pos_part a + neg_part b < pos_part b + neg_part a

abbrev pub ◌==ℤ◌ : ℤ → ℤ → Bool
a ==ℤ b = pos_part a + neg_part b == pos_part b + neg_part a

abbrev pub All : (ℤ → Type 0) → Tree → Type 0
All P leaf = Unit
All P (node l k r) = All P l × P k × All P r

pub All-imp : {P Q : ℤ → Type 0} → ((k : ℤ) → P k → Q k) → (t : Tree) → All P t → All Q t
All-imp f leaf a = tt
All-imp f (node l k r) (a, b, c) = (All-imp f l a, f k b, All-imp f r c)

-- The key stands in the tree.
abbrev pub Has : ℤ → Tree → Type 0
Has q leaf = ⊥
Has q (node l k r) = Has q l ⊎ (q ≡ k) ⊎ Has q r

abbrev pub IsOrdered : Tree → Type 0
IsOrdered leaf = Unit
IsOrdered (node l k r) = All (λ x. x <ℤ k) l × All (λ x. k <ℤ x) r × IsOrdered l × IsOrdered r

pub All-Has : (P : ℤ → Type 0) (t : Tree) (q : ℤ) → All P t → Has q t → P q
All-Has P leaf q a h = elim h [ ]
All-Has P (node l k r) q (a, b, c) (inl h) = All-Has P l q a h
All-Has P (node l k r) q (a, b, c) (inr (inl e)) = subst P (sym e) b
All-Has P (node l k r) q (a, b, c) (inr (inr h)) = All-Has P r q c h

pub All-of_Has : (P : ℤ → Type 0) (t : Tree) → ((q : ℤ) → Has q t → P q) → All P t
All-of_Has P leaf f = tt
All-of_Has P (node l k r) f = (
  All-of_Has P l (λ q h. f q (inl h)),
  f k (inr (inl refl)),
  All-of_Has P r (λ q h. f q (inr (inr h))),
)

-- In an ordered tree a smaller key stands on the left only, and a greater one on the right only.
pub Has-left :
    (l : Tree) (k : ℤ) (r : Tree) (q : ℤ)
    → IsOrdered (node l k r)
    → q <ℤ k
    → Has q (node l k r)
    → Has q l
Has-left l k r q o s (inl h) = h
Has-left l k r q o s (inr (inl e)) = absurd (omega (arith, subst (λ x. x <ℤ k) e s))
Has-left l k r q o s (inr (inr h)) = absurd (omega (arith, All-Has (λ x. k <ℤ x) r q o.1 h))

pub Has-right :
    (l : Tree) (k : ℤ) (r : Tree) (q : ℤ)
    → IsOrdered (node l k r)
    → k <ℤ q
    → Has q (node l k r)
    → Has q r
Has-right l k r q o s (inl h) = absurd (omega (arith, All-Has (λ x. x <ℤ k) l q o.0 h))
Has-right l k r q o s (inr (inl e)) = absurd (omega (arith, subst (λ x. k <ℤ x) e s))
Has-right l k r q o s (inr (inr h)) = h

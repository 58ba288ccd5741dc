-- ===== src/Avl/Height.antt =====
-- The height of a balanced tree of hw6.c against the number of its keys.
use hyu_3rd_1se.Prelude.{
  ℕ, zero, suc, ◌+◌, ◌/◌, ◌^◌, ◌≤◌, ◌≡◌, inl, inr, ap, ltb, ◌-◌, subst, arith, Bool-cases,
  equal_cases, refl, sym, ◌∙◌, Option, none, some, Result, ok, fault,
}
use hyu_3rd_1se.Tree.{Tree, leaf, node, IsOrdered}
use hyu_3rd_1se.Avl.{max, get_height, avl_add, AvlState, add_command}
use hyu_3rd_1se.Prelude.Int.{ℤ}
use hyu_3rd_1se.Avl.Add.{AddResult, avl_add-AddResult}
use hyu_3rd_1se.Avl.Balance.{IsBalanced, Near}

abbrev pub size : Tree → ℕ
size leaf = 0
size (node l k r) = size l + 1 + size r

-- The fewest keys of a balanced tree of a height.
abbrev fewest : ℕ → ℕ
fewest zero = 0
fewest (suc zero) = 1
fewest (suc (suc h)) = fewest h + fewest (suc h) + 1

fewest_grows : (h : ℕ) → fewest h ≤ fewest (suc h)
fewest_grows zero = omega arith
fewest_grows (suc h) = omega arith

-- Subtrees that differ by one in height have the fewest keys together.
fewest-Near : (l r : ℕ) → Near l r → fewest (1 + max l r) ≤ fewest l + 1 + fewest r
fewest-Near zero zero n = omega arith
fewest-Near zero (suc zero) n = omega arith
fewest-Near zero (suc (suc r)) n = absurd (omega (arith, n.not_below))
fewest-Near (suc zero) zero n = omega arith
fewest-Near (suc (suc l)) zero n = absurd (omega (arith, n.not_above))
fewest-Near (suc l) (suc r) n = elim (equal_cases l r) [
  | inl e ↦
      let top : 1 + max (suc l) (suc r) ≡ suc (suc r) = ground arith in
      let same : fewest (suc l) ≡ fewest (suc r) = ap (λ x. fewest (suc x)) e in
      rw top (omega (arith, fewest_grows r, same))
  | inr d ↦ elim (Bool-cases (ltb l r)) [
    | inl c ↦
        let next : r ≡ suc l = ground (arith, d, c, n.not_below) in
        let top : 1 + max (suc l) (suc r) ≡ suc (suc (suc l)) = ground arith in
        let same : fewest (suc r) ≡ fewest (suc (suc l)) = ap (λ x. fewest (suc x)) next in
        rw top (omega (arith, same))
    | inr c ↦
        let next : l ≡ suc r = ground (arith, d, c, n.not_above) in
        let top : 1 + max (suc l) (suc r) ≡ suc (suc (suc r)) = ground arith in
        let same : fewest (suc l) ≡ fewest (suc (suc r)) = ap (λ x. fewest (suc x)) next in
        rw top (omega (arith, same))
  ]
]

power-fewest : (h : ℕ) → 2 ^ (h / 2) ≤ fewest h + 1
power-fewest zero = omega arith
power-fewest (suc zero) = omega arith
power-fewest (suc (suc h)) =
    let half : suc (suc h) / 2 ≡ suc (h / 2) = omega arith in
    rw half (omega (arith, power-fewest h, fewest_grows h))

fewest-size : (t : Tree) → IsBalanced t → fewest (get_height t) ≤ size t
unfolding get_height
fewest-size leaf i = omega arith
fewest-size (node l k r) (i, j, n) =
    omega (arith, fewest-Near (get_height l) (get_height r) n, fewest-size l i, fewest-size r j)

power_grows : (d a : ℕ) → 2 ^ a ≤ 2 ^ (a + d)
power_grows zero a = let same : a + 0 ≡ a = omega arith in rw same (omega arith)
power_grows (suc d) a =
    let next : a + suc d ≡ suc (a + d) = omega arith in rw next (omega (arith, power_grows d a))

-- Two subtrees below a node.
power-max : (a b x y : ℕ) → x ≤ 2 ^ a → y ≤ 2 ^ b → x + y ≤ 2 ^ (1 + max a b)
power-max a b x y l m = elim (Bool-cases (ltb b a)) [
  | inl c ↦
      let up : b + (a - b) ≡ a = ground (arith, c) in
      let grown : 2 ^ b ≤ 2 ^ a = subst (λ n. 2 ^ b ≤ 2 ^ n) up (power_grows (a - b) b) in
      let top : 1 + max a b ≡ suc a = ground (arith, c) in rw top (omega (arith, l, m, grown))
  | inr c ↦
      let up : a + (b - a) ≡ b = ground (arith, c) in
      let grown : 2 ^ a ≤ 2 ^ b = subst (λ n. 2 ^ a ≤ 2 ^ n) up (power_grows (b - a) a) in
      let top : 1 + max a b ≡ suc b = ground (arith, c) in rw top (omega (arith, l, m, grown))
]

-- A tree of a height has no room for more keys.
size-power : (t : Tree) → size t + 1 ≤ 2 ^ get_height t
unfolding get_height
size-power leaf = omega arith
size-power (node l k r) =
    let both =
      power-max (get_height l) (get_height r) (size l + 1) (size r + 1) (size-power l)
        (size-power r) in
    omega (arith, both)

-- The number of the keys bounds the height of a balanced tree from both sides.
power-size :
    (t : Tree)
    → IsBalanced t
    → (2 ^ (get_height t / 2) ≤ size t + 1) × (size t + 1 ≤ 2 ^ get_height t)
power-size t i = (omega (arith, power-fewest (get_height t), fewest-size t i), size-power t)

-- What the insertions of `main` make of the empty tree.
pub data Reached : AvlState → Type 0 where
  started : Reached (record { root = leaf; header = none })
  added : (s s' : AvlState) (key : ℤ) → Reached s → add_command s key ≡ ok s' → Reached s'

root_of : AvlState → Result AvlState → Tree
root_of s (ok s') = s'.root
root_of s (fault f) = s.root

add_command-AddResult :
    (s s' : AvlState) (key : ℤ)
    → add_command s key ≡ ok s'
    → AddResult s.root key (avl_add s.root key)
    → IsOrdered s'.root × IsBalanced s'.root
unfolding add_command root_of
add_command-AddResult s s' key e (inl (h, f)) = absurd (ground (arith, e, f))
add_command-AddResult s s' key e (inr (new, t, f, a)) =
    let h : Option ℤ = elim s.root [ leaf ↦ s.header | node l k r ↦ some k ] in
    let run : add_command s key ≡ ok (record { root = t; header = h }) = rw f refl in
    let same : t ≡ s'.root = ap (root_of s) (sym run ∙ e) in
    subst (λ x. IsOrdered x × IsBalanced x) same (a.ordered, a.balanced)

Reached-IsBalanced : {s : AvlState} → Reached s → IsOrdered s.root × IsBalanced s.root
Reached-IsBalanced started = (tt, tt)
Reached-IsBalanced (added s s' key r e) =
    let (o, i) = Reached-IsBalanced r in
    add_command-AddResult s s' key e (avl_add-AddResult s.root key o i)

-- After any number of insertions, from the empty tree on, the tree of `main` is ordered and balanced, and
-- the number of its keys bounds its height h from both sides: it has at least 2 ^ (h / 2) - 1 keys,
-- where h / 2 is rounded down, and at most 2 ^ h - 1. (Deletions are not covered.)
pub get_height-Reached :
    (s : AvlState)
    → Reached s
    → IsOrdered s.root
      × IsBalanced s.root
      × (2 ^ (get_height s.root / 2) ≤ size s.root + 1)
      × (size s.root + 1 ≤ 2 ^ get_height s.root)
get_height-Reached s r =
    let (o, i) = Reached-IsBalanced r in let (low, high) = power-size s.root i in (o, i, low, high)

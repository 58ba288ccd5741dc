-- ===== src/Avl/Rotate.antt =====
-- `rebalance` of hw6.c.
use hyu_3rd_1se.Prelude.{
  ℕ, ◌+◌, ◌≤◌, ◌<◌, ◌≡◌, refl, inl, inr, ltb, if◌then◌else◌, ok, arith, Bool-cases,
}
use hyu_3rd_1se.Prelude.Int.{ℤ, pos, negsuc, ltb_ℤ, ◌-ℤ◌, -ℤ_parts}
use hyu_3rd_1se.Tree.{Tree, leaf, node}
use hyu_3rd_1se.Avl.{
  rotate_right, rotate_left, rotate_right_left, rotate_left_right, get_height, get_height_diff,
  rebalance,
}
use hyu_3rd_1se.Avl.Balance.{
  IsBalanced, SameKeys, SameKeys-refl, SameKeys-trans, SameKeys-left, SameKeys-right, rotated_right,
  rotated_left, Near, Bounded, double_heights, double_heights_right, single_heights,
  single_heights_right,
}

-- What `rebalance` makes of a node: the same keys, balanced, with the height of the higher subtree or
-- one more.
pub record Rebalanced (l : Tree) (k : ℤ) (r : Tree) (t : Tree) : Type 0 where
  pub keys : SameKeys (node l k r) t
  pub balanced : IsBalanced t
  pub height : Bounded (get_height l) (get_height r) (get_height t)

-- The tests of a difference of heights.
diff_below_0 : (m n : ℕ) → ltb_ℤ (pos m -ℤ pos n) (pos 0) ≡ ltb m n
diff_below_0 m n = ground (arith, -ℤ_parts (pos m) (pos n))

diff_above_0 : (m n : ℕ) → ltb_ℤ (pos 0) (pos m -ℤ pos n) ≡ ltb n m
diff_above_0 m n = ground (arith, -ℤ_parts (pos m) (pos n))

diff_above_1 : (m n : ℕ) → ltb_ℤ (pos 1) (pos m -ℤ pos n) ≡ ltb (n + 1) m
diff_above_1 m n = ground (arith, -ℤ_parts (pos m) (pos n))

diff_below_minus_1 : (m n : ℕ) → ltb_ℤ (pos m -ℤ pos n) (negsuc 0) ≡ ltb (m + 1) n
diff_below_minus_1 m n = ground (arith, -ℤ_parts (pos m) (pos n))

right_double :
    (a : Tree) (y : ℤ) (b : Tree) (k : ℤ) (r : Tree)
    → IsBalanced (node a y b)
    → IsBalanced r
    → get_height a < get_height b
    → get_height (node a y b) ≡ get_height r + 2
    → (t : Tree) × (rotate_left_right (node (node a y b) k r) ≡ ok t)
      × Rebalanced (node a y b) k r t
unfolding rotate_left_right rotate_left rotate_right get_height
right_double a y leaf k r i j c e = absurd (omega (arith, c))
right_double a y (node b x d) k r (ia, (ib, id, u), w) j c e =
    let (near_a, near_d, near, height) =
      double_heights (get_height a) (get_height b) (get_height d) (get_height r) u w c e in
    (
      node (node a y b) x (node d k r),
      refl,
      record {
        keys =
            SameKeys-trans (node (node a y (node b x d)) k r) (node (node (node a y b) x d) k r) _
              (SameKeys-left (node a y (node b x d)) (node (node a y b) x d) k r
                (rotated_left a y b x d))
              (rotated_right (node a y b) x d k r);
        balanced = ((ia, ib, near_a), (id, j, near_d), near);
        height = height;
      },
    )

right_single :
    (a : Tree) (y : ℤ) (b : Tree) (k : ℤ) (r : Tree)
    → IsBalanced (node a y b)
    → IsBalanced r
    → get_height b ≤ get_height a
    → get_height (node a y b) ≡ get_height r + 2
    → Rebalanced (node a y b) k r (node a y (node b k r))
unfolding get_height
right_single a y b k r (ia, ib, w) j c e =
    let (near_b, near, height) =
      single_heights (get_height a) (get_height b) (get_height r) w c e in
    record {
      keys = rotated_right a y b k r;
      balanced = (ia, (ib, j, near_b), near);
      height = height;
    }

left_double :
    (l : Tree) (k : ℤ) (b : Tree) (y : ℤ) (a : Tree)
    → IsBalanced l
    → IsBalanced (node b y a)
    → get_height a < get_height b
    → get_height (node b y a) ≡ get_height l + 2
    → (t : Tree) × (rotate_right_left (node l k (node b y a)) ≡ ok t)
      × Rebalanced l k (node b y a) t
unfolding rotate_right_left rotate_left rotate_right get_height
left_double l k leaf y a j i c e = absurd (omega (arith, c))
left_double l k (node b x d) y a j ((ib, id, u), ia, w) c e =
    let (near_a, near_d, near, height) =
      double_heights_right (get_height a) (get_height b) (get_height d) (get_height l) u w c e in
    (
      node (node l k b) x (node d y a),
      refl,
      record {
        keys =
            SameKeys-trans (node l k (node (node b x d) y a)) (node l k (node b x (node d y a))) _
              (SameKeys-right l k (node (node b x d) y a) (node b x (node d y a))
                (rotated_right b x d y a))
              (rotated_left l k b x (node d y a));
        balanced = ((j, ib, near_a), (id, ia, near_d), near);
        height = height;
      },
    )

left_single :
    (l : Tree) (k : ℤ) (b : Tree) (y : ℤ) (a : Tree)
    → IsBalanced l
    → IsBalanced (node b y a)
    → get_height b ≤ get_height a
    → get_height (node b y a) ≡ get_height l + 2
    → Rebalanced l k (node b y a) (node (node l k b) y a)
unfolding get_height
left_single l k b y a j (ib, ia, w) c e =
    let (near_b, near, height) =
      single_heights_right (get_height a) (get_height b) (get_height l) w c e in
    record {
      keys = rotated_left l k b y a;
      balanced = ((j, ib, near_b), ia, near);
      height = height;
    }

left_high :
    (l : Tree) (k : ℤ) (r : Tree)
    → IsBalanced l
    → IsBalanced r
    → get_height l ≡ get_height r + 2
    → (t : Tree) × ((if ltb_ℤ (get_height_diff l) (pos 0)
          then rotate_left_right (node l k r)
          else rotate_right (node l k r))
        ≡ ok t)
      × Rebalanced l k r t
unfolding get_height_diff rotate_right get_height
left_high leaf k r i j e = absurd (omega (arith, e))
left_high (node a y b) k r i j e = elim (Bool-cases (ltb (get_height a) (get_height b))) [
  | inl c ↦
      let (t, run, good) = right_double a y b k r i j (ground arith) e in
      (t, rw (diff_below_0 (get_height a) (get_height b), c) run, good)
  | inr c ↦ (
    node a y (node b k r),
    rw (diff_below_0 (get_height a) (get_height b), c),
    right_single a y b k r i j (ground arith) e,
  )
]

right_high :
    (l : Tree) (k : ℤ) (r : Tree)
    → IsBalanced l
    → IsBalanced r
    → get_height r ≡ get_height l + 2
    → (t : Tree) × ((if ltb_ℤ (pos 0) (get_height_diff r)
          then rotate_right_left (node l k r)
          else rotate_left (node l k r))
        ≡ ok t)
      × Rebalanced l k r t
unfolding get_height_diff rotate_left get_height
right_high l k leaf i j e = absurd (omega (arith, e))
right_high l k (node b y a) i j e = elim (Bool-cases (ltb (get_height a) (get_height b))) [
  | inl c ↦
      let (t, run, good) = left_double l k b y a i j (ground arith) e in
      (t, rw (diff_above_0 (get_height b) (get_height a), c) run, good)
  | inr c ↦ (
    node (node l k b) y a,
    rw (diff_above_0 (get_height b) (get_height a), c),
    left_single l k b y a i j (ground arith) e,
  )
]

stays :
    (l : Tree) (k : ℤ) (r : Tree)
    → IsBalanced l
    → IsBalanced r
    → Near (get_height l) (get_height r)
    → Rebalanced l k r (node l k r)
unfolding get_height
stays l k r i j n = record {
  keys = SameKeys-refl (node l k r);
  balanced = (i, j, n);
  height = record { at_least = omega arith; at_most = omega arith };
}

-- `rebalance` of a node whose subtrees are balanced and differ in height by two at most gives a balanced
-- tree of the same keys, in order if they were, as high as the higher subtree or one more. A node whose
-- subtrees differ by one at most is left as it is.
pub rebalance-Rebalanced :
    (l : Tree) (k : ℤ) (r : Tree)
    → IsBalanced l
    → IsBalanced r
    → get_height l ≤ get_height r + 2
    → get_height r ≤ get_height l + 2
    → (t : Tree) × (rebalance (node l k r) ≡ ok t)
      × Rebalanced l k r t
      × (Near (get_height l) (get_height r) → t ≡ node l k r)
unfolding rebalance get_height_diff
rebalance-Rebalanced l k r i j u v = elim (Bool-cases (ltb (get_height r + 1) (get_height l))) [
  | inl c ↦
      let (t, run, good) = left_high l k r i j (ground arith) in
      (
        t,
        rw (diff_above_1 (get_height l) (get_height r), c) run,
        good,
        λ n. absurd (ground (arith, c, n.not_above)),
      )
  | inr c ↦ elim (Bool-cases (ltb (get_height l + 1) (get_height r))) [
    | inl d ↦
        let (t, run, good) = right_high l k r i j (ground arith) in
        (
          t,
          rw
              (
                diff_above_1 (get_height l) (get_height r),
                c,
                diff_below_minus_1 (get_height l) (get_height r),
                d,
              )
              run,
          good,
          λ n. absurd (ground (arith, d, n.not_below)),
        )
    | inr d ↦ (
      node l k r,
      rw (
        diff_above_1 (get_height l) (get_height r),
        c,
        diff_below_minus_1 (get_height l) (get_height r),
        d,
      ),
      stays l k r i j (record { not_above = ground arith; not_below = ground arith }),
      λ n. refl,
    )
  ]
]

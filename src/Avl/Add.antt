-- ===== src/Avl/Add.antt =====
-- The insertion and the search of hw6.c.
use hyu_3rd_1se.Prelude.{
  ℕ, ◌+◌, ◌≤◌, ◌≡◌, refl, sym, subst, ap, ◌⊎◌, inl, inr, ltb, ◌↔◌, Result, ok, fault, exit_1, ◌>>=◌,
  arith, Bool-cases,
}
use hyu_3rd_1se.Prelude.Int.{ℤ, ltb_ℤ, eq_of_parts}
use hyu_3rd_1se.Tree.{
  Tree, leaf, node, ◌<ℤ◌, All, All-Has, All-of_Has, Has, IsOrdered, Has-left, Has-right,
}
use hyu_3rd_1se.Avl.{max, get_height, rebalance, avl_add}
use hyu_3rd_1se.Avl.Balance.{IsBalanced, Near, Bounded}
use hyu_3rd_1se.Avl.Rotate.{rebalance-Rebalanced}

-- The tree with a new key: its keys are in order and balanced, and it is as high or one higher.
pub record Added (t : Tree) (key : ℤ) (t' : Tree) : Type 0 where
  pub ordered : IsOrdered t'
  pub balanced : IsBalanced t'
  pub has : (q : ℤ) → Has q t' ↔ ((q ≡ key) ⊎ Has q t)
  pub not_lower : get_height t ≤ get_height t'
  pub one_higher : get_height t' ≤ get_height t + 1

-- The height after an insertion on the left or the right.
height_after :
    (l l' r t : ℕ)
    → Near l r
    → l ≤ l'
    → l' ≤ l + 1
    → Bounded l' r t
    → (Near l' r → t ≡ 1 + max l' r)
    → (1 + max l r ≤ t) × (t ≤ 1 + max l r + 1)
height_after l l' r t n a b h e = elim (Bool-cases (ltb (r + 1) l')) [
  | inl c ↦ ground arith
  | inr c ↦
      let same = e (record { not_above = ground arith; not_below = ground arith }) in
      ground (arith, same)
]

height_after_right :
    (l r r' t : ℕ)
    → Near l r
    → r ≤ r'
    → r' ≤ r + 1
    → Bounded l r' t
    → (Near l r' → t ≡ 1 + max l r')
    → (1 + max l r ≤ t) × (t ≤ 1 + max l r + 1)
height_after_right l r r' t n a b h e = elim (Bool-cases (ltb (l + 1) r')) [
  | inl c ↦ ground arith
  | inr c ↦
      let same = e (record { not_above = ground arith; not_below = ground arith }) in
      ground (arith, same)
]

abbrev pub AddResult : Tree → ℤ → Result Tree → Type 0
AddResult t key r =
    (Has key t × (r ≡ fault exit_1))
    ⊎ ((Has key t → ⊥) × (t' : Tree) × (r ≡ ok t') × Added t key t')

add_left :
    (l : Tree) (k : ℤ) (r : Tree) (key : ℤ)
    → IsOrdered (node l k r)
    → IsBalanced (node l k r)
    → key <ℤ k
    → AddResult l key (avl_add l key)
    → AddResult (node l k r) key (avl_add l key >>= λ l'. rebalance (node l' k r))
unfolding get_height
add_left l k r key o i s (inl (h, e)) = inl (inl h, rw e)
add_left l k r key (below, above, ol, or) (il, ir, n) s (inr (new, l', e, a)) =
    let (t, run, good, same) =
      rebalance-Rebalanced l' k r a.balanced ir (omega (arith, a.one_higher, n.not_above))
        (omega (arith, a.not_lower, n.not_below)) in
    let all : All (λ x. x <ℤ k) l' =
      All-of_Has (λ x. x <ℤ k) l'
        (λ q h. elim ((a.has q).0 h) [
          | inl z ↦ subst (λ x. x <ℤ k) (sym z) s
          | inr z ↦ All-Has (λ x. x <ℤ k) l q below z
        ]) in
    let (low, high) =
      height_after (get_height l) (get_height l') (get_height r) (get_height t) n a.not_lower
        a.one_higher good.height (λ w. ap get_height (same w)) in
    inr (
      λ h. new (Has-left l k r key (below, above, ol, or) s h),
      t,
      rw e run,
      record {
        ordered = good.keys.ordered (all, above, a.ordered, or);
        balanced = good.balanced;
        has = λ q. (
          λ h. elim ((good.keys.has q).1 h) [
            | inl x ↦ elim ((a.has q).0 x) [ inl y ↦ inl y | inr y ↦ inr (inl y) ]
            | inr x ↦ inr (inr x)
          ],
          λ h. (good.keys.has q).0 (elim h [
            | inl y ↦ inl ((a.has q).1 (inl y))
            | inr (inl y) ↦ inl ((a.has q).1 (inr y))
            | inr (inr y) ↦ inr y
          ]),
        );
        not_lower = low;
        one_higher = high;
      },
    )

add_right :
    (l : Tree) (k : ℤ) (r : Tree) (key : ℤ)
    → IsOrdered (node l k r)
    → IsBalanced (node l k r)
    → k <ℤ key
    → AddResult r key (avl_add r key)
    → AddResult (node l k r) key (avl_add r key >>= λ r'. rebalance (node l k r'))
unfolding get_height
add_right l k r key o i s (inl (h, e)) = inl (inr (inr h), rw e)
add_right l k r key (below, above, ol, or) (il, ir, n) s (inr (new, r', e, a)) =
    let (t, run, good, same) =
      rebalance-Rebalanced l k r' il a.balanced (omega (arith, a.not_lower, n.not_above))
        (omega (arith, a.one_higher, n.not_below)) in
    let all : All (λ x. k <ℤ x) r' =
      All-of_Has (λ x. k <ℤ x) r'
        (λ q h. elim ((a.has q).0 h) [
          | inl z ↦ subst (λ x. k <ℤ x) (sym z) s
          | inr z ↦ All-Has (λ x. k <ℤ x) r q above z
        ]) in
    let (low, high) =
      height_after_right (get_height l) (get_height r) (get_height r') (get_height t) n a.not_lower
        a.one_higher good.height (λ w. ap get_height (same w)) in
    inr (
      λ h. new (Has-right l k r key (below, above, ol, or) s h),
      t,
      rw e run,
      record {
        ordered = good.keys.ordered (below, all, ol, a.ordered);
        balanced = good.balanced;
        has = λ q. (
          λ h. elim ((good.keys.has q).1 h) [
            | inl x ↦ inr (inl x)
            | inr (inl x) ↦ inr (inr (inl x))
            | inr (inr x) ↦ elim ((a.has q).0 x) [ inl y ↦ inl y | inr y ↦ inr (inr (inr y)) ]
          ],
          λ h. (good.keys.has q).0 (elim h [
            | inl y ↦ inr (inr ((a.has q).1 (inl y)))
            | inr (inl y) ↦ inl y
            | inr (inr (inl y)) ↦ inr (inl y)
            | inr (inr (inr y)) ↦ inr (inr ((a.has q).1 (inr y)))
          ]),
        );
        not_lower = low;
        one_higher = high;
      },
    )

-- `avl_add` to an ordered and balanced tree gives an ordered and balanced tree that has the new key and
-- the keys from before, and no others; it is as high or one higher. Where the tree has the key already,
-- the program ends.
pub avl_add-AddResult :
    (t : Tree) (key : ℤ) → IsOrdered t → IsBalanced t → AddResult t key (avl_add t key)
unfolding avl_add get_height
avl_add-AddResult leaf key o i = inr (
  λ h. h,
  node leaf key leaf,
  refl,
  record {
    ordered = (tt, tt, tt, tt);
    balanced = (tt, tt, record { not_above = omega arith; not_below = omega arith });
    has = λ q. (
      λ h. elim h [ inl x ↦ elim x [ ] | inr (inl x) ↦ inl x | inr (inr x) ↦ elim x [ ] ],
      λ h. elim h [ inl x ↦ inr (inl x) | inr x ↦ elim x [ ] ],
    );
    not_lower = omega arith;
    one_higher = omega arith;
  },
)
avl_add-AddResult (node l k r) key o i = elim (Bool-cases (ltb_ℤ key k)) [
  | inl c ↦ rw c (add_left l k r key o i (ground (arith, c)) (avl_add-AddResult l key o.2 i.0))
  | inr c ↦ elim (Bool-cases (ltb_ℤ k key)) [
    | inl d ↦
        rw (c, d) (add_right l k r key o i (ground (arith, d)) (avl_add-AddResult r key o.3 i.1))
    | inr d ↦
        let same : key ≡ k = eq_of_parts key k (ground (arith, c, d)) in
        inl (inr (inl same), rw (c, d))
  ]
]

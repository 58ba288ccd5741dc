-- ===== src/Btree/Search.antt =====
-- `btSearch` of CSE/HW7/given.c.
use hyu_3rd_1se.Prelude.{
  ℕ, zero, suc, ◌<◌, ◌≤◌, ◌≡◌, refl, sym, ◌∙◌, subst, Bool, true, false, ◌&&◌, ltb, ◌==◌, ◌⊎◌, inl,
  inr, ◌↔◌, ok, arith, Bool-cases, lt→ltb, below_suc, ==-zero_of_pos,
}
use hyu_3rd_1se.Prelude.Int.{ℤ, eq_of_parts, ◌≤ℤ◌}
use hyu_3rd_1se.Tree.{◌<ℤ◌, ◌==ℤ◌}
use hyu_3rd_1se.Btree.{BtNode, no_node, bt_node, bt_search}
use hyu_3rd_1se.Btree.Place.{IsSorted, IsPlace, search_key-IsPlace}

-- The keys of a tree.
abbrev pub Holds : ℤ → BtNode → Type 0
Holds q no_node = ⊥
Holds q (bt_node is_leaf n keys kids) =
    ((i : ℕ) × (i < n) × (q ≡ keys i)) ⊎ (is_leaf ≡ false × (i : ℕ) × (i ≤ n) × Holds q (kids i))

-- The keys of the kid `i` stand between the keys before and after it, and an inner node has a key.
abbrev pub IsSearchTree : BtNode → Type 0
IsSearchTree no_node = ⊥
IsSearchTree (bt_node is_leaf n keys kids) =
    IsSorted n keys
    × ((is_leaf ≡ true)
        ⊎ ((0 < n)
            × ((i : ℕ) → i ≤ n → IsSearchTree (kids i))
            × ((i : ℕ) (q : ℤ) (j : ℕ) → i ≤ n → Holds q (kids i) → j < i → keys j <ℤ q)
            × ((i : ℕ) (q : ℤ) (j : ℕ) → i ≤ j → j < n → Holds q (kids i) → q <ℤ keys j)))

no_key :
    (n : ℕ) (keys : ℕ → ℤ) (key : ℤ) (at : ℕ)
    → IsSorted n keys
    → IsPlace n keys key at
    → (at < n → (keys at ==ℤ key) ≡ false)
    → (i : ℕ) → i < n
    → key ≡ keys i
    → ⊥
no_key n keys key at s place miss i l e = elim (Bool-cases (ltb i at)) [
  | inl a ↦
      let less = place.before i (ground (arith, a)) in
      omega (arith, subst (λ x. keys i <ℤ x) e less)
  | inr a ↦
      let not_before : at ≤ i = ground (arith, a) in
      let low = place.from at (omega arith) (omega (arith, not_before, l)) in
      elim (below_suc at i (omega (arith, not_before))) [
        | inl z ↦
            let missed = miss (omega (arith, not_before, l)) in
            absurd (ground (arith, missed, subst (λ x. key ≡ keys x) (sym z) e))
        | inr z ↦ omega (arith, s at i z l, subst (λ x. x ≤ℤ keys at) e low)
      ]
]

in_kid :
    (n : ℕ) (keys : ℕ → ℤ) (kids : ℕ → BtNode) (key : ℤ) (at : ℕ)
    → IsPlace n keys key at
    → ((i : ℕ) (q : ℤ) (j : ℕ) → i ≤ n → Holds q (kids i) → j < i → keys j <ℤ q)
    → ((i : ℕ) (q : ℤ) (j : ℕ) → i ≤ j → j < n → Holds q (kids i) → q <ℤ keys j)
    → (i : ℕ) → i ≤ n
    → Holds key (kids i)
    → Holds key (kids at)
in_kid n keys kids key at place low high i l h = elim (Bool-cases (ltb i at)) [
  | inl a ↦
      let before : i < at = ground (arith, a) in
      absurd (
        omega (
          arith,
          place.before i before,
          high i key i (omega arith) (omega (arith, before, place.inside)) h,
        ))
  | inr a ↦ elim (below_suc at i (ground (arith, a))) [
    | inl z ↦ subst (λ x. Holds key (kids x)) (sym z) h
    | inr z ↦
        absurd
          (omega (arith, low i key at l h z, place.from at (omega arith) (omega (arith, z, l))))
  ]
]

found_key :
    (n : ℕ) (keys : ℕ → ℤ) (key : ℤ) (at : ℕ)
    → (ltb at n && keys at ==ℤ key) ≡ true
    → (at < n) × (key ≡ keys at)
found_key n keys key at c = (ground (arith, c), eq_of_parts key (keys at) (ground (arith, c)))

missed_key :
    (n : ℕ) (keys : ℕ → ℤ) (key : ℤ) (at : ℕ)
    → (ltb at n && keys at ==ℤ key) ≡ false
    → at < n
    → (keys at ==ℤ key) ≡ false
missed_key n keys key at c l = sym (rw (lt→ltb at n l)) ∙ c

-- Where the keys of every node are sorted, the keys of every kid stand between the keys of its parent
-- around it, and every inner node has a key, a search ends and tells whether the tree has the key. (A
-- search in an inner node without a key ends with false; such nodes are excluded.)
pub bt_search-Holds :
    (t : BtNode) (key : ℤ)
    → IsSearchTree t
    → (b : Bool) × (bt_search t key ≡ ok b) × ((b ≡ true) ↔ Holds key t)
unfolding bt_search
bt_search-Holds no_node key h = elim h [ ]
bt_search-Holds (bt_node true zero keys kids) key (s, h) = (
  false,
  refl,
  (
    λ e. absurd (ground (arith, e)),
    λ has. elim has [
      | inl (i, l, e) ↦ absurd (omega (arith, l))
      | inr k ↦ absurd (ground (arith, k.0))
    ],
  ),
)
bt_search-Holds (bt_node false zero keys kids) key (s, inl e) = absurd (ground (arith, e))
bt_search-Holds (bt_node false zero keys kids) key (s, inr r) = absurd (omega (arith, r.0))
bt_search-Holds (bt_node true (suc n) keys kids) key (s, h) =
    let (at, run, place) = search_key-IsPlace (suc n) keys key s in
    let some_key : (suc n == 0) ≡ false = ==-zero_of_pos (suc n) (omega arith) in
    elim (Bool-cases (ltb at (suc n) && keys at ==ℤ key)) [
      | inl c ↦ (
        true,
        rw (some_key, run, c) refl,
        (
          λ e. inl (at, (found_key (suc n) keys key at c).0, (found_key (suc n) keys key at c).1),
          λ e. refl,
        ),
      )
      | inr c ↦ (
        false,
        rw (some_key, run, c) refl,
        (
          λ e. absurd (ground (arith, e)),
          λ has. elim has [
            | inl (i, l, e) ↦
                absurd (no_key (suc n) keys key at s place (missed_key (suc n) keys key at c) i l e)
            | inr k ↦ absurd (ground (arith, k.0))
          ],
        ),
      )
    ]
bt_search-Holds (bt_node false (suc n) keys kids) key (s, inl e) = absurd (ground (arith, e))
bt_search-Holds (bt_node false (suc n) keys kids) key (s, inr (l, sub, low, high)) =
    let (at, run, place) = search_key-IsPlace (suc n) keys key s in
    let some_key : (suc n == 0) ≡ false = ==-zero_of_pos (suc n) (omega arith) in
    elim (Bool-cases (ltb at (suc n) && keys at ==ℤ key)) [
      | inl c ↦ (
        true,
        rw (some_key, run, c) refl,
        (
          λ e. inl (at, (found_key (suc n) keys key at c).0, (found_key (suc n) keys key at c).1),
          λ e. refl,
        ),
      )
      | inr c ↦
          let (b, found, iff) = bt_search-Holds (kids at) key (sub at place.inside) in
          (
            b,
            rw (some_key, run, c) found,
            (
              λ e. inr (refl, at, place.inside, iff.0 e),
              λ has. iff.1 (elim has [
                | inl (i, l, e) ↦
                    absurd
                      (no_key (suc n) keys key at s place (missed_key (suc n) keys key at c) i l e)
                | inr (e, i, l, k) ↦ in_kid (suc n) keys kids key at place low high i l k
              ]),
            ),
          )
    ]

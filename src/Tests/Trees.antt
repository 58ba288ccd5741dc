-- ===== src/Tests/Trees.antt =====
-- The trees of hw6.c and of CSE/HW7/given.c at small ones.
use hyu_3rd_1se.Btree.{BtNode, no_node, bt_node, search_key, bt_search}
use hyu_3rd_1se.Btree.Place.{IsSorted, IsPlace, search_key-IsPlace}
use hyu_3rd_1se.Btree.Search.{Holds, IsSearchTree, bt_search-Holds}
use hyu_3rd_1se.Prelude.{
  ℕ, zero, suc, ◌*◌, ◌↔◌, ◌<◌, Bool, true, false, inl, inr, sym, subst, ◌+◌, ◌≡◌, refl, ok, some,
  none, arith, ◌^◌, ◌/◌, ◌≤◌,
}
use hyu_3rd_1se.Prelude.Int.{ℤ, pos, ◌-ℤ◌}
use hyu_3rd_1se.Tree.{Tree, leaf, node, IsOrdered, ◌<ℤ◌}
use hyu_3rd_1se.Avl.{get_height, get_height_diff, rotate_left, rebalance, avl_add, add_command}
use hyu_3rd_1se.Avl.Balance.{IsBalanced}
use hyu_3rd_1se.Avl.Add.{AddResult, avl_add-AddResult}
use hyu_3rd_1se.Avl.Height.{size, Reached, started, added, get_height-Reached}

-- 1 with 2 on its right.
abbrev two_keys : Tree
two_keys = node leaf (pos 1) (node leaf (pos 2) leaf)

two_keys-IsOrdered : IsOrdered two_keys
two_keys-IsOrdered = (tt, (tt, omega arith, tt), tt, (tt, tt, tt, tt))

two_keys-IsBalanced : IsBalanced two_keys
unfolding get_height
two_keys-IsBalanced = (
  tt,
  (tt, tt, record { not_above = omega arith; not_below = omega arith }),
  record { not_above = omega arith; not_below = omega arith },
)

avl_add-AddResult_example : AddResult two_keys (pos 3) (avl_add two_keys (pos 3))
avl_add-AddResult_example =
    avl_add-AddResult two_keys (pos 3) two_keys-IsOrdered two_keys-IsBalanced

-- The third key turns the root, and `header` stays at the old root.
add_command_runs :
    add_command (record { root = two_keys; header = none }) (pos 3)
    ≡ ok (record {
      root = node (node leaf (pos 1) leaf) (pos 2) (node leaf (pos 3) leaf);
      header = some (pos 1);
    })
unfolding add_command avl_add rebalance get_height get_height_diff rotate_left ◌-ℤ◌
add_command_runs = refl

-- The trees with 1, with 2 behind it, and with 3, which turns the root.
one_key-Reached : Reached (record { root = node leaf (pos 1) leaf; header = none })
unfolding add_command avl_add
one_key-Reached = added _ _ (pos 1) started refl

two_keys-Reached : Reached (record { root = two_keys; header = some (pos 1) })
unfolding add_command avl_add rebalance get_height_diff get_height ◌-ℤ◌
two_keys-Reached = added _ _ (pos 2) one_key-Reached refl

abbrev three_keys : Tree
three_keys = node (node leaf (pos 1) leaf) (pos 2) (node leaf (pos 3) leaf)

three_keys-Reached : Reached (record { root = three_keys; header = some (pos 1) })
unfolding add_command avl_add rebalance get_height_diff get_height rotate_left ◌-ℤ◌
three_keys-Reached = added _ _ (pos 3) two_keys-Reached refl

get_height-Reached_example :
    IsOrdered three_keys
    × IsBalanced three_keys
    × (2 ^ (get_height three_keys / 2) ≤ size three_keys + 1)
    × (size three_keys + 1 ≤ 2 ^ get_height three_keys)
get_height-Reached_example = get_height-Reached _ three_keys-Reached

-- A leaf with the keys 0 and 2.
abbrev even_keys : ℕ → ℤ
even_keys i = pos (2 * i)

even_keys-IsSorted : IsSorted 2 even_keys
even_keys-IsSorted = λ i j l m. omega (arith, l)

search_key-IsPlace_example :
    (at : ℕ) × (search_key 2 even_keys (pos 1) ≡ ok at) × IsPlace 2 even_keys (pos 1) at
search_key-IsPlace_example = search_key-IsPlace 2 even_keys (pos 1) even_keys-IsSorted

-- An inner node with the key 10, a leaf with 0 and 2, and a leaf with 20.
abbrev low_leaf : BtNode
low_leaf = bt_node true 2 even_keys (λ i. no_node)

abbrev high_leaf : BtNode
high_leaf = bt_node true 1 (λ i. pos 20) (λ i. no_node)

abbrev two_leaves : ℕ → BtNode
two_leaves zero = low_leaf
two_leaves (suc i) = high_leaf

abbrev inner_node : BtNode
inner_node = bt_node false 1 (λ i. pos 10) two_leaves

one_key-IsSorted : (key : ℤ) → IsSorted 1 (λ i. key)
one_key-IsSorted = λ key i j l m. absurd (omega (arith, l, m))

two_leaves-IsSearchTree : (i : ℕ) → IsSearchTree (two_leaves i)
two_leaves-IsSearchTree zero = (even_keys-IsSorted, inl refl)
two_leaves-IsSearchTree (suc i) = (one_key-IsSorted (pos 20), inl refl)

-- The keys of the first leaf are below 10, those of the second above.
low_leaf_below : (q : ℤ) → Holds q low_leaf → q <ℤ pos 10
low_leaf_below q (inl (j, l, e)) = subst (λ z. z <ℤ pos 10) (sym e) (omega (arith, l))
low_leaf_below q (inr r) = absurd (ground (arith, r.0))

high_leaf_above : (q : ℤ) → Holds q high_leaf → pos 10 <ℤ q
high_leaf_above q (inl (j, l, e)) = subst (λ z. pos 10 <ℤ z) (sym e) (omega arith)
high_leaf_above q (inr r) = absurd (ground (arith, r.0))

after_key : (i : ℕ) (q : ℤ) (j : ℕ) → i ≤ 1 → Holds q (two_leaves i) → j < i → pos 10 <ℤ q
after_key zero q j l h m = absurd (omega (arith, m))
after_key (suc i) q j l h m = high_leaf_above q h

before_key : (i : ℕ) (q : ℤ) (j : ℕ) → i ≤ j → j < 1 → Holds q (two_leaves i) → q <ℤ pos 10
before_key zero q j l m h = low_leaf_below q h
before_key (suc i) q j l m h = absurd (omega (arith, l, m))

inner_node-IsSearchTree : IsSearchTree inner_node
inner_node-IsSearchTree = (
  one_key-IsSorted (pos 10),
  inr (omega arith, λ i l. two_leaves-IsSearchTree i, after_key, before_key),
)

bt_search-Holds_example :
    (b : Bool) × (bt_search inner_node (pos 20) ≡ ok b) × ((b ≡ true) ↔ Holds (pos 20) inner_node)
bt_search-Holds_example = bt_search-Holds inner_node (pos 20) inner_node-IsSearchTree

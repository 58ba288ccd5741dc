-- ===== src/Avl.antt =====
-- CSE/HW6/hw6.c: AVL trees, without the deletion. A node is not shared, so that a tree is a value.
pub mod Balance
pub mod Height
pub mod Rotate
pub mod Search
pub mod Add
use hyu_3rd_1se.Prelude.{
  ℕ, zero, suc, ◌+◌, Bool, true, false, ltb, if◌then◌else◌, Option, none, some, Result, ok, fault,
  null_deref, exit_1, ◌>>=◌,
}
use hyu_3rd_1se.Prelude.Int.{ℤ, pos, negsuc, pos_part, neg_part, ltb_ℤ, ◌-ℤ◌}
use hyu_3rd_1se.Tree.{Tree, leaf, node, ◌==ℤ◌}

unfoldable pub rotate_right : Tree → Result Tree
rotate_right (node (node a k b) p c) = ok (node a k (node b p c))
rotate_right (node leaf p c) = fault null_deref
rotate_right leaf = fault null_deref

unfoldable pub rotate_left : Tree → Result Tree
rotate_left (node a p (node b k c)) = ok (node (node a p b) k c)
rotate_left (node a p leaf) = fault null_deref
rotate_left leaf = fault null_deref

unfoldable pub rotate_right_left : Tree → Result Tree
rotate_right_left leaf = fault null_deref
rotate_right_left (node a p c) = rotate_right c >>= λ c'. rotate_left (node a p c')

unfoldable pub rotate_left_right : Tree → Result Tree
rotate_left_right leaf = fault null_deref
rotate_left_right (node a p c) = rotate_left a >>= λ a'. rotate_right (node a' p c)

-- The macro `max`.
abbrev pub max : ℕ → ℕ → ℕ
max a b = if ltb b a then a else b

unfoldable pub get_height : Tree → ℕ
get_height leaf = 0
get_height (node l k r) = 1 + max (get_height l) (get_height r)

unfoldable pub get_height_diff : Tree → ℤ
get_height_diff leaf = pos 0
get_height_diff (node l k r) = pos (get_height l) -ℤ pos (get_height r)

abbrev pub left_child : Tree → Tree
left_child leaf = leaf
left_child (node l k r) = l

abbrev pub right_child : Tree → Tree
right_child leaf = leaf
right_child (node l k r) = r

-- `rebalance` of the tree at a node. It also makes `header` point to the root, which `add_command` does
-- below.
unfoldable pub rebalance : Tree → Result Tree
rebalance t =
    let height_diff = get_height_diff t in
    if ltb_ℤ (pos 1) height_diff
    then if ltb_ℤ (get_height_diff (left_child t)) (pos 0)
      then rotate_left_right t
      else rotate_right t
    else if ltb_ℤ height_diff (negsuc 0)
    then if ltb_ℤ (pos 0) (get_height_diff (right_child t))
      then rotate_right_left t
      else rotate_left t
    else ok t

-- The memory allocator is taken to have room. A key that is there already ends the program.
unfoldable pub avl_add : Tree → ℤ → Result Tree
avl_add leaf new_key = ok (node leaf new_key leaf)
avl_add (node l k r) new_key =
    let left = avl_add l new_key >>= λ l'. rebalance (node l' k r) in
    let right = avl_add r new_key >>= λ r'. rebalance (node l k r') in
    if ltb_ℤ new_key k then left else if ltb_ℤ k new_key then right else fault exit_1

-- The node with the key, as the tree that it is the root of.
unfoldable pub avl_search : Tree → ℤ → Option Tree
avl_search leaf key = none
avl_search (node l k r) key =
    let left = avl_search l key in
    let right = avl_search r key in
    if key ==ℤ k then some (node l k r) else if ltb_ℤ key k then left else right

-- `root`, and the key of the node that `header` points to; `header->right_child` is the same pointer.
pub record AvlState : Type 0 where
  pub root : Tree
  pub header : Option ℤ

-- The command `i` of `main`. `header` is set by each `rebalance` to what `root` points to at that time,
-- which is before the root itself is replaced; into an empty tree there is no `rebalance`.
unfoldable pub add_command : AvlState → ℤ → Result AvlState
add_command s new_key = avl_add s.root new_key >>= λ t.
    ok (record { root = t; header = elim s.root [ leaf ↦ s.header | node l k r ↦ some k ] })

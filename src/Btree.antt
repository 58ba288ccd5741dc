-- ===== src/Btree.antt =====
-- CSE/HW7/given.c: the search in a B-tree. The keys of a node are a function of their index, and so are its
-- kids.
pub mod Place
pub mod Search
use hyu_3rd_1se.Prelude.{
  ℕ, zero, suc, ◌+◌, ◌-◌, ◌*◌, ◌/◌, Bool, true, false, not, ◌&&◌, ltb, ◌==◌, if◌then◌else◌, Result,
  ok, fault, diverges, null_deref, ◌>>=◌,
}
use hyu_3rd_1se.Prelude.Int.{ℤ, ltb_ℤ}
use hyu_3rd_1se.Tree.{◌==ℤ◌}

-- `isLeaf`, `numKeys`, `keys` and `kids` of a node. The kids of a leaf are not set: they are `no_node`, which
-- also stands for a null pointer.
pub data BtNode : Type 0 where
  no_node : BtNode
  bt_node : Bool → ℕ → (ℕ → ℤ) → (ℕ → BtNode) → BtNode

-- The loop of `searchKey` with `lo + 1` in place of `lo`, which begins at -1.
unfoldable pub search_loop : ℕ → (ℕ → ℤ) → ℤ → ℕ → ℕ → Result ℕ
search_loop zero keys key lo hi = fault diverges
search_loop (suc rounds) keys key lo hi =
    let mid = (lo + hi - 1) / 2 in
    let above = search_loop rounds keys key (suc mid) hi in
    let below = search_loop rounds keys key lo mid in
    if not (ltb lo hi)
    then ok hi
    else if keys mid ==ℤ key
    then ok mid
    else if ltb_ℤ (keys mid) key
    then above
    else below

-- Each round makes the range smaller.
unfoldable pub search_key : ℕ → (ℕ → ℤ) → ℤ → Result ℕ
search_key n keys key = search_loop (suc n) keys key 0 n

unfoldable pub bt_search : BtNode → ℤ → Result Bool
bt_search no_node key = fault null_deref
bt_search (bt_node is_leaf n keys kids) key =
    let found : ℕ → Result Bool = λ at.
      let below = bt_search (kids at) key in
      if ltb at n && keys at ==ℤ key then ok true else if is_leaf then ok false else below in
    let searched = search_key n keys key >>= found in if n == 0 then ok false else searched

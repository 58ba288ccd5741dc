-- ===== src/Avl/Search.antt =====
-- The search of hw6.c.
use hyu_3rd_1se.Prelude.{
  ◌≡◌, refl, sym, subst, ◌⊎◌, inl, inr, Option, none, some, arith, Bool-cases, ==_iff,
}
use hyu_3rd_1se.Prelude.Int.{ℤ, ltb_ℤ, eq_of_parts}
use hyu_3rd_1se.Tree.{Tree, leaf, node, ◌<ℤ◌, ◌==ℤ◌, Has, IsOrdered, Has-left, Has-right}
use hyu_3rd_1se.Avl.{avl_search}

-- A search finds a node with the key, or the key is not there.
abbrev pub Searched : Tree → ℤ → Option Tree → Type 0
Searched t key r =
    (Has key t × (l : Tree) × (r' : Tree) × (r ≡ some (node l key r')))
    ⊎ ((Has key t → ⊥) × (r ≡ none))

-- `avl_search` in an ordered tree gives a node with the key, or nothing where the tree does not have it.
pub avl_search-Searched : (t : Tree) (key : ℤ) → IsOrdered t → Searched t key (avl_search t key)
unfolding avl_search
avl_search-Searched leaf key o = inr (λ h. h, refl)
avl_search-Searched (node l k r) key o = elim (Bool-cases (key ==ℤ k)) [
  | inl c ↦
      let same : key ≡ k = eq_of_parts key k ((==_iff _ _).0 c) in
      rw c (
        inl (
          inr (inl same),
          l,
          r,
          subst (λ x. some (node l k r) ≡ some (node l x r)) (sym same) refl,
        ))
  | inr c ↦ elim (Bool-cases (ltb_ℤ key k)) [
    | inl d ↦
        let s : key <ℤ k = ground (arith, d) in
        rw (c, d)
          (elim (avl_search-Searched l key o.2) [
            | inl (h, a, b, e) ↦ inl (inl h, a, b, e)
            | inr (h, e) ↦ inr (λ x. h (Has-left l k r key o s x), e)
          ])
    | inr d ↦
        let s : k <ℤ key = ground (arith, c, d) in
        rw (c, d)
          (elim (avl_search-Searched r key o.3) [
            | inl (h, a, b, e) ↦ inl (inr (inr h), a, b, e)
            | inr (h, e) ↦ inr (λ x. h (Has-right l k r key o s x), e)
          ])
  ]
]

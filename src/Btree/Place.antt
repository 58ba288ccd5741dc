-- ===== src/Btree/Place.antt =====
-- `searchKey` of CSE/HW7/given.c.
use hyu_3rd_1se.Prelude.{
  ℕ, zero, suc, ◌+◌, ◌-◌, ◌/◌, ◌<◌, ◌≤◌, ◌≡◌, refl, sym, subst, ltb, inl, inr, ok, arith,
  Bool-cases, ==_iff, below_suc,
}
use hyu_3rd_1se.Prelude.Int.{ℤ, ltb_ℤ, eq_of_parts, ◌≤ℤ◌}
use hyu_3rd_1se.Tree.{◌<ℤ◌, ◌==ℤ◌}
use hyu_3rd_1se.Btree.{search_loop, search_key}

-- The first n keys stand in order.
abbrev pub IsSorted : ℕ → (ℕ → ℤ) → Type 0
IsSorted n keys = (i j : ℕ) → i < j → j < n → keys i <ℤ keys j

-- The place of a key: all keys before it are smaller, and none from it on.
pub record IsPlace (n : ℕ) (keys : ℕ → ℤ) (key : ℤ) (at : ℕ) : Type 0 where
  pub inside : at ≤ n
  pub before : (i : ℕ) → i < at → keys i <ℤ key
  pub from : (i : ℕ) → at ≤ i → i < n → key ≤ℤ keys i

upto :
    (n : ℕ) (keys : ℕ → ℤ) (key : ℤ) (mid : ℕ)
    → IsSorted n keys
    → mid < n
    → keys mid <ℤ key
    → (i : ℕ) → i < suc mid
    → keys i <ℤ key
upto n keys key mid s l h i k = elim (below_suc i mid k) [
  | inl e ↦ subst (λ x. keys x <ℤ key) (sym e) h
  | inr e ↦ omega (arith, s i mid e l, h)
]

onward :
    (n : ℕ) (keys : ℕ → ℤ) (key : ℤ) (mid : ℕ)
    → IsSorted n keys
    → key ≤ℤ keys mid
    → (i : ℕ) → mid ≤ i
    → i < n
    → key ≤ℤ keys i
onward n keys key mid s h i a k = elim (below_suc mid i (omega (arith, a))) [
  | inl e ↦ subst (λ x. key ≤ℤ keys x) e h
  | inr e ↦ omega (arith, s mid i e k, h)
]

search_loop-IsPlace :
    (rounds n : ℕ) (keys : ℕ → ℤ) (key : ℤ) (lo hi : ℕ)
    → IsSorted n keys
    → hi < lo + rounds
    → lo ≤ hi
    → hi ≤ n
    → ((i : ℕ) → i < lo → keys i <ℤ key)
    → ((i : ℕ) → hi ≤ i → i < n → key ≤ℤ keys i)
    → (at : ℕ) × (search_loop rounds keys key lo hi ≡ ok at) × IsPlace n keys key at
unfolding search_loop
search_loop-IsPlace zero n keys key lo hi s f l m before from = absurd (omega (arith, f, l))
search_loop-IsPlace (suc rounds) n keys key lo hi s f l m before from =
    let mid = (lo + hi - 1) / 2 in
    elim (Bool-cases (ltb lo hi)) [
      | inr c ↦ (
        hi,
        rw c refl,
        record { inside = m; before = λ i k. before i (ground (arith, c, k)); from = from },
      )
      | inl c ↦
          let more : lo < hi = ground (arith, c) in
          elim (Bool-cases (keys mid ==ℤ key)) [
            | inl e ↦
                let same : keys mid ≡ key = eq_of_parts (keys mid) key ((==_iff _ _).0 e) in
                (
                  mid,
                  rw (c, e) refl,
                  record {
                    inside = omega (arith, more, m);
                    before =
                        λ i k. subst (λ x. keys i <ℤ x) same (s i mid k (omega (arith, more, m)));
                    from = onward n keys key mid s (subst (λ x. x ≤ℤ keys mid) same (omega arith));
                  },
                )
            | inr e ↦ elim (Bool-cases (ltb_ℤ (keys mid) key)) [
              | inl d ↦
                  let (at, run, place) =
                    search_loop-IsPlace rounds n keys key (suc mid) hi s (omega (arith, f))
                      (omega (arith, more)) m
                      (upto n keys key mid s (omega (arith, more, m)) (ground (arith, d))) from in
                  (at, rw (c, e, d) run, place)
              | inr d ↦
                  let (at, run, place) =
                    search_loop-IsPlace rounds n keys key lo mid s (omega (arith, f, more))
                      (omega (arith, more)) (omega (arith, more, m)) before
                      (onward n keys key mid s (ground (arith, d))) in
                  (at, rw (c, e, d) run, place)
            ]
          ]
    ]

-- `searchKey` ends, and gives the place of the key among sorted keys.
pub search_key-IsPlace :
    (n : ℕ) (keys : ℕ → ℤ) (key : ℤ)
    → IsSorted n keys
    → (at : ℕ) × (search_key n keys key ≡ ok at) × IsPlace n keys key at
unfolding search_key
search_key-IsPlace n keys key s =
    search_loop-IsPlace (suc n) n keys key 0 n s (omega arith) (omega arith) (omega arith)
      (λ i l. absurd (omega (arith, l))) (λ i l k. absurd (omega (arith, l, k)))

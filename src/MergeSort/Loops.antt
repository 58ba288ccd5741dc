-- ===== src/MergeSort/Loops.antt =====
-- The loops of `merge` of CSE/HW9/HW9_1_given.c.
use hyu_3rd_1se.Prelude.{
  ℕ, zero, suc, ◌+◌, ◌<◌, ◌≤◌, ◌≡◌, refl, subst, true, false, leb, inl, inr, Result, ok, ◌>>=◌,
  arith, Bool-cases, below_suc,
}
use hyu_3rd_1se.Prelude.Int.{ℤ, ltb_ℤ, ◌≤ℤ◌}
use hyu_3rd_1se.MergeSort.Merge.{
  IsSorted, IsAbove, Merged, Merged-take_i, Merged-take_j, nothing-Merged,
}
use hyu_3rd_1se.MergeSort.{Merging, take_i, take_j, both_loop, left_loop, right_loop, merge}

-- The rest of `merge` after a loop.
abbrev MergesTo : Result (ℕ → ℤ) → Merging → ℕ → ℕ → ℕ → Type 0
MergesTo r s n1 n2 n = (a : ℕ → ℤ) × (r ≡ ok a) × Merged s n1 n2 n a

abbrev last_loop : ℕ → ℕ → Merging → Result (ℕ → ℤ)
last_loop rounds right s = right_loop rounds right s >>= λ s'. ok s'.list

last_loop-Merged :
    (rounds right n2 : ℕ) (s : Merging)
    → s.j + n2 ≡ right + 1
    → s.i ≤ s.j
    → n2 < rounds
    → MergesTo (last_loop rounds right s) s 0 n2 n2
unfolding right_loop
last_loop-Merged zero right n2 s e l m = absurd (omega (arith, m))
last_loop-Merged (suc rounds) right zero s e l m =
    let over : leb s.j right ≡ false = ground (arith, e) in (s.list, rw over refl, nothing-Merged s)
last_loop-Merged (suc rounds) right (suc n2) s e l m =
    let more : leb s.j right ≡ true = ground (arith, e) in
    let (a, run, h) =
      last_loop-Merged rounds right n2 (take_j s) (omega (arith, e)) (omega (arith, l))
        (omega (arith, m)) in
    (
      a,
      rw more run,
      Merged-take_j s 0 n2 n2 a (omega (arith, l)) h (λ p r o u v. absurd (omega (arith, u, v))),
    )

abbrev second_loop : ℕ → ℕ → ℕ → Merging → Result (ℕ → ℤ)
second_loop rounds mid right s = left_loop rounds mid s >>= last_loop (right + 2) right

-- After the first loop one of the two parts is empty.
second_loop-left :
    (rounds mid right n1 : ℕ) (s : Merging)
    → s.i + n1 ≡ mid + 1
    → s.j ≡ right + 1
    → mid ≤ right
    → n1 < rounds
    → MergesTo (second_loop rounds mid right s) s n1 0 n1
unfolding left_loop
second_loop-left zero mid right n1 s e f l m = absurd (omega (arith, m))
second_loop-left (suc rounds) mid right zero s e f l m =
    let over : leb s.i mid ≡ false = ground (arith, e) in
    rw over (
      last_loop-Merged (right + 2) right 0 s (omega (arith, f)) (omega (arith, e, f, l))
        (omega arith))
second_loop-left (suc rounds) mid right (suc n1) s e f l m =
    let more : leb s.i mid ≡ true = ground (arith, e) in
    let (a, run, h) =
      second_loop-left rounds mid right n1 (take_i s) (omega (arith, e)) f l (omega (arith, m)) in
    (
      a,
      rw more run,
      Merged-take_i s n1 0 n1 a (inl (omega (arith, e, f, l))) h
          (λ p r o u v. absurd (omega (arith, u, v))),
    )

second_loop-right :
    (rounds mid right n2 : ℕ) (s : Merging)
    → s.i ≡ mid + 1
    → s.j + n2 ≡ right + 1
    → mid < s.j
    → 0 < rounds
    → MergesTo (second_loop rounds mid right s) s 0 n2 n2
unfolding left_loop
second_loop-right zero mid right n2 s e f l m = absurd (omega (arith, m))
second_loop-right (suc rounds) mid right n2 s e f l m =
    let over : leb s.i mid ≡ false = ground (arith, e) in
    rw over (last_loop-Merged (right + 2) right n2 s f (omega (arith, e, l)) (omega (arith, f)))

abbrev all_loops : ℕ → ℕ → ℕ → Merging → Result (ℕ → ℤ)
all_loops rounds mid right s = both_loop rounds mid right s >>= second_loop (right + 2) mid right

IsAbove-first :
    (a : ℕ → ℤ) (x : ℤ) (from n : ℕ)
    → IsSorted a from (suc n)
    → x ≤ℤ a from
    → IsAbove x a from (suc n)
IsAbove-first a x from n s l m u v = elim (below_suc from m (omega (arith, u))) [
  | inl e ↦ subst (λ y. x ≤ℤ a y) e l
  | inr e ↦ omega (arith, l, s from m (omega arith) e v)
]

all_loops-Merged :
    (rounds mid right n1 n2 n : ℕ) (s : Merging)
    → s.i + n1 ≡ mid + 1
    → s.j + n2 ≡ right + 1
    → mid < s.j
    → mid ≤ right
    → n1 + n2 ≡ n
    → n < rounds
    → MergesTo (all_loops rounds mid right s) s n1 n2 n
unfolding both_loop
all_loops-Merged zero mid right n1 n2 n s e f g k t m = absurd (omega (arith, m))
all_loops-Merged (suc rounds) mid right zero n2 n s e f g k t m =
    let over : leb s.i mid ≡ false = ground (arith, e) in
    rw over (
      subst (λ x. MergesTo (second_loop (right + 2) mid right s) s 0 n2 x) (omega (arith, t))
        (second_loop-right (right + 2) mid right n2 s (omega (arith, e)) f g (omega arith)))
all_loops-Merged (suc rounds) mid right (suc n1) zero n s e f g k t m =
    let over : leb s.j right ≡ false = ground (arith, f) in
    let some : leb s.i mid ≡ true = ground (arith, e) in
    rw (some, over)
      (subst (λ x. MergesTo (second_loop (right + 2) mid right s) s (suc n1) 0 x) (omega (arith, t))
        (second_loop-left (right + 2) mid right (suc n1) s e (omega (arith, f)) k
          (omega (arith, e, k))))
all_loops-Merged (suc rounds) mid right (suc n1) (suc n2) zero s e f g k t m =
    absurd (omega (arith, t))
all_loops-Merged (suc rounds) mid right (suc n1) (suc n2) (suc n) s e f g k t m =
    let some_i : leb s.i mid ≡ true = ground (arith, e) in
    let some_j : leb s.j right ≡ true = ground (arith, f) in
    elim (Bool-cases (ltb_ℤ (s.tmp s.j) (s.tmp s.i))) [
      | inr c ↦
          let (a, run, h) =
            all_loops-Merged rounds mid right n1 (suc n2) n (take_i s) (omega (arith, e)) f g k
              (omega (arith, t)) (omega (arith, m)) in
          (
            a,
            rw (some_i, some_j, c) run,
            Merged-take_i s n1 (suc n2) n a (inl (omega (arith, e, g))) h
                (λ p r. IsAbove-first s.tmp (s.tmp s.i) s.j n2 r (ground (arith, c))),
          )
      | inl c ↦
          let (a, run, h) =
            all_loops-Merged rounds mid right (suc n1) n2 n (take_j s) e (omega (arith, f))
              (omega (arith, g)) k (omega (arith, t)) (omega (arith, m)) in
          (
            a,
            rw (some_i, some_j, c) run,
            Merged-take_j s (suc n1) n2 n a (omega (arith, e, g)) h
                (λ p r. IsAbove-first s.tmp (s.tmp s.j) s.i n1 p (ground (arith, c))),
          )
    ]

-- `merge` of two parts of the array, one behind the other.
pub merge-Merged :
    (list : ℕ → ℤ) (left mid right n1 n2 n : ℕ)
    → left + n1 ≡ mid + 1
    → mid + 1 + n2 ≡ right + 1
    → n1 + n2 ≡ n
    → right < 10
    → (a : ℕ → ℤ) × (merge list left mid right ≡ ok a)
      × Merged (record { list = list; tmp = list; i = left; j = mid + 1; k = left }) n1 n2 n a
unfolding merge
merge-Merged list left mid right n1 n2 n e f t l =
    let start : Merging = record { list = list; tmp = list; i = left; j = mid + 1; k = left } in
    let small : leb 10 right ≡ false = ground (arith, l) in
    let (a, run, h) =
      all_loops-Merged (right + 2) mid right n1 n2 n start e f (omega arith) (omega (arith, f)) t
        (omega (arith, e, f, t)) in
    (a, rw small run, h)

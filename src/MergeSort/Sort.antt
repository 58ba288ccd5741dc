-- ===== src/MergeSort/Sort.antt =====
-- `merge_sort` of CSE/HW9/HW9_1_given.c.
use hyu_3rd_1se.Prelude.{
  ℕ, zero, suc, ◌+◌, ◌-◌, ◌/◌, ◌<◌, ◌≤◌, ◌≡◌, refl, sym, ap, ◌∙◌, true, false, ltb, ok, arith,
}
use hyu_3rd_1se.Prelude.Int.{ℤ}
use hyu_3rd_1se.MergeSort.{merge_sort_rounds, merge_sort}
use hyu_3rd_1se.MergeSort.Merge.{IsSorted, one_of, count, count_same, Merged, same_le}
use hyu_3rd_1se.MergeSort.Loops.{merge-Merged}

-- The n elements from an index on stand in order, and are those from before; the others are as they were.
pub record Sorted (list : ℕ → ℤ) (from n : ℕ) (a : ℕ → ℤ) : Type 0 where
  pub before : (m : ℕ) → m < from → a m ≡ list m
  pub behind : (m : ℕ) → from + n ≤ m → a m ≡ list m
  pub counts : (q : ℤ) → count a from n q ≡ count list from n q
  pub sorted : IsSorted a from n

sum_next : {x z z' : ℕ} (o y : ℕ) → x ≡ y + z → z ≡ z' → o + x ≡ o + y + z'
sum_next o y e f = omega (arith, e, f)

same_sum : {x y y' z z' w : ℕ} → x ≡ y + z → y ≡ y' → z ≡ z' → w ≡ y' + z' → x ≡ w
same_sum e f g h = omega (arith, e, f, g, h)

count_append :
    (a : ℕ → ℤ) (from n1 n2 : ℕ) (q : ℤ)
    → count a from (n1 + n2) q ≡ count a from n1 q + count a (from + n1) n2 q
count_append a from zero n2 q =
    let all : count a from (0 + n2) q ≡ count a from n2 q =
      ap (λ x. count a from x q) (omega arith) in
    let here : count a (from + 0) n2 q ≡ count a from n2 q =
      ap (λ x. count a x n2 q) (omega arith) in
    all ∙ omega (arith, here)
count_append a from (suc n1) n2 q =
    let total : suc n1 + n2 ≡ suc (n1 + n2) = omega arith in
    let all : count a from (suc n1 + n2) q ≡ count a from (suc (n1 + n2)) q =
      ap (λ x. count a from x q) total in
    let next : count a (suc from + n1) n2 q ≡ count a (from + suc n1) n2 q =
      ap (λ x. count a x n2 q) (omega arith) in
    all
    ∙ sum_next (one_of (a from) q) (count a (suc from) n1 q) (count_append a (suc from) n1 n2 q)
        next

-- Two parts in order, merged.
module _ (list a1 a2 a : ℕ → ℤ) (left mid n1 n2 n : ℕ) (e : left + n1 ≡ mid + 1) (t : n1 + n2 ≡ n)
    (h1 : Sorted list left n1 a1) (h2 : Sorted a1 (mid + 1) n2 a2)
    (h : Merged (record { list = a2; tmp = a2; i = left; j = mid + 1; k = left }) n1 n2 n a) where
  both_counts : (q : ℤ) → count a left n q ≡ count list left n q
  both_counts q =
      let first = count_same a2 a1 left n1 q (λ m u v. h2.before m (omega (arith, e, v))) in
      let second = count_same a1 list (mid + 1) n2 q (λ m u v. h1.behind m (omega (arith, e, u))) in
      let whole : count list left n q ≡ count list left n1 q + count list (mid + 1) n2 q =
        ap (λ x. count list left x q) (sym t)
        ∙ count_append list left n1 n2 q
        ∙ ap (λ x. count list left n1 q + count list x n2 q) e in
      same_sum (h.counts q) (first ∙ h1.counts q) (h2.counts q ∙ second) whole

  both-IsSorted : IsSorted a left n
  both-IsSorted =
      h.sorted
        (λ u v x y z.
          same_le (h2.before u (omega (arith, e, y, z))) (h2.before v (omega (arith, e, z)))
            (h1.sorted u v x y z))
        h2.sorted

  combine-Sorted : Sorted list left n a
  combine-Sorted = record {
    before = λ m l. h.before m l ∙ h2.before m (omega (arith, e, l)) ∙ h1.before m l;
    behind = λ m l.
        h.behind m l ∙ h2.behind m (omega (arith, e, t, l)) ∙ h1.behind m (omega (arith, t, l));
    counts = both_counts;
    sorted = both-IsSorted;
  }

merge_sort_rounds-Sorted :
    (rounds : ℕ) (list : ℕ → ℤ) (left right n : ℕ)
    → left + suc n ≡ right + 1
    → right < 10
    → n < rounds
    → (a : ℕ → ℤ) × (merge_sort_rounds rounds list left right ≡ ok a) × Sorted list left (suc n) a
unfolding merge_sort_rounds
merge_sort_rounds-Sorted zero list left right n e l k = absurd (omega (arith, k))
merge_sort_rounds-Sorted (suc rounds) list left right zero e l k =
    let one : ltb left right ≡ false = ground (arith, e) in
    (
      list,
      rw one refl,
      record {
        before = λ m u. refl;
        behind = λ m u. refl;
        counts = λ q. refl;
        sorted = λ u v x y z. absurd (omega (arith, x, y, z));
      },
    )
merge_sort_rounds-Sorted (suc rounds) list left right (suc n) e l k =
    let mid = (left + right) / 2 in
    let more : ltb left right ≡ true = ground (arith, e) in
    let n1 = mid - left in
    let n2 = right - mid - 1 in
    let (a1, run1, h1) =
      merge_sort_rounds-Sorted rounds list left mid n1 (omega (arith, e)) (omega (arith, e, l))
        (omega (arith, e, k)) in
    let (a2, run2, h2) =
      merge_sort_rounds-Sorted rounds a1 (mid + 1) right n2 (omega (arith, e)) l
        (omega (arith, e, k)) in
    let (a, run, h) =
      merge-Merged a2 left mid right (suc n1) (suc n2) (suc (suc n)) (omega (arith, e))
        (omega (arith, e)) (omega (arith, e)) l in
    (
      a,
      rw (more, run1, run2) run,
      combine-Sorted list a1 a2 a left mid (suc n1) (suc n2) (suc (suc n)) (omega (arith, e))
          (omega (arith, e)) h1 h2 h,
    )

-- `merge_sort` of a part of the ten numbers puts these numbers, each as often as before, in order, and
-- leaves the others.
pub merge_sort-Sorted :
    (list : ℕ → ℤ) (left right n : ℕ)
    → left + suc n ≡ right + 1
    → right < 10
    → (a : ℕ → ℤ) × (merge_sort list left right ≡ ok a) × Sorted list left (suc n) a
unfolding merge_sort
merge_sort-Sorted list left right n e l =
    merge_sort_rounds-Sorted (right + 1) list left right n e l (omega (arith, e))

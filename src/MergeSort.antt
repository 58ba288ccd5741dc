-- ===== src/MergeSort.antt =====
-- CSE/HW9/HW9_1_given.c: merge sort of an array of ten numbers, a function of the index.
pub mod Merge
pub mod Loops
pub mod Sort
use hyu_3rd_1se.Prelude.{
  ℕ, zero, suc, ◌+◌, ◌/◌, Bool, not, ◌&&◌, ltb, leb, if◌then◌else◌, update, Result, ok, fault,
  diverges, out_of_bounds, ◌>>=◌,
}
use hyu_3rd_1se.Prelude.Int.{ℤ, ltb_ℤ}

abbrev pub max_size : ℕ
max_size = 10

-- The arrays and the indices of `merge`.
pub record Merging : Type 0 where
  pub list : ℕ → ℤ
  pub tmp : ℕ → ℤ
  pub i : ℕ
  pub j : ℕ
  pub k : ℕ

-- `SWAP(list[k],tmp[i],t); k++; i++;`
abbrev pub take_i : Merging → Merging
take_i s = record s {
  list = update s.list s.k (s.tmp s.i);
  tmp = update s.tmp s.i (s.list s.k);
  i = suc s.i;
  k = suc s.k;
}

abbrev pub take_j : Merging → Merging
take_j s = record s {
  list = update s.list s.k (s.tmp s.j);
  tmp = update s.tmp s.j (s.list s.k);
  j = suc s.j;
  k = suc s.k;
}

-- The three loops of `merge`.
unfoldable pub both_loop : ℕ → ℕ → ℕ → Merging → Result Merging
both_loop zero mid right s = fault diverges
both_loop (suc rounds) mid right s =
    let next_i = both_loop rounds mid right (take_i s) in
    let next_j = both_loop rounds mid right (take_j s) in
    if not (leb s.i mid && leb s.j right)
    then ok s
    else if not (ltb_ℤ (s.tmp s.j) (s.tmp s.i))
    then next_i
    else next_j

unfoldable pub left_loop : ℕ → ℕ → Merging → Result Merging
left_loop zero mid s = fault diverges
left_loop (suc rounds) mid s =
    let next = left_loop rounds mid (take_i s) in if leb s.i mid then next else ok s

unfoldable pub right_loop : ℕ → ℕ → Merging → Result Merging
right_loop zero right s = fault diverges
right_loop (suc rounds) right s =
    let next = right_loop rounds right (take_j s) in if leb s.j right then next else ok s

-- `tmp` is a copy of the array, and has its size.
unfoldable pub merge : (ℕ → ℤ) → ℕ → ℕ → ℕ → Result (ℕ → ℤ)
merge list left mid right =
    let start : Merging = record { list = list; tmp = list; i = left; j = mid + 1; k = left } in
    let merged = both_loop (right + 2) mid right start >>= λ s.
    left_loop (right + 2) mid s >>= λ s'. right_loop (right + 2) right s' >>= λ s''. ok s''.list in
    if leb max_size right then fault out_of_bounds else merged

-- Each call has fewer elements.
unfoldable pub merge_sort_rounds : ℕ → (ℕ → ℤ) → ℕ → ℕ → Result (ℕ → ℤ)
merge_sort_rounds zero list left right = fault diverges
merge_sort_rounds (suc rounds) list left right =
    let mid = (left + right) / 2 in
    let sorted = merge_sort_rounds rounds list left mid >>= λ list1.
    merge_sort_rounds rounds list1 (mid + 1) right >>= λ list2. merge list2 left mid right in
    if ltb left right then sorted else ok list

unfoldable pub merge_sort : (ℕ → ℤ) → ℕ → ℕ → Result (ℕ → ℤ)
merge_sort list left right = merge_sort_rounds (right + 1) list left right

-- ===== src/Tests/Sorting.antt =====
-- CSE/HW9/HW9_1_given.c with ten numbers that fall.
use hyu_3rd_1se.Prelude.{ℕ, ◌-◌, ◌≡◌, refl, ok, arith}
use hyu_3rd_1se.Prelude.Int.{ℤ, pos}
use hyu_3rd_1se.MergeSort.{merge_sort}
use hyu_3rd_1se.MergeSort.Sort.{Sorted, merge_sort-Sorted}

abbrev falling : ℕ → ℤ
falling i = pos (9 - i)

merge_sort-Sorted_example : (a : ℕ → ℤ) × (merge_sort falling 0 9 ≡ ok a) × Sorted falling 0 10 a
merge_sort-Sorted_example = merge_sort-Sorted falling 0 9 9 refl (omega arith)

-- ===== src/Tests/Sorts.antt =====
-- Sorting, selecting and thinning out spans of numbers.
use c_nad.Core.Cmp.{cmp_unsigned, cmp_unsigned-IsOrder}
use c_nad.Prelude.Array.{passing}
use c_nad.Prelude.{ℕ, ◌≡◌, refl, List, [], ◌∷◌, arith, ltb, ◌==◌, done, Returns}
use c_nad.Algo.Heap.Sort.{IsSortOf}
use c_nad.Algo.Sort.{insertion_sort, sort}
use c_nad.Algo.Sort.Stable.{IsStableSort, insertion_sort-IsStableSort}
use c_nad.Algo.Sort.Quick.{sort-IsSortOf}
use c_nad.Algo.Sort.Select.{
  nth_elem, partial_sort, IsSelection, IsPartialSort, nth_elem-IsSelection,
  partial_sort-IsPartialSort,
}
use c_nad.Algo.Merge.{merge}
use c_nad.Algo.Merge.Order.{IsStableMerge, merge-IsStableMerge}
use c_nad.Algo.Modify.{unique, remove_if, replace_if, replace}
use c_nad.Algo.Modify.Keep.{
  IsKept, unique_list, remove_if-IsKept, unique-IsKept, replace_if-replace-map,
}

abbrev mixed : List ℕ
mixed = 3 ∷ 9 ∷ 4 ∷ 4 ∷ 7 ∷ []

insertion_sort-IsStableSort_example :
    Returns (IsStableSort 0 cmp_unsigned mixed 5) (insertion_sort 4 mixed cmp_unsigned)
insertion_sort-IsStableSort_example =
    insertion_sort-IsStableSort 0 cmp_unsigned cmp_unsigned-IsOrder 4 mixed

sort-IsSortOf_example : Returns (IsSortOf 0 cmp_unsigned mixed) (sort 4 mixed cmp_unsigned)
sort-IsSortOf_example = sort-IsSortOf 0 cmp_unsigned cmp_unsigned-IsOrder 4 mixed

nth_elem-IsSelection_example :
    Returns (IsSelection 0 cmp_unsigned 2 mixed) (nth_elem 4 mixed 2 cmp_unsigned)
nth_elem-IsSelection_example =
    nth_elem-IsSelection 0 cmp_unsigned cmp_unsigned-IsOrder 4 mixed 2 (omega arith)

partial_sort-IsPartialSort_example :
    Returns (IsPartialSort 0 cmp_unsigned 2 mixed) (partial_sort 4 mixed 2 cmp_unsigned)
partial_sort-IsPartialSort_example =
    partial_sort-IsPartialSort 0 cmp_unsigned cmp_unsigned-IsOrder 4 mixed 2 (omega arith)

remove_if-IsKept_example : Returns (IsKept mixed (9 ∷ 7 ∷ [])) (remove_if mixed (λ x. ltb x 5))
unfolding passing
remove_if-IsKept_example = remove_if-IsKept mixed (λ x. ltb x 5)

unique-IsKept_example : Returns (IsKept mixed (3 ∷ 9 ∷ 4 ∷ 7 ∷ [])) (unique mixed ◌==◌)
unfolding unique_list
unique-IsKept_example = unique-IsKept mixed ◌==◌

replace_if-replace-map_example :
    (replace_if mixed (λ x. ltb x 4) 8 ≡ done (8 ∷ 9 ∷ 4 ∷ 4 ∷ 7 ∷ []))
    × (replace mixed 4 8 ◌==◌ ≡ done (3 ∷ 9 ∷ 8 ∷ 8 ∷ 7 ∷ []))
replace_if-replace-map_example = replace_if-replace-map mixed (λ x. ltb x 4) 4 8 ◌==◌

merge-IsStableMerge_example :
    Returns
      (IsStableMerge cmp_unsigned cmp_unsigned-IsOrder (3 ∷ 4 ∷ []) (1 ∷ 4 ∷ 9 ∷ []))
      (merge mixed (3 ∷ 4 ∷ []) (1 ∷ 4 ∷ 9 ∷ []) cmp_unsigned)
unfolding cmp_unsigned
merge-IsStableMerge_example =
    merge-IsStableMerge cmp_unsigned cmp_unsigned-IsOrder mixed (3 ∷ 4 ∷ []) (1 ∷ 4 ∷ 9 ∷ []) refl
      (refl, (refl, tt)) (refl, (refl, (refl, tt)))

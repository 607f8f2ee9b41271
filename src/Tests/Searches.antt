-- ===== src/Tests/Searches.antt =====
-- Searches over spans of numbers, in the order of the unsigned comparator.
use c_nad.Core.Cmp.{cmp_unsigned, cmp_unsigned-IsOrder}
use c_nad.Core.Int.{gt0}
use c_nad.Prelude.Array.{get_or}
use c_nad.Prelude.{ℕ, ◌+◌, ◌≡◌, refl, true, ◌||◌, not, List, [], ◌∷◌, arith, ltb, ◌==◌, Returns}
use c_nad.Tests.Table.{all_below, all_below-entry}
use c_nad.Algo.Search.{binary_search, equal_range}
use c_nad.Algo.Search.Bounds.{
  IsPartitioned, IsSorted, Finds, IsEqualRange, binary_search-Finds, equal_range-IsEqualRange,
}
use c_nad.Algo.Find.{find_sub}
use c_nad.Algo.Find.Sub.{IsFirstSub, find_sub-IsFirstSub}
use c_nad.Algo.Extreme.{
  IsMin, IsMax, min_elem, max_elem, minmax_elem, min_elem-max_elem-minmax_elem,
}

abbrev rising : List ℕ
rising = 2 ∷ 4 ∷ 4 ∷ 9 ∷ []

rising_table :
    all_below 4 (λ j.
      all_below (j + 1) (λ i. not (gt0 (cmp_unsigned (get_or rising i 0) (get_or rising j 0)))))
    ≡ true
unfolding all_below get_or cmp_unsigned
rising_table = refl

rising-IsSorted : IsSorted 0 cmp_unsigned rising
rising-IsSorted i j p q =
    let row =
      all_below-entry 4
        (λ j.
          all_below (j + 1) (λ i. not (gt0 (cmp_unsigned (get_or rising i 0) (get_or rising j 0)))))
        j rising_table q in
    ground (
      arith,
      all_below-entry (j + 1)
          (λ i. not (gt0 (cmp_unsigned (get_or rising i 0) (get_or rising j 0)))) i row
          (omega arith),
    )

binary_search-Finds_example :
    Returns (Finds 0 cmp_unsigned rising 4) (binary_search rising 4 cmp_unsigned)
binary_search-Finds_example =
    binary_search-Finds 0 cmp_unsigned cmp_unsigned-IsOrder rising 4 rising-IsSorted

equal_range-IsEqualRange_example :
    Returns (IsEqualRange 0 cmp_unsigned rising 4) (equal_range rising 4 cmp_unsigned)
equal_range-IsEqualRange_example =
    equal_range-IsEqualRange 0 cmp_unsigned cmp_unsigned-IsOrder rising 4 rising-IsSorted

below_five_table :
    all_below 4
      (λ j. all_below (j + 1) (λ i. ltb (get_or rising i 0) 5 || not (ltb (get_or rising j 0) 5)))
    ≡ true
unfolding all_below get_or
below_five_table = refl

below_five-IsPartitioned : IsPartitioned 0 (λ x. ltb x 5) rising
below_five-IsPartitioned i j p q e =
    let row =
      all_below-entry 4
        (λ j. all_below (j + 1) (λ i. ltb (get_or rising i 0) 5 || not (ltb (get_or rising j 0) 5)))
        j below_five_table q in
    ground (
      arith,
      all_below-entry (j + 1) (λ i. ltb (get_or rising i 0) 5 || not (ltb (get_or rising j 0) 5)) i
          row (omega arith),
    )

find_sub-IsFirstSub_example :
    Returns (IsFirstSub 0 rising ◌==◌ (4 ∷ 9 ∷ [])) (find_sub rising (4 ∷ 9 ∷ []) ◌==◌)
find_sub-IsFirstSub_example = find_sub-IsFirstSub 0 rising ◌==◌ (4 ∷ 9 ∷ [])

abbrev mixed : List ℕ
mixed = 5 ∷ 3 ∷ 8 ∷ 3 ∷ []

min_elem-max_elem-minmax_elem_example :
    Returns (IsMin 0 cmp_unsigned mixed 4) (min_elem mixed cmp_unsigned)
    × Returns (IsMax 0 cmp_unsigned mixed 4) (max_elem mixed cmp_unsigned)
    × Returns
        (λ r. IsMin 0 cmp_unsigned mixed 4 r.min_at × IsMax 0 cmp_unsigned mixed 4 r.max_at)
        (minmax_elem mixed cmp_unsigned)
min_elem-max_elem-minmax_elem_example =
    min_elem-max_elem-minmax_elem 0 cmp_unsigned cmp_unsigned-IsOrder mixed (omega arith)

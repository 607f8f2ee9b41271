-- ===== src/Tests/Heaps.antt =====
-- Heaps of numbers, in the order of the unsigned comparator.
use c_nad.Core.Span
use c_nad.Core.Cmp.{cmp_unsigned, cmp_unsigned-IsOrder}
use c_nad.Core.Int.{gt0}
use c_nad.Prelude.Array.{get_or}
use c_nad.Prelude.{ℕ, ◌≡◌, refl, true, not, List, [], ◌∷◌, arith, done, ◌>>=◌, Returns}
use c_nad.Tests.Table.{all_below, all_below-entry}
use c_nad.Algo.Heap.{parent, sort_heap, make_heap}
use c_nad.Algo.Heap.Order.{IsHeap, Sifted}
use c_nad.Algo.Heap.Down.{make_heap-Sifted}
use c_nad.Algo.Heap.Sort.{IsSortOf, sort_heap-IsSortOf}

abbrev shuffled : List ℕ
shuffled = 3 ∷ 9 ∷ 4 ∷ 7 ∷ []

-- a heap, and a heap but for its last elem
abbrev heaped : List ℕ
heaped = 9 ∷ 7 ∷ 4 ∷ 3 ∷ []

abbrev almost : List ℕ
almost = 7 ∷ 3 ∷ 4 ∷ 9 ∷ []

heaped_table :
    (all_below 4 (λ c. not (gt0 (cmp_unsigned (get_or heaped c 0) (get_or heaped (parent c) 0))))
      ≡ true)
    × (all_below 3 (λ c. not (gt0 (cmp_unsigned (get_or almost c 0) (get_or almost (parent c) 0))))
        ≡ true)
unfolding all_below get_or cmp_unsigned
heaped_table = (refl, refl)

heaped-IsHeap : IsHeap 0 cmp_unsigned heaped 4
heaped-IsHeap c p q r = ground (arith, all_below-entry 4 _ c heaped_table.0 q)

almost-IsHeap : IsHeap 0 cmp_unsigned almost 3
almost-IsHeap c p q r = ground (arith, all_below-entry 3 _ c heaped_table.1 q)

make_heap-Sifted_example :
    Returns (Sifted 0 cmp_unsigned 0 shuffled 4) (make_heap shuffled cmp_unsigned)
make_heap-Sifted_example = make_heap-Sifted 0 cmp_unsigned cmp_unsigned-IsOrder shuffled

sort_heap-IsSortOf_example :
    Returns (IsSortOf 0 cmp_unsigned heaped) (sort_heap heaped cmp_unsigned)
sort_heap-IsSortOf_example =
    sort_heap-IsSortOf 0 cmp_unsigned cmp_unsigned-IsOrder heaped heaped-IsHeap

sorted_run :
    (make_heap shuffled cmp_unsigned >>= λ t. sort_heap t cmp_unsigned) ≡ done (3 ∷ 4 ∷ 7 ∷ 9 ∷ [])
unfolding make_heap sort_heap cmp_unsigned Span.get Span.swap_elems Span.on_sub
sorted_run = refl

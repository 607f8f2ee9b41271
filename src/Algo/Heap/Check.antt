-- ===== src/Algo/Heap/Check.antt =====
-- is_heap_until and is_heap.
use c_nad.Core.Span
use c_nad.Core.Cmp.{Cmp, IsOrder, Le_of_ge0}
use c_nad.Core.Int.{lt0}
use c_nad.Prelude.Array.{get_or}
use c_nad.Prelude.{
  ℕ, zero, suc, ◌+◌, ◌≤◌, ◌<◌, ◌≡◌, refl, inl, inr, true, List, arith, ltb, ◌==◌, Bool-cases,
  length, done, Returns, Returns-if,
}
use c_nad.Algo.Heap.{parent, is_heap_until_from, is_heap_until, is_heap}
use c_nad.Algo.Heap.Order.{IsHeap}

module _ {A : Type 0} (d : A) (cmp : Cmp A) where
  -- What is_heap_until reports: the length of the longest heap at the front, and the edge that ends
  -- it unless the whole span is one.
  pub record IsLongestHeap (s : List A) (n : ℕ) : Type 0 where
    pub inside : n ≤ length s
    pub heap : IsHeap d cmp s n
    pub broken : n < length s → lt0 (cmp (get_or s (parent n) d) (get_or s n d)) ≡ true

module _ {A : Type 0} (d : A) (cmp : Cmp A) (o : IsOrder cmp) where
  is_heap_until_from-IsLongestHeap :
      (fuel child : ℕ) (s : List A)
      → length s + 1 < fuel + child
      → 0 < child
      → child ≤ length s + 1
      → IsHeap d cmp s child
      → Returns (IsLongestHeap d cmp s) (is_heap_until_from fuel child s cmp)
  unfolding is_heap_until_from
  is_heap_until_from-IsLongestHeap zero child s f p q h = absurd (omega arith)
  is_heap_until_from-IsLongestHeap (suc fuel) child s f p q h =
      Returns-if (ltb child (length s))
        (λ more.
          let hp : parent child < length s = ground arith in
          let x = get_or s (parent child) d in
          let y = get_or s child d in
          rw (Span.get-done d s (parent child) hp, Span.get-done d s child (ground arith))
            (Returns-if (lt0 (cmp x y))
              (λ e. (child, refl, record { inside = ground arith; heap = h; broken = λ r. e }))
              (λ e.
                is_heap_until_from-IsLongestHeap fuel (child + 1) s (omega arith) (omega arith)
                  (ground arith)
                  λ c r t w. elim (Bool-cases (c == child)) [
                    | inl same ↦ let g : c ≡ child = ground arith in rw g (Le_of_ge0 o x y e)
                    | inr other ↦ h c r (ground arith) w
                  ])))
        (λ end. (
          length s,
          refl,
          record {
            inside = omega arith;
            heap = λ c r t w. h c r (ground arith) w;
            broken = λ r. absurd (omega arith);
          },
        ))

  -- is_heap_until returns the length of the longest heap at the front of the span, and is_heap says
  -- whether that is the whole span.
  pub is_heap_until-IsLongestHeap :
      (s : List A)
      → Returns
          (λ n. IsLongestHeap d cmp s n × (is_heap s cmp ≡ done (n == length s)))
          (is_heap_until s cmp)
  unfolding is_heap
  is_heap_until-IsLongestHeap s = let (n, e, v) = found in (n, e, (v, rw e))
    where
      found : Returns (IsLongestHeap d cmp s) (is_heap_until s cmp)
      found =
          is_heap_until_from-IsLongestHeap (length s + 1) 1 s (omega arith) (omega arith)
            (omega arith) λ c p q r. absurd (omega arith)

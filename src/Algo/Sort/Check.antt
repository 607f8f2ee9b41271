-- ===== src/Algo/Sort/Check.antt =====
-- The tests of src/algo/sort.c for a span that is in order already.
use c_nad.Core.Span
use c_nad.Core.Cmp.{Cmp, IsOrder, Le_refl}
use c_nad.Core.Int.{gt0}
use c_nad.Prelude.Array.{get_or}
use c_nad.Prelude.{
  ℕ, zero, suc, ◌+◌, ◌-◌, ◌≤◌, ◌<◌, ◌≡◌, refl, true, List, arith, ltb, ◌==◌, ltb→lt, length, done,
  Returns, Returns-if,
}
use c_nad.Algo.Sort.{is_sorted_until_from, is_sorted_until, is_sorted}
use c_nad.Algo.Sort.Stable.{IsRising}

module _ {A : Type 0} (d : A) (cmp : Cmp A) where
  -- the first `n` entries are in order, and one more entry would not be
  pub record IsLongestRise (s : List A) (n : ℕ) : Type 0 where
    pub inside : n ≤ length s
    pub rising : IsRising d cmp s n
    pub broken : n < length s → gt0 (cmp (get_or s (n - 1) d) (get_or s n d)) ≡ true

  module _ (o : IsOrder cmp) (s : List A) where
    is_sorted_until_from-IsLongestRise :
        (fuel i : ℕ)
        → length s + 1 - i < fuel
        → 0 < i
        → IsRising d cmp s i
        → Returns (IsLongestRise s) (is_sorted_until_from fuel i s cmp)
    unfolding is_sorted_until_from
    is_sorted_until_from-IsLongestRise zero i f p h = absurd (omega arith)
    is_sorted_until_from-IsLongestRise (suc fuel) i f p h =
        Returns-if (ltb i (length s))
          (λ more.
            let in_s : i < length s = ltb→lt _ _ more in
            rw (Span.get-done d s (i - 1) (omega arith), Span.get-done d s i in_s)
              (Returns-if (gt0 (cmp (get_or s (i - 1) d) (get_or s i d)))
                (λ falls.
                  (i, refl, record { inside = omega arith; rising = h; broken = λ q. falls }))
                (λ rises.
                  is_sorted_until_from-IsLongestRise fuel (i + 1) (omega arith) (omega arith)
                    (λ a b q r. ground (
                      arith,
                      rises,
                      h a b,
                      h a (i - 1),
                      o.trans (get_or s a d) (get_or s (i - 1) d) (get_or s i d),
                      Le_refl o (get_or s i d),
                    )))))
          (λ end. (
            length s,
            refl,
            record {
              inside = omega arith;
              rising = λ a b q r. h a b q (ground arith);
              broken = λ q. absurd (omega arith);
            },
          ))

    -- is_sorted_until returns the length of the longest front that is in order, and is_sorted is true
    -- exactly when that is the whole span.
    pub is_sorted_until-IsLongestRise :
        Returns
          (λ n. IsLongestRise s n × (is_sorted s cmp ≡ done (n == length s)))
          (is_sorted_until s cmp)
    unfolding is_sorted_until is_sorted
    is_sorted_until-IsLongestRise =
        let (n, run, u) =
          is_sorted_until_from-IsLongestRise (length s + 1) 1 (omega arith) (omega arith)
            (λ a b q r. ground (arith, Le_refl o (get_or s a d))) in
        (n, run, (u, rw run refl))

-- ===== src/Algo/Heap/Up.antt =====
-- sift_up and push_heap.
use mathlib.Core.List.Perm
use c_nad.Core.Span
use c_nad.Core.Cmp.{Cmp, Le, IsOrder, Le_of_lt0}
use c_nad.Core.Int.{lt0, ge0}
use c_nad.Prelude.Array.{get_or, exchange, length-exchange, get_or-exchange}
use c_nad.Prelude.{
  ℕ, zero, suc, ◌+◌, ◌-◌, ◌<◌, ◌≡◌, refl, ◌≢◌, inl, inr, true, List, arith, ltb, ◌==◌, lt→ltb,
  Bool-cases, length, Returns, Returns-map, Returns-if,
}
use c_nad.Algo.Heap.{parent, sift_up_loop, sift_up, push_heap}
use c_nad.Algo.Heap.Order.{IsHeap, IsBridged, Sifted, Sifted-exchange}

module _ {A : Type 0} (d : A) (cmp : Cmp A) (o : IsOrder cmp) where
  -- only the edge above `i` may be out of order
  pub record UpInv (s : List A) (i : ℕ) : Type 0 where
    pub inside : i < length s
    pub edges :
        (c : ℕ) → 0 < c → c < length s → c ≢ i → Le cmp (get_or s c d) (get_or s (parent c) d)
    pub bridged : IsBridged d cmp 0 s (length s) i

  module _ (s : List A) (i : ℕ) (v : UpInv s i) (pos : 0 < i)
      (above : lt0 (cmp (get_or s (parent i) d) (get_or s i d)) ≡ true) where
    UpInv-exchange : UpInv (exchange d s (parent i) i) (parent i)
    UpInv-exchange =
        let p = parent i in
        let hi = v.inside in
        let hp : p < length s = omega arith in
        let at = get_or-exchange d s p i hp hi in
        let size = length-exchange d s p i in
        let up = Le_of_lt0 o (get_or s p d) (get_or s i d) above in
        record {
          inside = omega arith;
          edges = λ c q r t. ground (
            arith,
            at c,
            at (parent c),
            v.edges c,
            v.bridged c,
            size,
            up,
            o.trans (get_or s c d) (get_or s p d) (get_or s i d),
          );
          bridged = λ c q r t u w. ground (
            arith,
            at c,
            at (parent p),
            v.edges c,
            v.edges p,
            size,
            o.trans (get_or s c d) (get_or s p d) (get_or s (parent p) d),
          );
        }

  sift_up_loop-Sifted :
      (fuel : ℕ) (s : List A) (i : ℕ)
      → i < fuel
      → UpInv s i
      → Returns (Sifted d cmp 0 s (length s)) (sift_up_loop fuel s i cmp)
  unfolding sift_up_loop
  sift_up_loop-Sifted zero s i f v = absurd (omega arith)
  sift_up_loop-Sifted (suc fuel) s i f v =
      let p = parent i in
      let hi = v.inside in
      let hp : p < length s = omega arith in
      rw (Span.get-done d s p hp, Span.get-done d s i hi, Span.swap_elems-done d s p i hp hi)
        (Returns-if (ltb 0 i)
          (λ pos.
            Returns-if (ge0 (cmp (get_or s p d) (get_or s i d)))
              (λ settled. (
                s,
                refl,
                record {
                  heap = λ c q r t. elim (Bool-cases (c == i)) [
                    | inl e ↦ ground (arith, o.flip (get_or s p d) (get_or s i d))
                    | inr e ↦ v.edges c q r (ground arith)
                  ];
                  same = Perm.rfl;
                  behind = λ c q. refl;
                },
              ))
              (λ rises.
                let w = UpInv-exchange s i v (ground arith) (ground arith) in
                let size = length-exchange d s p i in
                Returns-map _ (sift_up_loop-Sifted fuel (exchange d s p i) p (ground arith) w)
                  λ t u. Sifted-exchange d cmp 0 (length s) p i s t hp hi hp hi (rw size at u)))
          (λ root. (
            s,
            refl,
            record {
              heap = λ c q r t. v.edges c q r (ground arith);
              same = Perm.rfl;
              behind = λ c q. refl;
            },
          )))

  -- push_heap makes a heap of a span whose elems but the last are one, and only rearranges it.
  pub push_heap-Sifted :
      (s : List A)
      → 0 < length s
      → IsHeap d cmp s (length s - 1)
      → Returns (Sifted d cmp 0 s (length s)) (push_heap s cmp)
  unfolding push_heap sift_up
  push_heap-Sifted s pos h = rw (lt→ltb 0 (length s) pos) (
      sift_up_loop-Sifted (length s - 1 + 1) s (length s - 1) (omega arith) (record {
        inside = omega arith;
        edges = λ c q r t. h c q (omega arith) (omega arith);
        bridged = λ c q r t u w. absurd (omega arith);
      }))

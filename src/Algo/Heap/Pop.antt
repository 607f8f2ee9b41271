-- ===== src/Algo/Heap/Pop.antt =====
-- pop_heap.
use mathlib.Core.List.Perm
use c_nad.Core.Span
use c_nad.Core.Cmp.{Cmp, IsOrder}
use c_nad.Prelude.Array.{get_or, exchange, length-exchange, get_or-exchange, exchange-perm}
use c_nad.Prelude.{
  ◌-◌, ◌<◌, ◌≡◌, refl, ap, List, Perm, arith, ◌==◌, lt→ltb, length, Returns, Returns-map,
  Returns-if,
}
use c_nad.Algo.Heap.{parent, pop_heap}
use c_nad.Algo.Heap.Order.{IsHeap}
use c_nad.Algo.Heap.Down.{sift_down-Sifted}

module _ {A : Type 0} (d : A) (cmp : Cmp A) where
  -- What pop_heap leaves: the old root last, a heap of the other elems before it.
  pub record IsPopped (s t : List A) : Type 0 where
    pub heap : IsHeap d cmp t (length s - 1)
    pub last : get_or t (length s - 1) d ≡ get_or s 0 d
    pub same : Perm t s

module _ {A : Type 0} (d : A) (cmp : Cmp A) (o : IsOrder cmp) where
  -- pop_heap moves the root of a heap behind a heap of the other elems.
  pub pop_heap-IsPopped :
      (s : List A)
      → 0 < length s
      → IsHeap d cmp s (length s)
      → Returns (IsPopped d cmp s) (pop_heap s cmp)
  unfolding pop_heap
  pop_heap-IsPopped s pos h =
      let n = length s - 1 in
      let hn : n < length s = omega arith in
      let at = get_or-exchange d s 0 n pos hn in
      rw (lt→ltb 0 (length s) pos) (
        Returns-if (length s == 1)
          (λ one. (
            s,
            refl,
            record {
              heap = λ c p q r. absurd (ground arith);
              last = ap (λ k. get_or s k d) (ground arith);
              same = Perm.rfl;
            },
          ))
          (λ more. rw (Span.swap_elems-done d s 0 n pos hn) (
            Returns-map _
              (sift_down-Sifted d cmp o 0 (exchange d s 0 n) n 0
                (omega (arith, length-exchange d s 0 n)) (omega arith)
                (record {
                  edges = λ c p q r t. ground (arith, at c, at (parent c), h c);
                  bridged = λ c p q r t u. absurd (omega arith);
                }))
              λ t u. record {
                heap = u.heap;
                last = ground (arith, u.behind n, at n);
                same = Perm.trans u.same (exchange-perm d s 0 n pos hn);
              })))

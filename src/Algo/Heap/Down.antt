-- ===== src/Algo/Heap/Down.antt =====
-- sift_down and make_heap.
use mathlib.Core.List.Perm
use c_nad.Core.Span
use c_nad.Core.Cmp.{Cmp, Le, IsOrder, Le_refl, Le_of_lt0, Le_of_ge0}
use c_nad.Core.Int.{lt0, ge0}
use c_nad.Prelude.Array.{length-perm, get_or, exchange, length-exchange, get_or-exchange}
use c_nad.Prelude.{
  ℕ, zero, suc, ◌+◌, ◌*◌, ◌/◌, ◌≤◌, ◌<◌, ◌≡◌, refl, ◌∙◌, ◌≢◌, ◌⊎◌, inl, inr, List, arith, ltb, leb,
  ◌==◌, le→leb, Bool-cases, length, Returns, Returns-bind, Returns-map, Returns-if,
}
use c_nad.Algo.Heap.{parent, best_child, sift_down_loop, sift_down, make_heap_from, make_heap}
use c_nad.Algo.Heap.Order.{IsHeapFrom, IsBridged, Sifted, Sifted-exchange}

module _ {A : Type 0} (d : A) (cmp : Cmp A) (o : IsOrder cmp) where
  -- only the edges below `i` may be out of order
  pub record DownInv (lo : ℕ) (s : List A) (n i : ℕ) : Type 0 where
    pub edges :
        (c : ℕ)
        → 0 < c
        → c < n
        → lo ≤ parent c
        → parent c ≢ i
        → Le cmp (get_or s c d) (get_or s (parent c) d)
    pub bridged : IsBridged d cmp lo s n i

  -- `m` is a child of `i` that no child of `i` comes after
  record IsBest (s : List A) (n i m : ℕ) : Type 0 where
    inside : m < n
    child : (m ≡ 2 * i + 1) ⊎ (m ≡ 2 * i + 2)
    greatest : (c : ℕ) → 0 < c → c < n → parent c ≡ i → Le cmp (get_or s c d) (get_or s m d)

  best_child-IsBest :
      (s : List A) (n i : ℕ)
      → n ≤ length s
      → 2 * i + 1 < n
      → Returns (IsBest s n i) (best_child s i n cmp)
  unfolding best_child
  best_child-IsBest s n i size h =
      let l = get_or s (2 * i + 1) d in
      let r = get_or s (2 * i + 1 + 1) d in
      Returns-if (ltb (2 * i + 1 + 1) n)
        (λ both.
          rw
            (
              Span.get-done d s (2 * i + 1) (omega arith),
              Span.get-done d s (2 * i + 1 + 1) (ground arith),
            )
            (
              _,
              refl,
              elim (Bool-cases (lt0 (cmp l r))) [
                | inl e ↦ rw e (record {
                  inside = ground arith;
                  child = omega arith;
                  greatest = λ c p q t. elim (Bool-cases (c == 2 * i + 1)) [
                    | inl s ↦ ground (arith, Le_of_lt0 o l r e)
                    | inr s ↦ ground (arith, Le_refl o r)
                  ];
                })
                | inr e ↦ rw e (record {
                  inside = ground arith;
                  child = omega arith;
                  greatest = λ c p q t. elim (Bool-cases (c == 2 * i + 1)) [
                    | inl s ↦ ground (arith, Le_refl o l)
                    | inr s ↦ ground (arith, Le_of_ge0 o l r e)
                  ];
                })
              ],
            ))
        (λ only. (
          _,
          refl,
          record {
            inside = h;
            child = omega arith;
            greatest = λ c p q t. ground (arith, Le_refl o l);
          },
        ))

  DownInv-exchange :
      (lo : ℕ) (s : List A) (n i m : ℕ)
      → n ≤ length s
      → DownInv lo s n i
      → IsBest s n i m
      → Le cmp (get_or s i d) (get_or s m d)
      → DownInv lo (exchange d s i m) n m
  DownInv-exchange lo s n i m size v b up =
      let hm : m < length s = omega (arith, b.inside) in
      let hi : i < length s = omega (arith, b.inside, b.child) in
      let at = get_or-exchange d s i m hi hm in
      record {
        edges = λ c p q r t.
            ground
              (arith, at c, at (parent c), v.edges c, v.bridged m, b.greatest c, b.child, b.inside);
        bridged = λ c p q r t u. ground (arith, at c, at (parent m), v.edges c, b.child);
      }

  sift_down_loop-Sifted :
      (fuel lo : ℕ) (s : List A) (n i : ℕ)
      → n ≤ length s
      → n < fuel + i
      → i < n + 1
      → DownInv lo s n i
      → Returns (Sifted d cmp lo s n) (sift_down_loop fuel s i n cmp)
  unfolding sift_down_loop
  sift_down_loop-Sifted zero lo s n i size f g v = absurd (omega arith)
  sift_down_loop-Sifted (suc fuel) lo s n i size f g v =
      Returns-if (leb n (2 * i + 1))
        (λ leaf. (
          s,
          refl,
          record {
            heap = λ c p q r. v.edges c p q r (ground arith);
            same = Perm.rfl;
            behind = λ c p. refl;
          },
        ))
        (λ inner.
          Returns-bind (best_child s i n cmp) _ (best_child-IsBest s n i size (ground arith)) λ m b.
            let hm : m < length s = omega (arith, b.inside) in
            let hi : i < length s = omega (arith, b.inside, b.child) in
            let x = get_or s i d in
            let y = get_or s m d in
            rw (Span.get-done d s i hi, Span.get-done d s m hm, Span.swap_elems-done d s i m hi hm)
              (Returns-if (ge0 (cmp x y))
                (λ settled. (
                  s,
                  refl,
                  record {
                    heap = λ c p q r. elim (Bool-cases (parent c == i)) [
                      | inl e ↦
                          ground (arith, b.greatest c, Le_of_ge0 o x y, o.trans (get_or s c d) y x)
                      | inr e ↦ v.edges c p q r (ground arith)
                    ];
                    same = Perm.rfl;
                    behind = λ c p. refl;
                  },
                ))
                (λ sinks.
                  let up = Le_of_lt0 o x y (ground arith) in
                  Returns-map _
                    (sift_down_loop-Sifted fuel lo (exchange d s i m) n m
                      (omega (arith, length-exchange d s i m)) (omega (arith, b.child))
                      (omega (arith, b.inside)) (DownInv-exchange lo s n i m size v b up))
                    λ t u.
                      Sifted-exchange d cmp lo n i m s t hi hm (omega (arith, b.child, b.inside))
                        b.inside u)))

  pub sift_down-Sifted :
      (lo : ℕ) (s : List A) (n i : ℕ)
      → n ≤ length s
      → i < n + 1
      → DownInv lo s n i
      → Returns (Sifted d cmp lo s n) (sift_down s i n cmp)
  unfolding sift_down
  sift_down-Sifted lo s n i size g v =
      rw (le→leb n (length s) size) (sift_down_loop-Sifted (n + 1) lo s n i size (omega arith) g v)

  make_heap_from-Sifted :
      (i : ℕ) (s : List A)
      → i ≤ length s
      → IsHeapFrom d cmp i s (length s)
      → Returns (Sifted d cmp 0 s (length s)) (make_heap_from i s cmp)
  unfolding make_heap_from
  make_heap_from-Sifted zero s le h =
      (s, refl, record { heap = h; same = Perm.rfl; behind = λ c p. refl })
  make_heap_from-Sifted (suc i) s le h =
      Returns-bind (sift_down s i (length s) cmp) _
        (sift_down-Sifted i s (length s) i (omega arith) (omega arith) (record {
          edges = λ c p q r t. h c p q (omega arith);
          bridged = λ c p q r t u. absurd (omega arith);
        }))
        λ t u.
          let size = length-perm u.same in
          Returns-map _ (make_heap_from-Sifted i t (omega arith) (rw size u.heap)) λ w x. record {
            heap = rw (← size) x.heap;
            same = Perm.trans x.same u.same;
            behind = λ c p. x.behind c (omega arith) ∙ u.behind c p;
          }

  -- make_heap rearranges any span into a heap.
  pub make_heap-Sifted : (s : List A) → Returns (Sifted d cmp 0 s (length s)) (make_heap s cmp)
  unfolding make_heap
  make_heap-Sifted s =
      make_heap_from-Sifted (length s / 2) s (omega arith) λ c p q r. absurd (omega arith)

-- ===== src/Algo/Sort/Quick.antt =====
-- Quicksort: within its fuel, and with either fallback, it sorts the range that it is given.
use mathlib.Core.List.Perm
use c_nad.Core.Span
use c_nad.Core.Cmp.{Cmp, Le, IsOrder, Le_refl}
use c_nad.Core.Int.{gt0}
use c_nad.Prelude.Array.{length-perm, get_or}
use c_nad.Prelude.{
  ℕ, zero, suc, ◌+◌, ◌-◌, ◌≤◌, ◌<◌, ◌≡◌, refl, true, not, List, append_assoc, arith, ltb, leb, ◌==◌,
  if◌then◌else◌, ltb→lt, lt→ltb, length, take, drop, length-take, length-drop, Exec, done, ◌>>=◌,
  Returns, Returns-bind, Returns-map, Returns-if,
}
use c_nad.Algo.Heap.{make_heap, sort_heap}
use c_nad.Algo.Heap.Down.{make_heap-Sifted}
use c_nad.Algo.Heap.Sort.{IsSortOf, sort_heap-IsSortOf}
use c_nad.Algo.Sort.{insertion_threshold, quicksort, depth_limit, sort}
use c_nad.Algo.Sort.Stable.{insertion_sort-IsStableSort}
use c_nad.Algo.Sort.Within.{
  Within, Within-refl, Within-trans, Within-widen, get_or-with_part, with_part-Within,
}
use c_nad.Algo.Sort.Partition.{IsSplit, ninther-IsBetween, partition3-IsPartition}

module _ {A : Type 0} (d : A) (cmp : Cmp A) where
  -- the entries from `left` to `right` in order
  abbrev pub IsRisingIn : ℕ → ℕ → List A → Type 0
  IsRisingIn left right t =
      (i j : ℕ) → left ≤ i → i ≤ j → j ≤ right → Le cmp (get_or t i d) (get_or t j d)

  -- `t` is `s` with the range from `left` to `right` in order
  pub record IsRangeSort (left right : ℕ) (s t : List A) : Type 0 where
    pub within : Within d left right s t
    pub rising : IsRisingIn left right t

  -- a split outlives what happens on one side of it
  IsSplit-left :
      (x : A) (left lt gt right : ℕ) (t u : List A)
      → left < lt
      → lt ≤ gt
      → IsSplit d cmp x left lt gt right t
      → Within d left (lt - 1) t u
      → IsSplit d cmp x left lt gt right u
  IsSplit-left x left lt gt right t u p q h w =
      let small : (k : ℕ) → left ≤ k → k ≤ lt - 1 → not (gt0 (cmp (get_or u k d) x)) ≡ true =
        w.inside (λ y. not (gt0 (cmp y x))) (λ k a b. ground (arith, h.smaller k)) in
      record {
        smaller = λ k a b. ground (arith, small k, w.behind k, h.smaller k);
        greater = λ k a b. ground (arith, w.behind k, h.greater k);
      }

  IsSplit-right :
      (x : A) (left lt gt right : ℕ) (t u : List A)
      → lt ≤ gt
      → IsSplit d cmp x left lt gt right t
      → Within d (gt + 1) right t u
      → IsSplit d cmp x left lt gt right u
  IsSplit-right x left lt gt right t u p h w =
      let great : (k : ℕ) → gt + 1 ≤ k → k ≤ right → not (gt0 (cmp x (get_or u k d))) ≡ true =
        w.inside (λ y. not (gt0 (cmp x y))) (λ k a b. ground (arith, h.greater k)) in
      record {
        smaller = λ k a b. ground (arith, w.before k, h.smaller k);
        greater = λ k a b. ground (arith, great k, w.before k, h.greater k);
      }

  -- both sides in order around a split
  joined :
      (o : IsOrder cmp) (x : A) (left lt gt right : ℕ) (t : List A)
      → lt ≤ gt
      → IsSplit d cmp x left lt gt right t
      → ((i j : ℕ) → left ≤ i → i ≤ j → j < lt → Le cmp (get_or t i d) (get_or t j d))
      → ((i j : ℕ) → gt < i → i ≤ j → j ≤ right → Le cmp (get_or t i d) (get_or t j d))
      → IsRisingIn left right t
  joined o x left lt gt right t p h low high i j a b e =
      ground (
        arith,
        low i j,
        high i j,
        h.smaller i,
        h.greater j,
        o.trans (get_or t i d) x (get_or t j d),
      )

  -- a call that sorts the part of the span from `left` to `right`
  pub on_sub-IsRangeSort :
      (s : List A) (left right : ℕ) (f : List A → Exec (List A))
      → left ≤ right
      → right < length s
      → Returns
          (IsSortOf d cmp (take (right - left + 1) (drop left s)))
          (f (take (right - left + 1) (drop left s)))
      → Returns (IsRangeSort left right s) (Span.on_sub s left (right - left + 1) f)
  unfolding Span.on_sub
  on_sub-IsRangeSort s left right f p q (part, run, u) =
      let n = right - left + 1 in
      let inside : left + n ≤ length s = omega arith in
      let end : left + n - 1 ≡ right = omega arith in
      let at = get_or-with_part d s part left n inside u.same in
      let part_size : length part ≡ n =
        omega (arith, length-perm u.same, length-take n (drop left s), length-drop left s) in
      rw (Span.sub-done d s left n inside, run, append_assoc (take left s) part (drop (left + n) s))
        (
          _,
          refl,
          record {
            within = rw end at (with_part-Within d s part left n inside u.same (omega arith));
            rising =
                λ i j a b e. ground (arith, at i, at j, u.sorted (i - left) (j - left), part_size);
          },
        )

  module _ (o : IsOrder cmp) where
    heap_sort-IsSortOf :
        (s : List A)
        → Returns (IsSortOf d cmp s) (make_heap s cmp >>= λ heaped. sort_heap heaped cmp)
    heap_sort-IsSortOf s = Returns-bind _ _ (make_heap-Sifted d cmp o s) λ t u.
        Returns-map _
          (sort_heap-IsSortOf d cmp o t
            (λ c p q r. u.heap c p (omega (arith, length-perm u.same)) r))
          λ w v. record { sorted = v.sorted; same = Perm.trans v.same u.same }

    -- one round of the loop, its calls named `run`: both sides of a split in order
    module _ (run : List A → ℕ → ℕ → Exec (List A)) (s : List A) (x : A) (left lt gt right : ℕ)
        (sides : (t : List A) (from to : ℕ)
          → length t ≡ length s
          → left ≤ from
          → to ≤ right
          → to - from < right - left
          → Returns (IsRangeSort from to t) (run t from to))
        (some_range : left < right) (left_lt : left ≤ lt) (lt_gt : lt ≤ gt)
        (gt_right : gt ≤ right) where
      -- what stands after one call
      record IsHalf (from to : ℕ) (t : List A) : Type 0 where
        pub within : Within d left right s t
        pub split : IsSplit d cmp x left lt gt right t
        pub rising : IsRisingIn from to t

      low_side :
          (t : List A)
          → Within d left right s t
          → IsSplit d cmp x left lt gt right t
          → left < lt
          → Returns
              (λ u. IsHalf left (lt - 1) u × ((i : ℕ) → gt < i → get_or u i d ≡ get_or t i d))
              (run t left (lt - 1))
      low_side t w h p =
          Returns-map _
            (sides t left (lt - 1) (length-perm w.same) (omega arith) (omega arith) (omega arith))
            λ u a. (
              record {
                within =
                    Within-trans d w
                      (Within-widen d left right (omega arith) (omega arith) a.within);
                split = IsSplit-left x left lt gt right t u p lt_gt h a.within;
                rising = a.rising;
              },
              λ i q. a.within.behind i (omega arith),
            )

      high_side :
          (t : List A)
          → Within d left right s t
          → IsSplit d cmp x left lt gt right t
          → Returns
              (λ u. IsHalf (gt + 1) right u × ((i : ℕ) → i < lt → get_or u i d ≡ get_or t i d))
              (run t (gt + 1) right)
      high_side t w h =
          Returns-map _
            (sides t (gt + 1) right (length-perm w.same) (omega arith) (omega arith) (omega arith))
            λ u a. (
              record {
                within =
                    Within-trans d w
                      (Within-widen d left right (omega arith) (omega arith) a.within);
                split = IsSplit-right x left lt gt right t u lt_gt h a.within;
                rising = a.rising;
              },
              λ i q. a.within.before i (omega arith),
            )

      both_sides :
          (t : List A)
          → Within d left right s t
          → IsSplit d cmp x left lt gt right t
          → ((i j : ℕ) → left ≤ i → i ≤ j → j < lt → Le cmp (get_or t i d) (get_or t j d))
          → ((i j : ℕ) → gt < i → i ≤ j → j ≤ right → Le cmp (get_or t i d) (get_or t j d))
          → IsRangeSort left right s t
      both_sides t w h low high = record {
        within = w;
        rising = joined o x left lt gt right t lt_gt h low high;
      }

      left_first :
          (t : List A)
          → Within d left right s t
          → IsSplit d cmp x left lt gt right t
          → Returns
              (IsRangeSort left right s)
              ((if ltb left lt then run t left (lt - 1) else done t) >>= λ u. run u (gt + 1) right)
      left_first t w h =
          Returns-bind _ _
            (Returns-if {P = λ u. IsHalf left (lt - 1) u} (ltb left lt)
              (λ some_low. Returns-map _ (low_side t w h (ltb→lt _ _ some_low)) λ u a. a.0)
              (λ no_low. (
                t,
                refl,
                record {
                  within = w;
                  split = h;
                  rising = λ i j a b e. ground (arith, Le_refl o (get_or t i d));
                },
              )))
            λ u a. Returns-map _ (high_side u a.within a.split) λ v b.
              both_sides v b.0.within b.0.split
                (λ i j m n q. ground (arith, a.rising i j, b.1 i, b.1 j))
                (λ i j m n q. b.0.rising i j (omega arith) n q)

      right_first :
          (t : List A)
          → Within d left right s t
          → IsSplit d cmp x left lt gt right t
          → Returns (IsRangeSort left right s) (
              (if ltb gt right then run t (gt + 1) right else done t) >>= λ u.
              if lt == left then done u else run u left (lt - 1))
      right_first t w h =
          Returns-bind _ _
            (Returns-if {P = λ u. IsHalf (gt + 1) right u} (ltb gt right)
              (λ some_high. Returns-map _ (high_side t w h) λ u a. a.0)
              (λ no_high. (
                t,
                refl,
                record { within = w; split = h; rising = λ i j a b e. absurd (ground arith) },
              )))
            λ u a.
              Returns-if (lt == left)
                (λ no_low. (
                  u,
                  refl,
                  both_sides u a.within a.split (λ i j m n q. absurd (ground arith))
                      (λ i j m n q. a.rising i j (omega arith) n q),
                ))
                (λ some_low. Returns-map _ (low_side u a.within a.split (ground arith)) λ v b.
                  both_sides v b.0.within b.0.split (λ i j m n q. b.0.rising i j m n (omega arith))
                    (λ i j m n q. ground (arith, a.rising i j, b.1 i, b.1 j)))

    quicksort-IsRangeSort :
        (fuel elem_size : ℕ) (s : List A) (left right depth : ℕ)
        → right < length s
        → right - left < fuel
        → Returns (IsRangeSort left right s) (quicksort fuel elem_size s left right depth cmp)
    unfolding quicksort
    quicksort-IsRangeSort zero elem_size s left right depth p f = absurd (omega arith)
    quicksort-IsRangeSort (suc fuel) elem_size s left right depth p f =
        Returns-if (not (ltb left right))
          (λ single. (
            s,
            refl,
            record {
              within = Within-refl d left right s;
              rising = λ i j a b e. ground (arith, Le_refl o (get_or s i d));
            },
          ))
          (λ more.
            Returns-if (leb (right - left + 1) insertion_threshold)
              (λ short. on_sub-IsRangeSort s left right _ (ground arith) p (
                Returns-map _ (insertion_sort-IsStableSort d cmp o elem_size _) λ t u. record {
                  sorted = λ i j a b. u.sorted i j a (omega (arith, length-perm u.same));
                  same = u.same;
                }))
              (λ long.
                Returns-if (depth == 0)
                  (λ bad. on_sub-IsRangeSort s left right _ (ground arith) p (heap_sort-IsSortOf _))
                  (λ good.
                    let some_range : left < right = ground arith in
                    Returns-bind _ _ (ninther-IsBetween d cmp s left right some_range p) λ pivot b.
                      Returns-bind _ _
                        (partition3-IsPartition d cmp o s left right pivot b.0 b.1 some_range p)
                        λ r u.
                          let sides : (t : List A) (from to : ℕ)
                              → length t ≡ length s
                              → left ≤ from
                              → to ≤ right
                              → to - from < right - left
                              → Returns (IsRangeSort from to t)
                                  (quicksort fuel elem_size t from to (depth - 1) cmp) =
                            λ t from to e m n q.
                              quicksort-IsRangeSort fuel elem_size t from to (depth - 1)
                                (omega arith) (omega arith) in
                          let run : List A → ℕ → ℕ → Exec (List A) =
                            λ t from to. quicksort fuel elem_size t from to (depth - 1) cmp in
                          Returns-if (ltb (r.0.lt - left) (right - r.0.gt))
                            (λ shorter.
                              left_first run s u.x left (r.0.lt) (r.0.gt) right sides some_range
                                u.left_lt u.lt_gt u.gt_right r.1 u.within u.split)
                            (λ longer.
                              right_first run s u.x left (r.0.lt) (r.0.gt) right sides some_range
                                u.left_lt u.lt_gt u.gt_right r.1 u.within u.split))))

    -- sort returns the span sorted, whatever the pivots and the depth do.
    pub sort-IsSortOf :
        (elem_size : ℕ) (s : List A) → Returns (IsSortOf d cmp s) (sort elem_size s cmp)
    unfolding sort depth_limit
    sort-IsSortOf elem_size s =
        Returns-if (ltb (length s) 2)
          (λ short. (
            s,
            refl,
            record {
              sorted = λ i j p q. ground (arith, Le_refl o (get_or s i d));
              same = Perm.rfl;
            },
          ))
          (λ long. rw (lt→ltb 1 (length s) (ground arith)) (
            Returns-map _
              (quicksort-IsRangeSort (length s) elem_size s 0 (length s - 1) _ (ground arith)
                (ground arith))
              λ t u. record {
                sorted = λ i j p q.
                    u.rising i j (omega arith) p (omega (arith, length-perm u.within.same));
                same = u.within.same;
              }))

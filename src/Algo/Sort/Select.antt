-- ===== src/Algo/Sort/Select.antt =====
-- The selections of src/algo/sort.c: nth_elem and partial_sort.
use mathlib.Core.List.Perm
use c_nad.Core.Span
use c_nad.Core.Cmp.{Cmp, Le, IsOrder, Le_refl}
use c_nad.Core.Int.{gt0}
use c_nad.Prelude.Array.{length-perm, get_or}
use c_nad.Prelude.{
  ℕ, zero, suc, ◌+◌, ◌-◌, ◌≤◌, ◌<◌, ◌≡◌, refl, ◌||◌, not, List, Perm, arith, ltb, leb, ◌==◌,
  if◌then◌else◌, lt→ltb, le→leb, length, Exec, done, spent, ◌>>=◌, ◌>>◌, check, Returns,
  Returns-bind, Returns-map, Returns-if,
}
use c_nad.Algo.Sort.{partition3, ninther, depth_limit, sort}
use c_nad.Algo.Sort.Within.{Within}
use c_nad.Algo.Sort.Partition.{IsSplit, ninther-IsBetween, partition3-IsPartition}
use c_nad.Algo.Sort.Quick.{on_sub-IsRangeSort, sort-IsSortOf}

module _ {A : Type 0} where
  -- the loop of tda_span_nth_elem
  nth_elem_from : ℕ → ℕ → List A → ℕ → ℕ → ℕ → ℕ → Cmp A → Exec (List A)
  nth_elem_from zero elem_size s nth left right depth cmp = spent
  nth_elem_from (suc fuel) elem_size s nth left right depth cmp =
      let sort_rest : Exec (List A) =
        Span.on_sub s left (right - left + 1) (λ part. sort elem_size part cmp) in
      let round : Exec (List A) = do
        pivot_idx ← ninther s left right cmp
        (p, t) ← partition3 s left right pivot_idx cmp
        let below = nth_elem_from fuel elem_size t nth left (p.lt - 1) (depth - 1) cmp
        let above = nth_elem_from fuel elem_size t nth (p.gt + 1) right (depth - 1) cmp
        if ltb nth p.lt then below else if ltb p.gt nth then above else done t
      in if not (ltb left right) then done s else if depth == 0 then sort_rest else round

  -- tda_span_nth_elem
  pub nth_elem : ℕ → List A → ℕ → Cmp A → Exec (List A)
  unfolding nth_elem_from
  nth_elem elem_size s nth cmp =
      let all : Exec (List A) = do
        depth ← depth_limit (length s)
        nth_elem_from (length s) elem_size s nth 0 (length s - 1) depth cmp
      in do check (ltb nth (length s)); if ltb (length s) 2 then done s else all

  -- tda_span_partial_sort
  pub partial_sort : ℕ → List A → ℕ → Cmp A → Exec (List A)
  unfolding nth_elem
  partial_sort elem_size s count cmp =
      let least : Exec (List A) = do
        t ← nth_elem elem_size s count cmp
        Span.on_sub t 0 count (λ part. sort elem_size part cmp)
      in do
        check (leb count (length s))
        if count == 0 || ltb (length s) 2
            then done s
            else if leb (length s) count
            then sort elem_size s cmp
            else least

module _ {A : Type 0} (d : A) (cmp : Cmp A) where
  -- no entry of the first `n` comes after one behind them
  abbrev pub IsDivided : ℕ → List A → Type 0
  IsDivided n s = (i j : ℕ) → i < n → n ≤ j → j < length s → Le cmp (get_or s i d) (get_or s j d)

  -- `t` is `s` with the entry at `nth` in its place, none greater before it and none smaller behind it
  pub record IsSelection (nth : ℕ) (s t : List A) : Type 0 where
    pub same : Perm t s
    pub before : (i : ℕ) → i ≤ nth → Le cmp (get_or t i d) (get_or t nth d)
    pub behind : (i : ℕ) → nth ≤ i → i < length t → Le cmp (get_or t nth d) (get_or t i d)

  -- the range from `left` to `right` lies between what is before and behind it
  record IsParted (left right : ℕ) (s : List A) : Type 0 where
    pub below : IsDivided left s
    pub above : IsDivided (right + 1) s

  Within-IsParted :
      (left right : ℕ) (s t : List A)
      → right < length s
      → left ≤ right
      → Within d left right s t
      → IsParted left right s
      → IsParted left right t
  Within-IsParted left right s t p q w h =
      let size = length-perm w.same in
      record {
        below = λ i j a b e.
            let kept =
              w.inside (λ y. not (gt0 (cmp (get_or s i d) y)))
                (λ k m n. ground (arith, h.below i k)) j b in
            ground (arith, w.before i, w.behind j, kept, h.below i j, size);
        above = λ i j a b e.
            let kept =
              w.inside (λ y. not (gt0 (cmp y (get_or s j d))))
                (λ k m n. ground (arith, h.above k j, size)) i in
            ground (arith, w.before i, w.behind j, kept, h.above i j, size);
      }

  module _ (o : IsOrder cmp) where
    -- a split divides the span at both of its ends
    split-IsDivided :
        (x : A) (left lt gt right n : ℕ) (t : List A)
        → left ≤ n
        → lt ≤ n
        → n ≤ gt + 1
        → gt ≤ right
        → IsParted left right t
        → IsSplit d cmp x left lt gt right t
        → IsDivided n t
    split-IsDivided x left lt gt right n t p q r z h w i j a b e = ground (
      arith,
      h.below i j,
      h.above i j,
      w.smaller i,
      w.greater j,
      o.trans (get_or t i d) x (get_or t j d),
    )

    nth_elem_from-IsSelection :
        (fuel elem_size : ℕ) (s : List A) (nth left right depth : ℕ)
        → right < length s
        → left ≤ nth
        → nth ≤ right
        → right - left < fuel
        → IsParted left right s
        → Returns (IsSelection nth s) (nth_elem_from fuel elem_size s nth left right depth cmp)
    unfolding nth_elem_from
    nth_elem_from-IsSelection zero elem_size s nth left right depth p a b f h = absurd (omega arith)
    nth_elem_from-IsSelection (suc fuel) elem_size s nth left right depth p a c f h =
        Returns-if (not (ltb left right))
          (λ single. (
            s,
            refl,
            record {
              same = Perm.rfl;
              before = λ i q. ground (arith, Le_refl o (get_or s i d), h.below i nth);
              behind = λ i q r. ground (arith, Le_refl o (get_or s i d), h.above nth i);
            },
          ))
          (λ more.
            Returns-if (depth == 0)
              (λ bad.
                Returns-map _
                  (on_sub-IsRangeSort d cmp s left right _ (ground arith) p
                    (sort-IsSortOf d cmp o elem_size _))
                  λ t u.
                    let g = Within-IsParted left right s t p (omega arith) u.within h in
                    let size = length-perm u.within.same in
                    record {
                      same = u.within.same;
                      before = λ i q. ground (arith, u.rising i nth, g.below i nth, size);
                      behind = λ i q r. ground (arith, u.rising nth i, g.above nth i);
                    })
              (λ good.
                let some_range : left < right = ground arith in
                Returns-bind _ _ (ninther-IsBetween d cmp s left right some_range p) λ pivot b.
                  Returns-bind _ _
                    (partition3-IsPartition d cmp o s left right pivot b.0 b.1 some_range p)
                    λ r u.
                      let x = u.x in
                      let lt = r.0.lt in
                      let gt = r.0.gt in
                      let t = r.1 in
                      let size = length-perm u.within.same in
                      let g = Within-IsParted left right s t p (omega arith) u.within h in
                      let parted : (n : ℕ) → left ≤ n → lt ≤ n → n ≤ gt + 1 → IsDivided n t =
                        λ n l m q.
                          split-IsDivided x left lt gt right n t l m q u.gt_right g u.split in
                      let of_t : (w : List A) → IsSelection nth t w → IsSelection nth s w = λ w v.
                        record {
                          same = Perm.trans v.same u.within.same;
                          before = v.before;
                          behind = v.behind;
                        } in
                      Returns-if (ltb nth lt)
                        (λ low.
                          let end : lt - 1 + 1 ≡ lt = ground arith in
                          Returns-map _
                            (nth_elem_from-IsSelection fuel elem_size t nth left (lt - 1)
                              (depth - 1) (omega (arith, size, u.lt_gt, u.gt_right)) a
                              (ground arith) (ground (arith, u.lt_gt, u.gt_right))
                              (record {
                                below = g.below;
                                above =
                                    rw end
                                      (parted lt u.left_lt (omega arith) (omega (arith, u.lt_gt)));
                              }))
                            of_t)
                        (λ not_low.
                          Returns-if (ltb gt nth)
                            (λ high.
                              Returns-map _
                                (nth_elem_from-IsSelection fuel elem_size t nth (gt + 1) right
                                  (depth - 1) (omega (arith, size)) (ground arith) c
                                  (ground (arith, u.left_lt, u.lt_gt))
                                  (record {
                                    below =
                                        parted (gt + 1) (omega (arith, u.left_lt, u.lt_gt))
                                          (omega (arith, u.lt_gt)) (omega arith);
                                    above = g.above;
                                  }))
                                of_t)
                            (λ inside. (
                              t,
                              refl,
                              of_t t (record {
                                same = Perm.rfl;
                                before = λ i q. ground (
                                  arith,
                                  g.below i nth,
                                  u.split.smaller i,
                                  u.split.greater nth,
                                  o.trans (get_or t i d) x (get_or t nth d),
                                  size,
                                );
                                behind = λ i q e. ground (
                                  arith,
                                  g.above nth i,
                                  u.split.smaller nth,
                                  u.split.greater i,
                                  o.trans (get_or t nth d) x (get_or t i d),
                                );
                              }),
                            )))))

    -- nth_elem returns the span with the entry at `nth` where sorting would put it: none before it is
    -- greater, none behind it smaller.
    pub nth_elem-IsSelection :
        (elem_size : ℕ) (s : List A) (nth : ℕ)
        → nth < length s
        → Returns (IsSelection nth s) (nth_elem elem_size s nth cmp)
    unfolding nth_elem depth_limit
    nth_elem-IsSelection elem_size s nth p = rw (lt→ltb nth (length s) p) (
        Returns-if (ltb (length s) 2)
          (λ short. (
            s,
            refl,
            record {
              same = Perm.rfl;
              before = λ i q. ground (arith, Le_refl o (get_or s i d));
              behind = λ i q e. ground (arith, Le_refl o (get_or s i d));
            },
          ))
          (λ long. rw (lt→ltb 1 (length s) (ground arith)) (
            nth_elem_from-IsSelection (length s) elem_size s nth 0 (length s - 1) _ (omega arith)
              (omega arith) (omega arith) (omega arith)
              (record {
                below = λ i j a b e. absurd (omega arith);
                above = λ i j a b e. absurd (omega arith);
              }))))

  -- `t` is `s` with its `n` least entries in front, in order
  pub record IsPartialSort (n : ℕ) (s t : List A) : Type 0 where
    pub same : Perm t s
    pub sorted : (i j : ℕ) → i ≤ j → j < n → Le cmp (get_or t i d) (get_or t j d)
    pub least : IsDivided n t

  module _ (o : IsOrder cmp) where
    -- partial_sort returns the span with its `count` least entries in front, in order.
    pub partial_sort-IsPartialSort :
        (elem_size : ℕ) (s : List A) (count : ℕ)
        → count ≤ length s
        → Returns (IsPartialSort count s) (partial_sort elem_size s count cmp)
    unfolding partial_sort
    partial_sort-IsPartialSort elem_size s count p = rw (le→leb count (length s) p) (
        Returns-if (count == 0 || ltb (length s) 2)
          (λ little. (
            s,
            refl,
            record {
              same = Perm.rfl;
              sorted = λ i j a b. ground (arith, Le_refl o (get_or s i d));
              least = λ i j a b e. absurd (ground arith);
            },
          ))
          (λ more.
            Returns-if (leb (length s) count)
              (λ all. Returns-map _ (sort-IsSortOf d cmp o elem_size s) λ t u. record {
                same = u.same;
                sorted = λ i j a b. u.sorted i j a (omega (arith, length-perm u.same));
                least = λ i j a b e. absurd (ground (arith, length-perm u.same));
              })
              (λ some_rest.
                Returns-bind _ _ (nth_elem-IsSelection o elem_size s count (ground arith)) λ t u.
                  let n : count - 1 - 0 + 1 ≡ count = ground arith in
                  Returns-map _
                    (rw n at (
                      on_sub-IsRangeSort d cmp t 0 (count - 1) (λ part. sort elem_size part cmp)
                        (omega arith) (ground (arith, length-perm u.same))
                        (sort-IsSortOf d cmp o elem_size _)))
                    λ w v. record {
                      same = Perm.trans v.within.same u.same;
                      sorted = λ i j a b. v.rising i j (omega arith) a (omega arith);
                      least = λ i j a b e.
                          let kept =
                            v.within.inside (λ y. not (gt0 (cmp y (get_or t j d))))
                              (λ k m q. ground (
                                arith,
                                o.trans (get_or t k d) (get_or t count d) (get_or t j d),
                                u.before k,
                                u.behind j,
                                length-perm v.within.same,
                              ))
                              i (omega arith) (omega arith) in
                          ground (arith, kept, v.within.behind j);
                    })))

-- ===== src/Algo/Sort/Partition.antt =====
-- The three-way split around a pivot, and where the pivot is taken from.
use c_nad.Core.Span
use c_nad.Core.Cmp.{Cmp, Le, IsOrder, Le_refl, Le_of_lt0, Le_of_ge0}
use c_nad.Core.Int.{lt0, gt0}
use c_nad.Prelude.Array.{get_or, exchange, length-exchange, get_or-exchange}
use c_nad.Prelude.{
  ℕ, zero, suc, ◌+◌, ◌-◌, ◌≤◌, ◌<◌, ◌≡◌, refl, Bool, true, false, List, arith, leb, if◌then◌else◌,
  leb→le, le→leb, length, Exec, Returns, Returns-bind, Returns-map, Returns-if,
}
use c_nad.Algo.Sort.{Split, median3, ninther, partition3_from, partition3}
use c_nad.Algo.Sort.Within.{Within, Within-refl, Within-trans, Within-exchange}

module _ {A : Type 0} (d : A) (cmp : Cmp A) where
  -- an index from `left` to `right`
  abbrev pub IsBetween : ℕ → ℕ → ℕ → Type 0
  IsBetween left right i = (left ≤ i) × (i ≤ right)

  median3-IsBetween :
      (left right : ℕ) (s : List A) (a b c : ℕ)
      → right < length s
      → IsBetween left right a
      → IsBetween left right b
      → IsBetween left right c
      → Returns (IsBetween left right) (median3 s a b c cmp)
  unfolding median3
  median3-IsBetween left right s a b c p x y z =
      rw
        (
          Span.get-done d s a (omega (arith, x.1)),
          Span.get-done d s b (omega (arith, y.1)),
          Span.get-done d s c (omega (arith, z.1)),
        )
        (_, refl, one_of _ _)
    where
      one_of : (u v : Bool) → IsBetween left right (if u then a else if v then b else c)
      one_of true v = x
      one_of false true = y
      one_of false false = z

  -- the sampled pivot lies in the range
  pub ninther-IsBetween :
      (s : List A) (left right : ℕ)
      → left < right
      → right < length s
      → Returns (IsBetween left right) (ninther s left right cmp)
  unfolding ninther
  ninther-IsBetween s left right p q =
      Returns-bind _ _
        (median3-IsBetween left right s _ _ _ q (omega arith, omega arith)
          (omega arith, omega arith) (omega arith, omega arith))
        λ lo x.
          Returns-bind _ _
            (median3-IsBetween left right s _ _ _ q (omega arith, omega arith)
              (omega arith, omega arith) (omega arith, omega arith))
            λ md y.
              Returns-bind _ _
                (median3-IsBetween left right s _ _ _ q (omega arith, omega arith)
                  (omega arith, omega arith) (omega arith, omega arith))
                λ hi z. median3-IsBetween left right s lo md hi q x y z

  -- from `left` on no entry comes after `x`, from `lt` to `gt` they are equal to it, from there to
  -- `right` none comes before it
  pub record IsSplit (x : A) (left lt gt right : ℕ) (t : List A) : Type 0 where
    pub smaller : (k : ℕ) → left ≤ k → k ≤ gt → Le cmp (get_or t k d) x
    pub greater : (k : ℕ) → lt ≤ k → k ≤ right → Le cmp x (get_or t k d)

  -- the loop's state: `lo`, `i` and `hi` cut the range, and the part from `i` to `hi` is unknown
  record IsCut (x : A) (left lo i hi right : ℕ) (s : List A) : Type 0 where
    pub smaller : (k : ℕ) → left ≤ k → k < i → Le cmp (get_or s k d) x
    pub equal : (k : ℕ) → lo ≤ k → k < i → Le cmp x (get_or s k d)
    pub greater : (k : ℕ) → hi < k → k ≤ right → Le cmp x (get_or s k d)

  -- what partition3 returns
  pub record IsPartition (left right : ℕ) (s : List A) (r : Split × List A) : Type 0 where
    pub x : A
    pub split : IsSplit x left (r.0.lt) (r.0.gt) right r.1
    pub left_lt : left ≤ r.0.lt
    pub lt_gt : r.0.lt ≤ r.0.gt
    pub gt_right : r.0.gt ≤ right
    pub within : Within d left right s r.1

  module _ (o : IsOrder cmp) (x : A) (left right : ℕ) where
    after_swap :
        {s : List A} (i j : ℕ) {m : Exec (Split × List A)}
        → left ≤ i
        → i ≤ right
        → left ≤ j
        → j ≤ right
        → right < length s
        → Returns (IsPartition left right (exchange d s i j)) m
        → Returns (IsPartition left right s) m
    after_swap {s} i j a b e f p r = Returns-map _ r λ w u. record {
      x = u.x;
      split = u.split;
      left_lt = u.left_lt;
      lt_gt = u.lt_gt;
      gt_right = u.gt_right;
      within = Within-trans d (Within-exchange d left right s i j p a b e f) u.within;
    }

    partition3_from-IsPartition :
        (fuel : ℕ) (s : List A) (lo i hi : ℕ)
        → right < length s
        → left ≤ lo
        → lo < i
        → i ≤ hi + 1
        → hi ≤ right
        → hi + 1 - i < fuel
        → IsCut x left lo i hi right s
        → Returns (IsPartition left right s) (partition3_from fuel s lo i hi cmp)
    unfolding partition3_from
    partition3_from-IsPartition zero s lo i hi p a b c e f u = absurd (omega arith)
    partition3_from-IsPartition (suc fuel) s lo i hi p a b c e f u =
        Returns-if (leb i hi)
          (λ more.
            let in_hi : i ≤ hi = leb→le _ _ more in
            let y = get_or s i d in
            let z = get_or s lo d in
            let at_i = get_or-exchange d s i lo (omega arith) (omega arith) in
            let at_hi = get_or-exchange d s i hi (omega arith) (omega arith) in
            let z_x : Le cmp z x = u.smaller lo a b in
            let x_z : Le cmp x z = u.equal lo (omega arith) b in
            let y_x : lt0 (cmp y z) ≡ true → Le cmp y x =
              λ h. o.trans y z x (Le_of_lt0 o y z h) z_x in
            let x_y : lt0 (cmp y z) ≡ false → Le cmp x y =
              λ h. o.trans x z y x_z (Le_of_ge0 o y z h) in
            let i_smaller : gt0 (cmp y z) ≡ false → Le cmp y x = λ h. o.trans y z x h z_x in
            rw (Span.get-done d s i (ground arith), Span.get-done d s lo (omega arith))
              (Returns-if (lt0 (cmp y z))
                (λ small. rw (Span.swap_elems-done d s i lo (omega arith) (omega arith)) (
                  after_swap i lo (omega arith) (omega arith) (omega arith) (omega arith) p (
                    partition3_from-IsPartition fuel (exchange d s i lo) (lo + 1) (i + 1) hi
                      (omega (arith, length-exchange d s i lo)) (omega arith) (omega arith)
                      (ground arith) e (ground arith)
                      (record {
                        smaller =
                            λ k m n. ground (arith, at_i k, u.smaller k, u.smaller lo, y_x small);
                        equal = λ k m n. ground (arith, at_i k, u.equal k, u.equal lo);
                        greater = λ k m n. ground (arith, at_i k, u.greater k);
                      }))))
                (λ not_small.
                  Returns-if (gt0 (cmp y z))
                    (λ great. rw (Span.swap_elems-done d s i hi (omega arith) (omega arith)) (
                      after_swap i hi (omega arith) (omega arith) (omega arith) (omega arith) p (
                        partition3_from-IsPartition fuel (exchange d s i hi) lo i (hi - 1)
                          (omega (arith, length-exchange d s i hi)) a b (ground arith) (omega arith)
                          (ground arith)
                          (record {
                            smaller = λ k m n. ground (arith, at_hi k, u.smaller k);
                            equal = λ k m n. ground (arith, at_hi k, u.equal k);
                            greater = λ k m n. ground (arith, at_hi k, u.greater k, x_y not_small);
                          }))))
                    (λ same.
                      partition3_from-IsPartition fuel s lo (i + 1) hi p a (omega arith)
                        (ground arith) e (ground arith)
                        (record {
                          smaller = λ k m n. ground (arith, u.smaller k, i_smaller same);
                          equal = λ k m n. ground (arith, u.equal k, x_y not_small);
                          greater = u.greater;
                        })))))
          (λ end. (
            _,
            refl,
            record {
              x = x;
              split = record {
                smaller = λ k m n. u.smaller k m (ground arith);
                greater = λ k m n. ground (arith, u.equal k, u.greater k);
              };
              left_lt = a;
              lt_gt = ground arith;
              gt_right = e;
              within = Within-refl d left right s;
            },
          ))

  -- partition3 returns the range rearranged around its pivot: what does not come after it, then what
  -- is equal to it, then what does not come before it.
  pub partition3-IsPartition :
      (o : IsOrder cmp) (s : List A) (left right pivot_idx : ℕ)
      → left ≤ pivot_idx
      → pivot_idx ≤ right
      → left < right
      → right < length s
      → Returns (IsPartition left right s) (partition3 s left right pivot_idx cmp)
  unfolding partition3
  partition3-IsPartition o s left right pivot_idx a b c p =
      let x = get_or s pivot_idx d in
      let t = exchange d s left pivot_idx in
      let moved = get_or-exchange d s left pivot_idx (omega arith) (omega arith) in
      let pivot : get_or t left d ≡ x = ground (arith, moved left) in
      rw
        (
          le→leb left pivot_idx a,
          le→leb pivot_idx right b,
          Span.swap_elems-done d s left pivot_idx (omega arith) (omega arith),
        )
        (after_swap o x left right left pivot_idx (omega arith) (omega arith) a b p (
          partition3_from-IsPartition o x left right (right - left + 1) t left (left + 1) right
            (omega (arith, length-exchange d s left pivot_idx)) (omega arith) (omega arith)
            (omega arith) (omega arith) (omega arith)
            (record {
              smaller = λ k m n. ground (arith, pivot, Le_refl o x);
              equal = λ k m n. ground (arith, pivot, Le_refl o x);
              greater = λ k m n. absurd (omega arith);
            })))

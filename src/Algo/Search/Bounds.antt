-- ===== src/Algo/Search/Bounds.antt =====
-- The halving searches: where the returned index lies, and what stands on either side of it.
use c_nad.Core.Span
use c_nad.Core.Cmp.{Cmp, Le, IsOrder}
use c_nad.Core.Int.{lt0, gt0, le0, eq0}
use c_nad.Prelude.Array.{get_or, get_or-take, get_or-drop}
use c_nad.Prelude.{
  ℕ, zero, suc, ◌+◌, ◌-◌, ◌/◌, ◌≤◌, ◌<◌, ◌≡◌, refl, ◌∙◌, inl, inr, Bool, true, false, Option, none,
  some, List, arith, ltb, leb, if◌then◌else◌, Bool-cases, length, take, drop, length-take,
  length-drop, Returns, Returns-bind, Returns-if,
}
use c_nad.Algo.Search.{
  Range, halve, lower_bound, upper_bound, partition_point, binary_search, equal_range,
}

module _ {A : Type 0} (d : A) where
  -- once the test fails it fails for all later entries
  abbrev pub IsPartitioned : (A → Bool) → List A → Type 0
  IsPartitioned right s =
      (i j : ℕ) → i ≤ j → j < length s → right (get_or s i d) ≡ false → right (get_or s j d) ≡ false

  -- `p` is where the test changes
  pub record IsBoundary (right : A → Bool) (s : List A) (p : ℕ) : Type 0 where
    pub inside : p ≤ length s
    pub before : (i : ℕ) → i < p → right (get_or s i d) ≡ true
    pub after : (i : ℕ) → p ≤ i → i < length s → right (get_or s i d) ≡ false

  module _ (right : A → Bool) (s : List A) (part : IsPartitioned right s) where
    halve-IsBoundary :
        (fuel lo hi : ℕ)
        → hi - lo < fuel
        → lo ≤ hi
        → hi ≤ length s
        → ((i : ℕ) → i < lo → right (get_or s i d) ≡ true)
        → ((i : ℕ) → hi ≤ i → i < length s → right (get_or s i d) ≡ false)
        → Returns (IsBoundary right s) (halve right s fuel lo hi)
    unfolding halve
    halve-IsBoundary zero lo hi f le in_s below above = elim f [ ]
    halve-IsBoundary (suc fuel) lo hi f le in_s below above =
        let mid = lo + (hi - lo) / 2 in
        Returns-if (ltb lo hi)
          (λ more.
            let inner : mid < length s = ground arith in
            rw (Span.get-done d s mid inner) (
              Returns-if (right (get_or s mid d))
                (λ e.
                  halve-IsBoundary fuel (mid + 1) hi (ground arith) (ground arith) in_s
                    (λ i p. ground (arith, part i mid (omega arith) inner)) above)
                (λ e.
                  halve-IsBoundary fuel lo mid (ground arith) (ground arith) (ground arith) below
                    (λ i p q. part mid i p q e))))
          (λ end. (
            lo,
            refl,
            record {
              inside = omega arith;
              before = below;
              after = λ i p q. above i (ground arith) q;
            },
          ))

    -- partition_point returns the one index where the predicate stops holding, if it holds for no
    -- entry after one for which it fails.
    pub partition_point-IsBoundary : Returns (IsBoundary right s) (partition_point s right)
    unfolding partition_point
    partition_point-IsBoundary =
        halve-IsBoundary (length s + 1) 0 (length s) (omega arith) (omega arith) (omega arith)
          (λ i p. absurd (omega arith)) (λ i p q. absurd (omega arith))

  module _ (cmp : Cmp A) where
    abbrev pub IsSorted : List A → Type 0
    IsSorted s = (i j : ℕ) → i ≤ j → j < length s → Le cmp (get_or s i d) (get_or s j d)

    -- What binary_search reports: the first entry equal to the key, or that there is none.
    abbrev pub Finds : List A → A → Option ℕ → Type 0
    Finds s key none = (i : ℕ) → i < length s → eq0 (cmp (get_or s i d) key) ≡ false
    Finds s key (some p) =
        (p < length s)
        × (eq0 (cmp (get_or s p d) key) ≡ true)
        × ((i : ℕ) → i < p → lt0 (cmp (get_or s i d) key) ≡ true)

    -- What equal_range reports: the smaller entries, the equal ones, the greater ones.
    pub record IsEqualRange (s : List A) (key : A) (r : Range) : Type 0 where
      pub ordered : r.lo ≤ r.hi
      pub inside : r.hi ≤ length s
      pub smaller : (i : ℕ) → i < r.lo → lt0 (cmp (get_or s i d) key) ≡ true
      pub equal : (i : ℕ) → r.lo ≤ i → i < r.hi → eq0 (cmp (get_or s i d) key) ≡ true
      pub greater : (i : ℕ) → r.hi ≤ i → i < length s → gt0 (cmp (get_or s i d) key) ≡ true

  module _ (cmp : Cmp A) (o : IsOrder cmp) where
    module _ (s : List A) (key : A) (sorted : IsSorted cmp s) where
      lower-IsPartitioned : IsPartitioned (λ x. lt0 (cmp x key)) s
      lower-IsPartitioned i j p q e =
          let x = get_or s i d in
          let y = get_or s j d in
          ground (arith, o.flip x key, o.flip y key, o.trans key x y, sorted i j p q)

      upper-IsPartitioned : IsPartitioned (λ x. le0 (cmp x key)) s
      upper-IsPartitioned i j p q e =
          let x = get_or s i d in
          let y = get_or s j d in ground (arith, o.trans x y key, sorted i j p q)

      -- lower_bound returns the index between the entries before the key and those that are not.
      pub lower_bound-IsBoundary :
          Returns (IsBoundary (λ x. lt0 (cmp x key)) s) (lower_bound s key cmp)
      unfolding lower_bound
      lower_bound-IsBoundary =
          halve-IsBoundary (λ x. lt0 (cmp x key)) s lower-IsPartitioned (length s + 1) 0 (length s)
            (omega arith) (omega arith) (omega arith) (λ i p. absurd (omega arith))
            (λ i p q. absurd (omega arith))

      -- upper_bound returns the index between the entries not after the key and those after it.
      pub upper_bound-IsBoundary :
          Returns (IsBoundary (λ x. le0 (cmp x key)) s) (upper_bound s key cmp)
      unfolding upper_bound
      upper_bound-IsBoundary =
          halve-IsBoundary (λ x. le0 (cmp x key)) s upper-IsPartitioned (length s + 1) 0 (length s)
            (omega arith) (omega arith) (omega arith) (λ i p. absurd (omega arith))
            (λ i p q. absurd (omega arith))

      found_of :
          (p : ℕ)
          → IsBoundary (λ x. lt0 (cmp x key)) s p
          → p < length s
          → Finds cmp s key (if eq0 (cmp (get_or s p d) key) then some p else none)
      found_of p b h = elim (Bool-cases (eq0 (cmp (get_or s p d) key))) [
        | inl e ↦ rw e (h, e, b.before)
        | inr e ↦ rw e (λ i q. elim (Bool-cases (ltb i p)) [
          | inl before ↦ ground (arith, b.before i)
          | inr after ↦
              let x = get_or s p d in
              let y = get_or s i d in
              ground (
                arith,
                b.after p,
                o.flip x key,
                o.flip y key,
                o.trans x y key,
                sorted p i (ground arith) q,
              )
        ])
      ]

      -- On a sorted span binary_search returns the first entry equal to the key, and false exactly
      -- when no entry is equal to it.
      pub binary_search-Finds : Returns (Finds cmp s key) (binary_search s key cmp)
      unfolding binary_search
      binary_search-Finds = Returns-bind (lower_bound s key cmp) _ lower_bound-IsBoundary λ p b.
          Returns-if (leb (length s) p) (λ out. (none, refl, λ i q. ground (arith, b.before i)))
            (λ in_s.
              let h : p < length s = ground arith in
              rw (Span.get-done d s p h) (_, refl, found_of p b h))

    -- the part of a sorted span from `lo` on, which equal_range searches again
    tail-entry :
        (s : List A) (lo i : ℕ)
        → i < length s - lo
        → get_or (take (length s - lo) (drop lo s)) i d ≡ get_or s (lo + i) d
    tail-entry s lo i h = get_or-take d (length s - lo) (drop lo s) i h ∙ get_or-drop d lo s i

    length-tail :
        (s : List A) (lo : ℕ)
        → lo ≤ length s
        → length (take (length s - lo) (drop lo s)) ≡ length s - lo
    length-tail s lo h = omega (arith, length-take (length s - lo) (drop lo s), length-drop lo s)

    module _ (s : List A) (key : A) (sorted : IsSorted cmp s) where
      tail-IsSorted : (lo : ℕ) → lo ≤ length s → IsSorted cmp (take (length s - lo) (drop lo s))
      tail-IsSorted lo h i j p q =
          let q' : j < length s - lo = omega (arith, length-tail s lo h) in
          rw (tail-entry s lo i (omega arith), tail-entry s lo j q')
            (sorted (lo + i) (lo + j) (omega arith) (omega arith))

      join-IsEqualRange :
          (lo n : ℕ)
          → IsBoundary (λ x. lt0 (cmp x key)) s lo
          → IsBoundary (λ x. le0 (cmp x key)) (take (length s - lo) (drop lo s)) n
          → IsEqualRange cmp s key (record { lo = lo; hi = lo + n })
      join-IsEqualRange lo n b c =
          let size = length-tail s lo b.inside in
          record {
            ordered = omega arith;
            inside = omega (arith, size, b.inside, c.inside);
            smaller = b.before;
            equal = λ i p q. ground (
              arith,
              size,
              c.inside,
              b.inside,
              b.after i,
              c.before (i - lo),
              tail-entry s lo (i - lo),
            );
            greater =
                λ i p q. ground (arith, size, b.inside, c.after (i - lo), tail-entry s lo (i - lo));
          }

      -- On a sorted span equal_range splits the entries into those before the key, those equal to
      -- it and those after it.
      pub equal_range-IsEqualRange : Returns (IsEqualRange cmp s key) (equal_range s key cmp)
      unfolding equal_range
      equal_range-IsEqualRange =
          Returns-bind (lower_bound s key cmp) _ (lower_bound-IsBoundary s key sorted) λ lo b.
            let h = b.inside in
            rw (Span.sub-done d s lo (length s - lo) (omega arith)) (
              Returns-bind (upper_bound _ key cmp) _
                (upper_bound-IsBoundary _ key (tail-IsSorted lo h))
                λ n c. (_, refl, join-IsEqualRange lo n b c))

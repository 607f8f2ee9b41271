-- ===== src/Algo/Extreme.antt =====
-- min_elem, max_elem and minmax_elem of src/algo/search.c.
use c_nad.Core.Cmp.{Cmp, cmp_desc, Le, IsOrder, Le_refl, Le_of_lt0, cmp_desc-IsOrder}
use c_nad.Core.Int.{lt0, gt0}
use c_nad.Prelude.Array.{get_or}
use c_nad.Prelude.{
  ℕ, suc, ◌+◌, ◌<◌, ◌≡◌, refl, sym, ap, ◌∙◌, inl, inr, true, false, List, [], ◌∷◌, arith, ◌==◌,
  if◌then◌else◌, Bool-cases, length, Exec, done, trap, Returns,
}

-- tda_MinMax
pub record MinMax : Type 0 where
  pub min_at : ℕ
  pub max_at : ℕ

module _ {ℓ} {A : Type ℓ} where
  -- the loops, at index `i`; `best` is the index of the entry `best_p`
  min_from : Cmp A → ℕ → ℕ → A → List A → ℕ
  min_from cmp i best best_p [] = best
  min_from cmp i best best_p (cur ∷ s) =
      let take_it = lt0 (cmp cur best_p) in
      min_from cmp (i + 1) (if take_it then i else best) (if take_it then cur else best_p) s

  max_from : Cmp A → ℕ → ℕ → A → List A → ℕ
  max_from cmp i best best_p [] = best
  max_from cmp i best best_p (cur ∷ s) =
      let take_it = gt0 (cmp cur best_p) in
      max_from cmp (i + 1) (if take_it then i else best) (if take_it then cur else best_p) s

  minmax_from : Cmp A → ℕ → ℕ → A → ℕ → A → List A → MinMax
  minmax_from cmp i lo lo_p hi hi_p [] = record { min_at = lo; max_at = hi }
  minmax_from cmp i lo lo_p hi hi_p (cur ∷ s) =
      let less = lt0 (cmp cur lo_p) in
      let more = gt0 (cmp cur hi_p) in
      minmax_from cmp (i + 1) (if less then i else lo) (if less then cur else lo_p)
        (if more then i else hi) (if more then cur else hi_p) s

  -- tda_span_min_elem
  pub min_elem : List A → Cmp A → Exec ℕ
  min_elem [] cmp = trap
  min_elem (x ∷ s) cmp = done (min_from cmp 1 0 x s)

  -- tda_span_max_elem
  pub max_elem : List A → Cmp A → Exec ℕ
  max_elem [] cmp = trap
  max_elem (x ∷ s) cmp = done (max_from cmp 1 0 x s)

  -- tda_span_minmax_elem
  pub minmax_elem : List A → Cmp A → Exec MinMax
  minmax_elem [] cmp = trap
  minmax_elem (x ∷ s) cmp = done (minmax_from cmp 1 0 x 0 x s)

-- `k` is the first entry that no entry comes before
pub record IsMin {A : Type 0} (d : A) (cmp : Cmp A) (s : List A) (n k : ℕ) : Type 0 where
  pub inside : k < n
  pub least : (i : ℕ) → i < n → Le cmp (get_or s k d) (get_or s i d)
  pub first : (i : ℕ) → i < k → lt0 (cmp (get_or s k d) (get_or s i d)) ≡ true

-- `k` is the first entry that comes before no entry
pub record IsMax {A : Type 0} (d : A) (cmp : Cmp A) (s : List A) (n k : ℕ) : Type 0 where
  pub inside : k < n
  pub greatest : (i : ℕ) → i < n → Le cmp (get_or s i d) (get_or s k d)
  pub first : (i : ℕ) → i < k → gt0 (cmp (get_or s k d) (get_or s i d)) ≡ true

module _ {A : Type 0} (d : A) (cmp : Cmp A) (o : IsOrder cmp) (all : List A) where
  IsMin-keep :
      (n k : ℕ)
      → IsMin d cmp all n k
      → lt0 (cmp (get_or all n d) (get_or all k d)) ≡ false
      → IsMin d cmp all (n + 1) k
  IsMin-keep n k v e = record {
    inside = omega (arith, v.inside);
    least = λ i p. elim (Bool-cases (i == n)) [
      | inl s ↦ ground (arith, o.flip (get_or all n d) (get_or all k d))
      | inr s ↦ v.least i (ground arith)
    ];
    first = v.first;
  }

  IsMin-step :
      (n k : ℕ)
      → IsMin d cmp all n k
      → lt0 (cmp (get_or all n d) (get_or all k d)) ≡ true
      → IsMin d cmp all (n + 1) n
  IsMin-step n k v e =
      let x = get_or all n d in
      let b = get_or all k d in
      record {
        inside = omega arith;
        least = λ i p. elim (Bool-cases (i == n)) [
          | inl s ↦ ground (arith, Le_refl o x)
          | inr s ↦ o.trans x b (get_or all i d) (Le_of_lt0 o x b e) (v.least i (ground arith))
        ];
        first = λ i p.
            let y = get_or all i d in
            ground (arith, o.flip x b, o.flip x y, o.flip b y, o.trans b y x, v.least i p);
      }

module _ {A : Type 0} (d : A) where
  min_from-IsMin :
      (cmp : Cmp A) (o : IsOrder cmp) (all : List A) (i k : ℕ) (s : List A)
      → IsMin d cmp all i k
      → ((j : ℕ) → j < length s → get_or all (i + j) d ≡ get_or s j d)
      → length all ≡ i + length s
      → IsMin d cmp all (length all) (min_from cmp i k (get_or all k d) s)
  unfolding min_from get_or
  min_from-IsMin cmp o all i k [] v same size = let e : length all ≡ i = omega arith in rw e v
  min_from-IsMin cmp o all i k (x ∷ s) v same size =
      let here : get_or all i d ≡ x =
        ap (λ k. get_or all k d) (omega arith) ∙ same 0 (omega arith) in
      let step = λ (j : ℕ) (p : j < length s).
        ap (λ k. get_or all k d) (shift i j) ∙ same (suc j) (omega arith) in
      rw (← here) (elim (Bool-cases (lt0 (cmp (get_or all i d) (get_or all k d)))) [
        | inl e ↦ rw e (
            min_from-IsMin cmp o all (i + 1) i s (IsMin-step d cmp o all i k v e) step
              (omega arith))
        | inr e ↦ rw e (
            min_from-IsMin cmp o all (i + 1) k s (IsMin-keep d cmp o all i k v e) step
              (omega arith))
      ])
    where
      shift : (i j : ℕ) → i + 1 + j ≡ i + suc j
      shift i j = omega arith

  max_from-desc :
      (cmp : Cmp A) (o : IsOrder cmp) (i k : ℕ) (b : A) (s : List A)
      → max_from cmp i k b s ≡ min_from (cmp_desc cmp) i k b s
  unfolding max_from min_from cmp_desc
  max_from-desc cmp o i k b [] = refl
  max_from-desc cmp o i k b (x ∷ s) = rw (o.flip b x) (max_from-desc cmp o (i + 1) _ _ s)

  minmax_from-pair :
      (cmp : Cmp A) (i lo hi : ℕ) (lo_p hi_p : A) (s : List A)
      → minmax_from cmp i lo lo_p hi hi_p s
        ≡ record { min_at = min_from cmp i lo lo_p s; max_at = max_from cmp i hi hi_p s }
  unfolding minmax_from min_from max_from
  minmax_from-pair cmp i lo hi lo_p hi_p [] = refl
  minmax_from-pair cmp i lo hi lo_p hi_p (x ∷ s) = minmax_from-pair cmp (i + 1) _ _ _ _ s

  module _ (cmp : Cmp A) (o : IsOrder cmp) (x : A) (s : List A) where
    min_from_start : IsMin d cmp (x ∷ s) (length (x ∷ s)) (min_from cmp 1 0 x s)
    unfolding get_or
    min_from_start =
        min_from-IsMin cmp o (x ∷ s) 1 0 s
          (record {
            inside = omega arith;
            least = λ i p. ap (λ k. gt0 (cmp x (get_or (x ∷ s) k d))) (only i p) ∙ Le_refl o x;
            first = λ i p. absurd (omega arith);
          })
          (λ j p. ap (λ k. get_or (x ∷ s) k d) (suc_lem j)) (omega arith)
      where
        only : (i : ℕ) → i < 1 → i ≡ 0
        only i p = omega arith

        suc_lem : (j : ℕ) → 1 + j ≡ suc j
        suc_lem j = omega arith

  IsMax-of_desc :
      (cmp : Cmp A) (o : IsOrder cmp) (s : List A) (n k : ℕ)
      → IsMin d (cmp_desc cmp) s n k
      → IsMax d cmp s n k
  unfolding cmp_desc
  IsMax-of_desc cmp o s n k v = record {
    inside = v.inside;
    greatest = v.least;
    first = λ i p. sym (o.flip (get_or s i d) (get_or s k d)) ∙ v.first i p;
  }

  max_from_start :
      (cmp : Cmp A) (o : IsOrder cmp) (x : A) (s : List A)
      → IsMax d cmp (x ∷ s) (length (x ∷ s)) (max_from cmp 1 0 x s)
  max_from_start cmp o x s =
      rw (max_from-desc cmp o 1 0 x s) (
        IsMax-of_desc cmp o (x ∷ s) _ _
          (min_from_start (cmp_desc cmp) (cmp_desc-IsOrder cmp o) x s))

  -- On a span that is not empty, min_elem returns the index of the first least entry, max_elem that
  -- of the first greatest, and minmax_elem both.
  pub min_elem-max_elem-minmax_elem :
      (cmp : Cmp A) (o : IsOrder cmp) (s : List A)
      → 0 < length s
      → Returns (IsMin d cmp s (length s)) (min_elem s cmp)
        × Returns (IsMax d cmp s (length s)) (max_elem s cmp)
        × Returns
            (λ r. IsMin d cmp s (length s) r.min_at × IsMax d cmp s (length s) r.max_at)
            (minmax_elem s cmp)
  unfolding min_elem max_elem minmax_elem
  min_elem-max_elem-minmax_elem cmp o [] h = absurd (omega arith)
  min_elem-max_elem-minmax_elem cmp o (x ∷ s) h =
      let low = min_from_start cmp o x s in
      let high = max_from_start cmp o x s in
      (
        (_, refl, low),
        (_, refl, high),
        (_, refl, rw (minmax_from-pair cmp 1 0 0 x x s) (low, high)),
      )

-- ===== src/Algo/Find/Sub.antt =====
-- find_sub and find_sub_last: the first and the last place where one span sits in another.
use c_nad.Core.Span
use c_nad.Prelude.Array.{get_or}
use c_nad.Prelude.{
  ℕ, zero, suc, ◌+◌, ◌-◌, ◌≤◌, ◌<◌, ◌≡◌, refl, ap, ◌∙◌, inl, inr, Bool, true, false, Option, none,
  some, List, [], ◌∷◌, arith, ltb, leb, ◌==◌, le→leb, Bool-cases, length, Returns, Returns-bind,
  Returns-if,
}
use c_nad.Algo.Find.{
  matches_from, matches_at, find_sub_from, find_sub, find_sub_last_from, find_sub_last,
}

module _ {A : Type 0} (d : A) (s : List A) (eq : A → A → Bool) where
  -- `sub` sits in `s` at `at`
  abbrev pub SitsAt : List A → ℕ → Type 0
  SitsAt sub at =
      (at + length sub ≤ length s)
      × ((j : ℕ) → j < length sub → eq (get_or s (at + j) d) (get_or sub j d) ≡ true)

  -- the answer of matches_at
  abbrev Tells : List A → ℕ → Bool → Type 0
  Tells sub at true = (j : ℕ) → j < length sub → eq (get_or s (at + j) d) (get_or sub j d) ≡ true
  Tells sub at false =
      (j : ℕ) × (j < length sub) × (eq (get_or s (at + j) d) (get_or sub j d) ≡ false)

  Tells-next :
      (y : A) (sub : List A) (at : ℕ) (b : Bool)
      → eq (get_or s at d) y ≡ true
      → Tells sub (at + 1) b
      → Tells (y ∷ sub) at b
  unfolding get_or
  Tells-next y sub at true e h = elim [
    | zero ↦ λ p. ap (λ k. eq (get_or s k d) y) (omega arith) ∙ e
    | suc j ↦ λ p. ap (λ k. eq (get_or s k d) (get_or sub j d)) (omega arith) ∙ h j (omega arith)
  ]
  Tells-next y sub at false e h =
      let (j, p, q) = h in
      (suc j, omega arith, ap (λ k. eq (get_or s k d) (get_or sub j d)) (omega arith) ∙ q)

  matches_from-Tells :
      (sub : List A) (at : ℕ)
      → at + length sub ≤ length s
      → Returns (Tells sub at) (matches_from s sub at eq)
  unfolding matches_from get_or
  matches_from-Tells [] at h = (true, refl, λ j p. absurd (omega arith))
  matches_from-Tells (y ∷ sub) at h = rw (Span.get-done d s at (omega arith)) (
      Returns-if (eq (get_or s at d) y)
        (λ e.
          let (b, r, t) = matches_from-Tells sub (at + 1) (omega arith) in
          (b, r, Tells-next y sub at b e t))
        (λ e. (false, refl, (0, omega arith, ap (λ k. eq (get_or s k d) y) (omega arith) ∙ e))))

  matches_at-Tells :
      (sub : List A) (at : ℕ)
      → at + length sub ≤ length s
      → Returns (Tells sub at) (matches_at s sub at eq)
  unfolding matches_at
  matches_at-Tells sub at h = rw (le→leb _ _ h) (matches_from-Tells sub at h)

  not_sits : (sub : List A) (at : ℕ) → Tells sub at false → ¬ SitsAt sub at
  not_sits sub at (j, p, q) h = cc (h.1 j p)

  same : (i j : ℕ) → (i == j) ≡ true → i ≡ j
  same i j e = ground arith

  -- What find_sub reports: the first place, or that there is none.
  abbrev pub IsFirstSub : List A → Option ℕ → Type 0
  IsFirstSub sub none = (i : ℕ) → ¬ SitsAt sub i
  IsFirstSub sub (some k) = SitsAt sub k × ((i : ℕ) → i < k → ¬ SitsAt sub i)

  -- What find_sub_last reports: the last place, or that there is none.
  abbrev pub IsLastSub : List A → Option ℕ → Type 0
  IsLastSub sub none = (i : ℕ) → ¬ SitsAt sub i
  IsLastSub sub (some k) = SitsAt sub k × ((i : ℕ) → k < i → ¬ SitsAt sub i)

  module _ (sub : List A) (some_elem : 0 < length sub) where
    find_sub_from-IsFirstSub :
        (fuel i : ℕ)
        → length s < fuel + i
        → i ≤ length s
        → ((j : ℕ) → j < i → ¬ SitsAt sub j)
        → Returns (IsFirstSub sub) (find_sub_from fuel i s sub eq)
    unfolding find_sub_from
    find_sub_from-IsFirstSub zero i f le before = absurd (omega arith)
    find_sub_from-IsFirstSub (suc fuel) i f le before =
        Returns-if (leb (i + length sub) (length s))
          (λ room.
            let fits : i + length sub ≤ length s = ground arith in
            Returns-bind (matches_at s sub i eq) _ (matches_at-Tells sub i fits) (elim [
              | true ↦ λ t. (some i, refl, ((fits, t), before))
              | false ↦ λ t.
                  find_sub_from-IsFirstSub fuel (i + 1) (omega arith) (omega arith) λ j p.
                    elim (Bool-cases (j == i)) [
                      | inl e ↦ rw (same j i e) (not_sits sub i t)
                      | inr e ↦ before j (ground arith)
                    ]
            ]))
          (λ out. (
            none,
            refl,
            λ j h. elim (Bool-cases (ltb j i)) [
              | inl e ↦ before j (ground arith) h
              | inr e ↦ absurd (ground (arith, h.0))
            ],
          ))

    find_sub_last_from-IsLastSub :
        (start : ℕ)
        → start + length sub ≤ length s + 1
        → ((j : ℕ) → start ≤ j → ¬ SitsAt sub j)
        → Returns (IsLastSub sub) (find_sub_last_from start s sub eq)
    unfolding find_sub_last_from
    find_sub_last_from-IsLastSub zero f after = (none, refl, λ j. after j (omega arith))
    find_sub_last_from-IsLastSub (suc start) f after =
        Returns-bind (matches_at s sub start eq) _ (matches_at-Tells sub start (omega arith))
          (elim [
            | true ↦ λ t. (some start, refl, ((omega arith, t), λ j p. after j p))
            | false ↦ λ t. find_sub_last_from-IsLastSub start (omega arith) λ j p.
                elim (Bool-cases (j == start)) [
                  | inl e ↦ rw (same j start e) (not_sits sub start t)
                  | inr e ↦ after j (ground arith)
                ]
          ])

  -- find_sub returns the first place where the sub-span sits, 0 for an empty one, and false when it
  -- sits nowhere.
  pub find_sub-IsFirstSub : (sub : List A) → Returns (IsFirstSub sub) (find_sub s sub eq)
  unfolding find_sub
  find_sub-IsFirstSub [] =
      (some 0, refl, ((omega arith, λ j p. absurd (omega arith)), λ j p. absurd (omega arith)))
  find_sub-IsFirstSub (y ∷ sub) =
      let elems : (length (y ∷ sub) == 0) ≡ false = ground arith in
      rw elems (
        Returns-if (ltb (length s) (length (y ∷ sub)))
          (λ long. (none, refl, λ j h. absurd (ground (arith, h.0))))
          (λ room.
            find_sub_from-IsFirstSub (y ∷ sub) (omega arith) (length s + 1) 0 (omega arith)
              (omega arith) (λ j p. absurd (omega arith))))

  -- find_sub_last returns the last place where the sub-span sits, the length for an empty one, and
  -- false when it sits nowhere.
  pub find_sub_last-IsLastSub : (sub : List A) → Returns (IsLastSub sub) (find_sub_last s sub eq)
  unfolding find_sub_last
  find_sub_last-IsLastSub [] = (
    some (length s),
    refl,
    ((omega arith, λ j p. absurd (omega arith)), λ j p h. absurd (omega (arith, h.0))),
  )
  find_sub_last-IsLastSub (y ∷ sub) =
      let elems : (length (y ∷ sub) == 0) ≡ false = ground arith in
      rw elems (
        Returns-if (ltb (length s) (length (y ∷ sub)))
          (λ long. (none, refl, λ j h. absurd (ground (arith, h.0))))
          (λ room.
            find_sub_last_from-IsLastSub (y ∷ sub) (omega arith) (length s - length (y ∷ sub) + 1)
              (ground arith) (λ j p h. absurd (ground (arith, h.0)))))

-- ===== src/Algo/Find.antt =====
-- The linear part of src/algo/search.c: find and its kin, count, the predicates. `*out_idx` and
-- true are `some`, false is `none`. `from` functions are the loops, at the index that they reached.
pub mod First
pub mod Run
pub mod Sub
pub mod Tally
use c_nad.Core.Span
use c_nad.Prelude.{
  ℕ, zero, suc, ◌+◌, ◌-◌, Bool, true, false, not, Option, none, some, List, [], ◌∷◌, ltb, leb, ◌==◌,
  if◌then◌else◌, length, set, Exec, done, spent, ◌>>=◌, ◌>>◌, check,
}

module _ {ℓ} {A : Type ℓ} where
  -- tda_span_find_if
  find_if_from : ℕ → List A → (A → Bool) → Option ℕ
  find_if_from i [] pred = none
  find_if_from i (x ∷ s) pred = if pred x then some i else find_if_from (i + 1) s pred

  pub find_if : List A → (A → Bool) → Option ℕ
  find_if s pred = find_if_from 0 s pred

  -- tda_span_find
  find_from : ℕ → List A → A → (A → A → Bool) → Option ℕ
  find_from i [] key eq = none
  find_from i (x ∷ s) key eq = if eq x key then some i else find_from (i + 1) s key eq

  pub find : List A → A → (A → A → Bool) → Option ℕ
  find s key eq = find_from 0 s key eq

  -- tda_span_contains
  pub contains : List A → A → (A → A → Bool) → Bool
  contains s key eq = elim (find s key eq) [ some i ↦ true | none ↦ false ]

  -- the inner loop of tda_span_find_any_of
  pub any_equal : A → List A → (A → A → Bool) → Bool
  any_equal elem [] eq = false
  any_equal elem (y ∷ set) eq = if eq elem y then true else any_equal elem set eq

  -- tda_span_find_any_of
  find_any_of_from : ℕ → List A → List A → (A → A → Bool) → Option ℕ
  find_any_of_from i [] set eq = none
  find_any_of_from i (x ∷ s) set eq =
      if any_equal x set eq then some i else find_any_of_from (i + 1) s set eq

  pub find_any_of : List A → List A → (A → A → Bool) → Option ℕ
  find_any_of s set eq = find_any_of_from 0 s set eq

  -- tda_span_find_adjacent: `prev` stands at `i - 1`
  find_adjacent_from : ℕ → A → List A → (A → A → Bool) → Option ℕ
  find_adjacent_from i prev [] eq = none
  find_adjacent_from i prev (x ∷ s) eq =
      if eq prev x then some (i - 1) else find_adjacent_from (i + 1) x s eq

  pub find_adjacent : List A → (A → A → Bool) → Option ℕ
  find_adjacent [] eq = none
  find_adjacent (x ∷ s) eq = find_adjacent_from 1 x s eq

  -- tda_span_find_run: `run` entries up to `i` were equal to the key
  find_run_from : ℕ → ℕ → List A → A → ℕ → (A → A → Bool) → Option ℕ
  find_run_from i run [] key count eq = none
  find_run_from i run (x ∷ s) key count eq =
      let run' : ℕ = if eq x key then run + 1 else 0 in
      if run' == count then some (i + 1 - count) else find_run_from (i + 1) run' s key count eq

  pub find_run : List A → A → ℕ → (A → A → Bool) → Option ℕ
  find_run s key count eq = if count == 0 then some 0 else find_run_from 0 0 s key count eq

  -- matches_at: whether `sub` sits in `s` at `at`
  matches_from : List A → List A → ℕ → (A → A → Bool) → Exec Bool
  matches_from s [] at eq = done true
  matches_from s (y ∷ sub) at eq = do
    x ← Span.get s at
    let rest = matches_from s sub (at + 1) eq
    if eq x y then rest else done false

  matches_at : List A → List A → ℕ → (A → A → Bool) → Exec Bool
  unfolding matches_from
  matches_at s sub at eq = do check (leb (at + length sub) (length s)); matches_from s sub at eq

  -- tda_span_find_sub; the fuel bounds the rounds of its loop
  find_sub_from : ℕ → ℕ → List A → List A → (A → A → Bool) → Exec (Option ℕ)
  find_sub_from zero i s sub eq = spent
  find_sub_from (suc fuel) i s sub eq =
      let round : Exec (Option ℕ) = do
        found ← matches_at s sub i eq
        let rest = find_sub_from fuel (i + 1) s sub eq
        if found then done (some i) else rest
      in if leb (i + length sub) (length s) then round else done none

  pub find_sub : List A → List A → (A → A → Bool) → Exec (Option ℕ)
  find_sub s sub eq =
      if length sub == 0
      then done (some 0)
      else if ltb (length s) (length sub)
      then done none
      else find_sub_from (length s + 1) 0 s sub eq

  -- tda_span_find_sub_last: the loop variable is the start plus one
  find_sub_last_from : ℕ → List A → List A → (A → A → Bool) → Exec (Option ℕ)
  find_sub_last_from zero s sub eq = done none
  find_sub_last_from (suc start) s sub eq = do
    found ← matches_at s sub start eq
    let rest = find_sub_last_from start s sub eq
    if found then done (some start) else rest

  pub find_sub_last : List A → List A → (A → A → Bool) → Exec (Option ℕ)
  find_sub_last s sub eq =
      if length sub == 0
      then done (some (length s))
      else if ltb (length s) (length sub)
      then done none
      else find_sub_last_from (length s - length sub + 1) s sub eq

  -- tda_span_count_if
  count_if_from : ℕ → List A → (A → Bool) → ℕ
  count_if_from count [] pred = count
  count_if_from count (x ∷ s) pred = count_if_from (if pred x then count + 1 else count) s pred

  pub count_if : List A → (A → Bool) → ℕ
  count_if s pred = count_if_from 0 s pred

  -- tda_span_count
  count_from : ℕ → List A → A → (A → A → Bool) → ℕ
  count_from count [] key eq = count
  count_from count (x ∷ s) key eq = count_from (if eq x key then count + 1 else count) s key eq

  pub count : List A → A → (A → A → Bool) → ℕ
  count s key eq = count_from 0 s key eq

  -- tda_span_all_of
  pub all_of : List A → (A → Bool) → Bool
  all_of [] pred = true
  all_of (x ∷ s) pred = if not (pred x) then false else all_of s pred

  -- tda_span_any_of
  pub any_of : List A → (A → Bool) → Bool
  any_of s pred = elim (find_if s pred) [ some i ↦ true | none ↦ false ]

  -- tda_span_none_of
  pub none_of : List A → (A → Bool) → Bool
  none_of s pred = not (any_of s pred)

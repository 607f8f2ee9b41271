-- ===== src/Algo/Modify.antt =====
-- src/algo/modify.c: unique, remove and replace. A function that writes to its span returns the
-- span, with the length that it returns in front. `match` functions are the predicate made of a
-- key and its equality. Fuel bounds the rounds of a loop.
pub mod Keep
use c_nad.Core.Span
use c_nad.Prelude.{
  ℕ, zero, suc, ◌+◌, ◌-◌, Bool, List, ltb, ◌==◌, if◌then◌else◌, length, Exec, done, spent, ◌>>=◌,
  ◌>>◌,
}

module _ {A : Type 0} where
  -- key_matches: the predicate whose ctx is a key and its equality
  abbrev pub key_matches : A → (A → A → Bool) → A → Bool
  key_matches key eq elem = eq elem key

  -- the memcpy of the elem to its new place, unless it stands there
  abbrev pub put : List A → ℕ → ℕ → A → Exec (List A)
  put s write read cur = if write == read then done s else Span.set s write cur

  -- the loop of tda_span_unique
  unique_from : ℕ → ℕ → ℕ → List A → (A → A → Bool) → Exec (ℕ × List A)
  unique_from zero write read s eq = spent
  unique_from (suc fuel) write read s eq =
      let skip = unique_from fuel write (read + 1) s eq in
      let round : Exec (ℕ × List A) = do
        cur ← Span.get s read
        kept ← Span.get s (write - 1)
        let keep : Exec (ℕ × List A) =
            put s write read cur >>= λ t. unique_from fuel (write + 1) (read + 1) t eq
        if eq kept cur then skip else keep
      in if ltb read (length s) then round else done (write, s)

  -- tda_span_unique
  pub unique : List A → (A → A → Bool) → Exec (ℕ × List A)
  unfolding unique_from
  unique s eq =
      let loop = unique_from (length s) 1 1 s eq in
      if ltb (length s) 2 then done (length s, s) else loop

  -- the loop of tda_span_remove_if
  remove_if_from : ℕ → ℕ → ℕ → List A → (A → Bool) → Exec (ℕ × List A)
  remove_if_from zero write read s pred = spent
  remove_if_from (suc fuel) write read s pred =
      let skip = remove_if_from fuel write (read + 1) s pred in
      let round : Exec (ℕ × List A) = do
        cur ← Span.get s read
        let keep : Exec (ℕ × List A) =
            put s write read cur >>= λ t. remove_if_from fuel (write + 1) (read + 1) t pred
        if pred cur then skip else keep
      in if ltb read (length s) then round else done (write, s)

  -- tda_span_remove_if
  pub remove_if : List A → (A → Bool) → Exec (ℕ × List A)
  unfolding remove_if_from
  remove_if s pred = remove_if_from (length s + 1) 0 0 s pred

  -- tda_span_remove
  pub remove : List A → A → (A → A → Bool) → Exec (ℕ × List A)
  remove s key eq = remove_if s (key_matches key eq)

  -- the loop of tda_span_replace_if
  replace_if_from : ℕ → ℕ → List A → (A → Bool) → A → Exec (List A)
  replace_if_from zero i s pred val = spent
  replace_if_from (suc fuel) i s pred val =
      let skip = replace_if_from fuel (i + 1) s pred val in
      let round : Exec (List A) = do
        cur ← Span.get s i
        let put_val = Span.set s i val >>= λ t. replace_if_from fuel (i + 1) t pred val
        if pred cur then put_val else skip
      in if ltb i (length s) then round else done s

  -- tda_span_replace_if
  pub replace_if : List A → (A → Bool) → A → Exec (List A)
  unfolding replace_if_from
  replace_if s pred val = replace_if_from (length s + 1) 0 s pred val

  -- tda_span_replace
  pub replace : List A → A → A → (A → A → Bool) → Exec (List A)
  replace s key val eq = replace_if s (key_matches key eq) val

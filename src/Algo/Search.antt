-- ===== src/Algo/Search.antt =====
-- src/algo/search.c. A search that writes `*out_idx` and returns true is `some` of what it writes;
-- false is `none`. Equalities, predicates (with their ctx) and comparators are parameters.
pub mod Bounds
use c_nad.Core.Span
use c_nad.Core.Cmp.{Cmp}
use c_nad.Core.Int.{lt0, le0, eq0}
use c_nad.Prelude.{
  ℕ, zero, suc, ◌+◌, ◌-◌, ◌/◌, Bool, Option, none, some, List, ltb, leb, if◌then◌else◌, length,
  Exec, done, spent, ◌>>=◌, ◌>>◌,
}

-- tda_Range
pub record Range : Type 0 where
  pub lo : ℕ
  pub hi : ℕ

module _ {ℓ} {A : Type ℓ} where
  -- The loop of lower_bound, upper_bound and partition_point: `right mid` moves `lo` past `mid`.
  -- The fuel bounds the rounds.
  halve : (A → Bool) → List A → ℕ → ℕ → ℕ → Exec ℕ
  halve right s zero lo hi = spent
  halve right s (suc fuel) lo hi =
      let round : Exec ℕ = do
        let mid = lo + (hi - lo) / 2
        x ← Span.get s mid
        let up = halve right s fuel (mid + 1) hi
        let down = halve right s fuel lo mid
        if right x then up else down
      in if ltb lo hi then round else done lo

  -- tda_span_lower_bound
  pub lower_bound : List A → A → Cmp A → Exec ℕ
  lower_bound s key cmp = halve (λ x. lt0 (cmp x key)) s (length s + 1) 0 (length s)

  -- tda_span_upper_bound
  pub upper_bound : List A → A → Cmp A → Exec ℕ
  upper_bound s key cmp = halve (λ x. le0 (cmp x key)) s (length s + 1) 0 (length s)

  -- tda_span_partition_point
  pub partition_point : List A → (A → Bool) → Exec ℕ
  partition_point s pred = halve pred s (length s + 1) 0 (length s)

  -- tda_span_binary_search
  pub binary_search : List A → A → Cmp A → Exec (Option ℕ)
  binary_search s key cmp = do
    pos ← lower_bound s key cmp
    let found : Exec (Option ℕ) = do
      p ← Span.get s pos
      done (if eq0 (cmp p key) then some pos else none)
    if leb (length s) pos then done none else found

  -- tda_span_equal_range
  pub equal_range : List A → A → Cmp A → Exec Range
  equal_range s key cmp = do
    lo ← lower_bound s key cmp
    tail ← Span.sub s lo (length s - lo)
    n ← upper_bound tail key cmp
    done (record { lo = lo; hi = lo + n })

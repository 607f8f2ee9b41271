-- ===== src/Core/Int.antt =====
-- Signed integers, and the tests against 0 that the comparators' callers make.
use c_nad.Prelude.{ℕ, zero, suc, ◌-◌, Bool, true, false, ◌&&◌, not, ltb, leb, if◌then◌else◌}

-- `negsuc n` is -(n + 1).
pub data ℤ : Type 0 where
  pos : ℕ → ℤ
  negsuc : ℕ → ℤ

abbrev pub lt0 : ℤ → Bool
lt0 (pos n) = false
lt0 (negsuc n) = true

abbrev pub gt0 : ℤ → Bool
gt0 (pos zero) = false
gt0 (pos (suc n)) = true
gt0 (negsuc n) = false

abbrev pub le0 : ℤ → Bool
le0 z = not (gt0 z)

abbrev pub ge0 : ℤ → Bool
ge0 z = not (lt0 z)

abbrev pub eq0 : ℤ → Bool
eq0 z = not (lt0 z) && not (gt0 z)

-- `a < b` on signed integers
abbrev pub ltz : ℤ → ℤ → Bool
ltz (pos a) (pos b) = ltb a b
ltz (pos a) (negsuc b) = false
ltz (negsuc a) (pos b) = true
ltz (negsuc a) (negsuc b) = ltb b a

abbrev pub to_nat : Bool → ℕ
to_nat true = 1
to_nat false = 0

-- a - b, as an integer
abbrev pub sub_ℕ : ℕ → ℕ → ℤ
sub_ℕ a b = if leb b a then pos (a - b) else negsuc (b - a - 1)

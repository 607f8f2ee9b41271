-- ===== src/Core/Size.antt =====
-- size_t of 64 bits, with the checked operations of <stdckdint.h> and the wrap of the plain ones.
use c_nad.Prelude.{ℕ, ◌+◌, ◌-◌, ◌*◌, ◌%◌, ◌^◌, Option, none, some, ltb, if◌then◌else◌}

abbrev pub size_mod : ℕ
size_mod = 2 ^ 64

abbrev pub size_max : ℕ
size_max = 2 ^ 64 - 1

-- `none` where the call reports an overflow
abbrev pub ckd_mul : ℕ → ℕ → Option ℕ
ckd_mul a b = if ltb (a * b) size_mod then some (a * b) else none

abbrev pub ckd_add : ℕ → ℕ → Option ℕ
ckd_add a b = if ltb (a + b) size_mod then some (a + b) else none

-- `a + b`, `a * b` and `a - b` on size_t
abbrev pub add_size : ℕ → ℕ → ℕ
add_size a b = (a + b) % size_mod

abbrev pub mul_size : ℕ → ℕ → ℕ
mul_size a b = (a * b) % size_mod

abbrev pub sub_size : ℕ → ℕ → ℕ
sub_size a b = (a + size_mod - b) % size_mod

-- ===== src/Core/Cmp.antt =====
-- include/tda/core/cmp.h and src/core/cmp.c: what a comparator promises, and the integer ones.
use c_nad.Core.Int.{ℤ, lt0, gt0, eq0, ltz, to_nat, sub_ℕ}
use c_nad.Prelude.{ℕ, ◌≡◌, Bool, true, false, arith, ltb}

-- `tda_Cmp`: the sign of the result orders the operands
abbrev pub Cmp {ℓ} : Type ℓ → Type ℓ
Cmp A = A → A → ℤ

-- `cmp_<T>` of an unsigned type, `(a > b) - (a < b)`
unfoldable pub cmp_unsigned : Cmp ℕ
cmp_unsigned a b = sub_ℕ (to_nat (ltb b a)) (to_nat (ltb a b))

-- `cmp_<T>` of a signed type
unfoldable pub cmp_signed : Cmp ℤ
cmp_signed a b = sub_ℕ (to_nat (ltz b a)) (to_nat (ltz a b))

-- `eq_<T>`
unfoldable pub eq_by_cmp {ℓ} : {A : Type ℓ} → Cmp A → A → A → Bool
eq_by_cmp cmp a b = eq0 (cmp a b)

-- `tda_cmp_desc_<T>`: the operands swapped
unfoldable pub cmp_desc {ℓ} : {A : Type ℓ} → Cmp A → Cmp A
cmp_desc cmp a b = cmp b a

-- `x` does not come after `y`
abbrev pub Le {ℓ} : {A : Type ℓ} → Cmp A → A → A → Type 0
Le cmp x y = gt0 (cmp x y) ≡ false

-- The strict weak ordering that the header asks for: the sign flips with the operands, and "not
-- after" is transitive.
pub record IsOrder {ℓ} {A : Type ℓ} (cmp : Cmp A) : Type ℓ where
  pub flip : (x y : A) → lt0 (cmp x y) ≡ gt0 (cmp y x)
  pub trans : (x y z : A) → Le cmp x y → Le cmp y z → Le cmp x z

module _ {ℓ} {A : Type ℓ} {cmp : Cmp A} (o : IsOrder cmp) where
  pub Le_refl : (x : A) → Le cmp x x
  Le_refl x = ground (arith, o.flip x x)

  pub Le_total : (x y : A) → gt0 (cmp x y) ≡ true → Le cmp y x
  Le_total x y h = ground (arith, o.flip x y, o.flip y x)

  -- what the callers' tests say of the order
  pub Le_of_lt0 : (x y : A) → lt0 (cmp x y) ≡ true → Le cmp x y
  Le_of_lt0 x y h = ground (arith, o.flip x y, o.flip y x)

  pub Le_of_ge0 : (x y : A) → lt0 (cmp x y) ≡ false → Le cmp y x
  Le_of_ge0 x y h = ground (arith, o.flip x y)

-- The unsigned comparators are strict weak orderings.
pub cmp_unsigned-IsOrder : IsOrder cmp_unsigned
unfolding cmp_unsigned
cmp_unsigned-IsOrder = record { flip = λ x y. ground arith; trans = λ x y z p q. ground arith }

-- So are the signed ones.
pub cmp_signed-IsOrder : IsOrder cmp_signed
unfolding cmp_signed
cmp_signed-IsOrder = record { flip = λ x y. ground arith; trans = λ x y z p q. ground arith }

-- The descending form of an ordering is one.
pub cmp_desc-IsOrder {ℓ} : {A : Type ℓ} (cmp : Cmp A) → IsOrder cmp → IsOrder (cmp_desc cmp)
unfolding cmp_desc
cmp_desc-IsOrder cmp o = record { flip = λ x y. o.flip y x; trans = λ x y z p q. o.trans z y x q p }

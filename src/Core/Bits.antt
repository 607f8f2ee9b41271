-- ===== src/Core/Bits.antt =====
-- `&` on size_t as the code uses it: a mask one below a power of two.
use c_nad.Prelude.{ℕ, zero, suc, ◌+◌, ◌-◌, ◌*◌, ◌≤◌, ◌<◌, ◌≡◌, refl, ap, ◌∙◌, arith}
use Prim.Native.Nat.{◌/◌, min, bit_and, digits, bit_and-bitwise}

abbrev no_digit : ℕ → ℕ
no_digit b = 0

-- a mask keeps at most its own digits
digits_le : (fuel a b : ℕ) → digits no_digit min fuel a b ≤ b
digits_le zero a b = omega arith
digits_le (suc fuel) zero b = omega arith
digits_le (suc fuel) (suc a) b = omega (arith, digits_le fuel (suc a / 2) (b / 2))

digits_none : (fuel b : ℕ) → digits no_digit min fuel 0 b ≡ 0
digits_none zero b = refl
digits_none (suc fuel) b = refl

-- more fuel than `a` changes nothing
digits_spare :
    (fuel spare a b : ℕ)
    → a ≤ fuel
    → digits no_digit min (fuel + spare) a b ≡ digits no_digit min fuel a b
digits_spare zero spare zero b p = digits_none (0 + spare) b
digits_spare zero spare (suc a) b p = absurd (omega arith)
digits_spare (suc fuel) spare zero b p = digits_none (suc fuel + spare) b
digits_spare (suc fuel) spare (suc a) b p =
    let on = digits_spare fuel spare (suc a / 2) (b / 2) (omega arith) in
    let e : suc fuel + spare ≡ suc (fuel + spare) = omega arith in rw e (omega (arith, on))

pub bit_and-le : (a b : ℕ) → bit_and a b ≤ b
bit_and-le a b = omega (arith, bit_and-bitwise a b, digits_le a a b)

-- The mask of twice a number: its digits are those of the number's mask, moved up.
pub bit_and-double : (n : ℕ) → 0 < n → bit_and (n * 2) (n * 2 - 1) ≡ bit_and n (n - 1) * 2
bit_and-double zero p = absurd (omega arith)
bit_and-double (suc n) p =
    let twice : suc n * 2 ≡ suc (n * 2 + 1) = omega arith in
    let half : suc (n * 2 + 1) / 2 ≡ suc n = omega arith in
    let mask : (suc n * 2 - 1) / 2 ≡ suc n - 1 = omega arith in
    let spare : n * 2 + 1 ≡ suc n + n = omega arith in
    let on = digits_spare (suc n) n (suc n) (suc n - 1) (omega arith) in
    let rest : digits no_digit min (n * 2 + 1) (suc (n * 2 + 1) / 2) ((suc n * 2 - 1) / 2)
        ≡ digits no_digit min (suc n) (suc n) (suc n - 1) =
      rw (half, mask, spare) on in
    omega (
      arith,
      bit_and-bitwise (suc n * 2) (suc n * 2 - 1)
          ∙ ap (λ k. digits no_digit min k k (suc n * 2 - 1)) twice,
      bit_and-bitwise (suc n) (suc n - 1),
      rest,
    )

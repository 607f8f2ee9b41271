-- ===== src/Prelude/Outcome.antt =====
-- How a C call ends: it returns, an assertion or an access fails, or the model's fuel runs out.
use mathlib.Core.Path.{◌≡◌, refl}
use mathlib.Core.Bool.{Bool, true, false}
use mathlib.Core.Option.{Option, none, some}
use c_nad.Prelude.Tests.{if◌then◌else◌}

-- `trap` is a failed `assert` or an access out of bounds.
pub data Exec {ℓ} (A : Type ℓ) : Type ℓ where
  done : A → Exec A
  trap : Exec A
  spent : Exec A

infixl 5 ◌>>=◌ ◌>>◌
abbrev pub ◌>>=◌ {ℓ κ} : {A : Type ℓ} {B : Type κ} → Exec A → (A → Exec B) → Exec B
done a >>= f = f a
trap >>= f = trap
spent >>= f = spent

abbrev pub ◌>>◌ {ℓ} : {B : Type ℓ} → Exec (Unit {0}) → Exec B → Exec B
m >> k = m >>= λ _. k

abbrev pub check : Bool → Exec (Unit {0})
check true = done tt
check false = trap

abbrev pub or_trap {ℓ} : {A : Type ℓ} → Option A → Exec A
or_trap (some a) = done a
or_trap none = trap

-- The call returns, with a value that satisfies `P`.
abbrev pub Returns {ℓ κ} : {A : Type ℓ} → (A → Type κ) → Exec A → Type (ℓ ⊔ κ)
Returns {A = A} P m = (a : A) × (m ≡ done a) × P a

-- Where the asserted test is true the call returns as `P` says, where it is false the call traps.
abbrev pub Guarded : {A : Type 0} → Bool → (A → Type 0) → Exec A → Type 0
Guarded true P m = Returns P m
Guarded false P m = m ≡ trap

pub Guarded-if :
    {A : Type 0} {P : A → Type 0} (b : Bool) {m : Exec A}
    → (b ≡ true → Returns P m)
    → (b ≡ false → m ≡ trap)
    → Guarded b P m
Guarded-if true h k = h refl
Guarded-if false h k = k refl

module _ {ℓ κ} {A : Type ℓ} {P : A → Type κ} where
  pub Returns-bind {μ ν} :
      {B : Type μ} {Q : B → Type ν} (m : Exec A) (f : A → Exec B)
      → Returns P m
      → ((a : A) → P a → Returns Q (f a))
      → Returns Q (m >>= f)
  Returns-bind m f (a, e, p) k = let (b, e', q) = k a p in (b, rw e e', q)

  pub Returns-map {ν} :
      {Q : A → Type ν} (m : Exec A) → Returns P m → ((a : A) → P a → Q a) → Returns Q m
  Returns-map m (a, e, p) k = (a, e, k a p)

  pub Returns-if :
      (b : Bool) {m n : Exec A}
      → (b ≡ true → Returns P m)
      → (b ≡ false → Returns P n)
      → Returns P (if b then m else n)
  Returns-if true h k = h refl
  Returns-if false h k = k refl

  -- a check that holds, when nothing else is to be rewritten
  pub Returns-check : (b : Bool) {m : Exec A} → b ≡ true → Returns P m → Returns P (check b >> m)
  Returns-check true e r = r
  Returns-check false e r = absurd (cc e)

-- ===== src/Ds/Handle.antt =====
-- The containers that wrap another one: what an operation on the inner one makes of the outer one.
use c_nad.Prelude.{◌≡◌, ap}
use c_nad.Core.Status.{Status, ok, no_mem}

-- On success `P` holds of the container; on a refusal it is as it was.
abbrev pub Settled : {Q S : Type 0} → Q → (Q → Type 0) → Status × Q × S → Type 0
Settled q P (ok, q', st) = P q'
Settled q P (no_mem, q', st) = q' ≡ q

-- the outcome of an inner operation, wrapped
pub Settled-wrapped :
    {Q R S : Type 0} (wrapped : Q → R) (q : Q) {P : Q → Type 0} (P' : R → Type 0)
    (r : Status × Q × S)
    → ((q' : Q) → P q' → P' (wrapped q'))
    → Settled q P r
    → Settled (wrapped q) P' (r.0, wrapped r.1, r.2)
Settled-wrapped wrapped q P' (ok, q', st) f p = f q' p
Settled-wrapped wrapped q P' (no_mem, q', st) f p = ap wrapped p

-- ===== src/Tests/Vecs.antt =====
-- Vecs of numbers on an allocator with a budget of bytes.
use c_nad.Ds.Vec
use c_nad.Prelude.Array.{get_or}
use c_nad.Prelude.{
  ℕ, zero, suc, ◌+◌, ◌-◌, ◌<◌, ◌≡◌, refl, Bool, true, false, Option, none, some, [], ◌∷◌, arith,
  leb, if◌then◌else◌, get_elem?, Returns,
}
use c_nad.Alloc.{Al, realloc}
use c_nad.Alloc.Ledger.{IsLedger, owed-realloc}
use c_nad.Ds.Vec.{Vec}
use c_nad.Ds.Vec.Holds.{Holds}
use c_nad.Ds.Vec.Mods.{Keeps, set-pop-remove-remove_range-clear}
use c_nad.Ds.Vec.Grow.{Outcome, insert, insert_span, reserve}
use c_nad.Ds.Vec.Grow.Reserve.{Settled, Roomy, reserve-Settled}
use c_nad.Ds.Vec.Grow.Insert.{Added, insert-Settled}
use c_nad.Ds.Vec.Grow.Bulk.{insert_span-Settled}

-- an allocator of 100 bytes that leaves calloc and realloc out; its state is what it has given out
abbrev pub budget : Al
budget = record {
  State = ℕ;
  alloc_cb = λ used n. if leb (used + n) 100 then (true, used + n) else (false, used);
  calloc_cb = none;
  realloc_cb = none;
  dealloc_cb = λ used n. used - n;
  aligned = λ used n. true;
}

-- two elems of 4 bytes in a block of three
abbrev pub two : Vec ℕ
two = record { slots = some (some 7 ∷ some 8 ∷ none ∷ []); len = 2; cap = 3; elem_size = 4 }

two-elems :
    (i : ℕ)
    → i < 2
    → get_or {A = Option ℕ} (some 7 ∷ some 8 ∷ none ∷ []) i none ≡ get_elem? (7 ∷ 8 ∷ []) i
unfolding get_or
two-elems zero p = refl
two-elems (suc zero) p = refl
two-elems (suc (suc i)) p = absurd (omega arith)

pub two-Holds : Holds two (7 ∷ 8 ∷ [])
two-Holds = record {
  sized = omega arith;
  count = refl;
  room = omega arith;
  bytes = omega arith;
  full = refl;
  owned = refl;
  elems = two-elems;
}

set-pop-remove-remove_range-clear_example :
    Returns (λ w. Holds w (7 ∷ 5 ∷ []) × Keeps two w) (Vec.set two 1 5)
    × Returns (λ w. Holds w (7 ∷ []) × Keeps two w) (Vec.pop two)
    × Returns (λ w. Holds w (7 ∷ []) × Keeps two w) (Vec.remove two 1)
    × Returns (λ w. Holds w (7 ∷ []) × Keeps two w) (Vec.remove_range two 1 1)
    × Returns (λ w. Holds w [] × Keeps two w) (Vec.clear two)
set-pop-remove-remove_range-clear_example = set-pop-remove-remove_range-clear two-Holds 1 1 5

reserve-Settled_example :
    Returns {A = Outcome budget ℕ}
      (Settled budget two (Roomy two (7 ∷ 8 ∷ []) 9))
      (reserve budget two 12 9)
reserve-Settled_example = reserve-Settled budget two-Holds 12 9

insert-Settled_example :
    Returns {A = Outcome budget ℕ}
      (Settled budget two (Added two (7 ∷ 9 ∷ 8 ∷ [])))
      (insert budget two 12 1 9)
insert-Settled_example = insert-Settled budget two-Holds 12 1 9 (omega arith)

insert_span-Settled_example :
    Returns {A = Outcome budget ℕ}
      (Settled budget two (Added two (7 ∷ 1 ∷ 2 ∷ 8 ∷ [])))
      (insert_span budget two 12 1 (1 ∷ 2 ∷ []))
insert_span-Settled_example = insert_span-Settled budget two-Holds 12 1 (1 ∷ 2 ∷ []) (omega arith)

-- a vec of elems of 4 bytes without a block
abbrev bare : Vec ℕ
bare = record { slots = none; len = 0; cap = 0; elem_size = 4 }

bare-Holds : Holds bare []
bare-Holds = record {
  sized = omega arith;
  count = refl;
  room = omega arith;
  bytes = omega arith;
  full = refl;
  owned = refl;
  elems = λ i p. absurd (omega arith);
}

-- the budget in use keeps its books
budget-IsLedger : IsLedger budget (λ used. used)
budget-IsLedger = record {
  alloc_books = λ st n. ground arith;
  dealloc_books = λ st n h. omega arith;
}

owed-realloc_example :
    Returns {A = Bool × ℕ}
      (λ r. r.1 ≡ (if r.0 then 12 - 12 + 24 else 12))
      (realloc budget 12 true 12 24)
owed-realloc_example =
    owed-realloc budget (λ used. used) budget-IsLedger refl 12 true 12 24 (omega arith) (λ e. cc)

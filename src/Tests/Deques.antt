-- ===== src/Tests/Deques.antt =====
-- Deques of numbers whose ring wraps, on the allocator with a budget of bytes.
use c_nad.Ds.Deque
use c_nad.Prelude.Array.{get_or}
use c_nad.Prelude.{
  ℕ, zero, suc, ◌+◌, ◌-◌, ◌<◌, ◌≡◌, refl, true, false, Option, none, some, [], ◌∷◌, arith, ltb,
  ◌==◌, if◌then◌else◌, get_elem?, done, Returns,
}
use c_nad.Alloc.{alloc}
use c_nad.Tests.Vecs.{budget}
use c_nad.Ds.Vec.Grow.Bulk.{resized_list}
use c_nad.Ds.Deque.{Deque}
use c_nad.Ds.Deque.Holds.{Holds, Keeps}
use c_nad.Ds.Deque.Compare.{eq_by, all_pairs, eq_by-all_pairs}
use c_nad.Ds.Deque.Mods.{set-pop_front-pop_back-remove-clear}
use c_nad.Ds.Deque.Grow.{Outcome, push_back, push_front, insert, reserve, resize}
use c_nad.Ds.Deque.Grow.Reserve.{Settled, Roomy, Limited, reserve-Roomy}
use c_nad.Ds.Deque.Grow.Insert.{Now, push_back-push_front-Now, insert-Now}
use c_nad.Ds.Deque.Grow.Bulk.{resize-Now}

-- the elems 7 and 8 of 4 bytes in a ring of three slots that wraps behind 7
abbrev pub wrapped : Deque ℕ
wrapped = record {
  slots = some (some 8 ∷ none ∷ some 7 ∷ []);
  len = 2;
  cap = 3;
  head = 2;
  elem_size = 4;
}

wrapped-elems :
    (i : ℕ)
    → i < 2
    → get_or {A = Option ℕ}
        (some 8 ∷ none ∷ some 7 ∷ [])
        (if ltb (2 + i) 3 then 2 + i else 2 + i - 3)
        none
      ≡ get_elem? (7 ∷ 8 ∷ []) i
unfolding get_or
wrapped-elems zero p = refl
wrapped-elems (suc zero) p = refl
wrapped-elems (suc (suc i)) p = absurd (omega arith)

pub wrapped-Holds : Holds wrapped (7 ∷ 8 ∷ [])
wrapped-Holds = record {
  ring = record {
    sized = omega arith;
    room = omega arith;
    bytes = omega arith;
    full = refl;
    owned = refl;
    turned = omega arith;
  };
  count = refl;
  elems = wrapped-elems;
}

pub budget-Limited : Limited budget
unfolding alloc
budget-Limited st n e = ground arith

set-pop_front-pop_back-remove-clear_example :
    Returns (λ e. Holds e (7 ∷ 5 ∷ []) × Keeps wrapped e) (Deque.set wrapped 1 5)
    × Returns (λ e. Holds e (8 ∷ []) × Keeps wrapped e) (Deque.pop_front wrapped)
    × Returns (λ e. Holds e (7 ∷ []) × Keeps wrapped e) (Deque.pop_back wrapped)
    × Returns (λ e. Holds e (7 ∷ []) × Keeps wrapped e) (Deque.remove wrapped 1)
    × Returns (λ e. Holds e [] × Keeps wrapped e) (Deque.clear wrapped)
set-pop_front-pop_back-remove-clear_example = set-pop_front-pop_back-remove-clear wrapped-Holds 1 5

reserve-Roomy_example :
    Returns {A = Outcome budget ℕ}
      (Settled budget wrapped (Roomy wrapped (7 ∷ 8 ∷ []) 9))
      (reserve budget wrapped 12 9)
reserve-Roomy_example = reserve-Roomy budget wrapped-Holds budget-Limited 12 9

push_back-push_front-Now_example :
    Returns {A = Outcome budget ℕ}
      (Settled budget wrapped (Now wrapped (7 ∷ 8 ∷ 9 ∷ [])))
      (push_back budget wrapped 12 9)
    × Returns {A = Outcome budget ℕ}
        (Settled budget wrapped (Now wrapped (9 ∷ 7 ∷ 8 ∷ [])))
        (push_front budget wrapped 12 9)
push_back-push_front-Now_example = push_back-push_front-Now budget budget-Limited wrapped-Holds 12 9

insert-Now_example :
    Returns {A = Outcome budget ℕ}
      (Settled budget wrapped (λ e. Now wrapped (7 ∷ 9 ∷ 8 ∷ []) e × (e.head ≡ 1)))
      (insert budget wrapped 12 1 9)
insert-Now_example = insert-Now budget budget-Limited wrapped-Holds 12 1 9 (omega arith)

resize-Now_example :
    Returns {A = Outcome budget ℕ}
      (Settled budget wrapped (Now wrapped (resized_list (7 ∷ 8 ∷ []) 5 0)))
      (resize budget wrapped 12 5 0)
resize-Now_example = resize-Now budget budget-Limited wrapped-Holds 12 5 0

eq_by-all_pairs_example :
    (eq_by false wrapped wrapped ◌==◌ ≡ done (all_pairs ◌==◌ (7 ∷ 8 ∷ []) (7 ∷ 8 ∷ [])))
    × (eq_by true wrapped wrapped ◌==◌ ≡ done true)
eq_by-all_pairs_example = eq_by-all_pairs ◌==◌ wrapped-Holds wrapped-Holds refl

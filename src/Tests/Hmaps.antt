-- ===== src/Tests/Hmaps.antt =====
-- A map from numbers to numbers in two buckets, on an allocator with a budget of bytes.
use c_nad.Ds.Hset
use c_nad.Prelude.Array.{get_or}
use c_nad.Prelude.{
  ℕ, ◌≤◌, ◌≡◌, refl, Bool, true, false, Option, none, some, [], ◌∷◌, arith, ◌==◌, if◌then◌else◌,
  done, Returns,
}
use c_nad.Core.Status.{Status}
use c_nad.Tests.Vecs.{budget}
use c_nad.Ds.Hmap.{Hmap, Node, rehash, reserve, shrink_to_fit, clear}
use c_nad.Ds.Hmap.Entries.{get, contains, insert, get_or_insert, remove}
use c_nad.Ds.Hmap.Entries.Chains.{IsHashing, hits, look}
use c_nad.Ds.Hmap.Entries.Tables.{nodes, set-IsTable}
use c_nad.Ds.Hmap.Entries.Relink.{empty-IsTable}
use c_nad.Ds.Hmap.Entries.Rehash.{Holds, Outcome, Settled, Rehashed, rehash-Rehashed}
use c_nad.Ds.Hmap.Entries.Lookup.{get-contains}
use c_nad.Ds.Hmap.Entries.Mods.{Inserted, insert-Inserted, Got, get_or_insert-Got}
use c_nad.Ds.Hmap.Entries.Remove.{Removed, remove-Removed}
use c_nad.Ds.Hset.{Hset}
use c_nad.Ds.Hset.Keys.{IsSetOf, Added, Taken, contains-insert-remove-IsSetOf}
use c_nad.Ds.Hmap.Sizes.{reserve-shrink_to_fit-Settled, clear-Holds}

-- a number hashes to itself
abbrev itself : ℕ → ℕ
itself k = k

itself-IsHashing : IsHashing itself ◌==◌
itself-IsHashing = record {
  same = λ a. ground arith;
  back = λ a b e. ground arith;
  chained = λ a b c e f. ground arith;
  alike = λ a b e. ground arith;
}

-- the key 5 at the value 50
abbrev one : Hmap ℕ ℕ
one = record {
  buckets = some ([] ∷ (record { hash = 5; key = 5; val = 50 } ∷ []) ∷ []);
  bucket_count = 2;
  len = 1;
  key_size = 4;
  val_size = 4;
  val_offset = 16;
}

abbrev five : ℕ → Option ℕ
five q = if 5 == q then some 50 else none

one-Holds : Holds itself ◌==◌ one five
unfolding hits look get_or nodes
one-Holds = record {
  keyed = omega arith;
  table =
      set-IsTable itself ◌==◌ itself-IsHashing (empty-IsTable itself ◌==◌ 2) (omega arith) 5
        (some 50) (record { hash = 5; key = 5; val = 50 } ∷ []) 1 (refl, tt) refl
        (λ q. ground arith) (λ q. ground arith);
  owned = refl;
  pow2 = refl;
  bytes = omega arith;
}

get-contains_example :
    (get itself ◌==◌ one 5 ≡ done (some 50)) × (contains itself ◌==◌ one 5 ≡ done true)
get-contains_example = get-contains itself ◌==◌ itself-IsHashing one-Holds 5

insert-Inserted_example :
    Returns {A = Status × Option Bool × Hmap ℕ ℕ × ℕ}
      (Inserted itself ◌==◌ itself-IsHashing budget five 7 70)
      (insert itself ◌==◌ budget one 12 7 70)
insert-Inserted_example =
    insert-Inserted itself ◌==◌ itself-IsHashing budget (λ st n e. refl) one-Holds 12 7 70

get_or_insert-Got_example :
    Returns {A = Status × Option (Node ℕ ℕ) × Hmap ℕ ℕ × ℕ}
      (Got itself ◌==◌ itself-IsHashing budget five 5 70)
      (get_or_insert itself ◌==◌ budget one 12 5 70)
get_or_insert-Got_example =
    get_or_insert-Got itself ◌==◌ itself-IsHashing budget (λ st n e. refl) one-Holds 12 5 70

remove-Removed_example :
    Returns {A = Bool × Hmap ℕ ℕ × ℕ}
      (Removed itself ◌==◌ itself-IsHashing budget one-Holds 52 5)
      (remove itself ◌==◌ budget one 52 5)
remove-Removed_example = remove-Removed itself ◌==◌ itself-IsHashing budget one-Holds 52 5

rehash-Rehashed_example :
    Returns {A = Outcome budget ℕ ℕ}
      (Settled budget one (Rehashed itself ◌==◌ one five 8))
      (rehash budget one 16 8)
rehash-Rehashed_example =
    rehash-Rehashed itself ◌==◌ itself-IsHashing budget one-Holds 16 8 (omega arith) refl
      (omega arith)

reserve-shrink_to_fit-Settled_example :
    Returns {A = Outcome budget ℕ ℕ}
      (Settled budget one (λ m. Holds itself ◌==◌ m five × (9 ≤ m.bucket_count)))
      (reserve budget one 16 9)
    × Returns {A = Outcome budget ℕ ℕ}
        (Settled budget one (λ m. Holds itself ◌==◌ m five × (m.bucket_count ≤ 2)))
        (shrink_to_fit budget one 16)
reserve-shrink_to_fit-Settled_example =
    reserve-shrink_to_fit-Settled itself ◌==◌ itself-IsHashing budget one-Holds 16 9

clear-Holds_example :
    Returns {A = Hmap ℕ ℕ × ℕ}
      (λ r. Holds itself ◌==◌ r.0 (λ q. none) × (◌≡◌ {A = ℕ} r.0.bucket_count 2))
      (clear budget one 52)
clear-Holds_example = clear-Holds itself ◌==◌ itself-IsHashing budget one-Holds 52

-- the set of the key 5
abbrev single : Hset ℕ
single = record {
  map = record {
    buckets = some ([] ∷ (record { hash = 5; key = 5; val = tt } ∷ []) ∷ []);
    bucket_count = 2;
    len = 1;
    key_size = 4;
    val_size = 0;
    val_offset = 4;
  };
}

single-IsSetOf : IsSetOf itself ◌==◌ (λ q. 5 == q) single
unfolding hits look get_or nodes
single-IsSetOf = record {
  mapping = λ q. if 5 == q then some tt else none;
  held = record {
    keyed = omega arith;
    table =
        set-IsTable itself ◌==◌ itself-IsHashing (empty-IsTable itself ◌==◌ 2) (omega arith) 5
          (some tt) (record { hash = 5; key = 5; val = tt } ∷ []) 1 (refl, tt) refl
          (λ q. ground arith) (λ q. ground arith);
    owned = refl;
    pow2 = refl;
    bytes = omega arith;
  };
  keys = λ q. ground arith;
}

contains-insert-remove-IsSetOf_example :
    (Hset.contains itself ◌==◌ single 7 ≡ done false)
    × Returns
        (Added itself ◌==◌ budget (λ q. 5 == q) 7)
        (Hset.insert itself ◌==◌ budget single 12 7)
    × Returns
        (Taken itself ◌==◌ budget (λ q. 5 == q) 7)
        (Hset.remove itself ◌==◌ budget single 12 7)
contains-insert-remove-IsSetOf_example =
    contains-insert-remove-IsSetOf itself ◌==◌ itself-IsHashing budget (λ st n e. refl)
      single-IsSetOf 12 7

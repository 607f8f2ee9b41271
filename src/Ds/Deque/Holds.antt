-- ===== src/Ds/Deque/Holds.antt =====
-- When a deque is well formed and holds the elems of a list, and its elems by index.
use c_nad.Prelude.{
  ℕ, ◌+◌, ◌-◌, ◌*◌, ◌^◌, ◌≤◌, ◌<◌, ◌≡◌, refl, ◌∙◌, Option, some, List, arith, ltb, ◌==◌,
  if◌then◌else◌, length, get_elem?, length-set, done, Returns,
}
use c_nad.Ds.Block.{slot, is_some, load-done, store-done, slot-set}
use c_nad.Ds.Deque.{Deque, block, assert_deque, slot_of, load_at, store_at, store_slot}

-- the slot of the elem at `i` in a ring of `n` slots whose front is in slot `head`
abbrev pub lap : ℕ → ℕ → ℕ → ℕ
lap n head i = if ltb (head + i) n then head + i else head + i - n

-- the bytes that a block may have: objects are not larger than PTRDIFF_MAX
abbrev pub block_max : ℕ
block_max = 2 ^ 63

-- the ring of `d` is sound: ASSERT_DEQUE's conditions and a block of `cap` slots
pub record IsRing {A : Type 0} (d : Deque A) : Type 0 where
  pub sized : 0 < d.elem_size
  pub room : d.len ≤ d.cap
  pub bytes : d.cap * d.elem_size < block_max
  pub full : length (block d) ≡ d.cap
  pub owned : is_some d.slots ≡ ltb 0 d.cap
  pub turned : d.head ≤ d.cap - 1

-- the elem at `i` of the ring, counted from the front
abbrev pub entry : {A : Type 0} → Deque A → ℕ → Option A
entry d i = slot (block d) (lap d.cap d.head i)

-- `d` holds `xs`
pub record Holds {A : Type 0} (d : Deque A) (xs : List A) : Type 0 where
  pub ring : IsRing d
  pub count : d.len ≡ length xs
  pub elems : (i : ℕ) → i < d.len → entry d i ≡ get_elem? xs i

-- `e` has the capacity and the elem size of `d`
pub record Keeps {A : Type 0} (d e : Deque A) : Type 0 where
  pub cap_kept : e.cap ≡ d.cap
  pub size_kept : e.elem_size ≡ d.elem_size

-- `e` is the ring of `d` with `f` as its elems
pub record RingWith {A : Type 0} (d : Deque A) (f : ℕ → Option A) (e : Deque A) : Type 0 where
  pub ring : IsRing e
  pub kept : Keeps d e
  pub len_kept : e.len ≡ d.len
  pub head_kept : e.head ≡ d.head
  pub at : (i : ℕ) → i < d.cap → entry e i ≡ f i

module _ {A : Type 0} {d : Deque A} (h : IsRing d) where
  -- A well-formed deque passes the assertion that every function starts with.
  pub assert_deque-done : assert_deque d ≡ done tt
  assert_deque-done = ground (arith, h.sized, h.room, h.owned, h.turned)

  cap_le : d.cap < block_max
  cap_le = grind (arith, h.bytes, h.sized)

  pub lap_lt : (i : ℕ) → i < d.cap → lap d.cap d.head i < d.cap
  lap_lt i p = ground (arith, h.turned)

  pub slot_of-done : (i : ℕ) → i < d.cap → slot_of d i ≡ done (lap d.cap d.head i)
  unfolding slot_of
  slot_of-done i p = ground (arith, h.turned, cap_le)

  pub load_at-done : (i : ℕ) {x : A} → i < d.cap → entry d i ≡ some x → load_at d i ≡ done x
  unfolding load_at
  load_at-done i p e = rw (slot_of-done i p) (load-done (block d) (lap d.cap d.head i) e)

  -- one elem of the ring replaced
  pub store_at-RingWith :
      (i : ℕ) (x : A)
      → i < d.cap
      → Returns (RingWith d (λ j. if i == j then some x else entry d j)) (store_at d i x)
  unfolding store_at store_slot
  store_at-RingWith i x p =
      let in_block : lap d.cap d.head i < length (block d) = omega (arith, h.full, lap_lt i p) in
      rw (slot_of-done i p, store-done (block d) (lap d.cap d.head i) x in_block)
        (
          _,
          refl,
          record {
            ring = record {
              sized = h.sized;
              room = h.room;
              bytes = h.bytes;
              full = length-set (block d) (lap d.cap d.head i) (some x) ∙ h.full;
              owned = ground (arith, lap_lt i p);
              turned = h.turned;
            };
            kept = record { cap_kept = refl; size_kept = refl };
            len_kept = refl;
            head_kept = refl;
            at = λ j q.
                slot-set (block d) (lap d.cap d.head i) (lap d.cap d.head j) (some x) in_block
                ∙ ground (arith, h.turned);
          },
        )

-- ===== src/Ds/Vec/Holds.antt =====
-- When a vec is well formed and holds the elems of a list.
use c_nad.Core.Size.{size_mod}
use c_nad.Prelude.{ℕ, ◌*◌, ◌≤◌, ◌<◌, ◌≡◌, List, arith, ltb, length, get_elem?, done}
use c_nad.Ds.Block.{slot, is_some}
use c_nad.Ds.Vec.{Vec, block, assert_vec}

-- `v` holds `xs`: ASSERT_VEC's conditions, a block of `cap` slots whose size in bytes fits size_t,
-- and the elems of `xs` in its first `len` slots.
pub record Holds {A : Type 0} (v : Vec A) (xs : List A) : Type 0 where
  pub sized : 0 < v.elem_size
  pub count : v.len ≡ length xs
  pub room : v.len ≤ v.cap
  pub bytes : v.cap * v.elem_size < size_mod
  pub full : length (block v) ≡ v.cap
  pub owned : is_some v.slots ≡ ltb 0 v.cap
  pub elems : (i : ℕ) → i < v.len → slot (block v) i ≡ get_elem? xs i

module _ {A : Type 0} {v : Vec A} {xs : List A} (h : Holds v xs) where
  -- A well-formed vec passes the assertion that every function starts with.
  pub assert_vec-done : assert_vec v ≡ done tt
  assert_vec-done = ground (arith, h.sized, h.room, h.owned)

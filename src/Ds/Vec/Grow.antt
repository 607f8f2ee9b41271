-- ===== src/Ds/Vec/Grow.antt =====
-- The part of src/ds/vec.c that allocates. The vec is returned with the allocator's state.
-- `zero_elem` is the elem whose bytes are all 0.
pub mod Reserve
pub mod Insert
pub mod Bulk
pub mod Shrink
pub mod Life
pub mod Copies
use c_nad.Alloc
use c_nad.Core.Size.{size_max, ckd_mul, ckd_add}
use c_nad.Prelude.{
  ℕ, ◌+◌, ◌-◌, Bool, true, ◌||◌, not, Option, none, some, List, ◌++◌, map, ltb, leb, ◌==◌,
  if◌then◌else◌, length, replicate, Exec, done, ◌>>=◌, ◌>>◌, check,
}
use c_nad.Core.Status.{Status, ok, no_mem, is_ok}
use c_nad.Alloc.{Al}
use c_nad.Ds.Block.{resized, write, fresh, is_some}
use c_nad.Ds.Vec.{Vec, block, assert_vec, len_bytes, cap_bytes, next_cap, store_at, shift}

-- what an operation that may allocate returns
abbrev pub Outcome : Al → Type 0 → Type 0
Outcome al A = Status × Vec A × al.State

module _ {A : Type 0} (al : Al) where
  -- the memory of `new_impl`: fresh slots, the first `len` of them zeroed on request
  abbrev pub new_slots : Bool → ℕ → ℕ → A → List (Option A)
  new_slots zeroed len capacity zero_elem =
      if zeroed then replicate len (some zero_elem) ++ fresh (capacity - len) else fresh capacity

  -- new_impl: `head_size` is sizeof(tda_Vec)
  pub new_impl : Bool → ℕ → ℕ → ℕ → ℕ → A → al.State → Exec (Option (Vec A) × al.State)
  new_impl zeroed len capacity elem_size head_size zero_elem st = do
    check (leb len capacity)
    check (ltb 0 elem_size)
    let (got_head, st₁) = Alloc.alloc al st head_size
    let fail : al.State → Exec (Option (Vec A) × al.State) =
        λ s. done (none, Alloc.dealloc al s true head_size)
    let with_block : Exec (Option (Vec A) × al.State) = elim (ckd_mul capacity elem_size) [
      | none ↦ fail st₁
      | some bytes ↦
          let (got_block, st₂) = Alloc.alloc al st₁ bytes in
          let made : Vec A = record {
            slots = some (new_slots zeroed len capacity zero_elem);
            len = len;
            cap = capacity;
            elem_size = elem_size;
          } in
          if got_block then assert_vec made >> done (some made, st₂) else fail st₂
    ]
    let empty : Vec A = record { slots = none; len = len; cap = capacity; elem_size = elem_size }
    if not got_head
        then done (none, st₁)
        else if ltb 0 capacity
        then with_block
        else assert_vec empty >> done (some empty, st₁)

  -- tda_vec_reserve
  pub reserve : Vec A → al.State → ℕ → Exec (Outcome al A)
  reserve v st new_cap = do
    assert_vec v
    if leb new_cap v.cap then done (ok, v, st) else elim (ckd_mul new_cap v.elem_size) [
      | none ↦ done (no_mem, v, st)
      | some new_bytes ↦ do
        (granted, st') ← Alloc.realloc al st (is_some v.slots) (cap_bytes v) new_bytes
        done (
            if granted
            then (ok, record v { slots = some (resized (block v) new_cap); cap = new_cap }, st')
            else (no_mem, v, st'))
    ]

  -- grow
  pub grow : Vec A → al.State → Exec (Outcome al A)
  grow v st = do
    check (v.len == v.cap)
    let wanted = next_cap v
    if v.cap == size_max then done (no_mem, v, st) else (do
      (s, w, st') ← reserve v st wanted
      if is_ok s || leb wanted (w.cap + 1) then done (s, w, st') else reserve w st' (w.cap + 1))

  -- reserve_one
  pub reserve_one : Vec A → al.State → Exec (Outcome al A)
  reserve_one v st = if v.len == v.cap then grow v st else done (ok, v, st)

  -- reserve_for
  pub reserve_for : Vec A → al.State → ℕ → Exec (Outcome al A)
  reserve_for v st new_len = do
    check (ltb v.cap new_len)
    let eager = next_cap v
    if ltb new_len eager
        then (do
          (s, w, st') ← reserve v st eager
          if is_ok s then done (s, w, st') else reserve w st' new_len)
        else reserve v st new_len

  -- tda_vec_push
  pub push : Vec A → al.State → A → Exec (Outcome al A)
  push v st val = do
    assert_vec v
    (s, w, st') ← reserve_one v st
    if not (is_ok s)
        then done (s, w, st')
        else (do x ← store_at w w.len val; done (ok, record x { len = w.len + 1 }, st'))

  -- tda_vec_insert
  pub insert : Vec A → al.State → ℕ → A → Exec (Outcome al A)
  insert v st idx val = do
    assert_vec v
    check (leb idx v.len)
    (s, w, st') ← reserve_one v st
    if not (is_ok s) then done (s, w, st') else (do
      x ← shift w (idx + 1) idx (w.len - idx)
      y ← store_at x idx val
      done (ok, record y { len = w.len + 1 }, st'))

  -- tda_vec_shrink_to_fit
  pub shrink_to_fit : Vec A → al.State → Exec (Outcome al A)
  shrink_to_fit v st = do
    assert_vec v
    let none_left : Vec A = record v { slots = none; cap = 0 }
    let shrunk : Vec A = record v { slots = some (resized (block v) v.len); cap = v.len }
    if v.len == v.cap
        then done (ok, v, st)
        else if v.len == 0
        then (do
          assert_vec none_left
          done (ok, none_left, Alloc.dealloc al st (is_some v.slots) (cap_bytes v)))
        else (do
          (granted, st') ← Alloc.realloc al st (is_some v.slots) (cap_bytes v) (len_bytes v)
          let smaller : Exec (Outcome al A) = assert_vec shrunk >> done (ok, shrunk, st')
          if granted then smaller else done (no_mem, v, st'))

  -- tda_vec_resize
  pub resize : Vec A → al.State → ℕ → A → Exec (Outcome al A)
  resize v st new_len zero_elem = do
    assert_vec v
    if leb new_len v.len then done (ok, record v { len = new_len }, st) else (do
      (s, w, st') ← if ltb v.cap new_len then reserve_for v st new_len else done (ok, v, st)
      if not (is_ok s) then done (s, w, st') else (do
        b ← write (block w) w.len (replicate (new_len - w.len) (some zero_elem))
        done (ok, record w { slots = some b; len = new_len }, st')))

  -- tda_vec_insert_span
  pub insert_span : Vec A → al.State → ℕ → List A → Exec (Outcome al A)
  insert_span v st idx src = do
    assert_vec v
    check (leb idx v.len)
    if length src == 0 then done (ok, v, st) else elim (ckd_add v.len (length src)) [
      | none ↦ done (no_mem, v, st)
      | some new_len ↦ do
        (s, w, st') ← if ltb v.cap new_len then reserve_for v st new_len else done (ok, v, st)
        if not (is_ok s) then done (s, w, st') else (do
          x ← shift w (idx + length src) idx (w.len - idx)
          b ← write (block x) idx (map some src)
          done (ok, record x { slots = some b; len = new_len }, st'))
    ]

  -- tda_vec_extend
  pub extend : Vec A → al.State → List A → Exec (Outcome al A)
  extend v st src = do assert_vec v; insert_span v st v.len src

  -- tda_vec_drop of a vec that is not null
  unfoldable pub drop : Vec A → ℕ → al.State → Exec al.State
  drop v head_size st = do
    assert_vec v
    done (Alloc.dealloc al (Alloc.dealloc al st (is_some v.slots) (cap_bytes v)) true head_size)

-- ===== src/Ds/Deque/Grow.antt =====
-- The part of src/ds/deque.c that allocates. The deque is returned with the allocator's state.
-- `zero_elem` is the elem whose bytes are all 0.
pub mod Unroll
pub mod Reserve
pub mod Insert
pub mod Bulk
pub mod Life
use c_nad.Alloc
use c_nad.Core.Size.{size_max, ckd_mul}
use c_nad.Prelude.{
  ℕ, ◌+◌, ◌-◌, Bool, true, ◌||◌, not, Option, none, some, List, ◌++◌, ltb, leb, ◌==◌, if◌then◌else◌,
  replicate, Exec, done, ◌>>=◌, ◌>>◌, check,
}
use c_nad.Core.Status.{Status, ok, no_mem, is_ok}
use c_nad.Alloc.{Al}
use c_nad.Ds.Block.{fresh, is_some}
use c_nad.Ds.Deque.{
  open_gap, zero_from, Deque, assert_deque, len_bytes, cap_bytes, next_cap, store_at, store_slot,
  copy_out, head_before,
}

-- what an operation that may allocate returns
abbrev pub Outcome : Al → Type 0 → Type 0
Outcome al A = Status × Deque A × al.State

module _ {A : Type 0} (al : Al) where
  -- the memory of `new_impl`: fresh slots, the first `len` of them zeroed on request
  abbrev pub new_slots : Bool → ℕ → ℕ → A → List (Option A)
  new_slots zeroed len capacity zero_elem =
      if zeroed then replicate len (some zero_elem) ++ fresh (capacity - len) else fresh capacity

  -- new_impl: `head_size` is sizeof(tda_Deque)
  pub new_impl : Bool → ℕ → ℕ → ℕ → ℕ → A → al.State → Exec (Option (Deque A) × al.State)
  new_impl zeroed len capacity elem_size head_size zero_elem st = do
    check (leb len capacity)
    check (ltb 0 elem_size)
    let (got_head, st₁) = Alloc.alloc al st head_size
    let fail : al.State → Exec (Option (Deque A) × al.State) =
        λ s. done (none, Alloc.dealloc al s true head_size)
    let with_block : Exec (Option (Deque A) × al.State) = elim (ckd_mul capacity elem_size) [
      | none ↦ fail st₁
      | some bytes ↦
          let (got_block, st₂) = Alloc.alloc al st₁ bytes in
          let made : Deque A = record {
            slots = some (new_slots zeroed len capacity zero_elem);
            len = len;
            cap = capacity;
            head = 0;
            elem_size = elem_size;
          } in
          if got_block then assert_deque made >> done (some made, st₂) else fail st₂
    ]
    let empty : Deque A = record {
      slots = none;
      len = len;
      cap = capacity;
      head = 0;
      elem_size = elem_size;
    }
    if not got_head
        then done (none, st₁)
        else if ltb 0 capacity
        then with_block
        else assert_deque empty >> done (some empty, st₁)

  -- the contents unrolled into a new block of `n` slots, and the old block given back
  pub renew : Deque A → al.State → ℕ → Exec (Outcome al A)
  renew d st n = do
    b ← copy_out d (fresh n)
    let e : Deque A = record d { slots = some b; cap = n; head = 0 }
    assert_deque e
    done (ok, e, Alloc.dealloc al st (is_some d.slots) (cap_bytes d))

  -- tda_deque_reserve
  pub reserve : Deque A → al.State → ℕ → Exec (Outcome al A)
  reserve d st new_cap = do
    assert_deque d
    if leb new_cap d.cap then done (ok, d, st) else elim (ckd_mul new_cap d.elem_size) [
      | none ↦ done (no_mem, d, st)
      | some new_bytes ↦
          let (granted, st') = Alloc.alloc al st new_bytes in
          let renewed = renew d st' new_cap in if granted then renewed else done (no_mem, d, st')
    ]

  -- grow
  pub grow : Deque A → al.State → Exec (Outcome al A)
  grow d st = do
    check (d.len == d.cap)
    let wanted = next_cap d
    if d.cap == size_max then done (no_mem, d, st) else (do
      (s, e, st') ← reserve d st wanted
      if is_ok s || leb wanted (e.cap + 1) then done (s, e, st') else reserve e st' (e.cap + 1))

  -- reserve_one
  pub reserve_one : Deque A → al.State → Exec (Outcome al A)
  reserve_one d st = if d.len == d.cap then grow d st else done (ok, d, st)

  -- reserve_for
  pub reserve_for : Deque A → al.State → ℕ → Exec (Outcome al A)
  reserve_for d st new_len = do
    check (ltb d.cap new_len)
    let eager = next_cap d
    if ltb new_len eager
        then (do
          (s, e, st') ← reserve d st eager
          if is_ok s then done (s, e, st') else reserve e st' new_len)
        else reserve d st new_len

  -- tda_deque_push_front
  pub push_front : Deque A → al.State → A → Exec (Outcome al A)
  push_front d st val = do
    assert_deque d
    (s, e, st') ← reserve_one d st
    if not (is_ok s) then done (s, e, st') else (do
      f ← store_slot (record e { head = head_before e }) (head_before e) val
      done (ok, record f { len = e.len + 1 }, st'))

  -- tda_deque_push_back
  pub push_back : Deque A → al.State → A → Exec (Outcome al A)
  push_back d st val = do
    assert_deque d
    (s, e, st') ← reserve_one d st
    if not (is_ok s)
        then done (s, e, st')
        else (do f ← store_at e e.len val; done (ok, record f { len = e.len + 1 }, st'))

  -- tda_deque_insert
  pub insert : Deque A → al.State → ℕ → A → Exec (Outcome al A)
  insert d st idx val = do
    assert_deque d
    check (leb idx d.len)
    (s, e, st') ← reserve_one d st
    if not (is_ok s)
        then done (s, e, st')
        else (do f ← open_gap e idx; g ← store_at f idx val; done (ok, g, st'))

  -- tda_deque_resize
  pub resize : Deque A → al.State → ℕ → A → Exec (Outcome al A)
  resize d st new_len zero_elem = do
    assert_deque d
    if leb new_len d.len then done (ok, record d { len = new_len }, st) else (do
      (s, e, st') ← if ltb d.cap new_len then reserve_for d st new_len else done (ok, d, st)
      if not (is_ok s) then done (s, e, st') else (do
        f ← zero_from (new_len - e.len) e e.len zero_elem
        assert_deque (record f { len = new_len })
        done (ok, record f { len = new_len }, st')))

  -- tda_deque_shrink_to_fit
  pub shrink_to_fit : Deque A → al.State → Exec (Outcome al A)
  shrink_to_fit d st = do
    assert_deque d
    let back = Alloc.dealloc al st (is_some d.slots) (cap_bytes d)
    let none_left : Deque A = record d { slots = none; cap = 0; head = 0 }
    let (granted, st') = Alloc.alloc al st (len_bytes d)
    let renewed = renew d st' d.len
    let smaller : Exec (Outcome al A) = if granted then renewed else done (no_mem, d, st')
    if d.len == d.cap
        then done (ok, d, st)
        else if d.len == 0
        then assert_deque none_left >> done (ok, none_left, back)
        else smaller

  -- tda_deque_drop of a deque that is not null
  pub drop : Deque A → ℕ → al.State → Exec al.State
  drop d head_size st = do
    assert_deque d
    done (Alloc.dealloc al (Alloc.dealloc al st (is_some d.slots) (cap_bytes d)) true head_size)

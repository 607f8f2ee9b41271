-- ===== src/Ds/Deque.antt =====
-- src/ds/deque.c: the ring. A function that changes the deque returns it, with its status where it
-- has one and the allocator's state where it may allocate. `trap` is a failed assertion, an access
-- outside the block, or a read of a slot that nothing was written to.
pub mod Holds
pub mod Slide
pub mod Mods
pub mod Grow
pub mod Compare
pub mod Swap
use c_nad.Core.Size.{size_max, ckd_mul, add_size, mul_size}
use c_nad.Prelude.{
  ℕ, zero, suc, ◌+◌, ◌-◌, ◌/◌, ◌&&◌, ◌||◌, not, Option, none, some, List, [], ltb, leb, ◌==◌,
  if◌then◌else◌, Exec, done, ◌>>=◌, ◌>>◌, check,
}
use c_nad.Ds.Block.{store, load, read, write, is_some}

-- struct tda_Deque; `slots` is the block at `data`, `none` for a null pointer
pub record Deque {ℓ} (A : Type ℓ) : Type ℓ where
  pub slots : Option (List (Option A))
  pub len : ℕ
  pub cap : ℕ
  pub head : ℕ
  pub elem_size : ℕ

module _ {ℓ} {A : Type ℓ} where
  -- the slots of the block, none of them behind a null pointer
  abbrev pub block : Deque A → List (Option A)
  block d = elim d.slots [ none ↦ [] | some b ↦ b ]

  -- ASSERT_DEQUE
  abbrev pub assert_deque : Deque A → Exec (Unit {0})
  assert_deque d = check (
      ltb 0 d.elem_size
      && (leb d.len d.cap
          && ((d.cap == 0 || is_some d.slots)
              && ((not (is_some d.slots) || ltb 0 d.cap)
                  && ((d.cap == 0 || ltb d.head d.cap) && (ltb 0 d.cap || d.head == 0))))))

  -- len_bytes, cap_bytes
  abbrev pub len_bytes : Deque A → ℕ
  len_bytes d = mul_size d.len d.elem_size

  abbrev pub cap_bytes : Deque A → ℕ
  cap_bytes d = mul_size d.cap d.elem_size

  -- next_cap
  pub next_cap : Deque A → ℕ
  next_cap d =
      if d.cap == 0 then 1 else elim (ckd_mul d.cap 2) [ none ↦ size_max | some grown ↦ grown ]

  -- slot_of
  pub slot_of : Deque A → ℕ → Exec ℕ
  slot_of d idx = do
    check (ltb 0 d.cap)
    check (ltb idx d.cap)
    let raw = add_size d.head idx
    done (if ltb raw d.cap then raw else raw - d.cap)

  -- a read through elem_at
  pub load_at : Deque A → ℕ → Exec A
  load_at d idx = do i ← slot_of d idx; load (block d) i

  -- a write through slot_at_mut
  pub store_slot : Deque A → ℕ → A → Exec (Deque A)
  store_slot d i val = do b ← store (block d) i val; done (record d { slots = some b })

  -- a write through elem_at_mut
  pub store_at : Deque A → ℕ → A → Exec (Deque A)
  store_at d idx val = do i ← slot_of d idx; store_slot d i val

  -- first_run
  pub first_run : Deque A → ℕ
  first_run d = let to_end = d.cap - d.head in if ltb to_end d.len then to_end else d.len

  -- copy_out, into the block `dst`
  pub copy_out : Deque A → List (Option A) → Exec (List (Option A))
  copy_out d dst =
      let run = first_run d in
      let runs : Exec (List (Option A)) = do
        front ← read (block d) d.head run
        b ← write dst 0 front
        let wrapped : Exec (List (Option A)) = do
          rest ← read (block d) 0 (d.len - run)
          write b run rest
        if ltb run d.len then wrapped else done b
      in if d.len == 0 then done dst else runs

  -- move_elem
  pub move_elem : Deque A → ℕ → ℕ → Exec (Deque A)
  move_elem d to from = do x ← load_at d from; store_at d to x

  -- the loop of insert and remove that moves `n` elems, from `i + 1` on, one place to the front
  pub slide_front : ℕ → Deque A → ℕ → Exec (Deque A)
  slide_front zero d i = done d
  slide_front (suc n) d i = move_elem d i (i + 1) >>= λ e. slide_front n e (i + 1)

  -- the loop of insert and remove that moves `n` elems, from `lo` on, one place to the back; its
  -- index counts down from `lo + n`
  pub slide_back : ℕ → Deque A → ℕ → Exec (Deque A)
  slide_back zero d lo = done d
  slide_back (suc n) d lo = move_elem d (lo + n + 1) (lo + n) >>= λ e. slide_back n e lo

  -- the head one slot back, one slot on
  pub head_before : Deque A → ℕ
  head_before d = if d.head == 0 then d.cap - 1 else d.head - 1

  pub head_after : Deque A → ℕ
  head_after d = if d.head + 1 == d.cap then 0 else d.head + 1

  -- the elems of insert, once there is room: the shorter side moves
  pub open_gap : Deque A → ℕ → Exec (Deque A)
  open_gap d idx =
      if leb idx (d.len / 2)
      then slide_front idx (record d { head = head_before d; len = d.len + 1 }) 0
      else slide_back (d.len - idx) (record d { len = d.len + 1 }) idx

  -- the loop of resize: `n` elems from `i` on are zeroed
  zero_from : ℕ → Deque A → ℕ → A → Exec (Deque A)
  zero_from zero d i zero_elem = done d
  zero_from (suc n) d i zero_elem = store_at d i zero_elem >>= λ e. zero_from n e (i + 1) zero_elem

  -- tda_deque_get, tda_deque_get_mut
  pub get : Deque A → ℕ → Exec A
  get d idx = do assert_deque d; check (ltb idx d.len); load_at d idx

  -- tda_deque_front, tda_deque_front_mut
  pub front : Deque A → Exec A
  front d = do assert_deque d; check (ltb 0 d.len); load_at d 0

  -- tda_deque_back, tda_deque_back_mut
  pub back : Deque A → Exec A
  back d = do assert_deque d; check (ltb 0 d.len); load_at d (d.len - 1)

  -- tda_deque_set
  pub set : Deque A → ℕ → A → Exec (Deque A)
  set d idx val = do assert_deque d; check (ltb idx d.len); store_at d idx val

  -- tda_deque_pop_front
  pub pop_front : Deque A → Exec (Deque A)
  pop_front d = do
    assert_deque d
    check (ltb 0 d.len)
    done (record d { head = head_after d; len = d.len - 1 })

  -- tda_deque_pop_back
  pub pop_back : Deque A → Exec (Deque A)
  pop_back d = do assert_deque d; check (ltb 0 d.len); done (record d { len = d.len - 1 })

  -- tda_deque_remove
  pub remove : Deque A → ℕ → Exec (Deque A)
  remove d idx = do
    assert_deque d
    check (ltb idx d.len)
    let from_front : Exec (Deque A) = do
      e ← slide_back idx d 0
      done (record e { head = head_after e; len = e.len - 1 })
    let from_back : Exec (Deque A) = do
      e ← slide_front (d.len - idx - 1) d idx
      done (record e { len = e.len - 1 })
    if ltb idx (d.len - idx - 1) then from_front else from_back

  -- tda_deque_clear
  pub clear : Deque A → Exec (Deque A)
  clear d = do assert_deque d; done (record d { len = 0; head = 0 })

  -- tda_deque_swap_elems
  pub swap_elems : Deque A → ℕ → ℕ → Exec (Deque A)
  swap_elems d i j = do
    assert_deque d
    check (ltb i d.len)
    check (ltb j d.len)
    let swapped : Exec (Deque A) = do
      x ← load_at d i
      y ← load_at d j
      e ← store_at d i y
      store_at e j x
    if i == j then done d else swapped

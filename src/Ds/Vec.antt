-- ===== src/Ds/Vec.antt =====
-- src/ds/vec.c: the growable array. A function that changes the vec returns it, with its status
-- where it has one and the allocator's state where it may allocate. `trap` is a failed assertion
-- or an access outside the block. Both vecs of an assignment stand on one allocator.
pub mod Holds
pub mod Grow
pub mod Mods
use c_nad.Core.Size.{size_max, ckd_mul, mul_size}
use c_nad.Prelude.{
  ℕ, zero, suc, ◌+◌, ◌-◌, ◌&&◌, ◌||◌, not, Option, none, some, List, [], ◌∷◌, ltb, leb, ◌==◌,
  if◌then◌else◌, Exec, done, trap, ◌>>=◌, ◌>>◌, check, or_trap,
}
use c_nad.Ds.Block.{store, load, move, is_some}

-- struct tda_Vec; `slots` is the block at `data`, `none` for a null pointer
pub record Vec {ℓ} (A : Type ℓ) : Type ℓ where
  pub slots : Option (List (Option A))
  pub len : ℕ
  pub cap : ℕ
  pub elem_size : ℕ

module _ {ℓ} {A : Type ℓ} where
  -- the slots of the block, none of them behind a null pointer
  abbrev pub block : Vec A → List (Option A)
  block v = elim v.slots [ none ↦ [] | some b ↦ b ]

  -- ASSERT_VEC
  abbrev pub assert_vec : Vec A → Exec (Unit {0})
  assert_vec v = check (
      ltb 0 v.elem_size
      && (leb v.len v.cap
          && ((v.cap == 0 || is_some v.slots) && (not (is_some v.slots) || ltb 0 v.cap))))

  -- len_bytes, cap_bytes
  abbrev pub len_bytes : Vec A → ℕ
  len_bytes v = mul_size v.len v.elem_size

  abbrev pub cap_bytes : Vec A → ℕ
  cap_bytes v = mul_size v.cap v.elem_size

  -- next_cap
  pub next_cap : Vec A → ℕ
  next_cap v =
      if v.cap == 0 then 1 else elim (ckd_mul v.cap 2) [ none ↦ size_max | some grown ↦ grown ]

  -- a write through vec_offset_mut
  store_at : Vec A → ℕ → A → Exec (Vec A)
  store_at v idx val = do b ← store (block v) idx val; done (record v { slots = some b })

  -- the view of the first `n` elems of a block
  to_span_from : List (Option A) → ℕ → Exec (List A)
  to_span_from b zero = done []
  to_span_from [] (suc n) = trap
  to_span_from (x ∷ b) (suc n) = do elem ← or_trap x; rest ← to_span_from b n; done (elem ∷ rest)

  -- tda_vec_get, tda_vec_get_mut
  pub get : Vec A → ℕ → Exec A
  get v idx = do assert_vec v; check (ltb idx v.len); load (block v) idx

  -- tda_vec_front, tda_vec_front_mut
  pub front : Vec A → Exec A
  front v = do assert_vec v; check (ltb 0 v.len); load (block v) 0

  -- tda_vec_back, tda_vec_back_mut
  pub back : Vec A → Exec A
  back v = do assert_vec v; check (ltb 0 v.len); load (block v) (v.len - 1)

  -- tda_vec_set
  pub set : Vec A → ℕ → A → Exec (Vec A)
  set v idx val = do assert_vec v; check (ltb idx v.len); store_at v idx val

  -- tda_vec_pop
  pub pop : Vec A → Exec (Vec A)
  pop v = do assert_vec v; check (ltb 0 v.len); done (record v { len = v.len - 1 })

  -- the memmove of `tail` elems that insert and remove make, if there are any
  pub shift : Vec A → ℕ → ℕ → ℕ → Exec (Vec A)
  shift v dst src tail =
      if ltb 0 tail
      then (do b ← move (block v) dst src tail; done (record v { slots = some b }))
      else done v

  -- tda_vec_remove
  pub remove : Vec A → ℕ → Exec (Vec A)
  remove v idx = do
    assert_vec v
    check (ltb idx v.len)
    w ← shift v idx (idx + 1) (v.len - idx - 1)
    done (record w { len = v.len - 1 })

  -- tda_vec_remove_range
  pub remove_range : Vec A → ℕ → ℕ → Exec (Vec A)
  remove_range v idx count = do
    assert_vec v
    check (leb idx v.len)
    check (leb count (v.len - idx))
    if count == 0 then done v else (do
      w ← shift v idx (idx + count) (v.len - idx - count)
      done (record w { len = v.len - count }))

  -- tda_vec_clear
  pub clear : Vec A → Exec (Vec A)
  clear v = do assert_vec v; done (record v { len = 0 })

  -- tda_vec_to_span
  pub to_span : Vec A → Exec (List A)
  unfolding to_span_from
  to_span v = do assert_vec v; to_span_from (block v) v.len

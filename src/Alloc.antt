-- ===== src/Alloc.antt =====
-- include/tda/alloc/alloc.h and src/alloc/alloc.c: the allocator table and its four wrappers.
-- The callbacks run on the allocator's own state. A pointer shows as whether it is null; the
-- contents of a block belong to the container that owns it.
pub mod Ledger
use c_nad.Core.Size.{ckd_mul}
use c_nad.Prelude.{
  ℕ, Bool, true, false, ◌||◌, Option, none, some, ◌==◌, if◌then◌else◌, Exec, done, ◌>>◌, check,
}

-- tda_Al: a null calloc or realloc is `none`. A callback tells whether it returns a block. The table
-- has no `aligned`: it stands for the address that alloc_cb returns, and tells whether that is a
-- multiple of alignof(max_align_t), which is all that the code asks of an address.
pub record Al : Type 1 where
  pub State : Type 0
  pub alloc_cb : State → ℕ → Bool × State
  pub calloc_cb : Option (State → ℕ → ℕ → Bool × State)
  pub realloc_cb : Option (State → Bool → ℕ → ℕ → Bool × State)
  pub dealloc_cb : State → ℕ → State
  pub aligned : State → ℕ → Bool

module _ (al : Al) where
  -- tda_dealloc
  unfoldable pub dealloc : al.State → Bool → ℕ → al.State
  dealloc st ptr size = if ptr then al.dealloc_cb st size else st

  -- tda_alloc
  unfoldable pub alloc : al.State → ℕ → Bool × al.State
  alloc st size = if size == 0 then (false, st) else al.alloc_cb st size

  -- tda_calloc
  unfoldable pub calloc : al.State → ℕ → ℕ → Bool × al.State
  unfolding alloc
  calloc st num size = if num == 0 || size == 0 then (false, st) else elim (ckd_mul num size) [
    | none ↦ (false, st)
    | some total ↦ elim al.calloc_cb [ none ↦ alloc st total | some f ↦ f st num size ]
  ]

  -- tda_realloc
  unfoldable pub realloc : al.State → Bool → ℕ → ℕ → Exec (Bool × al.State)
  unfolding alloc dealloc
  realloc st ptr old_size new_size = do
    check (ptr || old_size == 0)
    if new_size == 0 then done (false, dealloc st ptr old_size) else elim al.realloc_cb [
      | none ↦
          let (granted, st') = alloc st new_size in
          done (if granted then (true, dealloc st' ptr old_size) else (false, st'))
      | some f ↦ done (f st ptr old_size new_size)
    ]

-- ===== src/Ds/Stack.antt =====
-- src/ds/stack.c: a vec whose end is the top. `vec_size` and `head_size` are sizeof(tda_Vec) and
-- sizeof(tda_Stack); a constructor returns `none` on TDA_STATUS_ERR_NO_MEM. The pointer that
-- ASSERT_STACK tests is a field here, so it holds of every stack.
pub mod Lifo
use c_nad.Alloc
use c_nad.Ds.Vec
use c_nad.Ds.Vec.Grow
use c_nad.Ds.Vec.Grow.Life
use c_nad.Prelude.{
  ℕ, true, Option, none, some, List, ltb, if◌then◌else◌, Exec, done, ◌>>=◌, ◌>>◌, check,
}
use c_nad.Alloc.{Al}
use c_nad.Core.Status.{Status}
use c_nad.Ds.Vec.{Vec, to_span}

-- struct tda_Stack
pub record Stack (A : Type 0) : Type 0 where
  pub vec : Vec A

module _ {A : Type 0} where
  -- tda_stack_top, tda_stack_top_mut
  pub top : Stack A → Exec A
  top s = do check (ltb 0 s.vec.len); Vec.back s.vec

  -- tda_stack_pop
  pub pop : Stack A → Exec (Stack A)
  pop s = do check (ltb 0 s.vec.len); v ← Vec.pop s.vec; done (record { vec = v })

  -- tda_stack_clear
  pub clear : Stack A → Exec (Stack A)
  clear s = do v ← Vec.clear s.vec; done (record { vec = v })

  -- tda_stack_to_span
  pub elems : Stack A → Exec (List A)
  elems s = to_span s.vec

-- what an operation that may allocate returns
abbrev pub Outcome : Al → Type 0 → Type 0
Outcome al A = Status × Stack A × al.State

module _ {A : Type 0} (al : Al) where
  -- tda_stack_push
  pub push : Stack A → al.State → A → Exec (Outcome al A)
  push s st val = do (r, v, st') ← Vec.Grow.push al s.vec st val; done (r, record { vec = v }, st')

  -- tda_stack_reserve
  pub reserve : Stack A → al.State → ℕ → Exec (Outcome al A)
  reserve s st new_cap = do
    (r, v, st') ← Vec.Grow.reserve al s.vec st new_cap
    done (r, record { vec = v }, st')

  -- tda_stack_shrink_to_fit
  pub shrink_to_fit : Stack A → al.State → Exec (Outcome al A)
  shrink_to_fit s st = do
    (r, v, st') ← Vec.Grow.shrink_to_fit al s.vec st
    done (r, record { vec = v }, st')

  -- tda_stack_drop of a stack that is not null
  pub drop : Stack A → ℕ → ℕ → al.State → Exec al.State
  drop s vec_size head_size st = do
    st' ← Vec.Grow.drop al s.vec vec_size st
    done (Alloc.dealloc al st' true head_size)

  -- tda_stack_into_vec
  pub into_vec : Stack A → ℕ → al.State → Vec A × al.State
  into_vec s head_size st = (s.vec, Alloc.dealloc al st true head_size)

module _ {A : Type 0} (al : Al) (vec_size head_size : ℕ) (zero_elem : A) where
  -- wrap: a vec whose stack is refused is dropped
  pub wrap : Vec A → al.State → Exec (Option (Stack A) × al.State)
  wrap v st =
      let (granted, st') = Alloc.alloc al st head_size in
      let refused : Exec (Option (Stack A) × al.State) = do
        st'' ← Vec.Grow.drop al v vec_size st'
        done (none, st'')
      in if granted then done (some (record { vec = v }), st') else refused

  -- a vec made and wrapped
  wrap_made : Option (Vec A) × al.State → Exec (Option (Stack A) × al.State)
  unfolding wrap
  wrap_made (none, st) = done (none, st)
  wrap_made (some v, st) = wrap v st

  -- tda_stack_new
  pub new : ℕ → al.State → Exec (Option (Stack A) × al.State)
  unfolding wrap_made
  new elem_size st = do
    check (ltb 0 elem_size)
    r ← Vec.Grow.Life.new al vec_size zero_elem elem_size st
    wrap_made r

  -- tda_stack_new_cap
  pub new_cap : ℕ → ℕ → al.State → Exec (Option (Stack A) × al.State)
  unfolding wrap_made
  new_cap capacity elem_size st = do
    check (ltb 0 elem_size)
    r ← Vec.Grow.Life.new_cap al vec_size zero_elem capacity elem_size st
    wrap_made r

  -- tda_stack_from_data, tda_stack_from_span
  pub from_data : List A → ℕ → al.State → Exec (Option (Stack A) × al.State)
  unfolding wrap_made
  from_data src elem_size st = do
    check (ltb 0 elem_size)
    r ← Vec.Grow.Life.from_data al vec_size zero_elem src elem_size st
    wrap_made r

  -- tda_stack_copy_with, and tda_stack_copy on the allocator of the stack
  pub copy_with : Stack A → al.State → Exec (Option (Stack A) × al.State)
  unfolding wrap_made
  copy_with s st = do r ← Vec.Grow.Life.copy_with al vec_size zero_elem s.vec st; wrap_made r

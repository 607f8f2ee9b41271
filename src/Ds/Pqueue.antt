-- ===== src/Ds/Pqueue.antt =====
-- src/ds/pqueue.c: a vec whose elems are kept a heap. `vec_size` and `head_size` are sizeof(tda_Vec)
-- and sizeof(tda_PQueue); a constructor returns `none` on TDA_STATUS_ERR_NO_MEM. The pointers that
-- ASSERT_PQUEUE tests are fields here, so it holds of every queue.
pub mod Order
pub mod Made
use c_nad.Alloc
use c_nad.Ds.Vec
use c_nad.Ds.Vec.Grow
use c_nad.Ds.Vec.Grow.Life
use c_nad.Core.Cmp.{Cmp}
use c_nad.Prelude.{
  ℕ, true, not, Option, none, some, List, map, ltb, if◌then◌else◌, Exec, done, ◌>>=◌, ◌>>◌, check,
}
use c_nad.Alloc.{Al}
use c_nad.Algo.Heap.{make_heap, push_heap, pop_heap}
use c_nad.Core.Status.{Status, ok, is_ok}
use c_nad.Ds.Block.{write}
use c_nad.Ds.Vec.{Vec, block, to_span}

-- struct tda_PQueue
pub record Pqueue (A : Type 0) : Type 0 where
  pub vec : Vec A
  pub cmp : Cmp A

module _ {A : Type 0} where
  -- a call on tda_vec_to_span_mut(v), which writes through to the elems of the vec
  pub on_elems : Vec A → (List A → Exec (List A)) → Exec (Vec A)
  on_elems v f = do
    s ← to_span v
    t ← f s
    b ← write (block v) 0 (map some t)
    done (record v { slots = elim v.slots [ none ↦ none | some old ↦ some b ] })

  -- tda_pqueue_top
  pub top : Pqueue A → Exec A
  top q = do check (ltb 0 q.vec.len); Vec.front q.vec

  -- tda_pqueue_pop
  pub pop : Pqueue A → Exec (Pqueue A)
  unfolding on_elems
  pop q = do
    check (ltb 0 q.vec.len)
    v ← on_elems q.vec (λ s. pop_heap s q.cmp)
    w ← Vec.pop v
    done (record q { vec = w })

  -- tda_pqueue_clear
  pub clear : Pqueue A → Exec (Pqueue A)
  clear q = do v ← Vec.clear q.vec; done (record q { vec = v })

  -- tda_pqueue_to_span
  pub elems : Pqueue A → Exec (List A)
  elems q = to_span q.vec

-- what an operation that may allocate returns
abbrev pub Outcome : Al → Type 0 → Type 0
Outcome al A = Status × Pqueue A × al.State

module _ {A : Type 0} (al : Al) where
  -- tda_pqueue_push
  pub push : Pqueue A → al.State → A → Exec (Outcome al A)
  unfolding on_elems
  push q st val = do
    (s, v, st') ← Vec.Grow.push al q.vec st val
    if not (is_ok s)
        then done (s, record q { vec = v }, st')
        else (do w ← on_elems v (λ t. push_heap t q.cmp); done (ok, record q { vec = w }, st'))

  -- tda_pqueue_reserve
  pub reserve : Pqueue A → al.State → ℕ → Exec (Outcome al A)
  reserve q st new_cap = do
    (s, v, st') ← Vec.Grow.reserve al q.vec st new_cap
    done (s, record q { vec = v }, st')

  -- tda_pqueue_shrink_to_fit
  pub shrink_to_fit : Pqueue A → al.State → Exec (Outcome al A)
  shrink_to_fit q st = do
    (s, v, st') ← Vec.Grow.shrink_to_fit al q.vec st
    done (s, record q { vec = v }, st')

  -- tda_pqueue_drop of a queue that is not null
  pub drop : Pqueue A → ℕ → ℕ → al.State → Exec al.State
  drop q vec_size head_size st = do
    st' ← Vec.Grow.drop al q.vec vec_size st
    done (Alloc.dealloc al st' true head_size)

  -- tda_pqueue_into_vec
  pub into_vec : Pqueue A → ℕ → al.State → Vec A × al.State
  into_vec q head_size st = (q.vec, Alloc.dealloc al st true head_size)

module _ {A : Type 0} (al : Al) (vec_size head_size : ℕ) (zero_elem : A) where
  -- wrap: a vec whose queue is refused is dropped
  pub wrap : Vec A → Cmp A → al.State → Exec (Option (Pqueue A) × al.State)
  wrap v cmp st =
      let (granted, st') = Alloc.alloc al st head_size in
      let refused : Exec (Option (Pqueue A) × al.State) = do
        st'' ← Vec.Grow.drop al v vec_size st'
        done (none, st'')
      in if granted then done (some (record { vec = v; cmp = cmp }), st') else refused

  -- a vec made and wrapped
  wrap_made : Cmp A → Option (Vec A) × al.State → Exec (Option (Pqueue A) × al.State)
  wrap_made cmp (none, st) = done (none, st)
  wrap_made cmp (some v, st) = wrap v cmp st

  -- tda_pqueue_new
  pub new : ℕ → Cmp A → al.State → Exec (Option (Pqueue A) × al.State)
  unfolding wrap_made wrap
  new elem_size cmp st = do
    check (ltb 0 elem_size)
    r ← Vec.Grow.Life.new al vec_size zero_elem elem_size st
    wrap_made cmp r

  -- tda_pqueue_new_cap
  pub new_cap : ℕ → ℕ → Cmp A → al.State → Exec (Option (Pqueue A) × al.State)
  unfolding wrap_made wrap
  new_cap capacity elem_size cmp st = do
    check (ltb 0 elem_size)
    r ← Vec.Grow.Life.new_cap al vec_size zero_elem capacity elem_size st
    wrap_made cmp r

  -- make_heap over the elems of a new vec, wrapped
  heap_made : Cmp A → Option (Vec A) × al.State → Exec (Option (Pqueue A) × al.State)
  unfolding wrap on_elems
  heap_made cmp (none, st) = done (none, st)
  heap_made cmp (some v, st) = do w ← on_elems v (λ s. make_heap s cmp); wrap w cmp st

  -- tda_pqueue_from_data, tda_pqueue_from_span
  pub from_data : List A → ℕ → Cmp A → al.State → Exec (Option (Pqueue A) × al.State)
  unfolding heap_made
  from_data src elem_size cmp st = do
    check (ltb 0 elem_size)
    r ← Vec.Grow.Life.from_data al vec_size zero_elem src elem_size st
    heap_made cmp r

  -- tda_pqueue_copy_with, and tda_pqueue_copy on the allocator of the queue
  pub copy_with : Pqueue A → al.State → Exec (Option (Pqueue A) × al.State)
  unfolding wrap_made wrap
  copy_with q st = do r ← Vec.Grow.Life.copy_with al vec_size zero_elem q.vec st; wrap_made q.cmp r

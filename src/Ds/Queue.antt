-- ===== src/Ds/Queue.antt =====
-- src/ds/queue.c: a deque that takes elems at the back and gives them at the front. `deque_size`
-- and `head_size` are sizeof(tda_Deque) and sizeof(tda_Queue); a constructor returns `none` on
-- TDA_STATUS_ERR_NO_MEM. The pointer that ASSERT_QUEUE tests is a field here, so it holds of every
-- queue.
pub mod Fifo
use c_nad.Alloc
use c_nad.Ds.Deque
use c_nad.Ds.Deque.Grow
use c_nad.Ds.Deque.Grow.Life
use c_nad.Prelude.{
  ℕ, true, Option, none, some, List, ltb, if◌then◌else◌, Exec, done, ◌>>=◌, ◌>>◌, check,
}
use c_nad.Alloc.{Al}
use c_nad.Core.Status.{Status}
use c_nad.Ds.Deque.{Deque}

-- struct tda_Queue
pub record Queue (A : Type 0) : Type 0 where
  pub deque : Deque A

module _ {A : Type 0} where
  -- tda_queue_front, tda_queue_front_mut
  pub front : Queue A → Exec A
  front q = do check (ltb 0 q.deque.len); Deque.front q.deque

  -- tda_queue_back, tda_queue_back_mut
  pub back : Queue A → Exec A
  back q = do check (ltb 0 q.deque.len); Deque.back q.deque

  -- tda_queue_pop
  pub pop : Queue A → Exec (Queue A)
  pop q = do check (ltb 0 q.deque.len); d ← Deque.pop_front q.deque; done (record { deque = d })

  -- tda_queue_clear
  pub clear : Queue A → Exec (Queue A)
  clear q = do d ← Deque.clear q.deque; done (record { deque = d })

-- what an operation that may allocate returns
abbrev pub Outcome : Al → Type 0 → Type 0
Outcome al A = Status × Queue A × al.State

module _ {A : Type 0} (al : Al) where
  -- tda_queue_push
  pub push : Queue A → al.State → A → Exec (Outcome al A)
  push q st val = do
    (r, d, st') ← Deque.Grow.push_back al q.deque st val
    done (r, record { deque = d }, st')

  -- tda_queue_reserve
  pub reserve : Queue A → al.State → ℕ → Exec (Outcome al A)
  reserve q st new_cap = do
    (r, d, st') ← Deque.Grow.reserve al q.deque st new_cap
    done (r, record { deque = d }, st')

  -- tda_queue_shrink_to_fit
  pub shrink_to_fit : Queue A → al.State → Exec (Outcome al A)
  shrink_to_fit q st = do
    (r, d, st') ← Deque.Grow.shrink_to_fit al q.deque st
    done (r, record { deque = d }, st')

  -- tda_queue_drop of a queue that is not null
  pub drop : Queue A → ℕ → ℕ → al.State → Exec al.State
  drop q deque_size head_size st = do
    st' ← Deque.Grow.drop al q.deque deque_size st
    done (Alloc.dealloc al st' true head_size)

  -- tda_queue_into_deque
  pub into_deque : Queue A → ℕ → al.State → Deque A × al.State
  into_deque q head_size st = (q.deque, Alloc.dealloc al st true head_size)

module _ {A : Type 0} (al : Al) (deque_size head_size : ℕ) (zero_elem : A) where
  -- wrap: a deque whose queue is refused is dropped
  pub wrap : Deque A → al.State → Exec (Option (Queue A) × al.State)
  wrap d st =
      let (granted, st') = Alloc.alloc al st head_size in
      let refused : Exec (Option (Queue A) × al.State) = do
        st'' ← Deque.Grow.drop al d deque_size st'
        done (none, st'')
      in if granted then done (some (record { deque = d }), st') else refused

  -- a deque made and wrapped
  wrap_made : Option (Deque A) × al.State → Exec (Option (Queue A) × al.State)
  unfolding wrap
  wrap_made (none, st) = done (none, st)
  wrap_made (some d, st) = wrap d st

  -- tda_queue_new
  pub new : ℕ → al.State → Exec (Option (Queue A) × al.State)
  unfolding wrap_made
  new elem_size st = do
    check (ltb 0 elem_size)
    r ← Deque.Grow.Life.new al deque_size zero_elem elem_size st
    wrap_made r

  -- tda_queue_new_cap
  pub new_cap : ℕ → ℕ → al.State → Exec (Option (Queue A) × al.State)
  unfolding wrap_made
  new_cap capacity elem_size st = do
    check (ltb 0 elem_size)
    r ← Deque.Grow.Life.new_cap al deque_size zero_elem capacity elem_size st
    wrap_made r

  -- tda_queue_from_data, tda_queue_from_span
  pub from_data : List A → ℕ → al.State → Exec (Option (Queue A) × al.State)
  unfolding wrap_made
  from_data src elem_size st = do
    check (ltb 0 elem_size)
    r ← Deque.Grow.Life.from_data al deque_size zero_elem src elem_size st
    wrap_made r

  -- tda_queue_copy_with, and tda_queue_copy on the allocator of the queue
  pub copy_with : Queue A → al.State → Exec (Option (Queue A) × al.State)
  unfolding wrap_made
  copy_with q st = do r ← Deque.Grow.Life.copy_with al deque_size zero_elem q.deque st; wrap_made r

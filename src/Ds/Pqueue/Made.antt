-- ===== src/Ds/Pqueue/Made.antt =====
-- A priority queue made from the elems of a span.
use c_nad.Alloc
use c_nad.Ds.Vec.Grow
use c_nad.Ds.Vec.Grow.Life
use c_nad.Ds.Vec
use c_nad.Core.Cmp.{Cmp, IsOrder}
use c_nad.Prelude.{ℕ, ◌*◌, ◌≡◌, ◌⊎◌, false, Option, none, some, List, length, done}
use c_nad.Alloc.{Al}
use c_nad.Ds.Vec.{Vec}
use c_nad.Ds.Vec.Holds.{Holds}
use c_nad.Ds.Pqueue.{Pqueue, from_data}

module _ {A : Type 0} (d : A) (al : Al) (vec_size head_size : ℕ) (zero_elem : A) (cmp : Cmp A)
    (o : IsOrder cmp) where
  -- With success `P` holds of the queue; without, the vec of the elems was refused, or too large, or
  -- it was made and the struct around it was refused in the state that this left.
  pub Wrapped : List A → ℕ → al.State → (Pqueue A → Type 0) → Option (Pqueue A) × al.State → Type 0
  Wrapped src elem_size st P (some q, st') = P q
  Wrapped src elem_size st P (none, st') =
      Vec.Grow.Life.Refused al vec_size zero_elem (length src * elem_size) st
      ⊎ ((v : Vec A) × (later : al.State) × (Vec.Grow.Life.from_data al vec_size zero_elem src
              elem_size st
            ≡ done (some v, later))
          × ((Alloc.alloc al later head_size).0 ≡ false))

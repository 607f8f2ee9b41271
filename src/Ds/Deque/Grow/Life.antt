-- ===== src/Ds/Deque/Grow/Life.antt =====
-- The constructors and copies of src/ds/deque.c. A constructor returns the deque, or `none` with
-- TDA_STATUS_ERR_NO_MEM, and the allocator's state.
use c_nad.Alloc
use c_nad.Core.Size.{size_mod}
use c_nad.Prelude.{
  ℕ, ◌+◌, ◌*◌, ◌≤◌, ◌<◌, ◌≡◌, refl, sym, ◌∙◌, inl, inr, Bool, true, false, not, Option, none, some,
  List, map, arith, ltb, ◌==◌, if◌then◌else◌, ltb→le, lt→ltb, le→leb, Bool-cases, length,
  length-replicate, Exec, done, ◌>>=◌, ◌>>◌, check, Returns, Returns-bind, Returns-if,
}
use c_nad.Alloc.{Al}
use c_nad.Ds.Block.{
  write, write-done, length-written, slot-written, slot-map-some, length-map-some, is_some, fresh,
}
use c_nad.Ds.Deque.{Deque, block, assert_deque, copy_out}
use c_nad.Ds.Deque.Grow.{new_impl, new_slots}
use c_nad.Ds.Deque.Grow.Reserve.{Limited}
use c_nad.Ds.Deque.Holds.{Holds, block_max}

module _ {A : Type 0} (al : Al) (head_size : ℕ) (zero_elem : A) where
  -- tda_deque_new
  pub new : ℕ → al.State → Exec (Option (Deque A) × al.State)
  new elem_size st = do
    check (ltb 0 elem_size)
    new_impl al false 0 0 elem_size head_size zero_elem st

  -- tda_deque_new_len
  pub new_len : ℕ → ℕ → al.State → Exec (Option (Deque A) × al.State)
  new_len len elem_size st = do
    check (ltb 0 elem_size)
    new_impl al true len len elem_size head_size zero_elem st

  -- tda_deque_new_cap
  pub new_cap : ℕ → ℕ → al.State → Exec (Option (Deque A) × al.State)
  new_cap capacity elem_size st = do
    check (ltb 0 elem_size)
    new_impl al false 0 capacity elem_size head_size zero_elem st

  -- the contents of `d` in the new deque, if there is one
  unrolled : Deque A → Option (Deque A) × al.State → Exec (Option (Deque A) × al.State)
  unrolled d (none, st) = done (none, st)
  unrolled d (some e, st) = do
    b ← copy_out d (block e)
    done (some (if d.len == 0 then e else record e { slots = some b }), st)

  -- tda_deque_copy_with, and tda_deque_copy on the allocator of the deque
  pub copy_with : Deque A → al.State → Exec (Option (Deque A) × al.State)
  unfolding unrolled
  copy_with d st = do
    assert_deque d
    r ← new_impl al false d.len d.len d.elem_size head_size zero_elem st
    unrolled d r

  -- the memcpy of from_data into the new ring, which starts out unwrapped
  filled : List A → Option (Deque A) × al.State → Exec (Option (Deque A) × al.State)
  filled src (none, st) = done (none, st)
  filled src (some d, st) =
      if ltb 0 (length src)
      then (do b ← write (block d) 0 (map some src); done (some (record d { slots = some b }), st))
      else done (some d, st)

  -- tda_deque_from_data, tda_deque_from_span
  pub from_data : List A → ℕ → al.State → Exec (Option (Deque A) × al.State)
  unfolding filled
  from_data src elem_size st = do
    check (ltb 0 elem_size)
    r ← new_impl al false (length src) (length src) elem_size head_size zero_elem st
    filled src r

  -- Why a constructor may have no deque: a refused struct, a block that size_t cannot measure, a
  -- refused block.
  pub data Refused (bytes : ℕ) (st : al.State) : Type 0 where
    no_head : (Alloc.alloc al st head_size).0 ≡ false → Refused bytes st
    too_large : size_mod ≤ bytes → Refused bytes st
    no_block : (Alloc.alloc al (Alloc.alloc al st head_size).1 bytes).0 ≡ false → Refused bytes st

  -- what new_impl sets the fields to
  abbrev pub made : Bool → ℕ → ℕ → ℕ → Deque A
  made zeroed len capacity elem_size = record {
    slots = if ltb 0 capacity then some (new_slots al zeroed len capacity zero_elem) else none;
    len = len;
    cap = capacity;
    head = 0;
    elem_size = elem_size;
  }

  -- With success `P` holds of the deque; without there is a reason.
  pub Built : ℕ → al.State → (Deque A → Type 0) → Option (Deque A) × al.State → Type 0
  Built bytes st P (none, st') = Refused bytes st
  Built bytes st P (some d, st') = P d

module _ {A : Type 0} (al : Al) (limit : Limited al) (head_size : ℕ) (z : A) where
  assert_deque-passes :
      (slots : Option (List (Option A))) (len capacity elem_size : ℕ)
      → is_some slots ≡ ltb 0 capacity
      → len ≤ capacity
      → 0 < elem_size
      → assert_deque
          (record { slots = slots; len = len; cap = capacity; head = 0; elem_size = elem_size })
        ≡ done tt
  assert_deque-passes slots len capacity elem_size e p q = ground arith

  -- new_impl returns the deque with the fields set and a size that a block may have, or has a
  -- reason.
  pub new_impl-Built :
      (zeroed : Bool) (len capacity elem_size : ℕ) (st : al.State)
      → len ≤ capacity
      → 0 < elem_size
      → Returns
          (Built al head_size z (capacity * elem_size) st (λ d.
            (d ≡ made al head_size z zeroed len capacity elem_size)
            × (capacity * elem_size < block_max)))
          (new_impl al zeroed len capacity elem_size head_size z st)
  unfolding new_impl Built
  new_impl-Built zeroed len capacity elem_size st p q =
      rw (le→leb len capacity p, lt→ltb 0 elem_size q)
        (Returns-if (not (Alloc.alloc al st head_size).0)
          (λ refused. (_, refl, Refused.no_head (ground arith)))
          (λ got_head. elim (Bool-cases (ltb 0 capacity)) [
            | inl some_slots ↦
                rw some_slots (elim (Bool-cases (ltb (capacity * elem_size) size_mod)) [
                  | inl fits ↦ rw fits (
                      Returns-if
                        (Alloc.alloc al (Alloc.alloc al st head_size).1 (capacity * elem_size)).0
                        (λ got_block.
                          rw
                            (assert_deque-passes (some (new_slots al zeroed len capacity z)) len
                              capacity elem_size (sym some_slots) p q)
                            (
                              _,
                              refl,
                              (
                                refl,
                                limit (Alloc.alloc al st head_size).1 (capacity * elem_size)
                                    got_block,
                              ),
                            ))
                        (λ refused. (_, refl, Refused.no_block refused)))
                  | inr large ↦ rw large (_, refl, Refused.too_large (ltb→le _ _ large))
                ])
            | inr no_slots ↦
                let nothing : (capacity == 0) ≡ true = ground arith in
                rw (no_slots, nothing) (_, refl, (refl, ground arith))
          ]))

  filled-Built :
      (src : List A) (elem_size : ℕ) (st : al.State) (r : Option (Deque A) × al.State)
      → 0 < elem_size
      → Built al head_size z
          (length src * elem_size)
          st
          (λ d.
            (d ≡ made al head_size z false (length src) (length src) elem_size)
            × (length src * elem_size < block_max))
          r
      → Returns
          (Built al head_size z
            (length src * elem_size)
            st
            (λ d. Holds d src × (d.cap ≡ length src) × (d.elem_size ≡ elem_size)))
          (filled al head_size z src r)
  unfolding filled Built
  filled-Built src elem_size st (none, st') p why = (_, refl, why)
  filled-Built src elem_size st (some d, st') p (e, fits) =
      rw e (elim (Bool-cases (ltb 0 (length src))) [
        | inl some_elems ↦
            let slots = fresh {A = A} (length src) in
            let size = length-replicate {A = Option A} (length src) none in
            let inside : 0 + length (map {B = Option A} some src) ≤ length slots =
              omega (arith, length-map-some src, size) in
            rw (some_elems, write-done slots 0 (map some src) inside)
              (
                _,
                refl,
                (
                  record {
                    ring = record {
                      sized = p;
                      room = omega arith;
                      bytes = fits;
                      full = length-written slots 0 (map some src) inside ∙ size;
                      owned = sym some_elems;
                      turned = omega arith;
                    };
                    count = refl;
                    elems = λ i q. ground (
                      arith,
                      slot-written slots 0 (map some src) i inside,
                      slot-map-some src i,
                      length-map-some src,
                    );
                  },
                  refl,
                  refl,
                ),
              )
        | inr no_elems ↦ rw no_elems (
          _,
          refl,
          (
            record {
              ring = record {
                sized = p;
                room = omega arith;
                bytes = fits;
                full = ground arith;
                owned = sym no_elems;
                turned = omega arith;
              };
              count = refl;
              elems = λ i q. absurd (ground arith);
            },
            refl,
            refl,
          ),
        )
      ])

  -- from_data returns: with success the deque holds the elems of the source and no spare slot, else
  -- memory was refused or size_t cannot hold the size.
  pub from_data-Holds :
      (src : List A) (elem_size : ℕ) (st : al.State)
      → 0 < elem_size
      → Returns
          (Built al head_size z
            (length src * elem_size)
            st
            (λ d. Holds d src × (d.cap ≡ length src) × (d.elem_size ≡ elem_size)))
          (from_data al head_size z src elem_size st)
  unfolding from_data
  from_data-Holds src elem_size st p = rw (lt→ltb 0 elem_size p) (
      Returns-bind _ _ (new_impl-Built false (length src) (length src) elem_size st (omega arith) p)
        λ r u. filled-Built src elem_size st r p u)

-- ===== src/Ds/Vec/Grow/Life.antt =====
-- The constructors and copies of src/ds/vec.c. A constructor returns the vec, or `none` with
-- TDA_STATUS_ERR_NO_MEM, and the allocator's state.
use c_nad.Alloc
use c_nad.Core.Size.{size_mod}
use c_nad.Prelude.{
  ℕ, ◌+◌, ◌*◌, ◌≤◌, ◌<◌, ◌≡◌, refl, sym, ◌∙◌, inl, inr, Bool, true, false, not, Option, none, some,
  List, map, arith, ltb, ◌==◌, if◌then◌else◌, ltb→lt, ltb→le, lt→ltb, le→leb, Bool-cases, length,
  get_elem?, length-replicate, Exec, done, ◌>>=◌, ◌>>◌, check, Returns, Returns-bind, Returns-if,
}
use c_nad.Alloc.{Al}
use c_nad.Core.Status.{ok, is_ok}
use c_nad.Ds.Block.{
  written, read, write, is_some, slot, fresh, slot-written, length-written, write-done,
  slot-map-some, length-map-some,
}
use c_nad.Ds.Vec.{Vec, block, assert_vec, to_span}
use c_nad.Ds.Vec.Grow.{Outcome, new_impl, new_slots, reserve}
use c_nad.Ds.Vec.Holds.{Holds}

module _ {A : Type 0} (al : Al) (head_size : ℕ) (zero_elem : A) where
  -- tda_vec_new
  unfoldable pub new : ℕ → al.State → Exec (Option (Vec A) × al.State)
  new elem_size st = do
    check (ltb 0 elem_size)
    new_impl al false 0 0 elem_size head_size zero_elem st

  -- tda_vec_new_len
  unfoldable pub new_len : ℕ → ℕ → al.State → Exec (Option (Vec A) × al.State)
  new_len len elem_size st = do
    check (ltb 0 elem_size)
    new_impl al true len len elem_size head_size zero_elem st

  -- tda_vec_new_cap
  unfoldable pub new_cap : ℕ → ℕ → al.State → Exec (Option (Vec A) × al.State)
  new_cap capacity elem_size st = do
    check (ltb 0 elem_size)
    new_impl al false 0 capacity elem_size head_size zero_elem st

  -- the memcpy of from_data into the new vec
  filled : List A → Option (Vec A) × al.State → Exec (Option (Vec A) × al.State)
  filled src (none, st) = done (none, st)
  filled src (some v, st) =
      if ltb 0 (length src)
      then (do b ← write (block v) 0 (map some src); done (some (record v { slots = some b }), st))
      else done (some v, st)

  -- tda_vec_from_data, tda_vec_from_span
  pub from_data : List A → ℕ → al.State → Exec (Option (Vec A) × al.State)
  unfolding filled
  from_data src elem_size st = do
    check (ltb 0 elem_size)
    r ← new_impl al false (length src) (length src) elem_size head_size zero_elem st
    filled src r

  -- tda_vec_copy_with, and tda_vec_copy on the allocator of the vec
  unfoldable pub copy_with : Vec A → al.State → Exec (Option (Vec A) × al.State)
  copy_with v st = do assert_vec v; s ← to_span v; from_data s v.elem_size st

  -- tda_vec_copy_assign of `v` onto another vec `w`
  unfoldable pub copy_assign : Vec A → Vec A → al.State → Exec (Outcome al A)
  copy_assign v w st = do
    assert_vec v
    assert_vec w
    check (v.elem_size == w.elem_size)
    (s, x, st') ← reserve al w st v.len
    if not (is_ok s) then done (s, x, st') else (do
      src ← read (block v) 0 v.len
      b ← write (block x) 0 src
      let y : Vec A =
          if ltb 0 v.len then record x { slots = some b; len = v.len } else record x { len = v.len }
      assert_vec y
      done (ok, y, st'))

  -- Why a constructor may have no vec: a refused struct, a block that size_t cannot measure, a
  -- refused block.
  pub data Refused (bytes : ℕ) (st : al.State) : Type 0 where
    no_head : (Alloc.alloc al st head_size).0 ≡ false → Refused bytes st
    too_large : size_mod ≤ bytes → Refused bytes st
    no_block : (Alloc.alloc al (Alloc.alloc al st head_size).1 bytes).0 ≡ false → Refused bytes st

  -- what new_impl sets the fields to
  abbrev pub made : Bool → ℕ → ℕ → ℕ → Vec A
  made zeroed len capacity elem_size = record {
    slots = if ltb 0 capacity then some (new_slots al zeroed len capacity zero_elem) else none;
    len = len;
    cap = capacity;
    elem_size = elem_size;
  }

  -- With success `P` holds of the vec; without there is a reason.
  unfoldable pub Built : ℕ → al.State → (Vec A → Type 0) → Option (Vec A) × al.State → Type 0
  Built bytes st P (none, st') = Refused bytes st
  Built bytes st P (some v, st') = P v

module _ {A : Type 0} (al : Al) (head_size : ℕ) (z : A) where
  assert_vec-passes :
      (slots : Option (List (Option A))) (len capacity elem_size : ℕ)
      → is_some slots ≡ ltb 0 capacity
      → len ≤ capacity
      → 0 < elem_size
      → assert_vec (record { slots = slots; len = len; cap = capacity; elem_size = elem_size })
        ≡ done tt
  assert_vec-passes slots len capacity elem_size e p q = ground arith

  -- new_impl returns the vec with the fields set and a size that size_t holds, or has a reason.
  pub new_impl-Built :
      (zeroed : Bool) (len capacity elem_size : ℕ) (st : al.State)
      → len ≤ capacity
      → 0 < elem_size
      → Returns
          (Built al head_size z (capacity * elem_size) st (λ v.
            (v ≡ made al head_size z zeroed len capacity elem_size)
            × (capacity * elem_size < size_mod)))
          (new_impl al zeroed len capacity elem_size head_size z st)
  unfolding new_impl Built
  new_impl-Built zeroed len capacity elem_size st p q =
      rw (le→leb len capacity p, lt→ltb 0 elem_size q)
        (Returns-if (not (Alloc.alloc al st head_size).0)
          (λ refused. (_, refl, Refused.no_head (ground arith)))
          (λ got_head. elim (Bool-cases (ltb 0 capacity)) [
            | inl some_slots ↦
                rw some_slots (elim (Bool-cases (ltb (capacity * elem_size) size_mod)) [
                  | inl fits ↦ rw fits (
                      Returns-if
                        (Alloc.alloc al (Alloc.alloc al st head_size).1 (capacity * elem_size)).0
                        (λ got_block.
                          rw
                            (assert_vec-passes (some (new_slots al zeroed len capacity z)) len
                              capacity elem_size (sym some_slots) p q)
                            (_, refl, (refl, ltb→lt _ _ fits)))
                        (λ refused. (_, refl, Refused.no_block refused)))
                  | inr large ↦ rw large (_, refl, Refused.too_large (ltb→le _ _ large))
                ])
            | inr no_slots ↦
                let nothing : (capacity == 0) ≡ true = ground arith in
                rw (no_slots, nothing) (_, refl, (refl, ground arith))
          ]))

  -- the elems of `src` written over the fresh slots
  filled-Holds :
      (src : List A) (elem_size : ℕ)
      → 0 < elem_size
      → length src * elem_size < size_mod
      → 0 < length src
      → (b : List (Option A)) → length b ≡ length src
      → ((i : ℕ) → i < length src → slot b i ≡ get_elem? src i)
      → Holds
          (record { slots = some b; len = length src; cap = length src; elem_size = elem_size })
          src
  filled-Holds src elem_size p q r b e same = record {
    sized = p;
    count = refl;
    room = omega arith;
    bytes = q;
    full = e;
    owned = ground arith;
    elems = same;
  }

  filled-Built :
      (src : List A) (elem_size : ℕ) (st : al.State) (r : Option (Vec A) × al.State)
      → 0 < elem_size
      → Built al head_size z
          (length src * elem_size)
          st
          (λ v.
            (v ≡ made al head_size z false (length src) (length src) elem_size)
            × (length src * elem_size < size_mod))
          r
      → Returns
          (Built al head_size z
            (length src * elem_size)
            st
            (λ v. Holds v src × (v.cap ≡ length src) × (v.elem_size ≡ elem_size)))
          (filled al head_size z src r)
  unfolding filled Built
  filled-Built src elem_size st (none, st') p why = (_, refl, why)
  filled-Built src elem_size st (some v, st') p (e, fits) =
      rw e (elim (Bool-cases (ltb 0 (length src))) [
        | inl some_elems ↦
            let slots = fresh {A = A} (length src) in
            let size = length-replicate {A = Option A} (length src) none in
            let inside : 0 + length (map {B = Option A} some src) ≤ length slots =
              omega (arith, length-map-some src, size) in
            rw (some_elems, write-done slots 0 (map some src) inside)
              (
                _,
                refl,
                (
                  filled-Holds src elem_size p fits (ltb→lt _ _ some_elems)
                      (written slots 0 (map some src))
                      (length-written slots 0 (map some src) inside ∙ size)
                      (λ i q. ground (
                        arith,
                        slot-written slots 0 (map some src) i inside,
                        slot-map-some src i,
                        length-map-some src,
                      )),
                  refl,
                  refl,
                ),
              )
        | inr no_elems ↦ rw no_elems (
          _,
          refl,
          (
            record {
              sized = p;
              count = refl;
              room = omega arith;
              bytes = fits;
              full = ground arith;
              owned = sym no_elems;
              elems = λ i q. absurd (ground arith);
            },
            refl,
            refl,
          ),
        )
      ])

  -- from_data returns: with success the vec holds the elems of the source and no spare slot, else
  -- memory was refused or size_t cannot hold the size.
  pub from_data-Built :
      (src : List A) (elem_size : ℕ) (st : al.State)
      → 0 < elem_size
      → Returns
          (Built al head_size z
            (length src * elem_size)
            st
            (λ v. Holds v src × (v.cap ≡ length src) × (v.elem_size ≡ elem_size)))
          (from_data al head_size z src elem_size st)
  unfolding from_data
  from_data-Built src elem_size st p = rw (lt→ltb 0 elem_size p) (
      Returns-bind _ _ (new_impl-Built false (length src) (length src) elem_size st (omega arith) p)
        λ r u. filled-Built src elem_size st r p u)

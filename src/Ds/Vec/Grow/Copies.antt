-- ===== src/Ds/Vec/Grow/Copies.antt =====
-- The view of a vec, and the vecs made without elems or from another vec.
use c_nad.Core.Size.{size_mod}
use c_nad.Prelude.Array.{get_or, get_or-take, get_or-append_left, get_or-drop}
use c_nad.Prelude.{
  ℕ, suc, ◌+◌, ◌-◌, ◌*◌, ◌≤◌, ◌<◌, ◌≡◌, refl, sym, ◌∙◌, inl, inr, Bool, true, false, not, Option,
  none, some, List, [], ◌∷◌, ◌++◌, arith, ltb, if◌then◌else◌, lt→ltb, ==_iff, Bool-cases, length,
  get_elem?, take, drop, replicate, length-append, length-take, length-drop, length-replicate, done,
  ◌>>=◌, ◌>>◌, Returns, Returns-bind, Returns-map,
}
use c_nad.Alloc.{Al}
use c_nad.Core.Status.{ok, no_mem, is_ok}
use c_nad.Ds.Block.{
  slot-replicate, read, read-done, write, write-done, written, length-written, slot-written, slot,
  fresh,
}
use c_nad.Ds.Vec.{Vec, block, to_span, to_span_from, assert_vec}
use c_nad.Ds.Vec.Holds.{Holds, assert_vec-done}
use c_nad.Ds.Vec.Grow.{Outcome}
use c_nad.Ds.Vec.Grow.Reserve.{Settled, Roomy, reserve-Settled}
use c_nad.Ds.Vec.Grow.Insert.{Added}
use c_nad.Ds.Vec.Grow.Life.{
  Built, made, copy_with, copy_assign, new, new_len, new_cap, from_data-Built, new_impl-Built,
}

module _ {A : Type 0} where
  to_span_from-done :
      (b : List (Option A)) (xs : List A)
      → ((i : ℕ) → i < length xs → slot b i ≡ get_elem? xs i)
      → to_span_from b (length xs) ≡ done xs
  unfolding to_span_from get_or
  to_span_from-done b [] e = refl
  to_span_from-done [] (x ∷ xs) e = absurd (cc (e 0 (omega arith)))
  to_span_from-done (s ∷ b) (x ∷ xs) e =
      let rest = to_span_from-done b xs (λ i p. e (suc i) (omega arith)) in
      rw (e 0 (omega arith), rest) refl

  -- to_span is the list that the vec holds
  pub to_span-Holds : {v : Vec A} {xs : List A} → Holds v xs → to_span v ≡ done xs
  unfolding to_span
  to_span-Holds {v} {xs} h =
      let view = to_span_from-done (block v) xs (λ i p. h.elems i (omega (arith, h.count))) in
      rw (assert_vec-done h, h.count) view

module _ {A : Type 0} (al : Al) (head_size : ℕ) (z : A) where
  -- copy_with returns, on whatever allocator: with success another vec of the same elems without
  -- spare slots, else memory was refused.
  pub copy_with-Built :
      {v : Vec A} {xs : List A} (h : Holds v xs) (st : al.State)
      → Returns
          (Built al head_size z
            (length xs * v.elem_size)
            st
            (λ w. Holds w xs × (w.cap ≡ length xs) × (w.elem_size ≡ v.elem_size)))
          (copy_with al head_size z v st)
  unfolding copy_with
  copy_with-Built {v} {xs} h st =
      rw (assert_vec-done h, to_span-Holds h)
        (from_data-Built al head_size z xs v.elem_size st h.sized)

  Built-map :
      (bytes : ℕ) (st : al.State) {P Q : Vec A → Type 0} (r : Option (Vec A) × al.State)
      → ((v : Vec A) → P v → Q v)
      → Built al head_size z bytes st P r
      → Built al head_size z bytes st Q r
  unfolding Built
  Built-map bytes st (none, st') f u = u
  Built-map bytes st (some v, st') f u = f v u

  zeroed-Holds :
      (len elem_size : ℕ)
      → 0 < elem_size
      → len * elem_size < size_mod
      → Holds (made al head_size z true len len elem_size) (replicate len z)
  zeroed-Holds len elem_size p q =
      let zeroes = replicate {A = Option A} len (some z) in
      let n = length-replicate {A = Option A} len (some z) in
      let size : length (zeroes ++ fresh {A = A} (len - len)) ≡ len = omega (
        arith,
        length-append zeroes (fresh {A = A} (len - len)),
        n,
        length-replicate {A = Option A} (len - len) none,
      ) in
      record {
        sized = p;
        count = sym (length-replicate {A = A} len z);
        room = omega arith;
        bytes = q;
        full = ground (arith, size);
        owned = ground arith;
        elems = λ i r. rw (lt→ltb 0 len (omega arith)) (
            get_or-append_left none zeroes (fresh (len - len)) i (omega (arith, n))
            ∙ slot-replicate len z i);
      }

  spare-Holds :
      (capacity elem_size : ℕ)
      → 0 < elem_size
      → capacity * elem_size < size_mod
      → Holds (made al head_size z false 0 capacity elem_size) []
  spare-Holds capacity elem_size p q = record {
    sized = p;
    count = refl;
    room = omega arith;
    bytes = q;
    full = ground (arith, length-replicate {A = Option A} capacity none);
    owned = ground arith;
    elems = λ i r. absurd (omega arith);
  }

  -- new, new_len and new_cap return: with success a vec without elems, with zeroed ones, or with
  -- room for some; else memory was refused or size_t cannot hold the size.
  pub new-new_len-new_cap-Built :
      (n elem_size : ℕ) (st : al.State)
      → 0 < elem_size
      → Returns
          (Built al head_size z (0 * elem_size) st (λ v. Holds v [] × (v.cap ≡ 0)))
          (new al head_size z elem_size st)
        × Returns
            (Built al head_size z (n * elem_size) st (λ v. Holds v (replicate n z) × (v.cap ≡ n)))
            (new_len al head_size z n elem_size st)
        × Returns
            (Built al head_size z (n * elem_size) st (λ v. Holds v [] × (v.cap ≡ n)))
            (new_cap al head_size z n elem_size st)
  unfolding new new_len new_cap
  new-new_len-new_cap-Built n elem_size st p = rw (lt→ltb 0 elem_size p) (
    Returns-map _ (new_impl-Built al head_size z false 0 0 elem_size st (omega arith) p)
        λ r. Built-map _ st r λ v (e, q). rw e (spare-Holds 0 elem_size p q, refl),
    Returns-map _ (new_impl-Built al head_size z true n n elem_size st (omega arith) p)
        λ r. Built-map _ st r λ v (e, q). rw e (zeroed-Holds n elem_size p q, refl),
    Returns-map _ (new_impl-Built al head_size z false 0 n elem_size st (omega arith) p)
        λ r. Built-map _ st r λ v (e, q). rw e (spare-Holds n elem_size p q, refl),
  )

  -- the elems of `v` at the front of the block of `x`
  copied-Holds :
      {v x : Vec A} {xs ys : List A} (h : Holds v xs) (g : Holds x ys)
      → v.len ≤ x.cap
      → (b : List (Option A)) → length b ≡ length (block x)
      → ((i : ℕ) → i < v.len → slot b i ≡ slot (block v) i)
      → Holds
          (if ltb 0 v.len
            then record x { slots = some b; len = v.len }
            else record x { len = v.len })
          xs
  copied-Holds {v} h g p b e same = elim (Bool-cases (ltb 0 v.len)) [
    | inl some_elems ↦ rw some_elems (record {
      sized = g.sized;
      count = h.count;
      room = p;
      bytes = g.bytes;
      full = e ∙ g.full;
      owned = ground arith;
      elems = λ i q. same i q ∙ h.elems i q;
    })
    | inr no_elems ↦ rw no_elems (record {
      sized = g.sized;
      count = h.count;
      room = p;
      bytes = g.bytes;
      full = g.full;
      owned = g.owned;
      elems = λ i q. absurd (ground arith);
    })
  ]

  either_size :
      (c : Bool) (x y : Vec A) {n : ℕ}
      → x.elem_size ≡ n
      → y.elem_size ≡ n
      → Vec.elem_size (if c then x else y) ≡ n
  either_size true x y e f = e
  either_size false x y e f = f

  copy_into :
      {v w : Vec A} {xs : List A} (ys : List A) (h : Holds v xs) (r : Outcome al A)
      → Settled al w (Roomy w ys v.len) r
      → Returns {A = Outcome al A} (Settled al w (Added w xs)) (
          if not (is_ok r.0) then done r else (do
            src ← read (block v) 0 v.len
            b ← write (block r.1) 0 src
            let y : Vec A =
                if ltb 0 v.len
                then record r.1 { slots = some b; len = v.len }
                else record r.1 { len = v.len }
            assert_vec y
            done (ok, y, r.2)))
  copy_into ys h (no_mem, x, st) u = (_, refl, u)
  copy_into {v} ys h (ok, x, st) u =
      let g = u.holds in
      let src = take v.len (drop 0 (block v)) in
      let n : length src ≡ v.len =
        omega
          (arith, length-take v.len (drop 0 (block v)), length-drop 0 (block v), h.full, h.room) in
      let inside : 0 + length src ≤ length (block x) = omega (arith, g.full, u.enough) in
      let b = written (block x) 0 src in
      let done_y = copied-Holds h g u.enough b (length-written (block x) 0 src inside) (λ i q.
        ground (
          arith,
          slot-written (block x) 0 src i inside,
          get_or-take none v.len (drop 0 (block v)) i,
          get_or-drop none 0 (block v) i,
        )) in
      rw
        (
          read-done (block v) 0 v.len (omega (arith, h.full, h.room)),
          write-done (block x) 0 src inside,
          assert_vec-done done_y,
        )
        (_, refl, (done_y, either_size (ltb 0 v.len) _ _ refl refl ∙ u.size_kept))

  -- copy_assign returns: with success the target holds the elems of the source, else the target is
  -- as it was.
  pub copy_assign-Settled :
      {v w : Vec A} {xs ys : List A} (h : Holds v xs) (g : Holds w ys) (st : al.State)
      → v.elem_size ≡ w.elem_size
      → Returns {A = Outcome al A} (Settled al w (Added w xs)) (copy_assign al head_size z v w st)
  unfolding copy_assign
  copy_assign-Settled {v} {w} {ys = ys} h g st e =
      rw (assert_vec-done h, assert_vec-done g, (==_iff v.elem_size w.elem_size).1 e)
        (Returns-bind _ _ (reserve-Settled al g st v.len) λ r u. copy_into ys h r u)

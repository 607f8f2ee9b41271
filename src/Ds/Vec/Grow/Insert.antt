-- ===== src/Ds/Vec/Grow/Insert.antt =====
-- push, insert, insert_span, extend and resize against the list that the vec holds.
use c_nad.Prelude.Array.{get_elem?-splice, length-splice}
use c_nad.Prelude.{
  ℕ, ◌+◌, ◌-◌, ◌≤◌, ◌<◌, ◌≡◌, refl, ◌∙◌, inl, inr, not, some, List, [], ◌∷◌, ◌++◌, arith, ◌==◌,
  if◌then◌else◌, le→leb, Bool-cases, length, length-append, length-set, get_elem?-append_left,
  get_elem?-append_right, done, ◌>>=◌, Returns, Returns-bind, splice,
}
use c_nad.Core.Status.{ok, no_mem, is_ok}
use c_nad.Alloc.{Al}
use c_nad.Ds.Block.{slot-set, store-done}
use c_nad.Ds.Vec.{Vec, block, shift, store_at}
use c_nad.Ds.Vec.Holds.{Holds, assert_vec-done}
use c_nad.Ds.Vec.Mods.{Shifted, shift-Shifted}
use c_nad.Ds.Vec.Grow.{Outcome, push, insert}
use c_nad.Ds.Vec.Grow.Reserve.{Settled, Roomy, reserve_one-Settled}

module _ {A : Type 0} {v : Vec A} {xs : List A} (h : Holds v xs) where
  -- the elem written into the gap that a shift by one opened at `idx`
  gap-Holds :
      (idx : ℕ) (val : A) (x : Vec A)
      → idx ≤ v.len
      → v.len < v.cap
      → Shifted v (idx + 1) idx (v.len - idx) x
      → Returns
          (λ w.
            Holds (record w { len = v.len + 1 }) (splice idx idx (val ∷ []) xs)
            × (w.elem_size ≡ v.elem_size))
          (store_at x idx val)
  unfolding store_at
  gap-Holds idx val x p q s =
      let in_block : idx < length (block x) = omega (arith, s.full) in
      rw (store-done (block x) idx val in_block) (
        _,
        refl,
        (
          record {
            sized = rw s.kept.size_kept h.sized;
            count = omega (arith, h.count, length-splice idx idx (val ∷ []) xs);
            room = omega (arith, s.kept.cap_kept);
            bytes = rw (s.kept.cap_kept, s.kept.size_kept) h.bytes;
            full = omega (arith, length-set (block x) idx (some val), s.full, s.kept.cap_kept);
            owned = ground (arith, s.kept.cap_kept);
            elems = λ i r. ground (
              arith,
              slot-set (block x) idx i (some val) in_block,
              s.at i,
              get_elem?-splice idx idx (val ∷ []) xs i,
              h.count,
              h.elems i,
              h.elems (i - 1),
            );
          },
          s.kept.size_kept,
        ),
      )

  -- the elem written behind the last one
  end-Holds :
      (val : A)
      → v.len < v.cap
      → Returns
          (λ w.
            Holds (record w { len = v.len + 1 }) (xs ++ (val ∷ [])) × (w.elem_size ≡ v.elem_size))
          (store_at v v.len val)
  unfolding store_at
  end-Holds val q =
      let in_block : v.len < length (block v) = omega (arith, h.full) in
      rw (store-done (block v) v.len val in_block) (
        _,
        refl,
        (
          record {
            sized = h.sized;
            count = omega (arith, h.count, length-append xs (val ∷ []));
            room = omega arith;
            bytes = h.bytes;
            full = omega (arith, length-set (block v) v.len (some val), h.full);
            owned = ground arith;
            elems = λ i r. elim (Bool-cases (v.len == i)) [
              | inl e ↦
                  let z : i - length xs ≡ 0 = ground (arith, h.count) in
                  let back = get_elem?-append_right xs (val ∷ []) i (ground (arith, h.count)) in
                  rw (slot-set (block v) v.len i (some val) in_block, e, back, z)
              | inr e ↦
                  let p : i < v.len = ground arith in
                  let front = get_elem?-append_left xs (val ∷ []) i (omega (arith, h.count)) in
                  rw (slot-set (block v) v.len i (some val) in_block, e, front) (h.elems i p)
            ];
          },
          refl,
        ),
      )

-- What an operation that adds elems leaves: the new list, at the same elem size.
abbrev pub Added : {A : Type 0} → Vec A → List A → Vec A → Type 0
Added v ys w = Holds w ys × (w.elem_size ≡ v.elem_size)

module _ {A : Type 0} (al : Al) {v : Vec A} {xs : List A} (h : Holds v xs) where
  push_into :
      (val : A) (r : Outcome al A)
      → Settled al v (Roomy v xs (v.len + 1)) r
      → Returns {A = Outcome al A} (Settled al v (Added v (xs ++ (val ∷ [])))) (
          if not (is_ok r.0)
          then done r
          else (do x ← store_at r.1 r.1.len val; done (ok, record x { len = r.1.len + 1 }, r.2)))
  push_into val (no_mem, w, st) u = (_, refl, u)
  push_into val (ok, w, st) u =
      let g = u.holds in
      Returns-bind _ _ (end-Holds g val (omega (arith, u.enough, h.count, g.count)))
        λ x a. (_, refl, (a.0, a.1 ∙ u.size_kept))

  -- push returns: with success the list has the elem at its end, with a refusal the vec is as it was.
  pub push-Settled :
      (st : al.State) (val : A)
      → Returns {A = Outcome al A} (Settled al v (Added v (xs ++ (val ∷ [])))) (push al v st val)
  unfolding push
  push-Settled st val =
      rw (assert_vec-done h)
        (Returns-bind _ _ (reserve_one-Settled al h st) λ r u. push_into val r u)

  insert_into :
      (idx : ℕ) (val : A) (r : Outcome al A)
      → idx ≤ length xs
      → Settled al v (Roomy v xs (v.len + 1)) r
      → Returns {A = Outcome al A} (Settled al v (Added v (splice idx idx (val ∷ []) xs))) (
          if not (is_ok r.0) then done r else (do
            x ← shift r.1 (idx + 1) idx (r.1.len - idx)
            y ← store_at x idx val
            done (ok, record y { len = r.1.len + 1 }, r.2)))
  insert_into idx val (no_mem, w, st) p u = (_, refl, u)
  insert_into idx val (ok, w, st) p u =
      let g = u.holds in
      let in_w : idx ≤ w.len = omega (arith, g.count) in
      let free : w.len < w.cap = omega (arith, u.enough, h.count, g.count) in
      Returns-bind _ _ (shift-Shifted g (idx + 1) idx (w.len - idx) (omega arith) (omega arith))
        λ x s.
          Returns-bind _ _ (gap-Holds g idx val x in_w free s)
            λ y a. (_, refl, (a.0, a.1 ∙ u.size_kept))

  -- insert returns: with success the elem stands at `idx` and the others around it in order, with a
  -- refusal the vec is as it was.
  pub insert-Settled :
      (st : al.State) (idx : ℕ) (val : A)
      → idx ≤ length xs
      → Returns {A = Outcome al A}
          (Settled al v (Added v (splice idx idx (val ∷ []) xs)))
          (insert al v st idx val)
  unfolding insert
  insert-Settled st idx val p =
      rw (assert_vec-done h, le→leb idx v.len (omega (arith, h.count)))
        (Returns-bind _ _ (reserve_one-Settled al h st) λ r u. insert_into idx val r p u)

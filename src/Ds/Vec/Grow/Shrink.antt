-- ===== src/Ds/Vec/Grow/Shrink.antt =====
-- shrink_to_fit against the list that the vec holds.
use c_nad.Prelude.{
  ◌<◌, ◌≡◌, refl, ◌∙◌, none, some, List, arith, ◌==◌, length, Returns, Returns-bind, Returns-if,
}
use c_nad.Alloc.{Al}
use c_nad.Alloc.Ledger.{realloc-Returns}
use c_nad.Ds.Block.{is_some, resized, length-resized, slot-resized}
use c_nad.Ds.Vec.{Vec, block, len_bytes, cap_bytes}
use c_nad.Ds.Vec.Holds.{Holds, assert_vec-done}
use c_nad.Ds.Vec.Grow.{Outcome, shrink_to_fit}
use c_nad.Ds.Vec.Grow.Reserve.{Settled, block_or_empty}
use c_nad.Ds.Vec.Grow.Bulk.{mul_mono}

module _ {A : Type 0} {v : Vec A} {xs : List A} (h : Holds v xs) where
  emptied : v.len ≡ 0 → Holds (record v { slots = none; cap = 0 }) xs
  emptied p = record {
    sized = h.sized;
    count = h.count;
    room = omega arith;
    bytes = omega arith;
    full = refl;
    owned = refl;
    elems = λ i r. absurd (omega arith);
  }

  fitted : 0 < v.len → Holds (record v { slots = some (resized (block v) v.len); cap = v.len }) xs
  fitted p = record {
    sized = h.sized;
    count = h.count;
    room = omega arith;
    bytes = omega (arith, h.bytes, mul_mono v.len v.cap v.elem_size h.room);
    full = length-resized (block v) v.len;
    owned = ground arith;
    elems = λ i q. slot-resized (block v) v.len i q ∙ h.elems i q;
  }

module _ {A : Type 0} (al : Al) {v : Vec A} {xs : List A} (h : Holds v xs) where
  -- shrink_to_fit returns: with success the elems are the same and the capacity is their number,
  -- with a refusal the vec is as it was.
  pub shrink_to_fit-Settled :
      (st : al.State)
      → Returns {A = Outcome al A}
          (Settled al v (λ w. Holds w xs × (w.cap ≡ length xs)))
          (shrink_to_fit al v st)
  unfolding shrink_to_fit
  shrink_to_fit-Settled st = rw (assert_vec-done h) (
      Returns-if (v.len == v.cap) (λ full. (_, refl, (h, ground (arith, h.count))))
        (λ loose.
          Returns-if (v.len == 0)
            (λ empty.
              let g = emptied h (ground arith) in
              rw (assert_vec-done g) (_, refl, (g, ground (arith, h.count))))
            (λ some_elems.
              let g = fitted h (ground arith) in
              Returns-bind _ _
                (realloc-Returns al st (is_some v.slots) (cap_bytes v) (len_bytes v)
                  (block_or_empty al h))
                λ r u.
                  Returns-if r.0 (λ granted. rw (assert_vec-done g) (_, refl, (g, h.count)))
                    (λ refused. (_, refl, refl)))))

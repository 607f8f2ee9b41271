-- ===== src/Ds/Deque/Grow/Bulk.antt =====
-- resize and shrink_to_fit against the list that the deque holds.
use c_nad.Alloc
use c_nad.Prelude.{
  ℕ, zero, suc, ◌+◌, ◌-◌, ◌≤◌, ◌<◌, ◌≡◌, refl, sym, ◌∙◌, inl, inr, true, false, ◌&&◌, not, none,
  some, List, ◌++◌, arith, ltb, leb, ◌==◌, if◌then◌else◌, ltb→lt, ltb→le, leb→le, leb→lt,
  Bool-cases, length, get_elem?, replicate, length-append, length-take, length-replicate,
  get_elem?-take, get_elem?-append_left, get_elem?-append_right, done, ◌>>=◌, ◌>>◌, Returns,
  Returns-bind, Returns-map, Returns-if,
}
use c_nad.Core.Status.{ok, no_mem, is_ok}
use c_nad.Alloc.{Al}
use c_nad.Ds.Deque.{Deque, zero_from, len_bytes, assert_deque}
use c_nad.Ds.Deque.Holds.{IsRing, Holds, RingWith, entry, assert_deque-done, store_at-RingWith}
use c_nad.Ds.Deque.Slide.{RingWith-refl, RingWith-trans}
use c_nad.Ds.Deque.Mods.{IsRing-len}
use c_nad.Ds.Deque.Grow.{Outcome, reserve_for, resize, shrink_to_fit}
use c_nad.Ds.Deque.Grow.Reserve.{
  Settled, Settled-map, Roomy, Limited, reserve_for-Settled, renew-Holds,
}
use c_nad.Ds.Deque.Grow.Insert.{Now}
use c_nad.Ds.Vec.Grow.Bulk.{resized_list, mul_mono}

module _ {A : Type 0} where
  -- The loop of resize zeroes `n` elems from `i` on.
  zero_from-RingWith :
      (n : ℕ) {d : Deque A} (h : IsRing d) (i : ℕ) (z : A)
      → i + n ≤ d.cap
      → Returns
          (RingWith d (λ j. if leb i j && ltb j (i + n) then some z else entry d j))
          (zero_from n d i z)
  unfolding zero_from
  zero_from-RingWith zero {d = d} h i z p =
      (d, refl, RingWith-trans (RingWith-refl h) (RingWith-refl h) (λ j q. ground arith))
  zero_from-RingWith (suc n) {d = d} h i z p =
      Returns-bind _ _ (store_at-RingWith h i z (omega arith)) λ e a.
        Returns-map _ (zero_from-RingWith n a.ring (i + 1) z (omega (arith, a.kept.cap_kept)))
          λ k b. RingWith-trans a b (λ j q. ground (arith, a.at j))

  get_elem?-replicate : (n : ℕ) (z : A) (i : ℕ) → i < n → get_elem? (replicate n z) i ≡ some z
  get_elem?-replicate zero z i p = absurd (omega arith)
  get_elem?-replicate (suc n) z zero p = refl
  get_elem?-replicate (suc n) z (suc i) p = get_elem?-replicate n z i (omega arith)

module _ {A : Type 0} (al : Al) (limit : Limited al) {d : Deque A} {xs : List A}
    (h : Holds d xs) where
  room_for :
      (st : al.State) (n : ℕ)
      → Returns {A = Outcome al A}
          (Settled al d (Roomy d xs n))
          (if ltb d.cap n then reserve_for al d st n else done (ok, d, st))
  room_for st n =
      Returns-if (ltb d.cap n) (λ e. reserve_for-Settled al limit h st n (ltb→lt _ _ e))
        (λ e. (
          _,
          refl,
          record { holds = h; enough = ltb→le _ _ e; start = ground arith; size_kept = refl },
        ))

  zeros_into :
      (n : ℕ) (z : A) (r : Outcome al A)
      → length xs < n
      → Settled al d (Roomy d xs n) r
      → Returns {A = Outcome al A} (Settled al d (Now d (xs ++ replicate (n - length xs) z))) (
          if not (is_ok r.0) then done r else (do
            f ← zero_from (n - r.1.len) r.1 r.1.len z
            assert_deque (record f { len = n })
            done (ok, record f { len = n }, r.2)))
  zeros_into n z (no_mem, e, st) p u = (_, refl, u)
  zeros_into n z (ok, e, st) p u =
      let g = u.holds in
      let more = replicate (n - length xs) z in
      Returns-bind _ _
        (zero_from-RingWith (n - e.len) g.ring e.len z (omega (arith, u.enough, g.count)))
        λ f a.
          let ring = IsRing-len a.ring n (omega (arith, u.enough, a.kept.cap_kept)) in
          rw (assert_deque-done ring) (
            _,
            refl,
            (
              record {
                ring = ring;
                count =
                    omega
                      (arith, length-append xs more, length-replicate {A = A} (n - length xs) z);
                elems = λ i q. ground (
                  arith,
                  a.at i,
                  u.enough,
                  g.count,
                  g.elems i,
                  get_elem?-append_left xs more i,
                  get_elem?-append_right xs more i,
                  get_elem?-replicate (n - length xs) z (i - length xs),
                );
              },
              a.kept.size_kept ∙ u.size_kept,
            ),
          )

  -- resize returns, on an allocator that hands out no block larger than an object may be: with
  -- success the list is cut to `n` elems or filled up to them with zeroed ones, wherever the ring
  -- wraps; else the deque is as it was.
  pub resize-Now :
      (st : al.State) (n : ℕ) (z : A)
      → Returns {A = Outcome al A} (Settled al d (Now d (resized_list xs n z))) (resize al d st n z)
  unfolding resize
  resize-Now st n z = rw (assert_deque-done h.ring) (elim (Bool-cases (leb n d.len)) [
    | inl e ↦
        let f : leb n (length xs) ≡ true = ground (arith, h.count) in
        let short : n ≤ d.len = leb→le _ _ e in
        rw (e, f)
          (
            _,
            refl,
            (
              record {
                ring = IsRing-len h.ring n (omega (arith, h.ring.room));
                count = omega (arith, h.count, length-take n xs);
                elems = λ i r. h.elems i (omega arith) ∙ sym (get_elem?-take n xs i r);
              },
              refl,
            ),
          )
    | inr e ↦
        let f : leb n (length xs) ≡ false = ground (arith, h.count) in
        rw (e, f) (Returns-bind _ _ (room_for st n) λ r u. zeros_into n z r (leb→lt _ _ f) u)
  ])

module _ {A : Type 0} {d : Deque A} {xs : List A} (h : Holds d xs) where
  emptied : d.len ≡ 0 → Holds (record d { slots = none; cap = 0; head = 0 }) xs
  emptied p = record {
    ring = record {
      sized = h.ring.sized;
      room = omega arith;
      bytes = omega arith;
      full = refl;
      owned = refl;
      turned = omega arith;
    };
    count = h.count;
    elems = λ i r. absurd (omega arith);
  }

module _ {A : Type 0} (al : Al) {d : Deque A} {xs : List A} (h : Holds d xs) where
  -- shrink_to_fit returns: with success the elems are the same and the capacity is their number,
  -- with a refusal the deque is as it was.
  pub shrink_to_fit-Holds :
      (st : al.State)
      → Returns {A = Outcome al A}
          (Settled al d (λ e. Holds e xs × (e.cap ≡ length xs)))
          (shrink_to_fit al d st)
  unfolding shrink_to_fit
  shrink_to_fit-Holds st = rw (assert_deque-done h.ring) (
      Returns-if (d.len == d.cap) (λ full. (_, refl, (h, ground (arith, h.count))))
        (λ loose.
          Returns-if (d.len == 0)
            (λ empty.
              let g = emptied h (ground arith) in
              rw (assert_deque-done g.ring) (_, refl, (g, ground (arith, h.count))))
            (λ some_elems.
              Returns-if (Alloc.alloc al st (len_bytes d)).0
                (λ granted.
                  Returns-map _
                    (renew-Holds al h (Alloc.alloc al st (len_bytes d)).1 d.len (ground arith)
                      (omega arith)
                      (omega (arith, h.ring.bytes, mul_mono d.len d.cap d.elem_size h.ring.room)))
                    λ r. Settled-map al d r λ e g. (g.0, g.1 ∙ h.count))
                (λ refused. (_, refl, refl)))))

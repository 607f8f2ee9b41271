-- ===== src/Ds/Vec/Grow/Bulk.antt =====
-- insert_span, extend and resize against the list that the vec holds.
use c_nad.Core.Size.{size_mod}
use c_nad.Prelude.Array.{get_elem?-splice, length-splice}
use c_nad.Prelude.{
  ℕ, zero, suc, ◌+◌, ◌-◌, ◌*◌, ◌≤◌, ◌<◌, ◌≡◌, refl, sym, ap, ◌∙◌, inl, inr, true, false, not,
  Option, some, List, [], ◌∷◌, ◌++◌, map, append-nil, arith, ltb, leb, ◌==◌, if◌then◌else◌, ltb→lt,
  ltb→le, leb→lt, le→leb, Bool-cases, length, take, replicate, length-append, length-take,
  length-replicate, take-append-drop, get_elem?-take, get_elem?-append_left, get_elem?-append_right,
  done, ◌>>=◌, Returns, Returns-bind, Returns-if, splice,
}
use c_nad.Core.Status.{ok, no_mem, is_ok}
use c_nad.Alloc.{Al}
use c_nad.Ds.Block.{
  write, written, write-done, slot-written, length-written, slot-map-some, length-map-some,
}
use c_nad.Ds.Vec.{Vec, block, shift}
use c_nad.Ds.Vec.Holds.{Holds, assert_vec-done}
use c_nad.Ds.Vec.Mods.{Shifted, shift-Shifted}
use c_nad.Ds.Vec.Grow.{Outcome, insert_span, extend, resize, reserve_for}
use c_nad.Ds.Vec.Grow.Reserve.{Settled, Roomy, reserve_for-Settled}
use c_nad.Ds.Vec.Grow.Insert.{Added}

-- What resize leaves: the first `n` elems, or all of them and zeroed ones behind.
abbrev pub resized_list : {A : Type 0} → List A → ℕ → A → List A
resized_list xs n zero_elem =
    if leb n (length xs) then take n xs else xs ++ replicate (n - length xs) zero_elem

pub mul_mono : (a b c : ℕ) → a ≤ b → a * c ≤ b * c
mul_mono a b c h = grind arith

module _ {A : Type 0} {v : Vec A} {xs : List A} (h : Holds v xs) where
  -- the run written into the gap that a shift opened at `idx`
  run-Holds :
      (idx : ℕ) (src : List A) (x : Vec A)
      → 0 < length src
      → idx ≤ v.len
      → v.len + length src ≤ v.cap
      → Shifted v (idx + length src) idx (v.len - idx) x
      → Holds
          (record x {
            slots = some (written (block x) idx (map some src));
            len = v.len + length src;
          })
          (splice idx idx src xs)
  run-Holds idx src x pos p q s =
      let n = length-map-some src in
      let fits : idx + length (map {B = Option A} some src) ≤ length (block x) =
        omega (arith, s.full, n) in
      record {
        sized = rw s.kept.size_kept h.sized;
        count = omega (arith, h.count, length-splice idx idx src xs);
        room = omega (arith, s.kept.cap_kept);
        bytes = rw (s.kept.cap_kept, s.kept.size_kept) h.bytes;
        full =
            omega
              (arith, length-written (block x) idx (map some src) fits, s.full, s.kept.cap_kept);
        owned = ground (arith, s.kept.cap_kept);
        elems = λ i r. ground (
          arith,
          slot-written (block x) idx (map some src) i fits,
          n,
          s.at i,
          get_elem?-splice idx idx src xs i,
          h.count,
          h.elems i,
          h.elems (idx + (i - (idx + length src))),
          slot-map-some src (i - idx),
        );
      }

module _ {A : Type 0} (al : Al) {v : Vec A} {xs : List A} (h : Holds v xs) where
  room_for :
      (st : al.State) (n : ℕ)
      → Returns {A = Outcome al A}
          (Settled al v (Roomy v xs n))
          (if ltb v.cap n then reserve_for al v st n else done (ok, v, st))
  room_for st n =
      Returns-if (ltb v.cap n) (λ more. reserve_for-Settled al h st n (ltb→lt _ _ more))
        (λ fits. (_, refl, record { holds = h; enough = ltb→le _ _ fits; size_kept = refl }))

  span_into :
      (idx : ℕ) (src : List A) (r : Outcome al A)
      → 0 < length src
      → idx ≤ length xs
      → Settled al v (Roomy v xs (v.len + length src)) r
      → Returns {A = Outcome al A} (Settled al v (Added v (splice idx idx src xs))) (
          if not (is_ok r.0) then done r else (do
            x ← shift r.1 (idx + length src) idx (r.1.len - idx)
            b ← write (block x) idx (map some src)
            done (ok, record x { slots = some b; len = v.len + length src }, r.2)))
  span_into idx src (no_mem, w, st) pos p u = (_, refl, u)
  span_into idx src (ok, w, st) pos p u =
      let g = u.holds in
      let same : v.len ≡ w.len = omega (arith, h.count, g.count) in
      let in_w : idx ≤ w.len = omega (arith, g.count) in
      let free : w.len + length src ≤ w.cap = omega (arith, u.enough) in
      Returns-bind _ _
        (shift-Shifted g (idx + length src) idx (w.len - idx) (omega arith) (omega arith))
        λ x s.
          let n = length-map-some src in
          rw (write-done (block x) idx (map some src) (omega (arith, s.full, n)), same)
            (_, refl, (run-Holds g idx src x pos in_w free s, s.kept.size_kept ∙ u.size_kept))

  -- insert_span returns: with success the whole run stands at `idx`, with a refusal, or a length
  -- that size_t cannot hold, the vec is as it was.
  pub insert_span-Settled :
      (st : al.State) (idx : ℕ) (src : List A)
      → idx ≤ length xs
      → Returns {A = Outcome al A}
          (Settled al v (Added v (splice idx idx src xs)))
          (insert_span al v st idx src)
  unfolding insert_span
  insert_span-Settled st idx [] p =
      rw (assert_vec-done h, le→leb idx v.len (omega (arith, h.count)))
        (_, refl, (rw (take-append-drop idx xs) h, refl))
  insert_span-Settled st idx (y ∷ src) p =
      let elems : (length (y ∷ src) == 0) ≡ false = ground arith in
      rw (assert_vec-done h, le→leb idx v.len (omega (arith, h.count)), elems)
        (elim (Bool-cases (ltb (v.len + length (y ∷ src)) size_mod)) [
          | inl e ↦ rw e (
              Returns-bind _ _ (room_for st (v.len + length (y ∷ src)))
                λ r u. span_into idx (y ∷ src) r (omega arith) p u)
          | inr e ↦ rw e (_, refl, refl)
        ])

  splice_end : (ys src : List A) → splice (length ys) (length ys) src ys ≡ ys ++ src
  splice_end [] src = append-nil src
  splice_end (y ∷ ys) src = ap (◌∷◌ y) (splice_end ys src)

  -- extend returns: with success the run stands behind the elems, else the vec is as it was.
  pub extend-Settled :
      (st : al.State) (src : List A)
      → Returns {A = Outcome al A} (Settled al v (Added v (xs ++ src))) (extend al v st src)
  unfolding extend
  extend-Settled st src =
      let end : splice v.len v.len src xs ≡ xs ++ src =
        ap (λ k. splice k k src xs) h.count ∙ splice_end xs src in
      rw (assert_vec-done h, ← end) (insert_span-Settled st v.len src (omega (arith, h.count)))

  map-replicate : (n : ℕ) (z : A) → replicate n (some z) ≡ map some (replicate n z)
  map-replicate zero z = refl
  map-replicate (suc n) z = ap (◌∷◌ (some z)) (map-replicate n z)

  zeroed-Holds :
      (w : Vec A) (n : ℕ) (z : A)
      → Holds w xs
      → length xs < n
      → n ≤ w.cap
      → Holds
          (record w {
            slots = some (written (block w) w.len (replicate (n - w.len) (some z)));
            len = n;
          })
          (xs ++ replicate (n - length xs) z)
  zeroed-Holds w n z g p q =
      let m = length-replicate {A = Option A} (n - w.len) (some z) in
      let fits : w.len + length (replicate (n - w.len) (some z)) ≤ length (block w) =
        omega (arith, g.full, g.count, m) in
      record {
        sized = g.sized;
        count = omega (
          arith,
          length-append xs (replicate (n - length xs) z),
          length-replicate (n - length xs) z,
        );
        room = q;
        bytes = g.bytes;
        full =
            omega
              (arith, length-written (block w) w.len (replicate (n - w.len) (some z)) fits, g.full);
        owned = ground (arith, g.room);
        elems = λ i r. elim (Bool-cases (ltb i w.len)) [
          | inl e ↦
              let front =
                get_elem?-append_left xs (replicate (n - length xs) z) i
                  (ground (arith, g.count)) in
              rw (slot-written (block w) w.len (replicate (n - w.len) (some z)) i fits, e, front)
                (g.elems i (ltb→lt _ _ e))
          | inr e ↦
              let in_run : ltb i (w.len + length (replicate (n - w.len) (some z))) ≡ true =
                ground (arith, m) in
              let back =
                get_elem?-append_right xs (replicate (n - length xs) z) i
                  (ground (arith, g.count)) in
              rw (
                slot-written (block w) w.len (replicate (n - w.len) (some z)) i fits,
                e,
                in_run,
                back,
                map-replicate (n - w.len) z,
                slot-map-some (replicate (n - w.len) z) (i - w.len),
                g.count,
              )
        ];
      }

  zeros_into :
      (n : ℕ) (z : A) (r : Outcome al A)
      → length xs < n
      → Settled al v (Roomy v xs n) r
      → Returns {A = Outcome al A} (Settled al v (Added v (xs ++ replicate (n - length xs) z))) (
          if not (is_ok r.0) then done r else (do
            b ← write (block r.1) r.1.len (replicate (n - r.1.len) (some z))
            done (ok, record r.1 { slots = some b; len = n }, r.2)))
  zeros_into n z (no_mem, w, st) p u = (_, refl, u)
  zeros_into n z (ok, w, st) p u =
      let g = u.holds in
      let m = length-replicate {A = Option A} (n - w.len) (some z) in
      rw
        (write-done (block w) w.len (replicate (n - w.len) (some z))
          (omega (arith, g.full, g.count, m, u.enough)))
        (_, refl, (zeroed-Holds w n z g p u.enough, u.size_kept))

  -- resize returns: with success the list is cut to `n` elems or filled up to them with zeroed
  -- ones, else the vec is as it was.
  pub resize-Settled :
      (st : al.State) (n : ℕ) (z : A)
      → Returns {A = Outcome al A}
          (Settled al v (Added v (resized_list xs n z)))
          (resize al v st n z)
  unfolding resize
  resize-Settled st n z = rw (assert_vec-done h) (elim (Bool-cases (leb n v.len)) [
    | inl e ↦
        let f : leb n (length xs) ≡ true = ground (arith, h.count) in
        rw (e, f)
          (
            _,
            refl,
            (
              record {
                sized = h.sized;
                count = ground (arith, h.count, length-take n xs);
                room = ground (arith, h.room);
                bytes = h.bytes;
                full = h.full;
                owned = h.owned;
                elems = λ i r. h.elems i (ground arith) ∙ sym (get_elem?-take n xs i r);
              },
              refl,
            ),
          )
    | inr e ↦
        let f : leb n (length xs) ≡ false = ground (arith, h.count) in
        rw (e, f) (Returns-bind _ _ (room_for st n) λ r u. zeros_into n z r (leb→lt _ _ f) u)
  ])

-- ===== src/Ds/Deque/Grow/Insert.antt =====
-- push_back, push_front and insert against the list that the deque holds.
use c_nad.Prelude.Array.{get_elem?-splice, length-splice}
use c_nad.Prelude.{
  ℕ, ◌+◌, ◌-◌, ◌/◌, ◌≤◌, ◌<◌, ◌≡◌, refl, ◌∙◌, ◌≢◌, not, Option, List, [], ◌∷◌, ◌++◌, arith, ltb,
  leb, ◌==◌, if◌then◌else◌, le→leb, length, length-append, get_elem?-append_left,
  get_elem?-append_right, done, ◌>>=◌, Returns, Returns-bind, Returns-map, Returns-if, splice,
}
use c_nad.Core.Status.{ok, no_mem, is_ok}
use c_nad.Alloc.{Al}
use c_nad.Ds.Deque.{open_gap, Deque, head_before, store_at, store_slot}
use c_nad.Ds.Deque.Holds.{
  IsRing, Holds, Keeps, lap, entry, assert_deque-done, slot_of-done, store_at-RingWith,
}
use c_nad.Ds.Deque.Slide.{Filled, slide_front-RingWith, slide_back-RingWith}
use c_nad.Ds.Deque.Mods.{Filled-Holds, IsRing-len, get_elem?-cons}
use c_nad.Ds.Deque.Grow.{Outcome, push_back, push_front, insert}
use c_nad.Ds.Deque.Grow.Reserve.{Settled, Roomy, Limited, reserve_one-Settled}

-- What an operation that changes the elems leaves: the new list, at the same elem size.
abbrev pub Now : {A : Type 0} → Deque A → List A → Deque A → Type 0
Now d ys e = Holds e ys × (e.elem_size ≡ d.elem_size)

-- the head once an elem is inserted at `idx` and the capacity is `cap`
abbrev pub inserted_head : {A : Type 0} → Deque A → ℕ → ℕ → ℕ
inserted_head d idx cap =
    let start = if ltb d.len d.cap then d.head else 0 in
    if leb idx (d.len / 2) then (if start == 0 then cap - 1 else start - 1) else start

module _ {A : Type 0} {d : Deque A} {xs : List A} (h : Holds d xs) where
  -- the elem written behind the last one
  end-Now :
      (val : A)
      → d.len < d.cap
      → Returns
          (λ e. Now d (xs ++ (val ∷ [])) (record e { len = d.len + 1 }))
          (store_at d d.len val)
  end-Now val p = Returns-map _ (store_at-RingWith h.ring d.len val p) λ e a. (
    record {
      ring = IsRing-len a.ring (d.len + 1) (omega (arith, a.kept.cap_kept));
      count = omega (arith, h.count, length-append xs (val ∷ []));
      elems = λ i q. ground (
        arith,
        a.at i,
        h.count,
        h.elems i,
        get_elem?-append_left xs (val ∷ []) i,
        get_elem?-append_right xs (val ∷ []) i,
        get_elem?-cons val [] (i - length xs),
      );
    },
    a.kept.size_kept,
  )

  -- the ring with the head one slot back
  pub before-IsRing :
      (n : ℕ) → 0 < d.cap → n ≤ d.cap → IsRing (record d { head = head_before d; len = n })
  unfolding head_before
  before-IsRing n p q = record {
    sized = h.ring.sized;
    room = q;
    bytes = h.ring.bytes;
    full = h.ring.full;
    owned = h.ring.owned;
    turned = ground (arith, h.ring.turned);
  }

  -- the elem at `i + 1` from there is the elem at `i` from the old head
  pub lap-before : (i : ℕ) → i + 1 < d.cap → lap d.cap (head_before d) (i + 1) ≡ lap d.cap d.head i
  unfolding head_before
  lap-before i p = ground (arith, h.ring.turned)

  -- the slot at the head is that of the elem at 0
  store_head :
      (val : A)
      → 0 < d.cap
      → store_slot (record d { head = head_before d }) (head_before d) val
        ≡ store_at (record d { head = head_before d }) 0 val
  unfolding store_at head_before
  store_head val p =
      let ring : IsRing (record d { head = head_before d }) = before-IsRing d.len p h.ring.room in
      let first : lap d.cap (head_before d) 0 ≡ head_before d = ground (arith, h.ring.turned) in
      rw (slot_of-done ring 0 p, first) refl

  -- the elem written in front of the first one
  front-Now :
      (val : A)
      → d.len < d.cap
      → Returns
          (λ e. Now d (val ∷ xs) (record e { len = d.len + 1 }))
          (store_slot (record d { head = head_before d }) (head_before d) val)
  front-Now val p = rw (store_head val (omega arith)) (
      Returns-map _
        (store_at-RingWith (before-IsRing d.len (omega arith) h.ring.room) 0 val (omega arith))
        λ e a. (
          record {
            ring = IsRing-len a.ring (d.len + 1) (omega (arith, a.kept.cap_kept));
            count = omega (arith, h.count);
            elems = λ i q.
                ground
                  (arith, a.at i, lap-before (i - 1), h.elems (i - 1), get_elem?-cons val xs i);
          },
          a.kept.size_kept,
        ))

  -- the ring after open_gap: one elem more, and those from `idx` on one place further
  abbrev opened : ℕ → ℕ → Option A
  opened idx j = if ltb j idx then entry d j else entry d (j - 1)

  -- the elems behind the gap at `idx` stand one place further
  record HasGap (idx : ℕ) (e : Deque A) : Type 0 where
    ring : IsRing e
    kept : Keeps d e
    longer : e.len ≡ d.len + 1
    side : e.head ≡ (if leb idx (d.len / 2) then head_before d else d.head)
    at : (j : ℕ) → j < d.len + 1 → j ≢ idx → entry e j ≡ opened idx j

  open_gap-HasGap : (idx : ℕ) → idx ≤ d.len → d.len < d.cap → Returns (HasGap idx) (open_gap d idx)
  unfolding open_gap
  open_gap-HasGap idx p q =
      Returns-if (leb idx (d.len / 2))
        (λ near_front.
          let filled : Filled (record d { head = head_before d; len = d.len + 1 }) (0 + 1)
              (0 + idx + 1) =
            λ j r s.
              let (x, e) =
                Filled-Holds h 0 d.len (omega arith) (j - 1) (omega arith) (omega arith) in
              (x, ground (arith, lap-before (j - 1), e)) in
          Returns-map _
            (slide_front-RingWith idx (before-IsRing (d.len + 1) (omega arith) (omega arith)) 0
              (omega arith) filled)
            λ e a. record {
              ring = a.ring;
              kept = record { cap_kept = a.kept.cap_kept; size_kept = a.kept.size_kept };
              longer = a.len_kept;
              side = rw near_front a.head_kept;
              at = λ j r ne. ground (arith, a.at j, lap-before j, lap-before (j - 1));
            })
        (λ near_back.
          Returns-map _
            (slide_back-RingWith (d.len - idx) (IsRing-len h.ring (d.len + 1) (omega arith)) idx
              (omega arith) (Filled-Holds h idx (idx + (d.len - idx)) (omega arith)))
            λ e a. record {
              ring = a.ring;
              kept = record { cap_kept = a.kept.cap_kept; size_kept = a.kept.size_kept };
              longer = a.len_kept;
              side = rw near_back a.head_kept;
              at = λ j r ne. ground (arith, a.at j);
            })

  -- the elem written into the gap
  gap-Now :
      (idx : ℕ) (val : A) (e : Deque A)
      → idx ≤ d.len
      → d.len < d.cap
      → HasGap idx e
      → Returns
          (λ f. Now d (splice idx idx (val ∷ []) xs) f × (f.cap ≡ d.cap) × (f.head ≡ e.head))
          (store_at e idx val)
  gap-Now idx val e p q g =
      Returns-map _ (store_at-RingWith g.ring idx val (omega (arith, g.kept.cap_kept))) λ f a. (
        (
          record {
            ring = a.ring;
            count =
                omega (arith, a.len_kept, g.longer, h.count, length-splice idx idx (val ∷ []) xs);
            elems = λ i r. ground (
              arith,
              a.at i,
              a.len_kept,
              g.at i,
              g.longer,
              g.kept.cap_kept,
              get_elem?-splice idx idx (val ∷ []) xs i,
              get_elem?-cons val [] (i - idx),
              h.count,
              h.elems i,
              h.elems (i - 1),
            );
          },
          a.kept.size_kept ∙ g.kept.size_kept,
        ),
        a.kept.cap_kept ∙ g.kept.cap_kept,
        a.head_kept,
      )

module _ {A : Type 0} (al : Al) (limit : Limited al) {d : Deque A} {xs : List A}
    (h : Holds d xs) where
  push_back_into :
      (val : A) (r : Outcome al A)
      → Settled al d (Roomy d xs (d.len + 1)) r
      → Returns {A = Outcome al A} (Settled al d (Now d (xs ++ (val ∷ [])))) (
          if not (is_ok r.0)
          then done r
          else (do f ← store_at r.1 r.1.len val; done (ok, record f { len = r.1.len + 1 }, r.2)))
  push_back_into val (no_mem, e, st) u = (_, refl, u)
  push_back_into val (ok, e, st) u =
      let g = u.holds in
      Returns-bind _ _ (end-Now g val (omega (arith, u.enough, h.count, g.count)))
        λ f a. (_, refl, (a.0, a.1 ∙ u.size_kept))

  push_front_into :
      (val : A) (r : Outcome al A)
      → Settled al d (Roomy d xs (d.len + 1)) r
      → Returns {A = Outcome al A} (Settled al d (Now d (val ∷ xs))) (
          if not (is_ok r.0) then done r else (do
            f ← store_slot (record r.1 { head = head_before r.1 }) (head_before r.1) val
            done (ok, record f { len = r.1.len + 1 }, r.2)))
  push_front_into val (no_mem, e, st) u = (_, refl, u)
  push_front_into val (ok, e, st) u =
      let g = u.holds in
      Returns-bind _ _ (front-Now g val (omega (arith, u.enough, h.count, g.count)))
        λ f a. (_, refl, (a.0, a.1 ∙ u.size_kept))

  -- push_back and push_front return, on an allocator that hands out no block larger than an object
  -- may be: with success the list has the elem at its end, or at its front, with a refusal the
  -- deque is as it was.
  pub push_back-push_front-Now :
      (st : al.State) (val : A)
      → Returns {A = Outcome al A} (Settled al d (Now d (xs ++ (val ∷ [])))) (push_back al d st val)
        × Returns {A = Outcome al A} (Settled al d (Now d (val ∷ xs))) (push_front al d st val)
  unfolding push_back push_front
  push_back-push_front-Now st val = (
    rw (assert_deque-done h.ring)
        (Returns-bind _ _ (reserve_one-Settled al limit h st) λ r u. push_back_into val r u),
    rw (assert_deque-done h.ring)
        (Returns-bind _ _ (reserve_one-Settled al limit h st) λ r u. push_front_into val r u),
  )

  insert_into :
      (idx : ℕ) (val : A) (r : Outcome al A)
      → idx ≤ length xs
      → Settled al d (Roomy d xs (d.len + 1)) r
      → Returns {A = Outcome al A}
          (Settled al d
            (λ e. Now d (splice idx idx (val ∷ []) xs) e × (e.head ≡ inserted_head d idx e.cap)))
          (if not (is_ok r.0)
            then done r
            else (do f ← open_gap r.1 idx; g ← store_at f idx val; done (ok, g, r.2)))
  unfolding head_before
  insert_into idx val (no_mem, e, st) p u = (_, refl, u)
  insert_into idx val (ok, e, st) p u =
      let g = u.holds in
      let in_e : idx ≤ e.len = omega (arith, g.count) in
      let free : e.len < e.cap = omega (arith, u.enough, h.count, g.count) in
      Returns-bind _ _ (open_gap-HasGap g idx in_e free) λ f a.
        Returns-bind _ _ (gap-Now g idx val f in_e free a) λ k (b, cap, head). (
          _,
          refl,
          ((b.0, b.1 ∙ u.size_kept), ground (arith, cap, head, a.side, u.start, h.count, g.count)),
        )

  -- insert returns, on an allocator that hands out no block larger than an object may be: with
  -- success the elem stands at `idx` and the others around it in order. The shorter side has moved:
  -- the head, which is in slot 0 after a growth, goes back by one slot when `idx` is at most half of
  -- the length, and else stays. With a refusal the deque is as it was.
  pub insert-Now :
      (st : al.State) (idx : ℕ) (val : A)
      → idx ≤ length xs
      → Returns {A = Outcome al A}
          (Settled al d
            (λ e. Now d (splice idx idx (val ∷ []) xs) e × (e.head ≡ inserted_head d idx e.cap)))
          (insert al d st idx val)
  unfolding insert
  insert-Now st idx val p =
      rw (assert_deque-done h.ring, le→leb idx d.len (omega (arith, h.count)))
        (Returns-bind _ _ (reserve_one-Settled al limit h st) λ r u. insert_into idx val r p u)

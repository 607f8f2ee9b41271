-- ===== src/Ds/Deque/Mods.antt =====
-- The operations of a deque that do not allocate, against the list that it holds.
use c_nad.Ds.Deque
use c_nad.Prelude.Array.{get_elem?-splice, length-splice, get_elem?-set}
use c_nad.Prelude.{
  ℕ, zero, suc, ◌+◌, ◌-◌, ◌≤◌, ◌<◌, ◌≡◌, refl, sym, ◌∙◌, ◌&&◌, Option, some, List, [], ◌∷◌, arith,
  ltb, leb, ◌==◌, if◌then◌else◌, ltb→lt, lt→ltb, length, get_elem?, set, take, drop, length-set,
  length-take, length-drop, get_elem?-of_lt, lt_of_get_elem?, get_elem?-drop, get_elem?-take, done,
  Returns, Returns-bind, Returns-map, Returns-if, Guarded, Guarded-if, splice,
}
use c_nad.Ds.Deque.{Deque, head_after, load_at}
use c_nad.Ds.Deque.Slide.{Filled, slide_front-RingWith, slide_back-RingWith}
use c_nad.Ds.Deque.Holds.{
  IsRing, Holds, RingWith, Keeps, lap, entry, assert_deque-done, load_at-done, store_at-RingWith,
}

module _ {A : Type 0} {d : Deque A} {xs : List A} (h : Holds d xs) where
  -- get, front and back return the entries of the list that the deque holds.
  pub get-front-back :
      (idx : ℕ) {x : A}
      → get_elem? xs idx ≡ some x
      → (Deque.get d idx ≡ done x)
        × (idx ≡ 0 → Deque.front d ≡ done x)
        × (idx + 1 ≡ length xs → Deque.back d ≡ done x)
  unfolding Deque.get Deque.front Deque.back
  get-front-back idx {x} e =
      let p : idx < d.len = omega (arith, h.count, lt_of_get_elem? xs idx e) in
      let found : load_at d idx ≡ done x =
        load_at-done h.ring idx (omega (arith, h.ring.room)) (h.elems idx p ∙ e) in
      (
        rw (assert_deque-done h.ring, lt→ltb idx d.len p) found,
        λ first. rw (assert_deque-done h.ring, lt→ltb 0 d.len (omega arith), ← first) found,
        λ last.
            let last' : d.len - 1 ≡ idx = omega (arith, h.count) in
            rw (assert_deque-done h.ring, lt→ltb 0 d.len (omega arith), last') found,
      )

  -- every elem that the list has was written
  pub Filled-Holds : (lo hi : ℕ) → hi ≤ d.len → Filled d lo hi
  Filled-Holds lo hi p j r s =
      let (x, e) = get_elem?-of_lt xs j (omega (arith, h.count)) in (x, h.elems j (omega arith) ∙ e)

  set-Holds :
      (idx : ℕ) (x : A)
      → idx < length xs
      → Returns (λ e. Holds e (set xs idx x) × Keeps d e) (Deque.set d idx x)
  unfolding Deque.set
  set-Holds idx x p =
      let in_d : idx < d.len = omega (arith, h.count) in
      rw (assert_deque-done h.ring, lt→ltb idx d.len in_d)
        (Returns-map _ (store_at-RingWith h.ring idx x (omega (arith, h.ring.room))) λ e a. (
          record {
            ring = a.ring;
            count = omega (arith, a.len_kept, h.count, length-set xs idx x);
            elems = λ i q.
                ground
                  (arith, a.at i, a.len_kept, h.ring.room, get_elem?-set xs idx x i, h.elems i);
          },
          a.kept,
        ))

  -- the front taken off
  after_front : 0 < d.len → Holds (record d { head = head_after d; len = d.len - 1 }) (drop 1 xs)
  unfolding head_after
  after_front p = record {
    ring = record {
      sized = h.ring.sized;
      room = omega (arith, h.ring.room);
      bytes = h.ring.bytes;
      full = h.ring.full;
      owned = h.ring.owned;
      turned = ground (arith, h.ring.turned);
    };
    count = omega (arith, h.count, length-drop 1 xs);
    elems = λ i q.
        let on : lap d.cap (head_after d) i ≡ lap d.cap d.head (1 + i) =
          ground (arith, h.ring.turned, h.ring.room) in
        rw on (h.elems (1 + i) (omega arith) ∙ sym (get_elem?-drop 1 xs i));
  }

  -- the back taken off
  before_back : 0 < d.len → Holds (record d { len = d.len - 1 }) (take (length xs - 1) xs)
  before_back p = record {
    ring = record {
      sized = h.ring.sized;
      room = omega (arith, h.ring.room);
      bytes = h.ring.bytes;
      full = h.ring.full;
      owned = h.ring.owned;
      turned = h.ring.turned;
    };
    count = omega (arith, h.count, length-take (length xs - 1) xs);
    elems = λ i q.
        h.elems i (omega arith)
        ∙ sym (get_elem?-take (length xs - 1) xs i (omega (arith, h.count)));
  }

  pub pop_front-Holds :
      0 < length xs → Returns (λ e. Holds e (drop 1 xs) × Keeps d e) (Deque.pop_front d)
  unfolding Deque.pop_front
  pop_front-Holds p =
      let some_elem : 0 < d.len = omega (arith, h.count) in
      rw (assert_deque-done h.ring, lt→ltb 0 d.len some_elem)
        (_, refl, (after_front some_elem, record { cap_kept = refl; size_kept = refl }))

  pop_back-Holds :
      0 < length xs
      → Returns (λ e. Holds e (take (length xs - 1) xs) × Keeps d e) (Deque.pop_back d)
  unfolding Deque.pop_back
  pop_back-Holds p =
      let some_elem : 0 < d.len = omega (arith, h.count) in
      rw (assert_deque-done h.ring, lt→ltb 0 d.len some_elem)
        (_, refl, (before_back some_elem, record { cap_kept = refl; size_kept = refl }))

  clear-Holds : Returns (λ e. Holds e [] × Keeps d e) (Deque.clear d)
  unfolding Deque.clear
  clear-Holds = rw (assert_deque-done h.ring) (
    _,
    refl,
    (
      record {
        ring = record {
          sized = h.ring.sized;
          room = omega arith;
          bytes = h.ring.bytes;
          full = h.ring.full;
          owned = h.ring.owned;
          turned = omega arith;
        };
        count = refl;
        elems = λ i q. absurd (omega arith);
      },
      record { cap_kept = refl; size_kept = refl },
    ),
  )

  -- what a loop of moves leaves, as a list of the same length
  held :
      (ys : List A) (e : Deque A) (f : ℕ → Option A)
      → RingWith d f e
      → length ys ≡ d.len
      → ((i : ℕ) → i < d.len → f i ≡ get_elem? ys i)
      → Holds e ys
  held ys e f a n same = record {
    ring = a.ring;
    count = a.len_kept ∙ sym n;
    elems =
        λ i q. a.at i (omega (arith, a.len_kept, h.ring.room)) ∙ same i (omega (arith, a.len_kept));
  }

pub get_elem?-cons :
    {A : Type 0} (x : A) (xs : List A) (i : ℕ)
    → get_elem? (x ∷ xs) i ≡ (if i == 0 then some x else get_elem? xs (i - 1))
get_elem?-cons x xs zero = refl
get_elem?-cons x xs (suc i) = ground arith

pub IsRing-len :
    {A : Type 0} {d : Deque A} → IsRing d → (n : ℕ) → n ≤ d.cap → IsRing (record d { len = n })
IsRing-len h n p = record {
  sized = h.sized;
  room = p;
  bytes = h.bytes;
  full = h.full;
  owned = h.owned;
  turned = h.turned;
}

module _ {A : Type 0} {d : Deque A} {xs : List A} (h : Holds d xs) where
  Keeps-front : {e : Deque A} (i n : ℕ) → Keeps d e → Keeps d (record e { head = i; len = n })
  Keeps-front i n k = record { cap_kept = k.cap_kept; size_kept = k.size_kept }

  -- the elems in front of `idx` moved over it, and the front taken off
  slid_back :
      (idx : ℕ) (e : Deque A)
      → idx < d.len
      → RingWith d (λ j. if ltb 0 j && leb j (0 + idx) then entry d (j - 1) else entry d j) e
      → Holds (record e { head = head_after e; len = e.len - 1 }) (splice idx (idx + 1) [] xs)
  slid_back idx e p a =
      let ys = splice idx (idx + 1) [] xs in
      let (x, first) = get_elem?-of_lt xs 0 (omega (arith, h.count)) in
      let size : length (x ∷ ys) ≡ d.len =
        omega (arith, length-splice idx (idx + 1) [] xs, h.count) in
      after_front
        (held h (x ∷ ys) e _ a size (λ i q. ground (
          arith,
          get_elem?-cons x ys i,
          get_elem?-splice idx (idx + 1) [] xs (i - 1),
          h.count,
          h.elems i,
          h.elems (i - 1),
          first,
        )))
        (omega (arith, a.len_kept))

  -- the elems behind `idx` moved over it, and the back taken off
  slid_front :
      (idx : ℕ) (e : Deque A)
      → idx < d.len
      → RingWith d
          (λ j. if leb idx j && ltb j (idx + (d.len - idx - 1)) then entry d (j + 1) else entry d j)
          e
      → Holds (record e { len = e.len - 1 }) (splice idx (idx + 1) [] xs)
  slid_front idx e p a = record {
    ring = IsRing-len a.ring (e.len - 1) (omega (arith, a.ring.room));
    count = omega (arith, length-splice idx (idx + 1) [] xs, h.count, a.len_kept);
    elems = λ i q. ground (
      arith,
      a.at i,
      a.len_kept,
      h.ring.room,
      get_elem?-splice idx (idx + 1) [] xs i,
      h.count,
      h.elems i,
      h.elems (i + 1),
    );
  }

  remove-Holds :
      (idx : ℕ)
      → idx < length xs
      → Returns (λ e. Holds e (splice idx (idx + 1) [] xs) × Keeps d e) (Deque.remove d idx)
  unfolding Deque.remove
  remove-Holds idx p =
      let in_d : idx < d.len = omega (arith, h.count) in
      let room = h.ring.room in
      rw (assert_deque-done h.ring, lt→ltb idx d.len in_d)
        (Returns-if (ltb idx (d.len - idx - 1))
          (λ near_front.
            Returns-bind _ _
              (slide_back-RingWith idx h.ring 0 (omega arith)
                (Filled-Holds h 0 (0 + idx) (omega arith)))
              λ e a. (_, refl, (slid_back idx e in_d a, Keeps-front _ _ a.kept)))
          (λ near_back.
            Returns-bind _ _
              (slide_front-RingWith (d.len - idx - 1) h.ring idx (omega arith)
                (Filled-Holds h (idx + 1) (idx + (d.len - idx - 1) + 1) (omega arith)))
              λ e a. (_, refl, (slid_front idx e in_d a, Keeps-front _ _ a.kept))))

  -- On a deque that holds a list, empty or not: set replaces an entry, pop_front and pop_back drop the
  -- ends, remove takes an entry out, clear all of them; each keeps the others in order, the ring
  -- sound, and its capacity. An index past the list, and a pop of the empty list, trap; clear never.
  pub set-pop_front-pop_back-remove-clear :
      (idx : ℕ) (x : A)
      → Guarded (ltb idx (length xs)) (λ e. Holds e (set xs idx x) × Keeps d e) (Deque.set d idx x)
        × Guarded (ltb 0 (length xs)) (λ e. Holds e (drop 1 xs) × Keeps d e) (Deque.pop_front d)
        × Guarded
            (ltb 0 (length xs))
            (λ e. Holds e (take (length xs - 1) xs) × Keeps d e)
            (Deque.pop_back d)
        × Guarded
            (ltb idx (length xs))
            (λ e. Holds e (splice idx (idx + 1) [] xs) × Keeps d e)
            (Deque.remove d idx)
        × Returns (λ e. Holds e [] × Keeps d e) (Deque.clear d)
  unfolding Deque.set Deque.pop_front Deque.pop_back Deque.remove
  set-pop_front-pop_back-remove-clear idx x = (
    Guarded-if _ (λ e. set-Holds h idx x (ltb→lt _ _ e))
        (λ e. rw (assert_deque-done h.ring, h.count, e) refl),
    Guarded-if _ (λ e. pop_front-Holds h (ltb→lt _ _ e))
        (λ e. rw (assert_deque-done h.ring, h.count, e) refl),
    Guarded-if _ (λ e. pop_back-Holds h (ltb→lt _ _ e))
        (λ e. rw (assert_deque-done h.ring, h.count, e) refl),
    Guarded-if _ (λ e. remove-Holds idx (ltb→lt _ _ e))
        (λ e. rw (assert_deque-done h.ring, h.count, e) refl),
    clear-Holds h,
  )

-- ===== src/Ds/Vec/Mods.antt =====
-- The operations of a vec that do not allocate, against the list that it holds.
use c_nad.Ds.Vec
use c_nad.Prelude.Array.{get_elem?-splice, length-splice, get_elem?-set}
use c_nad.Prelude.{
  ℕ, ◌+◌, ◌-◌, ◌≤◌, ◌<◌, ◌≡◌, refl, sym, ◌∙◌, inl, inr, false, some, List, [], arith, ltb, leb,
  ◌==◌, if◌then◌else◌, ltb→lt, leb→le, lt→ltb, le→leb, Bool-cases, length, get_elem?, set, take,
  length-set, length-take, lt_of_get_elem?, get_elem?-take, done, Returns, Returns-bind, Returns-if,
  Guarded, Guarded-if, splice,
}
use c_nad.Ds.Block.{
  slot, slot-moved, length-moved, slot-set, is_some, store-done, load-done, move-done,
}
use c_nad.Ds.Vec.{Vec, block, shift, store_at}
use c_nad.Ds.Vec.Holds.{Holds, assert_vec-done}

-- `w` has the capacity and the elem size of `v`
pub record Keeps {A : Type 0} (v w : Vec A) : Type 0 where
  pub cap_kept : w.cap ≡ v.cap
  pub size_kept : w.elem_size ≡ v.elem_size

-- `w` is `v` with `tail` slots moved from `src` to `dst`
pub record Shifted {A : Type 0} (v : Vec A) (dst src tail : ℕ) (w : Vec A) : Type 0 where
  pub kept : Keeps v w
  pub len_kept : w.len ≡ v.len
  pub full : length (block w) ≡ v.cap
  pub owned : is_some w.slots ≡ ltb 0 v.cap
  pub at :
      (i : ℕ)
      → slot (block w) i ≡ (
          if ltb i dst
          then slot (block v) i
          else if ltb i (dst + tail)
          then slot (block v) (src + (i - dst))
          else slot (block v) i)

module _ {A : Type 0} {v : Vec A} {xs : List A} (h : Holds v xs) where
  pub shift-Shifted :
      (dst src tail : ℕ)
      → dst + tail ≤ v.cap
      → src + tail ≤ v.cap
      → Returns (Shifted v dst src tail) (shift v dst src tail)
  unfolding shift
  shift-Shifted dst src tail p q =
      let size = h.full in
      Returns-if (ltb 0 tail)
        (λ some_tail. rw (move-done (block v) dst src tail (omega arith) (omega arith)) (
          _,
          refl,
          record {
            kept = record { cap_kept = refl; size_kept = refl };
            len_kept = refl;
            full = omega (arith, length-moved (block v) dst src tail);
            owned = ground arith;
            at = λ i. slot-moved (block v) dst src tail i (omega arith) (omega arith);
          },
        ))
        (λ no_tail. (
          v,
          refl,
          record {
            kept = record { cap_kept = refl; size_kept = refl };
            len_kept = refl;
            full = size;
            owned = h.owned;
            at = λ i. ground arith;
          },
        ))

  -- get, front and back return the entries of the list that the vec holds.
  pub get-entry :
      (idx : ℕ) {x : A}
      → get_elem? xs idx ≡ some x
      → (Vec.get v idx ≡ done x)
        × (idx ≡ 0 → Vec.front v ≡ done x)
        × (idx + 1 ≡ length xs → Vec.back v ≡ done x)
  unfolding Vec.get Vec.front Vec.back
  get-entry idx e =
      let p : idx < v.len = omega (arith, h.count, lt_of_get_elem? xs idx e) in
      let at = h.elems idx p ∙ e in
      (
        rw (assert_vec-done h, lt→ltb idx v.len p) (load-done (block v) idx at),
        λ first.
            rw (assert_vec-done h, lt→ltb 0 v.len (omega arith), ← first)
              (load-done (block v) idx at),
        λ last.
            let last' : v.len - 1 ≡ idx = omega (arith, h.count) in
            rw (assert_vec-done h, lt→ltb 0 v.len (omega arith), last')
              (load-done (block v) idx at),
      )

  -- set replaces one elem.
  set-Holds :
      (idx : ℕ) (x : A)
      → idx < length xs
      → Returns (λ w. Holds w (set xs idx x) × Keeps v w) (Vec.set v idx x)
  unfolding Vec.set store_at
  set-Holds idx x p =
      let in_v : idx < v.len = omega (arith, h.count) in
      rw
        (
          assert_vec-done h,
          lt→ltb idx v.len in_v,
          store-done (block v) idx x (omega (arith, h.full, h.room)),
        )
        (
          _,
          refl,
          (
            record {
              sized = h.sized;
              count = omega (arith, h.count, length-set xs idx x);
              room = h.room;
              bytes = h.bytes;
              full = omega (arith, h.full, length-set (block v) idx (some x));
              owned = ground (arith, h.room);
              elems = λ i q. ground (
                arith,
                slot-set (block v) idx i (some x),
                get_elem?-set xs idx x i,
                h.elems i,
                h.full,
                h.room,
              );
            },
            record { cap_kept = refl; size_kept = refl },
          ),
        )

  -- pop drops the last elem.
  pub pop-Holds :
      0 < length xs → Returns (λ w. Holds w (take (length xs - 1) xs) × Keeps v w) (Vec.pop v)
  unfolding Vec.pop
  pop-Holds p =
      rw (assert_vec-done h, lt→ltb 0 v.len (omega (arith, h.count)))
        (
          _,
          refl,
          (
            record {
              sized = h.sized;
              count = omega (arith, h.count, length-take (length xs - 1) xs);
              room = omega (arith, h.room);
              bytes = h.bytes;
              full = h.full;
              owned = h.owned;
              elems = λ i q.
                  h.elems i (omega arith)
                  ∙ sym (get_elem?-take (length xs - 1) xs i (omega (arith, h.count)));
            },
            record { cap_kept = refl; size_kept = refl },
          ),
        )

  -- a slide over the elems from `idx` to `idx + n`
  slide-Holds :
      (idx n : ℕ) (w : Vec A)
      → idx + n ≤ v.len
      → Shifted v idx (idx + n) (v.len - idx - n) w
      → Holds (record w { len = v.len - n }) (splice idx (idx + n) [] xs)
  slide-Holds idx n w p s = record {
    sized = omega (arith, h.sized, s.kept.size_kept);
    count = omega (arith, h.count, length-splice idx (idx + n) [] xs);
    room = omega (arith, h.room, s.kept.cap_kept);
    bytes = rw (s.kept.cap_kept, s.kept.size_kept) h.bytes;
    full = s.full ∙ sym s.kept.cap_kept;
    owned = rw s.kept.cap_kept s.owned;
    elems = λ i q. ground (
      arith,
      s.at i,
      get_elem?-splice idx (idx + n) [] xs i,
      h.count,
      h.elems i,
      h.elems (idx + n + (i - idx)),
    );
  }

  Keeps-len : {w : Vec A} (n : ℕ) → Keeps v w → Keeps v (record w { len = n })
  Keeps-len n k = record { cap_kept = k.cap_kept; size_kept = k.size_kept }

  -- remove takes out one elem.
  remove-Holds :
      (idx : ℕ)
      → idx < length xs
      → Returns (λ w. Holds w (splice idx (idx + 1) [] xs) × Keeps v w) (Vec.remove v idx)
  unfolding Vec.remove
  remove-Holds idx p =
      let in_v : idx + 1 ≤ v.len = omega (arith, h.count) in
      rw (assert_vec-done h, lt→ltb idx v.len (omega arith))
        (Returns-bind _ _
          (shift-Shifted idx (idx + 1) (v.len - idx - 1) (omega (arith, h.room))
            (omega (arith, h.room)))
          λ w s. (_, refl, (slide-Holds idx 1 w in_v s, Keeps-len (v.len - 1) s.kept)))

  -- remove_range takes out a run of elems.
  remove_range-Holds :
      (idx n : ℕ)
      → idx + n ≤ length xs
      → Returns (λ w. Holds w (splice idx (idx + n) [] xs) × Keeps v w) (Vec.remove_range v idx n)
  unfolding Vec.remove_range
  remove_range-Holds idx n p =
      let in_v : idx + n ≤ v.len = omega (arith, h.count) in
      rw (assert_vec-done h, le→leb idx v.len (omega arith), le→leb n (v.len - idx) (omega arith))
        (Returns-if (n == 0)
          (λ none_of_them. (
            v,
            refl,
            (
              record {
                sized = h.sized;
                count = ground (arith, h.count, length-splice idx (idx + n) [] xs);
                room = h.room;
                bytes = h.bytes;
                full = h.full;
                owned = h.owned;
                elems = λ i q.
                    ground (arith, get_elem?-splice idx (idx + n) [] xs i, h.count, h.elems i);
              },
              record { cap_kept = refl; size_kept = refl },
            ),
          ))
          (λ some_of_them.
            Returns-bind _ _
              (shift-Shifted idx (idx + n) (v.len - idx - n) (omega (arith, h.room))
                (omega (arith, h.room)))
              λ w s. (_, refl, (slide-Holds idx n w in_v s, Keeps-len (v.len - n) s.kept))))

  -- clear drops all elems.
  clear-Holds : Returns (λ w. Holds w [] × Keeps v w) (Vec.clear v)
  unfolding Vec.clear
  clear-Holds = rw (assert_vec-done h) (
    _,
    refl,
    (
      record {
        sized = h.sized;
        count = refl;
        room = omega arith;
        bytes = h.bytes;
        full = h.full;
        owned = h.owned;
        elems = λ i q. absurd (omega arith);
      },
      record { cap_kept = refl; size_kept = refl },
    ),
  )

  -- On a vec that holds a list, empty or not: set replaces an entry, pop drops the last, remove takes
  -- one out, remove_range a run, clear all; each keeps the other entries in order, the vec well
  -- formed, and its capacity. An index or a run past the list, and a pop of the empty list, trap; an
  -- empty run may stand at the end, and clear never traps.
  pub set-pop-remove-remove_range-clear :
      (idx n : ℕ) (x : A)
      → Guarded (ltb idx (length xs)) (λ w. Holds w (set xs idx x) × Keeps v w) (Vec.set v idx x)
        × Guarded
            (ltb 0 (length xs))
            (λ w. Holds w (take (length xs - 1) xs) × Keeps v w)
            (Vec.pop v)
        × Guarded
            (ltb idx (length xs))
            (λ w. Holds w (splice idx (idx + 1) [] xs) × Keeps v w)
            (Vec.remove v idx)
        × Guarded
            (leb (idx + n) (length xs))
            (λ w. Holds w (splice idx (idx + n) [] xs) × Keeps v w)
            (Vec.remove_range v idx n)
        × Returns (λ w. Holds w [] × Keeps v w) (Vec.clear v)
  unfolding Vec.set Vec.pop Vec.remove Vec.remove_range
  set-pop-remove-remove_range-clear idx n x = (
    Guarded-if _ (λ e. set-Holds idx x (ltb→lt _ _ e))
        (λ e. rw (assert_vec-done h, h.count, e) refl),
    Guarded-if _ (λ e. pop-Holds (ltb→lt _ _ e)) (λ e. rw (assert_vec-done h, h.count, e) refl),
    Guarded-if _ (λ e. remove-Holds idx (ltb→lt _ _ e))
        (λ e. rw (assert_vec-done h, h.count, e) refl),
    Guarded-if _ (λ e. remove_range-Holds idx n (leb→le _ _ e))
        (λ e. rw (assert_vec-done h) (elim (Bool-cases (leb idx v.len)) [
          | inl inside ↦
              let long : leb n (v.len - idx) ≡ false = ground (arith, h.count) in
              rw (inside, long) refl
          | inr past ↦ rw past refl
        ])),
    clear-Holds,
  )

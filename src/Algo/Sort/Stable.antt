-- ===== src/Algo/Sort/Stable.antt =====
-- Insertion sort: sorted, a rearrangement, and equal elems in the order that they had.
use mathlib.Core.List.Perm
use c_nad.Core.Span
use c_nad.Core.Cmp.{Cmp, Le, IsOrder, Le_refl, Le_total}
use c_nad.Core.Int.{gt0, eq0}
use c_nad.Prelude.Array.{length-perm, get_or, passing}
use c_nad.Prelude.{
  ℕ, zero, suc, ◌+◌, ◌-◌, ◌≤◌, ◌<◌, ◌≡◌, refl, ◌∙◌, inl, inr, true, false, ◌&&◌, List, Perm, arith,
  ltb, ◌==◌, ltb→lt, lt→ltb, ==_iff, Bool-cases, length, Returns, Returns-bind, Returns-map,
  Returns-if,
}
use c_nad.Algo.Sort.{
  insertion_slot_from, insertion_slot, slide_up, insert_at, held_max, insertion_sort_from,
  insertion_sort,
}
use c_nad.Algo.Sort.Insertion.{Slid, Slid-zero, swap_down-Slid, set_aside-Slid, length-slide_up}

module _ {A : Type 0} (d : A) (cmp : Cmp A) where
  -- the first `n` entries are in order
  abbrev pub IsRising : List A → ℕ → Type 0
  IsRising s n = (i j : ℕ) → i ≤ j → j < n → Le cmp (get_or s i d) (get_or s j d)

  -- `t` is `s` in order, and elems that the comparator does not tell apart stand as they did
  pub record IsStableSort (s : List A) (n : ℕ) (t : List A) : Type 0 where
    pub sorted : IsRising t n
    pub same : Perm t s
    pub stable : (key : A) → passing (λ y. eq0 (cmp y key)) t ≡ passing (λ y. eq0 (cmp y key)) s

  -- where an elem belongs among the `i` before it
  record IsPlace (s : List A) (i : ℕ) (val : A) (j : ℕ) : Type 0 where
    pub inside : j ≤ i
    pub above : (k : ℕ) → j ≤ k → k < i → gt0 (cmp (get_or s k d) val) ≡ true
    pub below : (k : ℕ) → suc k ≡ j → Le cmp (get_or s k d) val

  insertion_slot-IsPlace :
      (slot : ℕ) (s : List A) (val : A)
      → slot ≤ length s
      → Returns (IsPlace s slot val) (insertion_slot_from slot s val cmp)
  unfolding insertion_slot_from
  insertion_slot-IsPlace zero s val p = (
    0,
    refl,
    record {
      inside = omega arith;
      above = λ k a b. absurd (omega arith);
      below = λ k a. absurd (omega arith);
    },
  )
  insertion_slot-IsPlace (suc slot) s val p = rw (Span.get-done d s slot (omega arith)) (
      Returns-if (gt0 (cmp (get_or s slot d) val))
        (λ e. Returns-map _ (insertion_slot-IsPlace slot s val (omega arith)) λ j u. record {
          inside = omega (arith, u.inside);
          above = λ k a b. elim (Bool-cases (k == slot)) [
            | inl same ↦ rw ((==_iff k slot).0 same) e
            | inr other ↦ u.above k a (ground arith)
          ];
          below = u.below;
        })
        (λ e. (
          suc slot,
          refl,
          record {
            inside = omega arith;
            above = λ k a b. absurd (omega arith);
            below = λ k a. ground (arith, e);
          },
        )))

  module _ (o : IsOrder cmp) where
    -- elems of which one is greater are not both equal to a third
    apart : (a b key : A) → gt0 (cmp a b) ≡ true → (eq0 (cmp a key) && eq0 (cmp b key)) ≡ false
    apart a b key e = ground (arith, e, o.trans a key b, o.flip b key)

    Slid-IsRising :
        (s : List A) (i j : ℕ) (t : List A)
        → IsRising s i
        → IsPlace s i (get_or s i d) j
        → Slid d s j (i - j) t
        → IsRising t (suc i)
    Slid-IsRising s i j t h slot u a b p q =
        let x = get_or s i d in
        let top : j + (i - j) ≡ i = omega (arith, slot.inside) in
        let before : a < j → Le cmp (get_or s a d) x = λ r.
          o.trans (get_or s a d) (get_or s (j - 1) d) x
            (h a (j - 1) (omega arith) (omega (arith, slot.inside)))
            (slot.below (j - 1) (omega arith)) in
        let after : j < b → Le cmp x (get_or s (b - 1) d) =
          λ r. Le_total o (get_or s (b - 1) d) x (slot.above (b - 1) (omega arith) (omega arith)) in
        let at_a = rw top at (u.at a) in
        let at_b = rw top at (u.at b) in
        ground (
          arith,
          at_a,
          at_b,
          h a b,
          h a (b - 1),
          h (a - 1) (b - 1),
          before,
          after,
          Le_refl o x,
          slot.inside,
        )

    Slid-stable :
        (s : List A) (i j : ℕ) (t : List A)
        → IsPlace s i (get_or s i d) j
        → Slid d s j (i - j) t
        → (key : A) → passing (λ y. eq0 (cmp y key)) t ≡ passing (λ y. eq0 (cmp y key)) s
    Slid-stable s i j t slot u key =
        let top : j + (i - j) ≡ i = omega (arith, slot.inside) in
        u.stable (λ y. eq0 (cmp y key))
          λ k p q.
            rw top (
              apart (get_or s k d) (get_or s i d) key (slot.above k p (omega (arith, slot.inside))))

    -- a round puts the elem at `i` in order with those before it
    insert_at-IsStableSort :
        (elem_size : ℕ) (s : List A) (i : ℕ)
        → i < length s
        → IsRising s i
        → Returns (IsStableSort s (suc i)) (insert_at elem_size s i cmp)
    unfolding insert_at insertion_slot
    insert_at-IsStableSort elem_size s i p h = rw (Span.get-done d s i p) (
        Returns-bind _ _ (insertion_slot-IsPlace i s (get_or s i d) (omega arith)) λ j slot.
          let top : j + (i - j) ≡ i = omega (arith, slot.inside) in
          let in_s : j + (i - j) < length s = omega (arith, top) in
          let sorted_by : (t : List A) → Slid d s j (i - j) t → IsStableSort s (suc i) t = λ t u.
            record {
              sorted = Slid-IsRising s i j t h slot u;
              same = u.same;
              stable = Slid-stable s i j t slot u;
            } in
          Returns-if (ltb held_max elem_size)
            (λ large. Returns-map _ (swap_down-Slid d (i - j) s j in_s) sorted_by)
            (λ small.
              Returns-if (j == i)
                (λ still.
                  let none_to_move : i - j ≡ 0 = ground arith in
                  (s, refl, sorted_by s (rw none_to_move (Slid-zero d s j))))
                (λ moves.
                  let size = length-slide_up d s j (i - j) in_s in
                  rw (lt→ltb (j + 1) (length s) (ground (arith, slot.inside))) (
                    _,
                    Span.set-done d (slide_up s j (i - j)) j (get_or s i d)
                        (ground (arith, slot.inside, size)),
                    sorted_by _ (rw top at (set_aside-Slid d s j (i - j) in_s)),
                  ))))

    insertion_sort_from-IsStableSort :
        (fuel elem_size : ℕ) (s : List A) (i : ℕ)
        → length s + 1 - i < fuel
        → 0 < i
        → IsRising s i
        → Returns (IsStableSort s (length s)) (insertion_sort_from fuel elem_size s i cmp)
    unfolding insertion_sort_from
    insertion_sort_from-IsStableSort zero elem_size s i f p h = absurd (omega arith)
    insertion_sort_from-IsStableSort (suc fuel) elem_size s i f p h =
        Returns-if (ltb i (length s))
          (λ more.
            Returns-bind _ _ (insert_at-IsStableSort elem_size s i (ltb→lt _ _ more) h) λ t u.
              Returns-map _
                (insertion_sort_from-IsStableSort fuel elem_size t (i + 1)
                  (ground (arith, length-perm u.same)) (omega arith)
                  (λ a b q r. u.sorted a b q (omega arith)))
                λ w v. record {
                  sorted = λ a b q r. v.sorted a b q (omega (arith, length-perm u.same));
                  same = Perm.trans v.same u.same;
                  stable = λ key. v.stable key ∙ u.stable key;
                })
          (λ end. (
            s,
            refl,
            record {
              sorted = λ a b q r. h a b q (ground arith);
              same = Perm.rfl;
              stable = λ key. refl;
            },
          ))

    -- insertion_sort returns the span sorted, whether it swaps or sets elems aside: a rearrangement in
    -- which elems that the comparator does not tell apart keep their order.
    pub insertion_sort-IsStableSort :
        (elem_size : ℕ) (s : List A)
        → Returns (IsStableSort s (length s)) (insertion_sort elem_size s cmp)
    unfolding insertion_sort
    insertion_sort-IsStableSort elem_size s =
        insertion_sort_from-IsStableSort (length s + 1) elem_size s 1 (omega arith) (omega arith)
          (λ a b q r. ground (arith, Le_refl o (get_or s a d)))

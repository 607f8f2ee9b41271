-- ===== src/Ds/Deque/Swap.antt =====
-- swap_elems of a deque against the list that it holds.
use c_nad.Ds.Deque
use c_nad.Prelude.Array.{get_elem?-set}
use c_nad.Prelude.{
  ℕ, ◌<◌, ◌≡◌, refl, ◌∙◌, inl, inr, some, List, arith, ◌==◌, if◌then◌else◌, lt→ltb, Bool-cases,
  length, get_elem?, set, length-set, lt_of_get_elem?, Returns, Returns-bind, Returns-map,
}
use c_nad.Ds.Deque.{Deque}
use c_nad.Ds.Deque.Holds.{
  Holds, Keeps, RingWith, entry, assert_deque-done, load_at-done, store_at-RingWith,
}
use c_nad.Ds.Deque.Slide.{RingWith-trans}

module _ {A : Type 0} {d : Deque A} {xs : List A} (h : Holds d xs) where
  exchanged-Holds :
      (i j : ℕ) (x y : A) (e : Deque A)
      → i < length xs
      → j < length xs
      → RingWith d (λ k. if j == k then some x else if i == k then some y else entry d k) e
      → Holds e (set (set xs i y) j x)
  exchanged-Holds i j x y e p q a = record {
    ring = a.ring;
    count = omega (arith, a.len_kept, h.count, length-set xs i y, length-set (set xs i y) j x);
    elems = λ k r. ground (
      arith,
      a.at k,
      a.len_kept,
      h.ring.room,
      length-set xs i y,
      get_elem?-set xs i y k,
      get_elem?-set (set xs i y) j x k,
      h.elems k,
    );
  }

  -- swap_elems returns: the entries at `i` and `j` have changed places, the others stay; swapping
  -- an entry with itself changes nothing.
  pub swap_elems-Holds :
      (i j : ℕ) {x y : A}
      → get_elem? xs i ≡ some x
      → get_elem? xs j ≡ some y
      → Returns
          (λ e. Holds e (if i == j then xs else set (set xs i y) j x) × Keeps d e)
          (Deque.swap_elems d i j)
  unfolding Deque.swap_elems
  swap_elems-Holds i j {x} {y} e f =
      let p : i < d.len = omega (arith, h.count, lt_of_get_elem? xs i e) in
      let q : j < d.len = omega (arith, h.count, lt_of_get_elem? xs j f) in
      let x_at = load_at-done h.ring i (omega (arith, h.ring.room)) (h.elems i p ∙ e) in
      let y_at = load_at-done h.ring j (omega (arith, h.ring.room)) (h.elems j q ∙ f) in
      rw (assert_deque-done h.ring, lt→ltb i d.len p, lt→ltb j d.len q)
        (elim (Bool-cases (i == j)) [
          | inl same ↦ rw same (d, refl, (h, record { cap_kept = refl; size_kept = refl }))
          | inr other ↦
              rw (other, x_at, y_at)
                (Returns-bind _ _ (store_at-RingWith h.ring i y (omega (arith, h.ring.room))) λ g a.
                  Returns-map _
                    (store_at-RingWith a.ring j x (omega (arith, h.ring.room, a.kept.cap_kept)))
                    λ k b.
                      let both = RingWith-trans a b (λ n r. ground (arith, a.at n)) in
                      (
                        exchanged-Holds i j x y k (lt_of_get_elem? xs i e) (lt_of_get_elem? xs j f)
                            both,
                        both.kept,
                      ))
        ])

-- ===== src/Ds/Deque/Slide.antt =====
-- The loops of insert and remove that move elems by one place along the ring.
use c_nad.Prelude.{
  ℕ, zero, suc, ◌+◌, ◌-◌, ◌≤◌, ◌<◌, ◌≡◌, refl, ◌∙◌, ◌&&◌, Option, some, arith, ltb, leb, ◌==◌,
  if◌then◌else◌, Returns, Returns-bind, Returns-map,
}
use c_nad.Ds.Deque.{Deque, move_elem, slide_front, slide_back}
use c_nad.Ds.Deque.Holds.{IsRing, RingWith, entry, load_at-done, store_at-RingWith}

module _ {A : Type 0} where
  -- the elems of the ring from `lo` up to `hi`, not included, were written
  abbrev pub Filled : Deque A → ℕ → ℕ → Type 0
  Filled d lo hi = (j : ℕ) → lo ≤ j → j < hi → (x : A) × (entry d j ≡ some x)

  pub RingWith-refl : {d : Deque A} → IsRing d → RingWith d (λ j. entry d j) d
  RingWith-refl h = record {
    ring = h;
    kept = record { cap_kept = refl; size_kept = refl };
    len_kept = refl;
    head_kept = refl;
    at = λ i p. refl;
  }

  pub RingWith-trans :
      {d e k : Deque A} {f g m : ℕ → Option A}
      → RingWith d f e
      → RingWith e g k
      → ((i : ℕ) → i < d.cap → g i ≡ m i)
      → RingWith d m k
  RingWith-trans a b same = record {
    ring = b.ring;
    kept = record {
      cap_kept = b.kept.cap_kept ∙ a.kept.cap_kept;
      size_kept = b.kept.size_kept ∙ a.kept.size_kept;
    };
    len_kept = b.len_kept ∙ a.len_kept;
    head_kept = b.head_kept ∙ a.head_kept;
    at = λ i p. b.at i (omega (arith, a.kept.cap_kept)) ∙ same i p;
  }

  move_elem-RingWith :
      {d : Deque A} (h : IsRing d) (to from : ℕ)
      → to < d.cap
      → from < d.cap
      → ((x : A) × (entry d from ≡ some x))
      → Returns
          (RingWith d (λ j. if to == j then entry d from else entry d j))
          (move_elem d to from)
  unfolding move_elem
  move_elem-RingWith {d = d} h to from p q (x, e) =
      rw (load_at-done h from q e, e) (store_at-RingWith h to x p)

  -- `n` elems behind `i` each move to the place before their own.
  pub slide_front-RingWith :
      (n : ℕ) {d : Deque A} (h : IsRing d) (i : ℕ)
      → i + n < d.cap
      → Filled d (i + 1) (i + n + 1)
      → Returns
          (RingWith d (λ j. if leb i j && ltb j (i + n) then entry d (j + 1) else entry d j))
          (slide_front n d i)
  unfolding slide_front
  slide_front-RingWith zero {d = d} h i p w =
      (d, refl, RingWith-trans (RingWith-refl h) (RingWith-refl h) (λ j q. ground arith))
  slide_front-RingWith (suc n) {d = d} h i p w =
      Returns-bind _ _
        (move_elem-RingWith h i (i + 1) (omega arith) (omega arith)
          (w (i + 1) (omega arith) (omega arith)))
        λ e a.
          Returns-map _
            (slide_front-RingWith n a.ring (i + 1) (omega (arith, a.kept.cap_kept)) (λ j r s.
              let (x, f) = w j (omega arith) (omega arith) in (x, ground (arith, a.at j, f))))
            λ k b. RingWith-trans a b (λ j q. ground (arith, a.at j, a.at (j + 1)))

  -- `n` elems from `lo` on each move to the place behind their own.
  pub slide_back-RingWith :
      (n : ℕ) {d : Deque A} (h : IsRing d) (lo : ℕ)
      → lo + n < d.cap
      → Filled d lo (lo + n)
      → Returns
          (RingWith d (λ j. if ltb lo j && leb j (lo + n) then entry d (j - 1) else entry d j))
          (slide_back n d lo)
  unfolding slide_back
  slide_back-RingWith zero {d = d} h lo p w =
      (d, refl, RingWith-trans (RingWith-refl h) (RingWith-refl h) (λ j q. ground arith))
  slide_back-RingWith (suc n) {d = d} h lo p w =
      Returns-bind _ _
        (move_elem-RingWith h (lo + n + 1) (lo + n) (omega arith) (omega arith)
          (w (lo + n) (omega arith) (omega arith)))
        λ e a.
          Returns-map _
            (slide_back-RingWith n a.ring lo (omega (arith, a.kept.cap_kept)) (λ j r s.
              let (x, f) = w j (omega arith) (omega arith) in (x, ground (arith, a.at j, f))))
            λ k b. RingWith-trans a b (λ j q. ground (arith, a.at j, a.at (j - 1)))

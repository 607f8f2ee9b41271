-- ===== src/Ds/Deque/Compare.antt =====
-- The comparisons of src/ds/deque.c: by index, since two rings of the same elems may start at
-- different slots. `same` tells whether the two pointers are one.
use c_nad.Prelude.{
  ℕ, zero, suc, ◌+◌, ◌≤◌, ◌<◌, ◌≡◌, refl, ap, ◌∙◌, inl, inr, Bool, true, false, ◌&&◌, not, List, [],
  ◌∷◌, arith, ◌==◌, if◌then◌else◌, ==_iff, Bool-cases, length, get_elem?, Exec, done, ◌>>=◌, ◌>>◌,
  check,
}
use c_nad.Ds.Deque.{Deque, assert_deque, load_at}
use c_nad.Ds.Deque.Holds.{IsRing, Holds, entry, assert_deque-done, load_at-done}

module _ {ℓ} {A : Type ℓ} where
  -- the loop over the elems from `i` on
  eq_from : ℕ → Deque A → Deque A → ℕ → (A → A → Bool) → Exec Bool
  eq_from zero a b i test = done true
  eq_from (suc n) a b i test = do
    x ← load_at a i
    y ← load_at b i
    let rest = eq_from n a b (i + 1) test
    if test x y then rest else done false

  -- tda_deque_eq_by; tda_deque_eq is the same with memcmp of the two elems as the test
  pub eq_by : Bool → Deque A → Deque A → (A → A → Bool) → Exec Bool
  unfolding eq_from
  eq_by same a b test = do
    assert_deque a
    assert_deque b
    check (a.elem_size == b.elem_size)
    let by_index = eq_from a.len a b 0 test
    if same then done true else if not (a.len == b.len) then done false else by_index

  -- lists of the same length whose elems pass the test pairwise
  pub all_pairs : (A → A → Bool) → List A → List A → Bool
  all_pairs test [] [] = true
  all_pairs test [] (y ∷ ys) = false
  all_pairs test (x ∷ xs) [] = false
  all_pairs test (x ∷ xs) (y ∷ ys) = test x y && all_pairs test xs ys

module _ {A : Type 0} (test : A → A → Bool) {a b : Deque A} (h : IsRing a) (g : IsRing b) where
  eq_from-all_pairs :
      (us vs : List A) (i : ℕ)
      → length us ≡ length vs
      → i + length us ≤ a.cap
      → i + length us ≤ b.cap
      → ((j : ℕ) → j < length us → entry a (i + j) ≡ get_elem? us j)
      → ((j : ℕ) → j < length us → entry b (i + j) ≡ get_elem? vs j)
      → eq_from (length us) a b i test ≡ done (all_pairs test us vs)
  unfolding eq_from all_pairs
  eq_from-all_pairs [] [] i n p q e f = refl
  eq_from-all_pairs [] (y ∷ vs) i n p q e f = absurd (omega arith)
  eq_from-all_pairs (x ∷ us) [] i n p q e f = absurd (omega arith)
  eq_from-all_pairs (x ∷ us) (y ∷ vs) i n p q e f =
      let start : i ≡ i + 0 = omega arith in
      let on : (j : ℕ) → i + 1 + j ≡ i + suc j = λ j. omega arith in
      let x_at = load_at-done h i (omega arith) (ap (λ k. entry a k) start ∙ e 0 (omega arith)) in
      let y_at = load_at-done g i (omega arith) (ap (λ k. entry b k) start ∙ f 0 (omega arith)) in
      let rest =
        eq_from-all_pairs us vs (i + 1) (omega arith) (omega arith) (omega arith)
          (λ j r. ap (λ k. entry a k) (on j) ∙ e (suc j) (omega arith))
          (λ j r. ap (λ k. entry b k) (on j) ∙ f (suc j) (omega arith)) in
      rw (x_at, y_at)
        (elim (Bool-cases (test x y)) [ inl t ↦ rw (t, rest) refl | inr t ↦ rw t refl ])

  all_pairs-length :
      (us vs : List A) → (length us == length vs) ≡ false → all_pairs test us vs ≡ false
  unfolding all_pairs
  all_pairs-length [] [] e = cc e
  all_pairs-length [] (y ∷ vs) e = refl
  all_pairs-length (x ∷ us) [] e = refl
  all_pairs-length (x ∷ us) (y ∷ vs) e =
      rw (all_pairs-length us vs (ground arith))
        (elim (Bool-cases (test x y)) [ inl t ↦ rw t refl | inr t ↦ rw t refl ])

module _ {A : Type 0} (test : A → A → Bool) where
  -- For two deques whose elems have one size, eq_by returns whether their lists have the same
  -- length and pass the test pairwise, wherever the rings start; on one deque it returns true.
  pub eq_by-all_pairs :
      {a b : Deque A} {xs ys : List A} (h : Holds a xs) (g : Holds b ys)
      → a.elem_size ≡ b.elem_size
      → (eq_by false a b test ≡ done (all_pairs test xs ys)) × (eq_by true a b test ≡ done true)
  unfolding eq_by
  eq_by-all_pairs {a} {b} {xs} {ys} h g e =
      rw (assert_deque-done h.ring, assert_deque-done g.ring, (==_iff a.elem_size b.elem_size).1 e)
        (
          elim (Bool-cases (a.len == b.len)) [
            | inl n ↦
                let size : length xs ≡ length ys = ground (arith, h.count, g.count) in
                let zero_on : (j : ℕ) → 0 + j ≡ j = λ j. omega arith in
                let pairs =
                  eq_from-all_pairs test h.ring g.ring xs ys 0 size
                    (omega (arith, h.count, h.ring.room))
                    (omega (arith, size, g.count, g.ring.room))
                    (λ j r. ap (λ k. entry a k) (zero_on j) ∙ h.elems j (omega (arith, h.count)))
                    (λ j r. ap (λ k. entry b k) (zero_on j) ∙ g.elems j (omega (arith, g.count))) in
                rw n (ap (λ k. eq_from k a b 0 test) h.count ∙ pairs)
            | inr n ↦
                let size : (length xs == length ys) ≡ false = ground (arith, h.count, g.count) in
                rw (n, all_pairs-length test h.ring g.ring xs ys size) refl
          ],
          refl,
        )

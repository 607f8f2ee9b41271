-- ===== src/Algo/Find/Tally.antt =====
-- count, count_if and the predicates all_of, any_of, none_of.
use c_nad.Prelude.Array.{get_or}
use c_nad.Prelude.{
  ℕ, zero, suc, ◌+◌, ◌<◌, ◌≡◌, refl, ◌↔◌, Bool, true, false, Option, none, some, List, [], ◌∷◌,
  arith, if◌then◌else◌, length,
}
use c_nad.Algo.Find.{count_if_from, count_if, count_from, count, all_of, any_of, none_of, find_if}
use c_nad.Algo.Find.First.{IsFirst, find_if-IsFirst}

-- The entries that satisfy the predicate, in order.
abbrev pub keep {ℓ} : {A : Type ℓ} → (A → Bool) → List A → List A
keep pred [] = []
keep pred (x ∷ s) = if pred x then x ∷ keep pred s else keep pred s

module _ {A : Type 0} where
  count_if_from-add :
      (n : ℕ) (s : List A) (pred : A → Bool) → count_if_from n s pred ≡ n + length (keep pred s)
  unfolding count_if_from
  count_if_from-add n [] pred = omega arith
  count_if_from-add n (x ∷ s) pred =
      ground (arith, count_if_from-add n s pred, count_if_from-add (n + 1) s pred)

  count_from-add :
      (n : ℕ) (s : List A) (key : A) (eq : A → A → Bool)
      → count_from n s key eq ≡ n + length (keep (λ x. eq x key) s)
  unfolding count_from
  count_from-add n [] key eq = omega arith
  count_from-add n (x ∷ s) key eq =
      ground (arith, count_from-add n s key eq, count_from-add (n + 1) s key eq)

  -- count_if returns how many entries satisfy the predicate, and count how many are equal to the key.
  pub count-length :
      (s : List A) (pred : A → Bool) (key : A) (eq : A → A → Bool)
      → (count_if s pred ≡ length (keep pred s))
        × (count s key eq ≡ length (keep (λ x. eq x key) s))
  unfolding count_if count
  count-length s pred key eq =
      (omega (arith, count_if_from-add 0 s pred), omega (arith, count_from-add 0 s key eq))

  all_of-entries :
      (d : A) (s : List A) (pred : A → Bool)
      → (all_of s pred ≡ true) ↔ ((i : ℕ) → i < length s → pred (get_or s i d) ≡ true)
  unfolding all_of get_or
  all_of-entries d [] pred = (λ e i p. absurd (omega arith), λ h. refl)
  all_of-entries d (x ∷ s) pred = (
    λ e. elim [
      | zero ↦ λ p. ground arith
      | suc i ↦ λ p. (all_of-entries d s pred).0 (ground arith) i (omega arith)
    ],
    λ h. ground (arith, h 0, (all_of-entries d s pred).1 (λ i p. h (suc i) (omega arith))),
  )

  any_of-entries :
      (d : A) (s : List A) (pred : A → Bool)
      → (any_of s pred ≡ false) ↔ ((i : ℕ) → i < length s → pred (get_or s i d) ≡ false)
  unfolding any_of
  any_of-entries d s pred = go (find_if s pred) (find_if-IsFirst d s pred)
    where
      go :
          (o : Option ℕ)
          → IsFirst (λ i. pred (get_or s i d)) (length s) o
          → ((elim o [ some i ↦ true | none ↦ false ]) ≡ false)
            ↔ ((i : ℕ) → i < length s → pred (get_or s i d) ≡ false)
      go none h = (λ e. h, λ e. refl)
      go (some k) h = (λ e. cc, λ e. cc (e k h.0, h.1))

  -- all_of holds exactly when every entry satisfies the predicate, and none_of, the negation of
  -- any_of, exactly when no entry does; both hold of an empty span.
  pub all_of-none_of_iff :
      (d : A) (s : List A) (pred : A → Bool)
      → ((all_of s pred ≡ true) ↔ ((i : ℕ) → i < length s → pred (get_or s i d) ≡ true))
        × ((none_of s pred ≡ true) ↔ ((i : ℕ) → i < length s → pred (get_or s i d) ≡ false))
  unfolding none_of
  all_of-none_of_iff d s pred = (
    all_of-entries d s pred,
    (λ e. (any_of-entries d s pred).0 (ground arith), λ h. rw ((any_of-entries d s pred).1 h)),
  )

-- ===== src/Algo/Find/First.antt =====
-- The searches for one entry return the first index that passes their test.
use c_nad.Prelude.Array.{get_or}
use c_nad.Prelude.{
  ℕ, zero, suc, ◌+◌, ◌-◌, ◌≤◌, ◌<◌, ◌≡◌, refl, ap, ◌∙◌, ◌↔◌, inl, inr, Bool, true, false, Option,
  none, some, List, [], ◌∷◌, arith, ◌==◌, if◌then◌else◌, Bool-cases, length, set,
}
use c_nad.Algo.Find.{
  find_if_from, find_if, find_from, find, contains, any_equal, find_any_of_from, find_any_of,
  find_adjacent_from, find_adjacent,
}

-- `o` is the first index below `n` that passes the test, `none` if there is none.
abbrev pub IsFirst : (ℕ → Bool) → ℕ → Option ℕ → Type 0
IsFirst test n none = (i : ℕ) → i < n → test i ≡ false
IsFirst test n (some k) = (k < n) × (test k ≡ true) × ((i : ℕ) → i < k → test i ≡ false)

-- The same from `lo` on.
abbrev pub IsFirstFrom : (ℕ → Bool) → ℕ → ℕ → Option ℕ → Type 0
IsFirstFrom test lo n none = (i : ℕ) → lo ≤ i → i < n → test i ≡ false
IsFirstFrom test lo n (some k) =
    (lo ≤ k) × (k < n) × (test k ≡ true) × ((i : ℕ) → lo ≤ i → i < k → test i ≡ false)

IsFirst-of_from :
    (test : ℕ → Bool) (n : ℕ) (o : Option ℕ) → IsFirstFrom test 0 n o → IsFirst test n o
IsFirst-of_from test n none h = λ i p. h i (omega arith) p
IsFirst-of_from test n (some k) h = (h.1, h.2, λ i p. h.3 i (omega arith) p)

IsFirstFrom-step :
    (test : ℕ → Bool) (lo n : ℕ) (o : Option ℕ)
    → test lo ≡ false
    → IsFirstFrom test (lo + 1) n o
    → IsFirstFrom test lo n o
IsFirstFrom-step test lo n none e h =
    λ i p q. elim (Bool-cases (i == lo)) [ inl s ↦ ground arith | inr s ↦ h i (ground arith) q ]
IsFirstFrom-step test lo n (some k) e h = (
  omega (arith, h.0),
  h.1,
  h.2,
  λ i p q. elim (Bool-cases (i == lo)) [ inl s ↦ ground arith | inr s ↦ h.3 i (ground arith) q ],
)

IsFirstFrom-here :
    (test : ℕ → Bool) (lo n : ℕ) → test lo ≡ true → lo < n → IsFirstFrom test lo n (some lo)
IsFirstFrom-here test lo n e h = (omega arith, h, e, λ i p q. absurd (omega arith))

module _ {A : Type 0} where
  -- A search that tests entry after entry returns the first that passes. `f` is its loop.
  scan-IsFirst :
      (test : A → Bool) (f : ℕ → List A → Option ℕ)
      → ((i : ℕ) → f i [] ≡ none)
      → ((i : ℕ) (x : A) (s : List A) → f i (x ∷ s) ≡ (if test x then some i else f (i + 1) s))
      → (d : A) (all : List A) (i : ℕ) (s : List A)
      → ((k : ℕ) → k < length s → get_or all (i + k) d ≡ get_or s k d)
      → length all ≡ i + length s
      → IsFirstFrom (λ k. test (get_or all k d)) i (length all) (f i s)
  unfolding get_or
  scan-IsFirst test f nil cons d all i [] same size = rw (nil i) (λ k p q. absurd (omega arith))
  scan-IsFirst test f nil cons d all i (x ∷ s) same size =
      let here : get_or all i d ≡ x =
        ap (λ k. get_or all k d) (omega arith) ∙ same 0 (omega arith) in
      let rest =
        scan-IsFirst test f nil cons d all (i + 1) s
          (λ k p. ap (λ j. get_or all j d) (omega arith) ∙ same (suc k) (omega arith))
          (omega arith) in
      elim (Bool-cases (test x)) [
        | inl e ↦
            rw (cons i x s, e)
              (IsFirstFrom-here (λ k. test (get_or all k d)) i (length all) (rw here e)
                (omega arith))
        | inr e ↦
            rw (cons i x s, e)
              (IsFirstFrom-step (λ k. test (get_or all k d)) i (length all) (f (i + 1) s)
                (rw here e) rest)
      ]

  module _ (d : A) (s : List A) where
    -- find_if returns the first index whose entry satisfies the predicate, and false when none does.
    pub find_if-IsFirst :
        (pred : A → Bool) → IsFirst (λ i. pred (get_or s i d)) (length s) (find_if s pred)
    unfolding find_if find_if_from
    find_if-IsFirst pred = IsFirst-of_from _ _ (find_if s pred) (
        scan-IsFirst pred (λ i t. find_if_from i t pred) (λ i. refl) (λ i x t. refl) d s 0 s
          (λ k p. ap (λ j. get_or s j d) (omega arith)) (omega arith))

    -- find returns the first index whose entry is equal to the key, and false when none is.
    pub find-IsFirst :
        (key : A) (eq : A → A → Bool)
        → IsFirst (λ i. eq (get_or s i d) key) (length s) (find s key eq)
    unfolding find find_from
    find-IsFirst key eq = IsFirst-of_from _ _ (find s key eq) (
        scan-IsFirst (λ x. eq x key) (λ i t. find_from i t key eq) (λ i. refl) (λ i x t. refl) d s 0
          s (λ k p. ap (λ j. get_or s j d) (omega arith)) (omega arith))

    -- find_any_of returns the first index whose entry is equal to one of the set.
    pub find_any_of-IsFirst :
        (set : List A) (eq : A → A → Bool)
        → IsFirst (λ i. any_equal (get_or s i d) set eq) (length s) (find_any_of s set eq)
    unfolding find_any_of find_any_of_from
    find_any_of-IsFirst set eq = IsFirst-of_from _ _ (find_any_of s set eq) (
        scan-IsFirst (λ x. any_equal x set eq) (λ i t. find_any_of_from i t set eq) (λ i. refl)
          (λ i x t. refl) d s 0 s (λ k p. ap (λ j. get_or s j d) (omega arith)) (omega arith))

    -- contains, which throws the index away, says whether find has one.
    pub contains_iff :
        (key : A) (eq : A → A → Bool)
        → (contains s key eq ≡ true) ↔ ((i : ℕ) × (i < length s) × (eq (get_or s i d) key ≡ true))
    unfolding contains
    contains_iff key eq = go (find s key eq) (find-IsFirst key eq)
      where
        go :
            (o : Option ℕ)
            → IsFirst (λ i. eq (get_or s i d) key) (length s) o
            → ((elim o [ some i ↦ true | none ↦ false ]) ≡ true)
              ↔ ((i : ℕ) × (i < length s) × (eq (get_or s i d) key ≡ true))
        go none h = (λ e. cc, λ (i, p, e). cc (h i p))
        go (some k) h = (λ e. (k, h.0, h.1), λ e. refl)

  -- The inner loop of find_any_of finds an entry of the set that is equal.
  any_equal_sound :
      (d x : A) (set : List A) (eq : A → A → Bool)
      → any_equal x set eq ≡ true
      → (j : ℕ) × (j < length set) × (eq x (get_or set j d) ≡ true)
  unfolding any_equal get_or
  any_equal_sound d x [] eq e = cc
  any_equal_sound d x (y ∷ set) eq e = elim (Bool-cases (eq x y)) [
    | inl h ↦ (0, omega arith, h)
    | inr h ↦ let (j, p, q) = any_equal_sound d x set eq (rw h at e) in (suc j, omega arith, q)
  ]

  any_equal_complete :
      (d x : A) (set : List A) (eq : A → A → Bool) (j : ℕ)
      → j < length set
      → eq x (get_or set j d) ≡ true
      → any_equal x set eq ≡ true
  unfolding any_equal get_or
  any_equal_complete d x [] eq j p q = absurd (omega arith)
  any_equal_complete d x (y ∷ set) eq zero p q = rw q
  any_equal_complete d x (y ∷ set) eq (suc j) p q =
      ground (arith, any_equal_complete d x set eq j (omega arith) q)

  -- the adjacent pairs of a list, scanned from the one before `i`
  find_adjacent_from-IsFirstFrom :
      (eq : A → A → Bool) (d : A) (all : List A) (i : ℕ) (prev : A) (s : List A)
      → get_or all i d ≡ prev
      → ((k : ℕ) → k < length s → get_or all (i + 1 + k) d ≡ get_or s k d)
      → length all ≡ i + 1 + length s
      → IsFirstFrom
          (λ k. eq (get_or all k d) (get_or all (k + 1) d))
          i
          (length all - 1)
          (find_adjacent_from (i + 1) prev s eq)
  unfolding find_adjacent_from get_or
  find_adjacent_from-IsFirstFrom eq d all i prev [] at same size = λ k p q. absurd (omega arith)
  find_adjacent_from-IsFirstFrom eq d all i prev (x ∷ s) at same size =
      let next : get_or all (i + 1) d ≡ x =
        ap (λ k. get_or all k d) (omega arith) ∙ same 0 (omega arith) in
      let rest =
        find_adjacent_from-IsFirstFrom eq d all (i + 1) x s next
          (λ k p. ap (λ j. get_or all j d) (omega arith) ∙ same (suc k) (omega arith))
          (omega arith) in
      let test : ℕ → Bool = λ k. eq (get_or all k d) (get_or all (k + 1) d) in
      let back : i + 1 - 1 ≡ i = omega arith in
      elim (Bool-cases (eq prev x)) [
        | inl e ↦
            rw (e, back) (IsFirstFrom-here test i (length all - 1) (rw (at, next) e) (omega arith))
        | inr e ↦ rw e (
            IsFirstFrom-step test i (length all - 1) (find_adjacent_from (i + 1 + 1) x s eq)
              (rw (at, next) e) rest)
      ]

  -- find_adjacent returns the first index whose entry is equal to the one behind it.
  pub find_adjacent-IsFirst :
      (d : A) (s : List A) (eq : A → A → Bool)
      → IsFirst (λ i. eq (get_or s i d) (get_or s (i + 1) d)) (length s - 1) (find_adjacent s eq)
  unfolding find_adjacent get_or
  find_adjacent-IsFirst d [] eq = λ i p. absurd (omega arith)
  find_adjacent-IsFirst d (x ∷ s) eq = IsFirst-of_from _ _ (find_adjacent_from 1 x s eq) (
      find_adjacent_from-IsFirstFrom eq d (x ∷ s) 0 x s refl
        (λ k p. ap (λ j. get_or (x ∷ s) j d) (suc_lem k)) (omega arith))
    where
      suc_lem : (k : ℕ) → 0 + 1 + k ≡ suc k
      suc_lem k = omega arith

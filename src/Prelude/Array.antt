-- ===== src/Prelude/Array.antt =====
-- Lists as arrays: reads with a default, writes, exchanges, and the permutations that they make.
use mathlib.Core.Path.{◌≡◌, refl, ap, ap₂, ◌∙◌}
use mathlib.Core.Logic.{∥∥₁_elim, inl, inr}
use mathlib.Core.List.{List, [], ◌∷◌, ◌++◌, Perm, Permᴰ, perm_middle, append-nil}
use mathlib.Core.List.Perm
use mathlib.Core.Option.{some}
use mathlib.Core.Bool.{Bool, true, false, ◌&&◌, Bool-set}
use native.Mathlib.Nat.{ℕ_set}
use native.Mathlib.Omega.{arith}
use Prim.Native.Nat.{ℕ, zero, suc, ◌+◌, ◌-◌, ◌<◌, ◌≤◌}
use c_nad.Prelude.Lists.{
  length, get_elem?, set, take, drop, length-set, splice, length-append, length-take, length-drop,
  get_elem?-append_left, get_elem?-append_right, get_elem?-take, get_elem?-drop, get_elem?-set_self,
  get_elem?-set_ne,
}
use c_nad.Prelude.Tests.{◌==◌, if◌then◌else◌, ltb, Bool-cases, ltb→lt, ltb→le, ==_iff}

module _ {ℓ} {A : Type ℓ} where
  derivation_size : {xs ys : List A} → Permᴰ xs ys → length xs ≡ length ys
  derivation_size (Permᴰ.swap _ _) = refl
  derivation_size (Permᴰ.trans e f) = derivation_size e ∙ derivation_size f
  derivation_size (Permᴰ.cons _ e) = ap suc (derivation_size e)
  derivation_size Permᴰ.nil = refl

  -- An elem put at the end is a rearrangement of one put in front.
  pub snoc-perm : (xs : List A) (last : A) → Perm (xs ++ last ∷ []) (last ∷ xs)
  snoc-perm xs last = rw (append-nil xs) at (perm_middle {a = last} xs [])

  -- A rearrangement has as many elems.
  pub length-perm : {xs ys : List A} → Perm xs ys → length xs ≡ length ys
  length-perm r = ∥∥₁_elim r (ℕ_set _ _) derivation_size

  unfoldable pub get_or : List A → ℕ → A → A
  get_or [] i d = d
  get_or (x ∷ a) zero d = x
  get_or (x ∷ a) (suc i) d = get_or a i d

  pub get_elem?-get_or :
      (a : List A) (i : ℕ) (d : A) → i < length a → get_elem? a i ≡ some (get_or a i d)
  unfolding get_or
  get_elem?-get_or [] i d h = elim h [ ]
  get_elem?-get_or (x ∷ a) zero d h = refl
  get_elem?-get_or (x ∷ a) (suc i) d h = get_elem?-get_or a i d (omega arith)

-- the entries that pass a test, in order
unfoldable pub passing : {A : Type 0} → (A → Bool) → List A → List A
passing test [] = []
passing test (x ∷ xs) = let rest = passing test xs in if test x then x ∷ rest else rest

-- a test that every entry passes
abbrev pub every {ℓ} : {A : Type ℓ} → (A → Bool) → List A → Bool
every test [] = true
every test (x ∷ a) = test x && every test a

module _ {ℓ} {A : Type ℓ} (test : A → Bool) where
  and_swap : (x y z : Bool) → (x && (y && z)) ≡ (y && (x && z))
  and_swap true y z = refl
  and_swap false true z = refl
  and_swap false false z = refl

  Permᴰ-every : {a b : List A} → Permᴰ a b → every test a ≡ every test b
  Permᴰ-every Permᴰ.nil = refl
  Permᴰ-every (Permᴰ.cons e p) = ap₂ (λ x k. test x && k) e (Permᴰ-every p)
  Permᴰ-every (Permᴰ.swap {a = x} {b = y} {l = l} e f) =
      and_swap (test x) (test y) (every test l)
      ∙ ap₂ (λ x y. test y && (test x && every test l)) e f
  Permᴰ-every (Permᴰ.trans p q) = Permᴰ-every p ∙ Permᴰ-every q

  every-perm : {a b : List A} → Perm a b → every test a ≡ every test b
  every-perm p = ∥∥₁_elim p (Bool-set _ _) Permᴰ-every

  every-entries :
      (d : A) (a : List A) (i : ℕ) → every test a ≡ true → i < length a → test (get_or a i d) ≡ true
  unfolding get_or
  every-entries d [] i e h = elim h [ ]
  every-entries d (x ∷ a) zero e h = ground arith
  every-entries d (x ∷ a) (suc i) e h = every-entries d a i (ground arith) (omega arith)

  every_of_entries :
      (d : A) (a : List A)
      → ((i : ℕ) → i < length a → test (get_or a i d) ≡ true)
      → every test a ≡ true
  unfolding get_or
  every_of_entries d [] h = refl
  every_of_entries d (x ∷ a) h =
      let rest = every_of_entries d a (λ i p. h (suc i) (omega arith)) in
      rw (h 0 (omega arith), rest)

  -- What every entry of a list passes, every entry of a rearrangement does.
  pub entries-perm :
      (d : A) {a b : List A}
      → Perm b a
      → ((i : ℕ) → i < length a → test (get_or a i d) ≡ true)
      → (i : ℕ) → i < length b
      → test (get_or b i d) ≡ true
  entries-perm d {a} {b} p h i q = every-entries d b i (every-perm p ∙ every_of_entries d a h) q

module _ {ℓ} {A : Type ℓ} (d : A) where
  pub get_or-set :
      (a : List A) (i j : ℕ) (v : A)
      → i < length a
      → get_or (set a i v) j d ≡ (if i == j then v else get_or a j d)
  unfolding get_or
  get_or-set [] i j v h = elim h [ ]
  get_or-set (x ∷ a) zero zero v h = refl
  get_or-set (x ∷ a) zero (suc j) v h = ground arith
  get_or-set (x ∷ a) (suc i) zero v h = ground arith
  get_or-set (x ∷ a) (suc i) (suc j) v h = ground (arith, get_or-set a i j v)

  pub get_or-take : (n : ℕ) (a : List A) (i : ℕ) → i < n → get_or (take n a) i d ≡ get_or a i d
  unfolding get_or
  get_or-take zero a i h = elim h [ ]
  get_or-take (suc n) [] i h = refl
  get_or-take (suc n) (x ∷ a) zero h = refl
  get_or-take (suc n) (x ∷ a) (suc i) h = get_or-take n a i (omega arith)

  pub get_or-append_left :
      (a b : List A) (i : ℕ) → i < length a → get_or (a ++ b) i d ≡ get_or a i d
  unfolding get_or
  get_or-append_left [] b i h = elim h [ ]
  get_or-append_left (x ∷ a) b zero h = refl
  get_or-append_left (x ∷ a) b (suc i) h = get_or-append_left a b i (omega arith)

  pub get_or-append_right :
      (a b : List A) (i : ℕ) → length a ≤ i → get_or (a ++ b) i d ≡ get_or b (i - length a) d
  unfolding get_or
  get_or-append_right [] b i h = ap (λ k. get_or b k d) (omega arith)
  get_or-append_right (x ∷ a) b zero h = absurd (omega arith)
  get_or-append_right (x ∷ a) b (suc i) h =
      get_or-append_right a b i (omega arith) ∙ ap (λ k. get_or b k d) (omega arith)

  pub get_or-drop : (n : ℕ) (a : List A) (i : ℕ) → get_or (drop n a) i d ≡ get_or a (n + i) d
  unfolding get_or
  get_or-drop zero a i = ap (λ k. get_or a k d) (omega arith)
  get_or-drop (suc n) [] i = refl
  get_or-drop (suc n) (x ∷ a) i = get_or-drop n a i ∙ ap (λ k. get_or (x ∷ a) k d) (shift n i)
    where
      shift : (n i : ℕ) → suc (n + i) ≡ suc n + i
      shift n i = omega arith

  -- a write trades the old entry for the new one
  pub set-perm :
      (a : List A) (i : ℕ) (v : A) → i < length a → Perm (get_or a i d ∷ set a i v) (v ∷ a)
  unfolding get_or
  set-perm [] i v h = elim h [ ]
  set-perm (x ∷ a) zero v h = Perm.swap v x a
  set-perm (x ∷ a) (suc i) v h =
      Perm.trans (Perm.swap x _ _)
        (Perm.trans (Perm.cons x (set-perm a i v (omega arith))) (Perm.swap v x a))

  -- entry by entry equal
  pub get_or_ext :
      (a b : List A)
      → length a ≡ length b
      → ((i : ℕ) → i < length a → get_or a i d ≡ get_or b i d)
      → a ≡ b
  unfolding get_or
  get_or_ext [] [] e h = refl
  get_or_ext [] (y ∷ b) e h = absurd (omega arith)
  get_or_ext (x ∷ a) [] e h = absurd (omega arith)
  get_or_ext (x ∷ a) (y ∷ b) e h =
      ap₂ ◌∷◌ (h 0 (omega arith)) (get_or_ext a b (omega arith) λ i p. h (suc i) (omega arith))

-- the exchange of two entries, as one list
module _ {ℓ} {A : Type ℓ} (d : A) (a : List A) (i j : ℕ) where
  abbrev pub exchange : List A
  exchange = set (set a i (get_or a j d)) j (get_or a i d)

  pub length-exchange : length exchange ≡ length a
  length-exchange = rw (length-set, length-set)

  module _ (hi : i < length a) (hj : j < length a) where
    pub get_or-exchange :
        (c : ℕ)
        → get_or exchange c d
          ≡ (if j == c then get_or a i d else if i == c then get_or a j d else get_or a c d)
    get_or-exchange c = rw (
      get_or-set d (set a i (get_or a j d)) j c (get_or a i d) (rw length-set hj),
      get_or-set d a i c (get_or a j d) hi,
    )

    pub exchange-perm : Perm exchange a
    exchange-perm =
        let b = set a i (get_or a j d) in
        let kept : get_or b j d ≡ get_or a j d =
          ground (arith, get_or-set d a i j (get_or a j d)) in
        let second = rw kept at (set-perm d b j (get_or a i d) (rw length-set hj)) in
        Perm.cons_inv (Perm.trans second (set-perm d a i (get_or a j d) hi))

module _ {ℓ} {A : Type ℓ} where
  pub get_elem?-three :
      (p q r : List A) (i : ℕ)
      → get_elem? (p ++ (q ++ r)) i ≡ (
          if ltb i (length p)
          then get_elem? p i
          else if ltb i (length p + length q)
          then get_elem? q (i - length p)
          else get_elem? r (i - length p - length q))
  get_elem?-three p q r i = elim (Bool-cases (ltb i (length p))) [
    | inl e ↦ rw e (get_elem?-append_left p (q ++ r) i (ltb→lt _ _ e))
    | inr e ↦
        let front = get_elem?-append_right p (q ++ r) i (ltb→le _ _ e) in
        elim (Bool-cases (ltb i (length p + length q))) [
          | inl f ↦
              let h = ltb→lt _ _ f in
              let g = ltb→le _ _ e in
              rw (e, f) (front ∙ get_elem?-append_left q r (i - length p) (omega arith))
          | inr f ↦
              let h = ltb→le _ _ f in
              rw (e, f) (front ∙ get_elem?-append_right q r (i - length p) (omega arith))
        ]
  ]

  -- A splice at or before the end keeps what is outside it, and puts the new entries in between.
  pub get_elem?-splice :
      (i j : ℕ) (ys xs : List A) (k : ℕ)
      → i ≤ length xs
      → get_elem? (splice i j ys xs) k ≡ (
          if ltb k i
          then get_elem? xs k
          else if ltb k (i + length ys)
          then get_elem? ys (k - i)
          else get_elem? xs (j + (k - i - length ys)))
  get_elem?-splice i j ys xs k h =
      let p : length (take i xs) ≡ i = omega (arith, length-take i xs) in
      rw (get_elem?-three (take i xs) ys (drop j xs) k, p)
        (elim (Bool-cases (ltb k i)) [
          | inl e ↦ rw e (get_elem?-take i xs k (ltb→lt _ _ e))
          | inr e ↦ elim (Bool-cases (ltb k (i + length ys))) [
            | inl f ↦ rw (e, f)
            | inr f ↦ rw (e, f) (get_elem?-drop j xs (k - i - length ys))
          ]
        ])

  pub length-splice :
      (i j : ℕ) (ys xs : List A)
      → i ≤ length xs
      → length (splice i j ys xs) ≡ i + length ys + (length xs - j)
  length-splice i j ys xs h = omega (
    arith,
    length-append (take i xs) (ys ++ drop j xs),
    length-append ys (drop j xs),
    length-take i xs,
    length-drop j xs,
  )

  pub get_elem?-set :
      (xs : List A) (i : ℕ) (v : A) (k : ℕ)
      → i < length xs
      → get_elem? (set xs i v) k ≡ (if i == k then some v else get_elem? xs k)
  get_elem?-set xs i v k h = elim (Bool-cases (i == k)) [
    | inl e ↦ rw (e, ← (==_iff i k).0 e) (get_elem?-set_self xs i v h)
    | inr e ↦ rw e (get_elem?-set_ne xs i k v (λ p. cc (e, (==_iff i k).1 p)))
  ]

  -- the entry behind a list, and the list before it
  pub get_elem?-snoc : (xs : List A) (x : A) → get_elem? (xs ++ (x ∷ [])) (length xs) ≡ some x
  get_elem?-snoc [] x = refl
  get_elem?-snoc (y ∷ xs) x = get_elem?-snoc xs x

  pub take-snoc : (xs : List A) (x : A) → take (length xs) (xs ++ (x ∷ [])) ≡ xs
  take-snoc [] x = refl
  take-snoc (y ∷ xs) x = ap (λ l. y ∷ l) (take-snoc xs x)

  -- a list is its front and its last entry
  pub take-last :
      (d : A) (xs : List A) (n : ℕ) → length xs ≡ suc n → take n xs ++ (get_or xs n d ∷ []) ≡ xs
  unfolding get_or
  take-last d [] n e = absurd (omega arith)
  take-last d (x ∷ []) zero e = refl
  take-last d (x ∷ (y ∷ xs)) zero e = absurd (omega arith)
  take-last d (x ∷ xs) (suc n) e = ap (λ l. x ∷ l) (take-last d xs n (omega arith))

  -- a write behind the first `n` entries, and at the end of them
  pub drop-set : (xs : List A) (n k : ℕ) (v : A) → n < k → drop k (set xs n v) ≡ drop k xs
  drop-set xs n zero v h = absurd (omega arith)
  drop-set [] n (suc k) v h = refl
  drop-set (x ∷ xs) zero (suc k) v h = refl
  drop-set (x ∷ xs) (suc n) (suc k) v h = drop-set xs n k v (omega arith)

  pub take-set :
      (xs : List A) (n : ℕ) (v : A)
      → n < length xs
      → take (suc n) (set xs n v) ≡ take n xs ++ (v ∷ [])
  take-set [] n v h = absurd (omega arith)
  take-set (x ∷ xs) zero v h = refl
  take-set (x ∷ xs) (suc n) v h = ap (λ l. x ∷ l) (take-set xs n v (omega arith))

  pub set-same : (xs : List A) (n : ℕ) {v : A} → get_elem? xs n ≡ some v → set xs n v ≡ xs
  set-same [] n e = refl
  set-same (x ∷ xs) zero e = ap (λ y. y ∷ xs) (cc e)
  set-same (x ∷ xs) (suc n) e = ap (λ l. x ∷ l) (set-same xs n e)

  -- where a list goes on with `x`
  pub drop-cons :
      (xs : List A) (n : ℕ) {x : A} {rest : List A}
      → drop n xs ≡ x ∷ rest
      → (get_elem? xs n ≡ some x) × (n < length xs) × (drop (suc n) xs ≡ rest)
  drop-cons [] zero e = absurd (cc e)
  drop-cons [] (suc n) e = absurd (cc e)
  drop-cons (y ∷ xs) zero e = (cc e, omega arith, cc e)
  drop-cons (y ∷ xs) (suc n) e = let (a, b, c) = drop-cons xs n e in (a, omega arith, c)

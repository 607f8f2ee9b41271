-- ===== src/Ds/Block.antt =====
-- The block of elem slots behind a container: its bytes seen elem by elem. A slot that nothing was
-- written to holds `none`, so that a read of it can be told. The functions stand for the memcpy,
-- memmove and memset calls of src/ds, whose ranges are checked against the block.
use c_nad.Prelude.Array.{
  get_or, get_or-set, get_or-take, get_or-append_left, get_or-append_right, get_or-drop,
}
use c_nad.Prelude.{
  ℕ, zero, suc, ◌+◌, ◌-◌, ◌≤◌, ◌<◌, ◌≡◌, refl, sym, ap, ◌∙◌, inl, inr, Bool, true, false, ◌&&◌,
  Option, none, some, List, [], ◌∷◌, ◌++◌, map, arith, ltb, leb, ◌==◌, if◌then◌else◌, ltb→lt,
  ltb→le, lt→ltb, le→leb, Bool-cases, length, get_elem?, set, take, drop, replicate, length-append,
  length-take, length-drop, length-replicate, Exec, done, ◌>>◌, check, or_trap,
}

-- whether a pointer is not null
abbrev pub is_some {ℓ} : {A : Type ℓ} → Option A → Bool
is_some none = false
is_some (some b) = true

module _ {ℓ} {A : Type ℓ} where
  -- `n` fresh slots
  abbrev pub fresh : ℕ → List (Option A)
  fresh n = replicate n none

  -- the slots of a block that realloc resized: the common part is kept
  pub resized : List (Option A) → ℕ → List (Option A)
  resized b n = take n b ++ fresh (n - length b)

  -- memcpy of one elem into slot `idx`
  pub store : List (Option A) → ℕ → A → Exec (List (Option A))
  store b idx val = do check (ltb idx (length b)); done (set b idx (some val))

  -- the elem in slot `idx`
  pub load : List (Option A) → ℕ → Exec A
  load b idx = or_trap (get_or b idx none)

  -- memmove of `n` slots from `src` to `dst`
  pub moved : List (Option A) → ℕ → ℕ → ℕ → List (Option A)
  moved b dst src n = take dst b ++ (take n (drop src b) ++ drop (dst + n) b)

  pub move : List (Option A) → ℕ → ℕ → ℕ → Exec (List (Option A))
  unfolding moved
  move b dst src n = do
    check (leb (dst + n) (length b) && leb (src + n) (length b))
    done (moved b dst src n)

  -- memcpy of slots from another block into slots `at` and on
  pub written : List (Option A) → ℕ → List (Option A) → List (Option A)
  written b at xs = take at b ++ (xs ++ drop (at + length xs) b)

  pub write : List (Option A) → ℕ → List (Option A) → Exec (List (Option A))
  unfolding written
  write b at xs = do check (leb (at + length xs) (length b)); done (written b at xs)

  -- `n` slots from `at` on, as memcpy reads them
  pub read : List (Option A) → ℕ → ℕ → Exec (List (Option A))
  read b at n = do check (leb (at + n) (length b)); done (take n (drop at b))

module _ {A : Type 0} where
  abbrev pub slot : List (Option A) → ℕ → Option A
  slot b i = get_or b i none

  pub slot-out : (b : List (Option A)) (i : ℕ) → length b ≤ i → slot b i ≡ none
  unfolding get_or
  slot-out [] i h = refl
  slot-out (x ∷ b) zero h = absurd (omega arith)
  slot-out (x ∷ b) (suc i) h = slot-out b i (omega arith)

  pub slot-fresh : (n i : ℕ) → slot (fresh n) i ≡ none
  unfolding get_or
  slot-fresh zero i = refl
  slot-fresh (suc n) zero = refl
  slot-fresh (suc n) (suc i) = slot-fresh n i

  pub slot-map-some : (xs : List A) (i : ℕ) → slot (map some xs) i ≡ get_elem? xs i
  unfolding get_or
  slot-map-some [] i = refl
  slot-map-some (x ∷ xs) zero = refl
  slot-map-some (x ∷ xs) (suc i) = slot-map-some xs i

  pub slot-replicate :
      (n : ℕ) (x : A) (i : ℕ) → slot (replicate n (some x)) i ≡ get_elem? (replicate n x) i
  unfolding get_or
  slot-replicate zero x i = refl
  slot-replicate (suc n) x zero = refl
  slot-replicate (suc n) x (suc i) = slot-replicate n x i

  pub length-map-some : (xs : List A) → length (map {B = Option A} some xs) ≡ length xs
  length-map-some [] = refl
  length-map-some (x ∷ xs) = ap suc (length-map-some xs)

  pub length-resized : (b : List (Option A)) (n : ℕ) → length (resized b n) ≡ n
  unfolding resized
  length-resized b n = omega (
    arith,
    length-append (take n b) (fresh (n - length b)),
    length-take n b,
    length-replicate {A = Option A} (n - length b) none,
  )

  pub slot-resized : (b : List (Option A)) (n i : ℕ) → i < n → slot (resized b n) i ≡ slot b i
  unfolding resized
  slot-resized b n i h = elim (Bool-cases (ltb i (length b))) [
    | inl e ↦
        let front : i < length (take n b) = ground (arith, length-take n b) in
        get_or-append_left none (take n b) _ i front ∙ get_or-take none n b i h
    | inr e ↦
        let back : length (take n b) ≤ i = ground (arith, length-take n b) in
        get_or-append_right none (take n b) _ i back
        ∙ slot-fresh (n - length b) (i - length (take n b))
        ∙ sym (slot-out b i (ground arith))
  ]

  pub length-moved :
      (b : List (Option A)) (dst src n : ℕ)
      → dst + n ≤ length b
      → src + n ≤ length b
      → length (moved b dst src n) ≡ length b
  unfolding moved
  length-moved b dst src n h k = omega (
    arith,
    length-append (take dst b) (take n (drop src b) ++ drop (dst + n) b),
    length-append (take n (drop src b)) (drop (dst + n) b),
    length-take dst b,
    length-take n (drop src b),
    length-drop src b,
    length-drop (dst + n) b,
  )

  -- the three parts of a block after a write, slot by slot
  pub slot-three :
      (p q r : List (Option A)) (i : ℕ)
      → slot (p ++ (q ++ r)) i ≡ (
          if ltb i (length p)
          then slot p i
          else if ltb i (length p + length q)
          then slot q (i - length p)
          else slot r (i - length p - length q))
  slot-three p q r i = elim (Bool-cases (ltb i (length p))) [
    | inl e ↦ rw e (get_or-append_left none p (q ++ r) i (ltb→lt _ _ e))
    | inr e ↦
        let front = get_or-append_right none p (q ++ r) i (ltb→le _ _ e) in
        elim (Bool-cases (ltb i (length p + length q))) [
          | inl f ↦ rw (e, f) (front ∙ get_or-append_left none q r (i - length p) (ground arith))
          | inr f ↦ rw (e, f) (front ∙ get_or-append_right none q r (i - length p) (ground arith))
        ]
  ]

  pub slot-moved :
      (b : List (Option A)) (dst src n i : ℕ)
      → dst + n ≤ length b
      → src + n ≤ length b
      → slot (moved b dst src n) i ≡ (
          if ltb i dst
          then slot b i
          else if ltb i (dst + n)
          then slot b (src + (i - dst))
          else slot b i)
  unfolding moved
  slot-moved b dst src n i h k =
      let p : length (take dst b) ≡ dst = omega (arith, length-take dst b) in
      let q : length (take n (drop src b)) ≡ n =
        omega (arith, length-take n (drop src b), length-drop src b) in
      rw (slot-three (take dst b) (take n (drop src b)) (drop (dst + n) b) i, p, q)
        (elim (Bool-cases (ltb i dst)) [
          | inl e ↦ rw e (get_or-take none dst b i (ltb→lt _ _ e))
          | inr e ↦ elim (Bool-cases (ltb i (dst + n))) [
            | inl f ↦
                rw (e, f)
                  (get_or-take none n (drop src b) (i - dst) (ground arith)
                    ∙ get_or-drop none src b (i - dst))
            | inr f ↦
                rw (e, f)
                  (get_or-drop none (dst + n) b (i - dst - n) ∙ ap (λ j. slot b j) (ground arith))
          ]
        ])

  pub length-written :
      (b : List (Option A)) (at : ℕ) (xs : List (Option A))
      → at + length xs ≤ length b
      → length (written b at xs) ≡ length b
  unfolding written
  length-written b at xs h = omega (
    arith,
    length-append (take at b) (xs ++ drop (at + length xs) b),
    length-append xs (drop (at + length xs) b),
    length-take at b,
    length-drop (at + length xs) b,
  )

  pub slot-written :
      (b : List (Option A)) (at : ℕ) (xs : List (Option A)) (i : ℕ)
      → at + length xs ≤ length b
      → slot (written b at xs) i ≡ (
          if ltb i at
          then slot b i
          else if ltb i (at + length xs)
          then slot xs (i - at)
          else slot b i)
  unfolding written
  slot-written b at xs i h =
      let p : length (take at b) ≡ at = omega (arith, length-take at b) in
      rw (slot-three (take at b) xs (drop (at + length xs) b) i, p)
        (elim (Bool-cases (ltb i at)) [
          | inl e ↦ rw e (get_or-take none at b i (ltb→lt _ _ e))
          | inr e ↦ elim (Bool-cases (ltb i (at + length xs))) [
            | inl f ↦ rw (e, f)
            | inr f ↦
                rw (e, f)
                  (get_or-drop none (at + length xs) b (i - at - length xs)
                    ∙ ap (λ j. slot b j) (ground arith))
          ]
        ])

  pub slot-set :
      (b : List (Option A)) (i j : ℕ) (v : Option A)
      → i < length b
      → slot (set b i v) j ≡ (if i == j then v else slot b j)
  slot-set b i j v h = get_or-set none b i j v h

  -- inside the block the checked operations return
  pub store-done :
      (b : List (Option A)) (i : ℕ) (v : A) → i < length b → store b i v ≡ done (set b i (some v))
  unfolding store
  store-done b i v h = rw (lt→ltb i (length b) h)

  pub load-done : (b : List (Option A)) (i : ℕ) {x : A} → slot b i ≡ some x → load b i ≡ done x
  unfolding load
  load-done b i e = rw e

  pub move-done :
      (b : List (Option A)) (dst src n : ℕ)
      → dst + n ≤ length b
      → src + n ≤ length b
      → move b dst src n ≡ done (moved b dst src n)
  unfolding move
  move-done b dst src n h k = rw (le→leb (dst + n) (length b) h, le→leb (src + n) (length b) k)

  pub write-done :
      (b : List (Option A)) (at : ℕ) (xs : List (Option A))
      → at + length xs ≤ length b
      → write b at xs ≡ done (written b at xs)
  unfolding write
  write-done b at xs h = rw (le→leb (at + length xs) (length b) h)

  pub read-done :
      (b : List (Option A)) (at n : ℕ) → at + n ≤ length b → read b at n ≡ done (take n (drop at b))
  unfolding read
  read-done b at n h = rw (le→leb (at + n) (length b) h)

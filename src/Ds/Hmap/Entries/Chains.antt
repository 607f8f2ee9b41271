-- ===== src/Ds/Hmap/Entries/Chains.antt =====
-- What the hasher and the equality of a map have to keep, and one chain under them.
use c_nad.Prelude.{
  ℕ, suc, ◌+◌, ◌≤◌, ◌≡◌, refl, sym, ap, ◌∙◌, ◌≢◌, inl, inr, Bool, true, false, Option, none, some,
  [], ◌∷◌, arith, if◌then◌else◌, ==_iff, Bool-cases, length,
}
use c_nad.Ds.Hmap.{Node, Chain}
use c_nad.Ds.Hmap.Entries.{is_node, find_in, write_in, unlink, val_of}

-- tda_Hasher and tda_Eq: an equivalence, under which equal keys hash alike.
pub record IsHashing {K : Type 0} (hasher : K → ℕ) (eq : K → K → Bool) : Type 0 where
  pub same : (a : K) → eq a a ≡ true
  pub back : (a b : K) → eq a b ≡ true → eq b a ≡ true
  pub chained : (a b c : K) → eq a b ≡ true → eq b c ≡ true → eq a c ≡ true
  pub alike : (a b : K) → eq a b ≡ true → hasher a ≡ hasher b

module _ {K : Type 0} {hasher : K → ℕ} {eq : K → K → Bool} (keys : IsHashing hasher eq) where
  -- equal keys pass the same tests
  pub eq_left : (a b q : K) → eq a b ≡ true → eq a q ≡ eq b q
  eq_left a b q e = elim (Bool-cases (eq b q)) [
    | inl f ↦ keys.chained a b q e f ∙ sym f
    | inr f ↦ elim (Bool-cases (eq a q)) [
      | inl g ↦ absurd (cc (f, keys.chained b a q (keys.back a b e) g))
      | inr g ↦ g ∙ sym f
    ]
  ]

  pub eq_right : (a b q : K) → eq a b ≡ true → eq q a ≡ eq q b
  eq_right a b q e = elim (Bool-cases (eq q a)) [
    | inl f ↦ f ∙ sym (keys.chained q a b f e)
    | inr f ↦ elim (Bool-cases (eq q b)) [
      | inl g ↦ absurd (cc (f, keys.chained q b a g (keys.back a b e)))
      | inr g ↦ f ∙ sym g
    ]
  ]

module _ {K V : Type 0} (hasher : K → ℕ) (eq : K → K → Bool) where
  -- how many nodes of a chain have the key
  unfoldable pub hits : K → Chain K V → ℕ
  hits q [] = 0
  hits q (node ∷ c) = (if eq node.key q then 1 else 0) + hits q c

  -- the value of the first node that has the key
  unfoldable pub look : K → Chain K V → Option V
  look q [] = none
  look q (node ∷ c) = if eq node.key q then some node.val else look q c

  -- every node keeps the hash of its key
  abbrev pub Hashed : Chain K V → Type 0
  Hashed [] = Unit
  Hashed (node ∷ c) = (node.hash ≡ hasher node.key) × Hashed c

  -- what write_in leaves of a chain that has the key
  pub record IsWritten (key : K) (val : V) (c d : Chain K V) : Type 0 where
    pub hashed : Hashed d
    pub size : length d ≡ length c
    pub counts : (q : K) → hits q d ≡ hits q c
    pub reads : (q : K) → look q d ≡ (if eq key q then some val else look q c)

  -- what unlink leaves of a chain: nothing when the key is not there
  unfoldable pub Unlinked : K → Chain K V → Option (Chain K V) → Type 0
  Unlinked key c none = look key c ≡ none
  Unlinked key c (some d) =
      Hashed d
      × (length d + 1 ≡ length c)
      × ((q : K) → hits q d ≤ hits q c)
      × (((q : K) → hits q c ≤ 1) → (q : K) → look q d ≡ (if eq key q then none else look q c))
      × (look key c ≢ none)

  module _ (keys : IsHashing hasher eq) where
    is_node-eq :
        (key : K) (node : Node K V)
        → node.hash ≡ hasher node.key
        → is_node hasher eq (hasher key) key node ≡ eq node.key key
    unfolding is_node
    is_node-eq key node h = elim (Bool-cases (eq node.key key)) [
      | inl e ↦ rw (e, (==_iff node.hash (hasher key)).1 (h ∙ keys.alike _ _ e))
      | inr e ↦ ground (arith, e)
    ]

    pub find_in-look :
        (key : K) (c : Chain K V)
        → Hashed c
        → val_of (find_in hasher eq (hasher key) key c) ≡ look key c
    unfolding find_in look
    find_in-look key [] h = refl
    find_in-look key (node ∷ c) h =
        rw (is_node-eq key node h.0) (elim (Bool-cases (eq node.key key)) [
          | inl e ↦ rw e refl
          | inr e ↦ rw e (find_in-look key c h.1)
        ])

    pub hits-zero : (key q : K) (c : Chain K V) → look key c ≡ none → eq key q ≡ true → hits q c ≡ 0
    unfolding hits look
    hits-zero key q [] h e = refl
    hits-zero key q (node ∷ c) h e =
        ground (arith, hits-zero key q c, eq_right keys key q node.key e)

    pub look-none : (q : K) (c : Chain K V) → hits q c ≡ 0 → look q c ≡ none
    unfolding hits look
    look-none q [] h = refl
    look-none q (node ∷ c) h = ground (arith, look-none q c)

    pub look_same : (a b : K) (c : Chain K V) → eq a b ≡ true → look a c ≡ look b c
    unfolding look
    look_same a b [] e = refl
    look_same a b (node ∷ c) e = ground (arith, eq_right keys a b node.key e, look_same a b c e)

    pub write_in-IsWritten :
        (key : K) (val : V) (c : Chain K V)
        → Hashed c
        → look key c ≢ none
        → IsWritten key val c (write_in hasher eq (hasher key) key val c)
    unfolding write_in look hits
    write_in-IsWritten key val [] h p = absurd (p refl)
    write_in-IsWritten key val (node ∷ c) h p =
        rw (is_node-eq key node h.0) (elim (Bool-cases (eq node.key key)) [
          | inl e ↦ rw e (record {
            hashed = h;
            size = refl;
            counts = λ q. refl;
            reads = λ q. ground (arith, eq_left keys node.key key q e);
          })
          | inr e ↦
              let rest = write_in-IsWritten key val c h.1 (λ z. p (rw e z)) in
              rw e (record {
                hashed = (h.0, rest.hashed);
                size = ap suc rest.size;
                counts = λ q. omega (arith, rest.counts q);
                reads = λ q. ground (arith, rest.reads q, eq_right keys key q node.key);
              })
        ])

    pub unlink-Unlinked :
        (key : K) (c : Chain K V) → Hashed c → Unlinked key c (unlink hasher eq (hasher key) key c)
    unfolding unlink look hits Unlinked
    unlink-Unlinked key [] h = refl
    unlink-Unlinked key (node ∷ c) h =
        rw (is_node-eq key node h.0) (elim (Bool-cases (eq node.key key)) [
          | inl e ↦ rw e (
            h.1,
            omega arith,
            λ q. omega arith,
            λ once q. ground (arith, once q, eq_left keys node.key key q e, look-none q c),
            λ z. cc,
          )
          | inr e ↦ rw e (rest (unlink hasher eq (hasher key) key c) (unlink-Unlinked key c h.1) e)
        ])
      where
        rest :
            (r : Option (Chain K V))
            → Unlinked key c r
            → eq node.key key ≡ false
            → Unlinked key (node ∷ c) (elim r [ none ↦ none | some d ↦ some (node ∷ d) ])
        rest none u e = rw e u
        rest (some d) (hashed, size, counts, reads, there) e = (
          (h.0, hashed),
          omega arith,
          λ q. omega (arith, counts q),
          λ once q.
              ground (arith, reads (λ p. omega (arith, once p)) q, eq_right keys key q node.key),
          rw e there,
        )

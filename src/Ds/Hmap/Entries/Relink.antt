-- ===== src/Ds/Hmap/Entries/Relink.antt =====
-- rehash moves every node into a new array, and each key stays mapped to its value.
use c_nad.Prelude.Array.{get_or}
use c_nad.Prelude.{
  ℕ, zero, suc, ◌+◌, ◌-◌, ◌≤◌, ◌<◌, ◌≡◌, refl, sym, ap, ◌∙◌, ◌≢◌, Bool, true, Option, none, some,
  List, [], ◌∷◌, arith, lt→ltb, length, replicate, length-replicate, Returns, Returns-bind,
  Returns-map,
}
use Prim.Native.Nat.{bit_and}
use c_nad.Ds.Hmap.{Node, Chain, chain_at, link, relink_chain, relink}
use c_nad.Ds.Hmap.Entries.Chains.{IsHashing, hits, look, Hashed, look-none, hits-zero}
use c_nad.Ds.Hmap.Entries.Tables.{
  nodes, nodes-replicate, get_or-replicate_nil, home, home-lt, IsTable, update, set-IsTable,
}

-- the first of two answers
abbrev pub or_else : {V : Type 0} → Option V → Option V → Option V
or_else none y = y
or_else (some x) y = some x

or_else-none : {V : Type 0} (x : Option V) → or_else x none ≡ x
or_else-none none = refl
or_else-none (some v) = refl

or_else_assoc : {V : Type 0} (x y z : Option V) → or_else (or_else x y) z ≡ or_else x (or_else y z)
or_else_assoc none y z = refl
or_else_assoc (some v) y z = refl

module _ {K V : Type 0} (hasher : K → ℕ) (eq : K → K → Bool) where
  -- hits and look over all chains
  pub hits_all : K → List (Chain K V) → ℕ
  hits_all q [] = 0
  hits_all q (c ∷ cs) = hits hasher eq q c + hits_all q cs

  pub look_all : K → List (Chain K V) → Option V
  look_all q [] = none
  look_all q (c ∷ cs) = or_else (look hasher eq q c) (look_all q cs)

  pub HashedAll : List (Chain K V) → Type 0
  HashedAll [] = Unit
  HashedAll (c ∷ cs) = Hashed hasher eq c × HashedAll cs

  HashedAll-of :
      (bs : List (Chain K V)) → ((i : ℕ) → Hashed hasher eq (get_or bs i [])) → HashedAll bs
  unfolding HashedAll get_or
  HashedAll-of [] h = tt
  HashedAll-of (c ∷ cs) h = (h 0, HashedAll-of cs (λ i. h (suc i)))

  pub empty-IsTable : (n : ℕ) → IsTable {V = V} hasher eq n 0 (λ q. none) (replicate n [])
  unfolding hits look
  empty-IsTable n = record {
    width = length-replicate {A = Chain K V} n [];
    entries = nodes-replicate (Node K V) n;
    hashed = λ i. rw (get_or-replicate_nil (Node K V) n i) tt;
    once = λ q i. rw (get_or-replicate_nil (Node K V) n i) (omega arith);
    at_home = λ q i e. rw (get_or-replicate_nil (Node K V) n i) refl;
    reads = λ q. rw (get_or-replicate_nil (Node K V) n (home hasher q n)) refl;
  }

  hits_all-zero :
      (q : K) (bs : List (Chain K V))
      → ((i : ℕ) → hits hasher eq q (get_or bs i []) ≡ 0)
      → hits_all q bs ≡ 0
  unfolding hits_all get_or
  hits_all-zero q [] h = refl
  hits_all-zero q (c ∷ cs) h = omega (arith, h 0, hits_all-zero q cs (λ i. h (suc i)))

  module _ (keys : IsHashing hasher eq) where
    look_all-none : (q : K) (bs : List (Chain K V)) → hits_all q bs ≡ 0 → look_all q bs ≡ none
    unfolding hits_all look_all
    look_all-none q [] h = refl
    look_all-none q (c ∷ cs) h =
        rw (look-none hasher eq keys q c (omega arith)) (look_all-none q cs (omega arith))

    -- a key that only one bucket may have
    all_only :
        (q : K) (bs : List (Chain K V)) (j : ℕ)
        → ((i : ℕ) → j ≢ i → hits hasher eq q (get_or bs i []) ≡ 0)
        → (hits_all q bs ≡ hits hasher eq q (get_or bs j []))
          × (look_all q bs ≡ look hasher eq q (get_or bs j []))
    unfolding hits look hits_all look_all get_or
    all_only q [] j h = (refl, refl)
    all_only q (c ∷ cs) zero h =
        let gone = hits_all-zero q cs (λ i. h (suc i) (omega arith)) in
        (omega arith, rw (look_all-none q cs gone) (or_else-none (look hasher eq q c)))
    all_only q (c ∷ cs) (suc j) h =
        let (counted, read) = all_only q cs j (λ i e. h (suc i) (omega arith)) in
        let here = h 0 (omega arith) in
        (omega (arith, counted), rw (look-none hasher eq keys q c here) read)

    link_at :
        {n total : ℕ} {f : K → Option V} {bs : List (Chain K V)}
        (t : IsTable hasher eq n total f bs) (node : Node K V) (i : ℕ)
        → i ≡ home hasher node.key n
        → 0 < n
        → node.hash ≡ hasher node.key
        → f node.key ≡ none
        → Returns
            (IsTable hasher eq n (total + 1) (update hasher eq f node.key (some node.val)))
            (link bs i node)
    unfolding link chain_at hits look
    link_at {n} {total} {f} {bs} t node i e pos h absent =
        let old = get_or bs (home hasher node.key n) [] in
        let in_bs : home hasher node.key n < length bs =
          omega (arith, home-lt hasher node.key n pos, t.width) in
        let free : look hasher eq node.key old ≡ none = t.reads node.key ∙ absent in
        rw (e, lt→ltb (home hasher node.key n) (length bs) in_bs)
          (
            _,
            refl,
            set-IsTable hasher eq keys t pos node.key (some node.val) (node ∷ old) (total + 1)
                (h, t.hashed (home hasher node.key n)) (omega arith)
                (λ q. ground (arith, hits-zero hasher eq keys node.key q old free))
                (λ q. ground arith),
          )

    -- a node whose key the table does not have, put in front of its chain
    pub link-IsTable :
        {n total : ℕ} {f : K → Option V} {bs : List (Chain K V)}
        (t : IsTable hasher eq n total f bs) (node : Node K V)
        → 0 < n
        → node.hash ≡ hasher node.key
        → f node.key ≡ none
        → Returns
            (IsTable hasher eq n (total + 1) (update hasher eq f node.key (some node.val)))
            (link bs (bit_and node.hash (n - 1)) node)
    link-IsTable {n} t node pos h absent =
        link_at t node (bit_and node.hash (n - 1)) (ap (λ k. bit_and k (n - 1)) h) pos h absent

    relink_chain-IsTable :
        (c : Chain K V) {n total : ℕ} {f : K → Option V} {bs : List (Chain K V)}
        (t : IsTable hasher eq n total f bs)
        → 0 < n
        → Hashed hasher eq c
        → ((q : K) → hits hasher eq q c ≤ 1)
        → ((q : K) → 0 < hits hasher eq q c → f q ≡ none)
        → Returns
            (IsTable hasher eq n (total + length c) (λ q. or_else (f q) (look hasher eq q c)))
            (relink_chain n c bs)
    unfolding relink_chain hits look
    relink_chain-IsTable [] {f = f} {bs = bs} t pos h once apart = (
      bs,
      refl,
      record {
        width = t.width;
        entries = omega (arith, t.entries);
        hashed = t.hashed;
        once = t.once;
        at_home = t.at_home;
        reads = λ q. t.reads q ∙ sym (or_else-none (f q));
      },
    )
    relink_chain-IsTable (node ∷ c) {n} {total} {f} t pos h once apart =
        let own : eq node.key node.key ≡ true = keys.same node.key in
        Returns-bind _ _ (link-IsTable t node pos h.0 (apart node.key (ground (arith, own))))
          λ bs' t'.
            Returns-map _
              (relink_chain-IsTable c t' pos h.1 (λ q. omega (arith, once q))
                (λ q p. ground (arith, once q, apart q)))
              λ bs'' t''. record {
                width = t''.width;
                entries = omega (arith, t''.entries);
                hashed = t''.hashed;
                once = t''.once;
                at_home = t''.at_home;
                reads = λ q. ground (arith, t''.reads q, apart q);
              }

    relink-IsTable :
        (cs : List (Chain K V)) {n total : ℕ} {f : K → Option V} {bs : List (Chain K V)}
        (t : IsTable hasher eq n total f bs)
        → 0 < n
        → HashedAll cs
        → ((q : K) → hits_all q cs ≤ 1)
        → ((q : K) → 0 < hits_all q cs → f q ≡ none)
        → Returns
            (IsTable hasher eq n (total + nodes cs) (λ q. or_else (f q) (look_all q cs)))
            (relink n cs bs)
    unfolding relink hits_all look_all HashedAll nodes
    relink-IsTable [] {f = f} {bs = bs} t pos h once apart = (
      bs,
      refl,
      record {
        width = t.width;
        entries = omega (arith, t.entries);
        hashed = t.hashed;
        once = t.once;
        at_home = t.at_home;
        reads = λ q. t.reads q ∙ sym (or_else-none (f q));
      },
    )
    relink-IsTable (c ∷ cs) {n} {total} {f} t pos h once apart =
        Returns-bind _ _
          (relink_chain-IsTable c t pos h.0 (λ q. omega (arith, once q))
            (λ q p. apart q (omega arith)))
          λ bs' t'.
            Returns-map _
              (relink-IsTable cs t' pos h.1 (λ q. omega (arith, once q))
                (λ q p.
                  rw (apart q (omega arith))
                    (look-none hasher eq keys q c (omega (arith, once q)))))
              λ bs'' t''. record {
                width = t''.width;
                entries = omega (arith, t''.entries);
                hashed = t''.hashed;
                once = t''.once;
                at_home = t''.at_home;
                reads = λ q. t''.reads q ∙ or_else_assoc (f q) (look hasher eq q c) (look_all q cs);
              }

    -- All nodes of a table relinked into empty buckets: the same mapping, in a table of another
    -- size.
    pub relink-replicate :
        {n total : ℕ} {f : K → Option V} {bs : List (Chain K V)}
        (t : IsTable hasher eq n total f bs) (m : ℕ)
        → 0 < m
        → Returns (IsTable hasher eq m total f) (relink m bs (replicate m []))
    relink-replicate {n} {total} {f} {bs} t m pos =
        Returns-map _
          (relink-IsTable bs (empty-IsTable m) pos (HashedAll-of bs t.hashed)
            (λ q. omega (
              arith,
              (all_only q bs (home hasher q n) (t.at_home q)).0,
              t.once q (home hasher q n),
            ))
            (λ q p. refl))
          λ bs' t'. record {
            width = t'.width;
            entries = omega (arith, t'.entries, t.entries);
            hashed = t'.hashed;
            once = t'.once;
            at_home = t'.at_home;
            reads = λ q. t'.reads q ∙ (all_only q bs (home hasher q n) (t.at_home q)).1 ∙ t.reads q;
          }

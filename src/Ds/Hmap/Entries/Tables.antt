-- ===== src/Ds/Hmap/Entries/Tables.antt =====
-- The bucket array: every key in the one bucket that its hash names, and what the array maps it to.
use c_nad.Prelude.Array.{get_or, get_or-set}
use c_nad.Prelude.{
  ℕ, zero, suc, ◌+◌, ◌-◌, ◌≤◌, ◌<◌, ◌≡◌, refl, ◌∙◌, ◌≢◌, inl, inr, Bool, Option, List, [], ◌∷◌,
  arith, ◌==◌, if◌then◌else◌, Bool-cases, length, set, replicate, length-set,
}
use Prim.Native.Nat.{bit_and}
use c_nad.Core.Bits.{bit_and-le}
use c_nad.Ds.Hmap.{Chain}
use c_nad.Ds.Hmap.Entries.Chains.{IsHashing, hits, look, Hashed}

-- the nodes of all chains
unfoldable pub nodes {ℓ} : {A : Type ℓ} → List (List A) → ℕ
nodes [] = 0
nodes (c ∷ cs) = length c + nodes cs

pub nodes-set :
    {A : Type 0} (bs : List (List A)) (i : ℕ) (c : List A)
    → i < length bs
    → nodes (set bs i c) + length (get_or bs i []) ≡ nodes bs + length c
unfolding nodes get_or
nodes-set [] i c h = absurd (omega arith)
nodes-set (b ∷ bs) zero c h = omega arith
nodes-set (b ∷ bs) (suc i) c h = omega (arith, nodes-set bs i c)

pub nodes-replicate : (A : Type 0) (n : ℕ) → nodes (replicate {A = List A} n []) ≡ 0
unfolding nodes
nodes-replicate A zero = refl
nodes-replicate A (suc n) = omega (arith, nodes-replicate A n)

pub get_or-replicate_nil : (A : Type 0) (n i : ℕ) → get_or (replicate {A = List A} n []) i [] ≡ []
unfolding get_or
get_or-replicate_nil A zero i = refl
get_or-replicate_nil A (suc n) zero = refl
get_or-replicate_nil A (suc n) (suc i) = get_or-replicate_nil A n i

-- the bucket of a key among `n`
abbrev pub home : {K : Type 0} → (K → ℕ) → K → ℕ → ℕ
home hasher q n = bit_and (hasher q) (n - 1)

pub home-lt : {K : Type 0} (hasher : K → ℕ) (q : K) (n : ℕ) → 0 < n → home hasher q n < n
home-lt hasher q n p = omega (arith, bit_and-le (hasher q) (n - 1))

module _ {K V : Type 0} (hasher : K → ℕ) (eq : K → K → Bool) where
  -- `f` with `v` at the key
  abbrev pub update : (K → Option V) → K → Option V → K → Option V
  update f key v q = if eq key q then v else f q

  -- `n` chains with `total` nodes that map each key as `f` does; a key has one node at most, and
  -- only in its own bucket
  pub record IsTable (n total : ℕ) (f : K → Option V) (bs : List (Chain K V)) : Type 0 where
    pub width : length bs ≡ n
    pub entries : nodes bs ≡ total
    pub hashed : (i : ℕ) → Hashed hasher eq (get_or bs i [])
    pub once : (q : K) (i : ℕ) → hits hasher eq q (get_or bs i []) ≤ 1
    pub at_home :
        (q : K) (i : ℕ) → bit_and (hasher q) (n - 1) ≢ i → hits hasher eq q (get_or bs i []) ≡ 0
    pub reads : (q : K) → look hasher eq q (get_or bs (bit_and (hasher q) (n - 1)) []) ≡ f q

  module _ (keys : IsHashing hasher eq) {n total : ℕ} {f : K → Option V} {bs : List (Chain K V)}
      (t : IsTable n total f bs) (pos : 0 < n) where
    -- the chain of a key replaced by one that differs at the key only
    pub set-IsTable :
        (key : K) (v : Option V) (c : Chain K V) (total' : ℕ)
        → Hashed hasher eq c
        → total' + length (get_or bs (home hasher key n) []) ≡ total + length c
        → ((q : K)
            → hits hasher eq q c
              ≤ (if eq key q then 1 else hits hasher eq q (get_or bs (home hasher key n) [])))
        → ((q : K)
            → look hasher eq q c
              ≡ (if eq key q then v else look hasher eq q (get_or bs (home hasher key n) [])))
        → IsTable n total' (update f key v) (set bs (home hasher key n) c)
    set-IsTable key v c total' h size few reads =
        let in_bs : home hasher key n < length bs =
          omega (arith, home-lt hasher key n pos, t.width) in
        record {
          width = length-set bs (home hasher key n) c ∙ t.width;
          entries = omega (arith, nodes-set bs (home hasher key n) c in_bs, t.entries);
          hashed = λ i.
              rw (get_or-set [] bs (home hasher key n) i c in_bs)
                (elim (Bool-cases (home hasher key n == i)) [
                  | inl e ↦ rw e h
                  | inr e ↦ rw e (t.hashed i)
                ]);
          once = λ q i.
              rw (get_or-set [] bs (home hasher key n) i c in_bs)
                (ground (arith, few q, t.once q i));
          at_home = λ q i e.
              rw (get_or-set [] bs (home hasher key n) i c in_bs)
                (ground (arith, few q, t.at_home q i, keys.alike key q));
          reads = λ q.
              rw (get_or-set [] bs (home hasher key n) (home hasher q n) c in_bs)
                (ground (arith, reads q, t.reads q, keys.alike key q));
        }

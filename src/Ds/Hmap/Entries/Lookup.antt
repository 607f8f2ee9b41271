-- ===== src/Ds/Hmap/Entries/Lookup.antt =====
-- Lookups of a map, against the mapping that it holds.
use c_nad.Prelude.Array.{get_or}
use c_nad.Prelude.{
  ℕ, ◌-◌, ◌<◌, ◌≡◌, refl, sym, ◌∙◌, inl, inr, Bool, Option, none, some, List, [], ◌∷◌, arith, ◌==◌,
  lt→ltb, Bool-cases, length, done, Returns, Returns-if,
}
use Prim.Native.Nat.{bit_and}
use c_nad.Ds.Block.{is_some}
use c_nad.Ds.Hmap.{Hmap, Node, Chain, chains, bucket_of, chain_at}
use c_nad.Ds.Hmap.Entries.{is_node, find_in, is_of, find_node, get, contains, val_of}
use c_nad.Ds.Hmap.Entries.Chains.{IsHashing, look, find_in-look}
use c_nad.Ds.Hmap.Entries.Tables.{home, home-lt}
use c_nad.Ds.Hmap.Entries.Rehash.{Holds, assert_hmap-done}

get_or-nil : {A : Type 0} (bs : List (List A)) (i : ℕ) → length bs ≡ 0 → get_or bs i [] ≡ []
unfolding get_or
get_or-nil [] i e = refl
get_or-nil (c ∷ bs) i e = absurd (omega arith)

pub val_of-is_some : {K V : Type 0} (n : Option (Node K V)) → is_some n ≡ is_some (val_of n)
val_of-is_some none = refl
val_of-is_some (some n) = refl

module _ {K V : Type 0} {hasher : K → ℕ} {eq : K → K → Bool} {m : Hmap K V} {f : K → Option V}
    (h : Holds hasher eq m f) where
  pub bucket_of-done :
      (hash : ℕ) → 0 < m.bucket_count → bucket_of m hash ≡ done (bit_and hash (m.bucket_count - 1))
  unfolding bucket_of
  bucket_of-done hash p = rw (lt→ltb 0 m.bucket_count p)

  pub chain_at-done :
      (i : ℕ) → i < m.bucket_count → chain_at (chains m) i ≡ done (get_or (chains m) i [])
  unfolding chain_at
  chain_at-done i p = rw (lt→ltb i (length (chains m)) (omega (arith, h.table.width)))

-- what the walk finds is a node of the key
find_in-is_of :
    {K V : Type 0} (hasher : K → ℕ) (eq : K → K → Bool) (key : K) (c : Chain K V)
    → is_of hasher eq key (find_in hasher eq (hasher key) key c)
      ≡ is_some (find_in hasher eq (hasher key) key c)
unfolding find_in
find_in-is_of hasher eq key [] = refl
find_in-is_of hasher eq key (node ∷ c) =
    elim (Bool-cases (is_node hasher eq (hasher key) key node)) [
      | inl e ↦ rw e e
      | inr e ↦ rw e (find_in-is_of hasher eq key c)
    ]

module _ {K V : Type 0} (hasher : K → ℕ) (eq : K → K → Bool) (keys : IsHashing hasher eq)
    {m : Hmap K V} {f : K → Option V} (h : Holds hasher eq m f) where
  -- a map without buckets maps nothing
  pub bare-none : m.bucket_count ≡ 0 → (q : K) → f q ≡ none
  unfolding look
  bare-none e q =
      let nothing = get_or-nil (chains m) (home hasher q m.bucket_count) (h.table.width ∙ e) in
      sym (h.table.reads q) ∙ rw nothing refl

  -- find_node returns the node of the key, if the map has it
  pub find_node-val_of :
      (key : K)
      → Returns
          (λ n. (val_of n ≡ f key) × (is_of hasher eq key n ≡ is_some n))
          (find_node hasher eq m key (hasher key))
  unfolding find_node look
  find_node-val_of key =
      Returns-if (m.bucket_count == 0)
        (λ bare. (none, refl, (sym (bare-none (ground arith) key), refl)))
        (λ some_buckets.
          let pos : 0 < m.bucket_count = ground arith in
          let at = home hasher key m.bucket_count in
          rw
            (
              bucket_of-done h (hasher key) pos,
              chain_at-done h at (home-lt hasher key m.bucket_count pos),
            )
            (
              _,
              refl,
              (
                find_in-look hasher eq keys key (get_or (chains m) at []) (h.table.hashed at)
                    ∙ h.table.reads key,
                find_in-is_of hasher eq key (get_or (chains m) at []),
              ),
            ))

  -- get returns the value that the key is mapped to, contains whether there is one.
  pub get-contains :
      (key : K)
      → (get hasher eq m key ≡ done (f key)) × (contains hasher eq m key ≡ done (is_some (f key)))
  unfolding get contains
  get-contains key =
      let (n, run, (e, u)) = find_node-val_of key in
      rw (assert_hmap-done h, run, val_of-is_some n, e) (refl, refl)

-- ===== src/Ds/Hmap/Entries.antt =====
-- The part of src/ds/hmap.c that asks for keys: lookup, insertion, removal, copies, comparison.
pub mod Chains
pub mod Tables
pub mod Relink
pub mod Rehash
pub mod Lookup
pub mod Adding
pub mod Mods
pub mod Remove
use c_nad.Alloc
use c_nad.Prelude.{
  ℕ, ◌+◌, ◌-◌, Bool, true, false, ◌&&◌, not, Option, none, some, [], ◌∷◌, ◌==◌, if◌then◌else◌, set,
  Exec, done, ◌>>=◌, ◌>>◌, check,
}
use c_nad.Alloc.{Al}
use c_nad.Core.Status.{Status, ok, no_mem, is_ok}
use c_nad.Ds.Block.{is_some}
use c_nad.Ds.Hmap.{
  Node, Chain, Hmap, chains, assert_hmap, node_bytes, bucket_of, chain_at, link, reserve_one,
}

-- the value of a node, nothing for a null pointer
abbrev pub val_of : {K V : Type 0} → Option (Node K V) → Option V
val_of none = none
val_of (some node) = some node.val

module _ {K V : Type 0} (hasher : K → ℕ) (eq : K → K → Bool) where
  -- the test of a node: the hash first, then the key
  pub is_node : ℕ → K → Node K V → Bool
  is_node hash key node = node.hash == hash && eq node.key key

  -- the walk along a chain of find_node
  pub find_in : ℕ → K → Chain K V → Option (Node K V)
  unfolding is_node
  find_in hash key [] = none
  find_in hash key (node ∷ c) = if is_node hash key node then some node else find_in hash key c

  -- whether a pointer that is not null is to a node of the key
  abbrev pub is_of : K → Option (Node K V) → Bool
  is_of key none = false
  is_of key (some node) = is_node (hasher key) key node

  -- find_node
  pub find_node : Hmap K V → K → ℕ → Exec (Option (Node K V))
  find_node m key hash =
      let walk : Exec (Option (Node K V)) = do
        i ← bucket_of m hash
        c ← chain_at (chains m) i
        done (find_in hash key c)
      in if m.bucket_count == 0 then done none else walk

  -- tda_hmap_get, tda_hmap_get_mut
  pub get : Hmap K V → K → Exec (Option V)
  get m key = do assert_hmap m; n ← find_node m key (hasher key); done (val_of n)

  -- tda_hmap_contains
  pub contains : Hmap K V → K → Exec Bool
  contains m key = do assert_hmap m; n ← find_node m key (hasher key); done (is_some n)

  -- the write through node_val_mut of the node that find_in finds
  pub write_in : ℕ → K → V → Chain K V → Chain K V
  unfolding is_node
  write_in hash key val [] = []
  write_in hash key val (node ∷ c) =
      if is_node hash key node
      then record node { val = val } ∷ c
      else node ∷ write_in hash key val c

  pub write_val : Hmap K V → K → ℕ → V → Exec (Hmap K V)
  unfolding write_in
  write_val m key hash val = do
    i ← bucket_of m hash
    c ← chain_at (chains m) i
    done (record m { buckets = some (set (chains m) i (write_in hash key val c)) })

  -- the chain without its first node for the key, if there is one
  pub unlink : ℕ → K → Chain K V → Option (Chain K V)
  unfolding is_node
  unlink hash key [] = none
  unlink hash key (node ∷ c) =
      let on : Option (Chain K V) = elim (unlink hash key c) [
        | none ↦ none
        | some rest ↦ some (node ∷ rest)
      ] in
      if is_node hash key node then some c else on

  module _ (al : Al) where
    -- node_new; `none` is its TDA_STATUS_ERR_NO_MEM
    pub node_new : Hmap K V → al.State → K → V → ℕ → Exec (Option (Node K V) × al.State)
    node_new m st key val hash =
        let (granted, st') = Alloc.alloc al st (node_bytes m) in
        let made : Exec (Option (Node K V) × al.State) = do
          check (al.aligned st (node_bytes m))
          done (some (record { hash = hash; key = key; val = val }), st')
        in if granted then made else done (none, st')

    -- add_node
    pub add_node :
        Hmap K V → al.State → K → V → ℕ → Exec (Status × Option (Node K V) × Hmap K V × al.State)
    add_node m st key val hash = do
      (s, m₁, st₁) ← reserve_one al m st
      let linked : Node K V → al.State → Exec (Status × Option (Node K V) × Hmap K V × al.State) =
          λ node st₂. do
            i ← bucket_of m₁ hash
            bs ← link (chains m₁) i node
            let m₂ : Hmap K V = record m₁ { buckets = some bs; len = m₁.len + 1 }
            assert_hmap m₂
            done (ok, some node, m₂, st₂)
      let added : Exec (Status × Option (Node K V) × Hmap K V × al.State) = do
        (n, st₂) ← node_new m₁ st₁ key val hash
        elim n [ none ↦ done (no_mem, none, m₁, st₂) | some node ↦ linked node st₂ ]
      if not (is_ok s) then done (s, none, m₁, st₁) else added

    -- tda_hmap_insert; `*out_is_new` is `none` where the call does not write it
    pub insert : Hmap K V → al.State → K → V → Exec (Status × Option Bool × Hmap K V × al.State)
    insert m st key val = do
      assert_hmap m
      found ← find_node m key (hasher key)
      let over : Exec (Status × Option Bool × Hmap K V × al.State) = do
        m' ← write_val m key (hasher key) val
        done (ok, some false, m', st)
      let added : Exec (Status × Option Bool × Hmap K V × al.State) = do
        (s, n, m', st') ← add_node m st key val (hasher key)
        done (s, if is_ok s then some true else none, m', st')
      if is_some found then over else added

    -- tda_hmap_get_or_insert, with the node that `*out_node` is set to
    pub get_or_insert :
        Hmap K V → al.State → K → V → Exec (Status × Option (Node K V) × Hmap K V × al.State)
    get_or_insert m st key val = do
      assert_hmap m
      found ← find_node m key (hasher key)
      let added = add_node m st key val (hasher key)
      elim found [ none ↦ added | some node ↦ done (ok, some node, m, st) ]

    -- tda_hmap_remove
    pub remove : Hmap K V → al.State → K → Exec (Bool × Hmap K V × al.State)
    remove m st key = do
      assert_hmap m
      let walk : Exec (Bool × Hmap K V × al.State) = do
        i ← bucket_of m (hasher key)
        c ← chain_at (chains m) i
        elim (unlink (hasher key) key c) [
          | none ↦ done (false, m, st)
          | some c' ↦ do
            let m' : Hmap K V = record m { buckets = some (set (chains m) i c'); len = m.len - 1 }
            assert_hmap m'
            done (true, m', Alloc.dealloc al st true (node_bytes m))
        ]
      if m.bucket_count == 0 then done (false, m, st) else walk

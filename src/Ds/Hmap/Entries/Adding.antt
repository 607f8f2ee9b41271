-- ===== src/Ds/Hmap/Entries/Adding.antt =====
-- add_node: the node made, linked in front of its chain, and found there.
use c_nad.Alloc
use c_nad.Prelude.Array.{get_or, get_or-set}
use c_nad.Prelude.{
  ℕ, ◌+◌, ◌<◌, ◌≡◌, refl, ◌∙◌, ◌⊎◌, inl, inr, Bool, true, false, not, Option, none, some, List, [],
  ◌∷◌, arith, ◌==◌, if◌then◌else◌, ==_iff, set, Exec, done, ◌>>=◌, ◌>>◌, Returns, Returns-bind,
  Returns-if,
}
use c_nad.Alloc.{Al}
use c_nad.Core.Status.{Status, ok, no_mem, is_ok}
use c_nad.Ds.Hmap.{Hmap, Node, Chain, chains, assert_hmap, bucket_of, link, node_bytes}
use c_nad.Ds.Hmap.Entries.{find_in, find_node, is_node, is_of, val_of, node_new, add_node}
use c_nad.Ds.Hmap.Entries.Chains.{IsHashing}
use c_nad.Ds.Hmap.Entries.Tables.{IsTable, home, home-lt, update}
use c_nad.Ds.Hmap.Entries.Relink.{link-IsTable}
use c_nad.Ds.Hmap.Entries.Rehash.{Holds, assert_hmap-done, Outcome, Settled, reserve_one-Settled}
use c_nad.Ds.Hmap.Entries.Lookup.{bucket_of-done, chain_at-done}

-- The allocator hands out aligned blocks only, as malloc does.
abbrev pub Aligned : Al → Type 0
Aligned al = (st : al.State) (n : ℕ) → (Alloc.alloc al st n).0 ≡ true → al.aligned st n ≡ true

module _ {K V : Type 0} (hasher : K → ℕ) (eq : K → K → Bool) (keys : IsHashing hasher eq) where
  -- a table written back into its map, with another number of nodes
  pub set-Holds :
      {m : Hmap K V} {f : K → Option V} (h : Holds hasher eq m f) (n : ℕ) {g : K → Option V}
      (bs : List (Chain K V))
      → 0 < m.bucket_count
      → IsTable hasher eq m.bucket_count n g bs
      → Holds hasher eq (record m { buckets = some bs; len = n }) g
  set-Holds {m} h n bs pos t = record {
    keyed = h.keyed;
    table = t;
    owned = ground arith;
    pow2 = h.pow2;
    bytes = h.bytes;
  }

  -- what add_node returns: with success the node of a new entry, else no node and the same mapping
  unfoldable pub Added :
      (al : Al) → (K → Option V) → K → V → Status × Option (Node K V) × Hmap K V × al.State → Type 0
  Added al f key val (ok, n, m', st) =
      (find_node hasher eq m' key (hasher key) ≡ done n)
      × (is_of hasher eq key n ≡ true)
      × (val_of n ≡ some val)
      × Holds hasher eq m' (update hasher eq f key (some val))
  Added al f key val (no_mem, n, m', st) = (n ≡ none) × Holds hasher eq m' f

  -- the node of a new entry
  abbrev entry_node : K → V → Node K V
  entry_node key val = record { hash = hasher key; key = key; val = val }

  entry_node-is_node :
      (key : K) (val : V) → is_node hasher eq (hasher key) key (entry_node key val) ≡ true
  unfolding is_node
  entry_node-is_node key val = rw ((==_iff (hasher key) (hasher key)).1 refl, keys.same key) refl

  -- the walk for the key ends at the node that was linked
  linked-found :
      {m : Hmap K V} {f g : K → Option V} (h : Holds hasher eq m f) (key : K) (val : V)
      (bs : List (Chain K V)) (n : ℕ)
      → 0 < m.bucket_count
      → link (chains m) (home hasher key m.bucket_count) (entry_node key val) ≡ done bs
      → Holds hasher eq (record m { buckets = some bs; len = n }) g
      → find_node hasher eq (record m { buckets = some bs; len = n }) key (hasher key)
        ≡ done (some (entry_node key val))
  unfolding find_node find_in link
  linked-found {m} h key val bs n pos run made =
      let at = home hasher key m.bucket_count in
      let in_m = home-lt hasher key m.bucket_count pos in
      let old = get_or (chains m) at [] in
      let is : bs ≡ set (chains m) at (entry_node key val ∷ old) =
        cc (run, chain_at-done h at in_m) in
      let front : get_or bs at [] ≡ entry_node key val ∷ old = rw is (
        get_or-set [] (chains m) at at _ (omega (arith, h.table.width))
        ∙ rw ((==_iff at at).1 refl) refl) in
      let buckets : (m.bucket_count == 0) ≡ false = ground arith in
      rw
        (
          buckets,
          bucket_of-done made (hasher key) pos,
          chain_at-done made at in_m,
          front,
          entry_node-is_node key val,
        )
        refl

  -- node_new returns the node of the entry, or none when its memory is refused
  node_new-entry :
      (al : Al) (align : Aligned al) (m : Hmap K V) (st : al.State) (key : K) (val : V)
      → Returns {A = Option (Node K V) × al.State}
          (λ r. (r.0 ≡ none) ⊎ (r.0 ≡ some (entry_node key val)))
          (node_new hasher eq al m st key val (hasher key))
  unfolding node_new
  node_new-entry al align m st key val =
      Returns-if (Alloc.alloc al st (node_bytes m)).0
        (λ granted. rw (align st (node_bytes m) granted) (_, refl, inr refl))
        (λ refused. (_, refl, inl refl))

  -- the node made and linked, once there is a bucket
  linked_into :
      (al : Al) (align : Aligned al) {m : Hmap K V} {f : K → Option V} (key : K) (val : V)
      (r : Outcome al K V)
      → Settled al m (λ m'. Holds hasher eq m' f × (0 < m'.bucket_count)) r
      → Holds hasher eq m f
      → f key ≡ none
      → Returns {A = Status × Option (Node K V) × Hmap K V × al.State} (Added al f key val) (
          let linked : Node K V
              → al.State
              → Exec (Status × Option (Node K V) × Hmap K V × al.State) =
            (λ node st₂. do
              i ← bucket_of r.1 (hasher key)
              bs ← link (chains r.1) i node
              let m₂ : Hmap K V = record r.1 { buckets = some bs; len = r.1.len + 1 }
              assert_hmap m₂
              done (ok, some node, m₂, st₂)) in
          let added : Exec (Status × Option (Node K V) × Hmap K V × al.State) = (do
            (n, st₂) ← node_new hasher eq al r.1 r.2 key val (hasher key)
            elim n [ none ↦ done (no_mem, none, r.1, st₂) | some node ↦ linked node st₂ ]) in
          if not (is_ok r.0) then done (r.0, none, r.1, r.2) else added)
  unfolding Added is_node
  linked_into al align key val (no_mem, m', st) u h absent = (_, refl, (refl, rw u h))
  linked_into al align {f = f} key val (ok, m', st) (g, pos) h absent =
      let of_key = entry_node-is_node key val in
      Returns-bind _ _ (node_new-entry al align m' st key val) λ (n, st₂) u. elim u [
        | inl e ↦ rw e (_, refl, (refl, g))
        | inr e ↦
            let (bs, run, t) =
              link-IsTable hasher eq keys g.table (entry_node key val) pos refl absent in
            let made = set-Holds g (m'.len + 1) bs pos t in
            rw (e, bucket_of-done g (hasher key) pos, run, assert_hmap-done made)
              (_, refl, (linked-found g key val bs (m'.len + 1) pos run made, of_key, refl, made))
      ]

  pub add_node-Added :
      (al : Al) (align : Aligned al) {m : Hmap K V} {f : K → Option V} (h : Holds hasher eq m f)
      (st : al.State) (key : K) (val : V)
      → f key ≡ none
      → Returns {A = Status × Option (Node K V) × Hmap K V × al.State}
          (Added al f key val)
          (add_node hasher eq al m st key val (hasher key))
  unfolding add_node
  add_node-Added al align h st key val absent =
      Returns-bind _ _ (reserve_one-Settled hasher eq keys al h st)
        λ r u. linked_into al align key val r u h absent

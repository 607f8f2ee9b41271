-- ===== src/Ds/Hmap.antt =====
-- src/ds/hmap.c: the chained hash map. A chain is the list of its nodes, front first; a node is
-- its hash, key and value, and its links are the order of the list. A set is the map whose values
-- are of a type with one value. `hasher` and `eq` are the functions that the map was given.
pub mod Entries
pub mod Sizes
use c_nad.Alloc
use c_nad.Core.Size.{size_max, ckd_mul, ckd_add, add_size, mul_size}
use c_nad.Prelude.Array.{get_or}
use c_nad.Prelude.{
  ℕ, zero, suc, ◌+◌, ◌-◌, ◌*◌, ◌/◌, Bool, true, ◌&&◌, ◌||◌, not, Option, none, some, List, [], ◌∷◌,
  ltb, leb, ◌==◌, if◌then◌else◌, length, set, replicate, Exec, done, spent, ◌>>=◌, ◌>>◌, check,
}
use Prim.Native.Nat.{bit_and}
use c_nad.Alloc.{Al}
use c_nad.Core.Status.{Status, ok, no_mem, is_ok}
use c_nad.Ds.Block.{is_some}

-- struct tda_HMapNode
pub record Node (K V : Type 0) : Type 0 where
  pub hash : ℕ
  pub key : K
  pub val : V

abbrev pub Chain : Type 0 → Type 0 → Type 0
Chain K V = List (Node K V)

-- struct tda_HMap; a null `buckets` is `none`
pub record Hmap (K V : Type 0) : Type 0 where
  pub buckets : Option (List (Chain K V))
  pub bucket_count : ℕ
  pub len : ℕ
  pub key_size : ℕ
  pub val_size : ℕ
  pub val_offset : ℕ

-- HMAP_BUCKETS_BASE, sizeof(tda_HMapNode *) and sizeof(tda_HMapNode) where a pointer has 8 bytes
-- and alignof(max_align_t) is 16
abbrev pub buckets_base : ℕ
buckets_base = 8

abbrev pub pointer_size : ℕ
pointer_size = 8

abbrev pub max_align : ℕ
max_align = 16

abbrev pub node_size : ℕ
node_size = 16

-- `count & (count - 1)` is 0 for a power of two
abbrev pub is_pow2 : ℕ → Bool
is_pow2 n = bit_and n (n - 1) == 0

-- round_up_pow2: the loop doubles `n` until it is at least `want`; `none` is its 0 on overflow
round_up_from : ℕ → ℕ → ℕ → Exec (Option ℕ)
round_up_from zero n want = spent
round_up_from (suc fuel) n want =
    let more : Exec (Option ℕ) = elim (ckd_mul n 2) [
      | none ↦ done none
      | some grown ↦ round_up_from fuel grown want
    ] in
    if ltb n want then more else done (some n)

pub round_up_pow2 : ℕ → Exec (Option ℕ)
unfolding round_up_from
round_up_pow2 want = round_up_from 64 buckets_base want

-- tda_align_up at a power of two: the mask clears the digits below it
pub align_up : ℕ → ℕ → Exec ℕ
align_up val alignment = do
  check (ltb 0 alignment)
  check (is_pow2 alignment)
  check (leb val (size_max - (alignment - 1)))
  done ((val + (alignment - 1)) / alignment * alignment)

module _ {K V : Type 0} where
  -- the chains, none behind a null pointer
  abbrev pub chains : Hmap K V → List (Chain K V)
  chains m = elim m.buckets [ none ↦ [] | some bs ↦ bs ]

  -- ASSERT_HMAP
  abbrev pub assert_hmap : Hmap K V → Exec (Unit {0})
  assert_hmap m = check (
      ltb 0 m.key_size
      && ((if m.bucket_count == 0 then not (is_some m.buckets) else is_some m.buckets)
          && ((m.bucket_count == 0 || is_pow2 m.bucket_count)
              && (m.len == 0 || ltb 0 m.bucket_count))))

  -- node_bytes
  abbrev pub node_bytes : Hmap K V → ℕ
  node_bytes m = add_size (add_size node_size m.val_offset) m.val_size

  -- the bytes of the bucket array
  abbrev pub bucket_bytes : Hmap K V → ℕ
  bucket_bytes m = mul_size m.bucket_count pointer_size

  -- bucket_of
  pub bucket_of : Hmap K V → ℕ → Exec ℕ
  bucket_of m hash = do check (ltb 0 m.bucket_count); done (bit_and hash (m.bucket_count - 1))

  -- the chain that a bucket holds
  pub chain_at : List (Chain K V) → ℕ → Exec (Chain K V)
  chain_at bs i = do check (ltb i (length bs)); done (get_or bs i [])

  -- a node put in front of a chain
  pub link : List (Chain K V) → ℕ → Node K V → Exec (List (Chain K V))
  unfolding chain_at
  link bs i node = do c ← chain_at bs i; done (set bs i (node ∷ c))

  -- the nodes of one chain, and of all chains, moved to the buckets of a new array of `count`
  pub relink_chain : ℕ → Chain K V → List (Chain K V) → Exec (List (Chain K V))
  relink_chain count [] bs = done bs
  relink_chain count (node ∷ c) bs =
      link bs (bit_and node.hash (count - 1)) node >>= λ bs'. relink_chain count c bs'

  pub relink : ℕ → List (Chain K V) → List (Chain K V) → Exec (List (Chain K V))
  relink count [] bs = done bs
  relink count (c ∷ cs) bs = relink_chain count c bs >>= λ bs'. relink count cs bs'

  -- first_from
  pub first_from : List (Chain K V) → Option (Node K V)
  first_from [] = none
  first_from ([] ∷ cs) = first_from cs
  first_from ((node ∷ c) ∷ cs) = some node

module _ {K V : Type 0} (al : Al) where
  -- rehash
  pub rehash : Hmap K V → al.State → ℕ → Exec (Status × Hmap K V × al.State)
  rehash m st new_count = do
    check (ltb 0 new_count)
    check (is_pow2 new_count)
    let (granted, st') = Alloc.calloc al st new_count pointer_size
    let moved : Exec (Status × Hmap K V × al.State) = do
      bs ← relink new_count (chains m) (replicate new_count [])
      let m' : Hmap K V = record m { buckets = some bs; bucket_count = new_count }
      assert_hmap m'
      done (ok, m', Alloc.dealloc al st' (is_some m.buckets) (bucket_bytes m))
    if granted then moved else done (no_mem, m, st')

  -- reserve_one
  pub reserve_one : Hmap K V → al.State → Exec (Status × Hmap K V × al.State)
  reserve_one m st =
      let grown : Exec (Status × Hmap K V × al.State) = elim (ckd_mul m.bucket_count 2) [
        | none ↦ done (no_mem, m, st)
        | some n ↦ rehash m st n
      ] in
      if ltb m.len m.bucket_count
      then done (ok, m, st)
      else if m.bucket_count == 0
      then rehash m st buckets_base
      else grown

  -- tda_hmap_reserve
  pub reserve : Hmap K V → al.State → ℕ → Exec (Status × Hmap K V × al.State)
  reserve m st want = do
    assert_hmap m
    let asked : Exec (Status × Hmap K V × al.State) = do
      n ← round_up_pow2 want
      elim n [ none ↦ done (no_mem, m, st) | some count ↦ rehash m st count ]
    if leb want m.bucket_count then done (ok, m, st) else asked

  -- clear_nodes: what the allocator is left with, every node given back
  drop_chain : ℕ → Chain K V → al.State → al.State
  drop_chain bytes [] st = st
  drop_chain bytes (node ∷ c) st = drop_chain bytes c (Alloc.dealloc al st true bytes)

  drop_nodes : ℕ → List (Chain K V) → al.State → al.State
  drop_nodes bytes [] st = st
  drop_nodes bytes (c ∷ cs) st = drop_nodes bytes cs (drop_chain bytes c st)

  -- release_buckets
  pub release_buckets : Hmap K V → al.State → Hmap K V × al.State
  unfolding drop_nodes drop_chain
  release_buckets m st = (
    record m { buckets = none; bucket_count = 0; len = 0 },
    Alloc.dealloc al (drop_nodes (node_bytes m) (chains m) st) (is_some m.buckets) (bucket_bytes m),
  )

  -- tda_hmap_clear
  pub clear : Hmap K V → al.State → Exec (Hmap K V × al.State)
  unfolding drop_nodes drop_chain
  clear m st = do
    assert_hmap m
    let m' : Hmap K V = record m {
      buckets = elim m.buckets [ none ↦ none | some bs ↦ some (replicate m.bucket_count []) ];
      len = 0;
    }
    assert_hmap m'
    done (m', drop_nodes (node_bytes m) (chains m) st)

  -- tda_hmap_shrink_to_fit
  pub shrink_to_fit : Hmap K V → al.State → Exec (Status × Hmap K V × al.State)
  shrink_to_fit m st = do
    assert_hmap m
    let released : Exec (Status × Hmap K V × al.State) =
        let (m', st') = release_buckets m st in do assert_hmap m'; done (ok, m', st')
    let asked : Exec (Status × Hmap K V × al.State) = do
      n ← round_up_pow2 m.len
      elim n [
        | none ↦ done (ok, m, st)
        | some count ↦
            let smaller = rehash m st count in
            if leb m.bucket_count count then done (ok, m, st) else smaller
      ]
    if m.len == 0 then released else asked

  -- tda_hmap_drop of a map that is not null; `head_size` is sizeof(tda_HMap)
  pub drop : Hmap K V → ℕ → al.State → Exec al.State
  drop m head_size st = do
    assert_hmap m
    done (Alloc.dealloc al (release_buckets m st).1 true head_size)

module _ {K V : Type 0} (al : Al) (head_size : ℕ) where
  -- tda_hmap_new_raw_; the map is `none` on TDA_STATUS_ERR_NO_MEM
  pub new_raw : ℕ → ℕ → ℕ → al.State → Exec (Option (Hmap K V) × al.State)
  new_raw want key_size val_size st = do
    check (ltb 0 key_size)
    val_offset ← if val_size == 0 then done key_size else align_up key_size max_align
    let (got_head, st₁) = Alloc.alloc al st head_size
    let obj : Hmap K V = record {
      buckets = none;
      bucket_count = 0;
      len = 0;
      key_size = key_size;
      val_size = val_size;
      val_offset = val_offset;
    }
    let roomy : Exec (Option (Hmap K V) × al.State) = do
      (s, m, st₂) ← if ltb 0 want then reserve al obj st₁ want else done (ok, obj, st₁)
      let made : Exec (Option (Hmap K V) × al.State) = assert_hmap m >> done (some m, st₂)
      if not (is_ok s) then done (none, Alloc.dealloc al st₂ true head_size) else made
    let built : Exec (Option (Hmap K V) × al.State) =
        if not got_head then done (none, st₁) else roomy
    elim (ckd_add val_offset val_size) [ none ↦ done (none, st) | some kv_bytes ↦ built ]

  -- tda_hmap_new_cap and tda_hmap_new, where a value has at least one byte
  pub new_cap : ℕ → ℕ → ℕ → al.State → Exec (Option (Hmap K V) × al.State)
  new_cap want key_size val_size st = do check (ltb 0 val_size); new_raw want key_size val_size st

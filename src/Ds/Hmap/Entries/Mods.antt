-- ===== src/Ds/Hmap/Entries/Mods.antt =====
-- insert, get_or_insert and remove, against the mapping that the map holds.
use c_nad.Prelude.Array.{get_or}
use c_nad.Prelude.{
  ℕ, ◌-◌, ◌<◌, ◌≡◌, refl, sym, ap, ◌∙◌, ◌≢◌, inl, inr, Bool, true, false, not, Option, none, some,
  [], arith, ltb, if◌then◌else◌, ltb→lt, Bool-cases, set, done, Returns, Returns-bind, Returns-map,
  Returns-if,
}
use Prim.Native.Nat.{bit_and}
use c_nad.Alloc.{Al}
use c_nad.Core.Status.{Status, ok, no_mem, is_ok}
use c_nad.Ds.Block.{is_some}
use c_nad.Ds.Hmap.{Hmap, Node, chains}
use c_nad.Ds.Hmap.Entries.{
  find_node, is_of, write_in, write_val, val_of, add_node, insert, get_or_insert,
}
use c_nad.Ds.Hmap.Entries.Chains.{IsHashing, look, look_same, write_in-IsWritten}
use c_nad.Ds.Hmap.Entries.Tables.{home, home-lt, update, set-IsTable}
use c_nad.Ds.Hmap.Entries.Rehash.{Holds, assert_hmap-done}
use c_nad.Ds.Hmap.Entries.Lookup.{
  bucket_of-done, chain_at-done, find_node-val_of, val_of-is_some, bare-none,
}
use c_nad.Ds.Hmap.Entries.Adding.{Aligned, set-Holds, Added, add_node-Added}

is_some-none : {A : Type 0} (x : Option A) → is_some x ≡ false → x ≡ none
is_some-none none e = refl
is_some-none (some a) e = cc e

-- the old value where there is one
abbrev pub kept : {V : Type 0} → Option V → V → V
kept none val = val
kept (some old) val = old

module _ {K V : Type 0} (hasher : K → ℕ) (eq : K → K → Bool) (keys : IsHashing hasher eq) where
  -- the value of a key that the map has, replaced
  write_val-Holds :
      {m : Hmap K V} {f : K → Option V} (h : Holds hasher eq m f) (key : K) (val : V)
      → f key ≢ none
      → Returns
          (λ m'. Holds hasher eq m' (update hasher eq f key (some val)))
          (write_val hasher eq m key (hasher key) val)
  unfolding write_val
  write_val-Holds {m} {f} h key val there =
      let pos : 0 < m.bucket_count = elim (Bool-cases (ltb 0 m.bucket_count)) [
        | inl e ↦ ltb→lt _ _ e
        | inr e ↦ absurd (there (bare-none hasher eq keys h (ground arith) key))
      ] in
      let at = home hasher key m.bucket_count in
      let old = get_or (chains m) at [] in
      let w =
        write_in-IsWritten hasher eq keys key val old (h.table.hashed at)
          (λ e. there (sym (h.table.reads key) ∙ e)) in
      rw
        (
          bucket_of-done h (hasher key) pos,
          chain_at-done h at (home-lt hasher key m.bucket_count pos),
        )
        (
          _,
          refl,
          set-Holds hasher eq keys h m.len
              (set (chains m) at (write_in hasher eq (hasher key) key val old)) pos
              (set-IsTable hasher eq keys h.table pos key (some val) _ m.len w.hashed
                (omega (arith, w.size)) (λ q. ground (arith, w.counts q, h.table.once q at))
                w.reads),
        )

  -- What insert returns. With success the key is mapped to the value and `*out_is_new` tells
  -- whether it was there; without memory, which only a new key asks for, the mapping is the same.
  unfoldable pub Inserted :
      (al : Al) → (K → Option V) → K → V → Status × Option Bool × Hmap K V × al.State → Type 0
  Inserted al f key val (ok, new, m', st) =
      (new ≡ some (not (is_some (f key)))) × Holds hasher eq m' (update hasher eq f key (some val))
  Inserted al f key val (no_mem, new, m', st) = (new ≡ none) × (f key ≡ none) × Holds hasher eq m' f

  Added-as_new :
      (al : Al) (f : K → Option V) (key : K) (val : V)
      (r : Status × Option (Node K V) × Hmap K V × al.State)
      → f key ≡ none
      → Added hasher eq keys al f key val r
      → Inserted al f key val (r.0, (if is_ok r.0 then some true else none), r.2, r.3)
  unfolding Added Inserted
  Added-as_new al f key val (ok, n, m', st) e u = (rw e refl, u.3)
  Added-as_new al f key val (no_mem, n, m', st) e u = (refl, e, u.1)

  -- insert returns, on an allocator whose blocks are aligned: with success the key is mapped to the
  -- value, every other key to what it was, and
  -- `*out_is_new` tells whether the key was not there; when memory is refused, which happens to a new
  -- key only, every key is mapped to what it was.
  pub insert-Inserted :
      (al : Al) (align : Aligned al) {m : Hmap K V} {f : K → Option V} (h : Holds hasher eq m f)
      (st : al.State) (key : K) (val : V)
      → Returns {A = Status × Option Bool × Hmap K V × al.State}
          (Inserted al f key val)
          (insert hasher eq al m st key val)
  unfolding insert Inserted
  insert-Inserted al align {m} {f} h st key val = rw (assert_hmap-done h) (
      Returns-bind _ _ (find_node-val_of hasher eq keys h key) λ n (e, u').
        Returns-if (is_some n)
          (λ found.
            let there : is_some (f key) ≡ true =
              ap is_some (sym e) ∙ sym (val_of-is_some n) ∙ found in
            Returns-bind _ _ (write_val-Holds h key val (λ z. cc (there, z)))
              λ m' w. (_, refl, (rw there refl, w)))
          (λ missing.
            let absent : f key ≡ none =
              is_some-none (f key) (ap is_some (sym e) ∙ sym (val_of-is_some n) ∙ missing) in
            Returns-bind _ _ (add_node-Added hasher eq keys al align h st key val absent)
              λ r u. (_, refl, Added-as_new al f key val r absent u)))

  -- What get_or_insert returns: a node of the key, with the value that it had or else the given
  -- one, or no node.
  pub Got :
      (al : Al) → (K → Option V) → K → V → Status × Option (Node K V) × Hmap K V × al.State → Type 0
  Got al f key val (ok, n, m', st) =
      (find_node hasher eq m' key (hasher key) ≡ done n)
      × (is_of hasher eq key n ≡ true)
      × (val_of n ≡ some (kept (f key) val))
      × Holds hasher eq m' (update hasher eq f key (some (kept (f key) val)))
  Got al f key val (no_mem, n, m', st) = (n ≡ none) × (f key ≡ none) × Holds hasher eq m' f

  Added-as-Got :
      (al : Al) (f : K → Option V) (key : K) (val : V)
      (r : Status × Option (Node K V) × Hmap K V × al.State)
      → f key ≡ none
      → Added hasher eq keys al f key val r
      → Got al f key val r
  unfolding Added Got
  Added-as-Got al f key val (ok, n, m', st) e u = rw e u
  Added-as-Got al f key val (no_mem, n, m', st) e u = (u.0, e, u.1)

  -- a mapping with a key set to what it is
  pub update_same :
      {m : Hmap K V} {f : K → Option V} (h : Holds hasher eq m f) (key : K) (v : Option V)
      → f key ≡ v
      → Holds hasher eq m (update hasher eq f key v)
  update_same {m} {f} h key v e = record {
    keyed = h.keyed;
    table = record {
      width = h.table.width;
      entries = h.table.entries;
      hashed = h.table.hashed;
      once = h.table.once;
      at_home = h.table.at_home;
      reads = λ q. h.table.reads q ∙ elim (Bool-cases (eq key q)) [
        | inl same ↦ rw same (sym (f_same q same) ∙ e)
        | inr other ↦ rw other refl
      ];
    };
    owned = h.owned;
    pow2 = h.pow2;
    bytes = h.bytes;
  }
    where
      f_same : (q : K) → eq key q ≡ true → f key ≡ f q
      f_same q same =
          sym (h.table.reads key)
          ∙ ap (λ k. look hasher eq key (get_or (chains m) (bit_and k (m.bucket_count - 1)) []))
              (keys.alike key q same)
          ∙ look_same hasher eq keys key q (get_or (chains m) (home hasher q m.bucket_count) [])
              same
          ∙ h.table.reads q

  -- get_or_insert returns, on an allocator whose blocks are aligned: with success the node that
  -- a search for the key then finds, which has its hash, a key equal to it, and the old value where
  -- there was one or else the given one; memory is refused to a new key only, and then every key is mapped to what it was.
  pub get_or_insert-Got :
      (al : Al) (align : Aligned al) {m : Hmap K V} {f : K → Option V} (h : Holds hasher eq m f)
      (st : al.State) (key : K) (val : V)
      → Returns {A = Status × Option (Node K V) × Hmap K V × al.State}
          (Got al f key val)
          (get_or_insert hasher eq al m st key val)
  unfolding get_or_insert Got
  get_or_insert-Got al align {m} {f} h st key val =
      let (n, run, (e, same)) = find_node-val_of hasher eq keys h key in
      rw (assert_hmap-done h, run) (got n run e same)
    where
      got :
          (n : Option (Node K V))
          → find_node hasher eq m key (hasher key) ≡ done n
          → val_of n ≡ f key
          → is_of hasher eq key n ≡ is_some n
          → Returns {A = Status × Option (Node K V) × Hmap K V × al.State}
              (Got al f key val)
              (elim n [
                | none ↦ add_node hasher eq al m st key val (hasher key)
                | some node ↦ done (ok, some node, m, st)
              ])
      got none run e same =
          Returns-map _ (add_node-Added hasher eq keys al align h st key val (sym e))
            λ r u. Added-as-Got al f key val r (sym e) u
      got (some node) run e same =
          (_, refl, rw (← e) (run, same, refl, update_same h key (some node.val) (sym e)))

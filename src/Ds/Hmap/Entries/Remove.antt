-- ===== src/Ds/Hmap/Entries/Remove.antt =====
-- remove, against the mapping that the map holds.
use c_nad.Alloc
use c_nad.Prelude.Array.{get_or}
use c_nad.Prelude.{
  ℕ, ◌-◌, ◌<◌, ◌≡◌, refl, sym, ◌∙◌, ◌≢◌, Bool, true, false, Option, none, some, [], arith, ◌==◌,
  length, set, done, ◌>>◌, Returns, Returns-if,
}
use c_nad.Alloc.{Al}
use c_nad.Ds.Block.{is_some}
use c_nad.Ds.Hmap.{Hmap, Chain, chains, assert_hmap, node_bytes}
use c_nad.Ds.Hmap.Entries.{remove}
use c_nad.Ds.Hmap.Entries.Chains.{IsHashing, Unlinked, unlink-Unlinked}
use c_nad.Ds.Hmap.Entries.Tables.{nodes-set, home, home-lt, update, set-IsTable}
use c_nad.Ds.Hmap.Entries.Rehash.{Holds, assert_hmap-done}
use c_nad.Ds.Hmap.Entries.Lookup.{bucket_of-done, chain_at-done, bare-none}
use c_nad.Ds.Hmap.Entries.Mods.{update_same}
use c_nad.Ds.Hmap.Entries.Adding.{set-Holds}

module _ {K V : Type 0} (hasher : K → ℕ) (eq : K → K → Bool) (keys : IsHashing hasher eq) (al : Al)
    {m : Hmap K V} {f : K → Option V} (h : Holds hasher eq m f) (st : al.State) (key : K) where
  -- what remove returns: whether the key was there, and the mapping without it
  unfoldable pub Removed : Bool × Hmap K V × al.State → Type 0
  Removed (was, m', st') =
      (was ≡ is_some (f key)) × Holds hasher eq m' (update hasher eq f key none)

  without :
      (r : Option (Chain K V))
      → 0 < m.bucket_count
      → Unlinked hasher eq key (get_or (chains m) (home hasher key m.bucket_count) []) r
      → Returns {A = Bool × Hmap K V × al.State} Removed (elim r [
        | none ↦ done (false, m, st)
        | some c ↦ (do
          let m' : Hmap K V = record m {
            buckets = some (set (chains m) (home hasher key m.bucket_count) c);
            len = m.len - 1;
          }
          assert_hmap m'
          done (true, m', Alloc.dealloc al st true (node_bytes m)))
      ])
  unfolding Removed Unlinked
  without none pos u =
      let absent : f key ≡ none = sym (h.table.reads key) ∙ u in
      (_, refl, (rw absent refl, update_same hasher eq keys h key none absent))
  without (some c) pos (hashed, size, few, reads, there) =
      let at = home hasher key m.bucket_count in
      let in_m : at < length (chains m) =
        omega (arith, h.table.width, home-lt hasher key m.bucket_count pos) in
      let made = set-Holds hasher eq keys h (m.len - 1) (set (chains m) at c) pos (
        set-IsTable hasher eq keys h.table pos key none c (m.len - 1) hashed
          (omega (arith, size, nodes-set (chains m) at [] in_m, h.table.entries))
          (λ q. ground (arith, few q, h.table.once q at)) (reads (λ q. h.table.once q at))) in
      rw (assert_hmap-done made)
        (_, refl, (sym (present (f key) (λ e. there (h.table.reads key ∙ e))), made))
    where
      present : (x : Option V) → x ≢ none → is_some x ≡ true
      present none p = absurd (p refl)
      present (some v) p = refl

  -- remove returns whether the key was there, and leaves every other key mapped to what it was and
  -- this one to nothing.
  pub remove-Removed :
      Returns {A = Bool × Hmap K V × al.State} Removed (remove hasher eq al m st key)
  unfolding remove Removed
  remove-Removed = rw (assert_hmap-done h) (
      Returns-if (m.bucket_count == 0)
        (λ bare.
          let absent = bare-none hasher eq keys h (ground arith) key in
          (_, refl, (rw absent refl, update_same hasher eq keys h key none absent)))
        (λ some_buckets.
          let pos : 0 < m.bucket_count = ground arith in
          let at = home hasher key m.bucket_count in
          rw
            (
              bucket_of-done h (hasher key) pos,
              chain_at-done h at (home-lt hasher key m.bucket_count pos),
            )
            (without _ pos
              (unlink-Unlinked hasher eq keys key (get_or (chains m) at []) (h.table.hashed at)))))

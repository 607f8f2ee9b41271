-- ===== src/Ds/Hset/Keys.antt =====
-- The operations of a set against the keys that it has.
use c_nad.Prelude.{
  ℕ, ◌≡◌, refl, sym, ap, ◌∙◌, Bool, true, false, not, Option, none, some, arith, if◌then◌else◌,
  done, Returns, Returns-bind,
}
use c_nad.Alloc.{Al}
use c_nad.Core.Status.{Status, ok, no_mem}
use c_nad.Ds.Block.{is_some}
use c_nad.Ds.Hmap.Entries.Chains.{IsHashing}
use c_nad.Ds.Hmap.Entries.Tables.{update}
use c_nad.Ds.Hmap.Entries.Rehash.{Holds}
use c_nad.Ds.Hmap.Entries.Lookup.{get-contains}
use c_nad.Ds.Hmap.Entries.Mods.{Inserted, insert-Inserted}
use c_nad.Ds.Hmap.Entries.Adding.{Aligned}
use c_nad.Ds.Hmap.Entries.Remove.{Removed, remove-Removed}
use c_nad.Ds.Hmap.{Hmap}
use c_nad.Ds.Hset.{Hset, contains, insert, remove}

module _ {K : Type 0} (hasher : K → ℕ) (eq : K → K → Bool) where
  -- `s` has the keys that pass `has`
  pub record IsSetOf (has : K → Bool) (s : Hset K) : Type 0 where
    pub mapping : K → Option (Unit {0})
    pub held : Holds hasher eq s.map mapping
    pub keys : (q : K) → is_some (mapping q) ≡ has q

  -- What insert returns: with success the set has the key too and `*out_is_new` tells whether it had
  -- not, without memory, which only a new key asks for, the set has the same keys.
  pub Added : (al : Al) → (K → Bool) → K → Status × Option Bool × Hset K × al.State → Type 0
  Added al has key (ok, new, s, st) =
      (new ≡ some (not (has key))) × IsSetOf (λ q. if eq key q then true else has q) s
  Added al has key (no_mem, new, s, st) = (new ≡ none) × (has key ≡ false) × IsSetOf has s

  -- what remove returns
  pub Taken : (al : Al) → (K → Bool) → K → Bool × Hset K × al.State → Type 0
  Taken al has key (was, s, st) =
      (was ≡ has key) × IsSetOf (λ q. if eq key q then false else has q) s

  module _ (law : IsHashing hasher eq) (al : Al) (align : Aligned al) {has : K → Bool} {s : Hset K}
      (h : IsSetOf has s) where
    -- contains tells whether the set has a key. insert returns, on an allocator whose blocks are aligned: with success the set has the key and
    -- the others, and `*out_is_new` tells whether it had not; when memory is refused, which happens
    -- to a new key only, it has the keys that it had. remove returns whether the set had the key, and
    -- leaves it the others.
    pub contains-insert-remove-IsSetOf :
        (st : al.State) (key : K)
        → (contains hasher eq s key ≡ done (has key))
          × Returns (Added al has key) (insert hasher eq al s st key)
          × Returns (Taken al has key) (remove hasher eq al s st key)
    unfolding contains insert remove Added Taken Inserted Removed
    contains-insert-remove-IsSetOf st key = (
      (get-contains hasher eq law h.held key).1 ∙ ap done (h.keys key),
      Returns-bind _ _ (insert-Inserted hasher eq law al align h.held st key tt)
          λ r u. (_, refl, added_of r u),
      Returns-bind _ _ (remove-Removed hasher eq law al h.held st key) λ r u. (
        _,
        refl,
        (
          u.0 ∙ h.keys key,
          record {
            mapping = update hasher eq h.mapping key none;
            held = u.1;
            keys = λ q. ground (arith, h.keys q);
          },
        ),
      ),
    )
      where
        added_of :
            (r : Status × Option Bool × Hmap K (Unit {0}) × al.State)
            → Inserted hasher eq law al h.mapping key tt r
            → Added al has key (r.0, r.1, record { map = r.2 }, r.3)
        added_of (ok, new, m, st') u = (
          rw (h.keys key) at u.0,
          record {
            mapping = update hasher eq h.mapping key (some tt);
            held = u.1;
            keys = λ q. ground (arith, h.keys q);
          },
        )
        added_of (no_mem, new, m, st') u = (
          u.0,
          sym (h.keys key) ∙ ap is_some u.1,
          record { mapping = h.mapping; held = u.2; keys = h.keys },
        )

-- ===== src/Ds/Hset.antt =====
-- src/ds/hset.c: a map whose values have no bytes, behind a handle. `map_size` and `head_size` are
-- sizeof(tda_HMap) and sizeof(tda_HSet); a constructor returns `none` on TDA_STATUS_ERR_NO_MEM. The
-- pointer that ASSERT_HSET tests is a field here, so it holds of every set.
pub mod Keys
use c_nad.Alloc
use c_nad.Ds.Hmap
use c_nad.Ds.Hmap.Entries
use c_nad.Prelude.{
  ℕ, Bool, true, Option, none, some, ltb, if◌then◌else◌, Exec, done, ◌>>=◌, ◌>>◌, check,
}
use c_nad.Alloc.{Al}
use c_nad.Core.Status.{Status}
use c_nad.Ds.Hmap.{Hmap}

-- struct tda_HSet
pub record Hset (K : Type 0) : Type 0 where
  pub map : Hmap K (Unit {0})

module _ {K : Type 0} (hasher : K → ℕ) (eq : K → K → Bool) where
  -- tda_hset_contains
  pub contains : Hset K → K → Exec Bool
  contains s key = Hmap.Entries.contains hasher eq s.map key

  module _ (al : Al) where
    -- tda_hset_insert
    pub insert : Hset K → al.State → K → Exec (Status × Option Bool × Hset K × al.State)
    insert s st key = do
      (r, new, m, st') ← Hmap.Entries.insert hasher eq al s.map st key tt
      done (r, new, record { map = m }, st')

    -- tda_hset_remove
    pub remove : Hset K → al.State → K → Exec (Bool × Hset K × al.State)
    remove s st key = do
      (was, m, st') ← Hmap.Entries.remove hasher eq al s.map st key
      done (was, record { map = m }, st')

module _ {K : Type 0} (al : Al) where
  -- tda_hset_clear
  pub clear : Hset K → al.State → Exec (Hset K × al.State)
  clear s st = do (m, st') ← Hmap.clear al s.map st; done (record { map = m }, st')

  -- tda_hset_reserve
  pub reserve : Hset K → al.State → ℕ → Exec (Status × Hset K × al.State)
  reserve s st want = do
    (r, m, st') ← Hmap.reserve al s.map st want
    done (r, record { map = m }, st')

  -- tda_hset_shrink_to_fit
  pub shrink_to_fit : Hset K → al.State → Exec (Status × Hset K × al.State)
  shrink_to_fit s st = do
    (r, m, st') ← Hmap.shrink_to_fit al s.map st
    done (r, record { map = m }, st')

  -- tda_hset_drop of a set that is not null
  pub drop : Hset K → ℕ → ℕ → al.State → Exec al.State
  drop s map_size head_size st = do
    st' ← Hmap.drop al s.map map_size st
    done (Alloc.dealloc al st' true head_size)

module _ {K : Type 0} (al : Al) (map_size head_size : ℕ) where
  -- wrap: a map whose set is refused is dropped
  pub wrap : Hmap K (Unit {0}) → al.State → Exec (Option (Hset K) × al.State)
  wrap m st =
      let (granted, st') = Alloc.alloc al st head_size in
      let refused : Exec (Option (Hset K) × al.State) = do
        st'' ← Hmap.drop al m map_size st'
        done (none, st'')
      in if granted then done (some (record { map = m }), st') else refused

  -- a map made and wrapped
  wrap_made : Option (Hmap K (Unit {0})) × al.State → Exec (Option (Hset K) × al.State)
  unfolding wrap
  wrap_made (none, st) = done (none, st)
  wrap_made (some m, st) = wrap m st

  -- tda_hset_new_cap
  pub new_cap : ℕ → ℕ → al.State → Exec (Option (Hset K) × al.State)
  unfolding wrap_made
  new_cap want key_size st = do
    check (ltb 0 key_size)
    r ← Hmap.new_raw al map_size want key_size 0 st
    wrap_made r

  -- tda_hset_new
  pub new : ℕ → al.State → Exec (Option (Hset K) × al.State)
  unfolding new_cap
  new key_size st = new_cap 0 key_size st

-- ===== src/Ds/Hmap/Entries/Rehash.antt =====
-- When a map holds a mapping of keys to values, and the growth of its bucket array.
use c_nad.Alloc
use c_nad.Core.Size.{size_mod}
use c_nad.Prelude.{
  ℕ, ◌*◌, ◌<◌, ◌≡◌, refl, sym, inl, inr, Bool, true, ◌||◌, Option, some, List, [], ◌∷◌, arith, ltb,
  ◌==◌, ltb→lt, lt→ltb, Bool-cases, length, done, Returns, Returns-bind, Returns-map, Returns-if,
  Returns-check,
}
use c_nad.Alloc.{Al}
use c_nad.Core.Bits.{bit_and-double}
use c_nad.Core.Status.{Status, ok, no_mem}
use c_nad.Ds.Block.{is_some}
use c_nad.Ds.Hmap.{
  Hmap, chains, assert_hmap, is_pow2, rehash, reserve_one, buckets_base, pointer_size,
}
use c_nad.Ds.Hmap.Entries.Chains.{IsHashing}
use c_nad.Ds.Hmap.Entries.Tables.{nodes, IsTable}
use c_nad.Ds.Hmap.Entries.Relink.{relink-replicate}

nodes-nil : {A : Type 0} (bs : List (List A)) → length bs ≡ 0 → nodes bs ≡ 0
unfolding nodes
nodes-nil [] e = refl
nodes-nil (c ∷ bs) e = absurd (omega arith)

-- `m` maps each key as `f` does: ASSERT_HMAP's conditions, and a sound table of `len` nodes
pub record Holds {K V : Type 0} (hasher : K → ℕ) (eq : K → K → Bool) (m : Hmap K V)
    (f : K → Option V) : Type 0 where
  pub keyed : 0 < m.key_size
  pub table : IsTable hasher eq m.bucket_count m.len f (chains m)
  pub owned : is_some m.buckets ≡ ltb 0 m.bucket_count
  pub pow2 : (m.bucket_count == 0 || is_pow2 m.bucket_count) ≡ true
  pub bytes : m.bucket_count < size_mod

-- what an operation that may allocate returns
abbrev pub Outcome : Al → Type 0 → Type 0 → Type 0
Outcome al K V = Status × Hmap K V × al.State

-- On success `P` holds of the map; on a refusal the map is as it was.
abbrev pub Settled :
    {K V : Type 0} (al : Al) → Hmap K V → (Hmap K V → Type 0) → Outcome al K V → Type 0
Settled al m P (ok, m', st) = P m'
Settled al m P (no_mem, m', st) = m' ≡ m

pub Settled-map :
    {K V : Type 0} (al : Al) (m : Hmap K V) {P Q : Hmap K V → Type 0} (r : Outcome al K V)
    → ((m' : Hmap K V) → P m' → Q m')
    → Settled al m P r
    → Settled al m Q r
Settled-map al m (ok, m', st) f p = f m' p
Settled-map al m (no_mem, m', st) f p = p

module _ {K V : Type 0} {hasher : K → ℕ} {eq : K → K → Bool} {m : Hmap K V} {f : K → Option V}
    (h : Holds hasher eq m f) where
  -- A well-formed map passes the assertion that every function starts with.
  pub assert_hmap-done : assert_hmap m ≡ done tt
  assert_hmap-done =
      ground (arith, h.keyed, h.owned, h.pow2, nodes-nil (chains m), h.table.width, h.table.entries)

-- the mapping of `m` with `n` buckets, and the same shape of nodes
pub record Rehashed {K V : Type 0} (hasher : K → ℕ) (eq : K → K → Bool) (m : Hmap K V)
    (f : K → Option V) (n : ℕ) (m' : Hmap K V) : Type 0 where
  pub holds : Holds hasher eq m' f
  pub count : m'.bucket_count ≡ n
  pub len_kept : m'.len ≡ m.len

module _ {K V : Type 0} (hasher : K → ℕ) (eq : K → K → Bool) (keys : IsHashing hasher eq) (al : Al)
    {m : Hmap K V} {f : K → Option V} (h : Holds hasher eq m f) where
  -- rehash returns: with success every key is mapped to what it was, in `n` buckets, else the map is
  -- as it was.
  pub rehash-Rehashed :
      (st : al.State) (n : ℕ)
      → 0 < n
      → is_pow2 n ≡ true
      → n < size_mod
      → Returns {A = Outcome al K V} (Settled al m (Rehashed hasher eq m f n)) (rehash al m st n)
  unfolding rehash
  rehash-Rehashed st n pos two fits = Returns-check _ (lt→ltb 0 n pos) (
      Returns-check _ two (
        Returns-if (Alloc.calloc al st n pointer_size).0
          (λ granted. Returns-bind _ _ (relink-replicate hasher eq keys h.table n pos) λ bs t.
            let held : Holds hasher eq (record m { buckets = some bs; bucket_count = n }) f =
              record {
                keyed = h.keyed;
                table = t;
                owned = sym (lt→ltb 0 n pos);
                pow2 = ground (arith, two);
                bytes = fits;
              } in
            rw (assert_hmap-done held)
              (_, refl, record { holds = held; count = refl; len_kept = refl }))
          (λ refused. (_, refl, refl))))

  -- With success there is a bucket for one more entry.
  pub reserve_one-Settled :
      (st : al.State)
      → Returns {A = Outcome al K V}
          (Settled al m (λ m'. Holds hasher eq m' f × (0 < m'.bucket_count)))
          (reserve_one al m st)
  unfolding reserve_one
  reserve_one-Settled st =
      Returns-if (ltb m.len m.bucket_count) (λ room. (_, refl, (h, ground arith)))
        (λ full.
          Returns-if (m.bucket_count == 0)
            (λ bare.
              Returns-map _ (rehash-Rehashed st buckets_base (omega arith) refl (omega arith))
                λ r u. Settled-map al m r (λ m' v. (v.holds, omega (arith, v.count))) u)
            (λ some_buckets. elim (Bool-cases (ltb (m.bucket_count * 2) size_mod)) [
              | inl e ↦ rw e (
                  let two : is_pow2 m.bucket_count ≡ true = rw some_buckets at h.pow2 in
                  let more : is_pow2 (m.bucket_count * 2) ≡ true =
                    ground (arith, two, bit_and-double m.bucket_count) in
                  Returns-map _
                    (rehash-Rehashed st (m.bucket_count * 2) (ground arith) more (ltb→lt _ _ e))
                    λ r u. Settled-map al m r (λ m' v. (v.holds, ground (arith, v.count))) u)
              | inr e ↦ rw e (_, refl, refl)
            ]))

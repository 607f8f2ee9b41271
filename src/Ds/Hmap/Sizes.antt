-- ===== src/Ds/Hmap/Sizes.antt =====
-- The size of the bucket array: reserve, shrink_to_fit, clear and new_raw.
use c_nad.Core.Size.{size_mod}
use c_nad.Prelude.Array.{get_or}
use c_nad.Prelude.{
  ℕ, zero, suc, ◌*◌, ◌≤◌, ◌<◌, ◌≡◌, refl, sym, ◌∙◌, ◌⊎◌, inl, inr, Bool, true, Option, none, some,
  List, [], ◌∷◌, arith, ltb, leb, ◌==◌, if◌then◌else◌, ltb→lt, leb→le, Bool-cases, replicate, done,
  Returns, Returns-bind, Returns-map, Returns-if,
}
use c_nad.Alloc.{Al}
use c_nad.Core.Bits.{bit_and-double}
use c_nad.Core.Status.{ok, no_mem}
use c_nad.Ds.Block.{is_some}
use c_nad.Ds.Hmap.{
  Hmap, Chain, chains, is_pow2, round_up_from, round_up_pow2, buckets_base, rehash, reserve, clear,
  release_buckets, shrink_to_fit,
}
use c_nad.Ds.Hmap.Entries.Chains.{IsHashing, hits, look}
use c_nad.Ds.Hmap.Entries.Tables.{home, nodes}
use c_nad.Ds.Hmap.Entries.Relink.{empty-IsTable}
use c_nad.Ds.Hmap.Entries.Rehash.{
  Holds, assert_hmap-done, Outcome, Settled, Settled-map, rehash-Rehashed,
}

-- `n` doubled `k` times
abbrev doubled : ℕ → ℕ → ℕ
doubled zero n = n
doubled (suc k) n = doubled k (n * 2)

-- A power of two from the base and `want` on, and the base or less than twice `want`, so the least
-- one; nothing when size_t has none.
pub IsRoundUp : ℕ → Option ℕ → Type 0
IsRoundUp want none = size_mod < want * 2
IsRoundUp want (some n) =
    (is_pow2 n ≡ true)
    × (want ≤ n)
    × (n < size_mod)
    × ((n ≡ buckets_base) ⊎ (n < want * 2))
    × (buckets_base ≤ n)

round_up_from-IsRoundUp :
    (fuel n want : ℕ)
    → size_mod ≤ doubled fuel n
    → is_pow2 n ≡ true
    → n < size_mod
    → (n ≡ buckets_base) ⊎ (n < want * 2)
    → buckets_base ≤ n
    → Returns (IsRoundUp want) (round_up_from fuel n want)
unfolding round_up_from IsRoundUp
round_up_from-IsRoundUp zero n want big two fits least pos = absurd (omega arith)
round_up_from-IsRoundUp (suc fuel) n want big two fits least pos =
    Returns-if (ltb n want)
      (λ short. elim (Bool-cases (ltb (n * 2) size_mod)) [
        | inl e ↦ rw e (
            round_up_from-IsRoundUp fuel (n * 2) want big (ground (arith, two, bit_and-double n))
              (ltb→lt _ _ e) (inr (ground arith)) (omega arith))
        | inr e ↦ rw e (_, refl, ground arith)
      ])
      (λ enough. (_, refl, (two, ground arith, fits, least, pos)))

pub round_up_pow2-IsRoundUp : (want : ℕ) → Returns (IsRoundUp want) (round_up_pow2 want)
unfolding round_up_pow2
round_up_pow2-IsRoundUp want =
    round_up_from-IsRoundUp 64 buckets_base want (omega arith) refl (omega arith) (inl refl)
      (omega arith)

get_or-nodes_zero : {A : Type 0} (bs : List (List A)) (i : ℕ) → nodes bs ≡ 0 → get_or bs i [] ≡ []
unfolding nodes get_or
get_or-nodes_zero [] i e = refl
get_or-nodes_zero ([] ∷ bs) zero e = refl
get_or-nodes_zero ((x ∷ c) ∷ bs) zero e = absurd (omega arith)
get_or-nodes_zero (c ∷ bs) (suc i) e = get_or-nodes_zero bs i (omega arith)

module _ {K V : Type 0} (hasher : K → ℕ) (eq : K → K → Bool) (keys : IsHashing hasher eq) (al : Al)
    {m : Hmap K V} {f : K → Option V} (h : Holds hasher eq m f) where
  released-Holds :
      ((q : K) → f q ≡ none)
      → Holds hasher eq (record m { buckets = none; bucket_count = 0; len = 0 }) f
  unfolding hits look get_or nodes
  released-Holds none_of = record {
    keyed = h.keyed;
    table = record {
      width = refl;
      entries = refl;
      hashed = λ i. tt;
      once = λ q i. omega arith;
      at_home = λ q i e. refl;
      reads = λ q. sym (none_of q);
    };
    owned = refl;
    pow2 = refl;
    bytes = omega arith;
  }

  -- a map without entries maps nothing
  none_at : m.len ≡ 0 → (q : K) → f q ≡ none
  unfolding look
  none_at e q =
      let nothing =
        get_or-nodes_zero (chains m) (home hasher q m.bucket_count) (h.table.entries ∙ e) in
      sym (h.table.reads q) ∙ rw nothing refl

  emptied-Holds :
      (b : Option (List (Chain K V)))
      → is_some b ≡ ltb 0 m.bucket_count
      → Holds hasher eq
          (record m {
            buckets = elim b [ none ↦ none | some bs ↦ some (replicate m.bucket_count []) ];
            len = 0;
          })
          (λ q. none)
  unfolding hits look get_or nodes
  emptied-Holds none e = record {
    keyed = h.keyed;
    table = record {
      width = ground (arith, e);
      entries = refl;
      hashed = λ i. tt;
      once = λ q i. omega arith;
      at_home = λ q i z. refl;
      reads = λ q. refl;
    };
    owned = e;
    pow2 = h.pow2;
    bytes = h.bytes;
  }
  emptied-Holds (some bs) e = record {
    keyed = h.keyed;
    table = empty-IsTable hasher eq m.bucket_count;
    owned = e;
    pow2 = h.pow2;
    bytes = h.bytes;
  }

  -- reserve and shrink_to_fit return, and every key is mapped to what it was. With success there are
  -- buckets for `want` entries, and shrinking leaves no more buckets than there were; with a refusal
  -- the map is as it was.
  pub reserve-shrink_to_fit-Settled :
      (st : al.State) (want : ℕ)
      → Returns {A = Outcome al K V}
          (Settled al m (λ m'. Holds hasher eq m' f × (want ≤ m'.bucket_count)))
          (reserve al m st want)
        × Returns {A = Outcome al K V}
            (Settled al m (λ m'. Holds hasher eq m' f × (m'.bucket_count ≤ m.bucket_count)))
            (shrink_to_fit al m st)
  unfolding reserve shrink_to_fit release_buckets IsRoundUp
  reserve-shrink_to_fit-Settled st want = (
    rw (assert_hmap-done h) (
        Returns-if (leb want m.bucket_count) (λ enough. (_, refl, (h, leb→le _ _ enough)))
          (λ more. Returns-bind _ _ (round_up_pow2-IsRoundUp want) asked)),
    rw (assert_hmap-done h) (
        Returns-if (m.len == 0)
          (λ empty.
            let held = released-Holds (none_at (ground arith)) in
            rw (assert_hmap-done held) (_, refl, (held, omega arith)))
          (λ some_len. Returns-bind _ _ (round_up_pow2-IsRoundUp m.len) fewer)),
  )
    where
      asked :
          (n : Option ℕ)
          → IsRoundUp want n
          → Returns {A = Outcome al K V}
              (Settled al m (λ m'. Holds hasher eq m' f × (want ≤ m'.bucket_count)))
              (elim n [ none ↦ done (no_mem, m, st) | some count ↦ rehash al m st count ])
      asked none u = (_, refl, refl)
      asked (some n) (two, enough, fits, least, pos) =
          Returns-map _ (rehash-Rehashed hasher eq keys al h st n (omega arith) two fits)
            λ r. Settled-map al m r (λ m' v. (v.holds, omega (arith, v.count)))

      fewer :
          (n : Option ℕ)
          → IsRoundUp m.len n
          → Returns {A = Outcome al K V}
              (Settled al m (λ m'. Holds hasher eq m' f × (m'.bucket_count ≤ m.bucket_count)))
              (elim n [
                | none ↦ done (ok, m, st)
                | some count ↦
                    let smaller = rehash al m st count in
                    if leb m.bucket_count count then done (ok, m, st) else smaller
              ])
      fewer none u = (_, refl, (h, omega arith))
      fewer (some n) (two, enough, fits, least, pos) =
          Returns-if (leb m.bucket_count n) (λ e. (_, refl, (h, omega arith)))
            (λ e.
              Returns-map _ (rehash-Rehashed hasher eq keys al h st n (omega arith) two fits)
                λ r. Settled-map al m r (λ m' v. (v.holds, ground (arith, v.count))))

  -- clear returns: every key is mapped to nothing, and the buckets stay.
  pub clear-Holds :
      (st : al.State)
      → Returns {A = Hmap K V × al.State}
          (λ r. Holds hasher eq r.0 (λ q. none) × (r.0.bucket_count ≡ m.bucket_count))
          (clear al m st)
  unfolding clear
  clear-Holds st =
      let held = emptied-Holds m.buckets h.owned in
      rw (assert_hmap-done h) (rw (assert_hmap-done held) (_, refl, (held, refl)))

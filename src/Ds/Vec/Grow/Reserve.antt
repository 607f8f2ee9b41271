-- ===== src/Ds/Vec/Grow/Reserve.antt =====
-- reserve, grow and their callers: the elems stay, and a refusal changes nothing.
use c_nad.Core.Size.{size_mod, size_max}
use c_nad.Prelude.{
  ℕ, ◌+◌, ◌*◌, ◌≤◌, ◌<◌, ◌≡◌, refl, ◌∙◌, ◌≢◌, inl, inr, true, ◌||◌, some, List, arith, ltb, leb,
  ◌==◌, if◌then◌else◌, ltb→lt, leb→le, leb→lt, lt→ltb, ==_iff, Bool-cases, done, Returns,
  Returns-bind, Returns-map, Returns-if,
}
use c_nad.Core.Status.{ok, no_mem, is_ok}
use c_nad.Alloc.{Al}
use c_nad.Alloc.Ledger.{realloc-Returns}
use c_nad.Ds.Block.{is_some, resized, length-resized, slot-resized}
use c_nad.Ds.Vec.{Vec, block, next_cap, cap_bytes}
use c_nad.Ds.Vec.Holds.{Holds, assert_vec-done}
use c_nad.Ds.Vec.Grow.{Outcome, reserve, grow, reserve_one, reserve_for}

-- On success `P` holds of the vec; on a refusal the vec is as it was.
abbrev pub Settled : {A : Type 0} (al : Al) → Vec A → (Vec A → Type 0) → Outcome al A → Type 0
Settled al v P (ok, w, st) = P w
Settled al v P (no_mem, w, st) = w ≡ v

-- `w` holds what `v` does, with room for `n` elems
pub record Roomy {A : Type 0} (v : Vec A) (xs : List A) (n : ℕ) (w : Vec A) : Type 0 where
  pub holds : Holds w xs
  pub enough : n ≤ w.cap
  pub size_kept : w.elem_size ≡ v.elem_size

module _ {A : Type 0} (al : Al) {v : Vec A} {xs : List A} (h : Holds v xs) where
  resized-Roomy :
      (n : ℕ)
      → v.cap < n
      → n * v.elem_size < size_mod
      → Roomy v xs n (record v { slots = some (resized (block v) n); cap = n })
  resized-Roomy n p q = record {
    holds = record {
      sized = h.sized;
      count = h.count;
      room = omega (arith, h.room);
      bytes = q;
      full = length-resized (block v) n;
      owned = ground arith;
      elems = λ i r. slot-resized (block v) n i (omega (arith, h.room)) ∙ h.elems i r;
    };
    enough = omega arith;
    size_kept = refl;
  }

  pub block_or_empty : (is_some v.slots || cap_bytes v == 0) ≡ true
  block_or_empty = ground (arith, h.owned)

  -- reserve returns; with success there is room for `n` elems, and the elems are the same.
  pub reserve-Settled :
      (st : al.State) (n : ℕ)
      → Returns {A = Outcome al A} (Settled al v (Roomy v xs n)) (reserve al v st n)
  unfolding reserve
  reserve-Settled st n = rw (assert_vec-done h) (
      Returns-if (leb n v.cap)
        (λ fits. (_, refl, record { holds = h; enough = leb→le _ _ fits; size_kept = refl }))
        (λ more. elim (Bool-cases (ltb (n * v.elem_size) size_mod)) [
          | inl e ↦ rw e (
              Returns-bind _ _
                (realloc-Returns al st (is_some v.slots) (cap_bytes v) (n * v.elem_size)
                  block_or_empty)
                λ r u. (
                  _,
                  refl,
                  elim (Bool-cases r.0) [
                    | inl g ↦ rw g (resized-Roomy n (leb→lt _ _ more) (ltb→lt _ _ e))
                    | inr g ↦ rw g refl
                  ],
                ))
          | inr e ↦ rw e (_, refl, refl)
        ]))

pub Settled-map :
    {A : Type 0} (al : Al) (v : Vec A) {P Q : Vec A → Type 0} (r : Outcome al A)
    → ((w : Vec A) → P w → Q w)
    → Settled al v P r
    → Settled al v Q r
Settled-map al v (ok, w, st) f p = f w p
Settled-map al v (no_mem, w, st) f p = p

module _ {A : Type 0} (al : Al) {v : Vec A} {xs : List A} (h : Holds v xs) where
  pub Roomy-le : (m n : ℕ) (w : Vec A) → m ≤ n → Roomy v xs n w → Roomy v xs m w
  Roomy-le m n w p r = record {
    holds = r.holds;
    enough = omega (arith, r.enough);
    size_kept = r.size_kept;
  }

  cap-le-size_max : v.cap ≤ size_max
  cap-le-size_max = grind (arith, h.bytes, h.sized)

  next_cap-grows : v.cap ≢ size_max → v.cap < next_cap v
  unfolding next_cap
  next_cap-grows p = ground (arith, cap-le-size_max)

  -- what grow does with the answer to the eager request
  retry-Settled :
      (wanted : ℕ) (r : Outcome al A)
      → v.cap + 1 ≤ wanted
      → Settled al v (Roomy v xs wanted) r
      → Returns {A = Outcome al A} (Settled al v (Roomy v xs (v.cap + 1))) (
          if is_ok r.0 || leb wanted (r.1.cap + 1)
          then done r
          else reserve al r.1 r.2 (r.1.cap + 1))
  retry-Settled wanted (ok, w, st) p u = (_, refl, Roomy-le (v.cap + 1) wanted w p u)
  retry-Settled wanted (no_mem, w, st) p u = rw u (
      Returns-if (leb wanted (v.cap + 1)) (λ e. (_, refl, refl))
        (λ e. reserve-Settled al h st (v.cap + 1)))

  pub grow-Settled :
      (st : al.State)
      → v.len ≡ v.cap
      → Returns {A = Outcome al A} (Settled al v (Roomy v xs (v.cap + 1))) (grow al v st)
  unfolding grow
  grow-Settled st full = rw ((==_iff v.len v.cap).1 full) (
      Returns-if (v.cap == size_max) (λ last. (_, refl, refl))
        (λ more.
          Returns-bind _ _ (reserve-Settled al h st (next_cap v))
            λ r u. retry-Settled (next_cap v) r (omega (arith, next_cap-grows (ground arith))) u))

  -- With success there is room for one more elem.
  pub reserve_one-Settled :
      (st : al.State)
      → Returns {A = Outcome al A} (Settled al v (Roomy v xs (v.len + 1))) (reserve_one al v st)
  unfolding reserve_one
  reserve_one-Settled st =
      Returns-if (v.len == v.cap)
        (λ full.
          let e : v.len ≡ v.cap = (==_iff v.len v.cap).0 full in
          Returns-map _ (grow-Settled st e)
            λ r. Settled-map al v r (λ w. Roomy-le (v.len + 1) (v.cap + 1) w (omega arith)))
        (λ free. (_, refl, record { holds = h; enough = ground (arith, h.room); size_kept = refl }))

  retry_for-Settled :
      (eager n : ℕ) (r : Outcome al A)
      → n ≤ eager
      → Settled al v (Roomy v xs eager) r
      → Returns {A = Outcome al A}
          (Settled al v (Roomy v xs n))
          (if is_ok r.0 then done r else reserve al r.1 r.2 n)
  retry_for-Settled eager n (ok, w, st) p u = (_, refl, Roomy-le n eager w p u)
  retry_for-Settled eager n (no_mem, w, st) p u = rw u (reserve-Settled al h st n)

  pub reserve_for-Settled :
      (st : al.State) (n : ℕ)
      → v.cap < n
      → Returns {A = Outcome al A} (Settled al v (Roomy v xs n)) (reserve_for al v st n)
  unfolding reserve_for
  reserve_for-Settled st n p = rw (lt→ltb v.cap n p) (
      Returns-if (ltb n (next_cap v))
        (λ e.
          Returns-bind _ _ (reserve-Settled al h st (next_cap v))
            λ r u. retry_for-Settled (next_cap v) n r (omega (arith, ltb→lt _ _ e)) u)
        (λ e. reserve-Settled al h st n))

-- ===== src/Ds/Deque/Grow/Reserve.antt =====
-- reserve, grow and their callers: the elems stay, and a refusal changes nothing.
use c_nad.Alloc
use c_nad.Core.Size.{size_mod, size_max}
use c_nad.Prelude.{
  ℕ, ◌+◌, ◌*◌, ◌≤◌, ◌<◌, ◌≡◌, refl, ◌≢◌, inl, inr, true, ◌||◌, Option, none, some, List, arith, ltb,
  leb, ◌==◌, if◌then◌else◌, ltb→lt, leb→le, leb→lt, lt→ltb, ==_iff, Bool-cases, length-replicate,
  done, Returns, Returns-bind, Returns-map, Returns-if,
}
use c_nad.Core.Status.{ok, no_mem, is_ok}
use c_nad.Alloc.{Al}
use c_nad.Ds.Block.{fresh}
use c_nad.Ds.Deque.{Deque, next_cap}
use c_nad.Ds.Deque.Holds.{Holds, block_max, assert_deque-done}
use c_nad.Ds.Deque.Grow.{Outcome, renew, reserve, grow, reserve_one, reserve_for}
use c_nad.Ds.Deque.Grow.Unroll.{IsUnrolled, copy_out-IsUnrolled}

-- A block that the allocator hands out is not larger than an object may be.
abbrev pub Limited : Al → Type 0
Limited al = (st : al.State) (n : ℕ) → (Alloc.alloc al st n).0 ≡ true → n < block_max

-- On success `P` holds of the deque; on a refusal the deque is as it was.
abbrev pub Settled : {A : Type 0} (al : Al) → Deque A → (Deque A → Type 0) → Outcome al A → Type 0
Settled al d P (ok, e, st) = P e
Settled al d P (no_mem, e, st) = e ≡ d

pub Settled-map :
    {A : Type 0} (al : Al) (d : Deque A) {P Q : Deque A → Type 0} (r : Outcome al A)
    → ((e : Deque A) → P e → Q e)
    → Settled al d P r
    → Settled al d Q r
Settled-map al d (ok, e, st) f p = f e p
Settled-map al d (no_mem, e, st) f p = p

-- `e` holds what `d` does, with room for `n` elems; the ring of a new block starts in slot 0
pub record Roomy {A : Type 0} (d : Deque A) (xs : List A) (n : ℕ) (e : Deque A) : Type 0 where
  pub holds : Holds e xs
  pub enough : n ≤ e.cap
  pub start : e.head ≡ (if ltb d.cap n then 0 else d.head)
  pub size_kept : e.elem_size ≡ d.elem_size

module _ {A : Type 0} (al : Al) {d : Deque A} {xs : List A} (h : Holds d xs) where
  -- the ring laid out from slot 0 of a new block
  unrolled-Holds :
      (n : ℕ) (b : List (Option A))
      → 0 < n
      → d.len ≤ n
      → n * d.elem_size < block_max
      → IsUnrolled d n b
      → Holds (record d { slots = some b; cap = n; head = 0 }) xs
  unrolled-Holds n b p q r u = record {
    ring = record {
      sized = h.ring.sized;
      room = q;
      bytes = r;
      full = u.size;
      owned = ground arith;
      turned = omega arith;
    };
    count = h.count;
    elems = λ i s. ground (arith, u.same i, h.elems i);
  }

  -- what the deque holds, with `n` slots exactly
  pub renew-Holds :
      (st : al.State) (n : ℕ)
      → 0 < n
      → d.len ≤ n
      → n * d.elem_size < block_max
      → Returns {A = Outcome al A}
          (Settled al d
            (λ e. Holds e xs × (e.cap ≡ n) × (e.elem_size ≡ d.elem_size) × (e.head ≡ 0)))
          (renew al d st n)
  unfolding renew
  renew-Holds st n p q r =
      Returns-bind _ _
        (copy_out-IsUnrolled h.ring (fresh n) n (length-replicate {A = Option A} n none) q)
        λ b u.
          let g = unrolled-Holds n b p q r u in
          rw (assert_deque-done g.ring) (_, refl, (g, refl, refl, refl))

  -- reserve returns, on an allocator that hands out no block larger than an object may be: with
  -- success there is room for `n` elems, the elems are the same, and where the capacity was less than
  -- `n` they start in slot 0, else where they did; without success the deque is as it was.
  pub reserve-Roomy :
      (limit : Limited al) (st : al.State) (n : ℕ)
      → Returns {A = Outcome al A} (Settled al d (Roomy d xs n)) (reserve al d st n)
  unfolding reserve
  reserve-Roomy limit st n = rw (assert_deque-done h.ring) (
      Returns-if (leb n d.cap)
        (λ fits. (
          _,
          refl,
          record { holds = h; enough = leb→le _ _ fits; start = ground arith; size_kept = refl },
        ))
        (λ more. elim (Bool-cases (ltb (n * d.elem_size) size_mod)) [
          | inl e ↦ rw e (
              Returns-if (Alloc.alloc al st (n * d.elem_size)).0
                (λ granted.
                  Returns-map _
                    (renew-Holds (Alloc.alloc al st (n * d.elem_size)).1 n
                      (omega (arith, leb→lt _ _ more)) (omega (arith, leb→lt _ _ more, h.ring.room))
                      (limit st (n * d.elem_size) granted))
                    λ r. Settled-map al d r λ e g. record {
                      holds = g.0;
                      enough = omega (arith, g.1);
                      start = ground (arith, g.3);
                      size_kept = g.2;
                    })
                (λ refused. (_, refl, refl)))
          | inr e ↦ rw e (_, refl, refl)
        ]))

module _ {A : Type 0} (al : Al) (limit : Limited al) {d : Deque A} {xs : List A}
    (h : Holds d xs) where
  pub Roomy-le : (m n : ℕ) (e : Deque A) → d.cap < m → m ≤ n → Roomy d xs n e → Roomy d xs m e
  Roomy-le m n e more p r = record {
    holds = r.holds;
    enough = omega (arith, r.enough);
    start = ground (arith, r.start);
    size_kept = r.size_kept;
  }

  cap-le-size_max : d.cap ≤ size_max
  cap-le-size_max = grind (arith, h.ring.bytes, h.ring.sized)

  next_cap-grows : d.cap ≢ size_max → d.cap < next_cap d
  unfolding next_cap
  next_cap-grows p = ground (arith, cap-le-size_max)

  -- what grow does with the answer to the eager request
  retry-Settled :
      (wanted : ℕ) (r : Outcome al A)
      → d.cap + 1 ≤ wanted
      → Settled al d (Roomy d xs wanted) r
      → Returns {A = Outcome al A} (Settled al d (Roomy d xs (d.cap + 1))) (
          if is_ok r.0 || leb wanted (r.1.cap + 1)
          then done r
          else reserve al r.1 r.2 (r.1.cap + 1))
  retry-Settled wanted (ok, e, st) p u = (_, refl, Roomy-le (d.cap + 1) wanted e (omega arith) p u)
  retry-Settled wanted (no_mem, e, st) p u = rw u (
      Returns-if (leb wanted (d.cap + 1)) (λ e. (_, refl, refl))
        (λ e. reserve-Roomy al h limit st (d.cap + 1)))

  pub grow-Settled :
      (st : al.State)
      → d.len ≡ d.cap
      → Returns {A = Outcome al A} (Settled al d (Roomy d xs (d.cap + 1))) (grow al d st)
  unfolding grow
  grow-Settled st full = rw ((==_iff d.len d.cap).1 full) (
      Returns-if (d.cap == size_max) (λ last. (_, refl, refl))
        (λ more.
          Returns-bind _ _ (reserve-Roomy al h limit st (next_cap d))
            λ r u. retry-Settled (next_cap d) r (omega (arith, next_cap-grows (ground arith))) u))

  -- With success there is room for one more elem.
  pub reserve_one-Settled :
      (st : al.State)
      → Returns {A = Outcome al A} (Settled al d (Roomy d xs (d.len + 1))) (reserve_one al d st)
  unfolding reserve_one
  reserve_one-Settled st =
      Returns-if (d.len == d.cap)
        (λ full.
          let e : d.len ≡ d.cap = (==_iff d.len d.cap).0 full in
          Returns-map _ (grow-Settled st e) λ r.
            Settled-map al d r
              (λ f. Roomy-le (d.len + 1) (d.cap + 1) f (omega arith) (omega arith)))
        (λ free. (
          _,
          refl,
          record {
            holds = h;
            enough = ground (arith, h.ring.room);
            start = ground (arith, h.ring.room);
            size_kept = refl;
          },
        ))

  retry_for-Settled :
      (eager n : ℕ) (r : Outcome al A)
      → d.cap < n
      → n ≤ eager
      → Settled al d (Roomy d xs eager) r
      → Returns {A = Outcome al A}
          (Settled al d (Roomy d xs n))
          (if is_ok r.0 then done r else reserve al r.1 r.2 n)
  retry_for-Settled eager n (ok, e, st) more p u = (_, refl, Roomy-le n eager e more p u)
  retry_for-Settled eager n (no_mem, e, st) more p u = rw u (reserve-Roomy al h limit st n)

  pub reserve_for-Settled :
      (st : al.State) (n : ℕ)
      → d.cap < n
      → Returns {A = Outcome al A} (Settled al d (Roomy d xs n)) (reserve_for al d st n)
  unfolding reserve_for
  reserve_for-Settled st n p = rw (lt→ltb d.cap n p) (
      Returns-if (ltb n (next_cap d))
        (λ e.
          Returns-bind _ _ (reserve-Roomy al h limit st (next_cap d))
            λ r u. retry_for-Settled (next_cap d) n r p (omega (arith, ltb→lt _ _ e)) u)
        (λ e. reserve-Roomy al h limit st n))

-- ===== src/Alloc/Ledger.antt =====
-- What an allocator owes: the bytes of the blocks that it has handed out and not got back.
use c_nad.Prelude.{
  ℕ, ◌+◌, ◌-◌, ◌≤◌, ◌≡◌, refl, sym, ◌∙◌, inl, inr, Bool, true, false, ◌||◌, Option, none, some,
  arith, ◌==◌, if◌then◌else◌, Bool-cases, done, Returns, Returns-if,
}
use c_nad.Alloc.{Al, alloc, realloc, dealloc}

-- alloc_cb and dealloc_cb keep the books: a granted request adds its bytes, a refused one nothing,
-- and a block given back takes its bytes off. `owed` is what the allocator has handed out.
pub record IsLedger (al : Al) (owed : al.State → ℕ) : Type 0 where
  pub alloc_books :
      (st : al.State) (n : ℕ)
      → owed (al.alloc_cb st n).1 ≡ owed st + (if (al.alloc_cb st n).0 then n else 0)
  pub dealloc_books :
      (st : al.State) (n : ℕ) → n ≤ owed st → owed (al.dealloc_cb st n) + n ≡ owed st

if_false : {A : Type 0} (a b : A) (t : Bool) → t ≡ false → (if t then a else b) ≡ b
if_false a b t e = rw e refl

-- realloc returns for a block, and for a null pointer of size 0.
pub realloc-Returns :
    (al : Al) (st : al.State) (ptr : Bool) (old new : ℕ)
    → (ptr || old == 0) ≡ true
    → Returns {A = Bool × al.State} (λ r. Unit {0}) (realloc al st ptr old new)
unfolding realloc
realloc-Returns al st ptr old new h =
    rw h (Returns-if (new == 0) (λ e. (_, refl, tt)) (λ e. go al.realloc_cb))
  where
    go :
        (cb : Option (al.State → Bool → ℕ → ℕ → Bool × al.State))
        → Returns {A = Bool × al.State}
            (λ r. Unit {0})
            (elim cb [
              | none ↦
                  let (granted, st') = alloc al st new in
                  done (if granted then (true, dealloc al st' ptr old) else (false, st'))
              | some f ↦ done (f st ptr old new)
            ])
    go none = (_, refl, tt)
    go (some f) = (_, refl, tt)

module _ (al : Al) (owed : al.State → ℕ) (books : IsLedger al owed) where
  pub owed-dealloc :
      (st : al.State) (ptr : Bool) (n : ℕ)
      → n ≤ owed st
      → (ptr ≡ false → n ≡ 0)
      → owed (dealloc al st ptr n) + n ≡ owed st
  unfolding dealloc
  owed-dealloc st true n h e = books.dealloc_books st n h
  owed-dealloc st false n h e = omega (arith, e refl)

  pub owed-alloc :
      (st : al.State) (n : ℕ)
      → owed (alloc al st n).1 ≡ owed st + (if (alloc al st n).0 then n else 0)
  unfolding alloc
  owed-alloc st n = ground (arith, books.alloc_books st n)

  -- the new block taken and the old one given back
  traded :
      (st : al.State) (ptr : Bool) (old new : ℕ)
      → old ≤ owed st
      → (ptr ≡ false → old ≡ 0)
      → (let (granted, st') = alloc al st new in
          let r : Bool × al.State =
            if granted then (true, dealloc al st' ptr old) else (false, st') in
          owed r.1 ≡ (if r.0 then owed st - old + new else owed st))
  traded st ptr old new h e =
      let r = alloc al st new in
      elim (Bool-cases r.0) [
        | inl g ↦ rw g (ground (arith, owed-alloc st new, owed-dealloc r.1 ptr old, e))
        | inr g ↦ rw g (ground (arith, owed-alloc st new))
      ]

  -- What realloc changes the books by on an allocator that leaves realloc out, where the wrapper
  -- allocates, copies and gives back: a new size of 0 takes the old bytes off, another one that is
  -- granted trades the old bytes for the new ones, and one that is refused leaves the books alone.
  pub owed-realloc :
      al.realloc_cb ≡ none
      → (st : al.State) (ptr : Bool) (old new : ℕ) → old ≤ owed st
      → (ptr ≡ false → old ≡ 0)
      → Returns {A = Bool × al.State}
          (λ r.
            owed r.1
            ≡ (if new == 0 then owed st - old else if r.0 then owed st - old + new else owed st))
          (realloc al st ptr old new)
  unfolding realloc
  owed-realloc w st ptr old new h e =
      let owns : (ptr || old == 0) ≡ true = ground (arith, e) in
      rw (owns, w)
        (Returns-if (new == 0)
          (λ freed. (_, refl, rw freed (omega (arith, owed-dealloc st ptr old h e))))
          (λ asked. (_, refl, traded st ptr old new h e ∙ sym (if_false _ _ (new == 0) asked))))

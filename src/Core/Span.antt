-- ===== src/Core/Span.antt =====
-- include/tda/core/span.h: a view over contiguous elems, as the list of those elems.
-- One elem is the value of its elem_size bytes; `trap` is a failed assertion.
use c_nad.Prelude
use c_nad.Prelude.Array.{
  get_or, get_elem?-get_or, get_or_ext, exchange, length-exchange, get_or-exchange,
}
use c_nad.Prelude.{
  ℕ, ◌+◌, ◌-◌, ◌≤◌, ◌<◌, ◌≡◌, sym, ap, ◌∙◌, inl, inr, List, ◌++◌, arith, ltb, leb, ◌==◌,
  if◌then◌else◌, lt→ltb, le→leb, ==_iff, Bool-cases, length, get_elem?, take, drop, Exec, done,
  ◌>>=◌, ◌>>◌, check, or_trap,
}

module _ {ℓ} {A : Type ℓ} where
  -- tda_span_get: the elem at `idx`
  unfoldable pub get : List A → ℕ → Exec A
  get s idx = or_trap (get_elem? s idx)

  -- tda_span_set
  unfoldable pub set : List A → ℕ → A → Exec (List A)
  set s idx val = do check (ltb idx (length s)); done (Prelude.set s idx val)

  -- tda_span_sub, tda_span_sub_mut
  unfoldable pub sub : List A → ℕ → ℕ → Exec (List A)
  sub s idx count = do
    check (leb idx (length s))
    check (leb count (length s - idx))
    done (take count (drop idx s))

  -- A call on tda_span_sub_mut(s, idx, count) writes through to `s`.
  unfoldable pub on_sub : List A → ℕ → ℕ → (List A → Exec (List A)) → Exec (List A)
  unfolding sub
  on_sub s idx count f = do
    part ← sub s idx count
    part' ← f part
    done (take idx s ++ part' ++ drop (idx + count) s)

  -- tda_span_swap_elems
  unfoldable pub swap_elems : List A → ℕ → ℕ → Exec (List A)
  unfolding get
  swap_elems s i j = do
    check (ltb i (length s))
    check (ltb j (length s))
    if i == j
        then done s
        else (do a ← get s i; b ← get s j; done (Prelude.set (Prelude.set s i b) j a))

module _ {ℓ} {A : Type ℓ} (d : A) (s : List A) where
  -- Reading inside the span returns its entry.
  pub get-done : (i : ℕ) → i < length s → get s i ≡ done (get_or s i d)
  unfolding get
  get-done i h = rw (get_elem?-get_or s i d h)

  -- So does a write.
  pub set-done : (i : ℕ) (v : A) → i < length s → set s i v ≡ done (Prelude.set s i v)
  unfolding set
  set-done i v h = rw (lt→ltb i (length s) h)

  exchange_self : (i : ℕ) → i < length s → exchange d s i i ≡ s
  exchange_self i h = get_or_ext d _ s (length-exchange d s i i) λ c p.
      get_or-exchange d s i i h h c ∙ elim (Bool-cases (i == c)) [
        | inl e ↦ rw e (ap (λ k. get_or s k d) ((==_iff i c).0 e))
        | inr e ↦ rw e
      ]

  -- Exchanging two entries inside the span returns the exchanged list.
  pub swap_elems-done :
      (i j : ℕ) → i < length s → j < length s → swap_elems s i j ≡ done (exchange d s i j)
  unfolding swap_elems
  swap_elems-done i j hi hj = elim (Bool-cases (i == j)) [
    | inl same ↦
        let e : i ≡ j = (==_iff i j).0 same in
        rw (lt→ltb i _ hi, lt→ltb j _ hj, same) (rw (← e) (ap done (sym (exchange_self i hi))))
    | inr differ ↦
        rw (
          lt→ltb i _ hi,
          lt→ltb j _ hj,
          differ,
          get_elem?-get_or s i d hi,
          get_elem?-get_or s j d hj,
        )
  ]

  -- A sub-span inside the span is the entries from `idx` on.
  pub sub-done :
      (idx count : ℕ) → idx + count ≤ length s → sub s idx count ≡ done (take count (drop idx s))
  unfolding sub
  sub-done idx count h =
      rw (le→leb idx (length s) (omega arith), le→leb count (length s - idx) (omega arith))

  -- A call on the first `n` entries leaves those behind them.
  pub on_sub-prefix :
      (n : ℕ) (f : List A → Exec (List A)) (t : List A)
      → n ≤ length s
      → f (take n s) ≡ done t
      → on_sub s 0 n f ≡ done (t ++ drop n s)
  unfolding on_sub
  on_sub-prefix n f t h e =
      let from_front : 0 + n ≡ n = omega arith in rw (sub-done 0 n (omega arith), e, from_front)

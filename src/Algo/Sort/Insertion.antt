-- ===== src/Algo/Sort/Insertion.antt =====
-- How a round of insertion sort moves one elem down over a run: by swaps, or by one memmove.
use mathlib.Core.List.Perm
use c_nad.Core.Span
use c_nad.Prelude.Array.{
  length-perm, get_or, get_or-set, get_or-take, get_or-append_left, get_or-append_right,
  get_or-drop, get_or_ext, exchange, length-exchange, get_or-exchange, exchange-perm, passing,
}
use c_nad.Prelude.{
  ℕ, zero, suc, ◌+◌, ◌-◌, ◌≤◌, ◌<◌, ◌≡◌, refl, sym, ap, ◌∙◌, inl, inr, Bool, false, ◌&&◌, List, [],
  ◌∷◌, ◌++◌, Perm, arith, ltb, leb, ◌==◌, if◌then◌else◌, Bool-cases, length, set, take, drop,
  length-append, length-set, length-take, length-drop, Returns, Returns-map,
}
use c_nad.Algo.Sort.{swap_down, slide_up}

module _ {A : Type 0} (d : A) where
  -- An exchange of neighbours of which one fails the test leaves those that pass in order.
  passing-exchange :
      (test : A → Bool) (s : List A) (k : ℕ)
      → suc k < length s
      → (test (get_or s k d) && test (get_or s (suc k) d)) ≡ false
      → passing test (exchange d s k (suc k)) ≡ passing test s
  unfolding passing get_or
  passing-exchange test [] k p e = absurd (omega arith)
  passing-exchange test (x ∷ []) k p e = absurd (omega arith)
  passing-exchange test (x ∷ (y ∷ s)) zero p e = elim (Bool-cases (test x)) [
    | inl f ↦ ground (arith, e, f)
    | inr f ↦ ground (arith, f)
  ]
  passing-exchange test (x ∷ s) (suc k) p e =
      ground (arith, passing-exchange test s k (omega arith) e)

  -- `t` is `s` with the entry at `j + n` moved down to `j`, over entries that no test sees with it
  pub record Slid (s : List A) (j n : ℕ) (t : List A) : Type 0 where
    pub same : Perm t s
    pub at :
        (k : ℕ)
        → get_or t k d ≡ (
            if ltb k j
            then get_or s k d
            else if k == j
            then get_or s (j + n) d
            else if leb k (j + n)
            then get_or s (k - 1) d
            else get_or s k d)
    pub stable :
        (test : A → Bool)
        → ((k : ℕ) → j ≤ k → k < j + n → (test (get_or s k d) && test (get_or s (j + n) d)) ≡ false)
        → passing test t ≡ passing test s

  pub Slid-zero : (s : List A) (j : ℕ) → Slid s j 0 s
  Slid-zero s j = record { same = Perm.rfl; at = λ k. ground arith; stable = λ test p. refl }

  Slid-exchange :
      (s : List A) (j n : ℕ) (t : List A)
      → suc (j + n) < length s
      → Slid (exchange d s (j + n) (suc (j + n))) j n t
      → Slid s j (suc n) t
  Slid-exchange s j n t p u =
      let moved = get_or-exchange d s (j + n) (suc (j + n)) (omega arith) p in
      let top : j + suc n ≡ suc (j + n) = omega arith in
      let lower : (k : ℕ)
          → k < j + n
          → get_or (exchange d s (j + n) (suc (j + n))) k d ≡ get_or s k d =
        λ k b. ground (arith, moved k) in
      let upper : get_or (exchange d s (j + n) (suc (j + n))) (j + n) d ≡ get_or s (suc (j + n)) d =
        ground (arith, moved (j + n)) in
      record {
        same = Perm.trans u.same (exchange-perm d s (j + n) (suc (j + n)) (omega arith) p);
        at = λ k. rw top (ground (arith, u.at k, moved k, moved (j + n), moved (k - 1)));
        stable = λ test q.
            u.stable test (λ k a b. rw (lower k b, upper) (rw top at (q k a (omega arith))))
            ∙ passing-exchange test s (j + n) p (rw top at (q (j + n) (omega arith) (omega arith)));
      }

  pub swap_down-Slid :
      (n : ℕ) (s : List A) (j : ℕ) → j + n < length s → Returns (Slid s j n) (swap_down n s j)
  unfolding swap_down
  swap_down-Slid zero s j p = (s, refl, Slid-zero s j)
  swap_down-Slid (suc n) s j p =
      rw (Span.swap_elems-done d s (j + n) (suc (j + n)) (omega arith) (omega arith)) (
        Returns-map _
          (swap_down-Slid n (exchange d s (j + n) (suc (j + n))) j
            (omega (arith, length-exchange d s (j + n) (suc (j + n)))))
          λ t u. Slid-exchange s j n t (omega arith) u)

  -- the memmove, entry by entry
  pub length-slide_up :
      (s : List A) (j n : ℕ) → j + n < length s → length (slide_up s j n) ≡ length s
  length-slide_up s j n p = omega (
    arith,
    length-append (take (j + 1) s) (take n (drop j s) ++ drop (j + 1 + n) s),
    length-append (take n (drop j s)) (drop (j + 1 + n) s),
    length-take (j + 1) s,
    length-take n (drop j s),
    length-drop j s,
    length-drop (j + 1 + n) s,
  )

  get_or-slide_up :
      (s : List A) (j n k : ℕ)
      → j + n < length s
      → get_or (slide_up s j n) k d ≡ (
          if ltb k (j + 1)
          then get_or s k d
          else if leb k (j + n)
          then get_or s (k - 1) d
          else get_or s k d)
  get_or-slide_up s j n k p =
      let front : length (take (j + 1) s) ≡ j + 1 = omega (arith, length-take (j + 1) s) in
      let middle : length (take n (drop j s)) ≡ n =
        omega (arith, length-take n (drop j s), length-drop j s) in
      let rest = take n (drop j s) ++ drop (j + 1 + n) s in
      elim (Bool-cases (ltb k (j + 1))) [
        | inl e ↦ rw e (
            get_or-append_left d (take (j + 1) s) rest k (ground arith)
            ∙ get_or-take d (j + 1) s k (ground arith))
        | inr e ↦
            rw (e, get_or-append_right d (take (j + 1) s) rest k (ground arith), front)
              (elim (Bool-cases (leb k (j + n))) [
                | inl f ↦ rw f (
                    get_or-append_left d (take n (drop j s)) _ (k - (j + 1)) (ground arith)
                    ∙ get_or-take d n (drop j s) (k - (j + 1)) (ground arith)
                    ∙ get_or-drop d j s (k - (j + 1))
                    ∙ ap (λ i. get_or s i d) (ground arith))
                | inr f ↦
                    rw
                      (
                        f,
                        get_or-append_right d (take n (drop j s)) (drop (j + 1 + n) s) (k - (j + 1))
                            (ground arith),
                        middle,
                      )
                      (get_or-drop d (j + 1 + n) s (k - (j + 1) - n)
                        ∙ ap (λ i. get_or s i d) (ground arith))
              ])
      ]

  -- The elem set aside and put back below the moved ones is where the swaps bring it.
  pub set_aside-Slid :
      (s : List A) (j n : ℕ)
      → j + n < length s
      → Slid s j n (set (slide_up s j n) j (get_or s (j + n) d))
  set_aside-Slid s j n p =
      let (t, run, u) = swap_down-Slid n s j p in
      let size = length-slide_up s j n p in
      let in_s : j < length (slide_up s j n) = omega (arith, size) in
      let put = get_or-set d (slide_up s j n) j in
      let e : t ≡ set (slide_up s j n) j (get_or s (j + n) d) =
        get_or_ext d t _ (length-perm u.same ∙ sym (length-set (slide_up s j n) j _ ∙ size)) (λ k q.
          ground (arith, u.at k, put k (get_or s (j + n) d) in_s, get_or-slide_up s j n k p)) in
      rw e at u

-- ===== src/Algo/Modify/Keep.antt =====
-- remove_if keeps what the predicate refuses, unique the first of each run, replace_if all others.
use c_nad.Core.Span
use c_nad.Prelude.Array.{passing, drop-set, take-set, set-same, drop-cons}
use c_nad.Prelude.{
  ℕ, zero, suc, ◌+◌, ◌-◌, ◌≤◌, ◌<◌, ◌≡◌, refl, sym, ap, ◌∙◌, inl, inr, Bool, not, some, List, [],
  ◌∷◌, ◌++◌, map, append-nil, append_assoc, arith, ltb, ◌==◌, if◌then◌else◌, lt→ltb, le→ltb, ==_iff,
  Bool-cases, length, get_elem?, set, take, drop, length-set, length-drop, take-append-drop,
  get_elem?-set_self, done, Returns, Returns-bind, Returns-map, Returns-if,
}
use c_nad.Algo.Modify.{
  key_matches, put, unique_from, unique, remove_if_from, remove_if, remove, replace_if_from,
  replace_if, replace,
}

-- the first of each run of equal entries, after `last`
unfoldable pub unique_after : {A : Type 0} → (A → A → Bool) → A → List A → List A
unique_after eq last [] = []
unique_after eq last (x ∷ xs) =
    let skip = unique_after eq last xs in
    let keep = x ∷ unique_after eq x xs in if eq last x then skip else keep

-- the reference for unique: an entry stays when it differs from the last one kept
unfoldable pub unique_list : {A : Type 0} → (A → A → Bool) → List A → List A
unfolding unique_after
unique_list eq [] = []
unique_list eq (x ∷ xs) = x ∷ unique_after eq x xs

module _ {A : Type 0} where
  -- `r.0` entries are kept, in front of a span as long as before
  pub record IsKept (s kept : List A) (r : ℕ × List A) : Type 0 where
    pub front : take r.0 r.1 ≡ kept
    pub count : r.0 ≤ length s
    pub size : length r.1 ≡ length s

  -- the elem written to the end of what is kept
  record IsPut (u : List A) (write read : ℕ) (x : A) (rest v : List A) : Type 0 where
    pub front : take (write + 1) v ≡ take write u ++ (x ∷ [])
    pub rest_kept : drop (read + 1) v ≡ rest
    pub size : length v ≡ length u
    pub at_end : get_elem? v write ≡ some x

  put-IsPut :
      (u : List A) (write read : ℕ) {x : A} {rest : List A}
      → write ≤ read
      → drop read u ≡ x ∷ rest
      → Returns (IsPut u write read x rest) (put u write read x)
  put-IsPut u write read {x} {rest} p e =
      let (at, in_u, after) = drop-cons u read e in
      let next : read + 1 ≡ suc read = omega arith in
      let up : write + 1 ≡ suc write = omega arith in
      let written : IsPut u write read x rest (set u write x) = record {
        front = rw up (take-set u write x (omega arith));
        rest_kept = rw next (drop-set u write (suc read) x (omega arith) ∙ after);
        size = length-set u write x;
        at_end = get_elem?-set_self u write x (omega arith);
      } in
      Returns-if (write == read)
        (λ same.
          let here : get_elem? u write ≡ some x =
            ap (get_elem? u) ((==_iff write read).0 same) ∙ at in
          (u, refl, rw (set-same u write here) at written))
        (λ apart. (_, Span.set-done x u write x (omega arith), written))

  remove_if_from-IsKept :
      (test : A → Bool) (fuel : ℕ) (u : List A) (write read : ℕ) (rest : List A)
      → write ≤ read
      → drop read u ≡ rest
      → length rest < fuel
      → write + length rest ≤ length u
      → Returns
          (IsKept u (take write u ++ passing (λ x. not (test x)) rest))
          (remove_if_from fuel write read u test)
  unfolding remove_if_from passing Span.get
  remove_if_from-IsKept test zero u write read rest p e f g = absurd (omega arith)
  remove_if_from-IsKept test (suc fuel) u write read [] p e f g =
      let end : length u ≤ read = omega (arith, length-drop read u, ap length e) in
      Returns-if (ltb read (length u)) (λ more. absurd (ground arith))
        (λ no_more. (
          _,
          refl,
          record { front = sym (append-nil (take write u)); count = omega arith; size = refl },
        ))
  remove_if_from-IsKept test (suc fuel) u write read (x ∷ rest) p e f g =
      let (at, in_u, after) = drop-cons u read e in
      let next : read + 1 ≡ suc read = omega arith in
      rw (lt→ltb read (length u) in_u, at)
        (Returns-if (test x)
          (λ dropped. rw dropped (
            remove_if_from-IsKept test fuel u write (read + 1) rest (omega arith) (rw next after)
              (omega arith) (omega arith)))
          (λ kept. Returns-bind _ _ (put-IsPut u write read p e) λ v a.
            Returns-map _
              (remove_if_from-IsKept test fuel v (write + 1) (read + 1) rest (omega arith)
                a.rest_kept (omega arith) (omega (arith, a.size)))
              λ r b. record {
                front = b.front ∙ rw (kept, a.front) (append_assoc (take write u) (x ∷ []) _);
                count = omega (arith, b.count, a.size);
                size = b.size ∙ a.size;
              }))

  -- remove_if returns how many entries the predicate refuses, and has them in front in their order.
  pub remove_if-IsKept :
      (s : List A) (test : A → Bool)
      → Returns (IsKept s (passing (λ x. not (test x)) s)) (remove_if s test)
  unfolding remove_if
  remove_if-IsKept s test =
      remove_if_from-IsKept test (length s + 1) s 0 0 s (omega arith) refl (omega arith)
        (omega arith)

  -- the same for remove and the entries equal to the key
  pub remove-IsKept :
      (s : List A) (key : A) (eq : A → A → Bool)
      → Returns (IsKept s (passing (λ x. not (eq x key)) s)) (remove s key eq)
  unfolding remove
  remove-IsKept s key eq = remove_if-IsKept s (key_matches key eq)

  unique_from-IsKept :
      (eq : A → A → Bool) (fuel : ℕ) (u : List A) (write read : ℕ) (last : A) (rest : List A)
      → 0 < write
      → write ≤ read
      → get_elem? u (write - 1) ≡ some last
      → drop read u ≡ rest
      → length rest < fuel
      → write + length rest ≤ length u
      → Returns
          (IsKept u (take write u ++ unique_after eq last rest))
          (unique_from fuel write read u eq)
  unfolding unique_from unique_after Span.get
  unique_from-IsKept eq zero u write read last rest n p l e f g = absurd (omega arith)
  unique_from-IsKept eq (suc fuel) u write read last [] n p l e f g =
      let end : length u ≤ read = omega (arith, length-drop read u, ap length e) in
      Returns-if (ltb read (length u)) (λ more. absurd (ground arith))
        (λ no_more. (
          _,
          refl,
          record { front = sym (append-nil (take write u)); count = omega arith; size = refl },
        ))
  unique_from-IsKept eq (suc fuel) u write read last (x ∷ rest) n p l e f g =
      let (at, in_u, after) = drop-cons u read e in
      let next : read + 1 ≡ suc read = omega arith in
      rw (lt→ltb read (length u) in_u, at, l)
        (Returns-if (eq last x)
          (λ again. rw again (
            unique_from-IsKept eq fuel u write (read + 1) last rest n (omega arith) l
              (rw next after) (omega arith) (omega arith)))
          (λ differs. Returns-bind _ _ (put-IsPut u write read p e) λ v a.
            let back : write + 1 - 1 ≡ write = omega arith in
            Returns-map _
              (unique_from-IsKept eq fuel v (write + 1) (read + 1) x rest (omega arith)
                (omega arith) (rw back a.at_end) a.rest_kept (omega arith) (omega (arith, a.size)))
              λ r b. record {
                front = b.front ∙ rw (differs, a.front) (append_assoc (take write u) (x ∷ []) _);
                count = omega (arith, b.count, a.size);
                size = b.size ∙ a.size;
              }))

  -- unique returns the length of the span without the entries that equal the last one kept, and has
  -- the others in front in their order.
  pub unique-IsKept :
      (s : List A) (eq : A → A → Bool) → Returns (IsKept s (unique_list eq s)) (unique s eq)
  unfolding unique unique_list unique_after
  unique-IsKept [] eq = (_, refl, record { front = refl; count = omega arith; size = refl })
  unique-IsKept (x ∷ []) eq = (_, refl, record { front = refl; count = omega arith; size = refl })
  unique-IsKept (x ∷ (y ∷ s)) eq =
      Returns-if (ltb (length (x ∷ (y ∷ s))) 2) (λ short. absurd (ground arith))
        (λ long.
          unique_from-IsKept eq (length (x ∷ (y ∷ s))) (x ∷ (y ∷ s)) 1 1 x (y ∷ s) (omega arith)
            (omega arith) refl refl (omega arith) (omega arith))

  -- an entry that passes the test gives way to `val`
  abbrev pub replaced : (A → Bool) → A → A → A
  replaced test val x = if test x then val else x

  replace_if_from-map :
      (test : A → Bool) (val : A) (fuel : ℕ) (u : List A) (i : ℕ) (rest : List A)
      → drop i u ≡ rest
      → length rest < fuel
      → i + length rest ≤ length u
      → replace_if_from fuel i u test val ≡ done (take i u ++ map (replaced test val) rest)
  unfolding replace_if_from Span.get
  replace_if_from-map test val zero u i rest e f g = absurd (omega arith)
  replace_if_from-map test val (suc fuel) u i [] e f g =
      let end : length u ≤ i = omega (arith, length-drop i u, ap length e) in
      let whole : take i u ++ [] ≡ u = ap (λ l. take i u ++ l) (sym e) ∙ take-append-drop i u in
      rw (le→ltb i (length u) end, whole) refl
  replace_if_from-map test val (suc fuel) u i (x ∷ rest) e f g =
      let (at, in_u, after) = drop-cons u i e in
      let next : i + 1 ≡ suc i = omega arith in
      rw (lt→ltb i (length u) in_u, at)
        (elim (Bool-cases (test x)) [
          | inl t ↦
              let on =
                replace_if_from-map test val fuel (set u i val) (i + 1) rest
                  (rw next (drop-set u i (suc i) val (omega arith) ∙ after)) (omega arith)
                  (omega (arith, length-set u i val)) in
              rw (t, Span.set-done x u i val in_u)
                (on
                  ∙ ap done
                      (rw (next, take-set u i val in_u) (append_assoc (take i u) (val ∷ []) _)))
          | inr t ↦
              let on =
                replace_if_from-map test val fuel u (i + 1) rest (rw next after) (omega arith)
                  (omega arith) in
              let step : take (suc i) u ≡ take i u ++ (x ∷ []) =
                rw (set-same u i at) at (take-set u i x in_u) in
              rw t (on ∙ ap done (rw (next, step) (append_assoc (take i u) (x ∷ []) _)))
        ])

  -- replace_if returns the span with the entries that pass the predicate replaced; replace does with
  -- those equal to the key.
  pub replace_if-replace-map :
      (s : List A) (test : A → Bool) (key val : A) (eq : A → A → Bool)
      → (replace_if s test val ≡ done (map (replaced test val) s))
        × (replace s key val eq ≡ done (map (replaced (λ x. eq x key) val) s))
  unfolding replace_if replace
  replace_if-replace-map s test key val eq = (
    replace_if_from-map test val (length s + 1) s 0 s refl (omega arith) (omega arith),
    replace_if_from-map (λ x. eq x key) val (length s + 1) s 0 s refl (omega arith) (omega arith),
  )

-- ===== src/Algo/Sort/Within.antt =====
-- Rearrangements that stay within a range of a span.
use mathlib.Core.List.Perm
use c_nad.Prelude.Array.{
  length-perm, get_or, get_or-take, get_or-append_left, get_or-append_right, get_or-drop, exchange,
  get_or-exchange, exchange-perm, entries-perm,
}
use c_nad.Prelude.{
  ℕ, zero, suc, ◌+◌, ◌-◌, ◌≤◌, ◌<◌, ◌≡◌, refl, sym, ap, ◌∙◌, inl, inr, Bool, true, ◌&&◌, List, [],
  ◌∷◌, ◌++◌, Perm, arith, ltb, leb, if◌then◌else◌, Bool-cases, length, take, drop, length-take,
  length-drop, take-append-drop,
}

drop-nil : {A : Type 0} (n : ℕ) → drop {A = A} n [] ≡ []
drop-nil zero = refl
drop-nil (suc n) = refl

drop-drop : {A : Type 0} (m n : ℕ) (xs : List A) → drop n (drop m xs) ≡ drop (m + n) xs
drop-drop zero n xs = ap (λ k. drop k xs) (omega arith)
drop-drop (suc m) n [] = drop-nil n ∙ sym (drop-nil (suc m + n))
drop-drop (suc m) n (x ∷ xs) =
    let e : suc m + n ≡ suc (m + n) = omega arith in
    drop-drop m n xs ∙ ap (λ k. drop k (x ∷ xs)) (sym e)

module _ {A : Type 0} (d : A) where
  -- `t` is `s` with the entries from `left` to `right` rearranged: what they all pass, they pass still
  pub record Within (left right : ℕ) (s t : List A) : Type 0 where
    pub same : Perm t s
    pub before : (i : ℕ) → i < left → get_or t i d ≡ get_or s i d
    pub behind : (i : ℕ) → right < i → get_or t i d ≡ get_or s i d
    pub inside :
        (test : A → Bool)
        → ((i : ℕ) → left ≤ i → i ≤ right → test (get_or s i d) ≡ true)
        → (i : ℕ) → left ≤ i
        → i ≤ right
        → test (get_or t i d) ≡ true

  pub Within-refl : (left right : ℕ) (s : List A) → Within left right s s
  Within-refl left right s = record {
    same = Perm.rfl;
    before = λ i p. refl;
    behind = λ i p. refl;
    inside = λ test h. h;
  }

  pub Within-trans :
      {left right : ℕ} {s t u : List A}
      → Within left right s t
      → Within left right t u
      → Within left right s u
  Within-trans a b = record {
    same = Perm.trans b.same a.same;
    before = λ i p. b.before i p ∙ a.before i p;
    behind = λ i p. b.behind i p ∙ a.behind i p;
    inside = λ test h. b.inside test (a.inside test h);
  }

  pub Within-widen :
      {left right : ℕ} (from to : ℕ) {s t : List A}
      → from ≤ left
      → right ≤ to
      → Within left right s t
      → Within from to s t
  Within-widen {left} {right} from to {s} {t} p q a = record {
    same = a.same;
    before = λ i r. a.before i (omega arith);
    behind = λ i r. a.behind i (omega arith);
    inside = λ test h i r e. elim (Bool-cases (leb left i && leb i right)) [
      | inl f ↦
          a.inside test (λ j x y. h j (omega arith) (omega arith)) i (ground arith) (ground arith)
      | inr f ↦ ground (arith, a.before i, a.behind i, h i r e, f)
    ];
  }

  pub Within-exchange :
      (left right : ℕ) (s : List A) (i j : ℕ)
      → right < length s
      → left ≤ i
      → i ≤ right
      → left ≤ j
      → j ≤ right
      → Within left right s (exchange d s i j)
  Within-exchange left right s i j p a b e f =
      let moved = get_or-exchange d s i j (omega arith) (omega arith) in
      record {
        same = exchange-perm d s i j (omega arith) (omega arith);
        before = λ k q. ground (arith, moved k);
        behind = λ k q. ground (arith, moved k);
        inside = λ test h k q r. ground (arith, moved k, h k, h i, h j);
      }

  -- the call on a part of the span, which rearranges that part
  module _ (s part : List A) (left n : ℕ) (p : left + n ≤ length s)
      (same : Perm part (take n (drop left s))) where
    abbrev pub with_part : List A
    with_part = take left s ++ (part ++ drop (left + n) s)

    part-length : length part ≡ n
    part-length = omega (arith, length-perm same, length-take n (drop left s), length-drop left s)

    front-length : length (take left s) ≡ left
    front-length = omega (arith, length-take left s)

    pub get_or-with_part :
        (i : ℕ)
        → get_or with_part i d ≡ (
            if ltb i left
            then get_or s i d
            else if ltb i (left + n)
            then get_or part (i - left) d
            else get_or s i d)
    get_or-with_part i =
        let rest = drop (left + n) s in
        elim (Bool-cases (ltb i left)) [
          | inl e ↦ rw e (
              get_or-append_left d (take left s) (part ++ rest) i (ground (arith, front-length))
              ∙ get_or-take d left s i (ground arith))
          | inr e ↦
              rw
                (
                  e,
                  get_or-append_right d (take left s) (part ++ rest) i
                      (ground (arith, front-length)),
                  front-length,
                )
                (elim (Bool-cases (ltb i (left + n))) [
                  | inl f ↦
                      rw f (get_or-append_left d part rest (i - left) (ground (arith, part-length)))
                  | inr f ↦
                      rw
                        (
                          f,
                          get_or-append_right d part rest (i - left) (ground (arith, part-length)),
                          part-length,
                        )
                        (get_or-drop d (left + n) s (i - left - n)
                          ∙ ap (λ k. get_or s k d) (ground arith))
                ])
        ]

    pub with_part-Within : 0 < n → Within left (left + n - 1) s with_part
    with_part-Within pos =
        let whole : take left s ++ (take n (drop left s) ++ drop (left + n) s) ≡ s =
          ap (λ l. take left s ++ l)
            (ap (λ l. take n (drop left s) ++ l) (sym (drop-drop left n s))
              ∙ take-append-drop n (drop left s))
          ∙ take-append-drop left s in
        let passes : (test : A → Bool)
              (h : (i : ℕ) → left ≤ i → i ≤ left + n - 1 → test (get_or s i d) ≡ true) (i : ℕ)
            → i < length part
            → test (get_or part i d) ≡ true =
          λ test h. entries-perm test d same λ j x.
            let inner : j < n = omega (arith, x, length-take n (drop left s)) in
            ap test (get_or-take d n (drop left s) j inner ∙ get_or-drop d left s j)
            ∙ h (left + j) (omega arith) (omega arith) in
        record {
          same =
              rw whole at
                (Perm.append_left (take left s) (Perm.append_right (drop (left + n) s) same));
          before = λ i q. ground (arith, get_or-with_part i);
          behind = λ i q. ground (arith, get_or-with_part i);
          inside = λ test h i q r.
              ground (arith, get_or-with_part i, passes test h (i - left), part-length);
        }

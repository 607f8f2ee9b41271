-- ===== src/Algo/Merge/Order.antt =====
-- What merge leaves: all elems of both spans, in order, with those of the first span first on a tie.
use mathlib.Core.List.Perm
use c_nad.Core.Span
use c_nad.Core.Cmp.{Cmp, Le, IsOrder, Le_total}
use c_nad.Core.Int.{gt0, le0, eq0}
use c_nad.Prelude.Array.{every, passing, take-set, drop-cons}
use c_nad.Prelude.{
  ℕ, zero, suc, ◌+◌, ◌-◌, ◌≤◌, ◌<◌, ◌≡◌, refl, sym, ap, ◌∙◌, inl, inr, Bool, true, false, ◌&&◌, not,
  List, [], ◌∷◌, ◌++◌, append-nil, append_assoc, Perm, arith, leb, ◌==◌, lt→ltb, le→ltb, le→leb,
  ==_iff, Bool-cases, length, set, take, drop, length-append, length-set, length-take, length-drop,
  take-append-drop, done, ◌>>=◌, ◌>>◌, check, Returns, Returns-map, Returns-if,
}
use mathlib.Core.List.{perm_middle}
use c_nad.Algo.Merge.{emit_rest, merge_from, merge}

drop_all : {A : Type 0} (xs : List A) (n : ℕ) → length xs ≤ n → drop n xs ≡ []
drop_all [] zero p = refl
drop_all [] (suc n) p = refl
drop_all (x ∷ xs) zero p = absurd (omega arith)
drop_all (x ∷ xs) (suc n) p = drop_all xs n (omega arith)

module _ {A : Type 0} (cmp : Cmp A) where
  -- each elem does not come after the ones behind it
  abbrev pub Sorted : List A → Type 0
  Sorted [] = Unit
  Sorted (x ∷ s) = (every (λ y. not (gt0 (cmp x y))) s ≡ true) × Sorted s

  -- `t` interleaves `a` and `b`: a lesser elem first, and the one of `a` on a tie
  pub data IsMerge : List A → List A → List A → Type 0 where
    all_b : (b : List A) → IsMerge [] b b
    all_a : (a : List A) → IsMerge a [] a
    from_a :
        (x y : A) (a b t : List A)
        → gt0 (cmp x y) ≡ false
        → IsMerge a (y ∷ b) t
        → IsMerge (x ∷ a) (y ∷ b) (x ∷ t)
    from_b :
        (x y : A) (a b t : List A)
        → gt0 (cmp x y) ≡ true
        → IsMerge (x ∷ a) b t
        → IsMerge (x ∷ a) (y ∷ b) (y ∷ t)

  -- a copy of nothing, and one that fills the span
  emit_rest-nil :
      (dst : List A) (out : ℕ) (src : List A) (from : ℕ)
      → drop from src ≡ []
      → emit_rest dst out src from ≡ done (out, dst)
  unfolding emit_rest
  emit_rest-nil dst out src from e =
      let gone : length src ≤ from = omega (arith, length-drop from src, ap length e) in
      rw (le→leb (length src) from gone) refl

  length-emit :
      (dst : List A) (out : ℕ) (rest : List A)
      → out + length rest ≡ length dst
      → length (take out dst ++ rest) ≡ length dst
  length-emit dst out rest p = omega (arith, length-append (take out dst) rest, length-take out dst)

  emit_rest-fill :
      (dst : List A) (out : ℕ) (src : List A) (from : ℕ) (x : A) (rest : List A)
      → drop from src ≡ x ∷ rest
      → out + length (x ∷ rest) ≡ length dst
      → emit_rest dst out src from ≡ done (length dst, take out dst ++ (x ∷ rest))
  unfolding emit_rest
  emit_rest-fill dst out src from x rest e p =
      let size : length src - from ≡ length (x ∷ rest) =
        omega (arith, length-drop from src, ap length e) in
      let some_rest : leb (length src) from ≡ false = ground (arith, size) in
      let tail : (x ∷ rest) ++ drop (length dst) dst ≡ x ∷ rest =
        ap (λ l. (x ∷ rest) ++ l) (drop_all dst (length dst) (omega arith))
        ∙ append-nil (x ∷ rest) in
      rw
        (
          some_rest,
          size,
          lt→ltb out (length dst) (omega arith),
          p,
          le→leb (length dst) (length dst) (omega arith),
          e,
        )
        (ap (λ l. done (length dst, take out dst ++ l)) tail)

  -- the last copy fills the span
  last_emit :
      (dst : List A) (out : ℕ) (src : List A) (from : ℕ) (rest : List A)
      → drop from src ≡ rest
      → out + length rest ≡ length dst
      → (emit_rest dst out src from >>= λ (end, t). check (end == length t) >> done t)
        ≡ done (take out dst ++ rest)
  last_emit dst out src from [] e p =
      let whole : take out dst ++ [] ≡ dst =
        ap (λ l. take out dst ++ l) (sym (drop_all dst out (omega arith)))
        ∙ take-append-drop out dst in
      rw (emit_rest-nil dst out src from e, (==_iff out (length dst)).1 (omega arith), whole) refl
  last_emit dst out src from (x ∷ rest) e p =
      let size = length-emit dst out (x ∷ rest) p in
      let full : (length dst == length (take out dst ++ (x ∷ rest))) ≡ true =
        (==_iff _ _).1 (sym size) in
      rw (emit_rest-fill dst out src from x rest e p, full) refl

  merge_from-IsMerge :
      (fuel : ℕ) (dst : List A) (out : ℕ) (a : List A) (i : ℕ) (b : List A) (j : ℕ) (ra rb : List A)
      → drop i a ≡ ra
      → drop j b ≡ rb
      → out + length ra + length rb ≡ length dst
      → length ra + length rb < fuel
      → Returns
          (λ t. (m : List A) × IsMerge ra rb m × (t ≡ take out dst ++ m))
          (merge_from fuel dst out a i b j cmp)
  unfolding merge_from Span.get
  merge_from-IsMerge zero dst out a i b j ra rb e f p q = absurd (omega arith)
  merge_from-IsMerge (suc fuel) dst out a i b j [] rb e f p q =
      let gone : length a ≤ i = omega (arith, length-drop i a, ap length e) in
      rw (le→ltb i (length a) gone, emit_rest-nil dst out a i e)
        (_, last_emit dst out b j rb f (omega (arith, p)), (rb, IsMerge.all_b rb, refl))
  merge_from-IsMerge (suc fuel) dst out a i b j (x ∷ ra) [] e f p q =
      let gone : length b ≤ j = omega (arith, length-drop j b, ap length f) in
      let filled : out + length (x ∷ ra) ≡ length dst = omega arith in
      let size = length-emit dst out (x ∷ ra) filled in
      let full : (length dst == length (take out dst ++ (x ∷ ra))) ≡ true =
        (==_iff _ _).1 (sym size) in
      rw
        (
          lt→ltb i (length a) (drop-cons a i e).1,
          le→ltb j (length b) gone,
          emit_rest-fill dst out a i x ra e filled,
          emit_rest-nil (take out dst ++ (x ∷ ra)) (length dst) b j f,
          full,
        )
        (_, refl, (x ∷ ra, IsMerge.all_a (x ∷ ra), refl))
  merge_from-IsMerge (suc fuel) dst out a i b j (x ∷ ra) (y ∷ rb) e f p q =
      let (at_i, in_a, after_i) = drop-cons a i e in
      let (at_j, in_b, after_j) = drop-cons b j f in
      let next_i : i + 1 ≡ suc i = omega arith in
      let next_j : j + 1 ≡ suc j = omega arith in
      rw (lt→ltb i (length a) in_a, lt→ltb j (length b) in_b, at_i, at_j)
        (Returns-if (le0 (cmp x y))
          (λ first.
            let inside : out < length dst = omega arith in
            rw (Span.set-done x dst out x inside) (
              Returns-map _
                (merge_from-IsMerge fuel (set dst out x) (out + 1) a (i + 1) b j ra (y ∷ rb)
                  (rw next_i after_i) f (omega (arith, length-set dst out x)) (omega arith))
                λ t (m, u, at).
                  (x ∷ m, IsMerge.from_a x y ra rb m (ground arith) u, at ∙ written x m inside)))
          (λ second.
            let inside : out < length dst = omega arith in
            rw (Span.set-done y dst out y inside) (
              Returns-map _
                (merge_from-IsMerge fuel (set dst out y) (out + 1) a i b (j + 1) (x ∷ ra) rb e
                  (rw next_j after_j) (omega (arith, length-set dst out y)) (omega arith))
                λ t (m, u, at).
                  (y ∷ m, IsMerge.from_b x y ra rb m (ground arith) u, at ∙ written y m inside))))
    where
      written :
          (z : A) (m : List A)
          → out < length dst
          → take (out + 1) (set dst out z) ++ m ≡ take out dst ++ (z ∷ m)
      written z m h =
          let up : out + 1 ≡ suc out = omega arith in
          rw (up, take-set dst out z h) (append_assoc (take out dst) (z ∷ []) m)

  -- merge returns the interleaving of its two spans, where `dst` has room for both.
  pub merge-IsMerge :
      (dst a b : List A)
      → length dst ≡ length a + length b
      → Returns (IsMerge a b) (merge dst a b cmp)
  unfolding merge
  merge-IsMerge dst a b e = rw ((==_iff (length dst) (length a + length b)).1 e) (
      Returns-map _
        (merge_from-IsMerge (length a + length b + 1) dst 0 a 0 b 0 a b refl refl (omega arith)
          (omega arith))
        λ t (m, u, whole). rw whole u)

every-passes :
    {A : Type 0} (p q : A → Bool) (s : List A)
    → ((x : A) → p x ≡ true → q x ≡ true)
    → every p s ≡ true
    → every q s ≡ true
every-passes p q [] h e = refl
every-passes p q (x ∷ s) h e =
    let rest : every p s ≡ true = ground (arith, e) in
    ground (arith, h x, e, every-passes p q s h rest)

every-passing_nil :
    {A : Type 0} (p q : A → Bool) (s : List A)
    → ((x : A) → p x ≡ true → q x ≡ false)
    → every p s ≡ true
    → passing q s ≡ []
unfolding passing
every-passing_nil p q [] h e = refl
every-passing_nil p q (x ∷ s) h e =
    let first : q x ≡ false = h x (ground (arith, e)) in
    let rest : every p s ≡ true = ground (arith, e) in rw first (every-passing_nil p q s h rest)

module _ {A : Type 0} (cmp : Cmp A) (o : IsOrder cmp) where
  IsMerge-every :
      (p : A → Bool) {a b t : List A}
      → IsMerge cmp a b t
      → every p a ≡ true
      → every p b ≡ true
      → every p t ≡ true
  IsMerge-every p (IsMerge.all_b b) e f = f
  IsMerge-every p (IsMerge.all_a a) e f = e
  IsMerge-every p (IsMerge.from_a x y a b t z u) e f =
      let rest : every p a ≡ true = ground (arith, e) in ground (arith, e, IsMerge-every p u rest f)
  IsMerge-every p (IsMerge.from_b x y a b t z u) e f =
      let rest : every p b ≡ true = ground (arith, f) in ground (arith, f, IsMerge-every p u e rest)

  -- what does not come before `y` does not come before what `y` does not come after
  every-Le :
      (x y : A) (s : List A)
      → Le cmp x y
      → every (λ z. not (gt0 (cmp y z))) s ≡ true
      → every (λ z. not (gt0 (cmp x z))) s ≡ true
  every-Le x y s p = every-passes _ _ s λ z e. ground (arith, e, o.trans x y z)

  IsMerge-Sorted : {a b t : List A} → IsMerge cmp a b t → Sorted cmp a → Sorted cmp b → Sorted cmp t
  IsMerge-Sorted (IsMerge.all_b b) g h = h
  IsMerge-Sorted (IsMerge.all_a a) g h = g
  IsMerge-Sorted (IsMerge.from_a x y a b t z u) g h = (
    IsMerge-every (λ w. not (gt0 (cmp x w))) u g.0 (ground (arith, z, every-Le x y b z h.0)),
    IsMerge-Sorted u g.1 h,
  )
  IsMerge-Sorted (IsMerge.from_b x y a b t z u) g h =
      let less : Le cmp y x = Le_total o x y z in
      (
        IsMerge-every (λ w. not (gt0 (cmp y w))) u (ground (arith, less, every-Le y x a less g.0))
            h.0,
        IsMerge-Sorted u g h.1,
      )

  IsMerge-perm : {a b t : List A} → IsMerge cmp a b t → Perm t (a ++ b)
  IsMerge-perm (IsMerge.all_b b) = Perm.rfl
  IsMerge-perm (IsMerge.all_a a) = rw (append-nil a) Perm.rfl
  IsMerge-perm (IsMerge.from_a x y a b t z u) = Perm.cons x (IsMerge-perm u)
  IsMerge-perm (IsMerge.from_b x y a b t z u) =
      Perm.trans (Perm.cons y (IsMerge-perm u)) (Perm.symm (perm_middle {a = y} (x ∷ a) b))

  IsMerge-passing :
      (test : A → Bool) {a b t : List A}
      → ((x y : A) → gt0 (cmp x y) ≡ true → (test x && test y) ≡ false)
      → IsMerge cmp a b t
      → Sorted cmp a
      → passing test t ≡ passing test a ++ passing test b
  unfolding passing
  IsMerge-passing test clash (IsMerge.all_b b) g = refl
  IsMerge-passing test clash (IsMerge.all_a a) g = sym (append-nil _)
  IsMerge-passing test clash (IsMerge.from_a x y a b t z u) g =
      let rest = IsMerge-passing test clash u g.1 in
      elim (Bool-cases (test x)) [ inl e ↦ rw e (ap (λ l. x ∷ l) rest) | inr e ↦ rw e rest ]
  IsMerge-passing test clash (IsMerge.from_b x y a b t z u) g =
      let rest = IsMerge-passing test clash u g in
      elim (Bool-cases (test y)) [
        | inl e ↦
            let greater : every (λ w. gt0 (cmp w y)) a ≡ true =
              every-passes _ _ a (λ w p. ground (arith, z, p, o.trans x w y)) g.0 in
            let none_x : test x ≡ false = ground (arith, e, clash x y z) in
            let none_a : passing test a ≡ [] =
              every-passing_nil (λ w. gt0 (cmp w y)) test a (λ w p. ground (arith, e, clash w y p))
                greater in
            rw (e, none_x, none_a) (ap (λ l. y ∷ l) (rw (none_x, none_a) at rest))
        | inr e ↦ rw e rest
      ]

  -- `t` has the elems of `a` and `b` in order, and elems that the comparator does not tell apart stand
  -- as they did, those of `a` before those of `b`
  pub record IsStableMerge (a b t : List A) : Type 0 where
    pub sorted : Sorted cmp t
    pub same : Perm t (a ++ b)
    pub stable :
        (key : A)
        → passing (λ y. eq0 (cmp y key)) t
          ≡ passing (λ y. eq0 (cmp y key)) a ++ passing (λ y. eq0 (cmp y key)) b

  -- merge returns the elems of two sorted spans in order, where `dst` has room for them: those that
  -- the comparator does not tell apart keep their order, and those of `a` stand before those of `b`.
  pub merge-IsStableMerge :
      (dst a b : List A)
      → length dst ≡ length a + length b
      → Sorted cmp a
      → Sorted cmp b
      → Returns (IsStableMerge a b) (merge dst a b cmp)
  merge-IsStableMerge dst a b e g h = Returns-map _ (merge-IsMerge cmp dst a b e) λ t u. record {
    sorted = IsMerge-Sorted u g h;
    same = IsMerge-perm u;
    stable = λ key.
        IsMerge-passing (λ y. eq0 (cmp y key))
          (λ x y p. ground (arith, p, o.trans x key y, o.flip y key)) u g;
  }

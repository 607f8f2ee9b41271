-- ===== src/Algo/Heap/Sort.antt =====
-- sort_heap.
use mathlib.Core.List.Perm
use c_nad.Core.Span
use c_nad.Core.Cmp.{Cmp, Le, IsOrder, Le_refl}
use c_nad.Core.Int.{gt0}
use c_nad.Prelude.Array.{
  length-perm, get_or, get_or-take, get_or-append_left, get_or-append_right, get_or-drop,
  entries-perm,
}
use c_nad.Prelude.{
  ℕ, zero, suc, ◌-◌, ◌≤◌, ◌<◌, ◌≡◌, refl, ap, ◌∙◌, inl, inr, not, List, ◌++◌, Perm, arith, ltb,
  ◌==◌, Bool-cases, length, take, drop, length-take, take-append-drop, Returns, Returns-map,
  Returns-if,
}
use c_nad.Algo.Heap.{parent, pop_heap, sort_heap_from, sort_heap}
use c_nad.Algo.Heap.Order.{IsHeap, root-greatest}
use c_nad.Algo.Heap.Pop.{IsPopped, pop_heap-IsPopped}

module _ {A : Type 0} (d : A) (cmp : Cmp A) where
  -- the entries from `n` on are in order, and none before them comes after one of them
  pub record SortedFrom (s : List A) (n : ℕ) : Type 0 where
    pub rising : (i j : ℕ) → n ≤ i → i ≤ j → j < length s → Le cmp (get_or s i d) (get_or s j d)
    pub above : (i j : ℕ) → i < n → n ≤ j → j < length s → Le cmp (get_or s i d) (get_or s j d)

  -- What sort_heap leaves: the same elems, in ascending order.
  pub record IsSortOf (s t : List A) : Type 0 where
    pub sorted : (i j : ℕ) → i ≤ j → j < length t → Le cmp (get_or t i d) (get_or t j d)
    pub same : Perm t s

module _ {A : Type 0} (d : A) (cmp : Cmp A) (o : IsOrder cmp) where
  part-IsHeap :
      (s : List A) (n : ℕ)
      → suc n ≤ length s
      → IsHeap d cmp s (suc n)
      → IsHeap d cmp (take (suc n) s) (length (take (suc n) s))
  part-IsHeap s n le h c p q r =
      let size : length (take (suc n) s) ≡ suc n = omega (arith, length-take (suc n) s) in
      rw (get_or-take d (suc n) s c (omega arith), get_or-take d (suc n) s (parent c) (omega arith))
        (h c p (omega arith) r)

  -- one round of sort_heap on a heap of `suc n` elems before a sorted part
  module _ (s : List A) (n : ℕ) (le : suc n ≤ length s) (h : IsHeap d cmp s (suc n))
      (v : SortedFrom d cmp s (suc n)) (t : List A) (u : IsPopped d cmp (take (suc n) s) t) where
    abbrev all_of_round : List A
    all_of_round = t ++ drop (suc n) s

    length-part : length (take (suc n) s) ≡ suc n
    length-part = omega (arith, length-take (suc n) s)

    length-popped : length t ≡ suc n
    length-popped = length-perm u.same ∙ length-part

    round-front : (i : ℕ) → i < suc n → get_or all_of_round i d ≡ get_or t i d
    round-front i p = get_or-append_left d t _ i (omega (arith, length-popped))

    round-back : (i : ℕ) → suc n ≤ i → get_or all_of_round i d ≡ get_or s i d
    round-back i p =
        get_or-append_right d t _ i (omega (arith, length-popped))
        ∙ get_or-drop d (suc n) s (i - length t)
        ∙ ap (λ k. get_or s k d) (omega (arith, length-popped))

    round-perm : Perm all_of_round s
    round-perm = rw (take-append-drop (suc n) s) at (Perm.append_right (drop (suc n) s) u.same)

    -- an entry of the popped part does not come after what no entry of the part comes after
    popped-le :
        (y : A)
        → ((i : ℕ) → i < suc n → Le cmp (get_or s i d) y)
        → (i : ℕ) → i < suc n
        → Le cmp (get_or t i d) y
    popped-le y all i p = ground (
      arith,
      entries-perm (λ x. not (gt0 (cmp x y))) d u.same
          (λ j q. ground (arith, length-part, all j, get_or-take d (suc n) s j)) i
          (omega (arith, length-popped)),
    )

    round-root : get_or all_of_round n d ≡ get_or s 0 d
    round-root =
        round-front n (omega arith)
        ∙ ap (λ k. get_or t k d) (omega (arith, length-part))
        ∙ u.last
        ∙ get_or-take d (suc n) s 0 (omega arith)

    length-round : length all_of_round ≡ length s
    length-round = length-perm round-perm

    -- after the round `n` elems are a heap, before a sorted part that is one longer
    round-rising :
        (i j : ℕ)
        → n ≤ i
        → i ≤ j
        → j < length all_of_round
        → Le cmp (get_or all_of_round i d) (get_or all_of_round j d)
    round-rising i j p q r = elim (Bool-cases (j == n)) [
      | inl e ↦ let f : i ≡ j = ground arith in rw f (Le_refl o (get_or all_of_round j d))
      | inr e ↦
          let back = round-back j (ground arith) in
          let in_s : j < length s = omega (arith, length-round) in
          elim (Bool-cases (i == n)) [
            | inl f ↦
                let g : i ≡ n = ground arith in
                rw (g, round-root, back) (v.above 0 j (omega arith) (ground arith) in_s)
            | inr f ↦ rw (round-back i (ground arith), back) (v.rising i j (ground arith) q in_s)
          ]
    ]

    round-above :
        (i j : ℕ)
        → i < n
        → n ≤ j
        → j < length all_of_round
        → Le cmp (get_or all_of_round i d) (get_or all_of_round j d)
    round-above i j p q r = elim (Bool-cases (j == n)) [
      | inl e ↦
          let g : j ≡ n = ground arith in
          rw (g, round-root, round-front i (omega arith))
            (popped-le (get_or s 0 d) (λ k w. root-greatest d cmp o (suc n) s (suc n) k h w w) i
              (omega arith))
      | inr e ↦
          let in_s : j < length s = omega (arith, length-round) in
          rw (round-back j (ground arith), round-front i (omega arith))
            (popped-le (get_or s j d) (λ k w. v.above k j w (ground arith) in_s) i (omega arith))
    ]

    round-IsHeap : IsHeap d cmp all_of_round n
    round-IsHeap c p q r =
        rw (round-front c (omega arith), round-front (parent c) (omega arith))
          (u.heap c p (omega (arith, length-part)) r)

  sort_heap_from-IsSortOf :
      (n : ℕ) (s : List A)
      → n ≤ length s
      → IsHeap d cmp s n
      → SortedFrom d cmp s n
      → Returns (IsSortOf d cmp s) (sort_heap_from n s cmp)
  unfolding sort_heap_from
  sort_heap_from-IsSortOf zero s le h v =
      (s, refl, record { sorted = λ i j p q. v.rising i j (omega arith) p q; same = Perm.rfl })
  sort_heap_from-IsSortOf (suc n) s le h v =
      Returns-if (ltb 1 (suc n))
        (λ more.
          let part = take (suc n) s in
          let size : length part ≡ suc n = omega (arith, length-take (suc n) s) in
          let (t, popped, u) =
            pop_heap-IsPopped d cmp o part (omega arith) (part-IsHeap s n le h) in
          let ready : n ≤ length (t ++ drop (suc n) s) =
            omega (arith, length-round s n le h v t u) in
          rw (Span.on_sub-prefix d s (suc n) (λ x. pop_heap x cmp) t le popped) (
            Returns-map _
              (sort_heap_from-IsSortOf n (t ++ drop (suc n) s) ready (round-IsHeap s n le h v t u)
                (record {
                  rising = round-rising s n le h v t u;
                  above = round-above s n le h v t u;
                }))
              λ w x. record {
                sorted = x.sorted;
                same = Perm.trans x.same (round-perm s n le h v t u);
              }))
        (λ end. (
          s,
          refl,
          record {
            sorted = λ i j p q. elim (Bool-cases (i == 0)) [
              | inl e ↦
                  let i0 : i ≡ 0 = ground arith in
                  elim (Bool-cases (j == 0)) [
                    | inl f ↦
                        let j0 : j ≡ 0 = ground arith in rw (i0, j0) (Le_refl o (get_or s 0 d))
                    | inr f ↦ rw i0 (v.above 0 j (omega arith) (ground arith) q)
                  ]
              | inr e ↦ v.rising i j (ground arith) p q
            ];
            same = Perm.rfl;
          },
        ))

  -- sort_heap turns a heap into the same elems in ascending order.
  pub sort_heap-IsSortOf :
      (s : List A) → IsHeap d cmp s (length s) → Returns (IsSortOf d cmp s) (sort_heap s cmp)
  unfolding sort_heap
  sort_heap-IsSortOf s h = sort_heap_from-IsSortOf (length s) s (omega arith) h (record {
    rising = λ i j p q r. absurd (omega arith);
    above = λ i j p q r. absurd (omega arith);
  })

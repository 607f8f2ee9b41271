-- ===== src/Ds/Pqueue/Order.antt =====
-- What a priority queue promises: a collection without order, whose greatest elem is on top.
use c_nad.Ds.Vec
use mathlib.Core.List.Perm
use c_nad.Ds.Vec.Grow
use c_nad.Ds.Vec.Grow.Reserve
use c_nad.Ds.Vec.Grow.Insert
use c_nad.Core.Cmp.{Cmp, Le, IsOrder}
use c_nad.Core.Int.{gt0}
use c_nad.Prelude.Array.{
  length-perm, snoc-perm, get_or, get_elem?-get_or, get_or-take, get_or-append_left, entries-perm,
  take-last,
}
use c_nad.Prelude.{
  ℕ, suc, ◌+◌, ◌-◌, ◌≤◌, ◌<◌, ◌≡◌, refl, sym, ap, ◌∙◌, not, Option, none, some, List, [], ◌∷◌, ◌++◌,
  map, Perm, arith, ltb, if◌then◌else◌, lt→ltb, length, get_elem?, take, length-append, length-take,
  Exec, done, ◌>>=◌, Returns, Returns-bind, Returns-map, Returns-check,
}
use c_nad.Alloc.{Al}
use c_nad.Algo.Heap.{parent, push_heap}
use c_nad.Algo.Heap.Order.{IsHeap, root-greatest}
use c_nad.Algo.Heap.Up.{push_heap-Sifted}
use c_nad.Algo.Heap.Pop.{pop_heap-IsPopped}
use c_nad.Core.Status.{ok, no_mem, is_ok}
use c_nad.Ds.Block.{
  is_some, slot, written, slot-written, length-written, write-done, length-map-some, slot-map-some,
}
use c_nad.Ds.Handle.{Settled}
use c_nad.Ds.Vec.{Vec, block}
use c_nad.Ds.Vec.Holds.{Holds}
use c_nad.Ds.Vec.Mods.{get-entry, pop-Holds}
use c_nad.Ds.Vec.Grow.Insert.{push-Settled}
use c_nad.Ds.Vec.Grow.Copies.{to_span-Holds}
use c_nad.Ds.Pqueue.{Pqueue, Outcome, on_elems, top, pop, push}

-- other slots of the same number, with other elems
reslotted-Holds :
    {A : Type 0} {v : Vec A} {xs : List A} (h : Holds v xs) (t : List A)
    (slots : Option (List (Option A))) (b : List (Option A))
    → is_some slots ≡ ltb 0 v.cap
    → length t ≡ length xs
    → length b ≡ v.cap
    → ((i : ℕ) → i < v.len → slot b i ≡ get_elem? t i)
    → Holds (record v { slots = elim slots [ none ↦ none | some old ↦ some b ] }) t
reslotted-Holds {v = v} h t none b own size full same = record {
  sized = h.sized;
  count = omega (arith, h.count);
  room = h.room;
  bytes = h.bytes;
  full = ground (arith, own);
  owned = own;
  elems = λ i p. absurd (ground (arith, own, h.room));
}
reslotted-Holds h t (some old) b own size full same = record {
  sized = h.sized;
  count = omega (arith, h.count);
  room = h.room;
  bytes = h.bytes;
  full = full;
  owned = own;
  elems = same;
}

-- Elems rewritten through the span of a vec: the vec holds what the call returned.
pub on_elems-Holds :
    {A : Type 0} {v : Vec A} {xs : List A} (h : Holds v xs) (f : List A → Exec (List A))
    {P : List A → Type 0}
    → Returns P (f xs)
    → ((t : List A) → P t → length t ≡ length xs)
    → Returns (λ w. (t : List A) × P t × Holds w t) (on_elems v f)
unfolding on_elems
on_elems-Holds {v = v} {xs} h f (t, run, p) sizes =
    let size = sizes t p in
    let inside : 0 + length (map some t) ≤ length (block v) =
      omega (arith, length-map-some t, size, h.full, h.room, h.count) in
    rw (to_span-Holds h, run, write-done (block v) 0 (map some t) inside)
      (
        _,
        refl,
        (
          t,
          p,
          reslotted-Holds h t v.slots (written (block v) 0 (map some t)) h.owned size
              (length-written (block v) 0 (map some t) inside ∙ h.full)
              (λ i q. ground (
                arith,
                slot-written (block v) 0 (map some t) i inside,
                slot-map-some t i,
                length-map-some t,
                size,
                h.count,
              )),
        ),
      )

module _ {A : Type 0} (d : A) where
  -- `q` has the elems of `xs`, in whatever order, as a heap
  pub record IsQueueOf (xs : List A) (q : Pqueue A) : Type 0 where
    pub arranged : List A
    pub held : Holds q.vec arranged
    pub heap : IsHeap d q.cmp arranged (length arranged)
    pub same : Perm arranged xs

  -- the elems of `xs` less one that no other comes after
  pub record IsRest (cmp : Cmp A) (xs : List A) (x : A) (rest : List A) : Type 0 where
    pub split : Perm (x ∷ rest) xs
    pub greatest : (i : ℕ) → i < length xs → Le cmp (get_or xs i d) x

  module _ (al : Al) {q : Pqueue A} {xs : List A} (o : IsOrder q.cmp) (h : IsQueueOf xs q) where
    pushed :
        (val : A) (v : Vec A)
        → Holds v (h.arranged ++ (val ∷ []))
        → Returns
            (λ w. IsQueueOf (val ∷ xs) (record q { vec = w }))
            (on_elems v (λ t. push_heap t q.cmp))
    pushed val v g =
        let size = length-append h.arranged (val ∷ []) in
        Returns-map _
          (on_elems-Holds g _
            (push_heap-Sifted d q.cmp o (h.arranged ++ (val ∷ [])) (omega (arith, size)) (λ c p r z.
              let at = get_or-append_left d h.arranged (val ∷ []) in
              rw (at c (omega (arith, size, r)), at (parent c) (omega (arith, size, r)))
                (h.heap c p (omega (arith, size, r)) z)))
            (λ t u. length-perm u.same))
          λ w (t, u, k). record {
            arranged = t;
            held = k;
            heap = λ c p r z. u.heap c p (omega (arith, length-perm u.same)) z;
            same = Perm.trans u.same (Perm.trans (snoc-perm h.arranged val) (Perm.cons val h.same));
          }

    -- push returns: with success the queue has the elem too, with a refusal it is as it was.
    pub push-IsQueueOf :
        (st : al.State) (val : A)
        → Returns {A = Outcome al A} (Settled q (IsQueueOf (val ∷ xs))) (push al q st val)
    unfolding push
    push-IsQueueOf st val = Returns-bind _ _ (push-Settled al h.held st val) into
      where
        into :
            (r : Vec.Grow.Outcome al A)
            → Vec.Grow.Reserve.Settled al q.vec
                (Vec.Grow.Insert.Added q.vec (h.arranged ++ (val ∷ [])))
                r
            → Returns {A = Outcome al A} (Settled q (IsQueueOf (val ∷ xs))) (
                if not (is_ok r.0) then done (r.0, record q { vec = r.1 }, r.2) else (do
                  w ← on_elems r.1 (λ t. push_heap t q.cmp)
                  done (ok, record q { vec = w }, r.2)))
        into (no_mem, v, st') u = (_, refl, ap (λ v. record q { vec = v }) u)
        into (ok, v, st') u = Returns-bind _ _ (pushed val v u.0) λ w k. (_, refl, k)

  module _ {q : Pqueue A} {xs : List A} (o : IsOrder q.cmp) (h : IsQueueOf xs q)
      (pos : 0 < length xs) where
    abbrev greatest : A
    greatest = get_or h.arranged 0 d

    some_len : 0 < q.vec.len
    some_len = omega (arith, h.held.count, length-perm h.same)

    greatest-Le : (i : ℕ) → i < length xs → Le q.cmp (get_or xs i d) greatest
    greatest-Le i p =
        let passes =
          entries-perm (λ y. not (gt0 (q.cmp y greatest))) d (Perm.symm h.same)
            (λ j r. ground (
              arith,
              root-greatest d q.cmp o (j + 1) h.arranged (length h.arranged) j h.heap (omega arith)
                  r,
            ))
            i p in
        ground (arith, passes)

    -- top returns an elem that no other comes after, and pop leaves all elems but that one.
    pub top-pop :
        Returns
          (λ x. Returns (λ r. (rest : List A) × IsRest q.cmp xs x rest × IsQueueOf rest r) (pop q))
          (top q)
    unfolding top pop
    top-pop = (
      greatest,
      rw (lt→ltb 0 q.vec.len some_len) (
          (get-entry h.held 0
              (get_elem?-get_or h.arranged 0 d (omega (arith, length-perm h.same)))).1
            refl),
      Returns-check _ (lt→ltb 0 q.vec.len some_len) (
          Returns-bind _ _
            (on_elems-Holds h.held _
              (pop_heap-IsPopped d q.cmp o h.arranged (omega (arith, length-perm h.same)) h.heap)
              (λ t u. length-perm u.same))
            λ v (t, u, k).
              let size : length t ≡ suc (length h.arranged - 1) =
                omega (arith, length-perm u.same, length-perm h.same) in
              let front : length t - 1 ≡ length h.arranged - 1 = omega (arith, size) in
              let n = length h.arranged - 1 in
              let count = length-take n t in
              let whole : take n t ++ (greatest ∷ []) ≡ t =
                ap (λ x. take n t ++ (x ∷ [])) (sym u.last) ∙ take-last d t n size in
              Returns-bind _ _ (pop-Holds k (omega (arith, size))) λ w kept. (
                _,
                refl,
                (
                  take n t,
                  record {
                    split =
                        Perm.trans (Perm.symm (rw whole at (snoc-perm (take n t) greatest)))
                          (Perm.trans u.same h.same);
                    greatest = greatest-Le;
                  },
                  record {
                    arranged = take n t;
                    held = rw front at kept.0;
                    heap = λ c p r z.
                        let at = get_or-take d n t in
                        rw (at c (omega (arith, count, r)), at (parent c) (omega (arith, count, r)))
                          (u.heap c p (omega (arith, count, r)) z);
                    same = Perm.rfl;
                  },
                ),
              )),
    )

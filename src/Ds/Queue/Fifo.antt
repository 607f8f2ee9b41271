-- ===== src/Ds/Queue/Fifo.antt =====
-- What a queue promises: the first elem pushed is the first one out.
use c_nad.Prelude.Array.{get_elem?-snoc}
use c_nad.Prelude.{
  ◌<◌, ◌≡◌, refl, List, [], ◌∷◌, ◌++◌, arith, lt→ltb, length, drop, length-append, done, Returns,
  Returns-bind, Returns-check,
}
use c_nad.Alloc.{Al}
use c_nad.Ds.Handle.{Settled, Settled-wrapped}
use c_nad.Ds.Deque.Holds.{Holds}
use c_nad.Ds.Deque.Mods.{get-front-back, pop_front-Holds}
use c_nad.Ds.Deque.Grow.Reserve.{Limited}
use c_nad.Ds.Deque.Grow.Insert.{push_back-push_front-Now}
use c_nad.Ds.Queue.{Queue, Outcome, front, back, pop, push}

-- `q` is the queue of the elems of `xs`, the next one out first
abbrev pub IsQueueOf : {A : Type 0} → List A → Queue A → Type 0
IsQueueOf xs q = Holds q.deque xs

module _ {A : Type 0} {q : Queue A} (x : A) (xs : List A) (h : IsQueueOf (x ∷ xs) q) where
  -- front returns the first elem, and pop leaves the others
  front-pop : (front q ≡ done x) × Returns (IsQueueOf xs) (pop q)
  unfolding front pop
  front-pop =
      let pos : 0 < q.deque.len = omega (arith, h.count) in
      (
        rw (lt→ltb 0 q.deque.len pos) ((get-front-back h 0 refl).1 refl),
        Returns-check _ (lt→ltb 0 q.deque.len pos)
            (Returns-bind _ _ (pop_front-Holds h (omega arith)) λ d u. (_, refl, u.0)),
      )

module _ {A : Type 0} {q : Queue A} (xs : List A) (x : A) (h : IsQueueOf (xs ++ (x ∷ [])) q) where
  -- back returns the last elem
  back-last : back q ≡ done x
  unfolding back
  back-last =
      let size = length-append xs (x ∷ []) in
      rw (lt→ltb 0 q.deque.len (omega (arith, h.count, size)))
        ((get-front-back h (length xs) (get_elem?-snoc xs x)).2 (omega (arith, size)))

-- the elem that leaves the queue of `xs` first once `val` is behind them
abbrev pub first : {A : Type 0} → List A → A → A
first [] val = val
first (x ∷ xs) val = x

first-pop :
    {A : Type 0} {q : Queue A} (xs : List A) (val : A)
    → IsQueueOf (xs ++ (val ∷ [])) q
    → (front q ≡ done (first xs val)) × Returns (IsQueueOf (drop 1 (xs ++ (val ∷ [])))) (pop q)
first-pop [] val h = front-pop val [] h
first-pop (x ∷ xs) val h = front-pop x (xs ++ (val ∷ [])) h

module _ {A : Type 0} (al : Al) (limit : Limited al) {q : Queue A} (xs : List A)
    (h : IsQueueOf xs q) where
  -- push on any queue, an empty one too, returns, on an allocator that hands out no block larger than
  -- an object may be: with success the new elem is behind all others, back returns it, front the
  -- oldest elem, which is the new one if the queue was empty, and pop takes that one off; with a
  -- refusal the queue is as it was.
  pub push-front-back-pop :
      (st : al.State) (val : A)
      → Returns {A = Outcome al A}
          (Settled q (λ p.
            IsQueueOf (xs ++ (val ∷ [])) p
            × (front p ≡ done (first xs val))
            × (back p ≡ done val)
            × Returns (IsQueueOf (drop 1 (xs ++ (val ∷ [])))) (pop p)))
          (push al q st val)
  unfolding push
  push-front-back-pop st val =
      Returns-bind _ _ (push_back-push_front-Now al limit h st val).0 λ r u. (
        _,
        refl,
        Settled-wrapped {R = Queue A} (λ d. record { deque = d }) q.deque _ r
            (λ d a.
              let (read, popped) = first-pop xs val a.0 in
              (a.0, read, back-last xs val a.0, popped))
            u,
      )

-- ===== src/Tests/Adapters.antt =====
-- Stacks, queues and priority queues of numbers on an allocator with a budget of bytes.
use c_nad.Ds.Stack
use c_nad.Ds.Queue
use c_nad.Ds.Pqueue
use mathlib.Core.List.Perm
use c_nad.Ds.Pqueue.Order
use c_nad.Core.Cmp.{cmp_unsigned, cmp_desc, IsOrder, cmp_unsigned-IsOrder, cmp_desc-IsOrder}
use c_nad.Prelude.Array.{get_or}
use c_nad.Prelude.{ℕ, ◌≡◌, refl, List, [], ◌∷◌, arith, done, Returns}
use c_nad.Tests.Vecs.{budget, two, two-Holds}
use c_nad.Tests.Deques.{wrapped, wrapped-Holds, budget-Limited}
use c_nad.Ds.Handle.{Settled}
use c_nad.Ds.Stack.{Stack}
use c_nad.Ds.Queue.{Queue}
use c_nad.Ds.Pqueue.{Pqueue}
use c_nad.Ds.Stack.Lifo.{IsStackOf, from_bottom, push-top-pop}
use c_nad.Ds.Queue.Fifo.{IsQueueOf, push-front-back-pop}
use c_nad.Algo.Heap.Order.{IsHeap}
use c_nad.Ds.Pqueue.Order.{push-IsQueueOf, IsRest, top-pop}

push-top-pop_example :
    Returns {A = Stack.Outcome budget ℕ}
      (Settled
        (record { vec = two })
        (λ t.
          IsStackOf (9 ∷ 8 ∷ 7 ∷ []) t
          × (Stack.top t ≡ done 9)
          × Returns (IsStackOf (8 ∷ 7 ∷ [])) (Stack.pop t)))
      (Stack.push budget (record { vec = two }) 12 9)
unfolding from_bottom
push-top-pop_example = push-top-pop budget (8 ∷ 7 ∷ []) two-Holds 12 9

push-front-back-pop_example :
    Returns {A = Queue.Outcome budget ℕ}
      (Settled
        (record { deque = wrapped })
        (λ p.
          IsQueueOf (7 ∷ 8 ∷ 9 ∷ []) p
          × (Queue.front p ≡ done 7)
          × (Queue.back p ≡ done 9)
          × Returns (IsQueueOf (8 ∷ 9 ∷ [])) (Queue.pop p)))
      (Queue.push budget (record { deque = wrapped }) 12 9)
push-front-back-pop_example =
    push-front-back-pop budget budget-Limited (7 ∷ 8 ∷ []) wrapped-Holds 12 9

-- the least number on top
abbrev least_first : Pqueue ℕ
least_first = record { vec = two; cmp = cmp_desc cmp_unsigned }

two-IsHeap : IsHeap 0 (cmp_desc cmp_unsigned) (7 ∷ 8 ∷ []) 2
unfolding cmp_desc cmp_unsigned get_or
two-IsHeap c p q r = let e : c ≡ 1 = omega (arith, p, q) in rw e refl

least_first-IsQueueOf : Pqueue.Order.IsQueueOf 0 (7 ∷ 8 ∷ []) least_first
least_first-IsQueueOf = record {
  arranged = 7 ∷ 8 ∷ [];
  held = two-Holds;
  heap = two-IsHeap;
  same = Perm.rfl;
}

desc-IsOrder : IsOrder (cmp_desc cmp_unsigned)
desc-IsOrder = cmp_desc-IsOrder cmp_unsigned cmp_unsigned-IsOrder

push-IsQueueOf_example :
    Returns {A = Pqueue.Outcome budget ℕ}
      (Settled least_first (Pqueue.Order.IsQueueOf 0 (5 ∷ 7 ∷ 8 ∷ [])))
      (Pqueue.push budget least_first 12 5)
push-IsQueueOf_example = push-IsQueueOf 0 budget desc-IsOrder least_first-IsQueueOf 12 5

top-pop_example :
    Returns
      (λ x.
        Returns
          (λ r.
            (rest : List ℕ) × IsRest 0 (cmp_desc cmp_unsigned) (7 ∷ 8 ∷ []) x rest
            × Pqueue.Order.IsQueueOf 0 rest r)
          (Pqueue.pop least_first))
      (Pqueue.top least_first)
top-pop_example = top-pop 0 desc-IsOrder least_first-IsQueueOf (omega arith)

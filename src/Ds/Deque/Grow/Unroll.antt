-- ===== src/Ds/Deque/Grow/Unroll.antt =====
-- copy_out: the at most two runs of the ring, one behind the other in a new block.
use c_nad.Prelude.Array.{get_or-take, get_or-drop}
use c_nad.Prelude.{
  ℕ, ◌+◌, ◌-◌, ◌≤◌, ◌<◌, ◌≡◌, refl, ◌∙◌, Option, none, List, arith, ltb, ◌==◌, if◌then◌else◌,
  ltb→lt, length, take, drop, length-take, length-drop, Returns, Returns-bind, Returns-map,
  Returns-if,
}
use c_nad.Ds.Block.{slot, read, read-done, write, write-done, written, length-written, slot-written}
use c_nad.Ds.Deque.{Deque, block, copy_out, first_run}
use c_nad.Ds.Deque.Holds.{IsRing, entry}

module _ {A : Type 0} where
  -- `n` slots that were read from `at` on
  pub record IsRun (b : List (Option A)) (at n : ℕ) (run : List (Option A)) : Type 0 where
    pub size : length run ≡ n
    pub from : (i : ℕ) → i < n → slot run i ≡ slot b (at + i)

  read-IsRun :
      (b : List (Option A)) (at n : ℕ) → at + n ≤ length b → Returns (IsRun b at n) (read b at n)
  read-IsRun b at n p = (
    take n (drop at b),
    read-done b at n p,
    record {
      size = omega (arith, length-take n (drop at b), length-drop at b);
      from = λ i q. get_or-take none n (drop at b) i q ∙ get_or-drop none at b i;
    },
  )

  -- `c` is `b` with a run of `n` slots put at `at`
  pub record IsWritten (b : List (Option A)) (at n : ℕ) (run c : List (Option A)) : Type 0 where
    pub size : length c ≡ length b
    pub slots :
        (i : ℕ)
        → slot c i
          ≡ (if ltb i at then slot b i else if ltb i (at + n) then slot run (i - at) else slot b i)

  write-IsWritten :
      (b : List (Option A)) (at n : ℕ) (run : List (Option A))
      → length run ≡ n
      → at + n ≤ length b
      → Returns (IsWritten b at n run) (write b at run)
  write-IsWritten b at n run e p =
      let q : at + length run ≤ length b = omega arith in
      (
        written b at run,
        write-done b at run q,
        record {
          size = length-written b at run q;
          slots = λ i. rw (← e) (slot-written b at run i q);
        },
      )

  -- the front of `b` has the elems of the ring
  pub record IsUnrolled (d : Deque A) (n : ℕ) (b : List (Option A)) : Type 0 where
    pub size : length b ≡ n
    pub same : (i : ℕ) → i < d.len → slot b i ≡ entry d i

  module _ {d : Deque A} (h : IsRing d) where
    first_run_le : first_run d ≤ d.len × d.head + first_run d ≤ d.cap
    unfolding first_run
    first_run_le = ground (arith, h.turned, h.room)

    first_run_all : first_run d < d.len → d.head + first_run d ≡ d.cap
    unfolding first_run
    first_run_all p = ground (arith, h.turned, h.room)

    pub copy_out-IsUnrolled :
        (dst : List (Option A)) (n : ℕ)
        → length dst ≡ n
        → d.len ≤ n
        → Returns (IsUnrolled d n) (copy_out d dst)
    unfolding copy_out
    copy_out-IsUnrolled dst n e p =
        let run = first_run d in
        let (short, inside) = first_run_le in
        Returns-if (d.len == 0)
          (λ empty. (dst, refl, record { size = e; same = λ i q. absurd (ground arith) }))
          (λ some_elems.
            Returns-bind _ _ (read-IsRun (block d) d.head run (omega (arith, h.full))) λ front f.
              Returns-bind _ _ (write-IsWritten dst 0 run front f.size (omega arith)) λ b w.
                Returns-if (ltb run d.len)
                  (λ wraps.
                    let at_end : d.head + run ≡ d.cap = first_run_all (ltb→lt _ _ wraps) in
                    Returns-bind _ _
                      (read-IsRun (block d) 0 (d.len - run) (omega (arith, h.full, h.room)))
                      λ rest r.
                        Returns-map _
                          (write-IsWritten b run (d.len - run) rest r.size (omega (arith, w.size)))
                          λ c z. record {
                            size = z.size ∙ w.size ∙ e;
                            same = λ i q. ground (
                              arith,
                              z.slots i,
                              w.slots i,
                              r.from (i - run),
                              f.from i,
                              h.turned,
                              h.room,
                            );
                          })
                  (λ straight. (
                    b,
                    refl,
                    record {
                      size = w.size ∙ e;
                      same = λ i q. ground (arith, w.slots i, f.from i, h.turned, h.room);
                    },
                  )))

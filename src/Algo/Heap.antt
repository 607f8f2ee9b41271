-- ===== src/Algo/Heap.antt =====
-- src/algo/heap.c: a binary heap with the greatest elem at the root, in the first elems of a span.
-- A function that writes to its span returns the span. `2 * idx + 1` stays below twice the length
-- of an array in memory plus one, so size_t does not wrap there. Fuel bounds the rounds of a loop.
pub mod Order
pub mod Up
pub mod Down
pub mod Pop
pub mod Sort
pub mod Check
use c_nad.Core.Span
use c_nad.Core.Cmp.{Cmp}
use c_nad.Core.Int.{lt0, ge0}
use c_nad.Prelude.{
  ℕ, zero, suc, ◌+◌, ◌-◌, ◌*◌, ◌/◌, Bool, List, ltb, leb, ◌==◌, if◌then◌else◌, length, Exec, done,
  spent, ◌>>=◌, ◌>>◌, check,
}

abbrev pub parent : ℕ → ℕ
parent c = (c - 1) / 2

module _ {ℓ} {A : Type ℓ} where
  -- sift_up
  sift_up_loop : ℕ → List A → ℕ → Cmp A → Exec (List A)
  sift_up_loop zero s idx cmp = spent
  sift_up_loop (suc fuel) s idx cmp =
      let rise = Span.swap_elems s (parent idx) idx >>= λ t. sift_up_loop fuel t (parent idx) cmp in
      let round : Exec (List A) = do
        p ← Span.get s (parent idx)
        c ← Span.get s idx
        if ge0 (cmp p c) then done s else rise
      in if ltb 0 idx then round else done s

  pub sift_up : List A → ℕ → Cmp A → Exec (List A)
  unfolding sift_up_loop
  sift_up s idx cmp = sift_up_loop (idx + 1) s idx cmp

  -- the child of `idx` that sift_down compares it with
  best_child : List A → ℕ → ℕ → Cmp A → Exec ℕ
  best_child s idx len cmp =
      let left = 2 * idx + 1 in
      let right = left + 1 in
      let both : Exec ℕ = do
        l ← Span.get s left
        r ← Span.get s right
        done (if lt0 (cmp l r) then right else left)
      in if ltb right len then both else done left

  -- sift_down
  sift_down_loop : ℕ → List A → ℕ → ℕ → Cmp A → Exec (List A)
  sift_down_loop zero s idx len cmp = spent
  sift_down_loop (suc fuel) s idx len cmp =
      let round : Exec (List A) = do
        best ← best_child s idx len cmp
        x ← Span.get s idx
        y ← Span.get s best
        let sink = Span.swap_elems s idx best >>= λ t. sift_down_loop fuel t best len cmp
        if ge0 (cmp x y) then done s else sink
      in if leb len (2 * idx + 1) then done s else round

  pub sift_down : List A → ℕ → ℕ → Cmp A → Exec (List A)
  unfolding sift_down_loop best_child
  sift_down s idx len cmp = do check (leb len (length s)); sift_down_loop (len + 1) s idx len cmp

  -- tda_span_make_heap: the loop counts down
  make_heap_from : ℕ → List A → Cmp A → Exec (List A)
  make_heap_from zero s cmp = done s
  make_heap_from (suc i) s cmp = sift_down s i (length s) cmp >>= λ t. make_heap_from i t cmp

  unfoldable pub make_heap : List A → Cmp A → Exec (List A)
  unfolding make_heap_from sift_down
  make_heap s cmp = make_heap_from (length s / 2) s cmp

  -- tda_span_push_heap
  unfoldable pub push_heap : List A → Cmp A → Exec (List A)
  unfolding sift_up
  push_heap s cmp = do check (ltb 0 (length s)); sift_up s (length s - 1) cmp

  -- tda_span_pop_heap
  unfoldable pub pop_heap : List A → Cmp A → Exec (List A)
  unfolding sift_down
  pop_heap s cmp = do
    check (ltb 0 (length s))
    if length s == 1
        then done s
        else (do t ← Span.swap_elems s 0 (length s - 1); sift_down t 0 (length s - 1) cmp)

  -- tda_span_sort_heap: `len` counts down to 1
  sort_heap_from : ℕ → List A → Cmp A → Exec (List A)
  sort_heap_from zero s cmp = done s
  sort_heap_from (suc len) s cmp =
      let pop = Span.on_sub s 0 (suc len) (λ t. pop_heap t cmp) >>= λ t. sort_heap_from len t cmp in
      if ltb 1 (suc len) then pop else done s

  unfoldable pub sort_heap : List A → Cmp A → Exec (List A)
  unfolding sort_heap_from pop_heap
  sort_heap s cmp = sort_heap_from (length s) s cmp

  -- tda_span_is_heap_until
  is_heap_until_from : ℕ → ℕ → List A → Cmp A → Exec ℕ
  is_heap_until_from zero child s cmp = spent
  is_heap_until_from (suc fuel) child s cmp =
      let rest = is_heap_until_from fuel (child + 1) s cmp in
      let round : Exec ℕ = do
        p ← Span.get s (parent child)
        c ← Span.get s child
        if lt0 (cmp p c) then done child else rest
      in if ltb child (length s) then round else done (length s)

  unfoldable pub is_heap_until : List A → Cmp A → Exec ℕ
  unfolding is_heap_until_from
  is_heap_until s cmp = is_heap_until_from (length s + 1) 1 s cmp

  -- tda_span_is_heap
  unfoldable pub is_heap : List A → Cmp A → Exec Bool
  unfolding is_heap_until
  is_heap s cmp = do n ← is_heap_until s cmp; done (n == length s)

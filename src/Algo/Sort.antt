-- ===== src/Algo/Sort.antt =====
-- src/algo/sort.c: insertion sort, and quicksort with three-way partitions that falls back on
-- insertion sort for short ranges and on heap sort when its pivots go bad. A function that writes to
-- its span returns the span. Fuel bounds the rounds of a loop. `elem_size` decides how insertion
-- sort moves elems.
pub mod Insertion
pub mod Stable
pub mod Within
pub mod Partition
pub mod Quick
pub mod Select
pub mod Check
use c_nad.Core.Span
use c_nad.Core.Cmp.{Cmp}
use c_nad.Core.Int.{lt0, gt0, le0, ge0}
use c_nad.Prelude.{
  ℕ, zero, suc, ◌+◌, ◌-◌, ◌*◌, ◌/◌, Bool, ◌&&◌, ◌||◌, not, List, ◌++◌, ltb, leb, ◌==◌,
  if◌then◌else◌, length, take, drop, Exec, done, spent, ◌>>=◌, ◌>>◌, check,
}
use c_nad.Algo.Heap.{make_heap, sort_heap}

-- INSERTION_THRESHOLD
abbrev pub insertion_threshold : ℕ
insertion_threshold = 16

-- INSERTION_HELD_MAX
abbrev pub held_max : ℕ
held_max = 256

-- struct Split
pub record Split : Type 0 where
  pub lt : ℕ
  pub gt : ℕ

-- depth_limit; bit_width is stdc_bit_width, the digits of a number in base 2
bit_width_from : ℕ → ℕ → ℕ
bit_width_from zero n = 0
bit_width_from (suc fuel) n =
    let more = bit_width_from fuel (n / 2) + 1 in if n == 0 then 0 else more

pub depth_limit : ℕ → Exec ℕ
unfolding bit_width_from
depth_limit len = do check (ltb 1 len); done (2 * (bit_width_from len len - 1))

module _ {A : Type 0} where
  -- insertion_slot: the loop counts `slot` down
  insertion_slot_from : ℕ → List A → A → Cmp A → Exec ℕ
  insertion_slot_from zero s val cmp = done zero
  insertion_slot_from (suc slot) s val cmp =
      let down = insertion_slot_from slot s val cmp in
      do before ← Span.get s slot; if gt0 (cmp before val) then down else done (suc slot)

  pub insertion_slot : List A → ℕ → Cmp A → Exec ℕ
  unfolding insertion_slot_from
  insertion_slot s idx cmp = do val ← Span.get s idx; insertion_slot_from idx s val cmp

  -- the swaps of an elem too large to set aside: from `j + n` down to `j`
  pub swap_down : ℕ → List A → ℕ → Exec (List A)
  swap_down zero s j = done s
  swap_down (suc n) s j = Span.swap_elems s (j + n) (suc (j + n)) >>= λ t. swap_down n t j

  -- the memmove of `n` elems up by one
  abbrev pub slide_up : List A → ℕ → ℕ → List A
  slide_up s j n = take (j + 1) s ++ (take n (drop j s) ++ drop (j + 1 + n) s)

  -- one round: the elem at `i` goes to its slot
  insert_at : ℕ → List A → ℕ → Cmp A → Exec (List A)
  unfolding insertion_slot swap_down
  insert_at elem_size s i cmp = do
    j ← insertion_slot s i cmp
    let set_aside : Exec (List A) = do
      held ← Span.get s i
      check (ltb (j + 1) (length s))
      Span.set (slide_up s j (i - j)) j held
    if ltb held_max elem_size then swap_down (i - j) s j else if j == i then done s else set_aside

  insertion_sort_from : ℕ → ℕ → List A → ℕ → Cmp A → Exec (List A)
  unfolding insert_at
  insertion_sort_from zero elem_size s i cmp = spent
  insertion_sort_from (suc fuel) elem_size s i cmp =
      let round : Exec (List A) =
        insert_at elem_size s i cmp >>= λ t. insertion_sort_from fuel elem_size t (i + 1) cmp in
      if ltb i (length s) then round else done s

  -- tda_span_insertion_sort
  pub insertion_sort : ℕ → List A → Cmp A → Exec (List A)
  unfolding insertion_sort_from
  insertion_sort elem_size s cmp = insertion_sort_from (length s + 1) elem_size s 1 cmp

  -- median3
  pub median3 : List A → ℕ → ℕ → ℕ → Cmp A → Exec ℕ
  median3 s a b c cmp = do
    x ← Span.get s a
    y ← Span.get s b
    z ← Span.get s c
    let ab = cmp x y
    let ac = cmp x z
    let bc = cmp y z
    done (
        if (le0 ab && ge0 ac) || (ge0 ab && le0 ac)
        then a
        else if (le0 ab && le0 bc) || (ge0 ab && ge0 bc)
        then b
        else c)

  -- ninther
  pub ninther : List A → ℕ → ℕ → Cmp A → Exec ℕ
  ninther s left right cmp = do
    let len = right - left + 1
    let mid = left + len / 2
    let step = len / 8
    lo ← median3 s left (left + step) (left + 2 * step) cmp
    md ← median3 s (mid - step) mid (mid + step) cmp
    hi ← median3 s (right - 2 * step) (right - step) right cmp
    median3 s lo md hi cmp

  -- the loop of partition3
  partition3_from : ℕ → List A → ℕ → ℕ → ℕ → Cmp A → Exec (Split × List A)
  partition3_from zero s lo i hi cmp = spent
  partition3_from (suc fuel) s lo i hi cmp =
      let equal = partition3_from fuel s lo (i + 1) hi cmp in
      let smaller =
        Span.swap_elems s i lo >>= λ t. partition3_from fuel t (lo + 1) (i + 1) hi cmp in
      let greater = Span.swap_elems s i hi >>= λ t. partition3_from fuel t lo i (hi - 1) cmp in
      let round : Exec (Split × List A) = do
        x ← Span.get s i
        y ← Span.get s lo
        if lt0 (cmp x y) then smaller else if gt0 (cmp x y) then greater else equal
      in if leb i hi then round else done (record { lt = lo; gt = hi }, s)

  -- partition3
  pub partition3 : List A → ℕ → ℕ → ℕ → Cmp A → Exec (Split × List A)
  unfolding partition3_from
  partition3 s left right pivot_idx cmp = do
    check (leb left pivot_idx && leb pivot_idx right)
    t ← Span.swap_elems s left pivot_idx
    partition3_from (right - left + 1) t left (left + 1) right cmp

  -- quicksort: a round of its loop, which goes on with the longer side, and its recursion
  quicksort : ℕ → ℕ → List A → ℕ → ℕ → ℕ → Cmp A → Exec (List A)
  unfolding insertion_sort partition3 ninther median3
  quicksort zero elem_size s left right depth cmp = spent
  quicksort (suc fuel) elem_size s left right depth cmp =
      let short : Exec (List A) =
        Span.on_sub s left (right - left + 1) (λ part. insertion_sort elem_size part cmp) in
      let bad_pivots : Exec (List A) =
        Span.on_sub s left (right - left + 1)
          (λ part. make_heap part cmp >>= λ heaped. sort_heap heaped cmp) in
      let split : Exec (List A) = do
        pivot_idx ← ninther s left right cmp
        (p, t) ← partition3 s left right pivot_idx cmp
        let left_first : Exec (List A) = do
          u ←
              if ltb left p.lt
              then quicksort fuel elem_size t left (p.lt - 1) (depth - 1) cmp
              else done t
          quicksort fuel elem_size u (p.gt + 1) right (depth - 1) cmp
        let right_first : Exec (List A) = do
          u ←
              if ltb p.gt right
              then quicksort fuel elem_size t (p.gt + 1) right (depth - 1) cmp
              else done t
          if p.lt == left
              then done u
              else quicksort fuel elem_size u left (p.lt - 1) (depth - 1) cmp
        if ltb (p.lt - left) (right - p.gt) then left_first else right_first
      in if not (ltb left right)
        then done s
        else if leb (right - left + 1) insertion_threshold
        then short
        else if depth == 0
        then bad_pivots
        else split

  -- tda_span_sort
  pub sort : ℕ → List A → Cmp A → Exec (List A)
  unfolding quicksort
  sort elem_size s cmp =
      let all : Exec (List A) = do
        depth ← depth_limit (length s)
        quicksort (length s) elem_size s 0 (length s - 1) depth cmp
      in if ltb (length s) 2 then done s else all

  -- tda_span_is_sorted_until
  is_sorted_until_from : ℕ → ℕ → List A → Cmp A → Exec ℕ
  is_sorted_until_from zero i s cmp = spent
  is_sorted_until_from (suc fuel) i s cmp =
      let rest = is_sorted_until_from fuel (i + 1) s cmp in
      let round : Exec ℕ = do
        prev ← Span.get s (i - 1)
        cur ← Span.get s i
        if gt0 (cmp prev cur) then done i else rest
      in if ltb i (length s) then round else done (length s)

  pub is_sorted_until : List A → Cmp A → Exec ℕ
  unfolding is_sorted_until_from
  is_sorted_until s cmp = is_sorted_until_from (length s + 1) 1 s cmp

  -- tda_span_is_sorted
  pub is_sorted : List A → Cmp A → Exec Bool
  is_sorted s cmp = do n ← is_sorted_until s cmp; done (n == length s)

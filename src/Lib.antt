-- ===== src/Lib.antt =====
-- c_nad: a verification library for terse-dsa, data structures and algorithms written in C.
--
-- The program's parts. Every container and algorithm works on elems that are bytes of one size.
-- include/tda/core has the shared vocabulary: status codes, comparators, spans. A container is
-- handed an allocator (include/tda/alloc/alloc.h) and uses only that one. The algorithms of
-- src/algo read and write spans and know no container; the containers of src/ds hand out spans.
--
-- Which file models which part.
--   Prelude        library names, tests on ℕ, lists with their indices, arrays by index
--                  (Prelude/Array), and the outcome of a call (Prelude/Outcome)
--   Core/Status    include/tda/core/status.h, src/core/status.c
--   Core/Size      size_t, with its wrap-around, and the checked ckd_mul and ckd_add
--   Core/Int       the int that a comparator returns, by its sign
--   Core/Cmp       include/tda/core/cmp.h, src/core/cmp.c: tda_Cmp and the integer comparators
--   Core/Bits      the `&` of src/ds/hmap.c: masks below powers of two
--   Core/Span      include/tda/core/span.h: get, set, sub, swap_elems
--   Alloc          include/tda/alloc/alloc.h, src/alloc/alloc.c; Alloc/Ledger: bytes still owed
--   Algo/Search    the binary searches of src/algo/search.c; Search/Bounds: their proofs
--   Algo/Find      the linear searches of src/algo/search.c; Find/First, Run, Sub, Tally: proofs
--   Algo/Extreme   min_elem, max_elem and minmax_elem of src/algo/search.c
--   Algo/Heap      src/algo/heap.c; Heap/Order, Up, Down, Pop, Sort, Check: proofs
--   Algo/Sort      src/algo/sort.c: insertion sort and quicksort; Sort/Select: nth_elem and
--                  partial_sort; Sort/Insertion, Stable, Within, Partition, Quick, Check: proofs
--   Algo/Merge     merge of src/algo/merge.c, src/internal/emit.h; Merge/Order: proofs
--   Algo/Modify    src/algo/modify.c; Modify/Keep: proofs
--   Ds/Block       the slots behind a container: memcpy, memmove and memset elem by elem
--   Ds/Vec         src/ds/vec.c; Vec/Grow: the part that allocates; Vec/Holds: when a vec holds a
--                  list; Vec/Mods, Grow/Reserve, Grow/Insert, Grow/Bulk, Grow/Shrink: proofs;
--                  Grow/Life: constructors and copies; Grow/Copies: their proofs
--   Ds/Deque       src/ds/deque.c: the ring; Deque/Grow: the part that allocates, Grow/Life: the
--                  constructors and the copy; Deque/Compare: eq and eq_by; Deque/Holds: when a
--                  ring holds a list; Deque/Slide, Deque/Mods, Grow/Unroll, Grow/Reserve,
--                  Grow/Insert, Grow/Bulk, Deque/Swap: proofs
--   Ds/Hmap        src/ds/hmap.c: buckets, growth, constructors; Hmap/Entries: the part that asks
--                  for keys; Entries/Chains, Tables, Relink, Rehash, Lookup, Adding, Mods, Remove,
--                  Hmap/Sizes: proofs
--   Ds/Hset        src/ds/hset.c, over Ds/Hmap; Hset/Keys: proofs
--   Ds/Handle      what the containers around another one share
--   Ds/Stack       src/ds/stack.c, over Ds/Vec; Stack/Lifo: proofs
--   Ds/Queue       src/ds/queue.c, over Ds/Deque; Queue/Fifo: proofs
--   Ds/Pqueue      src/ds/pqueue.c, over Ds/Vec and Algo/Heap; Pqueue/Order, Made: proofs
--   Tests          each theorem with hypotheses at a concrete input
--
-- How state and operations correspond. A definition has the C function's name without the
-- `tda_<type>_` prefix. An elem is one value of a type A, which stands for its elem_size bytes; a
-- span is the list of its elems; a function that writes through a pointer returns what it wrote.
-- A block is a list of slots, `none` where nothing was written yet. A failed assert and an access
-- outside a block or a span are `trap`, so a theorem that a call is `done` includes that neither
-- happens. A status is a value next to the container that the call leaves. The allocator is a
-- record of callbacks with a state of its own, as in the C table: whether a callback returns a
-- block is its answer, and every theorem on a container holds for any answers. The map asserts
-- that the block of a node is aligned to alignof(max_align_t), which `aligned` of the record tells:
-- where the assertion fails the call traps, and the theorems on calls that make a node ask for an
-- allocator whose blocks are aligned (Aligned), as those of malloc are. The ring adds its
-- head and an index in size_t, so its theorems on allocation ask that the allocator hands out no
-- block of 2 ^ 63 bytes or more (Limited, the bound PTRDIFF_MAX on objects). size_t is a natural
-- number below 2 ^ 64, with `%` or a checked operation where the code computes with it.
--
-- A chain of the hash map is the list of its nodes in order, so a node's `next` is its place in the
-- list. The hasher and the equality of a map are parameters; IsHashing states what they have to
-- keep: an equivalence under which equal keys hash alike. A map holds a mapping from keys to values
-- (Holds) when each key stands once at most, in the bucket of its hash. A stack, a queue and a
-- priority queue own the container that they wrap, which is therefore a field. A sort gets the
-- elem_size too, since insertion sort moves small elems and swaps large ones.
--
-- Fuel. A loop over an index that does not end by structure runs on fuel: the length of the span
-- for a search and for a heap's sifting, and the number of elems for the linear loops. Quicksort
-- and nth_elem have fuel for as many nested rounds as the span is long, since every round hands on
-- a shorter range; the doubling of round_up_pow2 has 64 rounds, after which size_t would overflow.
-- `spent`, the outcome of a loop without fuel, is never `done`, so each theorem that a call is
-- `done` includes that the fuel is enough.
--
-- Not modelled: printing, hashing, random numbers, the concrete allocators, float comparators, the
-- stable merge sort, the merge in place, the other algorithms (sets, permuting, copying, folding), the copies,
-- comparison and node iteration of the hash map and of the hash set, the other containers (arr, bitset,
-- list), the assignments and swaps of whole containers; test programs, benchmarks and the
-- third-party test framework.

pub mod Prelude
pub mod Core
pub mod Alloc
pub mod Algo
pub mod Ds
pub mod Tests

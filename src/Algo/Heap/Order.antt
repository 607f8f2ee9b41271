-- ===== src/Algo/Heap/Order.antt =====
-- The heap order, and what follows from it for the root.
use mathlib.Core.List.Perm
use c_nad.Core.Cmp.{Cmp, Le, IsOrder, Le_refl}
use c_nad.Prelude.Array.{get_or, exchange, get_or-exchange, exchange-perm}
use c_nad.Prelude.{ℕ, zero, suc, ◌≤◌, ◌<◌, ◌≡◌, List, Perm, arith, length}
use c_nad.Algo.Heap.{parent}

module _ {A : Type 0} (d : A) (cmp : Cmp A) where
  -- among the first `n` entries, those whose parent is at `lo` or later do not come after it
  abbrev pub IsHeapFrom : ℕ → List A → ℕ → Type 0
  IsHeapFrom lo s n =
      (c : ℕ) → 0 < c → c < n → lo ≤ parent c → Le cmp (get_or s c d) (get_or s (parent c) d)

  -- no entry of the first `n` comes after its parent
  abbrev pub IsHeap : List A → ℕ → Type 0
  IsHeap s n = IsHeapFrom 0 s n

  -- the edges past `i`, from its children to its parent, are in order
  abbrev pub IsBridged : ℕ → List A → ℕ → ℕ → Type 0
  IsBridged lo s n i =
      (c : ℕ)
      → 0 < c
      → c < n
      → parent c ≡ i
      → 0 < i
      → lo ≤ parent i
      → Le cmp (get_or s c d) (get_or s (parent i) d)

  -- `t` is a rearrangement of `s` that is a heap from `lo` on, and is `s` from `n` on
  pub record Sifted (lo : ℕ) (s : List A) (n : ℕ) (t : List A) : Type 0 where
    pub heap : IsHeapFrom lo t n
    pub same : Perm t s
    pub behind : (i : ℕ) → n ≤ i → get_or t i d ≡ get_or s i d

  pub Sifted-exchange :
      (lo n i j : ℕ) (s t : List A)
      → i < length s
      → j < length s
      → i < n
      → j < n
      → Sifted lo (exchange d s i j) n t
      → Sifted lo s n t
  Sifted-exchange lo n i j s t hi hj ni nj v = record {
    heap = v.heap;
    same = Perm.trans v.same (exchange-perm d s i j hi hj);
    behind = λ c p. ground (arith, v.behind c, get_or-exchange d s i j hi hj c);
  }

  -- In a heap no entry comes after the root.
  pub root-greatest :
      (o : IsOrder cmp) (fuel : ℕ) (s : List A) (n i : ℕ)
      → IsHeap s n
      → i < fuel
      → i < n
      → Le cmp (get_or s i d) (get_or s 0 d)
  root-greatest o zero s n i h f p = absurd (omega arith)
  root-greatest o (suc fuel) s n zero h f p = Le_refl o (get_or s 0 d)
  root-greatest o (suc fuel) s n (suc i) h f p =
      o.trans (get_or s (suc i) d) (get_or s (parent (suc i)) d) (get_or s 0 d)
        (h (suc i) (omega arith) p (omega arith))
        (root-greatest o fuel s n (parent (suc i)) h (omega arith) (omega arith))

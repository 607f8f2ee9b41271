-- ===== src/Algo/Merge.antt =====
-- src/algo/merge.c: tda_span_merge, with the writes of src/internal/emit.h. A function that writes to
-- its span returns the span. Fuel bounds the rounds of the loop.
pub mod Order
use c_nad.Core.Span
use c_nad.Core.Cmp.{Cmp}
use c_nad.Core.Int.{le0}
use c_nad.Prelude.{
  ℕ, zero, suc, ◌+◌, ◌-◌, ◌&&◌, List, ◌++◌, ltb, leb, ◌==◌, if◌then◌else◌, length, take, drop, Exec,
  done, spent, ◌>>=◌, ◌>>◌, check,
}

module _ {A : Type 0} where
  -- tda_emit_rest: the next write position and the span
  pub emit_rest : List A → ℕ → List A → ℕ → Exec (ℕ × List A)
  emit_rest dst out src from =
      let n = length src - from in
      let copied : Exec (ℕ × List A) = do
        check (ltb out (length dst))
        check (leb (out + n) (length dst))
        done (out + n, take out dst ++ (drop from src ++ drop (out + n) dst))
      in if leb (length src) from then done (out, dst) else copied

  -- the loop of tda_span_merge, and what follows it
  merge_from : ℕ → List A → ℕ → List A → ℕ → List A → ℕ → Cmp A → Exec (List A)
  unfolding emit_rest
  merge_from zero dst out a i b j cmp = spent
  merge_from (suc fuel) dst out a i b j cmp =
      let rest : Exec (List A) = do
        (out₁, dst₁) ← emit_rest dst out a i
        (out₂, dst₂) ← emit_rest dst₁ out₁ b j
        check (out₂ == length dst₂)
        done dst₂
      in let round : Exec (List A) = do
        l ← Span.get a i
        r ← Span.get b j
        let from_a = Span.set dst out l >>= λ t. merge_from fuel t (out + 1) a (i + 1) b j cmp
        let from_b = Span.set dst out r >>= λ t. merge_from fuel t (out + 1) a i b (j + 1) cmp
        if le0 (cmp l r) then from_a else from_b
        in if ltb i (length a) && ltb j (length b) then round else rest

  -- tda_span_merge
  pub merge : List A → List A → List A → Cmp A → Exec (List A)
  unfolding merge_from
  merge dst a b cmp = do
    check (length dst == length a + length b)
    merge_from (length a + length b + 1) dst 0 a 0 b 0 cmp

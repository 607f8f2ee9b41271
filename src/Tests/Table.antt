-- ===== src/Tests/Table.antt =====
-- Facts about every index below a numeral, by evaluation.
use c_nad.Prelude.{
  ℕ, zero, suc, ◌<◌, ◌≡◌, inl, inr, Bool, true, ◌&&◌, arith, ◌==◌, ==_iff, Bool-cases,
}

unfoldable pub all_below : ℕ → (ℕ → Bool) → Bool
all_below zero p = true
all_below (suc n) p = p n && all_below n p

pub all_below-entry : (n : ℕ) (p : ℕ → Bool) (x : ℕ) → all_below n p ≡ true → x < n → p x ≡ true
unfolding all_below
all_below-entry zero p x h q = elim q [ ]
all_below-entry (suc n) p x h q = elim (Bool-cases (x == n)) [
  | inl e ↦ let same : x ≡ n = (==_iff x n).0 e in rw same (ground arith)
  | inr e ↦ all_below-entry n p x (ground arith) (ground arith)
]

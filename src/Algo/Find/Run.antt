-- ===== src/Algo/Find/Run.antt =====
-- find_run: the first run of `count` entries equal to the key.
use c_nad.Prelude.Array.{get_or}
use c_nad.Prelude.{
  ℕ, zero, suc, ◌+◌, ◌-◌, ◌≤◌, ◌<◌, ◌≡◌, ap, ◌∙◌, inl, inr, Bool, true, false, Option, none, some,
  List, [], ◌∷◌, arith, ◌==◌, Bool-cases, length,
}
use c_nad.Algo.Find.{find_run_from, find_run}

module _ {A : Type 0} (d : A) (all : List A) (key : A) (eq : A → A → Bool) where
  -- the entries from `lo` up to `hi` are all equal to the key
  abbrev pub IsRun : ℕ → ℕ → Type 0
  IsRun lo hi = (j : ℕ) → lo ≤ j → j < hi → eq (get_or all j d) key ≡ true

  -- What find_run reports: the start of the first run of `count` entries, or that there is none.
  abbrev pub IsFirstRun : ℕ → Option ℕ → Type 0
  IsFirstRun count none = (b : ℕ) → b + count ≤ length all → ¬ IsRun b (b + count)
  IsFirstRun count (some k) =
      (k + count ≤ length all) × IsRun k (k + count) × ((b : ℕ) → b < k → ¬ IsRun b (b + count))

  -- after `i` entries, the last `run` of which are equal to the key, and no more
  record RunInv (count i run : ℕ) : Type 0 where
    short : run < count
    fits : run ≤ i
    equal : IsRun (i - run) i
    stops : run < i → eq (get_or all (i - run - 1) d) key ≡ false
    none_yet : (b : ℕ) → b + count ≤ i → ¬ IsRun b (b + count)

  module _ (count i run : ℕ) (v : RunInv count i run) where
    -- no run of `count` entries ends at `i + 1` if fewer than `count` before it are equal
    none_next : suc run < count → (b : ℕ) → b + count ≤ i + 1 → ¬ IsRun b (b + count)
    none_next more b p r = elim (Bool-cases (b + count == i + 1)) [
      | inl e ↦ ground (arith, r (i - run - 1), v.stops)
      | inr e ↦ v.none_yet b (ground arith) r
    ]

    RunInv-more : eq (get_or all i d) key ≡ true → suc run < count → RunInv count (i + 1) (run + 1)
    RunInv-more e more = record {
      short = omega arith;
      fits = omega (arith, v.fits);
      equal = λ j p q. elim (Bool-cases (j == i)) [
        | inl s ↦ ground arith
        | inr s ↦ v.equal j (ground arith) (ground arith)
      ];
      stops = λ p. ground (arith, v.stops);
      none_yet = none_next more;
    }

    RunInv-reset : eq (get_or all i d) key ≡ false → RunInv count (i + 1) 0
    RunInv-reset e = record {
      short = omega (arith, v.short);
      fits = omega arith;
      equal = λ j p q. absurd (omega arith);
      stops = λ p. ground arith;
      none_yet = λ b p r. elim (Bool-cases (b + count == i + 1)) [
        | inl s ↦ ground (arith, r i, v.short)
        | inr s ↦ v.none_yet b (ground arith) r
      ];
    }

    RunInv-found :
        eq (get_or all i d) key ≡ true
        → run + 1 ≡ count
        → i < length all
        → IsFirstRun count (some (i + 1 - count))
    RunInv-found e full in_s = (
      omega (arith, v.fits),
      λ j p q. elim (Bool-cases (j == i)) [
        | inl s ↦ ground arith
        | inr s ↦ v.equal j (ground (arith, v.fits)) (ground (arith, v.fits))
      ],
      λ b p. v.none_yet b (omega (arith, v.fits)),
    )

module _ {A : Type 0} (d : A) (key : A) (eq : A → A → Bool) where
  find_run_from-IsFirstRun :
      (all : List A) (count i run : ℕ) (s : List A)
      → RunInv d all key eq count i run
      → ((k : ℕ) → k < length s → get_or all (i + k) d ≡ get_or s k d)
      → length all ≡ i + length s
      → IsFirstRun d all key eq count (find_run_from i run s key count eq)
  unfolding find_run_from get_or
  find_run_from-IsFirstRun all count i run [] v same size = λ b p. v.none_yet b (omega arith)
  find_run_from-IsFirstRun all count i run (x ∷ s) v same size =
      let here : get_or all i d ≡ x =
        ap (λ k. get_or all k d) (omega arith) ∙ same 0 (omega arith) in
      let step = λ (k : ℕ) (p : k < length s).
        ap (λ j. get_or all j d) (shift i k) ∙ same (suc k) (omega arith) in
      let add : run + 1 ≡ suc run = omega arith in
      elim (Bool-cases (eq x key)) [
        | inl e ↦ elim (Bool-cases (run + 1 == count)) [
          | inl full ↦
              rw (e, full)
                (RunInv-found d all key eq count i run v (rw here e) (ground arith) (omega arith))
          | inr more ↦
              rw (e, more)
                (find_run_from-IsFirstRun all count (i + 1) (run + 1) s
                  (RunInv-more d all key eq count i run v (rw here e) (ground (arith, v.short)))
                  step (omega arith))
        ]
        | inr e ↦
            let empty : (0 == count) ≡ false = ground (arith, v.short) in
            rw (e, empty)
              (find_run_from-IsFirstRun all count (i + 1) 0 s
                (RunInv-reset d all key eq count i run v (rw here e)) step (omega arith))
      ]
    where
      shift : (i k : ℕ) → i + 1 + k ≡ i + suc k
      shift i k = omega arith

  -- find_run returns the start of the first run of `count` entries equal to the key, and false when
  -- there is none; a run of none is found at the front.
  pub find_run-IsFirstRun :
      (s : List A) (count : ℕ) → IsFirstRun d s key eq count (find_run s key count eq)
  unfolding find_run
  find_run-IsFirstRun s zero =
      (omega arith, λ j p q. absurd (omega arith), λ b p. absurd (omega arith))
  find_run-IsFirstRun s (suc n) =
      let some_count : (suc n == 0) ≡ false = ground arith in
      rw some_count (
        find_run_from-IsFirstRun s (suc n) 0 0 s
          (record {
            short = omega arith;
            fits = omega arith;
            equal = λ j p q. absurd (omega arith);
            stops = λ p. absurd (omega arith);
            none_yet = λ b p. absurd (omega arith);
          })
          (λ k p. ap (λ j. get_or s j d) (omega arith)) (omega arith))

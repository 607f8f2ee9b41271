-- ===== src/Ds/Stack/Lifo.antt =====
-- What a stack promises: the last elem pushed is the first one out.
use c_nad.Prelude.Array.{get_elem?-snoc, take-snoc}
use c_nad.Prelude.{
  ◌-◌, ◌<◌, ◌≡◌, refl, List, [], ◌∷◌, ◌++◌, arith, lt→ltb, length, length-append, done, Returns,
  Returns-bind, Returns-check,
}
use c_nad.Alloc.{Al}
use c_nad.Ds.Handle.{Settled, Settled-wrapped}
use c_nad.Ds.Vec.Holds.{Holds}
use c_nad.Ds.Vec.Mods.{get-entry, pop-Holds}
use c_nad.Ds.Vec.Grow.Insert.{push-Settled}
use c_nad.Ds.Stack.{Stack, Outcome, top, pop, push}

-- the elems from the bottom, where a list has the top first
unfoldable pub from_bottom : {A : Type 0} → List A → List A
from_bottom [] = []
from_bottom (x ∷ xs) = from_bottom xs ++ (x ∷ [])

-- `s` is the stack of the elems of `xs`, the top first
abbrev pub IsStackOf : {A : Type 0} → List A → Stack A → Type 0
IsStackOf xs s = Holds s.vec (from_bottom xs)

module _ {A : Type 0} {s : Stack A} (x : A) (xs : List A) (h : IsStackOf (x ∷ xs) s) where
  -- top returns the first elem, and pop leaves the others
  top-pop : (top s ≡ done x) × Returns (IsStackOf xs) (pop s)
  unfolding top pop from_bottom
  top-pop =
      let size = length-append (from_bottom xs) (x ∷ []) in
      let pos : 0 < s.vec.len = omega (arith, h.count, size) in
      let last = length (from_bottom xs) in
      let in_s : last < length (from_bottom xs ++ (x ∷ [])) = omega (arith, size) in
      let cut : length (from_bottom xs ++ (x ∷ [])) - 1 ≡ last = omega (arith, size) in
      (
        rw (lt→ltb 0 s.vec.len pos)
            ((get-entry h last (get_elem?-snoc (from_bottom xs) x)).2 (omega (arith, size))),
        Returns-check _ (lt→ltb 0 s.vec.len pos) (
            Returns-bind _ _ (pop-Holds h (omega (arith, in_s)))
              λ v u. (_, refl, rw (cut, take-snoc (from_bottom xs) x) at u.0)),
      )

module _ {A : Type 0} (al : Al) {s : Stack A} (xs : List A) (h : IsStackOf xs s) where
  -- push returns: with success the stack is the old one under the new elem, which top returns and pop
  -- takes off again; with a refusal it is as it was.
  pub push-top-pop :
      (st : al.State) (val : A)
      → Returns {A = Outcome al A}
          (Settled s
            (λ t. IsStackOf (val ∷ xs) t × (top t ≡ done val) × Returns (IsStackOf xs) (pop t)))
          (push al s st val)
  unfolding push from_bottom
  push-top-pop st val = Returns-bind _ _ (push-Settled al h st val) λ r u. (
    _,
    refl,
    Settled-wrapped {R = Stack A} (λ v. record { vec = v }) s.vec _ r
        (λ w a. let (read, popped) = top-pop val xs a.0 in (a.0, read, popped)) u,
  )

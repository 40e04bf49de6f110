-- ===== src/Base/Lists.antt =====
-- Lists over the native numbers, and the predicates that the components share.
use Prim.Native.Nat.{ℕ, zero, suc, ◌+◌, ◌≤◌}
use Prim.Native.String.{String}
use mathlib.Core.Path.{◌≡◌, refl}
use mathlib.Core.Logic.{◌⊎◌, inl, inr}
use mathlib.Core.Bool.{Bool, true, false, ◌||◌}
use mathlib.Core.List.{List, [], ◌∷◌, ◌++◌}
use native.Mathlib.Omega.{arith}
use text.Mathlib.Text.{◌==◌}
use text.Mathlib.TextEquality.{eq_iff}
use caep_dev.Base.Tests.{if◌then◌else◌}

module _ {ℓ} {A : Type ℓ} where
  abbrev pub length : List A → ℕ
  length [] = 0
  length (x ∷ xs) = suc (length xs)

  -- keep what passes the test, in order
  unfoldable pub keep : (A → Bool) → List A → List A
  keep p [] = []
  keep p (x ∷ xs) = let rest = keep p xs in if p x then x ∷ rest else rest

  -- the first items, `n` at most
  abbrev pub take : ℕ → List A → List A
  take zero xs = []
  take (suc n) [] = []
  take (suc n) (x ∷ xs) = x ∷ take n xs

  pub take-all : (n : ℕ) (xs : List A) → length xs ≤ n → take n xs ≡ xs
  take-all zero [] h = refl
  take-all zero (x ∷ xs) h = absurd (omega arith)
  take-all (suc n) [] h = refl
  take-all (suc n) (x ∷ xs) h = cc (take-all n xs (omega arith))

  pub keep-append : (p : A → Bool) (xs ys : List A) → keep p (xs ++ ys) ≡ keep p xs ++ keep p ys
  unfolding keep
  keep-append p [] ys = refl
  keep-append p (x ∷ xs) ys = ground (arith, keep-append p xs ys)

  pub length-append : (xs ys : List A) → length (xs ++ ys) ≡ length xs + length ys
  length-append [] ys = omega arith
  length-append (x ∷ xs) ys = omega (arith, length-append xs ys)

-- A predicate of every item, by recursion, so that it computes to a tuple.
abbrev pub All {ℓ κ} : {A : Type ℓ} → (A → Type κ) → List A → Type κ
All P [] = Unit
All P (x ∷ xs) = P x × All P xs

-- the loops `for _, t := range ts { if t == s { … } }` over texts
unfoldable pub contains : List String → String → Bool
contains [] s = false
contains (t ∷ ts) s = t == s || contains ts s

-- the text is in the list
abbrev pub Holds : String → List String → Type 0
Holds s [] = ⊥
Holds s (t ∷ ts) = (t ≡ s) ⊎ Holds s ts

pub Holds-of_contains : (ts : List String) (s : String) → contains ts s ≡ true → Holds s ts
unfolding contains
Holds-of_contains [] s h = cc h
Holds-of_contains (t ∷ ts) s h = ground (arith, eq_iff t s, Holds-of_contains ts s)

pub contains_of_Holds : (ts : List String) (s : String) → Holds s ts → contains ts s ≡ true
unfolding contains
contains_of_Holds (t ∷ ts) s (inl e) = ground (arith, eq_iff t s)
contains_of_Holds (t ∷ ts) s (inr h) = ground (arith, contains_of_Holds ts s h)
contains_of_Holds [] s h = absurd h

-- `copy` into a new slice of the same length
unfoldable pub copy {ℓ} : {A : Type ℓ} → List A → List A
copy [] = []
copy (x ∷ xs) = x ∷ copy xs

pub copy_lem {ℓ} : {A : Type ℓ} (xs : List A) → copy xs ≡ xs
unfolding copy
copy_lem [] = refl
copy_lem (x ∷ xs) = cc (copy_lem xs)

-- ===== src/Base/Dict.antt =====
-- Go's maps with text keys, as association lists. The order of the entries stands for the order
-- in which `range` visits them, which Go leaves open: the theorems hold for every order.
use Prim.Native.String.{String}
use mathlib.Core.Path.{◌≡◌, refl}
use mathlib.Core.Logic.{◌≢◌}
use mathlib.Core.Option.{Option, none, some}
use mathlib.Core.List.{List, [], ◌∷◌}
use native.Mathlib.Omega.{arith}
use text.Mathlib.Text.{◌==◌}
use text.Mathlib.TextEquality.{eq_iff}
use text.Mathlib.TextPositions.{eq_refl}
use caep_dev.Base.Tests.{if◌then◌else◌}
use caep_dev.Base.Lists.{All}

abbrev pub Dict {ℓ} : Type ℓ → Type ℓ
Dict V = List (String × V)

module _ {ℓ} {V : Type ℓ} where
  -- v, ok := m[k]
  unfoldable pub lookup : String → Dict V → Option V
  lookup k [] = none
  lookup k ((j, v) ∷ m) = if j == k then some v else lookup k m

  -- m[k] = v
  unfoldable pub put : String → V → Dict V → Dict V
  put k v [] = (k, v) ∷ []
  put k v ((j, w) ∷ m) = if j == k then (k, v) ∷ m else (j, w) ∷ put k v m

  -- delete(m, k)
  unfoldable pub remove : String → Dict V → Dict V
  remove k [] = []
  remove k ((j, v) ∷ m) = let rest = remove k m in if j == k then rest else (j, v) ∷ rest

  -- the values, in the order in which `range` visits them
  unfoldable pub values : Dict V → List V
  values [] = []
  values ((j, v) ∷ m) = v ∷ values m

  pub lookup-put :
      (k j : String) (v : V) (m : Dict V)
      → lookup j (put k v m) ≡ (if k == j then some v else lookup j m)
  unfolding lookup put
  lookup-put k j v [] = refl
  lookup-put k j v ((i, w) ∷ m) =
      ground (arith, eq_iff k j, eq_iff i k, eq_iff i j, lookup-put k j v m)

  pub lookup-remove :
      (k j : String) (m : Dict V) → lookup j (remove k m) ≡ (if k == j then none else lookup j m)
  unfolding lookup remove
  lookup-remove k j [] = ground arith
  lookup-remove k j ((i, w) ∷ m) =
      ground (arith, eq_iff k j, eq_iff i k, eq_iff i j, lookup-remove k j m)

  pub lookup-put_ne :
      (k j : String) (v : V) (m : Dict V) → k ≢ j → lookup j (put k v m) ≡ lookup j m
  lookup-put_ne k j v m h = ground (arith, lookup-put k j v m, eq_iff k j)

  pub lookup-put_self : (k : String) (v : V) (m : Dict V) → lookup k (put k v m) ≡ some v
  lookup-put_self k v m = rw lookup-put (rw eq_refl refl)

  pub lookup-remove_ne : (k j : String) (m : Dict V) → k ≢ j → lookup j (remove k m) ≡ lookup j m
  lookup-remove_ne k j m h = ground (arith, lookup-remove k j m, eq_iff k j)

  -- no key occurs twice
  abbrev pub HasDistinctKeys : Dict V → Type ℓ
  HasDistinctKeys [] = Unit
  HasDistinctKeys ((k, v) ∷ m) = (lookup k m ≡ none) × HasDistinctKeys m

  pub put-HasDistinctKeys :
      (k : String) (v : V) (m : Dict V) → HasDistinctKeys m → HasDistinctKeys (put k v m)
  unfolding put lookup
  put-HasDistinctKeys k v [] h = (refl, tt)
  put-HasDistinctKeys k v ((j, w) ∷ m) (fresh, h) =
      ground (arith, eq_iff j k, eq_iff k j, lookup-put k j v m, put-HasDistinctKeys k v m h)

  pub remove-HasDistinctKeys :
      (k : String) (m : Dict V) → HasDistinctKeys m → HasDistinctKeys (remove k m)
  unfolding remove
  remove-HasDistinctKeys k [] h = tt
  remove-HasDistinctKeys k ((j, w) ∷ m) (fresh, h) =
      ground (arith, lookup-remove k j m, remove-HasDistinctKeys k m h)

  -- `P` holds of every entry
  abbrev pub AllEntries : (String → V → Type 0) → Dict V → Type 0
  AllEntries P = All (λ e. P e.0 e.1)

  pub AllEntries-lookup :
      (P : String → V → Type 0) (k : String) (v : V) (m : Dict V)
      → AllEntries P m
      → lookup k m ≡ some v
      → P k v
  unfolding lookup
  AllEntries-lookup P k v [] h e = cc
  AllEntries-lookup P k v ((j, w) ∷ m) (p, h) e =
      ground (arith, eq_iff j k, AllEntries-lookup P k v m h)

  pub AllEntries-put :
      (P : String → V → Type 0) (k : String) (v : V) (m : Dict V)
      → AllEntries P m
      → P k v
      → AllEntries P (put k v m)
  unfolding put
  AllEntries-put P k v [] h p = (p, tt)
  AllEntries-put P k v ((j, w) ∷ m) (q, h) p = ground (arith, AllEntries-put P k v m h p)

  pub AllEntries-remove :
      (P : String → V → Type 0) (k : String) (m : Dict V)
      → AllEntries P m
      → AllEntries P (remove k m)
  unfolding remove
  AllEntries-remove P k [] h = tt
  AllEntries-remove P k ((j, w) ∷ m) (q, h) = ground (arith, AllEntries-remove P k m h)

-- ===== src/Base/Results.antt =====
-- Go's `(value, error)` results, and the errors of calls that return only an error.

pub data Result {ℓ} (E A : Type ℓ) : Type ℓ where
  ok : A → Result E A
  err : E → Result E A

module _ {ℓ} {E A B : Type ℓ} where
  -- what follows `if err != nil { return err }`
  unfoldable pub and_then : Result E A → (A → Result E B) → Result E B
  and_then (ok a) next = next a
  and_then (err e) next = err e

-- ===== src/Models/Value.antt =====
-- The dynamic values (`interface{}`) that JSON decoding produces, and Go's `==` on them.
use caep_dev.Base.{
  ℕ, ◌%◌, ◌^◌, ◌≡◌, refl, String, Bool, true, false, not, ◌&&◌, ◌||◌, eqb, ltb, ◌==◌,
}
use caep_dev.Base.{Outcome, returns, panics}

-- `num` is a float64 by its 64 bits; `arr` is `[]interface{}`, `obj` is `map[string]interface{}`.
mutual
  pub data Value : Type 0 where
    null : Value
    bool : Bool → Value
    num : (bits : ℕ) → Value
    str : String → Value
    arr : (items : Items) → Value
    obj : (fields : Fields) → Value

  pub data Fields : Type 0 where
    no_fields : Fields
    field : (key : String) (value : Value) (rest : Fields) → Fields

  pub data Items : Type 0 where
    nil : Items
    cons : (item : Value) (rest : Items) → Items

-- The sign bit is the highest: +0 and -0 are the same number.
abbrev pub float_is_zero : ℕ → Bool
float_is_zero x = eqb (x % 2 ^ 63) 0

abbrev is_nan : ℕ → Bool
is_nan x = ltb 9218868437227405312 (x % 2 ^ 63)

unfoldable pub float_eq : ℕ → ℕ → Bool
float_eq a b = not (is_nan a) && not (is_nan b) && (eqb a b || float_is_zero a && float_is_zero b)

abbrev bool_eq : Bool → Bool → Bool
bool_eq true b = b
bool_eq false b = not b

-- `a == b` on two interface values. Two slices, or two maps, cannot be compared: Go panics. Values
-- of different dynamic types are different.
unfoldable pub value_eq : Value → Value → Outcome Bool
unfolding float_eq
value_eq null null = returns true
value_eq (bool a) (bool b) = returns (bool_eq a b)
value_eq (num a) (num b) = returns (float_eq a b)
value_eq (str a) (str b) = returns (a == b)
value_eq (arr a) (arr b) = panics
value_eq (obj a) (obj b) = panics
value_eq _ _ = returns false

-- a value that `==` can compare with any other
abbrev pub IsComparable : Value → Type 0
IsComparable (arr a) = ⊥
IsComparable (obj a) = ⊥
IsComparable _ = Unit

-- A comparison against a comparable value returns.
pub value_eq-returns : (a b : Value) → IsComparable b → (r : Bool) × (value_eq a b ≡ returns r)
unfolding value_eq
value_eq-returns null null h = (_, refl)
value_eq-returns null (bool b) h = (_, refl)
value_eq-returns null (num b) h = (_, refl)
value_eq-returns null (str b) h = (_, refl)
value_eq-returns (bool a) null h = (_, refl)
value_eq-returns (bool a) (bool b) h = (_, refl)
value_eq-returns (bool a) (num b) h = (_, refl)
value_eq-returns (bool a) (str b) h = (_, refl)
value_eq-returns (num a) null h = (_, refl)
value_eq-returns (num a) (bool b) h = (_, refl)
value_eq-returns (num a) (num b) h = (_, refl)
value_eq-returns (num a) (str b) h = (_, refl)
value_eq-returns (str a) null h = (_, refl)
value_eq-returns (str a) (bool b) h = (_, refl)
value_eq-returns (str a) (num b) h = (_, refl)
value_eq-returns (str a) (str b) h = (_, refl)
value_eq-returns (arr a) null h = (_, refl)
value_eq-returns (arr a) (bool b) h = (_, refl)
value_eq-returns (arr a) (num b) h = (_, refl)
value_eq-returns (arr a) (str b) h = (_, refl)
value_eq-returns (obj a) null h = (_, refl)
value_eq-returns (obj a) (bool b) h = (_, refl)
value_eq-returns (obj a) (num b) h = (_, refl)
value_eq-returns (obj a) (str b) h = (_, refl)
value_eq-returns a (arr b) h = absurd h
value_eq-returns a (obj b) h = absurd h

-- ===== src/Models/Filter/Clashes.antt =====
-- When `EventFilter.Matches` of ssf-hub/pkg/models/event.go panics.
use mathlib.Core.Logic.{inl, inr}
use caep_dev.Base.{
  true, false, ◌≡◌, refl, ◌≢◌, ◌↔◌, ◌⊎◌, arith, eq_iff, returns, panics, Outcome-cases,
}
use caep_dev.Models.Value.{Value, null, bool, num, str, arr, obj, Items, nil, cons, value_eq}
use caep_dev.Models.Receiver.{EventFilter}
use caep_dev.Models.Event.{SecurityEvent}
use caep_dev.Models.Filter.{
  op_equals, op_in, extract_field_value, equals, matches, in_items, is_in, is_nil, filter_matches,
}
use caep_dev.Models.Filter.Laws.{contains-ne-panics}

-- Two lists, or two maps
abbrev pub Clash : Value → Value → Type 0
Clash (arr a) (arr b) = Unit
Clash (obj a) (obj b) = Unit
Clash _ _ = ⊥

-- an item of the list clashes with the value
abbrev pub ClashAmong : Value → Items → Type 0
ClashAmong a nil = ⊥
ClashAmong a (cons v vs) = Clash a v ⊎ ClashAmong a vs

abbrev pub ClashIn : Value → Value → Type 0
ClashIn a (arr items) = ClashAmong a items
ClashIn a _ = ⊥

value_eq_iff : (a b : Value) → (value_eq a b ≡ panics) ↔ Clash a b
unfolding value_eq
value_eq_iff null null = (λ h. absurd (cc h), λ h. absurd h)
value_eq_iff null (bool b) = (λ h. absurd (cc h), λ h. absurd h)
value_eq_iff null (num b) = (λ h. absurd (cc h), λ h. absurd h)
value_eq_iff null (str b) = (λ h. absurd (cc h), λ h. absurd h)
value_eq_iff null (arr b) = (λ h. absurd (cc h), λ h. absurd h)
value_eq_iff null (obj b) = (λ h. absurd (cc h), λ h. absurd h)
value_eq_iff (bool a) null = (λ h. absurd (cc h), λ h. absurd h)
value_eq_iff (bool a) (bool b) = (λ h. absurd (cc h), λ h. absurd h)
value_eq_iff (bool a) (num b) = (λ h. absurd (cc h), λ h. absurd h)
value_eq_iff (bool a) (str b) = (λ h. absurd (cc h), λ h. absurd h)
value_eq_iff (bool a) (arr b) = (λ h. absurd (cc h), λ h. absurd h)
value_eq_iff (bool a) (obj b) = (λ h. absurd (cc h), λ h. absurd h)
value_eq_iff (num a) null = (λ h. absurd (cc h), λ h. absurd h)
value_eq_iff (num a) (bool b) = (λ h. absurd (cc h), λ h. absurd h)
value_eq_iff (num a) (num b) = (λ h. absurd (cc h), λ h. absurd h)
value_eq_iff (num a) (str b) = (λ h. absurd (cc h), λ h. absurd h)
value_eq_iff (num a) (arr b) = (λ h. absurd (cc h), λ h. absurd h)
value_eq_iff (num a) (obj b) = (λ h. absurd (cc h), λ h. absurd h)
value_eq_iff (str a) null = (λ h. absurd (cc h), λ h. absurd h)
value_eq_iff (str a) (bool b) = (λ h. absurd (cc h), λ h. absurd h)
value_eq_iff (str a) (num b) = (λ h. absurd (cc h), λ h. absurd h)
value_eq_iff (str a) (str b) = (λ h. absurd (cc h), λ h. absurd h)
value_eq_iff (str a) (arr b) = (λ h. absurd (cc h), λ h. absurd h)
value_eq_iff (str a) (obj b) = (λ h. absurd (cc h), λ h. absurd h)
value_eq_iff (arr a) null = (λ h. absurd (cc h), λ h. absurd h)
value_eq_iff (arr a) (bool b) = (λ h. absurd (cc h), λ h. absurd h)
value_eq_iff (arr a) (num b) = (λ h. absurd (cc h), λ h. absurd h)
value_eq_iff (arr a) (str b) = (λ h. absurd (cc h), λ h. absurd h)
value_eq_iff (arr a) (arr b) = (λ h. tt, λ h. refl)
value_eq_iff (arr a) (obj b) = (λ h. absurd (cc h), λ h. absurd h)
value_eq_iff (obj a) null = (λ h. absurd (cc h), λ h. absurd h)
value_eq_iff (obj a) (bool b) = (λ h. absurd (cc h), λ h. absurd h)
value_eq_iff (obj a) (num b) = (λ h. absurd (cc h), λ h. absurd h)
value_eq_iff (obj a) (str b) = (λ h. absurd (cc h), λ h. absurd h)
value_eq_iff (obj a) (arr b) = (λ h. absurd (cc h), λ h. absurd h)
value_eq_iff (obj a) (obj b) = (λ h. tt, λ h. refl)

-- A value that clashes with another is equal to none.
unequal : (a b v : Value) → Clash a b → (value_eq a v ≡ panics) ⊎ (value_eq a v ≡ returns false)
unfolding value_eq
unequal (arr a) b null h = inr refl
unequal (arr a) b (bool v) h = inr refl
unequal (arr a) b (num v) h = inr refl
unequal (arr a) b (str v) h = inr refl
unequal (arr a) b (arr v) h = inl refl
unequal (arr a) b (obj v) h = inr refl
unequal (obj a) b null h = inr refl
unequal (obj a) b (bool v) h = inr refl
unequal (obj a) b (num v) h = inr refl
unequal (obj a) b (str v) h = inr refl
unequal (obj a) b (arr v) h = inr refl
unequal (obj a) b (obj v) h = inl refl
unequal null b v h = absurd h
unequal (bool a) b v h = absurd h
unequal (num a) b v h = absurd h
unequal (str a) b v h = absurd h

clash-of_panics : (a : Value) (items : Items) → in_items a items ≡ panics → ClashAmong a items
unfolding in_items
clash-of_panics a nil h = absurd (cc h)
clash-of_panics a (cons v vs) h = elim (Outcome-cases (value_eq a v)) [
  | inl p ↦ inl ((value_eq_iff a v).0 p)
  | inr (true, e) ↦ absurd (cc (rw e at h))
  | inr (false, e) ↦ inr (clash-of_panics a vs (rw e at h))
]

clashing_item : (a : Value) (items : Items) → ClashAmong a items → (b : Value) × Clash a b
clashing_item a nil h = absurd h
clashing_item a (cons v vs) (inl h) = (v, h)
clashing_item a (cons v vs) (inr h) = clashing_item a vs h

panics-of_clash : (a : Value) (items : Items) → ClashAmong a items → in_items a items ≡ panics
unfolding in_items
panics-of_clash a nil h = absurd h
panics-of_clash a (cons v vs) (inl h) = rw ((value_eq_iff a v).1 h) refl
panics-of_clash a (cons v vs) (inr h) =
    let (b, c) = clashing_item a vs h in
    elim (unequal a b v c) [ inl p ↦ rw p refl | inr e ↦ rw (e, panics-of_clash a vs h) refl ]

is_in_iff : (a b : Value) → (is_in a b ≡ panics) ↔ ClashIn a b
unfolding is_in
is_in_iff a (arr items) = (clash-of_panics a items, panics-of_clash a items)
is_in_iff a null = (λ h. absurd (cc h), λ h. absurd h)
is_in_iff a (bool b) = (λ h. absurd (cc h), λ h. absurd h)
is_in_iff a (num b) = (λ h. absurd (cc h), λ h. absurd h)
is_in_iff a (str b) = (λ h. absurd (cc h), λ h. absurd h)
is_in_iff a (obj b) = (λ h. absurd (cc h), λ h. absurd h)

Clash-not_nil : (a b : Value) → Clash a b → is_nil a ≡ false
unfolding is_nil
Clash-not_nil (arr a) b h = refl
Clash-not_nil (obj a) b h = refl
Clash-not_nil null b h = absurd h
Clash-not_nil (bool a) b h = refl
Clash-not_nil (num a) b h = refl
Clash-not_nil (str a) b h = refl

ClashIn-not_nil : (a b : Value) → ClashIn a b → is_nil a ≡ false
ClashIn-not_nil a (arr items) h = let (b, c) = clashing_item a items h in Clash-not_nil a b c
ClashIn-not_nil a null h = absurd h
ClashIn-not_nil a (bool b) h = absurd h
ClashIn-not_nil a (num b) h = absurd h
ClashIn-not_nil a (str b) h = absurd h
ClashIn-not_nil a (obj b) h = absurd h

in-ne-equals : op_in ≢ op_equals
in-ne-equals e = cc ((eq_iff op_in op_equals).1 e)

-- A filter panics exactly if its operator is `equals` and the event's field and the filter's value are
-- two lists or two maps, or its operator is `in` and its value is a list that has such an item for the
-- field, whatever the other items are.
pub filter_matches-panics_iff :
    (f : EventFilter) (e : SecurityEvent)
    → (filter_matches f e ≡ panics) ↔ (
        ((f.operator ≡ op_equals) × Clash (extract_field_value f.field e) f.value)
        ⊎ ((f.operator ≡ op_in) × ClashIn (extract_field_value f.field e) f.value))
unfolding filter_matches matches equals
filter_matches-panics_iff f e =
    let v = extract_field_value f.field e in
    (
      λ h. ground (
        arith,
        h,
        eq_iff f.operator op_equals,
        eq_iff f.operator op_in,
        value_eq_iff v f.value,
        is_in_iff v f.value,
        contains-ne-panics v f.value,
      ),
      λ c. elim c [
        | inl (op, c) ↦
            rw (Clash-not_nil v f.value c, (eq_iff f.operator op_equals).1 op)
              ((value_eq_iff v f.value).1 c)
        | inr (op, c) ↦ rw (ClashIn-not_nil v f.value c, op) ((is_in_iff v f.value).1 c)
      ],
    )

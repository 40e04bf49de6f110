-- ===== src/Models/Filter.antt =====
-- ssf-hub/pkg/models/event.go: `EventFilter.Matches` and its helpers.
pub mod Laws
pub mod Clashes
use caep_dev.Base.{
  String, Bool, true, false, not, List, [], ◌∷◌, Option, none, some, ◌==◌, if◌then◌else◌, Outcome,
  returns, panics, ◌>>=◌,
}
use caep_dev.Base.Text.{after, ends_with}
use caep_dev.Base.Dict.{Dict, lookup}
use caep_dev.Models.Value.{Value, null, bool, num, str, arr, obj, Items, nil, cons, value_eq}
use caep_dev.Models.Receiver.{EventFilter}
use caep_dev.Models.Event.{SecurityEvent}

-- The string constants of `FilterOp`.
abbrev pub op_equals : String
op_equals = "equals"

abbrev pub op_contains : String
op_contains = "contains"

abbrev pub op_matches : String
op_matches = "matches"

abbrev pub op_in : String
op_in = "in"

abbrev pub op_exists : String
op_exists = "exists"

-- m[k] of a `map[string]interface{}`: a missing key reads as nil.
unfoldable pub index : String → Dict Value → Value
index k m = elim (lookup k m) [ none ↦ null | some v ↦ v ]

-- `field[n:]`, if `len(field) > n && field[:n] == prefix`
unfoldable pub member : (prefix : String) → (field : String) → Option String
unfolding after
member prefix field = elim (after prefix field) [
  | none ↦ none
  | some rest ↦ if rest == "" then none else some rest
]

abbrev or_else : Option Value → Value → Value
or_else none v = v
or_else (some w) v = w

abbrev index_at : Option String → Dict Value → Option Value
index_at none m = none
index_at (some k) m = some (index k m)

unfoldable pub extract_field_value : (field : String) → SecurityEvent → Value
unfolding member index
extract_field_value field e =
    if field == "id"
    then str e.id
    else if field == "type"
    then str e.type
    else if field == "source"
    then str e.source
    else if field == "subject.format"
    then str e.subject.format
    else if field == "subject.identifier"
    then str e.subject.identifier
    else if field == "metadata.transmitter_id"
    then str e.metadata.transmitter_id
    else or_else (index_at (member "data." field) e.event_data) (
        or_else (index_at (member "extensions." field) e.extensions)
          (or_else (index_at (member "subject." field) e.subject.claims) null))

unfoldable pub equals : Value → Value → Outcome Bool
equals a b = value_eq a b

-- Values that are not both strings do not match.
unfoldable pub contains : Value → Value → Outcome Bool
unfolding ends_with
contains (str a) (str b) = returns (ends_with a b)
contains _ _ = returns false

unfoldable pub matches : Value → Value → Outcome Bool
matches a b = contains a b

unfoldable pub in_items : Value → Items → Outcome Bool
in_items a nil = returns false
in_items a (cons item items) =
    let rest = in_items a items in do same ← value_eq a item; if same then returns true else rest

unfoldable pub is_in : Value → Value → Outcome Bool
unfolding in_items
is_in a (arr items) = in_items a items
is_in a _ = returns false

is_nil : Value → Bool
is_nil null = true
is_nil _ = false

-- the method `Matches`
unfoldable pub filter_matches : EventFilter → SecurityEvent → Outcome Bool
unfolding is_nil
filter_matches f e =
    let value = extract_field_value f.field e in
    if is_nil value
    then returns (not (f.operator == op_exists))
    else if f.operator == op_equals
    then equals value f.value
    else if f.operator == op_contains
    then contains value f.value
    else if f.operator == op_matches
    then matches value f.value
    else if f.operator == op_in
    then is_in value f.value
    else if f.operator == op_exists
    then returns true
    else returns false

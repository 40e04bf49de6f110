-- ===== src/Events/Metadata.antt =====
-- secevent/pkg/schemes/caep/metadata.go.
use caep_dev.Base.{
  ℕ, String, Bool, true, false, ◌||◌, List, [], ◌∷◌, Option, none, some, eqb, ◌==◌, if◌then◌else◌,
  Result, ok, err, and_then,
}
use caep_dev.Base.Int.{ℤ, pos, negsuc}
use caep_dev.Base.Dict.{Dict, lookup, put}
use caep_dev.Json.{Json, null, integer, text, object, Members, empty}
use caep_dev.Json.Decode.{
  Mismatch, field, has_any, addresses, read_int64, read_entry, fill_map, encode_map, optional,
}
use caep_dev.Events.Defs.{
  EventError, new_error, Details, blank, of_error, with_details, invalid_format, invalid_value,
}

-- `InitiatingEntity`, a uint8
abbrev pub entity_admin : ℕ
entity_admin = 0

abbrev pub entity_user : ℕ
entity_user = 1

abbrev pub entity_policy : ℕ
entity_policy = 2

abbrev pub entity_system : ℕ
entity_system = 3

unfoldable pub entity_text : ℕ → String
entity_text i =
    if eqb i entity_admin
    then "admin"
    else if eqb i entity_user
    then "user"
    else if eqb i entity_policy
    then "policy"
    else if eqb i entity_system
    then "system"
    else "unknown"

-- `MarshalJSON`
unfoldable pub marshal_entity : ℕ → Json
unfolding entity_text
marshal_entity i = text (entity_text i)

-- `UnmarshalJSON`, on a text without escapes
unfoldable pub unmarshal_entity : Json → Result EventError ℕ
unfolding new_error
unmarshal_entity (text s) =
    if s == "admin"
    then ok entity_admin
    else if s == "user"
    then ok entity_user
    else if s == "policy"
    then ok entity_policy
    else if s == "system"
    then ok entity_system
    else err (new_error invalid_value "invalid initiating entity value" "initiating_entity" blank)
unmarshal_entity _ =
    err (new_error invalid_format "initiating entity must be a string" "initiating_entity" blank)

-- The pointers and the maps may be nil.
pub record EventMetadata : Type 0 where
  pub event_timestamp : Option ℤ
  pub initiating_entity : Option ℕ
  pub reason_admin : Option (Dict String)
  pub reason_user : Option (Dict String)

unfoldable pub new_event_metadata : EventMetadata
new_event_metadata = record {
  event_timestamp = none;
  initiating_entity = none;
  reason_admin = none;
  reason_user = none;
}

unfoldable pub with_event_timestamp : ℤ → EventMetadata → EventMetadata
with_event_timestamp t m = record m { event_timestamp = some t }

unfoldable pub with_initiating_entity : ℕ → EventMetadata → EventMetadata
with_initiating_entity i m = record m { initiating_entity = some i }

abbrev put_reason : (language reason : String) → Option (Dict String) → Option (Dict String)
put_reason language reason none = some (put language reason [])
put_reason language reason (some m) = some (put language reason m)

unfoldable pub with_reason_admin : (language reason : String) → EventMetadata → EventMetadata
unfolding put
with_reason_admin language reason m = record m {
  reason_admin = put_reason language reason m.reason_admin;
}

unfoldable pub with_reason_user : (language reason : String) → EventMetadata → EventMetadata
unfolding put
with_reason_user language reason m = record m {
  reason_user = put_reason language reason m.reason_user;
}

-- A getter returns the value and whether it is there.
abbrev pub or_default : {A : Type 0} → A → Option A → A × Bool
or_default zero none = (zero, false)
or_default zero (some a) = (a, true)

unfoldable pub get_event_timestamp : EventMetadata → ℤ × Bool
get_event_timestamp m = or_default (pos 0) m.event_timestamp

unfoldable pub get_initiating_entity : EventMetadata → ℕ × Bool
get_initiating_entity m = or_default entity_system m.initiating_entity

abbrev reason_in : String → Option (Dict String) → String × Bool
reason_in language none = ("", false)
reason_in language (some m) = or_default "" (lookup language m)

unfoldable pub get_reason_admin : String → EventMetadata → String × Bool
unfolding lookup
get_reason_admin language m = reason_in language m.reason_admin

unfoldable pub get_reason_user : String → EventMetadata → String × Bool
unfolding lookup
get_reason_user language m = reason_in language m.reason_user

unfoldable pub get_all_reason_admin : EventMetadata → Option (Dict String)
get_all_reason_admin m = m.reason_admin

unfoldable pub get_all_reason_user : EventMetadata → Option (Dict String)
get_all_reason_user m = m.reason_user

unfoldable pub validate : EventMetadata → Option EventError
unfolding new_error
validate m = elim m.event_timestamp [
  | some (negsuc n) ↦
      some (new_error invalid_value "event timestamp cannot be negative" "event_timestamp" blank)
  | some (pos n) ↦ none
  | none ↦ none
]

-- The fields as `encoding/json` writes them: what is nil or empty is left out.
abbrev pub write_map : Option (Dict String) → Option Json
write_map none = none
write_map (some []) = none
write_map (some (e ∷ m)) = some (object (encode_map text (e ∷ m)))

abbrev pub map_option : {A B : Type 0} → (A → B) → Option A → Option B
map_option f none = none
map_option f (some a) = some (f a)

unfoldable pub metadata_members : EventMetadata → Members
unfolding encode_map optional marshal_entity
metadata_members m = optional "event_timestamp" (map_option integer m.event_timestamp) (
    optional "initiating_entity" (map_option marshal_entity m.initiating_entity) (
      optional "reason_admin" (write_map m.reason_admin)
        (optional "reason_user" (write_map m.reason_user) empty)))

-- the members of an embedded `*EventMetadata`, which may be nil
abbrev pub optional_members : Option EventMetadata → Members
optional_members none = empty
optional_members (some m) = metadata_members m

abbrev pub some_entity : Result EventError ℕ → Result Details (Option ℕ)
some_entity (ok i) = ok (some i)
some_entity (err e) = err (of_error e)

abbrev pub read_entity : Option ℕ → Json → Result Details (Option ℕ)
read_entity kept null = ok none
read_entity kept v = some_entity (unmarshal_entity v)

-- The struct's names include those of the metadata; the pointer is set once one of them is addressed.
abbrev pub reads_metadata : (names : List String) → String → Bool
reads_metadata names key =
    addresses names "event_timestamp" key
    || (addresses names "initiating_entity" key
        || (addresses names "reason_admin" key || addresses names "reason_user" key))

-- `json.Unmarshal` into a struct that embeds `*EventMetadata`: the error of an entity stops the
-- decoder, and so comes before every type error.
abbrev pub decode_metadata :
    {A : Type 0}
    → (names : List String) → (Members → Result Mismatch A)
    → Members
    → Result Details (A × Option EventMetadata)
decode_metadata names payload members =
    and_then (field read_entity (addresses names "initiating_entity") none members) (λ i.
      and_then (with_details (payload members)) (λ a.
        and_then (with_details (field read_int64 (addresses names "event_timestamp") none members))
          (λ t.
            and_then
              (with_details
                (field (fill_map read_entry) (addresses names "reason_admin") none members))
              (λ p.
                and_then
                  (with_details
                    (field (fill_map read_entry) (addresses names "reason_user") none members))
                  (λ q. ok (
                    a,
                    if has_any (reads_metadata names) members
                        then some (record {
                          event_timestamp = t;
                          initiating_entity = i;
                          reason_admin = p;
                          reason_user = q;
                        })
                        else none,
                  ))))))

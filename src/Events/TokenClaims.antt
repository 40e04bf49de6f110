-- ===== src/Events/TokenClaims.antt =====
-- TokenClaimsChangeEvent of secevent/pkg/schemes/caep/token_claims_change_event.go.
use caep_dev.Base.{
  ℕ, ◌≡◌, refl, String, Bool, true, false, List, [], ◌∷◌, contains, Option, none, some,
  if◌then◌else◌, Result, ok, and_then, Outcome, returns, panics, sym,
}
use caep_dev.Base.Int.{ℤ}
use caep_dev.Base.Dict.{Dict, put, HasDistinctKeys}
use caep_dev.Base.Text.{same_fold, fold_rune}
use caep_dev.Json.{Json, null, object, Members}
use caep_dev.Json.Decode.{
  Mismatch, field, read_any, fill_map, encode_map, addresses, struct_members, write_fields,
}
use caep_dev.Json.Laws.{fill_map-encode_map}
use caep_dev.Events.Defs.{
  EventError, new_error, Details, blank, with_details, parsed_with, as_details, checked,
  missing_value, token_claims_change,
}
use caep_dev.Events.Metadata.{EventMetadata, optional_members, decode_metadata}
use caep_dev.Events.Base
use caep_dev.Events.Base.{BaseCaepEvent, base_event, validate_metadata}
use caep_dev.Events.Written.{
  IsWritableOption, TellsApart, Avoids, decode_metadata-written, other_field,
}

pub record TokenClaimsChangePayload : Type 0 where
  pub claims : Option (Dict Json)

pub record TokenClaimsChangeEvent : Type 0 where
  pub base : BaseCaepEvent
  pub payload : TokenClaimsChangePayload

unfoldable pub new : TokenClaimsChangeEvent
unfolding base_event
new = record { base = base_event token_claims_change; payload = record { claims = some [] } }

unfoldable pub with_event_timestamp : ℤ → TokenClaimsChangeEvent → TokenClaimsChangeEvent
unfolding Base.with_event_timestamp
with_event_timestamp t e = record e { base = Base.with_event_timestamp t e.base }

unfoldable pub with_initiating_entity : ℕ → TokenClaimsChangeEvent → TokenClaimsChangeEvent
unfolding Base.with_initiating_entity
with_initiating_entity i e = record e { base = Base.with_initiating_entity i e.base }

unfoldable pub with_reason_admin :
    (language reason : String) → TokenClaimsChangeEvent → TokenClaimsChangeEvent
unfolding Base.with_reason_admin
with_reason_admin language reason e = record e {
  base = Base.with_reason_admin language reason e.base;
}

unfoldable pub with_reason_user :
    (language reason : String) → TokenClaimsChangeEvent → TokenClaimsChangeEvent
unfolding Base.with_reason_user
with_reason_user language reason e = record e {
  base = Base.with_reason_user language reason e.base;
}

-- A write into a nil map panics.
abbrev put_claim : String → Json → Option (Dict Json) → Outcome (Option (Dict Json))
put_claim name value none = panics
put_claim name value (some m) = returns (some (put name value m))

abbrev set_claims :
    TokenClaimsChangeEvent → Outcome (Option (Dict Json)) → Outcome TokenClaimsChangeEvent
set_claims e panics = panics
set_claims e (returns m) = returns (record e { payload = record { claims = m } })

-- The value is the document that `encoding/json` makes of it.
unfoldable pub with_claim : String → Json → TokenClaimsChangeEvent → Outcome TokenClaimsChangeEvent
unfolding put
with_claim name value e = set_claims e (put_claim name value e.payload.claims)

unfoldable pub get_claims : TokenClaimsChangeEvent → Option (Dict Json)
get_claims e = e.payload.claims

-- `len(e.Claims) == 0`
abbrev pub has_no_claims : Option (Dict Json) → Bool
has_no_claims none = true
has_no_claims (some []) = true
has_no_claims (some (c ∷ m)) = false

abbrev write_claims : Option (Dict Json) → Json
write_claims none = null
write_claims (some m) = object (encode_map (λ v. v) m)

abbrev pub IsReadable : Option (Dict Json) → Type 0
IsReadable none = Unit
IsReadable (some m) = HasDistinctKeys m

claims_read :
    (o : Option (Dict Json)) → IsReadable o → fill_map read_any none (write_claims o) ≡ ok o
unfolding fill_map
claims_read none h = refl
claims_read (some m) h = fill_map-encode_map read_any (λ v. v) (λ v. refl) m h

unfoldable pub validate : TokenClaimsChangeEvent → Option EventError
unfolding validate_metadata new_error
validate e = elim (validate_metadata e.base) [
  | some x ↦ some x
  | none ↦
      if has_no_claims e.payload.claims
      then some (new_error missing_value "claims are required and must not be empty" "claims" blank)
      else none
]

-- `Payload()`: a struct of the two
unfoldable pub payload : TokenClaimsChangeEvent → TokenClaimsChangePayload × Option EventMetadata
payload e = (e.payload, e.base.metadata)

abbrev pub fields_of : TokenClaimsChangePayload → List (String × Option Json)
fields_of p = ("claims", some (write_claims p.claims)) ∷ []

unfoldable pub marshal : TokenClaimsChangeEvent → Json
unfolding payload write_fields
marshal e = let (p, m) = payload e in object (write_fields (fields_of p) (optional_members m))

abbrev names : List String
names = "claims" ∷ "event_timestamp" ∷ "initiating_entity" ∷ "reason_admin" ∷ "reason_user" ∷ []

abbrev read_payload : Members → Result Mismatch TokenClaimsChangePayload
read_payload members =
    and_then (field (fill_map read_any) (addresses names "claims") none members)
      (λ x0. ok (record { claims = x0 }))

abbrev pub decode : Json → Result Details (TokenClaimsChangePayload × Option EventMetadata)
decode doc = and_then (with_details (struct_members doc)) (decode_metadata names read_payload)

abbrev pub received : TokenClaimsChangePayload × Option EventMetadata → TokenClaimsChangeEvent
received (p, m) = record { base = record { type = token_claims_change; metadata = m }; payload = p }

-- `UnmarshalJSON`
unfoldable pub unmarshal : Json → Result EventError TokenClaimsChangeEvent
unfolding validate and_then
unmarshal doc =
    and_then (parsed_with "failed to parse token claims change event data" (decode doc))
      (λ r. checked (validate (received r)) (received r))

unfoldable pub parse : Json → Result EventError TokenClaimsChangeEvent
unfolding unmarshal
parse doc = parsed_with "failed to parse token claims change event" (as_details (unmarshal doc))

read_payload-written :
    (p : TokenClaimsChangePayload) (o : Option EventMetadata)
    → IsReadable p.claims
    → read_payload (write_fields (fields_of p) (optional_members o)) ≡ ok p
unfolding write_fields and_then field addresses contains same_fold fold_rune
read_payload-written p o h =
    simp
      (
        other_field (fill_map read_any) (addresses names "claims") p.claims o
            (refl, refl, refl, refl),
        claims_read p.claims h,
      )
      refl

apart : TellsApart names
unfolding addresses contains same_fold fold_rune
apart = (
  (refl, refl, refl, refl),
  (refl, refl, refl, refl),
  (refl, refl, refl, refl),
  (refl, refl, refl, refl),
  (refl, refl, refl, refl),
)

avoided : (p : TokenClaimsChangePayload) → Avoids names (fields_of p)
unfolding addresses contains same_fold fold_rune
avoided p = ((refl, tt), (refl, tt), (refl, tt), (refl, tt), (refl, tt))

-- A valid event, with metadata that are written whole, is read back as it was.
pub parse-marshal :
    (e : TokenClaimsChangeEvent)
    → e.base.type ≡ token_claims_change
    → IsWritableOption e.base.metadata
    → IsReadable e.payload.claims
    → validate e ≡ none
    → parse (marshal e) ≡ ok e
unfolding parse unmarshal marshal payload struct_members and_then addresses contains same_fold
    fold_rune
parse-marshal e t w h v =
    rw
      (
        decode_metadata-written names read_payload e.payload (fields_of e.payload) e.base.metadata
            apart (avoided e.payload) w (read_payload-written e.payload e.base.metadata h),
        sym t,
        v,
      )
      refl

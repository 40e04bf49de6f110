-- ===== src/Ssf/Validation.antt =====
-- ssfreceiver/internal/validation/validation.go.
use caep_dev.Base.{
  String, Bool, true, false, not, ◌&&◌, Option, none, some, List, [], ◌∷◌, ◌==◌, if◌then◌else◌,
  Result, ok, err, Outcome, returns, panics, length, eqb, contains,
}
use caep_dev.Ssf.Types.{
  Url, StreamConfiguration, StreamConfigurationRequest, DeliveryConfig, push_method,
  get_delivery_method, get_delivery_endpoint,
}

pub data UrlError : Type 0 where
  empty_url : UrlError
  invalid_url : String → UrlError
  wrong_scheme : UrlError

unfoldable pub checked_scheme : Url → Result UrlError Url
checked_scheme u =
    if not (u.scheme == "https") && not (u.scheme == "http") then err wrong_scheme else ok u

abbrev checked : Result String Url → Result UrlError Url
unfolding checked_scheme
checked (err e) = err (invalid_url e)
checked (ok u) = checked_scheme u

-- `parse` is `url.Parse`.
unfoldable pub parse_and_validate_url :
    (parse : String → Result String Url) → String → Result UrlError Url
unfolding checked_scheme
parse_and_validate_url parse raw_url =
    if raw_url == "" then err empty_url else checked (parse raw_url)

-- the loop over `b`, with the event types of `a` in the map
unfoldable pub all_in : (a b : List String) → Bool
unfolding contains
all_in a [] = true
all_in a (e ∷ b) = if not (contains a e) then false else all_in a b

unfoldable pub event_types_match : (a b : List String) → Bool
unfolding all_in
event_types_match a b = if not (eqb (length a) (length b)) then false else all_in a b

pub data MismatchError : Type 0 where
  method_mismatch : (received requested : String) → MismatchError
  endpoint_mismatch : (received requested : String) → MismatchError

-- `String()` of the two URLs; of a nil one it panics
abbrev compared : Option Url → Option Url → Outcome (Option MismatchError)
compared none q = panics
compared (some u) none = panics
compared (some u) (some v) =
    returns (if not (u.text == v.text) then some (endpoint_mismatch u.text v.text) else none)

abbrev checked_delivery : StreamConfiguration → DeliveryConfig → Outcome (Option MismatchError)
unfolding get_delivery_method get_delivery_endpoint
checked_delivery c d =
    if not (get_delivery_method c == d.method)
    then returns (some (method_mismatch (get_delivery_method c) d.method))
    else if d.method == push_method
    then compared (get_delivery_endpoint c) d.endpoint_url
    else returns none

-- The two warnings are only logged. A request without a delivery panics.
unfoldable pub validate_configuration_match :
    (received : StreamConfiguration) (requested : StreamConfigurationRequest)
    → Outcome (Option MismatchError)
unfolding get_delivery_method get_delivery_endpoint
validate_configuration_match received requested = elim requested.delivery [
  | none ↦ panics
  | some d ↦ checked_delivery received d
]

pub data EventTypesError : Type 0 where
  no_event_types : EventTypesError
  empty_event_type : EventTypesError

unfoldable pub empty_among : List String → Option EventTypesError
empty_among [] = none
empty_among (t ∷ ts) = if t == "" then some empty_event_type else empty_among ts

unfoldable pub validate_event_types : List String → Option EventTypesError
unfolding empty_among
validate_event_types [] = some no_event_types
validate_event_types (t ∷ ts) = empty_among (t ∷ ts)

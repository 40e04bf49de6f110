-- ===== src/Ssf/Types.antt =====
-- ssfreceiver/types: the configuration of a stream, its status, and their validation. A URL is its text
-- and its scheme.
use Prim.Native.String
use caep_dev.Base.{
  String, Bool, true, false, not, ◌||◌, Option, none, some, List, [], ◌∷◌, copy, ◌==◌,
  if◌then◌else◌,
}
use caep_dev.Base.Int.{ℤ}

pub record Url : Type 0 where
  pub text : String
  pub scheme : String

-- errors.go: the sentinels that the modelled code uses, and `SSFError`
pub data SsfError : Type 0 where
  invalid_configuration : SsfError
  invalid_status : SsfError
  invalid_transmitter_metadata : SsfError
  operation_not_supported : SsfError
  ssf_error : SsfError → (operation details : String) → SsfError

unfoldable pub new_error : SsfError → (operation details : String) → SsfError
new_error e operation details = ssf_error e operation details

-- `errors.Is` of a sentinel, through `Unwrap`
unfoldable pub unwrapped : SsfError → SsfError
unwrapped (ssf_error e operation details) = unwrapped e
unwrapped invalid_configuration = invalid_configuration
unwrapped invalid_status = invalid_status
unwrapped invalid_transmitter_metadata = invalid_transmitter_metadata
unwrapped operation_not_supported = operation_not_supported

abbrev pub push_method : String
push_method = "urn:ietf:rfc:8935"

abbrev pub poll_method : String
poll_method = "urn:ietf:rfc:8936"

unfoldable pub is_valid_delivery_method : String → Bool
is_valid_delivery_method m = push_method == m || poll_method == m

pub record DeliveryConfig : Type 0 where
  pub method : String
  pub endpoint_url : Option Url

-- A nil list is an empty one.
pub record StreamConfiguration : Type 0 where
  pub stream_id : String
  pub issuer : Option Url
  pub audience : List String
  pub delivery : DeliveryConfig
  pub events_supported : List String
  pub events_requested : List String
  pub events_delivered : List String
  pub min_verification_interval : ℤ
  pub description : String

pub record StreamConfigurationRequest : Type 0 where
  pub stream_id : String
  pub delivery : Option DeliveryConfig
  pub events_requested : List String
  pub description : String

abbrev is_nil : Option Url → Bool
is_nil none = true
is_nil (some u) = false

abbrev is_empty : List String → Bool
is_empty [] = true
is_empty (x ∷ xs) = false

unfoldable pub validate_delivery : DeliveryConfig → Option SsfError
unfolding new_error is_valid_delivery_method
validate_delivery d =
    if not (is_valid_delivery_method d.method)
    then some (
        new_error invalid_configuration "ValidateDelivery"
          (String.◌++◌ "invalid delivery method: " d.method))
    else if is_nil d.endpoint_url
    then some (new_error invalid_configuration "ValidateDelivery" "endpoint_url is required")
    else none

-- an error of the delivery, wrapped, or what follows
abbrev pub delivery_or : (operation : String) → Option SsfError → Option SsfError → Option SsfError
unfolding new_error
delivery_or operation none next = next
delivery_or operation (some e) next = some (new_error e operation "invalid delivery configuration")

unfoldable pub validate : StreamConfiguration → Option SsfError
unfolding new_error validate_delivery
validate c =
    if c.stream_id == ""
    then some (new_error invalid_configuration "ValidateConfig" "stream_id is required")
    else if is_nil c.issuer
    then some (new_error invalid_configuration "ValidateConfig" "issuer is required")
    else if is_empty c.audience
    then some (new_error invalid_configuration "ValidateConfig" "at least one audience is required")
    else delivery_or "ValidateConfig" (validate_delivery c.delivery) (
        if is_empty c.events_delivered
        then some (
            new_error invalid_configuration "ValidateConfig"
              "at least one delivered event type is required")
        else none)

unfoldable pub validate_request : StreamConfigurationRequest → Option SsfError
unfolding new_error validate_delivery
validate_request r = elim r.delivery [
  | none ↦
      some (new_error invalid_configuration "ValidateRequest" "delivery configuration is required")
  | some d ↦ delivery_or "ValidateRequest" (validate_delivery d) (
      if is_empty r.events_requested
      then some (
          new_error invalid_configuration "ValidateRequest"
            "at least one requested event type is required")
      else none)
]

unfoldable pub get_audience : StreamConfiguration → List String
unfolding copy
get_audience c = copy c.audience

unfoldable pub get_events_supported : StreamConfiguration → List String
unfolding copy
get_events_supported c = copy c.events_supported

unfoldable pub get_events_requested : StreamConfiguration → List String
unfolding copy
get_events_requested c = copy c.events_requested

unfoldable pub get_events_delivered : StreamConfiguration → List String
unfolding copy
get_events_delivered c = copy c.events_delivered

unfoldable pub get_delivery_method : StreamConfiguration → String
get_delivery_method c = c.delivery.method

unfoldable pub get_delivery_endpoint : StreamConfiguration → Option Url
get_delivery_endpoint c = c.delivery.endpoint_url

unfoldable pub is_poll_delivery : StreamConfiguration → Bool
unfolding get_delivery_method
is_poll_delivery c = get_delivery_method c == poll_method

unfoldable pub is_push_delivery : StreamConfiguration → Bool
unfolding get_delivery_method
is_push_delivery c = get_delivery_method c == push_method

-- status.go
pub record StreamStatus : Type 0 where
  pub stream_id : String
  pub status : String
  pub reason : String

pub record StreamStatusRequest : Type 0 where
  pub stream_id : String
  pub status : String
  pub reason : String

unfoldable pub is_valid : String → Bool
is_valid s = "enabled" == s || ("paused" == s || "disabled" == s)

-- the tests of `Validate` and of `ValidateRequest`, which name themselves
abbrev status_error : (operation stream_id status : String) → Option SsfError
unfolding new_error is_valid
status_error operation stream_id status =
    if stream_id == ""
    then some (new_error invalid_configuration operation "stream_id is required")
    else if not (is_valid status)
    then some (new_error invalid_status operation (String.◌++◌ "invalid status: " status))
    else none

unfoldable pub validate_status : StreamStatus → Option SsfError
unfolding new_error is_valid
validate_status s = status_error "ValidateStatus" s.stream_id s.status

unfoldable pub validate_status_request : StreamStatusRequest → Option SsfError
unfolding new_error is_valid
validate_status_request r = status_error "ValidateStatusRequest" r.stream_id r.status

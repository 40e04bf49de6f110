-- ===== src/Models/Receiver/Validation.antt =====
-- `Validate` of ssf-hub/pkg/models/receiver.go: what it accepts, and what it writes.
use mathlib.Core.Logic.{inl, inr}
use caep_dev.Base.{ap, ◌∙◌, String, Bool, true, [], none, ◌≡◌, ◌≢◌, ◌↔◌, ◌⊎◌, arith, eq_iff}
use caep_dev.Models.Receiver.Defs.{
  AuthConfig, Receiver, webhook, auth_none, auth_bearer, auth_oauth2, auth_hmac, validate_auth,
  validate,
}

-- A configuration whose type is known and whose credentials are there.
abbrev pub HasCredentials : AuthConfig → Type 0
HasCredentials a =
    ((a.type ≡ auth_none) ⊎ (a.type ≡ ""))
    ⊎ ((a.type ≡ auth_bearer) × (a.token ≢ ""))
    ⊎ ((a.type ≡ auth_oauth2) × (a.client_id ≢ "") × (a.client_secret ≢ "") × (a.token_url ≢ ""))
    ⊎ ((a.type ≡ auth_hmac) × (a.secret ≢ ""))

pub validate_auth_sound : (a : AuthConfig) → (validate_auth a).1 ≡ none → HasCredentials a
unfolding validate_auth
validate_auth_sound a h = ground (
  arith,
  eq_iff a.type auth_none,
  eq_iff a.type "",
  eq_iff a.type auth_bearer,
  eq_iff a.type auth_oauth2,
  eq_iff a.type auth_hmac,
  eq_iff a.token "",
  eq_iff a.client_id "",
  eq_iff a.client_secret "",
  eq_iff a.token_url "",
  eq_iff a.secret "",
)

pub validate_auth_complete : (a : AuthConfig) → HasCredentials a → (validate_auth a).1 ≡ none
unfolding validate_auth
validate_auth_complete a (inl (inl e)) = simp e
validate_auth_complete a (inl (inr e)) = simp e
validate_auth_complete a (inr (inl (e, p))) = simp e (ground (arith, eq_iff a.token ""))
validate_auth_complete a (inr (inr (inl (e, p, q, r)))) =
    simp e (ground (arith, eq_iff a.client_id "", eq_iff a.client_secret "", eq_iff a.token_url ""))
validate_auth_complete a (inr (inr (inr (e, p)))) = simp e (ground (arith, eq_iff a.secret ""))

-- What a receiver needs so that the hub can post events to it.
pub record IsDeliverable (parse_url : String → Bool) (r : Receiver) : Type 0 where
  pub has_id : r.id ≢ ""
  pub has_event_types : r.event_types ≢ []
  pub is_webhook : r.delivery.method ≡ webhook
  pub has_url : r.webhook_url ≢ ""
  pub url_parses : parse_url r.webhook_url ≡ true
  pub has_credentials : HasCredentials r.auth

module _ (parse_url : String → Bool) (r : Receiver) where
  validate_sound : (validate parse_url r).1 ≡ none → IsDeliverable parse_url r
  unfolding validate
  validate_sound h = ground (
    arith,
    eq_iff r.id "",
    eq_iff r.delivery.method webhook,
    eq_iff r.webhook_url "",
    validate_auth_sound r.auth,
  )

  validate_complete : IsDeliverable parse_url r → (validate parse_url r).1 ≡ none
  unfolding validate
  validate_complete h = ground (
    arith,
    eq_iff r.id "",
    eq_iff r.delivery.method webhook,
    eq_iff r.webhook_url "",
    validate_auth_complete r.auth h.has_credentials,
  )

  -- A receiver is accepted exactly when it has an id, an event type, the webhook method, a URL that
  -- parses, and an authentication of a known type with its credentials.
  pub validate_iff : ((validate parse_url r).1 ≡ none) ↔ IsDeliverable parse_url r
  validate_iff = (validate_sound, validate_complete)

validate_auth_again : (a : AuthConfig) → validate_auth (validate_auth a).0 ≡ validate_auth a
unfolding validate_auth
validate_auth_again a = ground (
  arith,
  eq_iff a.type auth_none,
  eq_iff a.type "",
  eq_iff a.type auth_bearer,
  eq_iff a.type auth_oauth2,
  eq_iff a.type auth_hmac,
  eq_iff a.algorithm "",
)

module _ (parse_url : String → Bool) (r : Receiver) where
  -- Validation writes a default into the receiver, and a second validation changes nothing more and
  -- gives the same verdict.
  pub validate_twice : validate parse_url (validate parse_url r).0 ≡ validate parse_url r
  unfolding validate
  validate_twice = ground (arith, validate_auth_again r.auth)

-- An accepted receiver is deliverable as validation leaves it.
pub validate-IsDeliverable :
    (parse_url : String → Bool) (r : Receiver)
    → (validate parse_url r).1 ≡ none
    → IsDeliverable parse_url (validate parse_url r).0
validate-IsDeliverable parse_url r h =
    validate_sound parse_url (validate parse_url r).0
      (ap (λ p. p.1) (validate_twice parse_url r) ∙ h)

pub id-validate : (parse_url : String → Bool) (r : Receiver) → (validate parse_url r).0.id ≡ r.id
unfolding validate
id-validate parse_url r = ground arith

-- Validation writes nothing but the authentication.
pub validate_keeps :
    (parse_url : String → Bool) (r : Receiver)
    → (validate parse_url r).0 ≡ record r { auth = (validate parse_url r).0.auth }
unfolding validate
validate_keeps parse_url r = ground arith

-- ===== src/Tokens/Defs.antt =====
-- What the two tokens of secevent/pkg/token/token.go share.
use caep_dev.Base.{String, List, [], ◌∷◌, Option, none, some, Result, ok, err}
use caep_dev.Base.Dict.{Dict}
use caep_dev.Models.Receiver.{Time}
use caep_dev.Json.{Json, Members, empty, member}
use caep_dev.Json.Decode.{Mismatch}
use caep_dev.Events.Defs.{EventError}
use caep_dev.Events
use caep_dev.Subjects.Defs.{SubjectError}
use caep_dev.Subjects

-- What the package uses of `jwt.RegisteredClaims`.
pub record RegisteredClaims : Type 0 where
  pub issuer : String
  pub id : String
  pub audience : List String
  pub issued_at : Option Time

abbrev pub no_claims : RegisteredClaims
no_claims = record { issuer = ""; id = ""; audience = []; issued_at = none }

-- The members that `encoding/json` writes for the claims, and what it reads of a token's members.
pub record ClaimsCodec : Type 0 where
  pub write : RegisteredClaims → List (String × Option Json)
  pub read : Members → Result Mismatch RegisteredClaims

pub data TokenError : Type 0 where
  issuer_required id_required events_required event_required subject_required : TokenError
  invalid_event : EventError → TokenError
  invalid_subject : SubjectError → TokenError
  malformed : TokenError
  subject_failed : Subjects.Defs.ParseError → TokenError
  not_one_event : TokenError
  event_failed : Events.Registry.ParseError → TokenError
  event_of_type_failed : String → Events.Registry.ParseError → TokenError

-- the names of the fields that `encoding/json` knows in the struct
abbrev pub names : List String
names = "iss" ∷ "sub" ∷ "aud" ∷ "exp" ∷ "nbf" ∷ "iat" ∷ "jti" ∷ "sub_id" ∷ "txn" ∷ "events" ∷ []

-- the members as entries
abbrev pub entries : Members → Dict Json
entries empty = []
entries (member key v others) = (key, v) ∷ entries others

abbrev pub decoded : {A : Type 0} → Result Mismatch A → Result TokenError A
decoded (ok a) = ok a
decoded (err e) = err malformed

-- `if err := x; err != nil { return err }`, over the tests that follow
abbrev pub or_else_check : Option TokenError → Option TokenError → Option TokenError
or_else_check (some e) later = some e
or_else_check none later = later

abbrev pub event_check : Option EventError → Option TokenError
event_check none = none
event_check (some e) = some (invalid_event e)

abbrev pub subject_check : Option SubjectError → Option TokenError
subject_check none = none
subject_check (some e) = some (invalid_subject e)

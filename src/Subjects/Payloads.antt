-- ===== src/Subjects/Payloads.antt =====
-- The payloads of subjects, which the broker reads.
use mathlib.Core.Path.{subst}
use caep_dev.Base.{
  ◌≡◌, refl, String, Option, none, some, Result, ok, err, and_then, arith, ◌==◌, false,
}
use caep_dev.Base.Dict.{Dict, lookup, lookup-put}
use caep_dev.Models.Value.{Value, str, obj}
use caep_dev.Subjects.Email
use caep_dev.Subjects.Phone
use caep_dev.Subjects.IssuerSub
use caep_dev.Subjects.Uri
use caep_dev.Subjects.Opaque
use caep_dev.Subjects.Account
use caep_dev.Subjects.Did
use caep_dev.Subjects.JwtId
use caep_dev.Subjects.SamlId
use caep_dev.Subjects.Simple
use caep_dev.Subjects.Complex.{
  Subject, simple, complex, Component, absent, present, payload, component_payload, complex_payload,
  add_payload, fields_of,
}

abbrev pub format_of : Subject → String
format_of (simple s) = Simple.format s
format_of (complex named u d s a t o r) = named

-- A payload of a subject of that format: it names the format, and has no identifier.
abbrev pub IsPayload : String → Dict Value → Type 0
IsPayload f p = (lookup "format" p ≡ some (str f)) × (lookup "identifier" p ≡ none)

simple_payload_given : (s : Simple.SimpleSubject) → IsPayload (Simple.format s) (Simple.payload s)
unfolding lookup Simple.payload Email.payload Phone.payload IssuerSub.payload Uri.payload
    Opaque.payload Account.payload Did.payload JwtId.payload SamlId.payload
simple_payload_given (Simple.email s) = (refl, refl)
simple_payload_given (Simple.phone s) = (refl, refl)
simple_payload_given (Simple.issuer_sub s) = (refl, refl)
simple_payload_given (Simple.uri s) = (refl, refl)
simple_payload_given (Simple.opaque s) = (refl, refl)
simple_payload_given (Simple.account s) = (refl, refl)
simple_payload_given (Simple.did s) = (refl, refl)
simple_payload_given (Simple.jwt_id s) = (refl, refl)
simple_payload_given (Simple.saml_id s) = (refl, refl)

-- no payload failed
abbrev Succeeds : Option (Result String (Dict Value)) → Type 0
Succeeds none = Unit
Succeeds (some (ok p)) = Unit
Succeeds (some (err e)) = ⊥

abbrev Gives : String → Result String (Dict Value) → Type 0
Gives f (ok p) = IsPayload f p
Gives f (err e) = ⊥

-- A component's member is neither the format nor an identifier.
and_then-Gives :
    (f what key : String) (c : Option (Result String (Dict Value))) (m : Dict Value)
    (next : Dict Value → Result String (Dict Value))
    → (key == "format") ≡ false
    → (key == "identifier") ≡ false
    → Succeeds c
    → IsPayload f m
    → ((n : Dict Value) → IsPayload f n → Gives f (next n))
    → Gives f (and_then (add_payload what key c m) next)
unfolding and_then
and_then-Gives f what key none m next a b h p k = k m p
and_then-Gives f what key (some (ok q)) m next a b h (p, p') k = k _ (
  ground (arith, lookup-put key "format" (obj (fields_of q)) m),
  ground (arith, lookup-put key "identifier" (obj (fields_of q)) m),
)
and_then-Gives f what key (some (err e)) m next a b h p k = absurd h

and_then-ok : (x : Result String (Dict Value)) → and_then x ok ≡ x
unfolding and_then
and_then-ok (ok p) = refl
and_then-ok (err e) = refl

complex_payload-Gives :
    (named : String) (u d s a t o r : Option (Result String (Dict Value)))
    → Succeeds u
    → Succeeds d
    → Succeeds s
    → Succeeds a
    → Succeeds t
    → Succeeds o
    → Succeeds r
    → Gives named (complex_payload named u d s a t o r)
unfolding lookup
complex_payload-Gives named u d s a t o r hu hd hs ha ht ho hr =
    and_then-Gives named "user" "user" u _ _ refl refl hu (refl, refl)
      (λ m p. and_then-Gives named "device" "device" d _ _ refl refl hd p (λ m p.
        and_then-Gives named "session" "session" s _ _ refl refl hs p (λ m p.
          and_then-Gives named "application" "application" a _ _ refl refl ha p (λ m p.
            and_then-Gives named "tenant" "tenant" t _ _ refl refl ht p (λ m p.
              and_then-Gives named "org unit" "org_unit" o _ _ refl refl ho p (λ m p.
                subst (Gives named) (and_then-ok _)
                  (and_then-Gives named "group" "group" r _ ok refl refl hr p (λ m p. p))))))))

Gives-Succeeds : (f : String) (x : Result String (Dict Value)) → Gives f x → Succeeds (some x)
Gives-Succeeds f (ok p) h = tt
Gives-Succeeds f (err e) h = h

given :
    {f : String} (x : Result String (Dict Value))
    → Gives f x
    → (p : Dict Value) × (x ≡ ok p) × IsPayload f p
given (ok p) h = (p, refl, h)
given (err e) h = absurd h

mutual
  unfolding payload

  -- No payload fails.
  component_payload-Succeeds : (c : Component) → Succeeds (component_payload c)
  component_payload-Succeeds absent = tt
  component_payload-Succeeds (present s) = Gives-Succeeds _ _ (payload_given s)

  pub payload_given : (s : Subject) → Gives (format_of s) (payload s)
  payload_given (simple s) = simple_payload_given s
  payload_given (complex named u d s a t o r) =
      complex_payload-Gives named _ _ _ _ _ _ _ (component_payload-Succeeds u)
        (component_payload-Succeeds d) (component_payload-Succeeds s) (component_payload-Succeeds a)
        (component_payload-Succeeds t) (component_payload-Succeeds o) (component_payload-Succeeds r)

-- Every subject has a payload, without an error, in which "format" is the format of the subject and
-- the key "identifier" is missing.
pub payload-IsPayload :
    (s : Subject) → (p : Dict Value) × (payload s ≡ ok p) × IsPayload (format_of s) p
payload-IsPayload s = given (payload s) (payload_given s)

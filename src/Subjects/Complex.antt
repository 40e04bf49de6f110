-- ===== src/Subjects/Complex.antt =====
-- ComplexSubjectImpl of secevent/pkg/subject/complex.go, and ParseSubject of parser.go.
use Prim.Native.String.{◌++◌}
use caep_dev.Base.{
  String, Bool, true, false, not, ◌||◌, [], ◌∷◌, Option, none, some, ◌==◌, if◌then◌else◌, Result,
  ok, err, and_then,
}
use caep_dev.Base.Dict.{Dict, put}
use caep_dev.Json.{Json, text, object, Members, empty, member}
use caep_dev.Json.Decode.{field, optional}
use caep_dev.Models.Value.{Value, str, obj, Fields, no_fields, field as value_field}
use caep_dev.Subjects.Defs.{
  Grammars, SubjectError, new_error, error_text, invalid_format, invalid_value, missing_component,
  format_complex,
}
use caep_dev.Subjects.Simple
use caep_dev.Subjects.Simple.{SimpleSubject, parse_simple_subject}

-- A component of a complex subject may be nil.
mutual
  pub data Subject : Type 0 where
    simple : SimpleSubject → Subject
    complex :
        (named : String) (user device session application tenant org_unit group : Component)
        → Subject

  pub data Component : Type 0 where
    absent : Component
    present : Subject → Component

pub record ComplexSubject : Type 0 where
  pub format : String
  pub user : Component
  pub device : Component
  pub session : Component
  pub application : Component
  pub tenant : Component
  pub org_unit : Component
  pub group : Component

abbrev pub as_subject : ComplexSubject → Subject
as_subject c = complex c.format c.user c.device c.session c.application c.tenant c.org_unit c.group

unfoldable pub new_complex_subject : ComplexSubject
new_complex_subject = record {
  format = format_complex;
  user = absent;
  device = absent;
  session = absent;
  application = absent;
  tenant = absent;
  org_unit = absent;
  group = absent;
}

-- `if subject != nil { ... }`, for an interface that may be nil
abbrev set_component : Component → Component → Component
set_component absent kept = kept
set_component (present s) kept = present s

unfoldable pub with_user : Component → ComplexSubject → ComplexSubject
with_user s c = record c { user = set_component s c.user }

unfoldable pub with_device : Component → ComplexSubject → ComplexSubject
with_device s c = record c { device = set_component s c.device }

unfoldable pub with_session : Component → ComplexSubject → ComplexSubject
with_session s c = record c { session = set_component s c.session }

unfoldable pub with_application : Component → ComplexSubject → ComplexSubject
with_application s c = record c { application = set_component s c.application }

unfoldable pub with_tenant : Component → ComplexSubject → ComplexSubject
with_tenant s c = record c { tenant = set_component s c.tenant }

unfoldable pub with_org_unit : Component → ComplexSubject → ComplexSubject
with_org_unit s c = record c { org_unit = set_component s c.org_unit }

unfoldable pub with_group : Component → ComplexSubject → ComplexSubject
with_group s c = record c { group = set_component s c.group }

abbrev pub is_present : Component → Bool
is_present absent = false
is_present (present s) = true

unfoldable pub user_component : ComplexSubject → Component × Bool
user_component c = (c.user, is_present c.user)

unfoldable pub device_component : ComplexSubject → Component × Bool
device_component c = (c.device, is_present c.device)

unfoldable pub session_component : ComplexSubject → Component × Bool
session_component c = (c.session, is_present c.session)

unfoldable pub application_component : ComplexSubject → Component × Bool
application_component c = (c.application, is_present c.application)

unfoldable pub tenant_component : ComplexSubject → Component × Bool
tenant_component c = (c.tenant, is_present c.tenant)

unfoldable pub org_unit_component : ComplexSubject → Component × Bool
org_unit_component c = (c.org_unit, is_present c.org_unit)

unfoldable pub group_component : ComplexSubject → Component × Bool
group_component c = (c.group, is_present c.group)

abbrev pub wrap : (what field : String) → Option SubjectError → Option SubjectError
wrap what field none = none
wrap what field (some e) =
    some (new_error invalid_value ("invalid " ++ (what ++ (" component: " ++ error_text e))) field)

abbrev pub first_error : Option SubjectError → Option SubjectError → Option SubjectError
first_error (some e) later = some e
first_error none later = later

unfoldable mutual
  unfolding new_error error_text Simple.validate

  pub validate : Grammars → Subject → Option SubjectError
  validate g (simple s) = Simple.validate g s
  validate g (complex named u d s a t o r) =
      if not (named == format_complex)
      then some (new_error invalid_format "invalid format for complex subject" "format")
      else if not (
          is_present u
          || (is_present d
              || (is_present s
                  || (is_present a || (is_present t || (is_present o || is_present r))))))
      then some (new_error missing_component "complex subject must have at least one component" "")
      else first_error (component_error g "user" "user" u) (
          first_error (component_error g "device" "device" d) (
            first_error (component_error g "session" "session" s) (
              first_error (component_error g "application" "application" a) (
                first_error (component_error g "tenant" "tenant" t) (
                  first_error (component_error g "org unit" "org_unit" o)
                    (component_error g "group" "group" r))))))

  pub component_error : Grammars → (what field : String) → Component → Option SubjectError
  component_error g what field absent = none
  component_error g what field (present s) = wrap what field (validate g s)

-- The members in the order of their keys, in which they are written.
abbrev pub complex_members : (named : String) (u d s a t o r : Option Json) → Members
complex_members named u d s a t o r = optional "application" a (
    optional "device" d (
      member "format" (text named) (
        optional "group" r (
          optional "org_unit" o
            (optional "session" s (optional "tenant" t (optional "user" u empty)))))))

unfoldable mutual
  unfolding Simple.marshal optional

  pub marshal : Subject → Json
  marshal (simple s) = Simple.marshal s
  marshal (complex named u d s a t o r) = object (
      complex_members named (marshal_component u) (marshal_component d) (marshal_component s)
        (marshal_component a) (marshal_component t) (marshal_component o) (marshal_component r))

  pub marshal_component : Component → Option Json
  marshal_component absent = none
  marshal_component (present s) = some (marshal s)

abbrev pub fields_of : Dict Value → Fields
fields_of [] = no_fields
fields_of ((key, v) ∷ m) = value_field key v (fields_of m)

abbrev pub add_payload :
    (what key : String)
    → Option (Result String (Dict Value))
    → Dict Value
    → Result String (Dict Value)
add_payload what key none m = ok m
add_payload what key (some (ok p)) m = ok (put key (obj (fields_of p)) m)
add_payload what key (some (err e)) m = err ("failed to get " ++ (what ++ (" payload: " ++ e)))

abbrev pub complex_payload :
    (named : String) (u d s a t o r : Option (Result String (Dict Value)))
    → Result String (Dict Value)
complex_payload named u d s a t o r =
    and_then (add_payload "user" "user" u (("format", str named) ∷ [])) (λ m.
      and_then (add_payload "device" "device" d m) (λ m.
        and_then (add_payload "session" "session" s m) (λ m.
          and_then (add_payload "application" "application" a m) (λ m.
            and_then (add_payload "tenant" "tenant" t m) (λ m.
              and_then (add_payload "org unit" "org_unit" o m)
                (λ m. add_payload "group" "group" r m))))))

unfoldable mutual
  unfolding Simple.payload and_then put

  pub payload : Subject → Result String (Dict Value)
  payload (simple s) = ok (Simple.payload s)
  payload (complex named u d s a t o r) =
      complex_payload named (component_payload u) (component_payload d) (component_payload s)
        (component_payload a) (component_payload t) (component_payload o) (component_payload r)

  pub component_payload : Component → Option (Result String (Dict Value))
  component_payload absent = none
  component_payload (present s) = some (payload s)

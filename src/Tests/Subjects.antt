-- ===== src/Tests/Subjects.antt =====
-- The theorems on secevent/pkg/subject at concrete subjects.
use caep_dev.Base.{◌≡◌, ◌↔◌, refl, true, not, ◌==◌, none, ok, err}
use caep_dev.Base.Text.{trim_space}
use caep_dev.Base.Dict.{Dict}
use caep_dev.Models.Value.{Value}
use caep_dev.Subjects.Defs.{
  Grammars, new_error, refused, invalid_format, format_email, format_opaque, format_complex,
  format_did,
}
use caep_dev.Subjects.Simple
use caep_dev.Subjects.Simple.{SimpleSubject}
use caep_dev.Subjects.Complex.{
  Subject, simple, complex, absent, present, validate, marshal, payload,
}
use caep_dev.Subjects.Parse.{parse_subject}
use caep_dev.Subjects.RoundTrip.{IsReadable, parse_subject-marshal}
use caep_dev.Subjects.Validity.{IsValid, validate-IsValid, parse_subject-marshal_unread}
use caep_dev.Subjects.Payloads.{IsPayload, payload-IsPayload}

abbrev pub grammars : Grammars
grammars = record { is_address = λ s. not (s == ""); is_url = λ s. true }

abbrev pub ann : Subject
ann = simple (Simple.email (record { format = format_email; email = "ann@corp.example" }))

abbrev pub laptop : Subject
laptop = simple (Simple.opaque (record { format = format_opaque; id = "laptop-7" }))

-- a user on a device, in a tenant that is itself complex
abbrev pub ann_on_laptop : Subject
ann_on_laptop =
    complex format_complex (present ann) (present laptop) absent absent
      (present (complex format_complex absent absent absent (present laptop) absent absent absent))
      absent absent

abbrev decentralised : SimpleSubject
decentralised = Simple.did (record { format = format_did; url = "did:example:7" })

pub ann_on_laptop-IsReadable : IsReadable ann_on_laptop
unfolding trim_space
ann_on_laptop-IsReadable =
    (refl, (refl, refl), (refl, refl), tt, tt, (refl, tt, tt, tt, (refl, refl), tt, tt, tt), tt, tt)

parse_subject-marshal_example : parse_subject (marshal ann_on_laptop) ≡ ok ann_on_laptop
parse_subject-marshal_example = parse_subject-marshal ann_on_laptop ann_on_laptop-IsReadable

validate-IsValid_example : (validate grammars ann_on_laptop ≡ none) ↔ IsValid grammars ann_on_laptop
validate-IsValid_example = validate-IsValid grammars ann_on_laptop

parse_subject-marshal_unread_example :
    parse_subject (Simple.marshal decentralised)
    ≡ err (refused (new_error invalid_format "unsupported subject format: did" "format"))
parse_subject-marshal_unread_example = parse_subject-marshal_unread decentralised refl

payload-IsPayload_example :
    (p : Dict Value) × (payload ann_on_laptop ≡ ok p) × IsPayload format_complex p
payload-IsPayload_example = payload-IsPayload ann_on_laptop

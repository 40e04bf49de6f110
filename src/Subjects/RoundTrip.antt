-- ===== src/Subjects/RoundTrip.antt =====
-- Reading back the subjects that secevent/pkg/subject writes.
use caep_dev.Base.{
  contains, ◌≡◌, refl, ap, ◌∙◌, String, true, false, [], ◌∷◌, Option, none, some, ◌==◌, ok,
  and_then,
}
use caep_dev.Base.Text.{same_fold, fold_rune}
use caep_dev.Base.Dict.{Dict}
use caep_dev.Json.{Json, object, Members}
use caep_dev.Json.Decode.{field, addresses, last_entry}
use caep_dev.Subjects.Defs.{
  format_complex, format_email, format_phone, format_issuer_sub, format_uri, format_opaque,
}
use caep_dev.Subjects.Email
use caep_dev.Subjects.Phone
use caep_dev.Subjects.IssuerSub
use caep_dev.Subjects.Uri
use caep_dev.Subjects.Opaque
use caep_dev.Subjects.Simple
use caep_dev.Subjects.Simple.{SimpleSubject, parse_simple_subject}
use caep_dev.Subjects.Complex.{
  Subject, simple, complex, Component, absent, present, marshal, marshal_component, complex_members,
}
use caep_dev.Subjects.Parse.{
  Parsed, within_words, is_simple_format, string_at, complex_names, component_of, complex_with,
  unmarshal_complex, parse_object, parse_named, parse_complex_subject, parse_subject, parse_members,
}
use caep_dev.Subjects.Members.{
  parse_optional, format-complex_members, named-complex_members, user-complex_members,
  device-complex_members, session-complex_members, application-complex_members,
  tenant-complex_members, org_unit-complex_members, group-complex_members,
}

-- what parsing gives back of a component
abbrev whole : Component → Option Parsed
whole absent = none
whole (present s) = some (ok s)

component_of-whole : (what : String) (c : Component) → component_of what (whole c) ≡ ok c
component_of-whole what absent = refl
component_of-whole what (present s) = refl

-- The subjects that are read: the simple ones of the five formats that are parsed, and the complex
-- ones that are made of subjects that are read.
abbrev mutual
  pub IsReadable : Subject → Type 0
  IsReadable (simple s) = Simple.IsReadable s
  IsReadable (complex named u d s a t o r) =
      (named ≡ format_complex)
      × IsReadableComponent u
      × IsReadableComponent d
      × IsReadableComponent s
      × IsReadableComponent a
      × IsReadableComponent t
      × IsReadableComponent o
      × IsReadableComponent r

  pub IsReadableComponent : Component → Type 0
  IsReadableComponent absent = Unit
  IsReadableComponent (present s) = IsReadable s

parse_simple-members :
    (ms : Members) (named : String) (s : SimpleSubject)
    → (named == format_complex) ≡ false
    → is_simple_format named ≡ true
    → string_at ("format" ∷ []) "format" ms ≡ ok named
    → parse_simple_subject (object ms) ≡ ok s
    → parse_subject (object ms) ≡ ok (simple s)
unfolding parse_subject parse_object parse_named and_then
parse_simple-members ms named s other among at read = rw at (rw (other, among, read) refl)

parse_simple-marshal :
    (s : SimpleSubject) → Simple.IsReadable s → parse_subject (Simple.marshal s) ≡ ok (simple s)
unfolding string_at field addresses contains same_fold fold_rune Simple.marshal Email.marshal
    Phone.marshal IssuerSub.marshal Uri.marshal Opaque.marshal and_then
parse_simple-marshal (Simple.email s) h =
    parse_simple-members _ format_email _ refl refl (ap ok h.0)
      (Simple.parse_simple_subject-marshal (Simple.email s) h)
parse_simple-marshal (Simple.phone s) h =
    parse_simple-members _ format_phone _ refl refl (ap ok h.0)
      (Simple.parse_simple_subject-marshal (Simple.phone s) h)
parse_simple-marshal (Simple.issuer_sub s) h =
    parse_simple-members _ format_issuer_sub _ refl refl (ap ok h.0)
      (Simple.parse_simple_subject-marshal (Simple.issuer_sub s) h)
parse_simple-marshal (Simple.uri s) h =
    parse_simple-members _ format_uri _ refl refl (ap ok h.0)
      (Simple.parse_simple_subject-marshal (Simple.uri s) h)
parse_simple-marshal (Simple.opaque s) h =
    parse_simple-members _ format_opaque _ refl refl (ap ok h.0)
      (Simple.parse_simple_subject-marshal (Simple.opaque s) h)
parse_simple-marshal _ h = absurd h

parse_object-complex :
    (ms : Members) (ps : Dict Parsed)
    → string_at ("format" ∷ []) "format" ms ≡ ok format_complex
    → string_at complex_names "format" ms ≡ ok format_complex
    → parse_object ms ps ≡ within_words "failed to parse complex subject" (complex_with ps)
unfolding parse_object parse_named parse_complex_subject unmarshal_complex and_then
parse_object-complex ms ps alone among = rw (alone, among) refl

-- the components at their names, as they were
abbrev Holds : Dict Parsed → (u d s a t o r : Component) → Type 0
Holds ps u d s a t o r =
    (last_entry (addresses complex_names "user") ps ≡ whole u)
    × (last_entry (addresses complex_names "device") ps ≡ whole d)
    × (last_entry (addresses complex_names "session") ps ≡ whole s)
    × (last_entry (addresses complex_names "application") ps ≡ whole a)
    × (last_entry (addresses complex_names "tenant") ps ≡ whole t)
    × (last_entry (addresses complex_names "org_unit") ps ≡ whole o)
    × (last_entry (addresses complex_names "group") ps ≡ whole r)

complex_with-Holds :
    (ps : Dict Parsed) (u d s a t o r : Component)
    → Holds ps u d s a t o r
    → complex_with ps ≡ ok (complex format_complex u d s a t o r)
unfolding and_then
complex_with-Holds ps u d s a t o r (hu, hd, hs, ha, ht, ho, hr) =
    simp (hu, hd, hs, ha, ht, ho, hr, component_of-whole) refl

parse_complex-members :
    (u d s a t o r : Option Json) (u' d' s' a' t' o' r' : Component)
    → parse_optional u ≡ whole u'
    → parse_optional d ≡ whole d'
    → parse_optional s ≡ whole s'
    → parse_optional a ≡ whole a'
    → parse_optional t ≡ whole t'
    → parse_optional o ≡ whole o'
    → parse_optional r ≡ whole r'
    → parse_subject (object (complex_members format_complex u d s a t o r))
      ≡ ok (complex format_complex u' d' s' a' t' o' r')
unfolding parse_subject
parse_complex-members u d s a t o r u' d' s' a' t' o' r' hu hd hs ha ht ho hr =
    let ms = complex_members format_complex u d s a t o r in
    parse_object-complex ms (parse_members ms) (named-complex_members format_complex u d s a t o r)
      (format-complex_members format_complex u d s a t o r)
    ∙ ap (λ p. within_words "failed to parse complex subject" p)
        (complex_with-Holds (parse_members ms) u' d' s' a' t' o' r' (
          user-complex_members format_complex u d s a t o r ∙ hu,
          device-complex_members format_complex u d s a t o r ∙ hd,
          session-complex_members format_complex u d s a t o r ∙ hs,
          application-complex_members format_complex u d s a t o r ∙ ha,
          tenant-complex_members format_complex u d s a t o r ∙ ht,
          org_unit-complex_members format_complex u d s a t o r ∙ ho,
          group-complex_members format_complex u d s a t o r ∙ hr,
        ))

parse_complex_named-members :
    (named : String) (u d s a t o r : Option Json) (u' d' s' a' t' o' r' : Component)
    → named ≡ format_complex
    → parse_optional u ≡ whole u'
    → parse_optional d ≡ whole d'
    → parse_optional s ≡ whole s'
    → parse_optional a ≡ whole a'
    → parse_optional t ≡ whole t'
    → parse_optional o ≡ whole o'
    → parse_optional r ≡ whole r'
    → parse_subject (object (complex_members named u d s a t o r))
      ≡ ok (complex named u' d' s' a' t' o' r')
parse_complex_named-members named u d s a t o r u' d' s' a' t' o' r' f hu hd hs ha ht ho hr =
    rw f (parse_complex-members u d s a t o r u' d' s' a' t' o' r' hu hd hs ha ht ho hr)

mutual
  unfolding marshal

  subject_read : (s : Subject) → IsReadable s → parse_subject (marshal s) ≡ ok s
  subject_read (simple s) h = parse_simple-marshal s h
  subject_read (complex named u d s a t o r) (f, hu, hd, hs, ha, ht, ho, hr) =
      parse_complex_named-members named _ _ _ _ _ _ _ u d s a t o r f (component_read u hu)
        (component_read d hd) (component_read s hs) (component_read a ha) (component_read t ht)
        (component_read o ho) (component_read r hr)

  component_read :
      (c : Component) → IsReadableComponent c → parse_optional (marshal_component c) ≡ whole c
  component_read absent h = refl
  component_read (present s) h = ap some (subject_read s h)

-- A simple subject of one of the formats email, phone, issuer and subject, URI and opaque, with its
-- own format and trimmed values, is parsed back from the document that it writes; and so is every
-- complex subject that has its own format and only such subjects as components, at any depth.
pub parse_subject-marshal : (s : Subject) → IsReadable s → parse_subject (marshal s) ≡ ok s
parse_subject-marshal s h = subject_read s h

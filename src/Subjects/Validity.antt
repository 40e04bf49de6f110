-- ===== src/Subjects/Validity.antt =====
-- Which subjects of secevent/pkg/subject pass Validate, and which written ones are not read back.
use Prim.Native.String.{◌++◌}
use caep_dev.Base.{
  ◌≡◌, ◌≢◌, ◌↔◌, Bool-cases, inl, inr, refl, String, Bool, true, false, not, ◌||◌, [], ◌∷◌,
  contains, Option, none, some, ◌==◌, eq_iff, if◌then◌else◌, ok, err, and_then,
}
use caep_dev.Base.Text.{same_fold, fold_rune, trim_space, has_prefix}
use caep_dev.Json.Decode.{field, addresses}
use caep_dev.Json.{Members, object}
use caep_dev.Subjects.Defs.{
  Grammars, SubjectError, new_error, refused, invalid_format, format_complex, format_account,
  format_did, format_jwt_id, format_saml_id,
}
use caep_dev.Subjects.Account
use caep_dev.Subjects.Did
use caep_dev.Subjects.Did.{did_not_blank}
use caep_dev.Subjects.Email
use caep_dev.Subjects.Phone
use caep_dev.Subjects.IssuerSub
use caep_dev.Subjects.Uri
use caep_dev.Subjects.Opaque
use caep_dev.Subjects.JwtId
use caep_dev.Subjects.SamlId
use caep_dev.Subjects.Simple
use caep_dev.Subjects.Simple.{SimpleSubject}
use caep_dev.Subjects.Complex.{
  Subject, simple, complex, Component, absent, present, is_present, validate, component_error, wrap,
  first_error,
}
use caep_dev.Subjects.Parse.{string_at, is_simple_format, parse_subject, parse_object, parse_named}

guards-none :
    (x y : Bool) (e f : SubjectError) (later : Option SubjectError)
    → ((if not x then some e else if not y then some f else later) ≡ none)
      ↔ ((x ≡ true) × (y ≡ true) × (later ≡ none))
guards-none true true e f later = (λ h. (refl, refl, h), λ h. h.2)
guards-none true false e f later = (λ h. absurd (cc h), λ h. absurd (cc (h.1)))
guards-none false y e f later = (λ h. absurd (cc h), λ h. absurd (cc (h.0)))

-- A text that is more than space
abbrev pub IsGiven : String → Type 0
IsGiven s = trim_space s ≢ ""

-- What each simple subject must hold, apart from the space around its texts.
abbrev pub IsValidSimple : Grammars → SimpleSubject → Type 0
IsValidSimple g (Simple.email s) = g.is_address (trim_space s.email) ≡ true
IsValidSimple g (Simple.phone s) = IsGiven s.phone
IsValidSimple g (Simple.issuer_sub s) = IsGiven s.issuer × IsGiven s.sub
IsValidSimple g (Simple.uri s) = g.is_url (trim_space s.uri) ≡ true
IsValidSimple g (Simple.opaque s) = IsGiven s.id
IsValidSimple g (Simple.account s) =
    (has_prefix (trim_space s.uri) "acct:" ≡ true) × (g.is_url (trim_space s.uri) ≡ true)
IsValidSimple g (Simple.did s) = has_prefix (trim_space s.url) "did:" ≡ true
IsValidSimple g (Simple.jwt_id s) = IsGiven s.iss × IsGiven s.jti
IsValidSimple g (Simple.saml_id s) = IsGiven s.issuer × IsGiven s.assertion_id

given_iff :
    (s : String) (e : SubjectError) (later : Option SubjectError)
    → ((if s == "" then some e else later) ≡ none) ↔ ((s ≢ "") × (later ≡ none))
given_iff s e later = elim (Bool-cases (s == "")) [
  | inl blank ↦
      (λ h. absurd (cc (rw blank at h)), λ (given, l). absurd (given ((eq_iff s "").0 blank)))
  | inr given ↦
      (λ h. ((λ same. cc (given, (eq_iff s "").1 same)), rw given at h), λ (_, l). rw given l)
]

holds_iff :
    (x : Bool) (e : SubjectError) (later : Option SubjectError)
    → ((if not x then some e else later) ≡ none) ↔ ((x ≡ true) × (later ≡ none))
holds_iff true e later = (λ h. (refl, h), λ h. h.1)
holds_iff false e later = (λ h. absurd (cc h), λ h. absurd (cc (h.0)))

given_both_iff :
    (s t : String) (e f : SubjectError)
    → ((if s == "" then some e else if t == "" then some f else none) ≡ none)
      ↔ ((s ≢ "") × (t ≢ ""))
given_both_iff s t e f = (
  λ h. let (gs, h') = (given_iff s e _).0 h in let (gt, _) = (given_iff t f none).0 h' in (gs, gt),
  λ (gs, gt). (given_iff s e _).1 (gs, (given_iff t f none).1 (gt, refl)),
)

checks_simple :
    (g : Grammars) (s : SimpleSubject) → (Simple.validate g s ≡ none) ↔ IsValidSimple g s
unfolding Simple.validate Email.validate Phone.validate IssuerSub.validate Uri.validate
    Opaque.validate Account.validate Did.validate JwtId.validate SamlId.validate
checks_simple g (Simple.email s) =
    (λ h. ((holds_iff _ _ _).0 h).0, λ h. (holds_iff _ _ _).1 (h, refl))
checks_simple g (Simple.phone s) =
    (λ h. ((given_iff _ _ _).0 h).0, λ h. (given_iff _ _ _).1 (h, refl))
checks_simple g (Simple.issuer_sub s) = given_both_iff _ _ _ _
checks_simple g (Simple.uri s) =
    (λ h. ((holds_iff _ _ _).0 h).0, λ h. (holds_iff _ _ _).1 (h, refl))
checks_simple g (Simple.opaque s) =
    (λ h. ((given_iff _ _ _).0 h).0, λ h. (given_iff _ _ _).1 (h, refl))
checks_simple g (Simple.account s) = (
  λ h. let (x, y, _) = (guards-none _ _ _ _ _).0 h in (x, y),
  λ (x, y). (guards-none _ _ _ _ _).1 (x, y, refl),
)
checks_simple g (Simple.did s) = (
  λ h. ((holds_iff _ _ _).0 ((given_iff _ _ _).0 h).1).0,
  λ h. (given_iff _ _ _).1 (
    (λ blank. cc (did_not_blank _ h, (eq_iff (trim_space s.url) "").1 blank)),
    (holds_iff _ _ _).1 (h, refl),
  ),
)
checks_simple g (Simple.jwt_id s) = given_both_iff _ _ _ _
checks_simple g (Simple.saml_id s) = given_both_iff _ _ _ _

-- A simple subject is valid by what it must hold. A complex one has its format, a component, and only
-- valid components.
abbrev mutual
  pub IsValid : Grammars → Subject → Type 0
  IsValid g (simple s) = IsValidSimple g s
  IsValid g (complex named u d s a t o r) =
      (named ≡ format_complex)
      × (is_present u
            || (is_present d
                || (is_present s
                    || (is_present a || (is_present t || (is_present o || is_present r)))))
          ≡ true)
      × IsValidComponent g u
      × IsValidComponent g d
      × IsValidComponent g s
      × IsValidComponent g a
      × IsValidComponent g t
      × IsValidComponent g o
      × IsValidComponent g r

  pub IsValidComponent : Grammars → Component → Type 0
  IsValidComponent g absent = Unit
  IsValidComponent g (present s) = IsValid g s

first_error-none :
    (a b : Option SubjectError) → (first_error a b ≡ none) ↔ ((a ≡ none) × (b ≡ none))
first_error-none none b = (λ h. (refl, h), λ h. h.1)
first_error-none (some e) b = (λ h. absurd (cc h), λ h. absurd (cc (h.0)))

wrap-none :
    (what field : String) (e : Option SubjectError) → (wrap what field e ≡ none) ↔ (e ≡ none)
wrap-none what field none = (λ h. refl, λ h. refl)
wrap-none what field (some e) = (λ h. absurd (cc h), λ h. absurd (cc h))

errors-none :
    (a b c d e f g : Option SubjectError)
    → (first_error a
          (first_error b (first_error c (first_error d (first_error e (first_error f g)))))
        ≡ none)
      ↔ ((a ≡ none) × (b ≡ none) × (c ≡ none) × (d ≡ none) × (e ≡ none) × (f ≡ none) × (g ≡ none))
errors-none a b c d e f g = (
  λ h.
      let (ha, h) = (first_error-none a _).0 h in
      let (hb, h) = (first_error-none b _).0 h in
      let (hc, h) = (first_error-none c _).0 h in
      let (hd, h) = (first_error-none d _).0 h in
      let (he, h) = (first_error-none e _).0 h in
      let (hf, h) = (first_error-none f g).0 h in (ha, hb, hc, hd, he, hf, h),
  λ (ha, hb, hc, hd, he, hf, hg). rw (ha, hb, hc, hd, he, hf, hg) refl,
)

mutual
  unfolding validate

  checks_subject : (g : Grammars) (s : Subject) → (validate g s ≡ none) ↔ IsValid g s
  checks_subject g (simple s) = checks_simple g s
  checks_subject g (complex named u d s a t o r) = (
    λ h.
        let (f, some_there, h) = (guards-none (named == format_complex) _ _ _ _).0 h in
        let (hu, hd, hs, ha, ht, ho, hr) = (errors-none _ _ _ _ _ _ _).0 h in
        (
          (eq_iff named format_complex).0 f,
          some_there,
          (checks_component g "user" "user" u).0 hu,
          (checks_component g "device" "device" d).0 hd,
          (checks_component g "session" "session" s).0 hs,
          (checks_component g "application" "application" a).0 ha,
          (checks_component g "tenant" "tenant" t).0 ht,
          (checks_component g "org unit" "org_unit" o).0 ho,
          (checks_component g "group" "group" r).0 hr,
        ),
    λ (f, some_there, hu, hd, hs, ha, ht, ho, hr).
        (guards-none (named == format_complex) _ _ _ _).1 (
          (eq_iff named format_complex).1 f,
          some_there,
          (errors-none _ _ _ _ _ _ _).1 (
            (checks_component g "user" "user" u).1 hu,
            (checks_component g "device" "device" d).1 hd,
            (checks_component g "session" "session" s).1 hs,
            (checks_component g "application" "application" a).1 ha,
            (checks_component g "tenant" "tenant" t).1 ht,
            (checks_component g "org unit" "org_unit" o).1 ho,
            (checks_component g "group" "group" r).1 hr,
          ),
        ),
  )

  checks_component :
      (g : Grammars) (what field : String) (c : Component)
      → (component_error g what field c ≡ none) ↔ IsValidComponent g c
  checks_component g what field absent = (λ h. tt, λ h. refl)
  checks_component g what field (present s) = (
    λ h. (checks_subject g s).0 ((wrap-none what field _).0 h),
    λ h. (wrap-none what field _).1 ((checks_subject g s).1 h),
  )

-- Validate returns no error exactly if a simple subject, apart from the space around its texts, holds
-- what its kind must: an email address or a URL that parses, a text that is not blank, the scheme
-- "acct:" with a URL that parses, or the scheme "did:"; or if a complex subject has the format
-- "complex", has a component, and has only valid components, at any depth.
pub validate-IsValid : (g : Grammars) (s : Subject) → (validate g s ≡ none) ↔ IsValid g s
validate-IsValid g s = checks_subject g s

-- One of the four formats that no switch of the parser names, with its own format
abbrev pub IsUnread : SimpleSubject → Type 0
IsUnread (Simple.account s) = s.format ≡ format_account
IsUnread (Simple.did s) = s.format ≡ format_did
IsUnread (Simple.jwt_id s) = s.format ≡ format_jwt_id
IsUnread (Simple.saml_id s) = s.format ≡ format_saml_id
IsUnread _ = ⊥

refused_format :
    (ms : Members) (named : String)
    → (named == format_complex) ≡ false
    → is_simple_format named ≡ false
    → string_at ("format" ∷ []) "format" ms ≡ ok named
    → parse_subject (object ms)
      ≡ err (refused (new_error invalid_format ("unsupported subject format: " ++ named) "format"))
unfolding parse_subject parse_object parse_named and_then
refused_format ms named whole other at = rw at (rw (whole, other) refl)

-- A subject of one of the formats account, DID, JWT id and SAML assertion id, with its own format,
-- is refused as of an unsupported format when the document that it writes is parsed.
pub parse_subject-marshal_unread :
    (s : SimpleSubject)
    → IsUnread s
    → parse_subject (Simple.marshal s)
      ≡ err (
          refused
            (new_error invalid_format ("unsupported subject format: " ++ Simple.format s) "format"))
unfolding string_at field addresses contains same_fold fold_rune Simple.marshal Account.marshal
    Did.marshal JwtId.marshal SamlId.marshal and_then
parse_subject-marshal_unread (Simple.account s) h =
    rw h (refused_format _ format_account refl refl refl)
parse_subject-marshal_unread (Simple.did s) h = rw h (refused_format _ format_did refl refl refl)
parse_subject-marshal_unread (Simple.jwt_id s) h =
    rw h (refused_format _ format_jwt_id refl refl refl)
parse_subject-marshal_unread (Simple.saml_id s) h =
    rw h (refused_format _ format_saml_id refl refl refl)
parse_subject-marshal_unread _ h = absurd h

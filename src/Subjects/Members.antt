-- ===== src/Subjects/Members.antt =====
-- What is read of the members of a written complex subject.
use caep_dev.Base.{
  Bool-cases, inl, inr, sym, contains, ◌≡◌, refl, ap, String, Bool, [], ◌∷◌, Option, none, some,
  if◌then◌else◌, ok, err, and_then,
}
use caep_dev.Base.Text.{same_fold, fold_rune}
use caep_dev.Json.{Json, Members, empty, member}
use caep_dev.Json.Decode.{field, read_text, addresses, last_entry, optional, or_else}
use caep_dev.Json.Laws.{field-optional, or_else-none}
use caep_dev.Subjects.Defs.{malformed}
use caep_dev.Subjects.Complex.{complex_members}
use caep_dev.Subjects.Parse.{Parsed, string_at, complex_names, parse_subject, parse_members}

abbrev pub parse_optional : Option Json → Option Parsed
parse_optional none = none
parse_optional (some v) = some (parse_subject v)

last_entry-optional :
    (reads : String → Bool) (key : String) (o : Option Json) (others : Members)
    → last_entry reads (parse_members (optional key o others))
      ≡ or_else
          (last_entry reads (parse_members others))
          (if reads key then parse_optional o else none)
unfolding last_entry optional parse_members
last_entry-optional reads key none others = elim (Bool-cases (reads key)) [
  | inl own ↦ rw own (sym (or_else-none _))
  | inr other ↦ rw other (sym (or_else-none _))
]
last_entry-optional reads key (some v) others = refl

last_entry-member :
    (reads : String → Bool) (key : String) (v : Json) (others : Members)
    → last_entry reads (parse_members (member key v others))
      ≡ or_else
          (last_entry reads (parse_members others))
          (if reads key then some (parse_subject v) else none)
unfolding last_entry parse_members
last_entry-member reads key v others = refl

last_entry-empty : (reads : String → Bool) → last_entry reads (parse_members empty) ≡ none
unfolding last_entry parse_members
last_entry-empty reads = refl

ruleset components = (last_entry-optional, last_entry-member, last_entry-empty, or_else-none)

module _ (named : String) (u d s a t o r : Option Json) where
  format_among :
      field read_text (addresses complex_names "format") "" (complex_members named u d s a t o r)
      ≡ ok named
  unfolding field addresses contains same_fold fold_rune and_then
  format_among = simp field-optional refl

  pub user-complex_members :
      last_entry
        (addresses complex_names "user")
        (parse_members (complex_members named u d s a t o r))
      ≡ parse_optional u
  unfolding addresses contains same_fold fold_rune or_else
  user-complex_members = simp components refl

  pub device-complex_members :
      last_entry
        (addresses complex_names "device")
        (parse_members (complex_members named u d s a t o r))
      ≡ parse_optional d
  unfolding addresses contains same_fold fold_rune or_else
  device-complex_members = simp components refl

  pub session-complex_members :
      last_entry
        (addresses complex_names "session")
        (parse_members (complex_members named u d s a t o r))
      ≡ parse_optional s
  unfolding addresses contains same_fold fold_rune or_else
  session-complex_members = simp components refl

  pub application-complex_members :
      last_entry
        (addresses complex_names "application")
        (parse_members (complex_members named u d s a t o r))
      ≡ parse_optional a
  unfolding addresses contains same_fold fold_rune or_else
  application-complex_members = simp components refl

  pub tenant-complex_members :
      last_entry
        (addresses complex_names "tenant")
        (parse_members (complex_members named u d s a t o r))
      ≡ parse_optional t
  unfolding addresses contains same_fold fold_rune or_else
  tenant-complex_members = simp components refl

  pub org_unit-complex_members :
      last_entry
        (addresses complex_names "org_unit")
        (parse_members (complex_members named u d s a t o r))
      ≡ parse_optional o
  unfolding addresses contains same_fold fold_rune or_else
  org_unit-complex_members = simp components refl

  pub group-complex_members :
      last_entry
        (addresses complex_names "group")
        (parse_members (complex_members named u d s a t o r))
      ≡ parse_optional r
  unfolding addresses contains same_fold fold_rune or_else
  group-complex_members = simp components refl

  format_alone :
      field read_text (addresses ("format" ∷ []) "format") "" (complex_members named u d s a t o r)
      ≡ ok named
  unfolding field addresses contains same_fold fold_rune and_then
  format_alone = simp field-optional refl

  pub format-complex_members :
      (string_at complex_names "format" (complex_members named u d s a t o r)) ≡ ok named
  unfolding string_at
  format-complex_members = ap (λ f. elim f [ ok n ↦ ok n | err e ↦ err malformed ]) format_among

  pub named-complex_members :
      string_at ("format" ∷ []) "format" (complex_members named u d s a t o r) ≡ ok named
  unfolding string_at field addresses contains same_fold fold_rune and_then
  named-complex_members = ap (λ f. elim f [ ok n ↦ ok n | err e ↦ err malformed ]) format_alone

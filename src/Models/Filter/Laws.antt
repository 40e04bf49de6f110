-- ===== src/Models/Filter/Laws.antt =====
-- What `EventFilter.Matches` of ssf-hub/pkg/models/event.go does on its fields and values.
use Prim.Native.String.{◌++◌}
use mathlib.Core.Logic.{inl, inr}
use caep_dev.Base.{
  String, Bool, true, false, List, [], ◌∷◌, All, none, some, ◌≡◌, refl, ◌≢◌, ◌↔◌, ◌⊎◌, ◌∙◌, sym, ap,
  arith, ◌==◌, eq_iff, Bool-cases, if◌then◌else◌, returns, panics,
}
use caep_dev.Base.Text.{after, after-append, ends_with-append, suffix_of_ends_with}
use text.Mathlib.TextLemmas.{cons-append}
use caep_dev.Models.Value.{
  Value, null, bool, num, str, arr, obj, Items, nil, cons, IsComparable, value_eq-returns,
}
use caep_dev.Models.Receiver.{EventFilter}
use caep_dev.Models.Event.{SecurityEvent}
use caep_dev.Models.Filter.{
  op_equals, op_in, op_exists, index, member, or_else, index_at, extract_field_value, equals,
  contains, matches, in_items, is_in, filter_matches,
}

-- `contains` on texts tests for a suffix.
pub contains-suffix_iff :
    (a b : String) → (contains (str a) (str b) ≡ returns true) ↔ ((p : String) × (a ≡ p ++ b))
unfolding contains
contains-suffix_iff a b =
    (λ h. suffix_of_ends_with a b (ground arith), λ h. rw h.1 (ap returns (ends_with-append h.0 b)))

-- A text with a prefix is another than `s`, if what `s` has after the prefix is another.
long-ne : (prefix k s : String) → after prefix s ≢ some k → ((prefix ++ k) == s) ≡ false
long-ne prefix k s h = elim (Bool-cases ((prefix ++ k) == s)) [
  | inl same ↦
      absurd (h (sym (ap (after prefix) ((eq_iff (prefix ++ k) s).0 same)) ∙ after-append prefix k))
  | inr other ↦ other
]

member-append : (prefix k : String) → k ≢ "" → member prefix (prefix ++ k) ≡ some k
unfolding member
member-append prefix k h = ground (arith, after-append prefix k, eq_iff k "")

member-other :
    (prefix other k : String) → after prefix (other ++ k) ≡ none → member prefix (other ++ k) ≡ none
unfolding member
member-other prefix other k h = rw (h, member)

-- the names that `extractFieldValue` reads from the event itself
abbrev plain_fields : List String
plain_fields =
    "id" ∷ "type" ∷ "source" ∷ "subject.format" ∷ "subject.identifier" ∷ "metadata.transmitter_id"
    ∷ []

extract_field_value-long :
    (prefix k : String) (e : SecurityEvent)
    → All (λ name. after prefix name ≢ some k) plain_fields
    → extract_field_value (prefix ++ k) e
      ≡ or_else (index_at (member "data." (prefix ++ k)) e.event_data) (
          or_else
            (index_at (member "extensions." (prefix ++ k)) e.extensions)
            (or_else (index_at (member "subject." (prefix ++ k)) e.subject.claims) null))
unfolding extract_field_value
extract_field_value-long prefix k e (h₁, (h₂, (h₃, (h₄, (h₅, (h₆, _)))))) = simp (
  long-ne prefix k "id" h₁,
  long-ne prefix k "type" h₂,
  long-ne prefix k "source" h₃,
  long-ne prefix k "subject.format" h₄,
  long-ne prefix k "subject.identifier" h₅,
  long-ne prefix k "metadata.transmitter_id" h₆,
)

module _ (k : String) (e : SecurityEvent) (long : k ≢ "") where
  pub extract_field_value-data : extract_field_value ("data." ++ k) e ≡ index k e.event_data
  unfolding after
  extract_field_value-data =
      rw (extract_field_value-long "data." k e (ground arith)) (simp (member-append "data." k long))

  extract_field_value-extensions : extract_field_value ("extensions." ++ k) e ≡ index k e.extensions
  unfolding after
  extract_field_value-extensions = rw (extract_field_value-long "extensions." k e (ground arith)) (
      simp
        (member-other "data." "extensions." k (rw cons-append), member-append "extensions." k long))

  extract_field_value-claims :
      k ≢ "format"
      → k ≢ "identifier"
      → extract_field_value ("subject." ++ k) e ≡ index k e.subject.claims
  unfolding after
  extract_field_value-claims p q = rw (extract_field_value-long "subject." k e (ground arith)) (
      simp (
        member-other "data." "subject." k (rw cons-append),
        member-other "extensions." "subject." k (rw cons-append),
        member-append "subject." k long,
      ))

-- A dotted field that is not empty after its dot, and is not the subject's format or identifier, reads
-- the entry of its map: of the data, of the extensions, or of the subject's claims.
pub extract_field_value-dotted :
    (k : String) (e : SecurityEvent)
    → k ≢ ""
    → k ≢ "format"
    → k ≢ "identifier"
    → (extract_field_value ("data." ++ k) e ≡ index k e.event_data)
      × (extract_field_value ("extensions." ++ k) e ≡ index k e.extensions)
      × (extract_field_value ("subject." ++ k) e ≡ index k e.subject.claims)
extract_field_value-dotted k e h f i = (
  extract_field_value-data k e h,
  extract_field_value-extensions k e h,
  extract_field_value-claims k e h f i,
)

-- Every item of the list can be compared.
abbrev pub AreComparable : Items → Type 0
AreComparable nil = Unit
AreComparable (cons v vs) = IsComparable v × AreComparable vs

abbrev pub IsSafeList : Value → Type 0
IsSafeList (arr items) = AreComparable items
IsSafeList _ = Unit

-- A filter whose value, or whose items for the operator `in`, are neither lists nor maps.
pub record IsSafe (f : EventFilter) : Type 0 where
  pub value_safe : (f.operator ≢ op_equals) ⊎ IsComparable f.value
  pub items_safe : (f.operator ≢ op_in) ⊎ IsSafeList f.value

in_items-returns :
    (a : Value) (items : Items) → AreComparable items → (r : Bool) × (in_items a items ≡ returns r)
unfolding in_items
in_items-returns a nil h = (_, refl)
in_items-returns a (cons v vs) (h, hs) =
    let (same, e) = value_eq-returns a v h in
    let (r, ih) = in_items-returns a vs hs in (if same then true else r, rw (e, ih) (ground arith))

is_in-returns : (a b : Value) → IsSafeList b → (r : Bool) × (is_in a b ≡ returns r)
unfolding is_in
is_in-returns a (arr items) h = in_items-returns a items h
is_in-returns a null h = (_, refl)
is_in-returns a (bool b) h = (_, refl)
is_in-returns a (num b) h = (_, refl)
is_in-returns a (str b) h = (_, refl)
is_in-returns a (obj b) h = (_, refl)

equals-ne-panics : (a b : Value) → IsComparable b → equals a b ≢ panics
unfolding equals
equals-ne-panics a b h p = let (r, e) = value_eq-returns a b h in cc (e, p)

is_in-ne-panics : (a b : Value) → IsSafeList b → is_in a b ≢ panics
is_in-ne-panics a b h p = let (r, e) = is_in-returns a b h in cc (e, p)

pub contains-ne-panics : (a b : Value) → contains a b ≢ panics
unfolding contains
contains-ne-panics a b p = ground arith

comparable : (f : EventFilter) → IsSafe f → f.operator ≡ op_equals → IsComparable f.value
comparable f h op = elim h.value_safe [ inl other ↦ absurd (other op) | inr c ↦ c ]

comparable_items : (f : EventFilter) → IsSafe f → f.operator ≡ op_in → IsSafeList f.value
comparable_items f h op = elim h.items_safe [ inl other ↦ absurd (other op) | inr c ↦ c ]

-- A safe filter never panics, whatever the event.
pub filter_matches-ne-panics :
    (f : EventFilter) (e : SecurityEvent) → IsSafe f → filter_matches f e ≢ panics
unfolding filter_matches matches
filter_matches-ne-panics f e h p =
    let v = extract_field_value f.field e in
    ground (
      arith,
      eq_iff f.operator op_equals,
      eq_iff f.operator op_in,
      comparable f h,
      comparable_items f h,
      equals-ne-panics v f.value,
      is_in-ne-panics v f.value,
      contains-ne-panics v f.value,
    )

-- A filter on a field that the event does not have, or has as null, lets the event through exactly
-- when its operator is not `exists`.
pub filter_matches-missing :
    (f : EventFilter) (e : SecurityEvent)
    → extract_field_value f.field e ≡ null
    → (filter_matches f e ≡ returns true) ↔ (f.operator ≢ op_exists)
unfolding filter_matches
filter_matches-missing f e h = rw h (ground (arith, eq_iff f.operator op_exists))

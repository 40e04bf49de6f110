-- ===== src/Events/Written.antt =====
-- Reading back the metadata that secevent/pkg/schemes/caep/metadata.go writes, among the fields of
-- an event.
use caep_dev.Base.{
  ℕ, zero, suc, ◌<◌, ◌≡◌, refl, ap, ◌∙◌, String, Bool, true, false, List, [], ◌∷◌, All, Option,
  none, some, arith, Result, ok, and_then,
}
use caep_dev.Base.Int.{ℤ}
use caep_dev.Base.Dict.{Dict, HasDistinctKeys}
use caep_dev.Json.{Json, integer, text, Members, empty}
use caep_dev.Json.Decode.{
  Mismatch, field, has_any, addresses, write_fields, read_int64, is_int64, read_pointer, read_entry,
  fill_map,
}
use caep_dev.Json.Laws.{
  read_optional, field-optional, has_any-optional, field-write_fields, has_any-write_fields,
  fill_map-encode_map,
}
use caep_dev.Events.Metadata.{
  EventMetadata, metadata_members, optional_members, decode_metadata, reads_metadata, read_entity,
  marshal_entity, some_entity, unmarshal_entity, entity_text, write_map, map_option,
}

abbrev IsInt64 : Option ℤ → Type 0
IsInt64 none = Unit
IsInt64 (some t) = is_int64 t ≡ true

abbrev IsEntity : Option ℕ → Type 0
IsEntity none = Unit
IsEntity (some i) = i < 4

abbrev IsReason : Option (Dict String) → Type 0
IsReason none = Unit
IsReason (some []) = ⊥
IsReason (some (e ∷ m)) = HasDistinctKeys (e ∷ m)

-- Metadata that are written whole: a timestamp of 64 bits, a known entity, maps that are not empty,
-- and at least one of the four.
abbrev pub IsWritable : EventMetadata → Type 0
IsWritable m =
    IsInt64 m.event_timestamp
    × IsEntity m.initiating_entity
    × IsReason m.reason_admin
    × IsReason m.reason_user
    × (has_any (λ key. true) (metadata_members m) ≡ true)

abbrev pub IsWritableOption : Option EventMetadata → Type 0
IsWritableOption none = Unit
IsWritableOption (some m) = IsWritable m

timestamp_read :
    (o : Option ℤ)
    → IsInt64 o
    → read_optional read_int64 (λ k. true) none (map_option integer o) ≡ ok o
unfolding read_int64
timestamp_read none h = refl
timestamp_read (some t) h = rw h refl

-- The names of the entities are read as they are written.
pub unmarshal_entity-marshal_entity : (i : ℕ) → i < 4 → unmarshal_entity (marshal_entity i) ≡ ok i
unfolding unmarshal_entity marshal_entity entity_text
unmarshal_entity-marshal_entity zero h = refl
unmarshal_entity-marshal_entity (suc zero) h = refl
unmarshal_entity-marshal_entity (suc (suc zero)) h = refl
unmarshal_entity-marshal_entity (suc (suc (suc zero))) h = refl
unmarshal_entity-marshal_entity (suc (suc (suc (suc n)))) h = absurd (omega (arith, h))

entity_read :
    (o : Option ℕ)
    → IsEntity o
    → read_optional read_entity (λ k. true) none (map_option marshal_entity o) ≡ ok o
unfolding marshal_entity
entity_read none h = refl
entity_read (some i) h = ap some_entity (unmarshal_entity-marshal_entity i h)

reason_read :
    (o : Option (Dict String))
    → IsReason o
    → read_optional (fill_map read_entry) (λ k. true) none (write_map o) ≡ ok o
reason_read none h = refl
reason_read (some []) h = absurd h
reason_read (some (e ∷ m)) h = fill_map-encode_map read_entry text (λ s. refl) (e ∷ m) h

-- Which of the four names the reader of a name takes.
abbrev pub Row : (reads : String → Bool) (t i p q : Bool) → Type 0
Row reads t i p q =
    (reads "event_timestamp" ≡ t)
    × (reads "initiating_entity" ≡ i)
    × (reads "reason_admin" ≡ p)
    × (reads "reason_user" ≡ q)

module _ (reads : String → Bool) (m : EventMetadata) where
  timestamp_of :
      Row reads true false false false
      → IsInt64 m.event_timestamp
      → field read_int64 reads none (metadata_members m) ≡ ok m.event_timestamp
  unfolding metadata_members field and_then
  timestamp_of (a, b, c, d) h =
      simp (field-optional, a, b, c, d, timestamp_read m.event_timestamp h) refl

  entity_of :
      Row reads false true false false
      → IsEntity m.initiating_entity
      → field read_entity reads none (metadata_members m) ≡ ok m.initiating_entity
  unfolding metadata_members field and_then
  entity_of (a, b, c, d) h =
      simp (field-optional, a, b, c, d, entity_read m.initiating_entity h) refl

  reason_admin_of :
      Row reads false false true false
      → IsReason m.reason_admin
      → field (fill_map read_entry) reads none (metadata_members m) ≡ ok m.reason_admin
  unfolding metadata_members field and_then
  reason_admin_of (a, b, c, d) h =
      simp (field-optional, a, b, c, d, reason_read m.reason_admin h) refl

  reason_user_of :
      Row reads false false false true
      → IsReason m.reason_user
      → field (fill_map read_entry) reads none (metadata_members m) ≡ ok m.reason_user
  unfolding metadata_members field and_then
  reason_user_of (a, b, c, d) h =
      simp (field-optional, a, b, c, d, reason_read m.reason_user h) refl

  none_of :
      {E A : Type 0} (read : A → Json → Result E A) (kept : A)
      → Row reads false false false false
      → field read reads kept (metadata_members m) ≡ ok kept
  unfolding metadata_members field and_then
  none_of read kept (a, b, c, d) = simp (field-optional, a, b, c, d) refl

  any_of :
      Row reads true true true true
      → has_any reads (metadata_members m) ≡ has_any (λ key. true) (metadata_members m)
  unfolding metadata_members has_any
  any_of (a, b, c, d) = simp (has_any-optional, a, b, c, d) refl

-- No field of the list is one of the metadata's.
abbrev pub Avoids : (names : List String) → List (String × Option Json) → Type 0
Avoids names fields =
    All (λ f. addresses names "event_timestamp" f.0 ≡ false) fields
    × All (λ f. addresses names "initiating_entity" f.0 ≡ false) fields
    × All (λ f. addresses names "reason_admin" f.0 ≡ false) fields
    × All (λ f. addresses names "reason_user" f.0 ≡ false) fields
    × All (λ f. reads_metadata names f.0 ≡ false) fields

-- The struct's names tell the metadata's fields apart.
abbrev pub TellsApart : (names : List String) → Type 0
TellsApart names =
    Row (addresses names "event_timestamp") true false false false
    × Row (addresses names "initiating_entity") false true false false
    × Row (addresses names "reason_admin") false false true false
    × Row (addresses names "reason_user") false false false true
    × Row (reads_metadata names) true true true true

-- A field that is not the metadata's is not touched by them.
pub other_field :
    {E A : Type 0} (read : A → Json → Result E A) (reads : String → Bool) (kept : A)
    (o : Option EventMetadata)
    → Row reads false false false false
    → field read reads kept (optional_members o) ≡ ok kept
unfolding field
other_field read reads kept none h = refl
other_field read reads kept (some m) h = none_of reads m read kept h

field_empty :
    {E A : Type 0} (read : A → Json → Result E A) (reads : String → Bool) (kept : A)
    → field read reads kept empty ≡ ok kept
unfolding field
field_empty read reads kept = refl

module _ {A : Type 0} (names : List String) (payload : Members → Result Mismatch A) (a : A)
    (fields : List (String × Option Json)) where
  -- An event's fields and its metadata are read as they were written.
  pub decode_metadata-written :
      (o : Option EventMetadata)
      → TellsApart names
      → Avoids names fields
      → IsWritableOption o
      → payload (write_fields fields (optional_members o)) ≡ ok a
      → decode_metadata names payload (write_fields fields (optional_members o)) ≡ ok (a, o)
  unfolding and_then has_any
  decode_metadata-written none (rt, ri, rp, rq, rm) (ht, hi, hp, hq, hm) w e =
      rw
        (
          field-write_fields read_entity (addresses names "initiating_entity") fields none empty hi
              ∙ field_empty _ _ _,
          e,
          field-write_fields read_int64 (addresses names "event_timestamp") fields none empty ht
              ∙ field_empty _ _ _,
          field-write_fields (fill_map read_entry) (addresses names "reason_admin") fields none
                empty hp
              ∙ field_empty _ _ _,
          field-write_fields (fill_map read_entry) (addresses names "reason_user") fields none empty
                hq
              ∙ field_empty _ _ _,
          has_any-write_fields (reads_metadata names) fields empty hm,
        )
        refl
  decode_metadata-written (some m) (rt, ri, rp, rq, rm) (ht, hi, hp, hq, hm) (wt, wi, wp, wq, ww)
        e =
      rw
        (
          field-write_fields read_entity (addresses names "initiating_entity") fields none
                (metadata_members m) hi
              ∙ entity_of (addresses names "initiating_entity") m ri wi,
          e,
          field-write_fields read_int64 (addresses names "event_timestamp") fields none
                (metadata_members m) ht
              ∙ timestamp_of (addresses names "event_timestamp") m rt wt,
          field-write_fields (fill_map read_entry) (addresses names "reason_admin") fields none
                (metadata_members m) hp
              ∙ reason_admin_of (addresses names "reason_admin") m rp wp,
          field-write_fields (fill_map read_entry) (addresses names "reason_user") fields none
                (metadata_members m) hq
              ∙ reason_user_of (addresses names "reason_user") m rq wq,
          has_any-write_fields (reads_metadata names) fields (metadata_members m) hm
              ∙ any_of (reads_metadata names) m rm
              ∙ ww,
        )
        refl

pub pointer_read :
    (reads : String → Bool) (o : Option String)
    → read_optional read_pointer reads none (map_option text o) ≡ ok o
pointer_read reads none = refl
pointer_read reads (some s) = refl

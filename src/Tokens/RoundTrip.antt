-- ===== src/Tokens/RoundTrip.antt =====
-- Reading back the token that SecEvent.MarshalJSON writes.
use caep_dev.Base.{
  ◌≡◌, refl, ◌∙◌, String, Bool, false, List, [], ◌∷◌, contains, All, Option, none, some, ok,
  and_then, arith,
}
use caep_dev.Base.Text.{same_fold, fold_rune}
use caep_dev.Base.Dict.{put}
use caep_dev.Json.{Json, text, Members, empty}
use caep_dev.Json.Decode.{
  field, read_pointer, read_any, read_map, fill_map, addresses, last_entry, or_else, optional,
  struct_members, write_fields,
}
use caep_dev.Json.Laws.{field-write_fields, or_else-none}
use caep_dev.Subjects
use caep_dev.Subjects.Defs.{Grammars}
use caep_dev.Subjects.Complex.{Subject}
use caep_dev.Subjects.RoundTrip.{parse_subject-marshal}
use caep_dev.Events
use caep_dev.Events.Metadata.{map_option}
use caep_dev.Events.Registry.{Event, scheme_parsers, parse_event, parse_event-marshal}
use caep_dev.Tokens.Defs.{RegisteredClaims, ClaimsCodec, names, entries}
use caep_dev.Tokens.Single.{
  SecEvent, validate, marshal, own_members, unmarshal, events_document, validated,
}

abbrev pub token_of : RegisteredClaims → Event → Subject → Option String → SecEvent
token_of c e s txn = record { claims = c; event = some e; subject = some s; transaction_id = txn }

-- Reading what was written for these claims gives them back, whatever the token's own members are,
-- and none of their keys is one of these.
abbrev pub Restores : ClaimsCodec → RegisteredClaims → Type 0
Restores codec c =
    ((sub txn events : Option Json)
      → codec.read (
          write_fields (codec.write c)
            (write_fields (("sub_id", sub) ∷ ("txn", txn) ∷ ("events", events) ∷ []) empty))
        ≡ ok c)
    × All (λ f. addresses names "sub_id" f.0 ≡ false) (codec.write c)
    × All (λ f. addresses names "txn" f.0 ≡ false) (codec.write c)
    × All (λ f. addresses names "events" f.0 ≡ false) (codec.write c)

last_entry-write_fields :
    (reads : String → Bool) (fields : List (String × Option Json)) (others : Members)
    → All (λ f. reads f.0 ≡ false) fields
    → last_entry reads (entries (write_fields fields others)) ≡ last_entry reads (entries others)
unfolding write_fields optional last_entry or_else
last_entry-write_fields reads [] others h = refl
last_entry-write_fields reads ((key, none) ∷ fields) others (h, hs) =
    last_entry-write_fields reads fields others hs
last_entry-write_fields reads ((key, some v) ∷ fields) others (h, hs) =
    rw h (or_else-none _ ∙ last_entry-write_fields reads fields others hs)

module _ (c : RegisteredClaims) (e : Event) (s : Subject) where
  subject_at :
      (txn : Option String)
      → last_entry (addresses names "sub_id") (entries (own_members (token_of c e s txn)))
        ≡ some (Subjects.Complex.marshal s)
  unfolding write_fields optional last_entry or_else field fill_map read_map put and_then addresses
      contains same_fold fold_rune
  subject_at none = refl
  subject_at (some x) = refl

  txn_at :
      (txn : Option String)
      → field read_pointer (addresses names "txn") none (own_members (token_of c e s txn)) ≡ ok txn
  unfolding write_fields optional last_entry or_else field fill_map read_map put and_then addresses
      contains same_fold fold_rune
  txn_at none = refl
  txn_at (some x) = refl

  events_at :
      (txn : Option String)
      → field (fill_map read_any) (addresses names "events") none (own_members (token_of c e s txn))
        ≡ ok (some ((Events.Registry.type_of e, Events.Registry.marshal e) ∷ []))
  unfolding write_fields optional last_entry or_else field fill_map read_map put and_then addresses
      contains same_fold fold_rune
  events_at none = refl
  events_at (some x) = refl

valid_event :
    (g : Grammars) (c : RegisteredClaims) (e : Event) (s : Subject) (txn : Option String)
    → validate g (token_of c e s txn) ≡ none
    → Events.Registry.validate e ≡ none
unfolding validate
valid_event g c e s txn h = ground (arith, h)

validated-ok : (g : Grammars) (t : SecEvent) → validate g t ≡ none → validated g t ≡ ok t
validated-ok g t h = rw (h, validated) refl

-- A token with an event and a subject that passes Validate, whose registered claims are restored by
-- the codec, and whose event and subject are of the kinds that are read back, is read back whole
-- from the document that it writes.
pub unmarshal-marshal :
    (g : Grammars) (codec : ClaimsCodec) (c : RegisteredClaims) (e : Event) (s : Subject)
    (txn : Option String)
    → Restores codec c
    → Events.Registry.IsReadable e
    → Subjects.RoundTrip.IsReadable s
    → validate g (token_of c e s txn) ≡ none
    → unmarshal g scheme_parsers codec (marshal codec (token_of c e s txn))
      ≡ ok (token_of c e s txn)
unfolding unmarshal marshal struct_members and_then
unmarshal-marshal g codec c e s txn (restored, away, away_txn, away_events) he hs v =
    let own = own_members (token_of c e s txn) in
    rw
      (
        restored (some (Subjects.Complex.marshal s)) (map_option text txn)
            (some (events_document (some e))),
        field-write_fields read_pointer (addresses names "txn") (codec.write c) none own away_txn
            ∙ txn_at c e s txn,
        field-write_fields (fill_map read_any) (addresses names "events") (codec.write c) none own
              away_events
            ∙ events_at c e s txn,
        last_entry-write_fields (addresses names "sub_id") (codec.write c) own away
            ∙ subject_at c e s txn,
        parse_subject-marshal s hs,
        parse_event-marshal e he (valid_event g c e s txn v),
      )
      (validated-ok g (token_of c e s txn) v)

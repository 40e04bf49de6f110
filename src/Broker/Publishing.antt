-- ===== src/Broker/Publishing.antt =====
-- What ssf-hub/internal/controller/broker.go publishes, and when it does not.
use mathlib.Core.Logic.{inl, inr}
use caep_dev.Base.{
  String, false, List, [], ◌∷◌, map, Option, none, some, ◌≡◌, ◌≢◌, ◌↔◌, refl, ap, ◌∙◌, Bool-cases,
  Option-cases, ◌⊎◌, ◌==◌, eq_iff, All, returns, panics, Result, ok, err,
}
use caep_dev.Base.Dict.{values}
use caep_dev.Models.Receiver.{Receiver}
use caep_dev.Models.Event.{SecurityEvent}
use caep_dev.Models.Filter.Laws.{IsSafe}
use caep_dev.PubSub.Api.{PubSubClient}
use caep_dev.Registry.{MemoryRegistry}
use caep_dev.Registry.Selection.{Selects, filter_receivers-Selects, filter_receivers-total}
use caep_dev.Broker.Defs.{
  Readings, SecEvent, Error, empty_set, empty_transmitter, parse_failed, publish_failed, notify,
  published, publish_to, publish_converted, process_parsed, convert_to_security_event,
  process_security_event,
}

module _ {C S : Type 0} (client : PubSubClient C S) (now : Readings) (e : SecurityEvent)
    (reg : MemoryRegistry) (c : C) where
  -- With no receivers nothing is published; else the client gets the ids of all of them, in one
  -- message, and its failure is reported.
  abbrev pub Publishes : List Receiver → Type 0
  Publishes [] = publish_converted client now e reg c ≡ returns (reg, c, none)
  Publishes (r ∷ rs) =
      let sent = client.publish_event now.stamp e (map (λ x. x.id) (r ∷ rs)) c in
      (x : Option Error) × (publish_converted client now e reg c
        ≡ returns (notify now (r ∷ rs) reg, sent.0, x))
      × ((x ≡ none) ↔ (sent.1 ≡ none))

  published-cases :
      (reg' : MemoryRegistry) (o : C × Option String)
      → (x : Option Error) × (published client reg' o ≡ (reg', o.0, x))
        × ((x ≡ none) ↔ (o.1 ≡ none))
  published-cases reg' (c', none) = (none, refl, (λ h. refl, λ h. refl))
  published-cases reg' (c', some y) =
      (some (publish_failed y), refl, (λ h. absurd (cc h), λ h. absurd (cc h)))

  Publishes-of :
      (ss : List Receiver)
      → publish_converted client now e reg c ≡ returns (publish_to client now e reg c (ok ss))
      → Publishes ss
  Publishes-of [] h = h
  Publishes-of (r ∷ rs) h =
      let (x, same, verdict) =
        published-cases (notify now (r ∷ rs) reg)
          (client.publish_event now.stamp e (map (λ x. x.id) (r ∷ rs)) c) in
      (x, h ∙ ap returns same, verdict)

  -- With filters that cannot panic, an event is published to exactly the receivers that are active,
  -- name its type and let it through their filters, in the registry's order; if there is none the
  -- registry and the client stay as they are.
  pub publish_converted-Publishes :
      All (λ r. All IsSafe r.filters) (values reg.receivers)
      → (ss : List Receiver) × Selects e (values reg.receivers) ss × Publishes ss
  unfolding publish_converted
  publish_converted-Publishes safe =
      let (ss, found) = filter_receivers-total e reg safe in
      (ss, filter_receivers-Selects e reg ss found, Publishes-of ss (rw found refl))

filled : (t : String) → t ≢ "" → (t == "") ≡ false
filled t h = elim (Bool-cases (t == "")) [
  | inl same ↦ absurd (h ((eq_iff t "").0 same))
  | inr other ↦ other
]

-- The inputs that the broker turns down.
abbrev pub IsRejected :
    (parse : String → Result String SecEvent) → (raw_set transmitter_id : String) → Type 0
IsRejected parse raw_set transmitter_id =
    (raw_set ≡ "") ⊎ (transmitter_id ≡ "") ⊎ ((y : String) × (parse raw_set ≡ err y))

module _ {C S : Type 0} (client : PubSubClient C S) (parse : String → Result String SecEvent)
    (now : Readings) (raw_set transmitter_id : String) (reg : MemoryRegistry) (c : C) where
  -- A token that is empty, comes from an unnamed transmitter or cannot be parsed gets an error, and
  -- neither the registry nor the client changes.
  pub process_security_event-rejects :
      IsRejected parse raw_set transmitter_id
      → (x : Error) × (process_security_event client parse now raw_set transmitter_id reg c
          ≡ returns (reg, c, some x))
  unfolding process_security_event
  process_security_event-rejects h = elim (Bool-cases (raw_set == "")) [
    | inl a ↦ (empty_set, rw a refl)
    | inr a ↦ elim (Bool-cases (transmitter_id == "")) [
      | inl b ↦ (empty_transmitter, rw (a, b) refl)
      | inr b ↦ elim h [
        | inl a' ↦ absurd (cc (a, (eq_iff raw_set "").1 a'))
        | inr (inl b') ↦ absurd (cc (b, (eq_iff transmitter_id "").1 b'))
        | inr (inr (y, bad)) ↦ (parse_failed y, rw (a, b, bad) refl)
      ]
    ]
  ]

  publish_converted-ne-panics :
      (e : SecurityEvent)
      → All (λ r. All IsSafe r.filters) (values reg.receivers)
      → publish_converted client now e reg c ≢ panics
  unfolding publish_converted
  publish_converted-ne-panics e safe h =
      let (ss, found) = filter_receivers-total e reg safe in cc (rw found at h)

  converted_iff :
      (s : SecEvent)
      → All (λ r. All IsSafe r.filters) (values reg.receivers)
      → (process_parsed client now raw_set transmitter_id reg c (ok s) ≡ panics)
        ↔ (s.issued_at ≡ none)
  unfolding convert_to_security_event
  converted_iff s safe = elim (Option-cases s.issued_at) [
    | inl no_date ↦ (λ h. no_date, λ h. rw no_date refl)
    | inr (t, dated) ↦ (
      λ h. absurd (publish_converted-ne-panics _ safe (rw dated at h)),
      λ h. absurd (cc (dated, h)),
    )
  ]

  parsed_iff :
      All (λ r. All IsSafe r.filters) (values reg.receivers)
      → (raw_set == "") ≡ false
      → (transmitter_id == "") ≡ false
      → (x : Result String SecEvent) → parse raw_set ≡ x
      → (process_security_event client parse now raw_set transmitter_id reg c ≡ panics) ↔ (
          (raw_set ≢ "")
          × (transmitter_id ≢ "")
          × (s : SecEvent) × (parse raw_set ≡ ok s)
          × (s.issued_at ≡ none))
  unfolding process_security_event
  parsed_iff safe a b (err y) bad =
      (λ h. absurd (cc (rw (a, b, bad) at h)), λ (_, _, s, good, _). absurd (cc (bad, good)))
  parsed_iff safe a b (ok s) good = (
    λ h. (
      (λ e. cc (a, (eq_iff raw_set "").1 e)),
      (λ e. cc (b, (eq_iff transmitter_id "").1 e)),
      s,
      good,
      (converted_iff s safe).0 (rw (a, b, good) at h),
    ),
    λ (_, _, s', good', undated).
        let same : s' ≡ s = cc (good, good') in
        rw (a, b, good) ((converted_iff s safe).1 (rw same at undated)),
  )

  -- With filters that cannot panic, the broker panics on exactly the tokens that are not empty, come
  -- from a named transmitter, parse, and have no time of issue.
  pub process_security_event-panics_iff :
      All (λ r. All IsSafe r.filters) (values reg.receivers)
      → (process_security_event client parse now raw_set transmitter_id reg c ≡ panics) ↔ (
          (raw_set ≢ "")
          × (transmitter_id ≢ "")
          × (s : SecEvent) × (parse raw_set ≡ ok s)
          × (s.issued_at ≡ none))
  unfolding process_security_event
  process_security_event-panics_iff safe = elim (Bool-cases (raw_set == "")) [
    | inl a ↦
        (λ h. absurd (cc (rw a at h)), λ (x, _, _, _, _). absurd (x ((eq_iff raw_set "").0 a)))
    | inr a ↦ elim (Bool-cases (transmitter_id == "")) [
      | inl b ↦ (
        λ h. absurd (cc (rw (a, b) at h)),
        λ (_, y, _, _, _). absurd (y ((eq_iff transmitter_id "").0 b)),
      )
      | inr b ↦ parsed_iff safe a b (parse raw_set) refl
    ]
  ]

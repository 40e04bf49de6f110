-- ===== src/Broker/Processing.antt =====
-- What ssf-hub/internal/controller/broker.go does with a security event.
use mathlib.Core.Path.{subst}
use mathlib.Core.Logic.{inl, inr}
use caep_dev.Base.{
  String, Bool, true, List, [], ◌∷◌, keep, Option, none, some, ◌≡◌, ◌≢◌, refl, sym, ap, ◌∙◌, ◌⊎◌,
  ◌==◌, arith, eq_iff, Bool-cases, All, Outcome, returns, panics, Outcome-cases, ok,
}
use caep_dev.Base.Dict.{Dict, lookup, values, HasDistinctKeys, AllEntries}
use caep_dev.Models.Receiver.{Time, Receiver}
use caep_dev.Models.Event.{SecurityEvent}
use caep_dev.PubSub.Api.{PubSubClient}
use caep_dev.Registry.{
  MemoryRegistry, increment, increment_event_received, with_metadata, filter_receivers, filter_loop,
  subscribes,
}
use caep_dev.Registry.Reads.{lookup-modify_self, modify-other}
use caep_dev.Registry.Invariant.{IsConsistent, IsEntry}
use caep_dev.Registry.Selection.{
  IsInterested, Selects, done, take, skip, filter_receivers-Selects, filter_receivers-filter_loop,
}
use caep_dev.Broker.Defs.{
  published, publish_to, Readings, Error, notify, publish_converted, Processed,
}

-- What the broker writes into the statistics of a receiver that wants the event.
abbrev pub received_one : Time → Time → Receiver → Receiver
received_one t u = with_metadata (λ m. record m {
  updated_at = u;
  last_event_at = t;
  events_received = increment m.events_received;
})

-- None of the receivers has the id; one of them has.
abbrev Avoids : String → List Receiver → Type 0
Avoids id rs = All (λ r. r.id ≢ id) rs

data Once (id : String) : List Receiver → Type 0 where
  here : {r : Receiver} {rs : List Receiver} → r.id ≡ id → Avoids id rs → Once id (r ∷ rs)
  there : {r : Receiver} {rs : List Receiver} → r.id ≢ id → Once id rs → Once id (r ∷ rs)

lookup-cons-none :
    (id k : String) (x : Receiver) (m : Dict Receiver)
    → lookup id ((k, x) ∷ m) ≡ none
    → (k ≢ id) × (lookup id m ≡ none)
unfolding lookup
lookup-cons-none id k x m h = ground (arith, eq_iff k id)

lookup-cons-some :
    (id k : String) (x r : Receiver) (m : Dict Receiver)
    → lookup id ((k, x) ∷ m) ≡ some r
    → ((k ≡ id) × (x ≡ r)) ⊎ ((k ≢ id) × (lookup id m ≡ some r))
unfolding lookup
lookup-cons-some id k x r m h = elim (Bool-cases (k == id)) [
  | inl same ↦ let h' = rw same at h in inl ((eq_iff k id).0 same, cc h')
  | inr other ↦ let h' = rw other at h in inr (λ same. cc (other, (eq_iff k id).1 same), h')
]

module _ (e : SecurityEvent) (id : String) where
  absent-Avoids :
      (m : Dict Receiver) (ss : List Receiver)
      → AllEntries (λ k r. r.id ≡ k) m
      → Selects e (values m) ss
      → lookup id m ≡ none
      → Avoids id ss
  unfolding values
  absent-Avoids [] ss a done h = tt
  absent-Avoids ((k, r) ∷ m) ss (i, a) (take w s) h =
      let (other, h') = lookup-cons-none id k r m h in
      (λ same. other (sym i ∙ same), absent-Avoids m _ a s h')
  absent-Avoids ((k, r) ∷ m) ss (i, a) (skip w s) h =
      absent-Avoids m ss a s (lookup-cons-none id k r m h).1

  abbrev Chosen : List Receiver → Receiver → Type 0
  Chosen ss r = (IsInterested e r × Once id ss) ⊎ ((¬ IsInterested e r) × Avoids id ss)

  Chosen-there : (x r : Receiver) (ss : List Receiver) → x.id ≢ id → Chosen ss r → Chosen (x ∷ ss) r
  Chosen-there x r ss other (inl (w, o)) = inl (w, there other o)
  Chosen-there x r ss other (inr (n, a)) = inr (n, (other, a))

  -- A stored receiver is selected once if it wants the event, and else not.
  stored-Chosen :
      (m : Dict Receiver) (ss : List Receiver) (r : Receiver)
      → HasDistinctKeys m
      → AllEntries (λ k r. r.id ≡ k) m
      → Selects e (values m) ss
      → lookup id m ≡ some r
      → Chosen ss r
  unfolding lookup values
  stored-Chosen [] ss r d a done h = absurd (cc h)
  stored-Chosen ((k, x) ∷ m) ss r (fresh, d) (i, a) (take w s) h =
      elim (lookup-cons-some id k x r m h) [
        | inl (same, xr) ↦ inl (
          subst (IsInterested e) xr w,
          here (i ∙ same) (absent-Avoids m _ a s (subst (λ j. lookup j m ≡ none) same fresh)),
        )
        | inr (other, h') ↦
            Chosen-there x r _ (λ same. other (sym i ∙ same)) (stored-Chosen m _ r d a s h')
      ]
  stored-Chosen ((k, x) ∷ m) ss r (fresh, d) (i, a) (skip w s) h =
      elim (lookup-cons-some id k x r m h) [
        | inl (same, xr) ↦ inr (
          subst (λ t. ¬ IsInterested e t) xr w,
          absent-Avoids m ss a s (subst (λ j. lookup j m ≡ none) same fresh),
        )
        | inr (other, h') ↦ stored-Chosen m ss r d a s h'
      ]

module _ (now : Readings) (id : String) where
  abbrev received : Receiver → MemoryRegistry → MemoryRegistry
  unfolding increment_event_received
  received s reg = (increment_event_received s.id (now.stats s.id).0 (now.stats s.id).1 reg).0

  lookup-received_ne :
      (s : Receiver) (reg : MemoryRegistry)
      → s.id ≢ id
      → lookup id (received s reg).receivers ≡ lookup id reg.receivers
  unfolding increment_event_received
  lookup-received_ne s reg other = modify-other (λ u. true) reg s.id id _ other

  lookup-received :
      (s : Receiver) (reg : MemoryRegistry) (r : Receiver)
      → s.id ≡ id
      → lookup id reg.receivers ≡ some r
      → lookup id (received s reg).receivers
        ≡ some (received_one (now.stats id).0 (now.stats id).1 r)
  unfolding increment_event_received
  lookup-received s reg r same h =
      rw same (lookup-modify_self id (received_one (now.stats id).0 (now.stats id).1) reg r h)

  notify-Avoids :
      (ss : List Receiver) (reg : MemoryRegistry)
      → Avoids id ss
      → lookup id (notify now ss reg).receivers ≡ lookup id reg.receivers
  unfolding notify
  notify-Avoids [] reg h = refl
  notify-Avoids (s ∷ ss) reg (other, h) =
      notify-Avoids ss (received s reg) h ∙ lookup-received_ne s reg other

  notify-Once :
      (ss : List Receiver) (reg : MemoryRegistry) (r : Receiver)
      → Once id ss
      → lookup id reg.receivers ≡ some r
      → lookup id (notify now ss reg).receivers
        ≡ some (received_one (now.stats id).0 (now.stats id).1 r)
  unfolding notify
  notify-Once (s ∷ ss) reg r (here same av) h =
      notify-Avoids ss (received s reg) av ∙ lookup-received s reg r same h
  notify-Once (s ∷ ss) reg r (there other o) h =
      notify-Once ss (received s reg) r o (lookup-received_ne s reg other ∙ h)
  notify-Once [] reg r o h = elim o [ ]

entries_of :
    (p : String → Bool) (m : Dict Receiver)
    → AllEntries (IsEntry p) m
    → AllEntries (λ k r. r.id ≡ k) m
entries_of p [] h = tt
entries_of p ((k, r) ∷ m) (h, hs) = (h.0, entries_of p m hs)

-- The search never answers with an error.
filter_receivers-ok :
    (e : SecurityEvent) (reg : MemoryRegistry)
    → (filter_receivers e reg ≡ panics)
      ⊎ ((ss : List Receiver) × (filter_receivers e reg ≡ returns (ok ss)))
filter_receivers-ok e reg =
    elim (Outcome-cases (filter_loop e (keep (subscribes e.type) (values reg.receivers)))) [
      | inl p ↦ inl (rw (filter_receivers-filter_loop, p) refl)
      | inr (ss, p) ↦ inr (ss, rw (filter_receivers-filter_loop, p) refl)
    ]

module _ {C S : Type 0} (client : PubSubClient C S) (now : Readings) (e : SecurityEvent) where
  published-registry :
      (reg : MemoryRegistry) (o : C × Option String) → (published client reg o).0 ≡ reg
  published-registry reg (c, none) = refl
  published-registry reg (c, some x) = refl

  publish_to-registry :
      (reg : MemoryRegistry) (c : C) (ss : List Receiver)
      → (publish_to client now e reg c (ok ss)).0 ≡ notify now ss reg
  unfolding notify
  publish_to-registry reg c [] = refl
  publish_to-registry reg c (r ∷ rs) = published-registry _ _

  abbrev registry_of : MemoryRegistry → Outcome (Processed client) → MemoryRegistry
  registry_of d panics = d
  registry_of d (returns (g, c, o)) = g

  -- A search that returns, and what the registry then becomes.
  publish_converted-registry :
      (reg reg' : MemoryRegistry) (c c' : C) (x : Option Error)
      → publish_converted client now e reg c ≡ returns (reg', c', x)
      → (ss : List Receiver) × (filter_receivers e reg ≡ returns (ok ss))
        × (reg' ≡ notify now ss reg)
  unfolding publish_converted
  publish_converted-registry reg reg' c c' x ran = elim (filter_receivers-ok e reg) [
    | inl p ↦ absurd (ground (arith, p, ran))
    | inr (ss, found) ↦
        let ran' = rw found at ran in
        (ss, found, ap (registry_of reg) (sym ran') ∙ publish_to-registry reg c ss)
  ]

-- When an event is processed on a consistent registry without a panic, with an error of the client or
-- not, each receiver that is active, names its type and lets it through its filters has it counted as
-- received, once, and the others are as they were.
pub publish_converted-counts :
    {C S : Type 0} (client : PubSubClient C S) (p : String → Bool) (now : Readings)
    (e : SecurityEvent) (reg reg' : MemoryRegistry) (c c' : C) (x : Option Error) (id : String)
    (r : Receiver)
    → IsConsistent p reg
    → publish_converted client now e reg c ≡ returns (reg', c', x)
    → lookup id reg.receivers ≡ some r
    → (IsInterested e r
        × (lookup id reg'.receivers ≡ some (received_one (now.stats id).0 (now.stats id).1 r)))
      ⊎ ((¬ IsInterested e r) × (lookup id reg'.receivers ≡ some r))
publish_converted-counts client p now e reg reg' c c' x id r consistent ran h =
    let (ss, found, same) = publish_converted-registry client now e reg reg' c c' x ran in
    let at_id = ap (λ g. lookup id g.receivers) same in
    elim (stored-Chosen e id reg.receivers ss r consistent.distinct
      (entries_of p reg.receivers consistent.entries) (filter_receivers-Selects e reg ss found) h) [
        | inl (w, o) ↦ inl (w, at_id ∙ notify-Once now id ss reg r o h)
        | inr (n, a) ↦ inr (n, at_id ∙ notify-Avoids now id ss reg a ∙ h)
      ]

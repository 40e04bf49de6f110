-- ===== src/Registry/Reads.antt =====
-- What ssf-hub/internal/registry/registry.go reads back, and what an update keeps.
use mathlib.Core.Logic.{inl, inr}
use mathlib.Core.Option
use mathlib.Core.Path.{subst}
use caep_dev.Base.{
  String, Bool, Option, none, some, ◌≡◌, refl, ap, ◌≢◌, arith, eq_iff, Option-cases, ok, copy,
  copy_lem,
}
use caep_dev.Base.Dict.{Dict, lookup, lookup-put, lookup-put_self}
use caep_dev.Models.Receiver.{Time, Receiver, ValidationError, validate}
use caep_dev.Models.Receiver.Validation.{IsDeliverable, validate_iff, id-validate, validate_keeps}
use caep_dev.Registry.Defs.{
  MemoryRegistry, copy_receiver, found_or_error, copy_found, get, update, modify, update_validated,
  carried,
}

map-copy : (o : Option (Dict String)) → Option.map copy o ≡ o
map-copy none = refl
map-copy (some m) = cc (copy_lem m)

pub copy_receiver_lem : (r : Receiver) → copy_receiver r ≡ r
unfolding copy_receiver
copy_receiver_lem r =
    cc
      (copy_lem r.event_types, copy_lem r.auth.scopes, copy_lem r.filters, map-copy r.metadata.tags)

copy_found_lem : (o : Option Receiver) → copy_found o ≡ o
copy_found_lem none = refl
copy_found_lem (some r) = cc (copy_receiver_lem r)

-- `Get` reads the map: its copy is equal to what is stored.
pub get-lookup :
    (id : String) (reg : MemoryRegistry) → get id reg ≡ found_or_error id (lookup id reg.receivers)
unfolding get
get-lookup id reg = ap (found_or_error id) (copy_found_lem (lookup id reg.receivers))

-- A write through the pointer is read back.
pub lookup-modify_self :
    (id : String) (f : Receiver → Receiver) (reg : MemoryRegistry) (old : Receiver)
    → lookup id reg.receivers ≡ some old
    → lookup id (modify id f reg).0.receivers ≡ some (f old)
unfolding modify
lookup-modify_self id f reg old e = rw (e, modify) (lookup-put_self id (f old) reg.receivers)

module _ (p : String → Bool) (reg : MemoryRegistry) where
  pub modify-other :
      (id other : String) (f : Receiver → Receiver)
      → id ≢ other
      → lookup other (modify id f reg).0.receivers ≡ lookup other reg.receivers
  unfolding modify
  modify-other id other f h = elim (Option-cases (lookup id reg.receivers)) [
    | inl e ↦ rw e refl
    | inr (r, e) ↦ rw e (ground (arith, lookup-put id other (f r) reg.receivers, eq_iff id other))
  ]

  update_validated-get :
      (now : Time) (q : Receiver × Option ValidationError) (old : Receiver)
      → q.1 ≡ none
      → lookup q.0.id reg.receivers ≡ some old
      → get q.0.id (update_validated now q reg).0 ≡ ok (carried old q.0 now)
  unfolding update_validated
  update_validated-get now (r, some x) old h e = cc h
  update_validated-get now (r, none) old h e = rw (e, get-lookup) (rw lookup-put_self refl)

  update-stored :
      (now : Time) (r old : Receiver)
      → IsDeliverable p r
      → lookup r.id reg.receivers ≡ some old
      → get r.id (update p now (some r) reg).0 ≡ ok (carried old (validate p r).0 now)
  unfolding update
  update-stored now r old d e =
      subst
        (λ i.
          get i (update_validated now (validate p r) reg).0 ≡ ok (carried old (validate p r).0 now))
        (id-validate p r)
        (update_validated-get now (validate p r) old ((validate_iff p r).1 d) (rw id-validate e))

  -- What an update keeps of the receiver, and what it replaces: the creation time, the time of the last
  -- event and the three counters stay; the last delivery error is the request's.
  pub update-get :
      (now : Time) (r old : Receiver)
      → IsDeliverable p r
      → lookup r.id reg.receivers ≡ some old
      → (s : Receiver) × (get r.id (update p now (some r) reg).0 ≡ ok s)
        × (s.metadata.created_at ≡ old.metadata.created_at)
        × (s.metadata.last_event_at ≡ old.metadata.last_event_at)
        × (s.metadata.events_received ≡ old.metadata.events_received)
        × (s.metadata.events_delivered ≡ old.metadata.events_delivered)
        × (s.metadata.events_failed ≡ old.metadata.events_failed)
        × (s.metadata.updated_at ≡ now)
        × (s.metadata.last_delivery_error ≡ r.metadata.last_delivery_error)
        × (s.event_types ≡ r.event_types)
        × (s.webhook_url ≡ r.webhook_url)
        × (s.filters ≡ r.filters)
        × (s.status ≡ r.status)
  update-get now r old d e =
      let k = validate_keeps p r in
      (
        carried old (validate p r).0 now,
        update-stored now r old d e,
        refl,
        refl,
        refl,
        refl,
        refl,
        refl,
        ap (λ (x : Receiver). x.metadata.last_delivery_error) k,
        ap (λ (x : Receiver). x.event_types) k,
        ap (λ (x : Receiver). x.webhook_url) k,
        ap (λ (x : Receiver). x.filters) k,
        ap (λ (x : Receiver). x.status) k,
      )

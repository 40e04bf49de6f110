-- ===== src/Distributor/Dispatch.antt =====
-- To which receivers `DistributeToReceivers` of ssf-hub/internal/distributor/distributor.go delivers.
use mathlib.Core.Path.{subst}
use mathlib.Core.Logic.{inl, inr}
use caep_dev.Base.{
  String, Bool, true, false, List, [], ◌∷◌, ◌≡◌, refl, sym, ◌⊎◌, Option, none, some, if◌then◌else◌,
  ◌&&◌, ◌==◌, arith, eq_iff, Bool-cases, Outcome, returns, Outcome-cases, ok, All, Holds,
  Holds-of_contains, contains_of_Holds, contains,
}
use caep_dev.Base.Dict.{lookup}
use caep_dev.Models.Receiver.{Receiver, webhook}
use caep_dev.Models.Event.{SecurityEvent}
use caep_dev.Models.Filter.{filter_matches}
use caep_dev.Models.Message.{InternalMessage}
use caep_dev.Registry.{MemoryRegistry, found_or_error}
use caep_dev.Registry.Reads.{get-lookup}
use caep_dev.Registry.Selection.{matches_filters_sound, matches_filters_complete}
use caep_dev.Distributor.Defs.{
  type_matched, should_deliver, dispatch, dispatch_all, distribute_to_receivers,
}

-- A receiver by webhook that names the event's type or "*", and whose filters all let the event
-- through.
pub record IsWanted (e : SecurityEvent) (r : Receiver) : Type 0 where
  pub by_webhook : r.delivery.method ≡ webhook
  pub subscribed : (Holds "*" r.event_types) ⊎ (Holds e.type r.event_types)
  pub passes : All (λ f. filter_matches f e ≡ returns true) r.filters

-- `Starts reg e ids rs`: `rs` are the wanted receivers that the registry has under `ids`, in the order
-- of `ids`.
pub data Starts (reg : MemoryRegistry) (e : SecurityEvent)
    : List String → List Receiver → Type 0 where
  done : Starts reg e [] []
  unknown :
      {id : String} {ids : List String} {rs : List Receiver}
      → lookup id reg.receivers ≡ none
      → Starts reg e ids rs
      → Starts reg e (id ∷ ids) rs
  wanted :
      {id : String} {r : Receiver} {ids : List String} {rs : List Receiver}
      → lookup id reg.receivers ≡ some r
      → IsWanted e r
      → Starts reg e ids rs
      → Starts reg e (id ∷ ids) (r ∷ rs)
  unwanted :
      {id : String} {r : Receiver} {ids : List String} {rs : List Receiver}
      → lookup id reg.receivers ≡ some r
      → ¬ IsWanted e r
      → Starts reg e ids rs
      → Starts reg e (id ∷ ids) rs

type_matched_sound :
    (t : String) (ts : List String) → type_matched ts t ≡ true → (Holds "*" ts) ⊎ (Holds t ts)
type_matched_sound t ts h = elim (Bool-cases (contains ts "*")) [
  | inl y ↦ inl (Holds-of_contains ts "*" y)
  | inr y ↦ inr (Holds-of_contains ts t (ground (arith, h, y)))
]

type_matched_complete :
    (t : String) (ts : List String) → (Holds "*" ts) ⊎ (Holds t ts) → type_matched ts t ≡ true
type_matched_complete t ts (inl h) = ground (arith, contains_of_Holds ts "*" h)
type_matched_complete t ts (inr h) = ground (arith, contains_of_Holds ts t h)

IsWanted-of :
    (e : SecurityEvent) (r : Receiver)
    → should_deliver r e ≡ returns true
    → (r.delivery.method == webhook) ≡ true
    → IsWanted e r
unfolding should_deliver
IsWanted-of e r h w = elim (Bool-cases (type_matched r.event_types e.type)) [
  | inl y ↦ record {
    by_webhook = ground (arith, eq_iff r.delivery.method webhook);
    subscribed = type_matched_sound e.type r.event_types y;
    passes = matches_filters_sound e r.filters (ground (arith, h, y));
  }
  | inr y ↦ absurd (ground (arith, h, y))
]

IsWanted-should_deliver :
    (e : SecurityEvent) (r : Receiver) → IsWanted e r → should_deliver r e ≡ returns true
unfolding should_deliver
IsWanted-should_deliver e r w =
    rw (type_matched_complete e.type r.event_types w.subscribed)
      (matches_filters_complete e r.filters w.passes)

not-IsWanted_of :
    (e : SecurityEvent) (r : Receiver) (b : Bool)
    → should_deliver r e ≡ returns b
    → (b && (r.delivery.method == webhook)) ≡ false
    → ¬ IsWanted e r
not-IsWanted_of e r b h n w =
    ground (arith, IsWanted-should_deliver e r w, eq_iff r.delivery.method webhook, w.by_webhook)

-- A round of the loop that returns, for a registered receiver.
dispatch-returns :
    (e : SecurityEvent) (r : Receiver) (rest : Outcome (List Receiver)) (rs : List Receiver)
    → dispatch e (ok r) rest ≡ returns rs
    → (b : Bool) × (later : List Receiver) × (should_deliver r e ≡ returns b)
      × (rest ≡ returns later)
      × (rs ≡ (if b && (r.delivery.method == webhook) then r ∷ later else later))
unfolding dispatch
dispatch-returns e r rest rs h = elim (Outcome-cases (should_deliver r e)) [
  | inl p ↦ absurd (ground (arith, p))
  | inr (b, p) ↦ elim (Outcome-cases rest) [
    | inl q ↦ absurd (ground (arith, p, q))
    | inr (later, q) ↦ (b, later, p, q, ground (arith, p, q))
  ]
]

module _ (reg : MemoryRegistry) (e : SecurityEvent) where
  started :
      (id : String) (ids : List String) (r : Receiver) (b w : Bool) (later : List Receiver)
      → lookup id reg.receivers ≡ some r
      → should_deliver r e ≡ returns b
      → (r.delivery.method == webhook) ≡ w
      → Starts reg e ids later
      → Starts reg e (id ∷ ids) (if b && w then r ∷ later else later)
  started id ids r true true later l d w ih = Starts.wanted l (IsWanted-of e r d w) ih
  started id ids r true false later l d w ih = Starts.unwanted l (not-IsWanted_of e r true d w) ih
  started id ids r false w later l d m ih = Starts.unwanted l (not-IsWanted_of e r false d refl) ih

  dispatch-Starts :
      (id : String) (ids : List String) (found : Option Receiver) (rest : Outcome (List Receiver))
      (rs : List Receiver)
      → lookup id reg.receivers ≡ found
      → ((later : List Receiver) → rest ≡ returns later → Starts reg e ids later)
      → dispatch e (found_or_error id found) rest ≡ returns rs
      → Starts reg e (id ∷ ids) rs
  unfolding dispatch
  dispatch-Starts id ids none rest rs l ih h = Starts.unknown l (ih rs h)
  dispatch-Starts id ids (some r) rest rs l ih h =
      let (b, later, d, q, same) = dispatch-returns e r rest rs h in
      subst (Starts reg e (id ∷ ids)) (sym same)
        (started id ids r b (r.delivery.method == webhook) later l d refl (ih later q))

  dispatch_all-Starts :
      (ids : List String) (rs : List Receiver)
      → dispatch_all reg e ids ≡ returns rs
      → Starts reg e ids rs
  unfolding dispatch_all
  dispatch_all-Starts [] rs h = subst (Starts reg e []) (ground (arith, h)) Starts.done
  dispatch_all-Starts (id ∷ ids) rs h =
      dispatch-Starts id ids (lookup id reg.receivers) (dispatch_all reg e ids) rs refl
        (dispatch_all-Starts ids) (rw (get-lookup id reg) at h)

-- A distribution that does not panic starts a delivery to each target that is registered, takes
-- webhooks, names the event's type or "*" and lets the event through its filters, in the order of the
-- targets, and to no other receiver.
pub distribute_to_receivers-Starts :
    (reg : MemoryRegistry) (msg : InternalMessage) (rs : List Receiver)
    → distribute_to_receivers reg msg ≡ returns rs
    → Starts reg msg.event msg.routing.target_receivers rs
unfolding distribute_to_receivers
distribute_to_receivers-Starts reg msg rs h =
    dispatch_all-Starts reg msg.event msg.routing.target_receivers rs h

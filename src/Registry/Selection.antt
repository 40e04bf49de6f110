-- ===== src/Registry/Selection.antt =====
-- Which receivers ssf-hub/internal/registry/registry.go finds for an event.
use mathlib.Core.Path.{subst}
use mathlib.Core.Logic.{inl, inr}
use caep_dev.Base.{
  String, Bool, true, false, List, [], ◌∷◌, map, ◌≡◌, refl, sym, if◌then◌else◌, ◌≢◌, arith, eq_iff,
  Bool-cases, keep, returns, panics, Outcome-cases, ◌>>=◌, ok, All, Holds, Holds-of_contains,
  contains_of_Holds,
}
use caep_dev.Base.Dict.{values}
use caep_dev.Models.Receiver.{EventFilter, Receiver, active}
use caep_dev.Models.Event.{SecurityEvent}
use caep_dev.Models.Filter.{filter_matches}
use caep_dev.Models.Filter.Laws.{IsSafe, filter_matches-ne-panics}
use caep_dev.Registry.Defs.{MemoryRegistry, copy_receiver}
use caep_dev.Registry.Queries.{subscribes, matches_filters, filter_loop, filter_receivers}
use caep_dev.Registry.Reads.{copy_receiver_lem}

-- An active receiver that names the event's type and whose filters all let the event through.
pub record IsInterested (e : SecurityEvent) (r : Receiver) : Type 0 where
  pub is_active : r.status ≡ active
  pub subscribed : Holds e.type r.event_types
  pub passes : All (λ f. filter_matches f e ≡ returns true) r.filters

-- `Selects e rs ss`: `ss` are the interested receivers among `rs`, in their order.
pub data Selects (e : SecurityEvent) : List Receiver → List Receiver → Type 0 where
  done : Selects e [] []
  take :
      {r : Receiver} {rs ss : List Receiver}
      → IsInterested e r
      → Selects e rs ss
      → Selects e (r ∷ rs) (r ∷ ss)
  skip :
      {r : Receiver} {rs ss : List Receiver}
      → ¬ IsInterested e r
      → Selects e rs ss
      → Selects e (r ∷ rs) ss

pub map-copy_receiver : (rs : List Receiver) → map copy_receiver rs ≡ rs
map-copy_receiver [] = refl
map-copy_receiver (r ∷ rs) = cc (copy_receiver_lem r, map-copy_receiver rs)

pub matches_filters_sound :
    (e : SecurityEvent) (fs : List EventFilter)
    → matches_filters e fs ≡ returns true
    → All (λ f. filter_matches f e ≡ returns true) fs
unfolding matches_filters
matches_filters_sound e [] h = tt
matches_filters_sound e (f ∷ fs) h = ground (arith, matches_filters_sound e fs)

pub matches_filters_complete :
    (e : SecurityEvent) (fs : List EventFilter)
    → All (λ f. filter_matches f e ≡ returns true) fs
    → matches_filters e fs ≡ returns true
unfolding matches_filters
matches_filters_complete e [] h = refl
matches_filters_complete e (f ∷ fs) (h, hs) = rw h (matches_filters_complete e fs hs)

subscribes_sound :
    (t : String) (r : Receiver)
    → subscribes t r ≡ true
    → (r.status ≡ active) × Holds t r.event_types
subscribes_sound t r h = ground (arith, eq_iff r.status active, Holds-of_contains r.event_types t)

subscribes_complete :
    (t : String) (r : Receiver) → r.status ≡ active → Holds t r.event_types → subscribes t r ≡ true
subscribes_complete t r a h =
    ground (arith, eq_iff r.status active, contains_of_Holds r.event_types t h)

IsInterested-of :
    (e : SecurityEvent) (r : Receiver)
    → subscribes e.type r ≡ true
    → matches_filters e r.filters ≡ returns true
    → IsInterested e r
IsInterested-of e r s m =
    let (a, h) = subscribes_sound e.type r s in
    record { is_active = a; subscribed = h; passes = matches_filters_sound e r.filters m }

not-IsInterested_of_subscribes :
    (e : SecurityEvent) (r : Receiver) → subscribes e.type r ≡ false → ¬ IsInterested e r
not-IsInterested_of_subscribes e r s i =
    cc (s, subscribes_complete e.type r i.is_active i.subscribed)

not-IsInterested_of_filters :
    (e : SecurityEvent) (r : Receiver)
    → matches_filters e r.filters ≡ returns false
    → ¬ IsInterested e r
not-IsInterested_of_filters e r m i = cc (m, matches_filters_complete e r.filters i.passes)

-- A round of the loop that returns: the filters' answer, and what the later rounds select.
filter_loop-cons :
    (e : SecurityEvent) (r : Receiver) (rs ss : List Receiver)
    → filter_loop e (r ∷ rs) ≡ returns ss
    → (m : Bool) × (sel : List Receiver) × (matches_filters e r.filters ≡ returns m)
      × (filter_loop e rs ≡ returns sel)
      × (ss ≡ (if m then r ∷ sel else sel))
unfolding filter_loop
filter_loop-cons e r rs ss h = elim (Outcome-cases (matches_filters e r.filters)) [
  | inl p ↦ absurd (ground (arith, p))
  | inr (m, p) ↦ elim (Outcome-cases (filter_loop e rs)) [
    | inl q ↦ absurd (ground (arith, p, q))
    | inr (sel, q) ↦ (m, sel, p, q, ground (arith, p, q))
  ]
]

selected :
    (e : SecurityEvent) (r : Receiver) (rs sel : List Receiver) (m : Bool)
    → subscribes e.type r ≡ true
    → matches_filters e r.filters ≡ returns m
    → Selects e rs sel
    → Selects e (r ∷ rs) (if m then r ∷ sel else sel)
selected e r rs sel true s m ih = take (IsInterested-of e r s m) ih
selected e r rs sel false s m ih = skip (not-IsInterested_of_filters e r m) ih

keep-cons {ℓ} :
    {A : Type ℓ} (p : A → Bool) (x : A) (xs : List A)
    → keep p (x ∷ xs) ≡ (if p x then x ∷ keep p xs else keep p xs)
unfolding keep
keep-cons p x xs = refl

filter_loop-nil :
    (e : SecurityEvent) (ss : List Receiver)
    → filter_loop e (keep (subscribes e.type) []) ≡ returns ss
    → [] ≡ ss
unfolding filter_loop keep
filter_loop-nil e ss h = ground arith

filter_loop-Selects :
    (e : SecurityEvent) (rs ss : List Receiver)
    → filter_loop e (keep (subscribes e.type) rs) ≡ returns ss
    → Selects e rs ss
filter_loop-Selects e [] ss h = subst (Selects e []) (filter_loop-nil e ss h) done
filter_loop-Selects e (r ∷ rs) ss h = elim (Bool-cases (subscribes e.type r)) [
  | inl s ↦
      let kept = rw (keep-cons (subscribes e.type) r rs, s) at h in
      let (m, sel, p, q, same) = filter_loop-cons e r (keep (subscribes e.type) rs) ss kept in
      subst (Selects e (r ∷ rs)) (sym same)
        (selected e r rs sel m s p (filter_loop-Selects e rs sel q))
  | inr s ↦
      let kept = rw (keep-cons (subscribes e.type) r rs, s) at h in
      skip (not-IsInterested_of_subscribes e r s) (filter_loop-Selects e rs ss kept)
]

-- The search is the loop over the receivers that subscribe: the copies are equal to the originals.
pub filter_receivers-filter_loop :
    (e : SecurityEvent) (reg : MemoryRegistry)
    → filter_receivers e reg
      ≡ (filter_loop e (keep (subscribes e.type) (values reg.receivers)) >>= λ ss. returns (ok ss))
unfolding filter_receivers
filter_receivers-filter_loop e reg = rw map-copy_receiver refl

-- What is found for an event is exactly the interested receivers, in the order of the registry.
pub filter_receivers-Selects :
    (e : SecurityEvent) (reg : MemoryRegistry) (ss : List Receiver)
    → filter_receivers e reg ≡ returns (ok ss)
    → Selects e (values reg.receivers) ss
filter_receivers-Selects e reg ss h =
    let loop = rw filter_receivers-filter_loop at h in
    filter_loop-Selects e (values reg.receivers) ss (ground (arith, loop))

matches_filters-ne-panics :
    (e : SecurityEvent) (fs : List EventFilter) → All IsSafe fs → matches_filters e fs ≢ panics
unfolding matches_filters
matches_filters-ne-panics e [] h p = cc p
matches_filters-ne-panics e (f ∷ fs) (h, hs) p =
    ground (arith, filter_matches-ne-panics f e h, matches_filters-ne-panics e fs hs)

filter_loop-ne-panics :
    (e : SecurityEvent) (rs : List Receiver)
    → All (λ r. All IsSafe r.filters) rs
    → filter_loop e (keep (subscribes e.type) rs) ≢ panics
unfolding filter_loop keep
filter_loop-ne-panics e [] h p = cc p
filter_loop-ne-panics e (r ∷ rs) (h, hs) p =
    ground (arith, matches_filters-ne-panics e r.filters h, filter_loop-ne-panics e rs hs)

-- With filters that cannot panic the search always answers, and never with an error.
pub filter_receivers-total :
    (e : SecurityEvent) (reg : MemoryRegistry)
    → All (λ r. All IsSafe r.filters) (values reg.receivers)
    → (ss : List Receiver) × (filter_receivers e reg ≡ returns (ok ss))
filter_receivers-total e reg h =
    elim (Outcome-cases (filter_loop e (keep (subscribes e.type) (values reg.receivers)))) [
      | inl p ↦ absurd (filter_loop-ne-panics e (values reg.receivers) h p)
      | inr (ss, p) ↦ (ss, rw (filter_receivers-filter_loop, p) refl)
    ]

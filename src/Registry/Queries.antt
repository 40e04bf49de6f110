-- ===== src/Registry/Queries.antt =====
-- The methods of ssf-hub/internal/registry/registry.go that search and count.
use caep_dev.Base.{
  ℕ, ◌+◌, String, Bool, true, ◌&&◌, List, [], ◌∷◌, Option, none, some, map, ◌==◌, if◌then◌else◌,
  length, keep, contains, Outcome, returns, ◌>>=◌, Result, ok, err,
}
use caep_dev.Base.Dict.{Dict, lookup, put, values}
use caep_dev.Models.Receiver.{EventFilter, Receiver, active}
use caep_dev.Models.Event.{SecurityEvent}
use caep_dev.Models.Filter.{filter_matches}
use caep_dev.Registry.Defs.{MemoryRegistry, Error, copy_receiver}

-- the test of the loop of `GetByEventType`
abbrev pub subscribes : String → Receiver → Bool
subscribes event_type r = r.status == active && contains r.event_types event_type

unfoldable pub get_by_event_type : String → MemoryRegistry → Result Error (List Receiver)
unfolding copy_receiver keep contains
get_by_event_type event_type reg =
    ok (map copy_receiver (keep (subscribes event_type) (values reg.receivers)))

unfoldable pub get_active_receivers : MemoryRegistry → Result Error (List Receiver)
unfolding copy_receiver keep
get_active_receivers reg =
    ok (map copy_receiver (keep (λ r. r.status == active) (values reg.receivers)))

-- With no filters the loop makes no round.
unfoldable pub matches_filters : SecurityEvent → List EventFilter → Outcome Bool
matches_filters e [] = returns true
matches_filters e (f ∷ fs) =
    let rest = matches_filters e fs in
    do matched ← filter_matches f e; if matched then rest else returns Bool.false

-- the loop of `FilterReceivers`
unfoldable pub filter_loop : SecurityEvent → List Receiver → Outcome (List Receiver)
unfolding matches_filters
filter_loop e [] = returns []
filter_loop e (r ∷ rs) =
    let rest = filter_loop e rs in
    do
      matched ← matches_filters e r.filters
      selected ← rest
      returns (if matched then r ∷ selected else selected)

abbrev filter_found :
    SecurityEvent → Result Error (List Receiver) → Outcome (Result Error (List Receiver))
filter_found e (err x) = returns (err x)
filter_found e (ok rs) = do selected ← filter_loop e rs; returns (ok selected)

unfoldable pub filter_receivers :
    SecurityEvent → MemoryRegistry → Outcome (Result Error (List Receiver))
unfolding get_by_event_type filter_loop
filter_receivers e reg = filter_found e (get_by_event_type e.type reg)

unfoldable pub count : MemoryRegistry → ℕ
count reg = length reg.receivers

abbrev add_one : Option ℕ → ℕ
add_one none = 1
add_one (some n) = n + 1

-- counts[s]++
unfoldable pub tally : String → Dict ℕ → Dict ℕ
tally s counts = put s (add_one (lookup s counts)) counts

unfoldable pub tally_loop : List Receiver → Dict ℕ → Dict ℕ
unfolding tally
tally_loop [] counts = counts
tally_loop (r ∷ rs) counts = tally_loop rs (tally r.status counts)

unfoldable pub count_by_status : MemoryRegistry → Dict ℕ
unfolding tally_loop
count_by_status reg = tally_loop (values reg.receivers) []

-- ===== src/Broker/Stats.antt =====
-- The statistics of ssf-hub/internal/controller/broker.go.
use caep_dev.Base.{
  ℕ, ◌+◌, String, List, [], ◌∷◌, ◌≡◌, refl, ◌==◌, arith, if◌then◌else◌, length, keep, ok,
}
use caep_dev.Base.Dict.{Dict, lookup, values}
use caep_dev.Models.Receiver.{Receiver}
use caep_dev.Registry.{MemoryRegistry, list, tally, count, count_by_status}
use caep_dev.Registry.Totals.{or_zero, lookup-tally, lookup-count_by_status}
use caep_dev.Registry.Selection.{map-copy_receiver}
use caep_dev.Broker.Receivers.{BrokerStats, tally_types, tally_receivers, get_broker_stats}

-- How often the texts hold `t`.
abbrev pub occurrences : String → List String → ℕ
occurrences t [] = 0
occurrences t (s ∷ ss) = (if s == t then 1 else 0) + occurrences t ss

-- How often the receivers name the type.
abbrev pub named : String → List Receiver → ℕ
named t [] = 0
named t (r ∷ rs) = occurrences t r.event_types + named t rs

lookup-tally_types :
    (t : String) (ts : List String) (stats : Dict ℕ)
    → or_zero (lookup t (tally_types ts stats)) ≡ or_zero (lookup t stats) + occurrences t ts
unfolding tally_types
lookup-tally_types t [] stats = omega arith
lookup-tally_types t (s ∷ ss) stats =
    ground (arith, lookup-tally_types t ss (tally s stats), lookup-tally t s stats)

lookup-tally_receivers :
    (t : String) (rs : List Receiver) (stats : Dict ℕ)
    → or_zero (lookup t (tally_receivers rs stats)) ≡ or_zero (lookup t stats) + named t rs
unfolding tally_receivers
lookup-tally_receivers t [] stats = omega arith
lookup-tally_receivers t (r ∷ rs) stats = omega (
  arith,
  lookup-tally_receivers t rs (tally_types r.event_types stats),
  lookup-tally_types t r.event_types stats,
)

length-values {ℓ} : {V : Type ℓ} (m : Dict V) → length (values m) ≡ length m
unfolding values
length-values [] = refl
length-values ((k, v) ∷ m) = cc (length-values m)

-- The statistics always come: the number of receivers is the registry's count, each status has the
-- number of receivers with it, and each event type the number of times that receivers name it.
pub get_broker_stats-counts :
    (reg : MemoryRegistry) (s t : String)
    → (stats : BrokerStats) × (get_broker_stats reg ≡ ok stats)
      × (stats.total_receivers ≡ count reg)
      × (or_zero (lookup s stats.receivers_by_status)
          ≡ length (keep (λ r. r.status == s) (values reg.receivers)))
      × (or_zero (lookup t stats.event_type_stats) ≡ named t (values reg.receivers))
unfolding get_broker_stats list count lookup
get_broker_stats-counts reg s t = (
  record {
    total_receivers = length (values reg.receivers);
    receivers_by_status = count_by_status reg;
    event_type_stats = tally_receivers (values reg.receivers) [];
  },
  rw map-copy_receiver refl,
  length-values reg.receivers,
  lookup-count_by_status s reg,
  omega (arith, lookup-tally_receivers t (values reg.receivers) []),
)

-- ===== src/Tests/Models.antt =====
-- The theorems on ssf-hub/pkg/models at concrete inputs.
use Prim.Native.String.{◌++◌}
use mathlib.Core.Logic.{inl, inr}
use caep_dev.Base.{
  String, List, [], ◌≡◌, ◌≢◌, ◌↔◌, ◌⊎◌, refl, arith, returns, panics, none, true, ◌∷◌,
}
use caep_dev.Models.Value.{Value, null, str, arr, nil, cons}
use caep_dev.Models.Receiver.{EventFilter}
use caep_dev.Models.Event.{SecurityEvent}
use caep_dev.Models.Filter.{contains, extract_field_value, filter_matches}
use caep_dev.Models.Filter.Laws.{IsSafe, contains-suffix_iff}
use caep_dev.Models.Filter.Clashes.{Clash, ClashIn, filter_matches-panics_iff}
use caep_dev.Tests.Data.{event, from_example}

contains-suffix_iff_example :
    (contains (str "idp.example") (str ".example") ≡ returns true)
    ↔ ((p : String) × ("idp.example" ≡ p ++ ".example"))
contains-suffix_iff_example = contains-suffix_iff "idp.example" ".example"

from_example-IsSafe : IsSafe from_example
from_example-IsSafe = record { value_safe = inr tt; items_safe = inr tt }

abbrev event_with_list : SecurityEvent
event_with_list = record event { event_data = ("roles", arr nil) ∷ [] }

reads_list : extract_field_value "data.roles" event_with_list ≡ arr nil
unfolding extract_field_value caep_dev.Base.Dict.lookup
reads_list = refl

abbrev nothing : Value
nothing = str ""

-- the operator `in`, on a list that holds a text and a list
abbrev among_filter : EventFilter
among_filter = record {
  field = "data.roles";
  operator = "in";
  value = arr (cons nothing (cons (arr nil) nil));
}

filter_matches-panics_iff_example : (filter_matches among_filter event_with_list ≡ panics) ↔ (
    ((◌≡◌ {A = String} "in" "equals")
      × Clash (extract_field_value "data.roles" event_with_list) among_filter.value)
    ⊎ ((◌≡◌ {A = String} "in" "in")
        × ClashIn (extract_field_value "data.roles" event_with_list) among_filter.value))
filter_matches-panics_iff_example = filter_matches-panics_iff among_filter event_with_list

panics_among : filter_matches among_filter event_with_list ≡ panics
panics_among = filter_matches-panics_iff_example.1 (inr (refl, rw reads_list (inr (inl tt))))

reads_nothing : extract_field_value "data.roles" event ≡ null
unfolding extract_field_value caep_dev.Base.Dict.lookup
reads_nothing = refl

-- ===== src/Registry/Totals.antt =====
-- `Count` and `CountByStatus` of ssf-hub/internal/registry/registry.go.
use caep_dev.Base.{
  ℕ, ◌+◌, String, Bool, List, [], ◌∷◌, Option, none, some, ◌≡◌, refl, ◌≢◌, arith, ◌==◌, eq_iff,
  if◌then◌else◌, keep, length,
}
use caep_dev.Base.Dict.{Dict, lookup, put, remove, values, lookup-put, HasDistinctKeys}
use caep_dev.Models.Receiver.{Time, Receiver, ValidationError, validate, set_defaults}
use caep_dev.Models.Receiver.Validation.{IsDeliverable, validate_iff, id-validate}
use caep_dev.Registry.Defs.{MemoryRegistry, register, register_validated, unregister}
use caep_dev.Registry.Queries.{count, tally, tally_loop, count_by_status}

-- A missing key reads as 0.
abbrev pub or_zero : Option ℕ → ℕ
or_zero none = 0
or_zero (some n) = n

has_status : String → Receiver → Bool
has_status s r = r.status == s

pub lookup-tally :
    (s t : String) (counts : Dict ℕ)
    → or_zero (lookup s (tally t counts))
      ≡ (if t == s then or_zero (lookup s counts) + 1 else or_zero (lookup s counts))
unfolding tally
lookup-tally s t counts = rw lookup-put (ground (arith, eq_iff t s))

lookup-tally_loop :
    (s : String) (rs : List Receiver) (counts : Dict ℕ)
    → or_zero (lookup s (tally_loop rs counts))
      ≡ or_zero (lookup s counts) + length (keep (has_status s) rs)
unfolding tally_loop keep has_status
lookup-tally_loop s [] counts = omega arith
lookup-tally_loop s (r ∷ rs) counts =
    ground (arith, lookup-tally_loop s rs (tally r.status counts), lookup-tally s r.status counts)

-- The count under a status is the number of the receivers that have it, and 0 if there is no entry.
pub lookup-count_by_status :
    (s : String) (reg : MemoryRegistry)
    → or_zero (lookup s (count_by_status reg))
      ≡ length (keep (λ r. r.status == s) (values reg.receivers))
unfolding count_by_status lookup has_status
lookup-count_by_status s reg = ground (arith, lookup-tally_loop s (values reg.receivers) [])

length-put_fresh {ℓ} :
    {V : Type ℓ} (k : String) (v : V) (m : Dict V)
    → lookup k m ≡ none
    → length (put k v m) ≡ length m + 1
unfolding put lookup
length-put_fresh k v [] h = refl
length-put_fresh k v ((j, w) ∷ m) h = ground (arith, length-put_fresh k v m)

remove_fresh {ℓ} : {V : Type ℓ} (k : String) (m : Dict V) → lookup k m ≡ none → remove k m ≡ m
unfolding remove lookup
remove_fresh k [] h = refl
remove_fresh k ((j, w) ∷ m) h = ground (arith, remove_fresh k m)

length-remove {ℓ} :
    {V : Type ℓ} (k : String) (m : Dict V)
    → HasDistinctKeys m
    → lookup k m ≢ none
    → length (remove k m) + 1 ≡ length m
unfolding remove lookup
length-remove k [] d h = absurd (h refl)
length-remove k ((j, w) ∷ m) (fresh, d) h =
    ground (arith, eq_iff j k, length-remove k m d, remove_fresh k m)

module _ (p : String → Bool) (reg : MemoryRegistry) where
  count-register_validated :
      (t u v : Time) (q : Receiver × Option ValidationError)
      → q.1 ≡ none
      → lookup q.0.id reg.receivers ≡ none
      → count (register_validated t u v q reg).0 ≡ count reg + 1
  unfolding register_validated count set_defaults
  count-register_validated t u v (r, some e) h f = cc h
  count-register_validated t u v (r, none) h f = rw f (length-put_fresh r.id _ reg.receivers f)

  -- A registration of a deliverable receiver under a new id adds one receiver.
  pub count-register :
      (t u v : Time) (r : Receiver)
      → IsDeliverable p r
      → lookup r.id reg.receivers ≡ none
      → count (register p t u v (some r) reg).0 ≡ count reg + 1
  unfolding register
  count-register t u v r d fresh =
      count-register_validated t u v (validate p r) ((validate_iff p r).1 d) (rw id-validate fresh)

-- To unregister a receiver that is there takes one away.
pub count-unregister :
    (id : String) (reg : MemoryRegistry)
    → HasDistinctKeys reg.receivers
    → lookup id reg.receivers ≢ none
    → count (unregister id reg).0 + 1 ≡ count reg
unfolding unregister count
count-unregister id reg d there = ground (arith, length-remove id reg.receivers d)

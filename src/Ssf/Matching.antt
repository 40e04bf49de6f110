-- ===== src/Ssf/Matching.antt =====
-- What EventTypesMatch of ssfreceiver/internal/validation/validation.go tests.
use caep_dev.Base.{
  ◌≡◌, ◌↔◌, refl, String, true, List, [], ◌∷◌, All, Holds, Holds-of_contains, contains_of_Holds,
  contains, length, eqb, arith, Bool-cases, inl, inr,
}
use caep_dev.Ssf.Validation.{all_in, event_types_match}

all_in_iff : (a b : List String) → (all_in a b ≡ true) ↔ All (λ e. Holds e a) b
unfolding all_in
all_in_iff a [] = (λ h. tt, λ h. refl)
all_in_iff a (e ∷ b) = elim (Bool-cases (contains a e)) [
  | inl there ↦
      let (f, g) = all_in_iff a b in
      (λ h. (Holds-of_contains a e there, f (rw there at h)), λ (x, hs). rw there (g hs))
  | inr absent ↦
      (λ h. absurd (cc (rw absent at h)), λ (x, hs). absurd (cc (absent, contains_of_Holds a e x)))
]

-- The test holds exactly if the lists are equally long and every event type of the second is in the
-- first.
pub event_types_match_iff :
    (a b : List String)
    → (event_types_match a b ≡ true) ↔ ((length a ≡ length b) × All (λ e. Holds e a) b)
unfolding event_types_match
event_types_match_iff a b =
    let (f, g) = all_in_iff a b in
    elim (Bool-cases (eqb (length a) (length b))) [
      | inl same ↦ (λ h. ((ground (arith, same)), f (rw same at h)), λ (l, hs). rw same (g hs))
      | inr different ↦
          (λ h. absurd (cc (rw different at h)), λ (l, hs). absurd (ground (arith, different, l)))
    ]

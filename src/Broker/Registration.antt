-- ===== src/Broker/Registration.antt =====
-- How receivers are registered, changed and removed through ssf-hub/internal/controller/broker.go.
use mathlib.Core.Logic.{inl, inr}
use caep_dev.Base.{
  String, Bool, true, List, [], ◌∷◌, Option, none, some, ◌≡◌, ◌≢◌, ◌↔◌, refl, ap, ◌∙◌, sym,
  Option-cases, length, arith, eq_iff, eq_refl, Result, ok, err,
}
use caep_dev.Base.Dict.{lookup, remove, lookup-remove}
use caep_dev.Models.Receiver.{
  Time, Receiver, ReceiverRequest, ValidationError, active, validate, to_receiver,
}
use caep_dev.Models.Receiver.Validation.{
  validate-IsDeliverable, IsDeliverable, validate_iff, id-validate,
}
use caep_dev.Registry
use caep_dev.Registry.{MemoryRegistry, register, unregister, get, update, not_found}
use caep_dev.Registry.Operations.{Operation}
use caep_dev.Registry.Errors.{outcome_iff}
use caep_dev.Registry.Reads.{get-lookup, update-get}
use caep_dev.Broker.Receivers.{
  receiver_not_found, registered, register_checked, updated, ReceiverError, register_receiver,
  unregister_receiver, update_receiver, slices_equal, same_items,
}

abbrev pub Succeeds : {A : Type 0} → Result ReceiverError A → Type 0
Succeeds {A} r = (a : A) × (r ≡ ok a)

registered_iff :
    (o : MemoryRegistry × Option Receiver × Option Registry.Error)
    → Succeeds (registered o).1 ↔ (o.2 ≡ none)
registered_iff (reg, r, none) = (λ h. refl, λ h. (r, refl))
registered_iff (reg, r, some e) = (λ h. absurd (cc h.1), λ h. absurd (cc h))

module _ (p : String → Bool) (t u v : Time) (reg : MemoryRegistry) where
  register_checked_iff :
      (w : Receiver × Option ValidationError)
      → Succeeds (register_checked p t u v w reg).1
        ↔ ((w.1 ≡ none) × IsDeliverable p w.0 × (lookup w.0.id reg.receivers ≡ none))
  register_checked_iff (r, some e) = (λ h. absurd (cc h.1), λ h. absurd (cc h.0))
  register_checked_iff (r, none) =
      let verdict = registered_iff (register p t u v (some r) reg) in
      let permitted = outcome_iff p reg (Operation.register t u v (some r)) in
      (
        λ h. let (d, fresh) = permitted.0 (verdict.0 h) in (refl, d, fresh),
        λ (x, d, fresh). verdict.1 (permitted.1 (d, fresh)),
      )

  -- A request is registered exactly if the receiver made of it is deliverable and its id is new.
  pub register_receiver_iff :
      (now : Time) (q : ReceiverRequest)
      → Succeeds (register_receiver p now t u v q reg).1
        ↔ (IsDeliverable p (to_receiver now q) × (lookup q.id reg.receivers ≡ none))
  unfolding register_receiver to_receiver
  register_receiver_iff now q =
      let r = to_receiver now q in
      let checked = register_checked_iff (validate p r) in
      (
        λ h.
            let (fine, d, fresh) = checked.0 h in
            (
              (validate_iff p r).0 fine,
              ap (λ i. lookup i reg.receivers) (sym (id-validate p r)) ∙ fresh,
            ),
        λ h. checked.1 (
          (validate_iff p r).1 h.0,
          validate-IsDeliverable p r ((validate_iff p r).1 h.0),
          ap (λ i. lookup i reg.receivers) (id-validate p r) ∙ h.1,
        ),
      )

unregister-found :
    (id : String) (r : Receiver) (reg : MemoryRegistry)
    → lookup id reg.receivers ≡ some r
    → unregister id reg ≡ (record { receivers = remove id reg.receivers }, none)
unfolding unregister
unregister-found id r reg h = rw h refl

-- After a receiver is unregistered it is not found, whether it was there or not; and there is no error
-- exactly if it was.
pub unregister_receiver-get :
    (id : String) (reg : MemoryRegistry)
    → (((unregister_receiver id reg).1 ≡ none) ↔ (lookup id reg.receivers ≢ none))
      × (get id (unregister_receiver id reg).0 ≡ err (not_found id))
unfolding unregister_receiver
unregister_receiver-get id reg = elim (Option-cases (lookup id reg.receivers)) [
  | inl h ↦
      let same : unregister_receiver id reg ≡ (reg, some (receiver_not_found (not_found id))) =
        rw (get-lookup, h) refl in
      rw same ((λ e. absurd (cc e), λ n. absurd (n h)), rw (get-lookup, h) refl)
  | inr (r, h) ↦
      let same : unregister_receiver id reg
          ≡ (record { receivers = remove id reg.receivers }, none) =
        rw (get-lookup, h, unregister-found id r reg h) refl in
      rw same ((λ e n. cc (n, h), λ n. refl), rw (lookup-remove, eq_refl) refl)
]

updated-registry :
    (o : MemoryRegistry × Option Receiver × Option Registry.Error) → (updated o).0 ≡ o.0
updated-registry (reg, r, none) = refl
updated-registry (reg, r, some e) = refl

-- An accepted update of a registered receiver makes it active again, whatever status was set before,
-- and keeps its creation time and its counters.
pub update_receiver-get :
    (p : String → Bool) (t now : Time) (q : ReceiverRequest) (old : Receiver) (reg : MemoryRegistry)
    → IsDeliverable p (to_receiver t q)
    → lookup q.id reg.receivers ≡ some old
    → (s : Receiver) × (get q.id (update_receiver p t now q reg).0 ≡ ok s)
      × (s.status ≡ active)
      × (s.event_types ≡ q.event_types)
      × (s.metadata.created_at ≡ old.metadata.created_at)
      × (s.metadata.events_received ≡ old.metadata.events_received)
      × (s.metadata.events_delivered ≡ old.metadata.events_delivered)
      × (s.metadata.events_failed ≡ old.metadata.events_failed)
unfolding update_receiver to_receiver
update_receiver-get p t now q old reg d h =
    let (
      s, stored, created, last, received, delivered, failed, now', error, types, url, filters,
      status,
    ) =
      update-get p reg now (to_receiver t q) old d h in
    let same : (update_receiver p t now q reg).0 ≡ (update p now (some (to_receiver t q)) reg).0 =
      rw (get-lookup, h) (updated-registry _) in
    (s, ap (get q.id) same ∙ stored, status, types, created, received, delivered, failed)

same_items_iff : (a b : List String) → length a ≡ length b → (same_items a b ≡ true) ↔ (a ≡ b)
unfolding same_items
same_items_iff [] [] h = (λ e. refl, λ e. refl)
same_items_iff [] (y ∷ b) h = absurd (omega arith)
same_items_iff (x ∷ a) [] h = absurd (omega arith)
same_items_iff (x ∷ a) (y ∷ b) h = ground (arith, eq_iff x y, same_items_iff a b)

-- The comparison of two slices is equality.
pub slices_equal_iff : (a b : List String) → (slices_equal a b ≡ true) ↔ (a ≡ b)
unfolding slices_equal
slices_equal_iff a b =
    (λ h. ground (arith, same_items_iff a b), λ e. ground (arith, same_items_iff a b, ap length e))

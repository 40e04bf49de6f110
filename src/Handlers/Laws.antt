-- ===== src/Handlers/Laws.antt =====
-- What the handlers of ssf-hub/internal/handlers/handlers.go answer.
use mathlib.Core.Path.{subst}
use mathlib.Core.Logic.{inl, inr}
use caep_dev.Base.{
  ℕ, ◌≡◌, ◌≢◌, ◌↔◌, refl, ap, sym, String, Bool, true, false, ◌&&◌, List, [], ◌∷◌, keep, none, some,
  ◌==◌, eq_iff, arith, if◌then◌else◌, Result, ok, err, Outcome, returns, panics, ◌>>=◌, Bool-cases,
}
use caep_dev.Models.Receiver.{Receiver}
use caep_dev.PubSub.Api.{PubSubClient}
use caep_dev.Registry.{MemoryRegistry}
use caep_dev.Broker.{Processed, Readings, SecEvent, process_security_event}
use caep_dev.Handlers.Defs.{
  or_next, Request, Environment, Response, write_json_response, write_error_response,
  get_transmitter_id, value_of, is_dev_mode,
}
use caep_dev.Handlers.Events.{Answered, respond, process_body, handle_events}
use caep_dev.Handlers.Receivers.{passes, filter_loop, filter_receivers}

or_next-ne : (s next : String) → next ≢ "" → or_next s next ≢ ""
or_next-ne s next h = elim (Bool-cases (s == "")) [
  | inl blank ↦ rw blank h
  | inr given ↦ rw given (λ e. cc (given, (eq_iff s "").1 e))
]

literal-ne : (s : String) → (s == "") ≡ false → s ≢ ""
literal-ne s h e = cc (h, (eq_iff s "").1 e)

-- Every request has a transmitter.
pub get_transmitter_id-ne : (env : Environment) (r : Request) → get_transmitter_id env r ≢ ""
unfolding get_transmitter_id
get_transmitter_id-ne env r = elim (Bool-cases (is_dev_mode env r)) [
  | inl dev ↦ rw dev (
      or_next-ne (value_of "X-Transmitter-ID" r.headers) _
        (or_next-ne env.dev_default_transmitter _ (literal-ne "dev-transmitter" refl)))
  | inr other ↦ rw other (
      or_next-ne (value_of "X-Transmitter-ID" r.headers)
        (if value_of "Authorization" r.headers == ""
          then or_next (value_of "transmitter_id" r.query) "default-transmitter"
          else "jwt-transmitter")
        (elim (Bool-cases (value_of "Authorization" r.headers == "")) [
          | inl none_sent ↦ rw none_sent (
              or_next-ne (value_of "transmitter_id" r.query) _
                (literal-ne "default-transmitter" refl))
          | inr sent ↦ rw sent (literal-ne "jwt-transmitter" refl)
        ]))
]

is_blank_of_ne : (s : String) → s ≢ "" → (s == "") ≡ false
is_blank_of_ne s h = elim (Bool-cases (s == "")) [
  | inl blank ↦ absurd (h ((eq_iff s "").0 blank))
  | inr given ↦ given
]

keep_all :
    (p : Receiver → Bool) (rs : List Receiver) → ((r : Receiver) → p r ≡ true) → keep p rs ≡ rs
unfolding keep
keep_all p [] h = refl
keep_all p (r ∷ rs) h = rw (h r, keep_all p rs h) refl

passes_unfiltered :
    (s t : String) (r : Receiver) → (s == "" && t == "") ≡ true → passes s t r ≡ true
passes_unfiltered s t r h = ground (arith, h)

filter_loop-keep : (s t : String) (rs : List Receiver) → filter_loop s t rs ≡ keep (passes s t) rs
unfolding keep
filter_loop-keep s t [] = refl
filter_loop-keep s t (r ∷ rs) = rw (filter_loop-keep s t rs) refl

-- The filter of the list keeps, in order, the receivers that pass both tests.
pub filter_receivers-keep :
    (rs : List Receiver) (s t : String) → filter_receivers rs s t ≡ keep (passes s t) rs
unfolding filter_receivers
filter_receivers-keep rs s t = elim (Bool-cases (s == "" && t == "")) [
  | inl unfiltered ↦
      rw unfiltered (sym (keep_all (passes s t) rs (λ r. passes_unfiltered s t r unfiltered)))
  | inr filtered ↦ rw filtered (filter_loop-keep s t rs)
]

module _ {C S : Type 0} (client : PubSubClient C S) (parse : String → Result String SecEvent) where
  abbrev status_of : Outcome (Answered client parse) → ℕ
  status_of panics = 0
  status_of (returns (reg, c, a)) = a.status

  respond_iff :
      (id t : String) (x : Processed client) (reg : MemoryRegistry) (c : C) (a : Response)
      → respond client parse id t x ≡ (reg, c, a)
      → (a.status ≡ 202) ↔ (x ≡ (reg, c, none))
  unfolding write_json_response write_error_response
  respond_iff id t (reg', c', none) reg c a h = (
    λ _. ap (λ (y : Answered client parse). (y.0, y.1, none)) h,
    λ _. sym (ap (λ (y : Answered client parse). y.2.status) h),
  )
  respond_iff id t (reg', c', some e) reg c a h = (
    λ took. absurd (omega (arith, took, ap (λ (y : Answered client parse). y.2.status) h)),
    λ same. absurd (cc (ap (λ (y : Processed client). y.2) same)),
  )

  run_iff :
      (id t : String) (o : Outcome (Processed client)) (reg : MemoryRegistry) (c : C) (a : Response)
      → (o >>= (λ x. returns (respond client parse id t x))) ≡ returns (reg, c, a)
      → (a.status ≡ 202) ↔ (o ≡ returns (reg, c, none))
  run_iff id t panics reg c a h = absurd (cc h)
  run_iff id t (returns x) reg c a h =
      let (f, g) = respond_iff id t x reg c a (cc h) in (λ took. ap returns (f took), λ e. g (cc e))

  body_iff :
      (now : Readings) (id t : String) (reg reg' : MemoryRegistry) (c c' : C)
      (b : Result String String) (a : Response)
      → process_body client parse now id t reg c b ≡ returns (reg', c', a)
      → (a.status ≡ 202) ↔ (
          (s : String) × (b ≡ ok s)
          × (s ≢ "")
          × (process_security_event client parse now s id reg c ≡ returns (reg', c', none)))
  unfolding write_error_response write_json_response
  body_iff now id t reg reg' c c' (err e) a h =
      (λ took. absurd (omega (arith, took, ap status_of h)), λ (s, e', ne, p). absurd (cc e'))
  body_iff now id t reg reg' c c' (ok s) a h = elim (Bool-cases (s == "")) [
    | inl blank ↦
        let h' = rw blank at h in
        (
          λ took. absurd (omega (arith, took, ap status_of h')),
          λ (s', e, ne, p). absurd (ne (cc (e, (eq_iff s "").0 blank))),
        )
    | inr given ↦
        let (f, g) =
          run_iff id t (process_security_event client parse now s id reg c) reg' c' a
            (rw given at h) in
        (
          λ took. (s, refl, (λ e. cc (given, (eq_iff s "").1 e)), f took),
          λ (s', e, ne, p).
              let same : s' ≡ s = cc e in
              g (
                subst
                  (λ x.
                    process_security_event client parse now x id reg c ≡ returns (reg', c', none))
                  same p),
        )
  ]

  -- A request with an event, when the handler returns, is answered by 202 exactly if its body could be
  -- read and is not empty, and the broker processed it, for the transmitter that was found, without an
  -- error; the registry and the client are then those that the broker left.
  pub handle_events-accepted :
      (env : Environment) (now : Readings) (r : Request) (reg reg' : MemoryRegistry) (c c' : C)
      (a : Response)
      → handle_events client parse env now r reg c ≡ returns (reg', c', a)
      → (a.status ≡ 202) ↔ (
          (s : String) × (r.body ≡ ok s)
          × (s ≢ "")
          × (process_security_event client parse now s (get_transmitter_id env r) reg c
              ≡ returns (reg', c', none)))
  unfolding handle_events
  handle_events-accepted env now r reg reg' c c' a h =
      body_iff now (get_transmitter_id env r) r.timestamp reg reg' c c' r.body a
        (rw (is_blank_of_ne (get_transmitter_id env r) (get_transmitter_id-ne env r)) at h)

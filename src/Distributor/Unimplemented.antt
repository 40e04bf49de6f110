-- ===== src/Distributor/Unimplemented.antt =====
-- The types of authentication of ssf-hub/internal/distributor/distributor.go that are not implemented.
use mathlib.Core.Logic.{inl, inr}
use caep_dev.Base.{
  ℕ, false, ◌≡◌, refl, ◌⊎◌, ◌==◌, Bool-cases, Option, none, Result, ok, err, String,
}
use caep_dev.Base.Int.{pos}
use caep_dev.Models.Receiver.{Duration, Receiver, AuthConfig, auth_hmac, auth_oauth2}
use caep_dev.Models.Event.{SecurityEvent, abandoned}
use caep_dev.Distributor.Defs.{
  RetryPolicy, Http, Request, Answer, WebhookResult, add_authentication, perform_webhook_delivery,
  requested, marshalled, with_headers,
}
use caep_dev.Distributor.Loop.{Attempt, Run, perform_delivery_with_retries}
use caep_dev.Distributor.Endings.{perform_delivery_with_retries-Ends}

-- The two types of authentication that the code leaves for later.
abbrev pub IsUnimplemented : AuthConfig → Type 0
IsUnimplemented a = (a.type ≡ auth_hmac) ⊎ (a.type ≡ auth_oauth2)

hmac_fails :
    (q : Request) (a : AuthConfig)
    → a.type ≡ auth_hmac
    → (x : String) × (add_authentication q a ≡ err x)
unfolding add_authentication
hmac_fails q a h = elim (Bool-cases (a.secret == "")) [
  | inl e ↦ ("HMAC secret is required but not provided", simp (h, e))
  | inr e ↦ ("HMAC authentication not yet implemented", simp (h, e))
]

oauth2_fails :
    (q : Request) (a : AuthConfig)
    → a.type ≡ auth_oauth2
    → (x : String) × (add_authentication q a ≡ err x)
unfolding add_authentication
oauth2_fails q a h = ("OAuth2 authentication not yet implemented", simp h)

add_authentication-err :
    (q : Request) (a : AuthConfig)
    → IsUnimplemented a
    → (x : String) × (add_authentication q a ≡ err x)
add_authentication-err q a (inl h) = hmac_fails q a h
add_authentication-err q a (inr h) = oauth2_fails q a h

abbrev FailsUnsent : Option Request × WebhookResult → Type 0
FailsUnsent w = (w.0 ≡ none) × (w.1.success ≡ false)

requested-fails :
    (r : Receiver) (e : SecurityEvent) (a : Answer) (q : Result String Request)
    → IsUnimplemented r.auth
    → FailsUnsent (requested r e a q)
requested-fails r e a (err x) h = (refl, refl)
requested-fails r e a (ok q) h =
    let (x, same) = add_authentication-err (with_headers e q) r.auth h in rw same (refl, refl)

marshalled-fails :
    (http : Http) (r : Receiver) (e : SecurityEvent) (a : Answer) (t : Result String String)
    → IsUnimplemented r.auth
    → FailsUnsent (marshalled http r e a t)
marshalled-fails http r e a (err x) h = (refl, refl)
marshalled-fails http r e a (ok body) h =
    requested-fails r e a (http.new_request r.webhook_url body) h

-- For a receiver with one of these types no request is ever sent and the attempt fails, whatever the
-- network would answer.
pub perform_webhook_delivery-unimplemented :
    (http : Http) (r : Receiver) (e : SecurityEvent) (a : Answer)
    → IsUnimplemented r.auth
    → ((perform_webhook_delivery http r e a).0 ≡ none)
      × ((perform_webhook_delivery http r e a).1.success ≡ false)
unfolding perform_webhook_delivery
perform_webhook_delivery-unimplemented http r e a h = marshalled-fails http r e a (http.marshal e) h

module _ (scale : Duration → ℕ → Duration) (http : Http) (p : RetryPolicy) (env : ℕ → Attempt)
    (r : Receiver) (e : SecurityEvent) where
  -- A receiver whose authentication is of type hmac or oauth2 gets no event: every delivery to it is
  -- abandoned.
  pub perform_delivery_with_retries-unimplemented :
      (m : ℕ) (s : Run)
      → p.max_retries ≡ pos m
      → IsUnimplemented r.auth
      → (perform_delivery_with_retries scale http p env r e s).delivery.status ≡ abandoned
  perform_delivery_with_retries-unimplemented m s pm h =
      let ends = perform_delivery_with_retries-Ends scale http p env r e m s pm in
      elim ends.verdict [
        | inl (d, won) ↦
            let (unsent, lost) =
              perform_webhook_delivery-unimplemented http r e
                (env (perform_delivery_with_retries scale http p env r e s).delivery.attempt).answer
                h in
            absurd (cc (won, lost))
        | inr (d, lost, how) ↦ d
      ]

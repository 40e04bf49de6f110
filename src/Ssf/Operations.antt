-- ===== src/Ssf/Operations.antt =====
-- When an operation of a stream of ssfreceiver/stream/operations.go succeeds.
use caep_dev.Base.{
  ℕ, ◌≡◌, ◌≢◌, ◌↔◌, ◌⊎◌, refl, sym, ap, ◌∙◌, String, true, List, [], ◌∷◌, Option, none, some,
  Result, ok, err, returns, ◌==◌, eq_iff, arith, Bool-cases, Option-cases, inl, inr,
}
use caep_dev.Base.Dict.{Dict}
use caep_dev.Base.Int.{ℤ, pos}
use caep_dev.Ssf.Types.{
  Url, StreamConfiguration, StreamStatusRequest, validate_status_request, is_valid,
}
use caep_dev.Ssf.Retry.Defs.{
  Floats, Response, RetryError, Step, call, Round, RetryConfig, Loop, Returned, do_retry,
}
use caep_dev.Ssf.Stream.{
  Outgoing, status_body, OperationOptions, Authorizer, TransmitterMetadata, apply, get_authorizer,
  get_endpoint_headers, new_stream, send, at_endpoint, update_status,
}
use caep_dev.Ssf.Sending.{observed, once, new_stream-never_retries, send_iff}

-- a status of a stream
abbrev pub IsStatus : String → Type 0
IsStatus s = (s ≡ "enabled") ⊎ (s ≡ "paused") ⊎ (s ≡ "disabled")

is_valid_iff : (s : String) → (is_valid s ≡ true) ↔ IsStatus s
unfolding is_valid
is_valid_iff s = ground (arith, eq_iff "enabled" s, eq_iff "paused" s, eq_iff "disabled" s)

request_iff :
    (r : StreamStatusRequest)
    → (validate_status_request r ≡ none) ↔ ((r.stream_id ≢ "") × IsStatus r.status)
unfolding validate_status_request
request_iff r = elim (Bool-cases (r.stream_id == "")) [
  | inl blank ↦ (
    λ h. absurd (cc (rw blank at h)),
    λ (named, _). absurd (named ((eq_iff r.stream_id "").0 blank)),
  )
  | inr named ↦ elim (Bool-cases (is_valid r.status)) [
    | inl known ↦ (
      λ h. ((λ e. cc (named, (eq_iff r.stream_id "").1 e)), (is_valid_iff r.status).0 known),
      λ h. rw (named, known) refl,
    )
    | inr unknown ↦ (
      λ h. absurd (cc (rw (named, unknown) at h)),
      λ (_, h). absurd (cc (unknown, (is_valid_iff r.status).1 h)),
    )
  ]
]

abbrev response_of : Option Response × Option RetryError × List Step → Option Response
response_of x = x.0

once_iff :
    (d : Option String) (x : Result String (Option Response)) (r : Response)
    → ((steps : List Step) × (once d x ≡ (some r, none, steps))) ↔ ((d ≡ none) × (x ≡ ok (some r)))
unfolding once
once_iff (some e) x r = (λ (l, h). absurd (cc (ap response_of h)), λ (h, _). absurd (cc h))
once_iff none (err e) r = (λ (l, h). absurd (cc (ap response_of h)), λ (_, h). absurd (cc h))
once_iff none (ok resp) r =
    (λ (l, h). (refl, ap ok (ap response_of h)), λ (_, h). (call (ok resp) ∷ [], cc h))

module _ {F : Type 0} (floats : Floats F) (show : ℤ → String) (new_request : String → Option String)
    (env : Outgoing → ℕ → Round F) (stream_id : String) (m : TransmitterMetadata)
    (c : StreamConfiguration) (a : Authorizer) (policy : RetryConfig F)
    (headers : Dict (Dict String)) where
  returned :
      (x : Returned F) (r : Response)
      → ((l : Loop F) × (x ≡ (some r, none, l)))
        ↔ ((steps : List Step) × (observed x ≡ (some r, none, steps)))
  returned (resp, e, l) r = (
    λ (k, h). (k.steps, ap observed h),
    λ (steps, h). (
      l,
      rw (ap response_of h, ap (λ (y : Option Response × Option RetryError × List Step). y.1) h)
          refl,
    ),
  )

  -- what the loop returns for a stream as it is made
  do_retry_iff :
      (q : Outgoing) (r : Response)
      → ((l : Loop F) × (do_retry floats show
              (new_stream floats stream_id m c a policy headers).retry_config
              (env q)
            ≡ (some r, none, l)))
        ↔ (((env q 0).done ≡ none) × ((env q 0).result ≡ ok (some r)))
  do_retry_iff q r =
      let x =
        do_retry floats show (new_stream floats stream_id m c a policy headers).retry_config
          (env q) in
      let same = new_stream-never_retries floats show stream_id m c a policy headers (env q) in
      (
        λ h.
            let (steps, h') = (returned x r).0 h in
            (once_iff (env q 0).done (env q 0).result r).0 (steps, sym same ∙ h'),
        λ h.
            let (steps, h') = (once_iff (env q 0).done (env q 0).result r).1 h in
            (returned x r).1 (steps, same ∙ h'),
      )

  -- The request of UpdateStatus
  abbrev pub status_request :
      (url status : String) → List (OperationOptions → OperationOptions) → Outgoing
  status_request url status opts = record {
    method = "POST";
    url = url;
    headers =
        ("Content-Type", "application/json")
        ∷ get_endpoint_headers (new_stream floats stream_id m c a policy headers) "status"
            (apply opts).headers;
    body =
        status_body
          (record { stream_id = stream_id; status = status; reason = (apply opts).status_reason });
  }

  -- Where the request goes and what comes back: the transmitter has a status endpoint, the request
  -- can be made and authorized, and the one call of the client is answered with status 200 while the
  -- context lasts.
  abbrev pub IsAnswered : (status : String) → List (OperationOptions → OperationOptions) → Type 0
  IsAnswered status opts =
      (u : Url) × (m.status_endpoint ≡ some u)
      × (new_request u.text ≡ none)
      × (q : Outgoing) × (get_authorizer (new_stream floats stream_id m c a policy headers)
            (apply opts) (status_request u.text status opts)
          ≡ ok q)
      × ((env q 0).done ≡ none)
      × (r : Response) × ((env q 0).result ≡ ok (some r))
      × (r.status_code ≡ pos 200)

  at_endpoint_iff :
      (status : String) (opts : List (OperationOptions → OperationOptions)) (o : Option Url)
      → m.status_endpoint ≡ o
      → ((steps : List Step) × (at_endpoint floats show new_request env o (λ url.
              send floats show new_request env
                (new_stream floats stream_id m c a policy headers)
                (apply opts)
                "failed to update status"
                "update-status request failed"
                (pos 200)
                (status_request url status opts))
            ≡ returns (none, steps)))
        ↔ IsAnswered status opts
  at_endpoint_iff status opts none h =
      (λ (steps, p). absurd (cc p), λ (u, e, _, _, _, _, _, _, _). absurd (cc (h, e)))
  at_endpoint_iff status opts (some u) h =
      let (f, g) =
        send_iff floats show new_request env (new_stream floats stream_id m c a policy headers)
          (apply opts) "failed to update status" "update-status request failed" (pos 200)
          (status_request u.text status opts) in
      (
        λ p.
            let (made, q, authorized, r, l, ran, accepted) = f p in
            let (lasts, answer) = (do_retry_iff q r).0 (l, ran) in
            (u, h, made, q, authorized, lasts, r, answer, accepted),
        λ (v, e, made, q, authorized, lasts, r, answer, accepted).
            let same : v ≡ u = cc (h, e) in
            let made' = rw same at made in
            let authorized' = rw same at authorized in
            let (l, ran) = (do_retry_iff q r).1 (lasts, answer) in
            g (made', q, authorized', r, l, ran, accepted),
      )

  -- On a stream that NewStream made, whatever its policy, UpdateStatus succeeds exactly if the stream
  -- has an id, the status is enabled, paused or disabled, the transmitter has a status endpoint, the
  -- request can be made and authorized, the context has not ended, and the first and only call of
  -- the client is answered with status 200.
  pub update_status_iff :
      (status : String) (opts : List (OperationOptions → OperationOptions))
      → ((steps : List Step) × (update_status floats show new_request env
              (new_stream floats stream_id m c a policy headers)
              status
              opts
            ≡ returns (none, steps)))
        ↔ ((stream_id ≢ "") × IsStatus status × IsAnswered status opts)
  unfolding update_status new_stream
  update_status_iff status opts =
      let request : StreamStatusRequest = record {
        stream_id = stream_id;
        status = status;
        reason = (apply opts).status_reason;
      } in
      let (f, g) = at_endpoint_iff status opts m.status_endpoint refl in
      elim (Option-cases (validate_status_request request)) [
        | inl valid ↦
            let (named, known) = (request_iff request).0 valid in
            (λ p. (named, known, f (rw valid at p)), λ (_, _, p). rw valid (g p))
        | inr (e, invalid) ↦ (
          λ (steps, p). absurd (cc (rw invalid at p)),
          λ (named, known, _). absurd (cc (invalid, (request_iff request).1 (named, known))),
        )
      ]

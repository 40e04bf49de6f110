-- ===== src/Ssf/Sending.antt =====
-- How the requests of a stream of ssfreceiver/stream are repeated and when an operation succeeds.
use caep_dev.Base.{
  ℕ, ◌≡◌, ◌↔◌, refl, ap, String, true, List, [], ◌∷◌, ◌++◌, Option, none, some, Result, ok, err,
  returns, arith, Bool-cases, inl, inr,
}
use caep_dev.Base.Dict.{Dict}
use caep_dev.Base.Int.{ℤ, pos, negsuc}
use caep_dev.Ssf.Types.{StreamConfiguration}
use caep_dev.Ssf.Retry.Defs.{
  eqℤ, is_retryable, Floats, Response, RetryError, context_error, max_retries_exceeded, Step, call,
  close, Round, RetryConfig, Loop, Returned, unless_done, delay, answered, attempts, do_retry,
}
use caep_dev.Ssf.Stream.{
  Outgoing, OperationOptions, Authorizer, TransmitterMetadata, Stream, get_authorizer, new_stream,
  checked, send,
}

-- One call of an operation, whatever it returns.
unfoldable pub once :
    (done : Option String)
    → Result String (Option Response)
    → Option Response × Option RetryError × List Step
once (some e) x = (none, some (context_error e), [])
once none (err e) = (none, some (max_retries_exceeded (pos 0) (some e)), call (err e) ∷ [])
once none (ok resp) = (resp, none, call (ok resp) ∷ [])

abbrev pub observed : {F : Type 0} → Returned F → Option Response × Option RetryError × List Step
observed (resp, e, l) = (resp, e, l.steps)

module _ {F : Type 0} (floats : Floats F) (show : ℤ → String) where
  once_lem :
      (cfg : RetryConfig F) (env : ℕ → Round F) (r : Round F) (l : Loop F)
      → l.last_resp ≡ none
      → l.last_err ≡ none
      → l.steps ≡ []
      → cfg.max_retries ≡ pos 0
      → cfg.retryable_status ≡ none
      → (d : Option String) (x : Result String (Option Response))
      → observed (
          unless_done 0 d
            (delay floats 0 r
              (answered floats show cfg.retryable_status x (attempts floats show cfg env 0 1)))
            l)
        ≡ once d x
  unfolding attempts delay answered is_retryable once
  once_lem cfg env r l nr ne ns z m (some e) x = rw (ne, ns) refl
  once_lem cfg env r l nr ne ns z m none (err e) = rw (z, nr, ns) refl
  once_lem cfg env r l nr ne ns z m none (ok none) = rw (nr, ns) refl
  once_lem cfg env r l nr ne ns z m none (ok (some y)) = rw (m, nr, ns) refl

  -- A stream never repeats a request, whatever policy it is made with: unless the context has ended,
  -- the operation is called once, without a delay, and any response, also one of a status that the
  -- policy names, is returned as it is.
  pub new_stream-never_retries :
      (stream_id : String) (m : TransmitterMetadata) (c : StreamConfiguration) (a : Authorizer)
      (policy : RetryConfig F) (headers : Dict (Dict String)) (env : ℕ → Round F)
      → observed
          (do_retry floats show (new_stream floats stream_id m c a policy headers).retry_config env)
        ≡ once (env 0).done (env 0).result
  unfolding do_retry attempts new_stream
  new_stream-never_retries stream_id m c a policy headers env =
      once_lem (new_stream floats stream_id m c a policy headers).retry_config env (env 0) _ refl
        refl refl refl refl (env 0).done (env 0).result

equal_iff : (a b : ℤ) → (eqℤ a b ≡ true) ↔ (a ≡ b)
equal_iff (pos a) (pos b) =
    (λ h. ap pos (ground (arith, h)), λ e. (let same : a ≡ b = cc e in ground (arith, same)))
equal_iff (pos a) (negsuc b) = (λ h. absurd (cc h), λ e. absurd (cc e))
equal_iff (negsuc a) (pos b) = (λ h. absurd (cc h), λ e. absurd (cc e))
equal_iff (negsuc a) (negsuc b) =
    (λ h. ap negsuc (ground (arith, h)), λ e. (let same : a ≡ b = cc e in ground (arith, same)))

module _ {F : Type 0} (floats : Floats F) (show : ℤ → String) (new_request : String → Option String)
    (env : Outgoing → ℕ → Round F) where
  checked_iff :
      (words failure : String) (expected : ℤ) (x : Returned F)
      → ((steps : List Step) × (checked words failure expected x ≡ returns (none, steps)))
        ↔ ((r : Response) × (l : Loop F) × (x ≡ (some r, none, l)) × (r.status_code ≡ expected))
  unfolding checked
  checked_iff words failure expected (resp, some e, l) =
      (λ (steps, h). absurd (cc h), λ (r, l', h, e'). absurd (cc (ap (λ (y : Returned F). y.1) h)))
  checked_iff words failure expected (none, none, l) =
      (λ (steps, h). absurd (cc h), λ (r, l', h, e'). absurd (cc (ap (λ (y : Returned F). y.0) h)))
  checked_iff words failure expected (some r, none, l) =
      elim (Bool-cases (eqℤ r.status_code expected)) [
        | inl same ↦ (
          λ (steps, h). (r, l, refl, (equal_iff r.status_code expected).0 same),
          λ (r', l', h, e'). (l.steps ++ close r ∷ [], rw same refl),
        )
        | inr other ↦ (
          λ (steps, h). absurd (cc (rw other at h)),
          λ (r', l', h, e').
              let same : r ≡ r' = cc (ap (λ (y : Returned F). y.0) h) in
              absurd (cc (other, (equal_iff r.status_code expected).1 (cc (e', same)))),
        )
      ]

  created_iff :
      (s : Stream F) (o : OperationOptions) (words failure : String) (expected : ℤ) (q : Outgoing)
      (e : Option String) (a : Result String Outgoing)
      → new_request q.url ≡ e
      → get_authorizer s o q ≡ a
      → ((steps : List Step) × (send floats show new_request env s o words failure expected q
            ≡ returns (none, steps)))
        ↔ ((new_request q.url ≡ none)
            × (q' : Outgoing) × (get_authorizer s o q ≡ ok q')
            × (r : Response) × (l : Loop F) × (do_retry floats show s.retry_config (env q')
                ≡ (some r, none, l))
            × (r.status_code ≡ expected))
  unfolding send
  created_iff s o words failure expected q (some e) a he ha = (
    λ (steps, h). absurd (cc (rw he at h)),
    λ (h, q', h', r, l, done, status). absurd (cc (he, h)),
  )
  created_iff s o words failure expected q none (err e) he ha = (
    λ (steps, h). absurd (cc (rw (he, ha) at h)),
    λ (h, q', h', r, l, done, status). absurd (cc (ha, h')),
  )
  created_iff s o words failure expected q none (ok q0) he ha =
      let (f, g) =
        checked_iff words failure expected (do_retry floats show s.retry_config (env q0)) in
      (
        λ (steps, h).
            let (r, l, done, status) = f (steps, rw (he, ha) at h) in
            (he, q0, ha, r, l, done, status),
        λ (h, q', h', r, l, done, status).
            let same : q' ≡ q0 = cc (ha, h') in
            let (steps, sent) = g (r, l, rw same at done, status) in (steps, rw (he, ha) sent),
      )

  -- A request succeeds exactly if it could be made and authorized and the loop returns a response of
  -- the expected status.
  pub send_iff :
      (s : Stream F) (o : OperationOptions) (words failure : String) (expected : ℤ) (q : Outgoing)
      → ((steps : List Step) × (send floats show new_request env s o words failure expected q
            ≡ returns (none, steps)))
        ↔ ((new_request q.url ≡ none)
            × (q' : Outgoing) × (get_authorizer s o q ≡ ok q')
            × (r : Response) × (l : Loop F) × (do_retry floats show s.retry_config (env q')
                ≡ (some r, none, l))
            × (r.status_code ≡ expected))
  unfolding send
  send_iff s o words failure expected q =
      created_iff s o words failure expected q (new_request q.url) (get_authorizer s o q) refl refl

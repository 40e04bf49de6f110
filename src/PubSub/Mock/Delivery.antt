-- ===== src/PubSub/Mock/Delivery.antt =====
-- Which messages a pull of ssf-hub/internal/pubsub/mock_client.go hands to its handler.
use mathlib.Core.Logic.{inl, inr}
use mathlib.Core.List.{append-nil, append_assoc}
use caep_dev.Base.{
  ℕ, zero, suc, ◌+◌, ◌≤◌, String, Bool, true, false, not, ◌||◌, List, [], ◌∷◌, ◌++◌, none, some,
  ◌≡◌, refl, sym, ◌∙◌, arith, eq_refl, if◌then◌else◌, Bool-cases, length, length-append, keep, take,
  take-all, All, returns,
}
use caep_dev.Base.Int.{pos}
use caep_dev.Base.Dict.{lookup, put, lookup-put_self}
use caep_dev.Models.Message.{InternalMessage}
use caep_dev.PubSub.Api.{Handler}
use caep_dev.PubSub.Mock.Defs.{
  MockTopic, MockSubscription, MockClient, at_least, message_in_subscription, collect,
  process_messages, pull_internal_messages,
}

-- not yet in the subscription
abbrev pub is_new : List InternalMessage → InternalMessage → Bool
is_new seen m = not (message_in_subscription seen m)

collect-more :
    (seen taken : List InternalMessage) (m : InternalMessage) (ms : List InternalMessage) (n k : ℕ)
    → length taken + suc k ≡ n
    → ((j : ℕ)
        → length (taken ++ m ∷ []) + suc j ≡ n
        → collect seen (pos n) (taken ++ m ∷ []) ms
          ≡ (taken ++ m ∷ []) ++ take (suc j) (keep (is_new seen) ms))
    → (if at_least (suc (length taken)) (pos n)
        then taken ++ m ∷ []
        else collect seen (pos n) (taken ++ m ∷ []) ms)
      ≡ taken ++ m ∷ take k (keep (is_new seen) ms)
collect-more seen taken m ms n zero h ih = ground (arith)
collect-more seen taken m ms n (suc k) h ih =
    let e : at_least (suc (length taken)) (pos n) ≡ false = ground arith in
    rw e (ih k (omega (arith, length-append taken (m ∷ []))) ∙ append_assoc taken (m ∷ []) _)

-- The gathering loop takes the first new messages, in order: with `k + 1` places left, that many.
pub collect-take :
    (seen taken ms : List InternalMessage) (n k : ℕ)
    → length taken + suc k ≡ n
    → collect seen (pos n) taken ms ≡ taken ++ take (suc k) (keep (is_new seen) ms)
unfolding collect keep
collect-take seen taken [] n k h = sym (append-nil taken)
collect-take seen taken (m ∷ ms) n k h = elim (Bool-cases (message_in_subscription seen m)) [
  | inl old ↦ rw (old, collect) (collect-take seen taken ms n k h)
  | inr new ↦
      rw (new, collect)
        (collect-more seen taken m ms n k h (collect-take seen (taken ++ m ∷ []) ms n))
]

-- A handler that never fails and never panics.
pub record Works (S : Type 0) (handler : Handler S) (step : InternalMessage → S → S) : Type 0 where
  pub returned : (m : InternalMessage) (s : S) → handler m s ≡ returns (step m s, none)

abbrev pub run_all : {S : Type 0} → (InternalMessage → S → S) → List InternalMessage → S → S
run_all step [] s = s
run_all step (m ∷ ms) s = run_all step ms (step m s)

module _ {S : Type 0} (handler : Handler S) (step : InternalMessage → S → S)
    (w : Works S handler step) where
  process_messages-works :
      (ms : List InternalMessage) (sub : MockSubscription) (s : S)
      → process_messages handler ms sub s
        ≡ returns (record sub { messages = sub.messages ++ ms }, run_all step ms s, none)
  unfolding process_messages
  process_messages-works [] sub s = rw append-nil refl
  process_messages-works (m ∷ ms) sub s =
      rw (w.returned m s, process_messages)
        (process_messages-works ms (record sub { messages = sub.messages ++ m ∷ [] }) (step m s)
          ∙ rw append_assoc refl)

  -- A pull of at most `n + 1` messages hands the handler the first new messages of the topic, in
  -- order, marks them, and changes no other subscription and no topic.
  pub pull-works :
      (name : String) (n : ℕ) (c : MockClient) (s : S) (sub : MockSubscription) (topic : MockTopic)
      → lookup name c.subscriptions ≡ some sub
      → lookup sub.topic_name c.topics ≡ some topic
      → let batch = take (suc n) (keep (is_new sub.messages) topic.messages) in
        pull_internal_messages name (pos (suc n)) handler c s
        ≡ returns (
          record c {
            subscriptions =
                put name (record sub { messages = sub.messages ++ batch }) c.subscriptions;
          },
          run_all step batch s,
          none,
        )
  unfolding pull_internal_messages
  pull-works name n c s sub topic p q = simp (
    p,
    q,
    collect-take sub.messages [] topic.messages (suc n) n (omega arith),
    process_messages-works,
  )

in-append :
    (xs ys : List InternalMessage) (m : InternalMessage)
    → message_in_subscription (xs ++ ys) m
      ≡ (message_in_subscription xs m || message_in_subscription ys m)
unfolding message_in_subscription
in-append [] ys m = refl
in-append (x ∷ xs) ys m = ground (arith, in-append xs ys m)

keep_of_present :
    (xs ms : List InternalMessage)
    → All (λ m. message_in_subscription xs m ≡ true) ms
    → keep (is_new xs) ms ≡ []
unfolding keep
keep_of_present xs [] h = refl
keep_of_present xs (m ∷ ms) (h, hs) = rw h (keep_of_present xs ms hs)

-- Each message is in `seen`, or among the new ones, which `marked` holds.
marked_present :
    (seen marked ms : List InternalMessage)
    → ((m : InternalMessage)
        → message_in_subscription (keep (is_new seen) ms) m ≡ true
        → message_in_subscription marked m ≡ true)
    → All (λ m. message_in_subscription (seen ++ marked) m ≡ true) ms
unfolding keep message_in_subscription
marked_present seen marked [] h = tt
marked_present seen marked (m ∷ ms) h = elim (Bool-cases (message_in_subscription seen m)) [
  | inl old ↦ (rw (in-append, old) refl, marked_present seen marked ms (λ x p. h x (rw old p)))
  | inr new ↦ (
    rw (in-append, new) (h m (rw (new, eq_refl) refl)),
    marked_present seen marked ms (λ x p. h x (rw new (ground (arith, p)))),
  )
]

-- Once the new messages are marked, none is new.
none_new : (seen ms : List InternalMessage) → keep (is_new (seen ++ keep (is_new seen) ms)) ms ≡ []
none_new seen ms =
    keep_of_present (seen ++ keep (is_new seen) ms) ms
      (marked_present seen (keep (is_new seen) ms) ms (λ m h. h))

module _ {S : Type 0} (handler : Handler S) (step : InternalMessage → S → S)
    (w : Works S handler step) where
  -- After a pull that takes all new messages of a topic, a second pull, on any state of the handler,
  -- hands the handler nothing: with a handler that works, each message is handled once.
  pub pull_twice :
      (name : String) (n : ℕ) (c : MockClient) (s t : S) (sub : MockSubscription)
      (topic : MockTopic)
      → lookup name c.subscriptions ≡ some sub
      → lookup sub.topic_name c.topics ≡ some topic
      → length (keep (is_new sub.messages) topic.messages) ≤ suc n
      → let once = pull_internal_messages name (pos (suc n)) handler c s in
        let handled = run_all step (keep (is_new sub.messages) topic.messages) s in
        (c' : MockClient) × (c'' : MockClient) × (once ≡ returns (c', handled, none))
        × (pull_internal_messages name (pos (suc n)) handler c' t ≡ returns (c'', t, none))
  pull_twice name n c s t sub topic p q fits =
      let new = keep (is_new sub.messages) topic.messages in
      let sub' = record sub { messages = sub.messages ++ new } in
      let c' = record c { subscriptions = put name sub' c.subscriptions } in
      (
        c',
        record c' {
          subscriptions =
              put name (record sub' { messages = sub'.messages ++ [] }) c'.subscriptions;
        },
        pull-works handler step w name n c s sub topic p q ∙ rw (take-all (suc n) new fits) refl,
        pull-works handler step w name n c' t sub' topic (lookup-put_self name sub' c.subscriptions)
              q
            ∙ rw (none_new sub.messages topic.messages) refl,
      )

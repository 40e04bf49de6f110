-- ===== src/PubSub/Mock/Keeps.antt =====
-- A pull of ssf-hub/internal/pubsub/mock_client.go with a handler that keeps an invariant.
use caep_dev.PubSub.Api.{Error}
use caep_dev.PubSub.Mock.Defs.{missing}
use caep_dev.Base.Dict.{AllEntries, AllEntries-lookup}
use caep_dev.Base.{Option, Option-cases}
use caep_dev.Base.{
  ℕ, zero, suc, String, Bool, List, [], ◌∷◌, ◌++◌, none, some, ◌≡◌, refl, arith, Bool-cases, keep,
  take, All, returns,
}
use mathlib.Core.Logic.{inl, inr}
use caep_dev.Base.Int.{pos}
use caep_dev.Base.Dict.{lookup, put}
use caep_dev.Models.Message.{InternalMessage}
use caep_dev.PubSub.Api.{Handler}
use caep_dev.PubSub.Mock.Defs.{
  MockTopic, MockSubscription, MockClient, process_messages, pull_internal_messages,
}
use caep_dev.PubSub.Mock.Delivery.{is_new, collect-take}

All-take :
    (P : InternalMessage → Type 0) (n : ℕ) (ms : List InternalMessage)
    → All P ms
    → All P (take n ms)
All-take P zero ms h = tt
All-take P (suc n) [] h = tt
All-take P (suc n) (m ∷ ms) (h, hs) = (h, All-take P n ms hs)

All-keep :
    (P : InternalMessage → Type 0) (p : InternalMessage → Bool) (ms : List InternalMessage)
    → All P ms
    → All P (keep p ms)
unfolding keep
All-keep P p [] h = tt
All-keep P p (m ∷ ms) (h, hs) = elim (Bool-cases (p m)) [
  | inl y ↦ rw y (h, All-keep P p ms hs)
  | inr y ↦ rw y (All-keep P p ms hs)
]

-- With messages of `P` the handler returns without an error, and keeps `Inv`.
pub record Keeps (S : Type 0) (P : InternalMessage → Type 0) (Inv : S → Type 0)
    (handler : Handler S) : Type 0 where
  pub kept :
      (m : InternalMessage) (s : S)
      → P m
      → Inv s
      → (s' : S) × (handler m s ≡ returns (s', none)) × Inv s'

module _ {S : Type 0} {P : InternalMessage → Type 0} {Inv : S → Type 0} (handler : Handler S)
    (keeps : Keeps S P Inv handler) where
  process_messages-Keeps :
      (ms : List InternalMessage) (sub : MockSubscription) (s : S)
      → All P ms
      → Inv s
      → (sub' : MockSubscription) × (s' : S) × (process_messages handler ms sub s
          ≡ returns (sub', s', none))
        × Inv s'
  unfolding process_messages
  process_messages-Keeps [] sub s h i = (sub, s, refl, i)
  process_messages-Keeps (m ∷ ms) sub s (h, hs) i =
      let (s', same, i') = keeps.kept m s h i in
      let (sub'', s'', rest, i'') =
        process_messages-Keeps ms (record sub { messages = sub.messages ++ m ∷ [] }) s' hs i' in
      (sub'', s'', rw (same, process_messages) rest, i'')

  -- A pull from a topic whose messages are all of `P` returns without an error, keeps `Inv`, and
  -- leaves the topics alone.
  pub pull-Keeps :
      (name : String) (n : ℕ) (c : MockClient) (s : S) (sub : MockSubscription) (topic : MockTopic)
      → lookup name c.subscriptions ≡ some sub
      → lookup sub.topic_name c.topics ≡ some topic
      → All P topic.messages
      → Inv s
      → (c' : MockClient) × (s' : S) × (pull_internal_messages name (pos (suc n)) handler c s
          ≡ returns (c', s', none))
        × (c'.topics ≡ c.topics)
        × Inv s'
  unfolding pull_internal_messages
  pull-Keeps name n c s sub topic p q h i =
      let batch = take (suc n) (keep (is_new sub.messages) topic.messages) in
      let (sub', s', same, i') =
        process_messages-Keeps batch sub s
          (All-take P (suc n) _ (All-keep P (is_new sub.messages) topic.messages h)) i in
      (
        record c { subscriptions = put name sub' c.subscriptions },
        s',
        simp (p, q, collect-take sub.messages [] topic.messages (suc n) n (omega arith), same),
        refl,
        i',
      )

  -- A pull under any name, from topics whose messages are all of `P`, returns, keeps `Inv`, and
  -- leaves the topics and the hub instance alone.
  pub pull-Keeps_any :
      (name : String) (n : ℕ) (c : MockClient) (s : S)
      → AllEntries (λ k (t : MockTopic). All P t.messages) c.topics
      → Inv s
      → (c' : MockClient) × (s' : S) × (e : Option Error) × (pull_internal_messages name
            (pos (suc n))
            handler
            c
            s
          ≡ returns (c', s', e))
        × (c'.topics ≡ c.topics)
        × (c'.hub_instance_id ≡ c.hub_instance_id)
        × Inv s'
  unfolding pull_internal_messages
  pull-Keeps_any name n c s h i = elim (Option-cases (lookup name c.subscriptions)) [
    | inl p ↦ (c, s, some (missing "subscription " name), rw p refl, refl, refl, i)
    | inr (sub, p) ↦ elim (Option-cases (lookup sub.topic_name c.topics)) [
      | inl q ↦ (c, s, some (missing "topic " sub.topic_name), rw (p, q) refl, refl, refl, i)
      | inr (topic, q) ↦
          let batch = take (suc n) (keep (is_new sub.messages) topic.messages) in
          let own =
            AllEntries-lookup (λ k (t : MockTopic). All P t.messages) sub.topic_name topic c.topics
              h q in
          let (sub', s', same, i') =
            process_messages-Keeps batch sub s
              (All-take P (suc n) _ (All-keep P (is_new sub.messages) topic.messages own)) i in
          (
            record c { subscriptions = put name sub' c.subscriptions },
            s',
            none,
            simp (p, q, collect-take sub.messages [] topic.messages (suc n) n (omega arith), same),
            refl,
            refl,
            i',
          )
    ]
  ]

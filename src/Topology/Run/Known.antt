-- ===== src/Topology/Run/Known.antt =====
-- runGroups publishes only on topics that the node has joined, when the calls of Listen have
-- subscribed in time.
use p2p_tests.Prelude.{
  ℕ, ◌≡◌, ap, refl, Bool, Option, none, List, [], ◌∷◌, ◌++◌, some, Text, codes, Map, keys, lookup,
  text_eq, is_some, true, In, All, map, inl, inr, Bool-cases, ◌==◌,
}
use p2p_tests.Prelude.Int.{ℤ}
use p2p_tests.Utils.Generate.{is_positive}
use p2p_tests.Topology.Errors.{Result, GoError}
use p2p_tests.Topology.Clusters.{Clusters}
use p2p_tests.Topology.Assignment.{assign}
use p2p_tests.Topology.Assignment.Topics.{assign-HasTopic}
use p2p_tests.Topology.TopicManager.Interface.{Library}
use p2p_tests.Topology.TopicManager.{Manager, publish}
use p2p_tests.Topology.TopicManager.History.{IsCovered}
use p2p_tests.Topology.Listeners.{group_topics, start_all}
use p2p_tests.Topology.Listeners.Once.{IsClean}
use p2p_tests.Topology.Listeners.Joined.{start_all-joined}
use p2p_tests.Topology.Sending.{
  Sending, prepare, ready, send_group, report_group, listen_all, or_empty, send_groups,
  group_rounds, to_int32,
}
use p2p_tests.Topology.Run.{nothing_sent}
use p2p_tests.Topology.Sending.Effects.{Passes}
use p2p_tests.Topology.Sending.Groups.{send_groups-Sends, group_rounds-sends}

lookup-In : {A : Type 0} (k : Text) (m : Map Text A) → is_some (lookup k m) ≡ true → In k (keys m)
unfolding lookup
lookup-In k [] h = cc
lookup-In k ((j, a) ∷ m) h = elim (Bool-cases (k == j)) [
  | inl same ↦ inl ((text_eq.beq_iff k j).0 same)
  | inr other ↦ inr (lookup-In k m (rw other at h))
]

In-map : (f : Text → Text) (a : Text) (xs : List Text) → In a xs → In (f a) (map f xs)
In-map f a [] h = h
In-map f a (x ∷ xs) (inl e) = inl (ap f e)
In-map f a (x ∷ xs) (inr h) = inr (In-map f a xs h)

found : {A : Type 0} (o : Option A) → is_some o ≡ true → (a : A) × (o ≡ some a)
found none h = cc
found (some a) h = (a, refl)

-- The topic of a validator's group.
abbrev pub topic_of : Map Text Text → Text → Text
topic_of validator_groups pk = codes "test." ++ or_empty (lookup pk validator_groups)

-- It is one of the topics that the instance listens to.
topic_of-In :
    (my_oid : ℕ) (cls : Clusters) (pk : Text)
    → In pk (assign my_oid cls).my_validators
    → In
        (topic_of (assign my_oid cls).validator_groups pk)
        (group_topics (assign my_oid cls).my_groups)
unfolding group_topics
topic_of-In my_oid cls pk h =
    let (gid, named, listed) = assign-HasTopic my_oid cls pk h in
    rw named (In-map (λ g. codes "test." ++ g) gid _ (lookup-In gid _ listed))

module _ {M : Type 0} (decode_hex : Text → Result Text) (ssv_message : Text → Text → M)
    (encode : M → Result Text) (name : Text)
    {State Topic Sub Params Validator TopicOpt SubOpt Peer : Type 0}
    (lib : Library State Topic Sub Params Validator TopicOpt SubOpt Peer)
    (validator : Text → ℤ → Validator) (id : Text) where
  -- What the library answers to a publication, as Publish passes it on.
  abbrev pub answer :
      Topic
      → Text
      → Manager State Topic Sub Params
      → Manager State Topic Sub Params × Option GoError
  answer topic payload tm =
      let (ps, e) = lib.publish topic payload tm.ps in (record tm { ps = ps }, e)

  -- The body of the loop publishes under the topic of the validator's group.
  send_group-answer :
      (vg : Map Text Text) (j : ℕ) (pk payload : Text) (topic : Topic)
      (s : Sending State Topic Sub Params)
      → prepare decode_hex ssv_message encode name j pk ≡ ready payload
      → lookup (topic_of vg pk) s.tm.topics ≡ some topic
      → send_group decode_hex ssv_message encode name lib validator id vg j pk s
        ≡ report_group decode_hex ssv_message encode name lib validator id
            (or_empty (lookup pk vg))
            pk
            j
            (answer topic payload s.tm)
            s
  unfolding send_group publish
  send_group-answer vg j pk payload topic s good here = rw (good, here, send_group, publish) refl

  pub group_rounds-joined :
      (my_oid : ℕ) (cls : Clusters) (ts : List Text) (tm : Manager State Topic Sub Params)
      (latency_max : ℤ) (draw : ℕ → ℕ) (sync : Text → Bool) (late : ℕ → ℕ → List Text) (n j : ℕ)
      (sent : List Text) (pk payload : Text)
      → IsCovered tm.topics tm.subs
      → ((t : Text) → In t (group_topics (assign my_oid cls).my_groups) → In t ts)
      → All IsClean (start_all lib validator ts tm).1
      → is_positive (to_int32 latency_max) ≡ true
      → Passes sync
      → In pk (assign my_oid cls).my_validators
      → prepare decode_hex ssv_message encode name j pk ≡ ready payload
      → let a = assign my_oid cls in
        let started = listen_all lib validator ts (nothing_sent tm) in
        (s : Sending State Topic Sub Params) × (group_rounds decode_hex ssv_message encode name lib
            validator id a.validator_groups latency_max draw sync late a.my_validators n 0 started
          ≡ some s)
        × (let p =
              send_groups decode_hex ssv_message encode name lib validator id a.validator_groups j
                (late j)
                sent
                s in
            (topic : Topic) × (lookup (topic_of a.validator_groups pk) p.tm.topics ≡ some topic)
            × (send_group decode_hex ssv_message encode name lib validator id a.validator_groups j
                  pk p
                ≡ report_group decode_hex ssv_message encode name lib validator id
                    (or_empty (lookup pk a.validator_groups))
                    pk
                    j
                    (answer topic payload p.tm)
                    p))
  unfolding listen_all
  group_rounds-joined my_oid cls ts tm latency_max draw sync late n j sent pk payload c all clean h
        passes mine good =
      let a = assign my_oid cls in
      let (s, done, listed, kept, same) =
        group_rounds-sends decode_hex ssv_message encode name lib validator id a.validator_groups
          latency_max draw sync late a.my_validators n 0 _ h passes in
      let later =
        send_groups-Sends decode_hex ssv_message encode name lib validator id a.validator_groups j
          (late j) sent s in
      let p =
        send_groups decode_hex ssv_message encode name lib validator id a.validator_groups j
          (late j) sent s in
      let held = later.topics _ (
        same _ (
          start_all-joined lib validator (topic_of a.validator_groups pk) ts tm c
            (all _ (topic_of-In my_oid cls pk mine)) clean)) in
      let (topic, here) = found (lookup (topic_of a.validator_groups pk) p.tm.topics) held in
      (s, done, (topic, here, send_group-answer a.validator_groups j pk payload topic p good here))

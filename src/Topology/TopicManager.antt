-- ===== src/Topology/TopicManager.antt =====
-- plans/topology/topic_manager.go. The pubsub library is a parameter: its state, its handles and the
-- calls that the manager makes. Join, Leave and Subscribe hold the manager's lock, so each is one
-- step. Publish and ListPeers give the lock back once they have looked the topic up; the model takes
-- the library's call in the same step, so what another method does in between is left out.
pub mod Interface
pub mod Maps
pub mod Idempotence
pub mod History
pub mod Leak
pub mod Persistence
pub mod Abstract
pub mod Refinement
pub mod RoundTrip
use p2p_tests.Prelude.{
  ℕ, List, [], ◌++◌, Option, none, some, Text, codes, Map, lookup, insert, delete, text_eq, Bool,
  true, false,
}
use p2p_tests.Prelude.Int.{ℤ}
use p2p_tests.Topology.Errors.{GoError, external, message, wrapped, Result, ok, err}
use Interface.{Library}

-- topicManager, less its mutex; `ps` is the state behind the pointer to the library's router.
pub record Manager (State Topic Sub Params : Type 0) : Type 0 where
  pub ps : State
  pub topics : Map Text Topic
  pub subs : Map Text Sub
  pub score_params : Text → Option Params
  pub validation_latency : ℤ

abbrev pub not_found : Text → GoError
not_found t = message (codes "topic (" ++ t ++ codes ") not found")

abbrev pub bad_score : GoError → Text → GoError
bad_score e t = wrapped e (codes "could not set topic score params for topic " ++ t)

abbrev pub bad_validator : GoError → Text → GoError
bad_validator e t = wrapped e (codes "could not set msg validator for topic " ++ t)

-- newTopicManager: a missing factory is one that gives no parameters.
unfoldable pub new_topic_manager :
    {State Topic Sub Params : Type 0}
    → State
    → Option (Text → Option Params)
    → ℤ
    → Manager State Topic Sub Params
new_topic_manager ps none latency = record {
  ps = ps;
  topics = [];
  subs = [];
  score_params = λ t. none;
  validation_latency = latency;
}
new_topic_manager ps (some f) latency = record {
  ps = ps;
  topics = [];
  subs = [];
  score_params = f;
  validation_latency = latency;
}

module _ {State Topic Sub Params Validator TopicOpt SubOpt Peer : Type 0}
    (lib : Library State Topic Sub Params Validator TopicOpt SubOpt Peer)
    (validator : Text → ℤ → Validator) where
  -- ListPeers.
  unfoldable pub list_peers : Text → Manager State Topic Sub Params → List Peer
  list_peers t tm = elim (lookup t tm.topics) [
    | none ↦ []
    | some topic ↦ lib.list_peers topic tm.ps
  ]

  -- Pubsub, as the state of the router.
  unfoldable pub pubsub : Manager State Topic Sub Params → State
  pubsub tm = tm.ps

  -- Publish.
  unfoldable pub publish :
      Text → Text → Manager State Topic Sub Params → Manager State Topic Sub Params × Option GoError
  publish t payload tm = elim (lookup t tm.topics) [
    | none ↦ (tm, some (not_found t))
    | some topic ↦ let (ps, e) = lib.publish topic payload tm.ps in (record tm { ps = ps }, e)
  ]

  -- The end of join: the validator is registered anew and the topic is kept.
  unfoldable pub set_validator :
      Text
      → Topic
      → Manager State Topic Sub Params
      → Manager State Topic Sub Params × Option Topic × Option GoError
  set_validator t topic tm =
      let (ps, e) =
        lib.register_validator t (validator t tm.validation_latency)
          (lib.unregister_validator t tm.ps) in
      elim e [
        | some cause ↦ (record tm { ps = ps }, some topic, some (bad_validator cause t))
        | none ↦ (record tm { ps = ps; topics = insert t topic tm.topics }, some topic, none)
      ]

  -- The middle of join: the score parameters, if the factory gives any.
  unfoldable pub set_scoring :
      Text
      → Topic
      → Manager State Topic Sub Params
      → Manager State Topic Sub Params × Option Topic × Option GoError
  set_scoring t topic tm = elim (tm.score_params t) [
    | none ↦ set_validator t topic tm
    | some p ↦
        let (ps, e) = lib.set_score_params topic p tm.ps in
        elim e [
          | some cause ↦ (record tm { ps = ps }, some topic, some (bad_score cause t))
          | none ↦ set_validator t topic (record tm { ps = ps })
        ]
  ]

  -- join, which the caller runs under the lock. On two of its errors it returns the topic as well.
  unfoldable pub join_topic :
      Text
      → List TopicOpt
      → Manager State Topic Sub Params
      → Manager State Topic Sub Params × Option Topic × Option GoError
  join_topic t opts tm =
      let (ps, r) = lib.join t opts tm.ps in
      elim r [
        | err e ↦ (record tm { ps = ps }, none, some e)
        | ok topic ↦ set_scoring t topic (record tm { ps = ps })
      ]

  -- Join.
  unfoldable pub join :
      Text
      → List TopicOpt
      → Manager State Topic Sub Params
      → Manager State Topic Sub Params × Option Topic × Option GoError
  join t opts tm = elim (lookup t tm.topics) [
    | some topic ↦ (tm, some topic, none)
    | none ↦ join_topic t opts tm
  ]

  -- The first half of Leave: the subscription is forgotten and cancelled.
  unfoldable pub drop_sub : Text → Manager State Topic Sub Params → Manager State Topic Sub Params
  drop_sub t tm = elim (lookup t tm.subs) [
    | none ↦ tm
    | some sub ↦ record tm { ps = lib.cancel sub tm.ps; subs = delete t tm.subs }
  ]

  -- The second half of Leave: the topic is forgotten and closed.
  unfoldable pub drop_topic :
      Text
      → Manager State Topic Sub Params
      → Manager State Topic Sub Params × Option Topic × Option GoError
  drop_topic t tm = elim (lookup t tm.topics) [
    | none ↦ (tm, none, none)
    | some topic ↦
        let (ps, e) = lib.close topic tm.ps in
        (record tm { ps = ps; topics = delete t tm.topics }, some topic, e)
  ]

  -- Leave.
  unfoldable pub leave :
      Text
      → Manager State Topic Sub Params
      → Manager State Topic Sub Params × Option Topic × Option GoError
  leave t tm = drop_topic t (drop_sub t tm)

  -- The end of Subscribe: a subscription of the topic is opened and kept.
  unfoldable pub open_sub :
      Text
      → List SubOpt
      → Topic
      → Manager State Topic Sub Params
      → Manager State Topic Sub Params × Option Sub × Bool × Option GoError
  open_sub t opts topic tm =
      let (ps, r) = lib.subscribe topic opts tm.ps in
      elim r [
        | err e ↦ (record tm { ps = ps }, none, false, some e)
        | ok sub ↦ (record tm { ps = ps; subs = insert t sub tm.subs }, some sub, false, none)
      ]

  -- What Subscribe does with the outcome of join. A join without error has a topic.
  unfoldable pub after_join :
      Text
      → List SubOpt
      → Manager State Topic Sub Params
      → Option Topic
      → Option GoError
      → Manager State Topic Sub Params × Option Sub × Bool × Option GoError
  after_join t opts tm topic (some e) = (tm, none, false, some e)
  after_join t opts tm (some topic) none = open_sub t opts topic tm
  after_join t opts tm none none = (tm, none, false, none)

  -- Subscribe. The flag says that the subscription was there before.
  unfoldable pub subscribe :
      Text
      → List SubOpt
      → Manager State Topic Sub Params
      → Manager State Topic Sub Params × Option Sub × Bool × Option GoError
  subscribe t opts tm = elim (lookup t tm.subs) [
    | some sub ↦ (tm, some sub, true, none)
    | none ↦ elim (lookup t tm.topics) [
      | some topic ↦ open_sub t opts topic tm
      | none ↦ let (tm', topic, e) = join_topic t [] tm in after_join t opts tm' topic e
    ]
  ]

-- ===== src/Topology/TopicManager/RoundTrip.antt =====
-- Leaving a topic undoes subscribing to it.
use p2p_tests.Prelude.{
  ◌≡◌, refl, List, none, Text, lookup, lookup-delete, ◌==◌, text_eq, inl, inr, Bool-cases,
}
use p2p_tests.Prelude.Int.{ℤ}
use p2p_tests.Topology.TopicManager.Interface.{Library}
use p2p_tests.Topology.TopicManager.{Manager, leave, subscribe}
use p2p_tests.Topology.TopicManager.Maps.{leave-Leaves, subscribe-Subscribes}
use p2p_tests.Topology.TopicManager.Refinement.{subscribe-others}

module _ {State Topic Sub Params Validator TopicOpt SubOpt Peer : Type 0}
    (lib : Library State Topic Sub Params Validator TopicOpt SubOpt Peer)
    (validator : Text → ℤ → Validator) where
  -- Subscribe and then Leave of a topic that the manager did not have leave its maps as they were at
  -- every topic, whatever errors the two calls return: also a topic that was joined on the way to a
  -- subscription that is refused is forgotten.
  pub leave-subscribe :
      (t : Text) (opts : List SubOpt) (tm : Manager State Topic Sub Params) (u : Text)
      → lookup t tm.topics ≡ none
      → lookup t tm.subs ≡ none
      → let left = (leave lib validator t (subscribe lib validator t opts tm).0).0 in
        (lookup u left.topics ≡ lookup u tm.topics) × (lookup u left.subs ≡ lookup u tm.subs)
  leave-subscribe t opts tm u no_topic no_sub =
      let r = subscribe lib validator t opts tm in
      let l = leave-Leaves lib validator t r.0 in
      elim (Bool-cases (u == t)) [
        | inl same ↦
            let e : u ≡ t = (text_eq.beq_iff u t).0 same in
            (
              rw (l.topics, lookup-delete t u r.0.topics, same, e, no_topic) refl,
              rw (l.subs, lookup-delete t u r.0.subs, same, e, no_sub) refl,
            )
        | inr other ↦ (
          rw (l.topics, lookup-delete t u r.0.topics, other)
              ((subscribe-Subscribes lib validator t opts tm).others u other),
          rw (l.subs, lookup-delete t u r.0.subs, other)
              (subscribe-others lib validator t opts tm u other),
        )
      ]

-- ===== src/Topology/TopicManager/History.antt =====
-- Any sequence of calls on a manager: the calls as data, one step for each, and the invariant of the
-- two maps.
use p2p_tests.Prelude.{
  ◌≡◌, refl, List, [], ◌∷◌, Option, none, some, Text, Map, lookup, delete, lookup-insert,
  lookup-delete, ◌==◌, text_eq, is_some, true, arith, inl, inr, Option-cases, Bool-cases,
}
use p2p_tests.Prelude.Int.{ℤ}
use p2p_tests.Topology.TopicManager.Interface.{Library}
use p2p_tests.Topology.TopicManager.{
  Manager, new_topic_manager, join_topic, join, leave, subscribe, publish,
}
use p2p_tests.Topology.TopicManager.Maps.{
  join_topic-Joins, insert_some, leave-Leaves, subscribe-Subscribes,
}

pub data Call (TopicOpt SubOpt : Type 0) : Type 0 where
  joins : Text → List TopicOpt → Call TopicOpt SubOpt
  leaves : Text → Call TopicOpt SubOpt
  subscribes : Text → List SubOpt → Call TopicOpt SubOpt
  publishes : Text → Text → Call TopicOpt SubOpt

-- A topic with a subscription is joined.
abbrev pub IsCovered : {Topic Sub : Type 0} → Map Text Topic → Map Text Sub → Type 0
IsCovered topics subs =
    (u : Text) → is_some (lookup u subs) ≡ true → is_some (lookup u topics) ≡ true

insert_some-IsCovered :
    {Topic Sub : Type 0} (t : Text) (o : Option Topic) (topics : Map Text Topic)
    (subs : Map Text Sub)
    → IsCovered topics subs
    → IsCovered (insert_some t o topics) subs
insert_some-IsCovered t none topics subs c = c
insert_some-IsCovered t (some h) topics subs c =
    λ u e. ground (arith, lookup-insert t u h topics, c u e)

delete-IsCovered :
    {Topic Sub : Type 0} (t : Text) (topics : Map Text Topic) (subs : Map Text Sub)
    → IsCovered topics subs
    → IsCovered (delete t topics) (delete t subs)
delete-IsCovered t topics subs c =
    λ u e. ground (arith, lookup-delete t u topics, lookup-delete t u subs, c u)

sub-IsCovered :
    {Topic Sub : Type 0} (t : Text) (o : Option Sub) (topics : Map Text Topic) (subs : Map Text Sub)
    → is_some (lookup t topics) ≡ true
    → IsCovered topics subs
    → IsCovered topics (insert_some t o subs)
sub-IsCovered t none topics subs h c = c
sub-IsCovered t (some s) topics subs h c =
    λ u e. ground (arith, lookup-insert t u s subs, c u, text_eq.beq_iff u t)

module _ {State Topic Sub Params Validator TopicOpt SubOpt Peer : Type 0}
    (lib : Library State Topic Sub Params Validator TopicOpt SubOpt Peer)
    (validator : Text → ℤ → Validator) where
  unfoldable pub step :
      Manager State Topic Sub Params → Call TopicOpt SubOpt → Manager State Topic Sub Params
  step tm (joins t opts) = (join lib validator t opts tm).0
  step tm (leaves t) = (leave lib validator t tm).0
  step tm (subscribes t opts) = (subscribe lib validator t opts tm).0
  step tm (publishes t payload) = (publish lib validator t payload tm).0

  unfoldable pub run :
      Manager State Topic Sub Params → List (Call TopicOpt SubOpt) → Manager State Topic Sub Params
  run tm [] = tm
  run tm (c ∷ cs) = run (step tm c) cs

  join-IsCovered :
      (t : Text) (opts : List TopicOpt) (tm : Manager State Topic Sub Params)
      → IsCovered tm.topics tm.subs
      → let tm' = (join lib validator t opts tm).0 in IsCovered tm'.topics tm'.subs
  unfolding join
  join-IsCovered t opts tm c = elim (Option-cases (lookup t tm.topics)) [
    | inr (h, here) ↦ rw (here, join) c
    | inl gone ↦
        let j = join_topic-Joins lib validator t opts tm in
        rw (gone, join, j.subs)
          (elim (Option-cases (join_topic lib validator t opts tm).2) [
            | inl clean ↦ rw (j.stored clean) (insert_some-IsCovered t _ tm.topics tm.subs c)
            | inr (e, bad) ↦ rw (j.untouched (rw bad refl)) c
          ])
  ]

  subscribe-IsCovered :
      (t : Text) (opts : List SubOpt) (tm : Manager State Topic Sub Params)
      → IsCovered tm.topics tm.subs
      → let tm' = (subscribe lib validator t opts tm).0 in IsCovered tm'.topics tm'.subs
  subscribe-IsCovered t opts tm c =
      let r = subscribe lib validator t opts tm in
      let f = subscribe-Subscribes lib validator t opts tm in
      let widened : IsCovered r.0.topics tm.subs = λ u e. elim (Bool-cases (u == t)) [
        | inr ne ↦ rw (f.others u ne) (c u e)
        | inl same ↦
            let q : u ≡ t = (text_eq.beq_iff u t).0 same in
            let old : is_some (lookup t tm.topics) ≡ true = rw q at (c u e) in
            rw (q, f.kept old) old
      ] in
      elim (Option-cases r.3) [
        | inr (e, bad) ↦ rw (f.failed (rw bad refl)).1 widened
        | inl clean ↦ elim (Option-cases (lookup t tm.subs)) [
          | inr (s, here) ↦ rw (f.again (rw here refl)).0 c
          | inl gone ↦
              rw (f.stored gone clean)
                (sub-IsCovered t _ r.0.topics tm.subs (f.joined clean gone) widened)
        ]
      ]

  publish-IsCovered :
      (t payload : Text) (tm : Manager State Topic Sub Params)
      → IsCovered tm.topics tm.subs
      → let tm' = (publish lib validator t payload tm).0 in IsCovered tm'.topics tm'.subs
  unfolding publish
  publish-IsCovered t payload tm c = elim (Option-cases (lookup t tm.topics)) [
    | inl gone ↦ rw (gone, publish) c
    | inr (h, here) ↦ rw (here, publish) c
  ]

  -- Every call keeps it that a topic with a subscription is joined.
  pub step-IsCovered :
      (tm : Manager State Topic Sub Params) (c : Call TopicOpt SubOpt)
      → IsCovered tm.topics tm.subs
      → IsCovered (step tm c).topics (step tm c).subs
  unfolding step
  step-IsCovered tm (joins t opts) c = join-IsCovered t opts tm c
  step-IsCovered tm (leaves t) c =
      let l = leave-Leaves lib validator t tm in
      rw (l.topics, l.subs) (delete-IsCovered t tm.topics tm.subs c)
  step-IsCovered tm (subscribes t opts) c = subscribe-IsCovered t opts tm c
  step-IsCovered tm (publishes t payload) c = publish-IsCovered t payload tm c

  pub run-IsCovered :
      (tm : Manager State Topic Sub Params) (cs : List (Call TopicOpt SubOpt))
      → IsCovered tm.topics tm.subs
      → IsCovered (run tm cs).topics (run tm cs).subs
  unfolding run
  run-IsCovered tm [] c = c
  run-IsCovered tm (call ∷ cs) c = run-IsCovered (step tm call) cs (step-IsCovered tm call c)

  -- After any calls on a new manager, whatever errors they met, every topic with a subscription is
  -- joined in the manager.
  pub run-new_topic_manager-IsCovered :
      (ps : State) (score : Option (Text → Option Params)) (latency : ℤ)
      (cs : List (Call TopicOpt SubOpt))
      → let tm = run (new_topic_manager ps score latency) cs in IsCovered tm.topics tm.subs
  unfolding new_topic_manager lookup
  run-new_topic_manager-IsCovered ps none latency cs = run-IsCovered _ cs (λ u e. cc)
  run-new_topic_manager-IsCovered ps (some f) latency cs = run-IsCovered _ cs (λ u e. cc)

-- ===== src/Topology/TopicManager/Persistence.antt =====
-- A leaked topic stays leaked: no later call on the manager joins it, subscribes to it or gives it
-- back to the library.
use p2p_tests.Prelude.{
  ◌≡◌, ◌≢◌, refl, ap, ◌∙◌, List, [], ◌∷◌, Option, none, some, Text, lookup, lookup-insert,
  lookup-delete, ◌==◌, text_eq, is_some, Bool, true, arith, inl, inr, Option-cases, Bool-cases,
}
use p2p_tests.Prelude.Int.{ℤ}
use p2p_tests.Topology.Errors.{GoError}
use p2p_tests.Topology.TopicManager.Interface.{Library, Joining, Result-cases}
use p2p_tests.Topology.TopicManager.{
  Manager, join_topic, join, drop_sub, drop_topic, leave, open_sub, after_join, subscribe, publish,
  not_found,
}
use p2p_tests.Topology.TopicManager.Maps.{join_topic-Joins, leave-Leaves, insert_some-other}
use p2p_tests.Topology.TopicManager.History.{Call, joins, leaves, subscribes, publishes, step, run}
use p2p_tests.Topology.TopicManager.Leak.{
  IsLeaked, join_topic-held, join_topic-named, join_topic_leaked, join_topic-IsLeaked,
}

module _ {State Topic Sub Params Validator TopicOpt SubOpt Peer : Type 0}
    (lib : Library State Topic Sub Params Validator TopicOpt SubOpt Peer)
    (validator : Text → ℤ → Validator) (joined : State → Text → Bool) (name : Topic → Text)
    (laws : Joining lib joined name) where
  abbrev Leaked : Text → Manager State Topic Sub Params → Type 0
  Leaked = IsLeaked lib validator joined name laws

  -- A join of any topic keeps another topic's leak; a join of the leaked topic fails.
  join_topic-Leaked :
      (t u : Text) (opts : List TopicOpt) (tm : Manager State Topic Sub Params)
      → Leaked t tm
      → Leaked t (join_topic lib validator u opts tm).0
  join_topic-Leaked t u opts tm l =
      let j = join_topic-Joins lib validator u opts tm in
      record {
        held = join_topic-held lib validator joined name laws u t opts tm l.held;
        lost = elim (Bool-cases (t == u)) [
          | inl same ↦
              let q : t ≡ u = (text_eq.beq_iff t u).0 same in
              let f = join_topic_leaked lib validator joined name laws u opts tm (rw q at l.held) in
              rw f.1 l.lost
          | inr ne ↦ elim (Option-cases (join_topic lib validator u opts tm).2) [
            | inl clean ↦
                rw (j.stored clean) (insert_some-other lib validator u t _ tm.topics ne ∙ l.lost)
            | inr (e, bad) ↦ rw (j.untouched (rw bad refl)) l.lost
          ]
        ];
        unsubscribed = rw j.subs l.unsubscribed;
        named = λ v h e. join_topic-named lib validator joined name laws u v opts h tm l.named e;
      }

  join-Leaked :
      (t u : Text) (opts : List TopicOpt) (tm : Manager State Topic Sub Params)
      → Leaked t tm
      → Leaked t (join lib validator u opts tm).0
  unfolding join
  join-Leaked t u opts tm l = elim (Option-cases (lookup u tm.topics)) [
    | inr (h, here) ↦ rw (here, join) l
    | inl gone ↦ rw (gone, join) (join_topic-Leaked t u opts tm l)
  ]

  drop_sub-held :
      (t u : Text) (tm : Manager State Topic Sub Params)
      → joined (drop_sub lib validator u tm).ps t ≡ joined tm.ps t
  unfolding drop_sub
  drop_sub-held t u tm = grind (arith, laws.cancel_kept)

  drop_sub-topics :
      (u : Text) (tm : Manager State Topic Sub Params)
      → (drop_sub lib validator u tm).topics ≡ tm.topics
  unfolding drop_sub
  drop_sub-topics u tm = ground arith

  -- Closing the handle of one topic keeps another joined.
  drop_topic-held :
      (t u : Text) (tm : Manager State Topic Sub Params)
      → lookup t tm.topics ≡ none
      → ((v : Text) (h : Topic) → lookup v tm.topics ≡ some h → name h ≡ v)
      → joined tm.ps t ≡ true
      → joined (drop_topic lib validator u tm).0.ps t ≡ true
  unfolding drop_topic
  drop_topic-held t u tm lost named held = elim (Option-cases (lookup u tm.topics)) [
    | inl gone ↦ rw (gone, drop_topic) held
    | inr (h, here) ↦
        let ne : t ≢ u = λ q. cc (here, lost, ap (λ v. lookup v tm.topics) q) in
        rw (here, drop_topic)
          (ground (arith, laws.close_kept h tm.ps t, named u h here, text_eq.beq_iff t (name h)))
  ]

  leave-Leaked :
      (t u : Text) (tm : Manager State Topic Sub Params)
      → Leaked t tm
      → Leaked t (leave lib validator u tm).0
  unfolding leave
  leave-Leaked t u tm l =
      let v = leave-Leaves lib validator u tm in
      let same = drop_sub-topics u tm in
      record {
        held =
            drop_topic-held t u (drop_sub lib validator u tm) (rw same l.lost) (rw same l.named)
              (drop_sub-held t u tm ∙ l.held);
        lost = rw v.topics (lookup-delete u t tm.topics ∙ ground (arith, l.lost));
        unsubscribed = rw v.subs (lookup-delete u t tm.subs ∙ ground (arith, l.unsubscribed));
        named =
            λ w h e. l.named w h (ground (arith, rw (v.topics, lookup-delete u w tm.topics) at e));
      }

  open_sub-Leaked :
      (t u : Text) (opts : List SubOpt) (h : Topic) (tm : Manager State Topic Sub Params)
      → t ≢ u
      → Leaked t tm
      → Leaked t (open_sub lib validator u opts h tm).0
  unfolding open_sub
  open_sub-Leaked t u opts h tm ne l = elim (Result-cases (lib.subscribe h opts tm.ps).1) [
    | inr (e, bad) ↦
        rw (bad, open_sub)
          (record {
            held = laws.subscribe_kept h opts tm.ps t ∙ l.held;
            lost = l.lost;
            unsubscribed = l.unsubscribed;
            named = l.named;
          })
    | inl (s, good) ↦
        rw (good, open_sub)
          (record {
            held = laws.subscribe_kept h opts tm.ps t ∙ l.held;
            lost = l.lost;
            unsubscribed =
                lookup-insert u t s tm.subs ∙ ground (arith, l.unsubscribed, text_eq.beq_iff t u);
            named = l.named;
          })
  ]

  after_join-Leaked :
      (t u : Text) (opts : List SubOpt) (tm : Manager State Topic Sub Params) (h : Option Topic)
      (e : Option GoError)
      → (e ≡ none → t ≢ u)
      → Leaked t tm
      → Leaked t (after_join lib validator u opts tm h e).0
  unfolding after_join
  after_join-Leaked t u opts tm h (some e) ne l = l
  after_join-Leaked t u opts tm none none ne l = l
  after_join-Leaked t u opts tm (some h) none ne l = open_sub-Leaked t u opts h tm (ne refl) l

  subscribe-Leaked :
      (t u : Text) (opts : List SubOpt) (tm : Manager State Topic Sub Params)
      → Leaked t tm
      → Leaked t (subscribe lib validator u opts tm).0
  unfolding subscribe
  subscribe-Leaked t u opts tm l = elim (Option-cases (lookup u tm.subs)) [
    | inr (s, here) ↦ rw (here, subscribe) l
    | inl no_sub ↦ elim (Option-cases (lookup u tm.topics)) [
      | inr (h, here) ↦
          rw (no_sub, here, subscribe)
            (open_sub-Leaked t u opts h tm (λ q. cc (here, l.lost, ap (λ v. lookup v tm.topics) q))
              l)
      | inl gone ↦
          rw (no_sub, gone, subscribe)
            (after_join-Leaked t u opts _ _ _
              (λ clean q. cc (
                (join_topic_leaked lib validator joined name laws u [] tm (rw q at l.held)).0,
                ap is_some clean,
              ))
              (join_topic-Leaked t u [] tm l))
    ]
  ]

  publish-Leaked :
      (t u payload : Text) (tm : Manager State Topic Sub Params)
      → Leaked t tm
      → Leaked t (publish lib validator u payload tm).0
  unfolding publish
  publish-Leaked t u payload tm l = elim (Option-cases (lookup u tm.topics)) [
    | inl gone ↦ rw (gone, publish) l
    | inr (h, here) ↦
        rw (here, publish)
          (record {
            held = laws.publish_kept h payload tm.ps t ∙ l.held;
            lost = l.lost;
            unsubscribed = l.unsubscribed;
            named = l.named;
          })
  ]

  step-Leaked :
      (t : Text) (tm : Manager State Topic Sub Params) (c : Call TopicOpt SubOpt)
      → Leaked t tm
      → Leaked t (step lib validator tm c)
  unfolding step
  step-Leaked t tm (joins u opts) l = join-Leaked t u opts tm l
  step-Leaked t tm (leaves u) l = leave-Leaked t u tm l
  step-Leaked t tm (subscribes u opts) l = subscribe-Leaked t u opts tm l
  step-Leaked t tm (publishes u payload) l = publish-Leaked t u payload tm l

  run-Leaked :
      (t : Text) (tm : Manager State Topic Sub Params) (cs : List (Call TopicOpt SubOpt))
      → Leaked t tm
      → Leaked t (run lib validator tm cs)
  unfolding run
  run-Leaked t tm [] l = l
  run-Leaked t tm (c ∷ cs) l = run-Leaked t (step lib validator tm c) cs (step-Leaked t tm c l)

  -- What a leaked topic means for its callers.
  later_calls_fail :
      (t payload : Text) (opts : List TopicOpt) (sub_opts : List SubOpt)
      (tm : Manager State Topic Sub Params)
      → Leaked t tm
      → (is_some (join lib validator t opts tm).2 ≡ true)
        × (is_some (subscribe lib validator t sub_opts tm).3 ≡ true)
        × ((publish lib validator t payload tm).1 ≡ some (not_found t))
  unfolding join subscribe publish after_join
  later_calls_fail t payload opts sub_opts tm l =
      let failing =
        λ (o : List TopicOpt). (join_topic_leaked lib validator joined name laws t o tm l.held).0 in
      (
        rw (l.lost, join) (failing opts),
        ground (arith, l.lost, l.unsubscribed, failing []),
        rw (l.lost, publish) refl,
      )

  -- When a join of a topic that the manager does not have returns the topic together with an error
  -- (its score parameters or its validator were refused), the topic is out of reach from then on:
  -- after any calls, a join and a subscription of it return an error and a publish does not find it.
  pub run-join_topic_fails :
      (t payload : Text) (opts opts' : List TopicOpt) (sub_opts : List SubOpt)
      (tm : Manager State Topic Sub Params) (cs : List (Call TopicOpt SubOpt))
      → lookup t tm.topics ≡ none
      → lookup t tm.subs ≡ none
      → ((u : Text) (h : Topic) → lookup u tm.topics ≡ some h → name h ≡ u)
      → is_some (join lib validator t opts tm).1 ≡ true
      → is_some (join lib validator t opts tm).2 ≡ true
      → let later = run lib validator (join lib validator t opts tm).0 cs in
        (is_some (join lib validator t opts' later).2 ≡ true)
        × (is_some (subscribe lib validator t sub_opts later).3 ≡ true)
        × ((publish lib validator t payload later).1 ≡ some (not_found t))
  unfolding join
  run-join_topic_fails t payload opts opts' sub_opts tm cs gone no_sub named got bad =
      let same : join lib validator t opts tm ≡ join_topic lib validator t opts tm =
        rw (gone, join) refl in
      let leaked : Leaked t (join lib validator t opts tm).0 = rw same (
        join_topic-IsLeaked lib validator joined name laws t opts tm gone no_sub named
          (rw same at got) (rw same at bad)) in
      later_calls_fail t payload opts' sub_opts _ (run-Leaked t _ cs leaked)

-- ===== src/Topology/TopicManager/Maps.antt =====
-- What each method does to the manager's two maps, on every branch.
use p2p_tests.Prelude.{
  ◌≡◌, refl, sym, ap, ◌∙◌, List, [], Option, none, some, Text, Map, lookup, insert, delete,
  lookup-insert, delete_absent, ◌==◌, text_eq, is_some, Bool, true, false, arith, inl, inr,
  Option-cases,
}
use p2p_tests.Prelude.Int.{ℤ}
use p2p_tests.Topology.Errors.{GoError}
use p2p_tests.Topology.TopicManager.Interface.{Library}
use p2p_tests.Topology.TopicManager.{
  Manager, set_validator, set_scoring, join_topic, drop_sub, drop_topic, leave, open_sub,
  after_join, subscribe, publish,
}

abbrev pub insert_some {ℓ} : {A : Type ℓ} → Text → Option A → Map Text A → Map Text A
insert_some t none m = m
insert_some t (some a) m = insert t a m

module _ {State Topic Sub Params Validator TopicOpt SubOpt Peer : Type 0}
    (lib : Library State Topic Sub Params Validator TopicOpt SubOpt Peer)
    (validator : Text → ℤ → Validator) where
  -- A join stores its topic exactly when it returns no error, and touches no subscription.
  pub record Joins (t : Text) (tm tm' : Manager State Topic Sub Params) (topic : Option Topic)
      (e : Option GoError) : Type 0 where
    pub named : e ≡ none → is_some topic ≡ true
    pub stored : e ≡ none → tm'.topics ≡ insert_some t topic tm.topics
    pub untouched : is_some e ≡ true → tm'.topics ≡ tm.topics
    pub subs : tm'.subs ≡ tm.subs
    pub score : tm'.score_params ≡ tm.score_params
    pub latency : tm'.validation_latency ≡ tm.validation_latency

  set_validator-Joins :
      (t : Text) (h : Topic) (tm : Manager State Topic Sub Params)
      → let r = set_validator lib validator t h tm in Joins t tm r.0 r.1 r.2
  unfolding set_validator
  set_validator-Joins t h tm = ground arith

  set_scoring-Joins :
      (t : Text) (h : Topic) (tm : Manager State Topic Sub Params)
      → let r = set_scoring lib validator t h tm in Joins t tm r.0 r.1 r.2
  unfolding set_scoring set_validator
  set_scoring-Joins t h tm = ground arith

  pub join_topic-Joins :
      (t : Text) (opts : List TopicOpt) (tm : Manager State Topic Sub Params)
      → let r = join_topic lib validator t opts tm in Joins t tm r.0 r.1 r.2
  unfolding join_topic set_scoring set_validator
  join_topic-Joins t opts tm = ground arith

  -- Leave forgets the topic and its subscription, also when closing fails, and nothing else.
  pub record Leaves (t : Text) (tm tm' : Manager State Topic Sub Params) (topic : Option Topic)
      (e : Option GoError) : Type 0 where
    pub topics : tm'.topics ≡ delete t tm.topics
    pub subs : tm'.subs ≡ delete t tm.subs
    pub returned : topic ≡ lookup t tm.topics
    pub silent : topic ≡ none → e ≡ none
    pub score : tm'.score_params ≡ tm.score_params
    pub latency : tm'.validation_latency ≡ tm.validation_latency

  pub leave-Leaves :
      (t : Text) (tm : Manager State Topic Sub Params)
      → let r = leave lib validator t tm in Leaves t tm r.0 r.1 r.2
  unfolding leave drop_sub drop_topic
  leave-Leaves t tm = ground (arith, delete_absent t tm.topics, delete_absent t tm.subs)

  -- Subscribe returns the subscription that is there, with the flag, or opens one and keeps it; on
  -- an error no subscription is kept or lost. A topic that it joins on the way stays joined.
  pub record Subscribes (t : Text) (tm tm' : Manager State Topic Sub Params) (sub : Option Sub)
      (old : Bool) (e : Option GoError) : Type 0 where
    pub again :
        is_some (lookup t tm.subs) ≡ true
        → (tm' ≡ tm) × (sub ≡ lookup t tm.subs) × (old ≡ true) × (e ≡ none)
    pub fresh : lookup t tm.subs ≡ none → old ≡ false
    pub stored : lookup t tm.subs ≡ none → e ≡ none → tm'.subs ≡ insert_some t sub tm.subs
    pub named : e ≡ none → is_some sub ≡ true
    pub failed : is_some e ≡ true → (sub ≡ none) × (tm'.subs ≡ tm.subs)
    pub kept : is_some (lookup t tm.topics) ≡ true → tm'.topics ≡ tm.topics
    pub joined : e ≡ none → lookup t tm.subs ≡ none → is_some (lookup t tm'.topics) ≡ true
    pub others : (u : Text) → (u == t) ≡ false → lookup u tm'.topics ≡ lookup u tm.topics

  open_sub-fields :
      (t : Text) (opts : List SubOpt) (h : Topic) (tm : Manager State Topic Sub Params)
      → let r = open_sub lib validator t opts h tm in
        (r.0.topics ≡ tm.topics)
        × (r.2 ≡ false)
        × (r.3 ≡ none → r.0.subs ≡ insert_some t r.1 tm.subs)
        × (r.3 ≡ none → is_some r.1 ≡ true)
        × (is_some r.3 ≡ true → (r.1 ≡ none) × (r.0.subs ≡ tm.subs))
  unfolding open_sub
  open_sub-fields t opts h tm = ground arith

  insert_some_self :
      (t : Text) (o : Option Topic) (m : Map Text Topic)
      → is_some o ≡ true
      → is_some (lookup t (insert_some t o m)) ≡ true
  insert_some_self t none m h = cc
  insert_some_self t (some a) m h = ground (arith, lookup-insert t t a m, text_eq.beq_iff t t)

  pub insert_some-other :
      (t u : Text) (o : Option Topic) (m : Map Text Topic)
      → (u == t) ≡ false
      → lookup u (insert_some t o m) ≡ lookup u m
  insert_some-other t u none m h = refl
  insert_some-other t u (some a) m h = ground (arith, lookup-insert t u a m)

  after_join-Subscribes :
      (t : Text) (opts : List SubOpt) (tm tm' : Manager State Topic Sub Params)
      (topic : Option Topic) (e : Option GoError)
      → lookup t tm.subs ≡ none
      → lookup t tm.topics ≡ none
      → Joins t tm tm' topic e
      → let r = after_join lib validator t opts tm' topic e in Subscribes t tm r.0 r.1 r.2 r.3
  unfolding after_join
  after_join-Subscribes t opts tm tm' topic (some c) no_sub no_topic j = record {
    again = ground arith;
    fresh = ground arith;
    stored = λ _ h. cc;
    named = λ h. cc;
    failed = λ h. (refl, j.subs);
    kept = ground arith;
    joined = λ h. cc;
    others = λ u h. rw (j.untouched refl);
  }
  after_join-Subscribes t opts tm tm' none none no_sub no_topic j =
      absurd (ground (arith, j.named refl))
  after_join-Subscribes t opts tm tm' (some h) none no_sub no_topic j =
      let f = open_sub-fields t opts h tm' in
      record {
        again = ground arith;
        fresh = λ _. f.1;
        stored = λ _ e. f.2 e ∙ ap (insert_some t _) j.subs;
        named = f.3;
        failed = λ e. ((f.4 e).0, (f.4 e).1 ∙ j.subs);
        kept = ground arith;
        joined = λ _ _. rw (f.0, j.stored refl) (insert_some_self t (some h) tm.topics refl);
        others = λ u ne. rw (f.0, j.stored refl) (insert_some-other t u (some h) tm.topics ne);
      }

  pub subscribe-Subscribes :
      (t : Text) (opts : List SubOpt) (tm : Manager State Topic Sub Params)
      → let r = subscribe lib validator t opts tm in Subscribes t tm r.0 r.1 r.2 r.3
  unfolding subscribe
  subscribe-Subscribes t opts tm = elim (Option-cases (lookup t tm.subs)) [
    | inr (s, here) ↦
        rw (here, subscribe)
          (record {
            again = λ _. (refl, sym here, refl, refl);
            fresh = λ no_sub. cc;
            stored = λ no_sub _. cc;
            named = λ _. refl;
            failed = λ bad. cc;
            kept = λ _. refl;
            joined = λ _ no_sub. cc;
            others = λ u _. refl;
          })
    | inl no_sub ↦ elim (Option-cases (lookup t tm.topics)) [
      | inl no_topic ↦
          rw (no_sub, no_topic, subscribe)
            (after_join-Subscribes t opts tm _ _ _ no_sub no_topic (join_topic-Joins t [] tm))
      | inr (h, here) ↦
          let f = open_sub-fields t opts h tm in
          rw (no_sub, here, subscribe)
            (record {
              again = λ there. ground arith;
              fresh = λ _. f.1;
              stored = λ _ e. f.2 e;
              named = f.3;
              failed = f.4;
              kept = λ _. f.0;
              joined = λ _ _. rw (f.0, here) refl;
              others = λ u _. rw f.0;
            })
    ]
  ]

  -- Publish touches neither map.
  pub publish-maps :
      (t payload : Text) (tm : Manager State Topic Sub Params)
      → let tm' = (publish lib validator t payload tm).0 in
        (tm'.topics ≡ tm.topics) × (tm'.subs ≡ tm.subs)
  unfolding publish
  publish-maps t payload tm = ground arith

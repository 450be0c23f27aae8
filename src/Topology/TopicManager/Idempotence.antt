-- ===== src/Topology/TopicManager/Idempotence.antt =====
-- Repeated calls: the second of two joins, of two subscriptions, and what follows a leave.
use p2p_tests.Prelude.{
  ◌≡◌, refl, sym, ap, ◌∙◌, List, [], Option, none, some, Text, Map, lookup, lookup-insert,
  lookup-delete, ◌==◌, text_eq, is_some, true, inl, inr, Option-cases,
}
use p2p_tests.Prelude.Int.{ℤ}
use p2p_tests.Topology.TopicManager.Interface.{Library}
use p2p_tests.Topology.TopicManager.{
  Manager, join_topic, join, leave, subscribe, publish, list_peers, not_found,
}
use p2p_tests.Topology.TopicManager.Maps.{
  join_topic-Joins, insert_some, leave-Leaves, subscribe-Subscribes,
}

eq_self : (t : Text) → (t == t) ≡ true
eq_self t = (text_eq.beq_iff t t).1 refl

insert_some-lookup :
    {A : Type 0} (t : Text) (o : Option A) (m : Map Text A)
    → is_some o ≡ true
    → lookup t (insert_some t o m) ≡ o
insert_some-lookup t none m h = cc
insert_some-lookup t (some a) m h = rw (lookup-insert t t a m, eq_self t)

module _ {State Topic Sub Params Validator TopicOpt SubOpt Peer : Type 0}
    (lib : Library State Topic Sub Params Validator TopicOpt SubOpt Peer)
    (validator : Text → ℤ → Validator) where
  pub join_present :
      (t : Text) (opts : List TopicOpt) (tm : Manager State Topic Sub Params) (h : Topic)
      → lookup t tm.topics ≡ some h
      → join lib validator t opts tm ≡ (tm, some h, none)
  unfolding join
  join_present t opts tm h e = rw (e, join)

  -- Where a join returned no error its topic is in the manager's map.
  pub join-lookup :
      (t : Text) (opts : List TopicOpt) (tm : Manager State Topic Sub Params)
      → (join lib validator t opts tm).2 ≡ none
      → (lookup t (join lib validator t opts tm).0.topics ≡ (join lib validator t opts tm).1)
        × (is_some (join lib validator t opts tm).1 ≡ true)
  unfolding join
  join-lookup t opts tm e = elim (Option-cases (lookup t tm.topics)) [
    | inr (h, here) ↦ rw (here, join) (here, refl)
    | inl gone ↦
        let j = join_topic-Joins lib validator t opts tm in
        let e' : (join_topic lib validator t opts tm).2 ≡ none = rw (gone, join) at e in
        rw (gone, join)
          (rw (j.stored e') (insert_some-lookup t _ tm.topics (j.named e')), j.named e')
  ]

  -- After a join without error, a join of the same topic, with whatever options, returns the same
  -- topic without error and changes neither the manager nor the library.
  pub join-join :
      (t : Text) (opts opts' : List TopicOpt) (tm : Manager State Topic Sub Params)
      → (join lib validator t opts tm).2 ≡ none
      → join lib validator t opts' (join lib validator t opts tm).0
        ≡ ((join lib validator t opts tm).0, (join lib validator t opts tm).1, none)
  join-join t opts opts' tm e =
      let f = join-lookup t opts tm e in
      elim (Option-cases (join lib validator t opts tm).1) [
        | inl bad ↦ cc (f.1)
        | inr (h, got) ↦
            join_present t opts' (join lib validator t opts tm).0 h (f.0 ∙ got)
            ∙ ap (λ o. ((join lib validator t opts tm).0, o, none)) (sym got)
      ]

  subscribe_present :
      (t : Text) (opts : List SubOpt) (tm : Manager State Topic Sub Params) (s : Sub)
      → lookup t tm.subs ≡ some s
      → subscribe lib validator t opts tm ≡ (tm, some s, true, none)
  unfolding subscribe
  subscribe_present t opts tm s e = rw (e, subscribe)

  -- Where a call of Subscribe returned no error its subscription is in the manager's map.
  pub subscribe-lookup :
      (t : Text) (opts : List SubOpt) (tm : Manager State Topic Sub Params)
      → let r = subscribe lib validator t opts tm in
        r.3 ≡ none → (lookup t r.0.subs ≡ r.1) × (is_some r.1 ≡ true)
  subscribe-lookup t opts tm e =
      let f = subscribe-Subscribes lib validator t opts tm in
      elim (Option-cases (lookup t tm.subs)) [
        | inl gone ↦ (rw (f.stored gone e) (insert_some-lookup t _ tm.subs (f.named e)), f.named e)
        | inr (s, here) ↦ let a = f.again (rw here refl) in (rw a.0 (sym a.1), f.named e)
      ]

  -- After a Subscribe without error, a Subscribe of the same topic returns the same subscription
  -- with the flag, and changes neither the manager nor the library.
  pub subscribe-subscribe :
      (t : Text) (opts opts' : List SubOpt) (tm : Manager State Topic Sub Params)
      → (subscribe lib validator t opts tm).3 ≡ none
      → subscribe lib validator t opts' (subscribe lib validator t opts tm).0
        ≡ ((subscribe lib validator t opts tm).0, (subscribe lib validator t opts tm).1, true, none)
  subscribe-subscribe t opts opts' tm e =
      let r = subscribe lib validator t opts tm in
      let f = subscribe-lookup t opts tm e in
      elim (Option-cases r.1) [
        | inl bad ↦ cc (f.1)
        | inr (s, got) ↦
            subscribe_present t opts' r.0 s (f.0 ∙ got) ∙ ap (λ o. (r.0, o, true, none)) (sym got)
      ]

  -- After Leave, whether or not it closed the topic without error, publishing to the topic gives
  -- "not found" and reaches no library call, and the topic has no peers to list.
  pub publish-leave :
      (t payload : Text) (tm : Manager State Topic Sub Params)
      → let tm' = (leave lib validator t tm).0 in
        (publish lib validator t payload tm' ≡ (tm', some (not_found t)))
        × (list_peers lib validator t tm' ≡ [])
  unfolding publish list_peers
  publish-leave t payload tm =
      let gone : lookup t (leave lib validator t tm).0.topics ≡ none =
        rw ((leave-Leaves lib validator t tm).topics, lookup-delete t t tm.topics, eq_self t)
          refl in
      (rw (gone, publish), rw (gone, list_peers))

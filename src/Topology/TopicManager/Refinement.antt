-- ===== src/Topology/TopicManager/Refinement.antt =====
-- The manager against the abstract machine of its topics.
use p2p_tests.Prelude.{
  ◌≡◌, refl, ◌∙◌, List, [], ◌∷◌, none, Text, lookup, lookup-insert, delete, lookup-delete, ◌==◌,
  text_eq, is_some, Bool, true, false, arith, inl, inr, Option-cases,
}
use p2p_tests.Prelude.Int.{ℤ}
use p2p_tests.Topology.TopicManager.Interface.{Library}
use p2p_tests.Topology.TopicManager.{Manager, join_topic, join, leave, subscribe, publish}
use p2p_tests.Topology.TopicManager.Maps.{
  join_topic-Joins, insert_some-other, leave-Leaves, subscribe-Subscribes, publish-maps,
}
use p2p_tests.Topology.TopicManager.History.{
  Call, joins, leaves, subscribes, publishes, IsCovered, step, run, step-IsCovered,
}
use p2p_tests.Topology.TopicManager.Idempotence.{join_present, subscribe-lookup}
use p2p_tests.Topology.TopicManager.Abstract.{
  Status, absent, joined, subscribing, Move, join_new, join_old, join_refused, leave_any,
  subscribe_any, subscribe_refused, subscribe_half, publish_any, publish_unknown, Step, Steps, stay,
  go, status_of, moved, status_of-ne-absent, lookup_self, no_sub,
}

module _ {State Topic Sub Params Validator TopicOpt SubOpt Peer : Type 0}
    (lib : Library State Topic Sub Params Validator TopicOpt SubOpt Peer)
    (validator : Text → ℤ → Validator) where
  abbrev pub view : Manager State Topic Sub Params → Text → Status
  view tm t = status_of (lookup t tm.topics) (lookup t tm.subs)

  -- Whether a call returns an error.
  abbrev pub fails : Manager State Topic Sub Params → Call TopicOpt SubOpt → Bool
  fails tm (joins t opts) = is_some (join lib validator t opts tm).2
  fails tm (leaves t) = is_some (leave lib validator t tm).2
  fails tm (subscribes t opts) = is_some (subscribe lib validator t opts tm).3
  fails tm (publishes t payload) = is_some (publish lib validator t payload tm).1

  -- The calls with what they returned.
  abbrev pub outcomes :
      Manager State Topic Sub Params
      → List (Call TopicOpt SubOpt)
      → List (Call TopicOpt SubOpt × Bool)
  outcomes tm [] = []
  outcomes tm (c ∷ cs) = (c, fails tm c) ∷ outcomes (step lib validator tm c) cs

  leave-Step :
      (t : Text) (tm : Manager State Topic Sub Params)
      → Step {TopicOpt = TopicOpt} {SubOpt = SubOpt}
          (view tm)
          (leaves t)
          (fails tm (leaves t))
          (view (leave lib validator t tm).0)
  leave-Step t tm =
      let l = leave-Leaves lib validator t tm in
      let gone : lookup t (delete t tm.topics) ≡ none =
        rw (lookup-delete t t tm.topics, (text_eq.beq_iff t t).1 refl) refl in
      (
        rw (l.topics, gone) (leave_any _ _),
        λ u ne.
            rw (l.topics, l.subs, lookup-delete t u tm.topics, lookup-delete t u tm.subs, ne) refl,
      )

  publish-absent :
      (t payload : Text) (tm : Manager State Topic Sub Params)
      → lookup t tm.topics ≡ none
      → is_some (publish lib validator t payload tm).1 ≡ true
  unfolding publish
  publish-absent t payload tm gone = ground arith

  publish-Step :
      (t payload : Text) (tm : Manager State Topic Sub Params)
      → Step {TopicOpt = TopicOpt} {SubOpt = SubOpt}
          (view tm)
          (publishes t payload)
          (fails tm (publishes t payload))
          (view (publish lib validator t payload tm).0)
  publish-Step t payload tm =
      let m = publish-maps lib validator t payload tm in
      let same : (u : Text) → view (publish lib validator t payload tm).0 u ≡ view tm u =
        λ u. rw (m.0, m.1) refl in
      elim (Option-cases (lookup t tm.topics)) [
        | inl gone ↦ (
          moved (publish-absent t payload tm gone) (rw gone refl) (same t ∙ rw gone refl)
              publish_unknown,
          λ u ne. same u,
        )
        | inr (h, here) ↦ (
          moved refl (rw here refl) (same t ∙ rw here refl)
              (publish_any _ _ (status_of-ne-absent h (lookup t tm.subs))),
          λ u ne. same u,
        )
      ]

  join_absent :
      (t : Text) (opts : List TopicOpt) (tm : Manager State Topic Sub Params)
      → lookup t tm.topics ≡ none
      → join lib validator t opts tm ≡ join_topic lib validator t opts tm
  unfolding join
  join_absent t opts tm e = rw (e, join)

  join-Step :
      (t : Text) (opts : List TopicOpt) (tm : Manager State Topic Sub Params)
      → IsCovered tm.topics tm.subs
      → Step {SubOpt = SubOpt}
          (view tm)
          (joins t opts)
          (fails tm (joins t opts))
          (view (join lib validator t opts tm).0)
  join-Step t opts tm c = elim (Option-cases (lookup t tm.topics)) [
    | inr (h, here) ↦ rw (join_present lib validator t opts tm h here) (
      moved refl (rw here refl) (rw here refl)
          (join_old _ (status_of-ne-absent h (lookup t tm.subs))),
      λ u ne. refl,
    )
    | inl gone ↦
        let r = join_topic lib validator t opts tm in
        let j = join_topic-Joins lib validator t opts tm in
        rw (join_absent t opts tm gone) (elim (Option-cases r.2) [
          | inr (e, bad) ↦
              let same : (u : Text) → view r.0 u ≡ view tm u =
                λ u. rw (j.subs, j.untouched (rw bad refl)) refl in
              (
                moved (rw bad refl) (rw gone refl) (same t ∙ rw gone refl) join_refused,
                λ u ne. same u,
              )
          | inl clean ↦ elim (Option-cases r.1) [
            | inl unnamed ↦ cc (j.named clean)
            | inr (h, got) ↦ (
              moved (rw clean refl) (rw gone refl)
                  (rw
                    (
                      j.subs,
                      j.stored clean,
                      got,
                      lookup_self t h tm.topics,
                      no_sub t tm.topics tm.subs c gone,
                    )
                    refl)
                  join_new,
              λ u ne.
                  rw (j.subs, j.stored clean, insert_some-other lib validator t u r.1 tm.topics ne)
                    refl,
            )
          ]
        ])
  ]

  pub subscribe-others :
      (t : Text) (opts : List SubOpt) (tm : Manager State Topic Sub Params) (u : Text)
      → (u == t) ≡ false
      → let tm' = (subscribe lib validator t opts tm).0 in lookup u tm'.subs ≡ lookup u tm.subs
  subscribe-others t opts tm u ne =
      let r = subscribe lib validator t opts tm in
      let f = subscribe-Subscribes lib validator t opts tm in
      elim (Option-cases (lookup t tm.subs)) [
        | inr (s, here) ↦ let a = f.again (rw here refl) in rw a.0 refl
        | inl fresh ↦ elim (Option-cases r.3) [
          | inl clean ↦ elim (Option-cases r.1) [
            | inl unnamed ↦ cc (f.named clean)
            | inr (s, got) ↦ rw (f.stored fresh clean, got, lookup-insert t u s tm.subs, ne) refl
          ]
          | inr (e, bad) ↦ rw (f.failed (rw bad refl)).1 refl
        ]
      ]

  subscribe-Move :
      (t : Text) (opts : List SubOpt) (tm : Manager State Topic Sub Params)
      → IsCovered tm.topics tm.subs
      → let r = subscribe lib validator t opts tm in
        Move subscribing (is_some r.3) (view tm t) (view r.0 t)
  subscribe-Move t opts tm c =
      let r = subscribe lib validator t opts tm in
      let f = subscribe-Subscribes lib validator t opts tm in
      elim (Option-cases (lookup t tm.subs)) [
        | inr (s, here) ↦
            let a = f.again (rw here refl) in
            elim (Option-cases (lookup t tm.topics)) [
              | inl gone ↦ cc (no_sub t tm.topics tm.subs c gone, here)
              | inr (h, there) ↦
                  moved (rw a.3 refl) refl (rw (a.0, there, here) refl) (subscribe_any _)
            ]
        | inl fresh ↦ elim (Option-cases r.3) [
          | inl clean ↦ elim (Option-cases (lookup t r.0.topics)) [
            | inl gone ↦ cc (f.joined clean fresh, gone)
            | inr (h, there) ↦
                let l = subscribe-lookup lib validator t opts tm clean in
                elim (Option-cases r.1) [
                  | inl unnamed ↦ cc (f.named clean)
                  | inr (s, got) ↦
                      moved (rw clean refl) refl (rw (there, l.0, got) refl) (subscribe_any _)
                ]
          ]
          | inr (e, bad) ↦
              let kept = (f.failed (rw bad refl)).1 in
              elim (Option-cases (lookup t tm.topics)) [
                | inr (h, there) ↦
                    moved (rw bad refl) (rw (there, fresh) refl)
                      (rw (f.kept (rw there refl), kept, there, fresh) refl)
                      (subscribe_refused joined (λ bad. cc))
                | inl gone ↦ elim (Option-cases (lookup t r.0.topics)) [
                  | inl still ↦
                      moved (rw bad refl) (rw gone refl) (rw still refl)
                        (subscribe_refused absent (λ bad. cc))
                  | inr (h, left) ↦
                      moved (rw bad refl) (rw gone refl) (rw (left, kept, fresh) refl)
                        subscribe_half
                ]
              ]
        ]
      ]

  subscribe-Step :
      (t : Text) (opts : List SubOpt) (tm : Manager State Topic Sub Params)
      → IsCovered tm.topics tm.subs
      → Step {TopicOpt = TopicOpt}
          (view tm)
          (subscribes t opts)
          (fails tm (subscribes t opts))
          (view (subscribe lib validator t opts tm).0)
  subscribe-Step t opts tm c = (
    subscribe-Move t opts tm c,
    λ u ne.
        rw
          (
            (subscribe-Subscribes lib validator t opts tm).others u ne,
            subscribe-others t opts tm u ne,
          )
          refl,
  )

  step-Step :
      (c : Call TopicOpt SubOpt) (tm : Manager State Topic Sub Params)
      → IsCovered tm.topics tm.subs
      → Step (view tm) c (fails tm c) (view (step lib validator tm c))
  unfolding step
  step-Step (joins t opts) tm h = join-Step t opts tm h
  step-Step (leaves t) tm h = leave-Step t tm
  step-Step (subscribes t opts) tm h = subscribe-Step t opts tm h
  step-Step (publishes t payload) tm h = publish-Step t payload tm

  -- The manager implements the abstract machine: after any calls, whatever errors the library made
  -- them return, the view of its maps is where the machine's steps for these calls and outcomes lead,
  -- if at the beginning every topic with a subscription is joined.
  pub run-Steps :
      (cs : List (Call TopicOpt SubOpt)) (tm : Manager State Topic Sub Params)
      → IsCovered tm.topics tm.subs
      → Steps (view tm) (outcomes tm cs) (view (run lib validator tm cs))
  unfolding run
  run-Steps [] tm h = stay
  run-Steps (c ∷ cs) tm h =
      go c (fails tm c) (step-Step c tm h)
        (run-Steps cs (step lib validator tm c) (step-IsCovered lib validator tm c h))

-- ===== src/Topology/Sending/Groups.antt =====
-- The rounds of runGroups as a whole: what they record, and the error that they keep.
use p2p_tests.Prelude.{
  Bool, ℕ, zero, suc, ◌≡◌, refl, sym, ap, ◌∙◌, List, [], ◌∷◌, ◌++◌, append_assoc, append-nil, map,
  Option, none, some, Text, Map, lookup, text_eq, true, arith, inl, inr, is_some,
}
use p2p_tests.Prelude.Int.{ℤ}
use p2p_tests.Utils.Generate.{is_positive}
use p2p_tests.Topology.Errors.{GoError, Result}
use p2p_tests.Topology.TopicManager.Maps.{publish-maps}
use p2p_tests.Topology.Sending.Effects.{
  points, points-append, error_of, last_or, last_or-append, good, round_errors, all_errors,
  listen_all-fields, Passes,
}
use p2p_tests.Topology.TopicManager.Interface.{Library}
use p2p_tests.Topology.TopicManager.{Manager}
use p2p_tests.Topology.Sending.{
  shapes, signals, Sending, round_latency, to_int32, Prepared-cases, or_empty, group_point,
  done_state, configured_state, prepare, listen_all, report_group, send_group, send_groups,
  group_rounds,
}

module _ {M : Type 0} (decode_hex : Text → Result Text) (ssv_message : Text → Text → M)
    (encode : M → Result Text) (name : Text) where
  -- The points of a round, one for each message.
  abbrev pub round_points : Map Text Text → ℕ → List Text → List Text
  round_points vg i pks =
      map (λ pk. group_point (or_empty (lookup pk vg)) pk i)
        (good decode_hex ssv_message encode name i pks)

  -- Those of `n` rounds from the round `i` on.
  abbrev pub all_points : Map Text Text → List Text → ℕ → ℕ → List Text
  all_points validator_groups pks zero i = []
  all_points validator_groups pks (suc n) i =
      round_points validator_groups i pks ++ all_points validator_groups pks n (suc i)

  module _ {State Topic Sub Params Validator TopicOpt SubOpt Peer : Type 0}
      (lib : Library State Topic Sub Params Validator TopicOpt SubOpt Peer)
      (validator : Text → ℤ → Validator) (id : Text) where
    report_group-points :
        (gid pk : Text) (i : ℕ) (r : Manager State Topic Sub Params × Option GoError)
        (s : Sending State Topic Sub Params)
        → points
            (report_group decode_hex ssv_message encode name lib validator id gid pk i r s).acts
          ≡ points s.acts ++ group_point gid pk i ∷ []
    unfolding report_group
    report_group-points gid pk i (tm, none) s = points-append s.acts _
    report_group-points gid pk i (tm, some e) s = points-append s.acts _

    send_group-points :
        (vg : Map Text Text) (i : ℕ) (pk : Text) (s : Sending State Topic Sub Params)
        → points (send_group decode_hex ssv_message encode name lib validator id vg i pk s).acts
          ≡ points s.acts ++ round_points vg i (pk ∷ [])
    unfolding send_group
    send_group-points vg i pk s =
        elim (Prepared-cases (prepare decode_hex ssv_message encode name i pk)) [
          | inl (e, bad) ↦ rw (bad, send_group) (points-append s.acts _)
          | inr (inl (e, bad)) ↦ rw (bad, send_group) (points-append s.acts _)
          | inr (inr (payload, good)) ↦ rw (good, send_group) (report_group-points _ pk i _ s)
        ]

    report_group-fields :
        (gid pk : Text) (i : ℕ) (r : Manager State Topic Sub Params × Option GoError)
        (s : Sending State Topic Sub Params)
        → let s' = report_group decode_hex ssv_message encode name lib validator id gid pk i r s in
          (s'.send_err ≡ s.send_err) × (s'.tm ≡ r.0)
    unfolding report_group
    report_group-fields gid pk i (tm, none) s = (refl, refl)
    report_group-fields gid pk i (tm, some e) s = (refl, refl)

    send_group-send_err :
        (vg : Map Text Text) (i : ℕ) (pk : Text) (s : Sending State Topic Sub Params)
        → (send_group decode_hex ssv_message encode name lib validator id vg i pk s).send_err
          ≡ last_or s.send_err (round_errors decode_hex ssv_message encode name i (pk ∷ []))
    unfolding send_group
    send_group-send_err vg i pk s =
        elim (Prepared-cases (prepare decode_hex ssv_message encode name i pk)) [
          | inl (e, bad) ↦ rw (bad, send_group) refl
          | inr (inl (e, bad)) ↦ rw (bad, send_group) refl
          | inr (inr (payload, good)) ↦ rw (good, send_group) (report_group-fields _ pk i _ s).0
        ]

    send_group-topics :
        (vg : Map Text Text) (i : ℕ) (pk : Text) (s : Sending State Topic Sub Params)
        → (send_group decode_hex ssv_message encode name lib validator id vg i pk s).tm.topics
          ≡ s.tm.topics
    unfolding send_group
    send_group-topics vg i pk s =
        elim (Prepared-cases (prepare decode_hex ssv_message encode name i pk)) [
          | inl (e, bad) ↦ rw (bad, send_group) refl
          | inr (inl (e, bad)) ↦ rw (bad, send_group) refl
          | inr (inr (payload, good)) ↦
              rw (good, send_group)
                (ap (λ tm. tm.topics) (report_group-fields _ pk i _ s).1
                  ∙ (publish-maps lib validator _ payload s.tm).0)
        ]

    -- The loop over the validators.
    pub record Sends (vg : Map Text Text) (i : ℕ) (pks : List Text)
        (s s' : Sending State Topic Sub Params) : Type 0 where
      pub points : points s'.acts ≡ points s.acts ++ round_points vg i pks
      pub send_err :
          s'.send_err ≡ last_or s.send_err (round_errors decode_hex ssv_message encode name i pks)
      pub topics :
          (u : Text)
          → is_some (lookup u s.tm.topics) ≡ true
          → is_some (lookup u s'.tm.topics) ≡ true

    pub send_groups-Sends :
        (vg : Map Text Text) (i : ℕ) (late : ℕ → List Text) (pks : List Text)
        (s : Sending State Topic Sub Params)
        → Sends vg i pks s
            (send_groups decode_hex ssv_message encode name lib validator id vg i late pks s)
    unfolding send_groups
    send_groups-Sends vg i late [] s =
        let l = listen_all-fields lib validator (late 0) s in
        record { points = ground (arith, append-nil (points s.acts)); send_err = l.1; topics = l.2 }
    send_groups-Sends vg i late (pk ∷ pks) s =
        let s0 = listen_all lib validator (late 0) s in
        let l = listen_all-fields lib validator (late 0) s in
        let s' = send_group decode_hex ssv_message encode name lib validator id vg i pk s0 in
        let f = send_groups-Sends vg i (λ j. late (suc j)) pks s' in
        record {
          points = f.points ∙ rw (send_group-points vg i pk s0, l.0, append_assoc) (ground arith);
          send_err =
              f.send_err
              ∙ rw (send_group-send_err vg i pk s0, l.1, last_or-append)
                  (ground (
                    arith,
                    append-nil (error_of (prepare decode_hex ssv_message encode name i pk)),
                  ));
          topics = λ u h. f.topics u (rw (send_group-topics vg i pk s0) (l.2 u h));
        }

    -- The rounds of runGroups end, whatever errors they meet, if the maximum of the latency is
    -- positive as an int32 and the calls that wait return, and whichever calls of Listen subscribe between the publications. They
    -- record a point for every message whose key and data are good, round by round and in the order
    -- of the validators; the error they keep is the last one of Encode; and no topic is lost.
    pub group_rounds-sends :
        (vg : Map Text Text) (latency_max : ℤ) (draw : ℕ → ℕ) (sync : Text → Bool)
        (late : ℕ → ℕ → List Text) (pks : List Text) (n i : ℕ) (s : Sending State Topic Sub Params)
        → is_positive (to_int32 latency_max) ≡ true
        → Passes sync
        → (s' : Sending State Topic Sub Params) × (group_rounds decode_hex ssv_message encode name
              lib validator id vg latency_max draw sync late pks n i s
            ≡ some s')
          × (points s'.acts ≡ points s.acts ++ all_points vg pks n i)
          × (s'.send_err
              ≡ last_or s.send_err (all_errors decode_hex ssv_message encode name pks n i))
          × ((u : Text)
              → is_some (lookup u s.tm.topics) ≡ true
              → is_some (lookup u s'.tm.topics) ≡ true)
    unfolding group_rounds round_latency
    group_rounds-sends vg latency_max draw sync late pks zero i s h all =
        (s, refl, ground (arith, append-nil (points s.acts)), refl, λ u there. there)
    group_rounds-sends vg latency_max draw sync late pks (suc n) i s h all =
        let shaped = record s { acts = s.acts ++ shapes (draw i) (configured_state i) ∷ [] } in
        let sent =
          send_groups decode_hex ssv_message encode name lib validator id vg i (late i) pks
            shaped in
        let f = send_groups-Sends vg i (late i) pks shaped in
        let (s', done, listed, kept, same) =
          group_rounds-sends vg latency_max draw sync late pks n (suc i)
            (record sent { acts = sent.acts ++ signals (done_state i) ∷ [] }) h all in
        (
          s',
          rw (h, all (configured_state i), all (done_state i), group_rounds, round_latency) done,
          listed
              ∙ rw (points-append sent.acts _, f.points, points-append s.acts _)
                  (simp (append_assoc, append-nil)),
          kept
              ∙ rw f.send_err (
                  sym (
                    last_or-append s.send_err
                      (round_errors decode_hex ssv_message encode name i pks)
                      (all_errors decode_hex ssv_message encode name pks n (suc i)))),
          λ u there. same u (f.topics u there),
        )

-- ===== src/Topology/Sending/Subnets.antt =====
-- The rounds of runSubnets as a whole.
use p2p_tests.Prelude.{
  Bool, ℕ, zero, suc, ◌≡◌, refl, sym, ◌∙◌, List, [], ◌∷◌, ◌++◌, append_assoc, append-nil, some,
  codes, Text, true, arith, inl, inr, map, All, is_some, lookup, text_eq,
}
use p2p_tests.Prelude.Int.{ℤ}
use p2p_tests.Utils.Generate.{is_positive}
use p2p_tests.Topology.Errors.{Result, wrapped}
use p2p_tests.Topology.Clusters.{validator_subnet}
use p2p_tests.Topology.Subnets.{subnet_topic}
use p2p_tests.Topology.TopicManager.Interface.{Library}
use p2p_tests.Topology.TopicManager.{publish}
use p2p_tests.Topology.TopicManager.Maps.{publish-maps}
use p2p_tests.Topology.Sending.Effects.{
  points, points-append, last_or, last_or-append, good, error_of, round_errors, all_errors,
  listen_all-fields, Passes,
}
use p2p_tests.Topology.Sending.{
  shapes, fails, signals, Sending, Prepared-cases, round_latency, to_int32, prepare, listen_all,
  subnet_point, done_state, configured_state, report_subnet, send_subnet, send_subnets,
  subnet_rounds,
}

-- The validators' subnets do not panic, and are given by a function.
abbrev pub AreSubnets : ℕ → (Text → ℤ) → List Text → Type 0
AreSubnets subnets_count sub pks = All (λ pk. validator_subnet pk subnets_count ≡ some (sub pk)) pks

module _ {M : Type 0} (decode_hex : Text → Result Text) (ssv_message : Text → Text → M)
    (encode : M → Result Text) (name : Text) (subnets_count : ℕ) (sub : Text → ℤ) where
  -- The points of a round, one for each message, and of `n` rounds from the round `i` on.
  abbrev pub round_points : ℕ → List Text → List Text
  round_points i pks =
      map (λ pk. subnet_point (sub pk) pk i) (good decode_hex ssv_message encode name i pks)

  abbrev pub all_points : List Text → ℕ → ℕ → List Text
  all_points pks zero i = []
  all_points pks (suc n) i = round_points i pks ++ all_points pks n (suc i)

  module _ {State Topic Sub Params Validator TopicOpt SubOpt Peer : Type 0}
      (lib : Library State Topic Sub Params Validator TopicOpt SubOpt Peer)
      (validator : Text → ℤ → Validator) (id : Text) where
    -- The loop over the validators.
    pub record Sends (i : ℕ) (pks : List Text) (s s' : Sending State Topic Sub Params)
        : Type 0 where
      pub points : points s'.acts ≡ points s.acts ++ round_points i pks
      pub send_err :
          s'.send_err ≡ last_or s.send_err (round_errors decode_hex ssv_message encode name i pks)
      pub topics :
          (u : Text)
          → is_some (lookup u s.tm.topics) ≡ true
          → is_some (lookup u s'.tm.topics) ≡ true

    send_subnet-Sends :
        (i : ℕ) (pk : Text) (s : Sending State Topic Sub Params)
        → validator_subnet pk subnets_count ≡ some (sub pk)
        → (s' : Sending State Topic Sub Params) × (send_subnet decode_hex ssv_message encode name
              lib validator id subnets_count i pk s
            ≡ some s')
          × Sends i (pk ∷ []) s s'
    unfolding send_subnet report_subnet
    send_subnet-Sends i pk s h =
        elim (Prepared-cases (prepare decode_hex ssv_message encode name i pk)) [
          | inl (e, bad) ↦ (
            record s {
              acts = s.acts ++ fails (wrapped e (codes "could not listen to test topic")) ∷ [];
            },
            rw (bad, send_subnet) refl,
            record {
              points = rw bad (points-append s.acts _);
              send_err = rw bad refl;
              topics = λ u there. there;
            },
          )
          | inr (inl (e, bad)) ↦ (
            record s { send_err = some e },
            rw (bad, send_subnet) refl,
            record {
              points = rw bad (sym (append-nil (points s.acts)));
              send_err = rw bad refl;
              topics = λ u there. there;
            },
          )
          | inr (inr (payload, fine)) ↦ (
            report_subnet decode_hex ssv_message encode name lib validator id (sub pk) pk i
                (publish lib validator (subnet_topic (sub pk)) payload s.tm) s,
            rw (fine, h, send_subnet) refl,
            record {
              points = rw fine (points-append s.acts _);
              send_err = rw fine refl;
              topics = λ u there.
                  rw (publish-maps lib validator (subnet_topic (sub pk)) payload s.tm).0 there;
            },
          )
        ]

    send_subnets-Sends :
        (i : ℕ) (late : ℕ → List Text) (pks : List Text) (s : Sending State Topic Sub Params)
        → AreSubnets subnets_count sub pks
        → (s' : Sending State Topic Sub Params) × (send_subnets decode_hex ssv_message encode name
              lib validator id subnets_count i late pks s
            ≡ some s')
          × Sends i pks s s'
    unfolding send_subnets
    send_subnets-Sends i late [] s h =
        let l = listen_all-fields lib validator (late 0) s in
        (
          listen_all lib validator (late 0) s,
          refl,
          record { points = l.0 ∙ sym (append-nil (points s.acts)); send_err = l.1; topics = l.2 },
        )
    send_subnets-Sends i late (pk ∷ pks) s (h, hs) =
        let s0 = listen_all lib validator (late 0) s in
        let l = listen_all-fields lib validator (late 0) s in
        let (s', done, f) = send_subnet-Sends i pk s0 h in
        let (s'', rest, g) = send_subnets-Sends i (λ j. late (suc j)) pks s' hs in
        (
          s'',
          rw (done, send_subnets) rest,
          record {
            points = g.points ∙ rw (f.points, l.0, append_assoc) (ground arith);
            send_err =
                g.send_err
                ∙ rw (f.send_err, l.1, last_or-append)
                    (ground (
                      arith,
                      append-nil (error_of (prepare decode_hex ssv_message encode name i pk)),
                    ));
            topics = λ u there. g.topics u (f.topics u (l.2 u there));
          },
        )

    -- The rounds of runSubnets end without a panic, whatever errors they meet, if the subnets of the
    -- validators are defined and the maximum of the latency is positive as an int32, and whichever
    -- calls of Listen subscribe between the publications. They record a point for every message whose
    -- key and data are good, under the validator's subnet, round by round and in the order of the
    -- validators; the error they keep is the last one of Encode; and no topic is lost.
    pub subnet_rounds-sends :
        (latency_max : ℤ) (draw : ℕ → ℕ) (sync : Text → Bool) (late : ℕ → ℕ → List Text)
        (pks : List Text) (n i : ℕ) (s : Sending State Topic Sub Params)
        → is_positive (to_int32 latency_max) ≡ true
        → Passes sync
        → AreSubnets subnets_count sub pks
        → (s' : Sending State Topic Sub Params) × (subnet_rounds decode_hex ssv_message encode name
              lib validator id subnets_count latency_max draw sync late pks n i s
            ≡ some s')
          × (points s'.acts ≡ points s.acts ++ all_points pks n i)
          × (s'.send_err
              ≡ last_or s.send_err (all_errors decode_hex ssv_message encode name pks n i))
          × ((u : Text)
              → is_some (lookup u s.tm.topics) ≡ true
              → is_some (lookup u s'.tm.topics) ≡ true)
    unfolding subnet_rounds round_latency
    subnet_rounds-sends latency_max draw sync late pks zero i s h all hs =
        (s, refl, sym (append-nil (points s.acts)), refl, λ u there. there)
    subnet_rounds-sends latency_max draw sync late pks (suc n) i s h all hs =
        let shaped = record s { acts = s.acts ++ shapes (draw i) (configured_state i) ∷ [] } in
        let (sent, all_sent, f) = send_subnets-Sends i (late i) pks shaped hs in
        let (s', done, listed, kept, same) =
          subnet_rounds-sends latency_max draw sync late pks n (suc i)
            (record sent { acts = sent.acts ++ signals (done_state i) ∷ [] }) h all hs in
        (
          s',
          rw
              (
                h,
                all (configured_state i),
                all_sent,
                all (done_state i),
                subnet_rounds,
                round_latency,
              )
              done,
          listed
              ∙ rw (points-append sent.acts _, f.points, points-append s.acts _)
                  (simp (append_assoc, append-nil)),
          kept
              ∙ rw f.send_err (
                  sym (
                    last_or-append s.send_err
                      (round_errors decode_hex ssv_message encode name i pks)
                      (all_errors decode_hex ssv_message encode name pks n (suc i)))),
          λ u there. same u (f.topics u there),
        )

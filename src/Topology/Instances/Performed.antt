-- ===== src/Topology/Instances/Performed.antt =====
-- The rounds of the two runs post what the script of an instance says.
use p2p_tests.Prelude.{
  Bool, Bool-cases, ℕ, zero, suc, ◌≡◌, refl, sym, ap, ◌∙◌, List, [], ◌∷◌, ◌++◌, append_assoc,
  append-nil, Option, none, some, Text, codes, Map, text_eq, arith, inl, inr, Option-cases,
}
use p2p_tests.Prelude.Int.{ℤ}
use p2p_tests.Topology.Errors.{GoError, wrapped, Result}
use p2p_tests.Topology.Clusters.{validator_subnet}
use p2p_tests.Topology.TopicManager.Interface.{Library}
use p2p_tests.Topology.TopicManager.{Manager, publish}
use p2p_tests.Topology.Subnets.{subnet_topic}
use p2p_tests.Topology.Listeners.{Start, start_all}
use p2p_tests.Topology.Sending.{
  Act, shapes, fails, records, signals, Sending, round_latency, Prepared-cases, prepare, done_state,
  configured_state, listen_all, listen_failures, report_group, send_group, send_groups,
  group_rounds, report_subnet, send_subnet, send_subnets, subnet_rounds,
}
use p2p_tests.Topology.Instances.{round_moves}
use p2p_tests.Topology.Instances.Posted.{names}

-- The names that some acts post to the service.
abbrev pub act_names : List Act → List Text
act_names [] = []
act_names (shapes n t ∷ acts) = t ∷ act_names acts
act_names (fails e ∷ acts) = act_names acts
act_names (records p b ∷ acts) = act_names acts
act_names (signals t ∷ acts) = t ∷ act_names acts

pub act_names-append : (xs ys : List Act) → act_names (xs ++ ys) ≡ act_names xs ++ act_names ys
act_names-append [] ys = refl
act_names-append (shapes n t ∷ xs) ys = ap (◌∷◌ t) (act_names-append xs ys)
act_names-append (fails e ∷ xs) ys = act_names-append xs ys
act_names-append (records p b ∷ xs) ys = act_names-append xs ys
act_names-append (signals t ∷ xs) ys = ap (◌∷◌ t) (act_names-append xs ys)

act_names_none : (xs ys : List Act) → act_names ys ≡ [] → act_names (xs ++ ys) ≡ act_names xs
act_names_none xs ys e = act_names-append xs ys ∙ rw e (append-nil (act_names xs))

act_names-listen_failures : (sts : List Start) → act_names (listen_failures sts) ≡ []
unfolding listen_failures
act_names-listen_failures [] = refl
act_names-listen_failures (st ∷ sts) = ground (arith, act_names-listen_failures sts)

module _ {M : Type 0} (decode_hex : Text → Result Text) (ssv_message : Text → Text → M)
    (encode : M → Result Text) (name : Text)
    {State Topic Sub Params Validator TopicOpt SubOpt Peer : Type 0}
    (lib : Library State Topic Sub Params Validator TopicOpt SubOpt Peer)
    (validator : Text → ℤ → Validator) (id : Text) where
  listen_all-act_names :
      (ts : List Text) (s : Sending State Topic Sub Params)
      → act_names (listen_all lib validator ts s).acts ≡ act_names s.acts
  unfolding listen_all
  listen_all-act_names ts s =
      act_names_none s.acts _ (act_names-listen_failures (start_all lib validator ts s.tm).1)

  report_group-act_names :
      (gid pk : Text) (i : ℕ) (r : Manager State Topic Sub Params × Option GoError)
      (s : Sending State Topic Sub Params)
      → act_names
          (report_group decode_hex ssv_message encode name lib validator id gid pk i r s).acts
        ≡ act_names s.acts
  unfolding report_group
  report_group-act_names gid pk i (tm, none) s = act_names_none s.acts _ refl
  report_group-act_names gid pk i (tm, some e) s = act_names_none s.acts _ refl

  send_group-act_names :
      (vg : Map Text Text) (i : ℕ) (pk : Text) (s : Sending State Topic Sub Params)
      → act_names (send_group decode_hex ssv_message encode name lib validator id vg i pk s).acts
        ≡ act_names s.acts
  unfolding send_group
  send_group-act_names vg i pk s =
      elim (Prepared-cases (prepare decode_hex ssv_message encode name i pk)) [
        | inl (e, bad) ↦ rw (bad, send_group) (act_names_none s.acts _ refl)
        | inr (inl (e, bad)) ↦ rw (bad, send_group) (act_names_none s.acts _ refl)
        | inr (inr (payload, good)) ↦ rw (good, send_group) (report_group-act_names _ pk i _ s)
      ]

  send_groups-act_names :
      (vg : Map Text Text) (i : ℕ) (late : ℕ → List Text) (pks : List Text)
      (s : Sending State Topic Sub Params)
      → act_names
          (send_groups decode_hex ssv_message encode name lib validator id vg i late pks s).acts
        ≡ act_names s.acts
  unfolding send_groups
  send_groups-act_names vg i late [] s = listen_all-act_names (late 0) s
  send_groups-act_names vg i late (pk ∷ pks) s =
      send_groups-act_names vg i (λ j. late (suc j)) pks _
      ∙ send_group-act_names vg i pk (listen_all lib validator (late 0) s)
      ∙ listen_all-act_names (late 0) s

  -- One round.
  round-act_names :
      (i n : ℕ) (before during after : List Act) (rest : List Text)
      → act_names during ≡ act_names (before ++ shapes n (configured_state i) ∷ [])
      → act_names after ≡ act_names (during ++ signals (done_state i) ∷ []) ++ rest
      → act_names after ≡ act_names before ++ configured_state i ∷ done_state i ∷ rest
  round-act_names i n before during after rest e f =
      f
      ∙ rw
          (
            act_names-append during (signals (done_state i) ∷ []),
            e,
            act_names-append before (shapes n (configured_state i) ∷ []),
          )
          (simp append_assoc)

  -- Whenever the rounds of runGroups end, they have posted the names of the script's rounds, in the
  -- same order and nothing else.
  pub group_rounds-names :
      (vg : Map Text Text) (latency_max : ℤ) (draw : ℕ → ℕ) (sync : Text → Bool)
      (late : ℕ → ℕ → List Text) (pks : List Text) (n i : ℕ) (s s' : Sending State Topic Sub Params)
      → group_rounds decode_hex ssv_message encode name lib validator id vg latency_max draw sync
          late pks n i s
        ≡ some s'
      → act_names s'.acts ≡ act_names s.acts ++ names (round_moves n i)
  unfolding group_rounds round_moves
  group_rounds-names vg latency_max draw sync late pks zero i s s' e =
      let same : s ≡ s' = cc in rw (sym same) (sym (append-nil (act_names s.acts)))
  group_rounds-names vg latency_max draw sync late pks (suc n) i s s' e =
      elim (Option-cases (round_latency latency_max (draw i))) [
        | inl bad ↦ cc (rw (bad, group_rounds) at e)
        | inr (latency, fine) ↦
            let shaped = record s { acts = s.acts ++ shapes latency (configured_state i) ∷ [] } in
            let sent =
              send_groups decode_hex ssv_message encode name lib validator id vg i (late i) pks
                shaped in
            let e' = rw (fine, group_rounds) at e in
            elim (Bool-cases (sync (configured_state i))) [
              | inr stuck ↦ cc (rw (stuck, group_rounds) at e')
              | inl set ↦
                  let e'' = rw (set, group_rounds) at e' in
                  elim (Bool-cases (sync (done_state i))) [
                    | inr stuck ↦ cc (rw (stuck, group_rounds) at e'')
                    | inl over ↦
                        round-act_names i latency s.acts sent.acts s'.acts
                          (names (round_moves n (suc i)))
                          (send_groups-act_names vg i (late i) pks shaped)
                          (group_rounds-names vg latency_max draw sync late pks n (suc i)
                            (record sent { acts = sent.acts ++ signals (done_state i) ∷ [] }) s'
                            (rw (over, group_rounds) at e''))
                  ]
            ]
      ]

  send_subnet-act_names :
      (subnets_count i : ℕ) (pk : Text) (s s' : Sending State Topic Sub Params)
      → send_subnet decode_hex ssv_message encode name lib validator id subnets_count i pk s
        ≡ some s'
      → act_names s'.acts ≡ act_names s.acts
  unfolding send_subnet report_subnet
  send_subnet-act_names subnets_count i pk s s' e =
      elim (Prepared-cases (prepare decode_hex ssv_message encode name i pk)) [
        | inl (c, bad) ↦
            let same = rw (bad, send_subnet) at e in
            let it : record s {
              acts = s.acts ++ fails (wrapped c (codes "could not listen to test topic")) ∷ [];
            }
                ≡ s' =
              cc in
            rw (sym it) (act_names_none s.acts _ refl)
        | inr (inl (c, bad)) ↦
            let same = rw (bad, send_subnet) at e in
            let it : record s { send_err = some c } ≡ s' = cc in rw (sym it) refl
        | inr (inr (payload, good)) ↦ elim (Option-cases (validator_subnet pk subnets_count)) [
          | inl gone ↦ cc (rw (good, gone, send_subnet) at e)
          | inr (sub, known) ↦
              let same = rw (good, known, send_subnet) at e in
              let it : report_subnet decode_hex ssv_message encode name lib validator id sub pk i
                    (publish lib validator (subnet_topic sub) payload s.tm) s
                  ≡ s' =
                cc in
              rw (sym it) (act_names_none s.acts _ refl)
        ]
      ]

  send_subnets-act_names :
      (subnets_count i : ℕ) (late : ℕ → List Text) (pks : List Text)
      (s s' : Sending State Topic Sub Params)
      → send_subnets decode_hex ssv_message encode name lib validator id subnets_count i late pks s
        ≡ some s'
      → act_names s'.acts ≡ act_names s.acts
  unfolding send_subnets
  send_subnets-act_names subnets_count i late [] s s' e =
      let it : listen_all lib validator (late 0) s ≡ s' = cc in
      rw (sym it) (listen_all-act_names (late 0) s)
  send_subnets-act_names subnets_count i late (pk ∷ pks) s s' e =
      let s0 = listen_all lib validator (late 0) s in
      elim (Option-cases
        (send_subnet decode_hex ssv_message encode name lib validator id subnets_count i pk s0)) [
          | inl bad ↦ cc (rw (bad, send_subnets) at e)
          | inr (mid, done) ↦
              send_subnets-act_names subnets_count i (λ j. late (suc j)) pks mid s'
                (rw (done, send_subnets) at e)
              ∙ send_subnet-act_names subnets_count i pk s0 mid done
              ∙ listen_all-act_names (late 0) s
        ]

  -- The same for runSubnets.
  pub subnet_rounds-names :
      (subnets_count : ℕ) (latency_max : ℤ) (draw : ℕ → ℕ) (sync : Text → Bool)
      (late : ℕ → ℕ → List Text) (pks : List Text) (n i : ℕ) (s s' : Sending State Topic Sub Params)
      → subnet_rounds decode_hex ssv_message encode name lib validator id subnets_count latency_max
          draw sync late pks n i s
        ≡ some s'
      → act_names s'.acts ≡ act_names s.acts ++ names (round_moves n i)
  unfolding subnet_rounds round_moves
  subnet_rounds-names subnets_count latency_max draw sync late pks zero i s s' e =
      let same : s ≡ s' = cc in rw (sym same) (sym (append-nil (act_names s.acts)))
  subnet_rounds-names subnets_count latency_max draw sync late pks (suc n) i s s' e =
      elim (Option-cases (round_latency latency_max (draw i))) [
        | inl bad ↦ cc (rw (bad, subnet_rounds) at e)
        | inr (latency, fine) ↦
            let shaped = record s { acts = s.acts ++ shapes latency (configured_state i) ∷ [] } in
            let e' = rw (fine, subnet_rounds) at e in
            elim (Bool-cases (sync (configured_state i))) [
              | inr stuck ↦ cc (rw (stuck, subnet_rounds) at e')
              | inl set ↦
                  let e'' = rw (set, subnet_rounds) at e' in
                  elim (Option-cases (
                    send_subnets decode_hex ssv_message encode name lib validator id subnets_count i
                      (late i) pks shaped)) [
                        | inl gone ↦ cc (rw (gone, subnet_rounds) at e'')
                        | inr (sent, done) ↦
                            let e3 = rw (done, subnet_rounds) at e'' in
                            elim (Bool-cases (sync (done_state i))) [
                              | inr stuck ↦ cc (rw (stuck, subnet_rounds) at e3)
                              | inl over ↦
                                  round-act_names i latency s.acts sent.acts s'.acts
                                    (names (round_moves n (suc i)))
                                    (send_subnets-act_names subnets_count i (late i) pks shaped sent
                                      done)
                                    (subnet_rounds-names subnets_count latency_max draw sync late
                                      pks n (suc i)
                                      (record sent {
                                        acts = sent.acts ++ signals (done_state i) ∷ [];
                                      })
                                      s' (rw (over, subnet_rounds) at e3))
                            ]
                      ]
            ]
      ]

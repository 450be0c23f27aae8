-- ===== src/Topology/Sending/Missed.antt =====
-- What becomes of the rounds of runGroups where no call of Listen has come to its Subscribe.
use p2p_tests.Prelude.{
  Bool, ℕ, zero, suc, ◌≡◌, refl, ◌∙◌, List, [], ◌∷◌, ◌++◌, append-nil, none, some, Text, codes, Map,
  lookup, text_eq, true, false, inl, inr, All, ap,
}
use p2p_tests.Prelude.Int.{ℤ}
use p2p_tests.Utils.Generate.{is_positive}
use p2p_tests.Topology.Errors.{Result}
use p2p_tests.Topology.TopicManager.Interface.{Library}
use p2p_tests.Topology.TopicManager.{publish}
use p2p_tests.Topology.Listeners.{start_all}
use p2p_tests.Topology.Sending.Effects.{Passes}
use p2p_tests.Topology.Sending.{
  Act, shapes, fails, records, signals, Sending, round_latency, to_int32, Prepared-cases, or_empty,
  done_state, configured_state, prepare, listen_all, listen_failures, report_group, send_group,
  send_groups, group_rounds,
}

-- The points of the messages that were published.
abbrev pub published : List Act → List Text
published [] = []
published (shapes n t ∷ acts) = published acts
published (fails e ∷ acts) = published acts
published (records p true ∷ acts) = p ∷ published acts
published (records p false ∷ acts) = published acts
published (signals t ∷ acts) = published acts

published-append : (xs ys : List Act) → published (xs ++ ys) ≡ published xs ++ published ys
published-append [] ys = refl
published-append (shapes n t ∷ xs) ys = published-append xs ys
published-append (fails e ∷ xs) ys = published-append xs ys
published-append (records p true ∷ xs) ys = ap (◌∷◌ p) (published-append xs ys)
published-append (records p false ∷ xs) ys = published-append xs ys
published-append (signals t ∷ xs) ys = published-append xs ys

published_none : (xs ys : List Act) → published ys ≡ [] → published (xs ++ ys) ≡ published xs
published_none xs ys e = published-append xs ys ∙ rw e (append-nil (published xs))

module _ {M : Type 0} (decode_hex : Text → Result Text) (ssv_message : Text → Text → M)
    (encode : M → Result Text) (name : Text)
    {State Topic Sub Params Validator TopicOpt SubOpt Peer : Type 0}
    (lib : Library State Topic Sub Params Validator TopicOpt SubOpt Peer)
    (validator : Text → ℤ → Validator) (id : Text) where
  -- The topics of some validators are not in the manager.
  abbrev pub AreMissing : Map Text Text → Map Text Topic → List Text → Type 0
  AreMissing vg topics pks =
      All (λ pk. lookup (codes "test." ++ or_empty (lookup pk vg)) topics ≡ none) pks

  -- Nothing is published from `s` to `s'`, and the manager is the same.
  pub record Misses (s s' : Sending State Topic Sub Params) : Type 0 where
    pub published : published s'.acts ≡ published s.acts
    pub manager : s'.tm ≡ s.tm

  send_group-Misses :
      (vg : Map Text Text) (i : ℕ) (pk : Text) (s : Sending State Topic Sub Params)
      → lookup (codes "test." ++ or_empty (lookup pk vg)) s.tm.topics ≡ none
      → Misses s (send_group decode_hex ssv_message encode name lib validator id vg i pk s)
  unfolding send_group report_group publish
  send_group-Misses vg i pk s gone =
      elim (Prepared-cases (prepare decode_hex ssv_message encode name i pk)) [
        | inl (e, bad) ↦
            rw (bad, send_group)
              (record { published = published_none s.acts _ refl; manager = refl })
        | inr (inl (e, bad)) ↦
            rw (bad, send_group)
              (record { published = published_none s.acts _ refl; manager = refl })
        | inr (inr (payload, good)) ↦
            rw (good, gone, publish, send_group)
              (record { published = published_none s.acts _ refl; manager = refl })
      ]

  send_groups-Misses :
      (vg : Map Text Text) (i : ℕ) (pks : List Text) (s : Sending State Topic Sub Params)
      → AreMissing vg s.tm.topics pks
      → Misses s
          (send_groups decode_hex ssv_message encode name lib validator id vg i (λ j. []) pks s)
  unfolding send_groups listen_all start_all listen_failures
  send_groups-Misses vg i [] s gone = record {
    published = published_none s.acts [] refl;
    manager = refl;
  }
  send_groups-Misses vg i (pk ∷ pks) s (gone, all) =
      let s0 = listen_all lib validator [] s in
      let f = send_group-Misses vg i pk s0 gone in
      let s' = send_group decode_hex ssv_message encode name lib validator id vg i pk s0 in
      let g = send_groups-Misses vg i pks s' (rw f.manager all) in
      record {
        published = g.published ∙ f.published ∙ published_none s.acts [] refl;
        manager = g.manager ∙ f.manager;
      }

  -- If the manager has none of the validators' topics when the rounds begin, and no call of Listen
  -- subscribes during them, the rounds end all the same, if the latency's maximum is positive as an
  -- int32 and the calls that wait for a state return, and nothing is published in any of them.
  pub group_rounds-misses :
      (vg : Map Text Text) (latency_max : ℤ) (draw : ℕ → ℕ) (sync : Text → Bool) (pks : List Text)
      (n i : ℕ) (s : Sending State Topic Sub Params)
      → is_positive (to_int32 latency_max) ≡ true
      → Passes sync
      → AreMissing vg s.tm.topics pks
      → (s' : Sending State Topic Sub Params) × (group_rounds decode_hex ssv_message encode name lib
            validator id vg latency_max draw sync
            (λ r j. [])
            pks
            n
            i
            s
          ≡ some s')
        × (published s'.acts ≡ published s.acts)
        × (s'.tm ≡ s.tm)
  unfolding group_rounds round_latency
  group_rounds-misses vg latency_max draw sync pks zero i s h all gone = (s, refl, refl, refl)
  group_rounds-misses vg latency_max draw sync pks (suc n) i s h all gone =
      let shaped = record s { acts = s.acts ++ shapes (draw i) (configured_state i) ∷ [] } in
      let sent =
        send_groups decode_hex ssv_message encode name lib validator id vg i (λ j. []) pks shaped in
      let f = send_groups-Misses vg i pks shaped gone in
      let (s', done, silent, same) =
        group_rounds-misses vg latency_max draw sync pks n (suc i)
          (record sent { acts = sent.acts ++ signals (done_state i) ∷ [] }) h all
          (rw f.manager gone) in
      (
        s',
        rw (h, all (configured_state i), all (done_state i), group_rounds, round_latency) done,
        silent ∙ published_none sent.acts _ refl ∙ f.published ∙ published_none s.acts _ refl,
        same ∙ f.manager,
      )

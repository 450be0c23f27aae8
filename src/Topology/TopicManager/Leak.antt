-- ===== src/Topology/TopicManager/Leak.antt =====
-- A join that the library has made and the manager has not kept: join returns early when the score
-- parameters or the validator are refused, and leaves the topic joined in the library alone.
use p2p_tests.Prelude.{
  ◌≡◌, sym, ap, ◌∙◌, List, none, some, Text, lookup, lookup-insert, ◌==◌, text_eq, is_some, Bool,
  true, arith, ◌⊎◌, inl, inr,
}
use p2p_tests.Prelude.Int.{ℤ}
use p2p_tests.Topology.TopicManager.Interface.{Library, Joining, is_ok, Result-cases}
use p2p_tests.Topology.TopicManager.{Manager, set_validator, set_scoring, join_topic}
use p2p_tests.Topology.TopicManager.Maps.{join_topic-Joins}

module _ {State Topic Sub Params Validator TopicOpt SubOpt Peer : Type 0}
    (lib : Library State Topic Sub Params Validator TopicOpt SubOpt Peer)
    (validator : Text → ℤ → Validator) (joined : State → Text → Bool) (name : Topic → Text)
    (laws : Joining lib joined name) where
  -- The library holds the topic and the manager does not; the handles that the manager holds stand
  -- under their names.
  pub record IsLeaked (t : Text) (tm : Manager State Topic Sub Params) : Type 0 where
    pub held : joined tm.ps t ≡ true
    pub lost : lookup t tm.topics ≡ none
    pub unsubscribed : lookup t tm.subs ≡ none
    pub named : (u : Text) (h : Topic) → lookup u tm.topics ≡ some h → name h ≡ u

  -- The end of a join: the topic is kept, or it is lost with an error and a handle.
  set_scoring-ps :
      (t u : Text) (h : Topic) (tm : Manager State Topic Sub Params)
      → joined (set_scoring lib validator t h tm).0.ps u ≡ joined tm.ps u
  unfolding set_scoring set_validator
  set_scoring-ps t u h tm = grind (arith, laws.score_kept, laws.unregister_kept, laws.register_kept)

  set_scoring-named :
      (t u : Text) (h k : Topic) (tm : Manager State Topic Sub Params)
      → name h ≡ t
      → lookup u (set_scoring lib validator t h tm).0.topics ≡ some k
      → (lookup u tm.topics ≡ some k) ⊎ ((u == t) ≡ true) × (h ≡ k)
  unfolding set_scoring set_validator
  set_scoring-named t u h k tm n e = ground (arith, lookup-insert t u h tm.topics)

  pub join_topic-held :
      (t u : Text) (opts : List TopicOpt) (tm : Manager State Topic Sub Params)
      → joined tm.ps u ≡ true
      → joined (join_topic lib validator t opts tm).0.ps u ≡ true
  unfolding join_topic
  join_topic-held t u opts tm held =
      let kept : joined (lib.join t opts tm.ps).0 u ≡ true =
        ground (arith, laws.join_kept t opts tm.ps u) in
      elim (Result-cases (lib.join t opts tm.ps).1) [
        | inl (h, found) ↦ rw (found, join_topic) (set_scoring-ps t u h _ ∙ kept)
        | inr (e, bad) ↦ rw (bad, join_topic) kept
      ]

  pub join_topic-named :
      (t u : Text) (opts : List TopicOpt) (k : Topic) (tm : Manager State Topic Sub Params)
      → ((v : Text) (h : Topic) → lookup v tm.topics ≡ some h → name h ≡ v)
      → lookup u (join_topic lib validator t opts tm).0.topics ≡ some k
      → name k ≡ u
  unfolding join_topic
  join_topic-named t u opts k tm named e = elim (Result-cases (lib.join t opts tm.ps).1) [
    | inr (c, bad) ↦ named u k (rw (bad, join_topic) at e)
    | inl (h, found) ↦
        elim (set_scoring-named t u h k _ (laws.join_name t opts tm.ps h found)
          (rw (found, join_topic) at e)) [
            | inl old ↦ named u k old
            | inr (same, new) ↦
                ap name (sym new)
                ∙ laws.join_name t opts tm.ps h found
                ∙ sym ((text_eq.beq_iff u t).0 same)
          ]
  ]

  -- A second join of a leaked topic fails.
  pub join_topic_leaked :
      (t : Text) (opts : List TopicOpt) (tm : Manager State Topic Sub Params)
      → joined tm.ps t ≡ true
      → let r = join_topic lib validator t opts tm in
        (is_some r.2 ≡ true) × (r.0.topics ≡ tm.topics) × (r.0.subs ≡ tm.subs)
  unfolding join_topic
  join_topic_leaked t opts tm held = ground (arith, laws.join_joined t opts tm.ps held)

  -- What a join that returns a topic and an error leaves behind.
  pub join_topic-IsLeaked :
      (t : Text) (opts : List TopicOpt) (tm : Manager State Topic Sub Params)
      → lookup t tm.topics ≡ none
      → lookup t tm.subs ≡ none
      → ((u : Text) (h : Topic) → lookup u tm.topics ≡ some h → name h ≡ u)
      → let r = join_topic lib validator t opts tm in
        is_some r.1 ≡ true → is_some r.2 ≡ true → IsLeaked t r.0
  unfolding join_topic
  join_topic-IsLeaked t opts tm gone no_sub named got bad =
      let j = join_topic-Joins lib validator t opts tm in
      record {
        held = elim (Result-cases (lib.join t opts tm.ps).1) [
          | inr (e, failed) ↦ cc (rw (failed, join_topic) at got)
          | inl (h, found) ↦
              rw (found, join_topic)
                (set_scoring-ps t t h _
                  ∙ ground
                      (arith, laws.join_kept t opts tm.ps t, ap is_ok found, text_eq.beq_iff t t))
        ];
        lost = rw (j.untouched bad) gone;
        unsubscribed = rw j.subs no_sub;
        named = λ u h e. join_topic-named t u opts h tm named e;
      }

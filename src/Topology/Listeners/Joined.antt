-- ===== src/Topology/Listeners/Joined.antt =====
-- Where every call of Subscribe ended without error, each topic that is listened to is joined.
use p2p_tests.Prelude.{
  ◌≡◌, List, [], ◌∷◌, Text, lookup, text_eq, is_some, true, In, All, Bool-cases, ◌==◌, inl, inr,
}
use p2p_tests.Prelude.Int.{ℤ}
use p2p_tests.Topology.TopicManager.Interface.{Library}
use p2p_tests.Topology.TopicManager.{Manager}
use p2p_tests.Topology.TopicManager.Maps.{subscribe-Subscribes}
use p2p_tests.Topology.TopicManager.History.{IsCovered, subscribes, step-IsCovered, step}
use p2p_tests.Topology.Listeners.{start_listen, start_all}
use p2p_tests.Topology.Listeners.Once.{IsClean, start_all-subscribed}

module _ {State Topic Sub Params Validator TopicOpt SubOpt Peer : Type 0}
    (lib : Library State Topic Sub Params Validator TopicOpt SubOpt Peer)
    (validator : Text → ℤ → Validator) where
  start_all-IsCovered :
      (ts : List Text) (tm : Manager State Topic Sub Params)
      → IsCovered tm.topics tm.subs
      → let tm' = (start_all lib validator ts tm).0 in IsCovered tm'.topics tm'.subs
  unfolding start_all start_listen
  start_all-IsCovered [] tm c = c
  start_all-IsCovered (t ∷ ts) tm c =
      start_all-IsCovered ts _ (unfold step in step-IsCovered lib validator tm (subscribes t []) c)

  -- No call takes a topic away.
  pub start_all-keeps :
      (t : Text) (ts : List Text) (tm : Manager State Topic Sub Params)
      → is_some (lookup t tm.topics) ≡ true
      → is_some (lookup t (start_all lib validator ts tm).0.topics) ≡ true
  unfolding start_all start_listen
  start_all-keeps t [] tm h = h
  start_all-keeps t (u ∷ ts) tm h =
      let f = subscribe-Subscribes lib validator u [] tm in
      start_all-keeps t ts _ (elim (Bool-cases (t == u)) [
        | inr other ↦ rw (f.others t other) h
        | inl same ↦ let e : t ≡ u = (text_eq.beq_iff t u).0 same in rw (f.kept (rw e at h)) h
      ])

  pub start_all-joined :
      (t : Text) (ts : List Text) (tm : Manager State Topic Sub Params)
      → IsCovered tm.topics tm.subs
      → In t ts
      → All IsClean (start_all lib validator ts tm).1
      → is_some (lookup t (start_all lib validator ts tm).0.topics) ≡ true
  start_all-joined t ts tm c h clean =
      start_all-IsCovered ts tm c t (start_all-subscribed lib validator t ts tm h clean)

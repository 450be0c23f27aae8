-- ===== src/Topology/Listeners/Once.antt =====
-- However often a topic is listened to, one loop runs on it.
use p2p_tests.Prelude.{
  ℕ, suc, ◌+◌, ◌≤◌, ◌≡◌, refl, List, [], ◌∷◌, none, Text, lookup, ◌==◌, text_eq, lookup-insert,
  is_some, Bool, true, false, if◌then◌else◌, ◌&&◌, arith, inl, inr, Option-cases, In, All,
}
use p2p_tests.Prelude.Int.{ℤ}
use p2p_tests.Topology.TopicManager.Interface.{Library}
use p2p_tests.Topology.TopicManager.{Manager, subscribe}
use p2p_tests.Topology.TopicManager.Maps.{insert_some, subscribe-Subscribes}
use p2p_tests.Topology.TopicManager.Idempotence.{subscribe-lookup}
use p2p_tests.Topology.Listeners.{Start, runs_loop, start_listen, start_all}

-- How many of the calls went on to a loop on a topic.
abbrev pub loops : Text → List Start → ℕ
loops t [] = 0
loops t (st ∷ sts) = if runs_loop st && t == st.topic then suc (loops t sts) else loops t sts

abbrev pub one_if : Bool → ℕ
one_if true = 1
one_if false = 0

-- A call ended without error.
abbrev pub IsClean : Start → Type 0
IsClean st = st.error ≡ none

module _ {State Topic Sub Params Validator TopicOpt SubOpt Peer : Type 0}
    (lib : Library State Topic Sub Params Validator TopicOpt SubOpt Peer)
    (validator : Text → ℤ → Validator) where
  start_listen-loops :
      (t u : Text) (tm : Manager State Topic Sub Params)
      → let r = start_listen lib validator u tm in
        one_if (is_some (lookup t r.0.subs))
        ≡ loops t (r.1 ∷ []) + one_if (is_some (lookup t tm.subs))
  unfolding start_listen
  start_listen-loops t u tm =
      let r = subscribe lib validator u [] tm in
      let f = subscribe-Subscribes lib validator u [] tm in
      elim (Option-cases (lookup u tm.subs)) [
        | inr (s, here) ↦ let a = f.again (rw here refl) in rw (a.0, a.2, a.3) (omega arith)
        | inl gone ↦ elim (Option-cases r.3) [
          | inr (e, bad) ↦ rw ((f.failed (rw bad refl)).1, bad) (omega arith)
          | inl clean ↦ elim (Option-cases r.1) [
            | inl bad ↦ cc (f.named clean)
            | inr (s, got) ↦
                rw (f.stored gone clean, f.fresh gone, clean, got, insert_some)
                  (ground (arith, lookup-insert u t s tm.subs, text_eq.beq_iff t u, gone))
          ]
        ]
      ]

  -- A topic has a subscription afterwards exactly if it had one or one loop was started on it.
  start_all-loops :
      (t : Text) (ts : List Text) (tm : Manager State Topic Sub Params)
      → let r = start_all lib validator ts tm in
        one_if (is_some (lookup t r.0.subs)) ≡ loops t r.1 + one_if (is_some (lookup t tm.subs))
  unfolding start_all
  start_all-loops t [] tm = omega arith
  start_all-loops t (u ∷ ts) tm =
      let r = start_listen lib validator u tm in
      ground (arith, start_listen-loops t u tm, start_all-loops t ts r.0)

  start_all-kept :
      (t : Text) (ts : List Text) (tm : Manager State Topic Sub Params)
      → is_some (lookup t tm.subs) ≡ true
      → is_some (lookup t (start_all lib validator ts tm).0.subs) ≡ true
  start_all-kept t ts tm h = ground (arith, start_all-loops t ts tm)

  -- A topic that was listened to, when every call ended without error, has a subscription.
  pub start_all-subscribed :
      (t : Text) (ts : List Text) (tm : Manager State Topic Sub Params)
      → In t ts
      → All IsClean (start_all lib validator ts tm).1
      → is_some (lookup t (start_all lib validator ts tm).0.subs) ≡ true
  unfolding start_all start_listen
  start_all-subscribed t [] tm h c = absurd h
  start_all-subscribed t (u ∷ ts) tm (inl same) (clean, c) =
      let l = subscribe-lookup lib validator u [] tm clean in
      start_all-kept t ts _ (rw (same, l.0) l.1)
  start_all-subscribed t (u ∷ ts) tm (inr h) (clean, c) = start_all-subscribed t ts _ h c

  -- Whatever topics are listened to, in whatever order and however often, at most one loop runs on a
  -- topic that had no subscription; exactly one does, if the topic is among them and every call of
  -- Subscribe ended without error.
  pub start_all-once :
      (t : Text) (ts : List Text) (tm : Manager State Topic Sub Params)
      → lookup t tm.subs ≡ none
      → let sts = (start_all lib validator ts tm).1 in
        (loops t sts ≤ 1) × (In t ts → All IsClean sts → loops t sts ≡ 1)
  start_all-once t ts tm gone = (
    ground (arith, start_all-loops t ts tm),
    λ h c. ground (arith, start_all-loops t ts tm, start_all-subscribed t ts tm h c),
  )

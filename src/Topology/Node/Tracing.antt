-- ===== src/Topology/Node/Tracing.antt =====
-- The tracer of a node: which call of Close stops it, and when no call can.
use p2p_tests.Prelude.{
  ℕ, ◌<◌, ◌≡◌, refl, sym, subst, ◌∙◌, List, [], ◌∷◌, ◌++◌, Option, none, some, codes, Text, Bool,
  true, false, is_some, Option-cases, arith, length, inl, inr,
}
use p2p_tests.Topology.Errors.{GoError, wrapped, ok, err}
use p2p_tests.Topology.TopicManager.Interface.{Result-cases}
use p2p_tests.Topology.Notiffee.{limit_of}
use p2p_tests.Topology.Tracer.{Tracer, stop, new_test_tracer}
use p2p_tests.Topology.Node.{
  NodeConfig, Answers, Act, creates_host, starts_tracer, creates_router, cancels_context,
  stops_tracer, closes_host, notifies, Node, Done, setup_tracer, setup_pubsub, stop_tracer, close,
  abandon, begin_node, new_node, router_options, tracer_acts,
}
use p2p_tests.Topology.Node.Release.{
  is_host_closed, is_tracer_started, is_tracer_stopped, is_cancel, times, times-append,
}

-- A tracer, if there is one, whose stop signal has not been sent.
abbrev IsUnstopped : Option Tracer → Type 0
IsUnstopped none = Unit
IsUnstopped (some tracer) = tracer.done_ch ≡ false

abbrev started : Option Tracer → ℕ
started none = 0
started (some tracer) = 1

new_test_tracer-IsUnstopped :
    (open_file : Text → Option GoError) (p q : Text) (full : Bool) (tracer : Tracer)
    → new_test_tracer open_file p q full ≡ ok tracer
    → tracer.done_ch ≡ false
unfolding new_test_tracer
new_test_tracer-IsUnstopped open_file p q full tracer h = ground arith

module _ {Host State Others MsgHandler ErrHandler : Type 0} (Topic Sub Params : Type 0)
    (ans : Answers Host State Others) (text_of : GoError → Text)
    (cfg : NodeConfig MsgHandler ErrHandler) where
  setup_tracer-IsUnstopped :
      (p q : Text) (tracer : Option Tracer) → setup_tracer ans p q ≡ ok tracer → IsUnstopped tracer
  unfolding setup_tracer
  setup_tracer-IsUnstopped p q none h = tt
  setup_tracer-IsUnstopped p q (some tracer) h =
      ground (arith, new_test_tracer-IsUnstopped ans.open_file p q false tracer)

  setup_pubsub-tracer :
      (n : Node Host State Topic Sub Params MsgHandler ErrHandler)
      → (setup_pubsub ans n).error ≡ none
      → IsUnstopped (setup_pubsub ans n).node.tracer
        × (times is_tracer_started (setup_pubsub ans n).acts
            ≡ started (setup_pubsub ans n).node.tracer)
  unfolding setup_pubsub
  setup_pubsub-tracer n h =
      elim (Result-cases (setup_tracer ans n.cfg.trace_out (ans.host_id n.host))) [
        | inr (e, bad) ↦ cc (rw (bad, setup_pubsub) at h)
        | inl (tracer, good) ↦
            elim (Result-cases (ans.router (router_options ans.default_params))) [
              | inr (e, bad) ↦ cc (rw (good, bad, setup_pubsub) at h)
              | inl (ps, up) ↦
                  rw (good, up, setup_pubsub)
                    (setup_tracer-IsUnstopped _ _ tracer good, counted tracer)
            ]
      ]
    where
      counted :
          (tracer : Option Tracer)
          → times is_tracer_started (tracer_acts ans tracer ++ creates_router ∷ []) ≡ started tracer
      counted none = refl
      counted (some tracer) = refl

  -- What Close does to a node.
  pub record Closes (n : Node Host State Topic Sub Params MsgHandler ErrHandler)
      (c : Done (Node Host State Topic Sub Params MsgHandler ErrHandler)) : Type 0 where
    pub error : c.error ≡ ans.close_host
    pub cancelled : c.node.cancelled ≡ true
    pub cancels : times is_cancel c.acts ≡ 1
    pub closes : times is_host_closed c.acts ≡ 1
    pub stops : times is_tracer_stopped c.acts ≡ started n.tracer

  close-Closes :
      (n : Node Host State Topic Sub Params MsgHandler ErrHandler) (tracer : Option Tracer)
      → n.tracer ≡ tracer
      → IsUnstopped tracer
      → (c : Done (Node Host State Topic Sub Params MsgHandler ErrHandler)) × (close ans n ≡ some c)
        × Closes n c
  unfolding close stop_tracer stop
  close-Closes n none e h = (
    record {
      acts = cancels_context ∷ closes_host ∷ [];
      node = record n { cancelled = true; tracer = none };
      error = ans.close_host;
    },
    ground arith,
    record { error = refl; cancelled = refl; cancels = refl; closes = refl; stops = rw e refl },
  )
  close-Closes n (some tracer) e h = (
    record {
      acts = cancels_context ∷ stops_tracer tracer.metrics ∷ closes_host ∷ [];
      node = record n { cancelled = true; tracer = some (record tracer { done_ch = true }) };
      error = ans.close_host;
    },
    ground arith,
    record { error = refl; cancelled = refl; cancels = refl; closes = refl; stops = rw e refl },
  )

  abandon-node :
      (acts : List Act) (n : Node Host State Topic Sub Params MsgHandler ErrHandler) (e : GoError)
      (d : Done (Option (Node Host State Topic Sub Params MsgHandler ErrHandler)))
      → abandon ans acts n e text_of ≡ some d
      → d.node ≡ none
  unfolding abandon
  abandon-node acts n e d h = ground arith

  begin_node-tracer :
      (h : Host) (d : Done (Option (Node Host State Topic Sub Params MsgHandler ErrHandler)))
      (n : Node Host State Topic Sub Params MsgHandler ErrHandler)
      → begin_node ans text_of cfg h ≡ some d
      → d.node ≡ some n
      → IsUnstopped n.tracer × (times is_tracer_started d.acts ≡ started n.tracer)
  unfolding begin_node
  begin_node-tracer h d n done here =
      let bare : Node Host State Topic Sub Params MsgHandler ErrHandler = record {
        cancelled = false;
        cfg = cfg;
        host = h;
        topics = none;
        tracer = none;
        msg_handler = cfg.msg_handler;
        err_handler = cfg.err_handler;
      } in
      let set = setup_pubsub ans bare in
      let created = creates_host cfg.listen_addrs (codes "test/topology/" ++ cfg.name) in
      elim (Option-cases set.error) [
        | inr (e, bad) ↦
            let gone : d.node ≡ none =
              abandon-node (created ∷ set.acts) set.node e d (rw (bad, begin_node) at done) in
            absurd (ground (arith, gone, here))
        | inl fine ↦
            let t = setup_pubsub-tracer bare fine in
            let done' = rw (fine, begin_node) at done in
            let acts : d.acts ≡ created ∷ set.acts ++ notifies (limit_of cfg.max_peers) ∷ [] =
              ground (arith, done') in
            let same : set.node ≡ n = ground (arith, done', here) in
            subst (λ m. IsUnstopped m.tracer × (times is_tracer_started d.acts ≡ started m.tracer))
              same
              (
                t.0,
                rw acts (
                    times-append is_tracer_started set.acts (notifies _ ∷ []) ∙ omega (arith, t.1)),
              )
      ]

  new_node-began :
      (d : Done (Option (Node Host State Topic Sub Params MsgHandler ErrHandler)))
      (n : Node Host State Topic Sub Params MsgHandler ErrHandler)
      → new_node ans text_of cfg ≡ some d
      → d.node ≡ some n
      → (h : Host) × (begin_node ans text_of cfg h ≡ some d)
  unfolding new_node
  new_node-began d n done here = elim (Option-cases ans.key) [
    | inr (e, bad) ↦ absurd (ground arith)
    | inl keyed ↦ elim (Result-cases ans.host) [
      | inr (e, bad) ↦ absurd (ground arith)
      | inl (h, up) ↦ (h, ground arith)
    ]
  ]

  -- A node that NewNode has returned can be closed: Close does not block, returns what Close of the
  -- host returns, cancels the context and closes the host, once each, and stops the tracer exactly
  -- if NewNode has started one.
  pub close-new_node :
      (d : Done (Option (Node Host State Topic Sub Params MsgHandler ErrHandler)))
      (n : Node Host State Topic Sub Params MsgHandler ErrHandler)
      → new_node ans text_of cfg ≡ some d
      → d.node ≡ some n
      → (c : Done (Node Host State Topic Sub Params MsgHandler ErrHandler)) × (close ans n ≡ some c)
        × (c.error ≡ ans.close_host)
        × (c.node.cancelled ≡ true)
        × (times is_cancel c.acts ≡ 1)
        × (times is_host_closed c.acts ≡ 1)
        × (times is_tracer_stopped c.acts ≡ times is_tracer_started d.acts)
  close-new_node d n done here =
      let (h, began) = new_node-began d n done here in
      let t = begin_node-tracer h d n began here in
      let (c, closed, f) = close-Closes n n.tracer refl t.0 in
      (c, closed, f.error, f.cancelled, f.cancels, f.closes, f.stops ∙ sym t.1)

  -- When a path for the trace is configured, and the host and the trace file are there, but the
  -- router is refused, NewNode returns an error and leaves the tracer that it has started running:
  -- it is started once and never stopped, and no node is returned by which to stop it.
  pub new_node-leaks :
      (h : Host) (e : GoError)
      → ans.key ≡ none
      → ans.host ≡ ok h
      → 0 < length cfg.trace_out
      → ans.open_file (cfg.trace_out ++ codes "-filtered.bin") ≡ none
      → ans.router (router_options ans.default_params) ≡ err e
      → (d : Done (Option (Node Host State Topic Sub Params MsgHandler ErrHandler))) × (new_node ans
            text_of cfg
          ≡ some d)
        × (is_some d.error ≡ true)
        × (d.node ≡ none)
        × (times is_tracer_started d.acts ≡ 1)
        × (times is_tracer_stopped d.acts ≡ 0)
  unfolding new_node begin_node setup_pubsub setup_tracer new_test_tracer abandon close stop_tracer
  new_node-leaks h e keyed up traced opened refused = (
    record {
      acts =
          creates_host cfg.listen_addrs (codes "test/topology/" ++ cfg.name)
          ∷ starts_tracer
          ∷ cancels_context
          ∷ closes_host
          ∷ [];
      node = none;
      error = elim ans.close_host [
        | none ↦ some (wrapped e (codes "could not create pubsub router"))
        | some c ↦ some (wrapped c (text_of (wrapped e (codes "could not create pubsub router"))))
      ];
    },
    ground arith,
    ground arith,
    refl,
    refl,
    refl,
  )

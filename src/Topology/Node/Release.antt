-- ===== src/Topology/Node/Release.antt =====
-- What NewNode and Close acquire and release: the host, the context, and the tracer.
use p2p_tests.Prelude.{
  ℕ, Option-cases, ◌+◌, ◌≡◌, Option-cases, refl, sym, subst, List, [], ◌∷◌, ◌++◌, Option, none,
  some, codes, Text, Bool, true, false, is_some, arith, length, length-append, keep, keep-append,
  inl, inr, not,
}
use p2p_tests.Topology.Errors.{GoError, wrapped, ok, err}
use p2p_tests.Topology.TopicManager.Interface.{Result-cases}
use p2p_tests.Topology.Node.{
  NodeConfig, Answers, Act, creates_host, starts_tracer, cancels_context, stops_tracer, closes_host,
  notifies, Node, Done, setup_tracer, setup_pubsub, stop_tracer, close, abandon, begin_node,
  new_node, router_options,
}

abbrev pub is_host_created : Act → Bool
is_host_created (creates_host addrs agent) = true
is_host_created _ = false

abbrev pub is_host_closed : Act → Bool
is_host_closed closes_host = true
is_host_closed _ = false

abbrev pub is_tracer_started : Act → Bool
is_tracer_started starts_tracer = true
is_tracer_started _ = false

abbrev pub is_tracer_stopped : Act → Bool
is_tracer_stopped (stops_tracer written) = true
is_tracer_stopped _ = false

abbrev pub is_cancel : Act → Bool
is_cancel cancels_context = true
is_cancel _ = false

-- How many acts are of a kind.
abbrev pub times : (Act → Bool) → List Act → ℕ
times p acts = length (keep p acts)

pub times-append :
    (p : Act → Bool) (xs ys : List Act) → times p (xs ++ ys) ≡ times p xs + times p ys
times-append p xs ys = rw (keep-append p xs ys) (length-append (keep p xs) (keep p ys))

module _ {Host State Others MsgHandler ErrHandler : Type 0} (Topic Sub Params : Type 0)
    (ans : Answers Host State Others) (text_of : GoError → Text)
    (cfg : NodeConfig MsgHandler ErrHandler) where
  -- What NewNode leaves behind.
  pub record Leaves (d : Done (Option (Node Host State Topic Sub Params MsgHandler ErrHandler)))
      : Type 0 where
    -- A node, or an error.
    pub result : is_some d.node ≡ not (is_some d.error)
    -- Without an error the host is open and the context is not cancelled.
    pub opened :
        d.error ≡ none
        → (times is_host_created d.acts ≡ 1)
          × (times is_host_closed d.acts ≡ 0)
          × (times is_cancel d.acts ≡ 0)
    -- With an error every host that was created is closed, with its context cancelled.
    pub released :
        is_some d.error ≡ true
        → (times is_host_closed d.acts ≡ times is_host_created d.acts)
          × (times is_cancel d.acts ≡ times is_host_created d.acts)

  -- A call that does not block, and leaves such a thing behind.
  abbrev pub LeavesNone :
      Option (Done (Option (Node Host State Topic Sub Params MsgHandler ErrHandler))) → Type 0
  LeavesNone none = ⊥
  LeavesNone (some d) = Leaves d

  setup_pubsub-acts :
      (n : Node Host State Topic Sub Params MsgHandler ErrHandler)
      → let set = setup_pubsub ans n in
        (times is_host_created set.acts ≡ 0)
        × (times is_host_closed set.acts ≡ 0)
        × (times is_cancel set.acts ≡ 0)
        × (is_some set.error ≡ true → set.node ≡ n)
  unfolding setup_pubsub
  setup_pubsub-acts n =
      elim (Result-cases (setup_tracer ans n.cfg.trace_out (ans.host_id n.host))) [
        | inr (e, bad) ↦ rw (bad, setup_pubsub) (refl, refl, refl, λ _. refl)
        | inl (none, good) ↦ elim (Result-cases (ans.router (router_options ans.default_params))) [
          | inr (e, bad) ↦ rw (good, bad, setup_pubsub) (refl, refl, refl, λ _. refl)
          | inl (ps, up) ↦ rw (good, up, setup_pubsub) (refl, refl, refl, λ h. cc)
        ]
        | inl (some tracer, good) ↦
            elim (Result-cases (ans.router (router_options ans.default_params))) [
              | inr (e, bad) ↦ rw (good, bad, setup_pubsub) (refl, refl, refl, λ _. refl)
              | inl (ps, up) ↦ rw (good, up, setup_pubsub) (refl, refl, refl, λ h. cc)
            ]
      ]

  -- Where setupPubsub fails NewNode closes the node that it has begun.
  abandon-Leaves :
      (acts : List Act) (n : Node Host State Topic Sub Params MsgHandler ErrHandler) (e : GoError)
      (addrs : List Text) (agent : Text)
      → n.tracer ≡ none
      → times is_host_created acts ≡ 0
      → times is_host_closed acts ≡ 0
      → times is_cancel acts ≡ 0
      → LeavesNone (abandon ans (creates_host addrs agent ∷ acts) n e text_of)
  unfolding abandon close stop_tracer
  abandon-Leaves acts n e addrs agent h created closed cancelled =
      let more = cancels_context ∷ closes_host ∷ [] in
      elim (Option-cases ans.close_host) [
        | inl fine ↦
            rw (h, abandon, close, fine)
              (record {
                result = refl;
                opened = λ bad. cc;
                released = λ _. omega (
                  arith,
                  times-append is_host_created acts more,
                  times-append is_host_closed acts more,
                  times-append is_cancel acts more,
                  created,
                  closed,
                  cancelled,
                );
              })
        | inr (c, bad) ↦
            rw (h, abandon, close, bad)
              (record {
                result = refl;
                opened = λ bad. cc;
                released = λ _. omega (
                  arith,
                  times-append is_host_created acts more,
                  times-append is_host_closed acts more,
                  times-append is_cancel acts more,
                  created,
                  closed,
                  cancelled,
                );
              })
      ]

  begin_node-Leaves : (h : Host) → LeavesNone (begin_node ans text_of cfg h)
  unfolding begin_node
  begin_node-Leaves h =
      let n : Node Host State Topic Sub Params MsgHandler ErrHandler = record {
        cancelled = false;
        cfg = cfg;
        host = h;
        topics = none;
        tracer = none;
        msg_handler = cfg.msg_handler;
        err_handler = cfg.err_handler;
      } in
      let set = setup_pubsub ans n in
      let f = setup_pubsub-acts n in
      elim (Option-cases set.error) [
        | inr (e, bad) ↦
            rw (bad, begin_node)
              (abandon-Leaves set.acts set.node e _ _ (rw (f.3 (rw bad refl)) refl) f.0 f.1 f.2)
        | inl fine ↦
            rw (fine, begin_node)
              (record {
                result = refl;
                opened = λ _. omega (
                  arith,
                  times-append is_host_created set.acts (notifies _ ∷ []),
                  times-append is_host_closed set.acts (notifies _ ∷ []),
                  times-append is_cancel set.acts (notifies _ ∷ []),
                  f.0,
                  f.1,
                  f.2,
                );
                released = λ bad. cc;
              })
      ]

  abbrev failed : GoError → Done (Option (Node Host State Topic Sub Params MsgHandler ErrHandler))
  failed e = record { acts = []; node = none; error = some e }

  failed-Leaves : (e : GoError) → Leaves (failed e)
  failed-Leaves e = record { result = refl; opened = λ h. cc; released = λ _. (refl, refl) }

  new_node-no_key :
      (e : GoError)
      → ans.key ≡ some e
      → new_node ans text_of cfg
        ≡ some (failed (wrapped e (codes "could not generate private key")))
  unfolding new_node
  new_node-no_key e bad = ground arith

  new_node-no_host :
      (e : GoError)
      → ans.key ≡ none
      → ans.host ≡ err e
      → new_node ans text_of cfg ≡ some (failed (wrapped e (codes "could not create libp2p host")))
  unfolding new_node
  new_node-no_host e keyed bad = ground arith

  new_node-begin_node :
      (h : Host)
      → ans.key ≡ none
      → ans.host ≡ ok h
      → new_node ans {Topic = Topic} {Sub = Sub} {Params = Params} text_of cfg
        ≡ begin_node ans text_of cfg h
  unfolding new_node
  new_node-begin_node h keyed up = ground arith

  -- NewNode does not block. It returns a node and no error, with the host open and the context not
  -- cancelled, or an error and no node; then every host that it created is closed and its context
  -- cancelled, once.
  pub new_node-Leaves : LeavesNone (new_node ans text_of cfg)
  new_node-Leaves = elim (Option-cases ans.key) [
    | inr (e, bad) ↦ subst LeavesNone (sym (new_node-no_key e bad)) (failed-Leaves _)
    | inl keyed ↦ elim (Result-cases ans.host) [
      | inr (e, bad) ↦ subst LeavesNone (sym (new_node-no_host e keyed bad)) (failed-Leaves _)
      | inl (h, up) ↦ subst LeavesNone (sym (new_node-begin_node h keyed up)) (begin_node-Leaves h)
    ]
  ]

  -- A node that NewNode returns has its host open.
  pub new_node-open :
      (d : Done (Option (Node Host State Topic Sub Params MsgHandler ErrHandler)))
      (n : Node Host State Topic Sub Params MsgHandler ErrHandler)
      → new_node ans text_of cfg ≡ some d
      → d.node ≡ some n
      → times is_host_closed d.acts ≡ 0
  new_node-open d n made here =
      let l : Leaves d = subst LeavesNone made new_node-Leaves in
      let clean : d.error ≡ none = ground (arith, l.result, here) in (l.opened clean).1

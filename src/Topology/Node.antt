-- ===== src/Topology/Node.antt =====
-- plans/topology/node.go: NodeConfig, Node, NewNode and Close; and setupPubsub and gossipSubParam of
-- pubsub.go. What the libraries answer is the parameter `Answers`; what the code asks of them is
-- kept in order, as acts.
pub mod Release
pub mod Tracing
use p2p_tests.Prelude.{
  ℕ, ◌+◌, ◌*◌, List, [], ◌∷◌, ◌++◌, Option, none, some, Text, codes, Bool, true, false,
  if◌then◌else◌, length, eqb,
}
use p2p_tests.Prelude.Int.{ℤ, pos}
use p2p_tests.Topology.Errors.{GoError, wrapped, Result, ok, err}
use p2p_tests.Topology.TopicManager.{Manager, new_topic_manager}
use p2p_tests.Topology.Notiffee.{Event, collects, Connectedness, limit_of}
use p2p_tests.Topology.Tracer.{Tracer, TestMetrics, new_test_tracer, stop}

-- NodeConfig. The handlers' types are parameters.
pub record NodeConfig (MsgHandler ErrHandler : Type 0) : Type 0 where
  pub name : Text
  pub listen_addrs : List Text
  pub msg_handler : MsgHandler
  pub err_handler : ErrHandler
  pub max_peers : ℤ
  pub validation_latency : ℤ
  pub trace_out : Text

-- pubsub.GossipSubParams: the fields that gossipSubParam sets, and the others. Times are in
-- milliseconds.
pub record GossipSubParams (Others : Type 0) : Type 0 where
  pub d : ℕ
  pub dlo : ℕ
  pub dhi : ℕ
  pub dlazy : ℕ
  pub heartbeat_interval : ℕ
  pub others : Others

-- gossipSubParam, on the library's default.
unfoldable pub gossip_sub_param :
    {Others : Type 0} → GossipSubParams Others → GossipSubParams Others
gossip_sub_param params = record params {
  d = 8;
  dlo = 6;
  dhi = 10;
  dlazy = 6;
  heartbeat_interval = 700;
}

-- The options of the router; the function for message identifiers is msgID.
pub record RouterOptions (Others : Type 0) : Type 0 where
  pub seen_messages_ttl : ℕ
  pub peer_outbound_queue_size : ℕ
  pub validate_queue_size : ℕ
  pub gossip_sub_params : GossipSubParams Others

abbrev pub router_options : {Others : Type 0} → GossipSubParams Others → RouterOptions Others
router_options default = record {
  seen_messages_ttl = 32 * 12 * 1000;
  peer_outbound_queue_size = 512;
  validate_queue_size = 512;
  gossip_sub_params = gossip_sub_param default;
}

-- What the libraries answer: to the generation of a key, to libp2p.New, to opening a file, to
-- NewGossipSub, to the writing of the metrics, and to Close of the host.
pub record Answers (Host State Others : Type 0) : Type 0 where
  pub key : Option GoError
  pub host : Result Host
  pub host_id : Host → Text
  pub open_file : Text → Option GoError
  pub default_params : GossipSubParams Others
  pub router : RouterOptions Others → Result State
  pub close_host : Option GoError

-- What is asked of them, where it acquires or releases something.
pub data Act : Type 0 where
  creates_host : List Text → Text → Act
  starts_tracer : Act
  creates_router : Act
  cancels_context : Act
  stops_tracer : TestMetrics → Act
  closes_host : Act
  notifies : ℤ → Act

-- Node, with whether its context is cancelled in place of its context and cancel.
pub record Node (Host State Topic Sub Params MsgHandler ErrHandler : Type 0) : Type 0 where
  pub cancelled : Bool
  pub cfg : NodeConfig MsgHandler ErrHandler
  pub host : Host
  pub topics : Option (Manager State Topic Sub Params)
  pub tracer : Option Tracer
  pub msg_handler : MsgHandler
  pub err_handler : ErrHandler

-- A call on a node: what it has done, the node afterwards, and its error.
pub record Done (A : Type 0) : Type 0 where
  pub acts : List Act
  pub node : A
  pub error : Option GoError

-- The goroutine that runs gc: at each turn whether the context is done and, when gc runs a minute
-- later, what the network answers.
unfoldable pub gc_loop : {K : Type 0} → List (Bool × (K → Connectedness)) → List (Event K)
gc_loop [] = []
gc_loop ((ctx_done, net) ∷ turns) =
    let rest = collects net ∷ gc_loop turns in if ctx_done then [] else rest

-- The stop of Close: the tracer afterwards and the act; `none` is a Stop that blocks. The error
-- of writing the metrics is logged only.
unfoldable pub stop_tracer : Option Tracer → Option (Option Tracer × List Act)
stop_tracer none = some (none, [])
stop_tracer (some tracer) = elim (stop tracer) [
  | none ↦ none
  | some (tracer', written) ↦ some (some tracer', stops_tracer written ∷ [])
]

module _ {Host State Others : Type 0} (ans : Answers Host State Others) where
  -- The tracer of setupPubsub, if there is a path for its output.
  unfoldable pub setup_tracer : Text → Text → Result (Option Tracer)
  setup_tracer trace_out host_id =
      if eqb (length trace_out) 0
      then ok none
      else elim (new_test_tracer ans.open_file trace_out host_id false) [
        | err e ↦ err e
        | ok tracer ↦ ok (some tracer)
      ]

  abbrev pub tracer_acts : Option Tracer → List Act
  tracer_acts none = []
  tracer_acts (some tracer) = starts_tracer ∷ []

  module _ {Topic Sub Params MsgHandler ErrHandler : Type 0} where
    -- setupPubsub.
    unfoldable pub setup_pubsub :
        Node Host State Topic Sub Params MsgHandler ErrHandler
        → Done (Node Host State Topic Sub Params MsgHandler ErrHandler)
    unfolding setup_tracer
    setup_pubsub n = elim (setup_tracer n.cfg.trace_out (ans.host_id n.host)) [
      | err e ↦ record { acts = []; node = n; error = some e }
      | ok tracer ↦ elim (ans.router (router_options ans.default_params)) [
        | err e ↦ record {
          acts = tracer_acts tracer;
          node = n;
          error = some (wrapped e (codes "could not create pubsub router"));
        }
        | ok ps ↦ record {
          acts = tracer_acts tracer ++ creates_router ∷ [];
          node = record n {
            topics = some (new_topic_manager ps none n.cfg.validation_latency);
            tracer = tracer;
          };
          error = none;
        }
      ]
    ]

    -- Close; `none` is a call that blocks.
    unfoldable pub close :
        Node Host State Topic Sub Params MsgHandler ErrHandler
        → Option (Done (Node Host State Topic Sub Params MsgHandler ErrHandler))
    unfolding stop_tracer
    close n = elim (stop_tracer n.tracer) [
      | none ↦ none
      | some (tracer, stopped) ↦ some (record {
        acts = cancels_context ∷ stopped ++ closes_host ∷ [];
        node = record n { cancelled = true; tracer = tracer };
        error = ans.close_host;
      })
    ]

    -- The end of NewNode where setupPubsub has failed with `e`. errors.Wrap puts the text of `e`
    -- before the error of Close.
    unfoldable pub abandon :
        List Act
        → Node Host State Topic Sub Params MsgHandler ErrHandler
        → GoError
        → (GoError → Text)
        → Option (Done (Option (Node Host State Topic Sub Params MsgHandler ErrHandler)))
    unfolding close
    abandon acts n e text_of = elim (close n) [
      | none ↦ none
      | some closed ↦ some (record {
        acts = acts ++ closed.acts;
        node = none;
        error = elim closed.error [ none ↦ some e | some c ↦ some (wrapped c (text_of e)) ];
      })
    ]

    -- NewNode behind the creation of the host.
    unfoldable pub begin_node :
        (GoError → Text)
        → NodeConfig MsgHandler ErrHandler
        → Host
        → Option (Done (Option (Node Host State Topic Sub Params MsgHandler ErrHandler)))
    unfolding setup_pubsub abandon
    begin_node text_of cfg h =
        let created = creates_host cfg.listen_addrs (codes "test/topology/" ++ cfg.name) in
        let n : Node Host State Topic Sub Params MsgHandler ErrHandler = record {
          cancelled = false;
          cfg = cfg;
          host = h;
          topics = none;
          tracer = none;
          msg_handler = cfg.msg_handler;
          err_handler = cfg.err_handler;
        } in
        let set = setup_pubsub n in
        elim set.error [
          | some e ↦ abandon (created ∷ set.acts) set.node e text_of
          | none ↦ some (record {
            acts = created ∷ set.acts ++ notifies (limit_of cfg.max_peers) ∷ [];
            node = some set.node;
            error = none;
          })
        ]

    -- NewNode; `none` is a call that blocks. `text_of` is the method Error.
    unfoldable pub new_node :
        (GoError → Text)
        → NodeConfig MsgHandler ErrHandler
        → Option (Done (Option (Node Host State Topic Sub Params MsgHandler ErrHandler)))
    unfolding begin_node
    new_node text_of cfg = elim ans.key [
      | some e ↦ some (record {
        acts = [];
        node = none;
        error = some (wrapped e (codes "could not generate private key"));
      })
      | none ↦ elim ans.host [
        | err e ↦ some (record {
          acts = [];
          node = none;
          error = some (wrapped e (codes "could not create libp2p host"));
        })
        | ok h ↦ begin_node text_of cfg h
      ]
    ]

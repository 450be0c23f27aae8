-- ===== src/Tests/Nodes.antt =====
-- NewNode and Close at concrete inputs: hosts and routers are numbers.
use p2p_tests.Prelude.{
  ℕ, ◌≡◌, refl, [], ◌∷◌, Option, none, some, Text, codes, true, false, is_some, arith,
}
use p2p_tests.Prelude.Int.{pos}
use p2p_tests.Topology.Errors.{GoError, external, ok, err}
use p2p_tests.Topology.Tracer.{new_test_tracer, no_metrics}
use p2p_tests.Topology.TopicManager.{new_topic_manager}
use p2p_tests.Topology.Node.{
  NodeConfig, GossipSubParams, Answers, Node, Done, close, new_node, creates_host, starts_tracer,
  creates_router, notifies,
}
use p2p_tests.Topology.Node.Release.{
  is_host_closed, is_tracer_started, is_tracer_stopped, is_cancel, times, LeavesNone,
  new_node-Leaves,
}
use p2p_tests.Topology.Node.Tracing.{close-new_node, new_node-leaks}

abbrev traced_config : NodeConfig ℕ ℕ
traced_config = record {
  name = codes "node";
  listen_addrs = codes "/ip4/0.0.0.0/tcp/0" ∷ [];
  msg_handler = 1;
  err_handler = 2;
  max_peers = pos 25;
  validation_latency = pos 5;
  trace_out = codes "out";
}

abbrev any_params : GossipSubParams ℕ
any_params = record { d = 6; dlo = 5; dhi = 12; dlazy = 6; heartbeat_interval = 1000; others = 0 }

abbrev willing : Answers ℕ ℕ ℕ
willing = record {
  key = none;
  host = ok 7;
  host_id = λ h. codes "host";
  open_file = λ f. none;
  default_params = any_params;
  router = λ opts. ok 9;
  close_host = none;
}

abbrev unwilling : Answers ℕ ℕ ℕ
unwilling = record willing { router = λ opts. err (external (codes "refused")) }

abbrev text_of : GoError → Text
text_of e = codes "error"

new_node-Leaves_example :
    LeavesNone ℕ ℕ ℕ unwilling text_of traced_config (new_node unwilling text_of traced_config)
new_node-Leaves_example = new_node-Leaves ℕ ℕ ℕ unwilling text_of traced_config

new_node-leaks_example :
    (d : Done (Option (Node ℕ ℕ ℕ ℕ ℕ ℕ ℕ))) × (new_node unwilling text_of traced_config ≡ some d)
    × (is_some d.error ≡ true)
    × (d.node ≡ none)
    × (times is_tracer_started d.acts ≡ 1)
    × (times is_tracer_stopped d.acts ≡ 0)
new_node-leaks_example =
    new_node-leaks ℕ ℕ ℕ unwilling text_of traced_config 7 (external (codes "refused")) refl refl
      (omega arith) refl refl

abbrev made_node : Node ℕ ℕ ℕ ℕ ℕ ℕ ℕ
made_node = record {
  cancelled = false;
  cfg = traced_config;
  host = 7;
  topics = some (record {
    ps = 9;
    topics = [];
    subs = [];
    score_params = λ t. none;
    validation_latency = pos 5;
  });
  tracer = some (record {
    full = none;
    filtered = [];
    event_ch = [];
    done_ch = false;
    running = true;
    metrics = no_metrics (codes "host");
  });
  msg_handler = 1;
  err_handler = 2;
}

abbrev made : Done (Option (Node ℕ ℕ ℕ ℕ ℕ ℕ ℕ))
made = record {
  acts =
      creates_host (codes "/ip4/0.0.0.0/tcp/0" ∷ []) (codes "test/topology/node")
      ∷ starts_tracer
      ∷ creates_router
      ∷ notifies (pos 25)
      ∷ [];
  node = some made_node;
  error = none;
}

made_new : new_node willing text_of traced_config ≡ some made
unfolding new_node new_test_tracer new_topic_manager
made_new = refl

close-new_node_example :
    (c : Done (Node ℕ ℕ ℕ ℕ ℕ ℕ ℕ)) × (close willing made_node ≡ some c)
    × (c.error ≡ none)
    × (c.node.cancelled ≡ true)
    × (times is_cancel c.acts ≡ 1)
    × (times is_host_closed c.acts ≡ 1)
    × (times is_tracer_stopped c.acts ≡ times is_tracer_started made.acts)
close-new_node_example =
    close-new_node ℕ ℕ ℕ willing text_of traced_config made made_node made_new refl

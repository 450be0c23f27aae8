-- ===== src/Tests/Tracing.antt =====
-- plans/topology/tracer.go at concrete inputs.
use p2p_tests.Prelude.{
  ◌≤◌, ◌≡◌, List, [], ◌∷◌, ◌++◌, none, some, codes, true, false, refl, keep, length, arith,
}
use p2p_tests.Topology.Tracer.{
  publish_message, send_rpc, TraceEvent, no_metrics, Tracer, channel_capacity, Action, traces,
  takes_event, takes_done, stops, run, new_test_tracer,
}
use p2p_tests.Topology.Errors.{ok}
use p2p_tests.Topology.Tracer.Counts.{tally, IsTally, tally-IsTally}
use p2p_tests.Topology.Tracer.Delivery.{
  traced, is_listed, entered, handled, run-filtered, run-metrics,
}

abbrev published_event : TraceEvent
published_event = record { type = publish_message; sent = none; received = none }

abbrev sent_event : TraceEvent
sent_event = record {
  type = send_rpc;
  sent = some (record { messages = codes "a" ∷ codes "b" ∷ []; control = none });
  received = none;
}

abbrev started : Tracer
started = record {
  full = none;
  filtered = [];
  event_ch = [];
  done_ch = false;
  running = true;
  metrics = no_metrics (codes "peer");
}

started_new : new_test_tracer (λ file. none) (codes "out/node") (codes "peer") false ≡ ok started
unfolding new_test_tracer
started_new = refl

abbrev short_run : List Action
short_run =
    traces published_event ∷ traces sent_event ∷ takes_event ∷ stops ∷ takes_done ∷ takes_event ∷ []

tally-IsTally_example :
    IsTally started.metrics
      (published_event ∷ sent_event ∷ [])
      (tally started.metrics (published_event ∷ sent_event ∷ []))
tally-IsTally_example =
    tally-IsTally (published_event ∷ sent_event ∷ []) started.metrics (omega arith)

run-filtered_example :
    (run started short_run).filtered ≡ started.filtered ++ keep is_listed (traced short_run)
run-filtered_example = run-filtered started short_run

run-metrics_example :
    (started.event_ch ++ entered started short_run
      ≡ handled started short_run ++ (run started short_run).event_ch)
    × ((run started short_run).metrics ≡ tally started.metrics (handled started short_run))
    × (length (run started short_run).event_ch ≤ channel_capacity)
run-metrics_example = run-metrics started short_run (omega arith)

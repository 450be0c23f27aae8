-- ===== src/Topology/Tracer.antt =====
-- plans/topology/tracer.go: TestTracer and filteringTracer. The library's tracers are the lists of
-- the events that they were given; the loop's channel is a queue, and what the goroutines do is a
-- sequence of actions.
pub mod Counts
pub mod Delivery
use p2p_tests.Prelude.{
  ℕ, eqb, suc, ◌+◌, ◌%◌, ◌^◌, List, [], ◌∷◌, ◌++◌, Option, none, some, Text, Bool, true, false,
  ◌&&◌, if◌then◌else◌, ltb, length, keep, any, codes,
}
use p2p_tests.Topology.Errors.{GoError, wrapped, Result, ok, err}

-- pb.TraceEvent_Type, with one constructor for the types that the program does not name.
pub data EventType : Type 0 where
  publish_message reject_message duplicate_message deliver_message : EventType
  add_peer remove_peer recv_rpc send_rpc drop_rpc join leave graft prune unnamed : EventType

-- A number for each type, by which types are compared.
abbrev pub type_number : EventType → ℕ
type_number publish_message = 0
type_number reject_message = 1
type_number duplicate_message = 2
type_number deliver_message = 3
type_number add_peer = 4
type_number remove_peer = 5
type_number recv_rpc = 6
type_number send_rpc = 7
type_number drop_rpc = 8
type_number join = 9
type_number leave = 10
type_number graft = 11
type_number prune = 12
type_number unnamed = 13

-- The control part and the metadata of an RPC. A getter on a nil message gives nil, of length 0.
pub record Control : Type 0 where
  pub ihave : List Text
  pub iwant : List Text
  pub grafts : List Text
  pub prunes : List Text

pub record RpcMeta : Type 0 where
  pub messages : List Text
  pub control : Option Control

-- pb.TraceEvent, as far as the program reads it.
pub record TraceEvent : Type 0 where
  pub type : EventType
  pub sent : Option RpcMeta
  pub received : Option RpcMeta

pub record RpcMetrics : Type 0 where
  pub rpcs : ℕ
  pub messages : ℕ
  pub grafts : ℕ
  pub prunes : ℕ
  pub iwants : ℕ
  pub ihaves : ℕ

pub record TestMetrics : Type 0 where
  pub local_peer : Text
  pub published : ℕ
  pub rejected : ℕ
  pub delivered : ℕ
  pub duplicates : ℕ
  pub dropped_rpc : ℕ
  pub peers_added : ℕ
  pub peers_removed : ℕ
  pub topics_joined : ℕ
  pub topics_left : ℕ
  pub sent_rpc : RpcMetrics
  pub received_rpc : RpcMetrics

-- uint64 addition.
abbrev pub add64 : ℕ → ℕ → ℕ
add64 a b = (a + b) % 2 ^ 64

abbrev pub no_control : Control
no_control = record { ihave = []; iwant = []; grafts = []; prunes = [] }

abbrev pub control_of : Option RpcMeta → Control
control_of none = no_control
control_of (some m) = elim m.control [ none ↦ no_control | some c ↦ c ]

abbrev pub messages_of : Option RpcMeta → List Text
messages_of none = []
messages_of (some m) = m.messages

-- updateRPCStats.
unfoldable pub update_rpc_stats : Option RpcMeta → RpcMetrics → RpcMetrics
update_rpc_stats rpc_meta stats =
    let ctrl = control_of rpc_meta in
    record stats {
      rpcs = add64 stats.rpcs 1;
      messages = add64 stats.messages (length (messages_of rpc_meta));
      ihaves = add64 stats.ihaves (length ctrl.ihave);
      iwants = add64 stats.iwants (length ctrl.iwant);
      grafts = add64 stats.grafts (length ctrl.grafts);
      prunes = add64 stats.prunes (length ctrl.prunes);
    }

-- The methods that the switch calls, each on the tracer's metrics.
unfoldable pub on_publish_message : TestMetrics → TestMetrics
on_publish_message m = record m { published = add64 m.published 1 }

unfoldable pub on_reject_message : TestMetrics → TestMetrics
on_reject_message m = record m { rejected = add64 m.rejected 1 }

unfoldable pub on_deliver_message : TestMetrics → TestMetrics
on_deliver_message m = record m { delivered = add64 m.delivered 1 }

unfoldable pub on_duplicate_message : TestMetrics → TestMetrics
on_duplicate_message m = record m { duplicates = add64 m.duplicates 1 }

unfoldable pub on_send_rpc : TraceEvent → TestMetrics → TestMetrics
unfolding update_rpc_stats
on_send_rpc evt m = record m { sent_rpc = update_rpc_stats evt.sent m.sent_rpc }

unfoldable pub on_recv_rpc : TraceEvent → TestMetrics → TestMetrics
unfolding update_rpc_stats
on_recv_rpc evt m = record m { received_rpc = update_rpc_stats evt.received m.received_rpc }

unfoldable pub on_drop_rpc : TestMetrics → TestMetrics
on_drop_rpc m = record m { dropped_rpc = add64 m.dropped_rpc 1 }

unfoldable pub on_add_peer : TestMetrics → TestMetrics
on_add_peer m = record m { peers_added = add64 m.peers_added 1 }

unfoldable pub on_remove_peer : TestMetrics → TestMetrics
on_remove_peer m = record m { peers_removed = add64 m.peers_removed 1 }

unfoldable pub on_join : TestMetrics → TestMetrics
on_join m = record m { topics_joined = add64 m.topics_joined 1 }

unfoldable pub on_leave : TestMetrics → TestMetrics
on_leave m = record m { topics_left = add64 m.topics_left 1 }

-- graft and prune count nothing: they are counted with the RPCs that are sent.
unfoldable pub on_graft : TestMetrics → TestMetrics
on_graft m = m

unfoldable pub on_prune : TestMetrics → TestMetrics
on_prune m = m

-- The switch of eventLoop.
unfoldable pub dispatch : EventType → TraceEvent → TestMetrics → TestMetrics
unfolding on_publish_message on_reject_message on_deliver_message on_duplicate_message on_send_rpc
    on_recv_rpc on_drop_rpc on_add_peer on_remove_peer on_join on_leave on_graft on_prune
dispatch publish_message evt m = on_publish_message m
dispatch reject_message evt m = on_reject_message m
dispatch duplicate_message evt m = on_duplicate_message m
dispatch deliver_message evt m = on_deliver_message m
dispatch add_peer evt m = on_add_peer m
dispatch remove_peer evt m = on_remove_peer m
dispatch recv_rpc evt m = on_recv_rpc evt m
dispatch send_rpc evt m = on_send_rpc evt m
dispatch drop_rpc evt m = on_drop_rpc m
dispatch join evt m = on_join m
dispatch leave evt m = on_leave m
dispatch graft evt m = on_graft m
dispatch prune evt m = on_prune m
dispatch unnamed evt m = m

unfoldable pub handle_event : TraceEvent → TestMetrics → TestMetrics
unfolding dispatch
handle_event evt m = dispatch evt.type evt m

abbrev pub same_type : EventType → EventType → Bool
same_type a b = eqb (type_number a) (type_number b)

-- filteringTracer.Trace: the events that the underlying tracer was given.
unfoldable pub filter_trace : List EventType → TraceEvent → List TraceEvent → List TraceEvent
filter_trace whitelist evt out =
    if any (λ typ. same_type evt.type typ) whitelist then out ++ evt ∷ [] else out

-- The types that NewTestTracer gives to its filtering tracer.
abbrev pub whitelist : List EventType
whitelist = publish_message ∷ deliver_message ∷ graft ∷ prune ∷ []

-- TestTracer: what its two tracers have been given (`full` is nil in setupPubsub), the channel of
-- events, the channel of the stop signal, whether the loop runs, and the metrics.
pub record Tracer : Type 0 where
  pub full : Option (List TraceEvent)
  pub filtered : List TraceEvent
  pub event_ch : List TraceEvent
  pub done_ch : Bool
  pub running : Bool
  pub metrics : TestMetrics

abbrev pub no_rpcs : RpcMetrics
no_rpcs = record { rpcs = 0; messages = 0; grafts = 0; prunes = 0; iwants = 0; ihaves = 0 }

abbrev pub no_metrics : Text → TestMetrics
no_metrics peer = record {
  local_peer = peer;
  published = 0;
  rejected = 0;
  delivered = 0;
  duplicates = 0;
  dropped_rpc = 0;
  peers_added = 0;
  peers_removed = 0;
  topics_joined = 0;
  topics_left = 0;
  sent_rpc = no_rpcs;
  received_rpc = no_rpcs;
}

-- newFilteringTracer: what its tracer has been given. `open_file` is NewPBTracer of the library: the
-- error, if any, of opening a file.
unfoldable pub new_filtering_tracer : (Text → Option GoError) → Text → Result (List TraceEvent)
new_filtering_tracer open_file output_path = elim (open_file output_path) [
  | some e ↦ err (wrapped e (codes "error making protobuf event tracer"))
  | none ↦ ok []
]

-- NewTestTracer.
unfoldable pub new_test_tracer : (Text → Option GoError) → Text → Text → Bool → Result Tracer
unfolding new_filtering_tracer
new_test_tracer open_file prefix local_peer full =
    elim (if full then open_file (prefix ++ codes "-full.bin") else none) [
      | some e ↦ err (wrapped e (codes "error making protobuf event tracer"))
      | none ↦ elim (new_filtering_tracer open_file (prefix ++ codes "-filtered.bin")) [
        | err e ↦ err (wrapped e (codes "error making filtered event tracer"))
        | ok filtered_tracer ↦ ok (record {
          full = if full then some [] else none;
          filtered = filtered_tracer;
          event_ch = [];
          done_ch = false;
          running = true;
          metrics = no_metrics local_peer;
        })
      ]
    ]

abbrev pub channel_capacity : ℕ
channel_capacity = 1024

abbrev pub add_full : Option (List TraceEvent) → TraceEvent → Option (List TraceEvent)
add_full none evt = none
add_full (some out) evt = some (out ++ evt ∷ [])

-- Trace: an event that finds the channel full is dropped for the metrics.
unfoldable pub trace : TraceEvent → Tracer → Tracer
trace evt s = record s {
  filtered = filter_trace whitelist evt s.filtered;
  full = add_full s.full evt;
  event_ch =
      if ltb (length s.event_ch) channel_capacity then s.event_ch ++ evt ∷ [] else s.event_ch;
}

-- A turn of eventLoop by its event case, if it runs and there is an event.
unfoldable pub take_event : Tracer → Tracer
take_event s = elim s.event_ch [
  | [] ↦ s
  | evt ∷ rest ↦
      if s.running then record s { event_ch = rest; metrics = handle_event evt s.metrics } else s
]

-- A turn of eventLoop by its done case, if it runs and the signal is there.
unfoldable pub take_done : Tracer → Tracer
take_done s = if s.running && s.done_ch then record s { running = false; done_ch = false } else s

-- Stop: the signal is sent and the metrics are written out as they are then. The channel holds one
-- signal, so a second Stop before the loop has taken the first one blocks, which is `none`.
unfoldable pub stop : Tracer → Option (Tracer × TestMetrics)
stop s = if s.done_ch then none else some (record s { done_ch = true }, s.metrics)

pub data Action : Type 0 where
  traces : TraceEvent → Action
  takes_event takes_done stops : Action

abbrev pub after_stop : Tracer → Option (Tracer × TestMetrics) → Tracer
after_stop s none = s
after_stop s (some (s', written)) = s'

unfoldable pub step : Tracer → Action → Tracer
step s (traces evt) = trace evt s
step s takes_event = take_event s
step s takes_done = take_done s
step s stops = after_stop s (stop s)

unfoldable pub run : Tracer → List Action → Tracer
run s [] = s
run s (a ∷ acts) = run (step s a) acts

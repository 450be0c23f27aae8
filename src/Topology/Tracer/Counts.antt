-- ===== src/Topology/Tracer/Counts.antt =====
-- The metrics against the events that the loop has handled.
use p2p_tests.Prelude.{
  ℕ, suc, Option, ◌+◌, ◌^◌, ◌<◌, ◌≡◌, refl, List, [], ◌∷◌, if◌then◌else◌, length, arith,
}
use p2p_tests.Topology.Tracer.{
  EventType, publish_message, reject_message, duplicate_message, deliver_message, add_peer,
  remove_peer, recv_rpc, send_rpc, drop_rpc, join, leave, TraceEvent, RpcMeta, RpcMetrics,
  TestMetrics, control_of, add64, messages_of, handle_event, dispatch, same_type,
}

-- The metrics after the loop has handled events in turn.
abbrev pub tally : TestMetrics → List TraceEvent → TestMetrics
tally m [] = m
tally m (evt ∷ es) = tally (handle_event evt m) es

-- How many of the events have a type.
abbrev pub count : EventType → List TraceEvent → ℕ
count typ [] = 0
count typ (evt ∷ es) = if same_type evt.type typ then suc (count typ es) else count typ es

-- What the RPCs of the events of one type sum up to, by a length that `size` takes of each.
abbrev pub total : EventType → (TraceEvent → ℕ) → List TraceEvent → ℕ
total typ size [] = 0
total typ size (evt ∷ es) =
    if same_type evt.type typ then size evt + total typ size es else total typ size es

-- The counters of the RPCs of one type, which have counted on from `m`; `rpc` is the RPC of an event.
pub record IsRpcTally (typ : EventType) (rpc : TraceEvent → Option RpcMeta) (m : RpcMetrics)
    (es : List TraceEvent) (r : RpcMetrics) : Type 0 where
  pub rpcs : r.rpcs ≡ add64 m.rpcs (count typ es)
  pub messages :
      r.messages ≡ add64 m.messages (total typ (λ evt. length (messages_of (rpc evt))) es)
  pub ihaves :
      r.ihaves ≡ add64 m.ihaves (total typ (λ evt. length ((control_of (rpc evt)).ihave)) es)
  pub iwants :
      r.iwants ≡ add64 m.iwants (total typ (λ evt. length ((control_of (rpc evt)).iwant)) es)
  pub grafts :
      r.grafts ≡ add64 m.grafts (total typ (λ evt. length ((control_of (rpc evt)).grafts)) es)
  pub prunes :
      r.prunes ≡ add64 m.prunes (total typ (λ evt. length ((control_of (rpc evt)).prunes)) es)

pub record IsRpcWords (m : RpcMetrics) : Type 0 where
  pub rpcs : m.rpcs < 2 ^ 64
  pub messages : m.messages < 2 ^ 64
  pub ihaves : m.ihaves < 2 ^ 64
  pub iwants : m.iwants < 2 ^ 64
  pub grafts : m.grafts < 2 ^ 64
  pub prunes : m.prunes < 2 ^ 64

-- Counters of uint64 that have counted on from `m`.
pub record IsTally (m : TestMetrics) (es : List TraceEvent) (r : TestMetrics) : Type 0 where
  pub published : r.published ≡ add64 m.published (count publish_message es)
  pub rejected : r.rejected ≡ add64 m.rejected (count reject_message es)
  pub delivered : r.delivered ≡ add64 m.delivered (count deliver_message es)
  pub duplicates : r.duplicates ≡ add64 m.duplicates (count duplicate_message es)
  pub dropped_rpc : r.dropped_rpc ≡ add64 m.dropped_rpc (count drop_rpc es)
  pub peers_added : r.peers_added ≡ add64 m.peers_added (count add_peer es)
  pub peers_removed : r.peers_removed ≡ add64 m.peers_removed (count remove_peer es)
  pub topics_joined : r.topics_joined ≡ add64 m.topics_joined (count join es)
  pub topics_left : r.topics_left ≡ add64 m.topics_left (count leave es)
  pub sent : IsRpcTally send_rpc (λ evt. evt.sent) m.sent_rpc es r.sent_rpc
  pub received : IsRpcTally recv_rpc (λ evt. evt.received) m.received_rpc es r.received_rpc

-- Counters that fit into a uint64.
pub record IsWords (m : TestMetrics) : Type 0 where
  pub published : m.published < 2 ^ 64
  pub rejected : m.rejected < 2 ^ 64
  pub delivered : m.delivered < 2 ^ 64
  pub duplicates : m.duplicates < 2 ^ 64
  pub dropped_rpc : m.dropped_rpc < 2 ^ 64
  pub peers_added : m.peers_added < 2 ^ 64
  pub peers_removed : m.peers_removed < 2 ^ 64
  pub topics_joined : m.topics_joined < 2 ^ 64
  pub topics_left : m.topics_left < 2 ^ 64
  pub sent : IsRpcWords m.sent_rpc
  pub received : IsRpcWords m.received_rpc

dispatch-IsWords :
    (typ : EventType) (evt : TraceEvent) (m : TestMetrics)
    → IsWords m
    → IsWords (dispatch typ evt m)
unfolding dispatch
dispatch-IsWords publish_message evt m w = ground arith
dispatch-IsWords _ evt m w = ground arith

dispatch-IsTally :
    (typ : EventType) (evt : TraceEvent) (m : TestMetrics)
    → IsWords m
    → evt.type ≡ typ
    → IsTally m (evt ∷ []) (dispatch typ evt m)
unfolding dispatch
dispatch-IsTally publish_message evt m w e = ground arith
dispatch-IsTally _ evt m w e = ground arith

count-cons :
    (typ : EventType) (evt : TraceEvent) (es : List TraceEvent)
    → count typ (evt ∷ es) ≡ count typ (evt ∷ []) + count typ es
count-cons typ evt es = ground arith

total-cons :
    (typ : EventType) (size : TraceEvent → ℕ) (evt : TraceEvent) (es : List TraceEvent)
    → total typ size (evt ∷ es) ≡ total typ size (evt ∷ []) + total typ size es
total-cons typ size evt es = ground arith

add64_twice : (a b c r s : ℕ) → s ≡ add64 a b → r ≡ add64 s c → r ≡ add64 a (b + c)
add64_twice a b c r s h k = omega arith

IsRpcTally-cons :
    (typ : EventType) (rpc : TraceEvent → Option RpcMeta) (evt : TraceEvent) (es : List TraceEvent)
    (m m' r : RpcMetrics)
    → IsRpcTally typ rpc m (evt ∷ []) m'
    → IsRpcTally typ rpc m' es r
    → IsRpcTally typ rpc m (evt ∷ es) r
IsRpcTally-cons typ rpc evt es m m' r h t = record {
  rpcs = rw count-cons (add64_twice _ _ _ _ _ h.rpcs t.rpcs);
  messages = rw total-cons (add64_twice _ _ _ _ _ h.messages t.messages);
  ihaves = rw total-cons (add64_twice _ _ _ _ _ h.ihaves t.ihaves);
  iwants = rw total-cons (add64_twice _ _ _ _ _ h.iwants t.iwants);
  grafts = rw total-cons (add64_twice _ _ _ _ _ h.grafts t.grafts);
  prunes = rw total-cons (add64_twice _ _ _ _ _ h.prunes t.prunes);
}

IsTally-cons :
    (evt : TraceEvent) (es : List TraceEvent) (m m' r : TestMetrics)
    → IsTally m (evt ∷ []) m'
    → IsTally m' es r
    → IsTally m (evt ∷ es) r
IsTally-cons evt es m m' r h t = record {
  published = rw count-cons (add64_twice _ _ _ _ _ h.published t.published);
  rejected = rw count-cons (add64_twice _ _ _ _ _ h.rejected t.rejected);
  delivered = rw count-cons (add64_twice _ _ _ _ _ h.delivered t.delivered);
  duplicates = rw count-cons (add64_twice _ _ _ _ _ h.duplicates t.duplicates);
  dropped_rpc = rw count-cons (add64_twice _ _ _ _ _ h.dropped_rpc t.dropped_rpc);
  peers_added = rw count-cons (add64_twice _ _ _ _ _ h.peers_added t.peers_added);
  peers_removed = rw count-cons (add64_twice _ _ _ _ _ h.peers_removed t.peers_removed);
  topics_joined = rw count-cons (add64_twice _ _ _ _ _ h.topics_joined t.topics_joined);
  topics_left = rw count-cons (add64_twice _ _ _ _ _ h.topics_left t.topics_left);
  sent = IsRpcTally-cons send_rpc _ evt es _ _ _ h.sent t.sent;
  received = IsRpcTally-cons recv_rpc _ evt es _ _ _ h.received t.received;
}

-- After any events each counter has gone on, in uint64 arithmetic, by the number of the events of
-- its type, GRAFT and PRUNE counting nowhere, and the counters of the sent and of the received RPCs
-- by the messages and the control entries of each kind in all of them.
pub tally-IsTally : (es : List TraceEvent) (m : TestMetrics) → IsWords m → IsTally m es (tally m es)
unfolding handle_event
tally-IsTally [] m w = omega arith
tally-IsTally (evt ∷ es) m w =
    IsTally-cons evt es m (handle_event evt m) (tally m (evt ∷ es))
      (dispatch-IsTally evt.type evt m w refl)
      (tally-IsTally es (handle_event evt m) (dispatch-IsWords evt.type evt m w))

-- ===== src/Tests/WholeRuns.antt =====
-- runGroups and runSubnets from their parameters to their end, at concrete inputs: libraries that
-- create a host and a router, and two instances.
use p2p_tests.Prelude.{
  ℕ, ◌≡◌, refl, List, [], ◌∷◌, ◌++◌, Option, Text, codes, none, some, map, keep, length, not, ◌==◌,
  text_eq, false, true, All, sum, arith,
}
use p2p_tests.Prelude.Int.{pos, to_bits}
use p2p_tests.Topology.Errors.{GoError, ok}
use p2p_tests.Topology.Assignment.{assign_subnets, visit_subnet_share, assign, is_member}
use p2p_tests.Topology.Subnets.{peer}
use p2p_tests.Topology.TopicManager.{Manager, new_topic_manager}
use p2p_tests.Topology.Sending.Effects.{points, last_or, all_errors}
use p2p_tests.Topology.Sending.Groups.{group_rounds-sends}
use p2p_tests.Topology.Sending.Groups
use p2p_tests.Topology.Sending.Subnets.{subnet_rounds-sends}
use p2p_tests.Topology.Sending.Subnets
use p2p_tests.Topology.Notiffee.{limit_of}
use p2p_tests.Topology.Node.{
  GossipSubParams, Answers, Node, Done, new_node, creates_host, creates_router, notifies,
}
use p2p_tests.Topology.Node.Release.{is_host_closed, times}
use p2p_tests.Topology.Clusters.{read_clusters}
use p2p_tests.Topology.Run.{
  Sync, milliseconds, read_settings, Dialled, node_name, node_config, returns, run_groups,
  run_subnets, read_subnets_count, by_one, subnet_counters,
}
use p2p_tests.Topology.Subnets.Counting.{IsKey}
use p2p_tests.Topology.Run.OverSubnets.{subnet_of, run_subnets-returns}
use p2p_tests.Topology.Sending.{message_data, message_of, prepare, ready}
use p2p_tests.Topology.Clusters.Hex.{take-AreDigits}
use p2p_tests.Topology.Run.Distinct.{IsFaithful, prepare-injective}
use p2p_tests.Prelude.Decimal.{print_int}
use p2p_tests.Prelude.{ℕ, text_beq}
use p2p_tests.Topology.Run.Whole.{Comes, run_groups-returns}
use p2p_tests.Tests.Manager.{small_library, named_validator}
use p2p_tests.Tests.Plan.{two_clusters, key_a, key_a-AreDigits}
use p2p_tests.Tests.Runs.{decode_key, message, encoded, me, late, no_params, default_latency}

-- An environment in which no wait fails.
abbrev all_come : Sync
all_come = record { initialised = true; passes = λ state. true }

all_come-Comes : Comes all_come
all_come-Comes = record { initialised = refl; passes = λ state. refl }

abbrev any_params : GossipSubParams ℕ
any_params = record { d = 6; dlo = 5; dhi = 12; dlazy = 6; heartbeat_interval = 1000; others = 0 }

-- Libraries that create a host and a router.
abbrev willing : Answers ℕ (List Text) ℕ
willing = record {
  key = none;
  host = ok 7;
  host_id = λ h. me;
  open_file = λ f. none;
  default_params = any_params;
  router = λ opts. ok [];
  close_host = none;
}

abbrev on_message : ℕ
on_message = 1

abbrev on_error : ℕ
on_error = 2

abbrev text_of : GoError → Text
text_of e = codes "error"

abbrev first_manager : Manager (List Text) Text Text ℕ
first_manager =
    new_topic_manager [] none (milliseconds (read_settings no_params).validation_latency)

abbrev first_node : Node ℕ (List Text) Text Text ℕ ℕ ℕ
first_node = record {
  cancelled = false;
  cfg = node_config (pos 12) (codes "10.0.0.1") on_message on_error (read_settings no_params);
  host = 7;
  topics = some first_manager;
  tracer = none;
  msg_handler = on_message;
  err_handler = on_error;
}

abbrev first_done : Done (Option (Node ℕ (List Text) Text Text ℕ ℕ ℕ))
first_done = record {
  acts =
      creates_host (codes "/ip4/10.0.0.1/tcp/0" ∷ []) (codes "test/topology/" ++ node_name (pos 12))
      ∷ creates_router
      ∷ notifies (limit_of (read_settings no_params).max_peers)
      ∷ [];
  node = some first_node;
  error = none;
}

first_new :
    new_node willing text_of
      (node_config (pos 12) (codes "10.0.0.1") on_message on_error (read_settings no_params))
    ≡ some first_done
unfolding new_node node_config
first_new = refl

two_clusters-read :
    read_clusters (codes "{}") (λ raw. ok two_clusters) (read_settings no_params).clusters_cfg
    ≡ ok two_clusters
unfolding read_clusters
two_clusters-read = refl

run_groups-returns_example :
    let a = assign (to_bits (pos 12)) two_clusters in
    let r =
      run_groups decode_key message encoded small_library named_validator
        (λ (ai : Text). ai)
        (λ ai. none)
        (λ i. 7)
        all_come
        no_params
        (length (me ∷ codes "you" ∷ []))
        (pos 12)
        (codes "{}")
        (λ raw. ok two_clusters)
        willing
        text_of
        (codes "10.0.0.1")
        on_message
        on_error
        (map peer (me ∷ codes "you" ∷ []) ++ [])
        (λ ts. ts)
        late in
    (r.end
      ≡ returns (
          last_or none
            (all_errors decode_key message encoded (node_name (pos 12)) a.my_validators 1 0)))
    × (points r.acts
        ≡ Groups.all_points decode_key message encoded
            (node_name (pos 12))
            a.validator_groups
            a.my_validators
            1
            0)
    × (map (λ (d : Dialled Text). d.peer) r.dialled
        ≡ keep (λ ai. not (ai == me)) (me ∷ codes "you" ∷ []))
    × (times is_host_closed r.node_acts ≡ 1)
run_groups-returns_example =
    run_groups-returns decode_key message encoded small_library named_validator (λ ai. ai)
      (λ ai. none) (λ i. 7) all_come no_params (pos 12) (codes "{}") (λ raw. ok two_clusters)
      willing text_of (codes "10.0.0.1") on_message on_error (λ ts. ts) late (me ∷ codes "you" ∷ [])
      [] two_clusters first_done first_node first_manager two_clusters-read first_new refl refl
      default_latency all_come-Comes

my_keys : (assign_subnets (to_bits (pos 12)) two_clusters).my_validators ≡ key_a ∷ []
unfolding assign_subnets is_member visit_subnet_share to_bits
my_keys = refl

All-IsKey : All IsKey (assign_subnets (to_bits (pos 12)) two_clusters).my_validators
All-IsKey = rw my_keys ((omega arith, take-AreDigits 10 key_a key_a-AreDigits), tt)

default_subnets : to_bits (read_subnets_count no_params) ≡ 128
unfolding read_subnets_count to_bits
default_subnets = refl

run_subnets-returns_example :
    let a = assign_subnets (to_bits (pos 12)) two_clusters in
    let subnets_count = to_bits (read_subnets_count no_params) in
    let r =
      run_subnets decode_key message encoded small_library named_validator
        (λ (ai : Text). ai)
        (λ ai. none)
        (λ i. 7)
        all_come
        no_params
        (length (me ∷ codes "you" ∷ []))
        (pos 12)
        (codes "{}")
        (λ raw. ok two_clusters)
        willing
        text_of
        (codes "10.0.0.1")
        on_message
        on_error
        (map peer (me ∷ codes "you" ∷ []) ++ [])
        (λ ts. ts)
        late in
    ((counts : List ℕ) × (r.counters ≡ by_one a.counters ++ subnet_counters 0 counts)
      × (length counts ≡ 128)
      × (sum counts ≡ length a.my_validators))
    × (r.end
        ≡ returns (
            last_or none
              (all_errors decode_key message encoded (node_name (pos 12)) a.my_validators 9 0)))
    × (points r.acts
        ≡ Subnets.all_points decode_key message encoded
            (node_name (pos 12))
            subnets_count
            (subnet_of subnets_count)
            a.my_validators
            9
            0)
    × (map (λ (d : Dialled Text). d.peer) r.dialled
        ≡ keep (λ ai. not (ai == me)) (me ∷ codes "you" ∷ []))
    × (times is_host_closed r.node_acts ≡ 1)
run_subnets-returns_example =
    run_subnets-returns decode_key message encoded small_library named_validator (λ ai. ai)
      (λ ai. none) (λ i. 7) all_come no_params (pos 12) (codes "{}") (λ raw. ok two_clusters)
      willing text_of (codes "10.0.0.1") on_message on_error (λ ts. ts) late (me ∷ codes "you" ∷ [])
      [] two_clusters first_done first_node first_manager two_clusters-read first_new refl refl
      default_latency all_come-Comes All-IsKey (rw default_subnets (omega arith))
      (rw default_subnets (omega arith))

message-IsFaithful : IsFaithful message encoded (λ m. m)
message-IsFaithful = record { kept = λ raw text. refl; encoded = λ m m' payload e e'. ground arith }

abbrev first_payload : Text
first_payload = message_data (node_name (pos 12)) 0 key_a

first_payload-ready :
    prepare decode_key message encoded (node_name (pos 12)) 0 key_a ≡ ready first_payload
unfolding prepare message_of message_data text_beq print_int
first_payload-ready = refl

prepare-injective_example : (pos 12 ≡ pos 12) × (◌≡◌ {A = ℕ} 0 0) × (key_a ≡ key_a)
prepare-injective_example =
    prepare-injective decode_key message encoded (λ m. m) (pos 12) (pos 12) 0 0 key_a key_a
      first_payload message-IsFaithful first_payload-ready first_payload-ready

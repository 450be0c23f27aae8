-- ===== src/Topology/Run.antt =====
-- plans/topology/groups.go and subnets.go: runGroups and runSubnets as a whole. The test environment
-- answers for its parameters; the reading of the clusters, the libraries behind NewNode, the peers
-- that arrive, Connect, rand.Int31n and the calls that wait for other instances are answered by
-- arguments: such a call returns or panics, also when the 384 seconds of a run are over. What makes
-- them return is in Topology/Instances. Log messages are left out.
pub mod Known
pub mod Whole
pub mod OverSubnets
pub mod Distinct
use p2p_tests.Prelude.{
  ℕ, List, [], ◌∷◌, ◌++◌, Option, none, some, Text, codes, ◌==◌, text_eq, Bool, true, false,
  if◌then◌else◌, ◌*◌, ◌%◌, ◌^◌, map, suc, Map,
}
use p2p_tests.Prelude.Int.{ℤ, pos, negsuc, to_bits, to_int}
use p2p_tests.Prelude.Decimal.{print_int}
use p2p_tests.Topology.Errors.{GoError, wrapped, Result, ok, err}
use p2p_tests.Topology.Clusters.{Clusters, read_clusters}
use p2p_tests.Topology.Assignment.{assign, assign_subnets}
use p2p_tests.Topology.Subnets.{Arrival, Gathering, returned, waiting, get_all_peers, start_subnets}
use p2p_tests.Topology.TopicManager.Interface.{Library}
use p2p_tests.Topology.TopicManager.{Manager}
use p2p_tests.Topology.Listeners.{Start, group_topics}
use p2p_tests.Topology.Node
use p2p_tests.Topology.Node.{NodeConfig, Answers, Node, close, new_node}
use p2p_tests.Topology.Sending.{Act, Sending, listen_all, group_rounds, subnet_rounds}

-- What the test environment says of the parameters.
pub record RunParams : Type 0 where
  pub is_set : Text → Bool
  pub string_param : Text → Text
  pub int_param : Text → ℤ

-- The variables that both runs fill from them.
pub record Settings : Type 0 where
  pub clusters_cfg : Text
  pub max_peers : ℤ
  pub latency : ℤ
  pub latency_max : ℤ
  pub validation_latency : ℤ

-- The reading of the parameters. The code takes the latency from "max_peers".
unfoldable pub read_settings : RunParams → Settings
read_settings env = record {
  clusters_cfg =
      if env.is_set (codes "clusters")
      then env.string_param (codes "clusters")
      else codes ".clusters.yaml";
  max_peers = if env.is_set (codes "max_peers") then env.int_param (codes "max_peers") else pos 25;
  latency = if env.is_set (codes "t_latency") then env.int_param (codes "max_peers") else pos 5;
  latency_max =
      if env.is_set (codes "t_latency_max") then env.int_param (codes "t_latency_max") else pos 50;
  validation_latency =
      if env.is_set (codes "validation_latency")
      then env.int_param (codes "validation_latency")
      else pos 5;
}

unfoldable pub read_subnets_count : RunParams → ℤ
read_subnets_count env =
    if env.is_set (codes "subnets") then env.int_param (codes "subnets") else pos 128

-- A peer that was dialled, with the failure that was recorded.
pub record Dialled (A : Type 0) : Type 0 where
  pub peer : A
  pub failure : Option GoError

-- What Connect answered, as the loop records it.
abbrev pub dial_failure : Text → Option GoError → Option GoError
dial_failure id none = none
dial_failure id (some e) = some (wrapped e (codes "could not connect to node " ++ id))

-- The loop that connects to the peers, but to the node itself.
unfoldable pub dial_all :
    {A : Type 0} → (A → Text) → (A → Option GoError) → Text → List A → List (Dialled A)
dial_all {A} id_of connect host_id [] = []
dial_all {A} id_of connect host_id (ai ∷ peers) =
    let dialled : Dialled A = record {
      peer = ai;
      failure = dial_failure (id_of ai) (connect ai);
    } in
    let rest = dial_all id_of connect host_id peers in
    if id_of ai == host_id then rest else dialled ∷ rest

abbrev pub node_name : ℤ → Text
node_name seq = codes "testnode-" ++ print_int seq

-- How a run ends: it returns, a call panics, or it waits for ever.
pub data End : Type 0 where
  returns : Option GoError → End
  panics waits : End

-- What a run has done: what its node acquired and released, the counters it incremented and by how
-- much, the peers it dialled, its calls of Listen, and the acts of these and of its rounds.
pub record Trace (A : Type 0) : Type 0 where
  pub node_acts : List Node.Act
  pub counters : List (Text × ℕ)
  pub dialled : List (Dialled A)
  pub starts : List Start
  pub acts : List Act
  pub end : End

module _ {A : Type 0} where
  -- A run that ends before it dials. What a run has done before a panic, or before it waits for
  -- ever, is not kept.
  abbrev pub ends : End → Trace A
  ends e = record { node_acts = []; counters = []; dialled = []; starts = []; acts = []; end = e }

  -- The end of a run behind its rounds.
  abbrev pub finish :
      {State Topic Sub Params : Type 0}
      → List (Text × ℕ)
      → List (Dialled A)
      → Option (Sending State Topic Sub Params)
      → Trace A
  finish counters dialled none = ends panics
  finish counters dialled (some s) = record {
    node_acts = [];
    counters = counters;
    dialled = dialled;
    starts = s.starts;
    acts = s.acts;
    end = returns s.send_err;
  }

-- The calls of the test environment that panic where they cannot return: those of
-- MustWaitAllInstancesInitialized and MustGetDataNetworkIP together, and by the name of the state
-- those of MustSignalAndWait and MustConfigureNetwork.
pub record Sync : Type 0 where
  pub initialised : Bool
  pub passes : Text → Bool

-- Counters that are incremented by one.
abbrev pub by_one : List Text → List (Text × ℕ)
by_one names = map (λ name. (name, 1)) names

-- The loop over the array of subnets, from the index `i` on.
unfoldable pub subnet_counters : ℕ → List ℕ → List (Text × ℕ)
subnet_counters i [] = []
subnet_counters i (n ∷ ns) =
    (codes "subnet_" ++ print_int (pos i) ++ codes "_validators", n) ∷ subnet_counters (suc i) ns

-- The test cases of plans/topology/main.go, by name.
pub data TestCase : Type 0 where
  groups subnets : TestCase

abbrev pub testcases : Map Text TestCase
testcases = (codes "groups", groups) ∷ (codes "subnets", subnets) ∷ []

-- The variables at the beginning of the rounds, before any call of Listen.
abbrev pub nothing_sent :
    {State Topic Sub Params : Type 0}
    → Manager State Topic Sub Params
    → Sending State Topic Sub Params
nothing_sent tm = record { tm = tm; acts = []; starts = []; send_err = none }

-- time.Millisecond * time.Duration(n): the product of two int64, in nanoseconds.
unfoldable pub milliseconds : ℤ → ℤ
milliseconds n = to_int (1000000 * to_bits n % 2 ^ 64)

-- The configuration of an instance's node, from its number, its address and the settings.
unfoldable pub node_config :
    {MsgHandler ErrHandler : Type 0}
    → ℤ
    → Text
    → MsgHandler
    → ErrHandler
    → Settings
    → NodeConfig MsgHandler ErrHandler
unfolding milliseconds
node_config seq ip on_message on_error cfg = record {
  name = node_name seq;
  listen_addrs = (codes "/ip4/" ++ ip ++ codes "/tcp/0") ∷ [];
  msg_handler = on_message;
  err_handler = on_error;
  max_peers = cfg.max_peers;
  validation_latency = milliseconds cfg.validation_latency;
  trace_out = [];
}

module _ {M : Type 0} (decode_hex : Text → Result Text) (ssv_message : Text → Text → M)
    (encode : M → Result Text) {State Topic Sub Params Validator TopicOpt SubOpt Peer : Type 0}
    (lib : Library State Topic Sub Params Validator TopicOpt SubOpt Peer)
    (validator : Text → ℤ → Validator) {A : Type 0} (id_of : A → Text)
    (connect : A → Option GoError) (draw : ℕ → ℕ) (sync : Sync) (env : RunParams)
    (instance_count : ℕ) (seq : ℤ) (clusters_json : Text) (unmarshal : Text → Result Clusters)
    {Host Others MsgHandler ErrHandler : Type 0} (ans : Answers Host State Others)
    (text_of : GoError → Text) (ip : Text) (on_message : MsgHandler) (on_error : ErrHandler)
    (arrivals : List (Arrival A)) where
  -- The deferred Close of a run that returns. Its error is dropped.
  unfoldable pub close_node :
      Node Host State Topic Sub Params MsgHandler ErrHandler → List Node.Act → Trace A → Trace A
  close_node n acts tr = elim (close ans n) [
    | none ↦ ends waits
    | some c ↦ elim tr.end [
      | panics ↦ tr
      | waits ↦ tr
      | returns e ↦ record tr { node_acts = acts ++ c.acts }
    ]
  ]

  -- What both runs do first: they read the clusters, wait for the instances, create the node and wait
  -- for the peers; `body` is the rest.
  unfoldable pub with_node :
      (Settings → Clusters → Text → Manager State Topic Sub Params → List A → Trace A) → Trace A
  unfolding close_node
  with_node body =
      let cfg = read_settings env in
      elim (read_clusters clusters_json unmarshal cfg.clusters_cfg) [
        | err e ↦ ends (returns (some (wrapped e (codes "could not read clusters"))))
        | ok cls ↦ elim sync.initialised [
          | false ↦ ends panics
          | true ↦ elim (new_node ans text_of (node_config seq ip on_message on_error cfg)) [
            | none ↦ ends waits
            | some d ↦ elim d.node [
              | none ↦ elim d.error [
                | none ↦ ends panics
                | some e ↦ ends (returns (some (wrapped e (codes "failed to instantiate node"))))
              ]
              | some n ↦ close_node n d.acts (elim (get_all_peers instance_count arrivals) [
                | waiting peers ↦ ends waits
                | returned peers (some e) ↦
                    ends (returns (some (wrapped e (codes "could not get peers"))))
                | returned peers none ↦ elim n.topics [
                  | none ↦ ends panics
                  | some tm ↦ body cfg cls (ans.host_id n.host) tm peers
                ]
              ])
            ]
          ]
        ]
      ]

  -- MustSignalAndWait for a state, with what comes behind it.
  unfoldable pub wait_for : Text → Trace A → Trace A
  wait_for state tr = elim (sync.passes state) [ false ↦ ends panics | true ↦ tr ]

  -- The rest of runGroups. `started` are the calls of Listen that come to their Subscribe before the
  -- rounds, in order; `late i j` those that do so before the place `j` of the round `i`.
  unfoldable pub group_body :
      (List Text → List Text)
      → (ℕ → ℕ → List Text)
      → Settings
      → Clusters
      → Text
      → Manager State Topic Sub Params
      → List A
      → Trace A
  unfolding wait_for
  group_body started late cfg cls host_id tm peers =
      let a = assign (to_bits seq) cls in
      wait_for (codes "connected") (
        wait_for (codes "subscribed") (
          finish (by_one a.counters) (dial_all id_of connect host_id peers) (
            group_rounds decode_hex ssv_message encode (node_name seq) lib validator host_id
              a.validator_groups cfg.latency_max draw sync.passes late a.my_validators 1 0
              (listen_all lib validator (started (group_topics a.my_groups)) (nothing_sent tm)))))

  -- runGroups.
  unfoldable pub run_groups : (List Text → List Text) → (ℕ → ℕ → List Text) → Trace A
  unfolding with_node group_body
  run_groups started late = with_node (group_body started late)

  -- The rest of runSubnets, which has nine rounds.
  unfoldable pub subnet_body :
      (List Text → List Text)
      → (ℕ → ℕ → List Text)
      → Settings
      → Clusters
      → Text
      → Manager State Topic Sub Params
      → List A
      → Trace A
  unfolding subnet_counters wait_for
  subnet_body started late cfg cls host_id tm peers =
      let subnets_count = to_bits (read_subnets_count env) in
      let a = assign_subnets (to_bits seq) cls in
      wait_for (codes "connected") (elim (start_subnets a.my_validators subnets_count) [
        | none ↦ ends panics
        | some (counts, topics) ↦ wait_for (codes "subscribed") (
            finish (by_one a.counters ++ subnet_counters 0 counts)
              (dial_all id_of connect host_id peers)
              (subnet_rounds decode_hex ssv_message encode (node_name seq) lib validator host_id
                subnets_count cfg.latency_max draw sync.passes late a.my_validators 9 0
                (listen_all lib validator (started topics) (nothing_sent tm))))
      ])

  -- runSubnets.
  unfoldable pub run_subnets : (List Text → List Text) → (ℕ → ℕ → List Text) → Trace A
  unfolding with_node subnet_body
  run_subnets started late = with_node (subnet_body started late)

  -- The test case that run.InvokeMap has found.
  unfoldable pub run_case : TestCase → (List Text → List Text) → (ℕ → ℕ → List Text) → Trace A
  unfolding run_groups run_subnets
  run_case groups started late = run_groups started late
  run_case subnets started late = run_subnets started late

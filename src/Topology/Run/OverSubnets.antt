-- ===== src/Topology/Run/OverSubnets.antt =====
-- A whole run of runSubnets, from the parameters to what it returns.
use p2p_tests.Prelude.{
  codes, ◌∙◌, ℕ, ◌<◌, ◌≤◌, ◌≡◌, refl, ap, List, [], ◌∷◌, ◌++◌, Option, none, some, Text, map, keep,
  length, not, ◌==◌, text_eq, true, arith, All, sum,
}
use p2p_tests.Prelude.Int.{ℤ, pos, to_bits}
use p2p_tests.Utils.Generate.{is_positive}
use p2p_tests.Topology.Errors.{GoError, Result, ok}
use p2p_tests.Topology.Clusters.{Clusters, read_clusters}
use p2p_tests.Topology.Clusters.Hex.{validator_subnet-value}
use p2p_tests.Topology.Assignment.{assign_subnets}
use p2p_tests.Topology.Subnets.{Arrival, peer, subnet_topic}
use p2p_tests.Topology.Subnets.Counting.{IsKey, subnet_index, start_subnets-counts}
use p2p_tests.Topology.TopicManager.Interface.{Library}
use p2p_tests.Topology.TopicManager.{Manager}
use p2p_tests.Topology.Sending.{to_int32, listen_all}
use p2p_tests.Topology.Sending.Effects.{points, last_or, all_errors, listen_all-fields}
use p2p_tests.Topology.Sending.Subnets.{AreSubnets, all_points, subnet_rounds-sends}
use p2p_tests.Topology.Node.{Answers, Node, Done, new_node}
use p2p_tests.Topology.Node.Release.{is_host_closed, times, times-append, new_node-open}
use p2p_tests.Topology.Node.Tracing.{close-new_node}
use p2p_tests.Topology.Run.{
  Sync, wait_for, node_config, subnet_body, RunParams, read_settings, read_subnets_count, Dialled,
  nothing_sent, node_name, by_one, subnet_counters, returns, run_subnets,
}
use p2p_tests.Topology.Run.Whole.{Comes, with_node-returns, dial_all-peers}

-- The subnet of a key.
abbrev pub subnet_of : ℕ → Text → ℤ
subnet_of subnets_count pk = pos (subnet_index subnets_count pk)

IsKey-AreSubnets :
    (pks : List Text) (subnets_count : ℕ)
    → All IsKey pks
    → 0 < subnets_count
    → subnets_count ≤ 128
    → AreSubnets subnets_count (subnet_of subnets_count) pks
IsKey-AreSubnets [] subnets_count ks some_subnet small = tt
IsKey-AreSubnets (pk ∷ pks) subnets_count ks some_subnet small = (
  (validator_subnet-value pk subnets_count ks.0.0 ks.0.1 some_subnet (omega arith)).0,
  IsKey-AreSubnets pks subnets_count ks.1 some_subnet small,
)

module _ {M : Type 0} (decode_hex : Text → Result Text) (ssv_message : Text → Text → M)
    (encode : M → Result Text) {State Topic Sub Params Validator TopicOpt SubOpt Peer : Type 0}
    (lib : Library State Topic Sub Params Validator TopicOpt SubOpt Peer)
    (validator : Text → ℤ → Validator) {A : Type 0} (id_of : A → Text)
    (connect : A → Option GoError) (draw : ℕ → ℕ) (sync : Sync) (env : RunParams) (seq : ℤ)
    (clusters_json : Text) (unmarshal : Text → Result Clusters)
    {Host Others MsgHandler ErrHandler : Type 0} (ans : Answers Host State Others)
    (text_of : GoError → Text) (ip : Text) (on_message : MsgHandler) (on_error : ErrHandler) where
  -- Where the clusters can be read, NewNode returns a node, as many addresses arrive as there are
  -- instances, the latency's maximum is positive as an int32, the calls that wait for other
  -- instances return, there are between 1 and 128 subnets, and the instance's keys begin with ten
  -- hexadecimal digits, runSubnets comes to its end, whenever and in whatever order its calls of
  -- Listen subscribe. Its counters of the 128 subnets add up to the number of its validators. It
  -- has dialled all those peers but itself, in order; it has recorded in each of nine rounds one
  -- point for each of its validators whose key and message are good; it returns the last error of
  -- Encode, if there was one, and no other; and it has closed the node's host once.
  pub run_subnets-returns :
      (started : List Text → List Text) (late : ℕ → ℕ → List Text) (ps : List A)
      (more : List (Arrival A)) (cls : Clusters)
      (d : Done (Option (Node Host State Topic Sub Params MsgHandler ErrHandler)))
      (n : Node Host State Topic Sub Params MsgHandler ErrHandler)
      (tm : Manager State Topic Sub Params)
      → let cfg = read_settings env in
        let a = assign_subnets (to_bits seq) cls in
        let subnets_count = to_bits (read_subnets_count env) in
        read_clusters clusters_json unmarshal cfg.clusters_cfg ≡ ok cls
        → new_node ans text_of (node_config seq ip on_message on_error cfg) ≡ some d
        → d.node ≡ some n
        → n.topics ≡ some tm
        → is_positive (to_int32 cfg.latency_max) ≡ true
        → Comes sync
        → All IsKey a.my_validators
        → 0 < subnets_count
        → subnets_count ≤ 128
        → let r =
            run_subnets decode_hex ssv_message encode lib validator id_of connect draw sync env
              (length ps)
              seq
              clusters_json
              unmarshal
              ans
              text_of
              ip
              on_message
              on_error
              (map peer ps ++ more)
              started
              late in
          ((counts : List ℕ) × (r.counters ≡ by_one a.counters ++ subnet_counters 0 counts)
            × (length counts ≡ 128)
            × (sum counts ≡ length a.my_validators))
          × (r.end
              ≡ returns (
                  last_or none
                    (all_errors decode_hex ssv_message encode (node_name seq) a.my_validators 9 0)))
          × (points r.acts
              ≡ all_points decode_hex ssv_message encode
                  (node_name seq)
                  subnets_count
                  (subnet_of subnets_count)
                  a.my_validators
                  9
                  0)
          × (map (λ (q : Dialled A). q.peer) r.dialled
              ≡ keep (λ ai. not (id_of ai == ans.host_id n.host)) ps)
          × (times is_host_closed r.node_acts ≡ 1)
  unfolding run_subnets subnet_body wait_for
  run_subnets-returns started late ps more cls d n tm read made here held h comes ks some_subnet
        small =
      let a = assign_subnets (to_bits seq) cls in
      let subnets_count = to_bits (read_subnets_count env) in
      let (counts, counted, size, adds) =
        start_subnets-counts a.my_validators subnets_count ks some_subnet small in
      let topics = map (λ pk. subnet_topic (subnet_of subnets_count pk)) a.my_validators in
      let begun = listen_all lib validator (started topics) (nothing_sent tm) in
      let l = listen_all-fields lib validator (started topics) (nothing_sent tm) in
      let (s, done, listed, kept, same) =
        subnet_rounds-sends decode_hex ssv_message encode (node_name seq) subnets_count
          (subnet_of subnets_count) lib validator (ans.host_id n.host)
          (read_settings env).latency_max draw sync.passes late a.my_validators 9 0 begun h
          comes.passes (IsKey-AreSubnets a.my_validators subnets_count ks some_subnet small) in
      let (c, closed, error, off, cancels, closes, stops) =
        close-new_node Topic Sub Params ans text_of _ d n made here in
      let body =
        subnet_body decode_hex ssv_message encode lib validator id_of connect draw sync env
          (length ps) seq clusters_json unmarshal ans text_of ip on_message on_error
          (map peer ps ++ more) started late in
      let ended : (body (read_settings env) cls (ans.host_id n.host) tm ps).end
          ≡ returns s.send_err =
        rw
          (
            comes.passes (codes "connected"),
            counted,
            comes.passes (codes "subscribed"),
            done,
            subnet_body,
            wait_for,
          )
          refl in
      rw
        (with_node-returns decode_hex ssv_message encode lib validator id_of connect draw sync env
          seq clusters_json unmarshal ans text_of ip on_message on_error ps more cls d n c tm
          s.send_err body read made here held closed comes.initialised ended)
        (rw
          (
            comes.passes (codes "connected"),
            counted,
            comes.passes (codes "subscribed"),
            done,
            subnet_body,
            wait_for,
          )
          (
            (counts, refl, size, adds),
            ap returns (kept ∙ rw l.1 refl),
            listed ∙ rw l.0 refl,
            dial_all-peers id_of connect (ans.host_id n.host) ps,
            times-append is_host_closed d.acts c.acts
                ∙ omega (
                  arith,
                  closes,
                  new_node-open Topic Sub Params ans text_of
                      (node_config seq ip on_message on_error (read_settings env)) d n made here,
                ),
          ))

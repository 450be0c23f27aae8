-- ===== src/Topology/Run/Whole.antt =====
-- A whole run of runGroups, from the parameters to what it returns.
use p2p_tests.Prelude.{
  codes, some, ◌∙◌, ℕ, ◌≡◌, refl, ap, List, [], ◌∷◌, ◌++◌, Option, none, Text, map, keep, length,
  not, ◌==◌, text_eq, true, arith,
}
use p2p_tests.Prelude.Int.{ℤ, to_bits}
use p2p_tests.Utils.Generate.{is_positive}
use p2p_tests.Topology.Errors.{GoError, Result, ok}
use p2p_tests.Topology.Clusters.{Clusters, read_clusters}
use p2p_tests.Topology.Assignment.{assign}
use p2p_tests.Topology.Subnets.{Arrival, peer}
use p2p_tests.Topology.Subnets.Arrivals.{get_all_peers_full}
use p2p_tests.Topology.TopicManager.Interface.{Library}
use p2p_tests.Topology.TopicManager.{Manager}
use p2p_tests.Topology.Listeners.{group_topics}
use p2p_tests.Topology.Sending.{to_int32, listen_all}
use p2p_tests.Topology.Sending.Effects.{Passes, points, last_or, all_errors, listen_all-fields}
use p2p_tests.Topology.Sending.Groups.{all_points, group_rounds-sends}
use p2p_tests.Topology.Node.{Answers, Node, Done, close, new_node}
use p2p_tests.Topology.Node.Release.{
  is_host_closed, times, times-append, new_node-open, new_node-open,
}
use p2p_tests.Topology.Node.Tracing.{close-new_node}
use p2p_tests.Topology.Run.{
  Sync, wait_for, Trace, Settings, node_config, close_node, with_node, group_body, RunParams,
  read_settings, Dialled, nothing_sent, dial_all, node_name, returns, run_groups,
}

pub dial_all-peers :
    {A : Type 0} (id_of : A → Text) (connect : A → Option GoError) (host_id : Text) (ps : List A)
    → map (λ (d : Dialled A). d.peer) (dial_all id_of connect host_id ps)
      ≡ keep (λ ai. not (id_of ai == host_id)) ps
unfolding dial_all
dial_all-peers id_of connect host_id [] = refl
dial_all-peers id_of connect host_id (p ∷ ps) =
    ground (arith, dial_all-peers id_of connect host_id ps)

-- The calls that wait for other instances return.
pub record Comes (sync : Sync) : Type 0 where
  pub initialised : sync.initialised ≡ true
  pub passes : Passes sync.passes

module _ {M : Type 0} (decode_hex : Text → Result Text) (ssv_message : Text → Text → M)
    (encode : M → Result Text) {State Topic Sub Params Validator TopicOpt SubOpt Peer : Type 0}
    (lib : Library State Topic Sub Params Validator TopicOpt SubOpt Peer)
    (validator : Text → ℤ → Validator) {A : Type 0} (id_of : A → Text)
    (connect : A → Option GoError) (draw : ℕ → ℕ) (sync : Sync) (env : RunParams) (seq : ℤ)
    (clusters_json : Text) (unmarshal : Text → Result Clusters)
    {Host Others MsgHandler ErrHandler : Type 0} (ans : Answers Host State Others)
    (text_of : GoError → Text) (ip : Text) (on_message : MsgHandler) (on_error : ErrHandler) where
  pub with_node-returns :
      (ps : List A) (more : List (Arrival A)) (cls : Clusters)
      (d : Done (Option (Node Host State Topic Sub Params MsgHandler ErrHandler)))
      (n : Node Host State Topic Sub Params MsgHandler ErrHandler)
      (c : Done (Node Host State Topic Sub Params MsgHandler ErrHandler))
      (tm : Manager State Topic Sub Params) (e : Option GoError)
      (body : Settings → Clusters → Text → Manager State Topic Sub Params → List A → Trace A)
      → read_clusters clusters_json unmarshal (read_settings env).clusters_cfg ≡ ok cls
      → new_node ans text_of (node_config seq ip on_message on_error (read_settings env)) ≡ some d
      → d.node ≡ some n
      → n.topics ≡ some tm
      → close ans n ≡ some c
      → sync.initialised ≡ true
      → (body (read_settings env) cls (ans.host_id n.host) tm ps).end ≡ returns e
      → with_node decode_hex ssv_message encode lib validator id_of connect draw sync env
          (length ps)
          seq
          clusters_json
          unmarshal
          ans
          text_of
          ip
          on_message
          on_error
          (map peer ps ++ more)
          body
        ≡ record (body (read_settings env) cls (ans.host_id n.host) tm ps) {
          node_acts = d.acts ++ c.acts;
        }
  unfolding with_node close_node
  with_node-returns ps more cls d n c tm e body read made here held closed ready ended =
      ground (arith, get_all_peers_full ps more)

  -- Where the clusters can be read, NewNode returns a node, as many addresses arrive as there are
  -- instances, the latency's maximum is positive as an int32, and the calls that wait for other
  -- instances return, runGroups comes to its end, whenever and in whatever order its calls of
  -- Listen subscribe. It has dialled all those peers but itself, in order; it has recorded one
  -- point for each of its validators whose key and message are good; it returns the last error of
  -- Encode, if there was one, and no other: refused dials, listens and publications do not make it
  -- fail; and it has closed the node's host once.
  pub run_groups-returns :
      (started : List Text → List Text) (late : ℕ → ℕ → List Text) (ps : List A)
      (more : List (Arrival A)) (cls : Clusters)
      (d : Done (Option (Node Host State Topic Sub Params MsgHandler ErrHandler)))
      (n : Node Host State Topic Sub Params MsgHandler ErrHandler)
      (tm : Manager State Topic Sub Params)
      → let cfg = read_settings env in
        read_clusters clusters_json unmarshal cfg.clusters_cfg ≡ ok cls
        → new_node ans text_of (node_config seq ip on_message on_error cfg) ≡ some d
        → d.node ≡ some n
        → n.topics ≡ some tm
        → is_positive (to_int32 cfg.latency_max) ≡ true
        → Comes sync
        → let a = assign (to_bits seq) cls in
          let r =
            run_groups decode_hex ssv_message encode lib validator id_of connect draw sync env
              (length ps)
              seq
              clusters_json
              unmarshal
              ans
              text_of
              ip
              on_message
              on_error
              (map peer ps ++ more)
              started
              late in
          (r.end
            ≡ returns (
                last_or none
                  (all_errors decode_hex ssv_message encode (node_name seq) a.my_validators 1 0)))
          × (points r.acts
              ≡ all_points decode_hex ssv_message encode
                  (node_name seq)
                  a.validator_groups
                  a.my_validators
                  1
                  0)
          × (map (λ (q : Dialled A). q.peer) r.dialled
              ≡ keep (λ ai. not (id_of ai == ans.host_id n.host)) ps)
          × (times is_host_closed r.node_acts ≡ 1)
  unfolding run_groups group_body wait_for
  run_groups-returns started late ps more cls d n tm read made here held h comes =
      let a = assign (to_bits seq) cls in
      let begun = listen_all lib validator (started (group_topics a.my_groups)) (nothing_sent tm) in
      let l =
        listen_all-fields lib validator (started (group_topics a.my_groups)) (nothing_sent tm) in
      let (s, done, listed, kept, same) =
        group_rounds-sends decode_hex ssv_message encode (node_name seq) lib validator
          (ans.host_id n.host) a.validator_groups (read_settings env).latency_max draw sync.passes
          late a.my_validators 1 0 begun h comes.passes in
      let (c, closed, error, off, cancels, closes, stops) =
        close-new_node Topic Sub Params ans text_of _ d n made here in
      let body =
        group_body decode_hex ssv_message encode lib validator id_of connect draw sync env
          (length ps) seq clusters_json unmarshal ans text_of ip on_message on_error
          (map peer ps ++ more) started late in
      let ended : (body (read_settings env) cls (ans.host_id n.host) tm ps).end
          ≡ returns s.send_err =
        rw
          (
            comes.passes (codes "connected"),
            comes.passes (codes "subscribed"),
            done,
            group_body,
            wait_for,
          )
          refl in
      rw
        (with_node-returns ps more cls d n c tm s.send_err body read made here held closed
          comes.initialised ended)
        (rw
          (
            comes.passes (codes "connected"),
            comes.passes (codes "subscribed"),
            done,
            group_body,
            wait_for,
          )
          (
            ap returns (kept ∙ rw l.1 refl),
            listed ∙ rw l.0 refl,
            dial_all-peers id_of connect (ans.host_id n.host) ps,
            times-append is_host_closed d.acts c.acts
                ∙ omega (
                  arith,
                  closes,
                  new_node-open Topic Sub Params ans text_of
                      (node_config seq ip on_message on_error (read_settings env)) d n made here,
                ),
          ))

-- ===== src/Topology/Listeners.antt =====
-- plans/topology/groups.go and subnets.go: the goroutines that call Node.Listen, one for each group
-- or validator. What each of them does first is Subscribe, which runs under the manager's lock, so
-- the goroutines are their calls of Subscribe in some order.
pub mod Once
pub mod Joined
use p2p_tests.Prelude.{
  ◌≡◌, List, [], ◌∷◌, Option, none, some, Text, codes, ◌++◌, Bool, true, false, map, keys, Map,
}
use p2p_tests.Prelude.Int.{ℤ}
use p2p_tests.Topology.Errors.{GoError}
use p2p_tests.Topology.TopicManager.Interface.{Library}
use p2p_tests.Topology.TopicManager.{Manager, subscribe}

-- How the call of Subscribe in one call of Listen ended: whether the subscription is old, and the
-- error.
pub record Start : Type 0 where
  pub topic : Text
  pub exist : Bool
  pub error : Option GoError

-- Whether Listen goes on to its loop.
abbrev pub runs_loop : Start → Bool
runs_loop st = elim st.error [
  | some e ↦ false
  | none ↦ elim st.exist [ true ↦ false | false ↦ true ]
]

-- The topics of the groups of an instance, in the order in which the loop meets them.
unfoldable pub group_topics : {A : Type 0} → Map Text A → List Text
group_topics groups = map (λ gid. codes "test." ++ gid) (keys groups)

module _ {State Topic Sub Params Validator TopicOpt SubOpt Peer : Type 0}
    (lib : Library State Topic Sub Params Validator TopicOpt SubOpt Peer)
    (validator : Text → ℤ → Validator) where
  -- The beginning of Listen, as far as it concerns the manager.
  unfoldable pub start_listen :
      Text → Manager State Topic Sub Params → Manager State Topic Sub Params × Start
  start_listen t tm =
      let (tm', sub, exist, e) = subscribe lib validator t [] tm in
      (tm', record { topic = t; exist = exist; error = e })

  -- All of them, in some order.
  unfoldable pub start_all :
      List Text → Manager State Topic Sub Params → Manager State Topic Sub Params × List Start
  unfolding start_listen
  start_all [] tm = (tm, [])
  start_all (t ∷ ts) tm =
      let (tm', st) = start_listen t tm in let (tm'', sts) = start_all ts tm' in (tm'', st ∷ sts)

-- ===== src/Topology/Handlers.antt =====
-- plans/topology/groups.go and subnets.go: the two handlers that the runs give to their node, which
-- count the calls by topic.
pub mod Counted
use p2p_tests.Prelude.{List, [], ◌∷◌, ◌++◌, Text, codes, map}
use p2p_tests.Topology.Listen.{HandlerCall, msg_handler, err_handler}

module _ {M : Type 0} where
  -- The counter that a handler increments by one.
  abbrev pub counter_of : HandlerCall M → Text
  counter_of (msg_handler t m) = codes "in_msg_" ++ t
  counter_of (err_handler t e) = codes "in_msg_err_" ++ t

  -- The counters that some calls increment, in order.
  unfoldable pub count_calls : List (HandlerCall M) → List Text
  count_calls calls = map counter_of calls

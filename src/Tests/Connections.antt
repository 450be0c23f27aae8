-- ===== src/Tests/Connections.antt =====
-- notiffee of plans/topology/node.go at concrete inputs; peers are numbers.
use p2p_tests.Prelude.{
  ℕ, ◌≡◌, refl, List, [], ◌∷◌, none, some, true, lookup, insert, nat_eq, IsMap, arith,
}
use p2p_tests.Prelude.Int.{pos}
use p2p_tests.Topology.Notiffee.{
  Peers, Connectedness, not_connected, new_peers, collect, on_connected, Event, connects,
  disconnects, run, step,
}
use p2p_tests.Topology.Notiffee.Bounds.{IsBounded, run-new_peers-IsBounded}
use p2p_tests.Topology.Notiffee.{on_disconnected}
use p2p_tests.Topology.Notiffee.RoundTrip.{on_disconnected-on_connected}
use p2p_tests.Topology.Notiffee.Garbage.{run-collect_refuses}

-- A network that has lost every peer.
abbrev all_gone : ℕ → Connectedness
all_gone p = not_connected

abbrev two_arrive : List (Event ℕ)
two_arrive = connects 7 ∷ connects 8 ∷ []

-- A limit of one peer, and two peers that are counted.
abbrev full_node : Peers ℕ
full_node = record { max_peers = pos 1; count = 2; cache = (7, true) ∷ (8, true) ∷ [] }

two_are_counted : run (new_peers (pos 1)) two_arrive ≡ full_node
unfolding run step new_peers on_connected lookup insert
two_are_counted = refl

run-new_peers-IsBounded_example : IsBounded (pos 1) (run (new_peers (pos 1)) two_arrive)
run-new_peers-IsBounded_example = run-new_peers-IsBounded (pos 1) two_arrive

full_node-IsMap : IsMap full_node.cache
unfolding lookup
full_node-IsMap = (refl, (refl, tt))

full_node-IsBounded : IsBounded (pos 1) full_node
full_node-IsBounded = record {
  max = refl;
  distinct = full_node-IsMap;
  counted = omega arith;
  capped = omega arith;
}

run-collect_refuses_example :
    on_connected 9 (run (collect all_gone full_node) (disconnects all_gone 7 ∷ []))
    ≡ (run (collect all_gone full_node) (disconnects all_gone 7 ∷ []), some 9)
run-collect_refuses_example =
    run-collect_refuses 1 all_gone full_node (disconnects all_gone 7 ∷ []) 9 full_node-IsBounded
      refl (λ q h. refl)

nine_is_new : lookup 9 full_node.cache ≡ none
unfolding lookup
nine_is_new = refl

on_disconnected-on_connected_example :
    on_disconnected all_gone 9 (on_connected 9 full_node).0 ≡ full_node
on_disconnected-on_connected_example =
    on_disconnected-on_connected all_gone 9 full_node nine_is_new refl

-- ===== src/Topology/Notiffee.antt =====
-- plans/topology/node.go: notiffee, the limit on connections. The three closures share a counter and
-- a set of peers under one lock, so each call is a step. What the network answers is an argument.
pub mod Bounds
pub mod Garbage
pub mod RoundTrip
use p2p_tests.Prelude.{
  ℕ, suc, eqb, ◌-◌, ◌+◌, List, [], ◌∷◌, Option, none, some, Map, keys, lookup, insert, delete,
  BoolEq, Bool, true, false, not, if◌then◌else◌, is_some,
}
use p2p_tests.Prelude.Int.{ℤ, pos, negsuc, leb_ℤ}

-- network.Connectedness; `other` is what the default case of gc takes.
pub data Connectedness : Type 0 where
  not_connected connected cannot_connect other : Connectedness

-- The variables that the closures share. `count` is the variable connected: it is an int that no
-- call takes below zero.
pub record Peers (K : Type 0) : Type 0 where
  pub max_peers : ℤ
  pub count : ℕ
  pub cache : Map K Bool

-- The beginning of notiffee: a limit of zero stands for 25.
abbrev pub limit_of : ℤ → ℤ
limit_of (pos n) = if eqb n 0 then pos 25 else pos n
limit_of (negsuc n) = negsuc n

unfoldable pub new_peers : {K : Type 0} → ℤ → Peers K
new_peers max_peers = record { max_peers = limit_of max_peers; count = 0; cache = [] }

-- The switch of gc.
abbrev pub is_gone : Connectedness → Bool
is_gone cannot_connect = true
is_gone not_connected = true
is_gone connected = false
is_gone other = false

-- Whether a state is network.Connected.
abbrev pub is_connected : Connectedness → Bool
is_connected connected = true
is_connected not_connected = false
is_connected cannot_connect = false
is_connected other = false

-- What the network and the timer call, with the network as it is then.
pub data Event (K : Type 0) : Type 0 where
  connects : K → Event K
  disconnects : (K → Connectedness) → K → Event K
  collects : (K → Connectedness) → Event K

module _ {K : Type 0} ⦃e : BoolEq K⦄ where
  -- The first loop of gc: the peers to remove, in the order of the iteration.
  unfoldable pub to_remove : (K → Connectedness) → Map K Bool → List K
  to_remove net [] = []
  to_remove net ((p, b) ∷ m) = if is_gone (net p) then p ∷ to_remove net m else to_remove net m

  -- The second loop of gc.
  unfoldable pub delete_all : List K → Map K Bool → Map K Bool
  delete_all [] m = m
  delete_all (p ∷ ps) m = delete_all ps (delete p m)

  -- gc.
  unfoldable pub collect : (K → Connectedness) → Peers K → Peers K
  collect net s = record s { cache = delete_all (to_remove net s.cache) s.cache }

  -- ConnectedF; the second part is the peer that ClosePeer is called for.
  unfoldable pub on_connected : K → Peers K → Peers K × Option K
  on_connected p s =
      if is_some (lookup p s.cache)
      then (s, none)
      else if not (leb_ℤ (pos s.count) s.max_peers)
      then (s, some p)
      else (record s { count = suc s.count; cache = insert p true s.cache }, none)

  -- DisconnectedF.
  unfoldable pub on_disconnected : (K → Connectedness) → K → Peers K → Peers K
  on_disconnected net p s =
      if is_connected (net p)
      then s
      else if is_some (lookup p s.cache)
      then record s { count = s.count - 1; cache = delete p s.cache }
      else s

  unfoldable pub step : Peers K → Event K → Peers K
  step s (connects p) = (on_connected p s).0
  step s (disconnects net p) = on_disconnected net p s
  step s (collects net) = collect net s

  unfoldable pub run : Peers K → List (Event K) → Peers K
  run s [] = s
  run s (c ∷ cs) = run (step s c) cs

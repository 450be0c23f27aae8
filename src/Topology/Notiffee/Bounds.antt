-- ===== src/Topology/Notiffee/Bounds.antt =====
-- The counter against the set of peers, over any sequence of events.
use p2p_tests.Prelude.{
  ℕ, ◌+◌, ◌≤◌, ◌≡◌, refl, List, [], ◌∷◌, Map, delete, IsMap, insert-IsMap, delete-IsMap, length,
  length-insert, length-delete, BoolEq, Bool, true, arith,
}
use p2p_tests.Prelude.Int.{ℤ, pos, negsuc}
use p2p_tests.Topology.Notiffee.{
  Peers, Connectedness, limit_of, new_peers, to_remove, delete_all, collect, on_connected,
  on_disconnected, Event, connects, disconnects, collects, step, run,
}

-- The most peers that are counted: one above the limit, none if it is negative.
abbrev pub most_counted : ℤ → ℕ
most_counted (pos n) = n + 1
most_counted (negsuc n) = 0

module _ {K : Type 0} ⦃e : BoolEq K⦄ where
  delete_all-IsMap : (ps : List K) (m : Map K Bool) → IsMap m → IsMap (delete_all ps m)
  unfolding delete_all
  delete_all-IsMap [] m h = h
  delete_all-IsMap (p ∷ ps) m h = delete_all-IsMap ps (delete p m) (delete-IsMap p m h)

  length-delete-le : (p : K) (m : Map K Bool) → IsMap m → length (delete p m) ≤ length m
  length-delete-le p m h = ground (arith, length-delete p m h)

  pub length-delete_all-le :
      (ps : List K) (m : Map K Bool) → IsMap m → length (delete_all ps m) ≤ length m
  unfolding delete_all
  length-delete_all-le [] m h = omega arith
  length-delete_all-le (p ∷ ps) m h =
      omega
        (arith, length-delete-le p m h, length-delete_all-le ps (delete p m) (delete-IsMap p m h))

  -- No peer is kept twice, each kept peer is counted, and at most one peer more than a limit that is
  -- not negative is counted.
  pub record IsBounded (limit : ℤ) (s : Peers K) : Type 0 where
    pub max : s.max_peers ≡ limit
    pub distinct : IsMap s.cache
    pub counted : length s.cache ≤ s.count
    pub capped : s.count ≤ most_counted limit

  new_peers-IsBounded :
      (max_peers : ℤ) → IsBounded (limit_of max_peers) (new_peers {K = K} max_peers)
  unfolding new_peers
  new_peers-IsBounded max_peers = record {
    max = refl;
    distinct = tt;
    counted = omega arith;
    capped = omega arith;
  }

  on_connected-capped :
      (limit : ℤ) (p : K) (s : Peers K)
      → IsBounded limit s
      → (on_connected p s).0.count ≤ most_counted limit
  unfolding on_connected
  on_connected-capped (pos n) p s b = ground (arith, b.max, b.capped)
  on_connected-capped (negsuc n) p s b = ground (arith, b.max, b.capped)

  on_connected-IsBounded :
      (limit : ℤ) (p : K) (s : Peers K) → IsBounded limit s → IsBounded limit (on_connected p s).0
  unfolding on_connected
  on_connected-IsBounded limit p s b = record {
    max = ground (arith, b.max);
    distinct = ground (arith, b.distinct, insert-IsMap p true s.cache);
    counted = ground (arith, b.counted, length-insert p true s.cache);
    capped = on_connected-capped limit p s b;
  }

  on_disconnected-IsBounded :
      (limit : ℤ) (net : K → Connectedness) (p : K) (s : Peers K)
      → IsBounded limit s
      → IsBounded limit (on_disconnected net p s)
  unfolding on_disconnected
  on_disconnected-IsBounded limit net p s b = record {
    max = ground (arith, b.max);
    distinct = ground (arith, b.distinct, delete-IsMap p s.cache);
    counted = ground (arith, b.counted, b.distinct, length-delete p s.cache);
    capped = ground (arith, b.capped);
  }

  collect-IsBounded :
      (limit : ℤ) (net : K → Connectedness) (s : Peers K)
      → IsBounded limit s
      → IsBounded limit (collect net s)
  unfolding collect
  collect-IsBounded limit net s b = record {
    max = b.max;
    distinct = delete_all-IsMap (to_remove net s.cache) s.cache b.distinct;
    counted =
        omega (arith, length-delete_all-le (to_remove net s.cache) s.cache b.distinct, b.counted);
    capped = b.capped;
  }

  pub step-IsBounded :
      (limit : ℤ) (s : Peers K) (c : Event K) → IsBounded limit s → IsBounded limit (step s c)
  unfolding step
  step-IsBounded limit s (connects p) b = on_connected-IsBounded limit p s b
  step-IsBounded limit s (disconnects net p) b = on_disconnected-IsBounded limit net p s b
  step-IsBounded limit s (collects net) b = collect-IsBounded limit net s b

  pub run-IsBounded :
      (limit : ℤ) (s : Peers K) (cs : List (Event K))
      → IsBounded limit s
      → IsBounded limit (run s cs)
  unfolding run
  run-IsBounded limit s [] b = b
  run-IsBounded limit s (c ∷ cs) b = run-IsBounded limit (step s c) cs (step-IsBounded limit s c b)

  -- Whatever the network does, the peers that notiffee keeps are different and all counted, and the
  -- count is at most one above the limit, which is 25 where the configuration says 0; with a
  -- negative limit no peer is ever counted.
  pub run-new_peers-IsBounded :
      (max_peers : ℤ) (cs : List (Event K))
      → IsBounded (limit_of max_peers) (run (new_peers max_peers) cs)
  run-new_peers-IsBounded max_peers cs = run-IsBounded _ _ cs (new_peers-IsBounded max_peers)

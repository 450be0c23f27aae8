-- ===== src/Topology/Notiffee/Garbage.antt =====
-- gc removes exactly the peers that are gone, but does not count them off: the counter is exact only
-- without it, and a place that gc empties is lost.
use p2p_tests.Prelude.{
  ℕ, ◌+◌, ◌≤◌, ◌≡◌, refl, ap, List, [], ◌∷◌, none, some, Map, lookup, delete, lookup-delete, IsMap,
  insert-IsMap, delete-IsMap, length, length-insert, length-delete, BoolEq, Bool, true, false,
  if◌then◌else◌, is_some, arith, ◌==◌, ◌&&◌, any,
}
use p2p_tests.Prelude.Int.{ℤ, pos}
use p2p_tests.Topology.Notiffee.{
  Peers, Connectedness, is_gone, to_remove, delete_all, collect, on_connected, on_disconnected,
  Event, connects, disconnects, collects, step, run,
}
use p2p_tests.Topology.Notiffee.Bounds.{
  IsBounded, step-IsBounded, run-IsBounded, length-delete_all-le,
}

module _ {K : Type 0} ⦃e : BoolEq K⦄ where
  lookup-delete_all :
      (p : K) (ps : List K) (m : Map K Bool)
      → lookup p (delete_all ps m) ≡ (if any (λ q. p == q) ps then none else lookup p m)
  unfolding delete_all
  lookup-delete_all p [] m = refl
  lookup-delete_all p (q ∷ ps) m =
      ground (arith, lookup-delete_all p ps (delete q m), lookup-delete q p m)

  any-to_remove :
      (net : K → Connectedness) (p : K) (m : Map K Bool)
      → any (λ q. p == q) (to_remove net m) ≡ (is_gone (net p) && is_some (lookup p m))
  unfolding to_remove lookup
  any-to_remove net p [] = ground arith
  any-to_remove net p ((q, b) ∷ m) =
      ground (arith, any-to_remove net p m, e.beq_iff p q, λ (h : p ≡ q). ap net h)

  -- gc forgets the peers that are not connected or cannot be connected, and no other.
  pub lookup-collect :
      (net : K → Connectedness) (p : K) (s : Peers K)
      → lookup p (collect net s).cache ≡ (if is_gone (net p) then none else lookup p s.cache)
  unfolding collect
  lookup-collect net p s =
      ground
        (arith, lookup-delete_all p (to_remove net s.cache) s.cache, any-to_remove net p s.cache)

  -- No event takes back a place that is counted without a peer.
  step-lost :
      (limit : ℤ) (s : Peers K) (c : Event K)
      → IsBounded limit s
      → s.count + length (step s c).cache ≤ (step s c).count + length s.cache
  unfolding step on_connected on_disconnected collect
  step-lost limit s (connects p) b = ground (arith, length-insert p true s.cache)
  step-lost limit s (disconnects net p) b =
      ground (arith, length-delete p s.cache b.distinct, b.counted)
  step-lost limit s (collects net) b =
      omega (arith, length-delete_all-le (to_remove net s.cache) s.cache b.distinct)

  pub run-lost :
      (limit : ℤ) (s : Peers K) (cs : List (Event K))
      → IsBounded limit s
      → s.count + length (run s cs).cache ≤ (run s cs).count + length s.cache
  unfolding run
  run-lost limit s [] b = omega arith
  run-lost limit s (c ∷ cs) b =
      omega
        (arith, step-lost limit s c b, run-lost limit (step s c) cs (step-IsBounded limit s c b))

  length-empty : (m : Map K Bool) → ((p : K) → lookup p m ≡ none) → length m ≡ 0
  unfolding lookup
  length-empty [] h = refl
  length-empty ((q, b) ∷ m) h = absurd (ground (arith, h q, e.beq_iff q q))

  refused :
      (n : ℕ) (p : K) (s : Peers K)
      → IsBounded (pos n) s
      → n + 1 + length s.cache ≤ s.count
      → on_connected p s ≡ (s, some p)
  unfolding on_connected lookup
  refused n p s b full =
      let none_left : length s.cache ≡ 0 = omega (arith, b.capped) in go s.cache refl none_left
    where
      go : (m : Map K Bool) → s.cache ≡ m → length s.cache ≡ 0 → on_connected p s ≡ (s, some p)
      go [] same empty = ground (arith, b.max)
      go (x ∷ m) same empty = absurd (omega (arith, ap length same))

  -- When gc runs on a node that has counted one peer more than its limit, and finds none of the
  -- peers connected, the node refuses every peer from then on: after any events, ConnectedF closes
  -- the peer that connects, whichever it is, and counts nothing.
  pub run-collect_refuses :
      (n : ℕ) (net : K → Connectedness) (s : Peers K) (cs : List (Event K)) (p : K)
      → IsBounded (pos n) s
      → s.count ≡ n + 1
      → ((q : K) → is_some (lookup q s.cache) ≡ true → is_gone (net q) ≡ true)
      → on_connected p (run (collect net s) cs) ≡ (run (collect net s) cs, some p)
  unfolding step
  run-collect_refuses n net s cs p b full gone =
      let after : IsBounded (pos n) (collect net s) = step-IsBounded (pos n) s (collects net) b in
      let empty : length (collect net s).cache ≡ 0 =
        length-empty (collect net s).cache (λ q. ground (arith, lookup-collect net q s, gone q)) in
      refused n p (run (collect net s) cs) (run-IsBounded (pos n) (collect net s) cs after)
        (unfold collect in omega (arith, run-lost (pos n) (collect net s) cs after))

-- Whether a sequence of events is without gc.
abbrev pub is_uncollected : {K : Type 0} → List (Event K) → Bool
is_uncollected [] = true
is_uncollected (connects p ∷ cs) = is_uncollected cs
is_uncollected (disconnects net p ∷ cs) = is_uncollected cs
is_uncollected (collects net ∷ cs) = false

module _ {K : Type 0} ⦃e : BoolEq K⦄ where
  -- As long as gc does not run the counter is the number of the kept peers.
  pub run-exact :
      (s : Peers K) (cs : List (Event K))
      → IsMap s.cache
      → s.count ≡ length s.cache
      → is_uncollected cs ≡ true
      → (run s cs).count ≡ length (run s cs).cache
  unfolding run step on_connected on_disconnected
  run-exact s [] distinct exact h = exact
  run-exact s (connects p ∷ cs) distinct exact h =
      run-exact (on_connected p s).0 cs (ground (arith, insert-IsMap p true s.cache))
        (ground (arith, length-insert p true s.cache)) h
  run-exact s (disconnects net p ∷ cs) distinct exact h =
      run-exact (on_disconnected net p s) cs (ground (arith, delete-IsMap p s.cache))
        (ground (arith, length-delete p s.cache distinct)) h
  run-exact s (collects net ∷ cs) distinct exact h = cc

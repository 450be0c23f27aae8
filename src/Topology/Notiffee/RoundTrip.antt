-- ===== src/Topology/Notiffee/RoundTrip.antt =====
-- A peer that connects and disconnects leaves no trace.
use p2p_tests.Prelude.{
  ◌≡◌, refl, [], ◌∷◌, none, some, Map, lookup, insert, delete, BoolEq, Bool, true, false, arith,
  inl, inr, Bool-cases, lookup-insert,
}
use p2p_tests.Prelude.Int.{leb_ℤ, pos}
use p2p_tests.Topology.Notiffee.{Connectedness, Peers, is_connected, on_connected, on_disconnected}

module _ {K : Type 0} ⦃e : BoolEq K⦄ where
  delete-insert :
      (p : K) (b : Bool) (m : Map K Bool) → lookup p m ≡ none → delete p (insert p b m) ≡ m
  unfolding lookup insert delete
  delete-insert p b [] h = ground (arith, e.beq_iff p p)
  delete-insert p b ((q, c) ∷ m) h = ground (arith, delete-insert p b m)

  -- When a peer that notiffee does not keep connects, and disconnects again so that the network does
  -- not know it as connected, the peers and the count are as before: a peer that was admitted is
  -- counted off, and one that was refused was never counted.
  pub on_disconnected-on_connected :
      (net : K → Connectedness) (p : K) (s : Peers K)
      → lookup p s.cache ≡ none
      → is_connected (net p) ≡ false
      → on_disconnected net p (on_connected p s).0 ≡ s
  unfolding on_connected on_disconnected
  on_disconnected-on_connected net p s gone off =
      elim (Bool-cases (leb_ℤ (pos s.count) s.max_peers)) [
        | inr full ↦ ground (arith)
        | inl room ↦
            let there : lookup p (insert p true s.cache) ≡ some true =
              rw (lookup-insert p p true s.cache, (e.beq_iff p p).1 refl) refl in
            ground (arith, delete-insert p true s.cache gone, there)
      ]

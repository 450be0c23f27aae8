-- ===== src/Topology/Subnets/Arrivals.antt =====
-- What getAllPeers returns, by what arrives.
use p2p_tests.Prelude.{
  ℕ, ◌+◌, ◌≤◌, ◌<◌, ◌≡◌, ◌∙◌, refl, sym, ap, List, [], ◌∷◌, ◌++◌, append_assoc, append-nil, map,
  Option, none, length, length-append, arith,
}
use p2p_tests.Topology.Errors.{GoError}
use p2p_tests.Topology.Subnets.{Arrival, peer, ended, returned, waiting, gather, get_all_peers}

module _ {A : Type 0} where
  gather-peers :
      (capacity : ℕ) (peers ais : List A) (rest : List (Arrival A))
      → length peers + length ais ≤ capacity
      → gather capacity peers (map peer ais ++ rest) ≡ gather capacity (peers ++ ais) rest
  unfolding gather
  gather-peers capacity peers [] rest h = rw append-nil refl
  gather-peers capacity peers (ai ∷ ais) rest h = ground (
    arith,
    gather-peers capacity (peers ++ ai ∷ []) ais rest
        (omega (arith, length-append peers (ai ∷ []))),
    append_assoc peers (ai ∷ []) ais,
  )

  gather_full :
      (capacity : ℕ) (peers : List A) (rest : List (Arrival A))
      → capacity ≤ length peers
      → gather capacity peers rest ≡ returned peers none
  unfolding gather
  gather_full capacity peers [] h = ground arith
  gather_full capacity peers (a ∷ rest) h = ground arith

  gather_waits :
      (capacity : ℕ) (peers : List A)
      → length peers < capacity
      → gather capacity peers [] ≡ waiting peers
  unfolding gather
  gather_waits capacity peers h = ground arith

  gather_ends :
      (capacity : ℕ) (peers : List A) (e : Option GoError) (rest : List (Arrival A))
      → length peers < capacity
      → gather capacity peers (ended e ∷ rest) ≡ returned peers e
  unfolding gather
  gather_ends capacity peers e rest h = ground arith

  -- Once as many addresses have arrived as there are instances, getAllPeers returns them in order,
  -- without error and whatever comes after them.
  pub get_all_peers_full :
      (ais : List A) (rest : List (Arrival A))
      → get_all_peers (length ais) (map peer ais ++ rest) ≡ returned ais none
  unfolding get_all_peers
  get_all_peers_full ais rest =
      gather-peers (length ais) [] ais rest (omega arith)
      ∙ gather_full (length ais) ais rest (omega arith)

  -- While fewer addresses have arrived than there are instances, getAllPeers waits; if the
  -- subscription ends then, it returns those that have come, with the subscription's error.
  pub get_all_peers_short :
      (instance_count : ℕ) (ais : List A) (e : Option GoError) (rest : List (Arrival A))
      → length ais < instance_count
      → (get_all_peers instance_count (map peer ais) ≡ waiting ais)
        × (get_all_peers instance_count (map peer ais ++ ended e ∷ rest) ≡ returned ais e)
  unfolding get_all_peers
  get_all_peers_short instance_count ais e rest few = (
    ap (gather instance_count []) (sym (append-nil (map peer ais)))
        ∙ gather-peers instance_count [] ais [] (omega arith)
        ∙ gather_waits instance_count ais few,
    gather-peers instance_count [] ais (ended e ∷ rest) (omega arith)
        ∙ gather_ends instance_count ais e rest few,
  )

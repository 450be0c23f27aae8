-- ===== src/Topology/Instances/Rounds.antt =====
-- The rounds of the instances do not overlap.
use p2p_tests.Prelude.{
  ℕ, zero, suc, ◌+◌, ◌≤◌, ◌<◌, ◌≡◌, refl, List, [], ◌∷◌, ◌++◌, In, In-append_left, inl, inr, arith,
  subst, Bool-cases, eqb,
}
use p2p_tests.Topology.Instances.{
  Event, advertised, connected, subscribed, configured, finished, Move, posts, awaits, dials,
  listens, publishes, round_moves, script, System, Service, IsBarrier, Reach,
}
use p2p_tests.Topology.Instances.Order.{place, In-earlier, script-IsAscending}
use p2p_tests.Topology.Instances.Barriers.{Inv, Reach-Inv}

-- The moves of a round.
abbrev pub HasRound : ℕ → List Move → Type 0
HasRound i ms =
    In (posts (configured i)) ms
    × In (awaits (configured i)) ms
    × In (publishes i) ms
    × In (awaits (finished i)) ms

HasRound-cons : (i : ℕ) (m : Move) (ms : List Move) → HasRound i ms → HasRound i (m ∷ ms)
HasRound-cons i m ms (a, b, c, d) = (inr a, inr b, inr c, inr d)

HasRound-append : (i : ℕ) (ms ns : List Move) → HasRound i ns → HasRound i (ms ++ ns)
HasRound-append i [] ns h = h
HasRound-append i (m ∷ ms) ns h = HasRound-cons i m (ms ++ ns) (HasRound-append i ms ns h)

round_moves-HasRound : (n i h : ℕ) → i ≤ h → h < i + n → HasRound h (round_moves n i)
unfolding round_moves
round_moves-HasRound zero i h le lt = absurd (omega arith)
round_moves-HasRound (suc n) i h le lt = elim (Bool-cases (eqb i h)) [
  | inl same ↦
      let e : h ≡ i = ground arith in
      rw e (inl refl, inr (inl refl), inr (inr (inl refl)), inr (inr (inr (inr (inl refl)))))
  | inr later ↦
      let first =
        posts (configured i)
        ∷ awaits (configured i)
        ∷ publishes i
        ∷ posts (finished i)
        ∷ awaits (finished i)
        ∷ [] in
      HasRound-append h first (round_moves n (suc i))
        (round_moves-HasRound n (suc i) h (ground arith) (omega arith))
]

pub round_moves-bound : (n i h : ℕ) → In (publishes h) (round_moves n i) → h < i + n
unfolding round_moves
round_moves-bound zero i h here = absurd here
round_moves-bound (suc n) i h (inl bad) = cc
round_moves-bound (suc n) i h (inr (inl bad)) = cc
round_moves-bound (suc n) i h (inr (inr (inl e))) = let same : h ≡ i = cc in omega arith
round_moves-bound (suc n) i h (inr (inr (inr (inl bad)))) = cc
round_moves-bound (suc n) i h (inr (inr (inr (inr (inl bad))))) = cc
round_moves-bound (suc n) i h (inr (inr (inr (inr (inr later))))) =
    omega (arith, round_moves-bound n (suc i) h later)

script-bound : (rounds h : ℕ) → In (publishes h) (script rounds) → h < rounds
unfolding script
script-bound rounds h (inl bad) = cc
script-bound rounds h (inr (inl bad)) = cc
script-bound rounds h (inr (inr (inl bad))) = cc
script-bound rounds h (inr (inr (inr (inl bad)))) = cc
script-bound rounds h (inr (inr (inr (inr (inl bad))))) = cc
script-bound rounds h (inr (inr (inr (inr (inr (inl bad)))))) = cc
script-bound rounds h (inr (inr (inr (inr (inr (inr (inl bad))))))) = cc
script-bound rounds h (inr (inr (inr (inr (inr (inr (inr (inl bad)))))))) = cc
script-bound rounds h (inr (inr (inr (inr (inr (inr (inr (inr later)))))))) =
    omega (arith, round_moves-bound rounds 0 h later)

-- The moves before the rounds.
abbrev opening : List Move
opening =
    posts advertised
    ∷ awaits advertised
    ∷ dials
    ∷ posts connected
    ∷ awaits connected
    ∷ listens
    ∷ posts subscribed
    ∷ awaits subscribed
    ∷ []

script-HasRound : (rounds h : ℕ) → h < rounds → HasRound h (script rounds)
unfolding script
script-HasRound rounds h lt =
    HasRound-append h opening (round_moves rounds 0)
      (round_moves-HasRound rounds 0 h (omega arith) (omega arith))

script-opening :
    (rounds : ℕ)
    → In dials (script rounds)
      × In (awaits connected) (script rounds)
      × In listens (script rounds)
      × In (awaits subscribed) (script rounds)
unfolding script
script-opening rounds = (
  inr (inr (inl refl)),
  inr (inr (inr (inr (inl refl)))),
  inr (inr (inr (inr (inr (inl refl))))),
  inr (inr (inr (inr (inr (inr (inr (inl refl))))))),
)

module _ (released : Service) (n : ℕ) (barrier : IsBarrier released) (rounds : ℕ) where
  -- A move on the script that an instance has made, and an earlier move.
  made_before :
      (s : System)
      → Inv released n barrier rounds s
      → (a b : Move) (k : ℕ) → In a (script rounds)
      → In b (s.past k)
      → place a < place b
      → In a (s.past k)
  made_before s v a b k there made lt =
      let (rest, e) = v.divided k in
      In-earlier 0 a b (s.past k) (s.left k ++ rest) (rw e (script-IsAscending rounds)) (rw e there)
        made lt

  -- Who has made a move behind a wait knows that all have made the moves before the post.
  pub crossing :
      (s : System)
      → Inv released n barrier rounds s
      → (e : Event) (a b : Move) (j k : ℕ) → In a (script rounds)
      → In (awaits e) (script rounds)
      → place a < place (posts e)
      → place (awaits e) < place b
      → In b (s.past j)
      → k < n
      → In a (s.past k)
  crossing s v e a b j k there waited lt lt' made below =
      made_before s v a (posts e) k there
        (v.passed e j k (made_before s v (awaits e) b j waited made lt') below) lt

  made-script :
      (s : System)
      → Inv released n barrier rounds s
      → (a : Move) (k : ℕ) → In a (s.past k)
      → In a (script rounds)
  made-script s v a k h =
      let (rest, e) = v.divided k in
      subst (In a) e (In-append_left a (s.past k) (s.left k ++ rest) h)

  -- Whatever the order in which the instances take their steps, and whichever of them end early: when
  -- one has published in a round, every instance has dialled its peers and started its listeners, its
  -- network has been configured for this round and all earlier ones, and it has published in all
  -- earlier rounds.
  pub rounds_apart :
      {s : System} (i j k : ℕ)
      → Reach released n rounds s
      → In (publishes i) (s.past j)
      → k < n
      → In dials (s.past k)
        × In listens (s.past k)
        × ((h : ℕ) → h ≤ i → In (posts (configured h)) (s.past k))
        × ((h : ℕ) → h < i → In (publishes h) (s.past k))
  rounds_apart {s} i j k r made below =
      let v = Reach-Inv released n barrier rounds r in
      let bound = script-bound rounds i (made-script s v (publishes i) j made) in
      let o = script-opening rounds in
      (
        crossing s v connected dials (publishes i) j k o.0 o.1 (omega arith) (omega arith) made
            below,
        crossing s v subscribed listens (publishes i) j k o.2 o.3 (omega arith) (omega arith) made
            below,
        λ h le.
            let c = script-HasRound rounds h (omega arith) in
            v.passed (configured h) j k
              (made_before s v (awaits (configured h)) (publishes i) j c.1 made (omega arith))
              below,
        λ h lt.
            let c = script-HasRound rounds h (omega arith) in
            crossing s v (finished h) (publishes h) (publishes i) j k c.2 c.3 (omega arith)
              (omega arith) made below,
      )

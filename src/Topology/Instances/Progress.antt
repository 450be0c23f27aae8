-- ===== src/Topology/Instances/Progress.antt =====
-- The instances do not wait for each other for ever.
use p2p_tests.Prelude.{
  ℕ, zero, suc, ◌+◌, ◌≤◌, ◌<◌, ◌≡◌, refl, sym, ap, subst, ◌∙◌, List, [], ◌∷◌, ◌++◌, append_assoc,
  true, In, inl, inr, arith, Bool-cases, eqb, length, length-append, ltb,
}
use p2p_tests.Prelude.Family.{
  update, total, total-raised, le-total, le-total_of_one, total-pos, least,
}
use p2p_tests.Topology.Instances.{
  Event, advertised, connected, subscribed, configured, finished, event_name, Move, posts, awaits,
  dials, listens, publishes, round_moves, script, System, Service, IsBarrier, can_go, after, moves,
  Reach, later,
}
use p2p_tests.Topology.Instances.Order.{place, In-before_next, script-IsAscending}
use p2p_tests.Topology.Instances.Barriers.{Inv, Reach-Inv}
use p2p_tests.Topology.Instances.Posted.{posted, In-posted}

-- Every wait has its post.
round_moves-posts :
    (n i : ℕ) (e : Event) → In (awaits e) (round_moves n i) → In (posts e) (round_moves n i)
unfolding round_moves
round_moves-posts zero i e h = h
round_moves-posts (suc n) i e (inl bad) = cc
round_moves-posts (suc n) i e (inr (inl it)) =
    let same : e ≡ configured i = cc in inl (ap posts same)
round_moves-posts (suc n) i e (inr (inr (inl bad))) = cc
round_moves-posts (suc n) i e (inr (inr (inr (inl bad)))) = cc
round_moves-posts (suc n) i e (inr (inr (inr (inr (inl it))))) =
    let same : e ≡ finished i = cc in inr (inr (inr (inl (ap posts same))))
round_moves-posts (suc n) i e (inr (inr (inr (inr (inr h))))) =
    inr (inr (inr (inr (inr (round_moves-posts n (suc i) e h)))))

script-posts :
    (rounds : ℕ) (e : Event) → In (awaits e) (script rounds) → In (posts e) (script rounds)
unfolding script
script-posts rounds e (inl bad) = cc
script-posts rounds e (inr (inl it)) = let same : e ≡ advertised = cc in inl (ap posts same)
script-posts rounds e (inr (inr (inl bad))) = cc
script-posts rounds e (inr (inr (inr (inl bad)))) = cc
script-posts rounds e (inr (inr (inr (inr (inl it))))) =
    let same : e ≡ connected = cc in inr (inr (inr (inl (ap posts same))))
script-posts rounds e (inr (inr (inr (inr (inr (inl bad)))))) = cc
script-posts rounds e (inr (inr (inr (inr (inr (inr (inl bad))))))) = cc
script-posts rounds e (inr (inr (inr (inr (inr (inr (inr (inl it)))))))) =
    let same : e ≡ subscribed = cc in inr (inr (inr (inr (inr (inr (inl (ap posts same)))))))
script-posts rounds e (inr (inr (inr (inr (inr (inr (inr (inr h)))))))) =
    inr (inr (inr (inr (inr (inr (inr (inr (round_moves-posts rounds 0 e h))))))))

place-posts : (e : Event) → place (posts e) < place (awaits e)
place-posts advertised = omega arith
place-posts connected = omega arith
place-posts subscribed = omega arith
place-posts (configured i) = omega arith
place-posts (finished i) = omega arith

-- Of two beginnings of one list the longer has what the shorter has.
In-longer :
    (a : Move) (p q p' q' : List Move) → p ++ q ≡ p' ++ q' → length p ≤ length p' → In a p → In a p'
In-longer a [] q p' q' e le h = absurd h
In-longer a (c ∷ p) q [] q' e le h = absurd (omega arith)
In-longer a (c ∷ p) q (d ∷ p') q' e le (inl it) = let same : c ≡ d = cc in inl (it ∙ same)
In-longer a (c ∷ p) q (d ∷ p') q' e le (inr h) =
    let rest : p ++ q ≡ p' ++ q' = cc in inr (In-longer a p q p' q' rest (omega arith) h)

In-middle : (m : Move) (p q : List Move) → In m (p ++ m ∷ q)
In-middle m [] q = inl refl
In-middle m (c ∷ p) q = inr (In-middle m p q)

module _ (released : Service) (n : ℕ) (barrier : IsBarrier released) (rounds : ℕ) where
  -- No instance has ended early.
  abbrev pub IsWhole : System → Type 0
  IsWhole s = (k : ℕ) → s.past k ++ s.left k ≡ script rounds

  -- An instance that can make its next move.
  pub record Ready (s : System) : Type 0 where
    pub number : ℕ
    pub move : Move
    pub rest : List Move
    pub below : number < n
    pub next : s.left number ≡ move ∷ rest
    pub goes : can_go released n move s.log ≡ true

  -- The next move of an instance that is not ahead of any other.
  last-goes :
      (s : System)
      → Inv released n barrier rounds s
      → IsWhole s
      → (i : ℕ) (m : Move) (rest : List Move) → s.left i ≡ m ∷ rest
      → ((k : ℕ) → k < n → length (s.past i) ≤ length (s.past k))
      → can_go released n m s.log ≡ true
  last-goes s v w i (posts e) rest next low = refl
  last-goes s v w i dials rest next low = refl
  last-goes s v w i listens rest next low = refl
  last-goes s v w i (publishes r) rest next low = refl
  last-goes s v w i (awaits e) rest next low =
      let whole : s.past i ++ awaits e ∷ rest ≡ script rounds = rw next at (w i) in
      let here : In (awaits e) (script rounds) =
        subst (In (awaits e)) whole (In-middle (awaits e) (s.past i) rest) in
      let mine : In (posts e) (s.past i) =
        In-before_next 0 (posts e) (awaits e) (s.past i) rest (rw whole (script-IsAscending rounds))
          (rw whole (script-posts rounds e here)) (place-posts e) in
      barrier.lets_go s.log (event_name e) n (
        omega (
          arith,
          v.tallied (event_name e),
          le-total n (λ k. posted (event_name e) (s.past k))
              (λ k below. In-posted e (s.past k) (
                In-longer (posts e) (s.past i) (s.left i) (s.past k) (s.left k) (w i ∙ sym (w k))
                  (low k below) mine)),
        ))

  length_parts :
      (s : System)
      → IsWhole s
      → (k : ℕ) → length (s.past k) + length (s.left k) ≡ length (script rounds)
  length_parts s w k = sym (length-append (s.past k) (s.left k)) ∙ ap length (w k)

  -- While no instance has ended early and one has something left to do, one can go on: they never
  -- all wait.
  pub no_deadlock :
      {s : System} (k : ℕ)
      → Reach released n rounds s
      → IsWhole s
      → k < n
      → 0 < length (s.left k)
      → Ready s
  no_deadlock {s} k r w below busy =
      let v = Reach-Inv released n barrier rounds r in
      let (i, lt, low) = least n (λ j. length (s.past j)) (omega arith) in
      let more : 0 < length (s.left i) =
        omega (arith, length_parts s w k, length_parts s w i, low k below) in
      go s v w i lt low (s.left i) refl more
    where
      go :
          (s : System)
          → Inv released n barrier rounds s
          → IsWhole s
          → (i : ℕ) → i < n
          → ((j : ℕ) → j < n → length (s.past i) ≤ length (s.past j))
          → (ms : List Move) → s.left i ≡ ms
          → 0 < length ms
          → Ready s
      go s v w i lt low [] e busy = absurd (omega arith)
      go s v w i lt low (m ∷ rest) e busy = record {
        number = i;
        move = m;
        rest = rest;
        below = lt;
        next = e;
        goes = last-goes s v w i m rest e low;
      }

  -- The state after the move of a ready instance.
  abbrev next_state : (s : System) → Ready s → System
  next_state s g = record {
    past = update s.past g.number (s.past g.number ++ g.move ∷ []);
    left = update s.left g.number g.rest;
    log = after released n g.move s.log;
  }

  next_state-IsWhole : (s : System) (g : Ready s) → IsWhole s → IsWhole (next_state s g)
  next_state-IsWhole s g w k = elim (Bool-cases (eqb g.number k)) [
    | inr other ↦ rw other (w k)
    | inl same ↦
        rw same (append_assoc (s.past g.number) (g.move ∷ []) g.rest ∙ rw g.next at (w g.number))
  ]

  -- How many moves the instances have left.
  abbrev pub moves_left : System → ℕ
  moves_left s = total n (λ k. length (s.left k))

  next_state-moves_left :
      (s : System) (g : Ready s) → moves_left s ≡ moves_left (next_state s g) + 1
  next_state-moves_left s g =
      total-raised n (λ k. length ((next_state s g).left k)) (λ k. length (s.left k)) g.number 1
        g.below (ground (arith, ap length g.next)) (λ k other. rw other refl)

  length-zero : (ms : List Move) → length ms ≡ 0 → ms ≡ []
  length-zero [] e = refl
  length-zero (m ∷ ms) e = absurd (omega arith)

  finish_within :
      (fuel : ℕ) {s : System}
      → Reach released n rounds s
      → IsWhole s
      → moves_left s ≤ fuel
      → (t : System) × Reach released n rounds t × IsWhole t × ((k : ℕ) → k < n → t.left k ≡ [])
  finish_within zero {s} r w enough = (
    s,
    r,
    w,
    λ k lt. length-zero (s.left k) (omega (arith, le-total_of_one n (λ j. length (s.left j)) k lt)),
  )
  finish_within (suc fuel) {s} r w enough = elim (Bool-cases (ltb 0 (moves_left s))) [
    | inr none_left ↦ finish_within fuel r w (ground arith)
    | inl some_left ↦
        let (k, lt, busy) = total-pos n (λ j. length (s.left j)) (ground arith) in
        let g = no_deadlock k r w lt busy in
        finish_within fuel (later r (moves g.number g.move g.rest g.below g.next g.goes))
          (next_state-IsWhole s g w) (omega (arith, next_state-moves_left s g))
  ]

  -- From every state in which no instance has ended early the instances can all come to the end of
  -- their scripts.
  pub all_finish :
      {s : System}
      → Reach released n rounds s
      → IsWhole s
      → (t : System) × Reach released n rounds t × IsWhole t × ((k : ℕ) → k < n → t.left k ≡ [])
  all_finish {s} r w = finish_within (moves_left s) r w (omega arith)

-- ===== src/Topology/Instances/Barriers.antt =====
-- What the instances know of each other: who has passed a wait knows that all have posted.
use p2p_tests.Prelude.{
  count, count-append, ℕ, ◌+◌, ◌≤◌, ◌<◌, ◌≡◌, refl, sym, ap, ◌∙◌, List, [], ◌∷◌, ◌++◌, append_assoc,
  append-nil, Text, text_eq, true, In, In-append_left, inl, inr, arith, Bool-cases, eqb, ◌⊎◌,
}
use p2p_tests.Prelude.Family.{update, total, total-zero, total-raised, total-full}
use p2p_tests.Topology.Instances.{
  Event, event_name, Move, posts, awaits, dials, listens, publishes, script, System, begin, Service,
  IsBarrier, can_go, after, Step, moves, stops, Reach, start, later,
}
use p2p_tests.Topology.Instances.Order.{script-IsAscending}
use p2p_tests.Topology.Instances.Posted.{posted, posted-append, posted-In, posted-le}

module _ (released : Service) (n : ℕ) (barrier : IsBarrier released) (rounds : ℕ) where
  -- What holds in every state: each instance has made the beginning of the script and has a part of
  -- the rest left; the service has counted what all have posted; and a wait that one has passed is for
  -- an event that all have posted.
  pub record Inv (s : System) : Type 0 where
    pub divided : (k : ℕ) → (rest : List Move) × (s.past k ++ (s.left k ++ rest) ≡ script rounds)
    pub tallied : (t : Text) → count t s.log ≡ total n (λ k. posted t (s.past k))
    pub passed : (e : Event) (j k : ℕ) → In (awaits e) (s.past j) → k < n → In (posts e) (s.past k)

  begin-Inv : Inv (begin rounds)
  begin-Inv = record {
    divided = λ k. ([], append-nil (script rounds));
    tallied = λ t. sym (total-zero n);
    passed = λ e j k h _. absurd h;
  }

  -- No instance has posted a name twice.
  pub posted_once : (s : System) → Inv s → (t : Text) (k : ℕ) → posted t (s.past k) ≤ 1
  posted_once s v t k =
      let (rest, e) = v.divided k in
      let whole = posted-le 0 t (script rounds) (script-IsAscending rounds) in
      let parts = posted-append t (s.past k) (s.left k ++ rest) in
      let same : posted t (s.past k ++ (s.left k ++ rest)) ≡ posted t (script rounds) =
        ap (posted t) e in
      omega arith

  after-count :
      (m : Move) (t : Text) (log : List Text)
      → count t (after released n m log) ≡ count t log + posted t (m ∷ [])
  after-count (posts e) t log = count-append t log (event_name e ∷ [])
  after-count (awaits e) t log = omega arith
  after-count dials t log = omega arith
  after-count listens t log = omega arith
  after-count (publishes i) t log = omega arith

  -- A wait ends only when every instance has posted.
  released-posted :
      (s : System)
      → Inv s
      → (e : Event) → released s.log (event_name e) n ≡ true
      → (k : ℕ) → k < n
      → In (posts e) (s.past k)
  released-posted s v e go k lt =
      let enough = barrier.counted s.log (event_name e) n go in
      posted-In e (s.past k) (
        total-full n (λ j. posted (event_name e) (s.past j))
          (λ j below. posted_once s v (event_name e) j) (omega (arith, v.tallied (event_name e))) k
          lt)

  In-last : (a m : Move) (p : List Move) → In a (p ++ m ∷ []) → In a p ⊎ (a ≡ m)
  In-last a m [] (inl e) = inr e
  In-last a m [] (inr h) = absurd h
  In-last a m (c ∷ p) (inl e) = inl (inl e)
  In-last a m (c ∷ p) (inr h) = elim (In-last a m p h) [
    | inl there ↦ inl (inr there)
    | inr e ↦ inr e
  ]

  module _ (s : System) (v : Inv s) (i : ℕ) (m : Move) (rest : List Move) (lt : i < n)
      (next : s.left i ≡ m ∷ rest) (go : can_go released n m s.log ≡ true) where
    abbrev past' : ℕ → List Move
    past' = update s.past i (s.past i ++ m ∷ [])

    moved-divided :
        (k : ℕ) → (more : List Move) × (past' k ++ (update s.left i rest k ++ more) ≡ script rounds)
    moved-divided k = elim (Bool-cases (eqb i k)) [
      | inr other ↦ let (more, e) = v.divided k in (more, rw other e)
      | inl same ↦
          let (more, e) = v.divided i in
          (more, rw same (append_assoc (s.past i) (m ∷ []) (rest ++ more) ∙ rw next at e))
    ]

    -- Nothing that was made is forgotten.
    past-kept : (a : Move) (k : ℕ) → In a (s.past k) → In a (past' k)
    past-kept a k h = elim (Bool-cases (eqb i k)) [
      | inr other ↦ rw other h
      | inl same ↦
          let it : k ≡ i = ground arith in
          rw same (In-append_left a (s.past i) (m ∷ []) (rw it at h))
    ]

    moved-passed : (e : Event) (j k : ℕ) → In (awaits e) (past' j) → k < n → In (posts e) (past' k)
    moved-passed e j k h below = elim (Bool-cases (eqb i j)) [
      | inr other ↦ past-kept (posts e) k (v.passed e j k (rw other at h) below)
      | inl same ↦ elim (In-last (awaits e) m (s.past i) (rw same at h)) [
        | inl before ↦ past-kept (posts e) k (v.passed e i k before below)
        | inr it ↦ past-kept (posts e) k (released-posted s v e (rw (sym it) at go) k below)
      ]
    ]

    moved-tallied :
        (t : Text) → count t (after released n m s.log) ≡ total n (λ k. posted t (past' k))
    moved-tallied t =
        let raised =
          total-raised n (λ k. posted t (s.past k)) (λ k. posted t (past' k)) i (posted t (m ∷ []))
            lt (ground (arith, posted-append t (s.past i) (m ∷ []))) (λ k other. rw other refl) in
        after-count m t s.log ∙ omega (arith, v.tallied t, raised)

    moves-Inv :
        Inv (record { past = past'; left = update s.left i rest; log = after released n m s.log })
    moves-Inv = record { divided = moved-divided; tallied = moved-tallied; passed = moved-passed }

  stops-Inv : (s : System) (i : ℕ) → Inv s → Inv (record s { left = update s.left i [] })
  stops-Inv s i v = record {
    divided = λ k. elim (Bool-cases (eqb i k)) [
      | inr other ↦ let (rest, e) = v.divided k in (rest, rw other e)
      | inl same ↦ let (rest, e) = v.divided k in (s.left k ++ rest, rw same e)
    ];
    tallied = v.tallied;
    passed = v.passed;
  }

  Step-Inv : {s t : System} → Step released n s t → Inv s → Inv t
  Step-Inv {s} (moves i m rest lt next go) v = moves-Inv s v i m rest lt next go
  Step-Inv {s} (stops i lt) v = stops-Inv s i v

  pub Reach-Inv : {s : System} → Reach released n rounds s → Inv s
  Reach-Inv start = begin-Inv
  Reach-Inv (later r st) = Step-Inv st (Reach-Inv r)

-- ===== src/Topology/Instances/Posted.antt =====
-- What an instance has posted by its moves.
use p2p_tests.Prelude.{
  count, count-append, ℕ, ◌+◌, ◌≤◌, ◌<◌, ◌≡◌, refl, ap, List, [], ◌∷◌, ◌++◌, Text, ◌==◌, text_eq,
  In, inl, inr, arith, Bool-cases, eqb,
}
use p2p_tests.Topology.Instances.{Event, event_name, Move, posts, awaits, dials, listens, publishes}
use p2p_tests.Topology.Instances.Order.{place, IsAscending, place-lt, event_name-injective}

-- The names that some moves have posted.
abbrev pub names : List Move → List Text
names [] = []
names (posts e ∷ ms) = event_name e ∷ names ms
names (awaits e ∷ ms) = names ms
names (dials ∷ ms) = names ms
names (listens ∷ ms) = names ms
names (publishes i ∷ ms) = names ms

names-append : (ms ns : List Move) → names (ms ++ ns) ≡ names ms ++ names ns
names-append [] ns = refl
names-append (posts e ∷ ms) ns = ap (◌∷◌ (event_name e)) (names-append ms ns)
names-append (awaits e ∷ ms) ns = names-append ms ns
names-append (dials ∷ ms) ns = names-append ms ns
names-append (listens ∷ ms) ns = names-append ms ns
names-append (publishes i ∷ ms) ns = names-append ms ns

-- How often some moves post a name.
abbrev pub posted : Text → List Move → ℕ
posted t ms = count t (names ms)

pub posted-append : (t : Text) (ms ns : List Move) → posted t (ms ++ ns) ≡ posted t ms + posted t ns
posted-append t ms ns = rw (names-append ms ns) (count-append t (names ms) (names ns))

-- A name that is posted belongs to a move.
pub posted-In : (e : Event) (ms : List Move) → 0 < posted (event_name e) ms → In (posts e) ms
posted-In e [] h = absurd (omega arith)
posted-In e (posts f ∷ ms) h = elim (Bool-cases (event_name e == event_name f)) [
  | inl same ↦
      inl (
        ap posts
          (event_name-injective e f ((text_eq.beq_iff (event_name e) (event_name f)).0 same)))
  | inr other ↦ inr (posted-In e ms (rw other at h))
]
posted-In e (awaits f ∷ ms) h = inr (posted-In e ms h)
posted-In e (dials ∷ ms) h = inr (posted-In e ms h)
posted-In e (listens ∷ ms) h = inr (posted-In e ms h)
posted-In e (publishes i ∷ ms) h = inr (posted-In e ms h)

pub In-posted : (e : Event) (ms : List Move) → In (posts e) ms → 0 < posted (event_name e) ms
In-posted e [] h = absurd h
In-posted e (posts f ∷ ms) (inl same) =
    let it : e ≡ f = cc in
    rw (it, (text_eq.beq_iff (event_name f) (event_name f)).1 refl) (omega arith)
In-posted e (posts f ∷ ms) (inr h) = ground (arith, In-posted e ms h)
In-posted e (awaits f ∷ ms) (inl bad) = cc
In-posted e (awaits f ∷ ms) (inr h) = In-posted e ms h
In-posted e (dials ∷ ms) (inl bad) = cc
In-posted e (dials ∷ ms) (inr h) = In-posted e ms h
In-posted e (listens ∷ ms) (inl bad) = cc
In-posted e (listens ∷ ms) (inr h) = In-posted e ms h
In-posted e (publishes i ∷ ms) (inl bad) = cc
In-posted e (publishes i ∷ ms) (inr h) = In-posted e ms h

-- Moves in the order of the script post a name at most once.
pub posted-le : (r : ℕ) (t : Text) (ms : List Move) → IsAscending r ms → posted t ms ≤ 1
posted-le r t [] h = omega arith
posted-le r t (posts e ∷ ms) h = elim (Bool-cases (t == event_name e)) [
  | inr other ↦ rw other (posted-le (place (posts e)) t ms h.1)
  | inl same ↦
      let it : t ≡ event_name e = (text_eq.beq_iff t (event_name e)).0 same in
      elim (Bool-cases (eqb (posted t ms) 0)) [
        | inl once ↦ rw same (ground arith)
        | inr again ↦
            let more : 0 < posted t ms = ground arith in
            let twice : 0 < posted (event_name e) ms = rw it at more in
            let lt = place-lt (place (posts e)) (posts e) ms h.1 (posted-In e ms twice) in
            absurd (omega arith)
      ]
]
posted-le r t (awaits e ∷ ms) h = posted-le (place (awaits e)) t ms h.1
posted-le r t (dials ∷ ms) h = posted-le (place dials) t ms h.1
posted-le r t (listens ∷ ms) h = posted-le (place listens) t ms h.1
posted-le r t (publishes i ∷ ms) h = posted-le (place (publishes i)) t ms h.1

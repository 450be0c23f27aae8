-- ===== src/Topology/Instances/Order.antt =====
-- The order of an instance's moves: each stands in the script once, and the names of the events are
-- different.
use p2p_tests.Prelude.{
  append-injective, ℕ, zero, suc, ◌+◌, ◌*◌, ◌≤◌, ◌<◌, ◌≡◌, refl, ap, List, [], ◌∷◌, ◌++◌, Text,
  codes, text_eq, In, inl, inr, arith,
}
use p2p_tests.Prelude.Int.{pos}
use p2p_tests.Prelude.Decimal.{print_int-injective}
use p2p_tests.Topology.Instances.{
  Event, advertised, connected, subscribed, configured, finished, event_name, Move, posts, awaits,
  dials, listens, publishes, round_moves, script,
}

-- The place of a move in the script.
abbrev pub place : Move → ℕ
place (posts advertised) = 1
place (awaits advertised) = 2
place dials = 3
place (posts connected) = 4
place (awaits connected) = 5
place listens = 6
place (posts subscribed) = 7
place (awaits subscribed) = 8
place (posts (configured i)) = 9 + 5 * i
place (awaits (configured i)) = 10 + 5 * i
place (publishes i) = 11 + 5 * i
place (posts (finished i)) = 12 + 5 * i
place (awaits (finished i)) = 13 + 5 * i

-- Places go up, from above `r` on.
abbrev pub IsAscending : ℕ → List Move → Type 0
IsAscending r [] = Unit
IsAscending r (m ∷ ms) = (r < place m) × IsAscending (place m) ms

IsAscending-weaken : (r r' : ℕ) (ms : List Move) → r ≤ r' → IsAscending r' ms → IsAscending r ms
IsAscending-weaken r r' [] le h = tt
IsAscending-weaken r r' (m ∷ ms) le h = (omega (arith, h.0), h.1)

pub place-lt : (r : ℕ) (m : Move) (ms : List Move) → IsAscending r ms → In m ms → r < place m
place-lt r m [] h here = absurd here
place-lt r m (c ∷ ms) h (inl e) = rw e h.0
place-lt r m (c ∷ ms) h (inr later) = omega (arith, h.0, place-lt (place c) m ms h.1 later)

-- Where a later move has been made, an earlier one has been too.
pub In-earlier :
    (r : ℕ) (a b : Move) (p q : List Move)
    → IsAscending r (p ++ q)
    → In a (p ++ q)
    → In b p
    → place a < place b
    → In a p
In-earlier r a b [] q h there here lt = absurd here
In-earlier r a b (c ∷ p) q h (inl e) here lt = inl e
In-earlier r a b (c ∷ p) q h (inr later) (inl e) lt =
    let low : place c < place a = place-lt (place c) a (p ++ q) h.1 later in
    let same : place b ≡ place c = ap place e in absurd (omega arith)
In-earlier r a b (c ∷ p) q h (inr later) (inr here) lt =
    inr (In-earlier (place c) a b p q h.1 later here lt)

-- A move that stands before the next one has been made.
pub In-before_next :
    (r : ℕ) (a m : Move) (p q : List Move)
    → IsAscending r (p ++ m ∷ q)
    → In a (p ++ m ∷ q)
    → place a < place m
    → In a p
In-before_next r a m [] q h (inl e) lt =
    let same : place a ≡ place m = ap place e in absurd (omega arith)
In-before_next r a m [] q h (inr later) lt =
    let low : place m < place a = place-lt (place m) a q h.1 later in absurd (omega arith)
In-before_next r a m (c ∷ p) q h (inl e) lt = inl e
In-before_next r a m (c ∷ p) q h (inr later) lt =
    inr (In-before_next (place c) a m p q h.1 later lt)

round_moves-IsAscending : (n i r : ℕ) → r ≤ 8 + 5 * i → IsAscending r (round_moves n i)
unfolding round_moves
round_moves-IsAscending zero i r le = tt
round_moves-IsAscending (suc n) i r le = (
  omega arith,
  (
    omega arith,
    (
      omega arith,
      (omega arith, (omega arith, round_moves-IsAscending n (suc i) (13 + 5 * i) (omega arith))),
    ),
  ),
)

pub script-IsAscending : (rounds : ℕ) → IsAscending 0 (script rounds)
unfolding script
script-IsAscending rounds = (
  omega arith,
  (
    omega arith,
    (
      omega arith,
      (
        omega arith,
        (
          omega arith,
          (
            omega arith,
            (omega arith, (omega arith, round_moves-IsAscending rounds 0 8 (omega arith))),
          ),
        ),
      ),
    ),
  ),
)

-- The first byte of a text.
abbrev initial : Text → ℕ
initial [] = 0
initial (c ∷ s) = c

-- Different events have different names.
pos-injective : (i j : ℕ) → pos i ≡ pos j → i ≡ j
pos-injective i j e = cc

pub event_name-injective : (e f : Event) → event_name e ≡ event_name f → e ≡ f
event_name-injective (configured i) (configured j) h = ap configured (
    pos-injective i j
      (print_int-injective (pos i) (pos j) (append-injective (codes "network-configured-") _ _ h)))
event_name-injective (finished i) (finished j) h = ap finished (
    pos-injective i j
      (print_int-injective (pos i) (pos j) (append-injective (codes "done-") _ _ h)))
event_name-injective advertised advertised h = refl
event_name-injective connected connected h = refl
event_name-injective subscribed subscribed h = refl
event_name-injective e f h =
    let d : initial (event_name e) ≡ initial (event_name f) = ap initial h in absurd (omega arith)

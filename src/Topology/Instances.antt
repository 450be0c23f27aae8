-- ===== src/Topology/Instances.antt =====
-- plans/topology/groups.go and subnets.go: the instances of a run side by side, with the calls of the
-- testground SyncClient and of MustConfigureNetwork by which they wait for each other. What an
-- instance does in between is one move; how it does that is modelled by the other modules.

pub mod Order
pub mod Posted
pub mod Barriers
pub mod Rounds
pub mod Progress
pub mod Performed
use p2p_tests.Prelude.{
  count, ℕ, zero, suc, ◌<◌, ◌≤◌, ◌≡◌, List, [], ◌∷◌, ◌++◌, Text, codes, Bool, true, ◌==◌, text_eq,
  if◌then◌else◌,
}
use p2p_tests.Prelude.Int.{pos}
use p2p_tests.Prelude.Decimal.{print_int}
use p2p_tests.Topology.Sending.{configured_state, done_state}
use p2p_tests.Prelude.Family.{update}

-- What instances post to the service and wait for: the address of getAllPeers, the states that
-- MustSignalAndWait names, and the callback state of MustConfigureNetwork.
pub data Event : Type 0 where
  advertised connected subscribed : Event
  configured finished : ℕ → Event

-- The names under which the service counts them.
abbrev pub event_name : Event → Text
event_name advertised = codes "peers"
event_name connected = codes "connected"
event_name subscribed = codes "subscribed"
event_name (configured i) = configured_state i
event_name (finished i) = done_state i

-- What an instance does that matters to the others, and its posts and waits.
pub data Move : Type 0 where
  posts awaits : Event → Move
  dials listens : Move
  publishes : ℕ → Move

-- `n` rounds from the round `i` on.
unfoldable pub round_moves : ℕ → ℕ → List Move
round_moves zero i = []
round_moves (suc n) i =
    posts (configured i)
    ∷ awaits (configured i)
    ∷ publishes i
    ∷ posts (finished i)
    ∷ awaits (finished i)
    ∷ round_moves n (suc i)

-- A run behind the creation of its node: getAllPeers, the dialling, the start of the listeners, and
-- the rounds, of which runGroups has one and runSubnets nine.
unfoldable pub script : ℕ → List Move
unfolding round_moves
script rounds =
    posts advertised
    ∷ awaits advertised
    ∷ dials
    ∷ posts connected
    ∷ awaits connected
    ∷ listens
    ∷ posts subscribed
    ∷ awaits subscribed
    ∷ round_moves rounds 0

-- The moves that each instance has made and those that it has left, and what was posted.
pub record System : Type 0 where
  pub past : ℕ → List Move
  pub left : ℕ → List Move
  pub log : List Text

abbrev pub begin : ℕ → System
begin rounds = record { past = λ k. []; left = λ k. script rounds; log = [] }

-- Whether the service lets an instance go on that waits for a name with a target, by what was posted.
abbrev pub Service : Type 0
Service = List Text → Text → ℕ → Bool

-- What the code relies on: a wait ends exactly when the name was posted as often as the target says.
pub record IsBarrier (released : Service) : Type 0 where
  pub counted :
      (log : List Text) (t : Text) (target : ℕ)
      → released log t target ≡ true
      → target ≤ count t log
  pub lets_go :
      (log : List Text) (t : Text) (target : ℕ)
      → target ≤ count t log
      → released log t target ≡ true

-- `n` is TestInstanceCount, the target of every wait.
module _ (released : Service) (n : ℕ) where
  abbrev pub can_go : Move → List Text → Bool
  can_go (awaits e) log = released log (event_name e) n
  can_go (posts e) log = true
  can_go dials log = true
  can_go listens log = true
  can_go (publishes i) log = true

  abbrev pub after : Move → List Text → List Text
  after (posts e) log = log ++ event_name e ∷ []
  after (awaits e) log = log
  after dials log = log
  after listens log = log
  after (publishes i) log = log

  -- The instance `i` makes its next move, or ends for good: by an error, a panic, or the time limit
  -- of its context.
  pub data Step (s : System) : System → Type 0 where
    moves :
        (i : ℕ) (m : Move) (rest : List Move)
        → i < n
        → s.left i ≡ m ∷ rest
        → can_go m s.log ≡ true
        → Step s (record {
          past = update s.past i (s.past i ++ m ∷ []);
          left = update s.left i rest;
          log = after m s.log;
        })
    stops : (i : ℕ) → i < n → Step s (record s { left = update s.left i [] })

  pub data Reach (rounds : ℕ) : System → Type 0 where
    start : Reach rounds (begin rounds)
    later : {s t : System} → Reach rounds s → Step s t → Reach rounds t

-- ===== src/Topology/Subnets.antt =====
-- plans/topology/subnets.go: the loop that counts an instance's validators by subnet and opens a
-- listener for each, and getAllPeers.
pub mod Counting
pub mod Arrivals
use p2p_tests.Prelude.{
  ℕ, zero, suc, ◌+◌, ◌<◌, List, [], ◌∷◌, ◌++◌, Option, none, some, Text, codes, Bool, true, false,
  if◌then◌else◌, leb, ltb, length,
}
use p2p_tests.Prelude.Int.{ℤ, pos, negsuc}
use p2p_tests.Prelude.Decimal.{print_int}
use p2p_tests.Topology.Errors.{GoError}
use p2p_tests.Topology.Clusters.{validator_subnet}

-- [128]int{}
abbrev pub zeros : ℕ → List ℕ
zeros zero = []
zeros (suc n) = 0 ∷ zeros n

-- a[i]++ on an array; `none` is the panic of an index out of range.
unfoldable pub increment_at : ℕ → List ℕ → Option (List ℕ)
increment_at i [] = none
increment_at zero (n ∷ ns) = some ((n + 1) ∷ ns)
increment_at (suc i) (n ∷ ns) = elim (increment_at i ns) [ none ↦ none | some ns' ↦ some (n ∷ ns') ]

abbrev pub increment_int : ℤ → List ℕ → Option (List ℕ)
increment_int (pos i) ns = increment_at i ns
increment_int (negsuc i) ns = none

-- fmt.Sprintf("test.%d", sub)
abbrev pub subnet_topic : ℤ → Text
subnet_topic sub = codes "test." ++ print_int sub

-- The loop over the validators: the array, and the topics for which a listener is started, in
-- order. `none` is a panic, of ValidatorSubnet or of the index.
unfoldable pub count_subnets : List Text → ℕ → List ℕ → List Text → Option (List ℕ × List Text)
count_subnets [] subnets_count subnets topics = some (subnets, topics)
count_subnets (pk ∷ pks) subnets_count subnets topics = elim (validator_subnet pk subnets_count) [
  | none ↦ none
  | some sub ↦ elim (increment_int sub subnets) [
    | none ↦ none
    | some subnets' ↦ count_subnets pks subnets_count subnets' (topics ++ subnet_topic sub ∷ [])
  ]
]

-- The loop with the variables that runSubnets starts from.
unfoldable pub start_subnets : List Text → ℕ → Option (List ℕ × List Text)
unfolding count_subnets
start_subnets pks subnets_count = count_subnets pks subnets_count (zeros 128) []

-- What the select of getAllPeers finds next: an address from the channel, or the end of the
-- subscription with its error, which may be nil.
pub data Arrival (A : Type 0) : Type 0 where
  peer : A → Arrival A
  ended : Option GoError → Arrival A

-- How getAllPeers stands: returned with the peers so far, or waiting for what comes next.
pub data Gathering (A : Type 0) : Type 0 where
  returned : List A → Option GoError → Gathering A
  waiting : List A → Gathering A

module _ {A : Type 0} where
  -- The loop, while there are fewer peers than the slice has capacity for. `append` within the
  -- capacity does not change it.
  unfoldable pub gather : ℕ → List A → List (Arrival A) → Gathering A
  gather capacity peers [] =
      if ltb (length peers) capacity then waiting peers else returned peers none
  gather capacity peers (a ∷ arrivals) =
      if ltb (length peers) capacity
      then elim a [
        | peer ai ↦ gather capacity (peers ++ ai ∷ []) arrivals
        | ended e ↦ returned peers e
      ]
      else returned peers none

  -- getAllPeers, behind the publication of the instance's own address.
  unfoldable pub get_all_peers : ℕ → List (Arrival A) → Gathering A
  unfolding gather
  get_all_peers instance_count arrivals = gather instance_count [] arrivals

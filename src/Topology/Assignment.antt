-- ===== src/Topology/Assignment.antt =====
-- plans/topology/groups.go and subnets.go: the loops over the clusters that give an instance its
-- validators. The map of clusters is the list of its entries in the order of the iteration; the
-- calls of Counter(..).Inc(1) are kept by name, in order.
pub mod Members
pub mod Topics
pub mod Totals
pub mod Coverage
use p2p_tests.Prelude.{
  ℕ, suc, ◌+◌, List, [], ◌∷◌, ◌++◌, Option, none, some, Text, Map, lookup, insert, text_eq, Bool,
  eqb, any, if◌then◌else◌, codes,
}
use p2p_tests.Utils.Group.{slots}
use p2p_tests.Topology.Clusters.{Share, Clusters, cluster_id}

-- The variables of the loop in runGroups.
pub record Assignment : Type 0 where
  pub validators_count : ℕ
  pub my_validators : List Text
  pub validator_groups : Map Text Text
  pub my_groups : Map Text ℕ
  pub counters : List Text

abbrev pub no_assignment : Assignment
no_assignment = record {
  validators_count = 0;
  my_validators = [];
  validator_groups = [];
  my_groups = [];
  counters = [];
}

-- The innermost loop, whose text is the same in both runs: whether it meets the instance's operator,
-- at which it stops.
unfoldable pub is_member : ℕ → Share → Bool
is_member my_oid s = any (λ oid. eqb my_oid oid) (slots s.operators)

-- m[k]++ for a map of ints, whose missing entries are zero.
abbrev pub or_zero : Option ℕ → ℕ
or_zero none = 0
or_zero (some n) = n

unfoldable pub increment : Text → Map Text ℕ → Map Text ℕ
increment k m = insert k (or_zero (lookup k m) + 1) m

-- The body at the first slot that holds the instance's operator.
unfoldable pub take_share : Share → Assignment → Assignment
unfolding increment
take_share s a =
    let gid = cluster_id s.operators in
    record a {
      my_groups = increment gid a.my_groups;
      counters = a.counters ++ (codes "group_" ++ gid) ∷ codes "my_validators_count" ∷ [];
      my_validators = a.my_validators ++ s.pk ∷ [];
      validator_groups = insert s.pk gid a.validator_groups;
    }

-- One round of sharesLoop.
unfoldable pub visit_share : ℕ → Share → Assignment → Assignment
visit_share my_oid s a =
    let counted = record a { validators_count = a.validators_count + 1 } in
    if is_member my_oid s then take_share s counted else counted

unfoldable pub visit_shares : ℕ → List Share → Assignment → Assignment
unfolding visit_share
visit_shares my_oid [] a = a
visit_shares my_oid (s ∷ shares) a = visit_shares my_oid shares (visit_share my_oid s a)

-- The outer loop.
unfoldable pub visit_clusters : ℕ → Clusters → Assignment → Assignment
unfolding visit_shares
visit_clusters my_oid [] a = a
visit_clusters my_oid ((gid, shares) ∷ cls) a =
    visit_clusters my_oid cls (visit_shares my_oid shares a)

-- The loops of runGroups.
unfoldable pub assign : ℕ → Clusters → Assignment
unfolding visit_clusters
assign my_oid cls = visit_clusters my_oid cls no_assignment

-- The variables of the loop in runSubnets: the count, the validators and the counters.
pub record SubnetAssignment : Type 0 where
  pub validators_count : ℕ
  pub my_validators : List Text
  pub counters : List Text

unfoldable pub visit_subnet_share : ℕ → Share → SubnetAssignment → SubnetAssignment
visit_subnet_share my_oid s a =
    let counted = record a { validators_count = a.validators_count + 1 } in
    if is_member my_oid s
    then record counted {
      my_validators = a.my_validators ++ s.pk ∷ [];
      counters = a.counters ++ codes "my_validators_count" ∷ [];
    }
    else counted

unfoldable pub visit_subnet_shares : ℕ → List Share → SubnetAssignment → SubnetAssignment
unfolding visit_subnet_share
visit_subnet_shares my_oid [] a = a
visit_subnet_shares my_oid (s ∷ shares) a =
    visit_subnet_shares my_oid shares (visit_subnet_share my_oid s a)

unfoldable pub visit_subnet_clusters : ℕ → Clusters → SubnetAssignment → SubnetAssignment
unfolding visit_subnet_shares
visit_subnet_clusters my_oid [] a = a
visit_subnet_clusters my_oid ((gid, shares) ∷ cls) a =
    visit_subnet_clusters my_oid cls (visit_subnet_shares my_oid shares a)

-- The loops of runSubnets.
unfoldable pub assign_subnets : ℕ → Clusters → SubnetAssignment
unfolding visit_subnet_clusters
assign_subnets my_oid cls =
    visit_subnet_clusters my_oid cls
      (record { validators_count = 0; my_validators = []; counters = [] })

-- ===== src/Topology/Assignment/Totals.antt =====
-- The group counts of an instance against its validators, and the metrics that it counts.
use p2p_tests.Prelude.{
  ℕ, suc, ◌+◌, ◌≡◌, List, [], ◌∷◌, Text, Map, text_eq, lookup, insert, arith, values, sum, length,
  length-append,
}
use p2p_tests.Topology.Clusters.{Share, Clusters, cluster_id}
use p2p_tests.Topology.Assignment.{
  Assignment, no_assignment, increment, or_zero, take_share, visit_share, visit_shares, assign,
}
use p2p_tests.Topology.Assignment.Members.{all_shares, visit_clusters-all_shares}

sum-insert :
    (k : Text) (m : Map Text ℕ)
    → sum (values (insert k (or_zero (lookup k m) + 1) m)) ≡ suc (sum (values m))
unfolding insert lookup
sum-insert k [] = omega arith
sum-insert k ((j, n) ∷ m) = ground (arith, sum-insert k m)

sum-take_share :
    (s : Share) (a : Assignment)
    → (sum (values (take_share s a).my_groups) ≡ suc (sum (values a.my_groups)))
      × (length (take_share s a).my_validators ≡ suc (length a.my_validators))
      × (length (take_share s a).counters ≡ suc (suc (length a.counters)))
unfolding take_share increment
sum-take_share s a = (
  sum-insert (cluster_id s.operators) a.my_groups,
  omega (arith, length-append a.my_validators (s.pk ∷ [])),
  omega (arith, length-append a.counters (_ ∷ _ ∷ [])),
)

-- As many group counts and half as many counter calls as validators.
abbrev pub IsTotal : Assignment → Type 0
IsTotal a =
    (sum (values a.my_groups) ≡ length a.my_validators)
    × (length a.counters ≡ length a.my_validators + length a.my_validators)

visit_share-IsTotal :
    (my_oid : ℕ) (s : Share) (a : Assignment) → IsTotal a → IsTotal (visit_share my_oid s a)
unfolding visit_share
visit_share-IsTotal my_oid s a t =
    ground (arith, sum-take_share s (record a { validators_count = a.validators_count + 1 }))

visit_shares-IsTotal :
    (my_oid : ℕ) (shares : List Share) (a : Assignment)
    → IsTotal a
    → IsTotal (visit_shares my_oid shares a)
unfolding visit_shares
visit_shares-IsTotal my_oid [] a t = t
visit_shares-IsTotal my_oid (s ∷ shares) a t =
    visit_shares-IsTotal my_oid shares (visit_share my_oid s a) (visit_share-IsTotal my_oid s a t)

-- The numbers that runGroups keeps for its groups add up to the number of its validators, and two
-- counters were incremented for each validator.
pub assign-IsTotal : (my_oid : ℕ) (cls : Clusters) → IsTotal (assign my_oid cls)
unfolding assign
assign-IsTotal my_oid cls =
    rw (visit_clusters-all_shares my_oid cls no_assignment)
      (visit_shares-IsTotal my_oid (all_shares cls) no_assignment (omega arith))

-- ===== src/Tests/Plan.antt =====
-- The loops of runGroups and runSubnets, clusters.go and getAllPeers at concrete inputs.
use p2p_tests.Prelude.{
  ◌%◌, ◌<◌, ◌≡◌, refl, [], ◌∷◌, none, some, Text, codes, text_eq, In, inl, inr, length, arith,
  lookup, insert,
}
use p2p_tests.Prelude.Int.{pos}
use p2p_tests.Topology.Clusters.{Clusters, hex_digit, validator_subnet, take}
use p2p_tests.Topology.Clusters.Hex.{take-AreDigits, AreDigits, hex_value, validator_subnet-value}
use p2p_tests.Topology.Assignment.{
  assign, assign_subnets, visit_share, take_share, is_member, increment,
}
use p2p_tests.Topology.Assignment.Members.{
  all_shares, MemberKeys, assign-MemberKeys, assign_subnets-assign,
}
use p2p_tests.Topology.Assignment.Topics.{HasTopic, assign-HasTopic}
use p2p_tests.Topology.Subnets.{start_subnets}
use p2p_tests.Topology.Subnets.Counting.{start_subnets_short}

abbrev pub key_a : Text
key_a = codes "91fa69305a79"

abbrev pub key_b : Text
key_b = codes "816fa82df9ea"

abbrev pub two_clusters : Clusters
two_clusters =
    (
      codes "10_12_60_88",
      record { pk = key_a; operators = record { slot0 = 60; slot1 = 10; slot2 = 88; slot3 = 12 } }
          ∷ [],
    )
    ∷ (
      codes "1_2_3_4",
      record { pk = key_b; operators = record { slot0 = 1; slot1 = 2; slot2 = 3; slot3 = 4 } } ∷ [],
    )
    ∷ []

assign-MemberKeys_example :
    MemberKeys 12 (all_shares two_clusters) (assign 12 two_clusters).my_validators
    × ((assign 12 two_clusters).validators_count ≡ length (all_shares two_clusters))
assign-MemberKeys_example = assign-MemberKeys 12 two_clusters

mine : (assign 12 two_clusters).my_validators ≡ key_a ∷ []
unfolding assign visit_share take_share is_member increment lookup insert
mine = refl

assign_subnets-assign_example :
    ((assign_subnets 12 two_clusters).my_validators ≡ (assign 12 two_clusters).my_validators)
    × ((assign_subnets 12 two_clusters).validators_count
        ≡ (assign 12 two_clusters).validators_count)
assign_subnets-assign_example = assign_subnets-assign 12 two_clusters

pub key_a_is_mine : In key_a (assign 12 two_clusters).my_validators
key_a_is_mine = rw mine (inl refl)

assign-HasTopic_example : HasTopic (assign 12 two_clusters) key_a
assign-HasTopic_example = assign-HasTopic 12 two_clusters key_a key_a_is_mine

pub key_a-AreDigits : AreDigits key_a
unfolding hex_digit
key_a-AreDigits = (
  refl,
  (refl, (refl, (refl, (refl, (refl, (refl, (refl, (refl, (refl, (refl, (refl, tt))))))))))),
)

validator_subnet-value_example :
    (validator_subnet key_a 128 ≡ some (pos (hex_value 0 (take 10 key_a) % 128)))
    × (hex_value 0 (take 10 key_a) % 128 < 128)
validator_subnet-value_example =
    validator_subnet-value key_a 128 (omega arith) (take-AreDigits 10 key_a key_a-AreDigits)
      (omega arith) (omega arith)

start_subnets_short_example : start_subnets (key_a ∷ codes "91fa" ∷ []) 128 ≡ none
start_subnets_short_example =
    start_subnets_short (codes "91fa") (key_a ∷ codes "91fa" ∷ []) 128 (inr (inl refl))
      (omega arith)

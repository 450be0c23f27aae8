-- ===== src/Topology/Clusters.antt =====
-- plans/topology/clusters.go and groupID of groups.go: shares, clusters and the subnet of a validator.
pub mod Hex
use p2p_tests.Prelude.{
  ℕ, suc, zero, ◌+◌, ◌-◌, ◌*◌, ◌%◌, ◌^◌, List, [], ◌∷◌, map, Option, none, some, Text, Map, Bool,
  true, false, ◌&&◌, if◌then◌else◌, leb, ltb, eqb, length, ◌≡◌, refl, codes,
}
use p2p_tests.Prelude.Int.{ℤ, pos, negsuc, to_int}
use p2p_tests.Prelude.Sort.{sort_ints}
use p2p_tests.Topology.Errors.{Result}
use p2p_tests.Utils.Group.{Group, slots, join_ints, group_id}

-- share; the type group is the array that utils.Group is.
pub record Share : Type 0 where
  pub pk : Text
  pub operators : Group

-- clusters, in the order in which a loop meets the keys.
abbrev pub Clusters : Type 0
Clusters = Map Text (List Share)

-- readClusters. `clusters_json` is the literal that stands in it, and `unmarshal` is json.Unmarshal
-- at a variable of the type clusters. The path is not looked at.
unfoldable pub read_clusters : Text → (Text → Result Clusters) → Text → Result Clusters
read_clusters clusters_json unmarshal f = unmarshal clusters_json

-- groupID.
unfoldable pub cluster_id : Group → Text
cluster_id g = join_ints (sort_ints (map to_int (slots g)))

-- groupID of the plan and Group.ID of the generator are one function.
pub cluster_id-group_id : (g : Group) → cluster_id g ≡ group_id g
unfolding cluster_id group_id
cluster_id-group_id g = refl

-- The value of a hexadecimal digit, of either case.
unfoldable pub hex_digit : ℕ → Option ℕ
hex_digit c =
    if leb b'0' c && leb c b'9'
    then some (c - b'0')
    else if leb b'a' c && leb c b'f'
    then some (c - b'a' + 10)
    else if leb b'A' c && leb c b'F'
    then some (c - b'A' + 10)
    else none

-- The loop of strconv.ParseUint at base 16 and 64 bits: `none` is a syntax or a range error.
unfoldable pub scan_hex : Text → ℕ → Option ℕ
scan_hex [] n = some n
scan_hex (c ∷ s) n = elim (hex_digit c) [
  | none ↦ none
  | some d ↦ if leb (2 ^ 60) n then none else scan_hex s (n * 16 + d)
]

-- strconv.ParseUint(s, 16, 64), which refuses the empty text.
unfoldable pub parse_hex : Text → Option ℕ
unfolding scan_hex
parse_hex [] = none
parse_hex (c ∷ s) = scan_hex (c ∷ s) 0

-- hexToUint64.
unfoldable pub hex_to_uint64 : Text → ℕ
unfolding parse_hex
hex_to_uint64 s = elim (parse_hex s) [ none ↦ 0 | some n ↦ n ]

-- The first bytes of a text.
abbrev pub take : ℕ → Text → Text
take zero s = []
take (suc n) [] = []
take (suc n) (c ∷ s) = c ∷ take n s

-- ValidatorSubnet; `none` is the panic of a division by zero.
unfoldable pub validator_subnet : Text → ℕ → Option ℤ
unfolding hex_to_uint64
validator_subnet pk subnets_count =
    if ltb (length pk) 10
    then some (negsuc 0)
    else if eqb subnets_count 0
    then none
    else some (to_int (hex_to_uint64 (take 10 pk) % subnets_count))

subnet_of_key : validator_subnet (codes "91fa69305a79d8a0") 128 ≡ some (pos 0x5a)
unfolding validator_subnet hex_digit to_int
subnet_of_key = refl

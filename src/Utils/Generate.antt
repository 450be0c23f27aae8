-- ===== src/Utils/Generate.antt =====
-- utils/generate.go: Share, GenerateShare, GenerateGroups, GenerateOperatorIDs and Generate. The key
-- library is the parameter `key`: the public key in hex that the k-th call of SetByCSPRNG leads to.
pub mod Round
pub mod Placement
pub mod Ends
use p2p_tests.Prelude.{
  ℕ, zero, suc, ◌+◌, List, [], ◌∷◌, ◌++◌, Option, none, some, Text, Map, lookup, insert, length,
  text_eq, Bool, ◌&&◌, if◌then◌else◌, ◌≡◌, refl, codes,
}
use p2p_tests.Prelude.Int.{ℤ, pos, negsuc, leb_ℤ}
use p2p_tests.Utils.Outcome.{Outcome, done, panic, starved, timeout}
use p2p_tests.Utils.Group.{Group, group_id}
use p2p_tests.Utils.RandGroup.{rand_group}

pub record Share : Type 0 where
  pub pk : Text
  pub operators : Group

-- map[string][]Share
abbrev pub Groups : Type 0
Groups = Map Text (List Share)

-- x > 0 for an int.
abbrev pub is_positive : ℤ → Bool
is_positive n = leb_ℤ (pos 1) n

module _ (key : ℕ → Text) where
  -- GenerateShare, its call numbered `made`.
  unfoldable pub generate_share : ℕ → Group → Share
  generate_share made g = record { pk = key made; operators = g }

  -- The body of the loop behind RandGroup: the new map, or `none` where the round is repeated
  -- because it would open a group more than `max_groups`.
  unfoldable pub place_share : ℤ → ℕ → Groups → Group → Option Groups
  unfolding generate_share
  place_share max_groups made groups g = elim (lookup (group_id g) groups) [
    | some shares ↦ some (insert (group_id g) (shares ++ generate_share made g ∷ []) groups)
    | none ↦
        if is_positive max_groups && leb_ℤ max_groups (pos (length groups))
        then none
        else some (insert (group_id g) ([] ++ generate_share made g ∷ []) groups)
  ]

  -- The loop: `n` validators are still to be made and `made` are. A repeated round leaves `n`, so the
  -- loop takes fuel.
  unfoldable pub generate_loop : ℕ → ℤ → ℤ → ℕ → ℕ → Groups → List ℕ → Outcome Groups
  generate_loop zero operators max_groups n made groups draws = timeout
  generate_loop (suc fuel) operators max_groups zero made groups draws = done groups
  generate_loop (suc fuel) operators max_groups (suc n) made groups draws =
      elim (rand_group operators draws) [
        | panic ↦ panic
        | starved ↦ starved
        | timeout ↦ timeout
        | done (g, rest) ↦ elim (place_share max_groups made groups g) [
          | some groups' ↦ generate_loop fuel operators max_groups n (suc made) groups' rest
          | none ↦ generate_loop fuel operators max_groups (suc n) made groups rest
        ]
      ]

  -- GenerateGroups. A negative count makes no validator. Each round draws four numbers at least, so
  -- a unit of fuel for each number is enough.
  unfoldable pub generate_groups : ℤ → List ℕ → ℤ → List ℕ → Outcome Groups
  unfolding generate_loop
  generate_groups (negsuc n) operators max_groups draws = done []
  generate_groups (pos n) operators max_groups draws =
      generate_loop (suc (length draws)) (pos (length operators)) max_groups n 0 [] draws

-- The slice that the loop of GenerateOperatorIDs fills, from the index `i` on.
unfoldable pub ids_from : ℕ → ℕ → List ℕ
ids_from i zero = []
ids_from i (suc n) = (i + 1) ∷ ids_from (i + 1) n

-- GenerateOperatorIDs; make panics on a negative length.
unfoldable pub generate_operator_ids : ℤ → Outcome (List ℕ)
unfolding ids_from
generate_operator_ids (negsuc n) = panic
generate_operator_ids (pos n) = done (ids_from 0 n)

-- Generate.
unfoldable pub generate : (ℕ → Text) → ℤ → ℤ → ℤ → List ℕ → Outcome Groups
unfolding generate_operator_ids generate_groups
generate key ops vals max_groups draws = elim (generate_operator_ids ops) [
  | done operators ↦ generate_groups key vals operators max_groups draws
  | panic ↦ panic
  | starved ↦ starved
  | timeout ↦ timeout
]

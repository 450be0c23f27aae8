-- ===== src/Tests/Generator.antt =====
-- utils/generate.go at concrete inputs.
use mathlib.Core.List.{Perm}
use mathlib.Core.List.Perm
use p2p_tests.Prelude.{
  length, All, ◌*◌, ℕ, suc, ◌<◌, ◌≡◌, ◌≢◌, ◌↔◌, ◌⊎◌, inl, inr, refl, List, [], ◌∷◌, Text, codes, In,
  arith, true, false, lookup, insert, text_beq,
}
use p2p_tests.Prelude.Int.{pos}
use p2p_tests.Utils.Outcome.{done, starved}
use p2p_tests.Utils.Group.{Group, slots, group_id, append}
use p2p_tests.Utils.Group.Identity.{group_id_iff}
use p2p_tests.Utils.Group.Slots.{append_lem, IsFilling, filled}
use p2p_tests.Utils.RandGroup.{rand_group, draw_slots}
use p2p_tests.Utils.RandGroup.Draws.{Drawn, rand_group_ends, rand_group_few}
use p2p_tests.Utils.Generate.{Groups, generate_groups, generate, generate_loop, place_share}
use p2p_tests.Utils.Generate.Round.{IsPlacement}
use p2p_tests.Prelude.Family.{total}
use p2p_tests.Topology.Assignment.{assign}
use p2p_tests.Topology.Assignment.Coverage.{as_clusters, takers, total-assign}
use p2p_tests.Topology.Assignment.Members.{all_shares}
use p2p_tests.Utils.Generate.Placement.{generate_groups-IsPlacement}
use p2p_tests.Utils.Generate.Ends.{HasFour, joined, generate_groups_ends}

abbrev first_group : Group
first_group = record { slot0 = 60; slot1 = 10; slot2 = 88; slot3 = 12 }

abbrev second_group : Group
second_group = record { slot0 = 10; slot1 = 60; slot2 = 88; slot3 = 12 }

group_id_iff_example :
    (group_id first_group ≡ group_id second_group) ↔ Perm (slots first_group) (slots second_group)
group_id_iff_example = group_id_iff first_group second_group (omega arith) (omega arith)

same_id : group_id first_group ≡ group_id second_group
same_id = group_id_iff_example.1 (Perm.swap 10 60 (88 ∷ 12 ∷ []))

abbrev half_filled : Group
half_filled = record { slot0 = 3; slot1 = 1; slot2 = 0; slot3 = 0 }

append_lem_example :
    (((append half_filled 2).1 ≡ true)
      × ((◌≢◌ {A = ℕ} 2 0) × ¬ In 2 (slots half_filled) × (filled half_filled < 4))
      × (filled (append half_filled 2).0 ≡ suc (filled half_filled))
      × ((x : ℕ)
          → In (suc x) (slots (append half_filled 2).0)
            ↔ ((suc x ≡ 2) ⊎ In (suc x) (slots half_filled)))
      × IsFilling 5 (append half_filled 2).0)
    ⊎ (((append half_filled 2).1 ≡ false)
        × ¬ ((◌≢◌ {A = ℕ} 2 0) × ¬ In 2 (slots half_filled) × (filled half_filled < 4))
        × ((append half_filled 2).0 ≡ half_filled))
append_lem_example = append_lem 5 2 half_filled (omega arith) (ground arith)

abbrev draws : List ℕ
draws = 2 ∷ 2 ∷ 0 ∷ 4 ∷ 0 ∷ 1 ∷ 3 ∷ []

abbrev drawn_group : Group
drawn_group = record { slot0 = 3; slot1 = 1; slot2 = 5; slot3 = 2 }

draws_run : rand_group (pos 5) draws ≡ done (drawn_group, 3 ∷ [])
unfolding rand_group draw_slots append
draws_run = refl

rand_group_few_example : rand_group (pos 3) (0 ∷ 1 ∷ 2 ∷ 0 ∷ 1 ∷ 2 ∷ []) ≡ starved
rand_group_few_example =
    rand_group_few 3 (0 ∷ 1 ∷ 2 ∷ 0 ∷ 1 ∷ 2 ∷ []) (omega arith) (omega arith) (omega arith)

rand_group_ends_example :
    (g : Group) × (rest : List ℕ) × (rand_group (pos 5) draws ≡ done (g, rest))
    × Drawn 5 4 draws g rest
rand_group_ends_example =
    rand_group_ends 5 2 0 4 1 draws (omega arith)
      (
        inl refl,
        inr (inr (inl refl)),
        inr (inr (inr (inl refl))),
        inr (inr (inr (inr (inr (inl refl))))),
      )
      (omega arith)

abbrev hex_key : ℕ → Text
hex_key n = codes "91fa69305a79d8a0"

-- Two validators and at most one group: the second draw is of another group, and is repeated.
abbrev ten_draws : List ℕ
ten_draws = 0 ∷ 1 ∷ 2 ∷ 3 ∷ 1 ∷ 2 ∷ 3 ∷ 4 ∷ 3 ∷ 2 ∷ 1 ∷ 0 ∷ []

abbrev one_group : Groups
one_group =
    (
      codes "1_2_3_4",
      record { pk = hex_key 0; operators = record { slot0 = 1; slot1 = 2; slot2 = 3; slot3 = 4 } }
          ∷ record {
            pk = hex_key 1;
            operators = record { slot0 = 4; slot1 = 3; slot2 = 2; slot3 = 1 };
          }
          ∷ [],
    )
    ∷ []

generate_run : generate hex_key (pos 5) (pos 2) (pos 1) ten_draws ≡ done one_group
unfolding generate generate_loop place_share rand_group append group_id lookup insert text_beq
generate_run = refl

loop_run :
    generate_groups hex_key (pos 2) (1 ∷ 2 ∷ 3 ∷ 4 ∷ 5 ∷ []) (pos 1) ten_draws ≡ done one_group
unfolding generate_groups generate_loop place_share rand_group append group_id lookup insert
    text_beq
loop_run = refl

generate_groups-IsPlacement_example : IsPlacement 5 (pos 1) 2 one_group
generate_groups-IsPlacement_example =
    generate_groups-IsPlacement hex_key 2 (1 ∷ 2 ∷ 3 ∷ 4 ∷ 5 ∷ []) (pos 1) ten_draws (omega arith)
      loop_run

abbrev first_block : List ℕ
first_block = 0 ∷ 1 ∷ 2 ∷ 3 ∷ []

-- The second number of this block is drawn twice.
abbrev second_block : List ℕ
second_block = 4 ∷ 2 ∷ 2 ∷ 0 ∷ 1 ∷ []

blocks-HaveFour : All HasFour (first_block ∷ second_block ∷ [])
blocks-HaveFour = (
  record { a = 0; b = 1; c = 2; d = 3; here = ground arith; different = omega arith },
  (record { a = 4; b = 2; c = 0; d = 1; here = ground arith; different = omega arith }, tt),
)

generate_groups_ends_example :
    (result : Groups) × (generate_groups hex_key
        (pos 2)
        (1 ∷ 2 ∷ 3 ∷ 4 ∷ 5 ∷ [])
        (pos 0)
        (joined (first_block ∷ second_block ∷ []) (3 ∷ []))
      ≡ done result)
    × IsPlacement 5 (pos 0) 2 result
generate_groups_ends_example =
    generate_groups_ends hex_key (1 ∷ 2 ∷ 3 ∷ 4 ∷ 5 ∷ []) (pos 0) (first_block ∷ second_block ∷ [])
      (3 ∷ []) refl (omega arith) blocks-HaveFour

one_group-IsPlacement : IsPlacement 5 (pos 1) 2 one_group
one_group-IsPlacement =
    generate_groups-IsPlacement hex_key 2 (1 ∷ 2 ∷ 3 ∷ 4 ∷ 5 ∷ []) (pos 1) ten_draws (omega arith)
      loop_run

total-assign_example :
    All (λ s. takers 5 s ≡ 4) (all_shares (as_clusters one_group))
    × (total 5 (λ k. length (assign (suc k) (as_clusters one_group)).my_validators) ≡ 4 * 2)
total-assign_example = total-assign 5 2 (pos 1) one_group one_group-IsPlacement

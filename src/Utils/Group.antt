-- ===== src/Utils/Group.antt =====
-- utils/generate.go: the array type Group, its text form ID, and Append. The type group and the
-- function groupID of plans/topology have the same bodies.
pub mod Identity
pub mod Slots
use p2p_tests.Prelude.{
  ℕ, ◌-◌, ◌^◌, List, [], ◌∷◌, ◌++◌, map, Text, Bool, true, false, eqb, if◌then◌else◌, ◌≡◌, refl,
  codes,
}
use p2p_tests.Prelude.Int.{ℤ, to_int}
use p2p_tests.Prelude.Decimal.{print_int}
use p2p_tests.Prelude.Sort.{sort_ints}

-- [4]types.OperatorID; an operator's id is a uint64, and 0 marks an empty slot.
pub record Group : Type 0 where
  pub slot0 : ℕ
  pub slot1 : ℕ
  pub slot2 : ℕ
  pub slot3 : ℕ

abbrev pub slots : Group → List ℕ
slots g = g.slot0 ∷ g.slot1 ∷ g.slot2 ∷ g.slot3 ∷ []

-- Group{}
abbrev pub empty_group : Group
empty_group = record { slot0 = 0; slot1 = 0; slot2 = 0; slot3 = 0 }

-- The format "%d_%d_%d_%d" over its arguments.
unfoldable pub join_ints : List ℤ → Text
join_ints [] = []
join_ints (n ∷ []) = print_int n
join_ints (n ∷ m ∷ ns) = print_int n ++ b'_' ∷ join_ints (m ∷ ns)

-- Group.ID: the members as signed integers, sorted, joined by underscores.
unfoldable pub group_id : Group → Text
unfolding join_ints sort_ints to_int print_int
group_id g = join_ints (sort_ints (map to_int (slots g)))

-- Group.Append: the range over the array, unrolled. It puts the operator into the first empty
-- slot, unless an earlier slot holds it.
unfoldable pub append : Group → ℕ → Group × Bool
append g oid =
    if eqb oid 0
    then (g, false)
    else if eqb g.slot0 oid
    then (g, false)
    else if eqb g.slot0 0
    then (record g { slot0 = oid }, true)
    else if eqb g.slot1 oid
    then (g, false)
    else if eqb g.slot1 0
    then (record g { slot1 = oid }, true)
    else if eqb g.slot2 oid
    then (g, false)
    else if eqb g.slot2 0
    then (record g { slot2 = oid }, true)
    else if eqb g.slot3 oid
    then (g, false)
    else if eqb g.slot3 0
    then (record g { slot3 = oid }, true)
    else (g, false)

group_id_small :
    group_id (record { slot0 = 60; slot1 = 10; slot2 = 88; slot3 = 12 }) ≡ codes "10_12_60_88"
unfolding group_id
group_id_small = refl

group_id_wraps :
    group_id (record { slot0 = 3; slot1 = 2 ^ 64 - 1; slot2 = 2; slot3 = 1 }) ≡ codes "-1_1_2_3"
unfolding group_id
group_id_wraps = refl

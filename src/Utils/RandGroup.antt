-- ===== src/Utils/RandGroup.antt =====
-- utils/generate.go: RandGroup. The random source is the list of the numbers that
-- rand.Intn(operators) returns, in order; each is below its argument.
pub mod Draws
use p2p_tests.Prelude.{
  ℕ, zero, suc, ◌+◌, ◌<◌, List, [], ◌∷◌, Option, none, some, if◌then◌else◌, ◌≡◌, refl, All, Bool,
  true, false,
}
use p2p_tests.Prelude.Int.{ℤ, pos, negsuc}
use p2p_tests.Utils.Outcome.{Outcome, done, panic, starved}
use p2p_tests.Utils.Group.{Group, empty_group, append}

-- The two nested loops: `n` slots are still to be filled; a refused operator is drawn again. `none`
-- means that the numbers ran out inside the loops.
unfoldable pub draw_slots : ℕ → Group → List ℕ → Option (Group × List ℕ)
unfolding append
draw_slots zero g draws = some (g, draws)
draw_slots (suc n) g [] = none
draw_slots (suc n) g (d ∷ draws) =
    let (g', taken) = append g (d + 1) in
    let next = draw_slots n g' draws in
    let again = draw_slots (suc n) g' draws in if taken then next else again

abbrev pub or_starved {ℓ} : {A : Type ℓ} → Option A → Outcome A
or_starved none = starved
or_starved (some a) = done a

-- RandGroup, with the numbers that are left. rand.Intn panics unless its argument is positive.
unfoldable pub rand_group : ℤ → List ℕ → Outcome (Group × List ℕ)
unfolding draw_slots
rand_group (negsuc n) draws = panic
rand_group (pos zero) draws = panic
rand_group (pos (suc n)) draws = or_starved (draw_slots 4 empty_group draws)

rand_group_redraws :
    rand_group (pos 5) (2 ∷ 2 ∷ 0 ∷ 4 ∷ 0 ∷ 1 ∷ 3 ∷ [])
    ≡ done (record { slot0 = 3; slot1 = 1; slot2 = 5; slot3 = 2 }, 3 ∷ [])
unfolding rand_group
rand_group_redraws = refl

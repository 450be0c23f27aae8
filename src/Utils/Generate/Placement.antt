-- ===== src/Utils/Generate/Placement.antt =====
-- GenerateGroups as a whole: what the finished map holds, and that the model's fuel is enough.
use p2p_tests.Prelude.{
  ℕ, zero, suc, ◌+◌, ◌≤◌, ◌<◌, ◌≡◌, ◌≢◌, ◌⊎◌, inl, inr, refl, List, [], ◌∷◌, ◌++◌, Text, length,
  length-append, All, arith, Option-cases,
}
use p2p_tests.Prelude.Int.{ℤ, pos, negsuc}
use native.Mathlib.Nat.{add-zero, add-suc, suc-add, zero-add}
use p2p_tests.Utils.Outcome.{done, panic, starved, timeout}
use p2p_tests.Utils.Group.{Group, empty_group}
use p2p_tests.Utils.RandGroup.{rand_group, draw_slots}
use p2p_tests.Utils.RandGroup.Draws.{Drawn, rand_group-Drawn}
use p2p_tests.Utils.Generate.{Groups, place_share, generate_loop, generate_groups}
use p2p_tests.Utils.Generate.Round.{IsPlacement, empty-IsPlacement, place_share-IsPlacement}

pub All-drop : (P : ℕ → Type 0) (xs ys : List ℕ) → All P (xs ++ ys) → All P ys
All-drop P [] ys h = h
All-drop P (x ∷ xs) ys h = All-drop P xs ys h.1

pub rest-below :
    (top n : ℕ) (draws : List ℕ) {g : Group} {rest : List ℕ}
    → Drawn top n draws g rest
    → All (λ d. d < top) draws
    → All (λ d. d < top) rest
rest-below top n draws {g} {rest} r below = All-drop _ r.used rest (rw r.split at below)

rest-shorter :
    (top n : ℕ) (draws : List ℕ) {g : Group} {rest : List ℕ}
    → Drawn top n draws g rest
    → length rest + n ≤ length draws
rest-shorter top n draws {g} {rest} r =
    rw r.split (omega (arith, length-append r.used rest, r.spent))

-- How RandGroup ends: never by the model's fuel.
rand_group-cases :
    (n : ℕ) (draws : List ℕ)
    → (rand_group (pos n) draws ≡ panic)
      ⊎ (rand_group (pos n) draws ≡ starved)
      ⊎ ((g : Group) × (rest : List ℕ) × (rand_group (pos n) draws ≡ done (g, rest)))
unfolding rand_group
rand_group-cases zero draws = inl refl
rand_group-cases (suc n) draws = elim (Option-cases (draw_slots 4 empty_group draws)) [
  | inl e ↦ inr (inl (rw e))
  | inr ((g, rest), e) ↦ inr (inr (g, rest, rw e))
]

module _ (key : ℕ → Text) (top : ℕ) (max_groups : ℤ) where
  generate_loop-IsPlacement :
      (fuel n made : ℕ) (groups : Groups) (draws : List ℕ) {result : Groups}
      → All (λ d. d < top) draws
      → IsPlacement top max_groups made groups
      → generate_loop key fuel (pos top) max_groups n made groups draws ≡ done result
      → IsPlacement top max_groups (made + n) result
  unfolding generate_loop
  generate_loop-IsPlacement zero n made groups draws below p e = cc
  generate_loop-IsPlacement (suc fuel) zero made groups draws {result} below p e =
      let same : result ≡ groups = cc in rw (same, add-zero) p
  generate_loop-IsPlacement (suc fuel) (suc n) made groups draws {result} below p e =
      elim (rand_group-cases top draws) [
        | inl failed ↦ cc (rw (failed, generate_loop) at e)
        | inr (inl failed) ↦ cc (rw (failed, generate_loop) at e)
        | inr (inr (g, rest, found)) ↦
            let r : Drawn top 4 draws g rest = rand_group-Drawn top draws below found in
            elim (Option-cases (place_share key max_groups made groups g)) [
              | inl again ↦
                  generate_loop-IsPlacement fuel (suc n) made groups rest
                    (rest-below top 4 draws r below) p (rw (found, again, generate_loop) at e)
              | inr (groups', placed) ↦
                  rw (add-suc, ← suc-add)
                    (generate_loop-IsPlacement fuel n (suc made) groups' rest
                      (rest-below top 4 draws r below)
                      (place_share-IsPlacement key top max_groups made groups g r.proper p placed)
                      (rw (found, placed, generate_loop) at e))
            ]
      ]

  generate_loop-ne-timeout :
      (fuel n made : ℕ) (groups : Groups) (draws : List ℕ)
      → All (λ d. d < top) draws
      → length draws < fuel
      → generate_loop key fuel (pos top) max_groups n made groups draws ≢ timeout
  unfolding generate_loop
  generate_loop-ne-timeout zero n made groups draws below short = absurd (omega arith)
  generate_loop-ne-timeout (suc fuel) zero made groups draws below short = λ e. cc
  generate_loop-ne-timeout (suc fuel) (suc n) made groups draws below short =
      elim (rand_group-cases top draws) [
        | inl failed ↦ rw (failed, generate_loop) (λ e. cc)
        | inr (inl failed) ↦ rw (failed, generate_loop) (λ e. cc)
        | inr (inr (g, rest, found)) ↦
            let r : Drawn top 4 draws g rest = rand_group-Drawn top draws below found in
            let less : length rest < fuel = omega (arith, rest-shorter top 4 draws r) in
            elim (Option-cases (place_share key max_groups made groups g)) [
              | inl again ↦
                  rw (found, again, generate_loop)
                    (generate_loop-ne-timeout fuel (suc n) made groups rest
                      (rest-below top 4 draws r below) less)
              | inr (groups', placed) ↦
                  rw (found, placed, generate_loop)
                    (generate_loop-ne-timeout fuel n (suc made) groups' rest
                      (rest-below top 4 draws r below) less)
            ]
      ]

-- GenerateGroups, when it returns a map for n validators: no identifier stands twice, every group
-- has a share, every share stands under the identifier of its four different operators, which lie
-- between 1 and the length of the operator list, there are n shares in all, and no more groups than
-- a positive maximum allows.
pub generate_groups-IsPlacement :
    (key : ℕ → Text) (n : ℕ) (operators : List ℕ) (max_groups : ℤ) (draws : List ℕ)
    {result : Groups}
    → All (λ d. d < length operators) draws
    → generate_groups key (pos n) operators max_groups draws ≡ done result
    → IsPlacement (length operators) max_groups n result
unfolding generate_groups
generate_groups-IsPlacement key n operators max_groups draws below e = rw zero-add at (
    generate_loop-IsPlacement key (length operators) max_groups (suc (length draws)) n 0 [] draws
      below (empty-IsPlacement (length operators) max_groups) e)

-- The model's fuel is enough: GenerateGroups ends by a map or a panic, or it has drawn every number
-- of the source.
pub generate_groups-ne-timeout :
    (key : ℕ → Text) (n : ℤ) (operators : List ℕ) (max_groups : ℤ) (draws : List ℕ)
    → All (λ d. d < length operators) draws
    → generate_groups key n operators max_groups draws ≢ timeout
unfolding generate_groups
generate_groups-ne-timeout key (negsuc n) operators max_groups draws below = λ e. cc
generate_groups-ne-timeout key (pos n) operators max_groups draws below =
    generate_loop-ne-timeout key (length operators) max_groups (suc (length draws)) n 0 [] draws
      below (omega arith)

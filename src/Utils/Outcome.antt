-- ===== src/Utils/Outcome.antt =====
-- How a run of the generator ends: with a value, with a panic, with no more random numbers to draw
-- (the loop in the code would draw on), or with the model's fuel used up.
pub data Outcome {ℓ} (A : Type ℓ) : Type ℓ where
  done : A → Outcome A
  panic : Outcome A
  starved : Outcome A
  timeout : Outcome A

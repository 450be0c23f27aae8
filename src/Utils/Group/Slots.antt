-- ===== src/Utils/Group/Slots.antt =====
-- Group.Append keeps the filled slots in front, without zero and without repetition.
use p2p_tests.Prelude.{
  ℕ, suc, ◌≤◌, ◌<◌, ◌≡◌, ◌≢◌, ◌↔◌, ◌⊎◌, inl, inr, Bool-cases, true, false, In, arith, eqb,
  if◌then◌else◌,
}
use p2p_tests.Utils.Group.{Group, slots, empty_group, append}

-- How many slots are filled, when the filled ones stand in front.
unfoldable pub filled : Group → ℕ
filled g =
    if eqb g.slot0 0
    then 0
    else if eqb g.slot1 0
    then 1
    else if eqb g.slot2 0
    then 2
    else if eqb g.slot3 0
    then 3
    else 4

-- The filled slots stand in front, hold different operators, and these are at most `top`.
pub record IsFilling (top : ℕ) (g : Group) : Type 0 where
  pub front1 : g.slot0 ≡ 0 → g.slot1 ≡ 0
  pub front2 : g.slot1 ≡ 0 → g.slot2 ≡ 0
  pub front3 : g.slot2 ≡ 0 → g.slot3 ≡ 0
  pub top0 : g.slot0 ≤ top
  pub top1 : g.slot1 ≤ top
  pub top2 : g.slot2 ≤ top
  pub top3 : g.slot3 ≤ top
  pub new1 : g.slot1 ≢ 0 → g.slot1 ≢ g.slot0
  pub new2 : g.slot2 ≢ 0 → (g.slot2 ≢ g.slot0) × (g.slot2 ≢ g.slot1)
  pub new3 : g.slot3 ≢ 0 → (g.slot3 ≢ g.slot0) × (g.slot3 ≢ g.slot1) × (g.slot3 ≢ g.slot2)

pub empty-IsFilling : (top : ℕ) → IsFilling top empty_group
empty-IsFilling top = ground arith

append-true :
    (top oid : ℕ) (g : Group)
    → IsFilling top g
    → ((append g oid).1 ≡ true) ↔ ((oid ≢ 0) × ¬ In oid (slots g) × (filled g < 4))
unfolding append filled
append-true top oid g v = ground arith

pub append-filled :
    (top oid : ℕ) (g : Group)
    → IsFilling top g
    → filled (append g oid).0 ≡ (if (append g oid).1 then suc (filled g) else filled g)
unfolding append filled
append-filled top oid g v = ground arith

append-In :
    (top oid x : ℕ) (g : Group)
    → IsFilling top g
    → (append g oid).1 ≡ true
    → x ≢ 0
    → In x (slots (append g oid).0) ↔ ((x ≡ oid) ⊎ In x (slots g))
unfolding append
append-In top oid x g v h nonzero = ground arith

pub append-false : (oid : ℕ) (g : Group) → (append g oid).1 ≡ false → (append g oid).0 ≡ g
unfolding append
append-false oid g h = ground arith

pub append-IsFilling :
    (top oid : ℕ) (g : Group) → oid ≤ top → IsFilling top g → IsFilling top (append g oid).0
unfolding append
append-IsFilling top oid g le v = ground arith

-- Append either succeeds or changes nothing. It succeeds exactly when the operator is not zero, is
-- no member yet and a slot is left; then one slot more is filled and the members are the old ones
-- and the operator. The filled slots stay in front and different.
pub append_lem :
    (top oid : ℕ) (g : Group)
    → oid ≤ top
    → IsFilling top g
    → (((append g oid).1 ≡ true)
        × ((oid ≢ 0) × ¬ In oid (slots g) × (filled g < 4))
        × (filled (append g oid).0 ≡ suc (filled g))
        × ((x : ℕ) → In (suc x) (slots (append g oid).0) ↔ ((suc x ≡ oid) ⊎ In (suc x) (slots g)))
        × IsFilling top (append g oid).0)
      ⊎ (((append g oid).1 ≡ false)
          × ¬ ((oid ≢ 0) × ¬ In oid (slots g) × (filled g < 4))
          × ((append g oid).0 ≡ g))
append_lem top oid g le v = elim (Bool-cases (append g oid).1) [
  | inl h ↦ inl (
    h,
    (append-true top oid g v).0 h,
    ground (arith, append-filled top oid g v),
    λ x. append-In top oid (suc x) g v h (omega arith),
    append-IsFilling top oid g le v,
  )
  | inr h ↦ inr (h, λ c. cc (h, (append-true top oid g v).1 c), append-false oid g h)
]

-- Four operators that are members of a group with an empty slot are not all different.
pub filled-lt_four :
    (top a b c d : ℕ) (g : Group)
    → IsFilling top g
    → filled g < 4
    → In (suc a) (slots g)
    → In (suc b) (slots g)
    → In (suc c) (slots g)
    → In (suc d) (slots g)
    → (a ≡ b) ⊎ (a ≡ c) ⊎ (a ≡ d) ⊎ (b ≡ c) ⊎ (b ≡ d) ⊎ (c ≡ d)
unfolding filled
filled-lt_four top a b c d g v h ha hb hc hd = ground arith

-- Four filled slots hold four different numbers, so the greatest is at least 4.
pub filled-four : (top : ℕ) (g : Group) → IsFilling top g → filled g ≡ 4 → 4 ≤ top
unfolding filled
filled-four top g v h = ground arith

pub filled-le : (g : Group) → filled g ≤ 4
unfolding filled
filled-le g = ground arith

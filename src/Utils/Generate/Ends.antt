-- ===== src/Utils/Generate/Ends.antt =====
-- How many numbers GenerateGroups has to draw before it ends, where the groups have no maximum.
use p2p_tests.Prelude.{
  ℕ, zero, suc, ◌+◌, ◌≤◌, ◌<◌, ◌≡◌, ◌≢◌, inl, inr, refl, List, [], ◌∷◌, ◌++◌, append_assoc, Text,
  length, length-append, All, All-append, In, In-append_right, arith, some, insert, Bool-cases,
  Option-cases, false, lookup, text_eq,
}
use p2p_tests.Prelude.Int.{ℤ, pos}
use p2p_tests.Utils.Outcome.{done}
use p2p_tests.Utils.Group.{Group, group_id, append, empty_group}
use p2p_tests.Utils.RandGroup.{rand_group, draw_slots}
use p2p_tests.Utils.RandGroup.Draws.{rand_group_ends}
use p2p_tests.Utils.Generate.{
  generate_share, Groups, is_positive, place_share, generate_loop, generate_groups,
}
use p2p_tests.Utils.Generate.Round.{IsPlacement}
use p2p_tests.Utils.Generate.Placement.{All-drop, rest-below, generate_groups-IsPlacement}

-- Four different numbers are in a list.
pub record HasFour (xs : List ℕ) : Type 0 where
  pub a : ℕ
  pub b : ℕ
  pub c : ℕ
  pub d : ℕ
  pub here : In a xs × In b xs × In c xs × In d xs
  pub different : (a ≢ b) × (a ≢ c) × (a ≢ d) × (b ≢ c) × (b ≢ d) × (c ≢ d)

-- Some blocks of numbers, one behind the other, and the numbers behind them.
abbrev pub joined : List (List ℕ) → List ℕ → List ℕ
joined [] more = more
joined (xs ∷ xss) more = xs ++ joined xss more

All-front : (P : ℕ → Type 0) (xs ys : List ℕ) → All P (xs ++ ys) → All P xs
All-front P [] ys h = tt
All-front P (x ∷ xs) ys h = (h.0, All-front P xs ys h.1)

-- A block has a number, so there are no more blocks than numbers.
length-joined :
    (blocks : List (List ℕ)) (more : List ℕ)
    → All HasFour blocks
    → length blocks ≤ length (joined blocks more)
length-joined [] more four = omega arith
length-joined ([] ∷ xss) more four = absurd (four.0.here.0)
length-joined ((x ∷ xs) ∷ xss) more four =
    omega (arith, length-joined xss more four.1, length-append xs (joined xss more))

-- Numbers behind those that are needed are left.
draw_slots-append :
    (n : ℕ) (g : Group) (xs ys : List ℕ) {g' : Group} {rest : List ℕ}
    → draw_slots n g xs ≡ some (g', rest)
    → draw_slots n g (xs ++ ys) ≡ some (g', rest ++ ys)
unfolding draw_slots
draw_slots-append zero g xs ys e = ground arith
draw_slots-append (suc n) g [] ys e = cc
draw_slots-append (suc n) g (x ∷ xs) ys e = elim (Bool-cases (append g (x + 1)).1) [
  | inl taken ↦ rw taken (draw_slots-append n (append g (x + 1)).0 xs ys (rw taken at e))
  | inr refused ↦
      rw refused (draw_slots-append (suc n) (append g (x + 1)).0 xs ys (rw refused at e))
]

rand_group-append :
    (n : ℕ) (xs ys : List ℕ) {g : Group} {rest : List ℕ}
    → rand_group (pos n) xs ≡ done (g, rest)
    → rand_group (pos n) (xs ++ ys) ≡ done (g, rest ++ ys)
unfolding rand_group
rand_group-append zero xs ys e = cc
rand_group-append (suc n) xs ys {g} {rest} e = elim (Option-cases (draw_slots 4 empty_group xs)) [
  | inl none_left ↦ cc (rw none_left at e)
  | inr ((h, left), found) ↦
      let e' = rw found at e in rw (draw_slots-append 4 empty_group xs ys found) (cc)
]

module _ (key : ℕ → Text) (top : ℕ) (max_groups : ℤ) where
  -- Without a maximum no round is repeated.
  place_share-some :
      (made : ℕ) (groups : Groups) (g : Group)
      → is_positive max_groups ≡ false
      → (groups' : Groups) × (place_share key max_groups made groups g ≡ some groups')
  unfolding place_share
  place_share-some made groups g free = elim (Option-cases (lookup (group_id g) groups)) [
    | inl new ↦ (
      insert (group_id g) ([] ++ generate_share key made g ∷ []) groups,
      rw (new, free, place_share) refl,
    )
    | inr (shares, old) ↦ (
      insert (group_id g) (shares ++ generate_share key made g ∷ []) groups,
      rw (old, place_share) refl,
    )
  ]

  -- The loop, where `left` are numbers that earlier rounds have not needed.
  generate_loop_ends :
      (fuel made : ℕ) (groups : Groups) (left : List ℕ) (blocks : List (List ℕ)) (more : List ℕ)
      → is_positive max_groups ≡ false
      → All (λ d. d < top) (left ++ joined blocks more)
      → All HasFour blocks
      → length blocks < fuel
      → (result : Groups) × (generate_loop key fuel
            (pos top)
            max_groups
            (length blocks)
            made
            groups
            (left ++ joined blocks more)
          ≡ done result)
  unfolding generate_loop
  generate_loop_ends zero made groups left blocks more free below four short = absurd (omega arith)
  generate_loop_ends (suc fuel) made groups left [] more free below four short = (groups, refl)
  generate_loop_ends (suc fuel) made groups left (xs ∷ xss) more free below four short =
      let ys = left ++ xs in
      let same : ys ++ joined xss more ≡ left ++ (xs ++ joined xss more) =
        append_assoc left xs (joined xss more) in
      let under : All (λ d. d < top) (ys ++ joined xss more) = rw same below in
      let front = All-front (λ d. d < top) ys (joined xss more) under in
      let h = four.0 in
      let has = λ (x : ℕ) (i : In x xs). In-append_right x left xs i in
      let (g, rest, found, drawn) =
        rand_group_ends top h.a h.b h.c h.d ys front
          (has h.a h.here.0, has h.b h.here.1, has h.c h.here.2, has h.d h.here.3) h.different in
      let whole : rand_group (pos top) (left ++ (xs ++ joined xss more))
          ≡ done (g, rest ++ joined xss more) =
        rw (← same) (rand_group-append top ys (joined xss more) found) in
      let (groups', placed) = place_share-some made groups g free in
      let (result, ended) =
        generate_loop_ends fuel (suc made) groups' rest xss more free
          (All-append (λ d. d < top) rest (joined xss more) (rest-below top 4 ys drawn front)
            (All-drop (λ d. d < top) ys (joined xss more) under))
          four.1 (omega arith) in
      (result, rw (whole, placed, generate_loop) ended)

-- GenerateGroups without a maximum of groups ends, and returns a placement, once the numbers drawn
-- begin with a block for each validator in which four different ones stand; the blocks may hold other
-- numbers as well.
pub generate_groups_ends :
    (key : ℕ → Text) (operators : List ℕ) (max_groups : ℤ) (blocks : List (List ℕ)) (more : List ℕ)
    → is_positive max_groups ≡ false
    → All (λ d. d < length operators) (joined blocks more)
    → All HasFour blocks
    → (result : Groups) × (generate_groups key
          (pos (length blocks))
          operators
          max_groups
          (joined blocks more)
        ≡ done result)
      × IsPlacement (length operators) max_groups (length blocks) result
unfolding generate_groups
generate_groups_ends key operators max_groups blocks more free below four =
    let (result, ended) =
      generate_loop_ends key (length operators) max_groups (suc (length (joined blocks more))) 0 []
        [] blocks more free below four (omega (arith, length-joined blocks more four)) in
    (
      result,
      ended,
      generate_groups-IsPlacement key (length blocks) operators max_groups (joined blocks more)
          below ended,
    )

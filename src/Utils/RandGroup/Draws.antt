-- ===== src/Utils/RandGroup/Draws.antt =====
-- What RandGroup returns, when it ends, and for how few operators it does not.
use p2p_tests.Prelude.{
  ℕ, zero, suc, ◌+◌, ◌≤◌, ◌<◌, ◌≡◌, ◌≢◌, inl, inr, refl, sym, subst, List, [], ◌∷◌, ◌++◌, none,
  some, All, In, arith, length, Bool-cases, Option-cases,
}
use p2p_tests.Prelude.Int.{pos}
use p2p_tests.Utils.Outcome.{done, starved}
use p2p_tests.Utils.Group.{Group, slots, empty_group, append}
use p2p_tests.Utils.Group.Slots.{
  IsFilling, filled, empty-IsFilling, append-filled, append-false, append-IsFilling, filled-lt_four,
  filled-four,
}
use p2p_tests.Utils.RandGroup.{draw_slots, rand_group}

-- Four different operators between 1 and `top`.
pub record IsProper (top : ℕ) (g : Group) : Type 0 where
  pub filling : IsFilling top g
  pub full : filled g ≡ 4

-- What a finished draw has: a proper group, and a tail of the numbers that is shorter by a draw for
-- each slot at least.
pub record Drawn (top n : ℕ) (draws : List ℕ) (g : Group) (rest : List ℕ) : Type 0 where
  pub proper : IsProper top g
  pub used : List ℕ
  pub split : draws ≡ used ++ rest
  pub spent : n ≤ length used

draw_slots-Drawn :
    (top n : ℕ) (g : Group) (draws : List ℕ) {g' : Group} {rest : List ℕ}
    → All (λ d. d < top) draws
    → IsFilling top g
    → filled g + n ≡ 4
    → draw_slots n g draws ≡ some (g', rest)
    → Drawn top n draws g' rest
unfolding draw_slots
draw_slots-Drawn top zero g draws below v room e = record {
  proper = ground arith;
  used = [];
  split = ground arith;
  spent = omega arith;
}
draw_slots-Drawn top (suc n) g [] below v room e = cc
draw_slots-Drawn top (suc n) g (d ∷ draws) {g'} {rest} below v room e =
    elim (Bool-cases (append g (d + 1)).1) [
      | inl taken ↦
          let r : Drawn top n draws g' rest =
            draw_slots-Drawn top n (append g (d + 1)).0 draws below.1
              (append-IsFilling top (d + 1) g (omega arith) v)
              (ground (arith, append-filled top (d + 1) g v)) (rw taken at e) in
          record {
            proper = r.proper;
            used = d ∷ r.used;
            split = cc r.split;
            spent = omega (arith, r.spent);
          }
      | inr refused ↦
          let r : Drawn top (suc n) draws g' rest =
            draw_slots-Drawn top (suc n) (append g (d + 1)).0 draws below.1
              (append-IsFilling top (d + 1) g (omega arith) v)
              (rw (append-false (d + 1) g refused) room) (rw refused at e) in
          record {
            proper = r.proper;
            used = d ∷ r.used;
            split = cc r.split;
            spent = omega (arith, r.spent);
          }
    ]

-- Draws that do not fill a group are all members of one group with an empty slot.
record Stuck (top : ℕ) (g : Group) (draws : List ℕ) : Type 0 where
  last : Group
  filling : IsFilling top last
  room : filled last < 4
  kept : (x : ℕ) → x ≢ 0 → In x (slots g) → In x (slots last)
  drawn : (x : ℕ) → In x draws → In (suc x) (slots last)

Stuck-next :
    (top d : ℕ) (g g' : Group) (draws : List ℕ)
    → ((x : ℕ) → x ≢ 0 → In x (slots g) → In x (slots g'))
    → In (suc d) (slots g')
    → Stuck top g' draws
    → Stuck top g (d ∷ draws)
Stuck-next top d g g' draws grows here s = record {
  last = s.last;
  filling = s.filling;
  room = s.room;
  kept = λ x h m. s.kept x h (grows x h m);
  drawn = λ x. elim [
    | inl e ↦ s.kept (suc x) (omega arith) (subst (λ y. In (suc y) (slots g')) (sym e) here)
    | inr m ↦ s.drawn x m
  ];
}

append-keeps :
    (oid : ℕ) (g : Group) (x : ℕ) → x ≢ 0 → In x (slots g) → In x (slots (append g oid).0)
unfolding append
append-keeps oid g x h m = ground arith

append-holds : (d : ℕ) (g : Group) → filled g < 4 → In (suc d) (slots (append g (d + 1)).0)
unfolding append filled
append-holds d g h = ground arith

draw_slots-Stuck_cons :
    (top d n : ℕ) (g : Group) (draws : List ℕ)
    → d < top
    → IsFilling top g
    → filled g + suc n ≡ 4
    → draw_slots (suc n) g (d ∷ draws) ≡ none
    → ((k : ℕ) (h : Group)
        → IsFilling top h
        → filled h + suc k ≡ 4
        → draw_slots (suc k) h draws ≡ none
        → Stuck top h draws)
    → Stuck top g (d ∷ draws)
unfolding draw_slots
draw_slots-Stuck_cons top d n g draws lt v room e ih =
    Stuck-next top d g (append g (d + 1)).0 draws (append-keeps (d + 1) g)
      (append-holds d g (omega arith))
      (elim (Bool-cases (append g (d + 1)).1) [
        | inl taken ↦ later n (ground (arith, append-filled top (d + 1) g v)) (rw taken at e)
        | inr refused ↦
            ih n (append g (d + 1)).0 filling (rw (append-false (d + 1) g refused) room)
              (rw refused at e)
      ])
  where
    filling : IsFilling top (append g (d + 1)).0
    filling = append-IsFilling top (d + 1) g (omega arith) v

    later :
        (k : ℕ)
        → filled (append g (d + 1)).0 + k ≡ 4
        → draw_slots k (append g (d + 1)).0 draws ≡ none
        → Stuck top (append g (d + 1)).0 draws
    later zero full e' = cc
    later (suc k) full e' = ih k _ filling full e'

draw_slots-Stuck :
    (top n : ℕ) (g : Group) (draws : List ℕ)
    → All (λ d. d < top) draws
    → IsFilling top g
    → filled g + suc n ≡ 4
    → draw_slots (suc n) g draws ≡ none
    → Stuck top g draws
unfolding draw_slots
draw_slots-Stuck top n g [] below v room e = record {
  last = g;
  filling = v;
  room = omega arith;
  kept = λ x h m. m;
  drawn = λ x m. absurd m;
}
draw_slots-Stuck top n g (d ∷ draws) below v room e =
    draw_slots-Stuck_cons top d n g draws below.0 v room e
      (λ k h w. draw_slots-Stuck top k h draws below.1 w)

-- A group that RandGroup returns holds four different operators between 1 and its argument, and at
-- least four numbers were drawn for it, from the front of the source.
pub rand_group-Drawn :
    (n : ℕ) (draws : List ℕ) {g : Group} {rest : List ℕ}
    → All (λ d. d < n) draws
    → rand_group (pos n) draws ≡ done (g, rest)
    → Drawn n 4 draws g rest
unfolding rand_group filled
rand_group-Drawn zero draws below e = cc
rand_group-Drawn (suc n) draws below e = elim (Option-cases (draw_slots 4 empty_group draws)) [
  | inl none_left ↦ cc
  | inr (r, found) ↦
      draw_slots-Drawn (suc n) 4 empty_group draws below (empty-IsFilling (suc n)) refl (cc)
]

-- With one to three operators RandGroup never ends: no source of numbers, however long, makes it
-- return a group.
pub rand_group_few :
    (n : ℕ) (draws : List ℕ)
    → 0 < n
    → n < 4
    → All (λ d. d < n) draws
    → rand_group (pos n) draws ≡ starved
unfolding rand_group filled
rand_group_few zero draws some_op few below = absurd (omega arith)
rand_group_few (suc n) draws some_op few below =
    elim (Option-cases (draw_slots 4 empty_group draws)) [
      | inl none_left ↦ rw none_left
      | inr ((g, rest), found) ↦
          let r : Drawn (suc n) 4 draws g rest =
            draw_slots-Drawn (suc n) 4 empty_group draws below (empty-IsFilling (suc n)) refl
              found in
          absurd (omega (arith, filled-four (suc n) g r.proper.filling r.proper.full))
    ]

-- RandGroup returns a group once the numbers drawn hold four different ones.
pub rand_group_ends :
    (n a b c d : ℕ) (draws : List ℕ)
    → All (λ d. d < n) draws
    → (In a draws × In b draws × In c draws × In d draws)
    → ((a ≢ b) × (a ≢ c) × (a ≢ d) × (b ≢ c) × (b ≢ d) × (c ≢ d))
    → (g : Group) × (rest : List ℕ) × (rand_group (pos n) draws ≡ done (g, rest))
      × Drawn n 4 draws g rest
unfolding rand_group filled
rand_group_ends zero a b c d [] below has ne = absurd has.0
rand_group_ends zero a b c d (x ∷ draws) below has ne = absurd (omega arith)
rand_group_ends (suc n) a b c d draws below has ne =
    elim (Option-cases (draw_slots 4 empty_group draws)) [
      | inl none_left ↦
          let s : Stuck (suc n) empty_group draws =
            draw_slots-Stuck (suc n) 3 empty_group draws below (empty-IsFilling (suc n)) refl
              none_left in
          absurd (
            ground (
              arith,
              filled-lt_four (suc n) a b c d s.last s.filling s.room (s.drawn a has.0)
                  (s.drawn b has.1) (s.drawn c has.2) (s.drawn d has.3),
            ))
      | inr ((g, rest), found) ↦ (
        g,
        rest,
        rw found,
        draw_slots-Drawn (suc n) 4 empty_group draws below (empty-IsFilling (suc n)) refl found,
      )
    ]

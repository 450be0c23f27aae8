-- ===== src/Utils/Group/Identity.antt =====
-- Group.ID names the set of a group's members: which groups share an identifier.
use mathlib.Core.List.{Perm}
use mathlib.Core.List.Perm
use p2p_tests.Prelude.{
  cut_unique, ℕ, ◌^◌, ◌<◌, ◌≡◌, ◌↔◌, refl, sym, ap, ◌∙◌, List, [], ◌∷◌, map, All, arith, length,
}
use p2p_tests.Prelude.Int.{ℤ, to_int, to_bits, to_bits-to_int}
use p2p_tests.Prelude.Decimal.{print_int, print_int-injective, print_int-ne_underscore}
use p2p_tests.Prelude.Sort.{sort_ints, sort_ints-perm, sort_ints_perm, length-sort_ints}
use p2p_tests.Utils.Group.{Group, slots, join_ints, group_id}

join_ints-injective :
    (xs ys : List ℤ) → length xs ≡ length ys → join_ints xs ≡ join_ints ys → xs ≡ ys
unfolding join_ints
join_ints-injective [] [] h e = refl
join_ints-injective [] (y ∷ ys) h e = absurd (omega arith)
join_ints-injective (x ∷ xs) [] h e = absurd (omega arith)
join_ints-injective (x ∷ []) (y ∷ []) h e = ap (λ n. n ∷ []) (print_int-injective x y e)
join_ints-injective (x ∷ []) (y ∷ y' ∷ ys) h e = absurd (omega arith)
join_ints-injective (x ∷ x' ∷ xs) (y ∷ []) h e = absurd (omega arith)
join_ints-injective (x ∷ x' ∷ xs) (y ∷ y' ∷ ys) h e =
    let cut : (print_int x ≡ print_int y) × (join_ints (x' ∷ xs) ≡ join_ints (y' ∷ ys)) =
      cut_unique b'_' _ _ _ _ (print_int-ne_underscore x) (print_int-ne_underscore y) e in
    let head : x ≡ y = print_int-injective x y cut.0 in
    let tail : x' ∷ xs ≡ y' ∷ ys = join_ints-injective (x' ∷ xs) (y' ∷ ys) (omega arith) cut.1 in
    rw (head, tail) refl

map-to_bits : (xs : List ℕ) → All (λ w. w < 2 ^ 64) xs → map to_bits (map to_int xs) ≡ xs
map-to_bits [] h = refl
map-to_bits (x ∷ xs) h = cc (to_bits-to_int x h.0, map-to_bits xs h.1)

-- Every slot holds a 64-bit number.
abbrev pub IsWords : Group → Type 0
IsWords g = All (λ w. w < 2 ^ 64) (slots g)

group_id-perm : (g h : Group) → Perm (slots g) (slots h) → group_id g ≡ group_id h
unfolding group_id
group_id-perm g h p = ap join_ints (sort_ints-perm (Perm.map to_int p))

group_id-injective :
    (g h : Group) → IsWords g → IsWords h → group_id g ≡ group_id h → Perm (slots g) (slots h)
unfolding group_id
group_id-injective g h wg wh e =
    let sorted : sort_ints (map to_int (slots g)) ≡ sort_ints (map to_int (slots h)) =
      join_ints-injective _ _
        (length-sort_ints (map to_int (slots g)) ∙ sym (length-sort_ints (map to_int (slots h))))
        e in
    let ints : Perm (map to_int (slots g)) (map to_int (slots h)) =
      Perm.trans (Perm.symm (sort_ints_perm (map to_int (slots g))))
        (rw sorted (sort_ints_perm (map to_int (slots h)))) in
    let bits : Perm (map to_bits (map to_int (slots g))) (map to_bits (map to_int (slots h))) =
      Perm.map to_bits ints in
    rw (map-to_bits (slots g) wg, map-to_bits (slots h) wh) at bits

-- Two groups of 64-bit operator ids have the same identifier exactly when their members are the
-- same up to order, each as often.
pub group_id_iff :
    (g h : Group) → IsWords g → IsWords h → (group_id g ≡ group_id h) ↔ Perm (slots g) (slots h)
group_id_iff g h wg wh = (group_id-injective g h wg wh, group_id-perm g h)

-- ===== src/Prelude/Sort.antt =====
-- sort.Ints: the elements in ascending order. Insertion into a sorted list stands for the library
-- routine, whose result the order alone determines.
use mathlib.Core.Path.{◌≡◌, refl, ap, ◌∙◌}
use mathlib.Core.Logic.{∥∥₁_elim, inl, inr}
use mathlib.Core.List.{List, [], ◌∷◌, Perm, Permᴰ}
use mathlib.Core.List.Perm
use Prim.Native.Nat.{suc}
use native.Mathlib.Omega.{arith}
use native.Mathlib.Decide.{ℕ_discrete}
use p2p_tests.Prelude.Tests.{if◌then◌else◌, Bool-cases}
use p2p_tests.Prelude.Int.{ℤ, leb_ℤ}
use p2p_tests.Prelude.Lists.{length}

place : ℤ → List ℤ → List ℤ
place x [] = x ∷ []
place x (y ∷ ys) = if leb_ℤ x y then x ∷ y ∷ ys else y ∷ place x ys

unfoldable pub sort_ints : List ℤ → List ℤ
unfolding place
sort_ints [] = []
sort_ints (x ∷ xs) = place x (sort_ints xs)

place_comm : (x y : ℤ) (l : List ℤ) → place x (place y l) ≡ place y (place x l)
unfolding place
place_comm x y [] = ground arith
place_comm x y (z ∷ l) = ground (arith, place_comm x y l)

List-set : IsSet (List ℤ)
List-set = hlevel ℕ_discrete

sort_permᴰ : {xs ys : List ℤ} → Permᴰ xs ys → sort_ints xs ≡ sort_ints ys
unfolding sort_ints
sort_permᴰ Permᴰ.nil = refl
sort_permᴰ (Permᴰ.cons e p) = λ i. place (e i) (sort_permᴰ p i)
sort_permᴰ (Permᴰ.swap {a} {b} {a'} {b'} {l} e f) =
    (λ i. place (e i) (place (f i) (sort_ints l))) ∙ place_comm b' a' (sort_ints l)
sort_permᴰ (Permᴰ.trans p q) = sort_permᴰ p ∙ sort_permᴰ q

-- Rearranged input gives the same output.
pub sort_ints-perm : {xs ys : List ℤ} → Perm xs ys → sort_ints xs ≡ sort_ints ys
sort_ints-perm p = ∥∥₁_elim p (List-set _ _) sort_permᴰ

place-perm : (x : ℤ) (l : List ℤ) → Perm (place x l) (x ∷ l)
unfolding place
place-perm x [] = Perm.refl (x ∷ [])
place-perm x (y ∷ ys) = elim (Bool-cases (leb_ℤ x y)) [
  | inl e ↦ rw e (Perm.refl (x ∷ y ∷ ys))
  | inr e ↦ rw e (Perm.trans (Perm.cons y (place-perm x ys)) (Perm.swap x y ys))
]

-- The output is a rearrangement of the input.
pub sort_ints_perm : (xs : List ℤ) → Perm (sort_ints xs) xs
unfolding sort_ints
sort_ints_perm [] = Perm.refl []
sort_ints_perm (x ∷ xs) = Perm.trans (place-perm x (sort_ints xs)) (Perm.cons x (sort_ints_perm xs))

length-place : (x : ℤ) (l : List ℤ) → length (place x l) ≡ suc (length l)
unfolding place
length-place x [] = refl
length-place x (y ∷ ys) = ground (arith, length-place x ys)

pub length-sort_ints : (xs : List ℤ) → length (sort_ints xs) ≡ length xs
unfolding sort_ints
length-sort_ints [] = refl
length-sort_ints (x ∷ xs) = length-place x (sort_ints xs) ∙ ap suc (length-sort_ints xs)

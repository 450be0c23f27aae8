-- ===== src/Prelude/Texts.antt =====
-- Lists of texts, and the beginnings of texts.
use Prim.Native.Nat.{ℕ, suc, ◌+◌}
use mathlib.Core.Path.{◌≡◌}
use mathlib.Core.Logic.{◌≢◌}
use p2p_tests.Prelude.Lists.{All}
use mathlib.Core.List.{List, [], ◌∷◌, ◌++◌}
use native.Mathlib.Omega.{arith}
use p2p_tests.Prelude.Tests.{if◌then◌else◌}
use p2p_tests.Prelude.Eq.{◌==◌, text_eq, Text}

-- How often a text is in a list.
abbrev pub count : Text → List Text → ℕ
count t [] = 0
count t (u ∷ us) = if t == u then suc (count t us) else count t us

pub count-append : (t : Text) (xs ys : List Text) → count t (xs ++ ys) ≡ count t xs + count t ys
count-append t [] ys = omega arith
count-append t (x ∷ xs) ys = ground (arith, count-append t xs ys)

pub append-injective : (p s t : Text) → p ++ s ≡ p ++ t → s ≡ t
append-injective [] s t e = e
append-injective (c ∷ p) s t e = append-injective p s t (cc)

-- Texts without a byte are told apart by what stands before its first place.
pub cut_unique :
    (sep : ℕ) (s t u v : Text)
    → All (λ c. c ≢ sep) s
    → All (λ c. c ≢ sep) t
    → s ++ sep ∷ u ≡ t ++ sep ∷ v
    → (s ≡ t) × (u ≡ v)
cut_unique sep [] [] u v hs ht e = ground arith
cut_unique sep [] (d ∷ t) u v hs ht e = ground arith
cut_unique sep (c ∷ s) [] u v hs ht e = ground arith
cut_unique sep (c ∷ s) (d ∷ t) u v hs ht e = ground (arith, cut_unique sep s t u v hs.1 ht.1)

-- ===== src/Prelude/Decimal.antt =====
-- The verb %d: a number printed in decimal, and that the print determines the number.
use p2p_tests.Prelude.Tests.{ltb, if◌then◌else◌}
use p2p_tests.Prelude.Lists.{All}
use p2p_tests.Prelude.Eq.{Text}
use p2p_tests.Prelude.Int.{ℤ, pos, negsuc}
use Prim.Native.Nat.{ℕ, zero, suc, ◌+◌, ◌-◌, ◌*◌, ◌/◌, ◌%◌, ◌≤◌, ◌<◌}
use mathlib.Core.Path.{◌≡◌, ap, sym, ◌∙◌}
use mathlib.Core.Logic.{◌≢◌}
use mathlib.Core.List.{[], ◌∷◌}
use native.Mathlib.Omega.{arith}

-- Digits are written from the last to the first; the fuel `suc n` is more than their number.
emit : ℕ → ℕ → Text → Text
emit zero n out = out
emit (suc f) n out =
    let rest = emit f (n / 10) ((b'0' + n % 10) ∷ out) in
    if ltb n 10 then (b'0' + n) ∷ out else rest

unfoldable pub print_nat : ℕ → Text
unfolding emit
print_nat n = emit (suc n) n []

unfoldable pub print_int : ℤ → Text
unfolding print_nat
print_int (pos n) = print_nat n
print_int (negsuc n) = b'-' ∷ print_nat (suc n)

-- The number that digits spell behind `n`.
abbrev value : ℕ → Text → ℕ
value n [] = n
value n (c ∷ s) = value (n * 10 + (c - b'0')) s

abbrev pub IsDigit : ℕ → Type 0
IsDigit c = (b'0' ≤ c) × (c ≤ b'9')

value-emit : (f n : ℕ) (out : Text) → n < f → value 0 (emit f n out) ≡ value n out
unfolding emit
value-emit zero n out h = elim h [ ]
value-emit (suc f) n out h = ground (
  arith,
  value-emit f (n / 10) ((b'0' + n % 10) ∷ out),
  let e : (n / 10) * 10 + (b'0' + n % 10 - b'0') ≡ n = omega arith in ap (λ m. value m out) e,
  let e : 0 * 10 + (b'0' + n - b'0') ≡ n = omega arith in ap (λ m. value m out) e,
)

emit-IsDigit : (f n : ℕ) (out : Text) → All IsDigit out → All IsDigit (emit f n out)
unfolding emit
emit-IsDigit zero n out h = h
emit-IsDigit (suc f) n out h = ground (arith, emit-IsDigit f (n / 10) ((b'0' + n % 10) ∷ out))

pub print_nat-IsDigit : (n : ℕ) → All IsDigit (print_nat n)
unfolding print_nat
print_nat-IsDigit n = emit-IsDigit (suc n) n [] tt

pub print_nat-injective : (n m : ℕ) → print_nat n ≡ print_nat m → n ≡ m
unfolding print_nat
print_nat-injective n m e =
    sym (value-emit (suc n) n [] (omega arith))
    ∙ ap (value 0) e
    ∙ value-emit (suc m) m [] (omega arith)

-- A digit is no minus sign.
digits-ne-minus : (s t : Text) → All IsDigit s → s ≢ b'-' ∷ t
digits-ne-minus [] t h e = cc
digits-ne-minus (c ∷ s) t h e = ground arith

pub print_int-injective : (a b : ℤ) → print_int a ≡ print_int b → a ≡ b
unfolding print_int
print_int-injective (pos n) (pos m) e = ap pos (print_nat-injective n m e)
print_int-injective (pos n) (negsuc m) e =
    absurd (digits-ne-minus (print_nat n) _ (print_nat-IsDigit n) e)
print_int-injective (negsuc n) (pos m) e =
    absurd (digits-ne-minus (print_nat m) _ (print_nat-IsDigit m) (sym e))
print_int-injective (negsuc n) (negsuc m) e =
    let p : print_nat (suc n) ≡ print_nat (suc m) = cc in
    let q : suc n ≡ suc m = print_nat-injective (suc n) (suc m) p in ap negsuc (omega arith)

print_int-ne_underscore_digits : (s : Text) → All IsDigit s → All (λ c. c ≢ b'_') s
print_int-ne_underscore_digits [] h = tt
print_int-ne_underscore_digits (c ∷ s) h = (omega arith, print_int-ne_underscore_digits s h.1)

-- No print holds an underscore.
pub print_int-ne_underscore : (a : ℤ) → All (λ c. c ≢ b'_') (print_int a)
unfolding print_int
print_int-ne_underscore (pos n) = print_int-ne_underscore_digits _ (print_nat-IsDigit n)
print_int-ne_underscore (negsuc n) =
    (omega arith, print_int-ne_underscore_digits _ (print_nat-IsDigit (suc n)))

digits-ne_below : (sep : ℕ) (s : Text) → sep < b'-' → All IsDigit s → All (λ c. c ≢ sep) s
digits-ne_below sep [] low h = tt
digits-ne_below sep (c ∷ s) low h = (λ e. omega arith, digits-ne_below sep s low h.1)

-- No print holds a byte below the minus sign, such as a space or a comma.
pub print_int-ne_below : (sep : ℕ) (a : ℤ) → sep < b'-' → All (λ c. c ≢ sep) (print_int a)
unfolding print_int
print_int-ne_below sep (pos n) low = digits-ne_below sep _ low (print_nat-IsDigit n)
print_int-ne_below sep (negsuc n) low =
    (λ e. omega arith, digits-ne_below sep _ low (print_nat-IsDigit (suc n)))

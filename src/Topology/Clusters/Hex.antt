-- ===== src/Topology/Clusters/Hex.antt =====
-- hexToUint64 reads the number that hexadecimal digits spell, and ValidatorSubnet reduces it.
use p2p_tests.Prelude.{
  ℕ, suc, zero, ◌+◌, ◌*◌, ◌%◌, ◌^◌, ◌≤◌, ◌<◌, ◌≡◌, ◌≢◌, ◌↔◌, inl, inr, refl, [], ◌∷◌, none, some,
  Text, true, length, All, arith, is_some, Option-cases,
}
use native.Mathlib.Nat.{pow-suc}
use p2p_tests.Prelude.Int.{pos, negsuc, to_int}
use p2p_tests.Topology.Clusters.{
  hex_digit, scan_hex, parse_hex, hex_to_uint64, take, validator_subnet,
}

-- The value of a digit, 0 for another byte.
abbrev pub digit_value : ℕ → ℕ
digit_value c = elim (hex_digit c) [ none ↦ 0 | some d ↦ d ]

-- The number that digits spell behind `n`.
abbrev pub hex_value : ℕ → Text → ℕ
hex_value n [] = n
hex_value n (c ∷ s) = hex_value (n * 16 + digit_value c) s

abbrev pub AreDigits : Text → Type 0
AreDigits s = All (λ c. is_some (hex_digit c) ≡ true) s

hex_digit-lt : (c d : ℕ) → hex_digit c ≡ some d → d < 16
unfolding hex_digit
hex_digit-lt c d h = ground arith

pow-pos : (k : ℕ) → 0 < 16 ^ k
pow-pos zero = omega arith
pow-pos (suc k) = rw pow-suc (omega (arith, pow-pos k))

room_now : (n k : ℕ) → (n + 1) * 16 ^ suc k ≤ 2 ^ 64 → n < 2 ^ 60
room_now n k h =
    let h' : (n + 1) * (16 ^ k * 16) ≤ 2 ^ 64 = rw (pow-suc 16 k) at h in
    let p : 1 ≤ 16 ^ k = pow-pos k in grind arith

room_next :
    (n d k : ℕ) → d < 16 → (n + 1) * 16 ^ suc k ≤ 2 ^ 64 → (n * 16 + d + 1) * 16 ^ k ≤ 2 ^ 64
room_next n d k lt h =
    let h' : (n + 1) * (16 ^ k * 16) ≤ 2 ^ 64 = rw (pow-suc 16 k) at h in grind arith

-- A number that has room for the digits to come is read exactly.
scan_hex-value :
    (s : Text) (n : ℕ)
    → AreDigits s
    → (n + 1) * 16 ^ length s ≤ 2 ^ 64
    → scan_hex s n ≡ some (hex_value n s)
unfolding scan_hex
scan_hex-value [] n h room = refl
scan_hex-value (c ∷ s) n h room = elim (Option-cases (hex_digit c)) [
  | inl bad ↦ cc (h.0)
  | inr (d, good) ↦ ground (
    arith,
    good,
    room_now n (length s) room,
    scan_hex-value s (n * 16 + d) h.1 (room_next n d (length s) (hex_digit-lt c d good) room),
  )
]

-- Up to sixteen hexadecimal digits, of either case, are read as the number that they spell.
pub hex_to_uint64-value :
    (s : Text) → s ≢ [] → AreDigits s → 16 ^ length s ≤ 2 ^ 64 → hex_to_uint64 s ≡ hex_value 0 s
unfolding hex_to_uint64 parse_hex
hex_to_uint64-value [] ne h room = absurd (ne refl)
hex_to_uint64-value (c ∷ s) ne h room =
    rw (scan_hex-value (c ∷ s) 0 h (omega arith), hex_to_uint64) refl

length-take : (n : ℕ) (s : Text) → n ≤ length s → length (take n s) ≡ n
length-take zero s h = refl
length-take (suc n) [] h = absurd (omega arith)
length-take (suc n) (c ∷ s) h = omega (arith, length-take n s)

pub take-AreDigits : (n : ℕ) (s : Text) → AreDigits s → AreDigits (take n s)
take-AreDigits zero s h = tt
take-AreDigits (suc n) [] h = tt
take-AreDigits (suc n) (c ∷ s) h = (h.0, take-AreDigits n s h.1)

take-ne-nil : (pk : Text) → 10 ≤ length pk → take 10 pk ≢ []
take-ne-nil [] h = absurd (omega arith)
take-ne-nil (c ∷ s) h = λ e. cc

-- The subnet of a validator whose key begins with ten hexadecimal digits, where the count of subnets
-- is positive and below 2 ^ 63: the number that these spell, reduced by the count, so an index below
-- it.
pub validator_subnet-value :
    (pk : Text) (subnets_count : ℕ)
    → 10 ≤ length pk
    → AreDigits (take 10 pk)
    → 0 < subnets_count
    → subnets_count < 2 ^ 63
    → (validator_subnet pk subnets_count ≡ some (pos (hex_value 0 (take 10 pk) % subnets_count)))
      × (hex_value 0 (take 10 pk) % subnets_count < subnets_count)
unfolding validator_subnet to_int
validator_subnet-value pk subnets_count long digits some_subnet small =
    let size = length-take 10 pk long in
    let value : hex_to_uint64 (take 10 pk) ≡ hex_value 0 (take 10 pk) =
      hex_to_uint64-value (take 10 pk) (take-ne-nil pk long) digits (rw size (omega arith)) in
    let below : hex_value 0 (take 10 pk) % subnets_count < subnets_count = omega arith in
    (rw value (ground arith), below)

-- Every branch of ValidatorSubnet: a key of fewer than ten bytes gives -1 whatever the count, and
-- any longer key divides by zero exactly when the count is zero.
pub validator_subnet-cases :
    (pk : Text) (subnets_count : ℕ)
    → (length pk < 10 → validator_subnet pk subnets_count ≡ some (negsuc 0))
      × (10 ≤ length pk → (validator_subnet pk subnets_count ≡ none) ↔ (subnets_count ≡ 0))
unfolding validator_subnet
validator_subnet-cases pk subnets_count = ground arith

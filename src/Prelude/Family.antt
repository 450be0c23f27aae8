-- ===== src/Prelude/Family.antt =====
-- Families by the number of an instance: a change at one number, and sums over the first `n`.
use p2p_tests.Prelude.{
  ℕ, zero, suc, ◌+◌, ◌≤◌, ◌<◌, ◌≡◌, refl, eqb, if◌then◌else◌, arith, Bool-cases, inl, inr, false,
  leb, ltb,
}

abbrev pub update {ℓ} : {A : Type ℓ} → (ℕ → A) → ℕ → A → ℕ → A
update f i a j = if eqb i j then a else f j

pub total : ℕ → (ℕ → ℕ) → ℕ
total zero f = 0
total (suc n) f = total n f + f n

pub total-zero : (n : ℕ) → total n (λ k. 0) ≡ 0
unfolding total
total-zero zero = refl
total-zero (suc n) = omega (arith, total-zero n)

pub total-same : (n : ℕ) (f g : ℕ → ℕ) → ((k : ℕ) → k < n → f k ≡ g k) → total n f ≡ total n g
unfolding total
total-same zero f g h = refl
total-same (suc n) f g h =
    omega (arith, total-same n f g (λ k lt. h k (omega arith)), h n (omega arith))

-- A sum in which one summand, and no other, goes on by `d`.
pub total-raised :
    (n : ℕ) (f g : ℕ → ℕ) (i d : ℕ)
    → i < n
    → g i ≡ f i + d
    → ((k : ℕ) → eqb i k ≡ false → g k ≡ f k)
    → total n g ≡ total n f + d
unfolding total
total-raised zero f g i d lt at same = absurd (omega arith)
total-raised (suc n) f g i d lt at same = elim (Bool-cases (eqb i n)) [
  | inl last ↦
      let e : i ≡ n = ground arith in
      let rest = total-same n g f (λ k below. same k (ground arith)) in
      omega (arith, rest, rw e at at)
  | inr before ↦ omega (arith, total-raised n f g i d (ground arith) at same, same n before)
]

pub total-add : (n : ℕ) (f g : ℕ → ℕ) → total n (λ k. f k + g k) ≡ total n f + total n g
unfolding total
total-add zero f g = refl
total-add (suc n) f g = omega (arith, total-add n f g)

-- One in the family at `a - 1`, none elsewhere.
abbrev pub hit : ℕ → ℕ → ℕ
hit a k = if eqb (suc k) a then 1 else 0

pub total-hit : (n a : ℕ) → total n (hit a) ≡ (if eqb a 0 then 0 else if leb a n then 1 else 0)
unfolding total
total-hit zero a = ground arith
total-hit (suc n) a = ground (arith, total-hit n a)

total-le : (n : ℕ) (f : ℕ → ℕ) → ((k : ℕ) → k < n → f k ≤ 1) → total n f ≤ n
unfolding total
total-le zero f h = omega arith
total-le (suc n) f h = omega (arith, total-le n f (λ k lt. h k (omega arith)), h n (omega arith))

-- If no summand is above one and the sum is as large as it can be, each of them is one.
pub total-full :
    (n : ℕ) (f : ℕ → ℕ) → ((k : ℕ) → k < n → f k ≤ 1) → n ≤ total n f → (k : ℕ) → k < n → 0 < f k
unfolding total
total-full zero f h full k lt = absurd (omega arith)
total-full (suc n) f h full k lt =
    let small = λ (j : ℕ) (below : j < n). h j (omega arith) in
    let most = total-le n f small in
    elim (Bool-cases (eqb k n)) [
      | inl last ↦ let e : k ≡ n = ground arith in rw e (omega (arith, most, h n (omega arith)))
      | inr before ↦ total-full n f small (omega (arith, h n (omega arith))) k (ground arith)
    ]

-- If every summand is at least one, so is the sum at least their number.
pub le-total : (n : ℕ) (f : ℕ → ℕ) → ((k : ℕ) → k < n → 0 < f k) → n ≤ total n f
unfolding total
le-total zero f h = omega arith
le-total (suc n) f h = omega (arith, le-total n f (λ k lt. h k (omega arith)), h n (omega arith))

-- A number at which a family is smallest.
pub least : (n : ℕ) (f : ℕ → ℕ) → 0 < n → (i : ℕ) × (i < n) × ((k : ℕ) → k < n → f i ≤ f k)
least zero f some_one = absurd (omega arith)
least (suc zero) f some_one =
    (0, omega arith, λ k lt. let e : k ≡ 0 = omega arith in rw e (omega arith))
least (suc (suc n)) f some_one =
    let (i, lt, low) = least (suc n) f (omega arith) in
    elim (Bool-cases (leb (f i) (f (suc n)))) [
      | inl keep ↦ (
        i,
        omega arith,
        λ k below. elim (Bool-cases (eqb k (suc n))) [
          | inl last ↦ let e : k ≡ suc n = ground arith in rw e (ground arith)
          | inr before ↦ low k (ground arith)
        ],
      )
      | inr fresh ↦ (
        suc n,
        omega arith,
        λ k below. elim (Bool-cases (eqb k (suc n))) [
          | inl last ↦ let e : k ≡ suc n = ground arith in rw e (omega arith)
          | inr before ↦ let l : f i ≤ f k = low k (ground arith) in ground arith
        ],
      )
    ]

pub le-total_of_one : (n : ℕ) (f : ℕ → ℕ) (k : ℕ) → k < n → f k ≤ total n f
unfolding total
le-total_of_one zero f k lt = absurd (omega arith)
le-total_of_one (suc n) f k lt = elim (Bool-cases (eqb k n)) [
  | inl last ↦ let e : k ≡ n = ground arith in rw e (omega arith)
  | inr before ↦ omega (arith, le-total_of_one n f k (ground arith))
]

-- A summand that makes a sum positive.
pub total-pos : (n : ℕ) (f : ℕ → ℕ) → 0 < total n f → (k : ℕ) × (k < n) × (0 < f k)
unfolding total
total-pos zero f h = absurd (omega arith)
total-pos (suc n) f h = elim (Bool-cases (ltb 0 (f n))) [
  | inl here ↦ (n, omega arith, ground arith)
  | inr gone ↦ let (k, lt, pos) = total-pos n f (ground arith) in (k, omega arith, pos)
]

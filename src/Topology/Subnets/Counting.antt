-- ===== src/Topology/Subnets/Counting.antt =====
-- When the loop of runSubnets counts its validators, and when it panics.
use p2p_tests.Prelude.{
  ℕ, zero, suc, ◌+◌, ◌%◌, ◌≤◌, ◌<◌, ◌≡◌, ◌∙◌, refl, List, [], ◌∷◌, ◌++◌, append_assoc, append-nil,
  map, none, some, Text, In, All, inl, inr, length, sum, arith, Option-cases,
}
use p2p_tests.Prelude.Int.{pos}
use p2p_tests.Topology.Clusters.{validator_subnet, take}
use p2p_tests.Topology.Clusters.Hex.{
  AreDigits, hex_value, validator_subnet-value, validator_subnet-cases,
}
use p2p_tests.Topology.Subnets.{
  zeros, increment_at, increment_int, subnet_topic, count_subnets, start_subnets,
}

length-zeros : (n : ℕ) → (length (zeros n) ≡ n) × (sum (zeros n) ≡ 0)
length-zeros zero = (refl, refl)
length-zeros (suc n) = omega (arith, length-zeros n)

increment_at-some :
    (i : ℕ) (ns : List ℕ)
    → i < length ns
    → (ns' : List ℕ) × (increment_at i ns ≡ some ns')
      × (length ns' ≡ length ns)
      × (sum ns' ≡ suc (sum ns))
unfolding increment_at
increment_at-some i [] h = elim h [ ]
increment_at-some zero (n ∷ ns) h = ((n + 1) ∷ ns, refl, refl, omega arith)
increment_at-some (suc i) (n ∷ ns) h =
    let (ns', e, l, t) = increment_at-some i ns (omega arith) in
    (n ∷ ns', rw e refl, omega arith, omega arith)

-- A key that ValidatorSubnet reads as a number.
abbrev pub IsKey : Text → Type 0
IsKey pk = (10 ≤ length pk) × AreDigits (take 10 pk)

-- The index of a key's subnet.
abbrev pub subnet_index : ℕ → Text → ℕ
subnet_index subnets_count pk = hex_value 0 (take 10 pk) % subnets_count

count_subnets-counts :
    (pks : List Text) (subnets_count : ℕ) (subnets : List ℕ) (topics : List Text)
    → All IsKey pks
    → 0 < subnets_count
    → subnets_count ≤ length subnets
    → length subnets ≡ 128
    → (subnets' : List ℕ) × (count_subnets pks subnets_count subnets topics
        ≡ some (
          subnets',
          topics ++ map (λ pk. subnet_topic (pos (subnet_index subnets_count pk))) pks,
        ))
      × (length subnets' ≡ length subnets)
      × (sum subnets' ≡ sum subnets + length pks)
unfolding count_subnets
count_subnets-counts [] subnets_count subnets topics ks some_subnet small size =
    (subnets, rw append-nil refl, refl, omega arith)
count_subnets-counts (pk ∷ pks) subnets_count subnets topics ks some_subnet small size =
    let (v, below) =
      validator_subnet-value pk subnets_count ks.0.0 ks.0.1 some_subnet (omega arith) in
    let (subnets', e, l, t) =
      increment_at-some (subnet_index subnets_count pk) subnets (omega arith) in
    let (result, r, l', t') =
      count_subnets-counts pks subnets_count subnets'
        (topics ++ subnet_topic (pos (subnet_index subnets_count pk)) ∷ []) ks.1 some_subnet
        (omega arith) (omega arith) in
    (result, rw (v, e, count_subnets) (r ∙ rw append_assoc refl), omega arith, omega arith)

-- With keys of ten or more hexadecimal digits and between 1 and 128 subnets the loop of runSubnets
-- does not panic: its array has a count for each of the 128 subnets, the counts add up to the number
-- of the validators, and it starts a listener on the topic of each validator's subnet, in order.
pub start_subnets-counts :
    (pks : List Text) (subnets_count : ℕ)
    → All IsKey pks
    → 0 < subnets_count
    → subnets_count ≤ 128
    → (subnets : List ℕ) × (start_subnets pks subnets_count
        ≡ some (subnets, map (λ pk. subnet_topic (pos (subnet_index subnets_count pk))) pks))
      × (length subnets ≡ 128)
      × (sum subnets ≡ length pks)
unfolding start_subnets
start_subnets-counts pks subnets_count ks some_subnet small =
    let z = length-zeros 128 in
    let (subnets, r, l, t) =
      count_subnets-counts pks subnets_count (zeros 128) [] ks some_subnet (omega (arith, z.0))
        z.0 in
    (subnets, r, omega (arith, z.0), omega (arith, z.1))

count_subnets_short :
    (pk : Text) (pks : List Text) (subnets_count : ℕ) (subnets : List ℕ) (topics : List Text)
    → In pk pks
    → length pk < 10
    → count_subnets pks subnets_count subnets topics ≡ none
unfolding count_subnets
count_subnets_short pk [] subnets_count subnets topics m short = absurd m
count_subnets_short pk (k ∷ pks) subnets_count subnets topics (inl e) short =
    rw ((validator_subnet-cases k subnets_count).0 (rw e at short), count_subnets) refl
count_subnets_short pk (k ∷ pks) subnets_count subnets topics (inr m) short =
    elim (Option-cases (validator_subnet k subnets_count)) [
      | inl e ↦ rw (e, count_subnets) refl
      | inr (sub, e) ↦ elim (Option-cases (increment_int sub subnets)) [
        | inl f ↦ rw (e, f, count_subnets) refl
        | inr (subnets', f) ↦
            rw (e, f, count_subnets)
              (count_subnets_short pk pks subnets_count subnets' (topics ++ subnet_topic sub ∷ []) m
                short)
      ]
    ]

-- A validator whose key has fewer than ten bytes makes the loop of runSubnets panic: the index is
-- -1, whatever the other validators and the number of subnets are.
pub start_subnets_short :
    (pk : Text) (pks : List Text) (subnets_count : ℕ)
    → In pk pks
    → length pk < 10
    → start_subnets pks subnets_count ≡ none
unfolding start_subnets
start_subnets_short pk pks subnets_count m short =
    count_subnets_short pk pks subnets_count (zeros 128) [] m short

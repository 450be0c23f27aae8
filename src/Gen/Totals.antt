-- ===== src/Gen/Totals.antt =====
-- The statistics that the command prints of the groups that it generates.
use p2p_tests.Prelude.{
  ℕ, zero, suc, ◌+◌, ◌<◌, ◌≡◌, refl, ap, ◌∙◌, List, [], ◌∷◌, ◌++◌, Option, Text, codes, length, All,
  arith, ◌||◌, not, true, ◌⊎◌, inl, inr,
}
use p2p_tests.Prelude.Int.{ℤ, pos, leb_ℤ}
use p2p_tests.Topology.Errors.{GoError, Result, ok}
use p2p_tests.Topology.TopicManager.Interface.{Result-cases}
use p2p_tests.Topology.Pubsub.{drop}
use p2p_tests.Utils.Outcome.{Outcome, done, panic, starved, timeout}
use p2p_tests.Utils.Generate.{Groups, generate, generate_operator_ids, ids_from, is_positive}
use p2p_tests.Utils.Generate.Round.{IsPlacement, count_shares}
use p2p_tests.Utils.Generate.Placement.{generate_groups-IsPlacement}
use p2p_tests.Gen.{Flags, Stats, Written, count_validators, stats_of, write_both, main}

length-ids_from : (i n : ℕ) → length (ids_from i n) ≡ n
unfolding ids_from
length-ids_from i zero = refl
length-ids_from i (suc n) = ap suc (length-ids_from (i + 1) n)

count_validators-count_shares :
    (groups : Groups) (n : ℕ) → count_validators groups n ≡ n + count_shares groups
unfolding count_validators
count_validators-count_shares [] n = omega arith
count_validators-count_shares ((gid, gr) ∷ groups) n =
    omega (arith, count_validators-count_shares groups (n + length gr))

Outcome-cases {ℓ} :
    {A : Type ℓ} (o : Outcome A)
    → ((a : A) × (o ≡ done a)) ⊎ (o ≡ panic) ⊎ (o ≡ starved) ⊎ (o ≡ timeout)
Outcome-cases (done a) = inl (a, refl)
Outcome-cases panic = inr (inl refl)
Outcome-cases starved = inr (inr (inl refl))
Outcome-cases timeout = inr (inr (inr refl))

generate-IsPlacement :
    (key : ℕ → Text) (k n : ℕ) (max_groups : ℤ) (draws : List ℕ) (groups : Groups)
    → All (λ d. d < k) draws
    → generate key (pos k) (pos n) max_groups draws ≡ done groups
    → IsPlacement k max_groups n groups
unfolding generate generate_operator_ids
generate-IsPlacement key k n max_groups draws groups below e =
    let size = length-ids_from 0 k in
    rw size at (generate_groups-IsPlacement key n (ids_from 0 k) max_groups draws (rw size below) e)

module _ {Float : Type 0} (ratio : ℕ → ℕ → Float) (marshal : Groups → Result Text)
    (encode_stats : Stats Float → Result Text) (join_path : Text → Text → Text)
    (write_file : Text → Option GoError) (old_content : Text → Text) where
  -- What the two files hold.
  abbrev pub AreWritten : Text → Groups → Stats Float → List Written → Type 0
  AreWritten out_dir groups st files =
      (raw : Text) × (yaml : Text) × (marshal groups ≡ ok raw)
      × (encode_stats st ≡ ok yaml)
      × (files
          ≡ (join_path out_dir (codes ".clusters.json"), raw)
            ∷ (
              join_path out_dir (codes ".stats.yaml"),
              yaml ++ drop (length yaml) (old_content (join_path out_dir (codes ".stats.yaml"))),
            )
            ∷ [])

  write_both-AreWritten :
      (out_dir : Text) (groups : Groups) (st : Stats Float) (files : List Written)
      → write_both ratio marshal encode_stats join_path write_file old_content out_dir groups st
        ≡ done files
      → AreWritten out_dir groups st files
  unfolding write_both
  write_both-AreWritten out_dir groups st files e = elim (Result-cases (marshal groups)) [
    | inr (bad, refused) ↦ absurd (ground arith)
    | inl (raw, encoded) ↦ elim (Result-cases (encode_stats st)) [
      | inr (bad, refused) ↦ absurd (ground arith)
      | inl (yaml, good) ↦ (raw, yaml, encoded, good, ground arith)
    ]
  ]

  main-done :
      (key : ℕ → Text) (flags : Flags) (draws : List ℕ) (st : Stats Float) (files : List Written)
      → main ratio marshal encode_stats join_path write_file old_content key flags draws
        ≡ done (st, files)
      → (groups : Groups) × (generate key flags.operators flags.validators flags.max_groups draws
          ≡ done groups)
        × (st
            ≡ stats_of ratio marshal encode_stats join_path write_file old_content flags.operators
                groups)
        × AreWritten flags.out_dir groups st files
  unfolding main
  main-done key flags draws st files e =
      elim (Outcome-cases (generate key flags.operators flags.validators flags.max_groups draws)) [
        | inr (inl bad) ↦ absurd (ground arith)
        | inr (inr (inl bad)) ↦ absurd (ground arith)
        | inr (inr (inr bad)) ↦ absurd (ground arith)
        | inl (groups, good) ↦
            let st' =
              stats_of ratio marshal encode_stats join_path write_file old_content flags.operators
                groups in
            let both =
              write_both ratio marshal encode_stats join_path write_file old_content flags.out_dir
                groups st' in
            elim (Outcome-cases both) [
              | inr (inl bad) ↦ absurd (ground arith)
              | inr (inr (inl bad)) ↦ absurd (ground arith)
              | inr (inr (inr bad)) ↦ absurd (ground arith)
              | inl (fs, wrote) ↦
                  let two = write_both-AreWritten flags.out_dir groups st' fs wrote in
                  let same : st ≡ st' = ground arith in
                  let written : files ≡ fs = ground arith in
                  (groups, good, same, rw (same, written) two)
            ]
      ]

  -- When the command is asked for a number of validators that is not negative, and ends without a
  -- panic, it has printed this number and that of the operators, no more groups than a positive
  -- maximum; and it has written the encoding
  -- of a placement of that many validators to one file, and that of the statistics over the beginning
  -- of what the other held.
  pub main-stats :
      (key : ℕ → Text) (flags : Flags) (k n : ℕ) (draws : List ℕ) {st : Stats Float}
      {files : List Written}
      → flags.operators ≡ pos k
      → flags.validators ≡ pos n
      → All (λ d. d < k) draws
      → main ratio marshal encode_stats join_path write_file old_content key flags draws
        ≡ done (st, files)
      → (st.validators_count ≡ n)
        × (st.operators_count ≡ pos k)
        × ((not (is_positive flags.max_groups) || leb_ℤ (pos st.groups_count) flags.max_groups)
            ≡ true)
        × ((groups : Groups) × IsPlacement k flags.max_groups n groups
            × AreWritten flags.out_dir groups st files)
  unfolding stats_of
  main-stats key flags k n draws {st} {files} ops vals below e =
      let (groups, made, same, two) = main-done key flags draws st files e in
      let p =
        generate-IsPlacement key k n flags.max_groups draws groups below (rw (ops, vals) at made) in
      (
        rw same (count_validators-count_shares groups 0 ∙ omega (arith, p.counted)),
        rw same ops,
        rw same p.capped,
        (groups, p, two),
      )

-- ===== src/Gen.antt =====
-- cmd/gen/main.go: the command that generates groups, prints statistics of them and writes both to
-- files. The encoders, path.Join, the division of float64 and the file system are parameters:
-- `write_file` says whether a file can be opened and written, `old_content` what it held before.
pub mod Totals
use p2p_tests.Prelude.{ℕ, ◌+◌, List, [], ◌∷◌, ◌++◌, Option, none, some, Text, codes, length}
use p2p_tests.Prelude.Int.{ℤ, pos}
use p2p_tests.Topology.Pubsub.{drop}
use p2p_tests.Topology.Errors.{GoError, Result, ok, err}
use p2p_tests.Utils.Outcome.{Outcome, done, panic, starved, timeout}
use p2p_tests.Utils.Generate.{Groups, generate}

-- The variables of the flags.
pub record Flags : Type 0 where
  pub validators : ℤ
  pub operators : ℤ
  pub max_groups : ℤ
  pub format : Text
  pub out_dir : Text

abbrev pub default_flags : Flags
default_flags = record {
  validators = pos 250;
  operators = pos 50;
  max_groups = pos 25;
  format = codes "yaml";
  out_dir = codes "./";
}

-- stats. `Float` stands for float64.
pub record Stats (Float : Type 0) : Type 0 where
  pub validators_count : ℕ
  pub operators_count : ℤ
  pub groups_count : ℕ
  pub avg_in_group : Float

-- The loop over the groups, with the variable nvalidators.
unfoldable pub count_validators : Groups → ℕ → ℕ
count_validators [] nvalidators = nvalidators
count_validators ((gid, gr) ∷ groups) nvalidators =
    count_validators groups (nvalidators + length gr)

-- A file that was written, by its path.
abbrev pub Written : Type 0
Written = Text × Text

module _ {Float : Type 0} (ratio : ℕ → ℕ → Float) (marshal : Groups → Result Text)
    (encode_stats : Stats Float → Result Text) (join_path : Text → Text → Text)
    (write_file : Text → Option GoError) (old_content : Text → Text) where
  unfoldable pub stats_of : ℤ → Groups → Stats Float
  unfolding count_validators
  stats_of operators groups =
      let nvalidators = count_validators groups 0 in
      record {
        validators_count = nvalidators;
        operators_count = operators;
        groups_count = length groups;
        avg_in_group = ratio nvalidators (length groups);
      }

  -- The first goroutine: os.WriteFile puts the encoding in place of what the file held.
  unfoldable pub write_clusters : Text → Groups → Outcome Written
  write_clusters file groups = elim (marshal groups) [
    | err e ↦ panic
    | ok raw ↦ elim (write_file file) [ none ↦ done (file, raw) | some e ↦ panic ]
  ]

  -- The second one: the file is opened without being truncated, so the encoding is written over the
  -- beginning of what it held.
  unfoldable pub write_stats : Text → Stats Float → Outcome Written
  write_stats file st = elim (write_file file) [
    | some e ↦ panic
    | none ↦ elim (encode_stats st) [
      | err e ↦ panic
      | ok raw ↦ done (file, raw ++ drop (length raw) (old_content file))
    ]
  ]

  -- The two goroutines, which main waits for; a panic in either ends the program.
  unfoldable pub write_both : Text → Groups → Stats Float → Outcome (List Written)
  unfolding write_clusters write_stats
  write_both out_dir groups st =
      elim (write_clusters (join_path out_dir (codes ".clusters.json")) groups) [
        | panic ↦ panic
        | starved ↦ starved
        | timeout ↦ timeout
        | done clusters ↦ elim (write_stats (join_path out_dir (codes ".stats.yaml")) st) [
          | panic ↦ panic
          | starved ↦ starved
          | timeout ↦ timeout
          | done stats ↦ done (clusters ∷ stats ∷ [])
        ]
      ]

  -- main, from its flags: the statistics that it prints and the files.
  unfoldable pub main : (ℕ → Text) → Flags → List ℕ → Outcome (Stats Float × List Written)
  unfolding stats_of write_both
  main key flags draws =
      elim (generate key flags.operators flags.validators flags.max_groups draws) [
        | panic ↦ panic
        | starved ↦ starved
        | timeout ↦ timeout
        | done groups ↦
            let st = stats_of flags.operators groups in
            elim (write_both flags.out_dir groups st) [
              | panic ↦ panic
              | starved ↦ starved
              | timeout ↦ timeout
              | done files ↦ done (st, files)
            ]
      ]

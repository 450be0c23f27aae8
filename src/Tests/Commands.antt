-- ===== src/Tests/Commands.antt =====
-- cmd/gen/main.go at concrete inputs.
use p2p_tests.Prelude.{
  ℕ, ◌≡◌, refl, List, [], ◌∷◌, ◌++◌, Option, none, Text, codes, arith, ◌||◌, not, true, lookup,
  insert,
}
use p2p_tests.Prelude.Int.{pos, leb_ℤ}
use p2p_tests.Topology.Errors.{GoError, Result, ok}
use p2p_tests.Utils.Outcome.{done}
use p2p_tests.Utils.Generate.{is_positive, generate, Groups, place_share}
use p2p_tests.Utils.RandGroup.{rand_group}
use p2p_tests.Gen.{Flags, default_flags, Stats, main, Written}
use p2p_tests.Utils.Generate.Round.{IsPlacement}
use p2p_tests.Gen.Totals.{AreWritten, main-stats}

abbrev small_flags : Flags
small_flags = record default_flags { validators = pos 1; operators = pos 4 }

abbrev four_draws : List ℕ
four_draws = 0 ∷ 1 ∷ 2 ∷ 3 ∷ []

abbrev ratio : ℕ → ℕ → ℕ
ratio a b = a

abbrev in_json : Groups → Result Text
in_json groups = ok (codes "{}")

abbrev in_yaml : Stats ℕ → Result Text
in_yaml st = ok (codes "stats")

abbrev saved : Text → Option GoError
saved file = none

-- What the files held: the file of the statistics was longer.
abbrev old : Text → Text
old file = codes "0123456789"

abbrev key_of : ℕ → Text
key_of n = codes "key"

abbrev printed : Stats ℕ
printed = record {
  validators_count = 1;
  operators_count = pos 4;
  groups_count = 1;
  avg_in_group = 1;
}

abbrev files : List Written
files = (codes "./.clusters.json", codes "{}") ∷ (codes "./.stats.yaml", codes "stats56789") ∷ []

main_run :
    main ratio in_json in_yaml ◌++◌ saved old key_of small_flags four_draws ≡ done (printed, files)
unfolding main generate rand_group place_share lookup insert
main_run = refl

main-stats_example :
    (printed.validators_count ≡ 1)
    × (printed.operators_count ≡ pos 4)
    × ((not (is_positive small_flags.max_groups)
          || leb_ℤ (pos printed.groups_count) small_flags.max_groups)
        ≡ true)
    × ((groups : Groups) × IsPlacement 4 small_flags.max_groups 1 groups
        × AreWritten ratio in_json in_yaml ◌++◌ saved old small_flags.out_dir groups printed files)
main-stats_example =
    main-stats ratio in_json in_yaml ◌++◌ saved old key_of small_flags 4 1 four_draws refl refl
      (omega arith) main_run

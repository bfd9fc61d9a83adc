-- ===== src/Cli.antt =====
-- crates/foldback-cli/src/main.rs: what the commands over recordings exit with. What they print is
-- not modelled.
pub mod Report
pub mod Counts
pub mod Exit
pub mod Online
mod Tests
use foldback.Prelude.{ℕ, Option, none, some, List, [], ◌∷◌}
use foldback.Prelude.Utf8.{Text}
use foldback.Error.{IoError, Result, ok, err}
use foldback.Io.{Reader}
use foldback.Schema.{SchemaDrift, Schemas, detect_drift}
use foldback.Cli.Report
use foldback.Cli.Report.{CliError, analyze, extract_schema}

abbrev pub ExitCode : Type 0
ExitCode = ℕ

abbrev pub success : ExitCode
success = 0

unfoldable pub analyze_exit : Result CliError Report.Report → ExitCode
analyze_exit (ok report) = success
analyze_exit (err e) = 2

unfoldable pub divergence_exit : Option ℕ → ExitCode
divergence_exit (some d) = 1
divergence_exit none = success

unfoldable pub ci_check_exit : Result CliError Report.Report → ExitCode
unfolding divergence_exit
ci_check_exit (ok report) = divergence_exit report.divergence
ci_check_exit (err e) = 2

unfoldable pub drift_exit : List SchemaDrift → ExitCode
drift_exit [] = success
drift_exit (d ∷ drift) = 1

-- The file `after` is read only when `before` could be.
unfoldable pub schema_diff_after : Schemas → Result CliError Schemas → ExitCode
unfolding drift_exit
schema_diff_after before (ok after) = drift_exit (detect_drift before after)
schema_diff_after before (err e) = 2

unfoldable pub schema_diff_before : Result CliError Schemas → Result CliError Schemas → ExitCode
unfolding schema_diff_after
schema_diff_before (ok before) after = schema_diff_after before after
schema_diff_before (err e) after = 2

-- `open_file` is `File::open`.
module _ (open_file : Text → Result IoError Reader) where
  unfoldable pub run_analyze : Text → ExitCode
  unfolding analyze_exit
  run_analyze file = analyze_exit (analyze open_file file)

  unfoldable pub run_ci_check : Text → ExitCode
  unfolding ci_check_exit
  run_ci_check file = ci_check_exit (analyze open_file file)

  unfoldable pub run_schema_diff : Text → Text → ExitCode
  unfolding schema_diff_before
  run_schema_diff before after =
      schema_diff_before (extract_schema open_file before) (extract_schema open_file after)

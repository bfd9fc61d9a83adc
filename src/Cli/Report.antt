-- ===== src/Cli/Report.antt =====
-- crates/foldback-cli/src/report.rs: `analyze` and `extract_schema`. A count of frames is a `usize`
-- that no file is long enough to overflow, so it is a number here.
use foldback.Prelude.{ℕ, suc, Bool, true, false, Option, List, [], ◌∷◌, ◌++◌, length}
use foldback.Prelude.Utf8.{Text}
use foldback.Error.{IoError, Error, Result, ok, err}
use foldback.Io.{Reader}
use foldback.Format.Header.{Header, read_header}
use foldback.Format.Frame.{
  Frame, tick_hash, entity_hash, field_hash, snapshot, metadata, end_of_stream,
}
use foldback.Format.Stream.{for_each_frame}
use foldback.Bisect.{TickHashRecord, DivergenceTick, find_first_divergence}
use foldback.Schema.{Schemas, extract_schemas}

pub data CliError : Type 0 where
  -- path, source
  open_failed : Text → IoError → CliError
  format_failed : Text → Error → CliError

pub record Report : Type 0 where
  pub header : Header
  pub tick_hash_count : ℕ
  pub entity_hash_count : ℕ
  pub field_hash_count : ℕ
  pub snapshot_count : ℕ
  pub metadata_count : ℕ
  pub ended_cleanly : Bool
  pub divergence : Option DivergenceTick

-- The local variables of the loop in `analyze`.
pub record Tally : Type 0 where
  pub tick_records : List TickHashRecord
  pub entity_hash_count : ℕ
  pub field_hash_count : ℕ
  pub snapshot_count : ℕ
  pub metadata_count : ℕ
  pub ended_cleanly : Bool

abbrev pub no_tally : Tally
no_tally = record {
  tick_records = [];
  entity_hash_count = 0;
  field_hash_count = 0;
  snapshot_count = 0;
  metadata_count = 0;
  ended_cleanly = false;
}

unfoldable pub count_frame : Tally → Frame → Tally
count_frame t (tick_hash tick peer_id hash) = record t {
  tick_records = t.tick_records ++ (record { tick = tick; peer_id = peer_id; hash = hash } ∷ []);
}
count_frame t (entity_hash _ _ _ _) = record t { entity_hash_count = suc t.entity_hash_count }
count_frame t (field_hash _ _ _ _ _ _) = record t { field_hash_count = suc t.field_hash_count }
count_frame t (snapshot _ _ _) = record t { snapshot_count = suc t.snapshot_count }
count_frame t (metadata _ _) = record t { metadata_count = suc t.metadata_count }
count_frame t end_of_stream = record t { ended_cleanly = true }

unfoldable pub report_of : Header → Tally → Report
report_of header t = record {
  header = header;
  tick_hash_count = length t.tick_records;
  entity_hash_count = t.entity_hash_count;
  field_hash_count = t.field_hash_count;
  snapshot_count = t.snapshot_count;
  metadata_count = t.metadata_count;
  ended_cleanly = t.ended_cleanly;
  divergence = find_first_divergence t.tick_records;
}

unfoldable pub tallied : Text → Header → Result Error Tally → Result CliError Report
unfolding report_of
tallied path header (ok t) = ok (report_of header t)
tallied path header (err e) = err (format_failed path e)

unfoldable pub analyze_headed : Text → Result Error Header × Reader → Result CliError Report
unfolding tallied count_frame
analyze_headed path (ok header, r) = tallied path header (for_each_frame count_frame no_tally r)
analyze_headed path (err e, r) = err (format_failed path e)

unfoldable pub analyze_opened : Text → Result IoError Reader → Result CliError Report
unfolding analyze_headed
analyze_opened path (ok file) = analyze_headed path (read_header file)
analyze_opened path (err e) = err (open_failed path e)

unfoldable pub collected : Text → Result Error (List Frame) → Result CliError Schemas
collected path (ok frames) = ok (extract_schemas frames)
collected path (err e) = err (format_failed path e)

abbrev pub push_frame : List Frame → Frame → List Frame
push_frame frames f = frames ++ (f ∷ [])

unfoldable pub schema_headed : Text → Result Error Header × Reader → Result CliError Schemas
unfolding collected
schema_headed path (ok header, r) = collected path (for_each_frame push_frame [] r)
schema_headed path (err e, r) = err (format_failed path e)

unfoldable pub schema_opened : Text → Result IoError Reader → Result CliError Schemas
unfolding schema_headed
schema_opened path (ok file) = schema_headed path (read_header file)
schema_opened path (err e) = err (open_failed path e)

-- `open_file` is `File::open`.
module _ (open_file : Text → Result IoError Reader) where
  unfoldable pub analyze : Text → Result CliError Report
  unfolding analyze_opened
  analyze path = analyze_opened path (open_file path)

  unfoldable pub extract_schema : Text → Result CliError Schemas
  unfolding schema_opened
  extract_schema path = schema_opened path (open_file path)

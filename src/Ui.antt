-- ===== src/Ui.antt =====
-- crates/foldback-ui/src/session.rs: `load`, which turns a recording into what the viewer shows. A
-- count of frames is a `usize` that no file is long enough to overflow, so it is a number here.
pub mod Agreement
mod Tests
pub mod Live
use foldback.Prelude.{
  ℕ, zero, suc, ◌+◌, ◌-◌, ◌/◌, ◌%◌, ◌^◌, min, max, Bool, true, false, Option, none, some,
}
use foldback.Prelude.{List, [], ◌∷◌, ◌++◌, ltb, ◌==◌, if◌then◌else◌}
use foldback.Prelude.Utf8.{Text}
use foldback.Prelude.Order.{nat_ord}
use foldback.Prelude.Sort.{sort}
use foldback.Error.{IoError, Error, Result, ok, err}
use foldback.Io.{Reader}
use foldback.Format.Header.{Header, read_header}
use foldback.Format.Frame.{
  Frame, tick_hash, entity_hash, field_hash, snapshot, metadata, end_of_stream,
}
use foldback.Format.Stream.{for_each_frame}
use foldback.Bisect.{TickHashRecord, find_first_divergence}

pub data LoadError : Type 0 where
  -- path, source
  open_failed : Text → IoError → LoadError
  format_failed : Text → Error → LoadError

pub record TickHashEntry : Type 0 where
  pub tick : ℕ
  pub peer_id : ℕ
  pub hash : Text

pub record EntityHashEntry : Type 0 where
  pub tick : ℕ
  pub peer_id : ℕ
  pub entity_id : ℕ
  pub hash : Text

pub record FieldHashEntry : Type 0 where
  pub tick : ℕ
  pub peer_id : ℕ
  pub entity_id : ℕ
  pub field_name : Text
  pub hash : Text
  pub value_hex : Text

pub record SessionData : Type 0 where
  pub file_name : Text
  pub tick_rate_hz : ℕ
  pub peer_count : ℕ
  pub build_id : Text
  pub min_tick : ℕ
  pub max_tick : ℕ
  pub ended_cleanly : Bool
  pub tick_hashes : List TickHashEntry
  pub entity_hashes : List EntityHashEntry
  pub field_hashes : List FieldHashEntry
  pub snapshot_ticks : List ℕ
  pub metadata_count : ℕ
  pub divergence_tick : Option ℕ

-- A lower-case hexadecimal digit.
abbrev pub digit : ℕ → ℕ
digit d = if ltb d 10 then 48 + d else 87 + d

-- The last `n` hexadecimal digits of a number: `{:016x}` of a u64 for 16, `{:02x}` of a byte for 2.
unfoldable pub hex_digits : ℕ → ℕ → Text
hex_digits zero x = []
hex_digits (suc n) x = hex_digits n (x / 16) ++ (digit (x % 16) ∷ [])

unfoldable pub hex : ℕ → Text
unfolding hex_digits
hex x = hex_digits 16 x

-- `iter().map(|b| format!("{b:02x}")).collect()`
unfoldable pub hex_bytes : List ℕ → Text
unfolding hex_digits
hex_bytes [] = []
hex_bytes (b ∷ bs) = hex_digits 2 b ++ hex_bytes bs

abbrev pub u64_max : ℕ
u64_max = 2 ^ 64 - 1

-- The local variables of the loop in `load`.
pub record Loading : Type 0 where
  pub tick_records : List TickHashRecord
  pub tick_hashes : List TickHashEntry
  pub entity_hashes : List EntityHashEntry
  pub field_hashes : List FieldHashEntry
  pub snapshot_ticks : List ℕ
  pub metadata_count : ℕ
  pub ended_cleanly : Bool
  pub min_tick : ℕ
  pub max_tick : ℕ

abbrev pub nothing_loaded : Loading
nothing_loaded = record {
  tick_records = [];
  tick_hashes = [];
  entity_hashes = [];
  field_hashes = [];
  snapshot_ticks = [];
  metadata_count = 0;
  ended_cleanly = false;
  min_tick = u64_max;
  max_tick = 0;
}

unfoldable pub load_frame : Loading → Frame → Loading
unfolding hex hex_bytes
load_frame s (tick_hash tick peer_id hash) = record s {
  min_tick = min s.min_tick tick;
  max_tick = max s.max_tick tick;
  tick_records = s.tick_records ++ (record { tick = tick; peer_id = peer_id; hash = hash } ∷ []);
  tick_hashes = s.tick_hashes ++ (record { tick = tick; peer_id = peer_id; hash = hex hash } ∷ []);
}
load_frame s (entity_hash tick peer_id entity_id hash) = record s {
  entity_hashes =
      s.entity_hashes
      ++ (record { tick = tick; peer_id = peer_id; entity_id = entity_id; hash = hex hash } ∷ []);
}
load_frame s (field_hash tick peer_id entity_id field_name hash value) = record s {
  field_hashes =
      s.field_hashes
      ++ (record {
        tick = tick;
        peer_id = peer_id;
        entity_id = entity_id;
        field_name = field_name;
        hash = hex hash;
        value_hex = hex_bytes value;
      }
          ∷ []);
}
load_frame s (snapshot tick _ _) = record s { snapshot_ticks = s.snapshot_ticks ++ (tick ∷ []) }
load_frame s (metadata _ _) = record s { metadata_count = suc s.metadata_count }
load_frame s end_of_stream = record s { ended_cleanly = true }

-- `Vec::dedup`: equal neighbours become one.
unfoldable pub dedup : List ℕ → List ℕ
dedup [] = []
dedup (x ∷ []) = x ∷ []
dedup (x ∷ y ∷ xs) = let rest = dedup (y ∷ xs) in if x == y then rest else x ∷ rest

-- The snapshots' ticks are put in order only when there is a divergence.
unfoldable pub shown_snapshots : Option ℕ → List ℕ → List ℕ
unfolding dedup
shown_snapshots none ticks = ticks
shown_snapshots (some d) ticks = dedup (sort ticks)

unfoldable pub session_data : Text → Header → Loading → SessionData
unfolding shown_snapshots hex_bytes
session_data file_name header s = record {
  file_name = file_name;
  tick_rate_hz = header.tick_rate_hz;
  peer_count = header.peer_count;
  build_id = hex_bytes header.build_id;
  min_tick = if s.min_tick == u64_max then 0 else s.min_tick;
  max_tick = s.max_tick;
  ended_cleanly = s.ended_cleanly;
  tick_hashes = s.tick_hashes;
  entity_hashes = s.entity_hashes;
  field_hashes = s.field_hashes;
  snapshot_ticks = shown_snapshots (find_first_divergence s.tick_records) s.snapshot_ticks;
  metadata_count = s.metadata_count;
  divergence_tick = find_first_divergence s.tick_records;
}

unfoldable pub load_body :
    Text → Text → Header → Result Error Loading → Result LoadError SessionData
load_body path file_name header (ok s) = ok (session_data file_name header s)
load_body path file_name header (err e) = err (format_failed path e)

unfoldable pub load_headed :
    Text → Text → Result Error Header × Reader → Result LoadError SessionData
unfolding load_body load_frame
load_headed path file_name (ok header, r) =
    load_body path file_name header (for_each_frame load_frame nothing_loaded r)
load_headed path file_name (err e, r) = err (format_failed path e)

unfoldable pub load_opened : Text → Text → Result IoError Reader → Result LoadError SessionData
unfolding load_headed
load_opened path file_name (ok file) = load_headed path file_name (read_header file)
load_opened path file_name (err e) = err (open_failed path e)

-- `open_file` is `File::open`; `file_name` is the last part of a path, or the path itself.
module _ (open_file : Text → Result IoError Reader) (file_name : Text → Text) where
  unfoldable pub load : Text → Result LoadError SessionData
  unfolding load_opened
  load path = load_opened path (file_name path) (open_file path)

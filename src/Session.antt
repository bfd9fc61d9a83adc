-- ===== src/Session.antt =====
-- crates/foldback-core/src/session.rs: the `Session` API. A method takes the session and returns its
-- result with the session that it leaves. The hash function `xxh3_64` is a parameter.
pub mod Builder
pub mod Calls
pub mod Frames
pub mod Fields
pub mod Recording
pub mod Reports
pub mod Divergence
pub mod Once
mod Tests
pub mod Pending
use foldback.Prelude.{
  ℕ, Bool, true, false, not, ◌&&◌, ◌||◌, Option, none, some, List, [], ◌∷◌, ◌++◌,
}
use foldback.Prelude.{ltb, ◌==◌, if◌then◌else◌, length, take, drop, min, replicate}
use foldback.Prelude.Bytes.{to_le_bytes, bytes_eq}
use foldback.Prelude.Utf8.{Text}
use foldback.Prelude.Order.{nat_ord}
use foldback.Prelude.OrdMap.{first_key}
use foldback.Error.{IoError, Error, io, Result, ok, err}
use foldback.Action.{Action, after, ◌>>=◌, ◌>>◌, pure}
use foldback.Io.{Writer, write_all, flush}
use foldback.Format.Header
use foldback.Format.Header.{write_header}
use foldback.Format.Frame.{Frame, tick_hash, entity_hash, field_hash, metadata, end_of_stream}
use foldback.Format.Frame.{write_frame}
use foldback.Bisect.{DivergenceTick, Report, TickMap, add_report, disagree}
use foldback.Schema.{schema_metadata_key, fingerprint}
use foldback.Ring
use foldback.Ring.{RingBuffer}

pub record PendingHash : Type 0 where
  pub tick : ℕ
  pub hash : ℕ

pub record SessionBuilder : Type 0 where
  pub tick_rate_hz : ℕ
  pub peer_count : ℕ
  pub local_peer_id : ℕ
  pub retention : ℕ
  pub build_id : List ℕ
  pub record_to : Option Text

pub record Session : Type 0 where
  pub tick_rate_hz : ℕ
  pub peer_count : ℕ
  pub local_peer_id : ℕ
  pub ring : RingBuffer (ℕ × ℕ)
  pub pending : List PendingHash
  pub hashes_by_tick : TickMap
  pub checked_ticks : List ℕ
  pub cumulative : ℕ
  pub writer : Option Writer
  pub written_schemas : List Text

-- `SessionBuilder::default`
abbrev pub default_builder : SessionBuilder
default_builder = record {
  tick_rate_hz = 60;
  peer_count = 1;
  local_peer_id = 0;
  retention = 600;
  build_id = replicate 16 0;
  record_to = none;
}

-- `SessionBuilder::build`, once the file is open or none is wanted.
unfoldable pub build_with : SessionBuilder → Option Writer → Session
build_with b writer = record {
  tick_rate_hz = b.tick_rate_hz;
  peer_count = b.peer_count;
  local_peer_id = b.local_peer_id;
  ring = Ring.new b.retention;
  pending = [];
  hashes_by_tick = [];
  checked_ticks = [];
  cumulative = 0;
  writer = writer;
  written_schemas = [];
}

-- The header is written as soon as the file is created; `?` gives up on either failure.
unfoldable pub open_recording : SessionBuilder → Result IoError Writer → Result Error Session
open_recording b (err e) = err (io e)
open_recording b (ok w) =
    let (r, w') = write_header (Header.new b.tick_rate_hz b.peer_count b.build_id) w in
    elim r [ ok _ ↦ ok (build_with b (some w')) | err e ↦ err e ]

-- `create` is `File::create`.
module _ (create : Text → Result IoError Writer) where
  unfoldable pub build_to : SessionBuilder → Option Text → Result Error Session
  build_to b none = ok (build_with b none)
  build_to b (some path) = open_recording b (create path)

  unfoldable pub build : SessionBuilder → Result Error Session
  unfolding build_to open_recording build_with
  build b = build_to b b.record_to

unfoldable pub on_writer : Option Writer → Action Writer (Unit {0}) → Action Session (Unit {0})
on_writer none act s = (ok tt, s)
on_writer (some w) act s = ((act w).0, record s { writer = some (act w).1 })

-- `if let Some(w) = &mut self.writer { … }`
unfoldable pub with_writer : Action Writer (Unit {0}) → Action Session (Unit {0})
unfolding on_writer
with_writer act s = on_writer s.writer act s

unfoldable pub contains : ℕ → List ℕ → Bool
contains x [] = false
contains x (y ∷ ys) = x == y || contains x ys

unfoldable pub contains_text : Text → List Text → Bool
contains_text x [] = false
contains_text x (y ∷ ys) = bytes_eq x y || contains_text x ys

unfoldable pub record_peer_hash : ℕ → ℕ → ℕ → Action Session (Unit {0})
unfolding with_writer
record_peer_hash tick peer_id hash s =
    with_writer (write_frame (tick_hash tick peer_id hash)) (record s {
      ring = Ring.push s.ring (tick, hash);
      hashes_by_tick = add_report tick (peer_id, hash) s.hashes_by_tick;
    })

unfoldable pub record_peer_entity_hash : ℕ → ℕ → ℕ → ℕ → Action Session (Unit {0})
unfolding with_writer
record_peer_entity_hash tick peer_id entity_id hash =
    with_writer (write_frame (entity_hash tick peer_id entity_id hash))

unfoldable pub record_peer_field_hash : ℕ → ℕ → ℕ → Text → ℕ → List ℕ → Action Session (Unit {0})
unfolding with_writer
record_peer_field_hash tick peer_id entity_id field_name hash value_bytes =
    with_writer (write_frame (field_hash tick peer_id entity_id field_name hash value_bytes))

-- The name goes into the set before the frame is written.
unfoldable pub record_schema : Text → List Text → Action Session (Unit {0})
unfolding with_writer contains_text
record_schema type_name tracked_fields s =
    if contains_text type_name s.written_schemas
    then (ok tt, s)
    else with_writer
        (write_frame (metadata (schema_metadata_key type_name) (fingerprint tracked_fields)))
        (record s { written_schemas = type_name ∷ s.written_schemas })

unfoldable pub take_pending_hashes : Session → List PendingHash × Session
take_pending_hashes s = (s.pending, record s { pending = [] })

unfoldable pub pending_hash_count : Session → ℕ
pending_hash_count s = length s.pending

unfoldable pub take_pending_hashes_up_to : ℕ → Session → List PendingHash × Session
take_pending_hashes_up_to max s =
    let n = min (length s.pending) max in
    (take n s.pending, record s { pending = drop n s.pending })

-- The test of the loop in `check_divergence`.
unfoldable pub is_new_divergence : List ℕ → ℕ → List Report → Bool
unfolding contains
is_new_divergence checked tick reports = not (contains tick checked) && disagree reports

unfoldable pub mark_checked : Option DivergenceTick → Session → Option DivergenceTick × Session
mark_checked none s = (none, s)
mark_checked (some tick) s = (some tick, record s { checked_ticks = tick ∷ s.checked_ticks })

unfoldable pub check_divergence : Session → Option DivergenceTick × Session
unfolding is_new_divergence mark_checked
check_divergence s = mark_checked (first_key (is_new_divergence s.checked_ticks) s.hashes_by_tick) s

unfoldable pub finish : Session → ℕ
finish s = s.cumulative

unfoldable pub finish_recording : Action Session (Unit {0})
unfolding with_writer
finish_recording = with_writer (do write_frame end_of_stream; flush)

unfoldable pub retained_ticks : Session → List (ℕ × ℕ)
retained_ticks s = Ring.iter s.ring

-- `xxh3_64` is the hash function of the crate xxhash-rust.
module _ (xxh3_64 : List ℕ → ℕ) where
  unfoldable pub hash_bytes : List ℕ → ℕ
  hash_bytes bytes = xxh3_64 bytes

  unfoldable pub combine : ℕ → ℕ → ℕ → ℕ
  unfolding hash_bytes
  combine acc tick hash =
      hash_bytes (to_le_bytes 8 acc ++ (to_le_bytes 8 tick ++ to_le_bytes 8 hash))

  -- What `hash_tick` does once its report is recorded.
  unfoldable pub count_tick : ℕ → ℕ → Action Session (Unit {0})
  unfolding combine
  count_tick tick hash s = (
    ok tt,
    record s {
      pending = s.pending ++ (record { tick = tick; hash = hash } ∷ []);
      cumulative = combine s.cumulative tick hash;
    },
  )

  unfoldable pub hash_tick : ℕ → List ℕ → Action Session (Unit {0})
  unfolding hash_bytes record_peer_hash count_tick
  hash_tick tick state_bytes s =
      after (record_peer_hash tick s.local_peer_id (hash_bytes state_bytes) s)
        (λ _. count_tick tick (hash_bytes state_bytes))

  unfoldable pub hash_entity : ℕ → ℕ → List ℕ → Action Session (Unit {0})
  unfolding hash_bytes record_peer_entity_hash
  hash_entity tick entity_id state_bytes s =
      record_peer_entity_hash tick s.local_peer_id entity_id (hash_bytes state_bytes) s

  unfoldable pub hash_field : ℕ → ℕ → Text → List ℕ → Action Session (Unit {0})
  unfolding hash_bytes record_peer_field_hash
  hash_field tick entity_id field_name value_bytes s =
      record_peer_field_hash tick s.local_peer_id entity_id field_name (hash_bytes value_bytes)
        value_bytes s

-- ===== src/Format/Decode.antt =====
-- crates/foldback-core/src/format.rs: the payload cursor, `Cursor`, and `Frame::decode_payload`.
pub mod Reads
pub mod RoundTrip
use foldback.Prelude.{ℕ, ◌+◌, List, ltb, ◌==◌, if◌then◌else◌, length, drop}
use foldback.Prelude.{take as first_n}
use foldback.Prelude.Bytes.{from_le_bytes}
use foldback.Prelude.Utf8.{Text, is_utf8}
use foldback.Error.{Error, malformed_frame, unknown_frame_type, Result, ok, err}
use foldback.Action.{Action, ◌>>=◌, ◌>>◌, pure, fail}
use foldback.Format.Frame.{Frame, tick_hash, entity_hash, field_hash, snapshot, metadata}
use foldback.Format.Frame.{end_of_stream, type_tick_hash, type_entity_hash, type_field_hash}
use foldback.Format.Frame.{type_snapshot, type_metadata, type_end_of_stream}

pub record Cursor : Type 0 where
  pub buf : List ℕ
  pub pos : ℕ

unfoldable pub take : ℕ → Action Cursor (List ℕ)
take n c =
    if ltb (length c.buf) (c.pos + n)
    then (err malformed_frame, c)
    else (ok (first_n n (drop c.pos c.buf)), record c { pos = c.pos + n })

unfoldable pub take_u16 : Action Cursor ℕ
take_u16 = do bs ← take 2; pure (from_le_bytes bs)

unfoldable pub take_u32 : Action Cursor ℕ
take_u32 = do bs ← take 4; pure (from_le_bytes bs)

unfoldable pub take_u64 : Action Cursor ℕ
take_u64 = do bs ← take 8; pure (from_le_bytes bs)

unfoldable pub take_bytes : Action Cursor (List ℕ)
take_bytes = do len ← take_u32; take len

unfoldable pub take_string : Action Cursor Text
take_string = do bytes ← take_bytes; if is_utf8 bytes then pure bytes else fail malformed_frame

unfoldable pub decode_tick_hash : Action Cursor Frame
decode_tick_hash = do
  tick ← take_u64
  peer ← take_u16
  hash ← take_u64
  pure (tick_hash tick peer hash)

unfoldable pub decode_entity_hash : Action Cursor Frame
decode_entity_hash = do
  tick ← take_u64
  peer ← take_u16
  entity ← take_u64
  hash ← take_u64
  pure (entity_hash tick peer entity hash)

unfoldable pub decode_field_hash : Action Cursor Frame
decode_field_hash = do
  tick ← take_u64
  peer ← take_u16
  entity ← take_u64
  name ← take_string
  hash ← take_u64
  value ← take_bytes
  pure (field_hash tick peer entity name hash value)

unfoldable pub decode_snapshot : Action Cursor Frame
decode_snapshot = do
  tick ← take_u64
  peer ← take_u16
  compressed ← take_bytes
  pure (snapshot tick peer compressed)

unfoldable pub decode_metadata : Action Cursor Frame
decode_metadata = do key ← take_string; value ← take_string; pure (metadata key value)

unfoldable pub decode_body : ℕ → Action Cursor Frame
decode_body t =
    if t == type_tick_hash
    then decode_tick_hash
    else if t == type_entity_hash
    then decode_entity_hash
    else if t == type_field_hash
    then decode_field_hash
    else if t == type_snapshot
    then decode_snapshot
    else if t == type_metadata
    then decode_metadata
    else if t == type_end_of_stream
    then pure end_of_stream
    else fail (unknown_frame_type t)

unfoldable pub decode_payload : ℕ → List ℕ → Result Error Frame
unfolding decode_body
decode_payload frame_type payload = (decode_body frame_type (record { buf = payload; pos = 0 })).0

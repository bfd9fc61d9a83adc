-- ===== src/Format/Frame.antt =====
-- crates/foldback-core/src/format.rs: frames and how they are written, `Frame::frame_type`,
-- `encode_payload` and `write_to`.
use foldback.Prelude.{ℕ, ◌%◌, ◌^◌, List, [], ◌∷◌, ◌++◌, length, All}
use foldback.Prelude.Bytes.{to_le_bytes, IsByte, IsU16, IsU32, IsU64}
use foldback.Prelude.Utf8.{Text, IsUtf8}
use foldback.Action.{Action, ◌>>◌}
use foldback.Io.{Writer, write_all}

pub data Frame : Type 0 where
  -- tick, peer_id, hash
  tick_hash : ℕ → ℕ → ℕ → Frame
  -- tick, peer_id, entity_id, hash
  entity_hash : ℕ → ℕ → ℕ → ℕ → Frame
  -- tick, peer_id, entity_id, field_name, hash, value
  field_hash : ℕ → ℕ → ℕ → Text → ℕ → List ℕ → Frame
  -- tick, peer_id, compressed
  snapshot : ℕ → ℕ → List ℕ → Frame
  -- key, value
  metadata : Text → Text → Frame
  end_of_stream : Frame

abbrev pub type_tick_hash : ℕ
type_tick_hash = 0x01

abbrev pub type_entity_hash : ℕ
type_entity_hash = 0x02

abbrev pub type_field_hash : ℕ
type_field_hash = 0x03

abbrev pub type_snapshot : ℕ
type_snapshot = 0x10

abbrev pub type_metadata : ℕ
type_metadata = 0x20

abbrev pub type_end_of_stream : ℕ
type_end_of_stream = 0xff

unfoldable pub frame_type : Frame → ℕ
frame_type (tick_hash _ _ _) = type_tick_hash
frame_type (entity_hash _ _ _ _) = type_entity_hash
frame_type (field_hash _ _ _ _ _ _) = type_field_hash
frame_type (snapshot _ _ _) = type_snapshot
frame_type (metadata _ _) = type_metadata
frame_type end_of_stream = type_end_of_stream

-- `(x.len() as u32).to_le_bytes()`: the cast keeps the low 32 bits.
abbrev pub len_bytes : List ℕ → List ℕ
len_bytes x = to_le_bytes 4 (length x % 2 ^ 32)

unfoldable pub encode_payload : Frame → List ℕ
encode_payload (tick_hash tick peer hash) =
    to_le_bytes 8 tick ++ (to_le_bytes 2 peer ++ to_le_bytes 8 hash)
encode_payload (entity_hash tick peer entity hash) =
    to_le_bytes 8 tick ++ (to_le_bytes 2 peer ++ (to_le_bytes 8 entity ++ to_le_bytes 8 hash))
encode_payload (field_hash tick peer entity name hash value) =
    to_le_bytes 8 tick
    ++ (to_le_bytes 2 peer
        ++ (to_le_bytes 8 entity
            ++ ((len_bytes name ++ name) ++ (to_le_bytes 8 hash ++ (len_bytes value ++ value)))))
encode_payload (snapshot tick peer compressed) =
    to_le_bytes 8 tick ++ (to_le_bytes 2 peer ++ (len_bytes compressed ++ compressed))
encode_payload (metadata key value) = (len_bytes key ++ key) ++ (len_bytes value ++ value)
encode_payload end_of_stream = []

-- `Frame::write_to`: three writes, so that a failure can leave a torn frame.
unfoldable pub write_frame : Frame → Action Writer (Unit {0})
unfolding frame_type encode_payload
write_frame f = do
  write_all (frame_type f ∷ [])
  write_all (len_bytes (encode_payload f))
  write_all (encode_payload f)

-- The bytes of a frame in a file, as three writes that succeed leave them.
unfoldable pub frame_bytes : Frame → List ℕ
unfolding frame_type encode_payload
frame_bytes f = frame_type f ∷ (len_bytes (encode_payload f) ++ encode_payload f)

-- A `Vec<u8>` or slice whose length a u32 holds.
abbrev pub IsBlob : List ℕ → Type 0
IsBlob bs = All IsByte bs × IsU32 (length bs)

-- A `String` of such a length.
abbrev pub IsName : Text → Type 0
IsName s = IsBlob s × IsUtf8 s

-- A frame whose fields fit their machine types.
abbrev pub FieldsFit : Frame → Type 0
FieldsFit (tick_hash tick peer hash) = IsU64 tick × IsU16 peer × IsU64 hash
FieldsFit (entity_hash tick peer entity hash) = IsU64 tick × IsU16 peer × IsU64 entity × IsU64 hash
FieldsFit (field_hash tick peer entity name hash value) =
    IsU64 tick × IsU16 peer × IsU64 entity × IsName name × IsU64 hash × IsBlob value
FieldsFit (snapshot tick peer compressed) = IsU64 tick × IsU16 peer × IsBlob compressed
FieldsFit (metadata key value) = IsName key × IsName value
FieldsFit end_of_stream = Unit

-- A frame that fits the format: its payload's length, too, is a u32.
pub record IsFrame (f : Frame) : Type 0 where
  pub fields : FieldsFit f
  pub short : IsU32 (length (encode_payload f))

-- ===== src/Format/Tests.antt =====
-- A small file: a tick hash, a chunk that only a later version knows, and the end of the stream.
use foldback.Prelude.{
  ℕ, suc, ◌≡◌, ◌<◌, ◌^◌, ◌↔◌, refl, arith, List, [], ◌∷◌, ◌++◌, foldl, length, take, drop, All,
}
use foldback.Prelude.{take-append-drop}
use foldback.Prelude.Bytes.{to_le_bytes}
use foldback.Error.{truncated_header, ok, err}
use foldback.Io.{eof}
use foldback.Format.Header.{Header, header_bytes, read_header}
use foldback.Format.Header.RoundTrip.{IsHeader, read_header-header_bytes, read_header-truncated_iff}
use foldback.Format.Frame.{tick_hash, entity_hash, field_hash, snapshot, metadata, end_of_stream}
use foldback.Format.Frame.{frame_type, encode_payload, IsFrame}
use foldback.Format.Decode.{decode_payload}
use foldback.Format.Decode.RoundTrip.{decode-encode_payload}
use foldback.Format.Stream.{next_frame, for_each_frame}
use foldback.Format.Stream.Passes.{Passes, next_frame-Passes}
use foldback.Format.Stream.Chunks.{reading}
use foldback.Format.Stream.Recovery.{
  Item, known, unknown, IsItem, IsUnknown, stream, complete, frames_of,
}
use foldback.Format.Stream.Recovery.{for_each_frame-cut}

-- 60 ticks a second, two peers.
abbrev pub header : Header
header = record {
  format_version = 1;
  tick_rate_hz = 60;
  peer_count = 2;
  build_id = 1 ∷ 2 ∷ 3 ∷ 4 ∷ 5 ∷ 6 ∷ 7 ∷ 8 ∷ 9 ∷ 10 ∷ 11 ∷ 12 ∷ 13 ∷ 14 ∷ 15 ∷ 16 ∷ [];
}

pub header-IsHeader : IsHeader header
header-IsHeader = record {
  version = omega arith;
  rate = omega arith;
  peers = omega arith;
  build = refl;
}

pub tick_hash-IsFrame :
    (tick peer hash : ℕ)
    → tick < 2 ^ 64
    → peer < 2 ^ 16
    → hash < 2 ^ 64
    → IsFrame (tick_hash tick peer hash)
unfolding encode_payload to_le_bytes
tick_hash-IsFrame tick peer hash t p h = record { fields = (t, p, h); short = omega arith }

pub end_of_stream-IsFrame : IsFrame end_of_stream
unfolding encode_payload
end_of_stream-IsFrame = record { fields = tt; short = omega arith }

abbrev pub items : List Item
items = known (tick_hash 5 1 9) ∷ unknown 0x77 (1 ∷ 2 ∷ 3 ∷ []) ∷ known end_of_stream ∷ []

type_0x77-IsUnknown : IsUnknown 0x77
unfolding frame_type
type_0x77-IsUnknown (tick_hash _ _ _) e = omega (arith, e)
type_0x77-IsUnknown (entity_hash _ _ _ _) e = omega (arith, e)
type_0x77-IsUnknown (field_hash _ _ _ _ _ _) e = omega (arith, e)
type_0x77-IsUnknown (snapshot _ _ _) e = omega (arith, e)
type_0x77-IsUnknown (metadata _ _) e = omega (arith, e)
type_0x77-IsUnknown end_of_stream e = omega (arith, e)

pub items-IsItem : All IsItem items
items-IsItem = (
  tick_hash-IsFrame 5 1 9 (omega arith) (omega arith) (omega arith),
  ((type_0x77-IsUnknown, omega arith), (end_of_stream-IsFrame, tt)),
)

-- The file without its last byte.
abbrev pub front : List ℕ
front = take 35 (stream items)

abbrev pub back : List ℕ
back = drop 35 (stream items)

for_each_frame-cut_example :
    for_each_frame (λ (n : ℕ) f. suc n) 0 (reading front eof)
    ≡ ok (foldl (λ (n : ℕ) f. suc n) 0 (frames_of (complete (length front) items)))
for_each_frame-cut_example =
    for_each_frame-cut (λ (n : ℕ) f. suc n) items 0 front back items-IsItem
      (take-append-drop 35 (stream items))

next_frame-Passes_example :
    Passes (reading (stream items) eof) (next_frame (reading (stream items) eof))
next_frame-Passes_example = next_frame-Passes (reading (stream items) eof)

decode-encode_payload_example :
    decode_payload (frame_type (tick_hash 5 1 9)) (encode_payload (tick_hash 5 1 9) ++ (7 ∷ []))
    ≡ ok (tick_hash 5 1 9)
decode-encode_payload_example =
    decode-encode_payload (tick_hash 5 1 9) (7 ∷ []) (omega arith, omega arith, omega arith)

read_header-header_bytes_example :
    read_header (reading (header_bytes header ++ (1 ∷ [])) eof) ≡ (ok header, reading (1 ∷ []) eof)
read_header-header_bytes_example =
    read_header-header_bytes header (reading (header_bytes header ++ (1 ∷ [])) eof) (1 ∷ [])
      header-IsHeader refl

read_header-truncated_iff_example :
    ((read_header (reading (1 ∷ 2 ∷ []) eof)).0 ≡ err truncated_header) ↔ (2 < 32)
read_header-truncated_iff_example = read_header-truncated_iff (reading (1 ∷ 2 ∷ []) eof)

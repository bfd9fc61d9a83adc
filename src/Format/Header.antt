-- ===== src/Format/Header.antt =====
-- crates/foldback-core/src/format.rs: the file header, `Header::new`, `write_to` and `read_from`.
pub mod RoundTrip
use foldback.Prelude.{ℕ, List, [], ◌∷◌, ◌++◌, if◌then◌else◌, slice}
use foldback.Prelude.Bytes.{to_le_bytes, from_le_bytes, bytes_eq}
use foldback.Error.{IoError, Error, truncated_header, bad_magic, Result, ok, err}
use foldback.Action.{Action}
use foldback.Io.{Reader, Writer, read_exact, write_all}

abbrev pub magic : List ℕ
magic = b'F' ∷ b'B' ∷ b'K' ∷ b'1' ∷ []

abbrev pub format_version : ℕ
format_version = 1

abbrev pub header_len : ℕ
header_len = 32

pub record Header : Type 0 where
  pub format_version : ℕ
  pub tick_rate_hz : ℕ
  pub peer_count : ℕ
  pub build_id : List ℕ

unfoldable pub new : ℕ → ℕ → List ℕ → Header
new tick_rate_hz peer_count build_id = record {
  format_version = format_version;
  tick_rate_hz = tick_rate_hz;
  peer_count = peer_count;
  build_id = build_id;
}

-- The buffer that `Header::write_to` fills; bytes 6 and 7 stay zero.
unfoldable pub header_bytes : Header → List ℕ
header_bytes h =
    magic
    ++ (to_le_bytes 2 h.format_version
        ++ (0 ∷ 0 ∷ (to_le_bytes 4 h.tick_rate_hz ++ (to_le_bytes 4 h.peer_count ++ h.build_id))))

unfoldable pub write_header : Header → Action Writer (Unit {0})
unfolding header_bytes
write_header h = write_all (header_bytes h)

parse_header : List ℕ → Result Error Header
parse_header buf =
    if bytes_eq (slice 0 4 buf) magic
    then ok (record {
      format_version = from_le_bytes (slice 4 6 buf);
      tick_rate_hz = from_le_bytes (slice 8 12 buf);
      peer_count = from_le_bytes (slice 12 16 buf);
      build_id = slice 16 32 buf;
    })
    else err bad_magic

header_read : Result IoError (List ℕ) × Reader → Result Error Header × Reader
unfolding parse_header
header_read (err e, r) = (err truncated_header, r)
header_read (ok buf, r) = (parse_header buf, r)

-- `Header::read_from`: any failure to fill the buffer reads as a truncated header.
unfoldable pub read_header : Action Reader Header
unfolding header_read
read_header r = header_read (read_exact header_len r)

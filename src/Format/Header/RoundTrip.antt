-- ===== src/Format/Header/RoundTrip.antt =====
-- What `Header::read_from` makes of any input, and of what `Header::write_to` wrote.
use foldback.Prelude.{ℕ, ◌<◌, ◌≡◌, ◌≢◌, ◌↔◌, ap, arith, List, ◌++◌}
use foldback.Prelude.{length, take, length-append, take_of_length-le}
use foldback.Prelude.{take-append, drop-append}
use foldback.Prelude.Bytes.{IsU16, IsU32, to_le_bytes, from_le_bytes}
use foldback.Prelude.Bytes.{from-to_le_bytes}
use foldback.Error.{truncated_header, ok, err}
use foldback.Io.{Reader, read_exact}
use foldback.Format.Header.{Header, header_bytes, parse_header}
use foldback.Format.Header.{read_header}

-- A header whose fields fit their machine types.
pub record IsHeader (h : Header) : Type 0 where
  pub version : IsU16 h.format_version
  pub rate : IsU32 h.tick_rate_hz
  pub peers : IsU32 h.peer_count
  pub build : length h.build_id ≡ 16

length-header_bytes : (h : Header) → length h.build_id ≡ 16 → length (header_bytes h) ≡ 32
unfolding header_bytes to_le_bytes
length-header_bytes h e = omega arith

parse_header-header_bytes : (h : Header) → IsHeader h → parse_header (header_bytes h) ≡ ok h
unfolding header_bytes to_le_bytes from_le_bytes parse_header
parse_header-header_bytes h v = λ i. ok (record {
  format_version = from-to_le_bytes 2 h.format_version v.version i;
  tick_rate_hz = from-to_le_bytes 4 h.tick_rate_hz v.rate i;
  peer_count = from-to_le_bytes 4 h.peer_count v.peers i;
  build_id = take_of_length-le 16 h.build_id (omega arith) i;
})

-- `Header::read_from` reads back a header whose fields fit their machine types from the bytes that
-- `write_to` writes, and leaves what follows them.
pub read_header-header_bytes :
    (h : Header) (r : Reader) (rest : List ℕ)
    → IsHeader h
    → r.bytes ≡ header_bytes h ++ rest
    → read_header r ≡ (ok h, record r { bytes = rest })
unfolding read_header read_exact
read_header-header_bytes h r rest v e = ground (
  arith,
  ap length e,
  length-append (header_bytes h) rest,
  length-header_bytes h v.build,
  take-append 32 (header_bytes h) rest,
  drop-append 32 (header_bytes h) rest,
  parse_header-header_bytes h v,
)

parse_header-ne-truncated : (buf : List ℕ) → parse_header buf ≢ err truncated_header
unfolding parse_header
parse_header-ne-truncated buf e = ground arith

-- `Header::read_from` reports a truncated header exactly when fewer than 32 bytes are left.
pub read_header-truncated_iff :
    (r : Reader) → ((read_header r).0 ≡ err truncated_header) ↔ (length r.bytes < 32)
unfolding read_header read_exact
read_header-truncated_iff r =
    (λ e. ground (arith, parse_header-ne-truncated (take 32 r.bytes)), λ h. ground arith)

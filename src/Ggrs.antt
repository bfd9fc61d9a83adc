-- ===== src/Ggrs.antt =====
-- crates/foldback-rs/src/ggrs.rs: GGRS's checksums as Foldback's hashes.
pub mod Desync
mod Tests
use foldback.Prelude.{ℕ, ◌%◌, ◌^◌, List}
use foldback.Action.{Action, ◌>>=◌, ◌>>◌}
use foldback.Session.{Session, hash_bytes, record_peer_hash}

-- The widening to a u128 changes nothing.
module _ (xxh3_64 : List ℕ → ℕ) where
  unfoldable pub checksum : List ℕ → ℕ
  checksum state_bytes = hash_bytes xxh3_64 state_bytes

-- `as u64` keeps the low 64 bits.
unfoldable pub narrow : ℕ → ℕ
narrow ggrs_checksum = ggrs_checksum % 2 ^ 64

unfoldable pub record_desync : ℕ → ℕ → ℕ → ℕ → ℕ → Action Session (Unit {0})
unfolding narrow
record_desync tick local_peer_id remote_peer_id local_checksum remote_checksum = do
  record_peer_hash tick local_peer_id (narrow local_checksum)
  record_peer_hash tick remote_peer_id (narrow remote_checksum)

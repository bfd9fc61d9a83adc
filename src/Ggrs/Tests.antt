-- ===== src/Ggrs/Tests.antt =====
-- A desync at tick 9 in a new session.
use foldback.Prelude.{ℕ, ◌≤◌, ◌≡◌, ◌≢◌, ◌%◌, ◌^◌, ◌+◌, refl, arith, none, some, [], false}
use foldback.Session.{Session, default_builder, build_with, check_divergence, contains}
use foldback.Bisect.{by_tick}
use foldback.Ggrs.{record_desync}
use foldback.Ggrs.Desync.{check_divergence-record_desync}

abbrev fresh : Session
fresh = build_with default_builder none

fresh-writer : fresh.writer ≡ none
unfolding build_with
fresh-writer = refl

fresh-table : fresh.hashes_by_tick ≡ by_tick []
unfolding build_with by_tick
fresh-table = refl

fresh-unchecked : contains 9 fresh.checked_ticks ≡ false
unfolding build_with contains
fresh-unchecked = refl

-- Two checksums that differ in bit 40 alone.
checksums_differ : 3 % 2 ^ 64 ≢ (2 ^ 40 + 3) % 2 ^ 64
checksums_differ e = omega (arith, e)

check_divergence-record_desync_example :
    (u : ℕ) × ((check_divergence (record_desync 9 0 1 3 (2 ^ 40 + 3) fresh).1).0 ≡ some u) × (u ≤ 9)
check_divergence-record_desync_example =
    check_divergence-record_desync fresh [] 9 0 1 3 (2 ^ 40 + 3) fresh-writer fresh-table
      fresh-unchecked checksums_differ

-- ===== src/Session/Builder.antt =====
-- crates/foldback-core/src/session.rs: the setters of `SessionBuilder`, each of which returns the
-- builder that it changed.
use foldback.Prelude.{ℕ, some, List}
use foldback.Prelude.Utf8.{Text}
use foldback.Session.{SessionBuilder}

unfoldable pub tick_rate_hz : ℕ → SessionBuilder → SessionBuilder
tick_rate_hz v b = record b { tick_rate_hz = v }

unfoldable pub peer_count : ℕ → SessionBuilder → SessionBuilder
peer_count v b = record b { peer_count = v }

unfoldable pub local_peer_id : ℕ → SessionBuilder → SessionBuilder
local_peer_id v b = record b { local_peer_id = v }

unfoldable pub retention : ℕ → SessionBuilder → SessionBuilder
retention v b = record b { retention = v }

unfoldable pub build_id : List ℕ → SessionBuilder → SessionBuilder
build_id v b = record b { build_id = v }

unfoldable pub record_to : Text → SessionBuilder → SessionBuilder
record_to path b = record b { record_to = some path }

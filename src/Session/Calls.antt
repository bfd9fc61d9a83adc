-- ===== src/Session/Calls.antt =====
-- Sequences of calls on one session, whatever each returns: what a game does with it over time.
use foldback.Prelude.{ℕ, ◌≡◌, refl, List, [], ◌∷◌, ◌++◌, foldl, none, some, Option}
use foldback.Prelude.Utf8.{Text}
use foldback.Action.{Action}
use foldback.Io.{Writer}
use foldback.Bisect.{TickHashRecord}
use foldback.Session
use foldback.Session.{Session, on_writer, with_writer, count_tick}

pub data Call : Type 0 where
  hash_tick : ℕ → List ℕ → Call
  record_peer_hash : ℕ → ℕ → ℕ → Call
  hash_entity : ℕ → ℕ → List ℕ → Call
  record_peer_entity_hash : ℕ → ℕ → ℕ → ℕ → Call
  hash_field : ℕ → ℕ → Text → List ℕ → Call
  record_peer_field_hash : ℕ → ℕ → ℕ → Text → ℕ → List ℕ → Call
  record_schema : Text → List Text → Call
  take_pending_hashes : Call
  take_pending_hashes_up_to : ℕ → Call
  check_divergence : Call
  finish_recording : Call

-- All of a session but its writer.
pub with_writer_state :
    (act : Action Writer (Unit {0})) (s : Session)
    → (w : Option Writer) × ((with_writer act s).1 ≡ record s { writer = w })
unfolding with_writer on_writer
with_writer_state act s = go s.writer refl
  where
    go :
        (o : Option Writer)
        → s.writer ≡ o
        → (w : Option Writer) × ((on_writer o act s).1 ≡ record s { writer = w })
    go none e = (s.writer, refl)
    go (some v) e = (some (act v).1, refl)

module _ (xxh3_64 : List ℕ → ℕ) where
  -- The session after a call.
  unfoldable pub apply : Session → Call → Session
  apply s (hash_tick tick bytes) = (Session.hash_tick xxh3_64 tick bytes s).1
  apply s (record_peer_hash tick peer hash) = (Session.record_peer_hash tick peer hash s).1
  apply s (hash_entity tick entity bytes) = (Session.hash_entity xxh3_64 tick entity bytes s).1
  apply s (record_peer_entity_hash tick peer entity hash) =
      (Session.record_peer_entity_hash tick peer entity hash s).1
  apply s (hash_field tick entity name value) =
      (Session.hash_field xxh3_64 tick entity name value s).1
  apply s (record_peer_field_hash tick peer entity name hash value) =
      (Session.record_peer_field_hash tick peer entity name hash value s).1
  apply s (record_schema name fields) = (Session.record_schema name fields s).1
  apply s take_pending_hashes = (Session.take_pending_hashes s).1
  apply s (take_pending_hashes_up_to max) = (Session.take_pending_hashes_up_to max s).1
  apply s check_divergence = (Session.check_divergence s).1
  apply s finish_recording = (Session.finish_recording s).1

  unfoldable pub run : Session → List Call → Session
  unfolding apply
  run = foldl apply

  -- The reports that a call adds to the table, for a session of peer `local`.
  abbrev pub reports_of : ℕ → Call → List TickHashRecord
  reports_of local (hash_tick tick bytes) =
      record { tick = tick; peer_id = local; hash = Session.hash_bytes xxh3_64 bytes } ∷ []
  reports_of local (record_peer_hash tick peer hash) =
      record { tick = tick; peer_id = peer; hash = hash } ∷ []
  reports_of local _ = []

  abbrev pub all_reports : ℕ → List Call → List TickHashRecord
  all_reports local [] = []
  all_reports local (c ∷ cs) = reports_of local c ++ all_reports local cs

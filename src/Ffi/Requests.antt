-- ===== src/Ffi/Requests.antt =====
-- Sequences of calls of the C interface on one handle, beside the calls of the session behind it.
use foldback.Prelude.{ℕ, zero, suc, Option, none, some, List, [], ◌∷◌, ◌++◌}
use foldback.Prelude.{foldl}
use foldback.Prelude.Utf8.{Text}
use foldback.Error.{Error}
use foldback.Session.{PendingHash}
use foldback.Session.Calls
use foldback.Session.Calls.{apply, run}
use foldback.Ffi.Codes.{Status}
use foldback.Ffi.{Thread}
use foldback.Ffi.Arguments.{bytes_at, text_at, texts_at}
use foldback.Ffi.Entry
use foldback.Ffi.Entry.{Handle}
use foldback.Ffi.Out.{Found, foldback_take_pending_hashes, foldback_check_divergence}

-- A call that can change the session, with the caller's memory at its pointers.
pub data Request : Type 0 where
  hash_tick : ℕ → Option (List ℕ) → ℕ → Request
  record_peer_hash : ℕ → ℕ → ℕ → Request
  hash_entity : ℕ → ℕ → Option (List ℕ) → ℕ → Request
  record_peer_entity_hash : ℕ → ℕ → ℕ → ℕ → Request
  hash_field : ℕ → ℕ → Option (List ℕ) → Option (List ℕ) → ℕ → Request
  record_peer_field_hash : ℕ → ℕ → ℕ → Option (List ℕ) → ℕ → Option (List ℕ) → ℕ → Request
  record_schema : Option (List ℕ) → Option (List (Option (List ℕ))) → ℕ → Request
  finish_recording : Request
  take_pending_hashes : Option (List PendingHash) → ℕ → Request
  check_divergence : Found → Request

-- The thread after a call that also works on the caller's memory.
abbrev keep_handle : {M : Type 0} → Thread (Handle × M) → Thread Handle
keep_handle t = record { memory = t.memory.0; last_error = t.last_error }

-- The calls of the session behind a good argument, and none behind a bad one.
abbrev pub behind : {A : Type 0} → Option A → (A → List Calls.Call) → List Calls.Call
behind (some a) f = f a
behind none f = []

-- The calls of the session that a call stands for.
abbrev pub calls_of : Request → List Calls.Call
calls_of (hash_tick tick state len) =
    behind (bytes_at state len) (λ bytes. Calls.Call.hash_tick tick bytes ∷ [])
calls_of (record_peer_hash tick peer hash) = Calls.Call.record_peer_hash tick peer hash ∷ []
calls_of (hash_entity tick entity state len) =
    behind (bytes_at state len) (λ bytes. Calls.Call.hash_entity tick entity bytes ∷ [])
calls_of (record_peer_entity_hash tick peer entity hash) =
    Calls.Call.record_peer_entity_hash tick peer entity hash ∷ []
calls_of (hash_field tick entity name value len) =
    behind (text_at name)
      (λ n. behind (bytes_at value len) (λ bytes. Calls.Call.hash_field tick entity n bytes ∷ []))
calls_of (record_peer_field_hash tick peer entity name hash value len) = behind (text_at name) (λ n.
    behind (bytes_at value len)
      (λ bytes. Calls.Call.record_peer_field_hash tick peer entity n hash bytes ∷ []))
calls_of (record_schema name fields count) =
    behind (text_at name)
      (λ n. behind (texts_at fields count) (λ fs. Calls.Call.record_schema n fs ∷ []))
calls_of finish_recording = Calls.Call.finish_recording ∷ []
calls_of (take_pending_hashes none zero) = Calls.Call.take_pending_hashes_up_to 0 ∷ []
calls_of (take_pending_hashes none (suc capacity)) = []
calls_of (take_pending_hashes (some out) capacity) =
    Calls.Call.take_pending_hashes_up_to capacity ∷ []
calls_of (check_divergence f) =
    behind f.out_found (λ _. behind f.out_tick (λ _. Calls.Call.check_divergence ∷ []))

abbrev pub all_calls : List Request → List Calls.Call
all_calls [] = []
all_calls (q ∷ qs) = calls_of q ++ all_calls qs

module _ (xxh3_64 : List ℕ → ℕ) (display : Error → Text) (utf8_error : List ℕ → Text) where
  -- The thread after a call.
  unfoldable pub perform : Thread Handle → Request → Thread Handle
  perform t (hash_tick tick state len) =
      (Entry.foldback_hash_tick xxh3_64 display utf8_error tick state len t).1
  perform t (record_peer_hash tick peer hash) =
      (Entry.foldback_record_peer_hash xxh3_64 display utf8_error tick peer hash t).1
  perform t (hash_entity tick entity state len) =
      (Entry.foldback_hash_entity xxh3_64 display utf8_error tick entity state len t).1
  perform t (record_peer_entity_hash tick peer entity hash) =
      (Entry.foldback_record_peer_entity_hash xxh3_64 display utf8_error tick peer entity hash t).1
  perform t (hash_field tick entity name value len) =
      (Entry.foldback_hash_field xxh3_64 display utf8_error tick entity name value len t).1
  perform t (record_peer_field_hash tick peer entity name hash value len) =
      (Entry.foldback_record_peer_field_hash xxh3_64 display utf8_error tick peer entity name hash
        value len t).1
  perform t (record_schema name fields count) =
      (Entry.foldback_record_schema xxh3_64 display utf8_error name fields count t).1
  perform t finish_recording = (Entry.foldback_finish_recording xxh3_64 display utf8_error t).1
  perform t (take_pending_hashes out capacity) =
      keep_handle
        (foldback_take_pending_hashes capacity
          (record { memory = (t.memory, out); last_error = t.last_error })).1
  perform t (check_divergence f) =
      keep_handle
        (foldback_check_divergence (record { memory = (t.memory, f); last_error = t.last_error })).1

  -- The status that a call returns; taking hashes returns a count.
  unfoldable pub status_of : Thread Handle → Request → Option Status
  status_of t (hash_tick tick state len) =
      some (Entry.foldback_hash_tick xxh3_64 display utf8_error tick state len t).0
  status_of t (record_peer_hash tick peer hash) =
      some (Entry.foldback_record_peer_hash xxh3_64 display utf8_error tick peer hash t).0
  status_of t (hash_entity tick entity state len) =
      some (Entry.foldback_hash_entity xxh3_64 display utf8_error tick entity state len t).0
  status_of t (record_peer_entity_hash tick peer entity hash) =
      some
        (Entry.foldback_record_peer_entity_hash xxh3_64 display utf8_error tick peer entity hash
          t).0
  status_of t (hash_field tick entity name value len) =
      some (Entry.foldback_hash_field xxh3_64 display utf8_error tick entity name value len t).0
  status_of t (record_peer_field_hash tick peer entity name hash value len) =
      some
        (Entry.foldback_record_peer_field_hash xxh3_64 display utf8_error tick peer entity name hash
          value len t).0
  status_of t (record_schema name fields count) =
      some (Entry.foldback_record_schema xxh3_64 display utf8_error name fields count t).0
  status_of t finish_recording =
      some (Entry.foldback_finish_recording xxh3_64 display utf8_error t).0
  status_of t (take_pending_hashes out capacity) = none
  status_of t (check_divergence f) =
      some
        (foldback_check_divergence (record { memory = (t.memory, f); last_error = t.last_error })).0

  abbrev pub perform_all : Thread Handle → List Request → Thread Handle
  perform_all = foldl perform

-- ===== src/Ffi/Entry.antt =====
-- crates/foldback-sys/src/lib.rs: the entry points that take a session and numbers, texts or bytes.
use foldback.Prelude.{ℕ, Option, none, some, List, [], ◌∷◌}
use foldback.Prelude.{◌==◌, if◌then◌else◌, take}
use foldback.Prelude.Utf8.{Text, ascii}
use foldback.Error.{Error, Result, ok, err}
use foldback.Session
use foldback.Session.{Session, SessionBuilder, PendingHash, default_builder, build}
use foldback.Ffi.Codes.{Status}
use foldback.Ffi.{Thread, run_catching, as_session_mut}
use foldback.Ffi.{as_session_ref, with_arg, str_from_raw, bytes_from_raw, finish_with}

-- A handle: null, or the session behind it.
abbrev pub Handle : Type 0
Handle = Option Session

abbrev pub Call : Type 0 → Type 0
Call T = Thread Handle → T × Thread Handle

module _ (utf8_error : List ℕ → Text) where
  -- The names of a type's fields: a null array is refused where a count was given.
  unfoldable pub field_entries : List (Option (List ℕ)) → Result Text (List Text)
  field_entries [] = ok []
  field_entries (p ∷ ps) = elim (str_from_raw utf8_error p (ascii "field_names entry")) [
    | ok name ↦ elim (field_entries ps) [ ok names ↦ ok (name ∷ names) | err msg ↦ err msg ]
    | err msg ↦ err msg
  ]

  unfoldable pub field_names_from_raw :
      Option (List (Option (List ℕ))) → ℕ → Result Text (List Text)
  unfolding field_entries
  field_names_from_raw none count =
      if count == 0 then ok [] else err (ascii "field_names was null but field_count was nonzero")
  field_names_from_raw (some ps) count = field_entries (take count ps)

module _ (xxh3_64 : List ℕ → ℕ) (display : Error → Text) (utf8_error : List ℕ → Text) where
  unfoldable pub foldback_hash_tick : ℕ → Option (List ℕ) → ℕ → Call Status
  foldback_hash_tick tick state len = run_catching Status.panic (
      as_session_mut (
        with_arg (bytes_from_raw state len) (λ bytes s.
          finish_with display (ascii "hash_tick") (Session.hash_tick xxh3_64 tick bytes s))))

  unfoldable pub foldback_record_peer_hash : ℕ → ℕ → ℕ → Call Status
  foldback_record_peer_hash tick peer_id hash = run_catching Status.panic (
      as_session_mut (λ s.
        finish_with display (ascii "record_peer_hash")
          (Session.record_peer_hash tick peer_id hash s)))

  unfoldable pub foldback_hash_entity : ℕ → ℕ → Option (List ℕ) → ℕ → Call Status
  foldback_hash_entity tick entity_id state len = run_catching Status.panic (
      as_session_mut (
        with_arg (bytes_from_raw state len) (λ bytes s.
          finish_with display (ascii "hash_entity")
            (Session.hash_entity xxh3_64 tick entity_id bytes s))))

  unfoldable pub foldback_record_peer_entity_hash : ℕ → ℕ → ℕ → ℕ → Call Status
  foldback_record_peer_entity_hash tick peer_id entity_id hash = run_catching Status.panic (
      as_session_mut (λ s.
        finish_with display (ascii "record_peer_entity_hash")
          (Session.record_peer_entity_hash tick peer_id entity_id hash s)))

  unfoldable pub foldback_hash_field : ℕ → ℕ → Option (List ℕ) → Option (List ℕ) → ℕ → Call Status
  foldback_hash_field tick entity_id field_name value value_len = run_catching Status.panic (
      as_session_mut (
        with_arg (str_from_raw utf8_error field_name (ascii "field_name")) (λ name.
          with_arg (bytes_from_raw value value_len) (λ bytes s.
            finish_with display (ascii "hash_field")
              (Session.hash_field xxh3_64 tick entity_id name bytes s)))))

  unfoldable pub foldback_record_peer_field_hash :
      ℕ → ℕ → ℕ → Option (List ℕ) → ℕ → Option (List ℕ) → ℕ → Call Status
  foldback_record_peer_field_hash tick peer_id entity_id field_name hash value value_len =
      run_catching Status.panic (
        as_session_mut (
          with_arg (str_from_raw utf8_error field_name (ascii "field_name")) (λ name.
            with_arg (bytes_from_raw value value_len) (λ bytes s.
              finish_with display (ascii "record_peer_field_hash")
                (Session.record_peer_field_hash tick peer_id entity_id name hash bytes s)))))

  unfoldable pub foldback_record_schema :
      Option (List ℕ) → Option (List (Option (List ℕ))) → ℕ → Call Status
  foldback_record_schema type_name field_names field_count = run_catching Status.panic (
      as_session_mut (
        with_arg (str_from_raw utf8_error type_name (ascii "type_name")) (λ name.
          with_arg (field_names_from_raw utf8_error field_names field_count) (λ fields s.
            finish_with display (ascii "record_schema") (Session.record_schema name fields s)))))

  unfoldable pub foldback_finish_recording : Call Status
  foldback_finish_recording = run_catching Status.panic (
      as_session_mut
        (λ s. finish_with display (ascii "finish_recording") (Session.finish_recording s)))

unfoldable pub foldback_pending_hash_count : Call ℕ
foldback_pending_hash_count = run_catching 0 (as_session_ref Session.pending_hash_count)

unfoldable pub foldback_finish : Call ℕ
foldback_finish = run_catching 0 (as_session_ref Session.finish)

unfoldable pub foldback_tick_rate_hz : Call ℕ
foldback_tick_rate_hz = run_catching 0 (as_session_ref (λ s. s.tick_rate_hz))

unfoldable pub foldback_peer_count : Call ℕ
foldback_peer_count = run_catching 0 (as_session_ref (λ s. s.peer_count))

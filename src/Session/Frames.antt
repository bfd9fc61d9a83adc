-- ===== src/Session/Frames.antt =====
-- The file that a session records, when no write fails, and what reading it back gives.
use foldback.Prelude.{ℕ, ◌≡◌, refl, sym, ap, ◌∙◌, Bool, true, false}
use foldback.Prelude.{Option, none, some, List, [], ◌∷◌, ◌++◌, map, inl, inr, Bool-cases}
use foldback.Prelude.{append-nil, append_assoc}
use foldback.Prelude.Utf8.{Text}
use foldback.Prelude.Order.{nat_ord}
use foldback.Prelude.OrdMap.{first_key}
use foldback.Error.{Error, Result, ok, err}
use foldback.Action.{Action, after, ◌>>◌, bind_ok}
use foldback.Io.{Writer, vec, flush, write_all, write_plan}
use foldback.Format.Frame.{
  Frame, write_frame, frame_bytes, metadata, tick_hash, entity_hash, field_hash,
}
use foldback.Format.Frame.{end_of_stream, frame_type, encode_payload, len_bytes}
use foldback.Format.Stream.Recovery.{known, stream}
use foldback.Schema.{schema_metadata_key, fingerprint}
use foldback.Bisect.{add_report}
use foldback.Ring
use foldback.Session
use foldback.Session.{
  Session, SessionBuilder, with_writer, on_writer, contains_text, is_new_divergence, mark_checked,
}
use foldback.Session.{
  record_schema, record_peer_hash, record_peer_entity_hash, record_peer_field_hash, count_tick,
}
use foldback.Session.{
  finish_recording, check_divergence, take_pending_hashes, take_pending_hashes_up_to, build_with,
}
use foldback.Session.Calls.{Call, apply, run}

-- The bytes of frames, one behind the other.
abbrev pub file_bytes : List Frame → List ℕ
file_bytes fs = stream (map known fs)

pub write_frame-vec :
    (f : Frame) (bs : List ℕ) → write_frame f (vec bs) ≡ (ok tt, vec (bs ++ file_bytes (f ∷ [])))
unfolding write_frame write_all write_plan frame_bytes
write_frame-vec f bs =
    ap (λ x. (ok tt, vec x))
      (append_assoc (bs ++ (frame_type f ∷ [])) (len_bytes (encode_payload f)) (encode_payload f)
        ∙ append_assoc bs (frame_type f ∷ []) (len_bytes (encode_payload f) ++ encode_payload f)
        ∙ ap (λ x. bs ++ x) (sym (append-nil (frame_bytes f))))

-- A session whose file holds the bytes `bs` and takes every further write.
abbrev pub HasFile : List ℕ → Session → Type 0
HasFile bs s = s.writer ≡ some (vec bs)

with_writer-HasFile :
    (act : Action Writer (Unit {0})) (s : Session) (bs cs : List ℕ)
    → HasFile bs s
    → act (vec bs) ≡ (ok tt, vec cs)
    → HasFile cs (with_writer act s).1
unfolding with_writer on_writer
with_writer-HasFile act s bs cs h e =
    ap (λ o. (on_writer o act s).1.writer) h ∙ ap (λ x. some x.1) e

-- A frame that such a session writes: the call succeeds, and only the file differs.
pub with_writer-frame :
    (f : Frame) (s : Session) (bs : List ℕ)
    → HasFile bs s
    → with_writer (write_frame f) s
      ≡ (ok tt, record s { writer = some (vec (bs ++ file_bytes (f ∷ []))) })
unfolding with_writer on_writer
with_writer-frame f s bs h =
    ap (λ o. on_writer o (write_frame f) s) h
    ∙ ap (λ (x : Result Error (Unit {0}) × Writer). (x.0, record s { writer = some x.1 }))
        (write_frame-vec f bs)

frame-HasFile :
    (f : Frame) (s : Session) (bs : List ℕ)
    → HasFile bs s
    → HasFile (bs ++ file_bytes (f ∷ [])) (with_writer (write_frame f) s).1
frame-HasFile f s bs h =
    with_writer-HasFile (write_frame f) s bs (bs ++ file_bytes (f ∷ [])) h (write_frame-vec f bs)

count_tick-writer :
    (xxh3_64 : List ℕ → ℕ) (tick hash : ℕ) (x : Result Error (Unit {0}) × Session)
    → (after x (λ _. count_tick xxh3_64 tick hash)).1.writer ≡ x.1.writer
unfolding count_tick
count_tick-writer xxh3_64 tick hash (ok a, s) = refl
count_tick-writer xxh3_64 tick hash (err e, s) = refl

mark_checked-writer : (o : Option ℕ) (s : Session) → (mark_checked o s).1.writer ≡ s.writer
unfolding mark_checked
mark_checked-writer none s = refl
mark_checked-writer (some t) s = refl

-- A schema is recorded once for each type name.
abbrev pub schema_frames : Bool → Text → List Text → List Frame
schema_frames true name fields = []
schema_frames false name fields = metadata (schema_metadata_key name) (fingerprint fields) ∷ []

record_schema-HasFile :
    (name : Text) (fields : List Text) (s : Session) (bs : List ℕ)
    → HasFile bs s
    → HasFile
        (bs ++ file_bytes (schema_frames (contains_text name s.written_schemas) name fields))
        (record_schema name fields s).1
unfolding record_schema
record_schema-HasFile name fields s bs h =
    elim (Bool-cases (contains_text name s.written_schemas)) [
      | inl e ↦ rw (e, record_schema, append-nil) h
      | inr e ↦
          rw (e, record_schema)
            (frame-HasFile (metadata (schema_metadata_key name) (fingerprint fields))
              (record s { written_schemas = name ∷ s.written_schemas }) bs h)
    ]

record_peer_hash-HasFile :
    (tick peer hash : ℕ) (s : Session) (bs : List ℕ)
    → HasFile bs s
    → HasFile
        (bs ++ file_bytes (tick_hash tick peer hash ∷ []))
        (record_peer_hash tick peer hash s).1
unfolding record_peer_hash
record_peer_hash-HasFile tick peer hash s bs h =
    frame-HasFile (tick_hash tick peer hash)
      (record s {
        ring = Ring.push s.ring (tick, hash);
        hashes_by_tick = add_report tick (peer, hash) s.hashes_by_tick;
      })
      bs h

finish-vec :
    (bs : List ℕ)
    → (do write_frame end_of_stream; flush) (vec bs)
      ≡ (ok tt, vec (bs ++ file_bytes (end_of_stream ∷ [])))
unfolding flush write_all write_plan
finish-vec bs =
    bind_ok (write_frame end_of_stream) (λ _. flush) (write_frame-vec end_of_stream bs)
    ∙ ap (λ x. (ok tt, vec x)) (append-nil (bs ++ file_bytes (end_of_stream ∷ [])))

pub file_bytes-append :
    (fs gs : List Frame) → file_bytes (fs ++ gs) ≡ file_bytes fs ++ file_bytes gs
file_bytes-append [] gs = refl
file_bytes-append (f ∷ fs) gs =
    ap (λ x. frame_bytes f ++ x) (file_bytes-append fs gs)
    ∙ sym (append_assoc (frame_bytes f) (file_bytes fs) (file_bytes gs))

module _ (xxh3_64 : List ℕ → ℕ) where
  -- The frames that a call hands to the file.
  abbrev pub call_frames : Session → Call → List Frame
  call_frames s (Call.hash_tick tick bytes) =
      tick_hash tick s.local_peer_id (Session.hash_bytes xxh3_64 bytes) ∷ []
  call_frames s (Call.record_peer_hash tick peer hash) = tick_hash tick peer hash ∷ []
  call_frames s (Call.hash_entity tick entity bytes) =
      entity_hash tick s.local_peer_id entity (Session.hash_bytes xxh3_64 bytes) ∷ []
  call_frames s (Call.record_peer_entity_hash tick peer entity hash) =
      entity_hash tick peer entity hash ∷ []
  call_frames s (Call.hash_field tick entity name value) =
      field_hash tick s.local_peer_id entity name (Session.hash_bytes xxh3_64 value) value ∷ []
  call_frames s (Call.record_peer_field_hash tick peer entity name hash value) =
      field_hash tick peer entity name hash value ∷ []
  call_frames s (Call.record_schema name fields) =
      schema_frames (contains_text name s.written_schemas) name fields
  call_frames s Call.finish_recording = end_of_stream ∷ []
  call_frames s _ = []

  abbrev pub all_frames : Session → List Call → List Frame
  all_frames s [] = []
  all_frames s (c ∷ cs) = call_frames s c ++ all_frames (apply xxh3_64 s c) cs

  apply-HasFile :
      (s : Session) (c : Call) (bs : List ℕ)
      → HasFile bs s
      → HasFile (bs ++ file_bytes (call_frames s c)) (apply xxh3_64 s c)
  unfolding apply Session.hash_tick Session.hash_entity Session.hash_field record_peer_hash
      record_peer_entity_hash record_peer_field_hash take_pending_hashes take_pending_hashes_up_to
      finish_recording check_divergence
  apply-HasFile s (Call.hash_tick tick bytes) bs h =
      count_tick-writer xxh3_64 tick (Session.hash_bytes xxh3_64 bytes)
        (record_peer_hash tick s.local_peer_id (Session.hash_bytes xxh3_64 bytes) s)
      ∙ record_peer_hash-HasFile tick s.local_peer_id (Session.hash_bytes xxh3_64 bytes) s bs h
  apply-HasFile s (Call.record_peer_hash tick peer hash) bs h =
      record_peer_hash-HasFile tick peer hash s bs h
  apply-HasFile s (Call.record_schema name fields) bs h = record_schema-HasFile name fields s bs h
  apply-HasFile s Call.check_divergence bs h =
      mark_checked-writer (first_key (is_new_divergence s.checked_ticks) s.hashes_by_tick) s
      ∙ h
      ∙ ap (λ x. some (vec x)) (sym (append-nil bs))
  apply-HasFile s (Call.hash_entity tick entity bytes) bs h =
      frame-HasFile (entity_hash tick s.local_peer_id entity (Session.hash_bytes xxh3_64 bytes)) s
        bs h
  apply-HasFile s (Call.record_peer_entity_hash tick peer entity hash) bs h =
      frame-HasFile (entity_hash tick peer entity hash) s bs h
  apply-HasFile s (Call.hash_field tick entity name value) bs h =
      frame-HasFile
        (field_hash tick s.local_peer_id entity name (Session.hash_bytes xxh3_64 value) value) s bs
        h
  apply-HasFile s (Call.record_peer_field_hash tick peer entity name hash value) bs h =
      frame-HasFile (field_hash tick peer entity name hash value) s bs h
  apply-HasFile s Call.take_pending_hashes bs h = h ∙ ap (λ x. some (vec x)) (sym (append-nil bs))
  apply-HasFile s (Call.take_pending_hashes_up_to max) bs h =
      h ∙ ap (λ x. some (vec x)) (sym (append-nil bs))
  apply-HasFile s Call.finish_recording bs h =
      with_writer-HasFile (do write_frame end_of_stream; flush) s bs
        (bs ++ file_bytes (end_of_stream ∷ [])) h (finish-vec bs)

  pub run-HasFile :
      (s : Session) (cs : List Call) (bs : List ℕ)
      → HasFile bs s
      → HasFile (bs ++ file_bytes (all_frames s cs)) (run xxh3_64 s cs)
  unfolding run
  run-HasFile s [] bs h = rw append-nil h
  run-HasFile s (c ∷ cs) bs h =
      run-HasFile (apply xxh3_64 s c) cs (bs ++ file_bytes (call_frames s c))
        (apply-HasFile s c bs h)
      ∙ ap (λ x. some (vec x))
          (append_assoc bs (file_bytes (call_frames s c))
              (file_bytes (all_frames (apply xxh3_64 s c) cs))
            ∙ ap (λ x. bs ++ x)
                (sym (file_bytes-append (call_frames s c) (all_frames (apply xxh3_64 s c) cs))))

-- ===== src/Session/Once.antt =====
-- What calls do to the ticks that `Session::check_divergence` has returned.
use foldback.Prelude.{ℕ, ◌≡◌, sym, ap, ◌∙◌, arith, true, false, not, ◌&&◌}
use foldback.Prelude.{Option, none, some, List, [], ◌∷◌, inl, inr, Bool-cases}
use foldback.Prelude.Utf8.{Text}
use foldback.Prelude.Order.{nat_ord}
use foldback.Prelude.OrdMap.{first_key, first_key_mem}
use foldback.Error.{Error, Result, ok, err}
use foldback.Action.{Action, after, ◌>>◌}
use foldback.Io.{Writer, flush}
use foldback.Format.Frame.{write_frame, metadata, tick_hash, entity_hash, field_hash, end_of_stream}
use foldback.Schema.{schema_metadata_key, fingerprint}
use foldback.Bisect.{disagree, add_report}
use foldback.Ring
use foldback.Session
use foldback.Session.{
  Session, with_writer, contains, contains_text, is_new_divergence, mark_checked, check_divergence,
}
use foldback.Session.{
  record_schema, record_peer_hash, record_peer_entity_hash, record_peer_field_hash, count_tick,
  finish_recording,
}
use foldback.Session.{take_pending_hashes, take_pending_hashes_up_to}
use foldback.Session.Divergence.{mark_checked-result}
use foldback.Session.Calls.{Call, with_writer_state, apply, run}

-- An earlier check returned the tick.
abbrev IsChecked : ℕ → Session → Type 0
IsChecked t s = contains t s.checked_ticks ≡ true

mark_checked-ticks :
    (o : Option ℕ) (s : Session) (t : ℕ)
    → (mark_checked o s).0 ≡ some t
    → contains t (mark_checked o s).1.checked_ticks ≡ true
unfolding contains mark_checked
mark_checked-ticks none s t e = cc
mark_checked-ticks (some u) s t e = ground (arith, e)

mark_checked-keeps :
    (o : Option ℕ) (s : Session) (t : ℕ) → IsChecked t s → IsChecked t (mark_checked o s).1
unfolding mark_checked contains
mark_checked-keeps none s t h = h
mark_checked-keeps (some u) s t h = ground (arith, h)

with_writer-keeps :
    (act : Action Writer (Unit {0})) (s : Session) (t : ℕ)
    → IsChecked t s
    → IsChecked t (with_writer act s).1
with_writer-keeps act s t h = let (w, e) = with_writer_state act s in rw e h

record_schema-keeps :
    (name : Text) (fields : List Text) (s : Session) (t : ℕ)
    → IsChecked t s
    → IsChecked t (record_schema name fields s).1
unfolding record_schema
record_schema-keeps name fields s t h = elim (Bool-cases (contains_text name s.written_schemas)) [
  | inl e ↦ rw (e, record_schema) h
  | inr e ↦
      rw (e, record_schema)
        (with_writer-keeps (write_frame (metadata (schema_metadata_key name) (fingerprint fields)))
          (record s { written_schemas = name ∷ s.written_schemas }) t h)
]

record_peer_hash-keeps :
    (tick peer hash : ℕ) (s : Session) (t : ℕ)
    → IsChecked t s
    → IsChecked t (record_peer_hash tick peer hash s).1
unfolding record_peer_hash
record_peer_hash-keeps tick peer hash s t h =
    with_writer-keeps (write_frame (tick_hash tick peer hash))
      (record s {
        ring = Ring.push s.ring (tick, hash);
        hashes_by_tick = add_report tick (peer, hash) s.hashes_by_tick;
      })
      t h

count_tick-keeps :
    (xxh3_64 : List ℕ → ℕ) (tick hash : ℕ) (x : Result Error (Unit {0}) × Session) (t : ℕ)
    → IsChecked t x.1
    → IsChecked t (after x (λ _. count_tick xxh3_64 tick hash)).1
unfolding count_tick
count_tick-keeps xxh3_64 tick hash (err e, s) t h = h
count_tick-keeps xxh3_64 tick hash (ok a, s) t h = h

module _ (xxh3_64 : List ℕ → ℕ) where
  apply-keeps : (s : Session) (c : Call) (t : ℕ) → IsChecked t s → IsChecked t (apply xxh3_64 s c)
  unfolding apply Session.hash_tick Session.hash_entity Session.hash_field record_peer_entity_hash
      record_peer_field_hash take_pending_hashes take_pending_hashes_up_to finish_recording
      check_divergence
  apply-keeps s (Call.hash_tick tick bytes) t h =
      count_tick-keeps xxh3_64 tick (Session.hash_bytes xxh3_64 bytes)
        (record_peer_hash tick s.local_peer_id (Session.hash_bytes xxh3_64 bytes) s) t
        (record_peer_hash-keeps tick s.local_peer_id (Session.hash_bytes xxh3_64 bytes) s t h)
  apply-keeps s (Call.record_peer_hash tick peer hash) t h =
      record_peer_hash-keeps tick peer hash s t h
  apply-keeps s (Call.record_schema name fields) t h = record_schema-keeps name fields s t h
  apply-keeps s Call.check_divergence t h =
      mark_checked-keeps (first_key (is_new_divergence s.checked_ticks) s.hashes_by_tick) s t h
  apply-keeps s (Call.hash_entity tick entity bytes) t h =
      with_writer-keeps
        (write_frame (entity_hash tick s.local_peer_id entity (Session.hash_bytes xxh3_64 bytes))) s
        t h
  apply-keeps s (Call.record_peer_entity_hash tick peer entity hash) t h =
      with_writer-keeps (write_frame (entity_hash tick peer entity hash)) s t h
  apply-keeps s (Call.hash_field tick entity name value) t h =
      with_writer-keeps
        (write_frame
          (field_hash tick s.local_peer_id entity name (Session.hash_bytes xxh3_64 value) value))
        s t h
  apply-keeps s (Call.record_peer_field_hash tick peer entity name hash value) t h =
      with_writer-keeps (write_frame (field_hash tick peer entity name hash value)) s t h
  apply-keeps s Call.take_pending_hashes t h = h
  apply-keeps s (Call.take_pending_hashes_up_to max) t h = h
  apply-keeps s Call.finish_recording t h =
      with_writer-keeps (do write_frame end_of_stream; flush) s t h

  run-keeps :
      (s : Session) (cs : List Call) (t : ℕ) → IsChecked t s → IsChecked t (run xxh3_64 s cs)
  unfolding run
  run-keeps s [] t h = h
  run-keeps s (c ∷ cs) t h = run-keeps (apply xxh3_64 s c) cs t (apply-keeps s c t h)

  returned-unchecked :
      (s : Session) (t : ℕ) → (check_divergence s).0 ≡ some t → contains t s.checked_ticks ≡ false
  unfolding check_divergence is_new_divergence
  returned-unchecked s t e =
      let (v, m, p) = first_key_mem (is_new_divergence s.checked_ticks) t s.hashes_by_tick (
        sym (mark_checked-result (first_key (is_new_divergence s.checked_ticks) s.hashes_by_tick) s)
        ∙ e) in
      elim (Bool-cases (contains t s.checked_ticks)) [
        | inl c ↦ absurd (cc (p, ap (λ b. not b && disagree v) c))
        | inr c ↦ c
      ]

  -- Once `check_divergence` has returned a tick, it does not return it again, whatever calls,
  -- further checks among them, are made in between.
  pub check_divergence-once :
      (s : Session) (cs : List Call) (t : ℕ)
      → (check_divergence s).0 ≡ some t
      → ¬ ((check_divergence (run xxh3_64 (check_divergence s).1 cs)).0 ≡ some t)
  unfolding check_divergence
  check_divergence-once s cs t e again = cc (
    run-keeps (check_divergence s).1 cs t
        (mark_checked-ticks (first_key (is_new_divergence s.checked_ticks) s.hashes_by_tick) s t e),
    returned-unchecked (run xxh3_64 (check_divergence s).1 cs) t again,
  )

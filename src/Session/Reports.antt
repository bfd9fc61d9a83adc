-- ===== src/Session/Reports.antt =====
-- The in-memory side of a session, whatever its file does: the reports of its calls.
use foldback.Prelude.{
  ℕ, ◌≡◌, refl, sym, ap, ◌∙◌, List, [], ◌∷◌, ◌++◌, map, subst, append-nil, append_assoc,
}
use foldback.Prelude.{Bool-cases, inl, inr, Option, none, some}
use foldback.Prelude.OrdMap.{first_key}
use foldback.Prelude.Order.{nat_ord}
use foldback.Format.Frame.{write_frame, metadata, tick_hash}
use foldback.Schema.{schema_metadata_key, fingerprint}
use foldback.Prelude.Utf8.{Text}
use foldback.Error.{Error, Result, ok, err}
use foldback.Action.{Action, after}
use foldback.Io.{Writer}
use foldback.Bisect.{TickHashRecord, add_report, by_tick}
use foldback.Ring
use foldback.Ring.{RingBuffer}
use foldback.Ring.Window.{push_all, last_n}
use foldback.Session
use foldback.Session.{Session, SessionBuilder, with_writer, count_tick, contains_text, mark_checked}
use foldback.Bisect.Reports.{by_tick-snoc}
use foldback.Ring.Window.{push_all-snoc, iter-push_all}
use foldback.Io.{flush}
use foldback.Action.{◌>>◌}
use mathlib.Core.List.{map-append}
use foldback.Format.Frame.{entity_hash, field_hash, end_of_stream}
use foldback.Session.{
  record_peer_entity_hash, record_peer_field_hash, build_with, retained_ticks, take_pending_hashes,
  take_pending_hashes_up_to, finish_recording,
}
use foldback.Session.{record_schema, record_peer_hash, check_divergence, is_new_divergence}
use foldback.Session.Calls.{Call, with_writer_state, apply, run, reports_of, all_reports}

-- What the retention window keeps of a report.
abbrev pub pair_of : TickHashRecord → ℕ × ℕ
pair_of r = (r.tick, r.hash)

-- What the memory of a session holds of the reports `rs`, made by peer `local`.
pub record Remembers (local retention : ℕ) (rs : List TickHashRecord) (s : Session) : Type 0 where
  pub peer : s.local_peer_id ≡ local
  pub table : s.hashes_by_tick ≡ by_tick rs
  pub window : s.ring ≡ push_all (Ring.new retention) (map pair_of rs)

module _ {local retention : ℕ} {rs : List TickHashRecord} where
  keeps-writer :
      {s : Session} (w : Option Writer)
      → Remembers local retention rs s
      → Remembers local retention rs (record s { writer = w })
  keeps-writer w h = record { peer = h.peer; table = h.table; window = h.window }

  with_writer-Remembers :
      {s : Session} (act : Action Writer (Unit {0}))
      → Remembers local retention rs s
      → Remembers local retention rs (with_writer act s).1
  with_writer-Remembers {s} act h = let (w, e) = with_writer_state act s in rw e (keeps-writer w h)

  record_schema-Remembers :
      {s : Session} (name : Text) (fields : List Text)
      → Remembers local retention rs s
      → Remembers local retention rs (record_schema name fields s).1
  unfolding record_schema
  record_schema-Remembers {s} name fields h =
      elim (Bool-cases (contains_text name s.written_schemas)) [
        | inl e ↦ rw (e, record_schema) h
        | inr e ↦
            rw (e, record_schema)
              (with_writer-Remembers {s = record s { written_schemas = name ∷ s.written_schemas }}
                (write_frame (metadata (schema_metadata_key name) (fingerprint fields)))
                (record { peer = h.peer; table = h.table; window = h.window }))
      ]

  mark_checked-Remembers :
      {s : Session} (o : Option ℕ)
      → Remembers local retention rs s
      → Remembers local retention rs (mark_checked o s).1
  unfolding mark_checked
  mark_checked-Remembers none h = h
  mark_checked-Remembers (some t) h = record { peer = h.peer; table = h.table; window = h.window }

  check_divergence-Remembers :
      {s : Session}
      → Remembers local retention rs s
      → Remembers local retention rs (check_divergence s).1
  unfolding check_divergence
  check_divergence-Remembers {s} h =
      mark_checked-Remembers (first_key (is_new_divergence s.checked_ticks) s.hashes_by_tick) h

module _ {local retention : ℕ} {rs : List TickHashRecord} {s : Session} where
  record_peer_hash-Remembers :
      (tick peer hash : ℕ)
      → Remembers local retention rs s
      → Remembers local retention
          (rs ++ (record { tick = tick; peer_id = peer; hash = hash } ∷ []))
          (record_peer_hash tick peer hash s).1
  unfolding record_peer_hash
  record_peer_hash-Remembers tick peer hash h =
      with_writer-Remembers
        {s = record s {
          ring = Ring.push s.ring (tick, hash);
          hashes_by_tick = add_report tick (peer, hash) s.hashes_by_tick;
        }}
        (write_frame (tick_hash tick peer hash))
        (record {
          peer = h.peer;
          table = ap (add_report tick (peer, hash)) h.table ∙ sym (by_tick-snoc rs _);
          window =
              ap (λ r. Ring.push r (tick, hash)) h.window
              ∙ sym (push_all-snoc (Ring.new retention) (map pair_of rs) (tick, hash))
              ∙ ap (push_all (Ring.new retention)) (
                  sym (
                    map-append pair_of rs
                      (record { tick = tick; peer_id = peer; hash = hash } ∷ [])));
        })

module _ {local retention : ℕ} {rs : List TickHashRecord} where
  count_tick-Remembers :
      (xxh3_64 : List ℕ → ℕ) (tick hash : ℕ) (x : Result Error (Unit {0}) × Session)
      → Remembers local retention rs x.1
      → Remembers local retention rs (after x (λ _. count_tick xxh3_64 tick hash)).1
  unfolding count_tick
  count_tick-Remembers xxh3_64 tick hash (err e, t) h = h
  count_tick-Remembers xxh3_64 tick hash (ok a, t) h = record {
    peer = h.peer;
    table = h.table;
    window = h.window;
  }

module _ (xxh3_64 : List ℕ → ℕ) where
  pub apply-Remembers :
      {local retention : ℕ} {rs : List TickHashRecord} {s : Session} (c : Call)
      → Remembers local retention rs s
      → Remembers local retention (rs ++ reports_of xxh3_64 local c) (apply xxh3_64 s c)
  unfolding apply Session.hash_tick Session.hash_entity Session.hash_field record_peer_entity_hash
      record_peer_field_hash take_pending_hashes take_pending_hashes_up_to finish_recording
  apply-Remembers {local} {retention} {rs} {s} (Call.hash_tick tick bytes) h =
      count_tick-Remembers xxh3_64 tick (Session.hash_bytes xxh3_64 bytes)
        (record_peer_hash tick s.local_peer_id (Session.hash_bytes xxh3_64 bytes) s)
        (subst
          (λ p.
            Remembers local retention
              (rs
                ++ (record { tick = tick; peer_id = p; hash = Session.hash_bytes xxh3_64 bytes }
                    ∷ []))
              (record_peer_hash tick s.local_peer_id (Session.hash_bytes xxh3_64 bytes) s).1)
          h.peer
          (record_peer_hash-Remembers tick s.local_peer_id (Session.hash_bytes xxh3_64 bytes) h))
  apply-Remembers (Call.record_peer_hash tick peer hash) h =
      record_peer_hash-Remembers tick peer hash h
  apply-Remembers {rs = rs} (Call.record_schema name fields) h =
      rw append-nil (record_schema-Remembers name fields h)
  apply-Remembers {rs = rs} Call.check_divergence h = rw append-nil (check_divergence-Remembers h)
  apply-Remembers {s = s} (Call.hash_entity tick entity bytes) h = rw append-nil (
      with_writer-Remembers
        (write_frame (entity_hash tick s.local_peer_id entity (Session.hash_bytes xxh3_64 bytes)))
        h)
  apply-Remembers (Call.record_peer_entity_hash tick peer entity hash) h =
      rw append-nil (with_writer-Remembers (write_frame (entity_hash tick peer entity hash)) h)
  apply-Remembers {s = s} (Call.hash_field tick entity name value) h = rw append-nil (
      with_writer-Remembers
        (write_frame
          (field_hash tick s.local_peer_id entity name (Session.hash_bytes xxh3_64 value) value))
        h)
  apply-Remembers (Call.record_peer_field_hash tick peer entity name hash value) h =
      rw append-nil
        (with_writer-Remembers (write_frame (field_hash tick peer entity name hash value)) h)
  apply-Remembers Call.take_pending_hashes h =
      rw append-nil (record { peer = h.peer; table = h.table; window = h.window })
  apply-Remembers (Call.take_pending_hashes_up_to max) h =
      rw append-nil (record { peer = h.peer; table = h.table; window = h.window })
  apply-Remembers Call.finish_recording h =
      rw append-nil (with_writer-Remembers (do write_frame end_of_stream; flush) h)

  run-Remembers :
      {local retention : ℕ} (rs : List TickHashRecord) (s : Session) (cs : List Call)
      → Remembers local retention rs s
      → Remembers local retention (rs ++ all_reports xxh3_64 local cs) (run xxh3_64 s cs)
  unfolding run
  run-Remembers rs s [] h = rw append-nil h
  run-Remembers {local} rs s (c ∷ cs) h = rw append_assoc at (
      run-Remembers (rs ++ reports_of xxh3_64 local c) (apply xxh3_64 s c) cs (apply-Remembers c h))

  pub build_with-Remembers :
      (b : SessionBuilder) (w : Option Writer)
      → Remembers b.local_peer_id b.retention [] (build_with b w)
  unfolding build_with by_tick push_all
  build_with-Remembers b w = record { peer = refl; table = refl; window = refl }

  -- Whatever calls are made on a new session, and whichever of its writes fail, its table of
  -- reports is the one that `find_first_divergence` makes of the reports of the calls.
  pub hashes_by_tick-run :
      (b : SessionBuilder) (w : Option Writer) (cs : List Call)
      → (run xxh3_64 (build_with b w) cs).hashes_by_tick
        ≡ by_tick (all_reports xxh3_64 b.local_peer_id cs)
  hashes_by_tick-run b w cs =
      (run-Remembers [] (build_with b w) cs (build_with-Remembers b w)).table

  -- Whatever calls are made on a new session, and whichever of its writes fail, `retained_ticks`
  -- lists the last `retention` reports of the calls, oldest first, each as a tick with its hash: a
  -- tick is listed once for each report of it in this window of reports.
  pub retained_ticks-run :
      (b : SessionBuilder) (w : Option Writer) (cs : List Call)
      → retained_ticks (run xxh3_64 (build_with b w) cs)
        ≡ last_n b.retention (map pair_of (all_reports xxh3_64 b.local_peer_id cs))
  unfolding retained_ticks
  retained_ticks-run b w cs =
      ap Ring.iter (run-Remembers [] (build_with b w) cs (build_with-Remembers b w)).window
      ∙ iter-push_all b.retention (map pair_of (all_reports xxh3_64 b.local_peer_id cs))

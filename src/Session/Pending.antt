-- ===== src/Session/Pending.antt =====
-- The queue of local hashes and the running checksum: `hash_tick`, the `take_pending_hashes` family
-- and `finish`.
use foldback.Prelude.{ℕ, ◌≡◌, refl, sym, ap, ◌∙◌, arith, min}
use foldback.Prelude.{Option, none, some, List, [], ◌∷◌, ◌++◌, foldl, inl, inr, Bool-cases}
use foldback.Prelude.{length, length-take, append-nil, append_assoc, take-append-drop}
use foldback.Prelude.Utf8.{Text}
use foldback.Prelude.Order.{nat_ord}
use foldback.Prelude.OrdMap.{first_key}
use mathlib.Core.List.{foldl-append}
use foldback.Error.{Error, Result, ok, err}
use foldback.Action.{Action, after, ◌>>◌}
use foldback.Io.{Writer, flush}
use foldback.Format.Frame.{write_frame, metadata, tick_hash, entity_hash, field_hash, end_of_stream}
use foldback.Schema.{schema_metadata_key, fingerprint}
use foldback.Bisect.{add_report}
use foldback.Ring
use foldback.Session
use foldback.Session.{
  Session, PendingHash, with_writer, contains_text, is_new_divergence, mark_checked,
  check_divergence,
}
use foldback.Session.{
  record_schema, record_peer_hash, record_peer_entity_hash, record_peer_field_hash, count_tick,
  finish_recording,
}
use foldback.Session.{take_pending_hashes, take_pending_hashes_up_to, finish, combine}
use foldback.Session.Calls.{Call, with_writer_state, apply, run}

-- Neither the queue nor the checksum differs.
record Same (s t : Session) : Type 0 where
  queue : t.pending ≡ s.pending
  checksum : t.cumulative ≡ s.cumulative

with_writer-Same : (act : Action Writer (Unit {0})) (s : Session) → Same s (with_writer act s).1
with_writer-Same act s =
    let (w, e) = with_writer_state act s in rw e (record { queue = refl; checksum = refl })

from_equal :
    {s s' t : Session}
    → s'.pending ≡ s.pending
    → s'.cumulative ≡ s.cumulative
    → Same s' t
    → Same s t
from_equal p c h = record { queue = h.queue ∙ p; checksum = h.checksum ∙ c }

record_schema-Same :
    (name : Text) (fields : List Text) (s : Session) → Same s (record_schema name fields s).1
unfolding record_schema
record_schema-Same name fields s = elim (Bool-cases (contains_text name s.written_schemas)) [
  | inl e ↦ rw (e, record_schema) (record { queue = refl; checksum = refl })
  | inr e ↦
      rw (e, record_schema)
        (from_equal {s = s} {s' = record s { written_schemas = name ∷ s.written_schemas }} refl refl
          (with_writer-Same (write_frame (metadata (schema_metadata_key name) (fingerprint fields)))
            (record s { written_schemas = name ∷ s.written_schemas })))
]

mark_checked-Same : (o : Option ℕ) (s : Session) → Same s (mark_checked o s).1
unfolding mark_checked
mark_checked-Same none s = record { queue = refl; checksum = refl }
mark_checked-Same (some u) s = record { queue = refl; checksum = refl }

record_peer_hash-Same :
    (tick peer hash : ℕ) (s : Session) → Same s (record_peer_hash tick peer hash s).1
unfolding record_peer_hash
record_peer_hash-Same tick peer hash s =
    let s' : Session = record s {
      ring = Ring.push s.ring (tick, hash);
      hashes_by_tick = add_report tick (peer, hash) s.hashes_by_tick;
    } in
    from_equal {s = s} {s' = s'} refl refl
      (with_writer-Same (write_frame (tick_hash tick peer hash)) s')

-- `x`, if the step returned `Ok`.
abbrev pub if_ok : Result Error (Unit {0}) → PendingHash → List PendingHash
if_ok (ok _) x = x ∷ []
if_ok (err _) x = []

module _ (xxh3_64 : List ℕ → ℕ) where
  -- What a call counts: the hash of a tick, when `hash_tick` returns `Ok`.
  abbrev pub counted : Session → Call → List PendingHash
  counted s (Call.hash_tick tick bytes) =
      if_ok (Session.hash_tick xxh3_64 tick bytes s).0
        (record { tick = tick; hash = Session.hash_bytes xxh3_64 bytes })
  counted s _ = []

  -- What a call takes out of the queue.
  abbrev pub taken : Session → Call → List PendingHash
  taken s Call.take_pending_hashes = (take_pending_hashes s).0
  taken s (Call.take_pending_hashes_up_to max) = (take_pending_hashes_up_to max s).0
  taken s _ = []

  abbrev pub all_counted : Session → List Call → List PendingHash
  all_counted s [] = []
  all_counted s (c ∷ cs) = counted s c ++ all_counted (apply xxh3_64 s c) cs

  abbrev pub all_taken : Session → List Call → List PendingHash
  all_taken s [] = []
  all_taken s (c ∷ cs) = taken s c ++ all_taken (apply xxh3_64 s c) cs

  -- One step of the checksum.
  abbrev pub fold_hash : ℕ → PendingHash → ℕ
  fold_hash acc p = combine xxh3_64 acc p.tick p.hash

  -- What a step does to the queue and to the checksum.
  abbrev Advances : Session → Session → List PendingHash → List PendingHash → Type 0
  Advances s t new out =
      (s.pending ++ new ≡ out ++ t.pending) × (t.cumulative ≡ foldl fold_hash s.cumulative new)

  idle : {s t : Session} → Same s t → Advances s t [] []
  idle {s} h = (append-nil s.pending ∙ sym h.queue, h.checksum)

  count_tick-Advances :
      (tick hash : ℕ) (s : Session) (x : Result Error (Unit {0}) × Session)
      → Same s x.1
      → Advances s
          (after x (λ _. count_tick xxh3_64 tick hash)).1
          (if_ok
            (after x (λ _. count_tick xxh3_64 tick hash)).0
            (record { tick = tick; hash = hash }))
          []
  unfolding count_tick
  count_tick-Advances tick hash s (err e, t) h = idle h
  count_tick-Advances tick hash s (ok a, t) h = (
    ap (λ q. q ++ (record { tick = tick; hash = hash } ∷ [])) (sym h.queue),
    ap (λ n. combine xxh3_64 n tick hash) h.checksum,
  )

  apply-Advances :
      (s : Session) (c : Call) → Advances s (apply xxh3_64 s c) (counted s c) (taken s c)
  unfolding apply Session.hash_tick Session.hash_entity Session.hash_field record_peer_entity_hash
      record_peer_field_hash take_pending_hashes take_pending_hashes_up_to finish_recording
      check_divergence
  apply-Advances s (Call.hash_tick tick bytes) =
      count_tick-Advances tick (Session.hash_bytes xxh3_64 bytes) s
        (record_peer_hash tick s.local_peer_id (Session.hash_bytes xxh3_64 bytes) s)
        (record_peer_hash-Same tick s.local_peer_id (Session.hash_bytes xxh3_64 bytes) s)
  apply-Advances s (Call.record_peer_hash tick peer hash) =
      idle (record_peer_hash-Same tick peer hash s)
  apply-Advances s (Call.record_schema name fields) = idle (record_schema-Same name fields s)
  apply-Advances s Call.check_divergence =
      idle (mark_checked-Same (first_key (is_new_divergence s.checked_ticks) s.hashes_by_tick) s)
  apply-Advances s (Call.hash_entity tick entity bytes) = idle (
      with_writer-Same
        (write_frame (entity_hash tick s.local_peer_id entity (Session.hash_bytes xxh3_64 bytes)))
        s)
  apply-Advances s (Call.record_peer_entity_hash tick peer entity hash) =
      idle (with_writer-Same (write_frame (entity_hash tick peer entity hash)) s)
  apply-Advances s (Call.hash_field tick entity name value) = idle (
      with_writer-Same
        (write_frame
          (field_hash tick s.local_peer_id entity name (Session.hash_bytes xxh3_64 value) value))
        s)
  apply-Advances s (Call.record_peer_field_hash tick peer entity name hash value) =
      idle (with_writer-Same (write_frame (field_hash tick peer entity name hash value)) s)
  apply-Advances s Call.take_pending_hashes = (refl, refl)
  apply-Advances s (Call.take_pending_hashes_up_to max) =
      (append-nil s.pending ∙ sym (take-append-drop (min (length s.pending) max) s.pending), refl)
  apply-Advances s Call.finish_recording =
      idle (with_writer-Same (do write_frame end_of_stream; flush) s)

  -- Over any calls, the hashes that were queued at the start and then those that succeeding
  -- `hash_tick`s counted are, in this order, those that the two `take_pending_hashes` calls gave
  -- out and then those that are still queued: none is lost, repeated or reordered.
  pub pending-run :
      (s : Session) (cs : List Call)
      → s.pending ++ all_counted s cs ≡ all_taken s cs ++ (run xxh3_64 s cs).pending
  unfolding run
  pending-run s [] = append-nil s.pending
  pending-run s (c ∷ cs) =
      sym (append_assoc s.pending (counted s c) (all_counted (apply xxh3_64 s c) cs))
      ∙ ap (λ q. q ++ all_counted (apply xxh3_64 s c) cs) (apply-Advances s c).0
      ∙ append_assoc (taken s c) (apply xxh3_64 s c).pending (all_counted (apply xxh3_64 s c) cs)
      ∙ ap (λ q. taken s c ++ q) (pending-run (apply xxh3_64 s c) cs)
      ∙ sym (
          append_assoc (taken s c) (all_taken (apply xxh3_64 s c) cs)
            (run xxh3_64 s (c ∷ cs)).pending)

  -- After any calls `finish` returns the fold of `combine` over exactly the ticks that succeeding
  -- `hash_tick`s counted, in order: no other call changes the checksum.
  pub finish-run :
      (s : Session) (cs : List Call)
      → finish (run xxh3_64 s cs) ≡ foldl fold_hash (finish s) (all_counted s cs)
  unfolding run finish
  finish-run s [] = refl
  finish-run s (c ∷ cs) =
      finish-run (apply xxh3_64 s c) cs
      ∙ ap (λ n. foldl fold_hash n (all_counted (apply xxh3_64 s c) cs)) (apply-Advances s c).1
      ∙ sym (foldl-append fold_hash s.cumulative (counted s c) (all_counted (apply xxh3_64 s c) cs))

  -- `take_pending_hashes_up_to` takes as many hashes as asked for, or all that are queued.
  length-take_pending_hashes_up_to :
      (max : ℕ) (s : Session)
      → length (take_pending_hashes_up_to max s).0 ≡ min (length s.pending) max
  unfolding take_pending_hashes_up_to
  length-take_pending_hashes_up_to max s =
      length-take (min (length s.pending) max) s.pending ∙ omega arith

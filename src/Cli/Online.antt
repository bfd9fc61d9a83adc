-- ===== src/Cli/Online.antt =====
-- The check of a running session beside the analysis of the file that it records.
use foldback.Prelude.{
  ℕ, ◌≡◌, refl, sym, ap, ap₂, ◌∙◌, subst, Bool, true, false, Option, none, some, List, [], ◌∷◌,
  ◌++◌,
}
use foldback.Prelude.{map, All, append-nil}
use foldback.Prelude.Order.{nat_ord}
use foldback.Prelude.Utf8.{Text}
use foldback.Error.{IoError, Result, ok}
use foldback.Io.{Reader, Writer, vec, eof}
use foldback.Format.Header.{header_bytes}
use foldback.Format.Header.RoundTrip.{IsHeader}
use foldback.Format.Stream.Chunks.{reading}
use foldback.Format.Stream.Recovery.{known}
use foldback.Format.Frame.{
  Frame, IsFrame, tick_hash, entity_hash, field_hash, snapshot, metadata, end_of_stream,
}
use foldback.Bisect.{TickHashRecord, find_first_divergence}
use foldback.Session.{
  Session, SessionBuilder, build, build_with, check_divergence, contains, contains_text,
  is_new_divergence,
}
use foldback.Session.Calls.{Call, apply, run, reports_of, all_reports}
use foldback.Session.Reports.{Remembers, apply-Remembers, build_with-Remembers, hashes_by_tick-run}
use foldback.Session.Divergence.{check_divergence-found, found}
use foldback.Session.Frames.{
  HasFile, file_bytes, run-HasFile, call_frames, all_frames, schema_frames,
}
use foldback.Session.Recording.{header_of, known-IsItem, frames_within-whole, build_file_inv}
use foldback.Cli.Report.{Report, analyze}
use foldback.Cli.Counts.{records_of, summary, analyze-cut}

records_of-append : (fs gs : List Frame) → records_of (fs ++ gs) ≡ records_of fs ++ records_of gs
records_of-append [] gs = refl
records_of-append (tick_hash tick peer hash ∷ fs) gs =
    ap (◌∷◌ (record { tick = tick; peer_id = peer; hash = hash })) (records_of-append fs gs)
records_of-append (entity_hash _ _ _ _ ∷ fs) gs = records_of-append fs gs
records_of-append (field_hash _ _ _ _ _ _ ∷ fs) gs = records_of-append fs gs
records_of-append (snapshot _ _ _ ∷ fs) gs = records_of-append fs gs
records_of-append (metadata _ _ ∷ fs) gs = records_of-append fs gs
records_of-append (end_of_stream ∷ fs) gs = records_of-append fs gs

records_of-schema_frames :
    (b : Bool) (name : Text) (fields : List Text) → records_of (schema_frames b name fields) ≡ []
records_of-schema_frames true name fields = refl
records_of-schema_frames false name fields = refl

module _ (xxh3_64 : List ℕ → ℕ) where
  records_of-call_frames :
      (s : Session) (c : Call)
      → records_of (call_frames xxh3_64 s c) ≡ reports_of xxh3_64 s.local_peer_id c
  records_of-call_frames s (Call.hash_tick _ _) = refl
  records_of-call_frames s (Call.record_peer_hash _ _ _) = refl
  records_of-call_frames s (Call.hash_entity _ _ _) = refl
  records_of-call_frames s (Call.record_peer_entity_hash _ _ _ _) = refl
  records_of-call_frames s (Call.hash_field _ _ _ _) = refl
  records_of-call_frames s (Call.record_peer_field_hash _ _ _ _ _ _) = refl
  records_of-call_frames s (Call.record_schema name fields) =
      records_of-schema_frames (contains_text name s.written_schemas) name fields
  records_of-call_frames s Call.take_pending_hashes = refl
  records_of-call_frames s (Call.take_pending_hashes_up_to _) = refl
  records_of-call_frames s Call.check_divergence = refl
  records_of-call_frames s Call.finish_recording = refl

  records_of-all_frames :
      (local retention : ℕ) (rs : List TickHashRecord) (s : Session) (cs : List Call)
      → Remembers local retention rs s
      → records_of (all_frames xxh3_64 s cs) ≡ all_reports xxh3_64 local cs
  records_of-all_frames local retention rs s [] h = refl
  records_of-all_frames local retention rs s (c ∷ cs) h =
      records_of-append (call_frames xxh3_64 s c) (all_frames xxh3_64 (apply xxh3_64 s c) cs)
      ∙ ap₂ (λ xs ys. xs ++ ys)
          (records_of-call_frames s c ∙ ap (λ p. reports_of xxh3_64 p c) h.peer)
          (records_of-all_frames local retention (rs ++ reports_of xxh3_64 local c)
            (apply xxh3_64 s c) cs (apply-Remembers xxh3_64 c h))

  found-first : (rs : List TickHashRecord) → found [] rs ≡ find_first_divergence rs
  unfolding find_first_divergence is_new_divergence contains
  found-first rs = refl

  -- What a new session finds, from the frames of its calls.
  check_divergence-all_frames :
      (b : SessionBuilder) (w : Option Writer) (cs : List Call)
      → (run xxh3_64 (build_with b w) cs).checked_ticks ≡ []
      → (check_divergence (run xxh3_64 (build_with b w) cs)).0
        ≡ find_first_divergence (records_of (all_frames xxh3_64 (build_with b w) cs))
  check_divergence-all_frames b w cs e =
      check_divergence-found (run xxh3_64 (build_with b w) cs)
        (all_reports xxh3_64 b.local_peer_id cs) (hashes_by_tick-run xxh3_64 b w cs)
      ∙ ap (λ c. found c (all_reports xxh3_64 b.local_peer_id cs)) e
      ∙ found-first (all_reports xxh3_64 b.local_peer_id cs)
      ∙ ap find_first_divergence (
          sym (
            records_of-all_frames b.local_peer_id b.retention [] (build_with b w) cs
              (build_with-Remembers xxh3_64 b w)))

-- The bytes of a session's file.
abbrev file_of : Option Writer → List ℕ
file_of none = []
file_of (some w) = w.written

module _ (create : Text → Result IoError Writer) (open_file : Text → Result IoError Reader)
    (xxh3_64 : List ℕ → ℕ) where
  analyze_filed :
      (b : SessionBuilder) (path : Text) (cs : List Call) (fs : List Frame)
      → IsHeader (header_of b)
      → All IsFrame fs
      → open_file path ≡ ok (reading (header_bytes (header_of b) ++ file_bytes fs) eof)
      → analyze open_file path ≡ ok (summary (header_of b) fs)
  analyze_filed b path cs fs h frames o =
      analyze-cut open_file path (header_of b) (map known fs) (file_bytes fs) [] o h
        (known-IsItem fs frames) (append-nil (file_bytes fs))
      ∙ ap (λ gs. ok (summary (header_of b) gs)) (frames_within-whole fs)

  -- Let `build` create the file of a session and return the session, and let no write to the file
  -- fail. Let the header's fields fit their machine types and every frame that the calls record
  -- fit the format, let no check among the calls have returned a tick, and let the command line
  -- open the bytes that the file then holds. Then `analyze` succeeds, and the divergence of its
  -- report is what the session's `check_divergence` returns after the calls.
  pub check_divergence-analyze :
      (b : SessionBuilder) (path : Text) (cs : List Call) (s : Session) (bytes : List ℕ)
      → b.record_to ≡ some path
      → create path ≡ ok (vec [])
      → build create b ≡ ok s
      → IsHeader (header_of b)
      → All IsFrame (all_frames xxh3_64 s cs)
      → (run xxh3_64 s cs).checked_ticks ≡ []
      → HasFile bytes (run xxh3_64 s cs)
      → open_file path ≡ ok (reading bytes eof)
      → (report : Report) × (analyze open_file path ≡ ok report)
        × (report.divergence ≡ (check_divergence (run xxh3_64 s cs)).0)
  check_divergence-analyze b path cs s bytes e c bs h frames unchecked file o = (
    summary (header_of b) (all_frames xxh3_64 s cs),
    analyze_filed b path cs (all_frames xxh3_64 s cs) h frames
        (o ∙ ap (λ l. ok (reading l eof)) whole),
    sym live,
  )
    where
      start : Session
      start = build_with b (some (vec (header_bytes (header_of b))))

      same : start ≡ s
      same = build_file_inv create xxh3_64 b path s e c bs

      whole : bytes ≡ header_bytes (header_of b) ++ file_bytes (all_frames xxh3_64 s cs)
      whole = ap file_of (
          sym file
          ∙ run-HasFile xxh3_64 s cs (header_bytes (header_of b)) (
              subst (λ t. HasFile (header_bytes (header_of b)) t) same (unfold build_with in refl)))

      live :
          (check_divergence (run xxh3_64 s cs)).0
          ≡ find_first_divergence (records_of (all_frames xxh3_64 s cs))
      live =
          subst
            (λ t.
              (run xxh3_64 t cs).checked_ticks ≡ []
              → (check_divergence (run xxh3_64 t cs)).0
                ≡ find_first_divergence (records_of (all_frames xxh3_64 t cs)))
            same
            (check_divergence-all_frames xxh3_64 b (some (vec (header_bytes (header_of b)))) cs)
            unchecked

-- ===== src/Cli/Counts.antt =====
-- What `analyze` and `extract_schema` say about a recording, cut anywhere behind its header.
use foldback.Prelude.{ℕ, suc, ◌+◌, ◌≡◌, refl, sym, ap, ◌∙◌, arith, Bool, true, false, ◌||◌}
use foldback.Prelude.{
  List, [], ◌∷◌, ◌++◌, foldl, length, All, append_assoc, append-nil, if◌then◌else◌,
}
use foldback.Prelude.Utf8.{Text}
use foldback.Error.{IoError, Result, ok}
use foldback.Io.{Reader, eof}
use foldback.Format.Header.{Header, header_bytes}
use foldback.Format.Header.RoundTrip.{IsHeader, read_header-header_bytes}
use foldback.Format.Frame.{
  Frame, tick_hash, entity_hash, field_hash, snapshot, metadata, end_of_stream,
}
use foldback.Format.Stream.Chunks.{reading}
use foldback.Format.Stream.Recovery.{Item, IsItem, stream, complete, frames_of, for_each_frame-cut}
use foldback.Bisect.{TickHashRecord, find_first_divergence}
use foldback.Cli.Report.{Report, Tally, no_tally, count_frame, report_of, tallied, analyze_headed}
use foldback.Cli.Report.{analyze_opened, analyze}

-- The records of the tick hashes among some frames.
abbrev pub records_of : List Frame → List TickHashRecord
records_of [] = []
records_of (tick_hash tick peer hash ∷ fs) =
    record { tick = tick; peer_id = peer; hash = hash } ∷ records_of fs
records_of (entity_hash _ _ _ _ ∷ fs) = records_of fs
records_of (field_hash _ _ _ _ _ _ ∷ fs) = records_of fs
records_of (snapshot _ _ _ ∷ fs) = records_of fs
records_of (metadata _ _ ∷ fs) = records_of fs
records_of (end_of_stream ∷ fs) = records_of fs

-- How many frames pass a test.
abbrev pub count : (Frame → Bool) → List Frame → ℕ
count p [] = 0
count p (f ∷ fs) = if p f then suc (count p fs) else count p fs

abbrev pub is_entity : Frame → Bool
is_entity (entity_hash _ _ _ _) = true
is_entity _ = false

abbrev pub is_field : Frame → Bool
is_field (field_hash _ _ _ _ _ _) = true
is_field _ = false

abbrev pub is_snapshot : Frame → Bool
is_snapshot (snapshot _ _ _) = true
is_snapshot _ = false

abbrev pub is_metadata : Frame → Bool
is_metadata (metadata _ _) = true
is_metadata _ = false

abbrev pub is_end : Frame → Bool
is_end end_of_stream = true
is_end _ = false

abbrev pub has_end : List Frame → Bool
has_end [] = false
has_end (f ∷ fs) = is_end f || has_end fs

-- What a report says of some frames.
abbrev pub summary : Header → List Frame → Report
summary h fs = record {
  header = h;
  tick_hash_count = length (records_of fs);
  entity_hash_count = count is_entity fs;
  field_hash_count = count is_field fs;
  snapshot_count = count is_snapshot fs;
  metadata_count = count is_metadata fs;
  ended_cleanly = has_end fs;
  divergence = find_first_divergence (records_of fs);
}

-- A tally with that of some frames added.
abbrev add_tally : Tally → List Frame → Tally
add_tally t fs = record {
  tick_records = t.tick_records ++ records_of fs;
  entity_hash_count = t.entity_hash_count + count is_entity fs;
  field_hash_count = t.field_hash_count + count is_field fs;
  snapshot_count = t.snapshot_count + count is_snapshot fs;
  metadata_count = t.metadata_count + count is_metadata fs;
  ended_cleanly = t.ended_cleanly || has_end fs;
}

one_more : (n k : ℕ) → suc n + k ≡ n + suc k
one_more n k = omega arith

count_frame-add_tally :
    (t : Tally) (f : Frame) (fs : List Frame)
    → add_tally (count_frame t f) fs ≡ add_tally t (f ∷ fs)
unfolding count_frame
count_frame-add_tally t (tick_hash tick peer hash) fs = λ i. record (add_tally t fs) {
  tick_records =
      append_assoc t.tick_records (record { tick = tick; peer_id = peer; hash = hash } ∷ [])
        (records_of fs) i;
}
count_frame-add_tally t (entity_hash _ _ _ _) fs = λ i. record (add_tally t fs) {
  entity_hash_count = one_more t.entity_hash_count (count is_entity fs) i;
}
count_frame-add_tally t (field_hash _ _ _ _ _ _) fs = λ i. record (add_tally t fs) {
  field_hash_count = one_more t.field_hash_count (count is_field fs) i;
}
count_frame-add_tally t (snapshot _ _ _) fs = λ i. record (add_tally t fs) {
  snapshot_count = one_more t.snapshot_count (count is_snapshot fs) i;
}
count_frame-add_tally t (metadata _ _) fs = λ i. record (add_tally t fs) {
  metadata_count = one_more t.metadata_count (count is_metadata fs) i;
}
count_frame-add_tally t end_of_stream fs =
    λ i. record (add_tally t fs) { ended_cleanly = or_true t.ended_cleanly i }
  where
    or_true : (b : Bool) → true ≡ b || true
    or_true true = refl
    or_true false = refl

foldl-count_frame : (t : Tally) (fs : List Frame) → foldl count_frame t fs ≡ add_tally t fs
foldl-count_frame t [] = λ i. record {
  tick_records = sym (append-nil t.tick_records) i;
  entity_hash_count = plus_zero t.entity_hash_count i;
  field_hash_count = plus_zero t.field_hash_count i;
  snapshot_count = plus_zero t.snapshot_count i;
  metadata_count = plus_zero t.metadata_count i;
  ended_cleanly = or_false t.ended_cleanly i;
}
  where
    plus_zero : (n : ℕ) → n ≡ n + 0
    plus_zero n = omega arith

    or_false : (b : Bool) → b ≡ b || false
    or_false true = refl
    or_false false = refl
foldl-count_frame t (f ∷ fs) = foldl-count_frame (count_frame t f) fs ∙ count_frame-add_tally t f fs

-- Let a file hold a header whose fields fit their machine types and, behind it, frames that fit
-- the format and chunks of an unknown type, cut anywhere. Then `analyze` succeeds, and its report
-- has that header, the number of frames of each kind that lie whole before the cut, whether an
-- end-of-stream frame is among them, and what `find_first_divergence` makes of their tick hashes.
pub analyze-cut :
    (open_file : Text → Result IoError Reader) (path : Text) (h : Header) (items : List Item)
    (front back : List ℕ)
    → open_file path ≡ ok (reading (header_bytes h ++ front) eof)
    → IsHeader h
    → All IsItem items
    → front ++ back ≡ stream items
    → analyze open_file path ≡ ok (summary h (frames_of (complete (length front) items)))
unfolding analyze analyze_opened analyze_headed tallied report_of
analyze-cut open_file path h items front back o fits all cut =
    ap (analyze_opened path) o
    ∙ ap (analyze_headed path)
        (read_header-header_bytes h (reading (header_bytes h ++ front) eof) front fits refl)
    ∙ ap (tallied path h) (
        for_each_frame-cut count_frame items no_tally front back all cut
        ∙ ap ok (foldl-count_frame no_tally (frames_of (complete (length front) items))))
    ∙ report
  where
    zero_plus : (n : ℕ) → 0 + n ≡ n
    zero_plus n = omega arith

    report :
        tallied path h (ok (add_tally no_tally (frames_of (complete (length front) items))))
        ≡ ok (summary h (frames_of (complete (length front) items)))
    report = λ i. ok (record (summary h (frames_of (complete (length front) items))) {
      entity_hash_count = zero_plus (count is_entity (frames_of (complete (length front) items))) i;
      field_hash_count = zero_plus (count is_field (frames_of (complete (length front) items))) i;
      snapshot_count = zero_plus (count is_snapshot (frames_of (complete (length front) items))) i;
      metadata_count = zero_plus (count is_metadata (frames_of (complete (length front) items))) i;
    })

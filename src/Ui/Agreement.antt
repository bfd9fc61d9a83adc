-- ===== src/Ui/Agreement.antt =====
-- The viewer's `load` and the command line's `analyze` on one file.
use foldback.Prelude.{
  ℕ, zero, suc, ◌≡◌, refl, sym, ap, ◌∙◌, arith, Option, none, some, List, [], ◌∷◌, ◌++◌, length,
  length-append,
}
use foldback.Prelude.Utf8.{Text}
use foldback.Error.{IoError, Error, Result, ok, err}
use foldback.Io.{Reader}
use foldback.Format.Header.{Header, read_header}
use foldback.Format.Frame.{
  Frame, tick_hash, entity_hash, field_hash, snapshot, metadata, end_of_stream,
}
use foldback.Format.Stream.{each_frame, for_each_loop, for_each_frame, next_frame}
use foldback.Bisect.{find_first_divergence}
use foldback.Cli.Report
use foldback.Cli.Report.{
  CliError, Tally, no_tally, count_frame, report_of, tallied, analyze_headed, analyze_opened,
  analyze,
}
use foldback.Ui.{
  LoadError, SessionData, Loading, nothing_loaded, load_frame, session_data, load_body, load_headed,
  load_opened, load,
}

-- Related results: both fail with one error, or both succeed with related values.
abbrev pub Related : {S T : Type 0} → (S → T → Type 0) → Result Error S → Result Error T → Type 0
Related R (ok s) (ok t) = R s t
Related R (ok s) (err e) = ⊥
Related R (err e) (ok t) = ⊥
Related R (err d) (err e) = d ≡ e

module _ {S T : Type 0} (R : S → T → Type 0) (f : S → Frame → S) (g : T → Frame → T)
    (step : (s : S) (t : T) (x : Frame) → R s t → R (f s x) (g t x)) where
  each_frame-Related :
      (k : S → Reader → Result Error S) (l : T → Reader → Result Error T)
      → ((s : S) (t : T) (r : Reader) → R s t → Related R (k s r) (l t r))
      → (s : S) (t : T) (x : Result Error (Option Frame) × Reader) → R s t
      → Related R (each_frame k f s x) (each_frame l g t x)
  unfolding each_frame
  each_frame-Related k l rest s t (ok none, r) h = h
  each_frame-Related k l rest s t (ok (some x), r) h = rest (f s x) (g t x) r (step s t x h)
  each_frame-Related k l rest s t (err e, r) h = refl

  for_each_loop-Related :
      (n : ℕ) (s : S) (t : T) (r : Reader)
      → R s t
      → Related R (for_each_loop n f s r) (for_each_loop n g t r)
  unfolding for_each_loop
  for_each_loop-Related zero s t r h = h
  for_each_loop-Related (suc n) s t r h =
      each_frame-Related (λ s' r'. for_each_loop n f s' r') (λ t' r'. for_each_loop n g t' r')
        (λ s' t' r' h'. for_each_loop-Related n s' t' r' h') s t (next_frame r) h

  -- Two loops over the frames of a reader whose bodies keep a relation end related.
  pub for_each_frame-Related :
      (s : S) (t : T) (r : Reader) → R s t → Related R (for_each_frame f s r) (for_each_frame g t r)
  unfolding for_each_frame
  for_each_frame-Related s t r h = for_each_loop-Related (suc (length r.bytes)) s t r h

-- What the two loops hold in common.
record Alike (s : Loading) (t : Tally) : Type 0 where
  records : s.tick_records ≡ t.tick_records
  ticks : length s.tick_hashes ≡ length t.tick_records
  entities : length s.entity_hashes ≡ t.entity_hash_count
  fields : length s.field_hashes ≡ t.field_hash_count
  snapshots : length s.snapshot_ticks ≡ t.snapshot_count
  metadatas : s.metadata_count ≡ t.metadata_count
  ended : s.ended_cleanly ≡ t.ended_cleanly

length-snoc :
    {A : Type 0} (xs : List A) (x : A) (n : ℕ) → length xs ≡ n → length (xs ++ (x ∷ [])) ≡ suc n
length-snoc xs x n h = omega (arith, h, length-append xs (x ∷ []))

step-Alike :
    (s : Loading) (t : Tally) (x : Frame) → Alike s t → Alike (load_frame s x) (count_frame t x)
unfolding load_frame count_frame
step-Alike s t (tick_hash tick peer hash) h = record {
  records = ap (λ rs. rs ++ (record { tick = tick; peer_id = peer; hash = hash } ∷ [])) h.records;
  ticks =
      length-snoc s.tick_hashes _ (length t.tick_records) h.ticks
      ∙ sym (
          length-snoc t.tick_records (record { tick = tick; peer_id = peer; hash = hash })
            (length t.tick_records) refl);
  entities = h.entities;
  fields = h.fields;
  snapshots = h.snapshots;
  metadatas = h.metadatas;
  ended = h.ended;
}
step-Alike s t (entity_hash tick peer entity hash) h = record {
  records = h.records;
  ticks = h.ticks;
  entities = length-snoc s.entity_hashes _ t.entity_hash_count h.entities;
  fields = h.fields;
  snapshots = h.snapshots;
  metadatas = h.metadatas;
  ended = h.ended;
}
step-Alike s t (field_hash tick peer entity name hash value) h = record {
  records = h.records;
  ticks = h.ticks;
  entities = h.entities;
  fields = length-snoc s.field_hashes _ t.field_hash_count h.fields;
  snapshots = h.snapshots;
  metadatas = h.metadatas;
  ended = h.ended;
}
step-Alike s t (snapshot tick peer compressed) h = record {
  records = h.records;
  ticks = h.ticks;
  entities = h.entities;
  fields = h.fields;
  snapshots = length-snoc s.snapshot_ticks tick t.snapshot_count h.snapshots;
  metadatas = h.metadatas;
  ended = h.ended;
}
step-Alike s t (metadata key value) h = record {
  records = h.records;
  ticks = h.ticks;
  entities = h.entities;
  fields = h.fields;
  snapshots = h.snapshots;
  metadatas = ap suc h.metadatas;
  ended = h.ended;
}
step-Alike s t end_of_stream h = record {
  records = h.records;
  ticks = h.ticks;
  entities = h.entities;
  fields = h.fields;
  snapshots = h.snapshots;
  metadatas = h.metadatas;
  ended = refl;
}

-- The viewer's data and a report agree, or both failed at the same point with the same error.
abbrev pub Agree : Result LoadError SessionData → Result CliError Report.Report → Type 0
Agree (ok d) (ok r) =
    (d.divergence_tick ≡ r.divergence)
    × (d.ended_cleanly ≡ r.ended_cleanly)
    × (length d.tick_hashes ≡ r.tick_hash_count)
    × (length d.entity_hashes ≡ r.entity_hash_count)
    × (length d.field_hashes ≡ r.field_hash_count)
    × (d.metadata_count ≡ r.metadata_count)
    × (d.tick_rate_hz ≡ r.header.tick_rate_hz)
    × (d.peer_count ≡ r.header.peer_count)
Agree (err (LoadError.open_failed p e)) (err (CliError.open_failed q f)) = (p ≡ q) × (e ≡ f)
Agree (err (LoadError.format_failed p e)) (err (CliError.format_failed q f)) = (p ≡ q) × (e ≡ f)
Agree _ _ = ⊥

body-Agree :
    (path name : Text) (h : Header) (x : Result Error Loading) (y : Result Error Tally)
    → Related Alike x y
    → Agree (load_body path name h x) (tallied path h y)
unfolding load_body tallied session_data report_of
body-Agree path name h (ok s) (ok t) a = (
  ap find_first_divergence a.records,
  a.ended,
  a.ticks,
  a.entities,
  a.fields,
  a.metadatas,
  refl,
  refl,
)
body-Agree path name h (err d) (err e) p = (refl, p)
body-Agree path name h (ok s) (err e) a = absurd a
body-Agree path name h (err d) (ok t) a = absurd a

headed-Agree :
    (path name : Text) (x : Result Error Header × Reader)
    → Agree (load_headed path name x) (analyze_headed path x)
unfolding load_headed analyze_headed
headed-Agree path name (ok h, r) =
    body-Agree path name h (for_each_frame load_frame nothing_loaded r)
      (for_each_frame count_frame no_tally r)
      (for_each_frame-Related Alike load_frame count_frame step-Alike nothing_loaded no_tally r
        (record {
          records = refl;
          ticks = refl;
          entities = refl;
          fields = refl;
          snapshots = refl;
          metadatas = refl;
          ended = refl;
        }))
headed-Agree path name (err e, r) = (refl, refl)

opened-Agree :
    (path name : Text) (x : Result IoError Reader)
    → Agree (load_opened path name x) (analyze_opened path x)
unfolding load_opened analyze_opened
opened-Agree path name (ok r) = headed-Agree path name (read_header r)
opened-Agree path name (err e) = (refl, refl)

-- For every file, readable or not, the viewer's `load` and the command line's `analyze` agree:
-- both fail at the same point with the same error and path, or both succeed with the same
-- divergence, clean end, tick rate, peer count and number of metadata frames, and `load` lists as
-- many tick, entity and field hashes as `analyze` counts.
pub load-analyze :
    (open_file : Text → Result IoError Reader) (file_name : Text → Text) (path : Text)
    → Agree (load open_file file_name path) (analyze open_file path)
unfolding load analyze
load-analyze open_file file_name path = opened-Agree path (file_name path) (open_file path)

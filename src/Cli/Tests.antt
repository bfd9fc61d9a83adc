-- ===== src/Cli/Tests.antt =====
-- The commands on the small file, without its last byte.
use foldback.Prelude.{ℕ, ◌≡◌, ◌↔◌, refl, [], ◌++◌, length, take-append-drop}
use foldback.Prelude.Utf8.{Text}
use foldback.Error.{IoError, Result, ok}
use foldback.Io.{Reader, eof}
use foldback.Format.Header.{header_bytes}
use foldback.Format.Stream.Chunks.{reading}
use foldback.Format.Stream.Recovery.{stream, complete, frames_of}
use foldback.Format.Tests.{
  header, header-IsHeader, items, items-IsItem, front, back, tick_hash-IsFrame,
}
use foldback.Bisect.First.{Diverges}
use foldback.Prelude.{foldl, ◌+◌, List, ◌∷◌}
use foldback.Format.Header.{new}
use foldback.Format.Header.RoundTrip.{IsHeader}
use foldback.Format.Frame.{IsFrame}
use foldback.Io.{Writer, vec}
use foldback.Prelude.{some, All, arith}
use foldback.Session.{
  Session, SessionBuilder, build_with, default_builder, check_divergence, record_peer_hash,
  with_writer, on_writer,
}
use foldback.Session.Calls.{Call, apply, run}
use foldback.Session.Frames.{HasFile, file_bytes, run-HasFile, all_frames}
use foldback.Session.Recording.{header_of, build-file}
use foldback.Cli.Online.{check_divergence-analyze}
use foldback.Cli.{run_ci_check}
use foldback.Cli.Report.{Report, analyze}
use foldback.Cli.Counts.{records_of, summary, analyze-cut}
use foldback.Cli.Exit.{run_ci_check-cut}

abbrev open_small : Text → Result IoError Reader
open_small path = ok (reading (header_bytes header ++ front) eof)

analyze-cut_example :
    analyze open_small [] ≡ ok (summary header (frames_of (complete (length front) items)))
analyze-cut_example =
    analyze-cut open_small [] header items front back refl header-IsHeader items-IsItem
      (take-append-drop 35 (stream items))

run_ci_check-cut_example :
    (run_ci_check open_small [] ≡ 1)
    ↔ ((t : ℕ) × Diverges t (records_of (frames_of (complete (length front) items))))
run_ci_check-cut_example =
    run_ci_check-cut open_small [] header items front back refl header-IsHeader items-IsItem
      (take-append-drop 35 (stream items))

abbrev sum : List ℕ → ℕ
sum = foldl (λ a b. a + b) 0

-- Two peers that part at tick 5, on file.
abbrev recorded_path : Text
recorded_path = b'f' ∷ []

abbrev to_file : SessionBuilder
to_file = record default_builder { record_to = some recorded_path }

abbrev create : Text → Result IoError Writer
create p = ok (vec [])

abbrev filed : Session
filed = build_with to_file (some (vec (header_bytes (header_of to_file))))

abbrev two_reports : List Call
two_reports = Call.record_peer_hash 5 0 1 ∷ Call.record_peer_hash 5 1 2 ∷ []

abbrev recorded_bytes : List ℕ
recorded_bytes = header_bytes (header_of to_file) ++ file_bytes (all_frames sum filed two_reports)

abbrev open_recorded : Text → Result IoError Reader
open_recorded path = ok (reading recorded_bytes eof)

to_file-IsHeader : IsHeader (header_of to_file)
unfolding new
to_file-IsHeader = record {
  version = omega arith;
  rate = omega arith;
  peers = omega arith;
  build = refl;
}

two_reports-IsFrame : All IsFrame (all_frames sum filed two_reports)
two_reports-IsFrame = (
  tick_hash-IsFrame 5 0 1 (omega arith) (omega arith) (omega arith),
  (tick_hash-IsFrame 5 1 2 (omega arith) (omega arith) (omega arith), tt),
)

two_reports-unchecked : (run sum filed two_reports).checked_ticks ≡ []
unfolding run apply record_peer_hash with_writer on_writer build_with
two_reports-unchecked = refl

two_reports-HasFile : HasFile recorded_bytes (run sum filed two_reports)
two_reports-HasFile =
    run-HasFile sum filed two_reports (header_bytes (header_of to_file)) (unfold build_with in refl)

check_divergence-analyze_example :
    (report : Report) × (analyze open_recorded recorded_path ≡ ok report)
    × (report.divergence ≡ (check_divergence (run sum filed two_reports)).0)
check_divergence-analyze_example =
    check_divergence-analyze create open_recorded sum to_file recorded_path two_reports filed
      recorded_bytes refl refl (build-file create sum to_file recorded_path refl refl)
      to_file-IsHeader two_reports-IsFrame two_reports-unchecked two_reports-HasFile refl

-- ===== src/Session/Tests.antt =====
-- A session of two peers that part at tick 5, in memory and on file.
use foldback.Prelude.{
  ℕ, ◌≡◌, ◌<◌, ◌+◌, ◌*◌, ◌%◌, ◌^◌, ◌↔◌, refl, arith, none, some, List, [], ◌∷◌, ◌++◌,
}
use foldback.Prelude.{foldl, map, length, take, drop, All, take-append-drop}
use foldback.Prelude.Utf8.{Text}
use foldback.Prelude.Order.{nat_ord}
use foldback.Error.{IoError, Result, ok}
use foldback.Io.{Writer, vec, eof}
use foldback.Format.Header.{header_bytes, read_header, new}
use foldback.Format.Header.RoundTrip.{IsHeader}
use foldback.Format.Frame.{Frame, IsFrame}
use foldback.Format.Stream.{for_each_frame}
use foldback.Format.Stream.Chunks.{reading}
use foldback.Format.Tests.{tick_hash-IsFrame, end_of_stream-IsFrame}
use foldback.Bisect.{by_tick, disagree, any_differs}
use foldback.Prelude.OrdMap.{first_key}
use foldback.Ring.Window.{last_n}
use foldback.Session.{
  Session, SessionBuilder, default_builder, build_with, check_divergence, mark_checked,
  is_new_divergence, contains,
}
use foldback.Session.{retained_ticks, finish}
use foldback.Session.Calls.{Call, run, all_reports}
use foldback.Session.Reports.{pair_of, hashes_by_tick-run, retained_ticks-run}
use foldback.Session.Divergence.{IsNew, check_divergence-some, check_divergence-none}
use foldback.Session.Once.{check_divergence-once}
use foldback.Session.Pending.{all_counted, all_taken, fold_hash, pending-run, finish-run}
use foldback.Session.Frames.{HasFile, file_bytes, all_frames}
use foldback.Session.Recording.{header_of, frames_within, build-file, recording-cut}

-- A toy hash.
abbrev digest : List ℕ → ℕ
digest = foldl (λ a b. (a * 31 + b) % 2 ^ 64) 7

abbrev calls : List Call
calls =
    Call.hash_tick 5 (1 ∷ 2 ∷ [])
    ∷ Call.record_peer_hash 5 1 4
    ∷ Call.take_pending_hashes
    ∷ Call.hash_tick 6 (3 ∷ [])
    ∷ []

abbrev start : Session
start = build_with default_builder none

abbrev later : Session
later = run digest start calls

hashes_by_tick-run_example : later.hashes_by_tick ≡ by_tick (all_reports digest 0 calls)
hashes_by_tick-run_example = hashes_by_tick-run digest default_builder none calls

retained_ticks-run_example :
    retained_ticks later ≡ last_n 600 (map pair_of (all_reports digest 0 calls))
retained_ticks-run_example = retained_ticks-run digest default_builder none calls

pending-run_example :
    start.pending ++ all_counted digest start calls ≡ all_taken digest start calls ++ later.pending
pending-run_example = pending-run digest start calls

finish-run_example :
    finish later ≡ foldl (fold_hash digest) (finish start) (all_counted digest start calls)
finish-run_example = finish-run digest start calls

later-table : later.hashes_by_tick ≡ by_tick (all_reports digest 0 calls)
later-table = hashes_by_tick-run digest default_builder none calls

check_divergence-some_example : ((check_divergence later).0 ≡ some 5) ↔ (
    IsNew later.checked_ticks (all_reports digest 0 calls) 5
    × ((u : ℕ) → u < 5 → ¬ IsNew later.checked_ticks (all_reports digest 0 calls) u))
check_divergence-some_example =
    check_divergence-some later (all_reports digest 0 calls) later-table 5

check_divergence-none_example :
    ((check_divergence later).0 ≡ none)
    ↔ ((t : ℕ) → ¬ IsNew later.checked_ticks (all_reports digest 0 calls) t)
check_divergence-none_example = check_divergence-none later (all_reports digest 0 calls) later-table

-- Two reports for tick 5 that differ.
abbrev parted : Session
parted = record start { hashes_by_tick = (5, (0, 1) ∷ (1, 2) ∷ []) ∷ [] }

parted_found : (check_divergence parted).0 ≡ some 5
unfolding check_divergence build_with mark_checked is_new_divergence contains disagree any_differs
    first_key
parted_found = refl

check_divergence-once_example :
    ¬ ((check_divergence (run digest (check_divergence parted).1 calls)).0 ≡ some 5)
check_divergence-once_example = check_divergence-once digest parted calls 5 parted_found

abbrev path : Text
path = b'f' ∷ []

abbrev to_file : SessionBuilder
to_file = record default_builder { record_to = some path }

abbrev create : Text → Result IoError Writer
create p = ok (vec [])

abbrev filed : Session
filed = build_with to_file (some (vec (header_bytes (header_of to_file))))

abbrev recorded : List Call
recorded = Call.record_peer_hash 5 1 4 ∷ Call.record_peer_hash 5 0 3 ∷ Call.finish_recording ∷ []

to_file-IsHeader : IsHeader (header_of to_file)
unfolding new
to_file-IsHeader = record {
  version = omega arith;
  rate = omega arith;
  peers = omega arith;
  build = refl;
}

recorded-IsFrame : All IsFrame (all_frames digest filed recorded)
recorded-IsFrame = (
  tick_hash-IsFrame 5 1 4 (omega arith) (omega arith) (omega arith),
  (tick_hash-IsFrame 5 0 3 (omega arith) (omega arith) (omega arith), (end_of_stream-IsFrame, tt)),
)

abbrev kept : List ℕ
kept = take 30 (file_bytes (all_frames digest filed recorded))

abbrev lost : List ℕ
lost = drop 30 (file_bytes (all_frames digest filed recorded))

abbrev push : List Frame → Frame → List Frame
push fs f = fs ++ (f ∷ [])

recording-cut_example :
    HasFile (header_bytes (header_of to_file) ++ (kept ++ lost)) (run digest filed recorded)
    × (read_header (reading (header_bytes (header_of to_file) ++ kept) eof)
        ≡ (ok (header_of to_file), reading kept eof))
    × (for_each_frame push [] (reading kept eof)
        ≡ ok (foldl push [] (frames_within (length kept) (all_frames digest filed recorded))))
recording-cut_example =
    recording-cut create digest push [] to_file path recorded kept lost filed refl refl
      (build-file create digest to_file path refl refl) to_file-IsHeader recorded-IsFrame
      (take-append-drop 30 (file_bytes (all_frames digest filed recorded)))

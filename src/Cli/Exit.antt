-- ===== src/Cli/Exit.antt =====
-- The exit codes of `ci-check` and `schema-diff`.
use foldback.Prelude.{ℕ, ◌≡◌, ◌↔◌, refl, List, ◌++◌, length, All}
use foldback.Prelude.{inl, inr, Option-cases}
use foldback.Prelude.Utf8.{Text}
use foldback.Prelude.Order.{text_ord}
use foldback.Error.{IoError, Result, ok}
use foldback.Io.{Reader, eof}
use foldback.Format.Header.{Header, header_bytes}
use foldback.Format.Header.RoundTrip.{IsHeader}
use foldback.Format.Stream.Chunks.{reading}
use foldback.Format.Stream.Recovery.{Item, IsItem, stream, complete, frames_of}
use foldback.Bisect.{TickHashRecord, find_first_divergence}
use foldback.Bisect.First.{Diverges, find_first_divergence-some, find_first_divergence-none}
use foldback.Cli.{ci_check_exit, divergence_exit, run_ci_check}
use foldback.Cli.Counts.{records_of, analyze-cut}

exit_iff :
    (rs : List TickHashRecord)
    → (divergence_exit (find_first_divergence rs) ≡ 1) ↔ ((t : ℕ) × Diverges t rs)
unfolding divergence_exit
exit_iff rs = elim (Option-cases (find_first_divergence rs)) [
  | inl e ↦ rw e (λ p. absurd (cc (p)), λ (t, d). absurd ((find_first_divergence-none rs).0 e t d))
  | inr (t, e) ↦ rw e (λ _. (t, ((find_first_divergence-some rs t).0 e).0), λ _. refl)
]

-- Let a file hold a header whose fields fit their machine types and, behind it, frames that fit
-- the format and chunks of an unknown type, cut anywhere. Then `ci-check` exits with 1 exactly
-- when two tick hashes that lie whole before the cut differ for one tick.
pub run_ci_check-cut :
    (open_file : Text → Result IoError Reader) (path : Text) (h : Header) (items : List Item)
    (front back : List ℕ)
    → open_file path ≡ ok (reading (header_bytes h ++ front) eof)
    → IsHeader h
    → All IsItem items
    → front ++ back ≡ stream items
    → (run_ci_check open_file path ≡ 1)
      ↔ ((t : ℕ) × Diverges t (records_of (frames_of (complete (length front) items))))
unfolding run_ci_check ci_check_exit
run_ci_check-cut open_file path h items front back o fits all cut =
    rw (analyze-cut open_file path h items front back o fits all cut)
      (exit_iff (records_of (frames_of (complete (length front) items))))

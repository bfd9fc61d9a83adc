-- ===== src/Ffi/Tests.antt =====
-- A caller in C: good and bad arguments, small buffers, a null handle.
use foldback.Prelude.{
  ℕ, ◌+◌, ◌≤◌, min, ◌≡◌, refl, arith, foldl, false, none, some, List, [], ◌∷◌, ◌++◌, length, take,
  drop,
}
use foldback.Prelude.Utf8.{Text, ascii}
use foldback.Error.{Error}
use foldback.Session.{Session, PendingHash, default_builder, build_with}
use foldback.Session.Calls.{run}
use foldback.Ffi.Codes.{Status}
use foldback.Ffi.{Thread, run_catching, caught, as_session_mut}
use foldback.Ffi.Entry
use foldback.Ffi.Entry.{Handle}
use foldback.Ffi.Out.{foldback_take_pending_hashes, foldback_last_error}
use foldback.Ffi.Requests.{Request, perform, perform_all, status_of, all_calls}
use foldback.Ffi.Refinement.{perform_all-run}
use foldback.Ffi.Buffers.{copied, foldback_take_pending_hashes-out, foldback_last_error-bounds}
use foldback.Ffi.Errors.{Reported, status_of-Reported}

abbrev sum : List ℕ → ℕ
sum = foldl (λ a b. a + b) 0

abbrev display : Error → Text
display e = ascii "error"

abbrev utf8_error : List ℕ → Text
utf8_error bytes = ascii "bad text"

abbrev live : Session
live = build_with default_builder none

abbrev requests : List Request
requests =
    Request.hash_tick 1 (some (1 ∷ 2 ∷ [])) 2
    ∷ Request.hash_tick 2 none 3
    ∷ Request.record_peer_hash 1 1 9
    ∷ Request.hash_field 1 7 none (some (1 ∷ [])) 1
    ∷ Request.hash_field 1 7 (some (255 ∷ [])) (some (1 ∷ [])) 1
    ∷ Request.hash_field 1 7 (some (ascii "hp")) (some (1 ∷ 2 ∷ [])) 1
    ∷ Request.record_schema (some (ascii "Unit")) (some (some (ascii "hp") ∷ none ∷ [])) 2
    ∷ Request.record_schema (some (ascii "Unit")) (some (some (ascii "hp") ∷ none ∷ [])) 1
    ∷ Request.check_divergence (record { out_found = some false; out_tick = none })
    ∷ Request.take_pending_hashes none 0
    ∷ []

perform_all-run_example :
    (perform_all sum display utf8_error
      (record { memory = some live; last_error = none })
      requests).memory
    ≡ some (run sum live (all_calls requests))
perform_all-run_example = perform_all-run sum display utf8_error live none requests

abbrev null_thread : Thread Handle
null_thread = record { memory = none; last_error = none }

null-status :
    status_of sum display utf8_error null_thread (Request.record_peer_hash 1 1 9)
    ≡ some Status.panic
unfolding status_of Entry.foldback_record_peer_hash run_catching as_session_mut caught
null-status = refl

status_of-Reported_example :
    Reported Status.panic
      (perform sum display utf8_error null_thread (Request.record_peer_hash 1 1 9)).last_error
status_of-Reported_example =
    status_of-Reported sum display utf8_error null_thread (Request.record_peer_hash 1 1 9)
      Status.panic null-status

abbrev hash : ℕ → PendingHash
hash n = record { tick = n; hash = n }

abbrev queued : Session
queued = record live { pending = hash 1 ∷ hash 2 ∷ hash 3 ∷ [] }

abbrev buffer : List PendingHash
buffer = hash 0 ∷ hash 0 ∷ []

foldback_take_pending_hashes-out_example :
    let n = min 3 2 in
    (foldback_take_pending_hashes 2
        (record { memory = (some queued, some buffer); last_error = none })
      ≡ (
        n,
        record {
          memory = (
            some (record queued { pending = drop n queued.pending }),
            some (take n queued.pending ++ drop n buffer),
          );
          last_error = none;
        },
      ))
    × (length (take n queued.pending ++ drop n buffer) ≡ length buffer)
foldback_take_pending_hashes-out_example =
    foldback_take_pending_hashes-out queued buffer none 2 (omega arith)

abbrev five_bytes : List ℕ
five_bytes = 1 ∷ 1 ∷ 1 ∷ 1 ∷ 1 ∷ []

-- Four bytes for a message of five.
foldback_last_error-bounds_example :
    (left : List ℕ) × (foldback_last_error (some (ascii "error")) (some five_bytes) 4
      ≡ (5, some (copied (ascii "error") 4 ++ left)))
    × (length (copied (ascii "error") 4 ++ left) ≡ length five_bytes)
    × (length (copied (ascii "error") 4) ≤ 4)
    × (drop 4 (copied (ascii "error") 4 ++ left) ≡ drop 4 five_bytes)
foldback_last_error-bounds_example =
    foldback_last_error-bounds (ascii "error") five_bytes 4 (omega arith) (omega arith)

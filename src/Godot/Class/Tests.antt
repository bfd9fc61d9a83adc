-- ===== src/Godot/Class/Tests.antt =====
-- A script that hashes, reports a peer beyond 16 bits, and asks for a negative number of hashes.
use foldback.Prelude.{ℕ, ◌+◌, ◌-◌, ◌^◌, ◌≡◌, refl, foldl, none, some, List, [], ◌∷◌}
use foldback.Prelude.Utf8.{Text, ascii}
use foldback.Error.{Error}
use foldback.Session.{Session, default_builder, build_with}
use foldback.Session.Calls.{Call, run}
use foldback.Godot.Class
use foldback.Godot.Class.{FoldbackSession}
use foldback.Godot.Class.Calls.{Request, perform_all, perform_all-run_inner}

abbrev sum : List ℕ → ℕ
sum = foldl (λ a b. a + b) 0

abbrev display : Error → Text
display e = ascii "error"

abbrev live : Session
live = build_with default_builder none

abbrev requests : List Request
requests =
    Request.hash_tick 1 (1 ∷ 2 ∷ [])
    ∷ Request.record_peer_hash 1 65537 9
    ∷ Request.take_pending_hashes (2 ^ 64 - 1)
    ∷ Request.check_divergence
    ∷ []

perform_all-run_inner_example :
    (perform_all display sum (record { inner = some live; last_error = [] }) requests).inner
    ≡ some (
        run sum live (
          Call.hash_tick 1 (1 ∷ 2 ∷ [])
          ∷ Call.record_peer_hash 1 1 9
          ∷ Call.take_pending_hashes_up_to 0
          ∷ Call.check_divergence
          ∷ []))
perform_all-run_inner_example =
    perform_all-run_inner display sum (record { inner = some live; last_error = [] }) requests

unconfigured :
    Class.hash_tick display sum 1 [] (record { inner = none; last_error = [] })
    ≡ (2 ^ 64 - 1, record { inner = none; last_error = Class.not_configured_error })
unfolding Class.hash_tick
unconfigured = refl

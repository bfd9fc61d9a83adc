-- ===== src/Ffi/Refinement.antt =====
-- What the calls of the C interface do to the session behind a live handle.
use foldback.Prelude.{ℕ, ◌≡◌, refl, sym, ap, ◌∙◌, Option, none, some, List, [], ◌∷◌}
use foldback.Prelude.{zero, suc, subst, Bool}
use foldback.Prelude.Utf8.{Text, ascii}
use mathlib.Core.List.{foldl-append}
use foldback.Error.{Error, Result, ok, err}
use foldback.Session
use foldback.Session.{Session, PendingHash}
use foldback.Session.Calls
use foldback.Session.Calls.{apply, run}
use foldback.Ffi.Codes.{Status}
use foldback.Ffi.{Outcome, returned, panicked, Body, run_catching, caught, as_session_mut}
use foldback.Ffi.{with_arg, finish_with}
use foldback.Ffi.Arguments.{
  suc_nonzero, to_option, bytes_from_raw_lem, str_from_raw_lem, field_names_from_raw_lem,
}
use foldback.Ffi.Entry
use foldback.Ffi.Entry.{Handle}
use foldback.Ffi.Out.{
  Found, drain_into, check_into, foldback_take_pending_hashes, foldback_check_divergence,
}
use foldback.Ffi.Requests.{Request, perform, calls_of, all_calls, perform_all, behind}

caught-memory :
    {S T : Type 0} (d : T) (x : Outcome T × S) (e : Option Text) → (caught d x e).1.memory ≡ x.1
unfolding caught
caught-memory d (returned (ok v), m) e = refl
caught-memory d (returned (err msg), m) e = refl
caught-memory d (panicked p, m) e = refl

finish_with-session :
    (display : Error → Text) (op : Text) (x : Result Error (Unit {0}) × Session)
    → (finish_with display op x).1 ≡ x.1
unfolding finish_with
finish_with-session display op (ok u, s) = refl
finish_with-session display op (err e, s) = refl

module _ (xxh3_64 : List ℕ → ℕ) (display : Error → Text) (utf8_error : List ℕ → Text) where
  -- A closure does to a session what some calls do.
  record Makes {T : Type 0} (f : Body Session T) (cs : List Calls.Call) : Type 0 where
    made : (s : Session) → (f s).1 ≡ run xxh3_64 s cs

  -- A body behind an argument that the code reads as the caller means it.
  with_arg-Makes :
      {A T : Type 0} (r : Result Text A) (o : Option A) (k : A → Body Session T)
      (f : A → List Calls.Call)
      → to_option r ≡ o
      → ((a : A) → Makes (k a) (f a))
      → Makes (with_arg r k) (behind o f)
  unfolding with_arg run
  with_arg-Makes (ok a) o k f e h =
      subst (λ x. Makes (with_arg (ok a) k) (behind x f)) e (record { made = (h a).made })
  with_arg-Makes (err msg) o k f e h =
      subst (λ x. Makes (with_arg (err msg) k) (behind x f)) e (record { made = λ s. refl })

  -- What a call leaves behind the handle.
  handle-lem :
      (f : Body Session Status) (cs : List Calls.Call) (s : Session) (e : Option Text)
      → Makes f cs
      → (run_catching Status.panic
          (as_session_mut f)
          (record { memory = some s; last_error = e })).1.memory
        ≡ some (run xxh3_64 s cs)
  unfolding run_catching as_session_mut
  handle-lem f cs s e h =
      caught-memory Status.panic (as_session_mut f (some s)) e ∙ ap some (h.made s)

  drain-lem :
      (s : Session) (out : Option (List PendingHash)) (capacity : ℕ)
      → (drain_into capacity (some s, out)).1.0
        ≡ some (run xxh3_64 s (calls_of (Request.take_pending_hashes out capacity)))
  unfolding drain_into run apply
  drain-lem s none zero = refl
  drain-lem s none (suc capacity) = rw (suc_nonzero capacity) refl
  drain-lem s (some out) capacity = refl

  check-lem :
      (s : Session) (found : Option Bool) (tick : Option ℕ)
      → (check_into (some s, record { out_found = found; out_tick = tick })).1.0
        ≡ some (
            run xxh3_64 s
              (calls_of (Request.check_divergence (record { out_found = found; out_tick = tick }))))
  unfolding check_into run apply
  check-lem s none tick = refl
  check-lem s (some found) none = refl
  check-lem s (some found) (some tick) = refl

  perform-lem :
      (s : Session) (e : Option Text) (q : Request)
      → (perform xxh3_64 display utf8_error (record { memory = some s; last_error = e }) q).memory
        ≡ some (run xxh3_64 s (calls_of q))
  unfolding perform Entry.foldback_hash_tick Entry.foldback_record_peer_hash
      Entry.foldback_hash_entity Entry.foldback_record_peer_entity_hash Entry.foldback_hash_field
      Entry.foldback_record_peer_field_hash Entry.foldback_record_schema
      Entry.foldback_finish_recording foldback_take_pending_hashes foldback_check_divergence
      run_catching run apply
  perform-lem s e (Request.hash_tick tick state len) = handle-lem _ _ s e (
      with_arg-Makes _ _ _ _ (bytes_from_raw_lem state len) (λ bytes. record {
        made = λ s'.
            finish_with-session display (ascii "hash_tick")
              (Session.hash_tick xxh3_64 tick bytes s');
      }))
  perform-lem s e (Request.record_peer_hash tick peer hash) =
      handle-lem _ (Calls.Call.record_peer_hash tick peer hash ∷ []) s e (record {
        made = λ s'.
            finish_with-session display (ascii "record_peer_hash")
              (Session.record_peer_hash tick peer hash s');
      })
  perform-lem s e (Request.hash_entity tick entity state len) = handle-lem _ _ s e (
      with_arg-Makes _ _ _ _ (bytes_from_raw_lem state len) (λ bytes. record {
        made = λ s'.
            finish_with-session display (ascii "hash_entity")
              (Session.hash_entity xxh3_64 tick entity bytes s');
      }))
  perform-lem s e (Request.record_peer_entity_hash tick peer entity hash) =
      handle-lem _ (Calls.Call.record_peer_entity_hash tick peer entity hash ∷ []) s e (record {
        made = λ s'.
            finish_with-session display (ascii "record_peer_entity_hash")
              (Session.record_peer_entity_hash tick peer entity hash s');
      })
  perform-lem s e (Request.hash_field tick entity name value len) = handle-lem _ _ s e (
      with_arg-Makes _ _ _ _ (str_from_raw_lem utf8_error name (ascii "field_name")) (λ n.
        with_arg-Makes _ _ _ _ (bytes_from_raw_lem value len) (λ bytes. record {
          made = λ s'.
              finish_with-session display (ascii "hash_field")
                (Session.hash_field xxh3_64 tick entity n bytes s');
        })))
  perform-lem s e (Request.record_peer_field_hash tick peer entity name hash value len) =
      handle-lem _ _ s e (
        with_arg-Makes _ _ _ _ (str_from_raw_lem utf8_error name (ascii "field_name")) (λ n.
          with_arg-Makes _ _ _ _ (bytes_from_raw_lem value len) (λ bytes. record {
            made = λ s'.
                finish_with-session display (ascii "record_peer_field_hash")
                  (Session.record_peer_field_hash tick peer entity n hash bytes s');
          })))
  perform-lem s e (Request.record_schema name fields count) = handle-lem _ _ s e (
      with_arg-Makes _ _ _ _ (str_from_raw_lem utf8_error name (ascii "type_name")) (λ n.
        with_arg-Makes _ _ _ _ (field_names_from_raw_lem utf8_error fields count) (λ fs. record {
          made = λ s'.
              finish_with-session display (ascii "record_schema") (Session.record_schema n fs s');
        })))
  perform-lem s e Request.finish_recording =
      handle-lem _ (Calls.Call.finish_recording ∷ []) s e (record {
        made = λ s'.
            finish_with-session display (ascii "finish_recording") (Session.finish_recording s');
      })
  perform-lem s e (Request.take_pending_hashes out capacity) =
      ap (λ (m : Handle × Option (List PendingHash)). m.0)
        (caught-memory 0 (drain_into capacity (some s, out)) e)
      ∙ drain-lem s out capacity
  perform-lem s e (Request.check_divergence f) =
      ap (λ (m : Handle × Found). m.0) (caught-memory Status.panic (check_into (some s, f)) e)
      ∙ check-lem s f.out_found f.out_tick

  -- Any sequence of C calls on a live handle, with any arguments and whatever the session's own
  -- calls return, leaves behind the handle the session that the corresponding calls of the Rust
  -- API leave, on the texts and the bytes that the caller's pointers and lengths stand for. A call
  -- makes none where a text is null or not UTF-8, where an array is null and its length is not
  -- zero, or where `foldback_check_divergence` lacks one of the places to write to.
  pub perform_all-run :
      (s : Session) (e : Option Text) (qs : List Request)
      → (perform_all xxh3_64 display utf8_error
          (record { memory = some s; last_error = e })
          qs).memory
        ≡ some (run xxh3_64 s (all_calls qs))
  unfolding run
  perform_all-run s e [] = refl
  perform_all-run s e (q ∷ qs) =
      ap
        (λ m.
          (perform_all xxh3_64 display utf8_error
            (record {
              memory = m;
              last_error =
                  (perform xxh3_64 display utf8_error (record { memory = some s; last_error = e })
                    q).last_error;
            })
            qs).memory)
        (perform-lem s e q)
      ∙ perform_all-run (run xxh3_64 s (calls_of q))
          (perform xxh3_64 display utf8_error (record { memory = some s; last_error = e })
            q).last_error
          qs
      ∙ ap some (sym (foldl-append (apply xxh3_64) s (calls_of q) (all_calls qs)))

-- ===== src/Ffi/Errors.antt =====
-- What the calls of the C interface report.
use foldback.Prelude.{ℕ, ◌≡◌, refl, ◌⊎◌, inl, inr, Bool-cases, Option, none, some, List, subst}
use foldback.Prelude.Utf8.{Text, ascii}
use foldback.Error.{Error, Result, ok, err}
use foldback.Session
use foldback.Session.{Session}
use foldback.Ffi.Codes.{Status}
use foldback.Ffi.{
  Thread, Outcome, returned, Body, run_catching, caught, set_last_error, clear_last_error,
  as_session_mut,
}
use foldback.Ffi.{with_arg, str_from_raw, bytes_from_raw, finish_with}
use foldback.Ffi.Entry
use foldback.Ffi.Entry.{Handle, field_names_from_raw}
use foldback.Ffi.Out.{
  check_into, null_found, foldback_check_divergence, foldback_take_pending_hashes,
}
use foldback.Ffi.Requests.{Request, perform, status_of}

-- `Ok` and no error, or `Panic` and an error.
abbrev pub Reported : Status → Option Text → Type 0
Reported st e =
    ((st ≡ Status.ok) × (e ≡ none)) ⊎ ((st ≡ Status.panic) × ((msg : Text) × (e ≡ some msg)))

-- A closure that returns `Ok` or a message.
abbrev Ends : Outcome Status → Type 0
Ends o = (o ≡ returned (ok Status.ok)) ⊎ ((msg : Text) × (o ≡ returned (err msg)))

abbrev AlwaysEnds : {S : Type 0} → Body S Status → Type 0
AlwaysEnds {S} f = (m : S) → Ends (f m).0

caught-Reported :
    {S : Type 0} (o : Outcome Status) (m : S) (e : Option Text)
    → Ends o
    → Reported (caught Status.panic (o, m) e).0 (caught Status.panic (o, m) e).1.last_error
unfolding caught set_last_error clear_last_error
caught-Reported o m e (inl p) = rw p (inl (refl, refl))
caught-Reported o m e (inr (msg, p)) = rw p (inr (refl, (msg, refl)))

run_catching-Reported :
    {S : Type 0} (f : Body S Status) (t : Thread S)
    → AlwaysEnds f
    → Reported (run_catching Status.panic f t).0 (run_catching Status.panic f t).1.last_error
unfolding run_catching
run_catching-Reported f t h =
    caught-Reported (f t.memory).0 (f t.memory).1 t.last_error (h t.memory)

finish_with-Ends :
    (display : Error → Text) (op : Text) (x : Result Error (Unit {0}) × Session)
    → Ends (finish_with display op x).0
unfolding finish_with
finish_with-Ends display op (ok u, s) = inl refl
finish_with-Ends display op (err e, s) = inr (_, refl)

with_arg-Ends :
    {A S : Type 0} (r : Result Text A) (k : A → Body S Status)
    → ((a : A) → AlwaysEnds (k a))
    → AlwaysEnds (with_arg r k)
unfolding with_arg
with_arg-Ends (ok a) k h s = h a s
with_arg-Ends (err msg) k h s = inr (msg, refl)

as_session_mut-Ends : (f : Body Session Status) → AlwaysEnds f → AlwaysEnds (as_session_mut f)
unfolding as_session_mut
as_session_mut-Ends f h none = inr (_, refl)
as_session_mut-Ends f h (some s) = h s

check_into-Ends : AlwaysEnds check_into
unfolding check_into
check_into-Ends (none, f) = inr (_, refl)
check_into-Ends (some s, f) = elim (Bool-cases (null_found f)) [
  | inl e ↦ rw e (inr (_, refl))
  | inr e ↦ rw e (inl refl)
]

handle-Reported :
    (f : Body Session Status) (t : Thread Handle)
    → AlwaysEnds f
    → Reported
        (run_catching Status.panic (as_session_mut f) t).0
        (run_catching Status.panic (as_session_mut f) t).1.last_error
handle-Reported f t h = run_catching-Reported (as_session_mut f) t (as_session_mut-Ends f h)

module _ (xxh3_64 : List ℕ → ℕ) (display : Error → Text) (utf8_error : List ℕ → Text) where
  status-Reported :
      (t : Thread Handle) (q : Request)
      → (status_of xxh3_64 display utf8_error t q ≡ none)
        ⊎ ((st : Status) × (status_of xxh3_64 display utf8_error t q ≡ some st)
            × Reported st (perform xxh3_64 display utf8_error t q).last_error)
  unfolding status_of perform Entry.foldback_hash_tick Entry.foldback_record_peer_hash
      Entry.foldback_hash_entity Entry.foldback_record_peer_entity_hash Entry.foldback_hash_field
      Entry.foldback_record_peer_field_hash Entry.foldback_record_schema
      Entry.foldback_finish_recording foldback_check_divergence
  status-Reported t (Request.hash_tick tick state len) = inr (
    _,
    refl,
    handle-Reported _ t (
        with_arg-Ends (bytes_from_raw state len) _ (λ bytes s.
          finish_with-Ends display (ascii "hash_tick") (Session.hash_tick xxh3_64 tick bytes s))),
  )
  status-Reported t (Request.record_peer_hash tick peer hash) = inr (
    _,
    refl,
    handle-Reported _ t (λ s.
        finish_with-Ends display (ascii "record_peer_hash")
          (Session.record_peer_hash tick peer hash s)),
  )
  status-Reported t (Request.hash_entity tick entity state len) = inr (
    _,
    refl,
    handle-Reported _ t (
        with_arg-Ends (bytes_from_raw state len) _ (λ bytes s.
          finish_with-Ends display (ascii "hash_entity")
            (Session.hash_entity xxh3_64 tick entity bytes s))),
  )
  status-Reported t (Request.record_peer_entity_hash tick peer entity hash) = inr (
    _,
    refl,
    handle-Reported _ t (λ s.
        finish_with-Ends display (ascii "record_peer_entity_hash")
          (Session.record_peer_entity_hash tick peer entity hash s)),
  )
  status-Reported t (Request.hash_field tick entity name value len) = inr (
    _,
    refl,
    handle-Reported _ t (
        with_arg-Ends (str_from_raw utf8_error name (ascii "field_name")) _ (λ n.
          with_arg-Ends (bytes_from_raw value len) _ (λ bytes s.
            finish_with-Ends display (ascii "hash_field")
              (Session.hash_field xxh3_64 tick entity n bytes s)))),
  )
  status-Reported t (Request.record_peer_field_hash tick peer entity name hash value len) = inr (
    _,
    refl,
    handle-Reported _ t (
        with_arg-Ends (str_from_raw utf8_error name (ascii "field_name")) _ (λ n.
          with_arg-Ends (bytes_from_raw value len) _ (λ bytes s.
            finish_with-Ends display (ascii "record_peer_field_hash")
              (Session.record_peer_field_hash tick peer entity n hash bytes s)))),
  )
  status-Reported t (Request.record_schema name fields count) = inr (
    _,
    refl,
    handle-Reported _ t (
        with_arg-Ends (str_from_raw utf8_error name (ascii "type_name")) _ (λ n.
          with_arg-Ends (field_names_from_raw utf8_error fields count) _ (λ fs s.
            finish_with-Ends display (ascii "record_schema") (Session.record_schema n fs s)))),
  )
  status-Reported t Request.finish_recording = inr (
    _,
    refl,
    handle-Reported _ t
        (λ s. finish_with-Ends display (ascii "finish_recording") (Session.finish_recording s)),
  )
  status-Reported t (Request.take_pending_hashes out capacity) = inl refl
  status-Reported t (Request.check_divergence f) = inr (
    _,
    refl,
    run_catching-Reported check_into (record { memory = (t.memory, f); last_error = t.last_error })
        check_into-Ends,
  )

  -- Every status that a C call returns is `Ok`, and then the thread's last error is cleared, or
  -- `Panic`, and then the last error holds a message; no other status is ever returned.
  pub status_of-Reported :
      (t : Thread Handle) (q : Request) (st : Status)
      → status_of xxh3_64 display utf8_error t q ≡ some st
      → Reported st (perform xxh3_64 display utf8_error t q).last_error
  status_of-Reported t q st e = elim (status-Reported t q) [
    | inl n ↦ absurd (cc (n, e))
    | inr (st', e', h) ↦
        subst (λ x. Reported x (perform xxh3_64 display utf8_error t q).last_error) (cc (e', e)) h
  ]

  -- Every C call that can change a session, made on a null handle, leaves the handle null and sets
  -- the last error to the text `session was null`.
  perform-null :
      (e : Option Text) (q : Request)
      → perform xxh3_64 display utf8_error (record { memory = none; last_error = e }) q
        ≡ record { memory = none; last_error = some (ascii "session was null") }
  unfolding perform Entry.foldback_hash_tick Entry.foldback_record_peer_hash
      Entry.foldback_hash_entity Entry.foldback_record_peer_entity_hash Entry.foldback_hash_field
      Entry.foldback_record_peer_field_hash Entry.foldback_record_schema
      Entry.foldback_finish_recording foldback_check_divergence foldback_take_pending_hashes
      run_catching as_session_mut caught set_last_error
  perform-null e (Request.hash_tick _ _ _) = refl
  perform-null e (Request.record_peer_hash _ _ _) = refl
  perform-null e (Request.hash_entity _ _ _ _) = refl
  perform-null e (Request.record_peer_entity_hash _ _ _ _) = refl
  perform-null e (Request.hash_field _ _ _ _ _) = refl
  perform-null e (Request.record_peer_field_hash _ _ _ _ _ _ _) = refl
  perform-null e (Request.record_schema _ _ _) = refl
  perform-null e Request.finish_recording = refl
  perform-null e (Request.take_pending_hashes _ _) = refl
  perform-null e (Request.check_divergence _) = refl

-- ===== src/Ffi/Out.antt =====
-- crates/foldback-sys/src/lib.rs: the entry points that write through the caller's pointers.
use foldback.Prelude.{ℕ, ◌-◌, ◌+◌, Bool, true, false, Option, none, some, List, ◌∷◌, ◌++◌}
use foldback.Prelude.{◌==◌, if◌then◌else◌, length, take, drop, min}
use foldback.Prelude.Utf8.{Text, ascii}
use foldback.Error.{ok, err}
use foldback.Session
use foldback.Session.{Session, SessionBuilder, PendingHash, default_builder, build}
use foldback.Ffi.Codes.{Status}
use foldback.Ffi.{Thread, returned, Body, run_catching}
use foldback.Ffi.Entry.{Handle}

-- What a call writes through the two pointers of `foldback_check_divergence`: none is a null pointer.
pub record Found : Type 0 where
  pub out_found : Option Bool
  pub out_tick : Option ℕ

abbrev pub null_found : Found → Bool
null_found f = elim f.out_found [
  | none ↦ true
  | some _ ↦ elim f.out_tick [ none ↦ true | some _ ↦ false ]
]

abbrev pub write_found : Option ℕ → Found → Found
write_found none f = record f { out_found = some false }
write_found (some tick) f = record { out_found = some true; out_tick = some tick }

-- `*out.add(i) = …` for each item.
abbrev pub write_out : List PendingHash → List PendingHash → List PendingHash
write_out items out = items ++ drop (length items) out

-- The session, and the caller's array for the hashes.
abbrev pub Out : Type 0
Out = Handle × Option (List PendingHash)

unfoldable pub drain_into : ℕ → Body Out ℕ
drain_into out_capacity (none, out) = (returned (err (ascii "session was null")), (none, out))
drain_into out_capacity (some s, none) =
    if out_capacity == 0
    then (let (drained, s') = Session.take_pending_hashes_up_to 0 s in
        (returned (ok (length drained)), (some s', none)))
    else (returned (err (ascii "out was null but out_capacity was nonzero")), (some s, none))
drain_into out_capacity (some s, some out) =
    let (drained, s') = Session.take_pending_hashes_up_to out_capacity s in
    (returned (ok (length drained)), (some s', some (write_out drained out)))

unfoldable pub foldback_take_pending_hashes : ℕ → Thread Out → ℕ × Thread Out
unfolding drain_into
foldback_take_pending_hashes out_capacity = run_catching 0 (drain_into out_capacity)

unfoldable pub check_into : Body (Handle × Found) Status
check_into (none, f) = (returned (err (ascii "session was null")), (none, f))
check_into (some s, f) =
    if null_found f
    then (returned (err (ascii "out_found or out_tick was null")), (some s, f))
    else (let (d, s') = Session.check_divergence s in
        (returned (ok Status.ok), (some s', write_found d f)))

unfoldable pub foldback_check_divergence :
    Thread (Handle × Found) → Status × Thread (Handle × Found)
unfolding check_into
foldback_check_divergence = run_catching Status.panic check_into

-- What `foldback_last_error` leaves in the caller's buffer of `buf_len` bytes.
unfoldable pub copy_message : Text → Option (List ℕ) → ℕ → Option (List ℕ)
copy_message msg none buf_len = none
copy_message msg (some buf) buf_len =
    if buf_len == 0
    then some buf
    else (let copy_len = min (length msg) (buf_len - 1) in
        some (take copy_len msg ++ (0 ∷ drop (copy_len + 1) buf)))

-- `foldback_last_error`, from the thread's slot: the message's length and the buffer after it.
unfoldable pub foldback_last_error : Option Text → Option (List ℕ) → ℕ → ℕ × Option (List ℕ)
unfolding copy_message
foldback_last_error none buf buf_len = (0, buf)
foldback_last_error (some msg) buf buf_len = (length msg, copy_message msg buf buf_len)

-- ===== src/Ffi.antt =====
-- crates/foldback-sys/src/lib.rs: what the entry points of the C interface share. A pointer that
-- the caller passes is `none` if it is null, else what it points to. The last error of a thread is
-- a part of the state that a call takes and leaves.
pub mod Codes
pub mod Entry
pub mod Create
pub mod Out
pub mod Arguments
pub mod Requests
pub mod Errors
pub mod Refinement
pub mod Buffers
mod Tests
use foldback.Prelude.{
  ℕ, Bool, true, false, Option, none, some, List, [], ◌∷◌, ◌++◌, ◌==◌, if◌then◌else◌, take,
}
use foldback.Prelude.Utf8.{Text, is_utf8, ascii}
use foldback.Error.{Error, Result, ok, err}
use foldback.Session.{Session}
use foldback.Ffi.Codes.{Status}

pub record Config : Type 0 where
  pub tick_rate_hz : ℕ
  pub peer_count : ℕ
  pub local_peer_id : ℕ
  pub retention : ℕ
  pub build_id : List ℕ
  pub record_to_path : Option (List ℕ)

-- The thread's last error beside the memory that a call works on.
pub record Thread (S : Type 0) : Type 0 where
  pub memory : S
  pub last_error : Option Text

-- How the closure of an entry point ends: it returns, or it panics with a payload that is a text
-- or is none.
pub data Outcome (T : Type 0) : Type 0 where
  returned : Result Text T → Outcome T
  panicked : Option Text → Outcome T

-- The closure of an entry point.
abbrev pub Body : Type 0 → Type 0 → Type 0
Body S T = S → Outcome T × S

module _ {S : Type 0} where
  unfoldable pub set_last_error : Text → Thread S → Thread S
  set_last_error msg t = record t { last_error = some msg }

  unfoldable pub clear_last_error : Thread S → Thread S
  clear_last_error t = record t { last_error = none }

-- The message of a panic.
abbrev pub panic_message : Option Text → Text
panic_message (some msg) = msg
panic_message none = ascii "panic in foldback-sys"

module _ {S T : Type 0} where
  unfoldable pub caught : T → Outcome T × S → Option Text → T × Thread S
  unfolding set_last_error clear_last_error
  caught default (returned (ok v), m) e =
      (v, clear_last_error (record { memory = m; last_error = e }))
  caught default (returned (err msg), m) e =
      (default, set_last_error msg (record { memory = m; last_error = e }))
  caught default (panicked payload, m) e =
      (default, set_last_error (panic_message payload) (record { memory = m; last_error = e }))

  unfoldable pub run_catching : T → Body S T → Thread S → T × Thread S
  unfolding caught
  run_catching default f t = caught default (f t.memory) t.last_error

-- `as_session_mut` and `?`: the rest of a closure works on the session behind the handle.
unfoldable pub as_session_mut : {T : Type 0} → Body Session T → Body (Option Session) T
as_session_mut f none = (returned (err (ascii "session was null")), none)
as_session_mut f (some s) = ((f s).0, some (f s).1)

unfoldable pub as_session_ref : {T : Type 0} → (Session → T) → Body (Option Session) T
as_session_ref f none = (returned (err (ascii "session was null")), none)
as_session_ref f (some s) = (returned (ok (f s)), some s)

-- `?` on an argument: the rest of a closure, if the argument is good.
unfoldable pub with_arg : {A S T : Type 0} → Result Text A → (A → Body S T) → Body S T
with_arg (ok a) f s = f a s
with_arg (err msg) f s = (returned (err msg), s)

-- `utf8_error` renders the error of `CStr::to_str` on some bytes.
module _ (utf8_error : List ℕ → Text) where
  unfoldable pub str_from_raw : Option (List ℕ) → Text → Result Text Text
  str_from_raw none label = err (label ++ ascii " was null")
  str_from_raw (some bytes) label =
      if is_utf8 bytes
      then ok bytes
      else err (label ++ (ascii " was not valid UTF-8: " ++ utf8_error bytes))

unfoldable pub bytes_from_raw : Option (List ℕ) → ℕ → Result Text (List ℕ)
bytes_from_raw none len =
    if len == 0 then ok [] else err (ascii "state pointer was null but len was nonzero")
bytes_from_raw (some bytes) len = if len == 0 then ok [] else ok (take len bytes)

-- `map_err(|e| format!("{op} failed: {e}"))?` and then `Status::Ok`; `display` renders the error.
module _ (display : Error → Text) where
  unfoldable pub finish_with : Text → Result Error (Unit {0}) × Session → Outcome Status × Session
  finish_with op (ok _, s) = (returned (ok Status.ok), s)
  finish_with op (err e, s) = (returned (err (op ++ (ascii " failed: " ++ display e))), s)

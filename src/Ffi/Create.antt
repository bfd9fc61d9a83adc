-- ===== src/Ffi/Create.antt =====
-- crates/foldback-sys/src/lib.rs: `foldback_session_create` and `foldback_session_destroy`.
use foldback.Prelude.{ℕ, Option, none, some, List, ◌++◌}
use foldback.Prelude.{◌==◌, if◌then◌else◌}
use foldback.Prelude.Utf8.{Text, ascii}
use foldback.Error.{IoError, Error, Result, ok, err}
use foldback.Io.{Writer}
use foldback.Session.{SessionBuilder, default_builder, build}
use foldback.Session.Builder
use foldback.Ffi.{Config, Thread, returned, run_catching}
use foldback.Ffi.{str_from_raw}
use foldback.Ffi.Entry.{Handle}

module _ (utf8_error : List ℕ → Text) where
  -- `record_to_path`
  unfoldable pub path_from_raw : Option (List ℕ) → Result Text (Option Text)
  path_from_raw none = ok none
  path_from_raw (some bytes) =
      elim (str_from_raw utf8_error (some bytes) (ascii "record_to_path")) [
        | ok path ↦ ok (some path)
        | err msg ↦ err msg
      ]

abbrev pub with_retention : ℕ → SessionBuilder → SessionBuilder
with_retention n b = if n == 0 then b else Builder.retention n b

abbrev pub with_path : Option Text → SessionBuilder → SessionBuilder
with_path none b = b
with_path (some path) b = Builder.record_to path b

-- The builder that a configuration asks for.
unfoldable pub builder_of : Config → Option Text → SessionBuilder
builder_of config record_to = with_path record_to (
    with_retention config.retention (
      Builder.build_id config.build_id (
        Builder.local_peer_id config.local_peer_id (
          Builder.peer_count config.peer_count
            (Builder.tick_rate_hz config.tick_rate_hz default_builder)))))

-- `display` renders an `Error`, `utf8_error` the error of `CStr::to_str`, and `create` is
-- `File::create`.
module _ (create : Text → Result IoError Writer) (display : Error → Text)
    (utf8_error : List ℕ → Text) where
  unfoldable pub create_with : Config → Result Text (Option Text) → Result Text Handle
  create_with config (err msg) = err msg
  create_with config (ok record_to) = elim (build create (builder_of config record_to)) [
    | ok s ↦ ok (some s)
    | err e ↦ err (ascii "could not build session: " ++ display e)
  ]

  unfoldable pub create_body : Option Config → Result Text Handle
  unfolding create_with
  create_body none = err (ascii "config was null")
  create_body (some config) = create_with config (path_from_raw utf8_error config.record_to_path)

  unfoldable pub foldback_session_create :
      Option Config → Thread (Unit {0}) → Handle × Thread (Unit {0})
  unfolding create_body
  foldback_session_create config = run_catching none (λ m. (returned (create_body config), m))

-- The box behind the handle is dropped.
unfoldable pub foldback_session_destroy : Handle → Handle
foldback_session_destroy session = none

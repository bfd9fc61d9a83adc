-- ===== src/Godot/Class.antt =====
-- crates/foldback-godot/src/lib.rs: the class `FoldbackSession`. An `i64` is its 64 bits, so that
-- `as u64` and `as i64` change nothing, and `as u32` and `as u16` keep the low bits.
pub mod Calls
mod Tests
use foldback.Prelude.{
  ℕ, zero, suc, ◌-◌, ◌%◌, ◌^◌, ◌&&◌, not, Bool, true, false, if◌then◌else◌, ◌==◌, ltb,
}
use foldback.Prelude.{Option, none, some, List, [], ◌∷◌, ◌++◌, map}
use foldback.Prelude.Utf8.{Text, ascii}
use foldback.Error.{IoError, Error, Result, ok, err}
use foldback.Action.{Action}
use foldback.Io.{Writer}
use foldback.Session
use foldback.Session.{Session, SessionBuilder, PendingHash, default_builder, build}
use foldback.Session.Builder
use foldback.Bisect.{DivergenceTick}
use foldback.Godot.{Heap, WalkError, list_tracked}
use foldback.Godot.Walk

pub record FoldbackSession : Type 0 where
  pub inner : Option Session
  pub last_error : Text

pub data Status : Type 0 where
  done : Status
  not_configured : Status
  failed : Status

-- `as i64`
abbrev pub code : Status → ℕ
code Status.done = 0
code Status.not_configured = 2 ^ 64 - 1
code Status.failed = 2 ^ 64 - 3

abbrev pub as_u32 : ℕ → ℕ
as_u32 x = x % 2 ^ 32

abbrev pub as_u16 : ℕ → ℕ
as_u16 x = x % 2 ^ 16

abbrev pub is_negative : ℕ → Bool
is_negative x = not (ltb x (2 ^ 63))

-- The dictionary of `configure`: what `dict_get_i64` finds at each key, and the path, where it is one.
pub record Config : Type 0 where
  pub tick_rate_hz : Option ℕ
  pub peer_count : Option ℕ
  pub local_peer_id : Option ℕ
  pub retention : Option ℕ
  pub record_to_path : Option Text

abbrev pub or_zero : Option ℕ → ℕ
or_zero none = 0
or_zero (some x) = x

unfoldable pub with_retention : Option ℕ → SessionBuilder → SessionBuilder
with_retention none b = b
with_retention (some n) b = if not (is_negative n) && not (n == 0) then Builder.retention n b else b

unfoldable pub with_path : Option Text → SessionBuilder → SessionBuilder
with_path none b = b
with_path (some []) b = b
with_path (some (c ∷ path)) b = Builder.record_to (c ∷ path) b

unfoldable pub builder_of : ℕ → ℕ → Config → SessionBuilder
unfolding with_retention with_path
builder_of tick_rate_hz peer_count config = with_path config.record_to_path (
    with_retention config.retention (
      Builder.local_peer_id (as_u16 (or_zero config.local_peer_id)) (
        Builder.peer_count (as_u32 peer_count)
          (Builder.tick_rate_hz (as_u32 tick_rate_hz) default_builder))))

abbrev pub fails : {A : Type 0} → A → Text → FoldbackSession → A × FoldbackSession
fails a msg f = (a, record f { last_error = msg })

-- The three bytes are a long dash.
abbrev pub not_configured_error : Text
not_configured_error =
    ascii "session not configured " ++ (226 ∷ 128 ∷ 148 ∷ ascii " call configure() first")

module _ (create : Text → Result IoError Writer) (display : Error → Text) where
  unfoldable pub configured : Result Error Session → FoldbackSession → Bool × FoldbackSession
  configured (ok session) f = (true, record { inner = some session; last_error = [] })
  configured (err e) f = fails false (ascii "could not build session: " ++ display e) f

  unfoldable pub configure_with :
      Option ℕ → Option ℕ → Config → FoldbackSession → Bool × FoldbackSession
  unfolding configured builder_of
  configure_with none peer_count config f =
      fails false (ascii "config missing required key 'tick_rate_hz'") f
  configure_with (some hz) none config f =
      fails false (ascii "config missing required key 'peer_count'") f
  configure_with (some hz) (some peers) config f =
      configured (build create (builder_of hz peers config)) f

  unfoldable pub configure : Config → FoldbackSession → Bool × FoldbackSession
  unfolding configure_with
  configure config f = configure_with config.tick_rate_hz config.peer_count config f

module _ (display : Error → Text) where
  -- The two ends of `with_session`; `op` is the name in the message.
  unfoldable pub settled :
      Text → Result Error (Unit {0}) × Session → FoldbackSession → ℕ × FoldbackSession
  settled op (ok _, s) f = (code Status.done, record { inner = some s; last_error = [] })
  settled op (err e, s) f = (
    code Status.failed,
    record { inner = some s; last_error = op ++ (ascii " failed: " ++ display e) },
  )

  unfoldable pub with_inner :
      Text → Action Session (Unit {0}) → Option Session → FoldbackSession → ℕ × FoldbackSession
  unfolding settled
  with_inner op act none f = fails (code Status.not_configured) not_configured_error f
  with_inner op act (some s) f = settled op (act s) f

  unfoldable pub with_session :
      Text → Action Session (Unit {0}) → FoldbackSession → ℕ × FoldbackSession
  unfolding with_inner
  with_session op act f = with_inner op act f.inner f

  module _ (xxh3_64 : List ℕ → ℕ) where
    unfoldable pub hash_tick : ℕ → List ℕ → FoldbackSession → ℕ × FoldbackSession
    unfolding with_session
    hash_tick tick state = with_session (ascii "hash_tick") (Session.hash_tick xxh3_64 tick state)

    unfoldable pub hash_entity : ℕ → ℕ → List ℕ → FoldbackSession → ℕ × FoldbackSession
    unfolding with_session
    hash_entity tick entity_id state =
        with_session (ascii "hash_entity") (Session.hash_entity xxh3_64 tick entity_id state)

    unfoldable pub hash_field : ℕ → ℕ → Text → List ℕ → FoldbackSession → ℕ × FoldbackSession
    unfolding with_session
    hash_field tick entity_id field_name value =
        with_session (ascii "hash_field")
          (Session.hash_field xxh3_64 tick entity_id field_name value)

  unfoldable pub record_peer_hash : ℕ → ℕ → ℕ → FoldbackSession → ℕ × FoldbackSession
  unfolding with_session
  record_peer_hash tick peer_id hash =
      with_session (ascii "record_peer_hash") (Session.record_peer_hash tick (as_u16 peer_id) hash)

  unfoldable pub record_peer_entity_hash : ℕ → ℕ → ℕ → ℕ → FoldbackSession → ℕ × FoldbackSession
  unfolding with_session
  record_peer_entity_hash tick peer_id entity_id hash =
      with_session (ascii "record_peer_entity_hash")
        (Session.record_peer_entity_hash tick (as_u16 peer_id) entity_id hash)

  unfoldable pub record_peer_field_hash :
      ℕ → ℕ → ℕ → Text → ℕ → List ℕ → FoldbackSession → ℕ × FoldbackSession
  unfolding with_session
  record_peer_field_hash tick peer_id entity_id field_name hash value =
      with_session (ascii "record_peer_field_hash")
        (Session.record_peer_field_hash tick (as_u16 peer_id) entity_id field_name hash value)

  unfoldable pub finish_recording : FoldbackSession → ℕ × FoldbackSession
  unfolding with_session
  finish_recording = with_session (ascii "finish_recording") Session.finish_recording

-- Reads: zero where nothing is configured.
unfoldable pub read : (Session → ℕ) → Option Session → ℕ
read f none = 0
read f (some s) = f s

unfoldable pub pending_hash_count : FoldbackSession → ℕ
unfolding read
pending_hash_count f = read Session.pending_hash_count f.inner

unfoldable pub finish : FoldbackSession → ℕ
unfolding read
finish f = read Session.finish f.inner

unfoldable pub tick_rate_hz : FoldbackSession → ℕ
unfolding read
tick_rate_hz f = read Session.tick_rate_hz f.inner

unfoldable pub peer_count : FoldbackSession → ℕ
unfolding read
peer_count f = read Session.peer_count f.inner

-- `max.max(0)`
abbrev pub at_least_zero : ℕ → ℕ
at_least_zero x = if is_negative x then 0 else x

unfoldable pub take_from : ℕ → Option Session → FoldbackSession → List PendingHash × FoldbackSession
take_from max none f = ([], f)
take_from max (some s) f = (
  (Session.take_pending_hashes_up_to max s).0,
  record f { inner = some (Session.take_pending_hashes_up_to max s).1 },
)

unfoldable pub take_pending_hashes : ℕ → FoldbackSession → List PendingHash × FoldbackSession
unfolding take_from
take_pending_hashes max f = take_from (at_least_zero max) f.inner f

-- The entries `found` and `tick`.
unfoldable pub found_entries : Option DivergenceTick → Bool × ℕ
found_entries (some tick) = (true, tick)
found_entries none = (false, 0)

unfoldable pub check_inner : Option Session → FoldbackSession → (Bool × ℕ) × FoldbackSession
unfolding found_entries
check_inner none f = (found_entries none, f)
check_inner (some s) f = (
  found_entries (Session.check_divergence s).0,
  record f { inner = some (Session.check_divergence s).1 },
)

unfoldable pub check_divergence : FoldbackSession → (Bool × ℕ) × FoldbackSession
unfolding check_inner
check_divergence f = check_inner f.inner f

-- `display` renders the error of a walk.
module _ (display : WalkError → Text) (xxh3_64 : List ℕ → ℕ) (heap : Heap) where
  unfoldable pub reflected :
      Result WalkError (List (Text × ℕ)) × Session
      → FoldbackSession
      → List (Text × ℕ) × FoldbackSession
  reflected (ok preview, s) f = (preview, record { inner = some s; last_error = [] })
  reflected (err e, s) f = ([], record { inner = some s; last_error = display e })

  unfoldable pub reflect_inner :
      ℕ → ℕ → Text → ℕ → Option Session → FoldbackSession → List (Text × ℕ) × FoldbackSession
  unfolding reflected
  reflect_inner tick entity_id prefix target none f = fails [] not_configured_error f
  reflect_inner tick entity_id prefix target (some s) f =
      reflected (Walk.hash_reflected xxh3_64 tick entity_id heap prefix target s) f

  unfoldable pub hash_reflected :
      ℕ → ℕ → Text → ℕ → FoldbackSession → List (Text × ℕ) × FoldbackSession
  unfolding reflect_inner
  hash_reflected tick entity_id prefix target f =
      reflect_inner tick entity_id prefix target f.inner f

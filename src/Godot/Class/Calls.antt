-- ===== src/Godot/Class/Calls.antt =====
-- Sequences of calls of the class, beside the calls of the session that it holds.
use foldback.Prelude.{ℕ, ◌≡◌, refl, ap, ◌∙◌, Option, none, some, List, [], ◌∷◌, map, foldl}
use foldback.Prelude.Utf8.{Text, ascii}
use foldback.Error.{Error, Result, ok, err}
use foldback.Action.{Action}
use foldback.Session
use foldback.Session.{Session}
use foldback.Session.Calls.{Call, apply, run}
use foldback.Godot.Class
use foldback.Godot.Class.{
  FoldbackSession, as_u16, at_least_zero, settled, with_inner, with_session, take_from, check_inner,
}

-- A call that can change the session; every number is the bits of an `i64`.
pub data Request : Type 0 where
  hash_tick : ℕ → List ℕ → Request
  record_peer_hash : ℕ → ℕ → ℕ → Request
  hash_entity : ℕ → ℕ → List ℕ → Request
  record_peer_entity_hash : ℕ → ℕ → ℕ → ℕ → Request
  hash_field : ℕ → ℕ → Text → List ℕ → Request
  record_peer_field_hash : ℕ → ℕ → ℕ → Text → ℕ → List ℕ → Request
  finish_recording : Request
  take_pending_hashes : ℕ → Request
  check_divergence : Request

-- The call of the session: a peer keeps its low 16 bits, and a negative maximum is zero.
abbrev pub call_of : Request → Call
call_of (Request.hash_tick tick state) = Call.hash_tick tick state
call_of (Request.record_peer_hash tick peer hash) = Call.record_peer_hash tick (as_u16 peer) hash
call_of (Request.hash_entity tick entity state) = Call.hash_entity tick entity state
call_of (Request.record_peer_entity_hash tick peer entity hash) =
    Call.record_peer_entity_hash tick (as_u16 peer) entity hash
call_of (Request.hash_field tick entity name value) = Call.hash_field tick entity name value
call_of (Request.record_peer_field_hash tick peer entity name hash value) =
    Call.record_peer_field_hash tick (as_u16 peer) entity name hash value
call_of Request.finish_recording = Call.finish_recording
call_of (Request.take_pending_hashes max) = Call.take_pending_hashes_up_to (at_least_zero max)
call_of Request.check_divergence = Call.check_divergence

abbrev pub map_inner : (Session → Session) → Option Session → Option Session
map_inner f none = none
map_inner f (some s) = some (f s)

module _ (display : Error → Text) (xxh3_64 : List ℕ → ℕ) where
  unfoldable pub perform : FoldbackSession → Request → FoldbackSession
  perform f (Request.hash_tick tick state) = (Class.hash_tick display xxh3_64 tick state f).1
  perform f (Request.record_peer_hash tick peer hash) =
      (Class.record_peer_hash display tick peer hash f).1
  perform f (Request.hash_entity tick entity state) =
      (Class.hash_entity display xxh3_64 tick entity state f).1
  perform f (Request.record_peer_entity_hash tick peer entity hash) =
      (Class.record_peer_entity_hash display tick peer entity hash f).1
  perform f (Request.hash_field tick entity name value) =
      (Class.hash_field display xxh3_64 tick entity name value f).1
  perform f (Request.record_peer_field_hash tick peer entity name hash value) =
      (Class.record_peer_field_hash display tick peer entity name hash value f).1
  perform f Request.finish_recording = (Class.finish_recording display f).1
  perform f (Request.take_pending_hashes max) = (Class.take_pending_hashes max f).1
  perform f Request.check_divergence = (Class.check_divergence f).1

  abbrev pub perform_all : FoldbackSession → List Request → FoldbackSession
  perform_all = foldl perform

  settled-inner :
      (op : Text) (x : Result Error (Unit {0}) × Session) (f : FoldbackSession)
      → (settled display op x f).1.inner ≡ some x.1
  unfolding settled
  settled-inner op (ok u, s) f = refl
  settled-inner op (err e, s) f = refl

  with_inner-inner :
      (op : Text) (act : Action Session (Unit {0})) (inner : Option Session) (f : FoldbackSession)
      → f.inner ≡ inner
      → (with_inner display op act inner f).1.inner ≡ map_inner (λ s. (act s).1) inner
  unfolding with_inner
  with_inner-inner op act none f e = e
  with_inner-inner op act (some s) f e = settled-inner op (act s) f

  with_session-inner :
      (op : Text) (act : Action Session (Unit {0})) (f : FoldbackSession)
      → (with_session display op act f).1.inner ≡ map_inner (λ s. (act s).1) f.inner
  unfolding with_session
  with_session-inner op act f = with_inner-inner op act f.inner f refl

  take_from-inner :
      (max : ℕ) (inner : Option Session) (f : FoldbackSession)
      → f.inner ≡ inner
      → (take_from max inner f).1.inner
        ≡ map_inner (λ s. (Session.take_pending_hashes_up_to max s).1) inner
  unfolding take_from
  take_from-inner max none f e = e
  take_from-inner max (some s) f e = refl

  check_inner-inner :
      (inner : Option Session) (f : FoldbackSession)
      → f.inner ≡ inner
      → (check_inner inner f).1.inner ≡ map_inner (λ s. (Session.check_divergence s).1) inner
  unfolding check_inner
  check_inner-inner none f e = e
  check_inner-inner (some s) f e = refl

  perform-inner :
      (f : FoldbackSession) (q : Request)
      → (perform f q).inner ≡ map_inner (λ s. apply xxh3_64 s (call_of q)) f.inner
  unfolding perform apply Class.hash_tick Class.record_peer_hash Class.hash_entity
      Class.record_peer_entity_hash Class.hash_field Class.record_peer_field_hash
      Class.finish_recording Class.take_pending_hashes Class.check_divergence
  perform-inner f (Request.hash_tick tick state) =
      with_session-inner (ascii "hash_tick") (Session.hash_tick xxh3_64 tick state) f
  perform-inner f (Request.record_peer_hash tick peer hash) =
      with_session-inner (ascii "record_peer_hash")
        (Session.record_peer_hash tick (as_u16 peer) hash) f
  perform-inner f (Request.hash_entity tick entity state) =
      with_session-inner (ascii "hash_entity") (Session.hash_entity xxh3_64 tick entity state) f
  perform-inner f (Request.record_peer_entity_hash tick peer entity hash) =
      with_session-inner (ascii "record_peer_entity_hash")
        (Session.record_peer_entity_hash tick (as_u16 peer) entity hash) f
  perform-inner f (Request.hash_field tick entity name value) =
      with_session-inner (ascii "hash_field") (Session.hash_field xxh3_64 tick entity name value) f
  perform-inner f (Request.record_peer_field_hash tick peer entity name hash value) =
      with_session-inner (ascii "record_peer_field_hash")
        (Session.record_peer_field_hash tick (as_u16 peer) entity name hash value) f
  perform-inner f Request.finish_recording =
      with_session-inner (ascii "finish_recording") Session.finish_recording f
  perform-inner f (Request.take_pending_hashes max) =
      take_from-inner (at_least_zero max) f.inner f refl
  perform-inner f Request.check_divergence = check_inner-inner f.inner f refl

  map_inner-run :
      (o : Option Session) (c : Call) (cs : List Call)
      → map_inner (λ s. run xxh3_64 s cs) (map_inner (λ s. apply xxh3_64 s c) o)
        ≡ map_inner (λ s. run xxh3_64 s (c ∷ cs)) o
  unfolding run
  map_inner-run none c cs = refl
  map_inner-run (some s) c cs = refl

  map_inner-nil : (o : Option Session) → o ≡ map_inner (λ s. run xxh3_64 s []) o
  unfolding run
  map_inner-nil none = refl
  map_inner-nil (some s) = refl

  -- Any sequence of calls of the class `FoldbackSession` that can change its session, whatever the
  -- session's own calls return, leaves the session that the corresponding calls of the Rust API
  -- leave, with a peer cut to its low 16 bits and a negative maximum taken as zero; a class
  -- without a session stays without one. The calls that configure the class or hash by reflection
  -- are not among them.
  pub perform_all-run_inner :
      (f : FoldbackSession) (qs : List Request)
      → (perform_all f qs).inner ≡ map_inner (λ s. run xxh3_64 s (map call_of qs)) f.inner
  perform_all-run_inner f [] = map_inner-nil f.inner
  perform_all-run_inner f (q ∷ qs) =
      perform_all-run_inner (perform f q) qs
      ∙ ap (map_inner (λ s. run xxh3_64 s (map call_of qs))) (perform-inner f q)
      ∙ map_inner-run f.inner (call_of q) (map call_of qs)

-- ===== src/Format/Decode/RoundTrip.antt =====
-- `decode_payload` on what `encode_payload` writes.
use foldback.Prelude.{ℕ, ◌≡◌, refl, ap, subst, List, [], ◌++◌, append-nil, arith}
use foldback.Error.{ok}
use foldback.Action.{Action, ◌>>=◌, pure}
use foldback.Format.Frame.{Frame, tick_hash, entity_hash, field_hash, snapshot, metadata}
use foldback.Format.Frame.{end_of_stream, frame_type, encode_payload, FieldsFit}
use foldback.Format.Decode.{Cursor, take_u16, take_u64, take_bytes, take_string, decode_tick_hash}
use foldback.Format.Decode.{decode_entity_hash, decode_field_hash, decode_snapshot}
use foldback.Format.Decode.{decode_metadata, decode_body, decode_payload}
use foldback.Format.Decode.Reads.{Reads, pure-Reads, bind-Reads, take_u16-Reads, take_u64-Reads}
use foldback.Format.Decode.Reads.{take_bytes-Reads, take_string-Reads}

-- The last step of a chain reads the last bytes.
last-Reads :
    {A B : Type 0} (m : Action Cursor A) (f : A → B) (s : List ℕ) (a : A)
    → Reads m s a
    → Reads (m >>= λ x. pure (f x)) s (f a)
last-Reads m f s a h =
    subst (λ t. Reads (m >>= λ x. pure (f x)) t (f a)) (append-nil s)
      (bind-Reads m (λ x. pure (f x)) s [] a (f a) h (pure-Reads (f a)))

decode_body-Reads :
    (f : Frame) → FieldsFit f → Reads (decode_body (frame_type f)) (encode_payload f) f
unfolding decode_body frame_type encode_payload decode_tick_hash decode_entity_hash
    decode_field_hash decode_snapshot decode_metadata
decode_body-Reads (tick_hash tick peer hash) (ht, hp, hh) =
    bind-Reads take_u64 _ _ _ tick _ (take_u64-Reads tick ht) (
      bind-Reads take_u16 _ _ _ peer _ (take_u16-Reads peer hp)
        (last-Reads take_u64 (tick_hash tick peer) _ hash (take_u64-Reads hash hh)))
decode_body-Reads (entity_hash tick peer entity hash) (ht, hp, he, hh) =
    bind-Reads take_u64 _ _ _ tick _ (take_u64-Reads tick ht) (
      bind-Reads take_u16 _ _ _ peer _ (take_u16-Reads peer hp) (
        bind-Reads take_u64 _ _ _ entity _ (take_u64-Reads entity he)
          (last-Reads take_u64 (entity_hash tick peer entity) _ hash (take_u64-Reads hash hh))))
decode_body-Reads (field_hash tick peer entity name hash value) (ht, hp, he, hn, hh, hv) =
    bind-Reads take_u64 _ _ _ tick _ (take_u64-Reads tick ht) (
      bind-Reads take_u16 _ _ _ peer _ (take_u16-Reads peer hp) (
        bind-Reads take_u64 _ _ _ entity _ (take_u64-Reads entity he) (
          bind-Reads take_string _ _ _ name _ (take_string-Reads name hn) (
            bind-Reads take_u64 _ _ _ hash _ (take_u64-Reads hash hh) (
              last-Reads take_bytes (field_hash tick peer entity name hash) _ value
                (take_bytes-Reads value hv))))))
decode_body-Reads (snapshot tick peer compressed) (ht, hp, hc) =
    bind-Reads take_u64 _ _ _ tick _ (take_u64-Reads tick ht) (
      bind-Reads take_u16 _ _ _ peer _ (take_u16-Reads peer hp)
        (last-Reads take_bytes (snapshot tick peer) _ compressed (take_bytes-Reads compressed hc)))
decode_body-Reads (metadata key value) (hk, hv) =
    bind-Reads take_string _ _ _ key _ (take_string-Reads key hk)
      (last-Reads take_string (metadata key) _ value (take_string-Reads value hv))
decode_body-Reads end_of_stream h = pure-Reads end_of_stream

-- The payload of a frame whose fields fit their machine types decodes to that frame, also with
-- further bytes behind it.
pub decode-encode_payload :
    (f : Frame) (more : List ℕ)
    → FieldsFit f
    → decode_payload (frame_type f) (encode_payload f ++ more) ≡ ok f
unfolding decode_payload
decode-encode_payload f more fits =
    let (c', e, h) =
      decode_body-Reads f fits (record { buf = encode_payload f ++ more; pos = 0 }) more
        (record { inside = omega arith; rest = refl }) in
    ap (λ x. x.0) e

pub decode-encode :
    (f : Frame) → FieldsFit f → decode_payload (frame_type f) (encode_payload f) ≡ ok f
decode-encode f fits = rw append-nil at (decode-encode_payload f [] fits)

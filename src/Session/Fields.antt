-- ===== src/Session/Fields.antt =====
-- A field hash in a session whose file takes every write.
use foldback.Prelude.{ℕ, ◌≡◌, ap, ◌∙◌, some, List, [], ◌∷◌, ◌++◌}
use foldback.Prelude.Utf8.{Text}
use foldback.Error.{ok}
use foldback.Io.{vec}
use foldback.Format.Frame.{Frame, field_hash}
use foldback.Session
use foldback.Session.{Session, hash_bytes, record_peer_field_hash}
use foldback.Session.Frames.{HasFile, file_bytes, with_writer-frame}

-- A session of this peer whose file holds the bytes and takes every further write.
pub record Ready (peer : ℕ) (bytes : List ℕ) (s : Session) : Type 0 where
  pub local : s.local_peer_id ≡ peer
  pub file : HasFile bytes s

-- A field is its name and the bytes of its value.
module _ (xxh3_64 : List ℕ → ℕ) (tick entity_id peer : ℕ) where
  abbrev pub frame_of : Text × List ℕ → Frame
  frame_of f = field_hash tick peer entity_id f.0 (hash_bytes xxh3_64 f.1) f.1

  -- The session after a field.
  abbrev pub after_field : Session → List ℕ → Text × List ℕ → Session
  after_field s written f = record s {
    writer = some (vec (written ++ file_bytes (frame_of f ∷ [])));
  }

  pub hash_field-Ready :
      (f : Text × List ℕ) (s : Session) (written : List ℕ)
      → Ready peer written s
      → Session.hash_field xxh3_64 tick entity_id f.0 f.1 s ≡ (ok tt, after_field s written f)
  unfolding Session.hash_field record_peer_field_hash
  hash_field-Ready f s written h =
      with_writer-frame (field_hash tick s.local_peer_id entity_id f.0 (hash_bytes xxh3_64 f.1) f.1)
        s written h.file
      ∙ ap
          (λ p. (
            ok tt,
            record s {
              writer = some (
                  vec (
                    written
                    ++ file_bytes
                        (field_hash tick p entity_id f.0 (hash_bytes xxh3_64 f.1) f.1 ∷ [])));
            },
          ))
          h.local

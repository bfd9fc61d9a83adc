-- ===== src/Bevy/Recorded.antt =====
-- Reflective hashing of a value that lies within the depth limit, in a session whose file takes every
-- write.
use foldback.Prelude.{ℕ, ◌≡◌, refl, sym, ap, ◌∙◌, inl, inr, Bool-cases}
use foldback.Prelude.{some, List, [], ◌∷◌, ◌++◌, map, append-nil, append_assoc}
use foldback.Prelude.Utf8.{Text}
use foldback.Error.{ok}
use foldback.Action.{bind_ok}
use foldback.Io.{vec}
use foldback.Format.Frame.{Frame, metadata}
use foldback.Schema.{schema_metadata_key, fingerprint}
use foldback.Session.{Session, contains_text, record_schema}
use foldback.Session.Frames.{file_bytes, file_bytes-append, schema_frames, with_writer-frame}
use foldback.Bevy.{Value, Fields, join_path}
use foldback.Bevy.{name_or}
use foldback.Bevy.Walk.{walk_root, walked, walk_from_root, hash_reflected}
use foldback.Bevy.Leaves.{}
use foldback.Bevy.Leaves.{tracked_leaves, FitTracked}
use foldback.Session.Fields.{Ready, frame_of}
use foldback.Bevy.Records.{Records, preview_of, pure-Records, bind-Records}
use foldback.Bevy.Walked.{walk-Records}

module _ (xxh3_64 : List ℕ → ℕ) (tick entity_id peer : ℕ) where
  root-Records :
      (tracked : List Text) (fs : Fields) (prefix : Text)
      → FitTracked tracked fs
      → Records xxh3_64 tick entity_id peer
          (walk_root xxh3_64 tick entity_id tracked fs prefix)
          (tracked_leaves tracked fs prefix)
  unfolding walk_root tracked_leaves
  root-Records tracked Fields.end prefix h = pure-Records xxh3_64 tick entity_id peer
  root-Records tracked (Fields.field name v fs) prefix (h, k) =
      elim (Bool-cases (contains_text (name_or name) tracked)) [
        | inl e ↦
            rw (e, walk_root, tracked_leaves)
              (bind-Records xxh3_64 tick entity_id peer
                (walk-Records xxh3_64 tick entity_id peer v 1 (join_path prefix (name_or name))
                  (h e))
                (root-Records tracked fs prefix k))
        | inr e ↦ rw (e, walk_root, tracked_leaves) (root-Records tracked fs prefix k)
      ]
  root-Records tracked (Fields.gap name fs) prefix h = root-Records tracked fs prefix h

  -- The frames of a call: the schema, unless it is recorded already, and the leaves.
  abbrev pub reflected_frames : Session → Text → List Text → Fields → Text → List Frame
  reflected_frames s type_name tracked fs prefix =
      schema_frames (contains_text type_name s.written_schemas) type_name tracked
      ++ map (frame_of xxh3_64 tick entity_id peer) (tracked_leaves tracked fs prefix)

  schema-Ready :
      (type_name : Text) (tracked : List Text) (s : Session) (bytes : List ℕ)
      → Ready peer bytes s
      → (s' : Session) × (record_schema type_name tracked s ≡ (ok tt, s'))
        × Ready peer
            (bytes
              ++ file_bytes
                  (schema_frames (contains_text type_name s.written_schemas) type_name tracked))
            s'
  unfolding record_schema
  schema-Ready type_name tracked s bytes h =
      elim (Bool-cases (contains_text type_name s.written_schemas)) [
        | inl e ↦
            rw (e, record_schema)
              (
                s,
                refl,
                record {
                  local = h.local;
                  file = h.file ∙ ap (λ b. some (vec b)) (sym (append-nil bytes));
                },
              )
        | inr e ↦
            rw (e, record_schema)
              (
                record s {
                  written_schemas = type_name ∷ s.written_schemas;
                  writer = some (
                      vec (
                        bytes
                        ++ file_bytes
                            (metadata (schema_metadata_key type_name) (fingerprint tracked) ∷ [])));
                },
                with_writer-frame (metadata (schema_metadata_key type_name) (fingerprint tracked))
                    (record s { written_schemas = type_name ∷ s.written_schemas }) bytes h.file,
                record { local = h.local; file = refl },
              )
      ]

  -- Let a session's file take every write, and let no tracked field of a struct hold anything
  -- beyond the depth limit. Then `hash_reflected` succeeds and returns the path and hash of every
  -- leaf of the tracked fields, in the order in which `tracked_leaves` lists them; the file grows
  -- by just the frame of the type's schema, if that was not yet recorded, and one field hash with
  -- its value for each of those leaves.
  pub hash_reflected-Ready :
      (s : Session) (type_name : Text) (tracked : List Text) (prefix : Text) (fs : Fields)
      (bytes : List ℕ)
      → Ready peer bytes s
      → FitTracked tracked fs
      → (s' : Session) × (hash_reflected xxh3_64 tick entity_id type_name tracked prefix
            (Value.struct fs)
            s
          ≡ (
            ok (map (preview_of xxh3_64 tick entity_id peer) (tracked_leaves tracked fs prefix)),
            s',
          ))
        × Ready peer (bytes ++ file_bytes (reflected_frames s type_name tracked fs prefix)) s'
  unfolding hash_reflected walk_from_root walked
  hash_reflected-Ready s type_name tracked prefix fs bytes h fit =
      let schema = schema_frames (contains_text type_name s.written_schemas) type_name tracked in
      let (s1, e1, h1) = schema-Ready type_name tracked s bytes h in
      let (s2, e2, h2) =
        (root-Records tracked fs prefix fit).recorded s1 [] (bytes ++ file_bytes schema) h1 in
      (
        s2,
        bind_ok (record_schema type_name tracked)
              (λ _. walk_from_root xxh3_64 tick entity_id tracked fs prefix) e1
            ∙ ap (walked xxh3_64 tick entity_id) e2,
        record {
          local = h2.local;
          file =
              h2.file
              ∙ ap (λ b. some (vec b))
                  (append_assoc bytes (file_bytes schema) (
                      file_bytes (
                        map (frame_of xxh3_64 tick entity_id peer)
                          (tracked_leaves tracked fs prefix)))
                    ∙ ap (λ b. bytes ++ b)
                        (sym (
                          file_bytes-append schema (
                            map (frame_of xxh3_64 tick entity_id peer)
                              (tracked_leaves tracked fs prefix)))));
        },
      )

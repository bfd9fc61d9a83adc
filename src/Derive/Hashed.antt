-- ===== src/Derive/Hashed.antt =====
-- `hash_fields` with the derived implementation, in a session whose file takes every write.
use foldback.Prelude.{
  ℕ, ◌≡◌, refl, sym, ap, ◌∙◌, List, [], ◌∷◌, ◌++◌, map, append-nil, append_assoc, subst,
}
use foldback.Prelude.Utf8.{Text}
use foldback.Error.{ok}
use foldback.Action.{bind_ok}
use foldback.Session.{Session, hash_field}
use foldback.Session.Frames.{file_bytes, file_bytes-append}
use foldback.Session.Fields.{Ready, frame_of, after_field, hash_field-Ready}
use foldback.Syn.{Field, Fields}
use foldback.Derive
use foldback.Derive.{Generated, write_hashed_fields, hash_fields, derive_foldback_hash}
use foldback.Derive.Marked.{hashed_names, derive-hash_calls}

module _ (xxh3_64 : List ℕ → ℕ) (tick entity_id peer : ℕ) (field_bytes : Text → List ℕ) where
  -- A field with the bytes of its value.
  abbrev pub hashed_field : Text → Text × List ℕ
  hashed_field name = (name, field_bytes name)

  write_hashed_fields-Ready :
      (names : List Text) (s : Session) (bytes : List ℕ)
      → Ready peer bytes s
      → (s' : Session) × (write_hashed_fields xxh3_64 tick entity_id field_bytes names s
          ≡ (ok tt, s'))
        × Ready peer
            (bytes
              ++ file_bytes
                  (map (λ name. frame_of xxh3_64 tick entity_id peer (hashed_field name)) names))
            s'
  unfolding write_hashed_fields
  write_hashed_fields-Ready [] s bytes h =
      (s, refl, subst (λ b. Ready peer b s) (sym (append-nil bytes)) h)
  write_hashed_fields-Ready (name ∷ names) s bytes h =
      let f = frame_of xxh3_64 tick entity_id peer (hashed_field name) in
      let (s', e, h') =
        write_hashed_fields-Ready names
          (after_field xxh3_64 tick entity_id peer s bytes (hashed_field name))
          (bytes ++ file_bytes (f ∷ [])) (record { local = h.local; file = refl }) in
      (
        s',
        bind_ok (hash_field xxh3_64 tick entity_id name (field_bytes name))
              (λ _. write_hashed_fields xxh3_64 tick entity_id field_bytes names)
              (hash_field-Ready xxh3_64 tick entity_id peer (hashed_field name) s bytes h)
            ∙ e,
        subst (λ b. Ready peer b s')
            (append_assoc bytes (file_bytes (f ∷ [])) (
                file_bytes (map (λ n. frame_of xxh3_64 tick entity_id peer (hashed_field n)) names))
              ∙ ap (λ b. bytes ++ b)
                  (sym (
                    file_bytes-append (f ∷ [])
                      (map (λ n. frame_of xxh3_64 tick entity_id peer (hashed_field n)) names))))
            h',
      )

  -- Let the derive macro accept a struct with named fields, and let a session's file take every
  -- write. Then `hash_fields` on a value of the struct succeeds, and the file grows by one field
  -- hash for each field whose first `foldback` attribute says `hash`, in the order of the struct,
  -- with the bytes of that field's value, and by nothing else.
  pub hash_fields-Ready :
      (fs : List Field) (g : Generated) (s : Session) (bytes : List ℕ)
      → derive_foldback_hash (Derive.Data.struct (Fields.named fs)) ≡ ok g
      → Ready peer bytes s
      → (s' : Session) × (hash_fields xxh3_64 tick entity_id field_bytes g s ≡ (ok tt, s'))
        × Ready peer
            (bytes
              ++ file_bytes (
                  map
                    (λ name. frame_of xxh3_64 tick entity_id peer (hashed_field name))
                    (hashed_names fs)))
            s'
  unfolding hash_fields
  hash_fields-Ready fs g s bytes e h =
      subst
        (λ names.
          (s' : Session) × (write_hashed_fields xxh3_64 tick entity_id field_bytes g.hash_calls s
            ≡ (ok tt, s'))
          × Ready peer
              (bytes
                ++ file_bytes
                    (map (λ n. frame_of xxh3_64 tick entity_id peer (hashed_field n)) names))
              s')
        (derive-hash_calls fs g e) (write_hashed_fields-Ready g.hash_calls s bytes h)

-- ===== src/Bevy/Records.antt =====
-- What a step of a walk records, when no write to the session's file fails: rules for the pieces of
-- which `walk` is made.
use foldback.Prelude.{ℕ, ◌≤◌, ◌≡◌, refl, sym, ap, ◌∙◌, arith, inl, inr, some}
use foldback.Prelude.{List, [], ◌∷◌, ◌++◌, map, append-nil, append_assoc, subst}
use foldback.Prelude.Utf8.{Text}
use mathlib.Core.List.{map-append}
use mathlib.Core.Path.{fun_ext}
use foldback.Error.{Error, Result, ok}
use foldback.Action.{Action, after, ◌>>◌, pure, bind_ok}
use foldback.Io.{vec}
use foldback.Session
use foldback.Session.{Session, hash_bytes, with_writer, on_writer, record_peer_field_hash}
use foldback.Session.Frames.{file_bytes, file_bytes-append}
use foldback.Bevy.{default_max_depth}
use foldback.Bevy.Walk.{
  Walk, on_session, push_preview, guarded, run_steps, Step, record_field, record_leaf,
}
use foldback.Bevy.Leaves.{Found, Part, part_text, join_parts}
use foldback.Bevy.Walk.{step_text}
use foldback.Prelude.SortBy.{sort_by, place_by}
use foldback.Prelude.Order.{text_ord, text_cmp, Ordering-cases}
use foldback.Session.Fields.{Ready, frame_of, after_field, hash_field-Ready}

module _ (xxh3_64 : List ℕ → ℕ) (tick entity_id peer : ℕ) where
  -- The preview of a leaf.
  abbrev pub preview_of : Found → Text × ℕ
  preview_of f = (f.0, hash_bytes xxh3_64 f.1)

  -- The step succeeds and records just these leaves, in the file and in the preview.
  pub record Records (m : Action Walk (Unit {0})) (fs : List Found) : Type 0 where
    pub recorded :
        (s : Session) (preview : List (Text × ℕ)) (bytes : List ℕ)
        → Ready peer bytes s
        → (s' : Session) × (m (record { session = s; preview = preview })
            ≡ (ok tt, record { session = s'; preview = preview ++ map preview_of fs }))
          × Ready peer (bytes ++ file_bytes (map (frame_of xxh3_64 tick entity_id peer) fs)) s'

  pub pure-Records : Records (pure tt) []
  pure-Records = record {
    recorded = λ s preview bytes h. (
      s,
      ap (λ p. (ok tt, record { session = s; preview = p })) (sym (append-nil preview)),
      record { local = h.local; file = h.file ∙ ap (λ b. some (vec b)) (sym (append-nil bytes)) },
    );
  }

  pub bind-Records :
      {m k : Action Walk (Unit {0})} {fs gs : List Found}
      → Records m fs
      → Records k gs
      → Records (m >> k) (fs ++ gs)
  bind-Records {m} {k} {fs} {gs} hm hk = record {
    recorded = λ s preview bytes h.
        let (s', e, h') = hm.recorded s preview bytes h in
        let (s'', e', h'') =
          hk.recorded s' (preview ++ map preview_of fs)
            (bytes ++ file_bytes (map (frame_of xxh3_64 tick entity_id peer) fs)) h' in
        (
          s'',
          bind_ok m (λ _. k) e
              ∙ e'
              ∙ ap (λ p. (ok tt, record { session = s''; preview = p }))
                  (append_assoc preview (map preview_of fs) (map preview_of gs)
                    ∙ ap (λ p. preview ++ p) (sym (map-append preview_of fs gs))),
          record {
            local = h''.local;
            file =
                h''.file
                ∙ ap (λ b. some (vec b))
                    (append_assoc bytes (file_bytes (map (frame_of xxh3_64 tick entity_id peer) fs))
                        (file_bytes (map (frame_of xxh3_64 tick entity_id peer) gs))
                      ∙ ap (λ b. bytes ++ b)
                          (sym (
                              file_bytes-append (map (frame_of xxh3_64 tick entity_id peer) fs)
                                (map (frame_of xxh3_64 tick entity_id peer) gs))
                            ∙ ap file_bytes
                                (sym (map-append (frame_of xxh3_64 tick entity_id peer) fs gs))));
          },
        );
  }

  pub guarded-Records :
      {act : Action Walk (Unit {0})} {fs : List Found} (depth : ℕ) (path : Text)
      → depth ≤ default_max_depth
      → Records act fs
      → Records (guarded depth path act) fs
  unfolding guarded
  guarded-Records {act} {fs} depth path d h = subst (λ m. Records m fs) (fun_ext open_guard) h
    where
      open_guard : (w : Walk) → act w ≡ guarded depth path act w
      open_guard w = ground arith

  on_session-ok :
      {A : Type 0} (m : Action Session A) (a : A) (s s' : Session) (preview : List (Text × ℕ))
      → m s ≡ (ok a, s')
      → on_session m (record { session = s; preview = preview })
        ≡ (ok a, record { session = s'; preview = preview })
  unfolding on_session
  on_session-ok {A} m a s s' preview e =
      ap (λ (x : Result Error A × Session). (x.0, record { session = x.1; preview = preview })) e

  pub leaf-Records :
      (path : Text) (bytes : List ℕ)
      → Records (record_leaf xxh3_64 tick entity_id path bytes) ((path, bytes) ∷ [])
  unfolding record_leaf record_field push_preview
  leaf-Records path bytes = record {
    recorded = λ s preview written h. (
      after_field xxh3_64 tick entity_id peer s written (path, bytes),
      ap
          (λ x.
            after (after x (λ _. pure (hash_bytes xxh3_64 bytes))) (λ hash. push_preview path hash))
          (on_session-ok (Session.hash_field xxh3_64 tick entity_id path bytes) tt s
            (after_field xxh3_64 tick entity_id peer s written (path, bytes)) preview
            (hash_field-Ready xxh3_64 tick entity_id peer (path, bytes) s written h)),
      record { local = h.local; file = refl },
    );
  }

  -- Steps and parts, entry by entry: one text, and the step records the part.
  pub data Pairs (depth : ℕ) : List Step → List Part → Type 0 where
    nil : Pairs depth [] []
    cons :
        {text : Text} {f : ℕ → Text → Action Walk (Unit {0})} {g : Text → List Found}
        {steps : List Step} {parts : List Part}
        → ((path : Text) → Records (f depth path) (g path))
        → Pairs depth steps parts
        → Pairs depth ((text, f) ∷ steps) ((text, g) ∷ parts)

  place-Pairs :
      {depth : ℕ} (text : Text) (f : ℕ → Text → Action Walk (Unit {0})) (g : Text → List Found)
      {steps : List Step} {parts : List Part}
      → ((path : Text) → Records (f depth path) (g path))
      → Pairs depth steps parts
      → Pairs depth (place_by step_text (text, f) steps) (place_by part_text (text, g) parts)
  unfolding place_by
  place-Pairs text f g h nil = cons h nil
  place-Pairs text f g h (cons {text = u} k ps) = elim (Ordering-cases (text_cmp text u)) [
    | inl e ↦ rw (e, place_by) (cons h (cons k ps))
    | inr (inl e) ↦ rw (e, place_by) (cons h (cons k ps))
    | inr (inr e) ↦ rw (e, place_by) (cons k (place-Pairs text f g h ps))
  ]

  pub sort-Pairs :
      {depth : ℕ} {steps : List Step} {parts : List Part}
      → Pairs depth steps parts
      → Pairs depth (sort_by step_text steps) (sort_by part_text parts)
  unfolding sort_by
  sort-Pairs nil = nil
  sort-Pairs (cons {text = text} {f = f} {g = g} h ps) = place-Pairs text f g h (sort-Pairs ps)

  pub steps-Records :
      (child : Text → Text) {depth : ℕ} {steps : List Step} {parts : List Part}
      → Pairs depth steps parts
      → Records (run_steps child depth steps) (join_parts child parts)
  unfolding run_steps join_parts
  steps-Records child nil = pure-Records
  steps-Records child (cons {text = text} h ps) =
      bind-Records (h (child text)) (steps-Records child ps)

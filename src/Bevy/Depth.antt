-- ===== src/Bevy/Depth.antt =====
-- How deep a value goes that a walk has hashed to its end, in any session.
use foldback.Prelude.{ℕ, ◌≡◌, refl, sym, ap, ◌∙◌, inl, inr, Bool-cases}
use foldback.Prelude.{List, [], if◌then◌else◌}
use foldback.Prelude.Utf8.{Text}
use foldback.Prelude.Order.{text_ord}
use foldback.Error.{Error, Result, ok, err}
use foldback.Action.{◌>>◌, bind_inv}
use foldback.Session.{Session, contains_text, record_schema}
use foldback.Bevy.{Value, Fields, join_path}
use foldback.Bevy.{name_or}
use foldback.Bevy.Walk.{Walk}
use foldback.Bevy.Walk.{walk}
use foldback.Bevy.Walk.{walk_root, walked, walk_from_root, hash_reflected}
use foldback.Bevy.Leaves.{FitTracked}
use foldback.Bevy.Fit.{walk-Fits}

module _ (xxh3_64 : List ℕ → ℕ) (tick entity_id : ℕ) where
  root-FitTracked :
      (tracked : List Text) (fs : Fields) (prefix : Text) (w w' : Walk)
      → walk_root xxh3_64 tick entity_id tracked fs prefix w ≡ (ok tt, w')
      → FitTracked tracked fs
  unfolding walk_root
  root-FitTracked tracked Fields.end prefix w w' e = tt
  root-FitTracked tracked (Fields.gap name fs) prefix w w' e =
      root-FitTracked tracked fs prefix w w' e
  root-FitTracked tracked (Fields.field name v fs) prefix w w' e =
      elim (Bool-cases (contains_text (name_or name) tracked)) [
        | inl b ↦
            let (_, u, e1, e2) =
              bind_inv (walk xxh3_64 tick entity_id v 1 (join_path prefix (name_or name)) w)
                (λ _. walk_root xxh3_64 tick entity_id tracked fs prefix) tt w'
                (ap
                    (λ c.
                      (if c
                          then walk xxh3_64 tick entity_id v 1 (join_path prefix (name_or name))
                            >> walk_root xxh3_64 tick entity_id tracked fs prefix
                          else walk_root xxh3_64 tick entity_id tracked fs prefix)
                        w)
                    (sym b)
                  ∙ e) in
            (
              λ _. walk-Fits xxh3_64 tick entity_id v 1 (join_path prefix (name_or name)) w u e1,
              root-FitTracked tracked fs prefix u w' e2,
            )
        | inr b ↦ (
          λ c. cc,
          root-FitTracked tracked fs prefix w w' (
              ap
                (λ c.
                  (if c
                      then walk xxh3_64 tick entity_id v 1 (join_path prefix (name_or name))
                        >> walk_root xxh3_64 tick entity_id tracked fs prefix
                      else walk_root xxh3_64 tick entity_id tracked fs prefix)
                    w)
                (sym b)
              ∙ e),
        )
      ]

  walked_inv :
      (x : Result Error (Unit {0}) × Walk) (preview : List (Text × ℕ)) (s : Session)
      → walked xxh3_64 tick entity_id x ≡ (ok preview, s)
      → (w : Walk) × (x ≡ (ok tt, w))
  unfolding walked
  walked_inv (ok _, w) preview s e = (w, refl)
  walked_inv (err _, w) preview s e = cc

  -- In any session, whatever its writes do: where `hash_reflected` succeeds on a struct, no
  -- tracked field of it holds a value beyond the depth limit.
  pub hash_reflected-FitTracked :
      (type_name : Text) (tracked : List Text) (prefix : Text) (fs : Fields) (s s' : Session)
      (preview : List (Text × ℕ))
      → hash_reflected xxh3_64 tick entity_id type_name tracked prefix (Value.struct fs) s
        ≡ (ok preview, s')
      → FitTracked tracked fs
  unfolding hash_reflected walk_from_root
  hash_reflected-FitTracked type_name tracked prefix fs s s' preview e =
      let (_, s1, _, e1) =
        bind_inv (record_schema type_name tracked s)
          (λ _. walk_from_root xxh3_64 tick entity_id tracked fs prefix) preview s' e in
      let (w, e2) =
        walked_inv
          (walk_root xxh3_64 tick entity_id tracked fs prefix
            (record { session = s1; preview = [] }))
          preview s' e1 in
      root-FitTracked tracked fs prefix (record { session = s1; preview = [] }) w e2

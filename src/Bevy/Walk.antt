-- ===== src/Bevy/Walk.antt =====
-- crates/foldback-rs/src/bevy.rs: `walk`, `record`, `hash_leaf` and `hash_reflected`. The state of a
-- walk is the session with the preview that it has collected.
use foldback.Prelude.{ℕ, zero, suc, List, [], ◌∷◌, ◌++◌, ltb}
use foldback.Prelude.{if◌then◌else◌}
use foldback.Prelude.Utf8.{Text}
use foldback.Prelude.Order.{text_ord}
use foldback.Prelude.SortBy.{sort_by}
use foldback.Error.{Error, reflection_depth_exceeded, reflection_root_not_struct, Result, ok, err}
use foldback.Action.{Action, ◌>>=◌, ◌>>◌, pure, fail}
use foldback.Session.{Session, hash_bytes, hash_field, record_schema, contains_text}
use foldback.Bevy.{default_max_depth, Value, Fields, Items, Entries, leaf_bytes, decimal, join_path}
use foldback.Bevy.{name_or, dotted, indexed, braced, variant_path, variant_field, label_or}

pub record Walk : Type 0 where
  pub session : Session
  pub preview : List (Text × ℕ)

-- A method of the session, called in a walk.
unfoldable pub on_session : {A : Type 0} → Action Session A → Action Walk A
on_session m w = ((m w.session).0, record w { session = (m w.session).1 })

unfoldable pub push_preview : Text → ℕ → Action Walk (Unit {0})
push_preview path hash w = (ok tt, record w { preview = w.preview ++ ((path, hash) ∷ []) })

-- `if depth > DEFAULT_MAX_DEPTH { return Err(…) }` before what follows.
unfoldable pub guarded : ℕ → Text → Action Walk (Unit {0}) → Action Walk (Unit {0})
guarded depth path act w =
    if ltb default_max_depth depth
    then (err (reflection_depth_exceeded path default_max_depth), w)
    else act w

-- A step for each entry in the order of the entries' texts: what it walks, by its depth and path.
abbrev pub Step : Type 0
Step = Text × (ℕ → Text → Action Walk (Unit {0}))

abbrev pub step_text : Step → Text
step_text s = s.0

unfoldable pub run_steps : (Text → Text) → ℕ → List Step → Action Walk (Unit {0})
run_steps child depth [] = pure tt
run_steps child depth ((text, f) ∷ steps) = f depth (child text) >> run_steps child depth steps

module _ (xxh3_64 : List ℕ → ℕ) (tick entity_id : ℕ) where
  -- `record`
  unfoldable pub record_field : Text → List ℕ → Action Walk ℕ
  record_field path value_bytes = do
    on_session (hash_field xxh3_64 tick entity_id path value_bytes)
    pure (hash_bytes xxh3_64 value_bytes)

  -- `let hash = record(…)?; preview.push((path, hash));`
  unfoldable pub record_leaf : Text → List ℕ → Action Walk (Unit {0})
  unfolding record_field push_preview
  record_leaf path value_bytes = do hash ← record_field path value_bytes; push_preview path hash

  unfoldable mutual
    unfolding guarded run_steps record_leaf

    pub walk : Value → ℕ → Text → Action Walk (Unit {0})
    walk (Value.struct fs) depth path = guarded depth path (walk_named fs (suc depth) path)
    walk (Value.tuple_struct fs) depth path =
        guarded depth path (walk_positions fs zero (suc depth) path)
    walk (Value.tuple fs) depth path = guarded depth path (walk_positions fs zero (suc depth) path)
    walk (Value.list is) depth path = guarded depth path (walk_items is zero (suc depth) path)
    walk (Value.array is) depth path = guarded depth path (walk_items is zero (suc depth) path)
    walk (Value.map es) depth path =
        guarded depth path (run_steps (indexed path) (suc depth) (sort_by step_text (steps es)))
    walk (Value.set es) depth path =
        guarded depth path (run_steps (braced path) (suc depth) (sort_by step_text (steps es)))
    walk (Value.enumeration variant fs) depth path = guarded depth path (
        record_leaf (variant_field (variant_path path variant)) variant
        >> walk_variant fs zero (suc depth) (variant_path path variant))
    walk (Value.opaque leaf) depth path = guarded depth path (record_leaf path (leaf_bytes leaf))

    pub walk_named : Fields → ℕ → Text → Action Walk (Unit {0})
    walk_named Fields.end depth path = pure tt
    walk_named (Fields.field name v fs) depth path =
        walk v depth (join_path path (name_or name)) >> walk_named fs depth path
    walk_named (Fields.gap name fs) depth path = walk_named fs depth path

    pub walk_positions : Fields → ℕ → ℕ → Text → Action Walk (Unit {0})
    walk_positions Fields.end i depth path = pure tt
    walk_positions (Fields.field name v fs) i depth path =
        walk v depth (dotted path (decimal i)) >> walk_positions fs (suc i) depth path
    walk_positions (Fields.gap name fs) i depth path = walk_positions fs (suc i) depth path

    pub walk_variant : Fields → ℕ → ℕ → Text → Action Walk (Unit {0})
    walk_variant Fields.end i depth path = pure tt
    walk_variant (Fields.field name v fs) i depth path =
        walk v depth (dotted path (label_or name i)) >> walk_variant fs (suc i) depth path
    walk_variant (Fields.gap name fs) i depth path = walk_variant fs (suc i) depth path

    pub walk_items : Items → ℕ → ℕ → Text → Action Walk (Unit {0})
    walk_items Items.nil i depth path = pure tt
    walk_items (Items.item v is) i depth path =
        walk v depth (indexed path (decimal i)) >> walk_items is (suc i) depth path

    pub steps : Entries → List Step
    steps Entries.empty = []
    steps (Entries.entry text v es) = (text, λ depth path. walk v depth path) ∷ steps es

  -- The loop over the root's fields: those that are not tracked are passed over.
  unfoldable pub walk_root : List Text → Fields → Text → Action Walk (Unit {0})
  walk_root tracked Fields.end prefix = pure tt
  walk_root tracked (Fields.field name v fs) prefix =
      let rest = walk_root tracked fs prefix in
      if contains_text (name_or name) tracked
      then walk v 1 (join_path prefix (name_or name)) >> rest
      else rest
  walk_root tracked (Fields.gap name fs) prefix = walk_root tracked fs prefix

  -- The preview is returned only when the whole walk succeeds.
  unfoldable pub walked : Result Error (Unit {0}) × Walk → Result Error (List (Text × ℕ)) × Session
  walked (ok _, w) = (ok w.preview, w.session)
  walked (err e, w) = (err e, w.session)

  unfoldable pub walk_from_root : List Text → Fields → Text → Action Session (List (Text × ℕ))
  unfolding walked walk_root
  walk_from_root tracked fs prefix s =
      walked (walk_root tracked fs prefix (record { session = s; preview = [] }))

  -- `type_name` is the name of the root's type and `tracked` its `TRACKED_FIELDS`.
  unfoldable pub hash_reflected : Text → List Text → Text → Value → Action Session (List (Text × ℕ))
  unfolding walk_from_root
  hash_reflected type_name tracked prefix (Value.struct fs) =
      record_schema type_name tracked >> walk_from_root tracked fs prefix
  hash_reflected type_name tracked prefix _ = fail reflection_root_not_struct

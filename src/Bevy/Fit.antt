-- ===== src/Bevy/Fit.antt =====
-- How deep a value goes that `walk` has walked to its end, in any session.
use foldback.Prelude.{ℕ, zero, suc, ◌≤◌, ◌≡◌, refl, ap, ◌∙◌, arith}
use foldback.Prelude.{List, [], ◌∷◌}
use mathlib.Core.List.{Memᴰ}
use foldback.Prelude.Utf8.{Text}
use foldback.Prelude.Order.{text_ord}
use foldback.Prelude.SortBy.{sort_by, mem-sort_by}
use foldback.Error.{ok}
use foldback.Action.{Action, ◌>>◌, bind_inv}
use foldback.Bevy.{Value, Fields, Items, Entries, leaf_bytes, decimal, join_path, default_max_depth}
use foldback.Bevy.{name_or, dotted, indexed, braced, variant_path, variant_field, label_or}
use foldback.Bevy.Walk.{Walk, Step, step_text, guarded, run_steps, record_leaf}
use foldback.Bevy.Walk.{walk, walk_named, walk_positions, walk_variant, walk_items, steps}
use foldback.Bevy.Leaves.{Fits, FitFields, FitItems, FitEntries}

-- The step has succeeded, at this depth, somewhere in the walk.
abbrev Ran : ℕ → Step → Type 0
Ran depth st = (path : Text) × (w : Walk) × (w' : Walk) × (st.1 depth path w ≡ (ok tt, w'))

run_steps-Ran :
    (child : Text → Text) (depth : ℕ) (ss : List Step) (w w' : Walk)
    → run_steps child depth ss w ≡ (ok tt, w')
    → (st : Step) → Memᴰ st ss
    → Ran depth st
unfolding run_steps
run_steps-Ran child depth [] w w' e st m = elim m [ ]
run_steps-Ran child depth ((text, f) ∷ ss) w w' e st m =
    let (_, v, e1, e2) =
      bind_inv (f depth (child text) w) (λ _. run_steps child depth ss) tt w' e in
    ran_at v e1 (λ n. run_steps-Ran child depth ss v w' e2 st n) m
  where
    ran_at :
        (v : Walk)
        → f depth (child text) w ≡ (ok tt, v)
        → (Memᴰ st ss → Ran depth st)
        → Memᴰ st ((text, f) ∷ ss)
        → Ran depth st
    ran_at v e1 rest (Memᴰ.head p) =
        (child text, w, v, ap (λ (q : Step). q.1 depth (child text) w) p ∙ e1)
    ran_at v e1 rest (Memᴰ.tail n) = rest n

guarded_inv :
    (depth : ℕ) (path : Text) (act : Action Walk (Unit {0})) (w w' : Walk)
    → guarded depth path act w ≡ (ok tt, w')
    → (depth ≤ default_max_depth) × (act w ≡ (ok tt, w'))
unfolding guarded
guarded_inv depth path act w w' e = ground (arith, e)

module _ (xxh3_64 : List ℕ → ℕ) (tick entity_id : ℕ) where
  mutual
    unfolding walk walk_named walk_positions walk_variant walk_items steps Fits FitFields FitItems
        FitEntries

    pub walk-Fits :
        (v : Value) (depth : ℕ) (path : Text) (w w' : Walk)
        → walk xxh3_64 tick entity_id v depth path w ≡ (ok tt, w')
        → Fits depth v
    walk-Fits (Value.struct fs) depth path w w' e =
        let (d, e') =
          guarded_inv depth path (walk_named xxh3_64 tick entity_id fs (suc depth) path) w w' e in
        (d, named-FitFields fs (suc depth) path w w' e')
    walk-Fits (Value.tuple_struct fs) depth path w w' e =
        let (d, e') =
          guarded_inv depth path (walk_positions xxh3_64 tick entity_id fs zero (suc depth) path) w
            w' e in
        (d, positions-FitFields fs zero (suc depth) path w w' e')
    walk-Fits (Value.tuple fs) depth path w w' e =
        let (d, e') =
          guarded_inv depth path (walk_positions xxh3_64 tick entity_id fs zero (suc depth) path) w
            w' e in
        (d, positions-FitFields fs zero (suc depth) path w w' e')
    walk-Fits (Value.list is) depth path w w' e =
        let (d, e') =
          guarded_inv depth path (walk_items xxh3_64 tick entity_id is zero (suc depth) path) w w'
            e in
        (d, items-FitItems is zero (suc depth) path w w' e')
    walk-Fits (Value.array is) depth path w w' e =
        let (d, e') =
          guarded_inv depth path (walk_items xxh3_64 tick entity_id is zero (suc depth) path) w w'
            e in
        (d, items-FitItems is zero (suc depth) path w w' e')
    walk-Fits (Value.map es) depth path w w' e =
        let (d, e') =
          guarded_inv depth path
            (run_steps (indexed path) (suc depth)
              (sort_by step_text (steps xxh3_64 tick entity_id es)))
            w w' e in
        (
          d,
          entries-FitEntries es (suc depth) (λ st m.
              run_steps-Ran (indexed path) (suc depth)
                (sort_by step_text (steps xxh3_64 tick entity_id es)) w w' e' st
                (mem-sort_by step_text (steps xxh3_64 tick entity_id es) st m)),
        )
    walk-Fits (Value.set es) depth path w w' e =
        let (d, e') =
          guarded_inv depth path
            (run_steps (braced path) (suc depth)
              (sort_by step_text (steps xxh3_64 tick entity_id es)))
            w w' e in
        (
          d,
          entries-FitEntries es (suc depth) (λ st m.
              run_steps-Ran (braced path) (suc depth)
                (sort_by step_text (steps xxh3_64 tick entity_id es)) w w' e' st
                (mem-sort_by step_text (steps xxh3_64 tick entity_id es) st m)),
        )
    walk-Fits (Value.enumeration variant fs) depth path w w' e =
        let (d, e') =
          guarded_inv depth path
            (record_leaf xxh3_64 tick entity_id (variant_field (variant_path path variant)) variant
              >> walk_variant xxh3_64 tick entity_id fs zero (suc depth)
                  (variant_path path variant))
            w w' e in
        let (_, v, _, e2) =
          bind_inv
            (record_leaf xxh3_64 tick entity_id (variant_field (variant_path path variant)) variant
              w)
            (λ _.
              walk_variant xxh3_64 tick entity_id fs zero (suc depth) (variant_path path variant))
            tt w' e' in
        (d, variant-FitFields fs zero (suc depth) (variant_path path variant) v w' e2)
    walk-Fits (Value.opaque leaf) depth path w w' e =
        let (d, _) =
          guarded_inv depth path (record_leaf xxh3_64 tick entity_id path (leaf_bytes leaf)) w w'
            e in
        (d, tt)

    named-FitFields :
        (fs : Fields) (depth : ℕ) (path : Text) (w w' : Walk)
        → walk_named xxh3_64 tick entity_id fs depth path w ≡ (ok tt, w')
        → FitFields depth fs
    named-FitFields Fields.end depth path w w' e = tt
    named-FitFields (Fields.field name v fs) depth path w w' e =
        let (_, u, e1, e2) =
          bind_inv (walk xxh3_64 tick entity_id v depth (join_path path (name_or name)) w)
            (λ _. walk_named xxh3_64 tick entity_id fs depth path) tt w' e in
        (
          walk-Fits v depth (join_path path (name_or name)) w u e1,
          named-FitFields fs depth path u w' e2,
        )
    named-FitFields (Fields.gap name fs) depth path w w' e = named-FitFields fs depth path w w' e

    positions-FitFields :
        (fs : Fields) (i depth : ℕ) (path : Text) (w w' : Walk)
        → walk_positions xxh3_64 tick entity_id fs i depth path w ≡ (ok tt, w')
        → FitFields depth fs
    positions-FitFields Fields.end i depth path w w' e = tt
    positions-FitFields (Fields.field name v fs) i depth path w w' e =
        let (_, u, e1, e2) =
          bind_inv (walk xxh3_64 tick entity_id v depth (dotted path (decimal i)) w)
            (λ _. walk_positions xxh3_64 tick entity_id fs (suc i) depth path) tt w' e in
        (
          walk-Fits v depth (dotted path (decimal i)) w u e1,
          positions-FitFields fs (suc i) depth path u w' e2,
        )
    positions-FitFields (Fields.gap name fs) i depth path w w' e =
        positions-FitFields fs (suc i) depth path w w' e

    variant-FitFields :
        (fs : Fields) (i depth : ℕ) (path : Text) (w w' : Walk)
        → walk_variant xxh3_64 tick entity_id fs i depth path w ≡ (ok tt, w')
        → FitFields depth fs
    variant-FitFields Fields.end i depth path w w' e = tt
    variant-FitFields (Fields.field name v fs) i depth path w w' e =
        let (_, u, e1, e2) =
          bind_inv (walk xxh3_64 tick entity_id v depth (dotted path (label_or name i)) w)
            (λ _. walk_variant xxh3_64 tick entity_id fs (suc i) depth path) tt w' e in
        (
          walk-Fits v depth (dotted path (label_or name i)) w u e1,
          variant-FitFields fs (suc i) depth path u w' e2,
        )
    variant-FitFields (Fields.gap name fs) i depth path w w' e =
        variant-FitFields fs (suc i) depth path w w' e

    items-FitItems :
        (is : Items) (i depth : ℕ) (path : Text) (w w' : Walk)
        → walk_items xxh3_64 tick entity_id is i depth path w ≡ (ok tt, w')
        → FitItems depth is
    items-FitItems Items.nil i depth path w w' e = tt
    items-FitItems (Items.item v is) i depth path w w' e =
        let (_, u, e1, e2) =
          bind_inv (walk xxh3_64 tick entity_id v depth (indexed path (decimal i)) w)
            (λ _. walk_items xxh3_64 tick entity_id is (suc i) depth path) tt w' e in
        (
          walk-Fits v depth (indexed path (decimal i)) w u e1,
          items-FitItems is (suc i) depth path u w' e2,
        )

    entries-FitEntries :
        (es : Entries) (depth : ℕ)
        → ((st : Step) → Memᴰ st (steps xxh3_64 tick entity_id es) → Ran depth st)
        → FitEntries depth es
    entries-FitEntries Entries.empty depth h = tt
    entries-FitEntries (Entries.entry text v es) depth h =
        let (path, w, w', e) =
          h (text, λ d p. walk xxh3_64 tick entity_id v d p) (Memᴰ.head refl) in
        (walk-Fits v depth path w w' e, entries-FitEntries es depth (λ st m. h st (Memᴰ.tail m)))

-- ===== src/Bevy/Walked.antt =====
-- What `walk` records of a value that lies within the depth limit.
use foldback.Prelude.{ℕ, zero, suc}
use foldback.Prelude.{List}
use foldback.Prelude.Utf8.{Text}
use foldback.Bevy.{Value, Fields, Items, Entries, leaf_bytes, decimal, join_path}
use foldback.Bevy.{name_or, dotted, indexed, braced, variant_path, variant_field, label_or}
use foldback.Bevy.Walk.{walk, walk_named, walk_positions, walk_variant, walk_items, steps}
use foldback.Bevy.Leaves.{
  leaves, leaves_named, leaves_positions, leaves_variant, leaves_items, parts,
}
use foldback.Bevy.Leaves.{Fits, FitFields, FitItems, FitEntries}
use foldback.Bevy.Records.{Records, pure-Records, bind-Records}
use foldback.Bevy.Records.{guarded-Records, leaf-Records, Pairs, sort-Pairs, steps-Records}

module _ (xxh3_64 : List ℕ → ℕ) (tick entity_id peer : ℕ) where
  mutual
    unfolding walk walk_named walk_positions walk_variant walk_items steps Fits FitFields FitItems
        FitEntries leaves leaves_named leaves_positions leaves_variant leaves_items parts

    pub walk-Records :
        (v : Value) (depth : ℕ) (path : Text)
        → Fits depth v
        → Records xxh3_64 tick entity_id peer
            (walk xxh3_64 tick entity_id v depth path)
            (leaves v path)
    walk-Records (Value.struct fs) depth path (d, h) =
        guarded-Records xxh3_64 tick entity_id peer depth path d
          (named-Records fs (suc depth) path h)
    walk-Records (Value.tuple_struct fs) depth path (d, h) =
        guarded-Records xxh3_64 tick entity_id peer depth path d
          (positions-Records fs zero (suc depth) path h)
    walk-Records (Value.tuple fs) depth path (d, h) =
        guarded-Records xxh3_64 tick entity_id peer depth path d
          (positions-Records fs zero (suc depth) path h)
    walk-Records (Value.list is) depth path (d, h) =
        guarded-Records xxh3_64 tick entity_id peer depth path d
          (items-Records is zero (suc depth) path h)
    walk-Records (Value.array is) depth path (d, h) =
        guarded-Records xxh3_64 tick entity_id peer depth path d
          (items-Records is zero (suc depth) path h)
    walk-Records (Value.map es) depth path (d, h) =
        guarded-Records xxh3_64 tick entity_id peer depth path d (
          steps-Records xxh3_64 tick entity_id peer (indexed path)
            (sort-Pairs xxh3_64 tick entity_id peer (entries-Pairs es (suc depth) h)))
    walk-Records (Value.set es) depth path (d, h) =
        guarded-Records xxh3_64 tick entity_id peer depth path d (
          steps-Records xxh3_64 tick entity_id peer (braced path)
            (sort-Pairs xxh3_64 tick entity_id peer (entries-Pairs es (suc depth) h)))
    walk-Records (Value.enumeration variant fs) depth path (d, h) =
        guarded-Records xxh3_64 tick entity_id peer depth path d (
          bind-Records xxh3_64 tick entity_id peer
            (leaf-Records xxh3_64 tick entity_id peer (variant_field (variant_path path variant))
              variant)
            (variant-Records fs zero (suc depth) (variant_path path variant) h))
    walk-Records (Value.opaque leaf) depth path (d, h) =
        guarded-Records xxh3_64 tick entity_id peer depth path d
          (leaf-Records xxh3_64 tick entity_id peer path (leaf_bytes leaf))

    named-Records :
        (fs : Fields) (depth : ℕ) (path : Text)
        → FitFields depth fs
        → Records xxh3_64 tick entity_id peer
            (walk_named xxh3_64 tick entity_id fs depth path)
            (leaves_named fs path)
    named-Records Fields.end depth path h = pure-Records xxh3_64 tick entity_id peer
    named-Records (Fields.field name v fs) depth path (h, k) =
        bind-Records xxh3_64 tick entity_id peer
          (walk-Records v depth (join_path path (name_or name)) h) (named-Records fs depth path k)
    named-Records (Fields.gap name fs) depth path h = named-Records fs depth path h

    positions-Records :
        (fs : Fields) (i depth : ℕ) (path : Text)
        → FitFields depth fs
        → Records xxh3_64 tick entity_id peer
            (walk_positions xxh3_64 tick entity_id fs i depth path)
            (leaves_positions fs i path)
    positions-Records Fields.end i depth path h = pure-Records xxh3_64 tick entity_id peer
    positions-Records (Fields.field name v fs) i depth path (h, k) =
        bind-Records xxh3_64 tick entity_id peer (walk-Records v depth (dotted path (decimal i)) h)
          (positions-Records fs (suc i) depth path k)
    positions-Records (Fields.gap name fs) i depth path h =
        positions-Records fs (suc i) depth path h

    variant-Records :
        (fs : Fields) (i depth : ℕ) (path : Text)
        → FitFields depth fs
        → Records xxh3_64 tick entity_id peer
            (walk_variant xxh3_64 tick entity_id fs i depth path)
            (leaves_variant fs i path)
    variant-Records Fields.end i depth path h = pure-Records xxh3_64 tick entity_id peer
    variant-Records (Fields.field name v fs) i depth path (h, k) =
        bind-Records xxh3_64 tick entity_id peer
          (walk-Records v depth (dotted path (label_or name i)) h)
          (variant-Records fs (suc i) depth path k)
    variant-Records (Fields.gap name fs) i depth path h = variant-Records fs (suc i) depth path h

    items-Records :
        (is : Items) (i depth : ℕ) (path : Text)
        → FitItems depth is
        → Records xxh3_64 tick entity_id peer
            (walk_items xxh3_64 tick entity_id is i depth path)
            (leaves_items is i path)
    items-Records Items.nil i depth path h = pure-Records xxh3_64 tick entity_id peer
    items-Records (Items.item v is) i depth path (h, k) =
        bind-Records xxh3_64 tick entity_id peer (walk-Records v depth (indexed path (decimal i)) h)
          (items-Records is (suc i) depth path k)

    entries-Pairs :
        (es : Entries) (depth : ℕ)
        → FitEntries depth es
        → Pairs xxh3_64 tick entity_id peer depth (steps xxh3_64 tick entity_id es) (parts es)
    entries-Pairs Entries.empty depth h = Pairs.nil
    entries-Pairs (Entries.entry text v es) depth (h, k) =
        Pairs.cons (λ path. walk-Records v depth path h) (entries-Pairs es depth k)

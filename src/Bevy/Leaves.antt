-- ===== src/Bevy/Leaves.antt =====
-- What a reflected value holds: its leaves with their paths, and how deep it goes. Nothing here
-- knows of a session.
use foldback.Prelude.{ℕ, zero, suc, ◌≤◌, true, if◌then◌else◌, ◌≡◌, List, [], ◌∷◌, ◌++◌}
use foldback.Prelude.Utf8.{Text}
use foldback.Prelude.Order.{text_ord}
use foldback.Prelude.SortBy.{sort_by}
use foldback.Session.{contains_text}
use foldback.Bevy.{default_max_depth, Value, Fields, Items, Entries, leaf_bytes, decimal, join_path}
use foldback.Bevy.{name_or, dotted, indexed, braced, variant_path, variant_field, label_or}

-- A path and the bytes of the value there.
abbrev pub Found : Type 0
Found = Text × List ℕ

-- What an entry holds, by the path that it is given.
abbrev pub Part : Type 0
Part = Text × (Text → List Found)

abbrev pub part_text : Part → Text
part_text p = p.0

unfoldable pub join_parts : (Text → Text) → List Part → List Found
join_parts child [] = []
join_parts child ((text, f) ∷ ps) = f (child text) ++ join_parts child ps

unfoldable mutual
  unfolding join_parts

  -- The leaves of a value, those of a map or a set in the order of the entries' texts.
  pub leaves : Value → Text → List Found
  leaves (Value.struct fs) path = leaves_named fs path
  leaves (Value.tuple_struct fs) path = leaves_positions fs zero path
  leaves (Value.tuple fs) path = leaves_positions fs zero path
  leaves (Value.list is) path = leaves_items is zero path
  leaves (Value.array is) path = leaves_items is zero path
  leaves (Value.map es) path = join_parts (indexed path) (sort_by part_text (parts es))
  leaves (Value.set es) path = join_parts (braced path) (sort_by part_text (parts es))
  leaves (Value.enumeration variant fs) path =
      (variant_field (variant_path path variant), variant)
      ∷ leaves_variant fs zero (variant_path path variant)
  leaves (Value.opaque leaf) path = (path, leaf_bytes leaf) ∷ []

  pub leaves_named : Fields → Text → List Found
  leaves_named Fields.end path = []
  leaves_named (Fields.field name v fs) path =
      leaves v (join_path path (name_or name)) ++ leaves_named fs path
  leaves_named (Fields.gap name fs) path = leaves_named fs path

  pub leaves_positions : Fields → ℕ → Text → List Found
  leaves_positions Fields.end i path = []
  leaves_positions (Fields.field name v fs) i path =
      leaves v (dotted path (decimal i)) ++ leaves_positions fs (suc i) path
  leaves_positions (Fields.gap name fs) i path = leaves_positions fs (suc i) path

  pub leaves_variant : Fields → ℕ → Text → List Found
  leaves_variant Fields.end i path = []
  leaves_variant (Fields.field name v fs) i path =
      leaves v (dotted path (label_or name i)) ++ leaves_variant fs (suc i) path
  leaves_variant (Fields.gap name fs) i path = leaves_variant fs (suc i) path

  pub leaves_items : Items → ℕ → Text → List Found
  leaves_items Items.nil i path = []
  leaves_items (Items.item v is) i path =
      leaves v (indexed path (decimal i)) ++ leaves_items is (suc i) path

  pub parts : Entries → List Part
  parts Entries.empty = []
  parts (Entries.entry text v es) = (text, λ path. leaves v path) ∷ parts es

-- The leaves of the tracked fields of a struct.
unfoldable pub tracked_leaves : List Text → Fields → Text → List Found
tracked_leaves tracked Fields.end prefix = []
tracked_leaves tracked (Fields.field name v fs) prefix =
    if contains_text (name_or name) tracked
    then leaves v (join_path prefix (name_or name)) ++ tracked_leaves tracked fs prefix
    else tracked_leaves tracked fs prefix
tracked_leaves tracked (Fields.gap name fs) prefix = tracked_leaves tracked fs prefix

-- The value stands at a depth from which nothing that it holds lies beyond the limit.
unfoldable mutual
  pub Fits : ℕ → Value → Type 0
  Fits depth (Value.struct fs) = (depth ≤ default_max_depth) × FitFields (suc depth) fs
  Fits depth (Value.tuple_struct fs) = (depth ≤ default_max_depth) × FitFields (suc depth) fs
  Fits depth (Value.tuple fs) = (depth ≤ default_max_depth) × FitFields (suc depth) fs
  Fits depth (Value.list is) = (depth ≤ default_max_depth) × FitItems (suc depth) is
  Fits depth (Value.array is) = (depth ≤ default_max_depth) × FitItems (suc depth) is
  Fits depth (Value.map es) = (depth ≤ default_max_depth) × FitEntries (suc depth) es
  Fits depth (Value.set es) = (depth ≤ default_max_depth) × FitEntries (suc depth) es
  Fits depth (Value.enumeration variant fs) = (depth ≤ default_max_depth) × FitFields (suc depth) fs
  Fits depth (Value.opaque leaf) = (depth ≤ default_max_depth) × Unit {0}

  pub FitFields : ℕ → Fields → Type 0
  FitFields depth Fields.end = Unit
  FitFields depth (Fields.field name v fs) = Fits depth v × FitFields depth fs
  FitFields depth (Fields.gap name fs) = FitFields depth fs

  pub FitItems : ℕ → Items → Type 0
  FitItems depth Items.nil = Unit
  FitItems depth (Items.item v is) = Fits depth v × FitItems depth is

  pub FitEntries : ℕ → Entries → Type 0
  FitEntries depth Entries.empty = Unit
  FitEntries depth (Entries.entry text v es) = Fits depth v × FitEntries depth es

-- The same of the tracked fields of a root.
abbrev pub FitTracked : List Text → Fields → Type 0
FitTracked tracked Fields.end = Unit
FitTracked tracked (Fields.field name v fs) =
    (contains_text (name_or name) tracked ≡ true → Fits 1 v) × FitTracked tracked fs
FitTracked tracked (Fields.gap name fs) = FitTracked tracked fs

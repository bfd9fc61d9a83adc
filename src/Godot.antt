-- ===== src/Godot.antt =====
-- crates/foldback-godot/src/reflection.rs: reflective hashing of Godot objects. An object, an array
-- and a dictionary are references into a heap, so that a graph may share them and may have cycles.
-- An `i64` is its 64 bits.
pub mod Walk
pub mod Class
use foldback.Prelude.{
  ℕ, zero, suc, Bool, true, false, if◌then◌else◌, ◌==◌, Option, none, some, List, [], ◌∷◌, ◌++◌,
}
use foldback.Prelude.Bytes.{to_le_bytes, bytes_eq}
use foldback.Prelude.Utf8.{Text, ascii}
use foldback.Error.{Error}
use foldback.Session.{Session}

abbrev pub default_max_depth : ℕ
default_max_depth = 8

abbrev pub tracked_prefix : Text
tracked_prefix = ascii "foldback_"

-- The other types of a `Variant`: a bool, an `i64` and an `f64` by their bits, a text, a vector or
-- color by the bits of its components, or what `stringify` gives.
pub data Leaf : Type 0 where
  truth : Bool → Leaf
  int : ℕ → Leaf
  float : ℕ → Leaf
  string : Text → Leaf
  vector : List ℕ → Leaf
  stringified : Text → Leaf

-- A reference to an object may be invalid.
pub data Variant : Type 0 where
  nil : Variant
  object : Option ℕ → Variant
  array : ℕ → Variant
  dictionary : ℕ → Variant
  leaf : Leaf → Variant

-- What the engine gives: the items of an array, the entries of a dictionary with the texts of their
-- keys, the entries of an object's property list with their names, where they have one, and the
-- value of a property; the global name of an object's script, if it has one, and its class.
pub record Heap : Type 0 where
  pub items : ℕ → List Variant
  pub entries : ℕ → List (Text × Variant)
  pub property_list : ℕ → List (Option Text)
  pub get : ℕ → Text → Variant
  pub global_name : ℕ → Option Text
  pub get_class : ℕ → Text

pub data WalkError : Type 0 where
  depth_exceeded : Text → WalkError
  reference_cycle : Text → WalkError
  hash_field_failed : Text → Error → WalkError
  record_schema_failed : Error → WalkError

abbrev pub component_bytes : List ℕ → List ℕ
component_bytes [] = []
component_bytes (c ∷ cs) = to_le_bytes 4 c ++ component_bytes cs

unfoldable pub leaf_bytes : Leaf → List ℕ
leaf_bytes (Leaf.truth true) = 1 ∷ []
leaf_bytes (Leaf.truth false) = 0 ∷ []
leaf_bytes (Leaf.int bits) = to_le_bytes 8 bits
leaf_bytes (Leaf.float bits) = to_le_bytes 8 bits
leaf_bytes (Leaf.string s) = s
leaf_bytes (Leaf.vector components) = component_bytes components
leaf_bytes (Leaf.stringified s) = s

-- `name.starts_with(prefix)`
unfoldable pub starts_with : Text → Text → Bool
starts_with [] name = true
starts_with (c ∷ prefix) [] = false
starts_with (c ∷ prefix) (d ∷ name) =
    let rest = starts_with prefix name in if c == d then rest else false

unfoldable pub is_tracked : Text → Bool
unfolding starts_with
is_tracked name = starts_with tracked_prefix name

unfoldable pub property_names : List (Option Text) → List Text
property_names [] = []
property_names (none ∷ ps) = property_names ps
property_names (some name ∷ ps) = name ∷ property_names ps

-- Tracked and untracked names.
unfoldable pub split_names : List Text → List Text × List Text
unfolding is_tracked
split_names [] = ([], [])
split_names (name ∷ names) =
    let rest = split_names names in
    if is_tracked name then (name ∷ rest.0, rest.1) else (rest.0, name ∷ rest.1)

unfoldable pub list_tracked : Heap → ℕ → List Text × List Text
unfolding split_names property_names
list_tracked heap target = split_names (property_names (heap.property_list target))

unfoldable pub name_or_class : Option Text → Text → Text
name_or_class none class_name = class_name
name_or_class (some []) class_name = class_name
name_or_class (some (c ∷ name)) class_name = c ∷ name

unfoldable pub schema_type_name : Heap → ℕ → Text
unfolding name_or_class
schema_type_name heap target = name_or_class (heap.global_name target) (heap.get_class target)

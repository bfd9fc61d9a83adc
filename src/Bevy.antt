-- ===== src/Bevy.antt =====
-- crates/foldback-rs/src/bevy.rs: reflective hashing. `Value` is what the crate bevy_reflect shows of
-- a value; a map and a set come in the order of their iteration, each key or item with the text that
-- `{:?}` renders.
pub mod Walk
pub mod Leaves
pub mod Records
pub mod Fit
pub mod Walked
pub mod Depth
pub mod Order
mod Tests
pub mod Recorded
use foldback.Prelude.{
  ℕ, zero, suc, ◌+◌, ◌/◌, ◌%◌, Bool, true, false, Option, none, some, List, [], ◌∷◌, ◌++◌,
}
use foldback.Prelude.{◌==◌, if◌then◌else◌}
use foldback.Prelude.Bytes.{to_le_bytes}
use foldback.Prelude.Utf8.{Text, ascii}

abbrev pub default_max_depth : ℕ
default_max_depth = 8

-- A value without further structure: a number of a given width by its bits, a bool, a string, or a
-- value of which only the text of `{:?}` is known.
pub data Leaf : Type 0 where
  -- width in bytes, value
  number : ℕ → ℕ → Leaf
  truth : Bool → Leaf
  string : Text → Leaf
  debug : Text → Leaf

-- `ReflectRef`. A field may have no name, and `gap` is an index at which there is no field.
mutual
  pub data Value : Type 0 where
    struct : Fields → Value
    tuple_struct : Fields → Value
    tuple : Fields → Value
    list : Items → Value
    array : Items → Value
    map : Entries → Value
    set : Entries → Value
    -- the variant's name
    enumeration : Text → Fields → Value
    opaque : Leaf → Value

  pub data Fields : Type 0 where
    end : Fields
    field : Option Text → Value → Fields → Fields
    gap : Option Text → Fields → Fields

  pub data Items : Type 0 where
    nil : Items
    item : Value → Items → Items

  pub data Entries : Type 0 where
    empty : Entries
    entry : Text → Value → Entries → Entries

abbrev pub leaf_bytes : Leaf → List ℕ
leaf_bytes (number width v) = to_le_bytes width v
leaf_bytes (truth true) = 1 ∷ []
leaf_bytes (truth false) = 0 ∷ []
leaf_bytes (string s) = s
leaf_bytes (debug s) = s

-- `{i}`: a number in decimal, the first argument above its number of digits.
unfoldable pub digits : ℕ → ℕ → Text
digits zero n = []
digits (suc fuel) n =
    let rest = digits fuel (n / 10) in
    if n / 10 == 0 then (48 + n % 10) ∷ [] else rest ++ ((48 + n % 10) ∷ [])

unfoldable pub decimal : ℕ → Text
unfolding digits
decimal n = digits (suc n) n

unfoldable pub join_path : Text → Text → Text
join_path [] name = name
join_path (c ∷ prefix) name = (c ∷ prefix) ++ (ascii "." ++ name)

-- `name_at(i).unwrap_or("?")`
abbrev pub name_or : Option Text → Text
name_or (some name) = name
name_or none = ascii "?"

-- `{path}.{i}`, `{path}[{i}]`, `{path}[{key}]`, `{path}{{{item}}}`, `{path}::{variant}`,
-- `{variant_path}#variant` and `{variant_path}.{label}`
abbrev pub dotted : Text → Text → Text
dotted path name = path ++ (ascii "." ++ name)

abbrev pub indexed : Text → Text → Text
indexed path key = path ++ (ascii "[" ++ (key ++ ascii "]"))

abbrev pub braced : Text → Text → Text
braced path text = path ++ (ascii "{" ++ (text ++ ascii "}"))

abbrev pub variant_path : Text → Text → Text
variant_path path name = path ++ (ascii "::" ++ name)

abbrev pub variant_field : Text → Text
variant_field path = path ++ ascii "#variant"

-- The label of an enum's field: its name, or its index.
abbrev pub label_or : Option Text → ℕ → Text
label_or (some name) i = name
label_or none i = decimal i

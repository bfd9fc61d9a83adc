-- ===== src/Syn.antt =====
-- What the derive macro and the lint scanner read: Rust items as the crate syn shows them, as far as
-- the two look at them.
use foldback.Prelude.{Bool, false, Option, none, some, List}
use foldback.Prelude.Bytes.{bytes_eq}
use foldback.Prelude.Utf8.{Text}

-- A path: its identifier, where it is a single one.
abbrev pub SynPath : Type 0
SynPath = Option Text

unfoldable pub is_ident : SynPath → Text → Bool
is_ident none text = false
is_ident (some ident) text = bytes_eq ident text

-- An attribute, with its arguments read as one identifier and as a list of paths, where they are one.
pub record Attribute : Type 0 where
  pub path : SynPath
  pub ident_arg : Option Text
  pub path_args : Option (List SynPath)

pub record Field : Type 0 where
  pub ident : Option Text
  pub attrs : List Attribute

pub data Fields : Type 0 where
  named : List Field → Fields
  unnamed : Fields

pub record ItemStruct : Type 0 where
  pub ident : Text
  pub attrs : List Attribute
  pub fields : Fields

-- A module is inline, or its items stand in another file.
mutual
  pub data Item : Type 0 where
    struct : ItemStruct → Item
    inline_mod : Items → Item
    file_mod : Item
    other : Item

  pub data Items : Type 0 where
    nil : Items
    cons : Item → Items → Items

-- ===== src/Lint/Tests.antt =====
-- A directory with one source file, whose struct stands in an inline module.
use foldback.Prelude.{ℕ, ◌≡◌, refl, true, false, Option, none, some, List, [], ◌∷◌, Memᴰ}
use foldback.Prelude.Utf8.{Text, ascii}
use foldback.Prelude.Order.{nat_ord, text_ord, pair_ord}
use foldback.Prelude.SortBy.{sort_by}
use foldback.Error.{IoError, Result, ok}
use foldback.Syn.{Attribute, Field, Fields, ItemStruct, Item, Items, is_ident}
use foldback.Derive
use foldback.Derive.{Generated, derive_foldback_hash}
use foldback.Lint.{TrackedType, DirEntry, derives_foldback_hash, scan_bevy, rust_files}
use foldback.Lint.{names_of, field_marking, collect_tracked_structs, scan_files}
use foldback.Lint.Carries.{CarriesDerive}
use foldback.Lint.Agreement.{names_of-derive}
use foldback.Lint.Collect.{Declares}
use foldback.Lint.Listed.{derived_type, scan_bevy-lists}

abbrev attribute : Text → Option Text → Option (List (Option Text)) → Attribute
attribute path ident paths = record { path = some path; ident_arg = ident; path_args = paths }

abbrev unit_fields : List Field
unit_fields =
    record {
      ident = some (ascii "hp");
      attrs = attribute (ascii "foldback") (some (ascii "hash")) none ∷ [];
    }
    ∷ record { ident = some (ascii "label"); attrs = [] }
    ∷ []

abbrev unit_struct : ItemStruct
unit_struct = record {
  ident = ascii "Unit";
  attrs =
      attribute (ascii "derive") none (some (some (ascii "Clone") ∷ []))
      ∷ attribute (ascii "derive") none
          (some (some (ascii "Reflect") ∷ some (ascii "FoldbackHash") ∷ []))
      ∷ [];
  fields = Fields.named unit_fields;
}

abbrev file_items : Items
file_items =
    Items.cons Item.other
      (Items.cons (Item.inline_mod (Items.cons (Item.struct unit_struct) Items.nil)) Items.nil)

abbrev source_file : DirEntry ℕ
source_file = record { path = 4; is_file = true; extension = some (ascii "rs") }

abbrev walk_dir : ℕ → List (Option (DirEntry ℕ))
walk_dir root = none ∷ some source_file ∷ []

abbrev read_to_string : ℕ → Result IoError Text
read_to_string path = ok (ascii "mod m {}")

abbrev parse_file : Text → Result (Unit {0}) Items
parse_file content = ok file_items

abbrev generated : Generated
generated = record {
  hash_calls = ascii "hp" ∷ [];
  tracked_names = ascii "hp" ∷ [];
  untracked_names = ascii "label" ∷ [];
}

unit-accepted : derive_foldback_hash (Derive.Data.struct (Fields.named unit_fields)) ≡ ok generated
unfolding derive_foldback_hash Derive.expand_fields Derive.field_marking is_ident
unit-accepted = refl

names_of-derive_example :
    names_of unit_fields (record { tracked = []; untracked = [] })
    ≡ record { tracked = ascii "hp" ∷ []; untracked = ascii "label" ∷ [] }
names_of-derive_example = names_of-derive unit_fields generated unit-accepted

abbrev unit_type : TrackedType ℕ
unit_type = record {
  name = ascii "Unit";
  file = 4;
  tracked = ascii "hp" ∷ [];
  untracked = ascii "label" ∷ [];
}

scan-result : scan_bevy walk_dir read_to_string parse_file 0 ≡ ok (unit_type ∷ [])
unfolding scan_bevy rust_files names_of field_marking is_ident derives_foldback_hash
    collect_tracked_structs scan_files sort_by
scan-result = refl

unit_struct-CarriesDerive : CarriesDerive unit_struct.attrs
unit_struct-CarriesDerive = record {
  attr =
      attribute (ascii "derive") none
        (some (some (ascii "Reflect") ∷ some (ascii "FoldbackHash") ∷ []));
  paths = some (ascii "Reflect") ∷ some (ascii "FoldbackHash") ∷ [];
  member = Memᴰ.tail (Memᴰ.head refl);
  path = refl;
  args = refl;
  listed = Memᴰ.tail (Memᴰ.head refl);
}

-- The derive of the qualified path is not seen.
qualified-missed :
    derives_foldback_hash (attribute (ascii "derive") none (some (none ∷ [])) ∷ []) ≡ false
unfolding derives_foldback_hash is_ident
qualified-missed = refl

scan_bevy-lists_example :
    Memᴰ (derived_type walk_dir read_to_string parse_file unit_struct 4 generated) (unit_type ∷ [])
scan_bevy-lists_example =
    scan_bevy-lists walk_dir read_to_string parse_file 0 (unit_type ∷ []) source_file
      (ascii "mod m {}") file_items unit_struct unit_fields generated scan-result
      (Memᴰ.tail (Memᴰ.head refl)) refl refl refl refl
      (Declares.later (Declares.inside Declares.here)) unit_struct-CarriesDerive refl unit-accepted

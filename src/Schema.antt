-- ===== src/Schema.antt =====
-- crates/foldback-core/src/schema.rs: schema-drift detection over `Metadata` frames. Texts are
-- lists of bytes, as `str`'s order compares them.
pub mod Drift
mod Tests
use foldback.Prelude.{ℕ, Bool, true, false, Option, none, some, List, [], ◌∷◌, ◌++◌, foldl}
use foldback.Prelude.{if◌then◌else◌}
use foldback.Prelude.Bytes.{bytes_eq}
use foldback.Prelude.Utf8.{Text}
use foldback.Prelude.Order.{text_ord}
use foldback.Prelude.OrdMap.{get, insert}
use foldback.Prelude.Sort.{sort}
use foldback.Format.Frame.{Frame, metadata}

-- "foldback.schema."
abbrev pub schema_key_prefix : Text
schema_key_prefix =
    b'f' ∷ b'o' ∷ b'l' ∷ b'd' ∷ b'b' ∷ b'a' ∷ b'c' ∷ b'k' ∷ b'.' ∷ b's' ∷ b'c' ∷ b'h' ∷ b'e' ∷ b'm'
    ∷ b'a' ∷ b'.' ∷ []

unfoldable pub schema_metadata_key : Text → Text
schema_metadata_key type_name = schema_key_prefix ++ type_name

-- `[&str]::join(",")`
unfoldable pub join_comma : List Text → Text
join_comma [] = []
join_comma (x ∷ []) = x
join_comma (x ∷ y ∷ xs) = x ++ (b',' ∷ join_comma (y ∷ xs))

unfoldable pub fingerprint : List Text → Text
unfolding join_comma
fingerprint tracked_fields = join_comma (sort tracked_fields)

pub record SchemaDrift : Type 0 where
  pub type_name : Text
  pub before : Text
  pub after : Text

-- type name to fingerprint
abbrev pub Schemas : Type 0
Schemas = List (Text × Text)

-- `str::strip_prefix`
unfoldable pub strip_prefix : Text → Text → Option Text
strip_prefix [] s = some s
strip_prefix (p ∷ ps) [] = none
strip_prefix (p ∷ ps) (b ∷ bs) = if bytes_eq (p ∷ []) (b ∷ []) then strip_prefix ps bs else none

-- The body of the loop of `extract_schemas`.
unfoldable pub insert_schema : Option Text → Text → Schemas → Schemas
insert_schema none value out = out
insert_schema (some type_name) value out = insert type_name value out

unfoldable pub extract_step : Schemas → Frame → Schemas
unfolding insert_schema strip_prefix
extract_step out (metadata key value) = insert_schema (strip_prefix schema_key_prefix key) value out
extract_step out (Frame.tick_hash _ _ _) = out
extract_step out (Frame.entity_hash _ _ _ _) = out
extract_step out (Frame.field_hash _ _ _ _ _ _) = out
extract_step out (Frame.snapshot _ _ _) = out
extract_step out Frame.end_of_stream = out

unfoldable pub extract_schemas : List Frame → Schemas
unfolding extract_step
extract_schemas = foldl extract_step []

-- What one entry of `before` adds, given the entry of `after` under its name.
unfoldable pub drift_entry : Text → Text → Option Text → List SchemaDrift
drift_entry name fp none = []
drift_entry name fp (some after_fp) =
    if bytes_eq after_fp fp
    then []
    else record { type_name = name; before = fp; after = after_fp } ∷ []

unfoldable pub detect_drift : Schemas → Schemas → List SchemaDrift
unfolding drift_entry
detect_drift [] after = []
detect_drift ((name, fp) ∷ before) after =
    drift_entry name fp (get name after) ++ detect_drift before after

-- ===== src/Derive.antt =====
-- crates/foldback-derive/src/lib.rs: the derive macro, and the method that it generates. A panic of
-- the macro is an error of the compilation, as each of its own errors.
pub mod Marked
pub mod Hashed
mod Tests
use foldback.Prelude.{ℕ, Bool, true, false, if◌then◌else◌, Option, none, some, List, [], ◌∷◌, ◌++◌}
use foldback.Prelude.Bytes.{bytes_eq}
use foldback.Prelude.Utf8.{Text, ascii}
use foldback.Error.{Error, Result, ok, err, ◌>>=◌}
use foldback.Action
use foldback.Action.{Action, ◌>>◌, pure}
use foldback.Session.{Session, hash_field}
use foldback.Syn.{is_ident, Attribute, Field, Fields}

pub data FieldMarking : Type 0 where
  hash : FieldMarking
  reflect : FieldMarking
  skip : FieldMarking
  unmarked : FieldMarking

pub data CompileError : Type 0 where
  invalid_arguments : CompileError
  unknown_marking : Text → CompileError
  only_structs : CompileError
  named_fields_required : CompileError
  panicked : CompileError

unfoldable pub marking_named : Text → Result CompileError FieldMarking
marking_named ident =
    if bytes_eq ident (ascii "hash")
    then ok FieldMarking.hash
    else if bytes_eq ident (ascii "reflect")
    then ok FieldMarking.reflect
    else if bytes_eq ident (ascii "skip")
    then ok FieldMarking.skip
    else err (CompileError.unknown_marking ident)

unfoldable pub marking_of : Option Text → Result CompileError FieldMarking
unfolding marking_named
marking_of none = err CompileError.invalid_arguments
marking_of (some ident) = marking_named ident

-- The first attribute `foldback` decides.
unfoldable pub field_marking : List Attribute → Result CompileError FieldMarking
unfolding marking_of
field_marking [] = ok FieldMarking.unmarked
field_marking (attr ∷ attrs) =
    let rest = field_marking attrs in
    if is_ident attr.path (ascii "foldback") then marking_of attr.ident_arg else rest

-- The item that the macro stands on.
pub data Data : Type 0 where
  struct : Fields → Data
  enumeration_or_union : Data

-- The names that the loop collects: the fields with a call, and the two lists of the trait.
pub record Generated : Type 0 where
  pub hash_calls : List Text
  pub tracked_names : List Text
  pub untracked_names : List Text

abbrev pub nothing_generated : Generated
nothing_generated = record { hash_calls = []; tracked_names = []; untracked_names = [] }

unfoldable pub push_field : FieldMarking → Text → Generated → Generated
push_field FieldMarking.hash name g = record g {
  hash_calls = g.hash_calls ++ (name ∷ []);
  tracked_names = g.tracked_names ++ (name ∷ []);
}
push_field FieldMarking.reflect name g = record g { tracked_names = g.tracked_names ++ (name ∷ []) }
push_field FieldMarking.skip name g = g
push_field FieldMarking.unmarked name g = record g {
  untracked_names = g.untracked_names ++ (name ∷ []);
}

unfoldable pub field_name : Option Text → Result CompileError Text
field_name none = err CompileError.panicked
field_name (some name) = ok name

unfoldable pub expand_field : Field → Generated → Result CompileError Generated
unfolding push_field field_name
expand_field field g = field_marking field.attrs >>= λ marking.
    field_name field.ident >>= λ name. ok (push_field marking name g)

unfoldable pub expand_fields : List Field → Generated → Result CompileError Generated
unfolding expand_field
expand_fields [] g = ok g
expand_fields (field ∷ fields) g = expand_field field g >>= λ g'. expand_fields fields g'

unfoldable pub derive_foldback_hash : Data → Result CompileError Generated
unfolding expand_fields
derive_foldback_hash Data.enumeration_or_union = err CompileError.only_structs
derive_foldback_hash (Data.struct Fields.unnamed) = err CompileError.named_fields_required
derive_foldback_hash (Data.struct (Fields.named fields)) = expand_fields fields nothing_generated

-- The generated method: `field_bytes` gives the bytes of the value's field of a name.
module _ (xxh3_64 : List ℕ → ℕ) (tick entity_id : ℕ) (field_bytes : Text → List ℕ) where
  unfoldable pub write_hashed_fields : List Text → Action Session (Unit {0})
  write_hashed_fields [] = pure tt
  write_hashed_fields (name ∷ names) =
      Action.◌>>◌ (hash_field xxh3_64 tick entity_id name (field_bytes name))
        (write_hashed_fields names)

  -- `Session::hash_fields` on a value with the derived implementation.
  unfoldable pub hash_fields : Generated → Action Session (Unit {0})
  unfolding write_hashed_fields
  hash_fields g = write_hashed_fields g.hash_calls

-- ===== src/Lint.antt =====
-- crates/foldback-cli/src/lint.rs: the scan for structs with a derived FoldbackHash, and the exit of
-- the command. The crate walkdir gives the entries of the directory, in its order, and syn the items
-- of a file.
pub mod Agreement
pub mod Carries
pub mod Collect
pub mod Listed
mod Tests
use foldback.Prelude.{
  ℕ, Bool, true, false, ◌&&◌, if◌then◌else◌, Option, none, some, List, [], ◌∷◌, ◌++◌,
}
use foldback.Prelude.Bytes.{bytes_eq}
use foldback.Prelude.Utf8.{Text, ascii}
use foldback.Prelude.Order.{Ord, text_ord, pair_ord}
use foldback.Prelude.SortBy.{sort_by}
use foldback.Error.{IoError, Result, ok, err, map_err, ◌>>=◌}
use foldback.Syn.{SynPath, is_ident, Attribute, Field, Fields, ItemStruct, Item, Items}
use foldback.Cli.{ExitCode, success}

pub data FieldMarking : Type 0 where
  tracked : FieldMarking
  skip : FieldMarking
  unmarked : FieldMarking

unfoldable pub marking_named : Text → FieldMarking
marking_named ident =
    if bytes_eq ident (ascii "hash")
    then FieldMarking.tracked
    else if bytes_eq ident (ascii "reflect")
    then FieldMarking.tracked
    else if bytes_eq ident (ascii "skip")
    then FieldMarking.skip
    else FieldMarking.unmarked

-- An attribute whose arguments are no identifier is passed over.
unfoldable pub marking_or : Option Text → FieldMarking → FieldMarking
unfolding marking_named
marking_or none rest = rest
marking_or (some ident) rest = marking_named ident

unfoldable pub field_marking : List Attribute → FieldMarking
unfolding marking_or
field_marking [] = FieldMarking.unmarked
field_marking (attr ∷ attrs) =
    let rest = field_marking attrs in
    if is_ident attr.path (ascii "foldback") then marking_or attr.ident_arg rest else rest

unfoldable pub any_ident : Text → List SynPath → Bool
any_ident text [] = false
any_ident text (p ∷ ps) = let rest = any_ident text ps in if is_ident p text then true else rest

unfoldable pub lists_foldback_hash : Option (List SynPath) → Bool
unfolding any_ident
lists_foldback_hash none = false
lists_foldback_hash (some paths) = any_ident (ascii "FoldbackHash") paths

unfoldable pub derives_foldback_hash : List Attribute → Bool
unfolding lists_foldback_hash
derives_foldback_hash [] = false
derives_foldback_hash (attr ∷ attrs) =
    let rest = derives_foldback_hash attrs in
    if is_ident attr.path (ascii "derive") && lists_foldback_hash attr.path_args then true else rest

pub record Names : Type 0 where
  pub tracked : List Text
  pub untracked : List Text

unfoldable pub push_name : FieldMarking → Text → Names → Names
push_name FieldMarking.tracked name n = record n { tracked = n.tracked ++ (name ∷ []) }
push_name FieldMarking.skip name n = n
push_name FieldMarking.unmarked name n = record n { untracked = n.untracked ++ (name ∷ []) }

abbrev pub name_or_empty : Option Text → Text
name_or_empty none = []
name_or_empty (some name) = name

unfoldable pub names_of : List Field → Names → Names
unfolding push_name
names_of [] n = n
names_of (field ∷ fields) n =
    names_of fields (push_name (field_marking field.attrs) (name_or_empty field.ident) n)

abbrev pub no_names : Names
no_names = record { tracked = []; untracked = [] }

pub record TrackedType (File : Type 0) : Type 0 where
  pub name : Text
  pub file : File
  pub tracked : List Text
  pub untracked : List Text

pub data LintError (File SynError : Type 0) : Type 0 where
  -- path, source
  io_failed : File → IoError → LintError File SynError
  parse_failed : File → SynError → LintError File SynError

pub record DirEntry (File : Type 0) : Type 0 where
  pub path : File
  pub is_file : Bool
  pub extension : Option Text

unfoldable pub is_rust : Option Text → Bool
is_rust none = false
is_rust (some ext) = bytes_eq ext (ascii "rs")

module _ {File : Type 0} where
  unfoldable pub tracked_type : ItemStruct → File → List Field → TrackedType File
  unfolding names_of
  tracked_type s path fields = record {
    name = s.ident;
    file = path;
    tracked = (names_of fields no_names).tracked;
    untracked = (names_of fields no_names).untracked;
  }

  unfoldable pub push_struct :
      ItemStruct → Fields → File → List (TrackedType File) → List (TrackedType File)
  unfolding tracked_type
  push_struct s Fields.unnamed path out = out
  push_struct s (Fields.named fields) path out = out ++ (tracked_type s path fields ∷ [])

  unfoldable mutual
    unfolding push_struct

    pub collect_tracked_structs : Items → File → List (TrackedType File) → List (TrackedType File)
    collect_tracked_structs Items.nil path out = out
    collect_tracked_structs (Items.cons item items) path out =
        collect_tracked_structs items path (collect_item item path out)

    pub collect_item : Item → File → List (TrackedType File) → List (TrackedType File)
    collect_item (Item.struct s) path out =
        if derives_foldback_hash s.attrs then push_struct s s.fields path out else out
    collect_item (Item.inline_mod items) path out = collect_tracked_structs items path out
    collect_item Item.file_mod path out = out
    collect_item Item.other path out = out

  -- The filters of the loop: an entry that could not be read is passed over.
  unfoldable pub rust_files : List (Option (DirEntry File)) → List File
  unfolding is_rust
  rust_files [] = []
  rust_files (none ∷ entries) = rust_files entries
  rust_files (some e ∷ entries) =
      let rest = rust_files entries in
      if e.is_file && is_rust e.extension then e.path ∷ rest else rest

  abbrev pub type_key : TrackedType File → File × Text
  type_key t = (t.file, t.name)

  module _ {SynError : Type 0} (walk_dir : File → List (Option (DirEntry File)))
      (read_to_string : File → Result IoError Text)
      (parse_file : Text → Result SynError Items) where
    unfoldable pub items_of : File → Result (LintError File SynError) Items
    items_of path = map_err (LintError.io_failed path) (read_to_string path) >>= λ content.
        map_err (LintError.parse_failed path) (parse_file content)

    unfoldable pub scan_files :
        List File
        → List (TrackedType File)
        → Result (LintError File SynError) (List (TrackedType File))
    unfolding items_of collect_tracked_structs
    scan_files [] results = ok results
    scan_files (path ∷ paths) results =
        items_of path >>= λ items. scan_files paths (collect_tracked_structs items path results)

    unfoldable pub scan_bevy :
        ⦃o : Ord File⦄ → File → Result (LintError File SynError) (List (TrackedType File))
    unfolding scan_files rust_files
    scan_bevy root =
        scan_files (rust_files (walk_dir root)) [] >>= λ results. ok (sort_by type_key results)

    unfoldable pub lint_exit : Result (LintError File SynError) (List (TrackedType File)) → ExitCode
    lint_exit (ok types) = success
    lint_exit (err e) = 2

    unfoldable pub run_lint : ⦃o : Ord File⦄ → File → ExitCode
    unfolding lint_exit scan_bevy
    run_lint root = lint_exit (scan_bevy root)

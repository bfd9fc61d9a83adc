-- ===== src/Lint/Listed.antt =====
-- What `scan_bevy` of crates/foldback-cli/src/lint.rs lists.
use foldback.Prelude.{true, some, Option, List, [], ◌∷◌}
use foldback.Prelude.{◌≡◌, refl, sym, ap, ◌∙◌, subst, Memᴰ}
use foldback.Prelude.Utf8.{Text, ascii}
use foldback.Prelude.Order.{Ord, text_ord, pair_ord}
use foldback.Prelude.SortBy.{sort_by, mem-sort_by}
use foldback.Error.{IoError, Result, ok, bind_inv, ok_injective}
use foldback.Syn.{Field, Fields, ItemStruct, Items}
use foldback.Derive
use foldback.Derive.{Generated, derive_foldback_hash}
use foldback.Lint.{TrackedType, DirEntry, derives_foldback_hash, tracked_type, type_key}
use foldback.Lint.{collect_tracked_structs, items_of, scan_files, scan_bevy, rust_files}
use foldback.Lint.Carries.{CarriesDerive, derives_foldback_hash-CarriesDerive, rust_files_mem}
use foldback.Lint.Agreement.{names_of-derive}
use foldback.Lint.Collect.{Declares, collect-keeps, collect-lists}

module _ {File SynError : Type 0} (walk_dir : File → List (Option (DirEntry File)))
    (read_to_string : File → Result IoError Text) (parse_file : Text → Result SynError Items) where
  scan_files-keeps :
      (paths : List File) (out types : List (TrackedType File)) (t : TrackedType File)
      → Memᴰ t out
      → scan_files walk_dir read_to_string parse_file paths out ≡ ok types
      → Memᴰ t types
  unfolding scan_files
  scan_files-keeps [] out types t m e = subst (λ l. Memᴰ t l) (ok_injective e) m
  scan_files-keeps (path ∷ paths) out types t m e =
      let (items, e1, e2) =
        bind_inv (items_of walk_dir read_to_string parse_file path)
          (λ is.
            scan_files walk_dir read_to_string parse_file paths
              (collect_tracked_structs is path out))
          types e in
      scan_files-keeps paths (collect_tracked_structs items path out) types t
        (collect-keeps path items out t m) e2

  scan_files-lists :
      (paths : List File) (out types : List (TrackedType File)) (path : File) (items : Items)
      (s : ItemStruct) (fields : List Field)
      → derives_foldback_hash s.attrs ≡ true
      → s.fields ≡ Fields.named fields
      → Memᴰ path paths
      → items_of walk_dir read_to_string parse_file path ≡ ok items
      → Declares s items
      → scan_files walk_dir read_to_string parse_file paths out ≡ ok types
      → Memᴰ (tracked_type s path fields) types
  unfolding scan_files
  scan_files-lists [] out types path items s fields derives shape m r d e = elim m [ ]
  scan_files-lists (p ∷ paths) out types path items s fields derives shape m r d e =
      let (items', e1, e2) =
        bind_inv (items_of walk_dir read_to_string parse_file p)
          (λ is.
            scan_files walk_dir read_to_string parse_file paths (collect_tracked_structs is p out))
          types e in
      listed_at items' e1 e2 m (λ n.
        scan_files-lists paths (collect_tracked_structs items' p out) types path items s fields
          derives shape n r d e2)
    where
      listed_at :
          (items' : Items)
          → items_of walk_dir read_to_string parse_file p ≡ ok items'
          → scan_files walk_dir read_to_string parse_file paths
              (collect_tracked_structs items' p out)
            ≡ ok types
          → Memᴰ path (p ∷ paths)
          → (Memᴰ path paths → Memᴰ (tracked_type s path fields) types)
          → Memᴰ (tracked_type s path fields) types
      listed_at items' e1 e2 (Memᴰ.tail n) rest = rest n
      listed_at items' e1 e2 (Memᴰ.head q) rest =
          scan_files-keeps paths (collect_tracked_structs items' p out) types
            (tracked_type s path fields)
            (subst (λ f. Memᴰ (tracked_type s path fields) (collect_tracked_structs items' f out)) q
              (subst (λ is. Memᴰ (tracked_type s path fields) (collect_tracked_structs is path out))
                (ok_injective (sym r ∙ ap (items_of walk_dir read_to_string parse_file) q ∙ e1))
                (collect-lists path s fields derives shape out d)))
            e2

  -- What the macro's constants say of the struct.
  abbrev pub derived_type : ItemStruct → File → Generated → TrackedType File
  derived_type s path g = record {
    name = s.ident;
    file = path;
    tracked = g.tracked_names;
    untracked = g.untracked_names;
  }

  items_of_ok :
      (path : File) (content : Text) (items : Items)
      → read_to_string path ≡ ok content
      → parse_file content ≡ ok items
      → items_of walk_dir read_to_string parse_file path ≡ ok items
  unfolding items_of
  items_of_ok path content items r p = rw (r, p) refl

  scan_bevy_listed :
      ⦃o : Ord File⦄ (root path : File) (types : List (TrackedType File)) (items : Items)
      (s : ItemStruct) (fields : List Field) (g : Generated)
      → scan_bevy walk_dir read_to_string parse_file root ≡ ok types
      → Memᴰ path (rust_files (walk_dir root))
      → items_of walk_dir read_to_string parse_file path ≡ ok items
      → Declares s items
      → derives_foldback_hash s.attrs ≡ true
      → s.fields ≡ Fields.named fields
      → derive_foldback_hash (Derive.Data.struct (Fields.named fields)) ≡ ok g
      → Memᴰ (derived_type s path g) types
  unfolding scan_bevy tracked_type
  scan_bevy_listed root path types items s fields g e m r d derives shape accepted =
      let (found, e1, e2) =
        bind_inv (scan_files walk_dir read_to_string parse_file (rust_files (walk_dir root)) [])
          (λ l. ok (sort_by type_key l)) types e in
      subst (λ l. Memᴰ (derived_type s path g) l) (ok_injective e2)
        (mem-sort_by type_key found (derived_type s path g) (
          subst
            (λ n.
              Memᴰ
                (record {
                  name = s.ident;
                  file = path;
                  tracked = n.tracked;
                  untracked = n.untracked;
                })
                found)
            (names_of-derive fields g accepted)
            (scan_files-lists (rust_files (walk_dir root)) [] found path items s fields derives
              shape m r d e1)))

  -- Let a scan succeed, and let the directory walk yield a file with the extension `rs` whose
  -- items, as the parser reads its content, declare, at any depth of inline modules, a struct. Let
  -- one of the struct's attributes be a `derive` whose list has the plain identifier
  -- `FoldbackHash`, and let the derive macro accept its fields. Then the result of the scan lists
  -- that struct under that file, with just the tracked and untracked names that the macro
  -- generates.
  pub scan_bevy-lists :
      ⦃o : Ord File⦄ (root : File) (types : List (TrackedType File)) (entry : DirEntry File)
      (content : Text) (items : Items) (s : ItemStruct) (fields : List Field) (g : Generated)
      → scan_bevy walk_dir read_to_string parse_file root ≡ ok types
      → Memᴰ (some entry) (walk_dir root)
      → entry.is_file ≡ true
      → entry.extension ≡ some (ascii "rs")
      → read_to_string entry.path ≡ ok content
      → parse_file content ≡ ok items
      → Declares s items
      → CarriesDerive s.attrs
      → s.fields ≡ Fields.named fields
      → derive_foldback_hash (Derive.Data.struct (Fields.named fields)) ≡ ok g
      → Memᴰ (derived_type s entry.path g) types
  scan_bevy-lists root types entry content items s fields g e m file ext r p d c shape accepted =
      scan_bevy_listed root entry.path types items s fields g e
        (rust_files_mem entry (walk_dir root) file ext m) (items_of_ok entry.path content items r p)
        d (derives_foldback_hash-CarriesDerive s.attrs c) shape accepted

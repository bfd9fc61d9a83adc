-- ===== src/Lint/Carries.antt =====
-- What the scan of crates/foldback-cli/src/lint.rs looks for, apart from its code: the structs that
-- carry the derive, and the files that are visited.
use foldback.Prelude.{◌≡◌, refl, sym, ap, ap₂, ◌∙◌, true, ◌&&◌, inl, inr, Bool-cases, Memᴰ}
use foldback.Prelude.{Option, none, some, List, [], ◌∷◌}
use foldback.Prelude.Bytes.{bytes_eq_iff}
use foldback.Prelude.Utf8.{Text, ascii}
use foldback.Syn.{SynPath, is_ident, Attribute}
use foldback.Lint.{
  DirEntry, is_rust, any_ident, lists_foldback_hash, derives_foldback_hash, rust_files,
}

-- One of the attributes is a `derive` whose list has the identifier `FoldbackHash`.
pub record CarriesDerive (attrs : List Attribute) : Type 0 where
  pub attr : Attribute
  pub paths : List SynPath
  pub member : Memᴰ attr attrs
  pub path : attr.path ≡ some (ascii "derive")
  pub args : attr.path_args ≡ some paths
  pub listed : Memᴰ (some (ascii "FoldbackHash")) paths

is_ident_self : (text : Text) → is_ident (some text) text ≡ true
unfolding is_ident
is_ident_self text = (bytes_eq_iff text text).1 refl

any_ident_mem :
    (text : Text) (paths : List SynPath) → Memᴰ (some text) paths → any_ident text paths ≡ true
unfolding any_ident
any_ident_mem text [] m = elim m [ ]
any_ident_mem text (p ∷ ps) (Memᴰ.head e) =
    rw (ap (λ q. is_ident q text) (sym e) ∙ is_ident_self text) refl
any_ident_mem text (p ∷ ps) (Memᴰ.tail m) = elim (Bool-cases (is_ident p text)) [
  | inl e ↦ rw e refl
  | inr e ↦ rw (e, any_ident_mem text ps m) refl
]

derives_at :
    (attr : Attribute) (attrs : List Attribute) (paths : List SynPath)
    → attr.path ≡ some (ascii "derive")
    → attr.path_args ≡ some paths
    → Memᴰ (some (ascii "FoldbackHash")) paths
    → Memᴰ attr attrs
    → derives_foldback_hash attrs ≡ true
unfolding derives_foldback_hash lists_foldback_hash
derives_at attr [] paths p l m n = elim n [ ]
derives_at attr (a ∷ attrs) paths p l m (Memᴰ.head e) = rw (is_derive, lists) refl
  where
    is_derive : is_ident a.path (ascii "derive") ≡ true
    is_derive =
        ap (λ (x : Attribute). is_ident x.path (ascii "derive")) (sym e)
        ∙ ap (λ q. is_ident q (ascii "derive")) p
        ∙ is_ident_self (ascii "derive")

    lists : lists_foldback_hash a.path_args ≡ true
    lists =
        ap (λ (x : Attribute). lists_foldback_hash x.path_args) (sym e)
        ∙ ap lists_foldback_hash l
        ∙ any_ident_mem (ascii "FoldbackHash") paths m
derives_at attr (a ∷ attrs) paths p l m (Memᴰ.tail n) =
    elim (Bool-cases (is_ident a.path (ascii "derive") && lists_foldback_hash a.path_args)) [
      | inl e ↦ rw e refl
      | inr e ↦ rw (e, derives_at attr attrs paths p l m n) refl
    ]

pub derives_foldback_hash-CarriesDerive :
    (attrs : List Attribute) → CarriesDerive attrs → derives_foldback_hash attrs ≡ true
derives_foldback_hash-CarriesDerive attrs c =
    derives_at c.attr attrs c.paths c.path c.args c.listed c.member

abbrev or_else : {A : Type 0} → A → Option A → A
or_else a none = a
or_else a (some b) = b

-- A file whose extension is `rs` is visited.
pub rust_files_mem :
    {File : Type 0} (e : DirEntry File) (entries : List (Option (DirEntry File)))
    → e.is_file ≡ true
    → e.extension ≡ some (ascii "rs")
    → Memᴰ (some e) entries
    → Memᴰ e.path (rust_files entries)
unfolding rust_files is_rust
rust_files_mem e [] f x m = elim m [ ]
rust_files_mem e (none ∷ entries) f x (Memᴰ.head q) = cc
rust_files_mem e (none ∷ entries) f x (Memᴰ.tail m) = rust_files_mem e entries f x m
rust_files_mem {File} e (some d ∷ entries) f x (Memᴰ.head q) =
    let same : e ≡ d = ap (or_else e) q in
    let rust : (d.is_file && is_rust d.extension) ≡ true =
      ap (λ (y : DirEntry File). y.is_file && is_rust y.extension) (sym same)
      ∙ ap₂ (λ b o. b && is_rust o) f x in
    rw rust (Memᴰ.head (ap (λ (y : DirEntry File). y.path) same))
rust_files_mem e (some d ∷ entries) f x (Memᴰ.tail m) =
    elim (Bool-cases (d.is_file && is_rust d.extension)) [
      | inl g ↦ rw g (Memᴰ.tail (rust_files_mem e entries f x m))
      | inr g ↦ rw g (rust_files_mem e entries f x m)
    ]

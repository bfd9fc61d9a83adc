-- ===== src/Lint/Collect.antt =====
-- What `collect_tracked_structs` of crates/foldback-cli/src/lint.rs pushes.
use foldback.Prelude.{true, List, [], ◌∷◌, ◌++◌}
use foldback.Prelude.{◌≡◌, refl, inl, inr, Bool-cases, Memᴰ}
use foldback.Prelude.Order.{text_ord, pair_ord}
use foldback.Syn.{Field, Fields, ItemStruct, Item, Items}
use foldback.Lint.{TrackedType, derives_foldback_hash, tracked_type, push_struct}
use foldback.Lint.{collect_tracked_structs, collect_item}

-- The items declare the struct, themselves or in an inline module.
pub data Declares (s : ItemStruct) : Items → Type 0 where
  here : {items : Items} → Declares s (Items.cons (Item.struct s) items)
  inside :
      {inner items : Items}
      → Declares s inner
      → Declares s (Items.cons (Item.inline_mod inner) items)
  later : {item : Item} {items : Items} → Declares s items → Declares s (Items.cons item items)

mem_left {ℓ} : {A : Type ℓ} {x : A} {xs : List A} (ys : List A) → Memᴰ x xs → Memᴰ x (xs ++ ys)
mem_left ys (Memᴰ.head e) = Memᴰ.head e
mem_left ys (Memᴰ.tail m) = Memᴰ.tail (mem_left ys m)

mem_last {ℓ} : {A : Type ℓ} {x : A} (xs : List A) → Memᴰ x (xs ++ (x ∷ []))
mem_last [] = Memᴰ.head refl
mem_last (y ∷ ys) = Memᴰ.tail (mem_last ys)

module _ {File : Type 0} (path : File) where
  push_struct-keeps :
      (s : ItemStruct) (fields : Fields) (out : List (TrackedType File)) (t : TrackedType File)
      → Memᴰ t out
      → Memᴰ t (push_struct s fields path out)
  unfolding push_struct
  push_struct-keeps s Fields.unnamed out t m = m
  push_struct-keeps s (Fields.named fields) out t m = mem_left (tracked_type s path fields ∷ []) m

  -- What is listed stays listed.
  mutual
    unfolding collect_tracked_structs collect_item

    pub collect-keeps :
        (items : Items) (out : List (TrackedType File)) (t : TrackedType File)
        → Memᴰ t out
        → Memᴰ t (collect_tracked_structs items path out)
    collect-keeps Items.nil out t m = m
    collect-keeps (Items.cons item items) out t m =
        collect-keeps items (collect_item item path out) t (collect_item-keeps item out t m)

    collect_item-keeps :
        (item : Item) (out : List (TrackedType File)) (t : TrackedType File)
        → Memᴰ t out
        → Memᴰ t (collect_item item path out)
    collect_item-keeps (Item.struct s) out t m = elim (Bool-cases (derives_foldback_hash s.attrs)) [
      | inl e ↦ rw (e, collect_item) (push_struct-keeps s s.fields out t m)
      | inr e ↦ rw (e, collect_item) m
    ]
    collect_item-keeps (Item.inline_mod items) out t m = collect-keeps items out t m
    collect_item-keeps Item.file_mod out t m = m
    collect_item-keeps Item.other out t m = m

  -- A struct with named fields and the derive.
  module _ (s : ItemStruct) (fields : List Field) (derives : derives_foldback_hash s.attrs ≡ true)
      (shape : s.fields ≡ Fields.named fields) where
    here_listed :
        (out : List (TrackedType File))
        → Memᴰ (tracked_type s path fields) (collect_item (Item.struct s) path out)
    unfolding collect_item push_struct
    here_listed out = rw (derives, collect_item, shape, push_struct) (mem_last out)

    pub collect-lists :
        {items : Items} (out : List (TrackedType File))
        → Declares s items
        → Memᴰ (tracked_type s path fields) (collect_tracked_structs items path out)
    unfolding collect_tracked_structs collect_item
    collect-lists {items = Items.cons item items} out Declares.here =
        collect-keeps items (collect_item (Item.struct s) path out) (tracked_type s path fields)
          (here_listed out)
    collect-lists out (Declares.inside {inner = inner} {items = items} d) =
        collect-keeps items (collect_tracked_structs inner path out) (tracked_type s path fields)
          (collect-lists out d)
    collect-lists out (Declares.later {item = item} d) =
        collect-lists (collect_item item path out) d

-- ===== src/Godot/Walk.antt =====
-- crates/foldback-godot/src/reflection.rs: `walk`, `walk_object`, `record` and `hash_reflected`. The
-- recursion of `walk` runs on fuel; each call goes one level deeper, up to the depth limit.
pub mod Termination
pub mod Cycles
pub mod Graph
pub mod Acyclic
mod Tests
use foldback.Prelude.{
  ℕ, zero, suc, ◌==◌, Bool, true, false, if◌then◌else◌, ltb, Option, none, some, List, [], ◌∷◌,
  ◌++◌,
}
use foldback.Prelude.Utf8.{Text}
use foldback.Error.{Error, Result, ok, err}
use foldback.Session
use foldback.Session.{Session, hash_bytes, contains}
use foldback.Bevy.{decimal, dotted, indexed}
use foldback.Godot.{
  default_max_depth, Leaf, Variant, Heap, WalkError, leaf_bytes, is_tracked, property_names,
}
use foldback.Godot.{list_tracked, schema_type_name}

pub record Walk : Type 0 where
  pub session : Session
  pub visited : List ℕ
  pub preview : List (Text × ℕ)

abbrev pub Reflect : Type 0
Reflect = Walk → Result WalkError (Unit {0}) × Walk

-- `?`, and what follows.
unfoldable pub and_then :
    Result WalkError (Unit {0}) × Walk → Reflect → Result WalkError (Unit {0}) × Walk
and_then (ok _, w) k = k w
and_then (err e, w) k = (err e, w)

unfoldable pub remove : ℕ → List ℕ → List ℕ
remove id [] = []
remove id (x ∷ xs) = let rest = remove id xs in if id == x then rest else x ∷ rest

-- `visited.remove(&id)` after the object, whether it succeeded or not.
unfoldable pub leave : ℕ → Result WalkError (Unit {0}) × Walk → Result WalkError (Unit {0}) × Walk
unfolding remove
leave id (r, w) = (r, record w { visited = remove id w.visited })

module _ (xxh3_64 : List ℕ → ℕ) (tick entity_id : ℕ) (heap : Heap) where
  unfoldable pub recorded :
      Text → List ℕ → Walk → Result Error (Unit {0}) × Session → Result WalkError (Unit {0}) × Walk
  recorded path bytes w (ok _, s) = (
    ok tt,
    record w { session = s; preview = w.preview ++ ((path, hash_bytes xxh3_64 bytes) ∷ []) },
  )
  recorded path bytes w (err e, s) =
      (err (WalkError.hash_field_failed path e), record w { session = s })

  unfoldable pub record_value : Text → List ℕ → Reflect
  unfolding recorded
  record_value path bytes w =
      recorded path bytes w (Session.hash_field xxh3_64 tick entity_id path bytes w.session)

  -- The loops: `child` is the call of `walk` one level deeper.
  module _ (child : Variant → Text → Reflect) where
    unfoldable pub walk_items : Text → ℕ → List Variant → Reflect
    unfolding and_then
    walk_items path i [] w = (ok tt, w)
    walk_items path i (v ∷ vs) w =
        and_then (child v (indexed path (decimal i)) w) (walk_items path (suc i) vs)

    unfoldable pub walk_entries : Text → List (Text × Variant) → Reflect
    unfolding and_then
    walk_entries path [] w = (ok tt, w)
    walk_entries path ((key, v) ∷ es) w =
        and_then (child v (indexed path key) w) (walk_entries path es)

    unfoldable pub walk_properties : ℕ → Text → List Text → Reflect
    unfolding and_then
    walk_properties obj path [] w = (ok tt, w)
    walk_properties obj path (name ∷ names) w =
        if is_tracked name
        then and_then (child (heap.get obj name) (dotted path name) w)
            (walk_properties obj path names)
        else walk_properties obj path names w

    unfoldable pub walk_object : ℕ → Text → Reflect
    unfolding walk_properties
    walk_object obj path = walk_properties obj path (property_names (heap.property_list obj))

    unfoldable pub enter : ℕ → Text → Reflect
    unfolding walk_object leave
    enter obj path w =
        if contains obj w.visited
        then (err (WalkError.reference_cycle path), w)
        else leave obj (walk_object obj path (record w { visited = obj ∷ w.visited }))

    unfoldable pub visit : Variant → Text → Reflect
    unfolding enter walk_items walk_entries record_value
    visit Variant.nil path = record_value path (255 ∷ [])
    visit (Variant.object none) path = record_value path (255 ∷ [])
    visit (Variant.object (some obj)) path = enter obj path
    visit (Variant.array a) path = walk_items path zero (heap.items a)
    visit (Variant.dictionary d) path = walk_entries path (heap.entries d)
    visit (Variant.leaf l) path = record_value path (leaf_bytes l)

  unfoldable pub walk : ℕ → Variant → ℕ → Text → Reflect
  unfolding visit
  walk zero v depth path w = (err (WalkError.depth_exceeded path), w)
  walk (suc fuel) v depth path w =
      if ltb default_max_depth depth
      then (err (WalkError.depth_exceeded path), w)
      else visit (λ u p. walk fuel u (suc depth) p) v path w

  unfoldable pub walked :
      Result WalkError (Unit {0}) × Walk → Result WalkError (List (Text × ℕ)) × Session
  walked (ok _, w) = (ok w.preview, w.session)
  walked (err e, w) = (err e, w.session)

  unfoldable pub walk_root :
      ℕ → Text → Result Error (Unit {0}) × Session → Result WalkError (List (Text × ℕ)) × Session
  unfolding walked walk
  walk_root target prefix (err e, s) = (err (WalkError.record_schema_failed e), s)
  walk_root target prefix (ok _, s) = walked (
      walk 10 (Variant.object (some target)) 0 prefix
        (record { session = s; visited = []; preview = [] }))

  unfoldable pub hash_reflected : Text → ℕ → Session → Result WalkError (List (Text × ℕ)) × Session
  unfolding walk_root
  hash_reflected prefix target s =
      walk_root target prefix
        (Session.record_schema (schema_type_name heap target) (list_tracked heap target).0 s)

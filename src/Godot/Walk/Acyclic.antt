-- ===== src/Godot/Walk/Acyclic.antt =====
-- What a walk that succeeds says of the graph: no object that it comes to leads back to itself.
use foldback.Prelude.{ℕ, zero, suc, ◌≡◌, refl, sym, ap, ◌∙◌, false, inl, inr, Bool-cases}
use foldback.Prelude.{Bool, none, some, List, [], ◌∷◌, ltb, if◌then◌else◌}
use foldback.Prelude.Utf8.{Text}
use foldback.Error.{Error, Result, ok, err}
use foldback.Session
use foldback.Session.{Session, contains}
use foldback.Godot
use foldback.Godot.{default_max_depth, Variant, Heap, WalkError, is_tracked, property_names}
use foldback.Godot.Walk.{
  Walk, Reflect, leave, enter, visit, walk, walked, walk_root, hash_reflected,
}
use foldback.Godot.Walk.{walk_object}
use foldback.Godot.Walk.Cycles.{Restores, walk-Restores}
use foldback.Godot.Walk.Graph.{
  Holds, Loops, Cleans, leave_inv, true_ne_false, contains_self, contains-tail,
}
use foldback.Godot.Walk.Graph.{items-Clean, entries-Clean, properties-Clean}

module _ (xxh3_64 : List ℕ → ℕ) (tick entity_id : ℕ) (heap : Heap) where
  module _ (child : Variant → Text → Reflect)
      (restores : (v : Variant) (path : Text) → Restores (child v path))
      (cleans : (v : Variant) (path : Text) → Cleans heap v (child v path)) where
    entered :
        (obj : ℕ) (path : Text) (w w' : Walk)
        → enter xxh3_64 tick entity_id heap child obj path w ≡ (ok tt, w')
        → (contains obj w.visited ≡ false)
          × (w1 : Walk) × (walk_object xxh3_64 tick entity_id heap child obj path
                (record w { visited = obj ∷ w.visited })
              ≡ (ok tt, w1))
    unfolding enter
    entered obj path w w' e = elim (Bool-cases (contains obj w.visited)) [
      | inl b ↦ absurd (cc (sym (ap guard b) ∙ e))
      | inr b ↦
          let (w1, e1) =
            leave_inv obj
              (walk_object xxh3_64 tick entity_id heap child obj path
                (record w { visited = obj ∷ w.visited }))
              w' (sym (ap guard b) ∙ e) in
          (b, w1, e1)
    ]
      where
        guard : Bool → Result WalkError (Unit {0}) × Walk
        guard c =
            if c
            then (err (WalkError.reference_cycle path), w)
            else leave obj (
                walk_object xxh3_64 tick entity_id heap child obj path
                  (record w { visited = obj ∷ w.visited }))

    enter-Clean :
        (obj : ℕ) (path : Text)
        → Cleans heap (Variant.object (some obj)) (enter xxh3_64 tick entity_id heap child obj path)
    unfolding walk_object
    enter-Clean obj path w w' id e Holds.itself =
        let (b, w1, e1) = entered obj path w w' e in
        (
          b,
          λ l. elim l [
            | Loops.loop {name = name} m t h ↦ true_ne_false (
                sym (contains_self obj w.visited)
                ∙ (properties-Clean xxh3_64 tick entity_id heap child restores cleans obj path
                    (property_names (heap.property_list obj))
                    (record w { visited = obj ∷ w.visited }) w1 obj name e1 m t h).0)
          ],
        )
    enter-Clean obj path w w' id e (Holds.property {name = name} m t h) =
        let (b, w1, e1) = entered obj path w w' e in
        let (c, l) =
          properties-Clean xxh3_64 tick entity_id heap child restores cleans obj path
            (property_names (heap.property_list obj)) (record w { visited = obj ∷ w.visited }) w1 id
            name e1 m t h in
        (contains-tail id obj w.visited c, l)

    visit-Clean :
        (v : Variant) (path : Text) → Cleans heap v (visit xxh3_64 tick entity_id heap child v path)
    unfolding visit
    visit-Clean Variant.nil path w w' id e h = elim h [ ]
    visit-Clean (Variant.object none) path w w' id e h = elim h [ ]
    visit-Clean (Variant.object (some obj)) path w w' id e h = enter-Clean obj path w w' id e h
    visit-Clean (Variant.array a) path w w' id e (Holds.item {v = v} m h) =
        items-Clean xxh3_64 tick entity_id heap child restores cleans path zero (heap.items a) w w'
          id v e m h
    visit-Clean (Variant.dictionary d) path w w' id e (Holds.entry {key = key} {v = v} m h) =
        entries-Clean xxh3_64 tick entity_id heap child restores cleans path (heap.entries d) w w'
          id key v e m h
    visit-Clean (Variant.leaf l) path w w' id e h = elim h [ ]

  walk-Clean :
      (fuel : ℕ) (v : Variant) (depth : ℕ) (path : Text)
      → Cleans heap v (walk xxh3_64 tick entity_id heap fuel v depth path)
  unfolding walk
  walk-Clean zero v depth path w w' id e h = absurd (cc e)
  walk-Clean (suc fuel) v depth path w w' id e h = elim (Bool-cases (ltb default_max_depth depth)) [
    | inl b ↦ absurd (cc (sym (ap guard b) ∙ e))
    | inr b ↦
        visit-Clean (λ u p. walk xxh3_64 tick entity_id heap fuel u (suc depth) p)
          (λ u p. walk-Restores xxh3_64 tick entity_id heap fuel u (suc depth) p)
          (λ u p. walk-Clean fuel u (suc depth) p) v path w w' id (sym (ap guard b) ∙ e) h
  ]
    where
      guard : Bool → Result WalkError (Unit {0}) × Walk
      guard c =
          if c
          then (err (WalkError.depth_exceeded path), w)
          else visit xxh3_64 tick entity_id heap
              (λ u p. walk xxh3_64 tick entity_id heap fuel u (suc depth) p) v path w

  walked_inv :
      (x : Result WalkError (Unit {0}) × Walk) (preview : List (Text × ℕ)) (s : Session)
      → walked xxh3_64 tick entity_id heap x ≡ (ok preview, s)
      → (w : Walk) × (x ≡ (ok tt, w))
  unfolding walked
  walked_inv (ok _, w) preview s e = (w, refl)
  walked_inv (err _, w) preview s e = absurd (cc e)

  walk_root-Clean :
      (target : ℕ) (prefix : Text) (x : Result Error (Unit {0}) × Session)
      (preview : List (Text × ℕ)) (s' : Session)
      → walk_root xxh3_64 tick entity_id heap target prefix x ≡ (ok preview, s')
      → (id : ℕ) → Holds heap id (Variant.object (some target))
      → ¬ Loops heap id
  unfolding walk_root
  walk_root-Clean target prefix (err x, s) preview s' e id h = absurd (cc e)
  walk_root-Clean target prefix (ok _, s) preview s' e id h =
      let start : Walk = record { session = s; visited = []; preview = [] } in
      let (w, e1) =
        walked_inv
          (walk xxh3_64 tick entity_id heap 10 (Variant.object (some target)) 0 prefix start)
          preview s' e in
      (walk-Clean 10 (Variant.object (some target)) 0 prefix start w id e1 h).1

  -- In any session, whatever its writes do: where `hash_reflected` succeeds on a Godot object, no
  -- object that the walk comes to, behind tracked properties, items of arrays and entries of
  -- dictionaries, leads back to itself that way.
  pub hash_reflected-not-Loops :
      (target : ℕ) (prefix : Text) (s s' : Session) (preview : List (Text × ℕ))
      → hash_reflected xxh3_64 tick entity_id heap prefix target s ≡ (ok preview, s')
      → (id : ℕ) → Holds heap id (Variant.object (some target))
      → ¬ Loops heap id
  unfolding hash_reflected
  hash_reflected-not-Loops target prefix s s' preview e id h =
      walk_root-Clean target prefix
        (Session.record_schema (Godot.schema_type_name heap target)
          (Godot.list_tracked heap target).0 s)
        preview s' e id h

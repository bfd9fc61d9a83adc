-- ===== src/Godot/Walk/Cycles.antt =====
-- What a walk leaves of the set of visited objects, and what its success says of the graph.
use foldback.Prelude.{ℕ, zero, suc, ==_refl, ◌≡◌, refl, ap, ◌∙◌, arith, false, inl, inr, Bool-cases}
use foldback.Prelude.{none, some, List, [], ◌∷◌, ltb}
use foldback.Prelude.Utf8.{Text}
use foldback.Error.{Error, Result, ok, err}
use foldback.Session
use foldback.Session.{Session, contains}
use foldback.Bevy.{decimal, dotted, indexed}
use foldback.Godot.{
  default_max_depth, Variant, Heap, WalkError, is_tracked, property_names, leaf_bytes,
}
use foldback.Godot.Walk.{
  Walk, Reflect, and_then, remove, leave, recorded, record_value, enter, visit, walk,
}
use foldback.Godot.Walk.{walk_items, walk_entries, walk_properties, walk_object}

remove-absent : (id : ℕ) (xs : List ℕ) → contains id xs ≡ false → remove id xs ≡ xs
unfolding contains remove
remove-absent id [] h = refl
remove-absent id (x ∷ xs) h = ground (arith, remove-absent id xs)

remove-head : (id : ℕ) (xs : List ℕ) → contains id xs ≡ false → remove id (id ∷ xs) ≡ xs
unfolding remove
remove-head id xs h = rw (==_refl id) (remove-absent id xs h)

-- The visited objects after a step, whatever its result, are those before it.
pub record Restores (m : Reflect) : Type 0 where
  pub restored : (w : Walk) → (m w).1.visited ≡ w.visited

and_then-Restores :
    (x : Result WalkError (Unit {0}) × Walk) (k : Reflect) (visited : List ℕ)
    → x.1.visited ≡ visited
    → Restores k
    → (and_then x k).1.visited ≡ visited
unfolding and_then
and_then-Restores (ok _, w) k visited e h = h.restored w ∙ e
and_then-Restores (err x, w) k visited e h = e

module _ (xxh3_64 : List ℕ → ℕ) (tick entity_id : ℕ) (heap : Heap) where
  recorded-visited :
      (path : Text) (bytes : List ℕ) (w : Walk) (x : Result Error (Unit {0}) × Session)
      → (recorded xxh3_64 tick entity_id heap path bytes w x).1.visited ≡ w.visited
  unfolding recorded
  recorded-visited path bytes w (ok _, s) = refl
  recorded-visited path bytes w (err e, s) = refl

  record_value-Restores :
      (path : Text) (bytes : List ℕ)
      → Restores (record_value xxh3_64 tick entity_id heap path bytes)
  unfolding record_value
  record_value-Restores path bytes = record {
    restored = λ w.
        recorded-visited path bytes w
          (Session.hash_field xxh3_64 tick entity_id path bytes w.session);
  }

  module _ (child : Variant → Text → Reflect)
      (h : (v : Variant) (path : Text) → Restores (child v path)) where
    walk_items-Restores :
        (path : Text) (i : ℕ) (vs : List Variant)
        → Restores (walk_items xxh3_64 tick entity_id heap child path i vs)
    unfolding walk_items
    walk_items-Restores path i [] = record { restored = λ w. refl }
    walk_items-Restores path i (v ∷ vs) = record {
      restored = λ w.
          and_then-Restores (child v (indexed path (decimal i)) w)
            (walk_items xxh3_64 tick entity_id heap child path (suc i) vs) w.visited
            ((h v (indexed path (decimal i))).restored w) (walk_items-Restores path (suc i) vs);
    }

    walk_entries-Restores :
        (path : Text) (es : List (Text × Variant))
        → Restores (walk_entries xxh3_64 tick entity_id heap child path es)
    unfolding walk_entries
    walk_entries-Restores path [] = record { restored = λ w. refl }
    walk_entries-Restores path ((key, v) ∷ es) = record {
      restored = λ w.
          and_then-Restores (child v (indexed path key) w)
            (walk_entries xxh3_64 tick entity_id heap child path es) w.visited
            ((h v (indexed path key)).restored w) (walk_entries-Restores path es);
    }

    walk_properties-Restores :
        (obj : ℕ) (path : Text) (names : List Text)
        → Restores (walk_properties xxh3_64 tick entity_id heap child obj path names)
    unfolding walk_properties
    walk_properties-Restores obj path [] = record { restored = λ w. refl }
    walk_properties-Restores obj path (name ∷ names) = record {
      restored = λ w. elim (Bool-cases (is_tracked name)) [
        | inl e ↦
            rw (e, walk_properties)
              (and_then-Restores (child (heap.get obj name) (dotted path name) w)
                (walk_properties xxh3_64 tick entity_id heap child obj path names) w.visited
                ((h (heap.get obj name) (dotted path name)).restored w)
                (walk_properties-Restores obj path names))
        | inr e ↦ rw (e, walk_properties) ((walk_properties-Restores obj path names).restored w)
      ];
    }

    enter-Restores :
        (obj : ℕ) (path : Text) → Restores (enter xxh3_64 tick entity_id heap child obj path)
    unfolding enter leave walk_object
    enter-Restores obj path = record {
      restored = λ w. elim (Bool-cases (contains obj w.visited)) [
        | inl e ↦ rw (e, enter) refl
        | inr e ↦
            rw (e, enter)
              (ap (remove obj) (
                  (walk_properties-Restores obj path
                      (property_names (heap.property_list obj))).restored
                    (record w { visited = obj ∷ w.visited }))
                ∙ remove-head obj w.visited e)
      ];
    }

    visit-Restores :
        (v : Variant) (path : Text) → Restores (visit xxh3_64 tick entity_id heap child v path)
    unfolding visit
    visit-Restores Variant.nil path = record_value-Restores path (255 ∷ [])
    visit-Restores (Variant.object none) path = record_value-Restores path (255 ∷ [])
    visit-Restores (Variant.object (some obj)) path = enter-Restores obj path
    visit-Restores (Variant.array a) path = walk_items-Restores path zero (heap.items a)
    visit-Restores (Variant.dictionary d) path = walk_entries-Restores path (heap.entries d)
    visit-Restores (Variant.leaf l) path = record_value-Restores path (leaf_bytes l)

  pub walk-Restores :
      (fuel : ℕ) (v : Variant) (depth : ℕ) (path : Text)
      → Restores (walk xxh3_64 tick entity_id heap fuel v depth path)
  unfolding walk
  walk-Restores zero v depth path = record { restored = λ w. refl }
  walk-Restores (suc fuel) v depth path = record {
    restored = λ w. elim (Bool-cases (ltb default_max_depth depth)) [
      | inl e ↦ rw (e, walk) refl
      | inr e ↦
          rw (e, walk)
            ((visit-Restores (λ u p. walk xxh3_64 tick entity_id heap fuel u (suc depth) p)
                (λ u p. walk-Restores fuel u (suc depth) p) v path).restored
              w)
    ];
  }

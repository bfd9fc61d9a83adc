-- ===== src/Godot/Walk/Tests.antt =====
-- A unit with points and two pouches that share a coin; and an object that holds itself.
use foldback.Prelude.{
  ℕ, ◌+◌, ◌==◌, ◌≡◌, refl, arith, foldl, if◌then◌else◌, true, Option, none, some, List, [], ◌∷◌,
}
use foldback.Prelude.{Memᴰ}
use foldback.Prelude.Bytes.{bytes_eq}
use foldback.Prelude.Utf8.{Text, ascii}
use foldback.Error.{ok, err}
use foldback.Session
use foldback.Session.{Session, default_builder, build_with, contains, hash_bytes}
use foldback.Session.{with_writer, record_peer_field_hash, contains_text}
use foldback.Godot.{
  Leaf, Variant, Heap, WalkError, is_tracked, property_names, list_tracked, leaf_bytes,
}
use foldback.Godot.Walk.{walk, hash_reflected}
use foldback.Godot.Walk.Graph.{Holds, Loops}
use foldback.Godot.Walk.Termination.{walk_enough}
use foldback.Godot.Walk.Acyclic.{hash_reflected-not-Loops}

abbrev sum : List ℕ → ℕ
sum = foldl (λ a b. a + b) 0

-- Object 1 refers to 2 twice, and 3 to itself.
abbrev value : ℕ → Text → Variant
value obj name =
    if obj == 1
    then (if bytes_eq name (ascii "foldback_c")
        then Variant.leaf (Leaf.truth true)
        else Variant.object (some 2))
    else if obj == 3
    then Variant.object (some 3)
    else Variant.nil

abbrev names : ℕ → List (Option Text)
names obj =
    if obj == 1
    then some (ascii "script")
      ∷ none
      ∷ some (ascii "foldback_a")
      ∷ some (ascii "foldback_b")
      ∷ some (ascii "foldback_c")
      ∷ []
    else some (ascii "foldback_x") ∷ []

abbrev heap : Heap
heap = record {
  items = λ a. [];
  entries = λ d. [];
  property_list = names;
  get = value;
  global_name = λ obj. some [];
  get_class = λ obj. ascii "Node";
}

abbrev live : Session
live = build_with default_builder none

abbrev preview : List (Text × ℕ)
preview =
    (ascii "u.foldback_a.foldback_x", 255)
    ∷ (ascii "u.foldback_b.foldback_x", 255)
    ∷ (ascii "u.foldback_c", 1)
    ∷ []

abbrev after_walk : Session
after_walk = (hash_reflected sum 1 7 heap (ascii "u") 1 live).1

-- The coin is shared and no cycle.
shared-hashed : hash_reflected sum 1 7 heap (ascii "u") 1 live ≡ (ok preview, after_walk)
unfolding hash_reflected walk is_tracked property_names list_tracked leaf_bytes contains
    Session.record_schema Session.hash_field build_with
shared-hashed = refl

cycle-found :
    (hash_reflected sum 1 7 heap (ascii "u") 3 live).0
    ≡ err (WalkError.reference_cycle (ascii "u.foldback_x"))
unfolding hash_reflected walk is_tracked property_names list_tracked leaf_bytes contains
    Session.record_schema build_with
cycle-found = refl

pouch-held : Holds heap 2 (Variant.object (some 1))
unfolding property_names is_tracked
pouch-held =
    Holds.property {name = ascii "foldback_a"} (Memᴰ.tail (Memᴰ.head refl)) refl Holds.itself

hash_reflected-not-Loops_example : ¬ Loops heap 2
hash_reflected-not-Loops_example =
    hash_reflected-not-Loops sum 1 7 heap 1 (ascii "u") live after_walk preview shared-hashed 2
      pouch-held

walk_enough_example :
    walk sum 1 7 heap 10
      (Variant.object (some 3))
      0
      []
      (record { session = live; visited = []; preview = [] })
    ≡ walk sum 1 7 heap 50
        (Variant.object (some 3))
        0
        []
        (record { session = live; visited = []; preview = [] })
walk_enough_example =
    walk_enough sum 1 7 heap 10 50 (Variant.object (some 3)) 0 []
      (record { session = live; visited = []; preview = [] }) (omega arith) (omega arith)

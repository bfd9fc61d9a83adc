-- ===== src/Bevy/Tests.antt =====
-- A player with points, an inventory and a mood; the inventory is a map of two items.
use foldback.Prelude.{ℕ, ◌+◌, ◌≡◌, refl, arith, foldl, none, some, List, [], ◌∷◌, ◌++◌, map}
use mathlib.Core.List.{Permᴰ, Memᴰ}
use foldback.Prelude.Utf8.{Text, ascii}
use foldback.Prelude.SortBy.{KeysDetermine, sort_by}
use foldback.Prelude.Order.{text_ord}
use foldback.Prelude.Bytes.{to_le_bytes}
use foldback.Error.{ok}
use foldback.Io.{vec}
use foldback.Session.{Session, default_builder, build_with, contains_text}
use foldback.Session.Frames.{file_bytes}
use foldback.Bevy.{Leaf, Value, Fields, Entries, join_path}
use foldback.Bevy.Walk.{walk, hash_reflected}
use foldback.Bevy.Leaves.{FitTracked, Fits, FitFields, FitItems, FitEntries, leaves, tracked_leaves}
use foldback.Session.Fields.{Ready}
use foldback.Bevy.Records.{preview_of}
use foldback.Bevy.Recorded.{hash_reflected-Ready, reflected_frames}
use foldback.Bevy.Depth.{hash_reflected-FitTracked}
use foldback.Bevy.Order.{pairs, pair_text, walk_of_perm}

abbrev sum : List ℕ → ℕ
sum = foldl (λ a b. a + b) 0

abbrev recording : Session
recording = record (build_with default_builder none) { writer = some (vec []) }

abbrev number : ℕ → Value
number n = Value.opaque (Leaf.number 2 n)

abbrev sword_first : Entries
sword_first =
    Entries.entry (ascii "sword") (number 1) (Entries.entry (ascii "bow") (number 2) Entries.empty)

abbrev bow_first : Entries
bow_first =
    Entries.entry (ascii "bow") (number 2) (Entries.entry (ascii "sword") (number 1) Entries.empty)

abbrev player : Fields
player = Fields.field (some (ascii "hp")) (number 300) (
    Fields.field (some (ascii "items")) (Value.map sword_first) (
      Fields.gap none (
        Fields.field (some (ascii "mood")) (Value.enumeration (ascii "Calm") Fields.end)
          Fields.end)))

abbrev tracked : List Text
tracked = ascii "hp" ∷ ascii "items" ∷ []

player-leaves :
    tracked_leaves tracked player []
    ≡ (ascii "hp", 44 ∷ 1 ∷ [])
      ∷ (ascii "items[bow]", 2 ∷ 0 ∷ [])
      ∷ (ascii "items[sword]", 1 ∷ 0 ∷ [])
      ∷ []
unfolding tracked_leaves leaves contains_text join_path to_le_bytes sort_by
player-leaves = refl

player-FitTracked : FitTracked tracked player
unfolding Fits FitFields FitItems FitEntries
player-FitTracked = (
  λ _. (omega arith, tt),
  (λ _. (omega arith, ((omega arith, tt), ((omega arith, tt), tt))), (λ _. (omega arith, tt), tt)),
)

recording-Ready : Ready 0 [] recording
unfolding build_with
recording-Ready = record { local = refl; file = refl }

hash_reflected-Ready_example :
    (s' : Session) × (hash_reflected sum 7 1
        (ascii "Player")
        tracked
        []
        (Value.struct player)
        recording
      ≡ (ok (map (preview_of sum 7 1 0) (tracked_leaves tracked player [])), s'))
    × Ready 0
        ([] ++ file_bytes (reflected_frames sum 7 1 0 recording (ascii "Player") tracked player []))
        s'
hash_reflected-Ready_example =
    hash_reflected-Ready sum 7 1 0 recording (ascii "Player") tracked [] player [] recording-Ready
      player-FitTracked

hash_reflected-FitTracked_example : FitTracked tracked player
hash_reflected-FitTracked_example =
    hash_reflected-FitTracked sum 7 1 (ascii "Player") tracked [] player recording
      hash_reflected-Ready_example.0 (map (preview_of sum 7 1 0) (tracked_leaves tracked player []))
      hash_reflected-Ready_example.1

sword_first-KeysDetermine : KeysDetermine pair_text (pairs sword_first)
sword_first-KeysDetermine x y (Memᴰ.head p) (Memᴰ.head q) e = cc
sword_first-KeysDetermine x y (Memᴰ.head p) (Memᴰ.tail (Memᴰ.head q)) e = cc
sword_first-KeysDetermine x y (Memᴰ.head p) (Memᴰ.tail (Memᴰ.tail n)) e = elim n [ ]
sword_first-KeysDetermine x y (Memᴰ.tail (Memᴰ.head p)) (Memᴰ.head q) e = cc
sword_first-KeysDetermine x y (Memᴰ.tail (Memᴰ.head p)) (Memᴰ.tail (Memᴰ.head q)) e = cc
sword_first-KeysDetermine x y (Memᴰ.tail (Memᴰ.head p)) (Memᴰ.tail (Memᴰ.tail n)) e = elim n [ ]
sword_first-KeysDetermine x y (Memᴰ.tail (Memᴰ.tail n)) m e = elim n [ ]

walk_of_perm_example :
    (walk sum 7 1 (Value.map sword_first) 1 (ascii "items")
      ≡ walk sum 7 1 (Value.map bow_first) 1 (ascii "items"))
    × (walk sum 7 1 (Value.set sword_first) 1 (ascii "items")
        ≡ walk sum 7 1 (Value.set bow_first) 1 (ascii "items"))
walk_of_perm_example =
    walk_of_perm sum 7 1 sword_first bow_first 1 (ascii "items") sword_first-KeysDetermine
      (Permᴰ.swap refl refl)

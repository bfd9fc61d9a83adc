-- ===== src/Hashable/Tests.antt =====
-- A map from texts to points, in two orders of iteration.
use foldback.Prelude.{ℕ, ◌≡◌, refl, List, [], ◌∷◌}
use mathlib.Core.List.{Permᴰ, Memᴰ}
use foldback.Prelude.Bytes.{to_le_bytes}
use foldback.Prelude.Order.{text_ord, nat_ord}
use foldback.Prelude.SortBy.{KeysDetermine, sort_by}
use foldback.Hashable.{FieldBytes, number_bytes, array_bytes, map_bytes, entry_key}
use foldback.Hashable.Order.{map_bytes_of_perm}

abbrev points : FieldBytes (List (ℕ × List ℕ))
points = map_bytes (number_bytes 1) (array_bytes (number_bytes 2))

abbrev one_two : List (ℕ × List ℕ)
one_two = (1, 7 ∷ 8 ∷ []) ∷ (2, 258 ∷ []) ∷ []

abbrev two_one : List (ℕ × List ℕ)
two_one = (2, 258 ∷ []) ∷ (1, 7 ∷ 8 ∷ []) ∷ []

points-bytes : points.field_bytes two_one ≡ 1 ∷ 7 ∷ 0 ∷ 8 ∷ 0 ∷ 2 ∷ 2 ∷ 1 ∷ []
unfolding map_bytes sort_by to_le_bytes
points-bytes = refl

one_two-KeysDetermine : KeysDetermine entry_key one_two
one_two-KeysDetermine x y (Memᴰ.head p) (Memᴰ.head q) e = cc
one_two-KeysDetermine x y (Memᴰ.head p) (Memᴰ.tail (Memᴰ.head q)) e = cc
one_two-KeysDetermine x y (Memᴰ.head p) (Memᴰ.tail (Memᴰ.tail n)) e = elim n [ ]
one_two-KeysDetermine x y (Memᴰ.tail (Memᴰ.head p)) (Memᴰ.head q) e = cc
one_two-KeysDetermine x y (Memᴰ.tail (Memᴰ.head p)) (Memᴰ.tail (Memᴰ.head q)) e = cc
one_two-KeysDetermine x y (Memᴰ.tail (Memᴰ.head p)) (Memᴰ.tail (Memᴰ.tail n)) e = elim n [ ]
one_two-KeysDetermine x y (Memᴰ.tail (Memᴰ.tail n)) m e = elim n [ ]

map_bytes_of_perm_example : points.field_bytes one_two ≡ points.field_bytes two_one
map_bytes_of_perm_example =
    map_bytes_of_perm (number_bytes 1) (array_bytes (number_bytes 2)) one_two-KeysDetermine
      (Permᴰ.swap refl refl)

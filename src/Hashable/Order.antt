-- ===== src/Hashable/Order.antt =====
-- The bytes of maps and sets do not depend on the order of iteration.
use foldback.Prelude.{◌≡◌, ap, List}
use mathlib.Core.List.{Permᴰ}
use foldback.Prelude.Order.{Ord}
use foldback.Prelude.SortBy.{KeysDetermine, sort_by_of_perm}
use foldback.Hashable.{FieldBytes, flat_map, entry_key, entry_bytes, map_bytes, set_bytes}

module _ {ℓ κ} {K : Type ℓ} {V : Type κ} ⦃o : Ord K⦄ (k : FieldBytes K) (v : FieldBytes V) where
  -- The bytes of a map are the same for every order in which its entries are iterated, entries
  -- with one key being equal.
  pub map_bytes_of_perm :
      {entries entries' : List (K × V)}
      → KeysDetermine entry_key entries
      → Permᴰ entries entries'
      → (map_bytes k v).field_bytes entries ≡ (map_bytes k v).field_bytes entries'
  unfolding map_bytes
  map_bytes_of_perm h p = ap (flat_map (entry_bytes k v)) (sort_by_of_perm entry_key h p)

  pub set_bytes_of_perm :
      {items items' : List K}
      → Permᴰ items items'
      → (set_bytes k).field_bytes items ≡ (set_bytes k).field_bytes items'
  unfolding set_bytes
  set_bytes_of_perm p = ap (flat_map k.field_bytes) (sort_by_of_perm (λ x. x) (λ x y m n e. e) p)

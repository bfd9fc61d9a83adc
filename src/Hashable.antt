-- ===== src/Hashable.antt =====
-- crates/foldback-core/src/hashable.rs: the bytes of a field's value. A number is its bits, and a
-- container comes in the order of its iteration.
pub mod Order
mod Tests
use foldback.Prelude.{ℕ, Bool, true, false, List, [], ◌∷◌, ◌++◌}
use foldback.Prelude.Bytes.{to_le_bytes}
use foldback.Prelude.Order.{Ord}
use foldback.Prelude.SortBy.{sort_by}

pub record FieldBytes {ℓ} (A : Type ℓ) : Type ℓ where
  pub field_bytes : A → List ℕ

abbrev pub flat_map {ℓ} : {A : Type ℓ} → (A → List ℕ) → List A → List ℕ
flat_map f [] = []
flat_map f (x ∷ xs) = f x ++ flat_map f xs

-- A float or an integer of the given width in bytes.
abbrev pub number_bytes : ℕ → FieldBytes ℕ
number_bytes width = record { field_bytes = to_le_bytes width }

instance abbrev pub bool_bytes : FieldBytes Bool
bool_bytes = record { field_bytes = λ b. elim b [ true ↦ 1 ∷ [] | false ↦ 0 ∷ [] ] }

abbrev pub array_bytes {ℓ} : {A : Type ℓ} → FieldBytes A → FieldBytes (List A)
array_bytes a = record { field_bytes = flat_map a.field_bytes }

abbrev pub entry_key {ℓ κ} : {K : Type ℓ} {V : Type κ} → K × V → K
entry_key e = e.0

abbrev pub entry_bytes {ℓ κ} :
    {K : Type ℓ} {V : Type κ} → FieldBytes K → FieldBytes V → K × V → List ℕ
entry_bytes k v e = k.field_bytes e.0 ++ v.field_bytes e.1

-- `HashMap` and `BTreeMap`
unfoldable pub map_bytes {ℓ κ} :
    {K : Type ℓ} {V : Type κ}
    → ⦃o : Ord K⦄ → FieldBytes K
    → FieldBytes V
    → FieldBytes (List (K × V))
map_bytes k v = record {
  field_bytes = λ entries. flat_map (entry_bytes k v) (sort_by entry_key entries);
}

-- `HashSet` and `BTreeSet`
unfoldable pub set_bytes {ℓ} : {A : Type ℓ} → ⦃o : Ord A⦄ → FieldBytes A → FieldBytes (List A)
set_bytes a = record { field_bytes = λ items. flat_map a.field_bytes (sort_by (λ x. x) items) }

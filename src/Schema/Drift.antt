-- ===== src/Schema/Drift.antt =====
-- What schema drift is; fingerprints and the order of fields.
use foldback.Prelude.{◌≡◌, ◌≢◌, ◌↔◌, ◌⊎◌, refl, sym, ap, ap₂, ◌∙◌, false, Option, none, some}
use foldback.Prelude.{List, [], ◌∷◌, ◌++◌, inl, inr, Bool-cases, Memᴰ, subst}
use foldback.Prelude.Bytes.{bytes_eq, bytes_eq_iff}
use foldback.Prelude.Utf8.{Text}
use foldback.Prelude.Order.{text_ord}
use foldback.Prelude.OrdMap.{get, IsAscending, get_of_mem, mem_of_get}
use foldback.Prelude.Sort.{sort_of_perm}
use mathlib.Core.List.{Permᴰ}
use foldback.Schema.{SchemaDrift, Schemas, fingerprint, join_comma, drift_entry, detect_drift}
use foldback.Schema.{}

-- The fingerprint of a list of tracked fields is that of every permutation of the list.
pub fingerprint_of_perm : (fs gs : List Text) → Permᴰ fs gs → fingerprint fs ≡ fingerprint gs
unfolding fingerprint
fingerprint_of_perm fs gs p = ap join_comma (sort_of_perm p)

-- A type on both sides, with different fingerprints.
abbrev pub Drifted : Schemas → Schemas → SchemaDrift → Type 0
Drifted before after d =
    (get d.type_name before ≡ some d.before)
    × (get d.type_name after ≡ some d.after)
    × (d.before ≢ d.after)

-- The same, of a list of entries.
abbrev Listed : Schemas → Schemas → SchemaDrift → Type 0
Listed before after d =
    Memᴰ (d.type_name, d.before) before
    × (get d.type_name after ≡ some d.after)
    × (d.before ≢ d.after)

mem-append_cases : {A : Type 0} (x : A) (xs ys : List A) → Memᴰ x (xs ++ ys) → Memᴰ x xs ⊎ Memᴰ x ys
mem-append_cases x [] ys m = inr m
mem-append_cases x (y ∷ xs) ys (Memᴰ.head e) = inl (Memᴰ.head e)
mem-append_cases x (y ∷ xs) ys (Memᴰ.tail m) = elim (mem-append_cases x xs ys m) [
  | inl a ↦ inl (Memᴰ.tail a)
  | inr b ↦ inr b
]

mem-append_left : {A : Type 0} (x : A) (xs ys : List A) → Memᴰ x xs → Memᴰ x (xs ++ ys)
mem-append_left x [] ys m = elim m [ ]
mem-append_left x (y ∷ xs) ys (Memᴰ.head e) = Memᴰ.head e
mem-append_left x (y ∷ xs) ys (Memᴰ.tail m) = Memᴰ.tail (mem-append_left x xs ys m)

mem-append_right : {A : Type 0} (x : A) (xs ys : List A) → Memᴰ x ys → Memᴰ x (xs ++ ys)
mem-append_right x [] ys m = m
mem-append_right x (y ∷ xs) ys m = Memᴰ.tail (mem-append_right x xs ys m)

one_entry_sound :
    (name fp after : Text) (d : SchemaDrift)
    → bytes_eq after fp ≡ false
    → Memᴰ {A = SchemaDrift} d (record { type_name = name; before = fp; after = after } ∷ [])
    → (d.type_name ≡ name) × (d.before ≡ fp) × (some after ≡ some d.after) × (d.before ≢ d.after)
one_entry_sound name fp after d c (Memᴰ.tail n) = elim n [ ]
one_entry_sound name fp after d c (Memᴰ.head e) = (
  ap (λ (x : SchemaDrift). x.type_name) e,
  b,
  ap some (sym a),
  λ q. cc (c, (bytes_eq_iff after fp).1 (sym a ∙ sym q ∙ b)),
)
  where
    a : d.after ≡ after
    a = ap (λ (x : SchemaDrift). x.after) e

    b : d.before ≡ fp
    b = ap (λ (x : SchemaDrift). x.before) e

entry_sound :
    (name fp : Text) (o : Option Text) (d : SchemaDrift)
    → Memᴰ d (drift_entry name fp o)
    → (d.type_name ≡ name) × (d.before ≡ fp) × (o ≡ some d.after) × (d.before ≢ d.after)
unfolding drift_entry
entry_sound name fp none d m = elim m [ ]
entry_sound name fp (some after) d m = elim (Bool-cases (bytes_eq after fp)) [
  | inl c ↦ elim (rw c at m) [ ]
  | inr c ↦ one_entry_sound name fp after d c (rw c at m)
]

entry_complete :
    (d : SchemaDrift)
    → d.before ≢ d.after
    → Memᴰ d (drift_entry d.type_name d.before (some d.after))
unfolding drift_entry
entry_complete d ne = elim (Bool-cases (bytes_eq d.after d.before)) [
  | inl c ↦ absurd (ne (sym ((bytes_eq_iff d.after d.before).0 c)))
  | inr c ↦ rw c (Memᴰ.head refl)
]

detect_drift_sound :
    (before after : Schemas) (d : SchemaDrift)
    → Memᴰ d (detect_drift before after)
    → Listed before after d
unfolding detect_drift
detect_drift_sound [] after d m = elim m [ ]
detect_drift_sound ((name, fp) ∷ before) after d m =
    elim (mem-append_cases d (drift_entry name fp (get name after)) (detect_drift before after) m) [
      | inl a ↦
          let (n, b, g, ne) = entry_sound name fp (get name after) d a in
          (Memᴰ.head (ap₂ (λ x y. (x, y)) n b), ap (λ x. get x after) n ∙ g, ne)
      | inr b ↦ let (n, g, ne) = detect_drift_sound before after d b in (Memᴰ.tail n, g, ne)
    ]

detect_drift_complete :
    (before after : Schemas) (d : SchemaDrift)
    → Listed before after d
    → Memᴰ d (detect_drift before after)
unfolding detect_drift
detect_drift_complete [] after d (m, g, ne) = elim m [ ]
detect_drift_complete ((name, fp) ∷ before) after d (Memᴰ.head e, g, ne) =
    mem-append_left d (drift_entry name fp (get name after)) (detect_drift before after) (
      subst (λ o. Memᴰ d (drift_entry name fp o))
        (sym g ∙ ap (λ (x : Text × Text). get x.0 after) e)
        (subst (λ x. Memᴰ d (drift_entry x.0 x.1 (some d.after))) e (entry_complete d ne)))
detect_drift_complete ((name, fp) ∷ before) after d (Memᴰ.tail m, g, ne) =
    mem-append_right d (drift_entry name fp (get name after)) (detect_drift before after)
      (detect_drift_complete before after d (m, g, ne))

-- `detect_drift` reports a drift exactly for the types that both maps know with different
-- fingerprints, with both fingerprints. The keys of the first map ascend, as in a `BTreeMap`.
pub detect_drift_iff :
    (before after : Schemas) (d : SchemaDrift)
    → IsAscending before
    → Memᴰ d (detect_drift before after) ↔ Drifted before after d
detect_drift_iff before after d a = (
  λ m. let (n, g, ne) = detect_drift_sound before after d m in (get_of_mem before a n, g, ne),
  λ (b, g, ne). detect_drift_complete before after d (mem_of_get d.type_name before b, g, ne),
)

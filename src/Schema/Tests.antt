-- ===== src/Schema/Tests.antt =====
-- Two recordings of a type `p`, which lost its field `y`.
use foldback.Prelude.{◌≡◌, ◌↔◌, refl, List, [], ◌∷◌, Memᴰ}
use mathlib.Core.List.{Permᴰ}
use foldback.Prelude.Utf8.{Text}
use foldback.Prelude.Order.{text_ord}
use foldback.Prelude.OrdMap.{get}
use foldback.Prelude.Bytes.{bytes_eq}
use foldback.Schema.{SchemaDrift, Schemas, fingerprint, detect_drift, drift_entry}
use foldback.Schema.Drift.{Drifted, detect_drift_iff, fingerprint_of_perm}

abbrev before : Schemas
before = ((b'p' ∷ []), (b'x' ∷ b',' ∷ b'y' ∷ [])) ∷ []

abbrev after : Schemas
after = ((b'p' ∷ []), (b'x' ∷ [])) ∷ []

abbrev lost_y : SchemaDrift
lost_y = record { type_name = b'p' ∷ []; before = b'x' ∷ b',' ∷ b'y' ∷ []; after = b'x' ∷ [] }

lost_y_found : detect_drift before after ≡ lost_y ∷ []
unfolding detect_drift drift_entry get bytes_eq
lost_y_found = refl

detect_drift_iff_example : Memᴰ lost_y (detect_drift before after) ↔ Drifted before after lost_y
detect_drift_iff_example = detect_drift_iff before after lost_y (tt, tt)

abbrev x_y : List Text
x_y = (b'x' ∷ []) ∷ (b'y' ∷ []) ∷ []

abbrev y_x : List Text
y_x = (b'y' ∷ []) ∷ (b'x' ∷ []) ∷ []

fingerprint_of_perm_example : fingerprint x_y ≡ fingerprint y_x
fingerprint_of_perm_example = fingerprint_of_perm x_y y_x (Permᴰ.swap refl refl)

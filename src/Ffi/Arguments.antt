-- ===== src/Ffi/Arguments.antt =====
-- The arguments of the C interface as its users see them, apart from the code that reads them: which
-- pointers stand for which texts and bytes.
use foldback.Prelude.{
  ℕ, zero, suc, ◌≡◌, refl, ap₂, ◌∙◌, inl, inr, Bool-cases, if◌then◌else◌, take, ◌==◌, false, arith,
}
use foldback.Prelude.{Option, none, some, List, [], ◌∷◌}
use foldback.Prelude.Utf8.{Text, is_utf8}
use foldback.Error.{Result, ok, err}
use foldback.Ffi.{str_from_raw, bytes_from_raw}
use foldback.Ffi.Entry.{field_entries, field_names_from_raw}

-- The bytes that a pointer and a length stand for: a null pointer is good for no bytes only.
abbrev pub bytes_at : Option (List ℕ) → ℕ → Option (List ℕ)
bytes_at none zero = some []
bytes_at none (suc len) = none
bytes_at (some bytes) len = some (take len bytes)

-- The text that a pointer stands for: it is not null, and its bytes are UTF-8.
abbrev pub text_at : Option (List ℕ) → Option Text
text_at none = none
text_at (some bytes) = if is_utf8 bytes then some bytes else none

abbrev both : Option Text → Option (List Text) → Option (List Text)
both (some text) (some texts) = some (text ∷ texts)
both (some text) none = none
both none texts = none

abbrev pub texts_of : List (Option (List ℕ)) → Option (List Text)
texts_of [] = some []
texts_of (p ∷ ps) = both (text_at p) (texts_of ps)

-- The texts that an array of `count` pointers stands for, all of which must be good.
abbrev pub texts_at : Option (List (Option (List ℕ))) → ℕ → Option (List Text)
texts_at none zero = some []
texts_at none (suc count) = none
texts_at (some ps) count = texts_of (take count ps)

pub suc_nonzero : (n : ℕ) → (suc n == 0) ≡ false
suc_nonzero n = ground arith

abbrev pub to_option : {A : Type 0} → Result Text A → Option A
to_option (ok a) = some a
to_option (err msg) = none

pub bytes_from_raw_lem :
    (p : Option (List ℕ)) (len : ℕ) → to_option (bytes_from_raw p len) ≡ bytes_at p len
unfolding bytes_from_raw
bytes_from_raw_lem none zero = refl
bytes_from_raw_lem none (suc len) = rw (suc_nonzero len) refl
bytes_from_raw_lem (some bytes) zero = refl
bytes_from_raw_lem (some bytes) (suc len) = rw (suc_nonzero len) refl

module _ (utf8_error : List ℕ → Text) where
  pub str_from_raw_lem :
      (p : Option (List ℕ)) (label : Text) → to_option (str_from_raw utf8_error p label) ≡ text_at p
  unfolding str_from_raw
  str_from_raw_lem none label = refl
  str_from_raw_lem (some bytes) label = elim (Bool-cases (is_utf8 bytes)) [
    | inl e ↦ rw e refl
    | inr e ↦ rw e refl
  ]

  entry_lem :
      (r : Result Text Text) (rs : Result Text (List Text))
      → to_option (elim r [
        | ok name ↦ elim rs [ ok names ↦ ok (name ∷ names) | err msg ↦ err msg ]
        | err msg ↦ err msg
      ])
        ≡ both (to_option r) (to_option rs)
  entry_lem (ok name) (ok names) = refl
  entry_lem (ok name) (err msg) = refl
  entry_lem (err msg) rs = refl

  field_entries_lem :
      (ps : List (Option (List ℕ))) → to_option (field_entries utf8_error ps) ≡ texts_of ps
  unfolding field_entries
  field_entries_lem [] = refl
  field_entries_lem (p ∷ ps) =
      entry_lem _ (field_entries utf8_error ps)
      ∙ ap₂ both (str_from_raw_lem p _) (field_entries_lem ps)

  pub field_names_from_raw_lem :
      (fields : Option (List (Option (List ℕ)))) (count : ℕ)
      → to_option (field_names_from_raw utf8_error fields count) ≡ texts_at fields count
  unfolding field_names_from_raw
  field_names_from_raw_lem none zero = refl
  field_names_from_raw_lem none (suc count) = rw (suc_nonzero count) refl
  field_names_from_raw_lem (some ps) count = field_entries_lem (take count ps)

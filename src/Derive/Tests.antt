-- ===== src/Derive/Tests.antt =====
-- A struct with a hashed, a reflected, an unmarked and a skipped field.
use foldback.Prelude.{ℕ, ◌+◌, ◌≡◌, refl, foldl, none, some, List, [], ◌∷◌, ◌++◌, map}
use foldback.Prelude.Utf8.{Text, ascii}
use foldback.Error.{ok}
use foldback.Io.{vec}
use foldback.Session.{Session, default_builder, build_with}
use foldback.Session.Frames.{file_bytes}
use foldback.Session.Fields.{Ready, frame_of}
use foldback.Syn.{Attribute, Field, Fields, is_ident}
use foldback.Derive
use foldback.Derive.{Generated, hash_fields, derive_foldback_hash}
use foldback.Derive.Marked.{hashed_names}
use foldback.Derive.Hashed.{hashed_field, hash_fields-Ready}

abbrev sum : List ℕ → ℕ
sum = foldl (λ a b. a + b) 0

abbrev marked : Text → List Attribute
marked text =
    record { path = some (ascii "foldback"); ident_arg = some text; path_args = none } ∷ []

abbrev unit_fields : List Field
unit_fields =
    record { ident = some (ascii "hp"); attrs = marked (ascii "hash") }
    ∷ record { ident = some (ascii "bag"); attrs = marked (ascii "reflect") }
    ∷ record { ident = some (ascii "label"); attrs = [] }
    ∷ record { ident = some (ascii "clock"); attrs = marked (ascii "skip") }
    ∷ []

abbrev unit_generated : Generated
unit_generated = record {
  hash_calls = ascii "hp" ∷ [];
  tracked_names = ascii "hp" ∷ ascii "bag" ∷ [];
  untracked_names = ascii "label" ∷ [];
}

unit-accepted :
    derive_foldback_hash (Derive.Data.struct (Fields.named unit_fields)) ≡ ok unit_generated
unfolding derive_foldback_hash Derive.expand_fields Derive.field_marking is_ident
unit-accepted = refl

abbrev recording : Session
recording = record (build_with default_builder none) { writer = some (vec []) }

recording-Ready : Ready 0 [] recording
unfolding build_with
recording-Ready = record { local = refl; file = refl }

abbrev bytes_of : Text → List ℕ
bytes_of name = 5 ∷ 0 ∷ []

hash_fields-Ready_example :
    (s' : Session) × (hash_fields sum 3 1 bytes_of unit_generated recording ≡ (ok tt, s'))
    × Ready 0
        ([]
          ++ file_bytes (
              map
                (λ name. frame_of sum 3 1 0 (hashed_field sum 3 1 0 bytes_of name))
                (hashed_names unit_fields)))
        s'
hash_fields-Ready_example =
    hash_fields-Ready sum 3 1 0 bytes_of unit_fields unit_generated recording [] unit-accepted
      recording-Ready

-- ===== src/Lint/Agreement.antt =====
-- The scanner beside the derive macro: on a struct that the macro accepts, both name the same fields.
use foldback.Prelude.{if◌then◌else◌, Option, none, some, List, [], ◌∷◌}
use foldback.Prelude.{arith, ◌≡◌, refl, sym, ap, ◌∙◌, inl, inr, Bool-cases}
use foldback.Prelude.Utf8.{Text, ascii}
use foldback.Error.{ok, bind_inv, ok_injective}
use foldback.Syn.{is_ident, Attribute, Field, Fields}
use foldback.Derive
use foldback.Derive.{
  CompileError, Generated, push_field, expand_field, expand_fields, derive_foldback_hash,
}
use foldback.Derive.{nothing_generated}
use foldback.Derive.Marked.{ident_of, expand_field_inv}
use foldback.Lint
use foldback.Lint.{Names, push_name, names_of, no_names, name_or_empty}

-- What the scanner makes of a marking of the macro.
abbrev as_lint : Derive.FieldMarking → Lint.FieldMarking
as_lint Derive.FieldMarking.hash = Lint.FieldMarking.tracked
as_lint Derive.FieldMarking.reflect = Lint.FieldMarking.tracked
as_lint Derive.FieldMarking.skip = Lint.FieldMarking.skip
as_lint Derive.FieldMarking.unmarked = Lint.FieldMarking.unmarked

abbrev names_in : Generated → Names
names_in g = record { tracked = g.tracked_names; untracked = g.untracked_names }

marking_or-marking_of :
    (o : Option Text) (m : Derive.FieldMarking) (rest : Lint.FieldMarking)
    → Derive.marking_of o ≡ ok m
    → Lint.marking_or o rest ≡ as_lint m
unfolding Derive.marking_of Derive.marking_named Lint.marking_or Lint.marking_named
marking_or-marking_of none m rest e = cc
marking_or-marking_of (some t) Derive.FieldMarking.hash rest e = ground (arith, e)
marking_or-marking_of (some t) Derive.FieldMarking.reflect rest e = ground (arith, e)
marking_or-marking_of (some t) Derive.FieldMarking.skip rest e = ground (arith, e)
marking_or-marking_of (some t) Derive.FieldMarking.unmarked rest e = ground (arith, e)

field_marking-agree :
    (attrs : List Attribute) (m : Derive.FieldMarking)
    → Derive.field_marking attrs ≡ ok m
    → Lint.field_marking attrs ≡ as_lint m
unfolding Derive.field_marking Lint.field_marking
field_marking-agree [] Derive.FieldMarking.hash e = cc
field_marking-agree [] Derive.FieldMarking.reflect e = cc
field_marking-agree [] Derive.FieldMarking.skip e = cc
field_marking-agree [] Derive.FieldMarking.unmarked e = refl
field_marking-agree (attr ∷ attrs) m e = elim (Bool-cases (is_ident attr.path (ascii "foldback"))) [
  | inl b ↦ rw b (
      marking_or-marking_of attr.ident_arg m (Lint.field_marking attrs) (
        sym (ap (λ c. if c then Derive.marking_of attr.ident_arg else Derive.field_marking attrs) b)
        ∙ e))
  | inr b ↦ rw b (
      field_marking-agree attrs m (
        sym (ap (λ c. if c then Derive.marking_of attr.ident_arg else Derive.field_marking attrs) b)
        ∙ e))
]

push_name-as_lint :
    (m : Derive.FieldMarking) (name : Text) (g : Generated)
    → push_name (as_lint m) name (names_in g) ≡ names_in (push_field m name g)
unfolding push_name push_field
push_name-as_lint Derive.FieldMarking.hash name g = refl
push_name-as_lint Derive.FieldMarking.reflect name g = refl
push_name-as_lint Derive.FieldMarking.skip name g = refl
push_name-as_lint Derive.FieldMarking.unmarked name g = refl

names_of-expand_fields :
    (fs : List Field) (g g' : Generated)
    → expand_fields fs g ≡ ok g'
    → names_of fs (names_in g) ≡ names_in g'
unfolding expand_fields names_of
names_of-expand_fields [] g g' e = ap names_in (ok_injective e)
names_of-expand_fields (f ∷ fs) g g' e =
    let (g1, e1, e2) = bind_inv (expand_field f g) (λ x. expand_fields fs x) g' e in
    let (m, em, ei, eg) = expand_field_inv f g g1 e1 in
    ap (λ k. names_of fs (push_name k (name_or_empty f.ident) (names_in g)))
      (field_marking-agree f.attrs m em)
    ∙ ap (λ o. names_of fs (push_name (as_lint m) (name_or_empty o) (names_in g))) ei
    ∙ ap (names_of fs) (push_name-as_lint m (ident_of f) g)
    ∙ ap (λ x. names_of fs (names_in x)) eg
    ∙ names_of-expand_fields fs g1 g' e2

-- On the named fields of a struct that the derive macro accepts, the scanner's tracked and
-- untracked names are the macro's `TRACKED_FIELDS` and `UNTRACKED_FIELDS`, in the same order.
pub names_of-derive :
    (fs : List Field) (g : Generated)
    → derive_foldback_hash (Derive.Data.struct (Fields.named fs)) ≡ ok g
    → names_of fs no_names ≡ record { tracked = g.tracked_names; untracked = g.untracked_names }
unfolding derive_foldback_hash
names_of-derive fs g e = names_of-expand_fields fs nothing_generated g e

-- ===== src/Derive/Marked.antt =====
-- Which fields of an accepted struct carry a marking, by the attributes alone.
use foldback.Prelude.{Bool, false, if◌then◌else◌, Option, none, some, List, [], ◌∷◌, ◌++◌}
use foldback.Prelude.{
  arith, ◌≡◌, refl, sym, ap, ◌∙◌, inl, inr, Bool-cases, append-nil, append_assoc, subst,
}
use foldback.Prelude.Bytes.{bytes_eq}
use foldback.Prelude.Utf8.{Text, ascii}
use foldback.Error.{Result, ok, err, ◌>>=◌, bind_inv, ok_injective}
use foldback.Syn.{is_ident, Attribute, Field, Fields}
use foldback.Derive
use foldback.Derive.{
  FieldMarking, CompileError, field_marking, marking_of, field_name, Generated, push_field,
}
use foldback.Derive.{expand_field, expand_fields, derive_foldback_hash, nothing_generated}

-- The argument of the first attribute `foldback`, if there is one.
abbrev pub marking_text : List Attribute → Option Text
marking_text [] = none
marking_text (attr ∷ attrs) =
    if is_ident attr.path (ascii "foldback") then attr.ident_arg else marking_text attrs

abbrev pub says : Text → Option Text → Bool
says text none = false
says text (some t) = bytes_eq t text

abbrev pub is_hashed : Field → Bool
is_hashed f = says (ascii "hash") (marking_text f.attrs)

abbrev pub ident_of : Field → Text
ident_of f = elim f.ident [ none ↦ [] | some name ↦ name ]

-- The names of the fields marked `#[foldback(hash)]`, in their order.
abbrev pub hashed_names : List Field → List Text
hashed_names [] = []
hashed_names (f ∷ fs) = if is_hashed f then ident_of f ∷ hashed_names fs else hashed_names fs

abbrev names_before : FieldMarking → Text → List Text
names_before FieldMarking.hash name = name ∷ []
names_before _ name = []

push_field-hash_calls :
    (m : FieldMarking) (name : Text) (g : Generated)
    → (push_field m name g).hash_calls ≡ g.hash_calls ++ names_before m name
unfolding push_field
push_field-hash_calls FieldMarking.hash name g = refl
push_field-hash_calls FieldMarking.reflect name g = sym (append-nil g.hash_calls)
push_field-hash_calls FieldMarking.skip name g = sym (append-nil g.hash_calls)
push_field-hash_calls FieldMarking.unmarked name g = sym (append-nil g.hash_calls)

marking_of-hash :
    (o : Option Text) (m : FieldMarking) (name : Text)
    → marking_of o ≡ ok m
    → names_before m name ≡ (if says (ascii "hash") o then name ∷ [] else [])
unfolding marking_of Derive.marking_named
marking_of-hash none m name e = cc
marking_of-hash (some t) FieldMarking.hash name e = ground (arith, e)
marking_of-hash (some t) FieldMarking.reflect name e = ground (arith, e)
marking_of-hash (some t) FieldMarking.skip name e = ground (arith, e)
marking_of-hash (some t) FieldMarking.unmarked name e = ground (arith, e)

field_marking-hash :
    (attrs : List Attribute) (m : FieldMarking) (name : Text)
    → field_marking attrs ≡ ok m
    → names_before m name ≡ (if says (ascii "hash") (marking_text attrs) then name ∷ [] else [])
unfolding field_marking
field_marking-hash [] FieldMarking.hash name e = cc
field_marking-hash [] FieldMarking.reflect name e = refl
field_marking-hash [] FieldMarking.skip name e = refl
field_marking-hash [] FieldMarking.unmarked name e = refl
field_marking-hash (attr ∷ attrs) m name e =
    elim (Bool-cases (is_ident attr.path (ascii "foldback"))) [
      | inl b ↦ rw b (
          marking_of-hash attr.ident_arg m name
            (sym (ap (λ c. if c then marking_of attr.ident_arg else field_marking attrs) b) ∙ e))
      | inr b ↦ rw b (
          field_marking-hash attrs m name
            (sym (ap (λ c. if c then marking_of attr.ident_arg else field_marking attrs) b) ∙ e))
    ]

-- What an accepted field contributes.
pub expand_field_inv :
    (f : Field) (g g' : Generated)
    → expand_field f g ≡ ok g'
    → (m : FieldMarking) × (field_marking f.attrs ≡ ok m)
      × (f.ident ≡ some (ident_of f))
      × (push_field m (ident_of f) g ≡ g')
unfolding expand_field field_name
expand_field_inv f g g' e = by_results (field_marking f.attrs) f.ident refl refl e
  where
    by_results :
        (r : Result CompileError FieldMarking) (o : Option Text)
        → field_marking f.attrs ≡ r
        → f.ident ≡ o
        → (r >>= λ marking. field_name o >>= λ name. ok (push_field marking name g)) ≡ ok g'
        → (m : FieldMarking) × (field_marking f.attrs ≡ ok m)
          × (f.ident ≡ some (ident_of f))
          × (push_field m (ident_of f) g ≡ g')
    by_results (err x) o p q e = cc
    by_results (ok m) none p q e = cc
    by_results (ok m) (some name) p q e = rw q (m, p, refl, cc e)

expand_fields-hash_calls :
    (fs : List Field) (g g' : Generated)
    → expand_fields fs g ≡ ok g'
    → g'.hash_calls ≡ g.hash_calls ++ hashed_names fs
unfolding expand_fields
expand_fields-hash_calls [] g g' e =
    subst (λ (x : Generated). x.hash_calls ≡ g.hash_calls ++ []) (ok_injective e)
      (sym (append-nil g.hash_calls))
expand_fields-hash_calls (f ∷ fs) g g' e =
    let (g1, e1, e2) = bind_inv (expand_field f g) (λ x. expand_fields fs x) g' e in
    let (m, em, _, eg) = expand_field_inv f g g1 e1 in
    expand_fields-hash_calls fs g1 g' e2
    ∙ ap (λ (x : Generated). x.hash_calls ++ hashed_names fs) (sym eg)
    ∙ ap (λ x. x ++ hashed_names fs) (push_field-hash_calls m (ident_of f) g)
    ∙ append_assoc g.hash_calls (names_before m (ident_of f)) (hashed_names fs)
    ∙ ap (λ x. g.hash_calls ++ x) (one_more (field_marking-hash f.attrs m (ident_of f) em))
  where
    one_more :
        {names : List Text}
        → names ≡ (if is_hashed f then ident_of f ∷ [] else [])
        → names ++ hashed_names fs ≡ hashed_names (f ∷ fs)
    one_more p = elim (Bool-cases (is_hashed f)) [ inl b ↦ rw (p, b) refl | inr b ↦ rw (p, b) refl ]

-- The generated method hashes the fields marked `#[foldback(hash)]`, in the order of the struct.
pub derive-hash_calls :
    (fs : List Field) (g : Generated)
    → derive_foldback_hash (Derive.Data.struct (Fields.named fs)) ≡ ok g
    → g.hash_calls ≡ hashed_names fs
unfolding derive_foldback_hash
derive-hash_calls fs g e = expand_fields-hash_calls fs nothing_generated g e

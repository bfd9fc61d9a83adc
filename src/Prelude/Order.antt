-- ===== src/Prelude/Order.antt =====
-- Total orders with decided comparison, as `Ord` gives them to the ordered maps: on numbers, and on
-- texts by their bytes.
use Prim.Native.Nat.{ℕ, compare, Ordering}
use mathlib.Core.Path.{◌≡◌, refl}
use mathlib.Core.Logic.{◌⊎◌, inl, inr}
use mathlib.Core.List.{List, [], ◌∷◌}
use native.Mathlib.Omega.{arith}

pub record Ord {ℓ} (K : Type ℓ) : Type ℓ where
  pub cmp : K → K → Ordering
  pub cmp_refl : (a : K) → cmp a a ≡ Ordering.eq
  pub cmp_eq : (a b : K) → cmp a b ≡ Ordering.eq → a ≡ b
  pub cmp_flip : (a b : K) → cmp a b ≡ Ordering.gt → cmp b a ≡ Ordering.lt
  pub cmp_trans :
      (a b c : K) → cmp a b ≡ Ordering.lt → cmp b c ≡ Ordering.lt → cmp a c ≡ Ordering.lt

pub cmp_asym {ℓ} :
    {K : Type ℓ} ⦃o : Ord K⦄ (j k : K) → o.cmp j k ≡ Ordering.lt → o.cmp k j ≡ Ordering.lt → ⊥
cmp_asym ⦃o⦄ j k h g = cc (o.cmp_trans j k j h g, o.cmp_refl j)

pub compare_refl : (a : ℕ) → compare a a ≡ Ordering.eq
compare_refl a = ground arith

pub compare_eq : (a b : ℕ) → compare a b ≡ Ordering.eq → a ≡ b
compare_eq a b h = ground arith

pub compare_flip : (a b : ℕ) → compare a b ≡ Ordering.gt → compare b a ≡ Ordering.lt
compare_flip a b h = ground arith

pub compare_trans :
    (a b c : ℕ) → compare a b ≡ Ordering.lt → compare b c ≡ Ordering.lt → compare a c ≡ Ordering.lt
compare_trans a b c h k = ground arith

instance abbrev pub nat_ord : Ord ℕ
nat_ord = record {
  cmp = compare;
  cmp_refl = compare_refl;
  cmp_eq = compare_eq;
  cmp_flip = compare_flip;
  cmp_trans = compare_trans;
}

abbrev pub then_cmp : Ordering → Ordering → Ordering
then_cmp Ordering.lt o = Ordering.lt
then_cmp Ordering.eq o = o
then_cmp Ordering.gt o = Ordering.gt

-- `str`'s order: byte by byte, a proper prefix first.
abbrev pub text_cmp : List ℕ → List ℕ → Ordering
text_cmp [] [] = Ordering.eq
text_cmp [] (b ∷ bs) = Ordering.lt
text_cmp (a ∷ as') [] = Ordering.gt
text_cmp (a ∷ as') (b ∷ bs) = then_cmp (compare a b) (text_cmp as' bs)

pub text_cmp_refl : (s : List ℕ) → text_cmp s s ≡ Ordering.eq
text_cmp_refl [] = refl
text_cmp_refl (a ∷ s) = ground (arith, text_cmp_refl s)

pub text_cmp_eq : (s t : List ℕ) → text_cmp s t ≡ Ordering.eq → s ≡ t
text_cmp_eq [] [] h = refl
text_cmp_eq [] (b ∷ t) h = cc
text_cmp_eq (a ∷ s) [] h = cc
text_cmp_eq (a ∷ s) (b ∷ t) h = ground (arith, text_cmp_eq s t)

pub text_cmp_flip : (s t : List ℕ) → text_cmp s t ≡ Ordering.gt → text_cmp t s ≡ Ordering.lt
text_cmp_flip [] [] h = cc
text_cmp_flip [] (b ∷ t) h = cc
text_cmp_flip (a ∷ s) [] h = refl
text_cmp_flip (a ∷ s) (b ∷ t) h = ground (arith, text_cmp_flip s t)

pub text_cmp_trans :
    (s t u : List ℕ)
    → text_cmp s t ≡ Ordering.lt
    → text_cmp t u ≡ Ordering.lt
    → text_cmp s u ≡ Ordering.lt
text_cmp_trans [] [] [] h k = cc
text_cmp_trans [] (b ∷ t) [] h k = cc
text_cmp_trans [] t (c ∷ u) h k = refl
text_cmp_trans (a ∷ s) [] u h k = cc
text_cmp_trans (a ∷ s) (b ∷ t) [] h k = cc
text_cmp_trans (a ∷ s) (b ∷ t) (c ∷ u) h k = ground (arith, text_cmp_trans s t u)

instance abbrev pub text_ord : Ord (List ℕ)
text_ord = record {
  cmp = text_cmp;
  cmp_refl = text_cmp_refl;
  cmp_eq = text_cmp_eq;
  cmp_flip = text_cmp_flip;
  cmp_trans = text_cmp_trans;
}

pub Ordering-cases : (x : Ordering) → (x ≡ Ordering.lt) ⊎ ((x ≡ Ordering.eq) ⊎ (x ≡ Ordering.gt))
Ordering-cases Ordering.lt = inl refl
Ordering-cases Ordering.eq = inr (inl refl)
Ordering-cases Ordering.gt = inr (inr refl)

module _ {ℓ κ} {A : Type ℓ} {B : Type κ} ⦃o : Ord A⦄ ⦃p : Ord B⦄ where
  -- The order of pairs: by the first component, then by the second.
  abbrev pub pair_cmp : A × B → A × B → Ordering
  pair_cmp x y = then_cmp (o.cmp x.0 y.0) (p.cmp x.1 y.1)

  pub pair_cmp_refl : (x : A × B) → pair_cmp x x ≡ Ordering.eq
  pair_cmp_refl (a, b) = ground (arith, o.cmp_refl a, p.cmp_refl b)

  pub pair_cmp_eq : (x y : A × B) → pair_cmp x y ≡ Ordering.eq → x ≡ y
  pair_cmp_eq (a, b) (c, d) h = ground (arith, o.cmp_eq a c, p.cmp_eq b d)

  pub pair_cmp_flip : (x y : A × B) → pair_cmp x y ≡ Ordering.gt → pair_cmp y x ≡ Ordering.lt
  pair_cmp_flip (a, b) (c, d) h =
      ground (arith, o.cmp_flip a c, o.cmp_eq a c, o.cmp_refl a, p.cmp_flip b d)

  pub pair_cmp_trans :
      (x y z : A × B)
      → pair_cmp x y ≡ Ordering.lt
      → pair_cmp y z ≡ Ordering.lt
      → pair_cmp x z ≡ Ordering.lt
  pair_cmp_trans (a, b) (c, d) (e, f) h k = ground (
    arith,
    o.cmp_trans a c e,
    o.cmp_eq a c,
    o.cmp_eq c e,
    o.cmp_refl a,
    o.cmp_refl c,
    p.cmp_trans b d f,
  )

  instance abbrev pub pair_ord : Ord (A × B)
  pair_ord = record {
    cmp = pair_cmp;
    cmp_refl = pair_cmp_refl;
    cmp_eq = pair_cmp_eq;
    cmp_flip = pair_cmp_flip;
    cmp_trans = pair_cmp_trans;
  }

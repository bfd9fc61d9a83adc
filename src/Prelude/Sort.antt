-- ===== src/Prelude/Sort.antt =====
-- `sort` and `sort_unstable` in an order where equal keys are equal: insertion sort stands for the
-- sorting of the standard library, of which only the result matters.
use Prim.Native.Nat.{Ordering}
use mathlib.Core.Path.{◌≡◌, refl, ap₂, ◌∙◌}
use mathlib.Core.List.{List, [], ◌∷◌, Permᴰ}
use native.Mathlib.Omega.{arith}
use package.foldback.Prelude.Order.{Ord, cmp_asym}

module _ {ℓ} {K : Type ℓ} ⦃o : Ord K⦄ where
  -- A new item goes before the first that is not below it.
  unfoldable pub place : K → List K → List K
  place x [] = x ∷ []
  place x (y ∷ ys) = elim (o.cmp x y) [ Ordering.gt ↦ y ∷ place x ys | _ ↦ x ∷ y ∷ ys ]

  unfoldable pub sort : List K → List K
  unfolding place
  sort [] = []
  sort (x ∷ xs) = place x (sort xs)

  place_comm : (x y : K) (zs : List K) → place x (place y zs) ≡ place y (place x zs)
  unfolding place
  place_comm x y [] =
      ground (arith, o.cmp_flip x y, o.cmp_flip y x, o.cmp_eq x y, o.cmp_eq y x, cmp_asym x y)
  place_comm x y (z ∷ zs) = ground (
    arith,
    place_comm x y zs,
    o.cmp_flip x y,
    o.cmp_flip y x,
    o.cmp_eq x y,
    o.cmp_eq y x,
    cmp_asym x y,
    o.cmp_trans x y z,
    o.cmp_trans y x z,
    o.cmp_eq x z,
    o.cmp_eq y z,
    o.cmp_flip x z,
    o.cmp_flip y z,
    cmp_asym x z,
    cmp_asym y z,
    o.cmp_trans x z y,
    o.cmp_trans y z x,
  )

  -- The result does not depend on the order of the items.
  pub sort_of_perm : {xs ys : List K} → Permᴰ xs ys → sort xs ≡ sort ys
  unfolding sort
  sort_of_perm Permᴰ.nil = refl
  sort_of_perm (Permᴰ.cons {b = b} e p) = ap₂ place e (sort_of_perm p)
  sort_of_perm (Permᴰ.swap {a = a} {b = b} {l = l} e f) =
      place_comm a b (sort l) ∙ ap₂ (λ x y. place x (place y (sort l))) f e
  sort_of_perm (Permᴰ.trans p q) = sort_of_perm p ∙ sort_of_perm q

-- ===== src/Prelude/SortBy.antt =====
-- `sort_by` on a key: the stable insertion sort stands for the sorting of the standard library, of
-- which only the result matters.
use Prim.Native.Nat.{Ordering}
use mathlib.Core.Path.{◌≡◌, refl, ap, ap₂, sym, ◌∙◌}
use mathlib.Core.List.{List, [], ◌∷◌, map, Permᴰ, Memᴰ}
use mathlib.Core.Logic.{inl, inr}
use native.Mathlib.Omega.{arith}
use package.foldback.Prelude.Order.{Ord, Ordering-cases, cmp_asym}

mem_of_perm {κ} : {A : Type κ} {xs ys : List A} → Permᴰ xs ys → (x : A) → Memᴰ x ys → Memᴰ x xs
mem_of_perm Permᴰ.nil x m = m
mem_of_perm (Permᴰ.cons e p) x (Memᴰ.head f) = Memᴰ.head (f ∙ sym e)
mem_of_perm (Permᴰ.cons e p) x (Memᴰ.tail m) = Memᴰ.tail (mem_of_perm p x m)
mem_of_perm (Permᴰ.swap e f) x (Memᴰ.head g) = Memᴰ.tail (Memᴰ.head (g ∙ sym f))
mem_of_perm (Permᴰ.swap e f) x (Memᴰ.tail (Memᴰ.head g)) = Memᴰ.head (g ∙ sym e)
mem_of_perm (Permᴰ.swap e f) x (Memᴰ.tail (Memᴰ.tail m)) = Memᴰ.tail (Memᴰ.tail m)
mem_of_perm (Permᴰ.trans p q) x m = mem_of_perm p x (mem_of_perm q x m)

module _ {ℓ κ} {A : Type κ} {K : Type ℓ} ⦃o : Ord K⦄ where
  -- A new item goes before the first whose key is not below its own.
  unfoldable pub place_by : (A → K) → A → List A → List A
  place_by key x [] = x ∷ []
  place_by key x (y ∷ ys) = elim (o.cmp (key x) (key y)) [
    | Ordering.gt ↦ y ∷ place_by key x ys
    | _ ↦ x ∷ y ∷ ys
  ]

  unfoldable pub sort_by : (A → K) → List A → List A
  unfolding place_by
  sort_by key [] = []
  sort_by key (x ∷ xs) = place_by key x (sort_by key xs)

  -- Items of the list with one key are equal.
  abbrev pub KeysDetermine : (A → K) → List A → Type (ℓ ⊔ κ)
  KeysDetermine key xs = (x y : A) → Memᴰ x xs → Memᴰ y xs → key x ≡ key y → x ≡ y

  place_by_comm :
      (key : A → K) (x y : A) (zs : List A)
      → (key x ≡ key y → x ≡ y)
      → place_by key x (place_by key y zs) ≡ place_by key y (place_by key x zs)
  unfolding place_by
  place_by_comm key x y [] h = ground (
    arith,
    o.cmp_flip (key x) (key y),
    o.cmp_flip (key y) (key x),
    o.cmp_eq (key x) (key y),
    o.cmp_eq (key y) (key x),
    cmp_asym (key x) (key y),
    h,
  )
  place_by_comm key x y (z ∷ zs) h = ground (
    arith,
    place_by_comm key x y zs h,
    h,
    o.cmp_flip (key x) (key y),
    o.cmp_flip (key y) (key x),
    o.cmp_eq (key x) (key y),
    o.cmp_eq (key y) (key x),
    cmp_asym (key x) (key y),
    o.cmp_trans (key x) (key y) (key z),
    o.cmp_trans (key y) (key x) (key z),
    o.cmp_eq (key x) (key z),
    o.cmp_eq (key y) (key z),
    o.cmp_flip (key x) (key z),
    o.cmp_flip (key y) (key z),
    cmp_asym (key x) (key z),
    cmp_asym (key y) (key z),
    o.cmp_trans (key x) (key z) (key y),
    o.cmp_trans (key y) (key z) (key x),
  )

  -- The result does not depend on the order of the items, where keys determine them.
  pub sort_by_of_perm :
      (key : A → K) {xs ys : List A}
      → KeysDetermine key xs
      → Permᴰ xs ys
      → sort_by key xs ≡ sort_by key ys
  unfolding sort_by
  sort_by_of_perm key h Permᴰ.nil = refl
  sort_by_of_perm key h (Permᴰ.cons e p) =
      ap₂ (place_by key) e (sort_by_of_perm key (λ x y m n. h x y (Memᴰ.tail m) (Memᴰ.tail n)) p)
  sort_by_of_perm key h (Permᴰ.swap {a = a} {b = b} {l = l} e f) =
      place_by_comm key a b (sort_by key l) (h a b (Memᴰ.head refl) (Memᴰ.tail (Memᴰ.head refl)))
      ∙ ap₂ (λ x y. place_by key x (place_by key y (sort_by key l))) f e
  sort_by_of_perm key h (Permᴰ.trans p q) =
      sort_by_of_perm key h p
      ∙ sort_by_of_perm key (λ x y m n. h x y (mem_of_perm p x m) (mem_of_perm p y n)) q

  mem-place_by :
      (key : A → K) (x : A) (ys : List A) (z : A) → Memᴰ z (x ∷ ys) → Memᴰ z (place_by key x ys)
  unfolding place_by
  mem-place_by key x [] z m = m
  mem-place_by key x (y ∷ ys) z m = elim (Ordering-cases (o.cmp (key x) (key y))) [
    | inl e ↦ rw (e, place_by) m
    | inr (inl e) ↦ rw (e, place_by) m
    | inr (inr e) ↦ rw (e, place_by) (mem_behind m (λ n. mem-place_by key x ys z n))
  ]
    where
      mem_behind :
          Memᴰ z (x ∷ y ∷ ys)
          → (Memᴰ z (x ∷ ys) → Memᴰ z (place_by key x ys))
          → Memᴰ z (y ∷ place_by key x ys)
      mem_behind (Memᴰ.head e) f = Memᴰ.tail (f (Memᴰ.head e))
      mem_behind (Memᴰ.tail (Memᴰ.head e)) f = Memᴰ.head e
      mem_behind (Memᴰ.tail (Memᴰ.tail n)) f = Memᴰ.tail (f (Memᴰ.tail n))

  pub mem-sort_by : (key : A → K) (xs : List A) (z : A) → Memᴰ z xs → Memᴰ z (sort_by key xs)
  unfolding sort_by
  mem-sort_by key [] z m = elim m [ ]
  mem-sort_by key (x ∷ xs) z (Memᴰ.head e) = mem-place_by key x (sort_by key xs) z (Memᴰ.head e)
  mem-sort_by key (x ∷ xs) z (Memᴰ.tail m) =
      mem-place_by key x (sort_by key xs) z (Memᴰ.tail (mem-sort_by key xs z m))

module _ {ℓ κ μ} {A : Type κ} {B : Type μ} {K : Type ℓ} ⦃o : Ord K⦄ where
  place_by-map :
      (f : A → B) (key : B → K) (x : A) (ys : List A)
      → place_by key (f x) (map f ys) ≡ map f (place_by (λ a. key (f a)) x ys)
  unfolding place_by
  place_by-map f key x [] = refl
  place_by-map f key x (y ∷ ys) = elim (Ordering-cases (o.cmp (key (f x)) (key (f y)))) [
    | inl e ↦ rw (e, place_by) refl
    | inr (inl e) ↦ rw (e, place_by) refl
    | inr (inr e) ↦ rw (e, place_by) (ap (λ l. f y ∷ l) (place_by-map f key x ys))
  ]

  pub sort_by-map :
      (f : A → B) (key : B → K) (xs : List A)
      → sort_by key (map f xs) ≡ map f (sort_by (λ a. key (f a)) xs)
  unfolding sort_by
  sort_by-map f key [] = refl
  sort_by-map f key (x ∷ xs) =
      ap (place_by key (f x)) (sort_by-map f key xs)
      ∙ place_by-map f key x (sort_by (λ a. key (f a)) xs)

-- ===== src/Prelude/OrdMap.antt =====
-- `BTreeMap` as a list of entries in ascending order of their keys.
use Prim.Native.Nat.{Ordering}
use mathlib.Core.Path.{◌≡◌, refl, ap, sym, subst}
use mathlib.Core.Bool.{Bool, true, false}
use mathlib.Core.List.{List, [], ◌∷◌, Memᴰ}
use mathlib.Core.Logic.{◌≢◌, inl, inr}
use mathlib.Core.Option.{Option, none, some}
use native.Mathlib.Omega.{arith}
use package.foldback.Prelude.Tests.{if◌then◌else◌, Bool-cases}
use package.foldback.Prelude.Order.{Ord, Ordering-cases, cmp_asym}

module _ {ℓ κ} {K : Type ℓ} {V : Type κ} ⦃o : Ord K⦄ where
  unfoldable pub get : K → List (K × V) → Option V
  get k [] = none
  get k ((j, v) ∷ m) = elim (o.cmp k j) [ Ordering.eq ↦ some v | _ ↦ get k m ]

  -- `update f k m` puts `f` of the value at `k`, or of none, in its place in the order.
  unfoldable pub update : (Option V → V) → K → List (K × V) → List (K × V)
  update f k [] = (k, f none) ∷ []
  update f k ((j, v) ∷ m) = elim (o.cmp k j) [
    | Ordering.lt ↦ (k, f none) ∷ (j, v) ∷ m
    | Ordering.eq ↦ (k, f (some v)) ∷ m
    | Ordering.gt ↦ (j, v) ∷ update f k m
  ]

  -- `insert`: an old value is overwritten.
  unfoldable pub insert : K → V → List (K × V) → List (K × V)
  insert k v m = update (λ _. v) k m

  -- The first entry in key order that a loop over the map stops at.
  unfoldable pub first_key : (K → V → Bool) → List (K × V) → Option K
  first_key p [] = none
  first_key p ((j, v) ∷ m) = if p j v then some j else first_key p m

  -- `k` stands before every key.
  abbrev pub Before : K → List (K × V) → Type ℓ
  Before k [] = Unit
  Before k ((j, v) ∷ m) = (o.cmp k j ≡ Ordering.lt) × Before k m

  -- Ascending keys, each once.
  abbrev pub IsAscending : List (K × V) → Type ℓ
  IsAscending [] = Unit
  IsAscending ((j, v) ∷ m) = Before j m × IsAscending m

  Before-trans : (i j : K) (m : List (K × V)) → o.cmp i j ≡ Ordering.lt → Before j m → Before i m
  Before-trans i j [] h b = tt
  Before-trans i j ((k, v) ∷ m) h (b, bs) = (o.cmp_trans i j k h b, Before-trans i j m h bs)

  Before-update :
      (f : Option V → V) (i k : K) (m : List (K × V))
      → o.cmp i k ≡ Ordering.lt
      → Before i m
      → Before i (update f k m)
  unfolding update
  Before-update f i k [] h b = (h, tt)
  Before-update f i k ((j, v) ∷ m) h (b, bs) = elim (Ordering-cases (o.cmp k j)) [
    | inl e ↦ rw (e, update) (h, (b, bs))
    | inr (inl e) ↦ rw (e, update) (h, bs)
    | inr (inr e) ↦ rw (e, update) (b, Before-update f i k m h bs)
  ]

  -- A write keeps the order.
  pub update-IsAscending :
      (f : Option V → V) (k : K) (m : List (K × V)) → IsAscending m → IsAscending (update f k m)
  unfolding update
  update-IsAscending f k [] a = (tt, tt)
  update-IsAscending f k ((j, v) ∷ m) (b, a) = elim (Ordering-cases (o.cmp k j)) [
    | inl e ↦ rw (e, update) ((e, Before-trans k j m e b), (b, a))
    | inr (inl e) ↦ rw (e, update) (subst (λ x. Before x m) (sym (o.cmp_eq k j e)) b, a)
    | inr (inr e) ↦
        rw (e, update) (Before-update f j k m (o.cmp_flip k j e) b, update-IsAscending f k m a)
  ]

  pub get_of_Before : (k : K) (m : List (K × V)) → Before k m → get k m ≡ none
  unfolding get
  get_of_Before k [] b = refl
  get_of_Before k ((j, v) ∷ m) (b, bs) = rw (b, get) (get_of_Before k m bs)

  -- What a write leaves: `f` of the old value at its key, and every other entry.
  pub get-update_self :
      (f : Option V → V) (k : K) (m : List (K × V))
      → IsAscending m
      → get k (update f k m) ≡ some (f (get k m))
  unfolding get update
  get-update_self f k [] a = ground (arith, o.cmp_refl k)
  get-update_self f k ((j, v) ∷ m) (b, a) = elim (Ordering-cases (o.cmp k j)) [
    | inl e ↦ ground (arith, o.cmp_refl k, get_of_Before k m (Before-trans k j m e b))
    | inr (inl e) ↦ ground (arith, o.cmp_refl k)
    | inr (inr e) ↦ ground (arith, get-update_self f k m a)
  ]

  pub get-update_ne :
      (f : Option V → V) (i k : K) (m : List (K × V)) → i ≢ k → get i (update f k m) ≡ get i m
  unfolding get update
  get-update_ne f i k [] h = ground (arith, o.cmp_eq i k)
  get-update_ne f i k ((j, v) ∷ m) h =
      ground (arith, get-update_ne f i k m h, o.cmp_eq i k, o.cmp_eq k j)

  -- The entries of an ascending map are what `get` finds.
  pub get_of_mem :
      {k : K} {v : V} (m : List (K × V)) → IsAscending m → Memᴰ (k, v) m → get k m ≡ some v
  unfolding get
  get_of_mem [] a h = elim h [ ]
  get_of_mem {k} {v} ((j, w) ∷ m) a (Memᴰ.head e) =
      ground (arith, o.cmp_refl k, ap (λ (x : K × V). x.0) e, ap (λ (x : K × V). x.1) e)
  get_of_mem {k} {v} ((j, w) ∷ m) (b, a) (Memᴰ.tail h) =
      ground (arith, get_of_mem m a h, o.cmp_refl k, o.cmp_eq k j, get_of_Before j m b)

  pub mem_of_get : (k : K) {v : V} (m : List (K × V)) → get k m ≡ some v → Memᴰ (k, v) m
  unfolding get
  mem_of_get k [] e = cc
  mem_of_get k {v} ((j, w) ∷ m) e = elim (Ordering-cases (o.cmp k j)) [
    | inl c ↦ Memᴰ.tail (mem_of_get k m (ground arith))
    | inr (inl c) ↦ Memᴰ.head (ground (arith, o.cmp_eq k j))
    | inr (inr c) ↦ Memᴰ.tail (mem_of_get k m (ground arith))
  ]

  -- What such a loop finds is an entry that passes the test, and no earlier entry passes it.
  pub first_key_mem :
      (p : K → V → Bool) (k : K) (m : List (K × V))
      → first_key p m ≡ some k
      → (v : V) × Memᴰ (k, v) m × (p k v ≡ true)
  unfolding first_key
  first_key_mem p k [] e = cc
  first_key_mem p k ((i, u) ∷ m) e = elim (Bool-cases (p i u)) [
    | inl t ↦ (u, Memᴰ.head (ground arith), ground arith)
    | inr f ↦ let (v, h, t) = first_key_mem p k m (ground arith) in (v, Memᴰ.tail h, t)
  ]

  Before-mem :
      {j k : K} {v : V} (m : List (K × V)) → Before j m → Memᴰ (k, v) m → o.cmp j k ≡ Ordering.lt
  Before-mem [] b h = elim h [ ]
  Before-mem ((i, u) ∷ m) (b, bs) (Memᴰ.head e) = ground (arith, ap (λ (x : K × V). x.0) e)
  Before-mem ((i, u) ∷ m) (b, bs) (Memᴰ.tail h) = Before-mem m bs h

  pub first_key_least :
      (p : K → V → Bool) (k : K) (m : List (K × V))
      → IsAscending m
      → first_key p m ≡ some k
      → (j : K) (w : V) → Memᴰ (j, w) m
      → o.cmp j k ≡ Ordering.lt
      → p j w ≡ false
  unfolding first_key
  first_key_least p k [] a e j w h l = cc
  first_key_least p k ((i, u) ∷ m) (b, a) e j w (Memᴰ.head c) l = elim (Bool-cases (p i u)) [
    | inl t ↦ ground (arith, ap (λ (x : K × V). x.0) c, o.cmp_refl k)
    | inr f ↦ ground (arith, ap (λ (x : K × V). x.0) c, ap (λ (x : K × V). x.1) c)
  ]
  first_key_least p k ((i, u) ∷ m) (b, a) e j w (Memᴰ.tail h) l = elim (Bool-cases (p i u)) [
    | inl t ↦ absurd (cmp_asym i j (Before-mem m b h) (ground arith))
    | inr f ↦ first_key_least p k m a (ground arith) j w h l
  ]

  -- A loop that runs through found no entry that passes.
  pub first_key-none :
      (p : K → V → Bool) (m : List (K × V))
      → first_key p m ≡ none
      → (j : K) (w : V) → Memᴰ (j, w) m
      → p j w ≡ false
  unfolding first_key
  first_key-none p [] e j w h = elim h [ ]
  first_key-none p ((i, u) ∷ m) e j w (Memᴰ.head c) =
      ground (arith, ap (λ (x : K × V). x.0) c, ap (λ (x : K × V). x.1) c)
  first_key-none p ((i, u) ∷ m) e j w (Memᴰ.tail h) = elim (Bool-cases (p i u)) [
    | inl t ↦ ground arith
    | inr f ↦ first_key-none p m (ground arith) j w h
  ]

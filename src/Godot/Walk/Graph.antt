-- ===== src/Godot/Walk/Graph.antt =====
-- The graph of objects below a value, and what the loops of a successful walk say of it.
use foldback.Prelude.{
  arith, ℕ, suc, ==_refl, ◌≡◌, ◌≢◌, refl, sym, ap, ◌∙◌, true, false, inl, inr, Bool-cases, Memᴰ,
}
use foldback.Prelude.{Bool, some, List, [], ◌∷◌, if◌then◌else◌, subst}
use foldback.Prelude.Utf8.{Text}
use foldback.Error.{Result, ok, err}
use foldback.Session.{contains}
use foldback.Bevy.{decimal, dotted, indexed}
use foldback.Godot.{Variant, Heap, WalkError, is_tracked, property_names}
use foldback.Godot.Walk.{Walk, Reflect, and_then, leave}
use foldback.Godot.Walk.{walk_items, walk_entries, walk_properties}
use foldback.Godot.Walk.Cycles.{Restores}

-- The walk of a value comes to the object: it is the value, or stands below it, behind tracked
-- properties, items and entries.
pub data Holds (heap : Heap) (id : ℕ) : Variant → Type 0 where
  itself : Holds heap id (Variant.object (some id))
  property :
      {obj : ℕ} {name : Text}
      → Memᴰ name (property_names (heap.property_list obj))
      → is_tracked name ≡ true
      → Holds heap id (heap.get obj name)
      → Holds heap id (Variant.object (some obj))
  item :
      {a : ℕ} {v : Variant}
      → Memᴰ v (heap.items a)
      → Holds heap id v
      → Holds heap id (Variant.array a)
  entry :
      {d : ℕ} {key : Text} {v : Variant}
      → Memᴰ (key, v) (heap.entries d)
      → Holds heap id v
      → Holds heap id (Variant.dictionary d)

-- A tracked property of the object leads back to it.
pub data Loops (heap : Heap) (id : ℕ) : Type 0 where
  loop :
      {name : Text}
      → Memᴰ name (property_names (heap.property_list id))
      → is_tracked name ≡ true
      → Holds heap id (heap.get id name)
      → Loops heap id

-- Of an object that a successful step comes to: it was not visited, and it does not loop.
abbrev pub Clean : Heap → ℕ → Walk → Type 0
Clean heap id w = (contains id w.visited ≡ false) × (¬ Loops heap id)

abbrev pub Cleans : Heap → Variant → Reflect → Type 0
Cleans heap v m = (w w' : Walk) (id : ℕ) → m w ≡ (ok tt, w') → Holds heap id v → Clean heap id w

pub and_then_inv :
    (x : Result WalkError (Unit {0}) × Walk) (k : Reflect) (w' : Walk)
    → and_then x k ≡ (ok tt, w')
    → (u : Walk) × (x ≡ (ok tt, u)) × (k u ≡ (ok tt, w'))
unfolding and_then
and_then_inv (ok _, u) k w' e = (u, refl, e)
and_then_inv (err x, u) k w' e = cc

pub leave_inv :
    (id : ℕ) (x : Result WalkError (Unit {0}) × Walk) (w' : Walk)
    → leave id x ≡ (ok tt, w')
    → (u : Walk) × (x ≡ (ok tt, u))
unfolding leave
leave_inv id (ok _, u) w' e = (u, refl)
leave_inv id (err x, u) w' e = cc

pub true_ne_false : true ≢ false
true_ne_false e = cc

pub contains_self : (id : ℕ) (xs : List ℕ) → contains id (id ∷ xs) ≡ true
unfolding contains
contains_self id xs = rw (==_refl id) refl

pub contains-tail : (id x : ℕ) (xs : List ℕ) → contains id (x ∷ xs) ≡ false → contains id xs ≡ false
unfolding contains
contains-tail id x xs h = ground (arith, h)

module _ (xxh3_64 : List ℕ → ℕ) (tick entity_id : ℕ) (heap : Heap) where
  module _ (child : Variant → Text → Reflect)
      (restores : (v : Variant) (path : Text) → Restores (child v path))
      (cleans : (v : Variant) (path : Text) → Cleans heap v (child v path)) where
    pub items-Clean :
        (path : Text) (i : ℕ) (vs : List Variant) (w w' : Walk) (id : ℕ) (v : Variant)
        → walk_items xxh3_64 tick entity_id heap child path i vs w ≡ (ok tt, w')
        → Memᴰ v vs
        → Holds heap id v
        → Clean heap id w
    unfolding walk_items
    items-Clean path i [] w w' id v e m h = elim m [ ]
    items-Clean path i (u ∷ vs) w w' id v e (Memᴰ.head p) h =
        let (w1, e1, _) =
          and_then_inv (child u (indexed path (decimal i)) w)
            (walk_items xxh3_64 tick entity_id heap child path (suc i) vs) w' e in
        cleans u (indexed path (decimal i)) w w1 id e1 (subst (Holds heap id) p h)
    items-Clean path i (u ∷ vs) w w' id v e (Memᴰ.tail m) h =
        let (w1, e1, e2) =
          and_then_inv (child u (indexed path (decimal i)) w)
            (walk_items xxh3_64 tick entity_id heap child path (suc i) vs) w' e in
        subst (λ l. (contains id l ≡ false) × (¬ Loops heap id))
          (sym (ap (λ (x : Result WalkError (Unit {0}) × Walk). x.1.visited) e1)
            ∙ (restores u (indexed path (decimal i))).restored w)
          (items-Clean path (suc i) vs w1 w' id v e2 m h)

    pub entries-Clean :
        (path : Text) (es : List (Text × Variant)) (w w' : Walk) (id : ℕ) (key : Text) (v : Variant)
        → walk_entries xxh3_64 tick entity_id heap child path es w ≡ (ok tt, w')
        → Memᴰ (key, v) es
        → Holds heap id v
        → Clean heap id w
    unfolding walk_entries
    entries-Clean path [] w w' id key v e m h = elim m [ ]
    entries-Clean path ((k, u) ∷ es) w w' id key v e (Memᴰ.head p) h =
        let (w1, e1, _) =
          and_then_inv (child u (indexed path k) w)
            (walk_entries xxh3_64 tick entity_id heap child path es) w' e in
        cleans u (indexed path k) w w1 id e1
          (subst (Holds heap id) (ap (λ (q : Text × Variant). q.1) p) h)
    entries-Clean path ((k, u) ∷ es) w w' id key v e (Memᴰ.tail m) h =
        let (w1, e1, e2) =
          and_then_inv (child u (indexed path k) w)
            (walk_entries xxh3_64 tick entity_id heap child path es) w' e in
        subst (λ l. (contains id l ≡ false) × (¬ Loops heap id))
          (sym (ap (λ (x : Result WalkError (Unit {0}) × Walk). x.1.visited) e1)
            ∙ (restores u (indexed path k)).restored w)
          (entries-Clean path es w1 w' id key v e2 m h)

    pub properties-Clean :
        (obj : ℕ) (path : Text) (names : List Text) (w w' : Walk) (id : ℕ) (name : Text)
        → walk_properties xxh3_64 tick entity_id heap child obj path names w ≡ (ok tt, w')
        → Memᴰ name names
        → is_tracked name ≡ true
        → Holds heap id (heap.get obj name)
        → Clean heap id w
    unfolding walk_properties
    properties-Clean obj path [] w w' id name e m t h = elim m [ ]
    properties-Clean obj path (n ∷ names) w w' id name e m t h = elim (Bool-cases (is_tracked n)) [
      | inl b ↦
          let (w1, e1, e2) =
            and_then_inv (child (heap.get obj n) (dotted path n) w)
              (walk_properties xxh3_64 tick entity_id heap child obj path names) w'
              (sym (ap (λ c. choose n names c) b) ∙ e) in
          first_or_later w1 e1 m (λ k. properties-Clean obj path names w1 w' id name e2 k t h)
      | inr b ↦ later m b (λ k.
          properties-Clean obj path names w w' id name (sym (ap (λ c. choose n names c) b) ∙ e) k t
            h)
    ]
      where
        choose : Text → List Text → Bool → Result WalkError (Unit {0}) × Walk
        choose n names c =
            if c
            then and_then (child (heap.get obj n) (dotted path n) w)
                (walk_properties xxh3_64 tick entity_id heap child obj path names)
            else walk_properties xxh3_64 tick entity_id heap child obj path names w

        first_or_later :
            (w1 : Walk)
            → child (heap.get obj n) (dotted path n) w ≡ (ok tt, w1)
            → Memᴰ name (n ∷ names)
            → (Memᴰ name names → Clean heap id w1)
            → Clean heap id w
        first_or_later w1 e1 (Memᴰ.head p) rest =
            cleans (heap.get obj n) (dotted path n) w w1 id e1
              (subst (λ x. Holds heap id (heap.get obj x)) p h)
        first_or_later w1 e1 (Memᴰ.tail k) rest =
            subst (λ l. (contains id l ≡ false) × (¬ Loops heap id))
              (sym (ap (λ (x : Result WalkError (Unit {0}) × Walk). x.1.visited) e1)
                ∙ (restores (heap.get obj n) (dotted path n)).restored w)
              (rest k)

        later :
            Memᴰ name (n ∷ names)
            → is_tracked n ≡ false
            → (Memᴰ name names → Clean heap id w)
            → Clean heap id w
        later (Memᴰ.head p) b rest = absurd (true_ne_false (sym t ∙ ap is_tracked p ∙ b))
        later (Memᴰ.tail k) b rest = rest k

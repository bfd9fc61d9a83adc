-- ===== src/Bisect/First.antt =====
-- `find_first_divergence` against the definition of a divergence.
use foldback.Prelude.{ℕ, ◌<◌, ◌≡◌, ◌≢◌, ◌↔◌, refl, sym, ap, ◌∙◌, arith, true}
use foldback.Prelude.{
  none, some, List, [], ◌∷◌, Memᴰ, inl, inr, Bool-cases, Option-cases, ◌==◌, subst, ==_iff, ltb,
  ltb→lt,
}
use foldback.Prelude.Order.{nat_ord}
use foldback.Prelude.OrdMap.{get, first_key_mem, first_key_least, first_key-none}
use foldback.Prelude.OrdMap.{get_of_mem, mem_of_get}
use foldback.Bisect.{TickHashRecord, Report, disagree, by_tick, find_first_divergence}
use foldback.Bisect.Reports.{or_default, reports, Differ, disagree_iff, entries-by_tick}
use foldback.Bisect.Reports.{by_tick-IsAscending}

-- Two records for the tick carry different hashes.
abbrev pub Diverges : ℕ → List TickHashRecord → Type 0
Diverges t rs =
    (a : TickHashRecord) × (b : TickHashRecord) × Memᴰ a rs
    × Memᴰ b rs
    × (a.tick ≡ t)
    × (b.tick ≡ t)
    × (a.hash ≢ b.hash)

mem→reports :
    (t : ℕ) (a : TickHashRecord) (rs : List TickHashRecord)
    → Memᴰ a rs
    → a.tick ≡ t
    → Memᴰ (a.peer_id, a.hash) (reports t rs)
mem→reports t a [] m e = elim m [ ]
mem→reports t a (r ∷ rs) (Memᴰ.head m) e =
    rw ((==_iff r.tick t).1 (ap (λ (x : TickHashRecord). x.tick) (sym m) ∙ e))
      (Memᴰ.head (ap (λ (x : TickHashRecord). (x.peer_id, x.hash)) m))
mem→reports t a (r ∷ rs) (Memᴰ.tail m) e = elim (Bool-cases (r.tick == t)) [
  | inl c ↦ rw c (Memᴰ.tail (mem→reports t a rs m e))
  | inr c ↦ rw c (mem→reports t a rs m e)
]

head_record :
    (t : ℕ) (x : Report) (r : TickHashRecord) (rs : List TickHashRecord)
    → r.tick ≡ t
    → (Memᴰ x (reports t rs) → (a : TickHashRecord) × Memᴰ a rs × (a.tick ≡ t) × (a.hash ≡ x.1))
    → Memᴰ x ((r.peer_id, r.hash) ∷ reports t rs)
    → (a : TickHashRecord) × Memᴰ a (r ∷ rs) × (a.tick ≡ t) × (a.hash ≡ x.1)
head_record t x r rs c later (Memᴰ.head e) =
    (r, Memᴰ.head refl, c, ap (λ (y : Report). y.1) (sym e))
head_record t x r rs c later (Memᴰ.tail n) = let (a, m, p, q) = later n in (a, Memᴰ.tail m, p, q)

reports→mem :
    (t : ℕ) (x : Report) (rs : List TickHashRecord)
    → Memᴰ x (reports t rs)
    → (a : TickHashRecord) × Memᴰ a rs × (a.tick ≡ t) × (a.hash ≡ x.1)
reports→mem t x [] m = elim m [ ]
reports→mem t x (r ∷ rs) m = elim (Bool-cases (r.tick == t)) [
  | inl c ↦ head_record t x r rs ((==_iff r.tick t).0 c) (λ n. reports→mem t x rs n) (rw c at m)
  | inr c ↦ let (a, n, p, q) = reports→mem t x rs (rw c at m) in (a, Memᴰ.tail n, p, q)
]

pub Diverges-iff : (t : ℕ) (rs : List TickHashRecord) → Diverges t rs ↔ Differ (reports t rs)
Diverges-iff t rs = (
  λ (a, b, m, n, p, q, ne). (
    (a.peer_id, a.hash),
    (b.peer_id, b.hash),
    mem→reports t a rs m p,
    mem→reports t b rs n q,
    ne,
  ),
  λ (x, y, m, n, ne).
      let (a, ma, ea, ha) = reports→mem t x rs m in
      let (b, mb, eb, hb) = reports→mem t y rs n in
      (a, b, ma, mb, ea, eb, λ e. ne (sym ha ∙ e ∙ hb)),
)

-- What the search tests at a tick, read off the records.
pub entry-disagree :
    (t : ℕ) (rs : List TickHashRecord) (v : List Report)
    → get t (by_tick rs) ≡ some v
    → disagree v ≡ disagree (reports t rs)
entry-disagree t rs v e = ap disagree (sym (ap or_default e) ∙ entries-by_tick t rs)

pub Diverges→entry :
    (t : ℕ) (rs : List TickHashRecord)
    → Diverges t rs
    → (v : List Report) × Memᴰ (t, v) (by_tick rs) × (disagree v ≡ true)
Diverges→entry t rs d = elim (Option-cases (get t (by_tick rs))) [
  | inl e ↦ absurd (none_absurd (sym (entries-by_tick t rs) ∙ ap or_default e))
  | inr (v, e) ↦ (
    v,
    mem_of_get t (by_tick rs) e,
    entry-disagree t rs v e ∙ (disagree_iff (reports t rs)).1 ((Diverges-iff t rs).0 d),
  )
]
  where
    none_absurd : reports t rs ≡ [] → ⊥
    none_absurd e = let (x, y, m, n, ne) = subst Differ e ((Diverges-iff t rs).0 d) in elim m [ ]

module _ (rs : List TickHashRecord) where
  found-Diverges : (t : ℕ) → find_first_divergence rs ≡ some t → Diverges t rs
  unfolding find_first_divergence
  found-Diverges t e =
      let (v, m, p) = first_key_mem (λ tick xs. disagree xs) t (by_tick rs) e in
      (Diverges-iff t rs).1 (
        (disagree_iff (reports t rs)).0
          (sym (entry-disagree t rs v (get_of_mem (by_tick rs) (by_tick-IsAscending rs) m)) ∙ p))

  found-first : (t u : ℕ) → find_first_divergence rs ≡ some t → u < t → ¬ Diverges u rs
  unfolding find_first_divergence
  found-first t u e l d =
      let (v, m, p) = Diverges→entry u rs d in
      cc (
        p,
        first_key_least (λ tick xs. disagree xs) t (by_tick rs) (by_tick-IsAscending rs) e u v m
            (ground arith),
      )

  not_found : (t : ℕ) → find_first_divergence rs ≡ none → ¬ Diverges t rs
  unfolding find_first_divergence
  not_found t e d =
      let (v, m, p) = Diverges→entry t rs d in
      cc (p, first_key-none (λ tick xs. disagree xs) (by_tick rs) e t v m)

  first_unique :
      (t u : ℕ)
      → find_first_divergence rs ≡ some u
      → Diverges t rs
      → ((v : ℕ) → v < t → ¬ Diverges v rs)
      → u ≡ t
  first_unique t u e d least = elim (Bool-cases (u == t)) [
    | inl c ↦ (==_iff u t).0 c
    | inr c ↦ elim (Bool-cases (ltb u t)) [
      | inl l ↦ absurd (least u (ltb→lt u t l) (found-Diverges u e))
      | inr g ↦ absurd (found-first u t e (ground arith) d)
    ]
  ]

  -- `find_first_divergence` answers with a tick exactly when two records for it carry different
  -- hashes and no two records for an earlier tick do.
  pub find_first_divergence-some :
      (t : ℕ)
      → (find_first_divergence rs ≡ some t) ↔ (Diverges t rs × ((u : ℕ) → u < t → ¬ Diverges u rs))
  find_first_divergence-some t = (
    λ e. (found-Diverges t e, λ u l. found-first t u e l),
    λ (d, least). elim (Option-cases (find_first_divergence rs)) [
      | inl e ↦ absurd (not_found t e d)
      | inr (u, e) ↦ e ∙ ap some (first_unique t u e d least)
    ],
  )

  -- `find_first_divergence` answers with none exactly when no tick has two records with different
  -- hashes.
  pub find_first_divergence-none : (find_first_divergence rs ≡ none) ↔ ((t : ℕ) → ¬ Diverges t rs)
  find_first_divergence-none = (
    λ e t. not_found t e,
    λ clean. elim (Option-cases (find_first_divergence rs)) [
      | inl e ↦ e
      | inr (u, e) ↦ absurd (clean u (found-Diverges u e))
    ],
  )

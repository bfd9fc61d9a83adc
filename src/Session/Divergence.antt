-- ===== src/Session/Divergence.antt =====
-- `Session::check_divergence` against the definition of a divergence.
use foldback.Prelude.{ℕ, ◌<◌, ◌≡◌, ◌↔◌, refl, sym, ap, ◌∙◌, arith, true, false, not, ◌&&◌}
use foldback.Prelude.{Option, none, some, List, Memᴰ, inl, inr, Bool-cases, Option-cases}
use foldback.Prelude.{◌==◌, ==_iff, ltb, ltb→lt}
use foldback.Prelude.Order.{nat_ord}
use foldback.Prelude.OrdMap.{first_key, first_key_mem, first_key_least, first_key-none, get_of_mem}
use foldback.Bisect.{TickHashRecord, disagree, by_tick}
use foldback.Bisect.Reports.{disagree_iff, by_tick-IsAscending, reports}
use foldback.Bisect.First.{Diverges, Diverges-iff, Diverges→entry, entry-disagree}
use foldback.Session.{Session, contains, is_new_divergence, mark_checked, check_divergence}

-- A tick at which records differ and that no earlier check has returned.
abbrev pub IsNew : List ℕ → List TickHashRecord → ℕ → Type 0
IsNew checked rs t = (contains t checked ≡ false) × Diverges t rs

module _ (checked : List ℕ) (rs : List TickHashRecord) where
  -- What the loop of `check_divergence` finds.
  abbrev pub found : Option ℕ
  found = first_key (is_new_divergence checked) (by_tick rs)

  found-IsNew : (t : ℕ) → found ≡ some t → IsNew checked rs t
  unfolding is_new_divergence
  found-IsNew t e =
      let (v, m, p) = first_key_mem (is_new_divergence checked) t (by_tick rs) e in
      elim (Bool-cases (contains t checked)) [
        | inl c ↦ absurd (cc (p, ap (λ b. not b && disagree v) c))
        | inr c ↦ (
          c,
          (Diverges-iff t rs).1 (
              (disagree_iff (reports t rs)).0 (
                sym (entry-disagree t rs v (get_of_mem (by_tick rs) (by_tick-IsAscending rs) m))
                ∙ sym (ap (λ b. not b && disagree v) c)
                ∙ p)),
        )
      ]

  new_passes :
      (t : ℕ)
      → IsNew checked rs t
      → (v : List _) × Memᴰ (t, v) (by_tick rs) × (is_new_divergence checked t v ≡ true)
  unfolding is_new_divergence
  new_passes t (c, d) =
      let (v, m, p) = Diverges→entry t rs d in (v, m, ap (λ b. not b && disagree v) c ∙ p)

  found_least : (t u : ℕ) → found ≡ some t → u < t → ¬ IsNew checked rs u
  found_least t u e l n =
      let (v, m, p) = new_passes u n in
      cc (
        p,
        first_key_least (is_new_divergence checked) t (by_tick rs) (by_tick-IsAscending rs) e u v m
            (ground arith),
      )

  found-none : (t : ℕ) → found ≡ none → ¬ IsNew checked rs t
  found-none t e n =
      let (v, m, p) = new_passes t n in
      cc (p, first_key-none (is_new_divergence checked) (by_tick rs) e t v m)

  found_unique :
      (t u : ℕ)
      → found ≡ some u
      → IsNew checked rs t
      → ((v : ℕ) → v < t → ¬ IsNew checked rs v)
      → u ≡ t
  found_unique t u e n least = elim (Bool-cases (u == t)) [
    | inl c ↦ (==_iff u t).0 c
    | inr c ↦ elim (Bool-cases (ltb u t)) [
      | inl l ↦ absurd (least u (ltb→lt u t l) (found-IsNew u e))
      | inr g ↦ absurd (found_least u t e (ground arith) n)
    ]
  ]

pub mark_checked-result : (o : Option ℕ) (s : Session) → (mark_checked o s).0 ≡ o
unfolding mark_checked
mark_checked-result none s = refl
mark_checked-result (some t) s = refl

module _ (s : Session) (rs : List TickHashRecord) (table : s.hashes_by_tick ≡ by_tick rs) where
  pub check_divergence-found : (check_divergence s).0 ≡ found s.checked_ticks rs
  unfolding check_divergence
  check_divergence-found =
      mark_checked-result (first_key (is_new_divergence s.checked_ticks) s.hashes_by_tick) s
      ∙ ap (first_key (is_new_divergence s.checked_ticks)) table

  -- Let the table of a session hold the reports `rs`. `check_divergence` returns a tick exactly
  -- when two of the reports for it carry different hashes, no earlier check returned it, and no
  -- smaller tick is so.
  pub check_divergence-some :
      (t : ℕ)
      → ((check_divergence s).0 ≡ some t)
        ↔ (IsNew s.checked_ticks rs t × ((u : ℕ) → u < t → ¬ IsNew s.checked_ticks rs u))
  check_divergence-some t = (
    λ e.
        let f = sym check_divergence-found ∙ e in
        (found-IsNew s.checked_ticks rs t f, λ u l. found_least s.checked_ticks rs t u f l),
    λ (n, least). elim (Option-cases (found s.checked_ticks rs)) [
      | inl e ↦ absurd (found-none s.checked_ticks rs t e n)
      | inr (u, e) ↦
          check_divergence-found ∙ e ∙ ap some (found_unique s.checked_ticks rs t u e n least)
    ],
  )

  -- Let the table of a session hold the reports `rs`. `check_divergence` returns none exactly when
  -- every tick whose reports differ has been returned before.
  pub check_divergence-none :
      ((check_divergence s).0 ≡ none) ↔ ((t : ℕ) → ¬ IsNew s.checked_ticks rs t)
  check_divergence-none = (
    λ e t. found-none s.checked_ticks rs t (sym check_divergence-found ∙ e),
    λ clean. elim (Option-cases (found s.checked_ticks rs)) [
      | inl e ↦ check_divergence-found ∙ e
      | inr (u, e) ↦ absurd (clean u (found-IsNew s.checked_ticks rs u e))
    ],
  )

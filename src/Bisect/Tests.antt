-- ===== src/Bisect/Tests.antt =====
-- The divergence search on two peers that part at tick 5.
use foldback.Prelude.{ℕ, ◌≡◌, ◌<◌, ◌↔◌, refl, List, [], ◌∷◌, some, none}
use foldback.Prelude.Order.{nat_ord}
use foldback.Prelude.OrdMap.{update, first_key}
use foldback.Bisect.{
  TickHashRecord, find_first_divergence, by_tick, add_report, disagree, any_differs,
}
use foldback.Bisect.First.{Diverges, find_first_divergence-some, find_first_divergence-none}

abbrev report : ℕ → ℕ → ℕ → TickHashRecord
report tick peer hash = record { tick = tick; peer_id = peer; hash = hash }

abbrev parting : List TickHashRecord
parting =
    report 7 0 1 ∷ report 7 1 2 ∷ report 4 0 8 ∷ report 5 0 3 ∷ report 4 1 8 ∷ report 5 1 4 ∷ []

parting_found : find_first_divergence parting ≡ some 5
unfolding find_first_divergence by_tick add_report disagree any_differs update first_key
parting_found = refl

find_first_divergence-some_example :
    (find_first_divergence parting ≡ some 5)
    ↔ (Diverges 5 parting × ((u : ℕ) → u < 5 → ¬ Diverges u parting))
find_first_divergence-some_example = find_first_divergence-some parting 5

find_first_divergence-none_example :
    (find_first_divergence parting ≡ none) ↔ ((t : ℕ) → ¬ Diverges t parting)
find_first_divergence-none_example = find_first_divergence-none parting

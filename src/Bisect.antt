-- ===== src/Bisect.antt =====
-- crates/foldback-core/src/bisect.rs: the first tick at which the reported hashes differ.
pub mod Reports
pub mod First
mod Tests
use foldback.Prelude.{ℕ, Bool, true, false, not, ◌||◌, Option, none, some, List, [], ◌∷◌, ◌++◌}
use foldback.Prelude.{foldl, length, ltb, ◌==◌, if◌then◌else◌}
use foldback.Prelude.Order.{nat_ord}
use foldback.Prelude.OrdMap.{update, first_key}

-- The tick of a divergence: a struct of one field, which is modelled as its number.
abbrev pub DivergenceTick : Type 0
DivergenceTick = ℕ

pub record TickHashRecord : Type 0 where
  pub tick : ℕ
  pub peer_id : ℕ
  pub hash : ℕ

-- (peer_id, hash)
abbrev pub Report : Type 0
Report = ℕ × ℕ

abbrev pub TickMap : Type 0
TickMap = List (ℕ × List Report)

-- `entry(tick).or_default().push(report)`
abbrev pub push_report : Report → Option (List Report) → List Report
push_report x none = x ∷ []
push_report x (some xs) = xs ++ (x ∷ [])

unfoldable pub add_report : ℕ → Report → TickMap → TickMap
add_report tick x m = update (push_report x) tick m

unfoldable pub any_differs : ℕ → List Report → Bool
any_differs first [] = false
any_differs first ((p, h) ∷ xs) = not (h == first) || any_differs first xs

-- Fewer than two reports cannot be compared; else one differs from the first.
unfoldable pub disagree : List Report → Bool
unfolding any_differs
disagree [] = false
disagree ((p, h) ∷ xs) = if ltb (length ((p, h) ∷ xs)) 2 then false else any_differs h ((p, h) ∷ xs)

unfoldable pub by_tick : List TickHashRecord → TickMap
unfolding add_report
by_tick = foldl (λ m r. add_report r.tick (r.peer_id, r.hash) m) []

unfoldable pub find_first_divergence : List TickHashRecord → Option DivergenceTick
unfolding by_tick disagree
find_first_divergence records = first_key (λ tick reports. disagree reports) (by_tick records)

-- ===== src/Bisect/Reports.antt =====
-- What the table of reports holds, and when the reports for a tick differ.
use foldback.Prelude.{ℕ, ◌≡◌, ◌≢◌, ◌↔◌, refl, sym, ap, ◌∙◌, arith, true, false, Option}
use foldback.Prelude.{none, some, List, [], ◌∷◌, ◌++◌, foldl, ==_iff, ◌==◌, if◌then◌else◌, Memᴰ}
use mathlib.Core.List.{foldl-append}
use foldback.Prelude.{append_assoc, append-nil, Bool-cases, inl, inr}
use foldback.Prelude.Order.{nat_ord}
use foldback.Prelude.OrdMap.{get, IsAscending, update-IsAscending, get-update_self}
use foldback.Prelude.OrdMap.{get-update_ne}
use foldback.Bisect.{
  TickHashRecord, Report, TickMap, push_report, add_report, any_differs, disagree,
}
use foldback.Bisect.{by_tick}

abbrev pub or_default : Option (List Report) → List Report
or_default none = []
or_default (some xs) = xs

-- The reports that a table holds for a tick, in the order in which they came.
abbrev pub entries : ℕ → TickMap → List Report
entries t m = or_default (get t m)

-- The reports for a tick among some records.
abbrev pub reports : ℕ → List TickHashRecord → List Report
reports t [] = []
reports t (r ∷ rs) = if r.tick == t then (r.peer_id, r.hash) ∷ reports t rs else reports t rs

push_report-or_default :
    (x : Report) (o : Option (List Report)) → push_report x o ≡ or_default o ++ (x ∷ [])
push_report-or_default x none = refl
push_report-or_default x (some xs) = refl

pub add_report-IsAscending :
    (t : ℕ) (x : Report) (m : TickMap) → IsAscending m → IsAscending (add_report t x m)
unfolding add_report
add_report-IsAscending t x m a = update-IsAscending (push_report x) t m a

pub entries-add_report :
    (t u : ℕ) (x : Report) (m : TickMap)
    → IsAscending m
    → entries t (add_report u x m) ≡ (if u == t then entries t m ++ (x ∷ []) else entries t m)
unfolding add_report
entries-add_report t u x m a = elim (Bool-cases (u == t)) [
  | inl e ↦
      rw (e, (==_iff u t).0 e, get-update_self (push_report x) t m a)
        (push_report-or_default x (get t m))
  | inr e ↦ rw (e, get-update_ne (push_report x) t u m (λ p. ground arith))
]

add_all : TickMap → List TickHashRecord → TickMap
add_all = foldl (λ m r. add_report r.tick (r.peer_id, r.hash) m)

add_all-IsAscending :
    (m : TickMap) (rs : List TickHashRecord) → IsAscending m → IsAscending (add_all m rs)
unfolding add_all
add_all-IsAscending m [] a = a
add_all-IsAscending m (r ∷ rs) a =
    add_all-IsAscending (add_report r.tick (r.peer_id, r.hash) m) rs
      (add_report-IsAscending r.tick (r.peer_id, r.hash) m a)

entries-add_all :
    (t : ℕ) (m : TickMap) (rs : List TickHashRecord)
    → IsAscending m
    → entries t (add_all m rs) ≡ entries t m ++ reports t rs
unfolding add_all
entries-add_all t m [] a = sym (append-nil (entries t m))
entries-add_all t m (r ∷ rs) a =
    entries-add_all t (add_report r.tick (r.peer_id, r.hash) m) rs
      (add_report-IsAscending r.tick (r.peer_id, r.hash) m a)
    ∙ rw (entries-add_report t r.tick (r.peer_id, r.hash) m a) (elim (Bool-cases (r.tick == t)) [
      | inl e ↦ rw e (append_assoc (entries t m) ((r.peer_id, r.hash) ∷ []) (reports t rs))
      | inr e ↦ rw e
    ])

pub by_tick-IsAscending : (rs : List TickHashRecord) → IsAscending (by_tick rs)
unfolding by_tick add_all
by_tick-IsAscending rs = add_all-IsAscending [] rs tt

-- The table of some records holds, for each tick, that tick's reports in order.
pub entries-by_tick : (t : ℕ) (rs : List TickHashRecord) → entries t (by_tick rs) ≡ reports t rs
unfolding by_tick add_all get
entries-by_tick t rs = entries-add_all t [] rs tt

-- One more record is one more report.
pub by_tick-snoc :
    (rs : List TickHashRecord) (r : TickHashRecord)
    → by_tick (rs ++ (r ∷ [])) ≡ add_report r.tick (r.peer_id, r.hash) (by_tick rs)
unfolding by_tick
by_tick-snoc rs r = foldl-append (λ m x. add_report x.tick (x.peer_id, x.hash) m) [] rs (r ∷ [])

-- Two of the reports have different hashes.
abbrev pub Differ : List Report → Type 0
Differ xs = (a : Report) × (b : Report) × Memᴰ a xs × Memᴰ b xs × (a.1 ≢ b.1)

any_differs→mem :
    (first : ℕ) (xs : List Report)
    → any_differs first xs ≡ true
    → (b : Report) × Memᴰ b xs × (first ≢ b.1)
unfolding any_differs
any_differs→mem first [] e = cc
any_differs→mem first ((p, h) ∷ xs) e = elim (Bool-cases (h == first)) [
  | inl s ↦ let (b, m, ne) = any_differs→mem first xs (ground arith) in (b, Memᴰ.tail m, ne)
  | inr d ↦ ((p, h), Memᴰ.head refl, λ q. ground arith)
]

mem→any_differs :
    (first : ℕ) (b : Report) (xs : List Report)
    → Memᴰ b xs
    → first ≢ b.1
    → any_differs first xs ≡ true
unfolding any_differs
mem→any_differs first b [] m ne = elim m [ ]
mem→any_differs first b ((p, h) ∷ xs) (Memᴰ.head e) ne = ground (arith, ap (λ (x : Report). x.1) e)
mem→any_differs first b ((p, h) ∷ xs) (Memᴰ.tail m) ne =
    ground (arith, mem→any_differs first b xs m ne)

any_differs_single : (p h : ℕ) → any_differs h ((p, h) ∷ []) ≡ false
unfolding any_differs
any_differs_single p h = ground arith

disagree_lem : (p h : ℕ) (xs : List Report) → disagree ((p, h) ∷ xs) ≡ any_differs h ((p, h) ∷ xs)
unfolding disagree
disagree_lem p h [] = sym (any_differs_single p h)
disagree_lem p h (x ∷ xs) = ground arith

disagree→Differ : (xs : List Report) → disagree xs ≡ true → Differ xs
disagree→Differ [] e = unfold disagree in cc
disagree→Differ ((p, h) ∷ xs) e =
    let (b, m, ne) = any_differs→mem h ((p, h) ∷ xs) (sym (disagree_lem p h xs) ∙ e) in
    ((p, h), b, Memᴰ.head refl, m, ne)

Differ→disagree : (xs : List Report) → Differ xs → disagree xs ≡ true
Differ→disagree [] (a, b, m, n, ne) = elim m [ ]
Differ→disagree ((p, h) ∷ xs) (a, b, m, n, ne) = elim (Bool-cases (h == a.1)) [
  | inl e ↦
      disagree_lem p h xs
      ∙ mem→any_differs h b ((p, h) ∷ xs) n (λ q. ne (sym ((==_iff h a.1).0 e) ∙ q))
  | inr e ↦ disagree_lem p h xs ∙ mem→any_differs h a ((p, h) ∷ xs) m (λ q. ground arith)
]

-- The test of the code passes exactly when two reports differ.
pub disagree_iff : (xs : List Report) → (disagree xs ≡ true) ↔ Differ xs
disagree_iff xs = (disagree→Differ xs, Differ→disagree xs)

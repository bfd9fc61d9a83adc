-- ===== src/Bevy/Order.antt =====
-- A map and a set come in any order of iteration.
use foldback.Prelude.{ℕ, suc, ◌≡◌, refl, sym, ap, ◌∙◌, List, [], ◌∷◌, map}
use mathlib.Core.List.{Permᴰ}
use foldback.Prelude.Utf8.{Text}
use foldback.Prelude.Order.{text_ord}
use foldback.Prelude.SortBy.{sort_by, KeysDetermine, sort_by_of_perm, sort_by-map}
use foldback.Bevy.{Value, Entries, indexed, braced}
use foldback.Bevy.Walk.{Step, step_text, guarded, run_steps, walk, steps}

-- The entries, in the order in which they come.
abbrev pub pairs : Entries → List (Text × Value)
pairs Entries.empty = []
pairs (Entries.entry text v es) = (text, v) ∷ pairs es

abbrev pub pair_text : Text × Value → Text
pair_text p = p.0

module _ (xxh3_64 : List ℕ → ℕ) (tick entity_id : ℕ) where
  abbrev step_of : Text × Value → Step
  step_of p = (p.0, λ depth path. walk xxh3_64 tick entity_id p.1 depth path)

  steps-pairs : (es : Entries) → steps xxh3_64 tick entity_id es ≡ map step_of (pairs es)
  unfolding steps
  steps-pairs Entries.empty = refl
  steps-pairs (Entries.entry text v es) = ap (λ ss. step_of (text, v) ∷ ss) (steps-pairs es)

  sort_by-steps :
      (es es' : Entries)
      → KeysDetermine pair_text (pairs es)
      → Permᴰ (pairs es) (pairs es')
      → sort_by step_text (steps xxh3_64 tick entity_id es)
        ≡ sort_by step_text (steps xxh3_64 tick entity_id es')
  sort_by-steps es es' h p =
      ap (sort_by step_text) (steps-pairs es)
      ∙ sort_by-map step_of step_text (pairs es)
      ∙ ap (map step_of) (sort_by_of_perm pair_text h p)
      ∙ sym (sort_by-map step_of step_text (pairs es'))
      ∙ ap (sort_by step_text) (sym (steps-pairs es'))

  -- Let two maps, or two sets, have the same entries in different orders of iteration, entries
  -- with one text being equal. Then the walk does the same on both, in every session and on every
  -- error.
  pub walk_of_perm :
      (es es' : Entries) (depth : ℕ) (path : Text)
      → KeysDetermine pair_text (pairs es)
      → Permᴰ (pairs es) (pairs es')
      → (walk xxh3_64 tick entity_id (Value.map es) depth path
          ≡ walk xxh3_64 tick entity_id (Value.map es') depth path)
        × (walk xxh3_64 tick entity_id (Value.set es) depth path
            ≡ walk xxh3_64 tick entity_id (Value.set es') depth path)
  unfolding walk
  walk_of_perm es es' depth path h p =
      let e = sort_by-steps es es' h p in
      (
        ap (λ ss. guarded depth path (run_steps (indexed path) (suc depth) ss)) e,
        ap (λ ss. guarded depth path (run_steps (braced path) (suc depth) ss)) e,
      )

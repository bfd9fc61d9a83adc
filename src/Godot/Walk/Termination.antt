-- ===== src/Godot/Walk/Termination.antt =====
-- The fuel of the walk never runs out: ten levels are enough for every graph, cyclic or not.
use foldback.Prelude.{ℕ, zero, suc, ◌+◌, ◌<◌, ◌≡◌, refl, sym, ap, ◌∙◌, arith}
use foldback.Prelude.{List, ltb, if◌then◌else◌}
use mathlib.Core.Path.{fun_ext}
use foldback.Prelude.Utf8.{Text}
use foldback.Error.{err}
use foldback.Godot.{default_max_depth, Variant, Heap, WalkError}
use foldback.Godot.Walk.{Walk, Reflect, visit, walk}

module _ (xxh3_64 : List ℕ → ℕ) (tick entity_id : ℕ) (heap : Heap) where
  walk-deep :
      (fuel : ℕ) (v : Variant) (depth : ℕ) (path : Text) (w : Walk)
      → default_max_depth < depth
      → walk xxh3_64 tick entity_id heap fuel v depth path w
        ≡ (err (WalkError.depth_exceeded path), w)
  unfolding walk
  walk-deep zero v depth path w h = refl
  walk-deep (suc fuel) v depth path w h = ground (arith, h)

  -- On every graph of Godot objects, cyclic or not, two amounts of fuel that exceed the levels
  -- left up to the depth limit give the same walk: the recursion of `walk` ends within the limit,
  -- and the fuel of `hash_reflected` never runs out.
  pub walk_enough :
      (fuel fuel' : ℕ) (v : Variant) (depth : ℕ) (path : Text) (w : Walk)
      → default_max_depth < fuel + depth
      → default_max_depth < fuel' + depth
      → walk xxh3_64 tick entity_id heap fuel v depth path w
        ≡ walk xxh3_64 tick entity_id heap fuel' v depth path w
  unfolding walk
  walk_enough zero fuel' v depth path w h h' =
      walk-deep zero v depth path w (omega (arith, h))
      ∙ sym (walk-deep fuel' v depth path w (omega (arith, h)))
  walk_enough (suc fuel) zero v depth path w h h' =
      walk-deep (suc fuel) v depth path w (omega (arith, h'))
      ∙ sym (walk-deep zero v depth path w (omega (arith, h')))
  walk_enough (suc fuel) (suc fuel') v depth path w h h' =
      ap
        (λ (child : Variant → Text → Reflect).
          if ltb default_max_depth depth
          then (err (WalkError.depth_exceeded path), w)
          else visit xxh3_64 tick entity_id heap child v path w)
        (fun_ext λ u. fun_ext λ p.
          fun_ext
            λ x. walk_enough fuel fuel' u (suc depth) p x (omega (arith, h)) (omega (arith, h')))

-- ===== src/Ring/Tests.antt =====
-- A buffer of three items that takes five.
use foldback.Prelude.{ℕ, ◌≡◌, refl, List, [], ◌∷◌}
use foldback.Ring.{new, iter, push}
use foldback.Ring.Window.{push_all, last_n, iter-push_all}

abbrev five : List ℕ
five = 1 ∷ 2 ∷ 3 ∷ 4 ∷ 5 ∷ []

iter-five : iter (push_all (new 3) five) ≡ 3 ∷ 4 ∷ 5 ∷ []
unfolding iter push_all new push
iter-five = refl

iter-push_all_example : iter (push_all (new 3) five) ≡ last_n 3 five
iter-push_all_example = iter-push_all 3 five

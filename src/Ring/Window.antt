-- ===== src/Ring/Window.antt =====
-- The ring buffer against its specification: the last `capacity` items of all that were pushed.
use foldback.Prelude.{ℕ, zero, suc, ◌+◌, ◌-◌, ◌≤◌, ◌<◌, min, ◌≡◌, refl, sym, ap, ◌∙◌, arith}
use foldback.Prelude.{
  List, [], ◌∷◌, ◌++◌, foldl, length, drop, length-append, length-drop, drop_of_length-le,
  drop-append_le,
}
use mathlib.Core.List.{foldl-append}
use foldback.Prelude.{append-nil, append_assoc}
use foldback.Ring.{RingBuffer, new, push, pop_front, len, iter}

module _ {T : Type 0} where
  -- The last `n` items.
  abbrev pub last_n : ℕ → List T → List T
  last_n n xs = drop (length xs - n) xs

  unfoldable pub push_all : RingBuffer T → List T → RingBuffer T
  push_all = foldl push

  -- What the buffer holds after the pushes `xs`.
  abbrev pub Holds : RingBuffer T → List T → Type 0
  Holds r xs = r.items ≡ last_n r.capacity xs

  capacity-push : (r : RingBuffer T) (x : T) → (push r x).capacity ≡ r.capacity
  unfolding push
  capacity-push r x = ground arith

  pop_front-drop : (n : ℕ) (xs : List T) → pop_front (drop n xs) ≡ drop (suc n) xs
  pop_front-drop zero [] = refl
  pop_front-drop zero (x ∷ xs) = refl
  pop_front-drop (suc n) [] = refl
  pop_front-drop (suc n) (x ∷ xs) = pop_front-drop n xs

  last_n_snoc :
      (n : ℕ) (xs : List T) (x : T)
      → length xs < n
      → last_n n (xs ++ (x ∷ [])) ≡ last_n n xs ++ (x ∷ [])
  last_n_snoc n xs x h = rw (length-append, c, d) refl
    where
      c : length xs + 1 - n ≡ 0
      c = omega arith

      d : length xs - n ≡ 0
      d = omega arith

  last_n_snoc_full :
      (n : ℕ) (xs : List T) (x : T)
      → 0 < n
      → n ≤ length xs
      → last_n n (xs ++ (x ∷ [])) ≡ pop_front (last_n n xs) ++ (x ∷ [])
  last_n_snoc_full n xs x p h =
      ap (λ k. drop k (xs ++ (x ∷ []))) {y = suc (length xs - n)}
        (omega (arith, length-append xs (x ∷ [])))
      ∙ drop-append_le (suc (length xs - n)) xs (x ∷ []) (omega arith)
      ∙ ap (λ ys. ys ++ (x ∷ [])) (sym (pop_front-drop (length xs - n) xs))

  push-Holds :
      (r : RingBuffer T) (xs : List T) (x : T) → Holds r xs → Holds (push r x) (xs ++ (x ∷ []))
  unfolding push
  push-Holds r xs x h = ground (
    arith,
    ap length h,
    length-drop (length xs - r.capacity) xs,
    length-append xs (x ∷ []),
    drop_of_length-le (length xs) xs,
    drop_of_length-le (length xs + 1) (xs ++ (x ∷ [])),
    last_n_snoc r.capacity xs x,
    last_n_snoc_full r.capacity xs x,
  )

  push_all-capacity : (r : RingBuffer T) (xs : List T) → (push_all r xs).capacity ≡ r.capacity
  unfolding push_all
  push_all-capacity r [] = refl
  push_all-capacity r (x ∷ xs) = push_all-capacity (push r x) xs ∙ capacity-push r x

  pub push_all-Holds :
      (r : RingBuffer T) (xs ys : List T) → Holds r xs → Holds (push_all r ys) (xs ++ ys)
  unfolding push_all
  push_all-Holds r xs [] h = rw append-nil h
  push_all-Holds r xs (y ∷ ys) h =
      rw append_assoc at (push_all-Holds (push r y) (xs ++ (y ∷ [])) ys (push-Holds r xs y h))

  pub push_all-snoc :
      (r : RingBuffer T) (xs : List T) (x : T)
      → push_all r (xs ++ (x ∷ [])) ≡ push (push_all r xs) x
  unfolding push_all
  push_all-snoc r xs x = foldl-append push r xs (x ∷ [])

  -- After any pushes into a new buffer it holds exactly the last `capacity` items, oldest first;
  -- with capacity 0 it stays empty.
  pub iter-push_all :
      (capacity : ℕ) (xs : List T) → iter (push_all (new capacity) xs) ≡ last_n capacity xs
  unfolding new iter
  iter-push_all capacity xs =
      push_all-Holds (new capacity) [] xs (sym (drop_of_length-le (0 - capacity) [] (omega arith)))
      ∙ ap (λ k. last_n k xs) (push_all-capacity (new capacity) xs)

  -- After any pushes into a new buffer its length is the number of the pushes or the capacity,
  -- whichever is smaller.
  len-push_all :
      (capacity : ℕ) (xs : List T) → len (push_all (new capacity) xs) ≡ min capacity (length xs)
  unfolding len iter
  len-push_all capacity xs =
      ap length (iter-push_all capacity xs) ∙ length-drop (length xs - capacity) xs ∙ omega arith

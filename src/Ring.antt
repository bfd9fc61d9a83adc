-- ===== src/Ring.antt =====
-- crates/foldback-core/src/ring_buffer.rs: the bounded retention buffer. The deque is a list,
-- oldest item first; `with_capacity` only reserves memory.
pub mod Window
mod Tests
use foldback.Prelude.{ℕ, Bool, true, false, Option, none, some, List, [], ◌∷◌, ◌++◌, ◌==◌}
use foldback.Prelude.{if◌then◌else◌, length}

pub record RingBuffer {ℓ} (T : Type ℓ) : Type ℓ where
  pub capacity : ℕ
  pub items : List T

module _ {ℓ} {T : Type ℓ} where
  unfoldable pub new : ℕ → RingBuffer T
  new capacity = record { capacity = capacity; items = [] }

  -- `VecDeque::pop_front`, whose result the code drops.
  abbrev pub pop_front : List T → List T
  pop_front [] = []
  pop_front (x ∷ xs) = xs

  unfoldable pub push : RingBuffer T → T → RingBuffer T
  push r item =
      if r.capacity == 0
      then r
      else (let kept = if length r.items == r.capacity then pop_front r.items else r.items in
          record r { items = kept ++ (item ∷ []) })

  unfoldable pub len : RingBuffer T → ℕ
  len r = length r.items

  unfoldable pub is_empty : RingBuffer T → Bool
  is_empty r = elim r.items [ [] ↦ true | ◌∷◌ _ _ ↦ false ]

  unfoldable pub iter : RingBuffer T → List T
  iter r = r.items

  abbrev pub last_of : List T → Option T
  last_of [] = none
  last_of (x ∷ []) = some x
  last_of (x ∷ y ∷ xs) = last_of (y ∷ xs)

  unfoldable pub back : RingBuffer T → Option T
  back r = last_of r.items

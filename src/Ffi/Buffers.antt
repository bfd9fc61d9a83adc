-- ===== src/Ffi/Buffers.antt =====
-- What the C interface writes through the pointers of its caller.
use foldback.Prelude.{
  ℕ, ◌+◌, ◌-◌, ◌≤◌, ◌<◌, min, ◌≡◌, refl, sym, ap, ◌∙◌, arith, Option, none, some, List, [], ◌∷◌,
  ◌++◌,
}
use foldback.Prelude.{
  length, take, drop, length-append, length-take, length-drop, ◌==◌, Bool-cases, inl, inr,
  drop-append, append_assoc, drop-add,
}
use foldback.Prelude.Utf8.{Text}
use foldback.Session.{Session, PendingHash, take_pending_hashes_up_to}
use foldback.Ffi.{Thread, run_catching, caught, clear_last_error}
use foldback.Ffi.Out.{
  Out, drain_into, foldback_take_pending_hashes, copy_message, foldback_last_error,
}

drop-past :
    {A : Type 0} (n : ℕ) (xs ys : List A)
    → length xs ≤ n
    → drop n (xs ++ ys) ≡ drop (n - length xs) ys
drop-past n xs ys h =
    ap (λ k. drop k (xs ++ ys)) {y = length xs + (n - length xs)} (omega arith)
    ∙ drop-add (length xs) (n - length xs) (xs ++ ys)
    ∙ ap (drop (n - length xs)) (drop-append (length xs) xs ys refl)

-- Let the caller's array hold at least `out_capacity` entries. On a live handle
-- `foldback_take_pending_hashes` returns the smaller of the number queued and the capacity, writes
-- that many of the oldest hashes to the front of the array, leaves the rest of the array and its
-- length alone, keeps the other hashes queued, and clears the last error.
pub foldback_take_pending_hashes-out :
    (s : Session) (out : List PendingHash) (e : Option Text) (out_capacity : ℕ)
    → out_capacity ≤ length out
    → let n = min (length s.pending) out_capacity in
      (foldback_take_pending_hashes out_capacity
          (record { memory = (some s, some out); last_error = e })
        ≡ (
          n,
          record {
            memory = (
              some (record s { pending = drop n s.pending }),
              some (take n s.pending ++ drop n out),
            );
            last_error = none;
          },
        ))
      × (length (take n s.pending ++ drop n out) ≡ length out)
unfolding foldback_take_pending_hashes run_catching caught clear_last_error drain_into
    take_pending_hashes_up_to
foldback_take_pending_hashes-out s out e capacity h = (
  ap (λ k. (k, thread k)) {x = length (take (min (length s.pending) capacity) s.pending)}
      {y = min (length s.pending) capacity}
      (length-take (min (length s.pending) capacity) s.pending ∙ omega arith),
  omega (
    arith,
    length-append (take (min (length s.pending) capacity) s.pending)
        (drop (min (length s.pending) capacity) out),
    length-take (min (length s.pending) capacity) s.pending,
    length-drop (min (length s.pending) capacity) out,
  ),
)
  where
    thread : ℕ → Thread Out
    thread k = record {
      memory = (
        some (record s { pending = drop (min (length s.pending) capacity) s.pending }),
        some (take (min (length s.pending) capacity) s.pending ++ drop k out),
      );
      last_error = none;
    }

-- What is copied: the message cut to fit, and its end.
abbrev pub copied : Text → ℕ → List ℕ
copied msg buf_len = take (min (length msg) (buf_len - 1)) msg ++ (0 ∷ [])

length-copied :
    (msg : Text) (buf_len : ℕ) → length (copied msg buf_len) ≡ min (length msg) (buf_len - 1) + 1
length-copied msg buf_len = omega (
  arith,
  length-append (take (min (length msg) (buf_len - 1)) msg) (0 ∷ []),
  length-take (min (length msg) (buf_len - 1)) msg,
)

-- Let there be a last error, and let the caller's buffer hold at least the `buf_len` bytes that
-- the caller claims, and at least one. Then `foldback_last_error` returns the message's length and
-- writes the message, cut to `buf_len - 1` bytes, and a NUL byte; it changes no byte behind the
-- first `buf_len`.
pub foldback_last_error-bounds :
    (msg : Text) (buf : List ℕ) (buf_len : ℕ)
    → 0 < buf_len
    → buf_len ≤ length buf
    → (left : List ℕ) × (foldback_last_error (some msg) (some buf) buf_len
        ≡ (length msg, some (copied msg buf_len ++ left)))
      × (length (copied msg buf_len ++ left) ≡ length buf)
      × (length (copied msg buf_len) ≤ buf_len)
      × (drop buf_len (copied msg buf_len ++ left) ≡ drop buf_len buf)
unfolding foldback_last_error copy_message
foldback_last_error-bounds msg buf buf_len pos h = (
  drop (min (length msg) (buf_len - 1) + 1) buf,
  elim (Bool-cases (buf_len == 0)) [
    | inl e ↦ absurd (ground arith)
    | inr e ↦ rw (e, append_assoc) refl
  ],
  omega (
    arith,
    length-copied msg buf_len,
    length-append (copied msg buf_len) (drop (min (length msg) (buf_len - 1) + 1) buf),
    length-drop (min (length msg) (buf_len - 1) + 1) buf,
  ),
  omega (arith, length-copied msg buf_len),
  drop-past buf_len (copied msg buf_len) (drop (min (length msg) (buf_len - 1) + 1) buf)
        (omega (arith, length-copied msg buf_len))
      ∙ sym (
          drop-add (min (length msg) (buf_len - 1) + 1) (buf_len - length (copied msg buf_len)) buf)
      ∙ ap (λ k. drop k buf) {y = buf_len} (omega (arith, length-copied msg buf_len)),
)

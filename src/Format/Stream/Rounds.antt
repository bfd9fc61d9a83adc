-- ===== src/Format/Stream/Rounds.antt =====
-- The passes of `next_frame` of crates/foldback-core/src/format.rs, and the bytes that each takes; the
-- fuel of the two loops counts bytes.
use foldback.Prelude.{
  ℕ, zero, suc, ◌+◌, ◌≤◌, ◌<◌, ◌≡◌, refl, ap, ◌∙◌, subst, sym, ◌⊎◌, arith, Option, none, some,
}
use foldback.Prelude.{List, length, length-drop, inl, inr, Bool-cases, leb, leb→le, ◌==◌}
use foldback.Prelude.Bytes.{from_le_bytes}
use foldback.Error.{IoError, Error, Result, ok, err, truncated_header}
use foldback.Error.{unknown_frame_type, other}
use foldback.Error.{unexpected_eof}
use foldback.Io.{Reader, take_to_end_left, read_exact, take_to_end}
use foldback.Format.Frame.{Frame}
use foldback.Format.Decode.{decode_payload}
use foldback.Format.Stream.{
  Round, done, again, decoded, payload_read, len_read, type_read, frame_round,
}
use foldback.Format.Stream.{
  after_round, next_loop, next_frame, each_frame, for_each_loop, for_each_frame,
}

-- A pass over `n` bytes that yields a frame or repeats takes five of them at least.
abbrev Progress : ℕ → Round → Type 0
Progress n (done (ok none) r) = Unit
Progress n (done (ok (some f)) r) = 5 + length r.bytes ≤ n
Progress n (done (err e) r) = Unit
Progress n (again r) = 5 + length r.bytes ≤ n

decoded-Progress :
    (x : Result Error Frame) (n : ℕ) (r : Reader)
    → 5 + length r.bytes ≤ n
    → Progress n (decoded x r)
unfolding decoded
decoded-Progress (ok f) n r h = h
decoded-Progress (err (unknown_frame_type t)) n r h = h
decoded-Progress (err truncated_header) n r h = tt
decoded-Progress (err _) n r h = tt

payload_read-Progress :
    (t k n : ℕ) (x : Result IoError (List ℕ) × Reader)
    → 5 + length x.1.bytes ≤ n
    → Progress n (payload_read t k x)
unfolding payload_read
payload_read-Progress t k n (err e, r) h = tt
payload_read-Progress t k n (ok payload, r) h = elim (Bool-cases (length payload == k)) [
  | inl e ↦ rw e (decoded-Progress (decode_payload t payload) n r h)
  | inr e ↦ rw e tt
]

-- What is left behind a read that succeeds.
abbrev Left : ℕ → ℕ → Result IoError (List ℕ) × Reader → Type 0
Left k n (ok buf, r) = k + length r.bytes ≤ n
Left k n (err e, r) = Unit

read_exact-Left : (k : ℕ) (r : Reader) → Left k (length r.bytes) (read_exact k r)
unfolding read_exact
read_exact-Left k r = elim (Bool-cases (leb k (length r.bytes))) [
  | inl e ↦ rw (e, read_exact) (omega (arith, leb→le k (length r.bytes) e, length-drop k r.bytes))
  | inr e ↦ rw (e, read_exact) tt
]

len_read-Progress :
    (t n : ℕ) (x : Result IoError (List ℕ) × Reader) → Left 5 n x → Progress n (len_read t x)
unfolding len_read
len_read-Progress t n (err e, r) h = tt
len_read-Progress t n (ok buf, r) h =
    payload_read-Progress t (from_le_bytes buf) n (take_to_end (from_le_bytes buf) r)
      (omega (arith, take_to_end_left (from_le_bytes buf) r))

Left-more :
    (j k m n : ℕ) (x : Result IoError (List ℕ) × Reader) → j + m ≤ n → Left k m x → Left (j + k) n x
Left-more j k m n (ok buf, r) h l = omega (arith, h, l)
Left-more j k m n (err e, r) h l = tt

type_read-Progress :
    (n : ℕ) (x : Result IoError (List ℕ) × Reader) → Left 1 n x → Progress n (type_read x)
unfolding type_read
type_read-Progress n (err unexpected_eof, r) l = tt
type_read-Progress n (err (other k), r) l = tt
type_read-Progress n (ok buf, r) l =
    len_read-Progress _ n (read_exact 4 r)
      (Left-more 1 4 (length r.bytes) n (read_exact 4 r) l (read_exact-Left 4 r))

pub frame_round-Progress : (r : Reader) → Progress (length r.bytes) (frame_round r)
unfolding frame_round
frame_round-Progress r = type_read-Progress (length r.bytes) (read_exact 1 r) (read_exact-Left 1 r)

pub Round-cases :
    (x : Round)
    → ((a : Result Error (Option Frame)) × (r : Reader) × (x ≡ done a r))
      ⊎ ((r : Reader) × (x ≡ again r))
Round-cases (done a r) = inl (a, r, refl)
Round-cases (again r) = inr (r, refl)

again_five : (r r' : Reader) → frame_round r ≡ again r' → 5 + length r'.bytes ≤ length r.bytes
again_five r r' e = subst (Progress (length r.bytes)) e (frame_round-Progress r)

pub again_shorter : (r r' : Reader) → frame_round r ≡ again r' → length r'.bytes < length r.bytes
again_shorter r r' e = omega (arith, again_five r r' e)

-- More fuel than bytes is as good as any.
next_loop_enough :
    (fuel fuel' : ℕ) (r : Reader)
    → length r.bytes < fuel
    → length r.bytes < fuel'
    → next_loop fuel r ≡ next_loop fuel' r
unfolding next_loop after_round
next_loop_enough zero fuel' r h h' = elim h [ ]
next_loop_enough (suc fuel) zero r h h' = elim h' [ ]
next_loop_enough (suc fuel) (suc fuel') r h h' = elim (Round-cases (frame_round r)) [
  | inl (a, r', e) ↦ rw e
  | inr (r', e) ↦
      let l : length r'.bytes < length r.bytes = again_shorter r r' e in
      rw e (next_loop_enough fuel fuel' r' (omega arith) (omega arith))
]

-- One pass, and then `next_frame` itself on what is left.
pub next_frame_lem : (r : Reader) → next_frame r ≡ after_round next_frame (frame_round r)
unfolding next_frame next_loop after_round
next_frame_lem r = elim (Round-cases (frame_round r)) [
  | inl (a, r', e) ↦ rw e
  | inr (r', e) ↦ rw e (
      next_loop_enough (length r.bytes) (suc (length r'.bytes)) r' (again_shorter r r' e)
        (omega arith))
]

frame_shorter :
    (r r' : Reader) (f : Frame)
    → frame_round r ≡ done (ok (some f)) r'
    → length r'.bytes < length r.bytes
frame_shorter r r' f e = omega (arith, frame_five)
  where
    frame_five : 5 + length r'.bytes ≤ length r.bytes
    frame_five = subst (Progress (length r.bytes)) e (frame_round-Progress r)

next_loop_shorter :
    (fuel : ℕ) (r : Reader) (f : Frame) (r' : Reader)
    → next_loop fuel r ≡ (ok (some f), r')
    → length r'.bytes < length r.bytes
unfolding next_loop after_round
next_loop_shorter zero r f r' e = cc
next_loop_shorter (suc fuel) r f r' e = elim (Round-cases (frame_round r)) [
  | inl (a, q, c) ↦
      let e' : (a, q) ≡ (ok (some f), r') = ap (after_round (λ x. next_loop fuel x)) (sym c) ∙ e in
      frame_shorter r r' f (c ∙ ap (λ (x : Result Error (Option Frame) × Reader). done x.0 x.1) e')
  | inr (q, c) ↦
      let e' : next_loop fuel q ≡ (ok (some f), r') =
        ap (after_round (λ x. next_loop fuel x)) (sym c) ∙ e in
      omega (arith, next_loop_shorter fuel q f r' e', again_shorter r q c)
]

-- A frame that `next_frame` returns has been taken off the reader.
pub next_frame_shorter :
    (r : Reader) (f : Frame) (r' : Reader)
    → next_frame r ≡ (ok (some f), r')
    → length r'.bytes < length r.bytes
unfolding next_frame
next_frame_shorter r f r' e = next_loop_shorter _ r f r' e

Outcome-cases :
    (x : Result Error (Option Frame) × Reader)
    → ((f : Frame) × (r : Reader) × (x ≡ (ok (some f), r)))
      ⊎ ((x.0 ≡ ok none) ⊎ ((e : Error) × (x.0 ≡ err e)))
Outcome-cases (ok (some f), r) = inl (f, r, refl)
Outcome-cases (ok none, r) = inr (inl refl)
Outcome-cases (err e, r) = inr (inr (e, refl))

module _ {S : Type 0} (body : S → Frame → S) where
  each_frame_stop :
      (k l : S → Reader → Result Error S) (s : S) (x : Result Error (Option Frame) × Reader)
      → (x.0 ≡ ok none) ⊎ ((e : Error) × (x.0 ≡ err e))
      → each_frame k body s x ≡ each_frame l body s x
  unfolding each_frame
  each_frame_stop k l s (ok none, r) h = refl
  each_frame_stop k l s (ok (some f), r) (inl h) = cc
  each_frame_stop k l s (ok (some f), r) (inr h) = cc h.1
  each_frame_stop k l s (err e, r) h = refl

  for_each_loop_enough :
      (fuel fuel' : ℕ) (s : S) (r : Reader)
      → length r.bytes < fuel
      → length r.bytes < fuel'
      → for_each_loop fuel body s r ≡ for_each_loop fuel' body s r
  unfolding for_each_loop each_frame
  for_each_loop_enough zero fuel' s r h h' = elim h [ ]
  for_each_loop_enough (suc fuel) zero s r h h' = elim h' [ ]
  for_each_loop_enough (suc fuel) (suc fuel') s r h h' = elim (Outcome-cases (next_frame r)) [
    | inl (f, r', e) ↦
        let l : length r'.bytes < length r.bytes = next_frame_shorter r f r' e in
        rw e (for_each_loop_enough fuel fuel' (body s f) r' (omega arith) (omega arith))
    | inr stop ↦
        each_frame_stop (λ s' r'. for_each_loop fuel body s' r')
          (λ s' r'. for_each_loop fuel' body s' r') s (next_frame r) stop
  ]

  -- The loop over a reader is one step of the loop and then the loop on what is left.
  pub for_each_frame_lem :
      (s : S) (r : Reader)
      → for_each_frame body s r
        ≡ each_frame (λ s' r'. for_each_frame body s' r') body s (next_frame r)
  unfolding for_each_frame for_each_loop each_frame
  for_each_frame_lem s r = elim (Outcome-cases (next_frame r)) [
    | inl (f, r', e) ↦ rw e (
        for_each_loop_enough (length r.bytes) (suc (length r'.bytes)) (body s f) r'
          (next_frame_shorter r f r' e) (omega arith))
    | inr stop ↦
        each_frame_stop (λ s' r'. for_each_loop (length r.bytes) body s' r')
          (λ s' r'. for_each_loop (suc (length r'.bytes)) body s' r') s (next_frame r) stop
  ]

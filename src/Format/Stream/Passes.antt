-- ===== src/Format/Stream/Passes.antt =====
-- The passes of `next_frame` of crates/foldback-core/src/format.rs: what each but the last takes off the
-- reader.
use foldback.Prelude.{
  ℕ, zero, suc, ◌≡◌, ◌<◌, refl, sym, ap, ◌∙◌, subst, arith, inl, inr, Bool-cases, leb, ◌==◌,
}
use foldback.Prelude.{
  Option, List, [], ◌∷◌, ◌++◌, length, take-append-drop, length-take, append-nil,
}
use foldback.Prelude.Bytes.{from_le_bytes}
use foldback.Error.{IoError, Error, Result, ok, err, unknown_frame_type, unexpected_eof, other}
use foldback.Io.{Reader, Ending, eof, broken, short_read, read_exact, take_to_end}
use foldback.Format.Frame.{Frame}
use foldback.Format.Decode.{decode_payload}
use foldback.Format.Stream.{Round, done, again, decoded, payload_read, len_read, type_read}
use foldback.Format.Stream.{frame_round, after_round, next_loop, next_frame}
use foldback.Format.Stream.Rounds.{Round-cases, again_shorter}

-- The bytes start with a whole chunk of an unknown type: the type, the length of the payload in four
-- bytes, and the payload.
pub record Skips (bytes left : List ℕ) : Type 0 where
  pub type_byte : ℕ
  pub len_buf : List ℕ
  pub payload : List ℕ
  pub whole : bytes ≡ type_byte ∷ (len_buf ++ (payload ++ left))
  pub header : length len_buf ≡ 4
  pub size : length payload ≡ from_le_bytes len_buf
  pub unknown : (code : ℕ) × (decode_payload type_byte payload ≡ err (unknown_frame_type code))

-- What a read that succeeds took.
abbrev Took : List ℕ → Result IoError (List ℕ) × Reader → Type 0
Took bytes (ok buf, r) = bytes ≡ buf ++ r.bytes
Took bytes (err e, r) = Unit

abbrev Filled : ℕ → Result IoError (List ℕ) × Reader → Type 0
Filled n (ok buf, r) = length buf ≡ n
Filled n (err e, r) = Unit

read_exact-Took : (n : ℕ) (r : Reader) → Took r.bytes (read_exact n r)
unfolding read_exact
read_exact-Took n r = elim (Bool-cases (leb n (length r.bytes))) [
  | inl e ↦ rw (e, read_exact) (sym (take-append-drop n r.bytes))
  | inr e ↦ rw (e, read_exact) tt
]

read_exact-Filled : (n : ℕ) (r : Reader) → Filled n (read_exact n r)
unfolding read_exact
read_exact-Filled n r = elim (Bool-cases (leb n (length r.bytes))) [
  | inl e ↦ rw (e, read_exact) (ground (arith, e, length-take n r.bytes))
  | inr e ↦ rw (e, read_exact) tt
]

take_to_end-Took : (n : ℕ) (r : Reader) → Took r.bytes (take_to_end n r)
unfolding take_to_end
take_to_end-Took n r = elim (Bool-cases (leb n (length r.bytes))) [
  | inl e ↦ rw (e, take_to_end) (sym (take-append-drop n r.bytes))
  | inr e ↦ rw (e, take_to_end) (short r.ending r.bytes)
]
  where
    short :
        (end : Ending) (bytes : List ℕ)
        → Took bytes (short_read end bytes, record { bytes = []; ending = end })
    short eof bytes = sym (append-nil bytes)
    short (broken e) bytes = tt

-- A pass over `bytes` that repeats has skipped such a chunk.
abbrev Skipped : List ℕ → Round → Type 0
Skipped bytes (done a r) = Unit
Skipped bytes (again r) = Skips bytes r.bytes

decoded-Skipped :
    (t : ℕ) (len_buf payload bytes : List ℕ) (r : Reader) (x : Result Error Frame)
    → bytes ≡ t ∷ (len_buf ++ (payload ++ r.bytes))
    → length len_buf ≡ 4
    → length payload ≡ from_le_bytes len_buf
    → decode_payload t payload ≡ x
    → Skipped bytes (decoded x r)
unfolding decoded
decoded-Skipped t len_buf payload bytes r (ok f) w h n e = tt
decoded-Skipped t len_buf payload bytes r (err (unknown_frame_type code)) w h n e = record {
  type_byte = t;
  len_buf = len_buf;
  payload = payload;
  whole = w;
  header = h;
  size = n;
  unknown = (code, e);
}
decoded-Skipped t len_buf payload bytes r (err _) w h n e = tt

payload_read-Skipped :
    (t : ℕ) (len_buf bytes rest : List ℕ) (x : Result IoError (List ℕ) × Reader)
    → bytes ≡ t ∷ (len_buf ++ rest)
    → length len_buf ≡ 4
    → Took rest x
    → Skipped bytes (payload_read t (from_le_bytes len_buf) x)
unfolding payload_read
payload_read-Skipped t len_buf bytes rest (err e, r) w h took = tt
payload_read-Skipped t len_buf bytes rest (ok payload, r) w h took =
    elim (Bool-cases (length payload == from_le_bytes len_buf)) [
      | inl e ↦ rw e (
          decoded-Skipped t len_buf payload bytes r (decode_payload t payload)
            (w ∙ ap (λ l. t ∷ (len_buf ++ l)) took) h (ground (arith, e)) refl)
      | inr e ↦ rw e tt
    ]

len_read-Skipped :
    (t : ℕ) (bytes rest : List ℕ) (x : Result IoError (List ℕ) × Reader)
    → bytes ≡ t ∷ rest
    → Took rest x
    → Filled 4 x
    → Skipped bytes (len_read t x)
unfolding len_read
len_read-Skipped t bytes rest (err e, r) w took full = tt
len_read-Skipped t bytes rest (ok len_buf, r) w took full =
    payload_read-Skipped t len_buf bytes r.bytes (take_to_end (from_le_bytes len_buf) r)
      (w ∙ ap (◌∷◌ t) took) full (take_to_end-Took (from_le_bytes len_buf) r)

type_read-Skipped :
    (bytes : List ℕ) (x : Result IoError (List ℕ) × Reader)
    → Took bytes x
    → Filled 1 x
    → Skipped bytes (type_read x)
unfolding type_read
type_read-Skipped bytes (err unexpected_eof, r) took full = tt
type_read-Skipped bytes (err (other k), r) took full = tt
type_read-Skipped bytes (ok [], r) took full = absurd (omega (arith, full))
type_read-Skipped bytes (ok (t ∷ []), r) took full =
    len_read-Skipped t bytes r.bytes (read_exact 4 r) took (read_exact-Took 4 r)
      (read_exact-Filled 4 r)
type_read-Skipped bytes (ok (t ∷ u ∷ us), r) took full = absurd (omega (arith, full))

frame_round-Skipped : (r : Reader) → Skipped r.bytes (frame_round r)
unfolding frame_round
frame_round-Skipped r =
    type_read-Skipped r.bytes (read_exact 1 r) (read_exact-Took 1 r) (read_exact-Filled 1 r)

-- Finitely many passes: each but the last skips a whole chunk of an unknown type and calls
-- `next_frame` again; the last returns.
pub data Passes : Reader → Result Error (Option Frame) × Reader → Type 0 where
  returns :
      {r r' : Reader} {a : Result Error (Option Frame)}
      → frame_round r ≡ done a r'
      → Passes r (a, r')
  repeats :
      {r r' : Reader} {x : Result Error (Option Frame) × Reader}
      → frame_round r ≡ again r'
      → Skips r.bytes r'.bytes
      → Passes r' x
      → Passes r x

next_loop-Passes : (fuel : ℕ) (r : Reader) → length r.bytes < fuel → Passes r (next_loop fuel r)
unfolding next_loop after_round
next_loop-Passes zero r h = elim h [ ]
next_loop-Passes (suc fuel) r h = elim (Round-cases (frame_round r)) [
  | inl (a, r', e) ↦ rw (e, next_loop) (Passes.returns e)
  | inr (r', e) ↦
      rw (e, next_loop)
        (Passes.repeats e (subst (Skipped r.bytes) e (frame_round-Skipped r))
          (next_loop-Passes fuel r' (omega (arith, again_shorter r r' e, h))))
]

-- On every reader, `next_frame` ends after finitely many passes. Every pass that calls
-- `next_frame` again has taken just one whole chunk off the front of the reader: a type that
-- `decode_payload` does not know, the length of the payload in four bytes, and a payload of that
-- length. The last pass returns by itself what `next_frame` returns: the fuel never runs out.
pub next_frame-Passes : (r : Reader) → Passes r (next_frame r)
unfolding next_frame
next_frame-Passes r = next_loop-Passes (suc (length r.bytes)) r (omega arith)

-- ===== src/Format/Stream/Chunks.antt =====
-- One pass of `next_frame` over one chunk of a file, whole or cut short.
use foldback.Prelude.{ℕ, ◌%◌, ◌^◌, ◌<◌, ◌≡◌, refl, ap, ◌∙◌, arith, inl, inr}
use foldback.Prelude.{List, [], ◌∷◌, ◌++◌, length, append_assoc, length-append, none}
use foldback.Prelude.{take-append, drop-append, append_split, if◌then◌else◌, ==_refl}
use foldback.Prelude.{Bool-cases, ltb, ltb→lt}
use foldback.Prelude.Bytes.{IsU32, from_le_bytes, length-to_le_bytes}
use foldback.Prelude.Bytes.{from-to_le_bytes}
use foldback.Error.{ok, err}
use foldback.Io.{Reader, Ending, eof, broken, ending_error, short_read, read_exact, take_to_end}
use foldback.Format.Frame.{len_bytes}
use foldback.Format.Decode.{decode_payload}
use foldback.Format.Stream.{Round, done, decoded, payload_read, len_read, type_read}
use foldback.Format.Stream.{frame_round}

-- A frame as any version of the format lays it out: type, length, payload.
abbrev pub chunk_bytes : ℕ → List ℕ → List ℕ
chunk_bytes t p = t ∷ (len_bytes p ++ p)

abbrev pub reading : List ℕ → Ending → Reader
reading bs ending = record { bytes = bs; ending = ending }

read_exact_whole :
    (n : ℕ) (s rest : List ℕ) (en : Ending)
    → length s ≡ n
    → read_exact n (reading (s ++ rest) en) ≡ (ok s, reading rest en)
unfolding read_exact
read_exact_whole n s rest en h =
    ground (arith, length-append s rest, take-append n s rest h, drop-append n s rest h)

take_to_end_whole :
    (n : ℕ) (s rest : List ℕ) (en : Ending)
    → length s ≡ n
    → take_to_end n (reading (s ++ rest) en) ≡ (ok s, reading rest en)
unfolding take_to_end
take_to_end_whole n s rest en h =
    ground (arith, length-append s rest, take-append n s rest h, drop-append n s rest h)

read_exact_short :
    (n : ℕ) (s : List ℕ) (en : Ending)
    → length s < n
    → read_exact n (reading s en) ≡ (err (ending_error en), reading [] en)
unfolding read_exact
read_exact_short n s en h = ground arith

take_to_end_short :
    (n : ℕ) (s : List ℕ) (en : Ending)
    → length s < n
    → take_to_end n (reading s en) ≡ (short_read en s, reading [] en)
unfolding take_to_end
take_to_end_short n s en h = ground arith

from-len_bytes : (p : List ℕ) → IsU32 (length p) → from_le_bytes (len_bytes p) ≡ length p
from-len_bytes p h = omega (arith, from-to_le_bytes 4 (length p % 2 ^ 32) (omega arith))

-- A whole chunk: the pass decodes its payload and stands behind it.
pub frame_round-chunk :
    (t : ℕ) (p rest : List ℕ) (en : Ending)
    → IsU32 (length p)
    → frame_round (reading (chunk_bytes t p ++ rest) en)
      ≡ decoded (decode_payload t p) (reading rest en)
unfolding frame_round type_read len_read payload_read
frame_round-chunk t p rest en h =
    ap type_read (read_exact_whole 1 (t ∷ []) ((len_bytes p ++ p) ++ rest) en refl)
    ∙ rw
        (
          append_assoc (len_bytes p) p rest,
          read_exact_whole 4 (len_bytes p) (p ++ rest) en
              (length-to_le_bytes 4 (length p % 2 ^ 32)),
          from-len_bytes p h,
          take_to_end_whole (length p) p rest en refl,
        )
        (ap
          (λ b.
            if b
            then decoded (decode_payload t p) (reading rest en)
            else done (ok none) (reading rest en))
          (==_refl (length p)))

-- A pass that stops quietly, as at the end of a file.
abbrev pub Stops : Round → Type 0
Stops x = (r : Reader) × (x ≡ done (ok none) r)

payload_read-cut :
    (t n : ℕ) (s : List ℕ) (en : Ending)
    → length s < n
    → Stops (payload_read t n (take_to_end n (reading s en)))
unfolding payload_read
payload_read-cut t n s eof h = (reading [] eof, rw (take_to_end_short n s eof h) (ground arith))
payload_read-cut t n s (broken e) h =
    (reading [] (broken e), rw (take_to_end_short n s (broken e) h) refl)

len_read-cut :
    (t : ℕ) (p s tail : List ℕ) (en : Ending)
    → IsU32 (length p)
    → 0 < length tail
    → s ++ tail ≡ len_bytes p ++ p
    → Stops (len_read t (read_exact 4 (reading s en)))
unfolding len_read
len_read-cut t p s tail en h pos e = elim (Bool-cases (ltb (length s) 4)) [
  | inl short ↦ (reading [] en, rw (read_exact_short 4 s en (ltb→lt _ _ short)) refl)
  | inr long ↦
      let (q, es, eq) =
        append_split s tail (len_bytes p) p e
          (ground (arith, length-to_le_bytes 4 (length p % 2 ^ 32))) in
      let (r, st) =
        payload_read-cut t (length p) q en (omega (arith, ap length eq, length-append q tail)) in
      (
        r,
        rw
            (
              es,
              read_exact_whole 4 (len_bytes p) q en (length-to_le_bytes 4 (length p % 2 ^ 32)),
              from-len_bytes p h,
            )
            st,
      )
]

-- A chunk cut anywhere, at the end of the file: the pass discards it and stops.
pub frame_round-cut :
    (t : ℕ) (p s tail : List ℕ)
    → IsU32 (length p)
    → 0 < length tail
    → s ++ tail ≡ chunk_bytes t p
    → Stops (frame_round (reading s eof))
unfolding frame_round type_read
frame_round-cut t p [] tail h pos e =
    (reading [] eof, rw (read_exact_short 1 [] eof (omega arith)) refl)
frame_round-cut t p (b ∷ s) tail h pos e =
    let (r, st) = len_read-cut b p s tail eof h pos (cc) in
    (r, rw (read_exact_whole 1 (b ∷ []) s eof refl) st)

-- Nothing is left: the pass stops.
pub frame_round-end : Stops (frame_round (reading [] eof))
unfolding frame_round type_read read_exact
frame_round-end = (reading [] eof, refl)

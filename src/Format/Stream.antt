-- ===== src/Format/Stream.antt =====
-- crates/foldback-core/src/format.rs: `FrameReader::next_frame` and the loop over its frames.
pub mod Rounds
pub mod Passes
pub mod Chunks
pub mod Recovery
use foldback.Prelude.{ℕ, zero, suc, Option, none, some, List, ◌==◌, if◌then◌else◌, length}
use foldback.Prelude.Bytes.{from_le_bytes, byte_at}
use foldback.Error.{IoError, Error, unknown_frame_type, io, unexpected_eof, other, Result, ok, err}
use foldback.Action.{Action}
use foldback.Io.{Reader, read_exact, take_to_end}
use foldback.Format.Frame.{Frame}
use foldback.Format.Decode.{decode_payload}

-- One pass through the body of `next_frame`: it returns, or it calls itself on what is left.
pub data Round : Type 0 where
  done : Result Error (Option Frame) → Reader → Round
  again : Reader → Round

unfoldable pub decoded : Result Error Frame → Reader → Round
decoded (ok f) r = done (ok (some f)) r
decoded (err (unknown_frame_type t)) r = again r
decoded (err e) r = done (err e) r

-- The payload: a short one is a truncated frame.
unfoldable pub payload_read : ℕ → ℕ → Result IoError (List ℕ) × Reader → Round
payload_read t n (err e, r) = done (ok none) r
payload_read t n (ok payload, r) =
    if length payload == n then decoded (decode_payload t payload) r else done (ok none) r

-- The length of the payload.
unfoldable pub len_read : ℕ → Result IoError (List ℕ) × Reader → Round
len_read t (err e, r) = done (ok none) r
len_read t (ok len_buf, r) =
    payload_read t (from_le_bytes len_buf) (take_to_end (from_le_bytes len_buf) r)

-- The type byte: the one place where an I/O error is reported.
unfoldable pub type_read : Result IoError (List ℕ) × Reader → Round
type_read (err unexpected_eof, r) = done (ok none) r
type_read (err (other k), r) = done (err (io (other k))) r
type_read (ok type_buf, r) = len_read (byte_at 0 type_buf) (read_exact 4 r)

unfoldable pub frame_round : Reader → Round
frame_round r = type_read (read_exact 1 r)

-- The two ends of a pass: its result, or `rest`, the call of `next_frame` on what is left.
unfoldable pub after_round :
    (Reader → Result Error (Option Frame) × Reader) → Round → Result Error (Option Frame) × Reader
after_round rest (done a r) = (a, r)
after_round rest (again r) = rest r

-- The recursion of `next_frame`, on fuel. Each pass that repeats takes five bytes at least.
unfoldable pub next_loop : ℕ → Action Reader (Option Frame)
next_loop zero r = (ok none, r)
next_loop (suc fuel) r = after_round (λ r'. next_loop fuel r') (frame_round r)

unfoldable pub next_frame : Action Reader (Option Frame)
next_frame r = next_loop (suc (length r.bytes)) r

-- What the body of a loop over the reader does with each item; `rest` is the loop from there on.
unfoldable pub each_frame :
    {S : Type 0}
    → (S → Reader → Result Error S)
    → (S → Frame → S)
    → S
    → Result Error (Option Frame) × Reader
    → Result Error S
each_frame rest body s (ok none, r) = ok s
each_frame rest body s (ok (some f), r) = rest (body s f) r
each_frame rest body s (err e, r) = err e

-- `for frame in FrameReader { let frame = frame?; … }`, the loop of every client, over its own state.
unfoldable pub for_each_loop : {S : Type 0} → ℕ → (S → Frame → S) → S → Reader → Result Error S
for_each_loop zero body s r = ok s
for_each_loop (suc fuel) body s r =
    each_frame (λ s' r'. for_each_loop fuel body s' r') body s (next_frame r)

unfoldable pub for_each_frame : {S : Type 0} → (S → Frame → S) → S → Reader → Result Error S
for_each_frame body s r = for_each_loop (suc (length r.bytes)) body s r

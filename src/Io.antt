-- ===== src/Io.antt =====
-- `std::io` as the code uses it. A reader holds the bytes that are still to come and how they end.
-- A writer holds the bytes handed over so far and a plan of what each further call meets: an entry
-- `some (k, e)` lets the first `k` bytes through and then fails with `e`; past the plan's end every
-- call succeeds. A `Vec<u8>` is a writer with an empty plan.
use foldback.Prelude.{ℕ, Option, none, some, List, [], ◌∷◌, ◌++◌, leb, if◌then◌else◌, length}
use foldback.Prelude.{take, drop, ◌-◌, ◌≤◌, length-drop, arith}
use foldback.Error.{IoError, unexpected_eof, Error, io, Result, ok, err}

pub data Ending : Type 0 where
  eof : Ending
  broken : IoError → Ending

pub record Reader : Type 0 where
  pub bytes : List ℕ
  pub ending : Ending

abbrev pub ending_error : Ending → IoError
ending_error eof = unexpected_eof
ending_error (broken e) = e

-- `Read::read_exact` into a buffer of `n` bytes.
unfoldable pub read_exact : ℕ → Reader → Result IoError (List ℕ) × Reader
read_exact n r =
    if leb n (length r.bytes)
    then (ok (take n r.bytes), record r { bytes = drop n r.bytes })
    else (err (ending_error r.ending), record r { bytes = [] })

-- What `read_to_end` gives where the bytes end: the bytes, or the error behind them.
abbrev pub short_read : Ending → List ℕ → Result IoError (List ℕ)
short_read eof bs = ok bs
short_read (broken e) bs = err e

-- `Read::take(n)` and then `read_to_end`.
unfoldable pub take_to_end : ℕ → Reader → Result IoError (List ℕ) × Reader
take_to_end n r =
    if leb n (length r.bytes)
    then (ok (take n r.bytes), record r { bytes = drop n r.bytes })
    else (short_read r.ending r.bytes, record r { bytes = [] })

-- Neither read leaves more than the bytes behind the `n` that it asks for.
pub read_exact_left : (n : ℕ) (r : Reader) → length (read_exact n r).1.bytes ≤ length r.bytes - n
unfolding read_exact
read_exact_left n r = ground (arith, length-drop n r.bytes)

pub take_to_end_left : (n : ℕ) (r : Reader) → length (take_to_end n r).1.bytes ≤ length r.bytes - n
unfolding take_to_end
take_to_end_left n r = ground (arith, length-drop n r.bytes)

pub record Writer : Type 0 where
  pub written : List ℕ
  pub plan : List (Option (ℕ × IoError))

unfoldable pub write_plan :
    List (Option (ℕ × IoError)) → List ℕ → List ℕ → Result Error (Unit {0}) × Writer
write_plan [] bs out = (ok tt, record { written = out ++ bs; plan = [] })
write_plan (none ∷ plan) bs out = (ok tt, record { written = out ++ bs; plan = plan })
write_plan (some (k, e) ∷ plan) bs out =
    (err (io e), record { written = out ++ take k bs; plan = plan })

-- `Write::write_all`, its error converted by `?`.
unfoldable pub write_all : List ℕ → Writer → Result Error (Unit {0}) × Writer
unfolding write_plan
write_all bs w = write_plan w.plan bs w.written

-- `Write::flush` meets the plan as a write of nothing does.
unfoldable pub flush : Writer → Result Error (Unit {0}) × Writer
unfolding write_all
flush w = write_all [] w

abbrev pub vec : List ℕ → Writer
vec bs = record { written = bs; plan = [] }

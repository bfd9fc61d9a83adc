-- ===== src/Ffi/Codes.antt =====
-- crates/foldback-sys/src/lib.rs: the status codes of the C interface.
use foldback.Prelude.{ℕ, ◌-◌, ◌^◌}

pub data Status : Type 0 where
  ok null_pointer invalid_utf8 io panic : Status

-- The code of a status: the bits of an `i32`, in which `-1` is `2 ^ 32 - 1`.
abbrev pub code : Status → ℕ
code Status.ok = 0
code Status.null_pointer = 2 ^ 32 - 1
code Status.invalid_utf8 = 2 ^ 32 - 2
code Status.io = 2 ^ 32 - 3
code Status.panic = 2 ^ 32 - 4

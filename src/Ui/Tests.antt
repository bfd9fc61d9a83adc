-- ===== src/Ui/Tests.antt =====
-- The small file, without its last byte, in the viewer.
use foldback.Prelude.{◌≡◌, refl, [], ◌∷◌, ◌++◌}
use foldback.Prelude.Utf8.{Text}
use foldback.Error.{IoError, Result, ok}
use foldback.Io.{Reader, eof}
use foldback.Format.Header.{header_bytes}
use foldback.Format.Stream.Chunks.{reading}
use foldback.Format.Tests.{header, front}
use foldback.Cli.Report.{analyze}
use foldback.Ui.{load, hex_bytes, hex_digits}
use foldback.Ui.Agreement.{Agree, load-analyze}

hex_bytes_ff : hex_bytes (255 ∷ 10 ∷ []) ≡ b'f' ∷ b'f' ∷ b'0' ∷ b'a' ∷ []
unfolding hex_bytes hex_digits
hex_bytes_ff = refl

abbrev open_small : Text → Result IoError Reader
open_small path = ok (reading (header_bytes header ++ front) eof)

load-analyze_example : Agree (load open_small (λ p. p) []) (analyze open_small [])
load-analyze_example = load-analyze open_small (λ p. p) []

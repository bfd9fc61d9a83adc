-- ===== src/Prelude/Utf8.antt =====
-- Well-formed UTF-8, as `String::from_utf8` decides it: a Rust `String` is a list of bytes that
-- passes this test. The second byte's range depends on the first (no overlong forms, no surrogates,
-- nothing above U+10FFFF).
use Prim.Native.Char.{code}
use Prim.Native.String.{String}
use Prim.Native.Nat.{ℕ}
use mathlib.Core.Path.{◌≡◌}
use mathlib.Core.Bool.{Bool, true, false, ◌&&◌}
use mathlib.Core.Option.{Option, none, some}
use mathlib.Core.Logic.{inl, inr}
use mathlib.Core.List.{List, [], ◌∷◌, ◌++◌}
use native.Mathlib.Omega.{arith}
use package.foldback.Prelude.Tests.{ltb, leb, ◌==◌, Option-cases, if◌then◌else◌}

-- The bytes of a `String`.
abbrev pub Text : Type 0
Text = List ℕ

abbrev pub tail_byte : ℕ × ℕ
tail_byte = (0x80, 0xbf)

-- The ranges of the bytes that must follow a lead byte; `none` for a byte that leads nothing.
unfoldable pub followers : ℕ → Option (List (ℕ × ℕ))
followers b =
    if ltb b 0x80
    then some []
    else if ltb b 0xc2
    then none
    else if ltb b 0xe0
    then some (tail_byte ∷ [])
    else if b == 0xe0
    then some ((0xa0, 0xbf) ∷ tail_byte ∷ [])
    else if b == 0xed
    then some ((0x80, 0x9f) ∷ tail_byte ∷ [])
    else if ltb b 0xf0
    then some (tail_byte ∷ tail_byte ∷ [])
    else if b == 0xf0
    then some ((0x90, 0xbf) ∷ tail_byte ∷ tail_byte ∷ [])
    else if ltb b 0xf4
    then some (tail_byte ∷ tail_byte ∷ tail_byte ∷ [])
    else if b == 0xf4
    then some ((0x80, 0x8f) ∷ tail_byte ∷ tail_byte ∷ [])
    else none

-- The first argument holds the ranges that the current character still wants.
unfoldable pub scan_utf8 : List (ℕ × ℕ) → List ℕ → Bool
scan_utf8 [] [] = true
scan_utf8 (r ∷ rs) [] = false
scan_utf8 [] (b ∷ bs) = elim (followers b) [ none ↦ false | some rs ↦ scan_utf8 rs bs ]
scan_utf8 ((lo, hi) ∷ rs) (b ∷ bs) = leb lo b && leb b hi && scan_utf8 rs bs

unfoldable pub is_utf8 : List ℕ → Bool
unfolding scan_utf8 followers
is_utf8 = scan_utf8 []

abbrev pub IsUtf8 : Text → Type 0
IsUtf8 s = is_utf8 s ≡ true

scan_utf8-append :
    (rs : List (ℕ × ℕ)) (s t : Text)
    → scan_utf8 rs s ≡ true
    → scan_utf8 [] t ≡ true
    → scan_utf8 rs (s ++ t) ≡ true
unfolding scan_utf8
scan_utf8-append [] [] t hs ht = ht
scan_utf8-append (r ∷ rs) [] t hs ht = cc
scan_utf8-append [] (b ∷ bs) t hs ht = elim (Option-cases (followers b)) [
  | inl e ↦ ground arith
  | inr (rs, e) ↦ rw (e, scan_utf8) (scan_utf8-append rs bs t (ground arith) ht)
]
scan_utf8-append ((lo, hi) ∷ rs) (b ∷ bs) t hs ht = ground (arith, scan_utf8-append rs bs t)

-- Text joined to text is text.
pub IsUtf8-append : (s t : Text) → IsUtf8 s → IsUtf8 t → IsUtf8 (s ++ t)
unfolding is_utf8
IsUtf8-append s t hs ht = scan_utf8-append [] s t hs ht

-- The bytes of a literal, which is ASCII.
abbrev pub ascii : String → Text
ascii String.[] = []
ascii (String.◌∷◌ c s) = code c ∷ ascii s

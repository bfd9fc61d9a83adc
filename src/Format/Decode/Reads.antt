-- ===== src/Format/Decode/Reads.antt =====
-- What a step of the cursor reads: `Reads m s a` says that before the bytes `s`, whatever follows
-- them, `m` succeeds with `a` and stops exactly behind `s`. Steps in a row read their bytes in a row.
use foldback.Prelude.{ℕ, ◌+◌, ◌%◌, ◌^◌, ◌≤◌, ◌<◌, ◌≡◌, refl, ap, ◌∙◌, subst, arith}
use foldback.Prelude.{List, [], ◌++◌, length, drop, append_assoc, length-append, length-drop}
use foldback.Prelude.{drop-add, take-append, drop-append, ltb_of_le, if◌then◌else◌}
use foldback.Prelude.Bytes.{to_le_bytes, from_le_bytes, length-to_le_bytes, from-to_le_bytes}
use foldback.Prelude.Bytes.{IsU16, IsU32, IsU64}
use foldback.Prelude.Utf8.{Text, is_utf8}
use foldback.Error.{ok, malformed_frame}
use foldback.Action.{Action, ◌>>=◌, pure, fail, bind_ok}
use foldback.Format.Frame.{len_bytes, IsBlob, IsName}
use foldback.Format.Decode.{Cursor, take, take_u16, take_u32, take_u64, take_bytes, take_string}

-- The cursor stands inside its buffer, before the bytes `s`.
pub record At (c : Cursor) (s : List ℕ) : Type 0 where
  pub inside : c.pos ≤ length c.buf
  pub rest : drop c.pos c.buf ≡ s

abbrev pub Reads : {A : Type 0} → Action Cursor A → List ℕ → A → Type 0
Reads m s a =
    (c : Cursor) (post : List ℕ)
    → At c (s ++ post)
    → (c' : Cursor) × (m c ≡ (ok a, c')) × At c' post

pub pure-Reads : {A : Type 0} (a : A) → Reads (pure a) [] a
pure-Reads a c post h = (c, refl, h)

pub bind-Reads :
    {A B : Type 0} (m : Action Cursor A) (f : A → Action Cursor B) (s t : List ℕ) (a : A) (b : B)
    → Reads m s a
    → Reads (f a) t b
    → Reads (m >>= f) (s ++ t) b
bind-Reads m f s t a b hm hf c post h =
    let (c', e, h') = hm c (t ++ post) (subst (At c) (append_assoc s t post) h) in
    let (c'', e', h'') = hf c' post h' in (c'', bind_ok m f e ∙ e', h'')

At-room : (c : Cursor) (s post : List ℕ) → At c (s ++ post) → c.pos + length s ≤ length c.buf
At-room c s post h =
    omega (arith, ap length h.rest, length-drop c.pos c.buf, length-append s post, h.inside)

pub take-Reads : (n : ℕ) (s : List ℕ) → length s ≡ n → Reads (take n) s s
unfolding take
take-Reads n s len c post h = (
  record c { pos = c.pos + n },
  rw (ltb_of_le (length c.buf) (c.pos + n) (omega (arith, At-room c s post h)), h.rest)
      (ap (λ x. (ok x, record c { pos = c.pos + n })) (take-append n s post len)),
  record {
    inside = omega (arith, At-room c s post h);
    rest = drop-add c.pos n c.buf ∙ ap (drop n) h.rest ∙ drop-append n s post len;
  },
)

-- Reading `n` bytes and turning them into a number reads back the number's bytes.
word-Reads :
    (n x : ℕ) → x < 256 ^ n → Reads (take n >>= λ bs. pure (from_le_bytes bs)) (to_le_bytes n x) x
word-Reads n x fits c post h =
    let (c', e, h') = take-Reads n (to_le_bytes n x) (length-to_le_bytes n x) c post h in
    (
      c',
      bind_ok (take n) (λ bs. pure (from_le_bytes bs)) e
          ∙ ap (λ y. (ok y, c')) (from-to_le_bytes n x fits),
      h',
    )

pub take_u16-Reads : (x : ℕ) → IsU16 x → Reads take_u16 (to_le_bytes 2 x) x
unfolding take_u16
take_u16-Reads x fits = word-Reads 2 x fits

pub take_u32-Reads : (x : ℕ) → IsU32 x → Reads take_u32 (to_le_bytes 4 x) x
unfolding take_u32
take_u32-Reads x fits = word-Reads 4 x fits

pub take_u64-Reads : (x : ℕ) → IsU64 x → Reads take_u64 (to_le_bytes 8 x) x
unfolding take_u64
take_u64-Reads x fits = word-Reads 8 x fits

pub take_bytes-Reads : (bs : List ℕ) → IsBlob bs → Reads take_bytes (len_bytes bs ++ bs) bs
unfolding take_bytes
take_bytes-Reads bs fits =
    bind-Reads take_u32 take (len_bytes bs) bs (length bs) bs
      (rw e (take_u32-Reads (length bs) fits.1)) (take-Reads (length bs) bs refl)
  where
    e : length bs % 2 ^ 32 ≡ length bs
    e = omega (arith, fits.1)

pub take_string-Reads : (s : Text) → IsName s → Reads take_string (len_bytes s ++ s) s
unfolding take_string
take_string-Reads s fits c post h =
    let (c', e, h') = take_bytes-Reads s fits.0 c post h in
    (c', bind_ok take_bytes check e ∙ rw fits.1 refl, h')
  where
    check : List ℕ → Action Cursor Text
    check bytes = if is_utf8 bytes then pure bytes else fail malformed_frame

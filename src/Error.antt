-- ===== src/Error.antt =====
-- crates/foldback-core/src/error.rs: the library's error type, results, and `?` as a bind.
use foldback.Prelude.{ℕ, ◌≡◌, refl, ◌⊎◌, inl, inr}
use foldback.Prelude.Utf8.{Text}

-- The kinds of `std::io::Error` that the code tells apart.
pub data IoError : Type 0 where
  unexpected_eof : IoError
  other : ℕ → IoError

pub data Error : Type 0 where
  truncated_header bad_magic malformed_frame : Error
  unknown_frame_type : ℕ → Error
  corrupt_snapshot : Error
  reflection_depth_exceeded : Text → ℕ → Error
  reflection_cycle_detected : Text → Error
  reflection_root_not_struct : Error
  io : IoError → Error

pub data Result {ℓ κ} (E : Type ℓ) (A : Type κ) : Type (ℓ ⊔ κ) where
  ok : A → Result E A
  err : E → Result E A

infixl 5 ◌>>=◌
abbrev pub ◌>>=◌ {ℓ} : {E A B : Type ℓ} → Result E A → (A → Result E B) → Result E B
ok a >>= f = f a
err e >>= f = err e

abbrev pub map_err {ℓ} : {D E A : Type ℓ} → (D → E) → Result D A → Result E A
map_err f (ok a) = ok a
map_err f (err e) = err (f e)

pub Result-cases {ℓ} :
    {E A : Type ℓ} (r : Result E A) → ((a : A) × (r ≡ ok a)) ⊎ ((e : E) × (r ≡ err e))
Result-cases (ok a) = inl (a, refl)
Result-cases (err e) = inr (e, refl)

-- A sequence that succeeds: so did its first step.
pub bind_inv {ℓ} :
    {E A B : Type ℓ} (r : Result E A) (f : A → Result E B) (b : B)
    → (r >>= f) ≡ ok b
    → (a : A) × (r ≡ ok a) × (f a ≡ ok b)
bind_inv (ok a) f b e = (a, refl, e)
bind_inv (err x) f b e = cc

pub ok_injective {ℓ κ} :
    {E : Type ℓ} {A : Type κ} {a b : A} → ◌≡◌ {A = Result E A} (ok a) (ok b) → a ≡ b
ok_injective e = cc e

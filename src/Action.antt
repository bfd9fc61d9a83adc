-- ===== src/Action.antt =====
-- Stateful code that may fail: a `&mut self` method that returns `Result<A, Error>` takes the state
-- and returns its result with the state that it leaves. `?` is the bind; the state stays changed
-- when a later step fails, as it does in the code.
use foldback.Prelude.{◌≡◌, refl, ap}
use foldback.Error.{Error, Result, ok, err}

abbrev pub Action : Type 0 → Type 0 → Type 0
Action S A = S → Result Error A × S

-- What follows a step: nothing, if the step failed.
abbrev pub after : {S A B : Type 0} → Result Error A × S → (A → Action S B) → Result Error B × S
after (ok a, s) f = f a s
after (err e, s) f = (err e, s)

infixl 5 ◌>>=◌ ◌>>◌
abbrev pub ◌>>=◌ : {S A B : Type 0} → Action S A → (A → Action S B) → Action S B
◌>>=◌ m f s = after (m s) f

abbrev pub ◌>>◌ : {S B : Type 0} → Action S (Unit {0}) → Action S B → Action S B
m >> k = m >>= λ _. k

abbrev pub pure : {S A : Type 0} → A → Action S A
pure a s = (ok a, s)

abbrev pub fail : {S A : Type 0} → Error → Action S A
fail e s = (err e, s)

pub bind_ok :
    {S A B : Type 0} (m : Action S A) (f : A → Action S B) {s s' : S} {a : A}
    → m s ≡ (ok a, s')
    → (m >>= f) s ≡ f a s'
bind_ok m f e = ap (λ x. after x f) e

pub bind_err :
    {S A B : Type 0} (m : Action S A) (f : A → Action S B) {s s' : S} {e : Error}
    → m s ≡ (err e, s')
    → (m >>= f) s ≡ (err e, s')
bind_err m f e = ap (λ x. after x f) e

-- A sequence that succeeds: so did its first step, and the second from where the first ended.
pub bind_inv :
    {S A B : Type 0} (x : Result Error A × S) (f : A → Action S B) (b : B) (s'' : S)
    → after x f ≡ (ok b, s'')
    → (a : A) × (s' : S) × (x ≡ (ok a, s')) × (f a s' ≡ (ok b, s''))
bind_inv (ok a, s') f b s'' e = (a, s', refl, e)
bind_inv (err er, s') f b s'' e = cc

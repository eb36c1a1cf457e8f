-- ===== src/Base/Results.antt =====
-- Errors as values.
use Prim.Native.Nat.{ℕ}
use mathlib.Core.Path.{◌≡◌, refl}
use mathlib.Core.Logic.{◌⊎◌, inl, inr}

-- The gRPC status codes that the program names.
pub data Code : Type 0 where
  canceled unknown invalid_argument deadline_exceeded not_found resource_exhausted : Code
  failed_precondition unimplemented internal unavailable : Code

-- A Go `error`; the texts of messages are left out.
-- `not_exist` is what `os.IsNotExist` accepts, `wrapped` is `fmt.Errorf("...: %w", err)`, and
-- `external` stands for an error of a library or of the operating system.
pub data Error : Type 0 where
  status : Code → Error
  not_exist : Error
  wrapped : Error → Error
  plain : Error
  external : ℕ → Error

pub data Result {ℓ} (A : Type ℓ) : Type ℓ where
  ok : A → Result A
  err : Error → Result A

infixl 5 ◌>>=◌
abbrev pub ◌>>=◌ {ℓ κ} : {A : Type ℓ} {B : Type κ} → Result A → (A → Result B) → Result B
ok a >>= f = f a
err e >>= f = err e

pub Result-cases {ℓ} :
    {A : Type ℓ} (r : Result A) → ((a : A) × (r ≡ ok a)) ⊎ ((e : Error) × (r ≡ err e))
Result-cases (ok a) = inl (a, refl)
Result-cases (err e) = inr (e, refl)

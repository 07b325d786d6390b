-- ===== src/Prelude/Results.antt =====
-- A Go function's `(T, error)`: the value, or the text of the error. A plain `error` is an
-- `Option Bytes`, with `none` for nil.
use mathlib.Core.Option.{Option, none, some}
use netbootd.Prelude.Lists.{Bytes}

pub data Result {ℓ} (A : Type ℓ) : Type ℓ where
  ok : A → Result A
  err : Bytes → Result A

infixl 5 ◌>>=◌
abbrev pub ◌>>=◌ {ℓ κ} : {A : Type ℓ} {B : Type κ} → Result A → (A → Result B) → Result B
ok a >>= f = f a
err e >>= f = err e

-- The error of a call whose value is dropped.
abbrev pub error_of {ℓ} : {A : Type ℓ} → Result A → Option Bytes
error_of (ok a) = none
error_of (err e) = some e

abbrev pub with_error {ℓ} : {A : Type ℓ} → Option Bytes → A → Result A
with_error none a = ok a
with_error (some e) a = err e

-- ===== src/Prelude/Fallible.antt =====
-- `anyhow::Result`: a value, or an error with its message.
use Prim.Native.String.{String, ◌++◌}
use mathlib.Core.Path.{◌≡◌, ap, refl}
use mathlib.Core.Option.{Option, none, some}

pub data Result {ℓ} (A : Type ℓ) : Type ℓ where
  ok : A → Result A
  err : String → Result A

infixl 5 ◌>>=◌
abbrev pub ◌>>=◌ {ℓ κ} : {A : Type ℓ} {B : Type κ} → Result A → (A → Result B) → Result B
ok a >>= f = f a
err e >>= f = err e

-- `ok_or_else`.
abbrev pub ok_or {ℓ} : {A : Type ℓ} → Option A → String → Result A
ok_or none e = err e
ok_or (some a) e = ok a

-- `map_err(|error| format!("{prefix}{error}"))`.
abbrev pub with_prefix {ℓ} : {A : Type ℓ} → String → Result A → Result A
with_prefix prefix (ok a) = ok a
with_prefix prefix (err e) = err (prefix ++ e)

abbrev value_or {ℓ} : {A : Type ℓ} → A → Result A → A
value_or d (ok a) = a
value_or d (err e) = d

pub ok_injective {ℓ} : {A : Type ℓ} (x y : A) → ok x ≡ ok y → x ≡ y
ok_injective x y h = ap (value_or x) h

-- A chain that succeeds passed its first step.
pub bind_ok :
    {A B : Type 0} (r : Result A) (f : A → Result B) (b : B)
    → (r >>= f) ≡ ok b
    → (a : A) × ((r ≡ ok a) × (f a ≡ ok b))
bind_ok (ok a) f b h = (a, (refl, h))
bind_ok (err e) f b h = cc

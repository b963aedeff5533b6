-- ===== src/Prelude/Errors.antt =====
-- Rust's `Result`, with `?` as the monad's bind.
use mathlib.Core.Path.{◌≡◌, refl}
use mathlib.Core.Option.{Option, none, some}

pub data Result {ℓ} (E T : Type ℓ) : Type ℓ where
  ok : T → Result E T
  err : E → Result E T

module _ {ℓ} {E T : Type ℓ} where
  -- `Result::map_err` and `Option::ok_or`.
  abbrev pub map_err : {F : Type ℓ} → (E → F) → Result E T → Result F T
  map_err op (ok t) = ok t
  map_err op (err e) = err (op e)

  abbrev pub ok_or : E → Option T → Result E T
  ok_or e (some t) = ok t
  ok_or e none = err e

infixl 5 ◌>>=◌
abbrev pub ◌>>=◌ {ℓ} : {E T U : Type ℓ} → Result E T → (T → Result E U) → Result E U
err e >>= op = err e
ok t >>= op = op t

pub >>=-eq-ok {ℓ} :
    {E T U : Type ℓ} (m : Result E T) (op : T → Result E U) {u : U}
    → (m >>= op) ≡ ok u
    → (t : T) × (m ≡ ok t) × (op t ≡ ok u)
>>=-eq-ok (err e) op h = cc
>>=-eq-ok (ok t) op h = (t, refl, h)

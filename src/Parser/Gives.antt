-- ===== src/Parser/Gives.antt =====
-- What holds of the value of a result, if it has one.
use ousagi.Parser.Header.{ParseError}
use ousagi.Parser.Keys.{parse_field-ok}
use ousagi.Parser.Tokens.{parse_field}
use ousagi.Prelude.{
  ℕ, ◌≡◌, refl, subst, Bool, true, false, Option, some, Bytes, Result, ok, err, ◌>>=◌, map_err,
  arith, if◌then◌else◌,
}

-- A result whose value, if there is one, satisfies `P`.
abbrev pub Gives : {A : Type 0} → (A → Type 0) → Result ParseError A → Type 0
Gives P (ok a) = P a
Gives P (err e) = Unit

pub Gives-bind :
    {A B : Type 0} (P : B → Type 0) (m : Result ParseError A) (f : A → Result ParseError B)
    → ((a : A) → m ≡ ok a → Gives P (f a))
    → Gives P (m >>= f)
Gives-bind P (ok a) f h = h a refl
Gives-bind P (err e) f h = tt

pub Gives-if :
    {A : Type 0} (P : A → Type 0) (b : Bool) (m n : Result ParseError A)
    → (b ≡ true → Gives P m)
    → (b ≡ false → Gives P n)
    → Gives P (if b then m else n)
Gives-if P true m n f g = f refl
Gives-if P false m n f g = g refl

pub Gives-eq :
    {A : Type 0} (P : A → Type 0) {m : Result ParseError A} {a : A} → Gives P m → m ≡ ok a → P a
Gives-eq P g e = subst (Gives P) e g

pub map_err-ok :
    {A D : Type 0} (f : D → ParseError) (m : Result D A) {a : A} → map_err f m ≡ ok a → m ≡ ok a
map_err-ok f (ok a) h = ground arith
map_err-ok f (err e) h = cc

-- The value of a field that is read satisfies what the crate promises.
pub field_ok :
    {T : Type 0} (f : Bytes → Option T × ℕ) (tok : Bytes) (g : Unit {0} → ParseError) {v : T}
    → map_err g (parse_field f tok) ≡ ok v
    → (f tok).0 ≡ some v
field_ok f tok g {v} h = parse_field-ok f tok v (map_err-ok g (parse_field f tok) h)

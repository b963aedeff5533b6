-- ===== src/Text/Decimal.antt =====
-- `to_string` writes decimal digits that `from_utf8`, `trim` and `parse::<u64>` read back.
use ousagi.Prelude.{
  ℕ, zero, suc, ◌+◌, ◌/◌, ◌%◌, ◌^◌, ◌≤◌, ◌<◌, ◌≡◌, refl, ◌≢◌, some, List, [], ◌∷◌, Bytes, All,
  arith, ◌∙◌,
}
use ousagi.Text.{
  digits, to_string, from_utf8, decode, boundary, is_whitespace, trim, trim_end, parse_digits,
  parse_u64,
}

abbrev pub IsDigit : ℕ → Type 0
IsDigit c = (b'0' ≤ c) × (c ≤ b'9')

digits-IsDigit : (f n : ℕ) (out : Bytes) → All IsDigit out → All IsDigit (digits f n out)
unfolding digits
digits-IsDigit zero n out h = h
digits-IsDigit (suc f) n out h =
    let d : IsDigit (b'0' + n % 10) = omega arith in
    ground (arith, digits-IsDigit f (n / 10) ((b'0' + n % 10) ∷ out) (d, h))

pub to_string-IsDigit : (n : ℕ) → All IsDigit (to_string n)
unfolding to_string
to_string-IsDigit n = digits-IsDigit (suc n) n [] tt

digits-ne-nil : (f n : ℕ) (out : Bytes) → out ≢ [] → digits f n out ≢ []
unfolding digits
digits-ne-nil zero n out h = h
digits-ne-nil (suc f) n out h = ground (arith, digits-ne-nil f (n / 10) ((b'0' + n % 10) ∷ out))

pub to_string-ne-nil : (n : ℕ) → to_string n ≢ []
unfolding to_string digits
to_string-ne-nil n = ground (arith, digits-ne-nil n (n / 10) ((b'0' + n % 10) ∷ []))

-- Reading what was written gives back `n`, with `out` still to read.
parse_digits-digits :
    (f n : ℕ) (out : Bytes)
    → n < f
    → n < 2 ^ 64
    → parse_digits (digits f n out) 0 ≡ parse_digits out n
unfolding digits parse_digits
parse_digits-digits zero n out h _ = absurd (omega arith)
parse_digits-digits (suc f) n out h fits =
    ground (arith, parse_digits-digits f (n / 10) ((b'0' + n % 10) ∷ out))

decode-IsDigit : (s : Bytes) → All IsDigit s → decode boundary s ≡ some s
unfolding decode
decode-IsDigit [] h = refl
decode-IsDigit (c ∷ s) h = ground (arith, decode-IsDigit s)

trim_end-IsDigit : (s : List ℕ) → All IsDigit s → trim_end s ≡ s
unfolding trim_end is_whitespace
trim_end-IsDigit [] h = refl
trim_end-IsDigit (c ∷ s) h = ground (arith, trim_end-IsDigit s)

trim-IsDigit : (s : List ℕ) → All IsDigit s → trim s ≡ s
unfolding trim
trim-IsDigit [] h = refl
trim-IsDigit (c ∷ s) h = ground (arith, trim_end-IsDigit (c ∷ s) h)

parse_u64-IsDigit : (s : List ℕ) → All IsDigit s → s ≢ [] → parse_u64 s ≡ parse_digits s 0
unfolding parse_u64
parse_u64-IsDigit [] h ne = absurd (ne refl)
parse_u64-IsDigit (c ∷ []) h ne = refl
parse_u64-IsDigit (c ∷ d ∷ s) h ne = ground arith

pub from_utf8-to_string : (n : ℕ) → from_utf8 (to_string n) ≡ some (to_string n)
unfolding from_utf8
from_utf8-to_string n = decode-IsDigit (to_string n) (to_string-IsDigit n)

-- Every `u64` is read back from its decimal text.
pub parse_u64-to_string : (n : ℕ) → n < 2 ^ 64 → parse_u64 (to_string n) ≡ some n
parse_u64-to_string n fits =
    parse_u64-IsDigit (to_string n) (to_string-IsDigit n) (to_string-ne-nil n)
    ∙ unfold to_string parse_digits in parse_digits-digits (suc n) n [] (omega arith) fits

pub parse_u64-trim-to_string : (n : ℕ) → n < 2 ^ 64 → parse_u64 (trim (to_string n)) ≡ some n
parse_u64-trim-to_string n fits =
    rw (trim-IsDigit (to_string n) (to_string-IsDigit n)) (parse_u64-to_string n fits)

-- ===== src/Parser/Keys.antt =====
-- `validate_key` and `extract_key` of src/parser.rs, and `parse_field`.
use ousagi.Parser.Header.{bad_format, parse_error}
use ousagi.Parser.Tokens.{validate_key, extract_key, parse_field}
use ousagi.Prelude.{
  ℕ, ◌≤◌, ◌<◌, ◌≡◌, refl, subst, ◌≢◌, ◌↔◌, ◌⊎◌, inl, inr, Bool, false, ◌||◌, Option, some, [], ◌∷◌,
  Bytes, length, any, All, ok, err, arith, leb, ◌==◌,
}

-- A byte that a key may hold: no space, no control character.
abbrev pub IsKeyByte : ℕ → Type 0
IsKeyByte b = (0x20 < b) × (b ≢ 0x7f)

abbrev pub IsKey : Bytes → Type 0
IsKey key = (0 < length key) × (length key ≤ 250) × All IsKeyByte key

abbrev bad : ℕ → Bool
bad b = leb b 0x20 || b == 0x7f

any-bad : (key : Bytes) → (any bad key ≡ false) ↔ All IsKeyByte key
unfolding any
any-bad [] = ((λ _. tt), λ _. refl)
any-bad (b ∷ key) = (λ h. ground (arith, (any-bad key).0), λ h. ground (arith, (any-bad key).1))

-- A word is accepted as a key, as it stands, exactly if it has from 1 to 250 bytes and holds no
-- space, no control character and no byte 127.
pub extract_key-IsKey : (key : Bytes) → (extract_key key ≡ ok key) ↔ IsKey key
unfolding extract_key validate_key
extract_key-IsKey key = (λ h. ground (arith, (any-bad key).0), λ h. ground (arith, (any-bad key).1))

-- Nothing else comes out of it, and its refusals are all of one kind.
pub extract_key-cases :
    (key : Bytes) → (extract_key key ≡ ok key) ⊎ (extract_key key ≡ err (parse_error bad_format))
unfolding extract_key validate_key
extract_key-cases key = ground arith

pub extract_key-ok : (w key : Bytes) → extract_key w ≡ ok key → IsKey key
extract_key-ok w key h = elim (extract_key-cases w) [
  | inl e ↦ let same : w ≡ key = cc in subst IsKey same ((extract_key-IsKey w).0 e)
  | inr e ↦ cc
]

pub parse_field-ok :
    {T : Type 0} (f : Bytes → Option T × ℕ) (tok : Bytes) (v : T)
    → parse_field f tok ≡ ok v
    → (f tok).0 ≡ some v
unfolding parse_field
parse_field-ok f tok v h = ground arith

-- A field that is read whole is accepted.
pub parse_field-whole :
    {T : Type 0} (f : Bytes → Option T × ℕ) (tok : Bytes) (v : T)
    → f tok ≡ (some v, length tok)
    → parse_field f tok ≡ ok v
unfolding parse_field
parse_field-whole f tok v h = rw h (ground arith)

-- ===== src/Atoi.antt =====
-- The crate `atoi`, whose `from_radix_10_signed_checked` src/parser.rs calls: at each type it gives
-- the number that a prefix of the text spells, unless that overflows, and how many bytes it read.
use ousagi.Prelude.{ℕ, suc, ◌^◌, ◌<◌, ◌≡◌, Option, some, ◌∷◌, Bytes, ℤ, pos, negsuc, length}
use ousagi.Text.{to_string}

abbrev pub InI64 : ℤ → Type 0
InI64 (pos n) = n < 2 ^ 63
InI64 (negsuc n) = n < 2 ^ 63

-- The text of an `i64`.
unfoldable pub int_to_string : ℤ → Bytes
int_to_string (pos n) = to_string n
int_to_string (negsuc n) = b'-' ∷ to_string (suc n)

pub record Atoi : Type 0 where
  pub u32 : Bytes → Option ℕ × ℕ
  pub u64 : Bytes → Option ℕ × ℕ
  pub usize : Bytes → Option ℕ × ℕ
  pub i64 : Bytes → Option ℤ × ℕ
  -- A number that is returned is one of its type.
  pub u32-lt : (t : Bytes) (n : ℕ) → (u32 t).0 ≡ some n → n < 2 ^ 32
  pub u64-lt : (t : Bytes) (n : ℕ) → (u64 t).0 ≡ some n → n < 2 ^ 64
  pub usize-lt : (t : Bytes) (n : ℕ) → (usize t).0 ≡ some n → n < 2 ^ 64
  pub i64-InI64 : (t : Bytes) (z : ℤ) → (i64 t).0 ≡ some z → InI64 z
  -- The decimal text of a number of the type is read whole, as that number.
  pub u32-to_string : (n : ℕ) → n < 2 ^ 32 → u32 (to_string n) ≡ (some n, length (to_string n))
  pub u64-to_string : (n : ℕ) → n < 2 ^ 64 → u64 (to_string n) ≡ (some n, length (to_string n))
  pub usize-to_string : (n : ℕ) → n < 2 ^ 64 → usize (to_string n) ≡ (some n, length (to_string n))
  pub i64-to_string : (z : ℤ) → InI64 z → i64 (int_to_string z) ≡ (some z, length (int_to_string z))

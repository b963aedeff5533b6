-- ===== src/Text.antt =====
-- What src/store.rs and src/stats.rs use of Rust's standard strings: `to_string` of an unsigned
-- integer, `str::from_utf8`, `str::trim` and `str::parse::<u64>`. A `str` is its code points.
pub mod Decimal
use ousagi.Prelude.{
  ℕ, zero, suc, ◌+◌, ◌-◌, ◌*◌, ◌/◌, ◌%◌, ◌^◌, Bool, true, false, ◌&&◌, ◌||◌, Option, none, some,
  List, [], ◌∷◌, Bytes, ltb, leb, ◌==◌, if◌then◌else◌,
}

-- Writes the digits of `n` in front of `out`; `to_string` gives a round more than the digits need.
unfoldable pub digits : ℕ → ℕ → Bytes → Bytes
digits zero n out = out
digits (suc fuel) n out =
    let out' = (b'0' + n % 10) ∷ out in
    let rest = digits fuel (n / 10) out' in if ltb n 10 then out' else rest

unfoldable pub to_string : ℕ → Bytes
unfolding digits
to_string n = digits (suc n) n []

-- The decoder's state: continuation bytes to come, the range of the next one, and the bits so far.
record Utf8 : Type 0 where
  need : ℕ
  lo : ℕ
  hi : ℕ
  bits : ℕ

abbrev boundary : Utf8
boundary = record { need = 0; lo = 0x80; hi = 0xbf; bits = 0 }

abbrev lead : ℕ → ℕ → ℕ → ℕ → Option (Option ℕ × Utf8)
lead need lo hi bits = some (none, record { need = need; lo = lo; hi = hi; bits = bits })

-- A byte at a character's start.
utf8_start : ℕ → Option (Option ℕ × Utf8)
utf8_start b =
    if ltb b 0x80
    then some (some b, boundary)
    else if leb 0xc2 b && leb b 0xdf
    then lead 1 0x80 0xbf (b - 0xc0)
    else if b == 0xe0
    then lead 2 0xa0 0xbf 0
    else if b == 0xed
    then lead 2 0x80 0x9f 0xd
    else if leb 0xe1 b && leb b 0xef
    then lead 2 0x80 0xbf (b - 0xe0)
    else if b == 0xf0
    then lead 3 0x90 0xbf 0
    else if leb 0xf1 b && leb b 0xf3
    then lead 3 0x80 0xbf (b - 0xf0)
    else if b == 0xf4
    then lead 3 0x80 0x8f 4
    else none

utf8_step : Utf8 → ℕ → Option (Option ℕ × Utf8)
unfolding utf8_start
utf8_step st b =
    if st.need == 0
    then utf8_start b
    else if leb st.lo b && leb b st.hi
    then (let bits = st.bits * 64 + (b - 0x80) in
        if st.need == 1 then some (some bits, boundary) else lead (st.need - 1) 0x80 0xbf bits)
    else none

push_char : Option ℕ → Option (List ℕ) → Option (List ℕ)
push_char _ none = none
push_char none (some cs) = some cs
push_char (some c) (some cs) = some (c ∷ cs)

decode : Utf8 → Bytes → Option (List ℕ)
unfolding utf8_step push_char
decode st [] = if st.need == 0 then some [] else none
decode st (b ∷ bs) = elim (utf8_step st b) [
  | none ↦ none
  | some (c, st') ↦ push_char c (decode st' bs)
]

-- `std::str::from_utf8`.
unfoldable pub from_utf8 : Bytes → Option (List ℕ)
unfolding decode
from_utf8 = decode boundary

-- Unicode's White_Space.
unfoldable pub is_whitespace : ℕ → Bool
is_whitespace c =
    (leb 9 c && leb c 13)
    || c == 0x20
    || c == 0x85
    || c == 0xa0
    || c == 0x1680
    || (leb 0x2000 c && leb c 0x200a)
    || c == 0x2028
    || c == 0x2029
    || c == 0x202f
    || c == 0x205f
    || c == 0x3000

unfoldable pub trim_start : List ℕ → List ℕ
trim_start [] = []
trim_start (c ∷ cs) = if is_whitespace c then trim_start cs else c ∷ cs

unfoldable pub trim_end : List ℕ → List ℕ
trim_end [] = []
trim_end (c ∷ cs) = elim (trim_end cs) [
  | [] ↦ if is_whitespace c then [] else c ∷ []
  | d ∷ ds ↦ c ∷ d ∷ ds
]

-- `str::trim`.
unfoldable pub trim : List ℕ → List ℕ
unfolding is_whitespace trim_start trim_end
trim s = trim_end (trim_start s)

-- Digits behind the number `n`; a digit that would pass the largest `u64` is an error.
unfoldable pub parse_digits : List ℕ → ℕ → Option ℕ
parse_digits [] n = some n
parse_digits (c ∷ cs) n =
    if (leb b'0' c && leb c b'9') && ltb (n * 10 + (c - b'0')) (2 ^ 64)
    then parse_digits cs (n * 10 + (c - b'0'))
    else none

-- `str::parse::<u64>`: one `+` may stand in front of the digits, of which there is at least one.
unfoldable pub parse_u64 : List ℕ → Option ℕ
unfolding parse_digits
parse_u64 [] = none
parse_u64 (c ∷ []) = parse_digits (c ∷ []) 0
parse_u64 (c ∷ d ∷ cs) = if c == b'+' then parse_digits (d ∷ cs) 0 else parse_digits (c ∷ d ∷ cs) 0

-- ===== src/Parser/Tokens.antt =====
-- src/parser.rs: the tokenizer, and what is read from a token. The tokenizer is read to its end by
-- the function that takes it last, so only `next` returns it.
use ousagi.Parser.Header.{max_key_len, bad_format, ParseError, parse_error}
use ousagi.Prelude.{
  ℕ, Bool, true, false, ◌||◌, Option, none, some, [], ◌∷◌, Bytes, codes, length, take, drop, get_or,
  any, position, bytes_eq, Result, ok, err, ◌>>=◌, map_err, ok_or, ltb, leb, ◌==◌, if◌then◌else◌,
}

-- `line` is what the keys are slices of.
pub record Tokenizer : Type 0 where
  pub line : Bytes
  pub rest : Bytes

abbrev pub tokenizer : Bytes → Tokenizer
tokenizer line = record { line = line; rest = line }

unfoldable pub skip_spaces : Bytes → Bytes
skip_spaces [] = []
skip_spaces (b ∷ bs) = if b == b' ' then skip_spaces bs else b ∷ bs

abbrev pub is_space : ℕ → Bool
is_space b = b == b' '

unfoldable pub take_token : Tokenizer → Bytes → Option Bytes × Tokenizer
take_token t [] = (none, record t { rest = [] })
take_token t (b ∷ bs) =
    let pos = get_or (position is_space (b ∷ bs)) (length (b ∷ bs)) in
    (some (take pos (b ∷ bs)), record t { rest = drop pos (b ∷ bs) })

-- `Iterator::next` of `Tokenizer`.
unfoldable pub next : Tokenizer → Option Bytes × Tokenizer
unfolding skip_spaces take_token
next t = take_token t (skip_spaces t.rest)

unfoldable pub validate_key : Bytes → Result (Unit {0}) (Unit {0})
validate_key key =
    if length key == 0 || ltb max_key_len (length key)
    then err tt
    else if any (λ b. leb b 0x20 || b == 0x7f) key
    then err tt
    else ok tt

-- `Tokenizer::extract_key`: `slice_ref` is the same bytes, shared with the line.
unfoldable pub extract_key : Bytes → Result ParseError Bytes
extract_key key = do _ ← map_err (λ _. parse_error bad_format) (validate_key key); ok key

-- `parse_field::<T>` over the reading of type `T`.
unfoldable pub parse_field : {T : Type 0} → (Bytes → Option T × ℕ) → Bytes → Result (Unit {0}) T
parse_field from_radix_10_signed_checked tok =
    let (value, used) = from_radix_10_signed_checked tok in
    if used == length tok then ok_or tt value else err tt

unfoldable pub expect_end : Tokenizer → Result ParseError (Unit {0})
expect_end t = elim (next t).0 [ none ↦ ok tt | some _ ↦ err (parse_error bad_format) ]

unfoldable pub parse_noreply : Tokenizer → Result ParseError Bool
unfolding expect_end
parse_noreply t = elim (next t).0 [
  | none ↦ ok false
  | some w ↦
      if bytes_eq w (codes "noreply")
      then (do _ ← expect_end (next t).1; ok true)
      else err (parse_error bad_format)
]

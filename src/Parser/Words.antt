-- ===== src/Parser/Words.antt =====
-- The words of a line, and the tokenizer of src/parser.rs against them.
use mathlib.Core.List.{tail}
use ousagi.Parser.Tokens.{Tokenizer, next, take_token, skip_spaces, is_space}
use ousagi.Prelude.{
  ℕ, ◌+◌, ◌≤◌, ◌≡◌, refl, false, Option, none, some, List, [], ◌∷◌, Bytes, length, take, drop,
  get_or, position, arith, ◌==◌, if◌then◌else◌,
}

-- A word in front of words, unless it is empty.
abbrev pub cons_word : Bytes → List Bytes → List Bytes
cons_word [] ws = ws
cons_word (b ∷ bs) ws = (b ∷ bs) ∷ ws

abbrev grow : ℕ → Bytes × List Bytes → Bytes × List Bytes
grow b (w, ws) = if b == b' ' then ([], cons_word w ws) else (b ∷ w, ws)

-- The bytes before the first space, and the words behind them.
unfoldable pub split_line : Bytes → Bytes × List Bytes
split_line [] = ([], [])
split_line (b ∷ bs) = grow b (split_line bs)

-- The maximal runs of bytes other than the space, in order.
unfoldable pub words : Bytes → List Bytes
unfolding split_line
words s = cons_word (split_line s).0 (split_line s).1

abbrev pub first : List Bytes → Option Bytes
first [] = none
first (w ∷ ws) = some w

words-skip_spaces : (s : Bytes) → words (skip_spaces s) ≡ words s
unfolding words skip_spaces
words-skip_spaces [] = refl
words-skip_spaces (b ∷ s) = ground (arith, words-skip_spaces s)

abbrev token_end : Bytes → ℕ
token_end s = get_or (position is_space s) (length s)

split_line-token_end :
    (s : Bytes)
    → ((split_line s).0 ≡ take (token_end s) s) × ((split_line s).1 ≡ words (drop (token_end s) s))
unfolding words position
split_line-token_end [] = (refl, refl)
split_line-token_end (b ∷ s) = ground (arith, split_line-token_end s)

-- What is left after the leading spaces starts with no space.
IsTrimmed : Bytes → Type 0
IsTrimmed [] = Unit
IsTrimmed (b ∷ _) = is_space b ≡ false

skip_spaces-IsTrimmed : (s : Bytes) → IsTrimmed (skip_spaces s)
unfolding skip_spaces IsTrimmed
skip_spaces-IsTrimmed [] = tt
skip_spaces-IsTrimmed (b ∷ s) = ground (arith, skip_spaces-IsTrimmed s)

take_token_lem :
    (t : Tokenizer) (s : Bytes)
    → IsTrimmed s
    → ((take_token t s).0 ≡ first (words s)) × (words (take_token t s).1.rest ≡ tail (words s))
unfolding take_token words position IsTrimmed
take_token_lem t [] h = (refl, refl)
take_token_lem t (b ∷ s) h = ground (arith, split_line-token_end s)

-- The next token is the first word, and the rest of the line has the others.
pub next-first : (t : Tokenizer) → (next t).0 ≡ first (words t.rest)
unfolding next
next-first t =
    rw (← words-skip_spaces t.rest)
      (take_token_lem t (skip_spaces t.rest) (skip_spaces-IsTrimmed t.rest)).0

pub words-next : (t : Tokenizer) → words (next t).1.rest ≡ tail (words t.rest)
unfolding next
words-next t =
    rw (← words-skip_spaces t.rest)
      (take_token_lem t (skip_spaces t.rest) (skip_spaces-IsTrimmed t.rest)).1

-- No word is empty.
split_line-length : (s : Bytes) → length (split_line s).0 + length (split_line s).1 ≤ length s
unfolding split_line
split_line-length [] = omega arith
split_line-length (b ∷ s) = ground (arith, split_line-length s)

-- A line has at most as many words as bytes.
pub length-words : (s : Bytes) → length (words s) ≤ length s
unfolding words
length-words s = ground (arith, split_line-length s)

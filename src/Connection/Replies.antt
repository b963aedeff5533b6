-- ===== src/Connection/Replies.antt =====
-- The answers of src/connection.rs to `get`, `gets`, `gat` and `gats`, as a client reads them.
use mathlib.Core.List.{append_assoc}
use ousagi.Commands.{Value, Response}
use ousagi.Connection.Answers.{write_response, parts, value_parts}
use ousagi.Connection.Frames.{first_line}
use ousagi.Connection.Plain.{
  IsPlain, first_line-crlf, strip_end-crlf, join-IsPlain, to_string-IsPlain, key-IsPlain,
  take-length-append, drop-length-append,
}
use ousagi.Connection.Reads.{Connection, strip_end}
use ousagi.Connection.Accepted.{accepted}
use ousagi.Connection.Texts.{text, write_response-text}
use ousagi.Connection.Streams.{Streams}
use ousagi.Parser.Keys.{IsKey}
use ousagi.Parser.Lines.{IsWord, join, words-join}
use ousagi.Parser.Printing.{literal-IsWord, to_string-IsWord, key-IsWord}
use ousagi.Parser.WellFormed.{◌&◌}
use ousagi.Parser.Words.{words, split_line}
use ousagi.Prelude.{
  ℕ, zero, suc, ◌^◌, ◌<◌, ◌≡◌, refl, ap, ◌∙◌, Option, none, some, List, [], ◌∷◌, ◌++◌, Bytes, codes,
  bytes_eq, length, take, drop, All, arith, if◌then◌else◌,
}
use ousagi.Text.{to_string, parse_u64}
use ousagi.Text.Decimal.{parse_u64-to_string}

-- A line of the answer.
pub data ReplyLine : Type 0 where
  end : ReplyLine
  value : Bytes → ℕ → ℕ → Option ℕ → ReplyLine

abbrev with_number : Option ℕ → (ℕ → Option ReplyLine) → Option ReplyLine
with_number none f = none
with_number (some n) f = f n

abbrev reply_line : List Bytes → Option ReplyLine
reply_line (w ∷ []) = if bytes_eq w (codes "END") then some end else none
reply_line (w ∷ key ∷ flags ∷ len ∷ []) =
    if bytes_eq w (codes "VALUE")
    then with_number (parse_u64 flags)
        (λ f. with_number (parse_u64 len) λ l. some (value key f l none))
    else none
reply_line (w ∷ key ∷ flags ∷ len ∷ cas ∷ []) =
    if bytes_eq w (codes "VALUE")
    then with_number (parse_u64 flags) (λ f.
      with_number (parse_u64 len)
        λ l. with_number (parse_u64 cas) λ c. some (value key f l (some c)))
    else none
reply_line _ = none

abbrev put_first : Value → Option (List Value) → Option (List Value)
put_first v none = none
put_first v (some vs) = some (v ∷ vs)

-- Lines, and behind each but the last its payload and a line end.
unfoldable pub read_values : ℕ → Bytes → Option (List Value)
read_values zero s = none
read_values (suc fuel) s = elim (first_line s) [
  | none ↦ none
  | some (raw, rest) ↦ elim (reply_line (words (strip_end raw))) [
    | none ↦ none
    | some end ↦ some []
    | some (value key flags len cas) ↦
        put_first (key, flags, take len rest, cas) (read_values fuel (drop 2 (drop len rest)))
  ]
]

-- A value whose numbers fit and whose key is one.
abbrev pub IsValue : Value → Type 0
IsValue (key, flags, payload, none) = IsKey key × (flags < 2 ^ 64) × (length payload < 2 ^ 64)
IsValue (key, flags, payload, some c) =
    IsKey key × (flags < 2 ^ 64) × (length payload < 2 ^ 64) × (c < 2 ^ 64)

-- The words of the line of a value.
abbrev cas_word : Option ℕ → List Bytes
cas_word none = []
cas_word (some c) = to_string c ∷ []

abbrev value_words : Value → List Bytes
value_words (key, flags, payload, cas) =
    codes "VALUE" ∷ key ∷ to_string flags ∷ to_string (length payload) ∷ cas_word cas

reply_line-value_words :
    (key payload : Bytes) (flags : ℕ) (cas : Option ℕ)
    → IsValue (key, flags, payload, cas)
    → reply_line (value_words (key, flags, payload, cas))
      ≡ some (value key flags (length payload) cas)
unfolding bytes_eq
reply_line-value_words key payload flags none (_, f, l) =
    rw (parse_u64-to_string flags f, parse_u64-to_string (length payload) l) refl
reply_line-value_words key payload flags (some c) (_, f, l, k) =
    rw
      (parse_u64-to_string flags f, parse_u64-to_string (length payload) l, parse_u64-to_string c k)
      refl

value_words-IsWord : (v : Value) → IsValue v → All IsWord (value_words v)
value_words-IsWord (key, flags, payload, none) h =
    literal-IsWord _ _ refl
    & key-IsWord key h.0
    & to_string-IsWord flags
    & to_string-IsWord (length payload)
    & tt
value_words-IsWord (key, flags, payload, some c) h =
    literal-IsWord _ _ refl
    & key-IsWord key h.0
    & to_string-IsWord flags
    & to_string-IsWord (length payload)
    & to_string-IsWord c
    & tt

value_words-IsPlain : (v : Value) → IsValue v → All IsPlain (value_words v)
value_words-IsPlain (key, flags, payload, none) h =
    (omega arith & omega arith & omega arith & omega arith & omega arith & tt)
    & key-IsPlain key h.0
    & to_string-IsPlain flags
    & to_string-IsPlain (length payload)
    & tt
value_words-IsPlain (key, flags, payload, some c) h =
    (omega arith & omega arith & omega arith & omega arith & omega arith & tt)
    & key-IsPlain key h.0
    & to_string-IsPlain flags
    & to_string-IsPlain (length payload)
    & to_string-IsPlain c
    & tt

module _ (S : Streams) where
  -- What is written for a value is its line, its payload and a line end.
  text-value :
      (v : Value) (vs : List Value)
      → text S (Response.values (v ∷ vs))
        ≡ join (value_words v)
          ++ (codes "\r\n" ++ (v.2 ++ (codes "\r\n" ++ text S (Response.values vs))))
  unfolding parts value_parts join
  text-value (key, flags, payload, none) vs = simp (append_assoc, S.format-to_string)
  text-value (key, flags, payload, some c) vs = simp (append_assoc, S.format-to_string)

  -- One round of the reader takes one value.
  read_values-value :
      (fuel : ℕ) (key payload : Bytes) (flags : ℕ) (cas : Option ℕ) (vs : List Value)
      → IsValue (key, flags, payload, cas)
      → read_values (suc fuel) (text S (Response.values ((key, flags, payload, cas) ∷ vs)))
        ≡ put_first (key, flags, payload, cas) (read_values fuel (text S (Response.values vs)))
  unfolding read_values
  read_values-value fuel key payload flags cas vs h =
      let v : Value = (key, flags, payload, cas) in
      let plain = join-IsPlain (value_words v) (value_words-IsPlain v h) in
      let behind = codes "\r\n" ++ text S (Response.values vs) in
      rw
        (
          text-value v vs,
          read_values,
          first_line-crlf (join (value_words v)) (payload ++ behind) plain,
          strip_end-crlf (join (value_words v)) plain,
          words-join (value_words v) (value_words-IsWord v h),
          reply_line-value_words key payload flags cas h,
          take-length-append payload behind,
          drop-length-append payload behind,
        )
        refl

  read_values-text :
      (vs : List Value)
      → All IsValue vs
      → read_values (suc (length vs)) (text S (Response.values vs)) ≡ some vs
  read_values-text [] h =
      unfold read_values first_line strip_end words split_line bytes_eq parts value_parts in refl
  read_values-text ((key, flags, payload, cas) ∷ vs) (h, hs) =
      read_values-value (suc (length vs)) key payload flags cas vs h
      ∙ ap (put_first (key, flags, payload, cas)) (read_values-text vs hs)

  -- If values with valid keys, `u64` flags and tokens and payloads of fewer than 2^64 bytes are
  -- written as a response, then a client that reads lines, and behind each but the last the
  -- announced number of bytes and a line end, reads back those values from what is handed to the
  -- writer, whatever the payloads hold.
  pub read_values-write_response :
      (vs : List Value) (c c' : Connection S)
      → All IsValue vs
      → write_response S (Response.values vs) c ≡ some c'
      → (answer : Bytes) × (accepted S c' ≡ accepted S c ++ answer)
        × (read_values (suc (length vs)) answer ≡ some vs)
  read_values-write_response vs c c' h e = (
    text S (Response.values vs),
    (write_response-text S (Response.values vs) c c' e).1,
    read_values-text vs h,
  )

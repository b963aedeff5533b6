-- ===== src/Parser/Grammar.antt =====
-- The grammar of the command line, over its words: what src/parser.rs accepts and how it refuses,
-- with no tokenizer. `Refines` proves that the parser is this grammar.
use ousagi.Atoi.{Atoi}
use ousagi.Commands.{
  StoreOp, set, add, replace, append, prepend, cas, ArithmeticOp, incr, decr, Command,
}
use ousagi.Parser.Header.{
  add_usize, bad_format, numeric_delta, numeric_delay, too_large, unknown, ParseError, parse_error,
  with_discard, CommandHeader, immediate, store, quit,
}
use ousagi.Parser.Tokens.{extract_key, parse_field}
use ousagi.Prelude.{
  ℕ, String, Bool, true, false, Option, none, some, List, [], ◌∷◌, Bytes, codes, bytes_eq, Result,
  ok, err, ◌>>=◌, map_err, ltb, if◌then◌else◌,
}

-- Nothing may follow.
unfoldable pub end_words : List Bytes → Result ParseError (Unit {0})
end_words [] = ok tt
end_words (_ ∷ _) = err (parse_error bad_format)

-- Nothing, or the one word `noreply`.
unfoldable pub noreply_words : List Bytes → Result ParseError Bool
noreply_words [] = ok false
noreply_words (w ∷ []) =
    if bytes_eq w (codes "noreply") then ok true else err (parse_error bad_format)
noreply_words (_ ∷ _ ∷ _) = err (parse_error bad_format)

-- Every word is a key.
unfoldable pub all_keys : List Bytes → Result ParseError (List Bytes)
all_keys [] = ok []
all_keys (w ∷ ws) = do key ← extract_key w; keys ← all_keys ws; ok (key ∷ keys)

unfoldable pub keys_words : List Bytes → Result ParseError (List Bytes)
unfolding all_keys
keys_words [] = err (parse_error unknown)
keys_words (w ∷ ws) = all_keys (w ∷ ws)

unfoldable pub get_words : Bool → List Bytes → Result ParseError CommandHeader
unfolding keys_words
get_words with_cas ws = do keys ← keys_words ws; ok (immediate (Command.get keys with_cas))

unfoldable pub delete_words : List Bytes → Result ParseError CommandHeader
unfolding noreply_words
delete_words [] = err (parse_error unknown)
delete_words (w ∷ ws) = do
  key ← extract_key w
  noreply ← noreply_words ws
  ok (immediate (Command.delete key noreply))

unfoldable pub only_word : Command → List Bytes → Result ParseError CommandHeader
unfolding end_words
only_word command ws = do _ ← end_words ws; ok (immediate command)

-- What each verb takes.
abbrev pub Verbs : Type 0
Verbs = List (String × (List Bytes → Result ParseError CommandHeader))

-- The first verb of that spelling.
unfoldable pub dispatch : Verbs → Bytes → List Bytes → Result ParseError CommandHeader
dispatch [] op ws = err (parse_error unknown)
dispatch ((name, f) ∷ vs) op ws = if bytes_eq op (codes name) then f ws else dispatch vs op ws

module _ (atoi : Atoi) where
  unfoldable pub get_and_touch_words : Bool → List Bytes → Result ParseError CommandHeader
  unfolding keys_words
  get_and_touch_words with_cas [] = err (parse_error unknown)
  get_and_touch_words with_cas (w ∷ ws) = do
    exptime ← map_err (λ _. parse_error bad_format) (parse_field atoi.i64 w)
    keys ← keys_words ws
    ok (immediate (Command.get_and_touch keys exptime with_cas))

  -- The cas token of `cas`, and the words behind it.
  unfoldable pub cas_words : StoreOp → ℕ → List Bytes → Result ParseError (Option ℕ × List Bytes)
  cas_words cas skip [] = err (with_discard (parse_error bad_format) skip)
  cas_words cas skip (w ∷ ws) = do
    token ← map_err (λ _. with_discard (parse_error bad_format) skip) (parse_field atoi.u64 w)
    ok (some token, ws)
  cas_words _ skip ws = ok (none, ws)

  -- Once the length is known, every refusal says how much payload to skip.
  unfoldable pub pending_words :
      StoreOp → Bytes → Bytes → Bytes → ℕ → List Bytes → Result ParseError CommandHeader
  unfolding cas_words noreply_words
  pending_words op key flags exptime len ws =
      let skip = add_usize len 2 in
      if ltb 1048576 len then err (with_discard (parse_error too_large) skip) else do
        key ← map_err (λ e. with_discard e skip) (extract_key key)
        flags ←
            map_err (λ _. with_discard (parse_error bad_format) skip) (parse_field atoi.u32 flags)
        exptime ←
            map_err (λ _. with_discard (parse_error bad_format) skip) (parse_field atoi.i64 exptime)
        (token, ws) ← cas_words op skip ws
        noreply ← map_err (λ e. with_discard e skip) (noreply_words ws)
        ok (
            store (record {
              op = op;
              key = key;
              flags = flags;
              exptime = exptime;
              len = len;
              cas = token;
              noreply = noreply;
            }))

  unfoldable pub store_words : StoreOp → List Bytes → Result ParseError CommandHeader
  unfolding pending_words
  store_words op (key ∷ flags ∷ exptime ∷ len ∷ ws) = do
    len ← map_err (λ _. parse_error bad_format) (parse_field atoi.usize len)
    pending_words op key flags exptime len ws
  store_words op _ = err (parse_error unknown)

  unfoldable pub arithmetic_words : ArithmeticOp → List Bytes → Result ParseError CommandHeader
  unfolding noreply_words
  arithmetic_words op (key ∷ delta ∷ ws) = do
    key ← extract_key key
    delta ← map_err (λ _. parse_error numeric_delta) (parse_field atoi.u64 delta)
    noreply ← noreply_words ws
    ok (immediate (Command.arithmetic op key delta noreply))
  arithmetic_words op _ = err (parse_error unknown)

  unfoldable pub touch_words : List Bytes → Result ParseError CommandHeader
  unfolding noreply_words
  touch_words (key ∷ exptime ∷ ws) = do
    key ← extract_key key
    exptime ← map_err (λ _. parse_error bad_format) (parse_field atoi.i64 exptime)
    noreply ← noreply_words ws
    ok (immediate (Command.touch key exptime noreply))
  touch_words _ = err (parse_error unknown)

  unfoldable pub flush_all_words : List Bytes → Result ParseError CommandHeader
  unfolding noreply_words
  flush_all_words [] = ok (immediate (Command.flush_all none false))
  flush_all_words (w ∷ ws) =
      if bytes_eq w (codes "noreply") then only_word (Command.flush_all none true) ws else do
        delay ← map_err (λ _. parse_error numeric_delay) (parse_field atoi.u32 w)
        noreply ← noreply_words ws
        ok (immediate (Command.flush_all (some delay) noreply))

  unfoldable pub verbosity_words : List Bytes → Result ParseError CommandHeader
  unfolding noreply_words
  verbosity_words [] = err (parse_error unknown)
  verbosity_words (w ∷ ws) = do
    level ← map_err (λ _. parse_error bad_format) (parse_field atoi.u32 w)
    noreply ← noreply_words ws
    ok (immediate (Command.verbosity level noreply))

  unfoldable pub verbs : Verbs
  unfolding get_words delete_words only_word get_and_touch_words store_words arithmetic_words
      touch_words flush_all_words verbosity_words
  verbs =
      ("get", get_words false)
      ∷ ("gets", get_words true)
      ∷ ("gat", get_and_touch_words false)
      ∷ ("gats", get_and_touch_words true)
      ∷ ("add", store_words add)
      ∷ ("set", store_words set)
      ∷ ("replace", store_words replace)
      ∷ ("append", store_words append)
      ∷ ("prepend", store_words prepend)
      ∷ ("cas", store_words cas)
      ∷ ("delete", delete_words)
      ∷ ("incr", arithmetic_words incr)
      ∷ ("decr", arithmetic_words decr)
      ∷ ("touch", touch_words)
      ∷ ("flush_all", flush_all_words)
      ∷ ("version", only_word Command.version)
      ∷ ("verbosity", verbosity_words)
      ∷ ("stats", only_word Command.stats)
      ∷ ("quit", λ _. ok quit)
      ∷ []

  unfoldable pub command_words : List Bytes → Result ParseError CommandHeader
  unfolding dispatch verbs
  command_words [] = err (parse_error unknown)
  command_words (op ∷ ws) = dispatch verbs op ws

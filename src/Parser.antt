-- ===== src/Parser.antt =====
-- src/parser.rs: the header of a command from a line.
pub mod Header
pub mod Tokens
pub mod Words
pub mod Grammar
pub mod Keys
pub mod Refines
pub mod Gives
pub mod WellFormed
pub mod Lines
pub mod Printing
pub mod RoundTrip
pub mod Skips
pub mod Discards
use ousagi.Atoi.{Atoi}
use ousagi.Commands.{
  StoreOp, set, add, replace, append, prepend, cas, ArithmeticOp, incr, decr, Command,
}
use ousagi.Parser.Header.{
  max_item_size, add_usize, ParseErrorKind, bad_format, numeric_delta, numeric_delay, too_large,
  unknown, ParseError, parse_error, with_discard, CommandHeader, immediate, store, quit,
}
use ousagi.Parser.Tokens.{
  Tokenizer, tokenizer, next, extract_key, parse_field, expect_end, parse_noreply,
}
use ousagi.Prelude.{
  ℕ, zero, suc, ◌+◌, Bool, true, false, ◌||◌, Option, none, some, List, [], ◌∷◌, ◌++◌, Bytes, codes,
  length, bytes_eq, Result, ok, err, ◌>>=◌, map_err, ok_or, ltb, if◌then◌else◌,
}

-- `while let Some(k) = tokenizer.next()`, a round for each unit of fuel.
unfoldable pub collect_keys : ℕ → Tokenizer → List Bytes → Result ParseError (List Bytes)
collect_keys zero t keys = ok keys
collect_keys (suc fuel) t keys = elim (next t).0 [
  | none ↦ ok keys
  | some k ↦ extract_key k >>= λ key. collect_keys fuel (next t).1 (keys ++ key ∷ [])
]

-- The first key, then the loop; a token takes at least one byte of the rest.
unfoldable pub parse_keys : Tokenizer → Result ParseError (List Bytes)
unfolding collect_keys
parse_keys t = elim (next t).0 [
  | none ↦ err (parse_error unknown)
  | some first_key ↦ do
    key ← extract_key first_key
    collect_keys (suc (length t.rest)) (next t).1 (key ∷ [])
]

unfoldable pub parse_get : Bool → Tokenizer → Result ParseError CommandHeader
unfolding parse_keys
parse_get with_cas t = do keys ← parse_keys t; ok (immediate (Command.get keys with_cas))

unfoldable pub parse_delete : Tokenizer → Result ParseError CommandHeader
unfolding parse_noreply
parse_delete t = elim (next t).0 [
  | none ↦ err (parse_error unknown)
  | some key ↦ do
    key ← extract_key key
    noreply ← parse_noreply (next t).1
    ok (immediate (Command.delete key noreply))
]

unfoldable pub parse_version : Tokenizer → Result ParseError CommandHeader
unfolding expect_end
parse_version t = do _ ← expect_end t; ok (immediate Command.version)

-- The subcommands of `stats` are not there yet.
unfoldable pub parse_stats : Tokenizer → Result ParseError CommandHeader
unfolding expect_end
parse_stats t = do _ ← expect_end t; ok (immediate Command.stats)

module _ (atoi : Atoi) where
  unfoldable pub parse_get_and_touch : Bool → Tokenizer → Result ParseError CommandHeader
  unfolding parse_keys parse_field
  parse_get_and_touch with_cas t = do
    exptime ← ok_or (parse_error unknown) (next t).0
    exptime ← map_err (λ _. parse_error bad_format) (parse_field atoi.i64 exptime)
    keys ← parse_keys (next t).1
    ok (immediate (Command.get_and_touch keys exptime with_cas))

  -- The cas token, which only `cas` has.
  unfoldable pub parse_cas : StoreOp → ℕ → Tokenizer → Result ParseError (Option ℕ × Tokenizer)
  unfolding parse_field
  parse_cas cas len t = elim (next t).0 [
    | some cas_token ↦ do
      token ←
          map_err (λ _. with_discard (parse_error bad_format) (add_usize len 2))
            (parse_field atoi.u64 cas_token)
      ok (some token, (next t).1)
    | none ↦ err (with_discard (parse_error bad_format) (add_usize len 2))
  ]
  parse_cas _ len t = ok (none, t)

  -- The fields of a storage command, once its four tokens are there.
  unfoldable pub parse_pending :
      StoreOp → Bytes → Bytes → Bytes → Bytes → Tokenizer → Result ParseError CommandHeader
  unfolding parse_field parse_cas parse_noreply extract_key
  parse_pending op key flags exptime len t = do
    len ← map_err (λ _. parse_error bad_format) (parse_field atoi.usize len)
    let skip = add_usize len 2
    if ltb max_item_size len then err (with_discard (parse_error too_large) skip) else do
      key ← map_err (λ e. with_discard e skip) (extract_key key)
      flags ← map_err (λ _. with_discard (parse_error bad_format) skip) (parse_field atoi.u32 flags)
      exptime ←
          map_err (λ _. with_discard (parse_error bad_format) skip) (parse_field atoi.i64 exptime)
      (token, t) ← parse_cas op len t
      noreply ← map_err (λ e. with_discard e skip) (parse_noreply t)
      ok (
          store (record {
            op = op;
            key = key;
            flags = flags;
            exptime = exptime;
            len = len;
            cas = token;
            noreply = noreply;
          }))

  unfoldable pub store_tokens :
      StoreOp
      → Option Bytes
      → Option Bytes
      → Option Bytes
      → Option Bytes
      → Tokenizer
      → Result ParseError CommandHeader
  unfolding parse_pending
  store_tokens op (some key) (some flags) (some exptime) (some len) t =
      parse_pending op key flags exptime len t
  store_tokens op _ _ _ _ t = err (parse_error unknown)

  -- Four tokens are taken before any is looked at.
  unfoldable pub parse_store : StoreOp → Tokenizer → Result ParseError CommandHeader
  unfolding store_tokens
  parse_store op t =
      let (key, t) = next t in
      let (flags, t) = next t in
      let (exptime, t) = next t in let (len, t) = next t in store_tokens op key flags exptime len t

  -- Two tokens are taken before any is looked at, here and in `touch`.
  unfoldable pub parse_arithmetic : ArithmeticOp → Tokenizer → Result ParseError CommandHeader
  unfolding parse_field parse_noreply extract_key
  parse_arithmetic op t =
      let (key, t) = next t in
      let (delta, t) = next t in
      elim key [
        | none ↦ err (parse_error unknown)
        | some key ↦ elim delta [
          | none ↦ err (parse_error unknown)
          | some delta ↦ do
            key ← extract_key key
            delta ← map_err (λ _. parse_error numeric_delta) (parse_field atoi.u64 delta)
            noreply ← parse_noreply t
            ok (immediate (Command.arithmetic op key delta noreply))
        ]
      ]

  unfoldable pub parse_touch : Tokenizer → Result ParseError CommandHeader
  unfolding parse_field parse_noreply extract_key
  parse_touch t =
      let (key, t) = next t in
      let (exptime, t) = next t in
      elim key [
        | none ↦ err (parse_error unknown)
        | some key ↦ elim exptime [
          | none ↦ err (parse_error unknown)
          | some exptime ↦ do
            key ← extract_key key
            exptime ← map_err (λ _. parse_error bad_format) (parse_field atoi.i64 exptime)
            noreply ← parse_noreply t
            ok (immediate (Command.touch key exptime noreply))
        ]
      ]

  unfoldable pub parse_flush_all : Tokenizer → Result ParseError CommandHeader
  unfolding parse_field parse_noreply expect_end
  parse_flush_all t = elim (next t).0 [
    | none ↦ ok (immediate (Command.flush_all none false))
    | some d ↦
        if bytes_eq d (codes "noreply")
        then (do _ ← expect_end (next t).1; ok (immediate (Command.flush_all none true)))
        else do
          delay ← map_err (λ _. parse_error numeric_delay) (parse_field atoi.u32 d)
          noreply ← parse_noreply (next t).1
          ok (immediate (Command.flush_all (some delay) noreply))
  ]

  unfoldable pub parse_verbosity : Tokenizer → Result ParseError CommandHeader
  unfolding parse_field parse_noreply
  parse_verbosity t = do
    level ← ok_or (parse_error unknown) (next t).0
    level ← map_err (λ _. parse_error bad_format) (parse_field atoi.u32 level)
    noreply ← parse_noreply (next t).1
    ok (immediate (Command.verbosity level noreply))

  -- The `match` on the first token.
  unfoldable pub parse_op : Bytes → Tokenizer → Result ParseError CommandHeader
  unfolding parse_get_and_touch parse_store parse_arithmetic parse_touch parse_flush_all
      parse_verbosity parse_get parse_delete parse_version parse_stats
  parse_op op t =
      if bytes_eq op (codes "get") || bytes_eq op (codes "gets")
      then parse_get (bytes_eq op (codes "gets")) t
      else if bytes_eq op (codes "gat") || bytes_eq op (codes "gats")
      then parse_get_and_touch (bytes_eq op (codes "gats")) t
      else if bytes_eq op (codes "add")
      then parse_store add t
      else if bytes_eq op (codes "set")
      then parse_store set t
      else if bytes_eq op (codes "replace")
      then parse_store replace t
      else if bytes_eq op (codes "append")
      then parse_store append t
      else if bytes_eq op (codes "prepend")
      then parse_store prepend t
      else if bytes_eq op (codes "cas")
      then parse_store cas t
      else if bytes_eq op (codes "delete")
      then parse_delete t
      else if bytes_eq op (codes "incr")
      then parse_arithmetic incr t
      else if bytes_eq op (codes "decr")
      then parse_arithmetic decr t
      else if bytes_eq op (codes "touch")
      then parse_touch t
      else if bytes_eq op (codes "flush_all")
      then parse_flush_all t
      else if bytes_eq op (codes "version")
      then parse_version t
      else if bytes_eq op (codes "verbosity")
      then parse_verbosity t
      else if bytes_eq op (codes "stats")
      then parse_stats t
      else if bytes_eq op (codes "quit")
      then ok quit
      else err (parse_error unknown)

  unfoldable pub parse_command_line : Bytes → Result ParseError CommandHeader
  unfolding parse_op
  parse_command_line line =
      let t = tokenizer line in
      elim (next t).0 [ none ↦ err (parse_error unknown) | some op ↦ parse_op op (next t).1 ]

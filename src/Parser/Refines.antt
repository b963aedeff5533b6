-- ===== src/Parser/Refines.antt =====
-- The parser of src/parser.rs is the grammar over the words of the line.
use mathlib.Core.Path.{fun_ext}
use mathlib.Core.List.{tail, append-nil, append_assoc}
mod Keys
mod Storage
use Keys.{
  tail_words, head_word, bind_cong, token-noreply, expect_end-words, parse_noreply-words,
  parse_keys-words, parse_get-words, parse_delete-words,
}
use Storage.{parse_store-words}
use ousagi.Atoi.{Atoi}
use ousagi.Commands.{
  StoreOp, set, add, replace, append, prepend, cas, ArithmeticOp, incr, decr, Command,
}
use ousagi.Parser.Grammar.{
  end_words, noreply_words, all_keys, keys_words, get_words, delete_words, only_word,
  get_and_touch_words, cas_words, pending_words, store_words, arithmetic_words, touch_words,
  flush_all_words, verbosity_words, verbs, dispatch, command_words,
}
use ousagi.Parser.Header.{
  max_item_size, add_usize, bad_format, unknown, ParseError, parse_error, with_discard,
  CommandHeader, store, quit,
}
use ousagi.Parser.Tokens.{
  Tokenizer, tokenizer, next, extract_key, parse_field, expect_end, parse_noreply,
}
use ousagi.Parser.Words.{words, first, next-first, words-next, length-words}
use ousagi.Parser.{
  collect_keys, parse_keys, parse_get, parse_get_and_touch, parse_delete, parse_version,
  parse_stats, parse_cas, parse_pending, store_tokens, parse_store, parse_arithmetic, parse_touch,
  parse_flush_all, parse_verbosity, parse_op, parse_command_line,
}
use ousagi.Prelude.{
  ℕ, zero, suc, ◌+◌, ◌≤◌, ◌<◌, ◌≡◌, refl, sym, ap, ◌∙◌, Bool, true, false, Option, none, some, List,
  [], ◌∷◌, ◌++◌, Bytes, codes, length, bytes_eq, bytes_eq_iff, Result, ok, err, ◌>>=◌, map_err,
  arith, ltb, if◌then◌else◌, ◌||◌,
}

get-not-gets : (op : Bytes) → bytes_eq op (codes "get") ≡ true → bytes_eq op (codes "gets") ≡ false
unfolding bytes_eq
get-not-gets op h = rw ((bytes_eq_iff op (codes "get")).0 h)

gat-not-gats : (op : Bytes) → bytes_eq op (codes "gat") ≡ true → bytes_eq op (codes "gats") ≡ false
unfolding bytes_eq
gat-not-gats op h = rw ((bytes_eq_iff op (codes "gat")).0 h)

two_verbs :
    (a b : Bool) (f : Bool → Result ParseError CommandHeader)
    (rest : Result ParseError CommandHeader)
    → (a ≡ true → b ≡ false)
    → (if a || b then f b else rest) ≡ (if a then f false else if b then f true else rest)
two_verbs true b f rest h = rw (h refl)
two_verbs false true f rest h = refl
two_verbs false false f rest h = refl

parse_version-words :
    (t : Tokenizer) (ws : List Bytes)
    → words t.rest ≡ ws
    → parse_version t ≡ only_word Command.version ws
unfolding parse_version only_word
parse_version-words t ws h = rw (expect_end-words t ws h)

parse_stats-words :
    (t : Tokenizer) (ws : List Bytes)
    → words t.rest ≡ ws
    → parse_stats t ≡ only_word Command.stats ws
unfolding parse_stats only_word
parse_stats-words t ws h = rw (expect_end-words t ws h)

module _ (atoi : Atoi) where
  parse_get_and_touch-words :
      (with_cas : Bool) (t : Tokenizer) (ws : List Bytes)
      → words t.rest ≡ ws
      → parse_get_and_touch atoi with_cas t ≡ get_and_touch_words atoi with_cas ws
  unfolding parse_get_and_touch get_and_touch_words
  parse_get_and_touch-words with_cas t [] h = rw (head_word t [] h)
  parse_get_and_touch-words with_cas t (w ∷ ws) h =
      rw (head_word t (w ∷ ws) h, parse_keys-words (next t).1 ws (tail_words t (w ∷ ws) h))

  parse_arithmetic-words :
      (op : ArithmeticOp) (t : Tokenizer) (ws : List Bytes)
      → words t.rest ≡ ws
      → parse_arithmetic atoi op t ≡ arithmetic_words atoi op ws
  unfolding parse_arithmetic arithmetic_words
  parse_arithmetic-words op t [] h = rw (head_word t [] h, parse_arithmetic)
  parse_arithmetic-words op t (a ∷ []) h =
      rw (
        head_word t (a ∷ []) h,
        head_word (next t).1 [] (tail_words t (a ∷ []) h),
        parse_arithmetic,
      )
  parse_arithmetic-words op t (a ∷ b ∷ ws) h =
      let t1 = (next t).1 in
      let h1 = tail_words t (a ∷ b ∷ ws) h in
      rw (
        head_word t (a ∷ b ∷ ws) h,
        head_word t1 (b ∷ ws) h1,
        parse_arithmetic,
        parse_noreply-words (next t1).1 ws (tail_words t1 (b ∷ ws) h1),
      )

  parse_touch-words :
      (t : Tokenizer) (ws : List Bytes)
      → words t.rest ≡ ws
      → parse_touch atoi t ≡ touch_words atoi ws
  unfolding parse_touch touch_words
  parse_touch-words t [] h = rw (head_word t [] h, parse_touch)
  parse_touch-words t (a ∷ []) h =
      rw (head_word t (a ∷ []) h, head_word (next t).1 [] (tail_words t (a ∷ []) h), parse_touch)
  parse_touch-words t (a ∷ b ∷ ws) h =
      let t1 = (next t).1 in
      let h1 = tail_words t (a ∷ b ∷ ws) h in
      rw (
        head_word t (a ∷ b ∷ ws) h,
        head_word t1 (b ∷ ws) h1,
        parse_touch,
        parse_noreply-words (next t1).1 ws (tail_words t1 (b ∷ ws) h1),
      )

  parse_flush_all-words :
      (t : Tokenizer) (ws : List Bytes)
      → words t.rest ≡ ws
      → parse_flush_all atoi t ≡ flush_all_words atoi ws
  unfolding parse_flush_all flush_all_words only_word
  parse_flush_all-words t [] h = rw (head_word t [] h, parse_flush_all)
  parse_flush_all-words t (w ∷ ws) h =
      let h1 = tail_words t (w ∷ ws) h in
      rw (
        head_word t (w ∷ ws) h,
        parse_flush_all,
        parse_noreply-words (next t).1 ws h1,
        expect_end-words (next t).1 ws h1,
      )

  parse_verbosity-words :
      (t : Tokenizer) (ws : List Bytes)
      → words t.rest ≡ ws
      → parse_verbosity atoi t ≡ verbosity_words atoi ws
  unfolding parse_verbosity verbosity_words
  parse_verbosity-words t [] h = rw (head_word t [] h)
  parse_verbosity-words t (w ∷ ws) h =
      rw (head_word t (w ∷ ws) h, parse_noreply-words (next t).1 ws (tail_words t (w ∷ ws) h))

  parse_op-words :
      (op : Bytes) (t : Tokenizer) (ws : List Bytes)
      → words t.rest ≡ ws
      → parse_op atoi op t ≡ dispatch (verbs atoi) op ws
  unfolding parse_op dispatch verbs
  parse_op-words op t ws h =
      rw
        (
          parse_get-words _ t ws h,
          parse_get_and_touch-words _ t ws h,
          parse_store-words atoi add t ws h,
          parse_store-words atoi set t ws h,
          parse_store-words atoi replace t ws h,
          parse_store-words atoi append t ws h,
          parse_store-words atoi prepend t ws h,
          parse_store-words atoi cas t ws h,
          parse_delete-words t ws h,
          parse_arithmetic-words incr t ws h,
          parse_arithmetic-words decr t ws h,
          parse_touch-words t ws h,
          parse_flush_all-words t ws h,
          parse_version-words t ws h,
          parse_verbosity-words t ws h,
          parse_stats-words t ws h,
        )
        (two_verbs _ _ (λ b. get_words b ws) _ (get-not-gets op)
          ∙ ap
              (λ rest.
                if bytes_eq op (codes "get")
                then get_words false ws
                else if bytes_eq op (codes "gets")
                then get_words true ws
                else rest)
              (two_verbs _ _ (λ b. get_and_touch_words atoi b ws) _ (gat-not-gats op)))

  -- For every line, and every reader of numbers, the parser gives the same header or the same
  -- error as the grammar of the commands over the words of the line, its runs of bytes other than
  -- the space.
  pub parse_command_line-words :
      (line : Bytes) → parse_command_line atoi line ≡ command_words atoi (words line)
  unfolding parse_command_line command_words
  parse_command_line-words line = command_lem (words line) refl
    where
      command_lem :
          (ws : List Bytes) → words line ≡ ws → parse_command_line atoi line ≡ command_words atoi ws
      command_lem [] h = rw (head_word (tokenizer line) [] h, parse_command_line)
      command_lem (w ∷ ws) h =
          rw (head_word (tokenizer line) (w ∷ ws) h, parse_command_line)
            (parse_op-words w (next (tokenizer line)).1 ws (tail_words (tokenizer line) (w ∷ ws) h))

-- ===== src/Parser/RoundTrip.antt =====
-- src/parser.rs reads back every well-formed header from the line that is printed for it.
use ousagi.Atoi.{Atoi, InI64, int_to_string}
use ousagi.Commands.{StoreOp, set, add, replace, append, prepend, cas, incr, decr, Command}
use ousagi.Parser.Grammar.{
  end_words, noreply_words, all_keys, keys_words, get_words, delete_words, only_word,
  get_and_touch_words, cas_words, pending_words, store_words, arithmetic_words, touch_words,
  flush_all_words, verbosity_words, verbs, dispatch, command_words,
}
use ousagi.Parser.Header.{
  max_item_size, add_usize, PendingStore, CommandHeader, immediate, store, quit,
}
use ousagi.Parser.Keys.{IsKey, extract_key-IsKey, parse_field-whole}
use ousagi.Parser.Lines.{words-join}
use ousagi.Parser.Printing.{
  noreply_word, store_verb, token_word, command_line, header_words, print, header_words-IsWord,
}
use ousagi.Parser.Refines.{parse_command_line-words}
use ousagi.Parser.Tokens.{parse_field}
use ousagi.Parser.WellFormed.{CasFits, IsPending, IsImmediate, IsHeader}
use ousagi.Parser.{parse_command_line}
use ousagi.Prelude.{
  ℕ, ◌^◌, ◌<◌, ◌≡◌, ◌≢◌, refl, ap, ◌∙◌, Bool, true, false, Option, none, some, List, [], ◌∷◌, ◌++◌,
  Bytes, codes, bytes_eq, All, ℤ, ok, ltb, arith,
}
use ousagi.Text.{to_string}
use ousagi.Text.Decimal.{IsDigit, to_string-IsDigit}

-- The keys of a list are accepted as they stand.
all_keys-keys : (keys : List Bytes) → All IsKey keys → all_keys keys ≡ ok keys
unfolding all_keys
all_keys-keys [] h = refl
all_keys-keys (k ∷ keys) (h, hs) =
    rw (all_keys, (extract_key-IsKey k).1 h, all_keys-keys keys hs) refl

keys_words-keys : (keys : List Bytes) → keys ≢ [] → All IsKey keys → keys_words keys ≡ ok keys
unfolding keys_words
keys_words-keys [] ne h = absurd (ne refl)
keys_words-keys (k ∷ keys) ne h = all_keys-keys (k ∷ keys) h

noreply_words-word : (n : Bool) → noreply_words (noreply_word n) ≡ ok n
unfolding noreply_words bytes_eq
noreply_words-word true = refl
noreply_words-word false = refl

digits-ne-noreply : (w : Bytes) → All IsDigit w → bytes_eq w (codes "noreply") ≡ false
unfolding bytes_eq
digits-ne-noreply [] h = refl
digits-ne-noreply (b ∷ w) (h, _) = ground arith

module _ (atoi : Atoi) where
  u32-field : (n : ℕ) → n < 2 ^ 32 → parse_field atoi.u32 (to_string n) ≡ ok n
  u32-field n h = parse_field-whole atoi.u32 (to_string n) n (atoi.u32-to_string n h)

  u64-field : (n : ℕ) → n < 2 ^ 64 → parse_field atoi.u64 (to_string n) ≡ ok n
  u64-field n h = parse_field-whole atoi.u64 (to_string n) n (atoi.u64-to_string n h)

  usize-field : (n : ℕ) → n < 2 ^ 64 → parse_field atoi.usize (to_string n) ≡ ok n
  usize-field n h = parse_field-whole atoi.usize (to_string n) n (atoi.usize-to_string n h)

  i64-field : (z : ℤ) → InI64 z → parse_field atoi.i64 (int_to_string z) ≡ ok z
  i64-field z h = parse_field-whole atoi.i64 (int_to_string z) z (atoi.i64-to_string z h)

  command_words-line :
      (c : Command) → IsImmediate c → command_words atoi (command_line c) ≡ ok (immediate c)
  unfolding command_words dispatch verbs bytes_eq
  command_words-line (Command.get keys true) (ne, are) =
      rw (get_words, keys_words-keys keys ne are) refl
  command_words-line (Command.get keys false) (ne, are) =
      rw (get_words, keys_words-keys keys ne are) refl
  command_words-line (Command.store _ _) h = elim h [ ]
  command_words-line (Command.delete key n) h =
      rw (delete_words, (extract_key-IsKey key).1 h, noreply_words-word n) refl
  command_words-line (Command.arithmetic incr key delta n) (h, k) =
      rw (arithmetic_words, (extract_key-IsKey key).1 h, u64-field delta k, noreply_words-word n)
        refl
  command_words-line (Command.arithmetic decr key delta n) (h, k) =
      rw (arithmetic_words, (extract_key-IsKey key).1 h, u64-field delta k, noreply_words-word n)
        refl
  command_words-line (Command.get_and_touch keys exptime true) (ne, are, z) =
      rw (get_and_touch_words, i64-field exptime z, keys_words-keys keys ne are) refl
  command_words-line (Command.get_and_touch keys exptime false) (ne, are, z) =
      rw (get_and_touch_words, i64-field exptime z, keys_words-keys keys ne are) refl
  command_words-line (Command.touch key exptime n) (h, z) =
      rw (touch_words, (extract_key-IsKey key).1 h, i64-field exptime z, noreply_words-word n) refl
  command_words-line (Command.flush_all none true) h =
      unfold flush_all_words only_word end_words in refl
  command_words-line (Command.flush_all none false) h = unfold flush_all_words in refl
  command_words-line (Command.flush_all (some delay) n) h =
      rw
        (
          flush_all_words,
          digits-ne-noreply (to_string delay) (to_string-IsDigit delay),
          u32-field delay h,
          noreply_words-word n,
        )
        refl
  command_words-line Command.version h = unfold only_word end_words in refl
  command_words-line (Command.verbosity level n) h =
      rw (verbosity_words, u32-field level h, noreply_words-word n) refl
  command_words-line Command.stats h = unfold only_word end_words in refl

  cas_words-token :
      (op : StoreOp) (token : Option ℕ) (skip : ℕ) (ws : List Bytes)
      → CasFits op token
      → cas_words atoi op skip (token_word token ++ ws) ≡ ok (token, ws)
  unfolding cas_words
  cas_words-token cas (some token) skip ws h = rw (cas_words, u64-field token h) refl
  cas_words-token cas none skip ws h = elim h [ ]
  cas_words-token set none skip ws h = refl
  cas_words-token add none skip ws h = refl
  cas_words-token replace none skip ws h = refl
  cas_words-token append none skip ws h = refl
  cas_words-token prepend none skip ws h = refl
  cas_words-token set (some _) skip ws h = elim h [ ]
  cas_words-token add (some _) skip ws h = elim h [ ]
  cas_words-token replace (some _) skip ws h = elim h [ ]
  cas_words-token append (some _) skip ws h = elim h [ ]
  cas_words-token prepend (some _) skip ws h = elim h [ ]

  store_words-line :
      (p : PendingStore)
      → IsPending p
      → store_words atoi p.op (
          p.key
          ∷ to_string p.flags
          ∷ int_to_string p.exptime
          ∷ to_string p.len
          ∷ (token_word p.cas ++ noreply_word p.noreply))
        ≡ ok (store p)
  unfolding store_words pending_words
  store_words-line p h =
      let within : ltb max_item_size p.len ≡ false = ground (arith, h.len) in
      rw
        (
          store_words,
          usize-field p.len (omega (arith, h.len)),
          pending_words,
          within,
          (extract_key-IsKey p.key).1 h.key,
          u32-field p.flags h.flags,
          i64-field p.exptime h.exptime,
          cas_words-token p.op p.cas (add_usize p.len 2) (noreply_word p.noreply) h.cas,
          noreply_words-word p.noreply,
        )
        refl

  dispatch-store :
      (op : StoreOp) (ws : List Bytes)
      → command_words atoi (store_verb op ∷ ws) ≡ store_words atoi op ws
  unfolding command_words dispatch verbs bytes_eq
  dispatch-store set ws = refl
  dispatch-store add ws = refl
  dispatch-store replace ws = refl
  dispatch-store append ws = refl
  dispatch-store prepend ws = refl
  dispatch-store cas ws = refl

  command_words-header_words :
      (h : CommandHeader) → IsHeader h → command_words atoi (header_words h) ≡ ok h
  command_words-header_words (immediate c) h = command_words-line c h
  command_words-header_words (store p) h = dispatch-store p.op _ ∙ store_words-line p h
  command_words-header_words quit h = unfold command_words dispatch verbs bytes_eq in refl

  -- Every well-formed header is accepted: the line that is printed for it, its words with single
  -- spaces, is parsed to that header.
  pub parse_command_line-print :
      (h : CommandHeader) → IsHeader h → parse_command_line atoi (print h) ≡ ok h
  unfolding print
  parse_command_line-print h fits =
      parse_command_line-words atoi (print h)
      ∙ ap (command_words atoi) (words-join (header_words h) (header_words-IsWord h fits))
      ∙ command_words-header_words h fits

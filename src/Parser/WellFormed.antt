-- ===== src/Parser/WellFormed.antt =====
-- What a parsed header is known to satisfy.
use ousagi.Atoi.{Atoi, InI64}
use ousagi.Commands.{
  StoreOp, set, add, replace, append, prepend, cas, ArithmeticOp, incr, decr, Command,
}
use ousagi.Parser.Gives.{Gives, Gives-bind, Gives-if, Gives-eq, map_err-ok, field_ok}
use ousagi.Parser.Grammar.{
  end_words, noreply_words, all_keys, keys_words, get_words, delete_words, only_word,
  get_and_touch_words, cas_words, pending_words, store_words, arithmetic_words, touch_words,
  flush_all_words, verbosity_words, Verbs, verbs, dispatch, command_words,
}
use ousagi.Parser.Header.{max_item_size, PendingStore, CommandHeader, immediate, store, quit}
use ousagi.Parser.Keys.{IsKey, extract_key-ok}
use ousagi.Parser.Refines.{parse_command_line-words}
use ousagi.Parser.Tokens.{extract_key, parse_field}
use ousagi.Parser.Words.{words}
use ousagi.Parser.{parse_command_line}
use ousagi.Prelude.{
  ℕ, ◌^◌, ◌≤◌, ◌<◌, ◌≡◌, ◌≢◌, ◌∙◌, sym, Bool, true, false, Option, none, some, List, [], ◌∷◌, Bytes,
  codes, All, ok, map_err, ltb, arith, bytes_eq,
}

-- A token stands in a `cas` command and in no other.
abbrev pub CasFits : StoreOp → Option ℕ → Type 0
CasFits cas (some token) = token < 2 ^ 64
CasFits cas none = ⊥
CasFits _ (some _) = ⊥
CasFits _ none = Unit

pub record IsPending (p : PendingStore) : Type 0 where
  pub key : IsKey p.key
  pub flags : p.flags < 2 ^ 32
  pub exptime : InI64 p.exptime
  pub len : p.len ≤ 1048576
  pub cas : CasFits p.op p.cas

abbrev pub DelayFits : Option ℕ → Type 0
DelayFits none = Unit
DelayFits (some n) = n < 2 ^ 32

-- A storage command is never immediate: its payload is still to be read.
abbrev pub IsImmediate : Command → Type 0
IsImmediate (Command.get keys _) = (keys ≢ []) × All IsKey keys
IsImmediate (Command.store _ _) = ⊥
IsImmediate (Command.delete key _) = IsKey key
IsImmediate (Command.arithmetic _ key delta _) = IsKey key × (delta < 2 ^ 64)
IsImmediate (Command.get_and_touch keys exptime _) = (keys ≢ []) × All IsKey keys × InI64 exptime
IsImmediate (Command.touch key exptime _) = IsKey key × InI64 exptime
IsImmediate (Command.flush_all delay _) = DelayFits delay
IsImmediate Command.version = Unit
IsImmediate (Command.verbosity level _) = level < 2 ^ 32
IsImmediate Command.stats = Unit

abbrev pub IsHeader : CommandHeader → Type 0
IsHeader (immediate command) = IsImmediate command
IsHeader (store p) = IsPending p
IsHeader quit = Unit

all_keys-IsKey : (ws : List Bytes) → Gives (All IsKey) (all_keys ws)
unfolding all_keys
all_keys-IsKey [] = tt
all_keys-IsKey (w ∷ ws) = Gives-bind (All IsKey) (extract_key w) _ λ key e.
    Gives-bind (All IsKey) (all_keys ws) _
      λ keys es. (extract_key-ok w key e, Gives-eq (All IsKey) (all_keys-IsKey ws) es)

abbrev AreKeys : List Bytes → Type 0
AreKeys keys = (keys ≢ []) × All IsKey keys

keys_words-AreKeys : (ws : List Bytes) → Gives AreKeys (keys_words ws)
unfolding keys_words all_keys
keys_words-AreKeys [] = tt
keys_words-AreKeys (w ∷ ws) = Gives-bind AreKeys (extract_key w) _ λ key e.
    Gives-bind AreKeys (all_keys ws) _
      λ keys es. (λ n. cc, (extract_key-ok w key e, Gives-eq (All IsKey) (all_keys-IsKey ws) es))

get_words-IsHeader : (with_cas : Bool) (ws : List Bytes) → Gives IsHeader (get_words with_cas ws)
unfolding get_words
get_words-IsHeader with_cas ws =
    Gives-bind IsHeader (keys_words ws) _ λ keys e. Gives-eq AreKeys (keys_words-AreKeys ws) e

delete_words-IsHeader : (ws : List Bytes) → Gives IsHeader (delete_words ws)
unfolding delete_words
delete_words-IsHeader [] = tt
delete_words-IsHeader (w ∷ ws) =
    Gives-bind IsHeader (extract_key w) _
      λ key e. Gives-bind IsHeader (noreply_words ws) _ λ _ _. extract_key-ok w key e

only_word-IsHeader :
    (c : Command) (ws : List Bytes) → IsImmediate c → Gives IsHeader (only_word c ws)
unfolding only_word
only_word-IsHeader c ws h = Gives-bind IsHeader (end_words ws) _ λ _ _. h

infixr 3 ◌&◌
abbrev pub ◌&◌ : {A B : Type 0} → A → B → A × B
a & b = (a, b)

module _ (atoi : Atoi) where
  get_and_touch_words-IsHeader :
      (with_cas : Bool) (ws : List Bytes) → Gives IsHeader (get_and_touch_words atoi with_cas ws)
  unfolding get_and_touch_words
  get_and_touch_words-IsHeader with_cas [] = tt
  get_and_touch_words-IsHeader with_cas (w ∷ ws) =
      Gives-bind IsHeader (map_err _ (parse_field atoi.i64 w)) _ λ z e.
        Gives-bind IsHeader (keys_words ws) _ λ keys es.
          let (ne, are) = Gives-eq AreKeys (keys_words-AreKeys ws) es in
          (ne, are, atoi.i64-InI64 w z (field_ok atoi.i64 w _ e))

  cas_words-CasFits :
      (op : StoreOp) (skip : ℕ) (ws : List Bytes)
      → Gives (λ r. CasFits op r.0) (cas_words atoi op skip ws)
  unfolding cas_words
  cas_words-CasFits cas skip [] = tt
  cas_words-CasFits cas skip (w ∷ ws) =
      Gives-bind _ (map_err _ (parse_field atoi.u64 w)) _
        λ n e. atoi.u64-lt w n (field_ok atoi.u64 w _ e)
  cas_words-CasFits _ skip ws = tt

  pending_words-IsHeader :
      (op : StoreOp) (key flags exptime : Bytes) (len : ℕ) (ws : List Bytes)
      → Gives IsHeader (pending_words atoi op key flags exptime len ws)
  unfolding pending_words
  pending_words-IsHeader op key flags exptime len ws =
      Gives-if IsHeader (ltb max_item_size len) _ _ (λ _. tt)
        λ fits. Gives-bind IsHeader (map_err _ (extract_key key)) _ λ k ek.
          Gives-bind IsHeader (map_err _ (parse_field atoi.u32 flags)) _ λ f ef.
            Gives-bind IsHeader (map_err _ (parse_field atoi.i64 exptime)) _ λ z ez.
              Gives-bind IsHeader (cas_words atoi op _ ws) _ λ r er.
                Gives-bind IsHeader (map_err _ (noreply_words r.1)) _ λ _ _. record {
                  key = extract_key-ok key k (map_err-ok _ (extract_key key) ek);
                  flags = atoi.u32-lt flags f (field_ok atoi.u32 flags _ ef);
                  exptime = atoi.i64-InI64 exptime z (field_ok atoi.i64 exptime _ ez);
                  len = ground arith;
                  cas = Gives-eq (λ x. CasFits op x.0) (cas_words-CasFits op _ ws) er;
                }

  store_words-IsHeader : (op : StoreOp) (ws : List Bytes) → Gives IsHeader (store_words atoi op ws)
  unfolding store_words
  store_words-IsHeader op (key ∷ flags ∷ exptime ∷ len ∷ ws) =
      Gives-bind IsHeader (map_err _ (parse_field atoi.usize len)) _
        λ n _. pending_words-IsHeader op key flags exptime n ws
  store_words-IsHeader op _ = tt

  arithmetic_words-IsHeader :
      (op : ArithmeticOp) (ws : List Bytes) → Gives IsHeader (arithmetic_words atoi op ws)
  unfolding arithmetic_words
  arithmetic_words-IsHeader op (key ∷ delta ∷ ws) = Gives-bind IsHeader (extract_key key) _ λ k ek.
      Gives-bind IsHeader (map_err _ (parse_field atoi.u64 delta)) _ λ n en.
        Gives-bind IsHeader (noreply_words ws) _
          λ _ _. (extract_key-ok key k ek, atoi.u64-lt delta n (field_ok atoi.u64 delta _ en))
  arithmetic_words-IsHeader op _ = tt

  touch_words-IsHeader : (ws : List Bytes) → Gives IsHeader (touch_words atoi ws)
  unfolding touch_words
  touch_words-IsHeader (key ∷ exptime ∷ ws) = Gives-bind IsHeader (extract_key key) _ λ k ek.
      Gives-bind IsHeader (map_err _ (parse_field atoi.i64 exptime)) _ λ z ez.
        Gives-bind IsHeader (noreply_words ws) _ λ _ _.
          (extract_key-ok key k ek, atoi.i64-InI64 exptime z (field_ok atoi.i64 exptime _ ez))
  touch_words-IsHeader _ = tt

  flush_all_words-IsHeader : (ws : List Bytes) → Gives IsHeader (flush_all_words atoi ws)
  unfolding flush_all_words
  flush_all_words-IsHeader [] = tt
  flush_all_words-IsHeader (w ∷ ws) =
      Gives-if IsHeader (bytes_eq w (codes "noreply")) _ _
        (λ _. only_word-IsHeader (Command.flush_all none true) ws tt)
        λ _. Gives-bind IsHeader (map_err _ (parse_field atoi.u32 w)) _ λ n en.
          Gives-bind IsHeader (noreply_words ws) _ λ _ _. atoi.u32-lt w n (field_ok atoi.u32 w _ en)

  verbosity_words-IsHeader : (ws : List Bytes) → Gives IsHeader (verbosity_words atoi ws)
  unfolding verbosity_words
  verbosity_words-IsHeader [] = tt
  verbosity_words-IsHeader (w ∷ ws) =
      Gives-bind IsHeader (map_err _ (parse_field atoi.u32 w)) _ λ n en.
        Gives-bind IsHeader (noreply_words ws) _ λ _ _. atoi.u32-lt w n (field_ok atoi.u32 w _ en)

  abbrev AllGive : Verbs → Type 0
  AllGive [] = Unit
  AllGive ((_, f) ∷ vs) = ((ws : List Bytes) → Gives IsHeader (f ws)) × AllGive vs

  dispatch-IsHeader :
      (vs : Verbs) (op : Bytes) (ws : List Bytes) → AllGive vs → Gives IsHeader (dispatch vs op ws)
  unfolding dispatch
  dispatch-IsHeader [] op ws h = tt
  dispatch-IsHeader ((name, f) ∷ vs) op ws (h, hs) =
      Gives-if IsHeader (bytes_eq op (codes name)) _ _ (λ _. h ws)
        (λ _. dispatch-IsHeader vs op ws hs)

  verbs-AllGive : AllGive (verbs atoi)
  unfolding verbs
  verbs-AllGive =
      get_words-IsHeader false
      & get_words-IsHeader true
      & get_and_touch_words-IsHeader false
      & get_and_touch_words-IsHeader true
      & store_words-IsHeader add
      & store_words-IsHeader set
      & store_words-IsHeader replace
      & store_words-IsHeader append
      & store_words-IsHeader prepend
      & store_words-IsHeader cas
      & delete_words-IsHeader
      & arithmetic_words-IsHeader incr
      & arithmetic_words-IsHeader decr
      & touch_words-IsHeader
      & flush_all_words-IsHeader
      & (λ ws. only_word-IsHeader Command.version ws tt)
      & verbosity_words-IsHeader
      & (λ ws. only_word-IsHeader Command.stats ws tt)
      & (λ ws. tt)
      & tt

  command_words-IsHeader : (ws : List Bytes) → Gives IsHeader (command_words atoi ws)
  unfolding command_words
  command_words-IsHeader [] = tt
  command_words-IsHeader (op ∷ ws) = dispatch-IsHeader (verbs atoi) op ws verbs-AllGive

  -- If a line is accepted, its header has valid keys, at least one where keys are listed, numbers
  -- in the range of their types, a payload length within the limit, and a cas token exactly if it
  -- is a `cas` command; a storage command is never immediate.
  pub parse_command_line-IsHeader :
      (line : Bytes) (h : CommandHeader) → parse_command_line atoi line ≡ ok h → IsHeader h
  parse_command_line-IsHeader line h e =
      Gives-eq IsHeader (command_words-IsHeader (words line))
        (sym (parse_command_line-words atoi line) ∙ e)

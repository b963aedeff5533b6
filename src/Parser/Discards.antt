-- ===== src/Parser/Discards.antt =====
-- How much of the stream a refused line of src/parser.rs says to skip.
use ousagi.Atoi.{Atoi}
use ousagi.Commands.{
  StoreOp, set, add, replace, append, prepend, cas, ArithmeticOp, incr, decr, Command,
}
use ousagi.Parser.Grammar.{
  noreply_words, keys_words, get_and_touch_words, cas_words, pending_words, store_words,
  arithmetic_words, touch_words, flush_all_words, verbosity_words, Verbs, verbs, dispatch,
  command_words,
}
use ousagi.Parser.Header.{max_item_size, add_usize, ParseErrorKind, ParseError, parse_error}
use ousagi.Parser.Refines.{parse_command_line-words}
use ousagi.Parser.Skips.{
  Skips, Skips-bind, Skips-if, map_err-Skips, extract_key-Skips, noreply_words-Skips,
  keys_words-Skips, get_words-Skips, delete_words-Skips, only_word-Skips,
}
use ousagi.Parser.Tokens.{extract_key, parse_field}
use ousagi.Parser.WellFormed.{◌&◌}
use ousagi.Parser.Words.{words}
use ousagi.Parser.{parse_command_line}
use ousagi.Prelude.{
  ℕ, ◌+◌, ◌%◌, ◌^◌, ◌≡◌, refl, sym, ◌∙◌, inl, inr, Bool, true, false, ◌||◌, Option, none, some,
  List, [], ◌∷◌, Bytes, codes, bytes_eq, bytes_eq_iff, Result, ok, err, ◌>>=◌, map_err, ltb, arith,
  Bool-cases, if◌then◌else◌,
}

-- The verbs that a payload follows.
abbrev pub is_storage : Bytes → Bool
is_storage op =
    bytes_eq op (codes "add")
    || bytes_eq op (codes "set")
    || bytes_eq op (codes "replace")
    || bytes_eq op (codes "append")
    || bytes_eq op (codes "prepend")
    || bytes_eq op (codes "cas")

abbrev read_length : {E : Type 0} → Result E ℕ → Option ℕ
read_length (ok len) = some ((len + 2) % 2 ^ 64)
read_length (err _) = none

module _ (atoi : Atoi) where
  -- What the fifth word of a storage command announces: the payload and its line end, counted
  -- modulo 2^64.
  abbrev announced : List Bytes → Option ℕ
  announced (key ∷ flags ∷ exptime ∷ len ∷ ws) = read_length (parse_field atoi.usize len)
  announced _ = none

  unfoldable pub payload_announced : List Bytes → Option ℕ
  payload_announced [] = none
  payload_announced (op ∷ ws) = if is_storage op then announced ws else none

  get_and_touch_words-Skips :
      (with_cas : Bool) (ws : List Bytes) → Skips none (get_and_touch_words atoi with_cas ws)
  unfolding get_and_touch_words
  get_and_touch_words-Skips with_cas [] = refl
  get_and_touch_words-Skips with_cas (w ∷ ws) =
      Skips-bind none (map_err _ (parse_field atoi.i64 w)) _
        (map_err-Skips none _ (parse_field atoi.i64 w) λ _. refl)
        λ z _. Skips-bind none (keys_words ws) _ (keys_words-Skips ws) λ keys _. tt

  cas_words-Skips :
      (op : StoreOp) (skip : ℕ) (ws : List Bytes) → Skips (some skip) (cas_words atoi op skip ws)
  unfolding cas_words
  cas_words-Skips cas skip [] = refl
  cas_words-Skips cas skip (w ∷ ws) =
      Skips-bind (some skip) (map_err _ (parse_field atoi.u64 w)) _
        (map_err-Skips (some skip) _ (parse_field atoi.u64 w) λ _. refl) λ n _. tt
  cas_words-Skips set skip ws = tt
  cas_words-Skips add skip ws = tt
  cas_words-Skips replace skip ws = tt
  cas_words-Skips append skip ws = tt
  cas_words-Skips prepend skip ws = tt

  pending_words-Skips :
      (op : StoreOp) (key flags exptime : Bytes) (len : ℕ) (ws : List Bytes)
      → Skips (some (add_usize len 2)) (pending_words atoi op key flags exptime len ws)
  unfolding pending_words
  pending_words-Skips op key flags exptime len ws =
      let d = some (add_usize len 2) in
      Skips-if d (ltb max_item_size len) _ _ refl (
        Skips-bind d (map_err _ (extract_key key)) _ (map_err-Skips d _ (extract_key key) λ _. refl)
          λ k _.
            Skips-bind d (map_err _ (parse_field atoi.u32 flags)) _
              (map_err-Skips d _ (parse_field atoi.u32 flags) λ _. refl)
              λ f _.
                Skips-bind d (map_err _ (parse_field atoi.i64 exptime)) _
                  (map_err-Skips d _ (parse_field atoi.i64 exptime) λ _. refl)
                  λ z _. Skips-bind d (cas_words atoi op _ ws) _ (cas_words-Skips op _ ws) λ r _.
                    Skips-bind d (map_err _ (noreply_words r.1)) _
                      (map_err-Skips d _ (noreply_words r.1) λ _. refl) λ _ _. tt)

  store_words-Skips :
      (op : StoreOp) (ws : List Bytes) → Skips (announced ws) (store_words atoi op ws)
  unfolding store_words
  store_words-Skips op (key ∷ flags ∷ exptime ∷ len ∷ ws) = by_length (parse_field atoi.usize len)
    where
      by_length :
          (r : Result (Unit {0}) ℕ)
          → Skips (read_length r) (
              map_err (λ _. parse_error ParseErrorKind.bad_format) r >>= λ n.
              pending_words atoi op key flags exptime n ws)
      by_length (ok n) = pending_words-Skips op key flags exptime n ws
      by_length (err e) = refl
  store_words-Skips op [] = refl
  store_words-Skips op (_ ∷ []) = refl
  store_words-Skips op (_ ∷ _ ∷ []) = refl
  store_words-Skips op (_ ∷ _ ∷ _ ∷ []) = refl

  arithmetic_words-Skips :
      (op : ArithmeticOp) (ws : List Bytes) → Skips none (arithmetic_words atoi op ws)
  unfolding arithmetic_words
  arithmetic_words-Skips op (key ∷ delta ∷ ws) =
      Skips-bind none (extract_key key) _ (extract_key-Skips key) λ k _.
        Skips-bind none (map_err _ (parse_field atoi.u64 delta)) _
          (map_err-Skips none _ (parse_field atoi.u64 delta) λ _. refl)
          λ n _. Skips-bind none (noreply_words ws) _ (noreply_words-Skips ws) λ _ _. tt
  arithmetic_words-Skips op [] = refl
  arithmetic_words-Skips op (_ ∷ []) = refl

  touch_words-Skips : (ws : List Bytes) → Skips none (touch_words atoi ws)
  unfolding touch_words
  touch_words-Skips (key ∷ exptime ∷ ws) =
      Skips-bind none (extract_key key) _ (extract_key-Skips key) λ k _.
        Skips-bind none (map_err _ (parse_field atoi.i64 exptime)) _
          (map_err-Skips none _ (parse_field atoi.i64 exptime) λ _. refl)
          λ n _. Skips-bind none (noreply_words ws) _ (noreply_words-Skips ws) λ _ _. tt
  touch_words-Skips [] = refl
  touch_words-Skips (_ ∷ []) = refl

  flush_all_words-Skips : (ws : List Bytes) → Skips none (flush_all_words atoi ws)
  unfolding flush_all_words
  flush_all_words-Skips [] = tt
  flush_all_words-Skips (w ∷ ws) =
      Skips-if none (bytes_eq w (codes "noreply")) _ _
        (only_word-Skips (Command.flush_all none true) ws)
        (Skips-bind none (map_err _ (parse_field atoi.u32 w)) _
          (map_err-Skips none _ (parse_field atoi.u32 w) λ _. refl)
          λ n _. Skips-bind none (noreply_words ws) _ (noreply_words-Skips ws) λ _ _. tt)

  verbosity_words-Skips : (ws : List Bytes) → Skips none (verbosity_words atoi ws)
  unfolding verbosity_words
  verbosity_words-Skips [] = refl
  verbosity_words-Skips (w ∷ ws) =
      Skips-bind none (map_err _ (parse_field atoi.u32 w)) _
        (map_err-Skips none _ (parse_field atoi.u32 w) λ _. refl)
        λ n _. Skips-bind none (noreply_words ws) _ (noreply_words-Skips ws) λ _ _. tt

  abbrev AllSkip : Verbs → Type 0
  AllSkip [] = Unit
  AllSkip ((name, f) ∷ vs) =
      ((ws : List Bytes) → Skips (payload_announced (codes name ∷ ws)) (f ws)) × AllSkip vs

  abbrev is_named : Verbs → Bytes → Bool
  is_named [] op = false
  is_named ((name, _) ∷ vs) op = if bytes_eq op (codes name) then true else is_named vs op

  dispatch-Skips :
      (vs : Verbs) (op : Bytes) (ws : List Bytes)
      → AllSkip vs
      → (is_named vs op ≡ false → payload_announced (op ∷ ws) ≡ none)
      → Skips (payload_announced (op ∷ ws)) (dispatch vs op ws)
  unfolding dispatch
  dispatch-Skips [] op ws h unnamed = sym (unnamed refl)
  dispatch-Skips ((name, f) ∷ vs) op ws (h, hs) unnamed =
      elim (Bool-cases (bytes_eq op (codes name))) [
        | inl same ↦
            let is : op ≡ codes name = (bytes_eq_iff op (codes name)).0 same in
            rw (dispatch, same) (rw is (h ws))
        | inr other ↦ rw (dispatch, other) (dispatch-Skips vs op ws hs λ k. unnamed (rw other k))
      ]

  verbs-AllSkip : AllSkip (verbs atoi)
  unfolding verbs payload_announced bytes_eq
  verbs-AllSkip =
      get_words-Skips false
      & get_words-Skips true
      & get_and_touch_words-Skips false
      & get_and_touch_words-Skips true
      & store_words-Skips add
      & store_words-Skips set
      & store_words-Skips replace
      & store_words-Skips append
      & store_words-Skips prepend
      & store_words-Skips cas
      & delete_words-Skips
      & arithmetic_words-Skips incr
      & arithmetic_words-Skips decr
      & touch_words-Skips
      & flush_all_words-Skips
      & only_word-Skips Command.version
      & verbosity_words-Skips
      & only_word-Skips Command.stats
      & (λ ws. tt)
      & tt

  unnamed-announces :
      (op : Bytes) (ws : List Bytes)
      → is_named (verbs atoi) op ≡ false
      → payload_announced (op ∷ ws) ≡ none
  unfolding verbs payload_announced
  unnamed-announces op ws h = ground arith

  command_words-Skips : (ws : List Bytes) → Skips (payload_announced ws) (command_words atoi ws)
  unfolding command_words
  command_words-Skips [] = unfold payload_announced in refl
  command_words-Skips (op ∷ ws) =
      dispatch-Skips (verbs atoi) op ws verbs-AllSkip (unnamed-announces op ws)

  -- If a line is refused, then bytes are to be discarded exactly if it has the verb of a storage
  -- command and at least four words behind it, the fourth of which is a length; they are that
  -- length and 2 more for the line end, modulo 2^64, so that for the lengths 2^64 - 2 and 2^64 -
  -- 1 they are 0 and 1 bytes.
  pub parse_command_line-announced :
      (line : Bytes) (e : ParseError)
      → parse_command_line atoi line ≡ err e
      → e.discard ≡ payload_announced (words line)
  parse_command_line-announced line e h =
      let refused : command_words atoi (words line) ≡ err e =
        sym (parse_command_line-words atoi line) ∙ h in
      rw refused at (command_words-Skips (words line))

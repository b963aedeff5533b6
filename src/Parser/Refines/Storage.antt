-- ===== src/Parser/Refines/Storage.antt =====
-- The storage commands of src/parser.rs are the grammar over the words of the line.
use mathlib.Core.List.{tail}
use ousagi.Parser.Refines.Keys.{
  tail_words, head_word, bind_cong, token-noreply, parse_noreply-words,
}
use ousagi.Atoi.{Atoi}
use ousagi.Commands.{StoreOp, cas}
use ousagi.Parser.Grammar.{noreply_words, cas_words, pending_words, store_words}
use ousagi.Parser.Header.{
  max_item_size, add_usize, bad_format, ParseError, parse_error, with_discard, CommandHeader, store,
}
use ousagi.Parser.Tokens.{Tokenizer, next, extract_key, parse_field, parse_noreply}
use ousagi.Parser.Words.{words, first}
use ousagi.Parser.{parse_cas, parse_pending, store_tokens, parse_store}
use ousagi.Prelude.{
  ℕ, ◌≡◌, refl, ap, ◌∙◌, Bool, Option, List, [], ◌∷◌, Bytes, Result, ok, ◌>>=◌, map_err, ltb,
  if◌then◌else◌,
}

module _ (atoi : Atoi) where
  -- The cas token and the noreply flag are read alike, whatever is made of them.
  parse_cas-words :
      (op : StoreOp) (len : ℕ) (t : Tokenizer) (ws : List Bytes)
      (make : Option ℕ → Result ParseError Bool → Result ParseError CommandHeader)
      → words t.rest ≡ ws
      → (parse_cas atoi op len t >>= λ r. make r.0 (parse_noreply r.1))
        ≡ (cas_words atoi op (add_usize len 2) ws >>= λ r. make r.0 (noreply_words r.1))
  unfolding parse_cas cas_words
  parse_cas-words cas len t [] make h = rw (head_word t [] h, parse_cas)
  parse_cas-words cas len t (w ∷ ws) make h =
      rw (head_word t (w ∷ ws) h, parse_cas)
        (token-noreply (next t).1 ws make (tail_words t (w ∷ ws) h)
          (map_err _ (parse_field atoi.u64 w)))
  parse_cas-words _ len t ws make h = rw (parse_noreply-words t ws h)

  parse_pending-words :
      (op : StoreOp) (key flags exptime len : Bytes) (t : Tokenizer) (ws : List Bytes)
      → words t.rest ≡ ws
      → parse_pending atoi op key flags exptime len t ≡ (
          map_err (λ _. parse_error bad_format) (parse_field atoi.usize len) >>= λ n.
          pending_words atoi op key flags exptime n ws)
  unfolding parse_pending pending_words
  parse_pending-words op key flags exptime len t ws h =
      bind_cong (map_err _ (parse_field atoi.usize len)) λ n.
        ap (if◌then◌else◌ (ltb max_item_size n) _) (
          bind_cong (map_err _ (extract_key key)) λ key'.
            bind_cong (map_err _ (parse_field atoi.u32 flags)) λ flags'.
              bind_cong (map_err _ (parse_field atoi.i64 exptime)) λ exptime'.
                parse_cas-words op n t ws
                  (λ token nr. map_err (λ e. with_discard e (add_usize n 2)) nr >>= λ noreply. ok (
                    store (record {
                      op = op;
                      key = key';
                      flags = flags';
                      exptime = exptime';
                      len = n;
                      cas = token;
                      noreply = noreply;
                    })))
                  h)

  store_tokens-words :
      (op : StoreOp) (t : Tokenizer) (ws ws' : List Bytes)
      → words t.rest ≡ ws'
      → ws' ≡ tail (tail (tail (tail ws)))
      → store_tokens atoi op
          (first ws)
          (first (tail ws))
          (first (tail (tail ws)))
          (first (tail (tail (tail ws))))
          t
        ≡ store_words atoi op ws
  unfolding store_tokens store_words
  store_tokens-words op t (a ∷ b ∷ c ∷ d ∷ ws) ws' h e = parse_pending-words op a b c d t ws (h ∙ e)
  store_tokens-words op t _ ws' h e = refl

  pub parse_store-words :
      (op : StoreOp) (t : Tokenizer) (ws : List Bytes)
      → words t.rest ≡ ws
      → parse_store atoi op t ≡ store_words atoi op ws
  unfolding parse_store
  parse_store-words op t ws h =
      let t1 = (next t).1 in
      let t2 = (next t1).1 in
      let t3 = (next t2).1 in
      let h1 = tail_words t ws h in
      let h2 = tail_words t1 (tail ws) h1 in
      let h3 = tail_words t2 (tail (tail ws)) h2 in
      rw
        (
          head_word t ws h,
          head_word t1 (tail ws) h1,
          head_word t2 (tail (tail ws)) h2,
          head_word t3 (tail (tail (tail ws))) h3,
        )
        (store_tokens-words op (next t3).1 ws _ (tail_words t3 (tail (tail (tail ws))) h3) refl)

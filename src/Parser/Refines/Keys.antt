-- ===== src/Parser/Refines/Keys.antt =====
-- The parts of a command line that do not depend on numbers, against the grammar.
use mathlib.Core.Path.{fun_ext}
use mathlib.Core.List.{tail, append-nil, append_assoc}
use ousagi.Parser.Grammar.{end_words, noreply_words, all_keys, keys_words, get_words, delete_words}
use ousagi.Parser.Header.{ParseError, CommandHeader}
use ousagi.Parser.Tokens.{Tokenizer, next, extract_key, expect_end, parse_noreply}
use ousagi.Parser.Words.{words, first, next-first, words-next, length-words}
use ousagi.Parser.{collect_keys, parse_keys, parse_get, parse_delete}
use ousagi.Prelude.{
  ℕ, zero, suc, ◌<◌, ◌≡◌, refl, sym, ap, ◌∙◌, Bool, Option, some, List, [], ◌∷◌, ◌++◌, Bytes,
  length, Result, ok, err, ◌>>=◌, arith,
}

abbrev pub tail_words :
    (t : Tokenizer) (ws : List Bytes) → words t.rest ≡ ws → words (next t).1.rest ≡ tail ws
tail_words t ws h = words-next t ∙ ap tail h

abbrev pub head_word : (t : Tokenizer) (ws : List Bytes) → words t.rest ≡ ws → (next t).0 ≡ first ws
head_word t ws h = next-first t ∙ ap first h

-- What a function reads of the tokenizer: the first word, and the words of the rest.
pub expect_end-words :
    (t : Tokenizer) (ws : List Bytes) → words t.rest ≡ ws → expect_end t ≡ end_words ws
unfolding expect_end end_words
expect_end-words t [] h = ground (arith, head_word t [] h)
expect_end-words t (w ∷ ws) h = ground (arith, head_word t (w ∷ ws) h)

pub parse_noreply-words :
    (t : Tokenizer) (ws : List Bytes) → words t.rest ≡ ws → parse_noreply t ≡ noreply_words ws
unfolding parse_noreply noreply_words end_words
parse_noreply-words t [] h = ground (arith, head_word t [] h)
parse_noreply-words t (w ∷ []) h =
    ground (arith, head_word t (w ∷ []) h, expect_end-words (next t).1 [] (tail_words t (w ∷ []) h))
parse_noreply-words t (w ∷ v ∷ ws) h = ground (
  arith,
  head_word t (w ∷ v ∷ ws) h,
  expect_end-words (next t).1 (v ∷ ws) (tail_words t (w ∷ v ∷ ws) h),
)

abbrev onto : List Bytes → Result ParseError (List Bytes) → Result ParseError (List Bytes)
onto keys r = r >>= λ ks. ok (keys ++ ks)

pub onto-cons :
    (keys : List Bytes) (k : Bytes) (r : Result ParseError (List Bytes))
    → onto keys (r >>= λ ks. ok (k ∷ ks)) ≡ onto (keys ++ k ∷ []) r
onto-cons keys k (ok ks) = ap ok (sym (append_assoc keys (k ∷ []) ks))
onto-cons keys k (err e) = refl

pub onto-all_keys :
    (w : Bytes) (ws keys : List Bytes) (key : Result ParseError Bytes)
    → onto keys (key >>= λ k. all_keys ws >>= λ ks. ok (k ∷ ks))
      ≡ (key >>= λ k. onto (keys ++ k ∷ []) (all_keys ws))
onto-all_keys w ws keys (ok k) = onto-cons keys k (all_keys ws)
onto-all_keys w ws keys (err e) = refl

-- With fuel for every word the loop collects every key.
pub collect_keys-words :
    (fuel : ℕ) (t : Tokenizer) (keys ws : List Bytes)
    → words t.rest ≡ ws
    → length ws < fuel
    → collect_keys fuel t keys ≡ onto keys (all_keys ws)
unfolding collect_keys all_keys
collect_keys-words zero t keys ws h f = absurd (omega arith)
collect_keys-words (suc fuel) t keys [] h f = rw (head_word t [] h, collect_keys, append-nil)
collect_keys-words (suc fuel) t keys (w ∷ ws) h f =
    rw (head_word t (w ∷ ws) h, collect_keys)
      (ap (λ g. extract_key w >>= g)
          (fun_ext λ k.
            collect_keys-words fuel (next t).1 (keys ++ k ∷ []) ws (tail_words t (w ∷ ws) h)
              (omega arith))
        ∙ sym (onto-all_keys w ws keys (extract_key w)))

pub parse_keys-words :
    (t : Tokenizer) (ws : List Bytes) → words t.rest ≡ ws → parse_keys t ≡ keys_words ws
unfolding parse_keys keys_words all_keys
parse_keys-words t [] h = rw (head_word t [] h, parse_keys)
parse_keys-words t (w ∷ ws) h =
    let enough : length ws < suc (length t.rest) =
      omega (arith, length-words t.rest, ap (length {0} {A = Bytes}) h) in
    rw (head_word t (w ∷ ws) h, parse_keys)
      (ap (λ g. extract_key w >>= g)
        (fun_ext λ k.
          collect_keys-words (suc (length t.rest)) (next t).1 (k ∷ []) ws (tail_words t (w ∷ ws) h)
            enough))

pub parse_get-words :
    (with_cas : Bool) (t : Tokenizer) (ws : List Bytes)
    → words t.rest ≡ ws
    → parse_get with_cas t ≡ get_words with_cas ws
unfolding parse_get get_words
parse_get-words with_cas t ws h = rw (parse_keys-words t ws h)

pub parse_delete-words :
    (t : Tokenizer) (ws : List Bytes) → words t.rest ≡ ws → parse_delete t ≡ delete_words ws
unfolding parse_delete delete_words
parse_delete-words t [] h = rw (head_word t [] h, parse_delete)
parse_delete-words t (w ∷ ws) h = rw (
  head_word t (w ∷ ws) h,
  parse_delete,
  parse_noreply-words (next t).1 ws (tail_words t (w ∷ ws) h),
)

pub bind_cong :
    {A B : Type 0} (m : Result ParseError A) {f g : A → Result ParseError B}
    → ((a : A) → f a ≡ g a)
    → (m >>= f) ≡ (m >>= g)
bind_cong m h = ap (λ k. m >>= k) (fun_ext h)

pub token-noreply :
    (t : Tokenizer) (ws : List Bytes)
    (make : Option ℕ → Result ParseError Bool → Result ParseError CommandHeader)
    → words t.rest ≡ ws
    → (token : Result ParseError ℕ)
    → (◌>>=◌ {U = Option ℕ × Tokenizer} token (λ n. ok (some n, t)) >>= λ r.
        make r.0 (parse_noreply r.1))
      ≡ (◌>>=◌ {U = Option ℕ × List Bytes} token (λ n. ok (some n, ws)) >>= λ r.
          make r.0 (noreply_words r.1))
token-noreply t ws make h (ok n) = ap (make (some n)) (parse_noreply-words t ws h)
token-noreply t ws make h (err e) = refl

-- ===== src/Parser/Skips.antt =====
-- Refusals of a line, by what they say to skip.
use ousagi.Commands.{Command}
use ousagi.Parser.Grammar.{
  end_words, noreply_words, all_keys, keys_words, get_words, delete_words, only_word,
}
use ousagi.Parser.Header.{ParseError}
use ousagi.Parser.Keys.{extract_key-cases}
use ousagi.Parser.Tokens.{extract_key}
use ousagi.Prelude.{
  ℕ, ◌≡◌, refl, inl, inr, Bool, true, false, Option, none, List, [], ◌∷◌, Bytes, codes, bytes_eq,
  Result, ok, err, ◌>>=◌, map_err, if◌then◌else◌,
}

-- A refusal says to skip `d`.
abbrev pub Skips : {A : Type 0} → Option ℕ → Result ParseError A → Type 0
Skips d (ok _) = Unit
Skips d (err e) = e.discard ≡ d

pub Skips-bind :
    {A B : Type 0} (d : Option ℕ) (m : Result ParseError A) (f : A → Result ParseError B)
    → Skips d m
    → ((a : A) → m ≡ ok a → Skips d (f a))
    → Skips d (m >>= f)
Skips-bind d (ok a) f h g = g a refl
Skips-bind d (err e) f h g = h

pub Skips-if :
    {A : Type 0} (d : Option ℕ) (b : Bool) (m n : Result ParseError A)
    → Skips d m
    → Skips d n
    → Skips d (if b then m else n)
Skips-if d true m n h k = h
Skips-if d false m n h k = k

pub map_err-Skips :
    {A D : Type 0} (d : Option ℕ) (f : D → ParseError) (m : Result D A)
    → ((e : D) → (f e).discard ≡ d)
    → Skips d (map_err f m)
map_err-Skips d f (ok a) h = tt
map_err-Skips d f (err e) h = h e

pub extract_key-Skips : (w : Bytes) → Skips none (extract_key w)
extract_key-Skips w = elim (extract_key-cases w) [ inl e ↦ rw e tt | inr e ↦ rw e refl ]

pub noreply_words-Skips : (ws : List Bytes) → Skips none (noreply_words ws)
unfolding noreply_words
noreply_words-Skips [] = tt
noreply_words-Skips (w ∷ []) = Skips-if none (bytes_eq w (codes "noreply")) _ _ tt refl
noreply_words-Skips (_ ∷ _ ∷ _) = refl

all_keys-Skips : (ws : List Bytes) → Skips none (all_keys ws)
unfolding all_keys
all_keys-Skips [] = tt
all_keys-Skips (w ∷ ws) =
    Skips-bind none (extract_key w) _ (extract_key-Skips w)
      λ key _. Skips-bind none (all_keys ws) _ (all_keys-Skips ws) λ keys _. tt

pub keys_words-Skips : (ws : List Bytes) → Skips none (keys_words ws)
unfolding keys_words
keys_words-Skips [] = refl
keys_words-Skips (w ∷ ws) = all_keys-Skips (w ∷ ws)

pub get_words-Skips : (with_cas : Bool) (ws : List Bytes) → Skips none (get_words with_cas ws)
unfolding get_words
get_words-Skips with_cas ws = Skips-bind none (keys_words ws) _ (keys_words-Skips ws) λ keys _. tt

pub delete_words-Skips : (ws : List Bytes) → Skips none (delete_words ws)
unfolding delete_words
delete_words-Skips [] = refl
delete_words-Skips (w ∷ ws) =
    Skips-bind none (extract_key w) _ (extract_key-Skips w)
      λ key _. Skips-bind none (noreply_words ws) _ (noreply_words-Skips ws) λ n _. tt

pub only_word-Skips : (c : Command) (ws : List Bytes) → Skips none (only_word c ws)
unfolding only_word end_words
only_word-Skips c [] = tt
only_word-Skips c (w ∷ ws) = refl

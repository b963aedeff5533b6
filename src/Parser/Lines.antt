-- ===== src/Parser/Lines.antt =====
-- Lines that are written word by word.
use mathlib.Core.List.{append-nil}
use ousagi.Parser.Words.{split_line, words, cons_word}
use ousagi.Prelude.{◌≡◌, ◌≢◌, refl, ap, ◌∙◌, sym, List, [], ◌∷◌, ◌++◌, Bytes, All, arith}

-- A word holds no space and is not empty.
abbrev pub IsWord : Bytes → Type 0
IsWord w = (w ≢ []) × All (λ b. b ≢ b' ') w

-- The words with a space between each and the next.
unfoldable pub join : List Bytes → Bytes
join [] = []
join (w ∷ []) = w
join (w ∷ x ∷ ws) = w ++ b' ' ∷ join (x ∷ ws)

split_line-append :
    (w s : Bytes)
    → All (λ b. b ≢ b' ') w
    → split_line (w ++ s) ≡ (w ++ (split_line s).0, (split_line s).1)
unfolding split_line
split_line-append [] s h = refl
split_line-append (b ∷ w) s (h, hs) = ground (arith, split_line-append w s hs)

cons_word-ne-nil : (w : Bytes) (ws : List Bytes) → w ≢ [] → cons_word w ws ≡ w ∷ ws
cons_word-ne-nil [] ws h = absurd (h refl)
cons_word-ne-nil (b ∷ w) ws h = refl

words-append : (w t : Bytes) → IsWord w → words (w ++ b' ' ∷ t) ≡ w ∷ words t
unfolding words split_line
words-append w t (ne, clean) =
    rw (words, split_line-append w (b' ' ∷ t) clean, append-nil w) (cons_word-ne-nil w (words t) ne)

words-word : (w : Bytes) → IsWord w → words w ≡ w ∷ []
unfolding words split_line
words-word w (ne, clean) =
    ap words (sym (append-nil w))
    ∙ rw (words, split_line-append w [] clean, append-nil w) (cons_word-ne-nil w [] ne)

-- The words are read back from the line.
pub words-join : (ws : List Bytes) → All IsWord ws → words (join ws) ≡ ws
unfolding join
words-join [] h = unfold words split_line in refl
words-join (w ∷ []) (h, _) = words-word w h
words-join (w ∷ x ∷ ws) (h, hs) =
    words-append w (join (x ∷ ws)) h ∙ ap (λ l. w ∷ l) (words-join (x ∷ ws) hs)

-- ===== src/Connection/Plain.antt =====
-- Lines of printable bytes, as src/connection.rs cuts them off the stream.
use ousagi.Atoi.{int_to_string}
use ousagi.Connection.Frames.{first_line}
use ousagi.Connection.Reads.{strip_end}
use ousagi.Parser.Header.{CommandHeader}
use ousagi.Parser.Keys.{IsKey}
use ousagi.Parser.Lines.{join}
use ousagi.Parser.Printing.{letters, letters-All, print, header_words, header_words-All}
use ousagi.Parser.WellFormed.{IsHeader}
use ousagi.Prelude.{
  ℕ, suc, ◌≤◌, ◌≡◌, refl, ap, true, some, List, [], ◌∷◌, ◌++◌, Bytes, codes, length, take, drop,
  All, All-map, All-append, ℤ, pos, negsuc, arith,
}
use ousagi.Text.{to_string}
use ousagi.Text.Decimal.{to_string-IsDigit}

-- Bytes that stand in a line.
abbrev pub IsPlain : Bytes → Type 0
IsPlain s = All (λ b. 0x20 ≤ b) s

pub first_line-crlf :
    (h rest : Bytes)
    → IsPlain h
    → first_line (h ++ (codes "\r\n" ++ rest)) ≡ some (h ++ codes "\r\n", rest)
unfolding first_line
first_line-crlf [] rest p = ground arith
first_line-crlf (b ∷ h) rest (p, ps) = ground (arith, first_line-crlf h rest ps)

pub strip_end-crlf : (h : Bytes) → IsPlain h → strip_end (h ++ codes "\r\n") ≡ h
unfolding strip_end
strip_end-crlf [] p = refl
strip_end-crlf (b ∷ []) (p, ps) = ground arith
strip_end-crlf (b ∷ d ∷ h) (p, ps) = rw (strip_end-crlf (d ∷ h) ps) refl

pub join-IsPlain : (ws : List Bytes) → All IsPlain ws → IsPlain (join ws)
unfolding join
join-IsPlain [] p = tt
join-IsPlain (w ∷ []) (p, _) = p
join-IsPlain (w ∷ x ∷ ws) (p, ps) =
    All-append _ w (b' ' ∷ join (x ∷ ws)) p (omega arith, join-IsPlain (x ∷ ws) ps)

pub to_string-IsPlain : (n : ℕ) → IsPlain (to_string n)
to_string-IsPlain n = All-map (to_string n) (λ b (lo, hi). omega (arith, lo)) (to_string-IsDigit n)

pub key-IsPlain : (key : Bytes) → IsKey key → IsPlain key
key-IsPlain key h = All-map key (λ b fits. omega (arith, fits.0)) h.2

pub take-length-append : (s t : Bytes) → take (length s) (s ++ t) ≡ s
take-length-append [] t = refl
take-length-append (b ∷ s) t = ap (λ l. b ∷ l) (take-length-append s t)

pub drop-length-append : (s t : Bytes) → drop (length s) (s ++ t) ≡ t
drop-length-append [] t = refl
drop-length-append (b ∷ s) t = drop-length-append s t

letters-IsPlain : (b : ℕ) (w : Bytes) → letters (b ∷ w) ≡ true → IsPlain (b ∷ w)
letters-IsPlain b w h = All-map (b ∷ w) (λ c lo. omega (arith, lo)) (letters-All (b ∷ w) h)

int_to_string-IsPlain : (z : ℤ) → IsPlain (int_to_string z)
unfolding int_to_string
int_to_string-IsPlain (pos n) = to_string-IsPlain n
int_to_string-IsPlain (negsuc n) = (omega arith, to_string-IsPlain (suc n))

-- The line of a well-formed header.
pub print-IsPlain : (h : CommandHeader) → IsHeader h → IsPlain (print h)
unfolding print
print-IsPlain h valid = join-IsPlain (header_words h) (
    header_words-All IsPlain letters-IsPlain to_string-IsPlain int_to_string-IsPlain key-IsPlain h
      valid)

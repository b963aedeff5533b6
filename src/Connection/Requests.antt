-- ===== src/Connection/Requests.antt =====
-- The bytes of a client that writes well-formed commands, and what the protocol of src/connection.rs
-- gives for them.
use ousagi.Atoi.{Atoi}
use ousagi.Commands.{Command}
use ousagi.Connection.Frames.{first_line, in_front}
use ousagi.Connection.Plain.{first_line-crlf, strip_end-crlf, print-IsPlain}
use ousagi.Connection.Protocol.{
  Next, ended, next, Gives, ends, quits, runs, stores, refuses, bad_chunk, too_long, StartsWith,
}
use ousagi.Connection.Reads.{strip_end}
use ousagi.Connection.Streams.{Streams}
use ousagi.Parser.Header.{PendingStore, into_command, CommandHeader, immediate, store}
use ousagi.Parser.Printing.{print}
use ousagi.Parser.RoundTrip.{parse_command_line-print}
use ousagi.Parser.WellFormed.{IsHeader}
use ousagi.Parser.{parse_command_line}
use ousagi.Prelude.{
  ℕ, suc, ◌+◌, ◌≤◌, ◌<◌, ◌≡◌, refl, ap, ◌∙◌, sym, inl, inr, Bool-cases, Option, none, some, List,
  [], ◌∷◌, ◌++◌, Bytes, codes, length, length-append, ok, ◌==◌, arith,
}

-- A command as a client writes it: a line, and behind that of a storage command its payload.
pub data Request : Type 0 where
  line_only : Command → Request
  with_payload : PendingStore → Bytes → Request

abbrev pub header_of : Request → CommandHeader
header_of (line_only cmd) = immediate cmd
header_of (with_payload p payload) = store p

abbrev pub command_of_request : Request → Command
command_of_request (line_only cmd) = cmd
command_of_request (with_payload p payload) = into_command p payload

abbrev payload_part : Request → Bytes → Bytes
payload_part (line_only cmd) rest = rest
payload_part (with_payload p payload) rest = payload ++ (codes "\r\n" ++ rest)

-- The bytes of the requests, one after the other.
abbrev pub encode : List Request → Bytes
encode [] = []
encode (r ∷ rs) = print (header_of r) ++ (codes "\r\n" ++ payload_part r (encode rs))

abbrev HasPayload : Request → Type 0
HasPayload (line_only cmd) = Unit {0}
HasPayload (with_payload p payload) = length payload ≡ p.len

-- Its header is well-formed, its line fits into the buffer, and its payload has the announced length.
pub record IsRequest (r : Request) : Type 0 where
  pub header : IsHeader (header_of r)
  pub short : length (print (header_of r)) + 2 ≤ 8192
  pub payload : HasPayload r

in_front-none : (b : ℕ) (o : Option (Bytes × Bytes)) → in_front b o ≡ none → o ≡ none
in_front-none b none h = refl
in_front-none b (some _) h = cc

in_front-some :
    (b : ℕ) (o : Option (Bytes × Bytes)) (raw after : Bytes)
    → in_front b o ≡ some (raw, after)
    → (raw' : Bytes) × (o ≡ some (raw', after)) × (length raw ≡ suc (length raw'))
in_front-some b none raw after h = cc
in_front-some b (some (raw', after')) raw after h =
    let same : after' ≡ after = cc in
    let line : b ∷ raw' ≡ raw = cc in (raw', rw same refl, rw (← line) refl)

-- A line feed behind `start` makes a longer line.
longer_line :
    (start rest raw after : Bytes)
    → first_line start ≡ none
    → first_line (start ++ rest) ≡ some (raw, after)
    → length start < length raw
unfolding first_line
longer_line [] rest [] after h k = absurd (nothing rest k)
  where
    nothing : (s : Bytes) → first_line s ≡ some ([], after) → ⊥
    nothing [] e = cc
    nothing (b ∷ s) e = ground arith
longer_line [] rest (b ∷ raw) after h k = omega arith
longer_line (b ∷ start) rest raw after h k = elim (Bool-cases (b == b'\n')) [
  | inl feed ↦ cc (rw feed at h)
  | inr other ↦
      let none_before = in_front-none b (first_line start) (rw other at h) in
      let (raw', found, size) =
        in_front-some b (first_line (start ++ rest)) raw after (rw other at k) in
      omega (arith, size, longer_line start rest raw' after none_before found)
]

append-injective : (a b x y : Bytes) → length a ≡ length b → a ++ x ≡ b ++ y → (a ≡ b) × (x ≡ y)
append-injective [] [] x y h e = (refl, e)
append-injective [] (c ∷ b) x y h e = absurd (omega (arith, h))
append-injective (c ∷ a) [] x y h e = absurd (omega (arith, h))
append-injective (c ∷ a) (d ∷ b) x y h e =
    let heads : c ≡ d = cc in
    let (same, rest) = append-injective a b x y (omega (arith, h)) (cc e) in
    (cc (heads, same), rest)

same_line :
    (before raw rest line rest' : Bytes)
    → first_line before ≡ some (raw, rest)
    → StartsWith before line rest'
    → (line ≡ strip_end raw) × (rest' ≡ rest)
same_line before raw rest line rest' found (raw', found', cut) =
    let same : raw' ≡ raw = cc (found, found') in
    let rests : rest' ≡ rest = cc (found, found') in (cut ∙ ap strip_end same, rests)

module _ (S : Streams) (atoi : Atoi) where
  -- A line that is a whole command.
  Gives-immediate :
      {before answers after : Bytes} {n : Next} (raw rest : Bytes) (cmd : Command)
      → first_line before ≡ some (raw, rest)
      → length raw ≤ 8192
      → parse_command_line atoi (strip_end raw) ≡ ok (immediate cmd)
      → Gives S atoi before answers after n
      → (answers ≡ []) × (after ≡ rest) × (n ≡ next cmd)
  Gives-immediate raw rest cmd found short parsed (ends no_feed) = cc (found, no_feed)
  Gives-immediate {before} raw rest cmd found short parsed (quits line after starts parsed') =
      let (same, _) = same_line before raw rest line after found starts in
      cc (parsed, rw same at parsed')
  Gives-immediate {before} raw rest cmd found short parsed (runs line after cmd' starts parsed') =
      let (same, rests) = same_line before raw rest line after found starts in
      let commands : cmd' ≡ cmd = cc (parsed, rw same at parsed') in (refl, rests, ap next commands)
  Gives-immediate {before} raw rest cmd found short parsed
        (stores line payload after p starts parsed' size) =
      let (same, _) = same_line before raw rest line _ found starts in
      cc (parsed, rw same at parsed')
  Gives-immediate {before} raw rest cmd found short parsed (refuses line rest' e starts parsed' _) =
      let (same, _) = same_line before raw rest line rest' found starts in
      cc (parsed, rw same at parsed')
  Gives-immediate {before} raw rest cmd found short parsed
        (bad_chunk line payload end rest' p starts parsed' _ _ _ _) =
      let (same, _) = same_line before raw rest line _ found starts in
      cc (parsed, rw same at parsed')
  Gives-immediate raw rest cmd found short parsed (too_long start rest' long no_feed _) =
      absurd (omega (arith, short, long, longer_line start rest' raw rest no_feed found))

  -- A line that announces the payload behind it.
  Gives-store :
      {before answers after : Bytes} {n : Next} (raw payload rest : Bytes) (p : PendingStore)
      → first_line before ≡ some (raw, payload ++ (codes "\r\n" ++ rest))
      → length raw ≤ 8192
      → parse_command_line atoi (strip_end raw) ≡ ok (store p)
      → length payload ≡ p.len
      → Gives S atoi before answers after n
      → (answers ≡ []) × (after ≡ rest) × (n ≡ next (into_command p payload))
  Gives-store raw payload rest p found short parsed size (ends no_feed) = cc (found, no_feed)
  Gives-store {before} raw payload rest p found short parsed size
        (quits line after starts parsed') =
      let (same, _) = same_line before raw _ line after found starts in
      cc (parsed, rw same at parsed')
  Gives-store {before} raw payload rest p found short parsed size
        (runs line after cmd' starts parsed') =
      let (same, _) = same_line before raw _ line after found starts in
      cc (parsed, rw same at parsed')
  Gives-store {before} raw payload rest p found short parsed size
        (stores line payload' after p' starts parsed' size') =
      let (same, rests) = same_line before raw _ line _ found starts in
      let pending : p' ≡ p = cc (parsed, rw same at parsed') in
      let sizes : length payload' ≡ length payload = size' ∙ ap (λ q. q.len) pending ∙ sym size in
      let (payloads, behind) =
        append-injective payload' payload (codes "\r\n" ++ after) (codes "\r\n" ++ rest) sizes
          rests in
      let (_, afters) = append-injective (codes "\r\n") (codes "\r\n") after rest refl behind in
      (refl, afters, rw (pending, payloads) refl)
  Gives-store {before} raw payload rest p found short parsed size
        (refuses line rest' e starts parsed' _) =
      let (same, _) = same_line before raw _ line rest' found starts in
      cc (parsed, rw same at parsed')
  Gives-store {before} raw payload rest p found short parsed size
        (bad_chunk line payload' end rest' p' starts parsed' size' two other _) =
      let (same, rests) = same_line before raw _ line _ found starts in
      let pending : p' ≡ p = cc (parsed, rw same at parsed') in
      let sizes : length payload' ≡ length payload = size' ∙ ap (λ q. q.len) pending ∙ sym size in
      let (_, behind) =
        append-injective payload' payload (end ++ rest') (codes "\r\n" ++ rest) sizes rests in
      absurd (other (append-injective end (codes "\r\n") rest' rest two behind).0)
  Gives-store raw payload rest p found short parsed size (too_long start rest' long no_feed _) =
      absurd (omega (arith, short, long, longer_line start rest' raw _ no_feed found))

  -- A request gives its command and nothing else.
  pub Gives-encode :
      {before answers after : Bytes} {n : Next} (r : Request) (rs : List Request)
      → IsRequest r
      → before ≡ encode (r ∷ rs)
      → Gives S atoi before answers after n
      → (answers ≡ []) × (after ≡ encode rs) × (n ≡ next (command_of_request r))
  Gives-encode (line_only cmd) rs valid e g =
      let line = print (immediate cmd) in
      let plain = print-IsPlain (immediate cmd) valid.header in
      Gives-immediate (line ++ codes "\r\n") (encode rs) cmd
        (rw e (first_line-crlf line (encode rs) plain))
        (omega (arith, valid.short, length-append line (codes "\r\n")))
        (rw (strip_end-crlf line plain)
          (parse_command_line-print atoi (immediate cmd) valid.header))
        g
  Gives-encode (with_payload p payload) rs valid e g =
      let line = print (store p) in
      let plain = print-IsPlain (store p) valid.header in
      Gives-store (line ++ codes "\r\n") payload (encode rs) p
        (rw e (first_line-crlf line (payload ++ (codes "\r\n" ++ encode rs)) plain))
        (omega (arith, valid.short, length-append line (codes "\r\n")))
        (rw (strip_end-crlf line plain) (parse_command_line-print atoi (store p) valid.header))
        valid.payload g

  -- The end of the stream gives nothing more.
  pub Gives-nil :
      {before answers after : Bytes} {n : Next}
      → before ≡ []
      → Gives S atoi before answers after n
      → (answers ≡ []) × (n ≡ ended)
  unfolding first_line
  Gives-nil e (ends no_feed) = (refl, refl)
  Gives-nil e (quits line after (raw, found, _) _) = cc (rw e at found)
  Gives-nil e (runs line after cmd (raw, found, _) _) = cc (rw e at found)
  Gives-nil e (stores line payload after p (raw, found, _) _ _) = cc (rw e at found)
  Gives-nil e (refuses line rest err (raw, found, _) _ _) = cc (rw e at found)
  Gives-nil e (bad_chunk line payload end rest p (raw, found, _) _ _ _ _ _) = cc (rw e at found)
  Gives-nil e (too_long start rest long _ _) =
      absurd (omega (arith, long, length-append start rest, ap (length {0}) e))

-- ===== src/Connection/Protocol.antt =====
-- The protocol of src/connection.rs as a relation over the bytes of the stream: which command comes
-- next, what is answered to the lines before it, and where the stream goes on.
use ousagi.Atoi.{Atoi}
use ousagi.Commands.{Command, Response}
use ousagi.Connection.Discards.{after_line}
use ousagi.Connection.Frames.{first_line}
use ousagi.Connection.Reads.{strip_end}
use ousagi.Connection.Rounds.{length-drop, length-after_line, length-first_line}
use ousagi.Connection.Texts.{text}
use ousagi.Connection.Streams.{Streams}
use ousagi.Parser.Header.{ParseError, response, into_command, PendingStore, immediate, store, quit}
use ousagi.Parser.{parse_command_line}
use ousagi.Prelude.{
  ℕ, ◌≤◌, ◌<◌, ◌≡◌, ◌≢◌, Option, none, some, [], ◌++◌, Bytes, codes, length, length-append, drop,
  ok, err, arith,
}

-- The bytes that an error skips behind its line.
abbrev pub skipping : Option ℕ → Bytes → Bytes
skipping none s = s
skipping (some n) s = drop n s

length-skipping : (n : Option ℕ) (s : Bytes) → length (skipping n s) ≤ length s
length-skipping none s = omega arith
length-skipping (some n) s = length-drop n s

-- What comes next: a command, or one of the two ends of a session.
pub data Next : Type 0 where
  ended quitted : Next
  next : Command → Next

abbrev pub command_of : Next → Option Command
command_of ended = none
command_of quitted = none
command_of (next cmd) = some cmd

-- The line that a stream starts with, without its end, and the rest.
abbrev pub StartsWith : Bytes → Bytes → Bytes → Type 0
StartsWith before line rest =
    (raw : Bytes) × (first_line before ≡ some (raw, rest)) × (line ≡ strip_end raw)

module _ (S : Streams) (atoi : Atoi) where
  -- From `before`, the answers `answers` are given, then `r` comes next, and
  -- the stream goes on with `after`. A line that starts with 8192 bytes or more may be too long; it
  -- is refused or taken, by what is in the buffer.
  pub data Gives : Bytes → Bytes → Bytes → Next → Type 0 where
    ends : {before : Bytes} → first_line before ≡ none → Gives before [] before ended
    quits :
        {before : Bytes} (line after : Bytes)
        → StartsWith before line after
        → parse_command_line atoi line ≡ ok quit
        → Gives before [] after quitted
    runs :
        {before : Bytes} (line after : Bytes) (cmd : Command)
        → StartsWith before line after
        → parse_command_line atoi line ≡ ok (immediate cmd)
        → Gives before [] after (next cmd)
    stores :
        {before : Bytes} (line payload after : Bytes) (p : PendingStore)
        → StartsWith before line (payload ++ (codes "\r\n" ++ after))
        → parse_command_line atoi line ≡ ok (store p)
        → length payload ≡ p.len
        → Gives before [] after (next (into_command p payload))
    refuses :
        {before answers after : Bytes} {r : Next} (line rest : Bytes) (e : ParseError)
        → StartsWith before line rest
        → parse_command_line atoi line ≡ err e
        → Gives (skipping e.discard rest) answers after r
        → Gives before (text S (response e) ++ answers) after r
    bad_chunk :
        {before answers after : Bytes} {r : Next} (line payload end rest : Bytes) (p : PendingStore)
        → StartsWith before line (payload ++ (end ++ rest))
        → parse_command_line atoi line ≡ ok (store p)
        → length payload ≡ p.len
        → length end ≡ 2
        → end ≢ codes "\r\n"
        → Gives rest answers after r
        → Gives before (text S (Response.client_error "bad data chunk") ++ answers) after r
    too_long :
        {answers after : Bytes} {r : Next} (start rest : Bytes)
        → 8192 ≤ length start
        → first_line start ≡ none
        → Gives (after_line (start ++ rest)) answers after r
        → Gives (start ++ rest) (text S (Response.client_error "line too long") ++ answers) after r

  -- A command has taken bytes off the stream.
  pub length-Gives :
      {before answers after : Bytes} {r : Next} (cmd : Command)
      → Gives before answers after r
      → r ≡ next cmd
      → length after < length before
  length-Gives cmd (ends _) is = cc
  length-Gives cmd (quits _ _ _ _) is = cc
  length-Gives cmd (runs line after _ (raw, found, _) _) is = length-first_line _ raw after found
  length-Gives cmd (stores line payload after p (raw, found, _) _ _) is =
      let taken = length-first_line _ raw (payload ++ (codes "\r\n" ++ after)) found in
      omega (
        arith,
        taken,
        length-append payload (codes "\r\n" ++ after),
        length-append (codes "\r\n") after,
      )
  length-Gives cmd (refuses line rest e (raw, found, _) _ g) is =
      let later = length-Gives cmd g is in
      omega (arith, length-first_line _ raw rest found, length-skipping e.discard rest, later)
  length-Gives cmd (bad_chunk line payload end rest p (raw, found, _) _ _ _ _ g) is =
      let taken = length-first_line _ raw (payload ++ (end ++ rest)) found in
      let later = length-Gives cmd g is in
      omega (arith, taken, length-append payload (end ++ rest), length-append end rest, later)
  length-Gives cmd (too_long start rest long _ g) is =
      let some_bytes : 0 < length (start ++ rest) = omega (arith, long, length-append start rest) in
      let later = length-Gives cmd g is in
      omega (arith, later, length-after_line (start ++ rest) some_bytes)

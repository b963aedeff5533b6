-- ===== src/Connection/Commands.antt =====
-- src/connection.rs: `read_command`.
use ousagi.Atoi.{Atoi}
use ousagi.Commands.{Command, Response}
use ousagi.Connection.Answers.{write_response}
use ousagi.Connection.Reads.{
  IoError, failed, ReadLineError, too_long, PayloadError, bad_chunk, Connection, LineResult,
  read_line, PayloadResult, read_payload, discard_exact, discard_until_newline,
}
use ousagi.Connection.Streams.{Streams}
use ousagi.Parser.Header.{
  ParseError, response, into_command, PendingStore, CommandHeader, immediate, store, quit,
}
use ousagi.Parser.{parse_command_line}
use ousagi.Prelude.{ℕ, zero, suc, Option, none, some, Result, ok, err}

module _ (S : Streams) (atoi : Atoi) where
  -- What a round of the loop comes to: a return, or `continue`.
  pub data Round : Type 0 where
    done : Result IoError (Option Command) → Connection S → Round
    again : Connection S → Round

  -- `write_response`, then `continue`.
  unfoldable pub refuse : Response → Connection S → Round
  unfolding write_response
  refuse resp c = elim (write_response S resp c) [ none ↦ done (err failed) c | some c' ↦ again c' ]

  abbrev pub refuse_after : Response → Connection S → Option (Connection S) → Round
  refuse_after resp c none = done (err failed) c
  refuse_after resp c (some c') = refuse resp c'

  -- A line that is too long is dropped up to its end.
  abbrev pub dropped : Connection S → Option (Option (Connection S)) → Option Round
  dropped c none = none
  dropped c (some discarded) =
      some (refuse_after (Response.client_error "line too long") c discarded)

  abbrev pub discard_payload : Option ℕ → Connection S → Option (Connection S)
  discard_payload none c = some c
  discard_payload (some n) c = discard_exact S n c

  abbrev pub refuse_line : ParseError → Connection S → Round
  refuse_line e c = refuse_after (response e) c (discard_payload e.discard c)

  abbrev pub with_payload : PendingStore → Option (PayloadResult S) → Option Round
  with_payload pending none = none
  with_payload pending (some (ok payload, c)) =
      some (done (ok (some (into_command pending payload))) c)
  with_payload pending (some (err (PayloadError.io e), c)) = some (done (err e) c)
  with_payload pending (some (err bad_chunk, c)) =
      some (refuse (Response.client_error "bad data chunk") c)

  unfoldable pub on_header : ℕ → Result ParseError CommandHeader → Connection S → Option Round
  unfolding refuse read_payload discard_exact
  on_header fuel (err e) c = some (refuse_line e c)
  on_header fuel (ok (immediate cmd)) c = some (done (ok (some cmd)) c)
  on_header fuel (ok (store pending)) c = with_payload pending (read_payload S fuel pending.len c)
  on_header fuel (ok quit) c = some (done (ok none) c)

  unfoldable pub on_line : ℕ → Option (LineResult S) → Option Round
  unfolding on_header refuse discard_until_newline parse_command_line
  on_line fuel none = none
  on_line fuel (some (ok (some line), c)) = on_header fuel (parse_command_line atoi line) c
  on_line fuel (some (ok none, c)) = some (done (ok none) c)
  on_line fuel (some (err too_long, c)) = dropped c (discard_until_newline S fuel c)
  on_line fuel (some (err (ReadLineError.io e), c)) = some (done (err e) c)

  unfoldable pub read_command :
      ℕ → Connection S → Option (Result IoError (Option Command) × Connection S)
  unfolding on_line read_line
  read_command zero c = none
  read_command (suc fuel) c = elim (on_line (suc fuel) (read_line S (suc fuel) c)) [
    | none ↦ none
    | some (done r c') ↦ some (r, c')
    | some (again c') ↦ read_command fuel c'
  ]

-- ===== src/Session.antt =====
-- src/session.rs: `process`, from the connection it makes of the socket.
pub mod Protocol
pub mod Requests
use ousagi.Atoi.{Atoi}
use ousagi.Commands.{Command, Response, noreply}
use ousagi.Connection.Answers.{write_response}
use ousagi.Connection.Commands.{read_command}
use ousagi.Connection.Reads.{IoError, failed, Connection, connect}
use ousagi.Connection.Streams.{Streams}
use ousagi.Handler.{handle}
use ousagi.Prelude.{ℕ, zero, suc, Option, none, some, Result, ok, err, if◌then◌else◌}
use ousagi.Store.Cache.{Cache}
use ousagi.Store.Inner.{Store}

module _ (S : Streams) (atoi : Atoi) (C : Cache) where
  abbrev pub Ended : Type 0
  Ended = Result IoError (Unit {0}) × Connection S × Store C

  -- The response, unless the client wants none.
  unfoldable pub reply : Command → Response → Connection S → Option (Connection S)
  unfolding write_response noreply
  reply cmd resp c = if noreply cmd then some c else write_response S resp c

  unfoldable pub serve : ℕ → Connection S → Store C → Option Ended
  unfolding read_command reply handle
  serve zero c s = none
  serve (suc fuel) c s = elim (read_command S atoi fuel c) [
    | none ↦ none
    | some (err e, c') ↦ some (err e, c', s)
    | some (ok none, c') ↦ some (ok tt, c', s)
    | some (ok (some cmd), c') ↦
        let (resp, s') = handle C cmd s in
        elim (reply cmd resp c') [ none ↦ some (err failed, c', s') | some c'' ↦ serve fuel c'' s' ]
  ]

  unfoldable pub process : ℕ → S.Reader → S.Writer → Store C → Option Ended
  unfolding serve
  process fuel r w s = serve fuel (connect S r w) s

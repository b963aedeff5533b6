-- ===== src/Connection/Loop.antt =====
-- How many rounds are enough for `read_command`.
use ousagi.Atoi.{Atoi}
use ousagi.Connection.Commands.{
  done, again, dropped, with_payload, on_header, on_line, read_command,
}
use ousagi.Connection.Discards.{discard_until_newline-total}
use ousagi.Connection.Frames.{stream, Frames, read_line-Frames, read_line-total}
use ousagi.Connection.Fuel.{read_payload-total}
use ousagi.Connection.Reads.{
  ReadLineError, too_long, PayloadError, bad_chunk, Connection, LineResult, PayloadResult,
  read_line, read_payload, discard_until_newline,
}
use ousagi.Connection.Rounds.{on_line-shorter}
use ousagi.Connection.Streams.{Streams}
use ousagi.Parser.Header.{
  max_item_size, ParseError, PendingStore, CommandHeader, immediate, store, quit,
}
use ousagi.Parser.WellFormed.{parse_command_line-IsHeader}
use ousagi.Parser.{parse_command_line}
use ousagi.Prelude.{
  ℕ, zero, suc, ◌+◌, ◌<◌, ◌≡◌, ◌≢◌, refl, ap, inl, inr, Option, none, some, Bytes, length,
  length-append, Result, ok, err, arith, Option-cases,
}

module _ (S : Streams) (atoi : Atoi) where
  with_payload-total :
      (p : PendingStore) (o : Option (PayloadResult S)) → o ≢ none → with_payload S atoi p o ≢ none
  with_payload-total p none h = absurd (h refl)
  with_payload-total p (some (ok payload, c)) h = λ e. cc
  with_payload-total p (some (err (PayloadError.io _), c)) h = λ e. cc
  with_payload-total p (some (err bad_chunk, c)) h = λ e. cc

  on_header-total :
      (fuel : ℕ) (line : Bytes) (o : Result ParseError CommandHeader) (c : Connection S)
      → parse_command_line atoi line ≡ o
      → max_item_size + 2 < fuel
      → on_header S atoi fuel o c ≢ none
  unfolding on_header
  on_header-total fuel line (err e) c parsed h = λ e. cc
  on_header-total fuel line (ok (immediate cmd)) c parsed h = λ e. cc
  on_header-total fuel line (ok (store p)) c parsed h =
      let len = (parse_command_line-IsHeader atoi line (store p) parsed).len in
      with_payload-total p (read_payload S fuel p.len c)
        (read_payload-total S fuel p.len c (omega (arith, h, len)))
  on_header-total fuel line (ok quit) c parsed h = λ e. cc

  dropped-total :
      (c : Connection S) (o : Option (Option (Connection S))) → o ≢ none → dropped S atoi c o ≢ none
  dropped-total c none h = absurd (h refl)
  dropped-total c (some o) h = λ e. cc

  on_line-total :
      (fuel : ℕ) (before : Bytes) (x : LineResult S)
      → max_item_size + 2 + length before < fuel
      → Frames S before x
      → on_line S atoi fuel (some x) ≢ none
  unfolding on_line
  on_line-total fuel before (ok (some line), c) h f =
      on_header-total fuel line (parse_command_line atoi line) c refl (omega (arith, h))
  on_line-total fuel before (ok none, c) h f = λ e. cc
  on_line-total fuel before (err too_long, c) h (_, _, same) =
      let size : length (stream S c) ≡ length before = ap length same in
      dropped-total c (discard_until_newline S fuel c) (
        discard_until_newline-total S fuel c
          (omega (arith, h, size, length-append c.buffer (S.unread c.reader))))
  on_line-total fuel before (err (ReadLineError.io _), c) h f = λ e. cc

  -- If each loop may take more rounds than the bytes of the stream and 1048578, the largest
  -- payload and its line end, together, then `read_command` returns: a command, the end of the
  -- connection or an error.
  pub read_command-total :
      (fuel : ℕ) (c : Connection S)
      → max_item_size + 2 + length (stream S c) < fuel
      → read_command S atoi fuel c ≢ none
  unfolding read_command
  read_command-total zero c h = absurd (omega arith)
  read_command-total (suc fuel) c h = elim (Option-cases (read_line S (suc fuel) c)) [
    | inl spent ↦ absurd (read_line-total S (suc fuel) c (omega (arith, h)) spent)
    | inr (x, e) ↦
        let framed = read_line-Frames S (suc fuel) c x e in
        elim (Option-cases (on_line S atoi (suc fuel) (some x))) [
          | inl spent ↦ absurd (on_line-total (suc fuel) (stream S c) x h framed spent)
          | inr (done r c', round) ↦ rw (read_command, e, round) (λ k. cc)
          | inr (again c', round) ↦
              rw (read_command, e, round) (read_command-total fuel c' (shorter x c' framed round))
        ]
  ]
    where
      shorter :
          (x : LineResult S) (c' : Connection S)
          → Frames S (stream S c) x
          → on_line S atoi (suc fuel) (some x) ≡ some (again c')
          → max_item_size + 2 + length (stream S c') < fuel
      shorter x c' framed round =
          let less : length (stream S c') < length (stream S c) =
            rw round at (on_line-shorter S atoi (suc fuel) (stream S c) x framed) in
          omega (arith, less, h)

-- ===== src/Connection/Steps.antt =====
-- What a round of the loop in `read_command` of src/connection.rs means for the bytes of the stream
-- and of the writer.
use ousagi.Atoi.{Atoi}
use ousagi.Commands.{Response}
use ousagi.Connection.Answers.{write_response}
use ousagi.Connection.Commands.{
  Round, done, again, refuse, refuse_after, dropped, discard_payload, with_payload, on_header,
  on_line,
}
use ousagi.Connection.Discards.{after_line, discard_exact-drop, discard_until_newline-after_line}
use ousagi.Connection.Frames.{stream, Frames, WhenSome, WhenSome-intro}
use ousagi.Connection.Payloads.{PayloadFrames, read_payload-PayloadFrames}
use ousagi.Connection.Protocol.{
  Next, ended, quitted, next, command_of, Gives, ends, quits, runs, stores, refuses, bad_chunk,
  too_long, skipping, StartsWith,
}
use ousagi.Connection.Reads.{
  IoError, failed, ReadLineError, PayloadError, Connection, LineResult, PayloadResult, read_line,
  read_payload, discard_exact, discard_until_newline,
}
use ousagi.Connection.Reads
use ousagi.Connection.Accepted.{
  accepted, read_payload-accepted, discard_exact-accepted, discard_until_newline-accepted,
}
use ousagi.Connection.Texts.{text, write_response-text}
use ousagi.Connection.Delivered.{Delivered}
use ousagi.Connection.Streams.{Streams}
use ousagi.Parser.Header.{
  ParseError, response, PendingStore, into_command, CommandHeader, immediate, store, quit,
}
use ousagi.Parser.{parse_command_line}
use ousagi.Prelude.{
  ℕ, ◌≡◌, refl, ap, ◌∙◌, inl, inr, Option, none, some, [], ◌++◌, Bytes, Result, ok, err,
  Option-cases,
}

module _ (S : Streams) (atoi : Atoi) where
  -- What a round means, if it goes on or gives a command or the end: `out` is what the writer was
  -- handed before it.
  abbrev pub Steps : Bytes → Bytes → Round S atoi → Type 0
  Steps before out (done (ok r) c) =
      (n : Next) × Gives S atoi before [] (stream S c) n
      × (command_of n ≡ r)
      × (accepted S c ≡ out)
      × (n ≡ ended → Delivered S c)
  Steps before out (done (err _) c) = Unit
  Steps before out (again c) =
      (answer : Bytes) × (accepted S c ≡ out ++ answer)
      × ((answers after : Bytes) (r : Next)
          → Gives S atoi (stream S c) answers after r
          → Gives S atoi before (answer ++ answers) after r)

  refuse-Steps :
      (before out : Bytes) (resp : Response) (c : Connection S)
      → accepted S c ≡ out
      → ((answers after : Bytes) (r : Next)
          → Gives S atoi (stream S c) answers after r
          → Gives S atoi before (text S resp ++ answers) after r)
      → Steps before out (refuse S atoi resp c)
  unfolding refuse
  refuse-Steps before out resp c told then = elim (Option-cases (write_response S resp c)) [
    | inl broken ↦ rw (refuse, broken) tt
    | inr (c', e) ↦
        let (same, more) = write_response-text S resp c c' e in
        rw (refuse, e)
          (
            text S resp,
            more ∙ ap (λ b. b ++ text S resp) told,
            λ answers after r g. then answers after r (rw same at g),
          )
  ]

  refuse_after-Steps :
      (before out rest : Bytes) (resp : Response) (c : Connection S) (o : Option (Connection S))
      → ((c' : Connection S) → o ≡ some c' → (accepted S c' ≡ out) × (stream S c' ≡ rest))
      → ((answers after : Bytes) (r : Next)
          → Gives S atoi rest answers after r
          → Gives S atoi before (text S resp ++ answers) after r)
      → Steps before out (refuse_after S atoi resp c o)
  refuse_after-Steps before out rest resp c none at_rest then = tt
  refuse_after-Steps before out rest resp c (some c') at_rest then =
      let (told, now) = at_rest c' refl in
      refuse-Steps before out resp c' told λ answers after r g. then answers after r (rw now at g)

  discard_payload-skipping :
      (n : Option ℕ) (c c' : Connection S)
      → discard_payload S atoi n c ≡ some c'
      → (accepted S c' ≡ accepted S c) × (stream S c' ≡ skipping n (stream S c))
  discard_payload-skipping none c c' h = let same : c ≡ c' = cc in rw (← same) (refl, refl)
  discard_payload-skipping (some n) c c' h =
      (discard_exact-accepted S n c c' h, discard_exact-drop S n c c' h)

  with_payload-Steps :
      (before out line rest : Bytes) (p : PendingStore) (o : Option (PayloadResult S))
      → StartsWith before line rest
      → parse_command_line atoi line ≡ ok (store p)
      → WhenSome (PayloadFrames S p.len rest) o
      → WhenSome (λ x. accepted S x.1 ≡ out) o
      → WhenSome (Steps before out) (with_payload S atoi p o)
  with_payload-Steps before out line rest p none starts parsed f told = tt
  with_payload-Steps before out line rest p (some (ok payload, c)) starts parsed (size, cut) told =
      (
        next (into_command p payload),
        stores line payload (stream S c) p (rw cut at starts) parsed size,
        refl,
        told,
        λ e. cc,
      )
  with_payload-Steps before out line rest p (some (err (PayloadError.io e), c)) starts parsed f
        told =
      tt
  with_payload-Steps before out line rest p (some (err Reads.bad_chunk, c)) starts parsed
        (payload, end, size, two, other, cut) told =
      refuse-Steps before out _ c told λ answers after r g.
        bad_chunk line payload end (stream S c) p (rw cut at starts) parsed size two other g

  on_header-Steps :
      (fuel : ℕ) (before out line : Bytes) (o : Result ParseError CommandHeader) (c : Connection S)
      → StartsWith before line (stream S c)
      → parse_command_line atoi line ≡ o
      → accepted S c ≡ out
      → WhenSome (Steps before out) (on_header S atoi fuel o c)
  unfolding on_header
  on_header-Steps fuel before out line (err e) c starts parsed told =
      refuse_after-Steps before out (skipping e.discard (stream S c)) (response e) c
        (discard_payload S atoi e.discard c)
        (λ c' h. let (same, now) = discard_payload-skipping e.discard c c' h in (same ∙ told, now))
        λ answers after r g. refuses line (stream S c) e starts parsed g
  on_header-Steps fuel before out line (ok (immediate cmd)) c starts parsed told =
      (next cmd, runs line (stream S c) cmd starts parsed, refl, told, λ e. cc)
  on_header-Steps fuel before out line (ok (store p)) c starts parsed told =
      with_payload-Steps before out line (stream S c) p (read_payload S fuel p.len c) starts parsed
        (WhenSome-intro (read_payload S fuel p.len c) (read_payload-PayloadFrames S fuel p.len c))
        (rw told at (read_payload-accepted S fuel p.len c))
  on_header-Steps fuel before out line (ok quit) c starts parsed told =
      (quitted, quits line (stream S c) starts parsed, refl, told, λ e. cc)

  dropped-Steps :
      (before out rest : Bytes) (c : Connection S) (o : Option (Option (Connection S)))
      → ((c' : Connection S) → o ≡ some (some c') → (accepted S c' ≡ out) × (stream S c' ≡ rest))
      → ((answers after : Bytes) (r : Next)
          → Gives S atoi rest answers after r
          → Gives S atoi before (text S (Response.client_error "line too long") ++ answers) after r)
      → WhenSome (Steps before out) (dropped S atoi c o)
  dropped-Steps before out rest c none at_rest then = tt
  dropped-Steps before out rest c (some o) at_rest then =
      refuse_after-Steps before out rest (Response.client_error "line too long") c o
        (λ c' h. at_rest c' (ap some h)) then

  pub on_line-Steps :
      (fuel : ℕ) (before out : Bytes) (x : LineResult S)
      → Frames S before x
      → accepted S x.1 ≡ out
      → (x.0 ≡ ok none → Delivered S x.1)
      → WhenSome (Steps before out) (on_line S atoi fuel (some x))
  unfolding on_line
  on_line-Steps fuel before out (ok (some line), c) (raw, found, cut) told delivered =
      on_header-Steps fuel before out line (parse_command_line atoi line) c (raw, found, cut) refl
        told
  on_line-Steps fuel before out (ok none, c) (no_feed, same, _) told delivered =
      (ended, rw same (ends no_feed), refl, told, λ _. delivered refl)
  on_line-Steps fuel before out (err Reads.too_long, c) (long, no_feed, same) told delivered =
      dropped-Steps before out (after_line (stream S c)) c (discard_until_newline S fuel c)
        (λ c' h. (
          discard_until_newline-accepted S fuel c c' h ∙ told,
          discard_until_newline-after_line S fuel c c' h,
        ))
        λ answers after r g. rw (← same) (too_long c.buffer (S.unread c.reader) long no_feed g)
  on_line-Steps fuel before out (err (ReadLineError.io e), c) f told delivered = tt

-- ===== src/Connection/Rounds.antt =====
-- The rounds of `read_command`: one that goes on has taken bytes off the stream.
use ousagi.Atoi.{Atoi}
use ousagi.Commands.{Response}
use ousagi.Connection.Answers.{write_parts, parts, write_response}
use ousagi.Connection.Commands.{
  Round, done, again, refuse, refuse_after, dropped, discard_payload, with_payload, on_header,
  on_line,
}
use ousagi.Connection.Discards.{after_line, discard_exact-drop, discard_until_newline-after_line}
use ousagi.Connection.Frames.{first_line, stream, Frames, WhenSome}
use ousagi.Connection.Payloads.{PayloadFrames, read_payload-PayloadFrames}
use ousagi.Connection.Reads.{
  ReadLineError, too_long, PayloadError, bad_chunk, Connection, LineResult, PayloadResult,
  read_payload, discard_exact, discard_until_newline,
}
use ousagi.Connection.Streams.{Streams}
use ousagi.Parser.Header.{ParseError, response, PendingStore, CommandHeader, immediate, store, quit}
use ousagi.Parser.{parse_command_line}
use ousagi.Prelude.{
  ℕ, zero, suc, ◌-◌, ◌≤◌, ◌<◌, ◌≡◌, refl, ap, inl, inr, Option, none, some, List, [], ◌∷◌, ◌++◌,
  Bytes, length, length-append, drop, Result, ok, err, ◌==◌, arith, Option-cases, Bool-cases,
}

pub length-drop : (n : ℕ) (s : Bytes) → length (drop n s) ≤ length s
length-drop zero s = omega arith
length-drop (suc n) [] = omega arith
length-drop (suc n) (b ∷ s) = omega (arith, length-drop n s)

pub length-after_line : (s : Bytes) → 0 < length s → length (after_line s) < length s
unfolding after_line
length-after_line [] h = absurd (omega arith)
length-after_line (b ∷ []) h = ground arith
length-after_line (b ∷ d ∷ s) h = ground (arith, length-after_line (d ∷ s))

rest_is_shorter : (s : Bytes) → WhenSome (λ x. length x.1 < length s) (first_line s)
unfolding first_line
rest_is_shorter [] = tt
rest_is_shorter (b ∷ s) = elim (Bool-cases (b == b'\n')) [
  | inl feed ↦ rw (first_line, feed) (omega arith)
  | inr other ↦ elim (Option-cases (first_line s)) [
    | inl absent ↦ rw (first_line, other, absent) tt
    | inr (x, found) ↦
        rw (first_line, other, found) (omega (arith, rw found at (rest_is_shorter s)))
  ]
]

pub length-first_line :
    (s raw rest : Bytes) → first_line s ≡ some (raw, rest) → length rest < length s
length-first_line s raw rest h = rw h at (rest_is_shorter s)

module _ (S : Streams) where
  write_parts-stream :
      (l : List Bytes) (c : Connection S)
      → WhenSome (λ c'. stream S c' ≡ stream S c) (write_parts S l c)
  unfolding write_parts
  write_parts-stream [] c = refl
  write_parts-stream (bs ∷ l) c = elim (Option-cases (S.write_all bs c.writer)) [
    | inl broken ↦ rw (write_parts, broken) tt
    | inr (writer, e) ↦ rw (write_parts, e) (write_parts-stream l (record c { writer = writer }))
  ]

module _ (S : Streams) (atoi : Atoi) where
  -- What holds of the connection with which the loop goes on.
  abbrev pub WhenAgain : (Connection S → Type 0) → Round S atoi → Type 0
  WhenAgain P (done _ _) = Unit
  WhenAgain P (again c) = P c

  refuse-stream :
      (resp : Response) (c : Connection S)
      → WhenAgain (λ c'. stream S c' ≡ stream S c) (refuse S atoi resp c)
  unfolding refuse write_response
  refuse-stream resp c = elim (Option-cases (write_parts S (parts S resp) c)) [
    | inl broken ↦ rw (refuse, write_response, broken) tt
    | inr (c', e) ↦ rw (refuse, write_response, e) (rw e at (write_parts-stream S (parts S resp) c))
  ]

  -- A refusal takes nothing off the stream but what is discarded before it.
  refuse-bound :
      (bound : ℕ) (resp : Response) (c : Connection S)
      → length (stream S c) ≤ bound
      → WhenAgain (λ c'. length (stream S c') ≤ bound) (refuse S atoi resp c)
  refuse-bound bound resp c h = bounded (refuse S atoi resp c) (refuse-stream resp c)
    where
      bounded :
          (r : Round S atoi)
          → WhenAgain (λ c'. stream S c' ≡ stream S c) r
          → WhenAgain (λ c'. length (stream S c') ≤ bound) r
      bounded (done _ _) same = tt
      bounded (again c') same = rw same h

  refuse_after-bound :
      (bound : ℕ) (resp : Response) (c : Connection S) (o : Option (Connection S))
      → WhenSome (λ c'. length (stream S c') ≤ bound) o
      → WhenAgain (λ c'. length (stream S c') ≤ bound) (refuse_after S atoi resp c o)
  refuse_after-bound bound resp c none h = tt
  refuse_after-bound bound resp c (some c') h = refuse-bound bound resp c' h

  discard_payload-bound :
      (n : Option ℕ) (c : Connection S)
      → WhenSome (λ c'. length (stream S c') ≤ length (stream S c)) (discard_payload S atoi n c)
  discard_payload-bound none c = omega arith
  discard_payload-bound (some n) c = elim (Option-cases (discard_exact S n c)) [
    | inl broken ↦ rw broken tt
    | inr (c', e) ↦ rw (e, discard_exact-drop S n c c' e) (length-drop n (stream S c))
  ]

  with_payload-bound :
      (p : PendingStore) (bound : ℕ) (before : Bytes) (o : Option (PayloadResult S))
      → length before ≤ bound
      → WhenSome (PayloadFrames S p.len before) o
      → WhenSome (WhenAgain (λ c'. length (stream S c') ≤ bound)) (with_payload S atoi p o)
  with_payload-bound p bound before none h f = tt
  with_payload-bound p bound before (some (ok payload, c)) h f = tt
  with_payload-bound p bound before (some (err (PayloadError.io e), c)) h f = tt
  with_payload-bound p bound before (some (err bad_chunk, c)) h (payload, end, _, _, _, same) =
      let size : length before ≡ length (payload ++ (end ++ stream S c)) = ap length same in
      refuse-bound bound _ c (
        omega (
          arith,
          h,
          size,
          length-append payload (end ++ stream S c),
          length-append end (stream S c),
        ))

  on_header-bound :
      (fuel bound : ℕ) (o : Result ParseError CommandHeader) (c : Connection S)
      → length (stream S c) ≤ bound
      → WhenSome (WhenAgain (λ c'. length (stream S c') ≤ bound)) (on_header S atoi fuel o c)
  unfolding on_header
  on_header-bound fuel bound (err e) c h =
      refuse_after-bound bound (response e) c (discard_payload S atoi e.discard c)
        (below_bound (discard_payload S atoi e.discard c) (discard_payload-bound e.discard c))
    where
      below_bound :
          (o : Option (Connection S))
          → WhenSome (λ c'. length (stream S c') ≤ length (stream S c)) o
          → WhenSome (λ c'. length (stream S c') ≤ bound) o
      below_bound none k = tt
      below_bound (some c') k = omega (arith, h, k)
  on_header-bound fuel bound (ok (immediate cmd)) c h = tt
  on_header-bound fuel bound (ok (store p)) c h =
      elim (Option-cases (read_payload S fuel p.len c)) [
        | inl unread ↦ rw unread tt
        | inr (x, e) ↦
            with_payload-bound p bound (stream S c) (read_payload S fuel p.len c) h
              (rw e (read_payload-PayloadFrames S fuel p.len c x e))
      ]
  on_header-bound fuel bound (ok quit) c h = tt

  dropped-bound :
      (fuel bound : ℕ) (c : Connection S)
      → length (stream S c) ≤ suc bound
      → 0 < length (stream S c)
      → WhenSome
          (WhenAgain (λ c'. length (stream S c') ≤ bound))
          (dropped S atoi c (discard_until_newline S fuel c))
  dropped-bound fuel bound c h pos = elim (Option-cases (discard_until_newline S fuel c)) [
    | inl spent ↦ rw spent tt
    | inr (none, e) ↦ rw e tt
    | inr (some c', e) ↦ rw e (
        refuse-bound bound _ c' (
          rw (discard_until_newline-after_line S fuel c c' e)
            (omega (arith, h, length-after_line (stream S c) pos))))
  ]

  abbrev pub Continues : (Connection S → Type 0) → Option (Round S atoi) → Type 0
  Continues P = WhenSome (WhenAgain P)

  weaken :
      (P Q : Connection S → Type 0) (o : Option (Round S atoi))
      → ((c : Connection S) → P c → Q c)
      → Continues P o
      → Continues Q o
  weaken P Q none f h = tt
  weaken P Q (some (done _ _)) f h = tt
  weaken P Q (some (again c)) f h = f c h

  -- A round that goes on leaves a shorter stream.
  pub on_line-shorter :
      (fuel : ℕ) (before : Bytes) (x : LineResult S)
      → Frames S before x
      → Continues (λ c'. length (stream S c') < length before) (on_line S atoi fuel (some x))
  unfolding on_line
  on_line-shorter fuel before (ok (some line), c) (raw, found, _) =
      let parsed = parse_command_line atoi line in
      let taken = length-first_line before raw (stream S c) found in
      weaken (λ c'. length (stream S c') ≤ length (stream S c)) _ (on_header S atoi fuel parsed c)
        (λ c' k. omega (arith, k, taken))
        (on_header-bound fuel (length (stream S c)) parsed c (omega arith))
  on_line-shorter fuel before (ok none, c) f = tt
  on_line-shorter fuel before (err too_long, c) (full, _, same) =
      let size : length (stream S c) ≡ length before = ap length same in
      let pos : 0 < length (stream S c) =
        omega (arith, full, length-append c.buffer (S.unread c.reader)) in
      weaken (λ c'. length (stream S c') ≤ length (stream S c) - 1) _
        (dropped S atoi c (discard_until_newline S fuel c)) (λ c' k. omega (arith, k, size, pos))
        (dropped-bound fuel (length (stream S c) - 1) c (omega (arith, pos)) pos)
  on_line-shorter fuel before (err (ReadLineError.io e), c) f = tt

-- ===== src/Tests/Wire.antt =====
-- Runs of the connection over streams that give a byte at a time and take what they are handed into a
-- buffer.
use mathlib.Core.List.{append-nil, append_assoc}
use ousagi.Connection.Frames.{stream, Frames, read_line-Frames}
use ousagi.Connection.Commands.{read_command}
use ousagi.Connection.Loop.{read_command-total}
use ousagi.Tests.Crates.{whole_text_atoi}
use ousagi.Connection.Payloads.{PayloadFrames, read_payload-PayloadFrames}
use ousagi.Connection.Reads.{
  Connection, LineResult, PayloadResult, connect, strip_end, fill_buffer, fill_data, read_crlf,
  read_rest, read_line, read_payload, discard_exact, discard_until_newline,
}
use ousagi.Connection.Streams.{Streams}
use ousagi.Prelude.{
  ℕ, zero, suc, ◌≤◌, ◌<◌, ◌≡◌, ◌≢◌, refl, sym, Option, none, some, [], ◌∷◌, ◌++◌, Bytes, codes,
  length, drop, bytes_eq, position, ◌==◌, ok, arith,
}
use ousagi.Text.{to_string}

abbrev read_byte : Bytes → Option (Bytes × Bytes)
read_byte [] = some ([], [])
read_byte (b ∷ bs) = some (b ∷ [], bs)

abbrev read_byte_up_to : ℕ → Bytes → Option (Bytes × Bytes)
read_byte_up_to zero r = some ([], r)
read_byte_up_to (suc n) r = read_byte r

pub unread-read_byte : (r r' bs : Bytes) → read_byte r ≡ some (bs, r') → r ≡ bs ++ r'
unread-read_byte [] r' bs h = cc
unread-read_byte (b ∷ r) r' bs h =
    let one : b ∷ [] ≡ bs = cc in let left : r ≡ r' = cc in rw (← one, ← left)

pub read_byte-end : (r r' bs : Bytes) → read_byte r ≡ some (bs, r') → bs ≡ [] → r ≡ []
read_byte-end [] r' bs h e = refl
read_byte-end (b ∷ r) r' bs h e = cc

pub unread-read_byte_up_to :
    (n : ℕ) (r r' bs : Bytes) → read_byte_up_to n r ≡ some (bs, r') → r ≡ bs ++ r'
unread-read_byte_up_to zero r r' bs h =
    let nothing : [] ≡ bs = cc in let left : r ≡ r' = cc in rw (← nothing, ← left)
unread-read_byte_up_to (suc n) r r' bs h = unread-read_byte r r' bs h

pub read_byte_up_to-room :
    (n : ℕ) (r r' bs : Bytes) → read_byte_up_to n r ≡ some (bs, r') → length bs ≤ n
read_byte_up_to-room zero r r' bs h = let nothing : [] ≡ bs = cc in rw (← nothing) (omega arith)
read_byte_up_to-room (suc n) [] r' bs h = let nothing : [] ≡ bs = cc in rw (← nothing) (omega arith)
read_byte_up_to-room (suc n) (b ∷ r) r' bs h =
    let one : b ∷ [] ≡ bs = cc in rw (← one) (omega arith)

pub read_byte_up_to-end :
    (n : ℕ) (r r' bs : Bytes) → 0 < n → read_byte_up_to n r ≡ some (bs, r') → bs ≡ [] → r ≡ []
read_byte_up_to-end zero r r' bs pos h e = absurd (omega arith)
read_byte_up_to-end (suc n) r r' bs pos h e = read_byte-end r r' bs h e

pub some-injective : {A : Type 0} (a b : A) → some a ≡ some b → b ≡ a
some-injective a b h = cc

-- What was delivered, and what is still in the buffer.
abbrev pub SlowWriter : Type 0
SlowWriter = Bytes × Bytes

pub accepted-write_all :
    (bs : Bytes) (w w' : SlowWriter)
    → some (w.0, w.1 ++ bs) ≡ some w'
    → w'.0 ++ w'.1 ≡ (w.0 ++ w.1) ++ bs
accepted-write_all bs (d, p) w' h =
    let now : (d, p ++ bs) ≡ w' = cc in rw (← now) (sym (append_assoc d p bs))

pub accepted-flush :
    (w w' : SlowWriter) → some (w.0 ++ w.1, []) ≡ some w' → w'.0 ++ w'.1 ≡ w.0 ++ w.1
accepted-flush (d, p) w' h = let now : (d ++ p, []) ≡ w' = cc in rw (← now) (append-nil (d ++ p))

pub delivered-flush : (w w' : SlowWriter) → some (w.0 ++ w.1, []) ≡ some w' → w'.0 ≡ w'.0 ++ w'.1
delivered-flush (d, p) w' h =
    let now : (d ++ p, []) ≡ w' = cc in rw (← now) (sym (append-nil (d ++ p)))

abbrev pub slow_streams : Streams
slow_streams = record {
  Reader = Bytes;
  Writer = SlowWriter;
  read_buf = read_byte;
  read_buf_up_to = read_byte_up_to;
  skip = λ n r. some (drop n r);
  write_all = λ bs w. some (w.0, w.1 ++ bs);
  flush = λ w. some (w.0 ++ w.1, []);
  memchr = λ b s. position (λ c. c == b) s;
  format = to_string;
  unread = λ r. r;
  accepted = λ w. w.0 ++ w.1;
  delivered = λ w. w.0;
  unread-read_buf = unread-read_byte;
  read_buf-end = read_byte-end;
  unread-read_buf_up_to = unread-read_byte_up_to;
  read_buf_up_to-room = read_byte_up_to-room;
  read_buf_up_to-end = read_byte_up_to-end;
  unread-skip = λ n r r' h. some-injective (drop n r) r' h;
  accepted-write_all = accepted-write_all;
  accepted-flush = accepted-flush;
  delivered-flush = delivered-flush;
  memchr-position = λ b s. refl;
  format-to_string = λ n. refl;
}

abbrev pub opened : Bytes → Connection slow_streams
opened input = connect slow_streams input ([], [])

abbrev two_lines : Connection slow_streams
two_lines = opened (codes "a\r\nb\r\n")

abbrev line_read : LineResult slow_streams
line_read = (ok (some (codes "a")), opened (codes "b\r\n"))

line_is_read : read_line slow_streams 4 two_lines ≡ some line_read
unfolding read_line fill_buffer strip_end position
line_is_read = refl

read_line-Frames_example : Frames slow_streams (stream slow_streams two_lines) line_read
read_line-Frames_example = read_line-Frames slow_streams 4 two_lines line_read line_is_read

abbrev payload_read : PayloadResult slow_streams
payload_read = (ok (codes "a"), opened (codes "b\r\n"))

payload_is_read : read_payload slow_streams 9 1 two_lines ≡ some payload_read
unfolding read_payload read_rest read_crlf fill_data fill_buffer bytes_eq
payload_is_read = refl

read_payload-PayloadFrames_example :
    PayloadFrames slow_streams 1 (stream slow_streams two_lines) payload_read
read_payload-PayloadFrames_example =
    read_payload-PayloadFrames slow_streams 9 1 two_lines payload_read payload_is_read

exactly_discarded : discard_exact slow_streams 3 two_lines ≡ some (opened (codes "b\r\n"))
unfolding discard_exact
exactly_discarded = refl

line_discarded :
    discard_until_newline slow_streams 9 two_lines ≡ some (some (opened (codes "b\r\n")))
unfolding discard_until_newline position
line_discarded = refl

read_command-total_example : read_command slow_streams whole_text_atoi 1048590 two_lines ≢ none
read_command-total_example =
    read_command-total slow_streams whole_text_atoi 1048590 two_lines (omega arith)

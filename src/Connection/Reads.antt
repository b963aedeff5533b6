-- ===== src/Connection/Reads.antt =====
-- src/connection.rs: the connection, and the lines and payloads that are read from it. Loops run on
-- fuel, and `none` is the lack of it. A failed operation returns the connection as it was before.
use ousagi.Connection.Streams.{Streams}
use ousagi.Prelude.{
  ℕ, zero, suc, ◌+◌, ◌-◌, ◌*◌, true, false, ◌||◌, Option, none, some, [], ◌∷◌, ◌++◌, Bytes, codes,
  length, take, drop, bytes_eq, Result, ok, err, ltb, leb, ◌==◌, if◌then◌else◌,
}

abbrev pub max_line_len : ℕ
max_line_len = 8 * 1024

pub data IoError : Type 0 where
  failed unexpected_eof : IoError

pub data ReadLineError : Type 0 where
  io : IoError → ReadLineError
  too_long : ReadLineError

pub data PayloadError : Type 0 where
  io : IoError → PayloadError
  bad_chunk : PayloadError

-- `truncate` while the last byte is a line feed or a carriage return.
unfoldable pub strip_end : Bytes → Bytes
strip_end [] = []
strip_end (b ∷ bs) = elim (strip_end bs) [
  | [] ↦ if b == b'\n' || b == b'\r' then [] else b ∷ []
  | c ∷ cs ↦ b ∷ c ∷ cs
]

module _ (S : Streams) where
  pub record Connection : Type 0 where
    pub reader : S.Reader
    pub writer : S.Writer
    pub buffer : Bytes

  -- `Connection::new`.
  abbrev pub connect : S.Reader → S.Writer → Connection
  connect reader writer = record { reader = reader; writer = writer; buffer = [] }

  abbrev pub read_more : Connection → Option (Bytes × S.Reader) → Option (ℕ × Connection)
  read_more c none = none
  read_more c (some (bs, reader)) =
      some (length bs, record c { reader = reader; buffer = c.buffer ++ bs })

  abbrev pub flushed : Connection → Option S.Writer → Option Connection
  flushed c none = none
  flushed c (some writer) = some (record c { writer = writer })

  abbrev pub flush : Connection → Option Connection
  flush c = flushed c (S.flush c.writer)

  abbrev pub read_buf : Connection → Option (ℕ × Connection)
  read_buf c = read_more c (S.read_buf c.reader)

  abbrev pub then_read : Option Connection → Option (ℕ × Connection)
  then_read none = none
  then_read (some c) = read_buf c

  unfoldable pub fill_buffer : Connection → Option (ℕ × Connection)
  fill_buffer c = then_read (flush c)

  abbrev pub LineResult : Type 0
  LineResult = Result ReadLineError (Option Bytes) × Connection

  unfoldable pub read_line : ℕ → Connection → Option LineResult
  unfolding strip_end fill_buffer
  read_line zero c = none
  read_line (suc fuel) c = elim (S.memchr b'\n' c.buffer) [
    | some pos ↦ some (
      ok (some (strip_end (take (pos + 1) c.buffer))),
      record c { buffer = drop (pos + 1) c.buffer },
    )
    | none ↦ elim (leb max_line_len (length c.buffer)) [
      | true ↦ some (err too_long, c)
      | false ↦ elim (fill_buffer c) [
        | none ↦ some (err (ReadLineError.io failed), c)
        | some (zero, c') ↦ some (ok none, c')
        | some (suc _, c') ↦ read_line fuel c'
      ]
    ]
  ]

  abbrev pub PayloadResult : Type 0
  PayloadResult = Result PayloadError Bytes × Connection

  abbrev pub read_data : Connection → Option (Bytes × S.Reader) → Option (Bytes × Connection)
  read_data c none = none
  read_data c (some (bs, reader)) = some (bs, record c { reader = reader })

  abbrev pub then_read_data : ℕ → Option Connection → Option (Bytes × Connection)
  then_read_data n none = none
  then_read_data n (some c) = read_data c (S.read_buf_up_to n c.reader)

  -- `flush`, then `read_buf` into `data`, which has room for exactly what is missing.
  unfoldable pub fill_data : ℕ → Connection → Option (Bytes × Connection)
  fill_data n c = then_read_data n (flush c)

  -- The line end behind the payload.
  unfoldable pub read_crlf : ℕ → Bytes → Connection → Option PayloadResult
  unfolding fill_buffer
  read_crlf zero payload c = none
  read_crlf (suc fuel) payload c = elim (ltb (length c.buffer) 2) [
    | true ↦ elim (fill_buffer c) [
      | none ↦ some (err (PayloadError.io failed), c)
      | some (zero, c') ↦ some (err (PayloadError.io unexpected_eof), c')
      | some (suc _, c') ↦ read_crlf fuel payload c'
    ]
    | false ↦
        let c' = record c { buffer = drop 2 c.buffer } in
        if bytes_eq (take 2 c.buffer) (codes "\r\n")
        then some (ok payload, c')
        else some (err bad_chunk, c')
  ]

  unfoldable pub read_rest : ℕ → ℕ → Bytes → Connection → Option PayloadResult
  unfolding fill_data read_crlf
  read_rest zero len payload c = none
  read_rest (suc fuel) len payload c = elim (ltb (length payload) len) [
    | true ↦ elim (fill_data (len - length payload) c) [
      | none ↦ some (err (PayloadError.io failed), c)
      | some ([], c') ↦ some (err (PayloadError.io unexpected_eof), c')
      | some (b ∷ bs, c') ↦ read_rest fuel len (payload ++ b ∷ bs) c'
    ]
    | false ↦ read_crlf (suc fuel) payload c
  ]

  unfoldable pub read_payload : ℕ → ℕ → Connection → Option PayloadResult
  unfolding read_rest
  read_payload fuel len c =
      read_rest fuel len (take len c.buffer) (record c { buffer = drop len c.buffer })

  abbrev pub skipped : Connection → Option S.Reader → Option Connection
  skipped c none = none
  skipped c (some reader) = some (record c { reader = reader })

  abbrev pub then_skip : ℕ → Option Connection → Option Connection
  then_skip n none = none
  then_skip n (some c) = skipped c (S.skip n c.reader)

  -- The buffer loses what it has of the `n` bytes, and the reader the rest.
  unfoldable pub discard_exact : ℕ → Connection → Option Connection
  discard_exact n c =
      let c' = record c { buffer = drop n c.buffer } in
      if ltb 0 (n - length c.buffer) then then_skip (n - length c.buffer) (flush c') else some c'

  -- The outer `none` is a lack of fuel, the inner one an error.
  unfoldable pub discard_until_newline : ℕ → Connection → Option (Option Connection)
  discard_until_newline zero c = none
  discard_until_newline (suc fuel) c = elim (S.memchr b'\n' c.buffer) [
    | some pos ↦ some (some (record c { buffer = drop (pos + 1) c.buffer }))
    | none ↦ elim (read_buf (record c { buffer = [] })) [
      | none ↦ some none
      | some (zero, c') ↦ some (some c')
      | some (suc _, c') ↦ discard_until_newline fuel c'
    ]
  ]

-- ===== src/Connection/Streams.antt =====
-- What src/connection.rs uses of tokio, bytes, memchr and itoa. The reader of a connection gives the
-- bytes that the client sends, as many at a time as it likes. The writer is buffered: it accepts the
-- bytes of the answers, and all of them are delivered once it is flushed. `unread`, `accepted` and
-- `delivered` are what the streams hold, which the code cannot see.
use ousagi.Prelude.{ℕ, ◌≤◌, ◌<◌, ◌≡◌, Option, some, [], ◌++◌, Bytes, length, drop, position, ◌==◌}
use ousagi.Text.{to_string}

pub record Streams : Type 1 where
  pub Reader : Type 0
  pub Writer : Type 0
  -- `read_buf` with capacity reserved, and with exactly so much left. `none` is an error.
  pub read_buf : Reader → Option (Bytes × Reader)
  pub read_buf_up_to : ℕ → Reader → Option (Bytes × Reader)
  -- `tokio::io::copy` of `take(n)` into the sink.
  pub skip : ℕ → Reader → Option Reader
  pub write_all : Bytes → Writer → Option Writer
  pub flush : Writer → Option Writer
  pub memchr : ℕ → Bytes → Option ℕ
  pub format : ℕ → Bytes
  pub unread : Reader → Bytes
  pub accepted : Writer → Bytes
  pub delivered : Writer → Bytes
  -- What is read comes off the front of the stream, and nothing is read only at its end.
  pub unread-read_buf :
      (r r' : Reader) (bs : Bytes) → read_buf r ≡ some (bs, r') → unread r ≡ bs ++ unread r'
  pub read_buf-end :
      (r r' : Reader) (bs : Bytes) → read_buf r ≡ some (bs, r') → bs ≡ [] → unread r ≡ []
  pub unread-read_buf_up_to :
      (n : ℕ) (r r' : Reader) (bs : Bytes)
      → read_buf_up_to n r ≡ some (bs, r')
      → unread r ≡ bs ++ unread r'
  pub read_buf_up_to-room :
      (n : ℕ) (r r' : Reader) (bs : Bytes) → read_buf_up_to n r ≡ some (bs, r') → length bs ≤ n
  pub read_buf_up_to-end :
      (n : ℕ) (r r' : Reader) (bs : Bytes)
      → 0 < n
      → read_buf_up_to n r ≡ some (bs, r')
      → bs ≡ []
      → unread r ≡ []
  pub unread-skip : (n : ℕ) (r r' : Reader) → skip n r ≡ some r' → unread r' ≡ drop n (unread r)
  pub accepted-write_all :
      (bs : Bytes) (w w' : Writer) → write_all bs w ≡ some w' → accepted w' ≡ accepted w ++ bs
  pub accepted-flush : (w w' : Writer) → flush w ≡ some w' → accepted w' ≡ accepted w
  pub delivered-flush : (w w' : Writer) → flush w ≡ some w' → delivered w' ≡ accepted w'
  pub memchr-position : (b : ℕ) (s : Bytes) → memchr b s ≡ position (λ c. c == b) s
  pub format-to_string : (n : ℕ) → format n ≡ to_string n

-- ===== src/Connection/Delivered.antt =====
-- What src/connection.rs has delivered when the stream ends: `fill_buffer` flushes before it reads.
use ousagi.Connection.Frames.{WhenSome}
use ousagi.Connection.Reads.{Connection, max_line_len, read_more, fill_buffer, read_line}
use ousagi.Connection.Streams.{Streams}
use ousagi.Prelude.{
  ℕ, zero, suc, ◌≡◌, inl, inr, Option, none, some, ◌++◌, Bytes, length, leb, ok, Option-cases,
  Bool-cases,
}
use ousagi.Connection.Accepted.{accepted}

module _ (S : Streams) where
  -- Nothing that was accepted is still in the writer's buffer.
  abbrev pub Delivered : Connection S → Type 0
  Delivered c = S.delivered c.writer ≡ accepted S c

  read_more-Delivered :
      (c c' : Connection S) (n : ℕ) (o : Option (Bytes × S.Reader))
      → Delivered c
      → read_more S c o ≡ some (n, c')
      → Delivered c'
  read_more-Delivered c c' n none d h = cc
  read_more-Delivered c c' n (some (bs, r)) d h =
      let now : record c { reader = r; buffer = c.buffer ++ bs } ≡ c' = cc in rw (← now) d

  fill_buffer-Delivered :
      (c c' : Connection S) (n : ℕ) → fill_buffer S c ≡ some (n, c') → Delivered c'
  unfolding fill_buffer
  fill_buffer-Delivered c c' n h = elim (Option-cases (S.flush c.writer)) [
    | inl broken ↦ absurd (cc (rw broken at h))
    | inr (w, e) ↦
        read_more-Delivered (record c { writer = w }) c' n (S.read_buf c.reader)
          (S.delivered-flush c.writer w e) (rw e at h)
  ]

  -- At the end of the stream everything is delivered.
  pub read_line-Delivered :
      (fuel : ℕ) (c : Connection S)
      → WhenSome (λ x. x.0 ≡ ok none → Delivered x.1) (read_line S fuel c)
  unfolding read_line
  read_line-Delivered zero c = tt
  read_line-Delivered (suc fuel) c = elim (Option-cases (S.memchr b'\n' c.buffer)) [
    | inr (i, found) ↦ rw (read_line, found) (λ e. cc)
    | inl absent ↦ elim (Bool-cases (leb max_line_len (length c.buffer))) [
      | inl full ↦ rw (read_line, absent, full) (λ e. cc)
      | inr short ↦ elim (Option-cases (fill_buffer S c)) [
        | inl broken ↦ rw (read_line, absent, short, broken) (λ e. cc)
        | inr ((zero, c'), filled) ↦
            rw (read_line, absent, short, filled) (λ _. fill_buffer-Delivered c c' zero filled)
        | inr ((suc n, c'), filled) ↦
            rw (read_line, absent, short, filled) (read_line-Delivered fuel c')
      ]
    ]
  ]

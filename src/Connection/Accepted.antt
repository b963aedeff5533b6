-- ===== src/Connection/Accepted.antt =====
-- The reads of src/connection.rs hand nothing to its buffered writer.
use ousagi.Connection.Discards.{WhenDone}
use ousagi.Connection.Frames.{WhenSome}
use ousagi.Connection.Reads.{
  Connection, max_line_len, read_more, flushed, read_buf, fill_buffer, read_line, read_data,
  fill_data, read_crlf, read_rest, read_payload, skipped, discard_exact, discard_until_newline,
}
use ousagi.Connection.Streams.{Streams}
use ousagi.Prelude.{
  ℕ, zero, suc, ◌-◌, ◌≡◌, refl, ◌∙◌, inl, inr, Option, none, some, [], ◌∷◌, ◌++◌, Bytes, codes,
  length, take, drop, bytes_eq, ltb, leb, Option-cases, Bool-cases,
}

module _ (S : Streams) where
  -- The bytes that the writer has accepted.
  abbrev pub accepted : Connection S → Bytes
  accepted c = S.accepted c.writer

  read_more-accepted :
      (c c' : Connection S) (n : ℕ) (o : Option (Bytes × S.Reader))
      → read_more S c o ≡ some (n, c')
      → accepted c' ≡ accepted c
  read_more-accepted c c' n none h = cc
  read_more-accepted c c' n (some (bs, r)) h =
      let now : record c { reader = r; buffer = c.buffer ++ bs } ≡ c' = cc in rw (← now) refl

  flushed-accepted :
      (c c' : Connection S) (o : Option S.Writer)
      → S.flush c.writer ≡ o
      → flushed S c o ≡ some c'
      → accepted c' ≡ accepted c
  flushed-accepted c c' none e h = cc
  flushed-accepted c c' (some w) e h =
      let now : record c { writer = w } ≡ c' = cc in rw (← now) (S.accepted-flush c.writer w e)

  fill_buffer-accepted :
      (c c' : Connection S) (n : ℕ) → fill_buffer S c ≡ some (n, c') → accepted c' ≡ accepted c
  unfolding fill_buffer
  fill_buffer-accepted c c' n h = elim (Option-cases (flushed S c (S.flush c.writer))) [
    | inl broken ↦ absurd (cc (rw broken at h))
    | inr (d, e) ↦
        read_more-accepted d c' n (S.read_buf d.reader) (rw e at h)
        ∙ flushed-accepted c d (S.flush c.writer) refl e
  ]

  read_data-accepted :
      (c c' : Connection S) (bs : Bytes) (o : Option (Bytes × S.Reader))
      → read_data S c o ≡ some (bs, c')
      → accepted c' ≡ accepted c
  read_data-accepted c c' bs none h = cc
  read_data-accepted c c' bs (some (bs', r)) h =
      let now : record c { reader = r } ≡ c' = cc in rw (← now) refl

  fill_data-accepted :
      (n : ℕ) (c c' : Connection S) (bs : Bytes)
      → fill_data S n c ≡ some (bs, c')
      → accepted c' ≡ accepted c
  unfolding fill_data
  fill_data-accepted n c c' bs h = elim (Option-cases (flushed S c (S.flush c.writer))) [
    | inl broken ↦ absurd (cc (rw broken at h))
    | inr (d, e) ↦
        read_data-accepted d c' bs (S.read_buf_up_to n d.reader) (rw e at h)
        ∙ flushed-accepted c d (S.flush c.writer) refl e
  ]

  pub read_line-accepted :
      (fuel : ℕ) (c : Connection S) → WhenSome (λ x. accepted x.1 ≡ accepted c) (read_line S fuel c)
  unfolding read_line
  read_line-accepted zero c = tt
  read_line-accepted (suc fuel) c = elim (Option-cases (S.memchr b'\n' c.buffer)) [
    | inr (i, found) ↦ rw (read_line, found) refl
    | inl absent ↦ elim (Bool-cases (leb max_line_len (length c.buffer))) [
      | inl full ↦ rw (read_line, absent, full) refl
      | inr short ↦ elim (Option-cases (fill_buffer S c)) [
        | inl broken ↦ rw (read_line, absent, short, broken) refl
        | inr ((zero, c'), filled) ↦
            rw (read_line, absent, short, filled) (fill_buffer-accepted c c' zero filled)
        | inr ((suc n, c'), filled) ↦
            rw (read_line, absent, short, filled, ← (fill_buffer-accepted c c' (suc n) filled))
              (read_line-accepted fuel c')
      ]
    ]
  ]

  read_crlf-accepted :
      (fuel : ℕ) (payload : Bytes) (c : Connection S)
      → WhenSome (λ x. accepted x.1 ≡ accepted c) (read_crlf S fuel payload c)
  unfolding read_crlf
  read_crlf-accepted zero payload c = tt
  read_crlf-accepted (suc fuel) payload c = elim (Bool-cases (ltb (length c.buffer) 2)) [
    | inl short ↦ elim (Option-cases (fill_buffer S c)) [
      | inl broken ↦ rw (read_crlf, short, broken) refl
      | inr ((zero, c'), filled) ↦
          rw (read_crlf, short, filled) (fill_buffer-accepted c c' zero filled)
      | inr ((suc n, c'), filled) ↦
          rw (read_crlf, short, filled, ← (fill_buffer-accepted c c' (suc n) filled))
            (read_crlf-accepted fuel payload c')
    ]
    | inr enough ↦ elim (Bool-cases (bytes_eq (take 2 c.buffer) (codes "\r\n"))) [
      | inl good ↦ rw (read_crlf, enough, good) refl
      | inr bad ↦ rw (read_crlf, enough, bad) refl
    ]
  ]

  read_rest-accepted :
      (fuel len : ℕ) (payload : Bytes) (c : Connection S)
      → WhenSome (λ x. accepted x.1 ≡ accepted c) (read_rest S fuel len payload c)
  unfolding read_rest
  read_rest-accepted zero len payload c = tt
  read_rest-accepted (suc fuel) len payload c = elim (Bool-cases (ltb (length payload) len)) [
    | inr all ↦ rw (read_rest, all) (read_crlf-accepted (suc fuel) payload c)
    | inl missing ↦ elim (Option-cases (fill_data S (len - length payload) c)) [
      | inl broken ↦ rw (read_rest, missing, broken) refl
      | inr (([], c'), filled) ↦
          rw (read_rest, missing, filled) (fill_data-accepted _ c c' [] filled)
      | inr ((b ∷ bs, c'), filled) ↦
          rw (read_rest, missing, filled, ← (fill_data-accepted _ c c' (b ∷ bs) filled))
            (read_rest-accepted fuel len (payload ++ b ∷ bs) c')
    ]
  ]

  pub read_payload-accepted :
      (fuel len : ℕ) (c : Connection S)
      → WhenSome (λ x. accepted x.1 ≡ accepted c) (read_payload S fuel len c)
  unfolding read_payload
  read_payload-accepted fuel len c =
      read_rest-accepted fuel len (take len c.buffer) (record c { buffer = drop len c.buffer })

  skipped-accepted :
      (c c' : Connection S) (o : Option S.Reader)
      → skipped S c o ≡ some c'
      → accepted c' ≡ accepted c
  skipped-accepted c c' none h = cc
  skipped-accepted c c' (some r) h = let now : record c { reader = r } ≡ c' = cc in rw (← now) refl

  pub discard_exact-accepted :
      (n : ℕ) (c c' : Connection S) → discard_exact S n c ≡ some c' → accepted c' ≡ accepted c
  unfolding discard_exact
  discard_exact-accepted n c c' h =
      let cut = record c { buffer = drop n c.buffer } in
      elim (Bool-cases (ltb 0 (n - length c.buffer))) [
        | inr within ↦
            let now : some cut ≡ some c' = rw within at h in
            let same : cut ≡ c' = cc in rw (← same) refl
        | inl more ↦ elim (Option-cases (flushed S cut (S.flush c.writer))) [
          | inl broken ↦ absurd (cc (rw (more, broken) at h))
          | inr (d, e) ↦
              skipped-accepted d c' (S.skip (n - length c.buffer) d.reader) (rw (more, e) at h)
              ∙ flushed-accepted cut d (S.flush c.writer) refl e
        ]
      ]

  discard_until_newline_sends :
      (fuel : ℕ) (c : Connection S)
      → WhenDone S (λ c'. accepted c' ≡ accepted c) (discard_until_newline S fuel c)
  unfolding WhenDone discard_until_newline
  discard_until_newline_sends zero c = tt
  discard_until_newline_sends (suc fuel) c = elim (Option-cases (S.memchr b'\n' c.buffer)) [
    | inr (i, found) ↦ rw (discard_until_newline, found) refl
    | inl absent ↦
        let cleared = record c { buffer = [] } in
        elim (Option-cases (read_buf S cleared)) [
          | inl broken ↦ rw (discard_until_newline, absent, broken) tt
          | inr ((zero, c'), filled) ↦
              rw (discard_until_newline, absent, filled)
                (read_more-accepted cleared c' zero (S.read_buf c.reader) filled)
          | inr ((suc n, c'), filled) ↦
              rw
                (
                  discard_until_newline,
                  absent,
                  filled,
                  ← (read_more-accepted cleared c' (suc n) (S.read_buf c.reader) filled),
                )
                (discard_until_newline_sends fuel c')
        ]
  ]

  pub discard_until_newline-accepted :
      (fuel : ℕ) (c c' : Connection S)
      → discard_until_newline S fuel c ≡ some (some c')
      → accepted c' ≡ accepted c
  unfolding WhenDone
  discard_until_newline-accepted fuel c c' h = rw h at (discard_until_newline_sends fuel c)

-- ===== src/Connection/Payloads.antt =====
-- The payloads that `read_payload` gives, and what the discards of src/connection.rs drop.
use mathlib.Core.List.{append_assoc}
use ousagi.Connection.Frames.{stream, fill_buffer-Filled, WhenSome}
use ousagi.Connection.Reads.{
  failed, unexpected_eof, PayloadError, bad_chunk, Connection, PayloadResult, read_data,
  then_read_data, flushed, fill_buffer, fill_data, read_crlf, read_rest, read_payload,
}
use ousagi.Connection.Streams.{Streams}
use ousagi.Prelude.{
  ℕ, zero, suc, ◌+◌, ◌-◌, ◌≤◌, ◌<◌, ◌≡◌, ◌≢◌, refl, sym, ap, ◌∙◌, inl, inr, Option, none, some, [],
  ◌∷◌, ◌++◌, Bytes, codes, length, length-append, take, drop, take-append-drop, bytes_eq,
  bytes_eq_iff, ok, err, ltb, arith, Option-cases, Bool-cases,
}

abbrev crlf : Bytes
crlf = codes "\r\n"

length-take : (n : ℕ) (s : Bytes) → n ≤ length s → length (take n s) ≡ n
length-take zero s h = refl
length-take (suc n) [] h = absurd (omega arith)
length-take (suc n) (b ∷ s) h = omega (arith, length-take n s (omega arith))

pub drop-beyond : (n : ℕ) (s : Bytes) → length s ≤ n → drop n s ≡ []
drop-beyond zero [] h = refl
drop-beyond zero (b ∷ s) h = absurd (omega arith)
drop-beyond (suc n) [] h = refl
drop-beyond (suc n) (b ∷ s) h = drop-beyond n s (omega arith)

pub drop-append : (n : ℕ) (s t : Bytes) → drop n (s ++ t) ≡ drop n s ++ drop (n - length s) t
drop-append zero s t = ground arith
drop-append (suc n) [] t = ground arith
drop-append (suc n) (b ∷ s) t = ground (arith, drop-append n s t)

module _ (S : Streams) where
  -- What a payload of `len` bytes, or its failure, means for the stream before and after it.
  abbrev pub PayloadFrames : ℕ → Bytes → PayloadResult S → Type 0
  PayloadFrames len before (ok payload, c') =
      (length payload ≡ len) × (before ≡ payload ++ (crlf ++ stream S c'))
  PayloadFrames len before (err bad_chunk, c') =
      (payload : Bytes) × (end : Bytes) × (length payload ≡ len)
      × (length end ≡ 2)
      × (end ≢ crlf)
      × (before ≡ payload ++ (end ++ stream S c'))
  PayloadFrames len before (err (PayloadError.io unexpected_eof), c') = length before < len + 2
  PayloadFrames len before (err (PayloadError.io failed), c') = Unit

  cut_two :
      (payload : Bytes) (c : Connection S)
      → payload ++ stream S c
        ≡ payload ++ (take 2 c.buffer ++ (drop 2 c.buffer ++ S.unread c.reader))
  cut_two payload c =
      ap (λ b. payload ++ b)
        (ap (λ b. b ++ S.unread c.reader) (sym (take-append-drop 2 c.buffer))
          ∙ append_assoc (take 2 c.buffer) (drop 2 c.buffer) (S.unread c.reader))

  read_crlf-stream :
      (fuel len : ℕ) (payload : Bytes) (c : Connection S)
      → length payload ≡ len
      → WhenSome (PayloadFrames len (payload ++ stream S c)) (read_crlf S fuel payload c)
  unfolding read_crlf
  read_crlf-stream zero len payload c h = tt
  read_crlf-stream (suc fuel) len payload c h = elim (Bool-cases (ltb (length c.buffer) 2)) [
    | inl short ↦ elim (Option-cases (fill_buffer S c)) [
      | inl broken ↦ rw (read_crlf, short, broken) tt
      | inr ((zero, c'), filled) ↦
          let (over, _) = (fill_buffer-Filled S c c' zero filled).ended refl in
          let few : length c.buffer < 2 = ground (arith, short) in
          rw (read_crlf, short, filled, over)
            (omega
              (arith, length-append payload (c.buffer ++ []), length-append c.buffer [], h, few))
      | inr ((suc n, c'), filled) ↦
          rw (read_crlf, short, filled, ← (fill_buffer-Filled S c c' (suc n) filled).same)
            (read_crlf-stream fuel len payload c' h)
    ]
    | inr enough ↦
        let two = length-take 2 c.buffer (ground (arith, enough)) in
        elim (Bool-cases (bytes_eq (take 2 c.buffer) crlf)) [
          | inl good ↦
              rw (read_crlf, enough, good)
                (h, cut_two payload c ∙ rw ((bytes_eq_iff (take 2 c.buffer) crlf).0 good))
          | inr bad ↦
              rw (read_crlf, enough, bad)
                (
                  payload,
                  take 2 c.buffer,
                  h,
                  two,
                  (λ same. cc (bad, (bytes_eq_iff (take 2 c.buffer) crlf).1 same)),
                  cut_two payload c,
                )
        ]
  ]

  pub record DataRead (n : ℕ) (c : Connection S) (bs : Bytes) (c' : Connection S) : Type 0 where
    pub kept : c'.buffer ≡ c.buffer
    pub same : S.unread c.reader ≡ bs ++ S.unread c'.reader
    pub fits : length bs ≤ n
    pub ended : 0 < n → bs ≡ [] → S.unread c.reader ≡ []

  read_data-DataRead :
      (n : ℕ) (c c' : Connection S) (bs : Bytes) (o : Option (Bytes × S.Reader))
      → S.read_buf_up_to n c.reader ≡ o
      → read_data S c o ≡ some (bs, c')
      → DataRead n c bs c'
  read_data-DataRead n c c' bs none e h = cc
  read_data-DataRead n c c' bs (some (bs', r)) e h =
      let what : bs' ≡ bs = cc in
      let now : record c { reader = r } ≡ c' = cc in
      rw (← now, ← what)
        (record {
          kept = refl;
          same = S.unread-read_buf_up_to n c.reader r bs' e;
          fits = S.read_buf_up_to-room n c.reader r bs' e;
          ended = λ pos nothing. S.read_buf_up_to-end n c.reader r bs' pos e nothing;
        })

  then_read_data-DataRead :
      (n : ℕ) (c c' : Connection S) (bs : Bytes) (o : Option S.Writer)
      → then_read_data S n (flushed S c o) ≡ some (bs, c')
      → DataRead n c bs c'
  then_read_data-DataRead n c c' bs none h = cc
  then_read_data-DataRead n c c' bs (some writer) h =
      let flushed_c = record c { writer = writer } in
      let x = read_data-DataRead n flushed_c c' bs (S.read_buf_up_to n c.reader) refl h in
      record { kept = x.kept; same = x.same; fits = x.fits; ended = x.ended }

  pub fill_data-DataRead :
      (n : ℕ) (c c' : Connection S) (bs : Bytes)
      → fill_data S n c ≡ some (bs, c')
      → DataRead n c bs c'
  unfolding fill_data
  fill_data-DataRead n c c' bs h = then_read_data-DataRead n c c' bs (S.flush c.writer) h

  -- While payload is missing the buffer is empty, so the stream moves with the reader.
  moved :
      (n : ℕ) (payload bs : Bytes) (c c' : Connection S)
      → c.buffer ≡ []
      → DataRead n c bs c'
      → payload ++ stream S c ≡ (payload ++ bs) ++ stream S c'
  moved n payload bs c c' empty x =
      ap (λ b. payload ++ (b ++ S.unread c.reader)) empty
      ∙ ap (λ u. payload ++ u) x.same
      ∙ sym (append_assoc payload bs (S.unread c'.reader))
      ∙ ap (λ b. (payload ++ bs) ++ (b ++ S.unread c'.reader)) (sym (x.kept ∙ empty))

  read_rest-stream :
      (fuel len : ℕ) (payload : Bytes) (c : Connection S)
      → length payload ≤ len
      → (length payload < len → c.buffer ≡ [])
      → WhenSome (PayloadFrames len (payload ++ stream S c)) (read_rest S fuel len payload c)
  unfolding read_rest
  read_rest-stream zero len payload c le empty = tt
  read_rest-stream (suc fuel) len payload c le empty =
      elim (Bool-cases (ltb (length payload) len)) [
        | inr all ↦
            rw (read_rest, all)
              (read_crlf-stream (suc fuel) len payload c (ground (arith, all, le)))
        | inl missing ↦
            let short : length payload < len = ground (arith, missing) in
            elim (Option-cases (fill_data S (len - length payload) c)) [
              | inl broken ↦ rw (read_rest, missing, broken) tt
              | inr (([], c'), filled) ↦
                  let x = fill_data-DataRead (len - length payload) c c' [] filled in
                  rw (read_rest, missing, filled, empty short, x.ended (omega (arith, short)) refl)
                    (omega (arith, length-append payload [], short))
              | inr ((b ∷ bs, c'), filled) ↦
                  let x = fill_data-DataRead (len - length payload) c c' (b ∷ bs) filled in
                  rw
                    (
                      read_rest,
                      missing,
                      filled,
                      moved (len - length payload) payload (b ∷ bs) c c' (empty short) x,
                    )
                    (read_rest-stream fuel len (payload ++ b ∷ bs) c'
                      (omega (arith, length-append payload (b ∷ bs), x.fits, short))
                      (λ _. x.kept ∙ empty short))
            ]
      ]

  payload_empty : (len : ℕ) (s : Bytes) → length (take len s) < len → drop len s ≡ []
  payload_empty zero s h = absurd (omega arith)
  payload_empty (suc n) [] h = refl
  payload_empty (suc n) (b ∷ s) h = payload_empty n s (omega arith)

  pub length-take-le : (len : ℕ) (s : Bytes) → length (take len s) ≤ len
  length-take-le zero s = omega arith
  length-take-le (suc n) [] = omega arith
  length-take-le (suc n) (b ∷ s) = omega (arith, length-take-le n s)

  -- However the bytes of a stream arrive, if `read_payload` returns, then: a payload has exactly
  -- `len` bytes and stood in front of a line end, and the stream goes on behind that; a bad chunk
  -- means that `len` bytes and two others than a line end are gone from the stream; an unexpected
  -- end means that the stream had fewer than `len + 2` bytes.
  pub read_payload-PayloadFrames :
      (fuel len : ℕ) (c : Connection S) (x : PayloadResult S)
      → read_payload S fuel len c ≡ some x
      → PayloadFrames len (stream S c) x
  unfolding read_payload
  read_payload-PayloadFrames fuel len c x h =
      let c' = record c { buffer = drop len c.buffer } in
      let whole : take len c.buffer ++ stream S c' ≡ stream S c =
        sym (append_assoc (take len c.buffer) (drop len c.buffer) (S.unread c.reader))
        ∙ ap (λ b. b ++ S.unread c.reader) (take-append-drop len c.buffer) in
      let framed =
        read_rest-stream fuel len (take len c.buffer) c' (length-take-le len c.buffer)
          (payload_empty len c.buffer) in
      rw (h, whole) at framed

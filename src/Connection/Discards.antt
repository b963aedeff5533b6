-- ===== src/Connection/Discards.antt =====
-- What the discards of src/connection.rs drop.
use ousagi.Connection.Frames.{feed_at, stream, read_buf-Filled, WhenSome}
use ousagi.Connection.Payloads.{drop-append}
use ousagi.Connection.Reads.{
  Connection, skipped, then_skip, flushed, read_buf, discard_exact, discard_until_newline,
}
use ousagi.Connection.Streams.{Streams}
use ousagi.Prelude.{
  ℕ, zero, suc, ◌+◌, ◌-◌, ◌<◌, ◌≡◌, ◌≢◌, refl, sym, ap, ◌∙◌, inl, inr, Option, none, some, [], ◌∷◌,
  ◌++◌, Bytes, length, length-append, drop, position, ltb, ◌==◌, arith, Option-cases, Bool-cases,
  if◌then◌else◌,
}

-- What follows the first line feed; nothing where there is none.
unfoldable pub after_line : Bytes → Bytes
after_line [] = []
after_line (b ∷ bs) = if b == b'\n' then bs else after_line bs

after_line-found :
    (s t : Bytes) (i : ℕ) → feed_at s ≡ some i → after_line (s ++ t) ≡ drop (i + 1) s ++ t
unfolding after_line position
after_line-found [] t i h = cc
after_line-found (b ∷ s) t zero h = ground (arith, after_line-found s t)
after_line-found (b ∷ s) t (suc i) h = ground (arith, after_line-found s t i)

after_line-none : (s t : Bytes) → feed_at s ≡ none → after_line (s ++ t) ≡ after_line t
unfolding after_line position
after_line-none [] t h = refl
after_line-none (b ∷ s) t h = ground (arith, after_line-none s t)

module _ (S : Streams) where
  skipped-stream :
      (n : ℕ) (c c' : Connection S) (o : Option S.Reader)
      → S.skip n c.reader ≡ o
      → skipped S c o ≡ some c'
      → (c'.buffer ≡ c.buffer) × (S.unread c'.reader ≡ drop n (S.unread c.reader))
  skipped-stream n c c' none e h = cc
  skipped-stream n c c' (some r) e h =
      let now : record c { reader = r } ≡ c' = cc in rw (← now) (refl, S.unread-skip n c.reader r e)

  then_skip-stream :
      (n : ℕ) (c c' : Connection S) (o : Option S.Writer)
      → then_skip S n (flushed S c o) ≡ some c'
      → (c'.buffer ≡ c.buffer) × (S.unread c'.reader ≡ drop n (S.unread c.reader))
  then_skip-stream n c c' none h = cc
  then_skip-stream n c c' (some writer) h =
      skipped-stream n (record c { writer = writer }) c' (S.skip n c.reader) refl h

  -- If `discard_exact` succeeds, the stream has lost its first `n` bytes, or all where it has
  -- fewer, whichever part of them was buffered.
  pub discard_exact-drop :
      (n : ℕ) (c c' : Connection S)
      → discard_exact S n c ≡ some c'
      → stream S c' ≡ drop n (stream S c)
  unfolding discard_exact
  discard_exact-drop n c c' h =
      let cut = record c { buffer = drop n c.buffer } in
      elim (Bool-cases (ltb 0 (n - length c.buffer))) [
        | inl more ↦
            let (kept, rest) =
              then_skip-stream (n - length c.buffer) cut c' (S.flush c.writer) (rw more at h) in
            ap (λ b. b ++ S.unread c'.reader) kept
            ∙ ap (λ u. drop n c.buffer ++ u) rest
            ∙ sym (drop-append n c.buffer (S.unread c.reader))
        | inr within ↦
            let now : some cut ≡ some c' = rw within at h in
            let same : cut ≡ c' = cc in
            let zero_left : n - length c.buffer ≡ 0 = ground (arith, within) in
            ap (stream S) (sym same)
            ∙ sym (drop-append n c.buffer (S.unread c.reader) ∙ rw zero_left)
      ]

  unfoldable pub WhenDone : (Connection S → Type 0) → Option (Option (Connection S)) → Type 0
  WhenDone P none = Unit
  WhenDone P (some o) = WhenSome P o

  discard_until_newline_drops :
      (fuel : ℕ) (c : Connection S)
      → WhenDone (λ c'. stream S c' ≡ after_line (stream S c)) (discard_until_newline S fuel c)
  unfolding WhenDone discard_until_newline
  discard_until_newline_drops zero c = tt
  discard_until_newline_drops (suc fuel) c = elim (Option-cases (S.memchr b'\n' c.buffer)) [
    | inr (i, found) ↦
        rw (discard_until_newline, found)
          (sym (
            after_line-found c.buffer (S.unread c.reader) i
              (sym (S.memchr-position b'\n' c.buffer) ∙ found)))
    | inl absent ↦
        let skip_buffer =
          after_line-none c.buffer (S.unread c.reader)
            (sym (S.memchr-position b'\n' c.buffer) ∙ absent) in
        let cleared = record c { buffer = [] } in
        elim (Option-cases (read_buf S cleared)) [
          | inl broken ↦ rw (discard_until_newline, absent, broken) tt
          | inr ((zero, c'), filled) ↦
              let x = read_buf-Filled S cleared c' zero filled in
              rw (discard_until_newline, absent, filled, skip_buffer, x.same, (x.ended refl).0)
                (unfold after_line in refl)
          | inr ((suc n, c'), filled) ↦
              let x = read_buf-Filled S cleared c' (suc n) filled in
              rw (discard_until_newline, absent, filled, skip_buffer, ← x.same)
                (discard_until_newline_drops fuel c')
        ]
  ]

  -- If `discard_until_newline` succeeds, the stream is what followed its first line feed, and
  -- empty if it had none.
  pub discard_until_newline-after_line :
      (fuel : ℕ) (c c' : Connection S)
      → discard_until_newline S fuel c ≡ some (some c')
      → stream S c' ≡ after_line (stream S c)
  unfolding WhenDone
  discard_until_newline-after_line fuel c c' h = rw h at (discard_until_newline_drops fuel c)

  -- With more rounds than the reader has unread bytes `discard_until_newline` returns.
  pub discard_until_newline-total :
      (fuel : ℕ) (c : Connection S)
      → length (S.unread c.reader) < fuel
      → discard_until_newline S fuel c ≢ none
  unfolding discard_until_newline
  discard_until_newline-total zero c h = absurd (omega arith)
  discard_until_newline-total (suc fuel) c h = elim (Option-cases (S.memchr b'\n' c.buffer)) [
    | inr (i, found) ↦ rw (discard_until_newline, found) (λ e. cc)
    | inl absent ↦
        let cleared = record c { buffer = [] } in
        elim (Option-cases (read_buf S cleared)) [
          | inl broken ↦ rw (discard_until_newline, absent, broken) (λ e. cc)
          | inr ((zero, c'), filled) ↦ rw (discard_until_newline, absent, filled) (λ e. cc)
          | inr ((suc n, c'), filled) ↦
              let x = read_buf-Filled S cleared c' (suc n) filled in
              let size : length (c'.buffer ++ S.unread c'.reader) ≡ length (S.unread c.reader) =
                ap length x.same in
              rw (discard_until_newline, absent, filled)
                (discard_until_newline-total fuel c'
                  (omega (arith, h, size, x.grown, length-append c'.buffer (S.unread c'.reader))))
        ]
  ]

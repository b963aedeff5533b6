-- ===== src/Connection/Frames.antt =====
-- The bytes that a connection is still to take, and the lines of them that `read_line` gives.
use mathlib.Core.List.{append-nil, append_assoc}
use ousagi.Connection.Reads.{
  read_more, then_read, flushed, max_line_len, ReadLineError, too_long, strip_end, Connection,
  LineResult, read_buf, fill_buffer, read_line,
}
use ousagi.Connection.Streams.{Streams}
use ousagi.Prelude.{
  ◌≢◌, ℕ, zero, suc, ◌+◌, ◌≤◌, ◌<◌, ◌≡◌, refl, sym, ap, ◌∙◌, inl, inr, Option, none, some, [], ◌∷◌,
  ◌++◌, Bytes, length, length-append, take, drop, position, ok, err, leb, ◌==◌, arith, Option-cases,
  Bool-cases, if◌then◌else◌,
}

abbrev pub in_front : ℕ → Option (Bytes × Bytes) → Option (Bytes × Bytes)
in_front b none = none
in_front b (some (line, rest)) = some (b ∷ line, rest)

-- The bytes up to the first line feed, with it, and the bytes behind.
unfoldable pub first_line : Bytes → Option (Bytes × Bytes)
first_line [] = none
first_line (b ∷ bs) = if b == b'\n' then some (b ∷ [], bs) else in_front b (first_line bs)

abbrev pub feed_at : Bytes → Option ℕ
feed_at = position (λ c. c == b'\n')

pub first_line-found :
    (s t : Bytes) (i : ℕ)
    → feed_at s ≡ some i
    → first_line (s ++ t) ≡ some (take (i + 1) s, drop (i + 1) s ++ t)
unfolding first_line position
first_line-found [] t i h = cc
first_line-found (b ∷ s) t zero h = ground (arith, first_line-found s t)
first_line-found (b ∷ s) t (suc i) h = ground (arith, first_line-found s t i)

pub first_line-none : (s : Bytes) → feed_at s ≡ none → first_line s ≡ none
unfolding first_line position
first_line-none [] h = refl
first_line-none (b ∷ s) h = ground (arith, first_line-none s)

abbrev pub WhenSome : {A : Type 0} → (A → Type 0) → Option A → Type 0
WhenSome P none = Unit
WhenSome P (some a) = P a

pub WhenSome-intro :
    {A : Type 0} {P : A → Type 0} (o : Option A) → ((a : A) → o ≡ some a → P a) → WhenSome P o
WhenSome-intro none h = tt
WhenSome-intro (some a) h = h a refl

pub WhenSome-map :
    {A : Type 0} {P Q : A → Type 0} (o : Option A)
    → ((a : A) → P a → Q a)
    → WhenSome P o
    → WhenSome Q o
WhenSome-map none f h = tt
WhenSome-map (some a) f h = f a h

module _ (S : Streams) where
  -- The bytes that are still to be taken.
  abbrev pub stream : Connection S → Bytes
  stream c = c.buffer ++ S.unread c.reader

  -- What a call of `read_buf` does to the buffer and the stream.
  pub record Filled (c : Connection S) (n : ℕ) (c' : Connection S) : Type 0 where
    pub same : stream c' ≡ stream c
    pub grown : length c'.buffer ≡ length c.buffer + n
    pub ended : n ≡ 0 → (S.unread c.reader ≡ []) × (S.unread c'.reader ≡ [])

  length-zero : (bs : Bytes) → length bs ≡ 0 → bs ≡ []
  length-zero [] h = refl
  length-zero (b ∷ bs) h = absurd (omega arith)

  read_more-Filled :
      (c c' : Connection S) (n : ℕ) (o : Option (Bytes × S.Reader))
      → S.read_buf c.reader ≡ o
      → read_more S c o ≡ some (n, c')
      → Filled c n c'
  read_more-Filled c c' n none e h = cc
  read_more-Filled c c' n (some (bs, r)) e h =
      let size : length bs ≡ n = cc in
      let now : record c { reader = r; buffer = c.buffer ++ bs } ≡ c' = cc in
      rw (← now, ← size)
        (record {
          same =
              append_assoc c.buffer bs (S.unread r)
              ∙ ap (λ u. c.buffer ++ u) (sym (S.unread-read_buf c.reader r bs e));
          grown = length-append c.buffer bs;
          ended = λ none_read.
              let nothing = length-zero bs none_read in
              let over = S.read_buf-end c.reader r bs e nothing in
              (
                over,
                sym (ap (λ b. b ++ S.unread r) nothing)
                    ∙ sym (S.unread-read_buf c.reader r bs e)
                    ∙ over,
              );
        })

  pub read_buf-Filled : (c c' : Connection S) (n : ℕ) → read_buf S c ≡ some (n, c') → Filled c n c'
  read_buf-Filled c c' n h = read_more-Filled c c' n (S.read_buf c.reader) refl h

  then_read-Filled :
      (c c' : Connection S) (n : ℕ) (o : Option S.Writer)
      → then_read S (flushed S c o) ≡ some (n, c')
      → Filled c n c'
  then_read-Filled c c' n none h = cc
  then_read-Filled c c' n (some writer) h =
      let x = read_buf-Filled (record c { writer = writer }) c' n h in
      record { same = x.same; grown = x.grown; ended = x.ended }

  pub fill_buffer-Filled :
      (c c' : Connection S) (n : ℕ) → fill_buffer S c ≡ some (n, c') → Filled c n c'
  unfolding fill_buffer
  fill_buffer-Filled c c' n h = then_read-Filled c c' n (S.flush c.writer) h

  -- A call of `read_line` returns as soon as the buffer has the size of the longest line.
  read_line_lem :
      (fuel : ℕ) (c : Connection S)
      → max_line_len < fuel + length c.buffer
      → 0 < fuel
      → read_line S fuel c ≢ none
  unfolding read_line
  read_line_lem zero c h pos = absurd (omega arith)
  read_line_lem (suc fuel) c h pos = elim (Option-cases (S.memchr b'\n' c.buffer)) [
    | inr (i, found) ↦ rw (read_line, found) (λ e. cc)
    | inl absent ↦ elim (Bool-cases (leb max_line_len (length c.buffer))) [
      | inl full ↦ rw (read_line, absent, full) (λ e. cc)
      | inr short ↦ elim (Option-cases (fill_buffer S c)) [
        | inl broken ↦ rw (read_line, absent, short, broken) (λ e. cc)
        | inr ((zero, c'), filled) ↦ rw (read_line, absent, short, filled) (λ e. cc)
        | inr ((suc n, c'), filled) ↦
            let grown = (fill_buffer-Filled c c' (suc n) filled).grown in
            let left : 0 < fuel = ground arith in
            rw (read_line, absent, short, filled)
              (read_line_lem fuel c' (omega (arith, grown, h)) left)
      ]
    ]
  ]

  -- With more than 8192 rounds `read_line` returns, whatever the stream.
  pub read_line-total :
      (fuel : ℕ) (c : Connection S) → max_line_len < fuel → read_line S fuel c ≢ none
  read_line-total fuel c h = read_line_lem fuel c (omega (arith, h)) (omega (arith, h))

  -- What a call of `read_line` means for the stream before and after it.
  abbrev pub Frames : Bytes → LineResult S → Type 0
  Frames before (ok (some line), c') =
      (raw : Bytes) × (first_line before ≡ some (raw, stream c')) × (line ≡ strip_end raw)
  Frames before (ok none, c') =
      (first_line before ≡ none) × (stream c' ≡ before) × (S.unread c'.reader ≡ [])
  Frames before (err too_long, c') =
      (8192 ≤ length c'.buffer) × (first_line c'.buffer ≡ none) × (stream c' ≡ before)
  Frames before (err (ReadLineError.io _), c') = Unit

  ended-Frames :
      (c c' : Connection S)
      → Filled c 0 c'
      → first_line c.buffer ≡ none
      → Frames (stream c) (ok none, c')
  ended-Frames c c' x no_feed =
      let (before, after) = x.ended refl in
      (rw (before, append-nil c.buffer) no_feed, x.same, after)

  read_line-stream :
      (fuel : ℕ) (c : Connection S) → WhenSome (Frames (stream c)) (read_line S fuel c)
  unfolding read_line
  read_line-stream zero c = tt
  read_line-stream (suc fuel) c = elim (Option-cases (S.memchr b'\n' c.buffer)) [
    | inr (i, found) ↦
        let here = sym (S.memchr-position b'\n' c.buffer) ∙ found in
        rw (read_line, found) (_, first_line-found c.buffer (S.unread c.reader) i here, refl)
    | inl absent ↦
        let no_feed = first_line-none c.buffer (sym (S.memchr-position b'\n' c.buffer) ∙ absent) in
        elim (Bool-cases (leb max_line_len (length c.buffer))) [
          | inl full ↦ rw (read_line, absent, full) (ground (arith, full), no_feed, refl)
          | inr short ↦ elim (Option-cases (fill_buffer S c)) [
            | inl broken ↦ rw (read_line, absent, short, broken) tt
            | inr ((zero, c'), filled) ↦
                rw (read_line, absent, short, filled)
                  (ended-Frames c c' (fill_buffer-Filled c c' zero filled) no_feed)
            | inr ((suc n, c'), filled) ↦
                rw
                  (
                    read_line,
                    absent,
                    short,
                    filled,
                    ← (fill_buffer-Filled c c' (suc n) filled).same,
                  )
                  (read_line-stream fuel c')
          ]
        ]
  ]

  -- However the bytes of a stream arrive, if `read_line` returns, then: a line is the first of
  -- the stream without its end, and the stream goes on behind it; no line means that the stream
  -- has no line feed and is at its end; too long a line means that the stream is as it was and
  -- starts with at least 8192 bytes in the buffer, none a line feed.
  pub read_line-Frames :
      (fuel : ℕ) (c : Connection S) (x : LineResult S)
      → read_line S fuel c ≡ some x
      → Frames (stream c) x
  read_line-Frames fuel c x h = rw h at (read_line-stream fuel c)

-- ===== src/Connection/Fuel.antt =====
-- How many rounds are enough for the loops of src/connection.rs.
use ousagi.Connection.Frames.{fill_buffer-Filled}
use ousagi.Connection.Payloads.{fill_data-DataRead, length-take-le}
use ousagi.Connection.Reads.{Connection, fill_buffer, fill_data, read_crlf, read_rest, read_payload}
use ousagi.Connection.Streams.{Streams}
use ousagi.Prelude.{
  ℕ, zero, suc, ◌+◌, ◌-◌, ◌≤◌, ◌<◌, ◌≢◌, inl, inr, none, [], ◌∷◌, ◌++◌, Bytes, codes, length,
  length-append, take, drop, bytes_eq, ltb, arith, Option-cases, Bool-cases,
}

module _ (S : Streams) where
  read_crlf_lem :
      (fuel : ℕ) (payload : Bytes) (c : Connection S)
      → 2 < fuel + length c.buffer
      → 0 < fuel
      → read_crlf S fuel payload c ≢ none
  unfolding read_crlf
  read_crlf_lem zero payload c h pos = absurd (omega arith)
  read_crlf_lem (suc fuel) payload c h pos = elim (Bool-cases (ltb (length c.buffer) 2)) [
    | inl short ↦ elim (Option-cases (fill_buffer S c)) [
      | inl broken ↦ rw (read_crlf, short, broken) (λ e. cc)
      | inr ((zero, c'), filled) ↦ rw (read_crlf, short, filled) (λ e. cc)
      | inr ((suc n, c'), filled) ↦
          let grown = (fill_buffer-Filled S c c' (suc n) filled).grown in
          let left : 0 < fuel = ground arith in
          rw (read_crlf, short, filled)
            (read_crlf_lem fuel payload c' (omega (arith, grown, h)) left)
    ]
    | inr enough ↦ elim (Bool-cases (bytes_eq (take 2 c.buffer) (codes "\r\n"))) [
      | inl good ↦ rw (read_crlf, enough, good) (λ e. cc)
      | inr bad ↦ rw (read_crlf, enough, bad) (λ e. cc)
    ]
  ]

  read_rest_lem :
      (fuel len : ℕ) (payload : Bytes) (c : Connection S)
      → len + 2 < fuel + length payload
      → length payload ≤ len
      → read_rest S fuel len payload c ≢ none
  unfolding read_rest
  read_rest_lem zero len payload c h le = absurd (omega arith)
  read_rest_lem (suc fuel) len payload c h le = elim (Bool-cases (ltb (length payload) len)) [
    | inr all ↦
        rw (read_rest, all)
          (read_crlf_lem (suc fuel) payload c (omega (arith, h, le)) (omega arith))
    | inl missing ↦
        let short : length payload < len = ground (arith, missing) in
        elim (Option-cases (fill_data S (len - length payload) c)) [
          | inl broken ↦ rw (read_rest, missing, broken) (λ e. cc)
          | inr (([], c'), filled) ↦ rw (read_rest, missing, filled) (λ e. cc)
          | inr ((b ∷ bs, c'), filled) ↦
              let fits = (fill_data-DataRead S (len - length payload) c c' (b ∷ bs) filled).fits in
              let size = length-append payload (b ∷ bs) in
              rw (read_rest, missing, filled)
                (read_rest_lem fuel len (payload ++ b ∷ bs) c' (omega (arith, h, size))
                  (omega (arith, size, fits, short)))
        ]
  ]

  -- With more than `len + 2` rounds `read_payload` returns, whatever the stream.
  pub read_payload-total :
      (fuel len : ℕ) (c : Connection S) → len + 2 < fuel → read_payload S fuel len c ≢ none
  unfolding read_payload
  read_payload-total fuel len c h =
      read_rest_lem fuel len (take len c.buffer) (record c { buffer = drop len c.buffer })
        (omega (arith, h)) (length-take-le S len c.buffer)

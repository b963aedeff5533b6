-- ===== src/Connection/Texts.antt =====
-- The bytes that `write_response` of src/connection.rs hands to the writer.
use mathlib.Core.List.{append_assoc, append-nil}
use ousagi.Commands.{Response}
use ousagi.Connection.Answers.{written, parts, write_parts, write_response}
use ousagi.Connection.Frames.{stream}
use ousagi.Connection.Reads.{Connection}
use ousagi.Connection.Streams.{Streams}
use ousagi.Prelude.{
  ◌≡◌, refl, sym, ap, ◌∙◌, inl, inr, some, List, [], ◌∷◌, ◌++◌, Bytes, Option-cases,
}
use ousagi.Connection.Accepted.{accepted}

module _ (S : Streams) where
  -- The bytes of a response.
  abbrev joined : List Bytes → Bytes
  joined [] = []
  joined (bs ∷ l) = bs ++ joined l

  abbrev pub text : Response → Bytes
  text resp = joined (parts S resp)

  written-accepted :
      (bs : Bytes) (c c' : Connection S)
      → written S c (S.write_all bs c.writer) ≡ some c'
      → (stream S c' ≡ stream S c) × (accepted S c' ≡ accepted S c ++ bs)
  written-accepted bs c c' h = elim (Option-cases (S.write_all bs c.writer)) [
    | inl broken ↦ absurd (cc (rw broken at h))
    | inr (w, e) ↦
        let now : some (record c { writer = w }) ≡ some c' = rw e at h in
        let same : record c { writer = w } ≡ c' = cc in
        rw (← same) (refl, S.accepted-write_all bs c.writer w e)
  ]

  write_parts-accepted :
      (l : List Bytes) (c c' : Connection S)
      → write_parts S l c ≡ some c'
      → (stream S c' ≡ stream S c) × (accepted S c' ≡ accepted S c ++ joined l)
  unfolding write_parts
  write_parts-accepted [] c c' h =
      let same : c ≡ c' = cc in rw (← same) (refl, sym (append-nil (accepted S c)))
  write_parts-accepted (bs ∷ l) c c' h =
      elim (Option-cases (written S c (S.write_all bs c.writer))) [
        | inl broken ↦ absurd (cc (rw (write_parts, broken) at h))
        | inr (d, e) ↦
            let (same, one) = written-accepted bs c d e in
            let (same', rest) = write_parts-accepted l d c' (rw (write_parts, e) at h) in
            (
              same' ∙ same,
              rest ∙ ap (λ b. b ++ joined l) one ∙ append_assoc (accepted S c) bs (joined l),
            )
      ]

  -- A response that is written comes after all that was accepted before, and nothing is read.
  pub write_response-text :
      (resp : Response) (c c' : Connection S)
      → write_response S resp c ≡ some c'
      → (stream S c' ≡ stream S c) × (accepted S c' ≡ accepted S c ++ text resp)
  unfolding write_response
  write_response-text resp c c' h = write_parts-accepted (parts S resp) c c' h

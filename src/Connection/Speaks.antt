-- ===== src/Connection/Speaks.antt =====
-- `read_command` of src/connection.rs follows the protocol.
use mathlib.Core.List.{append-nil, append_assoc}
use ousagi.Atoi.{Atoi}
use ousagi.Commands.{Command}
use ousagi.Connection.Commands.{done, again, on_line, read_command}
use ousagi.Connection.Frames.{stream, read_line-Frames, WhenSome, WhenSome-map}
use ousagi.Connection.Protocol.{Next, ended, command_of, Gives}
use ousagi.Connection.Reads.{IoError, Connection, read_line}
use ousagi.Connection.Accepted.{accepted, read_line-accepted}
use ousagi.Connection.Delivered.{Delivered, read_line-Delivered}
use ousagi.Connection.Streams.{Streams}
use ousagi.Prelude.{
  ℕ, zero, suc, ◌≡◌, sym, ap, ◌∙◌, inl, inr, Option, some, [], ◌++◌, Bytes, Result, ok, err,
  Option-cases,
}
use ousagi.Connection.Steps.{Steps, on_line-Steps}

module _ (S : Streams) (atoi : Atoi) where
  -- What `read_command` means for the stream and the bytes handed to the writer.
  abbrev Speaks : Bytes → Bytes → Result IoError (Option Command) × Connection S → Type 0
  Speaks before out (ok r, c) =
      (answers : Bytes) × (n : Next) × Gives S atoi before answers (stream S c) n
      × (command_of n ≡ r)
      × (accepted S c ≡ out ++ answers)
      × (n ≡ ended → Delivered S c)
  Speaks before out (err _, c) = Unit

  Speaks-after :
      (before out : Bytes) (c : Connection S) (x : Result IoError (Option Command) × Connection S)
      → Steps S atoi before out (again c)
      → Speaks (stream S c) (accepted S c) x
      → Speaks before out x
  Speaks-after before out c (ok r, c') (answer, told, then) (answers, n, g, is, more, delivered) = (
    answer ++ answers,
    n,
    then answers (stream S c') n g,
    is,
    more ∙ ap (λ b. b ++ answers) told ∙ append_assoc out answer answers,
    delivered,
  )
  Speaks-after before out c (err e, c') steps speaks = tt

  Speaks-done :
      (before out : Bytes) (c : Connection S) (r : Result IoError (Option Command))
      → Steps S atoi before out (done r c)
      → Speaks before out (r, c)
  Speaks-done before out c (ok r) (n, g, is, told, delivered) =
      ([], n, g, is, told ∙ sym (append-nil out), delivered)
  Speaks-done before out c (err e) steps = tt

  read_command-lem :
      (fuel : ℕ) (c : Connection S)
      → WhenSome (Speaks (stream S c) (accepted S c)) (read_command S atoi fuel c)
  unfolding read_command
  read_command-lem zero c = tt
  read_command-lem (suc fuel) c = elim (Option-cases (read_line S (suc fuel) c)) [
    | inl spent ↦ rw (read_command, spent) (unfold on_line in tt)
    | inr (x, e) ↦
        let framed = read_line-Frames S (suc fuel) c x e in
        let told : accepted S x.1 ≡ accepted S c = rw e at (read_line-accepted S (suc fuel) c) in
        let steps =
          on_line-Steps S atoi (suc fuel) (stream S c) (accepted S c) x framed told
            (rw e at (read_line-Delivered S (suc fuel) c)) in
        elim (Option-cases (on_line S atoi (suc fuel) (some x))) [
          | inl spent ↦ rw (read_command, e, spent) tt
          | inr (done r c', round) ↦
              rw (read_command, e, round)
                (Speaks-done (stream S c) (accepted S c) c' r (rw round at steps))
          | inr (again c', round) ↦
              rw (read_command, e, round)
                (WhenSome-map (read_command S atoi fuel c')
                  (λ y. Speaks-after (stream S c) (accepted S c) c' y (rw round at steps))
                  (read_command-lem fuel c'))
        ]
  ]

  -- If `read_command` returns a command or the end, then however the bytes arrived, that is what
  -- the protocol gives for the bytes of the stream, the stream goes on where the protocol says,
  -- and the bytes handed to the writer are the refusals of the lines before it. If it was the end
  -- of the stream, all that the writer was handed is delivered.
  pub read_command-Gives :
      (fuel : ℕ) (c c' : Connection S) (r : Option Command)
      → read_command S atoi fuel c ≡ some (ok r, c')
      → (answers : Bytes) × (n : Next) × Gives S atoi (stream S c) answers (stream S c') n
        × (command_of n ≡ r)
        × (accepted S c' ≡ accepted S c ++ answers)
        × (n ≡ ended → Delivered S c')
  read_command-Gives fuel c c' r h = rw h at (read_command-lem fuel c)

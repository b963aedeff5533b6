-- ===== src/Session/Requests.antt =====
-- What src/session.rs makes of a client that writes well-formed commands.
use ousagi.Atoi.{Atoi}
use ousagi.Connection.Accepted.{accepted}
use ousagi.Connection.Delivered.{Delivered}
use ousagi.Connection.Protocol.{Next, ended}
use ousagi.Connection.Requests.{
  Request, command_of_request, encode, IsRequest, Gives-encode, Gives-nil,
}
use ousagi.Connection.Streams.{Streams}
use ousagi.Handler.{handle}
use ousagi.Parser.Header.{max_item_size}
use ousagi.Prelude.{
  ℕ, suc, ◌+◌, ◌<◌, ◌≡◌, refl, ap, ◌∙◌, inl, inr, some, List, [], ◌∷◌, ◌++◌, Bytes, length, take,
  All, ok, err, Option-cases,
}
use ousagi.Session.{Ended, process}
use ousagi.Session.Protocol.{
  answer, Serves, over, command, Runs, stops, goes_on, process-Ends, process-total,
}
use ousagi.Store.Cache.{Cache}
use ousagi.Store.Inner.{Store}

module _ (S : Streams) (atoi : Atoi) (C : Cache) where
  -- The store and the answers of the handler, command by command.
  abbrev pub run_all : List Request → Store C → Store C
  run_all [] s = s
  run_all (r ∷ rs) s = run_all rs (handle C (command_of_request r) s).1

  abbrev pub answers_to : List Request → Store C → Bytes
  answers_to [] s = []
  answers_to (r ∷ rs) s =
      let cmd = command_of_request r in
      answer S atoi C cmd (handle C cmd s).0 ++ answers_to rs (handle C cmd s).1

  Serves-encode :
      {before : Bytes} {s : Store C} {answers : Bytes} {t : Store C} {last : Next}
      (rs : List Request)
      → All IsRequest rs
      → before ≡ encode rs
      → Serves S atoi C before s answers t last
      → (answers ≡ answers_to rs s) × (t ≡ run_all rs s) × (last ≡ ended)
  Serves-encode [] valid e (over gives is) =
      let (none_given, last_is) = Gives-nil S atoi e gives in (none_given, refl, last_is)
  Serves-encode (r ∷ rs) (valid, rest) e (over gives is) =
      let (_, _, given) = Gives-encode S atoi r rs valid e gives in cc (rw given at is)
  Serves-encode [] valid e (command cmd gives serves) = cc (Gives-nil S atoi e gives).1
  Serves-encode {before = before} {s = s} (r ∷ rs) (valid, rest) e
        (command {mid = mid} cmd gives serves) =
      let (none_refused, after, given) = Gives-encode S atoi r rs valid e gives in
      let same : cmd ≡ command_of_request r = cc given in
      let (later, store, last) = Serves-encode {before = mid} rs rest after serves in
      (rw (none_refused, later, same) refl, rw (store, same) refl, last)

  Runs-encode :
      {before : Bytes} {s t : Store C} (rs : List Request)
      → All IsRequest rs
      → before ≡ encode rs
      → Runs S atoi C before s t
      → (k : ℕ) × (t ≡ run_all (take k rs) s)
  Runs-encode [] valid e stops = (0, refl)
  Runs-encode (r ∷ rs) valid e stops = (0, refl)
  Runs-encode [] valid e (goes_on cmd gives runs) = cc (Gives-nil S atoi e gives).1
  Runs-encode {before = before} {s = s} (r ∷ rs) (valid, rest) e
        (goes_on {mid = mid} cmd gives runs) =
      let (_, after, given) = Gives-encode S atoi r rs valid e gives in
      let same : cmd ≡ command_of_request r = cc given in
      let (k, store) = Runs-encode {before = mid} rs rest after runs in
      (suc k, rw (store, same) refl)

  -- The end of the session of a client that wrote `rs`, whose answers are written to `w`.
  abbrev pub Answered : List Request → S.Writer → Store C → Ended S atoi C → Type 0
  Answered rs w s (ok _, c, t) =
      (accepted S c ≡ S.accepted w ++ answers_to rs s) × (t ≡ run_all rs s) × Delivered S c
  Answered rs w s (err _, c, t) = (k : ℕ) × (t ≡ run_all (take k rs) s)

  ended-Answered :
      (fuel : ℕ) (r : S.Reader) (w : S.Writer) (s : Store C) (rs : List Request)
      (x : Ended S atoi C)
      → All IsRequest rs
      → S.unread r ≡ encode rs
      → process S atoi C fuel r w s ≡ some x
      → Answered rs w s x
  ended-Answered fuel r w s rs (ok _, c, t) valid e h =
      let (out, last, serves, told, delivered) = process-Ends S atoi C fuel r w s (ok _, c, t) h in
      let (same, store, is_end) = Serves-encode rs valid e serves in
      (told ∙ ap (λ b. S.accepted w ++ b) same, store, delivered is_end)
  ended-Answered fuel r w s rs (err io, c, t) valid e h =
      Runs-encode rs valid e (process-Ends S atoi C fuel r w s (err io, c, t) h)

  -- If a client writes well-formed commands, each a line of at most 8192 bytes with its end and,
  -- for a storage command, a payload of the announced length, and then ends its stream, then a
  -- session with more rounds than those bytes and 1048579 together ends. If it ends without an
  -- error, exactly the answers that the handler gives to these commands, run in turn on the
  -- store, are handed to the writer behind what it had accepted, in order and but for those of
  -- commands that ask for no reply, all of it is delivered, and the store is the one that the
  -- handler leaves. If it ends with an error, the store is the one after some number of the
  -- commands, from the first on.
  pub process-encode :
      (fuel : ℕ) (r : S.Reader) (w : S.Writer) (s : Store C) (rs : List Request)
      → All IsRequest rs
      → S.unread r ≡ encode rs
      → max_item_size + 3 + length (encode rs) < fuel
      → (x : Ended S atoi C) × (process S atoi C fuel r w s ≡ some x) × Answered rs w s x
  process-encode fuel r w s rs valid e enough = elim (Option-cases (process S atoi C fuel r w s)) [
    | inl spent ↦ absurd (process-total S atoi C fuel r w s (rw e enough) spent)
    | inr (x, h) ↦ (x, h, ended-Answered fuel r w s rs x valid e h)
  ]

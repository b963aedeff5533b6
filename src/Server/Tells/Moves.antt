-- ===== src/Server/Tells/Moves.antt =====
-- What a step of src/server.rs makes of what a session has told its client: a step of another leaves
-- it, and a step of the session itself adds to it.
use mathlib.Core.List.{append_assoc}
use ousagi.Atoi.{Atoi}
use ousagi.Commands.{Command, Response}
use ousagi.Connection.Accepted.{accepted}
use ousagi.Connection.Commands.{read_command}
use ousagi.Connection.Frames.{stream}
use ousagi.Connection.Reads.{IoError, Connection}
use ousagi.Connection.Speaks.{read_command-Gives}
use ousagi.Connection.Streams.{Streams}
use ousagi.Prelude.{ℕ, ◌≡◌, refl, ap, ◌∙◌, none, some, List, ◌∷◌, ◌++◌, Bytes, ok, err, All-map}
use ousagi.Server
use ousagi.Server.Permits.{Semaphore}
use ousagi.Server.Talks.{
  answers, began, waits, goes_on, AllWork, Then, Tells, waiting, asked, served, left, broke, gone,
}
use ousagi.Server.{
  Session, absent, reading, called, handling, returned, Server, run, put, opened, closed, spawn,
  Step, accept_fails, wakes, accepts, admits, reads, begins, resumes, replies, leaves, fails,
  breaks, drops, ticks, Reach, here,
}
use ousagi.Session.{reply}
use ousagi.Session.Protocol.{answer, read_command-next, reply-answer}
use ousagi.Store.Cache.{Cache}
use ousagi.Store.Tasks.{Task, finished, begin, resume}

module _ (S : Streams) (atoi : Atoi) (C : Cache) (M : Semaphore) {x y z : Server S atoi C M}
    (r : Reach S atoi C M x y) (st : Step S atoi C M y z) (c0 : Connection S) where
  abbrev later : Reach S atoi C M x z
  later = Server.next r st

  AllWork-later :
      (l : List (Command × Response)) → AllWork S atoi C M r l → AllWork S atoi C M later l
  AllWork-later l work = All-map l (λ e w. waits r st w) work

  Then-later :
      {c : Connection S} (last : _) → Then S atoi C M r c0 c last → Then S atoi C M later c0 c last
  Then-later last t = record {
    exchanges = t.exchanges;
    out = t.out;
    mid = t.mid;
    refusals = t.refusals;
    talks = t.talks;
    gives = t.gives;
    told = t.told;
    work = AllWork-later t.exchanges t.work;
  }

  pub Tells-later :
      (session : Session S) (task : Task)
      → Tells S atoi C M r c0 session task
      → Tells S atoi C M later c0 session task
  Tells-later _ task (waiting l out talks told work) =
      waiting l out talks told (AllWork-later l work)
  Tells-later _ task (asked cmd t) = asked cmd (Then-later _ t)
  Tells-later _ task (served cmd t works) = served cmd (Then-later _ t) (waits r st works)
  Tells-later _ task (left last t over delivered) = left last (Then-later last t) over delivered
  Tells-later _ task (broke e l out mid talks work) = broke e l out mid talks (AllWork-later l work)
  Tells-later _ task gone = gone

  -- What comes after `out` was told.
  then_told :
      {a b : Bytes} (out more : Bytes)
      → a ≡ accepted S c0 ++ out
      → b ≡ a ++ more
      → b ≡ accepted S c0 ++ (out ++ more)
  then_told out more told said =
      said ∙ ap (λ u. u ++ more) told ∙ append_assoc (accepted S c0) out more

  pub reads-Tells :
      (fuel : ℕ) (cmd : Command) (c c' : Connection S) (task task' : Task)
      → read_command S atoi fuel c ≡ some (ok (some cmd), c')
      → Tells S atoi C M r c0 (reading c) task
      → Tells S atoi C M later c0 (called cmd c') task'
  reads-Tells fuel cmd c c' task task' read (waiting l out talks told work) =
      let (refusals, gives, said) = read_command-next S atoi C fuel c c' cmd read in
      asked cmd (record {
        exchanges = l;
        out = out;
        mid = stream S c;
        refusals = refusals;
        talks = talks;
        gives = gives;
        told = then_told out refusals told said;
        work = AllWork-later l work;
      })

  pub begins-Tells :
      (cmd : Command) (c : Connection S) (task task' : Task)
      → task' ≡ (begin C cmd y.system.store).0
      → Tells S atoi C M r c0 (called cmd c) task
      → Tells S atoi C M later c0 (handling cmd c) task'
  begins-Tells cmd c task task' e (asked _ t) = served cmd (Then-later _ t) (began r st e)

  pub resumes-Tells :
      (cmd : Command) (c : Connection S) (task task' : Task)
      → task' ≡ (resume C task y.system.store).0
      → Tells S atoi C M r c0 (handling cmd c) task
      → Tells S atoi C M later c0 (handling cmd c) task'
  resumes-Tells cmd c task task' e (served _ t works) =
      served cmd (Then-later _ t) (goes_on r st works e)

  pub replies-Tells :
      (cmd : Command) (resp : Response) (c c' : Connection S) (task : Task)
      → task ≡ finished resp
      → reply S atoi C cmd resp c ≡ some c'
      → Tells S atoi C M r c0 (handling cmd c) task
      → Tells S atoi C M later c0 (reading c') task
  replies-Tells cmd resp c c' task done replied (served _ t works) =
      let (same, said) = reply-answer S atoi C cmd resp c c' replied in
      waiting ((cmd, resp) ∷ t.exchanges) ((t.out ++ t.refusals) ++ answer S atoi C cmd resp)
        (rw same (answers cmd resp t.talks t.gives refl))
        (then_told (t.out ++ t.refusals) (answer S atoi C cmd resp) t.told said)
        (waits r st (rw done at works), AllWork-later t.exchanges t.work)

  pub leaves-Tells :
      (fuel : ℕ) (c c' : Connection S) (task task' : Task)
      → read_command S atoi fuel c ≡ some (ok none, c')
      → Tells S atoi C M r c0 (reading c) task
      → Tells S atoi C M later c0 (returned (ok tt) c') task'
  leaves-Tells fuel c c' task task' read (waiting l out talks told work) =
      let (refusals, last, gives, over, said, delivered) =
        read_command-Gives S atoi fuel c c' none read in
      left last
        (record {
          exchanges = l;
          out = out;
          mid = stream S c;
          refusals = refusals;
          talks = talks;
          gives = gives;
          told = then_told out refusals told said;
          work = AllWork-later l work;
        })
        over delivered

  pub fails-Tells :
      (e : IoError) (c c' : Connection S) (task task' : Task)
      → Tells S atoi C M r c0 (reading c) task
      → Tells S atoi C M later c0 (returned (err e) c') task'
  fails-Tells e c c' task task' (waiting l out talks told work) =
      broke e l out (stream S c) talks (AllWork-later l work)

  pub breaks-Tells :
      (e : IoError) (cmd : Command) (c c' : Connection S) (task task' : Task)
      → Tells S atoi C M r c0 (handling cmd c) task
      → Tells S atoi C M later c0 (returned (err e) c') task'
  breaks-Tells e cmd c c' task task' (served _ t works) =
      broke e t.exchanges t.out t.mid t.talks (AllWork-later t.exchanges t.work)

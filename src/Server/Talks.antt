-- ===== src/Server/Talks.antt =====
-- What a session of src/server.rs has read, run and answered, told by the protocol of src/connection.rs.
use ousagi.Atoi.{Atoi}
use ousagi.Commands.{Command, Response}
use ousagi.Connection.Accepted.{accepted}
use ousagi.Connection.Delivered.{Delivered}
use ousagi.Connection.Frames.{stream}
use ousagi.Connection.Protocol.{Next, ended, next, command_of, Gives}
use ousagi.Connection.Reads.{IoError, Connection}
use ousagi.Connection.Streams.{Streams}
use ousagi.Prelude.{◌≡◌, none, List, [], ◌∷◌, ◌++◌, Bytes, ok, err, All}
use ousagi.Server
use ousagi.Server.Permits.{Semaphore}
use ousagi.Server.{Session, absent, reading, called, handling, returned, Server, Step, Reach}
use ousagi.Session.Protocol.{answer}
use ousagi.Store.Cache.{Cache}
use ousagi.Store.Tasks.{Task, finished, begin, resume}

module _ (S : Streams) (atoi : Atoi) (C : Cache) (M : Semaphore) where
  -- Commands with their responses, the last one first. From the bytes `before` they are given one
  -- after the other, `out` answers them and the lines refused between them, and the stream goes on
  -- with `after`.
  pub data Talks (before : Bytes) : List (Command × Response) → Bytes → Bytes → Type 0 where
    starts : {out after : Bytes} → out ≡ [] → after ≡ before → Talks before [] out after
    answers :
        {l : List (Command × Response)} {out mid refusals after out' : Bytes} (cmd : Command)
        (resp : Response)
        → Talks before l out mid
        → Gives S atoi mid refusals after (next cmd)
        → out' ≡ (out ++ refusals) ++ answer S atoi C cmd resp
        → Talks before ((cmd, resp) ∷ l) out' after

  -- The method of `cmd` began in a state of the run, took each of its steps in a later one, and has
  -- come to `task`.
  pub data Works (x : Server S atoi C M) (cmd : Command)
      : (y : Server S atoi C M) → Reach S atoi C M x y → Task → Type 0 where
    began :
        {y z : Server S atoi C M} {task : Task} (r : Reach S atoi C M x y)
        (st : Step S atoi C M y z)
        → task ≡ (begin C cmd y.system.store).0
        → Works x cmd z (Server.next r st) task
    waits :
        {y z : Server S atoi C M} {task : Task} (r : Reach S atoi C M x y)
        (st : Step S atoi C M y z)
        → Works x cmd y r task
        → Works x cmd z (Server.next r st) task
    goes_on :
        {y z : Server S atoi C M} {task task' : Task} (r : Reach S atoi C M x y)
        (st : Step S atoi C M y z)
        → Works x cmd y r task
        → task' ≡ (resume C task y.system.store).0
        → Works x cmd z (Server.next r st) task'

  -- Every response is what the method of its command came to.
  abbrev pub AllWork :
      {x y : Server S atoi C M} → Reach S atoi C M x y → List (Command × Response) → Type 0
  AllWork {x} {y} r l = All (λ e. Works x e.0 y r (finished e.1)) l

  -- After `l`, the bytes give one thing more.
  pub record Then {x y : Server S atoi C M} (r : Reach S atoi C M x y) (c0 c : Connection S)
      (last : Next) : Type 0 where
    pub exchanges : List (Command × Response)
    pub out : Bytes
    pub mid : Bytes
    pub refusals : Bytes
    pub talks : Talks (stream S c0) exchanges out mid
    pub gives : Gives S atoi mid refusals (stream S c) last
    pub told : accepted S c ≡ accepted S c0 ++ (out ++ refusals)
    pub work : AllWork r exchanges

  -- What a session with the method `task` has done since it stood before its next command with the
  -- connection `c0`.
  pub data Tells {x y : Server S atoi C M} (r : Reach S atoi C M x y) (c0 : Connection S)
      : Session S → Task → Type 0 where
    waiting :
        {c : Connection S} {task : Task} (l : List (Command × Response)) (out : Bytes)
        → Talks (stream S c0) l out (stream S c)
        → accepted S c ≡ accepted S c0 ++ out
        → AllWork r l
        → Tells r c0 (reading c) task
    asked :
        {c : Connection S} {task : Task} (cmd : Command)
        → Then r c0 c (next cmd)
        → Tells r c0 (called cmd c) task
    served :
        {c : Connection S} {task : Task} (cmd : Command)
        → Then r c0 c (next cmd)
        → Works x cmd y r task
        → Tells r c0 (handling cmd c) task
    left :
        {c : Connection S} {task : Task} (last : Next)
        → Then r c0 c last
        → command_of last ≡ none
        → (last ≡ ended → Delivered S c)
        → Tells r c0 (returned (ok tt) c) task
    broke :
        {c : Connection S} {task : Task} (e : IoError) (l : List (Command × Response))
        (out mid : Bytes)
        → Talks (stream S c0) l out mid
        → AllWork r l
        → Tells r c0 (returned (err e) c) task
    gone : {task : Task} → Tells r c0 absent task

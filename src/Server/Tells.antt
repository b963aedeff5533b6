-- ===== src/Server/Tells.antt =====
-- Every session of src/server.rs follows the protocol, whatever the other sessions do in between.
mod Moves
use mathlib.Core.List.{append-nil, append_assoc}
use ousagi.Atoi.{Atoi}
use ousagi.Commands.{Command, Response}
use ousagi.Connection.Accepted.{accepted}
use ousagi.Connection.Commands.{read_command}
use ousagi.Connection.Frames.{stream}
use ousagi.Connection.Reads.{IoError, failed, Connection, connect}
use ousagi.Connection.Speaks.{read_command-Gives}
use ousagi.Connection.Streams.{Streams}
use ousagi.Prelude.{
  ℕ, ◌<◌, ◌≡◌, ◌==◌, ==_iff, inl, inr, Bool-cases, arith, refl, sym, ap, ◌∙◌, none, some, List, [],
  ◌∷◌, ◌++◌, Bytes, ok, err, All-map,
}
use ousagi.Server
use ousagi.Server.Invariant.{below_spawned}
use ousagi.Server.Invariant.Steps.{reached-Inv}
use ousagi.Server.Permits.{Semaphore}
use ousagi.Server.Sessions.{update-cases}
use ousagi.Server.Talks.{
  starts, answers, began, waits, goes_on, AllWork, Then, Tells, waiting, asked, served, left, broke,
  gone,
}
use ousagi.Server.{
  Session, absent, reading, called, handling, returned, Server, run, put, opened, closed, spawn,
  Step, accept_fails, wakes, accepts, admits, reads, begins, resumes, replies, leaves, fails,
  breaks, drops, ticks, shuts_down, ticked, Reach, here,
}
use ousagi.Session.{reply}
use ousagi.Session.Protocol.{answer, read_command-next, reply-answer}
use ousagi.Startup.{Cli}
use ousagi.Store.Cache.{Cache}
use ousagi.Store.Tasks.{Task, finished, begin, resume}
use ousagi.Store.Tasks.System.{update}
use Moves.{
  Tells-later, reads-Tells, begins-Tells, resumes-Tells, replies-Tells, leaves-Tells, fails-Tells,
  breaks-Tells,
}

module _ (S : Streams) (atoi : Atoi) (C : Cache) (M : Semaphore) {x : Server S atoi C M} where
  abbrev Now : {y : Server S atoi C M} → ℕ → Connection S → Reach S atoi C M x y → Type 0
  Now {y} n c0 r = (n < y.spawned) × Tells S atoi C M r c0 (y.sessions n) (y.system.tasks n)

  -- The session `m` changes, and no method.
  put-Tells :
      {y z : Server S atoi C M} (r : Reach S atoi C M x y) (st : Step S atoi C M y z)
      (c0 : Connection S) (n m : ℕ) (old new : Session S)
      → y.sessions m ≡ old
      → Tells S atoi C M r c0 (y.sessions n) (y.system.tasks n)
      → (Tells S atoi C M r c0 old (y.system.tasks n)
          → n ≡ m
          → Tells S atoi C M (Server.next r st) c0 new (y.system.tasks n))
      → Tells S atoi C M (Server.next r st) c0 (update m new y.sessions n) (y.system.tasks n)
  put-Tells {y} r st c0 n m old new is tells change =
      update-cases (λ u. Tells S atoi C M (Server.next r st) c0 u (y.system.tasks n)) m n new
        y.sessions
        (λ e. let at_m : y.sessions n ≡ old = ap y.sessions e ∙ is in change (rw at_m at tells) e)
        (λ _. Tells-later S atoi C M r st c0 (y.sessions n) (y.system.tasks n) tells)

  Step-Tells :
      {y z : Server S atoi C M} (r : Reach S atoi C M x y) (st : Step S atoi C M y z)
      (c0 : Connection S) (n : ℕ)
      → Now n c0 r
      → Now n c0 (Server.next r st)
  unfolding spawn opened closed ticked
  Step-Tells {y} r (accept_fails e) c0 n (below, tells) =
      (below, Tells-later S atoi C M r (accept_fails e) c0 (y.sessions n) (y.system.tasks n) tells)
  Step-Tells {y} r (wakes e) c0 n (below, tells) =
      (below, Tells-later S atoi C M r (wakes e) c0 (y.sessions n) (y.system.tasks n) tells)
  Step-Tells {y} r (accepts i o e) c0 n (below, tells) =
      (below, Tells-later S atoi C M r (accepts i o e) c0 (y.sessions n) (y.system.tasks n) tells)
  Step-Tells {y} r (ticks time) c0 n (below, tells) =
      (below, Tells-later S atoi C M r (ticks time) c0 (y.sessions n) (y.system.tasks n) tells)
  Step-Tells {y} r shuts_down c0 n (below, tells) =
      (below, Tells-later S atoi C M r shuts_down c0 (y.sessions n) (y.system.tasks n) tells)
  Step-Tells {y} r (admits i o m e k) c0 n (below, tells) = (
    omega (arith, below),
    update-cases (λ u. Tells S atoi C M (Server.next r (admits i o m e k)) c0 u (y.system.tasks n))
        y.spawned n (reading (connect S i o)) y.sessions
        (λ same. absurd (omega (arith, below, same)))
        (λ _.
          Tells-later S atoi C M r (admits i o m e k) c0 (y.sessions n) (y.system.tasks n) tells),
  )
  Step-Tells {y} r (reads m fuel c c' cmd is read) c0 n (below, tells) =
      let st = reads m fuel c c' cmd is read in
      let task = y.system.tasks n in
      (
        below,
        put-Tells r st c0 n m (reading c) (called cmd c') is tells
            (λ was _. reads-Tells S atoi C M r st c0 fuel cmd c c' task task read was),
      )
  Step-Tells {y} r (begins m cmd c is) c0 n (below, tells) =
      let st = begins m cmd c is in
      let task = (begin C cmd y.system.store).0 in
      (
        below,
        elim (Bool-cases (n == m)) [
          | inl same ↦
              let at_m : y.sessions n ≡ called cmd c = ap y.sessions ((==_iff n m).0 same) ∙ is in
              rw same (
                begins-Tells S atoi C M r st c0 cmd c (y.system.tasks n) task refl
                  (rw at_m at tells))
          | inr differ ↦
              rw differ (Tells-later S atoi C M r st c0 (y.sessions n) (y.system.tasks n) tells)
        ],
      )
  Step-Tells {y} r (resumes m cmd c is) c0 n (below, tells) =
      let st = resumes m cmd c is in
      let task = (resume C (y.system.tasks m) y.system.store).0 in
      (
        below,
        elim (Bool-cases (n == m)) [
          | inl same ↦
              let at_m = (==_iff n m).0 same in
              rw (same, at_m, is)
                (resumes-Tells S atoi C M r st c0 cmd c (y.system.tasks m) task refl
                  (rw (at_m, is) at tells))
          | inr differ ↦
              rw differ (Tells-later S atoi C M r st c0 (y.sessions n) (y.system.tasks n) tells)
        ],
      )
  Step-Tells {y} r (replies m cmd c c' resp is done replied) c0 n (below, tells) =
      let st = replies m cmd c c' resp is done replied in
      (
        below,
        put-Tells r st c0 n m (handling cmd c) (reading c') is tells (λ was e.
            replies-Tells S atoi C M r st c0 cmd resp c c' (y.system.tasks n)
              (ap y.system.tasks e ∙ done) replied was),
      )
  Step-Tells {y} r (leaves m fuel c c' is read) c0 n (below, tells) =
      let st = leaves m fuel c c' is read in
      let task = y.system.tasks n in
      (
        below,
        put-Tells r st c0 n m (reading c) (returned (ok tt) c') is tells
            (λ was _. leaves-Tells S atoi C M r st c0 fuel c c' task task read was),
      )
  Step-Tells {y} r (fails m fuel c c' e is read) c0 n (below, tells) =
      let st = fails m fuel c c' e is read in
      let task = y.system.tasks n in
      (
        below,
        put-Tells r st c0 n m (reading c) (returned (err e) c') is tells
            (λ was _. fails-Tells S atoi C M r st c0 e c c' task task was),
      )
  Step-Tells {y} r (breaks m cmd c resp is done broken) c0 n (below, tells) =
      let st = breaks m cmd c resp is done broken in
      let task = y.system.tasks n in
      (
        below,
        put-Tells r st c0 n m (handling cmd c) (returned (err failed) c) is tells
            (λ was _. breaks-Tells S atoi C M r st c0 failed cmd c c task task was),
      )
  Step-Tells {y} r (drops m res c is) c0 n (below, tells) =
      (below, put-Tells r (drops m res c is) c0 n m (returned res c) absent is tells (λ _ _. gone))

  Reach-Now :
      {y : Server S atoi C M} (r : Reach S atoi C M x y) (c0 : Connection S) (n : ℕ)
      → n < x.spawned
      → x.sessions n ≡ reading c0
      → Now n c0 r
  Reach-Now here c0 n below is =
      (below, rw is (waiting [] [] (starts refl refl) (sym (append-nil (accepted S c0))) tt))
  Reach-Now (Server.next r st) c0 n below is = Step-Tells r st c0 n (Reach-Now r c0 n below is)

  -- In every run of the server, whatever the other sessions, the loop and the clock do between
  -- its steps, a session that stood before its next command with the connection `c0` goes by the
  -- protocol on the bytes of `c0`: it has run the commands that these give, one after the other,
  -- up to the one it is at; each response is the one that the method of its command ended with,
  -- which began and took its steps in states of the run in this order; and, unless it failed or
  -- is gone, the bytes handed to its writer are the refusals and the answers to these commands in
  -- order, and nothing else. If it was over without an error, the client had quit or its bytes
  -- had ended; if they had ended, all of these bytes are delivered.
  pub Reach-Tells :
      (clock : ℕ) (args : Cli) {y : Server S atoi C M} (c0 : Connection S) (n : ℕ)
      → Reach S atoi C M (run S atoi C M clock args) x
      → x.sessions n ≡ reading c0
      → (r : Reach S atoi C M x y) → Tells S atoi C M r c0 (y.sessions n) (y.system.tasks n)
  Reach-Tells clock args c0 n before is r =
      let v = reached-Inv S atoi C M clock args before in
      (Reach-Now r c0 n (below_spawned S atoi C M n (reading c0) v is refl) is).1

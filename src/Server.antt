-- ===== src/Server.antt =====
-- src/server.rs with the sessions of src/session.rs that it spawns: the loop, the sessions and the
-- clock take their steps in any order. A session reads a command, runs its method in the steps of
-- Store/Tasks, and replies; what it reads and writes is its own, and what the methods do is shared.
pub mod Permits
pub mod Sessions
pub mod Invariant
pub mod Limits
pub mod Ends
pub mod Methods
pub mod Talks
pub mod Tells
pub mod Requests
use ousagi.Atoi.{Atoi}
use ousagi.Clock.{Clock, SystemTime, ClockTask, running, beat}
use ousagi.Commands.{Command, Response}
use ousagi.Connection.Commands.{read_command}
use ousagi.Connection.Reads.{IoError, failed, Connection, connect}
use ousagi.Connection.Streams.{Streams}
use ousagi.Prelude.{
  ℕ, suc, ◌*◌, ◌%◌, ◌^◌, ◌≡◌, Option, none, some, ◌++◌, Bytes, codes, Result, ok, err,
}
use ousagi.Session.{reply}
use ousagi.Startup.{Cli}
use ousagi.Stats.{curr_connections, total_connections, Stats, add, sub}
use ousagi.Store.Cache.{Cache}
use ousagi.Store.Tasks.{finished, begin, resume}
use ousagi.Store.Tasks.System.{System, update, step, start}
use ousagi.Store.Traces.{set_clock}
use ousagi.Text.{to_string}
use Permits.{Semaphore}

-- `u64` multiplication, which wraps in a release build.
abbrev mul_u64 : ℕ → ℕ → ℕ
mul_u64 a b = (a * b) % 2 ^ 64

unfoldable pub memory_limit : ℕ → ℕ
memory_limit memory_limit_mb = mul_u64 (mul_u64 memory_limit_mb 1024) 1024

abbrev ip : Option Bytes → Bytes
ip none = codes "0.0.0.0"
ip (some listen) = listen

-- The text that `resolve_addr` has the standard library parse.
unfoldable pub address : Cli → Bytes
address args = ip args.listen ++ (codes ":" ++ to_string args.port)

module _ (S : Streams) where
  -- Where the accept loop stands: before `accept`, in the pause after a failure, with a socket that
  -- has no permit yet, or dropped after the signal to shut down.
  pub data Phase : Type 0 where
    accepting : Phase
    pausing : Phase
    acquiring : S.Reader → S.Writer → Phase
    stopped : Phase

  -- A task that the loop spawns: before its next command, with a command, in the handler, and with
  -- its session over but its permit not yet dropped. A number with no such task is `absent`.
  pub data Session : Type 0 where
    absent : Session
    reading : Connection S → Session
    called : Command → Connection S → Session
    handling : Command → Connection S → Session
    returned : Result IoError (Unit {0}) → Connection S → Session

module _ (S : Streams) (atoi : Atoi) (C : Cache) (M : Semaphore) where
  -- `spawned` is the number of tasks so far, and a task is known by the number before it. The
  -- methods that the sessions run on the store are those of `system`, by the same numbers.
  pub record Server : Type 0 where
    pub phase : Phase S
    pub connections : M.State
    pub spawned : ℕ
    pub sessions : ℕ → Session S
    pub system : System C
    pub clock_task : ClockTask

  -- `run`, up to the loop.
  unfoldable pub run : Clock → Cli → Server
  unfolding memory_limit
  run clock args = record {
    phase = accepting;
    connections = M.new args.max_connections;
    spawned = 0;
    sessions = λ _. absent;
    system = start C clock (memory_limit args.memory_limit_mb);
    clock_task = running;
  }

  abbrev pub put : ℕ → Session S → Server → Server
  put n session s = record s { sessions = update n session s.sessions }

  abbrev pub put_stats : Stats → Server → Server
  put_stats stats s = record s {
    system = record s.system { store = record s.system.store { stats = stats } };
  }

  -- The counters once a permit is there.
  unfoldable pub opened : Server → Server
  opened s = put_stats (add curr_connections 1 (add total_connections 1 s.system.store.stats)) s

  -- The session `n` returns, and its counter is lowered.
  unfoldable pub closed : ℕ → Result IoError (Unit {0}) → Connection S → Server → Server
  closed n res c s =
      put n (returned res c) (put_stats (sub curr_connections 1 s.system.store.stats) s)

  -- The loop, with the permit `m`.
  unfoldable pub spawn : S.Reader → S.Writer → M.State → Server → Server
  unfolding opened
  spawn r w m s =
      let s' = put s.spawned (reading (connect S r w)) (opened s) in
      record s' { phase = accepting; connections = m; spawned = suc s.spawned }

  -- A round of the clock's task.
  unfoldable pub ticked : SystemTime → Server → Server
  unfolding beat
  ticked time s =
      let (task, secs) = beat time (s.clock_task, s.system.store.shared_clock) in
      record s {
        clock_task = task;
        system = record s.system { store = set_clock C secs s.system.store };
      }

  pub data Step (s : Server) : Server → Type 0 where
    accept_fails : s.phase ≡ accepting → Step s (record s { phase = pausing })
    wakes : s.phase ≡ pausing → Step s (record s { phase = accepting })
    accepts :
        (r : S.Reader) (w : S.Writer)
        → s.phase ≡ accepting
        → Step s (record s { phase = acquiring r w })
    admits :
        (r : S.Reader) (w : S.Writer) (m : M.State)
        → s.phase ≡ acquiring r w
        → M.acquire s.connections ≡ some m
        → Step s (spawn r w m s)
    reads :
        (n fuel : ℕ) (c c' : Connection S) (cmd : Command)
        → s.sessions n ≡ reading c
        → read_command S atoi fuel c ≡ some (ok (some cmd), c')
        → Step s (put n (called cmd c') s)
    begins :
        (n : ℕ) (cmd : Command) (c : Connection S)
        → s.sessions n ≡ called cmd c
        → Step s (record (put n (handling cmd c) s) {
          system = step C n (begin C cmd s.system.store) s.system;
        })
    resumes :
        (n : ℕ) (cmd : Command) (c : Connection S)
        → s.sessions n ≡ handling cmd c
        → Step s
            (record s { system = step C n (resume C (s.system.tasks n) s.system.store) s.system })
    replies :
        (n : ℕ) (cmd : Command) (c c' : Connection S) (resp : Response)
        → s.sessions n ≡ handling cmd c
        → s.system.tasks n ≡ finished resp
        → reply S atoi C cmd resp c ≡ some c'
        → Step s (put n (reading c') s)
    -- The client quits or the stream ends; a read fails; a reply fails.
    leaves :
        (n fuel : ℕ) (c c' : Connection S)
        → s.sessions n ≡ reading c
        → read_command S atoi fuel c ≡ some (ok none, c')
        → Step s (closed n (ok tt) c' s)
    fails :
        (n fuel : ℕ) (c c' : Connection S) (e : IoError)
        → s.sessions n ≡ reading c
        → read_command S atoi fuel c ≡ some (err e, c')
        → Step s (closed n (err e) c' s)
    breaks :
        (n : ℕ) (cmd : Command) (c : Connection S) (resp : Response)
        → s.sessions n ≡ handling cmd c
        → s.system.tasks n ≡ finished resp
        → reply S atoi C cmd resp c ≡ none
        → Step s (closed n (err failed) c s)
    drops :
        (n : ℕ) (res : Result IoError (Unit {0})) (c : Connection S)
        → s.sessions n ≡ returned res c
        → Step s (record (put n absent s) { connections = M.release s.connections })
    ticks : (time : SystemTime) → Step s (ticked time s)
    -- `shutdown_signal` is the first to return, and the loop is dropped.
    shuts_down : Step s (record s { phase = stopped })

  pub data Reach (s : Server) : Server → Type 0 where
    here : Reach s s
    next : {t u : Server} → Reach s t → Step t u → Reach s u

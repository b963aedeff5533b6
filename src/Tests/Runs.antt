-- ===== src/Tests/Runs.antt =====
-- A server on streams that give a byte at a time, and the states that a run of it goes through.
use ousagi.Commands.{Command, Response, set, cas}
use ousagi.Connection.Commands.{read_command}
use ousagi.Connection.Reads.{Connection}
use ousagi.Parser.Header.{into_command}
use ousagi.Parser.Tokens.{next, validate_key}
use ousagi.Prelude.{
  ℕ, zero, suc, ◌<◌, ◌≡◌, refl, false, Option, none, some, [], Bytes, codes, ok, any, position,
  bytes_eq, arith,
}
use ousagi.Server
use ousagi.Server.{
  Session, stopped, reading, called, handling, accepting, acquiring, Server, run, put, spawn, Reach,
}
use ousagi.Server.Ends
use ousagi.Server.Ends.{Reach-admits}
use ousagi.Server.Methods.{Fits}
use ousagi.Server.Permits.{Semaphore}
use ousagi.Session.{reply}
use ousagi.Startup.{Cli, default_cli}
use ousagi.Store.Inner.{new_store}
use ousagi.Store.Tasks.{begin, resume}
use ousagi.Store.Tasks.System.{step, is_free}
use ousagi.Store.Writes.{store_op}
use ousagi.Text.{parse_u64, trim}
use ousagi.Tests.Crates.{roomy_cache, whole_text_atoi}
use ousagi.Tests.Data.{set_args, cas_args}
use ousagi.Tests.Wire.{slow_streams, opened}

abbrev pub take_one : ℕ → Option ℕ
take_one zero = none
take_one (suc n) = some n

pub take_one-some : (m m' : ℕ) → take_one m ≡ some m' → m ≡ suc m'
take_one-some zero m' h = cc
take_one-some (suc n) m' h = cc

pub take_one-ne-none : (m : ℕ) → 0 < m → (take_one m ≡ none) → ⊥
take_one-ne-none zero h e = omega arith
take_one-ne-none (suc n) h e = cc

-- A semaphore that counts.
abbrev pub counting_semaphore : Semaphore
counting_semaphore = record {
  State = ℕ;
  new = λ n. n;
  acquire = take_one;
  release = λ m. suc m;
  available = λ m. m;
  available-new = λ n. refl;
  available-acquire = take_one-some;
  acquire-ne-none = take_one-ne-none;
  available-release = λ m. refl;
}

abbrev pub small_cli : Cli
small_cli = record default_cli { max_connections = 2 }

-- Two clients are accepted. The first sets an item and then sends a `cas` with its token.
abbrev pub requests : Bytes
requests = codes "set k 7 0 1\r\n5\r\ncas k 7 0 1 1\r\n6\r\n"

abbrev pub more : Bytes
more = codes "cas k 7 0 1 1\r\n6\r\n"

abbrev pub SmallServer : Type 0
SmallServer = Server slow_streams whole_text_atoi roomy_cache counting_semaphore

abbrev pub set_command : Command
set_command = Command.store set set_args

abbrev pub cas_command : Command
cas_command = Command.store cas cas_args

abbrev pub change : ℕ → Session slow_streams → SmallServer → SmallServer
change n session s = put slow_streams whole_text_atoi roomy_cache counting_semaphore n session s

abbrev pub ReachSmall : SmallServer → SmallServer → Type 0
ReachSmall s t = Reach slow_streams whole_text_atoi roomy_cache counting_semaphore s t

abbrev pub connected : Connection slow_streams
connected = opened requests

abbrev pub after_set : Connection slow_streams
after_set = opened more

abbrev pub set_replied : Connection slow_streams
set_replied = record after_set { writer = ([], codes "STORED\r\n") }

abbrev pub after_cas : Connection slow_streams
after_cas = record (opened []) { writer = (codes "STORED\r\n", []) }

abbrev pub x0 : SmallServer
x0 = run slow_streams whole_text_atoi roomy_cache counting_semaphore 1000 small_cli

abbrev pub x1 : SmallServer
x1 = record x0 { phase = acquiring requests ([], []) }

abbrev pub x2 : SmallServer
x2 = spawn slow_streams whole_text_atoi roomy_cache counting_semaphore requests ([], []) 1 x1

abbrev pub x3 : SmallServer
x3 = change 0 (called set_command after_set) x2

abbrev pub x4 : SmallServer
x4 = record (change 0 (handling set_command after_set) x3) {
  system = step roomy_cache 0 (begin roomy_cache set_command x3.system.store) x3.system;
}

abbrev pub x5 : SmallServer
x5 = record x4 {
  system = step roomy_cache 0 (resume roomy_cache (x4.system.tasks 0) x4.system.store) x4.system;
}

abbrev pub x6 : SmallServer
x6 = change 0 (reading set_replied) x5

abbrev pub x7 : SmallServer
x7 = change 0 (called cas_command after_cas) x6

abbrev pub x8 : SmallServer
x8 = record (change 0 (handling cas_command after_cas) x7) {
  system = step roomy_cache 0 (begin roomy_cache cas_command x7.system.store) x7.system;
}

-- The second client waits for its permit.
abbrev pub x9 : SmallServer
x9 = record x8 { phase = acquiring [] ([], []) }

set_is_read :
    read_command slow_streams whole_text_atoi 60 connected ≡ some (ok (some set_command), after_set)
unfolding read_command next position bytes_eq parse_u64 trim validate_key any into_command
set_is_read = refl

cas_is_read :
    read_command slow_streams whole_text_atoi 60 set_replied
    ≡ some (ok (some cas_command), after_cas)
unfolding read_command next position bytes_eq parse_u64 trim validate_key any into_command
cas_is_read = refl

pub is_accepted : ReachSmall x0 x2
unfolding run spawn
is_accepted =
    Server.next (Server.next Server.here (Server.accepts requests ([], []) refl))
      (Server.admits requests ([], []) 1 refl refl)

set_after : {s : SmallServer} → ReachSmall s x2 → ReachSmall s x6
unfolding run spawn begin resume store_op new_store reply
set_after r =
    Server.next
      (Server.next
        (Server.next
          (Server.next r (Server.reads 0 60 connected after_set set_command refl set_is_read))
          (Server.begins 0 set_command after_set refl))
        (Server.resumes 0 set_command after_set refl))
      (Server.replies 0 set_command after_set set_replied Response.stored refl refl refl)

pub is_set : ReachSmall x2 x6
is_set = set_after Server.here

pub cas_begins : ReachSmall x6 x8
unfolding run spawn begin resume store_op new_store
cas_begins =
    Server.next
      (Server.next Server.here
        (Server.reads 0 60 set_replied after_cas cas_command refl cas_is_read))
      (Server.begins 0 cas_command after_cas refl)

pub another_waits : ReachSmall x0 x9
unfolding run spawn
another_waits =
    Server.next
      (Ends.Reach-trans slow_streams whole_text_atoi roomy_cache counting_semaphore
        (set_after is_accepted) cas_begins)
      (Server.accepts [] ([], []) refl)

pub item_is_set : ReachSmall x0 x6
item_is_set = set_after is_accepted

pub item_is_set-Fits : Fits slow_streams whole_text_atoi roomy_cache counting_semaphore item_is_set
unfolding item_is_set is_accepted set_after run spawn begin resume store_op new_store
item_is_set-Fits = omega arith

pub cas_begins-Fits : Fits slow_streams whole_text_atoi roomy_cache counting_semaphore cas_begins
unfolding cas_begins run spawn begin resume store_op new_store
cas_begins-Fits = omega arith

pub zeroth : x2.sessions 0 ≡ reading connected
unfolding run spawn
zeroth = refl

pub at_call : is_free (x8.system.tasks 0) ≡ false
unfolding run spawn begin
at_call = refl

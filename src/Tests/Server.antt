-- ===== src/Tests/Server.antt =====
-- The theorems on the server and on its start, applied to a run.
use ousagi.Commands.{Response, cas}
use ousagi.Connection.Reads.{connect}
use ousagi.Prelude.{
  ◌>>=◌, ℕ, suc, ◌∷◌, ◌≡◌, ◌≤◌, refl, false, codes, Option, none, some, leb, if◌then◌else◌, [], ok,
  bytes_eq, arith,
}
use ousagi.Server
use ousagi.Server.{
  Session, stopped, reading, called, handling, accepting, acquiring, Server, run, put, spawn, Reach,
}
use ousagi.Server.Ends.{Reach-admits}
use ousagi.Server.Limits.{Reach-connections}
use ousagi.Server.Methods.{Reach-system, cas-served}
use ousagi.Server.Sessions.{total, holds_permit, is_open}
use ousagi.Server.Talks.{Tells}
use ousagi.Server.Tells.{Reach-Tells}
use ousagi.Startup.{Builder, parse_threads, build, started, parse_threads-build}
use ousagi.Stats.{curr_connections, total_connections}
use ousagi.Store.Inner.{new_store}
use ousagi.Store.Items.{new_item, is_expired}
use ousagi.Store.Tasks.{storing, finished, begin, resume}
use ousagi.Store.Tasks.System
use ousagi.Store.Tasks.System.{start, step, is_free}
use ousagi.Store.Versions.{find_item}
use ousagi.Store.Writes.{store_op}
use ousagi.Text.{to_string}
use ousagi.Tests.Crates.{roomy_cache, whole_text_atoi}
use ousagi.Tests.Data.{key, cas_args, item}
use ousagi.Tests.Wire.{slow_streams}
use ousagi.Clock.{now}
use ousagi.Connection.Requests.{Request, with_payload, IsRequest}
use ousagi.Server.Requests.{Sees, Reach-Sees}
use ousagi.Parser.Lines.{join}
use ousagi.Parser.Printing.{print}
use ousagi.Parser.WellFormed.{◌&◌}
use ousagi.Atoi.{int_to_string}
use ousagi.Tests.Session.{set_header, set_request, set_request-IsRequest, key-IsKey}
use ousagi.Tests.Runs.{
  counting_semaphore, small_cli, SmallServer, ReachSmall, connected, after_cas, x6, x8, x9,
  is_accepted, is_set, cas_begins, another_waits, item_is_set, item_is_set-Fits, cas_begins-Fits,
  zeroth, at_call,
}

Reach-connections_example :
    (x9.system.store.stats curr_connections ≡ total (is_open slow_streams) x9.sessions x9.spawned)
    × (x9.system.store.stats curr_connections ≤ 2)
    × (total (holds_permit slow_streams) x9.sessions x9.spawned ≤ 2)
    × (x9.system.store.stats total_connections ≡ x9.spawned)
Reach-connections_example =
    Reach-connections slow_streams whole_text_atoi roomy_cache counting_semaphore 1000 small_cli
      another_waits

Reach-admits_example :
    (t : SmallServer) × (n : ℕ) × ReachSmall x9 t
    × (t.phase ≡ accepting)
    × (t.spawned ≡ suc n)
    × (t.sessions n ≡ reading (connect slow_streams [] ([], [])))
Reach-admits_example =
    Reach-admits slow_streams whole_text_atoi roomy_cache counting_semaphore 1000 small_cli []
      ([], []) (omega arith) another_waits refl

Reach-Tells_example :
    Tells slow_streams whole_text_atoi roomy_cache counting_semaphore is_set connected
      (x6.sessions 0)
      (x6.system.tasks 0)
Reach-Tells_example =
    Reach-Tells slow_streams whole_text_atoi roomy_cache counting_semaphore 1000 small_cli connected
      0 is_accepted zeroth is_set

Reach-system_example :
    System.Reach roomy_cache (start roomy_cache 1000 67108864) x6.system
    × System.Reach roomy_cache x6.system x8.system
unfolding Server.memory_limit
Reach-system_example =
    Reach-system slow_streams whole_text_atoi roomy_cache counting_semaphore 1000 small_cli
      item_is_set cas_begins item_is_set-Fits cas_begins-Fits

item_found : find_item roomy_cache x6.system.store key ≡ some item
unfolding run spawn begin resume store_op new_store bytes_eq new_item
item_found = refl

cas_is_stored :
    (resume roomy_cache (x8.system.tasks 0) x8.system.store).0 ≡ finished Response.stored
unfolding run spawn begin resume store_op new_store bytes_eq new_item
cas_is_stored = refl

cas-served_example :
    (find_item roomy_cache x8.system.store key ≡ some item)
    × ((now : ℕ) × (point : Option ℕ) × (new : ℕ) × (x8.system.tasks 0
          ≡ storing cas cas_args now point new)
        × (is_expired item now point ≡ false))
cas-served_example =
    cas-served slow_streams whole_text_atoi roomy_cache counting_semaphore 1000 small_cli key item 0
      cas_args after_cas item_is_set cas_begins item_is_set-Fits cas_begins-Fits item_found refl
      at_call refl refl cas_is_stored

-- Builders that start no more than 64 workers. A runtime is its number of them.
abbrev small_builder : Builder
small_builder = record {
  Runtime = ℕ;
  multi_thread = λ n. if leb n 64 then some n else none;
  current_thread = some 0;
}

parse_threads-build_example :
    (parse_threads (to_string 4) >>= λ threads. ok (build small_builder threads))
    ≡ started small_builder 4
parse_threads-build_example = parse_threads-build small_builder 4 (omega arith)

abbrev cas_request : Request
cas_request = with_payload (record set_header { op = cas; cas = some 1 }) (codes "6")

cas_request-IsRequest : IsRequest cas_request
unfolding to_string print join int_to_string
cas_request-IsRequest = record {
  header = record {
    key = key-IsKey;
    flags = omega arith;
    exptime = omega arith;
    len = omega arith;
    cas = omega arith;
  };
  short = omega arith;
  payload = refl;
}

Reach-Sees_example :
    Sees slow_streams whole_text_atoi roomy_cache counting_semaphore is_set connected
      (set_request ∷ cas_request ∷ [])
      (x6.sessions 0)
unfolding print join to_string int_to_string
Reach-Sees_example =
    Reach-Sees slow_streams whole_text_atoi roomy_cache counting_semaphore 1000 small_cli connected
      0 (set_request ∷ cas_request ∷ []) is_accepted zeroth
      (set_request-IsRequest & cas_request-IsRequest & tt) refl is_set

-- ===== src/Server/Limits.antt =====
-- The connections that src/server.rs has open at once, and its memory limit.
use ousagi.Atoi.{Atoi}
use ousagi.Connection.Streams.{Streams}
use ousagi.Prelude.{ℕ, ◌*◌, ◌^◌, ◌≤◌, ◌<◌, ◌≡◌, arith}
use ousagi.Server.Invariant.Steps.{reached-Inv}
use ousagi.Server.Permits.{Semaphore}
use ousagi.Server.Sessions.{total, holds_permit, is_open, total-open-le}
use ousagi.Server.{memory_limit, Server, run, Reach}
use ousagi.Startup.{Cli}
use ousagi.Stats.{curr_connections, total_connections}
use ousagi.Store.Cache.{Cache}

-- A memory limit of fewer than 2^44 megabytes is handed to the store as its exact number of
-- bytes.
pub memory_limit_exact : (mb : ℕ) → mb < 2 ^ 44 → memory_limit mb ≡ mb * (1024 * 1024)
unfolding memory_limit
memory_limit_exact mb h = omega arith

module _ (S : Streams) (atoi : Atoi) (C : Cache) (M : Semaphore) where
  -- In every state that the server reaches from its start, `curr_connections` is the number of
  -- tasks whose session has not returned, and at most `max_connections`; at most that many tasks
  -- hold a permit; and `total_connections` is the number of tasks spawned so far.
  pub Reach-connections :
      (clock : ℕ) (args : Cli) {s : Server S atoi C M}
      → Reach S atoi C M (run S atoi C M clock args) s
      → (s.system.store.stats curr_connections ≡ total (is_open S) s.sessions s.spawned)
        × (s.system.store.stats curr_connections ≤ args.max_connections)
        × (total (holds_permit S) s.sessions s.spawned ≤ args.max_connections)
        × (s.system.store.stats total_connections ≡ s.spawned)
  Reach-connections clock args {s} r =
      let v = reached-Inv S atoi C M clock args r in
      (
        v.counted,
        omega (arith, v.counted, v.permits, total-open-le S s.sessions s.spawned),
        omega (arith, v.permits),
        v.spawned,
      )

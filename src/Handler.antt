-- ===== src/Handler.antt =====
-- src/handler.rs: the store's method for each command.
use ousagi.Commands.{Command, Response}
use ousagi.Prelude.{String}
use ousagi.Stats.{report}
use ousagi.Store.Cache.{Cache}
use ousagi.Store.Inner.{Store}
use ousagi.Store.Reads.{get, get_and_touch}
use ousagi.Store.Updates.{arithmetic, touch, flush, item_count}
use ousagi.Store.Writes.{store, delete}

-- The package's version, from Cargo.toml.
abbrev pub version : String
version = "0.2.0"

module _ (C : Cache) where
  unfoldable pub handle : Command → Store C → Response × Store C
  unfolding report
  handle (Command.get keys with_cas) s = get C keys with_cas s
  handle (Command.get_and_touch keys exptime with_cas) s = get_and_touch C keys exptime with_cas s
  handle (Command.store op args) s = store C op args s
  handle (Command.delete key _) s = delete C key s
  handle (Command.arithmetic op key delta _) s = arithmetic C op key delta s
  handle (Command.touch key exptime _) s = touch C key exptime s
  handle (Command.flush_all delay _) s = flush C delay s
  handle Command.version s = (Response.version version, s)
  handle (Command.verbosity _ _) s = (Response.ok, s)
  handle Command.stats s = (Response.stats (report s.stats (item_count C s)), s)

-- ===== src/Tests/Data.antt =====
-- Data of the runs.
use ousagi.Commands.{Command, StoreArgs, set}
use ousagi.Handler.{handle}
use ousagi.Prelude.{Bytes, codes, false, none, some, pos}
use ousagi.Store.Inner.{Store, new_store}
use ousagi.Store.Items.{Item}
use ousagi.Store.Traces.{set_clock}
use ousagi.Tests.Crates.{roomy_cache}

abbrev pub key : Bytes
key = codes "k"

abbrev pub set_args : StoreArgs
set_args = record {
  key = key;
  flags = 7;
  exptime = pos 0;
  payload = codes "5";
  noreply = false;
  cas = none;
}

abbrev pub cas_args : StoreArgs
cas_args = record set_args { payload = codes "6"; cas = some 1 }

abbrev pub empty : Store roomy_cache
empty = new_store roomy_cache 1000 1024

abbrev pub one_item : Store roomy_cache
one_item = (handle roomy_cache (Command.store set set_args) empty).1

abbrev pub later : Store roomy_cache
later = set_clock roomy_cache 1001 one_item

abbrev pub item : Item
item = record { payload = codes "5"; flags = 7; expires_at = none; cas = 1; stored_at = 1000 }

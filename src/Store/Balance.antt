-- ===== src/Store/Balance.antt =====
-- The books of src/store.rs balance after every command.
use ousagi.Commands.{
  StoreOp, StoreArgs, set, add, replace, append, prepend, cas, incr, decr, Command,
}
use ousagi.Handler.{handle}
use ousagi.Prelude.{ℕ, zero, suc, Option, none, some, [], length, arith}
use ousagi.Stats
use ousagi.Stats.{
  Stats, new_stats, evictions, cmd_set, cmd_get, cmd_flush, cmd_touch, cmd_incr, cmd_decr, get_hits,
  get_misses, get_expired, touch_hits, touch_misses, delete_misses, delete_hits, incr_hits,
  incr_misses, decr_hits, decr_misses, cas_hits, cas_misses, cas_badval, total_items,
}
use ousagi.Store.Cache.{Cache}
use ousagi.Store.Inner.{Store, new_store, cutoff, count, flush_all}
use ousagi.Store.Reads.{get, get_and_touch}
use ousagi.Store.Traces.{Reach, here, command, tick, set_clock}
use ousagi.Store.Updates.{arithmetic, touch, flush_delay, flush}
use ousagi.Store.Writes.{args_item, store_cas, store_op, store, delete}
use ousagi.Store.Books.{
  Books, touch_owed, incr_owed, decr_owed, set_owed, Balanced, on_evict-Books, get_keys-Books,
  touch_keys-Books, finish_add-Books, finish_update-Books, finish_cas-Books, finish_incr-Books,
  finish_decr-Books, finish_touch-Books, finish_delete-Books,
}

module _ (C : Cache) where
  flush_delay-Books :
      (delay : Option ℕ) (s : Store C) → Balanced s.stats → Balanced (flush_delay C delay s).stats
  unfolding flush_delay flush_all
  flush_delay-Books none s h = h
  flush_delay-Books (some zero) s h = h
  flush_delay-Books (some (suc n)) s h = h

  store_cas-Books :
      (expected : Option ℕ) (args : StoreArgs) (now : ℕ) (point : Option ℕ) (token : ℕ)
      (s : Store C)
      → Books set_owed s.stats
      → Balanced (store_cas C expected args now point token s).1.stats
  unfolding store_cas
  store_cas-Books none args now point token s h = record { sums = ground (arith, h.sums) }
  store_cas-Books (some _) args now point token s h =
      finish_cas-Books C _ _ (on_evict-Books set_owed _ s.stats h)

  store_op-Books :
      (op : StoreOp) (args : StoreArgs) (now : ℕ) (point : Option ℕ) (token : ℕ) (s : Store C)
      → Books set_owed s.stats
      → Balanced (store_op C op args now point token s).1.stats
  unfolding store_op Stats.add
  store_op-Books set args now point token s h =
      let settled =
        on_evict-Books set_owed (C.insert s.items args.key (args_item args token now)).0 s.stats
          h in
      record { sums = ground (arith, settled.sums) }
  store_op-Books add args now point token s h =
      finish_add-Books C args now token _ _ (on_evict-Books set_owed _ s.stats h)
  store_op-Books replace args now point token s h =
      finish_update-Books C _ _ (on_evict-Books set_owed _ s.stats h)
  store_op-Books append args now point token s h =
      finish_update-Books C _ _ (on_evict-Books set_owed _ s.stats h)
  store_op-Books prepend args now point token s h =
      finish_update-Books C _ _ (on_evict-Books set_owed _ s.stats h)
  store_op-Books cas args now point token s h = store_cas-Books args.cas args now point token s h

  handle-Balanced : (c : Command) (s : Store C) → Balanced s.stats → Balanced (handle C c s).1.stats
  unfolding handle get get_and_touch store delete arithmetic touch flush Stats.add
  handle-Balanced (Command.get keys with_cas) s h =
      get_keys-Books C with_cas _ _ keys [] (count C cmd_get (length keys) s)
        (record { sums = ground (arith, h.sums) })
  handle-Balanced (Command.get_and_touch keys exptime with_cas) s h =
      touch_keys-Books C with_cas exptime _ _ keys [] (count C cmd_get (length keys) s)
        (record { sums = ground (arith, h.sums) })
  handle-Balanced (Command.store op args) s h =
      store_op-Books op args _ _ _ _ (record { sums = ground (arith, h.sums) })
  handle-Balanced (Command.delete key _) s h =
      let (taken, items) = C.remove s.items key in
      finish_delete-Books C taken s.shared_clock (cutoff s.oldest_live) (record s { items = items })
        h
  handle-Balanced (Command.arithmetic incr key delta _) s h = finish_incr-Books C _ _ (
      on_evict-Books incr_owed _ (Stats.add cmd_incr 1 s.stats)
        (record { sums = ground (arith, h.sums) }))
  handle-Balanced (Command.arithmetic decr key delta _) s h = finish_decr-Books C _ _ (
      on_evict-Books decr_owed _ (Stats.add cmd_decr 1 s.stats)
        (record { sums = ground (arith, h.sums) }))
  handle-Balanced (Command.touch key exptime _) s h = finish_touch-Books C _ _ (
      on_evict-Books touch_owed _ (Stats.add cmd_touch 1 s.stats)
        (record { sums = ground (arith, h.sums) }))
  handle-Balanced (Command.flush_all delay _) s h =
      flush_delay-Books delay _ (record { sums = ground (arith, h.sums) })
  handle-Balanced Command.version s h = h
  handle-Balanced (Command.verbosity _ _) s h = h
  handle-Balanced Command.stats s h = h

  -- In every state that commands and clock ticks reach from a new store, before the counter of
  -- cas tokens wraps around, `cmd_get` is the sum of `get_hits` and `get_misses`, and `cmd_touch`
  -- that of `touch_hits` and `touch_misses`; `get_expired` is at most the misses of `get` and
  -- `delete`; the hits and misses of `incr` and of `decr` are at most their commands; and so are
  -- the three counters of `cas`, together, and `total_items` to `cmd_set`.
  pub Reach-Balanced :
      (clock limit : ℕ) {s : Store C} → Reach C (new_store C clock limit) s → Balanced s.stats
  unfolding new_store set_clock
  Reach-Balanced clock limit (here e) = rw e (record { sums = ground arith })
  Reach-Balanced clock limit (command {t} r c fits e) =
      rw e (handle-Balanced c t (Reach-Balanced clock limit r))
  Reach-Balanced clock limit (tick {t} r secs e) = rw e (Reach-Balanced clock limit r)

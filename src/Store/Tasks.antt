-- ===== src/Store/Tasks.antt =====
-- The methods of src/store.rs in steps, as the threads of the runtime interleave them. First the
-- clock and the cutoff are read, and a token is drawn where there is one; then each call on the cache
-- is a step, with what is made of its result.
pub mod Alone
pub mod Marks
pub mod Steps
pub mod Counters
pub mod Carries
pub mod System
pub mod Moves
pub mod Interleaved
pub mod Progress
use ousagi.Commands.{StoreOp, StoreArgs, ArithmeticOp, Command, Value, Response}
use ousagi.Handler.{version}
use ousagi.Prelude.{ℕ, suc, Bool, Option, none, some, List, [], ◌∷◌, Bytes, ℤ, length}
use ousagi.Stats.{cmd_get, cmd_set, cmd_touch, cmd_flush, report}
use ousagi.Store.Cache.{Cache}
use ousagi.Store.Inner.{Store, now, oldest_live, next_cas, count, settle}
use ousagi.Store.Reads.{get_key, touch_key}
use ousagi.Store.Updates.{
  counters, arithmetic_closure, finish_arithmetic, touch_closure, finish_touch, flush_delay,
  item_count,
}
use ousagi.Store.Writes.{store_op, finish_delete}

-- What is left of a method, with its local variables.
pub data Task : Type 0 where
  idle : Task
  reading : Bool → ℕ → Option ℕ → List Bytes → List Value → Task
  touch_reading : Bool → ℤ → ℕ → Option ℕ → List Bytes → List Value → Task
  storing : StoreOp → StoreArgs → ℕ → Option ℕ → ℕ → Task
  deleting : Bytes → ℕ → Option ℕ → Task
  counting : ArithmeticOp → Bytes → ℕ → ℕ → Option ℕ → ℕ → Task
  touching : Bytes → ℤ → ℕ → Option ℕ → ℕ → Task
  flushing : Option ℕ → Task
  reporting : Task
  finished : Response → Task

module _ (C : Cache) where
  -- `next_cas` as the last read of a prologue.
  abbrev drawing : (ℕ → Task) → Store C → Task × Store C
  drawing task s = (task (next_cas C s).0, (next_cas C s).1)

  -- From the call of the handler to the first call on the cache.
  unfoldable pub begin : Command → Store C → Task × Store C
  begin (Command.get keys with_cas) s =
      (reading with_cas (now C s) (oldest_live C s) keys [], count C cmd_get (length keys) s)
  begin (Command.get_and_touch keys exptime with_cas) s = (
    touch_reading with_cas exptime (now C s) (oldest_live C s) keys [],
    count C cmd_get (length keys) s,
  )
  begin (Command.store op args) s =
      drawing (storing op args (now C s) (oldest_live C s)) (count C cmd_set 1 s)
  begin (Command.delete key _) s = (deleting key (now C s) (oldest_live C s), s)
  begin (Command.arithmetic op key delta _) s =
      drawing (counting op key delta (now C s) (oldest_live C s)) (count C (counters op).0 1 s)
  begin (Command.touch key exptime _) s =
      let (task, s') = drawing (touching key exptime (now C s) (oldest_live C s)) s in
      (task, count C cmd_touch 1 s')
  begin (Command.flush_all delay _) s = (flushing delay, count C cmd_flush 1 s)
  begin Command.version s = (finished (Response.version version), s)
  begin (Command.verbosity _ _) s = (finished Response.ok, s)
  begin Command.stats s = (reporting, s)

  abbrev finishing : Response × Store C → Task × Store C
  finishing (resp, s) = (finished resp, s)

  -- The next call on the cache.
  unfoldable pub resume : Task → Store C → Task × Store C
  resume idle s = (idle, s)
  resume (reading with_cas now point [] values) s = (finished (Response.values values), s)
  resume (reading with_cas now point (key ∷ keys) values) s =
      let (values', s') = get_key C with_cas now point key values s in
      (reading with_cas now point keys values', s')
  resume (touch_reading with_cas exptime now point [] values) s =
      (finished (Response.values values), s)
  resume (touch_reading with_cas exptime now point (key ∷ keys) values) s =
      let (values', s') = touch_key C with_cas exptime now point key values s in
      (touch_reading with_cas exptime now point keys values', s')
  resume (storing op args now point token) s = finishing (store_op C op args now point token s)
  resume (deleting key now point) s =
      let (taken, items) = C.remove s.items key in
      finishing (finish_delete C taken now point (record s { items = items }))
  resume (counting op key delta now point token) s =
      let e = C.entry (arithmetic_closure op delta now point token) s.items key tt in
      finishing (finish_arithmetic C op e.result (settle C e.evicted e.cache s))
  resume (touching key exptime now point token) s =
      let e = C.entry (touch_closure exptime now point token) s.items key tt in
      finishing (finish_touch C e.result (settle C e.evicted e.cache s))
  resume (flushing delay) s = (finished Response.ok, flush_delay C delay s)
  resume reporting s = (finished (Response.stats (report s.stats (item_count C s))), s)
  resume (finished resp) s = (finished resp, s)

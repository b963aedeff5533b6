-- ===== src/Store/Idle.antt =====
-- The counters of src/stats.rs that no method of src/store.rs changes.
use ousagi.Commands.{
  StoreOp, StoreArgs, set, add, replace, append, prepend, cas, ArithmeticOp, incr, decr, Command,
  Value,
}
use ousagi.Handler.{handle}
use ousagi.Prelude.{
  ℕ, zero, suc, ◌≡◌, refl, ◌∙◌, Bool, true, false, Option, none, some, List, [], ◌∷◌, Bytes, String,
  ℤ, Result, ok, err, length, Bool-cases, inl, inr,
}
use ousagi.Stats
use ousagi.Stats.{
  Stats, curr_connections, total_connections, cmd_gat, gat_hits, gat_misses, bytes_read,
  bytes_written, evictions, cmd_set, cmd_get, cmd_flush, cmd_touch,
}
use ousagi.Store.Cache.{Cache, EntryResult, retained, removed, vacant}
use ousagi.Store.Inner.{cutoff, Store, on_evict, count, flush_all}
use ousagi.Store.Items.{Item, is_expired}
use ousagi.Store.Reads.{
  Read, record_read, read_closure, touch_read_closure, get_key, get_keys, get, touch_key,
  touch_keys, get_and_touch,
}
use ousagi.Store.Updates.{
  counters, finish_arithmetic, arithmetic, finish_touch, touch, flush_delay, flush,
}
use ousagi.Store.Writes.{
  args_item, finish_add, finish_update, finish_cas, store_cas, store_op, store, finish_delete,
  delete,
}

unfoldable pub idle : Stats → ℕ × ℕ × ℕ × ℕ × ℕ × ℕ × ℕ
idle st = (
  st cmd_gat,
  st gat_hits,
  st gat_misses,
  st bytes_read,
  st bytes_written,
  st curr_connections,
  st total_connections,
)

pub on_evict-idle : (l : List (Bytes × Item)) (st : Stats) → idle (on_evict l st) ≡ idle st
unfolding idle on_evict Stats.add
on_evict-idle [] st = refl
on_evict-idle (_ ∷ l) st = on_evict-idle l (Stats.add evictions 1 st)

total_items-idle : (st : Stats) → idle (Stats.add Stats.total_items 1 st) ≡ idle st
unfolding idle Stats.add
total_items-idle st = refl

pub cmd_idle :
    (st : Stats) (n : ℕ)
    → (idle (Stats.add cmd_get n st) ≡ idle st)
      × (idle (Stats.add cmd_set n st) ≡ idle st)
      × (idle (Stats.add cmd_touch n st) ≡ idle st)
      × (idle (Stats.add cmd_flush n st) ≡ idle st)
unfolding idle Stats.add
cmd_idle st n = (refl, refl, refl, refl)

module _ (C : Cache) where
  pub record_read-idle :
      (with_cas : Bool) (key : Bytes) (r : EntryResult Read) (values : List Value) (s : Store C)
      → idle (record_read C with_cas key r values s).1.stats ≡ idle s.stats
  unfolding idle record_read Stats.add
  record_read-idle with_cas key (retained _) values s = refl
  record_read-idle with_cas key (removed _ _) values s = refl
  record_read-idle with_cas key vacant values s = refl

  pub get_key-idle :
      (with_cas : Bool) (now : ℕ) (point : Option ℕ) (key : Bytes) (values : List Value)
      (s : Store C)
      → idle (get_key C with_cas now point key values s).1.stats ≡ idle s.stats
  unfolding get_key
  get_key-idle with_cas now point key values s =
      record_read-idle with_cas key _ values _
      ∙ on_evict-idle (C.entry (read_closure now point) s.items key tt).evicted s.stats

  pub touch_key-idle :
      (with_cas : Bool) (exptime : ℤ) (now : ℕ) (point : Option ℕ) (key : Bytes)
      (values : List Value) (s : Store C)
      → idle (touch_key C with_cas exptime now point key values s).1.stats ≡ idle s.stats
  unfolding touch_key
  touch_key-idle with_cas exptime now point key values s =
      record_read-idle with_cas key _ values _
      ∙ on_evict-idle
          (C.entry (touch_read_closure exptime now point) s.items key s.next_cas).evicted s.stats

  get_keys-idle :
      (with_cas : Bool) (now : ℕ) (point : Option ℕ) (keys : List Bytes) (values : List Value)
      (s : Store C)
      → idle (get_keys C with_cas now point keys values s).1.stats ≡ idle s.stats
  unfolding get_keys
  get_keys-idle with_cas now point [] values s = refl
  get_keys-idle with_cas now point (key ∷ keys) values s =
      get_keys-idle with_cas now point keys _ _ ∙ get_key-idle with_cas now point key values s

  touch_keys-idle :
      (with_cas : Bool) (exptime : ℤ) (now : ℕ) (point : Option ℕ) (keys : List Bytes)
      (values : List Value) (s : Store C)
      → idle (touch_keys C with_cas exptime now point keys values s).1.stats ≡ idle s.stats
  unfolding touch_keys
  touch_keys-idle with_cas exptime now point [] values s = refl
  touch_keys-idle with_cas exptime now point (key ∷ keys) values s =
      touch_keys-idle with_cas exptime now point keys _ _
      ∙ touch_key-idle with_cas exptime now point key values s

  finish_add-idle :
      (args : StoreArgs) (now token : ℕ) (r : EntryResult Bool) (s : Store C)
      → idle (finish_add C args now token r s).1.stats ≡ idle s.stats
  unfolding idle finish_add Stats.add
  finish_add-idle args now token (retained true) s = refl
  finish_add-idle args now token (retained false) s = refl
  finish_add-idle args now token (removed _ _) s = refl
  finish_add-idle args now token vacant s =
      let guard = C.guard_insert s.items args.key (args_item args token now) in
      elim (Bool-cases guard.0) [
        | inl accepted ↦ rw accepted (on_evict-idle guard.1 s.stats)
        | inr refused ↦ rw refused (on_evict-idle guard.1 s.stats)
      ]

  finish_update-idle :
      (r : EntryResult (Unit {0})) (s : Store C) → idle (finish_update C r s).1.stats ≡ idle s.stats
  unfolding idle finish_update Stats.add
  finish_update-idle (retained _) s = refl
  finish_update-idle (removed _ _) s = refl
  finish_update-idle vacant s = refl

  finish_cas-idle :
      (r : EntryResult Bool) (s : Store C) → idle (finish_cas C r s).1.stats ≡ idle s.stats
  unfolding idle finish_cas Stats.add
  finish_cas-idle (retained true) s = refl
  finish_cas-idle (retained false) s = refl
  finish_cas-idle (removed _ _) s = refl
  finish_cas-idle vacant s = refl

  pub finish_arithmetic-idle :
      (op : ArithmeticOp) (r : EntryResult (Result String ℕ)) (s : Store C)
      → idle (finish_arithmetic C op r s).1.stats ≡ idle s.stats
  unfolding idle finish_arithmetic Stats.add
  finish_arithmetic-idle incr (retained (ok _)) s = refl
  finish_arithmetic-idle decr (retained (ok _)) s = refl
  finish_arithmetic-idle op (retained (err _)) s = refl
  finish_arithmetic-idle incr (removed _ _) s = refl
  finish_arithmetic-idle decr (removed _ _) s = refl
  finish_arithmetic-idle incr vacant s = refl
  finish_arithmetic-idle decr vacant s = refl

  pub counters-idle :
      (op : ArithmeticOp) (s : Store C) → idle (count C (counters op).0 1 s).stats ≡ idle s.stats
  unfolding idle Stats.add
  counters-idle incr s = refl
  counters-idle decr s = refl

  pub finish_touch-idle :
      (r : EntryResult (Unit {0})) (s : Store C) → idle (finish_touch C r s).1.stats ≡ idle s.stats
  unfolding idle finish_touch Stats.add
  finish_touch-idle (retained _) s = refl
  finish_touch-idle (removed _ _) s = refl
  finish_touch-idle vacant s = refl

  pub finish_delete-idle :
      (o : Option (Bytes × Item)) (now : ℕ) (point : Option ℕ) (s : Store C)
      → idle (finish_delete C o now point s).1.stats ≡ idle s.stats
  unfolding idle finish_delete Stats.add
  finish_delete-idle none now point s = refl
  finish_delete-idle (some (_, i)) now point s = elim (Bool-cases (is_expired i now point)) [
    | inl expired ↦ rw expired
    | inr alive ↦ rw alive
  ]

  pub flush_delay-idle :
      (delay : Option ℕ) (s : Store C) → idle (flush_delay C delay s).stats ≡ idle s.stats
  unfolding flush_delay flush_all
  flush_delay-idle none s = refl
  flush_delay-idle (some zero) s = refl
  flush_delay-idle (some (suc n)) s = refl

  store_cas-idle :
      (expected : Option ℕ) (args : StoreArgs) (now : ℕ) (point : Option ℕ) (token : ℕ)
      (s : Store C)
      → idle (store_cas C expected args now point token s).1.stats ≡ idle s.stats
  unfolding store_cas
  store_cas-idle none args now point token s = refl
  store_cas-idle (some _) args now point token s = finish_cas-idle _ _ ∙ on_evict-idle _ s.stats

  pub store_op-idle :
      (op : StoreOp) (args : StoreArgs) (now : ℕ) (point : Option ℕ) (token : ℕ) (s : Store C)
      → idle (store_op C op args now point token s).1.stats ≡ idle s.stats
  unfolding store_op
  store_op-idle set args now point token s =
      total_items-idle (on_evict (C.insert s.items args.key (args_item args token now)).0 s.stats)
      ∙ on_evict-idle (C.insert s.items args.key (args_item args token now)).0 s.stats
  store_op-idle add args now point token s =
      finish_add-idle args now token _ _ ∙ on_evict-idle _ s.stats
  store_op-idle replace args now point token s = finish_update-idle _ _ ∙ on_evict-idle _ s.stats
  store_op-idle append args now point token s = finish_update-idle _ _ ∙ on_evict-idle _ s.stats
  store_op-idle prepend args now point token s = finish_update-idle _ _ ∙ on_evict-idle _ s.stats
  store_op-idle cas args now point token s = store_cas-idle args.cas args now point token s

  -- No command, `gat` and `gats` included, changes the counters `cmd_gat`, `gat_hits`,
  -- `gat_misses`, `bytes_read` and `bytes_written`, nor those of the connections.
  pub handle-idle : (c : Command) (s : Store C) → idle (handle C c s).1.stats ≡ idle s.stats
  unfolding handle get get_and_touch store delete arithmetic touch flush
  handle-idle (Command.get keys with_cas) s =
      get_keys-idle with_cas _ _ keys [] _ ∙ (cmd_idle s.stats (length keys)).0
  handle-idle (Command.get_and_touch keys exptime with_cas) s =
      touch_keys-idle with_cas exptime _ _ keys [] _ ∙ (cmd_idle s.stats (length keys)).0
  handle-idle (Command.store op args) s = store_op-idle op args _ _ _ _ ∙ (cmd_idle s.stats 1).1
  handle-idle (Command.delete key _) s =
      let (taken, items) = C.remove s.items key in
      finish_delete-idle taken s.shared_clock (cutoff s.oldest_live) (record s { items = items })
  handle-idle (Command.arithmetic op key delta _) s =
      finish_arithmetic-idle op _ _ ∙ on_evict-idle _ _ ∙ counters-idle op s
  handle-idle (Command.touch key exptime _) s =
      finish_touch-idle _ _ ∙ on_evict-idle _ _ ∙ (cmd_idle s.stats 1).2
  handle-idle (Command.flush_all delay _) s = flush_delay-idle delay _ ∙ (cmd_idle s.stats 1).3
  handle-idle Command.version s = refl
  handle-idle (Command.verbosity _ _) s = refl
  handle-idle Command.stats s = refl

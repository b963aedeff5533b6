-- ===== src/Store/Tasks/Counters.antt =====
-- The counters of src/stats.rs that no step of a method of src/store.rs changes.
use ousagi.Commands.{Command}
use ousagi.Prelude.{◌≡◌, refl, ◌∙◌, [], ◌∷◌, length}
use ousagi.Store.Cache.{Cache}
use ousagi.Store.Idle.{
  idle, on_evict-idle, cmd_idle, get_key-idle, touch_key-idle, store_op-idle, finish_delete-idle,
  finish_arithmetic-idle, counters-idle, finish_touch-idle, flush_delay-idle,
}
use ousagi.Store.Inner.{Store}
use ousagi.Store.Tasks.{
  Task, idle as no_method, reading, touch_reading, storing, deleting, counting, touching, flushing,
  reporting, finished, begin, resume,
}

module _ (C : Cache) where
  pub begin-idle : (c : Command) (s : Store C) → idle (begin C c s).1.stats ≡ idle s.stats
  unfolding begin
  begin-idle (Command.get keys with_cas) s = (cmd_idle s.stats (length keys)).0
  begin-idle (Command.get_and_touch keys exptime with_cas) s = (cmd_idle s.stats (length keys)).0
  begin-idle (Command.store op args) s = (cmd_idle s.stats 1).1
  begin-idle (Command.delete key _) s = refl
  begin-idle (Command.arithmetic op key delta _) s = counters-idle C op s
  begin-idle (Command.touch key exptime _) s = (cmd_idle s.stats 1).2
  begin-idle (Command.flush_all delay _) s = (cmd_idle s.stats 1).3
  begin-idle Command.version s = refl
  begin-idle (Command.verbosity _ _) s = refl
  begin-idle Command.stats s = refl

  pub resume-idle : (task : Task) (s : Store C) → idle (resume C task s).1.stats ≡ idle s.stats
  unfolding resume
  resume-idle no_method s = refl
  resume-idle (reading with_cas now point [] values) s = refl
  resume-idle (reading with_cas now point (key ∷ keys) values) s =
      get_key-idle C with_cas now point key values s
  resume-idle (touch_reading with_cas exptime now point [] values) s = refl
  resume-idle (touch_reading with_cas exptime now point (key ∷ keys) values) s =
      touch_key-idle C with_cas exptime now point key values s
  resume-idle (storing op args now point token) s = store_op-idle C op args now point token s
  resume-idle (deleting key now point) s =
      let (taken, items) = C.remove s.items key in
      finish_delete-idle C taken now point (record s { items = items })
  resume-idle (counting op key delta now point token) s =
      finish_arithmetic-idle C op _ _ ∙ on_evict-idle _ s.stats
  resume-idle (touching key exptime now point token) s =
      finish_touch-idle C _ _ ∙ on_evict-idle _ s.stats
  resume-idle (flushing delay) s = flush_delay-idle C delay s
  resume-idle reporting s = refl
  resume-idle (finished resp) s = refl

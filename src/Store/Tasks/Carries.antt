-- ===== src/Store/Tasks/Carries.antt =====
-- The arguments of a storage command stay with its method until it ends.
use ousagi.Commands.{StoreOp, StoreArgs, Command}
use ousagi.Prelude.{ℕ, ◌≡◌, refl, false, Option}
use ousagi.Store.Cache.{Cache}
use ousagi.Store.Inner.{Store}
use ousagi.Store.Tasks.System.{is_free}
use ousagi.Store.Tasks.{
  Task, idle, reading, touch_reading, storing, deleting, counting, touching, flushing, reporting,
  finished, begin, resume,
}

abbrev IsStoring : StoreOp → StoreArgs → Task → Type 0
IsStoring op args (storing op' args' _ _ _) = (op' ≡ op) × (args' ≡ args)
IsStoring op args (finished _) = Unit {0}
IsStoring op args _ = ⊥

abbrev pub Carries : Command → Task → Type 0
Carries (Command.store op args) task = IsStoring op args task
Carries _ task = Unit {0}

-- A method of a storage command that has not ended is before its call on the cache.
pub Carries-storing :
    (op : StoreOp) (args : StoreArgs) (task : Task)
    → Carries (Command.store op args) task
    → is_free task ≡ false
    → (now : ℕ) × (point : Option ℕ) × (new : ℕ) × (task ≡ storing op args now point new)
Carries-storing op args (storing op' args' now point new) h busy = (now, point, new, rw (h.0, h.1))
Carries-storing op args (finished _) h busy = cc
Carries-storing op args idle h busy = elim h [ ]
Carries-storing op args (reading _ _ _ _ _) h busy = elim h [ ]
Carries-storing op args (touch_reading _ _ _ _ _ _) h busy = elim h [ ]
Carries-storing op args (deleting _ _ _) h busy = elim h [ ]
Carries-storing op args (counting _ _ _ _ _ _) h busy = elim h [ ]
Carries-storing op args (touching _ _ _ _ _) h busy = elim h [ ]
Carries-storing op args (flushing _) h busy = elim h [ ]
Carries-storing op args reporting h busy = elim h [ ]

module _ (C : Cache) where
  pub begin-Carries : (c : Command) (s : Store C) → Carries c (begin C c s).0
  unfolding begin
  begin-Carries (Command.store op args) s = (refl, refl)
  begin-Carries (Command.get keys with_cas) s = tt
  begin-Carries (Command.get_and_touch keys exptime with_cas) s = tt
  begin-Carries (Command.delete key _) s = tt
  begin-Carries (Command.arithmetic op key delta _) s = tt
  begin-Carries (Command.touch key exptime _) s = tt
  begin-Carries (Command.flush_all delay _) s = tt
  begin-Carries Command.version s = tt
  begin-Carries (Command.verbosity _ _) s = tt
  begin-Carries Command.stats s = tt

  resume-IsStoring :
      (op : StoreOp) (args : StoreArgs) (task : Task) (s : Store C)
      → IsStoring op args task
      → IsStoring op args (resume C task s).0
  unfolding resume
  resume-IsStoring op args (storing _ _ _ _ _) s h = tt
  resume-IsStoring op args (finished _) s h = tt
  resume-IsStoring op args idle s h = elim h [ ]
  resume-IsStoring op args (reading _ _ _ _ _) s h = elim h [ ]
  resume-IsStoring op args (touch_reading _ _ _ _ _ _) s h = elim h [ ]
  resume-IsStoring op args (deleting _ _ _) s h = elim h [ ]
  resume-IsStoring op args (counting _ _ _ _ _ _) s h = elim h [ ]
  resume-IsStoring op args (touching _ _ _ _ _) s h = elim h [ ]
  resume-IsStoring op args (flushing _) s h = elim h [ ]
  resume-IsStoring op args reporting s h = elim h [ ]

  pub resume-Carries :
      (c : Command) (task : Task) (s : Store C) → Carries c task → Carries c (resume C task s).0
  resume-Carries (Command.store op args) task s h = resume-IsStoring op args task s h
  resume-Carries (Command.get keys with_cas) task s h = tt
  resume-Carries (Command.get_and_touch keys exptime with_cas) task s h = tt
  resume-Carries (Command.delete key _) task s h = tt
  resume-Carries (Command.arithmetic op key delta _) task s h = tt
  resume-Carries (Command.touch key exptime _) task s h = tt
  resume-Carries (Command.flush_all delay _) task s h = tt
  resume-Carries Command.version task s h = tt
  resume-Carries (Command.verbosity _ _) task s h = tt
  resume-Carries Command.stats task s h = tt

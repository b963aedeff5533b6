-- ===== src/Store/Tasks/Progress.antt =====
-- A method ends after its own steps, whatever the other threads do to the store between them.
use ousagi.Commands.{Command, Response}
use ousagi.Prelude.{ℕ, suc, ◌≤◌, ◌≡◌, refl, [], ◌∷◌, length, arith}
use ousagi.Store.Cache.{Cache}
use ousagi.Store.Inner.{Store}
use ousagi.Store.Tasks.{
  Task, idle, reading, touch_reading, storing, deleting, counting, touching, flushing, reporting,
  finished, begin, resume,
}
use ousagi.Store.Tasks.Alone.{rounds}

-- The steps that a method has left; an idle connection has no method.
abbrev pub IsWithin : Task → ℕ → Type 0
IsWithin idle n = ⊥
IsWithin (reading _ _ _ keys _) n = suc (length keys) ≤ n
IsWithin (touch_reading _ _ _ _ keys _) n = suc (length keys) ≤ n
IsWithin (finished _) n = Unit {0}
IsWithin _ n = 1 ≤ n

module _ (C : Cache) where
  pub resume-IsWithin :
      (task : Task) (s : Store C) (n : ℕ) → IsWithin task (suc n) → IsWithin (resume C task s).0 n
  unfolding resume
  resume-IsWithin idle s n h = elim h [ ]
  resume-IsWithin (reading with_cas now point [] values) s n h = tt
  resume-IsWithin (reading with_cas now point (key ∷ keys) values) s n h = omega (arith, h)
  resume-IsWithin (touch_reading with_cas exptime now point [] values) s n h = tt
  resume-IsWithin (touch_reading with_cas exptime now point (key ∷ keys) values) s n h =
      omega (arith, h)
  resume-IsWithin (storing op args now point token) s n h = tt
  resume-IsWithin (deleting key now point) s n h = tt
  resume-IsWithin (counting op key delta now point token) s n h = tt
  resume-IsWithin (touching key exptime now point token) s n h = tt
  resume-IsWithin (flushing delay) s n h = tt
  resume-IsWithin reporting s n h = tt
  resume-IsWithin (finished resp) s n h = tt

  IsWithin-suc : (task : Task) (n : ℕ) → IsWithin task n → IsWithin task (suc n)
  IsWithin-suc idle n h = h
  IsWithin-suc (reading _ _ _ keys _) n h = omega (arith, h)
  IsWithin-suc (touch_reading _ _ _ _ keys _) n h = omega (arith, h)
  IsWithin-suc (finished resp) n h = tt
  IsWithin-suc (storing _ _ _ _ _) n h = omega arith
  IsWithin-suc (deleting _ _ _) n h = omega arith
  IsWithin-suc (counting _ _ _ _ _ _) n h = omega arith
  IsWithin-suc (touching _ _ _ _ _) n h = omega arith
  IsWithin-suc (flushing _) n h = omega arith
  IsWithin-suc reporting n h = omega arith

  -- A step needs no more steps after it than before.
  pub resume-IsWithin_same :
      (task : Task) (s : Store C) (n : ℕ) → IsWithin task n → IsWithin (resume C task s).0 n
  resume-IsWithin_same task s n h = resume-IsWithin task s n (IsWithin-suc task n h)

  pub IsWithin-finished :
      (task : Task) → IsWithin task 0 → (resp : Response) × (task ≡ finished resp)
  IsWithin-finished idle h = elim h [ ]
  IsWithin-finished (finished resp) h = (resp, refl)
  IsWithin-finished (reading _ _ _ keys _) h = absurd (omega (arith, h))
  IsWithin-finished (touch_reading _ _ _ _ keys _) h = absurd (omega (arith, h))
  IsWithin-finished (storing _ _ _ _ _) h = absurd (omega (arith, h))
  IsWithin-finished (deleting _ _ _) h = absurd (omega (arith, h))
  IsWithin-finished (counting _ _ _ _ _ _) h = absurd (omega (arith, h))
  IsWithin-finished (touching _ _ _ _ _) h = absurd (omega (arith, h))
  IsWithin-finished (flushing _) h = absurd (omega (arith, h))
  IsWithin-finished reporting h = absurd (omega (arith, h))

  pub begin-IsWithin : (c : Command) (s : Store C) → IsWithin (begin C c s).0 (rounds c)
  unfolding begin
  begin-IsWithin (Command.get keys with_cas) s = omega arith
  begin-IsWithin (Command.get_and_touch keys exptime with_cas) s = omega arith
  begin-IsWithin (Command.store op args) s = omega arith
  begin-IsWithin (Command.delete key _) s = omega arith
  begin-IsWithin (Command.arithmetic op key delta _) s = omega arith
  begin-IsWithin (Command.touch key exptime _) s = omega arith
  begin-IsWithin (Command.flush_all delay _) s = omega arith
  begin-IsWithin Command.version s = tt
  begin-IsWithin (Command.verbosity _ _) s = tt
  begin-IsWithin Command.stats s = omega arith

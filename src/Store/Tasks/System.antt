-- ===== src/Store/Tasks/System.antt =====
-- src/store.rs under several connections: their methods take steps in any order, and the clock ticks
-- (src/clock.rs) between them.
use ousagi.Commands.{Command}
use ousagi.Prelude.{ℕ, ◌+◌, ◌^◌, ◌<◌, ◌≡◌, Bool, true, false, ◌==◌, if◌then◌else◌}
use ousagi.Stats.{Stats}
use ousagi.Store.Cache.{Cache}
use ousagi.Store.Inner.{Store, new_store}
use ousagi.Store.Tasks.{Task, idle, finished, begin, resume}
use ousagi.Store.Traces.{set_clock}

-- A connection waits for its command's response before its next command.
abbrev pub is_free : Task → Bool
is_free idle = true
is_free (finished _) = true
is_free _ = false

abbrev pub update {ℓ} : {A : Type ℓ} → ℕ → A → (ℕ → A) → ℕ → A
update n x f m = if m == n then x else f m

module _ (C : Cache) where
  -- The store, and what each connection is doing with it.
  pub record System : Type 0 where
    pub store : Store C
    pub tasks : ℕ → Task

  -- Connection `n` after a step of its own.
  abbrev pub step : ℕ → Task × Store C → System → System
  step n (task, s) x = record { store = s; tasks = update n task x.tasks }

  abbrev pub start : ℕ → ℕ → System
  start clock limit = record { store = new_store C clock limit; tasks = λ _. idle }

  -- `y` comes after `x`, before the counter of cas tokens wraps around.
  pub data Reach (x : System) : System → Type 0 where
    here : {y : System} → y ≡ x → Reach x y
    begins :
        {y z : System}
        → Reach x y
        → (n : ℕ) (c : Command) → is_free (y.tasks n) ≡ true
        → y.store.next_cas + 1 < 2 ^ 64
        → z ≡ step n (begin C c y.store) y
        → Reach x z
    resumes :
        {y z : System}
        → Reach x y
        → (n : ℕ) → y.store.next_cas + 1 < 2 ^ 64
        → z ≡ step n (resume C (y.tasks n) y.store) y
        → Reach x z
    ticks :
        {y z : System}
        → Reach x y
        → (secs : ℕ) → z ≡ record y { store = set_clock C secs y.store }
        → Reach x z
    -- The rest of the program changes counters of its own.
    counts :
        {y z : System}
        → Reach x y
        → (stats : Stats) → z ≡ record y { store = record y.store { stats = stats } }
        → Reach x z

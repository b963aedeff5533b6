-- ===== src/Server/Permits.antt =====
-- The semaphore of tokio, of which src/server.rs takes one permit for each connection. A permit is
-- given back when its owner drops it.
use ousagi.Prelude.{ℕ, suc, ◌<◌, ◌≡◌, ◌≢◌, Option, none, some}

pub record Semaphore : Type 1 where
  pub State : Type 0
  pub new : ℕ → State
  -- `none` stands for a call that has to wait.
  pub acquire : State → Option State
  pub release : State → State
  pub available : State → ℕ
  pub available-new : (n : ℕ) → available (new n) ≡ n
  pub available-acquire : (m m' : State) → acquire m ≡ some m' → available m ≡ suc (available m')
  pub acquire-ne-none : (m : State) → 0 < available m → acquire m ≢ none
  pub available-release : (m : State) → available (release m) ≡ suc (available m)

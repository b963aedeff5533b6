-- ===== src/Server/Invariant/Steps.antt =====
-- Every step of src/server.rs keeps the invariant, and a new server has it.
use ousagi.Connection.Reads.{failed}
use ousagi.Connection.Streams.{Streams}
use ousagi.Atoi.{Atoi}
use ousagi.Prelude.{ℕ, refl, ok, err, arith}
use ousagi.Server.Permits.{Semaphore}
use ousagi.Server.Sessions.{update-same}
use ousagi.Server.{
  absent, reading, called, handling, returned, Server, run, Step, accept_fails, wakes, accepts,
  admits, reads, begins, resumes, replies, leaves, fails, breaks, drops, ticks, shuts_down, ticked,
  Reach, here, next,
}
use ousagi.Startup.{Cli}
use ousagi.Store.Cache.{Cache}
use ousagi.Store.Inner.{new_store}
use ousagi.Store.Tasks.{begin, resume}
use ousagi.Store.Tasks.Alone.{rounds}
use ousagi.Store.Tasks.Carries.{begin-Carries, resume-Carries}
use ousagi.Store.Tasks.Counters.{begin-idle, resume-idle}
use ousagi.Store.Tasks.Progress.{begin-IsWithin, resume-IsWithin_same}
use ousagi.Store.Traces.{set_clock}
use ousagi.Server.Invariant.{
  Inv, Inv-move, stays, step_others, spawn-Inv, closed-Inv, idle-connections, unchanged,
}

module _ (S : Streams) (atoi : Atoi) (C : Cache) (M : Semaphore) where
  pub Step-Inv :
      {max : ℕ} {s t : Server S atoi C M}
      → Step S atoi C M s t
      → Inv S atoi C M max s
      → Inv S atoi C M max t
  unfolding set_clock ticked
  Step-Inv (accept_fails _) v = unchanged S atoi C M v refl refl refl refl refl
  Step-Inv (wakes _) v = unchanged S atoi C M v refl refl refl refl refl
  Step-Inv (accepts _ _ _) v = unchanged S atoi C M v refl refl refl refl refl
  Step-Inv (admits r w m _ acquired) v = spawn-Inv S atoi C M r w m acquired v
  Step-Inv (reads n fuel c c' cmd is _) v =
      Inv-move S atoi C M n (reading c) (called cmd c') v is refl refl refl refl refl refl
        (rw is at (v.suits n)) (λ _ _. refl)
  Step-Inv {s = s} (begins n cmd c is) v =
      let r = begin C cmd s.system.store in
      let same =
        idle-connections r.1.stats s.system.store.stats (begin-idle C cmd s.system.store) in
      Inv-move S atoi C M n (called cmd c) (handling cmd c) v is refl refl refl refl
        (omega (arith, same.0)) same.1
        (rw (update-same n r.0 s.system.tasks)
          (rounds cmd, begin-IsWithin C cmd s.system.store, begin-Carries C cmd s.system.store))
        (step_others S atoi C M n r s.system)
  Step-Inv {s = s} (resumes n cmd c is) v =
      let task = s.system.tasks n in
      let r = resume C task s.system.store in
      let same =
        idle-connections r.1.stats s.system.store.stats (resume-idle C task s.system.store) in
      let (k, within, carries) = rw is at (v.suits n) in
      stays S atoi C M n (handling cmd c) v is refl refl refl same.0 same.1
        (rw (update-same n r.0 s.system.tasks) (
          k,
          resume-IsWithin_same C task s.system.store k within,
          resume-Carries C cmd task s.system.store carries,
        ))
        (step_others S atoi C M n r s.system)
  Step-Inv (replies n cmd c c' resp is done _) v =
      Inv-move S atoi C M n (handling cmd c) (reading c') v is refl refl refl refl refl refl
        (rw done refl) (λ _ _. refl)
  Step-Inv (leaves n fuel c c' is _) v =
      closed-Inv S atoi C M n (reading c) (ok tt) c' v is refl refl (rw is at (v.suits n))
  Step-Inv (fails n fuel c c' e is _) v =
      closed-Inv S atoi C M n (reading c) (err e) c' v is refl refl (rw is at (v.suits n))
  Step-Inv (breaks n cmd c resp is done _) v =
      closed-Inv S atoi C M n (handling cmd c) (err failed) c v is refl refl (rw done refl)
  Step-Inv {s = s} (drops n res c is) v =
      Inv-move S atoi C M n (returned res c) absent v is refl refl refl
        (omega (arith, M.available-release s.connections)) refl refl (rw is at (v.suits n))
        (λ _ _. refl)
  Step-Inv (ticks time) v = unchanged S atoi C M v refl refl refl refl refl
  Step-Inv shuts_down v = unchanged S atoi C M v refl refl refl refl refl

  pub run-Inv :
      (clock : ℕ) (args : Cli) → Inv S atoi C M args.max_connections (run S atoi C M clock args)
  unfolding run new_store
  run-Inv clock args = record {
    permits = omega (arith, M.available-new args.max_connections);
    counted = refl;
    spawned = refl;
    beyond = λ n h. refl;
    suits = λ n. refl;
  }

  pub Reach-Inv :
      {max : ℕ} {s t : Server S atoi C M}
      → Inv S atoi C M max s
      → Reach S atoi C M s t
      → Inv S atoi C M max t
  Reach-Inv v here = v
  Reach-Inv v (next r st) = Step-Inv st (Reach-Inv v r)

  pub reached-Inv :
      (clock : ℕ) (args : Cli) {s : Server S atoi C M}
      → Reach S atoi C M (run S atoi C M clock args) s
      → Inv S atoi C M args.max_connections s
  reached-Inv clock args r = Reach-Inv (run-Inv clock args) r

-- ===== src/Server/Methods.antt =====
-- The methods of src/store.rs, as the sessions of src/server.rs run them, are the interleaved methods of
-- Store/Tasks.
use ousagi.Atoi.{Atoi}
use ousagi.Commands.{StoreArgs, cas, Command, Response}
use ousagi.Connection.Reads.{Connection}
use ousagi.Connection.Streams.{Streams}
use ousagi.Prelude.{ℕ, ◌+◌, ◌^◌, ◌<◌, ◌≡◌, refl, false, Option, some, Bytes}
use ousagi.Server.Invariant.{Inv}
use ousagi.Server.Invariant.Steps.{Reach-Inv, run-Inv, reached-Inv}
use ousagi.Server.Permits.{Semaphore}
use ousagi.Server.{
  memory_limit, handling, Server, run, opened, closed, spawn, Step, accept_fails, wakes, accepts,
  admits, reads, begins, resumes, replies, leaves, fails, breaks, drops, ticks, shuts_down, ticked,
  Reach, here, next,
}
use ousagi.Startup.{Cli}
use ousagi.Store.Cache.{Cache}
use ousagi.Store.Items.{Item, is_expired}
use ousagi.Store.Tasks.{storing, finished, resume}
use ousagi.Store.Tasks.Carries.{Carries-storing}
use ousagi.Store.Tasks.Interleaved.{cas-interleaved}
use ousagi.Store.Tasks.System
use ousagi.Store.Tasks.System.{start, is_free}
use ousagi.Store.Versions.{find_item}

module _ (S : Streams) (atoi : Atoi) (C : Cache) (M : Semaphore) where
  -- The counter of cas tokens does not wrap around on the way.
  abbrev pub Fits : {s t : Server S atoi C M} → Reach S atoi C M s t → Type 0
  Fits here = Unit
  Fits (next {t} r st) = Fits r × (t.system.store.next_cas + 1 < 2 ^ 64)

  Step-system :
      {max : ℕ} {x : System.System C} {s t : Server S atoi C M}
      → Step S atoi C M s t
      → Inv S atoi C M max s
      → s.system.store.next_cas + 1 < 2 ^ 64
      → System.Reach C x s.system
      → System.Reach C x t.system
  unfolding spawn opened closed ticked
  Step-system (accept_fails _) v fits r = r
  Step-system (wakes _) v fits r = r
  Step-system (accepts _ _ _) v fits r = r
  Step-system (admits _ _ _ _ _) v fits r = System.counts r _ refl
  Step-system (reads _ _ _ _ _ _ _) v fits r = r
  Step-system (begins n cmd c is) v fits r = System.begins r n cmd (rw is at (v.suits n)) fits refl
  Step-system (resumes n cmd c is) v fits r = System.resumes r n fits refl
  Step-system (replies _ _ _ _ _ _ _ _) v fits r = r
  Step-system (leaves _ _ _ _ _ _) v fits r = System.counts r _ refl
  Step-system (fails _ _ _ _ _ _ _) v fits r = System.counts r _ refl
  Step-system (breaks _ _ _ _ _ _ _) v fits r = System.counts r _ refl
  Step-system (drops _ _ _ _) v fits r = r
  Step-system (ticks time) v fits r = System.ticks r _ refl
  Step-system shuts_down v fits r = r

  Reach-methods :
      {max : ℕ} {s t : Server S atoi C M} (r : Reach S atoi C M s t)
      → Inv S atoi C M max s
      → Fits r
      → System.Reach C s.system t.system
  Reach-methods here v fits = System.here refl
  Reach-methods (next r st) v (before, fits) =
      Step-system st (Reach-Inv S atoi C M v r) fits (Reach-methods r v before)

  -- If the counter of cas tokens does not wrap around on the way, then what the sessions of the
  -- server do to the store in a run from its start, and on from there, is a run of the
  -- interleaved methods of the store, in which no session begins a method before its last one has
  -- ended.
  pub Reach-system :
      (clock : ℕ) (args : Cli) {s t : Server S atoi C M}
      (before : Reach S atoi C M (run S atoi C M clock args) s) (r : Reach S atoi C M s t)
      → Fits before
      → Fits r
      → System.Reach C (start C clock (memory_limit args.memory_limit_mb)) s.system
        × System.Reach C s.system t.system
  unfolding run
  Reach-system clock args before r fits fits' = (
    Reach-methods before (run-Inv S atoi C M clock args) fits,
    Reach-methods r (reached-Inv S atoi C M clock args before) fits',
  )

  -- If in a state of the server an item is found under a key, and in a later state a session is
  -- in the handler with a `cas` of this key with the token of that item, its method has not
  -- ended, and its next step answers `stored`, then the very same item is under the key, and was
  -- not expired by the time and the cutoff that the method has read, whatever the sessions have
  -- done in between. The counter of cas tokens does not wrap around on the way.
  pub cas-served :
      (clock : ℕ) (cli : Cli) {x y : Server S atoi C M} (k : Bytes) (i : Item) (n : ℕ)
      (args : StoreArgs) (c : Connection S) (before : Reach S atoi C M (run S atoi C M clock cli) x)
      (r : Reach S atoi C M x y)
      → Fits before
      → Fits r
      → find_item C x.system.store k ≡ some i
      → y.sessions n ≡ handling (Command.store cas args) c
      → is_free (y.system.tasks n) ≡ false
      → args.key ≡ k
      → args.cas ≡ some i.cas
      → (resume C (y.system.tasks n) y.system.store).0 ≡ finished Response.stored
      → (find_item C y.system.store k ≡ some i)
        × ((now : ℕ) × (point : Option ℕ) × (new : ℕ) × (y.system.tasks n
              ≡ storing cas args now point new)
            × (is_expired i now point ≡ false))
  cas-served clock cli {x} {y} k i n args c before r fits fits' found is busy key given h =
      let (started, later) = Reach-system clock cli before r fits fits' in
      let (_, _, carries) =
        rw is at ((Reach-Inv S atoi C M (reached-Inv S atoi C M clock cli before) r).suits n) in
      let (now, point, new, at_call) = Carries-storing cas args (y.system.tasks n) carries busy in
      let (same, live) =
        cas-interleaved C clock (memory_limit cli.memory_limit_mb) {x = x.system} {y = y.system} k i
          n args now point new started found later at_call key given h in
      (same, (now, point, new, at_call, live))

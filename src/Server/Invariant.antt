-- ===== src/Server/Invariant.antt =====
-- What every state of src/server.rs keeps: its permits and counters, and where its sessions are.
pub mod Steps
use ousagi.Connection.Reads.{IoError, failed, Connection, connect}
use ousagi.Connection.Streams.{Streams}
use ousagi.Atoi.{Atoi}
use ousagi.Prelude.{
  ℕ, ◌+◌, ◌≤◌, ◌<◌, ◌≡◌, ◌≢◌, refl, ap, inl, inr, true, some, ◌==◌, ==_iff, ltb, Result, ok, err,
  arith, Bool-cases,
}
use ousagi.Server.Permits.{Semaphore}
use ousagi.Server.Sessions.{
  update-same, update-cases, total, total-update, total-update_above, holds_permit, is_open,
}
use ousagi.Server.{
  Session, absent, reading, called, handling, returned, Server, run, opened, closed, spawn, Step,
  accept_fails, wakes, accepts, admits, reads, begins, resumes, replies, leaves, fails, breaks,
  drops, ticks, Reach, here, next,
}
use ousagi.Startup.{Cli}
use ousagi.Stats.{Stats, curr_connections, total_connections, add, sub}
use ousagi.Store.Cache.{Cache}
use ousagi.Store.Idle.{idle}
use ousagi.Store.Inner.{Store, new_store}
use ousagi.Store.Tasks.{Task, begin, resume}
use ousagi.Store.Tasks.Alone.{rounds}
use ousagi.Store.Tasks.Carries.{Carries, begin-Carries, resume-Carries}
use ousagi.Store.Tasks.Counters.{begin-idle, resume-idle}
use ousagi.Store.Tasks.Progress.{IsWithin, begin-IsWithin, resume-IsWithin_same}
use ousagi.Store.Traces.{set_clock}
use ousagi.Store.Tasks.System.{System, is_free, update, step}

-- The two counters of src/server.rs.
pub idle-connections :
    (s t : Stats)
    → idle s ≡ idle t
    → (s curr_connections ≡ t curr_connections) × (s total_connections ≡ t total_connections)
unfolding idle
idle-connections s t e = (ap (λ x. x.5) e, ap (λ x. x.6) e)

module _ (S : Streams) (atoi : Atoi) (C : Cache) (M : Semaphore) where
  -- A session runs a method only while it is in the handler: that of its command, which has some
  -- number of steps left.
  abbrev pub Suits : Session S → Task → Type 0
  Suits (handling cmd c) task = (k : ℕ) × IsWithin task k × Carries cmd task
  Suits _ task = is_free task ≡ true

  pub record Inv (max : ℕ) (s : Server S atoi C M) : Type 0 where
    pub permits : M.available s.connections + total (holds_permit S) s.sessions s.spawned ≡ max
    pub counted : s.system.store.stats curr_connections ≡ total (is_open S) s.sessions s.spawned
    pub spawned : s.system.store.stats total_connections ≡ s.spawned
    pub beyond : (n : ℕ) → s.spawned ≤ n → s.sessions n ≡ absent
    pub suits : (n : ℕ) → Suits (s.sessions n) (s.system.tasks n)

  pub below_spawned :
      {max : ℕ} {s : Server S atoi C M} (n : ℕ) (x : Session S)
      → Inv max s
      → s.sessions n ≡ x
      → holds_permit S x ≡ 1
      → n < s.spawned
  below_spawned {s = s} n x v is one = elim (Bool-cases (ltb n s.spawned)) [
    | inl below ↦ ground arith
    | inr above ↦
        let gone = ap (holds_permit S) (v.beyond n (ground arith)) in
        absurd (omega (arith, gone, ap (holds_permit S) is, one))
  ]

  -- An open session is counted.
  pub open_counted :
      {max : ℕ} {s : Server S atoi C M} (n : ℕ) (x : Session S)
      → Inv max s
      → s.sessions n ≡ x
      → holds_permit S x ≡ 1
      → is_open S x ≡ 1
      → 0 < s.system.store.stats curr_connections
  open_counted {s = s} n x v is one open_ =
      let below = below_spawned n x v is one in
      omega (
        arith,
        v.counted,
        total-update (is_open S) n s.spawned absent s.sessions below,
        ap (is_open S) is,
        open_,
      )

  -- A change of one session, of its method, and of the permits and counters that go with it.
  pub Inv-move :
      {max : ℕ} {s t : Server S atoi C M} (n : ℕ) (old new : Session S)
      → Inv max s
      → s.sessions n ≡ old
      → holds_permit S old ≡ 1
      → t.sessions ≡ update n new s.sessions
      → t.spawned ≡ s.spawned
      → M.available t.connections + holds_permit S new ≡ M.available s.connections + 1
      → t.system.store.stats curr_connections + is_open S old
        ≡ s.system.store.stats curr_connections + is_open S new
      → t.system.store.stats total_connections ≡ s.system.store.stats total_connections
      → Suits new (t.system.tasks n)
      → ((m : ℕ) → m ≢ n → t.system.tasks m ≡ s.system.tasks m)
      → Inv max t
  Inv-move {s = s} {t = t} n old new v is one sessions same permits counted spawned suits others =
      let below = below_spawned n old v is one in
      let held = total-update (holds_permit S) n s.spawned new s.sessions below in
      let opened = total-update (is_open S) n s.spawned new s.sessions below in
      record {
        permits =
            rw (sessions, same)
              (omega (arith, v.permits, held, permits, ap (holds_permit S) is, one));
        counted =
            rw (sessions, same) (omega (arith, v.counted, opened, counted, ap (is_open S) is));
        spawned = omega (arith, v.spawned, same, spawned);
        beyond = λ m h. rw sessions (
            update-cases (λ x. x ≡ absent) n m new s.sessions
              (λ e. absurd (omega (arith, e, h, below, same)))
              (λ e. v.beyond m (omega (arith, h, same))));
        suits = λ m. rw sessions (
            update-cases (λ x. Suits x (t.system.tasks m)) n m new s.sessions (λ e. rw e suits)
              (λ e. rw (others m e) (v.suits m)));
      }

  -- A session that stays as it is, while its method takes a step.
  pub stays :
      {max : ℕ} {s t : Server S atoi C M} (n : ℕ) (x : Session S)
      → Inv max s
      → s.sessions n ≡ x
      → t.sessions ≡ s.sessions
      → t.spawned ≡ s.spawned
      → t.connections ≡ s.connections
      → t.system.store.stats curr_connections ≡ s.system.store.stats curr_connections
      → t.system.store.stats total_connections ≡ s.system.store.stats total_connections
      → Suits x (t.system.tasks n)
      → ((m : ℕ) → m ≢ n → t.system.tasks m ≡ s.system.tasks m)
      → Inv max t
  stays {s = s} {t = t} n x v is sessions same connections counted spawned suits others = record {
    permits = rw (sessions, same, connections) v.permits;
    counted = rw (sessions, same, counted) v.counted;
    spawned = rw (same, spawned) v.spawned;
    beyond = λ m h. rw sessions (v.beyond m (rw same at h));
    suits = λ m. rw sessions (elim (Bool-cases (m == n)) [
      | inl e ↦ let at_n = (==_iff m n).0 e in rw (at_n, is) suits
      | inr e ↦ rw (others m (λ k. cc (e, (==_iff m n).1 k))) (v.suits m)
    ]);
  }

  pub step_others :
      (n : ℕ) (r : Task × Store C) (x : System C) (m : ℕ)
      → m ≢ n
      → (step C n r x).tasks m ≡ x.tasks m
  step_others n r x m other =
      update-cases (λ y. y ≡ x.tasks m) n m r.0 x.tasks (λ e. absurd (other e)) (λ _. refl)

  pub spawn-Inv :
      {max : ℕ} {s : Server S atoi C M} (r : S.Reader) (w : S.Writer) (m : M.State)
      → M.acquire s.connections ≡ some m
      → Inv max s
      → Inv max (spawn S atoi C M r w m s)
  unfolding spawn opened add
  spawn-Inv {s = s} r w m acquired v =
      let new = reading (connect S r w) in
      let own = update-same s.spawned new s.sessions in
      let held =
        total-update_above (holds_permit S) s.spawned s.spawned new s.sessions (omega arith) in
      let opened =
        total-update_above (is_open S) s.spawned s.spawned new s.sessions (omega arith) in
      let gone = v.beyond s.spawned (omega arith) in
      record {
        permits =
            rw own (omega (arith, v.permits, held, M.available-acquire s.connections m acquired));
        counted = rw own (omega (arith, v.counted, opened));
        spawned = omega (arith, v.spawned);
        beyond = λ n h.
            update-cases (λ x. x ≡ absent) s.spawned n new s.sessions
              (λ e. absurd (omega (arith, e, h))) (λ _. v.beyond n (omega (arith, h)));
        suits = λ n.
            update-cases (λ x. Suits x (s.system.tasks n)) s.spawned n new s.sessions
              (λ e. rw e (rw gone at (v.suits s.spawned))) (λ _. v.suits n);
      }

  -- A session that returns.
  pub closed-Inv :
      {max : ℕ} {s : Server S atoi C M} (n : ℕ) (old : Session S) (res : Result IoError (Unit {0}))
      (c : Connection S)
      → Inv max s
      → s.sessions n ≡ old
      → holds_permit S old ≡ 1
      → is_open S old ≡ 1
      → is_free (s.system.tasks n) ≡ true
      → Inv max (closed S atoi C M n res c s)
  unfolding closed sub
  closed-Inv n old res c v is one open_ free =
      let some_open = open_counted n old v is one open_ in
      Inv-move n old (returned res c) v is one refl refl refl (omega (arith, some_open, open_)) refl
        free (λ _ _. refl)

  -- A step that changes no session, no method, no permit and no counter.
  pub unchanged :
      {max : ℕ} {s t : Server S atoi C M}
      → Inv max s
      → t.connections ≡ s.connections
      → t.sessions ≡ s.sessions
      → t.spawned ≡ s.spawned
      → t.system.store.stats ≡ s.system.store.stats
      → t.system.tasks ≡ s.system.tasks
      → Inv max t
  unchanged v connections sessions same stats tasks = record {
    permits = rw (sessions, same, connections) v.permits;
    counted = rw (sessions, same, stats) v.counted;
    spawned = rw (same, stats) v.spawned;
    beyond = λ m h. rw sessions (v.beyond m (rw same at h));
    suits = λ m. rw (sessions, tasks) (v.suits m);
  }

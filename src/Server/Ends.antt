-- ===== src/Server/Ends.antt =====
-- The sessions of src/server.rs end by their own steps, and then give their permits back.
use ousagi.Atoi.{Atoi}
use ousagi.Commands.{Command}
use ousagi.Connection.Commands.{read_command}
use ousagi.Connection.Frames.{stream}
use ousagi.Connection.Loop.{read_command-total}
use ousagi.Connection.Protocol.{length-Gives}
use ousagi.Connection.Reads.{IoError, failed, Connection, connect}
use ousagi.Connection.Streams.{Streams}
use ousagi.Parser.Header.{max_item_size}
use ousagi.Prelude.{
  ℕ, zero, suc, ◌+◌, ◌<◌, ◌≡◌, refl, ap, inl, inr, none, some, length, Result, ok, err, false, ltb,
  arith, Option-cases, Bool-cases,
}
use ousagi.Server.Invariant.{Inv}
use ousagi.Server.Invariant.Steps.{reached-Inv}
use ousagi.Server.Permits.{Semaphore}
use ousagi.Server.Sessions.{update-same, total_pos, holds_permit}
use ousagi.Server.{
  Session, absent, reading, called, handling, returned, Phase, accepting, acquiring, Server, run,
  put, closed, spawn, Step, admits, reads, begins, resumes, replies, leaves, fails, breaks, drops,
  Reach, here, next,
}
use ousagi.Session.{reply}
use ousagi.Session.Protocol.{read_command-next, reply-answer}
use ousagi.Startup.{Cli}
use ousagi.Store.Cache.{Cache}
use ousagi.Store.Tasks.{begin, resume}
use ousagi.Store.Tasks.Alone.{rounds}
use ousagi.Store.Tasks.Progress.{IsWithin, IsWithin-finished, begin-IsWithin, resume-IsWithin}

module _ (S : Streams) (atoi : Atoi) (C : Cache) (M : Semaphore) where
  pub Reach-trans :
      {s t u : Server S atoi C M}
      → Reach S atoi C M s t
      → Reach S atoi C M t u
      → Reach S atoi C M s u
  Reach-trans r here = r
  Reach-trans r (next r' st) = next (Reach-trans r r') st

  -- A permit can come free, with the loop where it stands.
  abbrev Frees : Phase S → Server S atoi C M → Type 0
  Frees phase s =
      (t : Server S atoi C M) × Reach S atoi C M s t
      × (t.phase ≡ phase)
      × (0 < M.available t.connections)

  after :
      {phase : Phase S} {s t : Server S atoi C M}
      → Step S atoi C M s t
      → Frees phase t
      → Frees phase s
  after st (u, r, at_phase, free) = (u, Reach-trans (next here st) r, at_phase, free)

  returned-Frees :
      (phase : Phase S) (n : ℕ) (res : Result IoError (Unit {0})) (c : Connection S)
      (s : Server S atoi C M)
      → s.phase ≡ phase
      → s.sessions n ≡ returned res c
      → Frees phase s
  returned-Frees phase n res c s at_phase is =
      (_, next here (drops n res c is), at_phase, omega (arith, M.available-release s.connections))

  closed-Frees :
      (phase : Phase S) (n : ℕ) (res : Result IoError (Unit {0})) (c : Connection S)
      (s : Server S atoi C M)
      → s.phase ≡ phase
      → Frees phase (closed S atoi C M n res c s)
  unfolding closed
  closed-Frees phase n res c s at_phase =
      returned-Frees phase n res c (closed S atoi C M n res c s) at_phase
        (update-same n (returned res c) s.sessions)

  -- The handler ends, and the session goes on or fails at its reply.
  handling-Frees :
      (phase : Phase S) (n k : ℕ) (cmd : Command) (c : Connection S) (s : Server S atoi C M)
      → ((c' : Connection S) (t : Server S atoi C M)
          → stream S c' ≡ stream S c
          → t.phase ≡ phase
          → t.sessions n ≡ reading c'
          → Frees phase t)
      → s.phase ≡ phase
      → s.sessions n ≡ handling cmd c
      → IsWithin (s.system.tasks n) k
      → Frees phase s
  handling-Frees phase n zero cmd c s go_on at_phase is within =
      let (resp, done) = IsWithin-finished C (s.system.tasks n) within in
      elim (Option-cases (reply S atoi C cmd resp c)) [
        | inl broken ↦
            after (breaks n cmd c resp is done broken)
              (closed-Frees phase n (err failed) c s at_phase)
        | inr (c', replied) ↦ after (replies n cmd c c' resp is done replied) (
            go_on c' (put S atoi C M n (reading c') s)
              (reply-answer S atoi C cmd resp c c' replied).0 at_phase
              (update-same n (reading c') s.sessions))
      ]
  handling-Frees phase n (suc k) cmd c s go_on at_phase is within =
      let r = resume C (s.system.tasks n) s.system.store in
      after (resumes n cmd c is) (
        handling-Frees phase n k cmd c _ go_on at_phase is (
          rw (update-same n r.0 s.system.tasks)
            (resume-IsWithin C (s.system.tasks n) s.system.store k within)))

  called-Frees :
      (phase : Phase S) (n : ℕ) (cmd : Command) (c : Connection S) (s : Server S atoi C M)
      → ((c' : Connection S) (t : Server S atoi C M)
          → stream S c' ≡ stream S c
          → t.phase ≡ phase
          → t.sessions n ≡ reading c'
          → Frees phase t)
      → s.phase ≡ phase
      → s.sessions n ≡ called cmd c
      → Frees phase s
  called-Frees phase n cmd c s go_on at_phase is =
      let r = begin C cmd s.system.store in
      after (begins n cmd c is) (
        handling-Frees phase n (rounds cmd) cmd c _ go_on at_phase
          (update-same n (handling cmd c) s.sessions)
          (rw (update-same n r.0 s.system.tasks) (begin-IsWithin C cmd s.system.store)))

  -- By the bytes that are left: the client sends finitely many.
  reading-Frees :
      (bound : ℕ) (phase : Phase S) (n : ℕ) (c : Connection S) (s : Server S atoi C M)
      → length (stream S c) < bound
      → s.phase ≡ phase
      → s.sessions n ≡ reading c
      → Frees phase s
  reading-Frees zero phase n c s less at_phase is = absurd (omega arith)
  reading-Frees (suc bound) phase n c s less at_phase is =
      let fuel = max_item_size + 3 + length (stream S c) in
      elim (Option-cases (read_command S atoi fuel c)) [
        | inl spent ↦ absurd (read_command-total S atoi fuel c (omega arith) spent)
        | inr ((err e, c'), read) ↦
            after (fails n fuel c c' e is read) (closed-Frees phase n (err e) c' s at_phase)
        | inr ((ok none, c'), read) ↦
            after (leaves n fuel c c' is read) (closed-Frees phase n (ok tt) c' s at_phase)
        | inr ((ok (some cmd), c'), read) ↦
            let (_, gives, _) = read_command-next S atoi C fuel c c' cmd read in
            let shorter = length-Gives S atoi cmd gives refl in
            after (reads n fuel c c' cmd is read) (
              called-Frees phase n cmd c' (put S atoi C M n (called cmd c') s)
                (λ c'' t same.
                  reading-Frees bound phase n c'' t (omega (arith, less, shorter, ap length same)))
                at_phase (update-same n (called cmd c') s.sessions))
      ]

  session-Frees :
      {max : ℕ} (phase : Phase S) (n : ℕ) (x : Session S) (s : Server S atoi C M)
      → Inv S atoi C M max s
      → s.phase ≡ phase
      → s.sessions n ≡ x
      → 0 < holds_permit S x
      → Frees phase s
  session-Frees phase n absent s v at_phase is holds = absurd (omega (arith, holds))
  session-Frees phase n (reading c) s v at_phase is holds =
      reading-Frees (suc (length (stream S c))) phase n c s (omega arith) at_phase is
  session-Frees phase n (called cmd c) s v at_phase is holds =
      called-Frees phase n cmd c s
        (λ c' t _. reading-Frees (suc (length (stream S c'))) phase n c' t (omega arith)) at_phase
        is
  session-Frees phase n (handling cmd c) s v at_phase is holds =
      let (k, within, _) = rw is at (v.suits n) in
      handling-Frees phase n k cmd c s
        (λ c' t _. reading-Frees (suc (length (stream S c'))) phase n c' t (omega arith)) at_phase
        is within
  session-Frees phase n (returned res c) s v at_phase is holds =
      returned-Frees phase n res c s at_phase is

  -- A socket that waits is admitted where a permit is left.
  admitted :
      (r : S.Reader) (w : S.Writer) (s : Server S atoi C M)
      → s.phase ≡ acquiring r w
      → 0 < M.available s.connections
      → (t : Server S atoi C M) × Reach S atoi C M s t
        × (t.phase ≡ accepting)
        × (t.spawned ≡ suc s.spawned)
        × (t.sessions s.spawned ≡ reading (connect S r w))
  unfolding spawn
  admitted r w s waiting free = elim (Option-cases (M.acquire s.connections)) [
    | inl refused ↦ absurd (M.acquire-ne-none s.connections free refused)
    | inr (m, acquired) ↦ (
      spawn S atoi C M r w m s,
      next here (admits r w m waiting acquired),
      refl,
      refl,
      update-same s.spawned (reading (connect S r w)) s.sessions,
    )
  ]

  -- If `max_connections` is not 0, then from every state that the server reaches, and in which an
  -- accepted socket waits for its permit, the steps of the sessions themselves lead on, a client
  -- sending finitely many bytes, to a state in which the loop accepts again and the newest task
  -- reads from that socket.
  pub Reach-admits :
      (clock : ℕ) (args : Cli) (r : S.Reader) (w : S.Writer) {s : Server S atoi C M}
      → 0 < args.max_connections
      → Reach S atoi C M (run S atoi C M clock args) s
      → s.phase ≡ acquiring r w
      → (t : Server S atoi C M) × (n : ℕ) × Reach S atoi C M s t
        × (t.phase ≡ accepting)
        × (t.spawned ≡ suc n)
        × (t.sessions n ≡ reading (connect S r w))
  Reach-admits clock args r w {s} pos reached waiting =
      let v = reached-Inv S atoi C M clock args reached in
      elim (Bool-cases (ltb 0 (M.available s.connections))) [
        | inl free ↦
            let (t, entered, accepts, count, serves) = admitted r w s waiting (ground arith) in
            (t, s.spawned, entered, accepts, count, serves)
        | inr full ↦
            let (n, _, holds) =
              total_pos (holds_permit S) s.sessions s.spawned
                (omega (arith, v.permits, pos, full_lem full)) in
            let (u, freed, at_phase, free) =
              session-Frees (acquiring r w) n (s.sessions n) s v waiting refl holds in
            let (t, entered, accepts, count, serves) = admitted r w u at_phase free in
            (t, u.spawned, Reach-trans freed entered, accepts, count, serves)
      ]
    where
      full_lem : ltb 0 (M.available s.connections) ≡ false → M.available s.connections ≡ 0
      full_lem h = ground arith

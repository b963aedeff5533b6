-- ===== src/Session/Protocol.antt =====
-- What a client sees of a session of src/session.rs: the answers to the bytes that it sends.
use mathlib.Core.List.{append-nil, append_assoc}
use ousagi.Atoi.{Atoi}
use ousagi.Commands.{Command, Response, noreply}
use ousagi.Connection.Commands.{read_command}
use ousagi.Connection.Frames.{stream, WhenSome, WhenSome-map}
use ousagi.Connection.Loop.{read_command-total}
use ousagi.Connection.Protocol.{Next, ended, quitted, next, command_of, Gives, length-Gives}
use ousagi.Connection.Reads.{Connection, connect}
use ousagi.Connection.Accepted.{accepted}
use ousagi.Connection.Texts.{text, write_response-text}
use ousagi.Connection.Delivered.{Delivered}
use ousagi.Connection.Speaks.{read_command-Gives}
use ousagi.Connection.Streams.{Streams}
use ousagi.Handler.{handle}
use ousagi.Parser.Header.{max_item_size}
use ousagi.Prelude.{
  ℕ, Bool, false, zero, suc, ◌+◌, ◌<◌, ◌≡◌, ◌≢◌, refl, sym, ap, ◌∙◌, inl, inr, none, some, [], ◌++◌,
  Bytes, length, ok, err, arith, Option-cases, Bool-cases, if◌then◌else◌,
}
use ousagi.Session.{Ended, reply, serve, process}
use ousagi.Store.Cache.{Cache}
use ousagi.Store.Inner.{Store}

all_accepted :
    {a b c : Bytes} (out x y z : Bytes)
    → a ≡ out ++ x
    → b ≡ a ++ y
    → c ≡ b ++ z
    → c ≡ out ++ (x ++ (y ++ z))
all_accepted {a} {b} out x y z h k l =
    l
    ∙ ap (λ u. u ++ z) (k ∙ ap (λ u. u ++ y) h ∙ append_assoc out x y)
    ∙ append_assoc out (x ++ y) z
    ∙ ap (λ u. out ++ u) (append_assoc x y z)

-- The last word of a command that changes something may ask for no reply; all others are answered.
abbrev wants_none : Command → Bool
wants_none (Command.store op args) = args.noreply
wants_none (Command.delete key last) = last
wants_none (Command.arithmetic op key delta last) = last
wants_none (Command.touch key exptime last) = last
wants_none (Command.flush_all delay last) = last
wants_none (Command.verbosity level last) = last
wants_none _ = false

noreply-wants_none : (cmd : Command) → noreply cmd ≡ wants_none cmd
unfolding noreply
noreply-wants_none (Command.get _ _) = refl
noreply-wants_none (Command.store _ _) = refl
noreply-wants_none (Command.delete _ _) = refl
noreply-wants_none (Command.arithmetic _ _ _ _) = refl
noreply-wants_none (Command.get_and_touch _ _ _) = refl
noreply-wants_none (Command.touch _ _ _) = refl
noreply-wants_none (Command.flush_all _ _) = refl
noreply-wants_none Command.version = refl
noreply-wants_none (Command.verbosity _ _) = refl
noreply-wants_none Command.stats = refl

module _ (S : Streams) (atoi : Atoi) (C : Cache) where
  -- The bytes that answer a command.
  abbrev pub answer : Command → Response → Bytes
  answer cmd resp = if wants_none cmd then [] else text S resp

  -- A session on the bytes `before`, from the store `s`: what is answered, the store it leaves, and
  -- how it ends.
  pub data Serves : Bytes → Store C → Bytes → Store C → Next → Type 0 where
    over :
        {before answers after : Bytes} {s : Store C} {last : Next}
        → Gives S atoi before answers after last
        → command_of last ≡ none
        → Serves before s answers s last
    command :
        {before answers mid answers' : Bytes} {s t : Store C} {last : Next} (cmd : Command)
        → Gives S atoi before answers mid (next cmd)
        → Serves mid (handle C cmd s).1 answers' t last
        → Serves before s (answers ++ (answer cmd (handle C cmd s).0 ++ answers')) t last

  -- The store after some of the commands that the bytes give.
  pub data Runs : Bytes → Store C → Store C → Type 0 where
    stops : {before : Bytes} {s : Store C} → Runs before s s
    goes_on :
        {before answers mid : Bytes} {s t : Store C} (cmd : Command)
        → Gives S atoi before answers mid (next cmd)
        → Runs mid (handle C cmd s).1 t
        → Runs before s t

  -- What the end of a session means, if the writer was handed `out` before it.
  abbrev pub Ends : Bytes → Store C → Bytes → Ended S atoi C → Type 0
  Ends before s out (ok _, c, t) =
      (answers : Bytes) × (last : Next) × Serves before s answers t last
      × (accepted S c ≡ out ++ answers)
      × (last ≡ ended → Delivered S c)
  Ends before s out (err _, c, t) = Runs before s t

  pub reply-answer :
      (cmd : Command) (resp : Response) (c c' : Connection S)
      → reply S atoi C cmd resp c ≡ some c'
      → (stream S c' ≡ stream S c) × (accepted S c' ≡ accepted S c ++ answer cmd resp)
  unfolding reply
  reply-answer cmd resp c c' h = elim (Bool-cases (noreply cmd)) [
    | inl silent ↦
        let same : c ≡ c' = cc (rw silent at h) in
        rw (← noreply-wants_none cmd, silent, ← same) (refl, sym (append-nil (accepted S c)))
    | inr loud ↦
        rw (← noreply-wants_none cmd, loud) (write_response-text S resp c c' (rw loud at h))
  ]

  next-command_of : (n : Next) (cmd : Command) → command_of n ≡ some cmd → n ≡ next cmd
  next-command_of ended cmd h = cc
  next-command_of quitted cmd h = cc
  next-command_of (next cmd') cmd h = let same : cmd' ≡ cmd = cc in ap next same

  pub read_command-next :
      (fuel : ℕ) (c c' : Connection S) (cmd : Command)
      → read_command S atoi fuel c ≡ some (ok (some cmd), c')
      → (answers : Bytes) × Gives S atoi (stream S c) answers (stream S c') (next cmd)
        × (accepted S c' ≡ accepted S c ++ answers)
  read_command-next fuel c c' cmd h =
      let (answers, n, gives, is, told, _) = read_command-Gives S atoi fuel c c' (some cmd) h in
      (answers, rw (next-command_of n cmd is) at gives, told)

  Ends-command :
      (before mid out answers : Bytes) (cmd : Command) (s : Store C) (d d' : Connection S)
      (x : Ended S atoi C)
      → Gives S atoi before answers mid (next cmd)
      → stream S d ≡ mid
      → accepted S d ≡ out ++ answers
      → (stream S d' ≡ stream S d) × (accepted S d' ≡ accepted S d ++ answer cmd (handle C cmd s).0)
      → Ends (stream S d') (handle C cmd s).1 (accepted S d') x
      → Ends before s out x
  Ends-command before mid out answers cmd s d d' (ok _, c, t) gives at_mid told (same, told')
        (answers', last, serves, told'', delivered) =
      (
        answers ++ (answer cmd (handle C cmd s).0 ++ answers'),
        last,
        command cmd gives (rw (same, at_mid) at serves),
        all_accepted out answers (answer cmd (handle C cmd s).0) answers' told told' told'',
        delivered,
      )
  Ends-command before mid out answers cmd s d d' (err e, c, t) gives at_mid told (same, told')
        runs =
      goes_on cmd gives (rw (same, at_mid) at runs)

  serve-Ends :
      (fuel : ℕ) (c : Connection S) (s : Store C)
      → WhenSome (Ends (stream S c) s (accepted S c)) (serve S atoi C fuel c s)
  unfolding serve
  serve-Ends zero c s = tt
  serve-Ends (suc fuel) c s = elim (Option-cases (read_command S atoi fuel c)) [
    | inl spent ↦ rw (serve, spent) tt
    | inr ((err e, d), read) ↦ rw (serve, read) stops
    | inr ((ok none, d), read) ↦
        let (answers, n, gives, is, told, delivered) =
          read_command-Gives S atoi fuel c d none read in
        rw (serve, read) (answers, n, over gives is, told, delivered)
    | inr ((ok (some cmd), d), read) ↦
        let (resp, s') = handle C cmd s in
        let (answers, gives, told) = read_command-next fuel c d cmd read in
        elim (Option-cases (reply S atoi C cmd resp d)) [
          | inl broken ↦ rw (serve, read, broken) (goes_on cmd gives stops)
          | inr (d', replied) ↦
              rw (serve, read, replied)
                (WhenSome-map (serve S atoi C fuel d' s')
                  (λ x.
                    Ends-command (stream S c) (stream S d) (accepted S c) answers cmd s d d' x gives
                      refl told (reply-answer cmd resp d d' replied))
                  (serve-Ends fuel d' s'))
        ]
  ]

  -- However the bytes arrived, if a session ends without an error, then the bytes handed to the
  -- writer and the store it leaves are those of the protocol on the bytes of the client: each
  -- command that its lines and payloads give runs on the store in turn and is answered unless it
  -- asks for no reply, after the refusals of the lines before it, up to `quit` or the end. If it
  -- was the end, all of these bytes are delivered. If the session ends with an error, the store
  -- is the one after some number of these commands, from the first on.
  pub process-Ends :
      (fuel : ℕ) (r : S.Reader) (w : S.Writer) (s : Store C) (x : Ended S atoi C)
      → process S atoi C fuel r w s ≡ some x
      → Ends (S.unread r) s (S.accepted w) x
  unfolding process
  process-Ends fuel r w s x h = rw h at (serve-Ends fuel (connect S r w) s)

  serve-total :
      (fuel : ℕ) (c : Connection S) (s : Store C)
      → max_item_size + 3 + length (stream S c) < fuel
      → serve S atoi C fuel c s ≢ none
  unfolding serve
  serve-total zero c s h = absurd (omega arith)
  serve-total (suc fuel) c s h = elim (Option-cases (read_command S atoi fuel c)) [
    | inl spent ↦ absurd (read_command-total S atoi fuel c (omega (arith, h)) spent)
    | inr ((err e, d), read) ↦ rw (serve, read) (λ e. cc)
    | inr ((ok none, d), read) ↦ rw (serve, read) (λ e. cc)
    | inr ((ok (some cmd), d), read) ↦
        let (resp, s') = handle C cmd s in
        elim (Option-cases (reply S atoi C cmd resp d)) [
          | inl broken ↦ rw (serve, read, broken) (λ e. cc)
          | inr (d', replied) ↦
              let (answers, gives, _) = read_command-next fuel c d cmd read in
              let size : length (stream S d') ≡ length (stream S d) =
                ap length (reply-answer cmd resp d d' replied).0 in
              rw (serve, read, replied)
                (serve-total fuel d' s'
                  (omega (arith, h, size, length-Gives S atoi cmd gives refl)))
        ]
  ]

  -- If the loops of a session may take more rounds than the bytes that the client sends and
  -- 1048579 together, then the session ends.
  pub process-total :
      (fuel : ℕ) (r : S.Reader) (w : S.Writer) (s : Store C)
      → max_item_size + 3 + length (S.unread r) < fuel
      → process S atoi C fuel r w s ≢ none
  unfolding process
  process-total fuel r w s h = serve-total fuel (connect S r w) s h

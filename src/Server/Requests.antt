-- ===== src/Server/Requests.antt =====
-- What a client of src/server.rs that writes well-formed commands is told, while other sessions run.
use mathlib.Core.List.{append-nil, append_assoc}
use ousagi.Atoi.{Atoi}
use ousagi.Commands.{Command, Response}
use ousagi.Connection.Accepted.{accepted}
use ousagi.Connection.Delivered.{Delivered}
use ousagi.Connection.Frames.{stream}
use ousagi.Connection.Protocol.{Next, next, ended, command_of, Gives}
use ousagi.Connection.Reads.{Connection}
use ousagi.Connection.Requests.{
  Request, command_of_request, encode, IsRequest, Gives-encode, Gives-nil,
}
use ousagi.Connection.Streams.{Streams}
use ousagi.Prelude.{ℕ, ◌≡◌, refl, ap, ◌∙◌, sym, none, List, [], ◌∷◌, ◌++◌, Bytes, All, ok, err}
use ousagi.Server.Permits.{Semaphore}
use ousagi.Server.Talks.{
  Talks, starts, answers, AllWork, Then, Tells, waiting, asked, served, left, broke, gone,
}
use ousagi.Server.Tells.{Reach-Tells}
use ousagi.Server.{Session, absent, reading, called, handling, returned, Server, run, Reach}
use ousagi.Session.Protocol.{answer}
use ousagi.Startup.{Cli}
use ousagi.Store.Cache.{Cache}
use ousagi.Store.Tasks.{Task}

-- The commands of the requests, the last one first, before those of `l`.
abbrev pub last_first : List Request → List Command → List Command
last_first [] l = l
last_first (q ∷ qs) l = last_first qs (command_of_request q ∷ l)

last_first-append :
    (done : List Request) (q : Request) (l : List Command)
    → last_first (done ++ (q ∷ [])) l ≡ command_of_request q ∷ last_first done l
last_first-append [] q l = refl
last_first-append (r ∷ done) q l = last_first-append done q (command_of_request r ∷ l)

abbrev pub commands : List (Command × Response) → List Command
commands [] = []
commands ((cmd, _) ∷ l) = cmd ∷ commands l

module _ (S : Streams) (atoi : Atoi) (C : Cache) (M : Semaphore) where
  -- The answers to commands that are listed with their responses, the last one first.
  abbrev pub all_answers : List (Command × Response) → Bytes
  all_answers [] = []
  all_answers ((cmd, resp) ∷ l) = all_answers l ++ answer S atoi C cmd resp

  -- The requests `qs` have been answered with the responses of `l` and nothing else, up to
  -- those of `todo`.
  pub record Progress (qs : List Request) (l : List (Command × Response)) (out rest : Bytes)
      : Type 0 where
    pub done : List Request
    pub todo : List Request
    pub split : qs ≡ done ++ todo
    pub valid : All IsRequest todo
    pub same : commands l ≡ last_first done []
    pub told : out ≡ all_answers l
    pub unread : rest ≡ encode todo

  -- What the bytes of the requests `todo` give: nothing more, or the first of them.
  abbrev Gave : List Request → Bytes → Next → Type 0
  Gave [] after n = n ≡ ended
  Gave (q ∷ todo) after n = (after ≡ encode todo) × (n ≡ next (command_of_request q))

  Gives-Gave :
      {before refusals after : Bytes} {n : Next} (todo : List Request)
      → All IsRequest todo
      → before ≡ encode todo
      → Gives S atoi before refusals after n
      → (refusals ≡ []) × Gave todo after n
  Gives-Gave [] valid e gives = Gives-nil S atoi e gives
  Gives-Gave (q ∷ todo) (valid, _) e gives =
      let (nothing, after, is_next) = Gives-encode S atoi q todo valid e gives in
      (nothing, (after, is_next))

  one_more :
      {l : List (Command × Response)} {out rest after refusals out' : Bytes}
      (qs done todo : List Request) (cmd : Command) (resp : Response)
      → qs ≡ done ++ todo
      → All IsRequest todo
      → commands l ≡ last_first done []
      → out ≡ all_answers l
      → rest ≡ encode todo
      → Gives S atoi rest refusals after (next cmd)
      → out' ≡ (out ++ refusals) ++ answer S atoi C cmd resp
      → Progress qs ((cmd, resp) ∷ l) out' after
  one_more qs done [] cmd resp split valid same told rest gives says =
      let (_, over) = Gives-Gave [] valid rest gives in cc over
  one_more {l = l} {out = out} qs done (q ∷ todo) cmd resp split valid same told rest gives says =
      let (nothing, (after, is_next)) = Gives-Gave (q ∷ todo) valid rest gives in
      let is_first : cmd ≡ command_of_request q = cc is_next in
      record {
        done = done ++ (q ∷ []);
        todo = todo;
        split = split ∙ sym (append_assoc done (q ∷ []) todo);
        valid = valid.1;
        same = cc (is_first, same, last_first-append done q []);
        told =
            says
            ∙ ap (λ o. o ++ answer S atoi C cmd resp)
                (ap (λ o. out ++ o) nothing ∙ append-nil out ∙ told);
        unread = after;
      }

  Talks-Progress :
      {before out rest : Bytes} {l : List (Command × Response)} (qs : List Request)
      → All IsRequest qs
      → before ≡ encode qs
      → Talks S atoi C M before l out rest
      → Progress qs l out rest
  Talks-Progress qs valid e (starts nothing same) = record {
    done = [];
    todo = qs;
    split = refl;
    valid = valid;
    same = refl;
    told = nothing;
    unread = same ∙ e;
  }
  Talks-Progress qs valid e (answers cmd resp talks gives told) =
      let p = Talks-Progress qs valid e talks in
      one_more qs p.done p.todo cmd resp p.split p.valid p.same p.told p.unread gives told

  -- All requests before `q` have been answered, its command is `cmd`, and those behind it are unread.
  pub record AtWork {x y : Server S atoi C M} (r : Reach S atoi C M x y) (c0 : Connection S)
      (qs : List Request) (cmd : Command) (c : Connection S) : Type 0 where
    pub done : List Request
    pub q : Request
    pub todo : List Request
    pub l : List (Command × Response)
    pub split : qs ≡ done ++ (q ∷ todo)
    pub current : cmd ≡ command_of_request q
    pub same : commands l ≡ last_first done []
    pub unread : stream S c ≡ encode todo
    pub told : accepted S c ≡ accepted S c0 ++ all_answers l
    pub work : AllWork S atoi C M r l

  -- What a session has done for a client whose requests `qs` were all unread with the connection `c0`.
  abbrev pub Sees :
      {x y : Server S atoi C M}
      → Reach S atoi C M x y
      → Connection S
      → List Request
      → Session S
      → Type 0
  Sees r c0 qs (reading c) =
      (l : List (Command × Response)) × (out : Bytes) × Progress qs l out (stream S c)
      × (accepted S c ≡ accepted S c0 ++ out)
      × AllWork S atoi C M r l
  Sees r c0 qs (called cmd c) = AtWork r c0 qs cmd c
  Sees r c0 qs (handling cmd c) = AtWork r c0 qs cmd c
  Sees r c0 qs (returned (ok _) c) =
      (l : List (Command × Response)) × (commands l ≡ last_first qs [])
      × (accepted S c ≡ accepted S c0 ++ all_answers l)
      × AllWork S atoi C M r l
      × Delivered S c
  Sees r c0 qs (returned (err _) c) =
      (l : List (Command × Response)) × (out rest : Bytes) × Progress qs l out rest
      × AllWork S atoi C M r l
  Sees r c0 qs absent = Unit

  Then-AtWork :
      {x y : Server S atoi C M} (r : Reach S atoi C M x y) (c0 c : Connection S) (qs : List Request)
      (cmd : Command)
      → All IsRequest qs
      → stream S c0 ≡ encode qs
      → Then S atoi C M r c0 c (next cmd)
      → AtWork r c0 qs cmd c
  Then-AtWork r c0 c qs cmd valid e t =
      let p = Talks-Progress qs valid e t.talks in
      from p.done p.todo p.split p.valid p.same p.unread p.told
    where
      from :
          (done todo : List Request)
          → qs ≡ done ++ todo
          → All IsRequest todo
          → commands t.exchanges ≡ last_first done []
          → t.mid ≡ encode todo
          → t.out ≡ all_answers t.exchanges
          → AtWork r c0 qs cmd c
      from done [] split valid same mid_is told =
          let (_, over) = Gives-Gave [] valid mid_is t.gives in cc over
      from done (q ∷ todo) split valid same mid_is told =
          let (nothing, (after, is_next)) = Gives-Gave (q ∷ todo) valid mid_is t.gives in
          record {
            done = done;
            q = q;
            todo = todo;
            l = t.exchanges;
            split = split;
            current = cc is_next;
            same = same;
            unread = after;
            told = rw (nothing, append-nil t.out, told) at t.told;
            work = t.work;
          }

  left-Sees :
      {x y : Server S atoi C M} (r : Reach S atoi C M x y) (c0 c : Connection S) (qs : List Request)
      (last : Next)
      → All IsRequest qs
      → stream S c0 ≡ encode qs
      → Then S atoi C M r c0 c last
      → command_of last ≡ none
      → (last ≡ ended → Delivered S c)
      → Sees r c0 qs (returned (ok tt) c)
  left-Sees r c0 c qs last valid e t over delivered =
      let p = Talks-Progress qs valid e t.talks in
      from p.done p.todo p.split p.valid p.same p.unread p.told
    where
      from :
          (done todo : List Request)
          → qs ≡ done ++ todo
          → All IsRequest todo
          → commands t.exchanges ≡ last_first done []
          → t.mid ≡ encode todo
          → t.out ≡ all_answers t.exchanges
          → Sees r c0 qs (returned (ok tt) c)
      from done [] split valid same mid_is told =
          let (nothing, is_end) = Gives-Gave [] valid mid_is t.gives in
          (
            t.exchanges,
            rw (split, append-nil done) same,
            rw (nothing, append-nil t.out, told) at t.told,
            t.work,
            delivered is_end,
          )
      from done (q ∷ todo) split valid same mid_is told =
          let (nothing, (after, is_next)) = Gives-Gave (q ∷ todo) valid mid_is t.gives in
          cc (over, ap command_of is_next)

  Tells-Sees :
      {x y : Server S atoi C M} (r : Reach S atoi C M x y) (c0 : Connection S) (qs : List Request)
      (session : Session S) (task : Task)
      → All IsRequest qs
      → stream S c0 ≡ encode qs
      → Tells S atoi C M r c0 session task
      → Sees r c0 qs session
  Tells-Sees r c0 qs _ task valid e (waiting l out talks told work) =
      (l, out, Talks-Progress qs valid e talks, told, work)
  Tells-Sees r c0 qs (called cmd c) task valid e (asked _ t) = Then-AtWork r c0 c qs cmd valid e t
  Tells-Sees r c0 qs (handling cmd c) task valid e (served _ t _) =
      Then-AtWork r c0 c qs cmd valid e t
  Tells-Sees r c0 qs (returned _ c) task valid e (left last t over delivered) =
      left-Sees r c0 c qs last valid e t over delivered
  Tells-Sees r c0 qs _ task valid e (broke _ l out rest talks work) =
      (l, out, rest, Talks-Progress qs valid e talks, work)
  Tells-Sees r c0 qs _ task valid e gone = tt

  -- In every run of the server, whatever the other sessions do in between: if a session stood
  -- before its next command with a connection whose unread bytes are those of well-formed
  -- commands, each a line of at most 8192 bytes and, for a storage command, a payload of the
  -- announced length, then, unless it failed or is gone, it has answered the first of these
  -- commands and nothing else, each once and in order, by the response that the method of the
  -- command ended with; while it is at a command, that is the next one, and what is unread are
  -- those behind it. Once it is over without an error, it has answered all of them, and all of
  -- its answers are delivered.
  pub Reach-Sees :
      (clock : ℕ) (args : Cli) {x y : Server S atoi C M} (c0 : Connection S) (n : ℕ)
      (qs : List Request)
      → Reach S atoi C M (run S atoi C M clock args) x
      → x.sessions n ≡ reading c0
      → All IsRequest qs
      → stream S c0 ≡ encode qs
      → (r : Reach S atoi C M x y) → Sees r c0 qs (y.sessions n)
  Reach-Sees clock args {y = y} c0 n qs before is valid e r =
      Tells-Sees r c0 qs (y.sessions n) (y.system.tasks n) valid e
        (Reach-Tells S atoi C M clock args c0 n before is r)

-- ===== src/Commands.antt =====
-- src/commands.rs: the commands and the responses.
use ousagi.Prelude.{ℕ, String, Bool, false, Option, List, Bytes, ℤ}

pub data StoreOp : Type 0 where
  set add replace append prepend cas : StoreOp

-- `payload` is the field `data`.
pub record StoreArgs : Type 0 where
  pub key : Bytes
  pub flags : ℕ
  pub exptime : ℤ
  pub payload : Bytes
  pub noreply : Bool
  pub cas : Option ℕ

pub data ArithmeticOp : Type 0 where
  incr decr : ArithmeticOp

pub data Command : Type 0 where
  get : List Bytes → Bool → Command
  store : StoreOp → StoreArgs → Command
  delete : Bytes → Bool → Command
  arithmetic : ArithmeticOp → Bytes → ℕ → Bool → Command
  get_and_touch : List Bytes → ℤ → Bool → Command
  touch : Bytes → ℤ → Bool → Command
  flush_all : Option ℕ → Bool → Command
  version : Command
  verbosity : ℕ → Bool → Command
  stats : Command

unfoldable pub noreply : Command → Bool
noreply (Command.get _ _) = false
noreply (Command.get_and_touch _ _ _) = false
noreply Command.stats = false
noreply Command.version = false
noreply (Command.store _ args) = args.noreply
noreply (Command.delete _ n) = n
noreply (Command.arithmetic _ _ _ n) = n
noreply (Command.touch _ _ n) = n
noreply (Command.flush_all _ n) = n
noreply (Command.verbosity _ n) = n

-- One retrieved item: key, flags, data and, for `gets` and `gats`, the cas token.
abbrev pub Value : Type 0
Value = Bytes × ℕ × Bytes × Option ℕ

pub data Response : Type 0 where
  stored not_stored deleted not_found exists touched : Response
  values : List Value → Response
  number : ℕ → Response
  ok : Response
  version : String → Response
  error : Response
  client_error server_error : String → Response
  stats : List (String × Bytes) → Response

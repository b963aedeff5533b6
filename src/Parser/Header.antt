-- ===== src/Parser/Header.antt =====
-- src/parser.rs: parse errors, and the header of a command.
use ousagi.Commands.{StoreOp, Command, Response}
use ousagi.Prelude.{ℕ, ◌+◌, ◌*◌, ◌%◌, ◌^◌, Bool, Option, none, some, Bytes, ℤ}

abbrev pub max_key_len : ℕ
max_key_len = 250

abbrev pub max_item_size : ℕ
max_item_size = 1024 * 1024

-- `usize` and `u64` addition, which wraps in a release build.
abbrev pub add_usize : ℕ → ℕ → ℕ
add_usize a b = (a + b) % 2 ^ 64

pub data ParseErrorKind : Type 0 where
  bad_format numeric_delta numeric_delay too_large unknown : ParseErrorKind

pub record ParseError : Type 0 where
  pub kind : ParseErrorKind
  pub discard : Option ℕ

-- `ParseError::new`.
abbrev pub parse_error : ParseErrorKind → ParseError
parse_error kind = record { kind = kind; discard = none }

abbrev pub with_discard : ParseError → ℕ → ParseError
with_discard e n = record e { discard = some n }

abbrev kind_response : ParseErrorKind → Response
kind_response bad_format = Response.client_error "bad command line format"
kind_response numeric_delta = Response.client_error "invalid numeric delta"
kind_response numeric_delay = Response.client_error "invalid numeric delay"
kind_response too_large = Response.server_error "object too large for cache"
kind_response unknown = Response.error

unfoldable pub response : ParseError → Response
response e = kind_response e.kind

pub record PendingStore : Type 0 where
  pub op : StoreOp
  pub key : Bytes
  pub flags : ℕ
  pub exptime : ℤ
  pub len : ℕ
  pub cas : Option ℕ
  pub noreply : Bool

unfoldable pub into_command : PendingStore → Bytes → Command
into_command p payload = Command.store p.op (record {
  key = p.key;
  flags = p.flags;
  exptime = p.exptime;
  payload = payload;
  noreply = p.noreply;
  cas = p.cas;
})

pub data CommandHeader : Type 0 where
  immediate : Command → CommandHeader
  store : PendingStore → CommandHeader
  quit : CommandHeader

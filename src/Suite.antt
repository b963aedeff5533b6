-- ===== src/Suite.antt =====
-- The unit tests of the repository, run on the model. Here are the helpers of the tests in
-- src/parser.rs; a test is a Boolean, which is `false` where the source panics.
pub mod Retrievals
pub mod Storages
pub mod Others
pub mod Stores
pub mod Expiries
pub mod Reads
pub mod Writes
pub mod Updates
pub mod Touches
use ousagi.Commands.{
  StoreOp, set, add, replace, append, prepend, cas, ArithmeticOp, incr, decr, Command,
}
use ousagi.Parser.Header.{
  max_key_len, ParseError, ParseErrorKind, bad_format, numeric_delta, numeric_delay, too_large,
  unknown, PendingStore, CommandHeader, immediate, store, quit,
}
use ousagi.Parser.{parse_command_line}
use ousagi.Prelude.{
  ℕ, zero, suc, ◌+◌, ◌==◌, Bool, true, false, ◌&&◌, Option, none, some, List, [], ◌∷◌, Bytes,
  bytes_eq, ℤ, pos, negsuc, Result, ok, err,
}
use ousagi.Tests.Crates.{whole_text_atoi}

abbrev pub all_true : List Bool → Bool
all_true [] = true
all_true (b ∷ bs) = b && all_true bs

abbrev pub same_option : Option ℕ → Option ℕ → Bool
same_option none none = true
same_option (some a) (some b) = a == b
same_option none (some b) = false
same_option (some a) none = false

abbrev pub same_int : ℤ → ℤ → Bool
same_int (pos a) (pos b) = a == b
same_int (negsuc a) (negsuc b) = a == b
same_int (pos a) (negsuc b) = false
same_int (negsuc a) (pos b) = false

abbrev pub same_keys : List Bytes → List Bytes → Bool
same_keys [] [] = true
same_keys (a ∷ as_) (b ∷ bs) = bytes_eq a b && same_keys as_ bs
same_keys [] (b ∷ bs) = false
same_keys (a ∷ as_) [] = false

abbrev pub is_set : StoreOp → Bool
is_set set = true
is_set _ = false

abbrev pub is_add : StoreOp → Bool
is_add add = true
is_add _ = false

abbrev pub is_replace : StoreOp → Bool
is_replace replace = true
is_replace _ = false

abbrev pub is_append : StoreOp → Bool
is_append append = true
is_append _ = false

abbrev pub is_prepend : StoreOp → Bool
is_prepend prepend = true
is_prepend _ = false

abbrev pub is_cas : StoreOp → Bool
is_cas cas = true
is_cas _ = false

abbrev pub is_incr : ArithmeticOp → Bool
is_incr incr = true
is_incr decr = false

abbrev pub is_decr : ArithmeticOp → Bool
is_decr incr = false
is_decr decr = true

abbrev pub is_bad_format : ParseErrorKind → Bool
is_bad_format bad_format = true
is_bad_format _ = false

abbrev pub is_numeric_delta : ParseErrorKind → Bool
is_numeric_delta numeric_delta = true
is_numeric_delta _ = false

abbrev pub is_numeric_delay : ParseErrorKind → Bool
is_numeric_delay numeric_delay = true
is_numeric_delay _ = false

abbrev pub is_too_large : ParseErrorKind → Bool
is_too_large too_large = true
is_too_large _ = false

abbrev pub is_unknown : ParseErrorKind → Bool
is_unknown unknown = true
is_unknown _ = false

abbrev repeat : ℕ → Bytes
repeat zero = []
repeat (suc n) = b'a' ∷ repeat n

abbrev pub long_key : Bytes
long_key = repeat max_key_len

abbrev pub too_long_key : Bytes
too_long_key = repeat (max_key_len + 1)

abbrev pub is_quit : Result ParseError CommandHeader → Bool
is_quit (ok quit) = true
is_quit (ok (immediate cmd)) = false
is_quit (ok (store pending)) = false
is_quit (err e) = false

-- The helpers that unwrap, with what is tested of the result.
abbrev immediate_is : (Command → Bool) → Result ParseError CommandHeader → Bool
immediate_is test (ok (immediate cmd)) = test cmd
immediate_is test (ok (store pending)) = false
immediate_is test (ok quit) = false
immediate_is test (err e) = false

abbrev pub expect_immediate : Bytes → (Command → Bool) → Bool
expect_immediate input test = immediate_is test (parse_command_line whole_text_atoi input)

abbrev store_is : (PendingStore → Bool) → Result ParseError CommandHeader → Bool
store_is test (ok (store pending)) = test pending
store_is test (ok (immediate cmd)) = false
store_is test (ok quit) = false
store_is test (err e) = false

abbrev pub expect_store : Bytes → (PendingStore → Bool) → Bool
expect_store input test = store_is test (parse_command_line whole_text_atoi input)

abbrev error_is : (ParseError → Bool) → Result ParseError CommandHeader → Bool
error_is test (ok header) = false
error_is test (err e) = test e

abbrev pub expect_error : Bytes → (ParseError → Bool) → Bool
expect_error input test = error_is test (parse_command_line whole_text_atoi input)

-- ===== src/Tests/Session.antt =====
-- Runs of a session over streams that give a byte at a time, and the theorems applied to them.
use ousagi.Atoi.{int_to_string}
use ousagi.Commands.{set, cas, Command, Response, Value}
use ousagi.Connection.Answers.{write_response}
use ousagi.Connection.Commands.{read_command}
use ousagi.Connection.Frames.{stream}
use ousagi.Connection.Protocol.{Next, ended, command_of, Gives}
use ousagi.Connection.Reads.{Connection}
use ousagi.Connection.Replies.{IsValue, read_values, read_values-write_response}
use ousagi.Connection.Accepted.{accepted}
use ousagi.Connection.Delivered.{Delivered}
use ousagi.Connection.Speaks.{read_command-Gives}
use ousagi.Handler.{handle}
use ousagi.Parser.{parse_command_line}
use ousagi.Parser.Discards.{payload_announced, parse_command_line-announced}
use ousagi.Parser.Header.{
  response, PendingStore, into_command, bad_format, ParseError, CommandHeader,
}
use ousagi.Parser.Keys.{IsKey}
use ousagi.Parser.Lines.{join}
use ousagi.Parser.Printing.{print}
use ousagi.Parser.RoundTrip.{parse_command_line-print}
use ousagi.Parser.Tokens.{next, validate_key}
use ousagi.Parser.WellFormed.{◌&◌, IsHeader}
use ousagi.Parser.Words.{words}
use ousagi.Prelude.{
  ◌≡◌, ◌≢◌, refl, none, some, [], ◌∷◌, ◌++◌, Bytes, codes, any, position, bytes_eq, ok, err, pos,
  true, false, arith, List, All,
}
use ousagi.Session.{process}
use ousagi.Session.Requests.{Answered, process-encode}
use ousagi.Session.{Ended}
use ousagi.Connection.Requests.{Request, line_only, with_payload, encode, IsRequest}
use ousagi.Session.Protocol.{Serves, process-Ends, process-total}
use ousagi.Store.Inner.{Store, new_store}
use ousagi.Store.Items.{new_item}
use ousagi.Store.Reads.{get}
use ousagi.Store.Writes.{store}
use ousagi.Text.{parse_u64, trim, to_string}
use ousagi.Tests.Crates.{whole_text_atoi, roomy_cache}
use ousagi.Tests.Data.{key, empty, one_item}
use ousagi.Tests.Wire.{slow_streams, opened}

abbrev input : Bytes
input = codes "nope\r\nquit\r\n"

abbrev refused : Connection slow_streams
refused = record { reader = []; writer = (codes "ERROR\r\n", []); buffer = [] }

command_is_read :
    read_command slow_streams whole_text_atoi 9 (opened input) ≡ some (ok none, refused)
unfolding read_command position next bytes_eq response
command_is_read = refl

read_command-Gives_example :
    (answers : Bytes) × (n : Next) × Gives slow_streams whole_text_atoi
      (stream slow_streams (opened input))
      answers
      (stream slow_streams refused)
      n
    × (command_of n ≡ none)
    × (accepted slow_streams refused ≡ accepted slow_streams (opened input) ++ answers)
    × (n ≡ ended → Delivered slow_streams refused)
read_command-Gives_example =
    read_command-Gives slow_streams whole_text_atoi 9 (opened input) refused none command_is_read

abbrev requests : Bytes
requests = codes "set k 7 0 1\r\n5\r\nget k\r\n"

abbrev answered : Connection slow_streams
answered = record {
  reader = [];
  writer = (codes "STORED\r\nVALUE k 7 1\r\n5\r\nEND\r\n", []);
  buffer = [];
}

abbrev left : Store roomy_cache
left = (handle roomy_cache (Command.get (key ∷ []) false) one_item).1

session_runs :
    process slow_streams whole_text_atoi roomy_cache 60 requests ([], []) empty
    ≡ some (ok tt, answered, left)
unfolding process handle position next bytes_eq parse_u64 trim validate_key any into_command store
    get new_item new_store to_string
session_runs = refl

process-Ends_example :
    (answers : Bytes) × (last : Next) × Serves slow_streams whole_text_atoi roomy_cache requests
      empty answers left last
    × (accepted slow_streams answered ≡ [] ++ answers)
    × (last ≡ ended → Delivered slow_streams answered)
process-Ends_example =
    process-Ends slow_streams whole_text_atoi roomy_cache 60 requests ([], []) empty
      (ok tt, answered, left) session_runs

process-total_example :
    process slow_streams whole_text_atoi roomy_cache 1048700 requests ([], []) empty ≢ none
process-total_example =
    process-total slow_streams whole_text_atoi roomy_cache 1048700 requests ([], []) empty
      (omega arith)

abbrev cas_header : CommandHeader
cas_header = CommandHeader.store (record {
  op = cas;
  key = key;
  flags = 7;
  exptime = pos 60;
  len = 5;
  cas = some 3;
  noreply = true;
})

cas_header-IsHeader : IsHeader cas_header
cas_header-IsHeader = record {
  key = (omega arith, omega arith, ((omega arith, λ e. omega (arith, e)), tt));
  flags = omega arith;
  exptime = omega arith;
  len = omega arith;
  cas = omega arith;
}

parse_command_line-print_example :
    parse_command_line whole_text_atoi (print cas_header) ≡ ok cas_header
parse_command_line-print_example =
    parse_command_line-print whole_text_atoi cas_header cas_header-IsHeader

abbrev pub set_header : PendingStore
set_header = record {
  op = set;
  key = key;
  flags = 7;
  exptime = pos 0;
  len = 1;
  cas = none;
  noreply = false;
}

abbrev pub set_request : Request
set_request = with_payload set_header (codes "5")

abbrev get_request : Request
get_request = line_only (Command.get (key ∷ []) false)

abbrev written : List Request
written = set_request ∷ get_request ∷ []

pub key-IsKey : IsKey key
key-IsKey = cas_header-IsHeader.key

pub set_request-IsRequest : IsRequest set_request
unfolding to_string print join int_to_string
set_request-IsRequest = record {
  header = record {
    key = key-IsKey;
    flags = omega arith;
    exptime = omega arith;
    len = omega arith;
    cas = tt;
  };
  short = omega arith;
  payload = refl;
}

get_request-IsRequest : IsRequest get_request
unfolding print join
get_request-IsRequest = record {
  header = (λ e. cc, (key-IsKey, tt));
  short = omega arith;
  payload = tt;
}

written_text : encode written ≡ codes "set k 7 0 1\r\n5\r\nget k\r\n"
unfolding print to_string join int_to_string
written_text = refl

process-encode_example :
    (x : Ended slow_streams whole_text_atoi roomy_cache) × (process slow_streams whole_text_atoi
        roomy_cache 1048700
        (encode written)
        ([], [])
        empty
      ≡ some x)
    × Answered slow_streams whole_text_atoi roomy_cache written ([], []) empty x
process-encode_example =
    process-encode slow_streams whole_text_atoi roomy_cache 1048700 (encode written) ([], []) empty
      written (set_request-IsRequest & get_request-IsRequest & tt) refl
      (rw written_text (omega arith))

abbrev bad_line : Bytes
bad_line = codes "set k x 0 5"

abbrev bad_flags : ParseError
bad_flags = record { kind = bad_format; discard = some 7 }

bad_line_refused : parse_command_line whole_text_atoi bad_line ≡ err bad_flags
unfolding parse_command_line next position bytes_eq parse_u64 trim validate_key any
bad_line_refused = refl

parse_command_line-announced_example : some 7 ≡ payload_announced whole_text_atoi (words bad_line)
parse_command_line-announced_example =
    parse_command_line-announced whole_text_atoi bad_line bad_flags bad_line_refused

abbrev found : List Value
found = (key, 7, codes "a\r\nb", some 3) ∷ (key, 0, [], none) ∷ []

found-AreValues : All IsValue found
found-AreValues =
    (parse_key, omega arith, omega arith, omega arith) & (parse_key, omega arith, omega arith) & tt
  where
    parse_key : IsKey key
    parse_key = cas_header-IsHeader.key

abbrev told : Connection slow_streams
told = record {
  reader = input;
  writer = ([], codes "VALUE k 7 4 3\r\na\r\nb\r\nVALUE k 0 0\r\n\r\nEND\r\n");
  buffer = [];
}

values_written : write_response slow_streams (Response.values found) (opened input) ≡ some told
unfolding write_response to_string
values_written = refl

read_values-write_response_example :
    (answer : Bytes) × (accepted slow_streams told ≡ [] ++ answer)
    × (read_values 3 answer ≡ some found)
read_values-write_response_example =
    read_values-write_response slow_streams found (opened input) told found-AreValues values_written

-- ===== src/Lib.antt =====
-- Verification of ousagi, a cache server that speaks memcached's text protocol.
--
-- A session (src/session.rs) reads commands from a connection (src/connection.rs). A client's line is
-- parsed (src/parser.rs) into a header; a storage command is completed by its payload. The handler
-- (src/handler.rs) calls the store's method for the command (src/store.rs), which works on a cache of
-- items and changes the counters (src/stats.rs), and answers a response (src/commands.rs).
--
--   Prelude, Text     lists of bytes, results, and Rust's decimal text and UTF-8
--   Commands          src/commands.rs: the commands and the responses
--   Parser            src/parser.rs: parse_command_line and what it calls; Parser/Header and
--                     Parser/Tokens its types and its tokenizer. Parser/Words and Parser/Grammar say
--                     what it should do: a grammar over the words of a line
--   Atoi              the crate atoi, which reads the numbers
--   Stats             src/stats.rs: the counters and their report
--   Store             src/store.rs: Store/Items the items and their expiry, Store/Inner StoreInner,
--                     Store/Reads get and get_and_touch, Store/Writes store and delete, Store/Updates
--                     arithmetic, touch and flush. Store/View, Store/Outcomes, Store/Effects and
--                     Store/Touches say what the operations do to the items that are live,
--                     Store/Books what they do to the counters
--   Store/Cache       the crate quick_cache, which keeps the items
--   Clock             src/clock.rs: the shared seconds and the task that sets them
--   Store/Traces      runs of the store, with the ticks of the clock
--   Store/Tasks       the methods of src/store.rs in steps, and the steps of several connections
--   Handler           src/handler.rs
--   Connection        src/connection.rs: Connection/Streams the crates it reads and writes with,
--                     Connection/Reads its reads and discards, Connection/Answers write_response,
--                     Connection/Commands read_command. Connection/Protocol says what the bytes of a
--                     client mean, line by line; Connection/Replies a client's reader of values,
--                     Connection/Requests the bytes of a client that writes well-formed commands
--   Session           src/session.rs; Session/Protocol the answers to the bytes of a client,
--                     Session/Requests those to a client that writes well-formed commands
--   Server            src/server.rs with the sessions it spawns, as steps; Server/Permits the semaphore
--                     of tokio. Server/Invariant, Server/Limits and Server/Ends are about permits,
--                     counters and the end of sessions, Server/Methods about the store under all
--                     sessions, Server/Talks and Server/Tells about what each client sees,
--                     Server/Requests about one that writes well-formed commands
--   Startup           src/cli.rs, src/runtime.rs and verbosity_level of src/main.rs
--   Suite             the unit tests of src/parser.rs and src/store.rs as Booleans, run on the model; the
--                     crates in them are the stand-ins of Tests/Crates
--   Tests             runs on small inputs
--
-- Bytes are natural numbers and text is a list of them. Unsigned integers are natural numbers, with
-- the wrap-around of a release build written out where the code adds; `i64` is an integer type.
-- Loops of the parser and the store are structural recursion. The digits of a number are written on
-- fuel, with one round more than there are digits.
--
-- A closure that the store hands to its cache is a function of the item and of what it captures. The
-- cache may evict any item whenever it stores one, and tells its lifecycle hook of each. A counter of
-- the crate contatori is the number that was added to it. The commands of a run are one after the
-- other, each as a whole. In Store/Tasks they are taken apart: what a method reads and draws before
-- its first call on the cache is one step, and each call on the cache is one, with what follows from
-- its result; the cache runs a closure without another call on the same key in between.
--
-- The connection reads from an abstract reader, which gives as many of the client's bytes at a time
-- as it likes, and `data` of read_payload has room for exactly `len` bytes. Its loops run on fuel, one
-- unit a round, and the result is an option that is `none` where the fuel is spent. A round ends its
-- loop or takes bytes, so fuel beyond the bytes that are left and the limits on lines and payloads is
-- never spent. The writer is buffered: what it is handed is delivered once it is flushed, which the
-- code does before it waits for more bytes, except in discard_until_newline, and not at `quit`.
--
-- The server's loop, the sessions of the tasks it spawns and the clock are the steps of one relation. A
-- session reads a command, which touches its own connection alone and is one step; it begins the method
-- of the command and takes its steps on the shared store; it replies, which is one step again; and once
-- it has returned and lowered the counter, its permit is dropped. Sessions take their steps in any order.
-- That a socket is admitted means that steps exist which lead there. The signal to shut down may come at
-- any time; it drops the loop, and sessions may go on until the runtime is dropped, which takes no step.
--
-- Not modelled: the parsing of the command line, logging, the wait for signals and the start of the
-- runtime, which call libraries. The system's time is any sequence of readings. The
-- builders of tokio's runtimes are parameters, which may fail.
pub mod Prelude
pub mod Text
pub mod Atoi
pub mod Clock
pub mod Commands
pub mod Parser
pub mod Stats
pub mod Store
pub mod Handler
pub mod Connection
pub mod Session
pub mod Server
pub mod Startup
pub mod Tests
pub mod Suite

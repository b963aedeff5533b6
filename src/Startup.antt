-- ===== src/Startup.antt =====
-- What a start of the program decides: src/cli.rs, src/main.rs and src/runtime.rs. The crates clap,
-- tracing_subscriber and tokio take it from there.
use ousagi.Prelude.{
  ℕ, zero, suc, Option, none, ◌^◌, ◌<◌, ◌≡◌, refl, String, ◌++◌, Bytes, codes, Result, ok, err,
  ◌>>=◌, ok_or, ltb, ◌==◌, arith, if◌then◌else◌,
}
use ousagi.Text.{to_string, parse_u64}
use ousagi.Text.Decimal.{parse_u64-to_string}

pub record Cli : Type 0 where
  pub port : ℕ
  pub listen : Option Bytes
  pub threads : ℕ
  pub max_connections : ℕ
  pub memory_limit_mb : ℕ
  pub verbose : ℕ

-- The options where none is given.
abbrev pub default_cli : Cli
default_cli = record {
  port = 11211;
  listen = none;
  threads = 4;
  max_connections = 1024;
  memory_limit_mb = 64;
  verbose = 0;
}

-- The filter for the number of `-v` flags.
unfoldable pub verbosity_level : ℕ → String
verbosity_level v =
    if v == 0 then "warn" else if v == 1 then "info" else if v == 2 then "debug" else "trace"

abbrev not_a_number : Bytes → Bytes
not_a_number s = codes "'" ++ (s ++ codes "' isn't a valid number")

-- `usize` has 64 bits.
unfoldable pub parse_threads : Bytes → Result Bytes ℕ
parse_threads s = do
  threads ← ok_or (not_a_number s) (parse_u64 s)
  if threads == 0 then err (codes "thread count must be at least 1") else ok threads

-- The builders of tokio, which may fail: that of a runtime with worker threads, of which it is given
-- the number, and that of a runtime on the thread that starts it.
pub record Builder : Type 1 where
  pub Runtime : Type 0
  pub multi_thread : ℕ → Option Runtime
  pub current_thread : Option Runtime

module _ (B : Builder) where
  -- `expect` panics where the builder fails, which is `none`.
  unfoldable pub build : ℕ → Option B.Runtime
  build threads = if ltb 1 threads then B.multi_thread threads else B.current_thread

  -- What a number of threads starts: 0 is refused, 1 needs no worker, and more are workers.
  abbrev pub started : ℕ → Result Bytes (Option B.Runtime)
  started zero = err (codes "thread count must be at least 1")
  started (suc zero) = ok B.current_thread
  started (suc (suc n)) = ok (B.multi_thread (suc (suc n)))

  -- On the decimal text of a `u64`, `parse_threads` and `build` after it refuse 0 with a message,
  -- start a runtime on the calling thread for 1, and one with that number of workers for every
  -- larger number; where the builder of tokio fails, so does the start.
  pub parse_threads-build :
      (n : ℕ)
      → n < 2 ^ 64
      → (parse_threads (to_string n) >>= λ threads. ok (build threads)) ≡ started n
  unfolding parse_threads build
  parse_threads-build zero h = rw (parse_threads, parse_u64-to_string 0 h) refl
  parse_threads-build (suc zero) h = rw (parse_threads, parse_u64-to_string 1 h) refl
  parse_threads-build (suc (suc n)) h =
      rw (parse_threads, parse_u64-to_string (suc (suc n)) h) (ground arith)

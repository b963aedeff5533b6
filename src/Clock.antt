-- ===== src/Clock.antt =====
-- src/clock.rs: the shared seconds, and the task that sets them. A clock is its one field, the atomic
-- `secs`.
use ousagi.Prelude.{
  ℕ, ◌+◌, ◌/◌, ◌%◌, ◌^◌, Bool, true, false, ◌&&◌, Option, none, some, List, [], ◌∷◌, ℤ, pos, negsuc,
  if◌then◌else◌,
}

abbrev pub Clock : Type 0
Clock = ℕ

-- What the system's clock gives: the nanoseconds since the Unix epoch, below 0 before it.
abbrev pub SystemTime : Type 0
SystemTime = ℤ

-- `unwrap` panics where the time lies before the epoch.
unfoldable pub unix_now_secs : SystemTime → Option ℕ
unix_now_secs (pos nanos) = some (nanos / 1000000000)
unix_now_secs (negsuc _) = none

abbrev pub now : Clock → ℕ
now secs = secs

abbrev pub set : ℕ → Clock → Clock
set secs c = secs

abbrev pub mock : ℕ → Clock
mock start_secs = start_secs

-- `fetch_add`, which wraps.
abbrev pub advance : ℕ → Clock → Clock
advance secs c = (c + secs) % 2 ^ 64

-- The clock that the program starts with.
unfoldable pub spawn_clock : SystemTime → Option Clock
unfolding unix_now_secs
spawn_clock time = unix_now_secs time

-- The task of `spawn_clock`, which ends where it panics.
pub data ClockTask : Type 0 where
  running : ClockTask
  panicked : ClockTask

-- A round of its loop: a tick of the interval, then the clock is set.
unfoldable pub beat : SystemTime → ClockTask × Clock → ClockTask × Clock
unfolding unix_now_secs
beat time (panicked, c) = (panicked, c)
beat time (running, c) = elim (unix_now_secs time) [
  | none ↦ (panicked, c)
  | some secs ↦ (running, set secs c)
]

abbrev pub beats : List SystemTime → ClockTask × Clock → ClockTask × Clock
beats [] x = x
beats (time ∷ times) x = beats times (beat time x)

abbrev since_epoch : SystemTime → Bool
since_epoch (pos _) = true
since_epoch (negsuc _) = false

abbrev all_since_epoch : List SystemTime → Bool
all_since_epoch [] = true
all_since_epoch (time ∷ times) = since_epoch time && all_since_epoch times

-- The last time before the first that lies before the epoch.
abbrev latest : SystemTime → List SystemTime → SystemTime
latest start [] = start
latest start (time ∷ times) = if since_epoch time then latest time times else start

-- ===== src/Store/Flushes.antt =====
-- `flush_all`, at once and delayed, and the numbers that `incr` and `decr` write.
use ousagi.Commands.{ArithmeticOp, incr, decr, Response}
use ousagi.Prelude.{
  ℕ, zero, suc, ◌+◌, ◌^◌, ◌<◌, ◌≡◌, refl, ap, ◌&&◌, leb, ltb, if◌then◌else◌, Option, none, some,
  Bytes, arith,
}
use ousagi.Store.Cache.{Cache}
use ousagi.Store.Inner.{Store, cutoff, flush_all}
use ousagi.Store.Items.{Item, is_expired, add_u64}
use ousagi.Store.Traces.{set_clock}
use ousagi.Store.Updates.{flush, flush_delay, apply_op, numeric_value}
use ousagi.Store.View.{live, view}
use ousagi.Text.{to_string}
use ousagi.Text.Decimal.{from_utf8-to_string, parse_u64-trim-to_string}

apply_op-lt : (op : ArithmeticOp) (val delta : ℕ) → val < 2 ^ 64 → apply_op op val delta < 2 ^ 64
unfolding apply_op
apply_op-lt incr val delta h = omega arith
apply_op-lt decr val delta h = omega arith

-- The data that `incr` and `decr` write over a `u64` is read back as the number they answer,
-- wrap-around included.
pub numeric_value-apply_op :
    (op : ArithmeticOp) (val delta : ℕ)
    → val < 2 ^ 64
    → numeric_value (to_string (apply_op op val delta)) ≡ some (apply_op op val delta)
unfolding numeric_value
numeric_value-apply_op op val delta h =
    rw (numeric_value, from_utf8-to_string (apply_op op val delta))
      (parse_u64-trim-to_string (apply_op op val delta) (apply_op-lt op val delta h))

-- What is left of an item at the time `secs`, after a flush at the time `now` and no delayed flush but
-- that one: nothing at once where there is no delay; otherwise it goes when its expiry is reached, or
-- the delayed time, if it was stored before that.
abbrev pub left_after : Option ℕ → ℕ → ℕ → Option Item → Option Item
left_after none now secs o = none
left_after (some zero) now secs o = none
left_after (some (suc n)) now secs none = none
left_after (some (suc n)) now secs (some i) =
    if leb (now + suc n) secs && ltb i.stored_at (now + suc n)
    then none
    else elim i.expires_at [ none ↦ some i | some t ↦ if leb t secs then none else some i ]

abbrev pub seconds : Option ℕ → ℕ
seconds none = 0
seconds (some n) = n

live-left_after :
    (n now secs : ℕ) (o : Option Item)
    → live secs (cutoff (now + suc n)) o ≡ left_after (some (suc n)) now secs o
unfolding is_expired
live-left_after n now secs none = refl
live-left_after n now secs (some i) = at_point (now + suc n) (omega arith)
  where
    at_point :
        (point : ℕ)
        → 0 < point
        → live secs (cutoff point) (some i) ≡ (
            if leb point secs && ltb i.stored_at point
            then none
            else elim i.expires_at [ none ↦ some i | some t ↦ if leb t secs then none else some i ])
    at_point zero pos = absurd (omega arith)
    at_point (suc p) pos = ground arith

module _ (C : Cache) where
  -- `flush_all` answers `OK`, and if its delay does not make the time overflow, then at any time
  -- the live items are what it has left: none where the delay is 0 or not given; otherwise each
  -- item that the store had, until the time of its expiry, and, if it was stored before the
  -- delayed time, until that.
  pub flush-left_after :
      (delay : Option ℕ) (secs : ℕ) (s : Store C) (k : Bytes)
      → s.shared_clock + seconds delay < 2 ^ 64
      → ((flush C delay s).0 ≡ Response.ok)
        × (view C (set_clock C secs (flush C delay s).1) k
            ≡ left_after delay s.shared_clock secs (C.find s.items k))
  unfolding flush flush_delay flush_all set_clock
  flush-left_after none secs s k fits =
      (refl, ap (live secs (cutoff s.oldest_live)) (C.find-clear s.items k))
  flush-left_after (some zero) secs s k fits =
      (refl, ap (live secs (cutoff s.oldest_live)) (C.find-clear s.items k))
  flush-left_after (some (suc n)) secs s k fits =
      let point : add_u64 s.shared_clock (suc n) ≡ s.shared_clock + suc n = omega (arith, fits) in
      (refl, rw point (live-left_after n s.shared_clock secs (C.find s.items k)))

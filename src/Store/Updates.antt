-- ===== src/Store/Updates.antt =====
-- src/store.rs: `Store::arithmetic`, `Store::touch`, `Store::flush` and `Store::item_count`.
use ousagi.Commands.{ArithmeticOp, incr, decr, Response}
use ousagi.Prelude.{
  ℕ, zero, suc, ◌-◌, String, Option, none, some, Bytes, ℤ, Result, ok, err, if◌then◌else◌,
}
use ousagi.Stats.{
  Counter, cmd_incr, cmd_decr, cmd_touch, cmd_flush, incr_hits, incr_misses, decr_hits, decr_misses,
  touch_hits, touch_misses,
}
use ousagi.Store.Cache.{Cache, retain, remove, EntryResult, retained, removed, vacant, Closure}
use ousagi.Store.Inner.{Store, now, oldest_live, next_cas, flush_all, count, settle}
use ousagi.Store.Items.{is_expired, resolve_expiry, add_u64}
use ousagi.Text.{to_string, from_utf8, trim, parse_u64}

-- The counters of an operation: commands, hits and misses.
abbrev pub counters : ArithmeticOp → Counter × Counter × Counter
counters incr = (cmd_incr, incr_hits, incr_misses)
counters decr = (cmd_decr, decr_hits, decr_misses)

abbrev pub arithmetic_error : ArithmeticOp → String
arithmetic_error incr = "cannot increment non-numeric value"
arithmetic_error decr = "cannot decrement non-numeric value"

-- `wrapping_add` and `saturating_sub` of `u64`.
unfoldable pub apply_op : ArithmeticOp → ℕ → ℕ → ℕ
apply_op incr val delta = add_u64 val delta
apply_op decr val delta = val - delta

-- `from_utf8`, then `trim` and `parse::<u64>`.
unfoldable pub numeric_value : Bytes → Option ℕ
numeric_value payload = elim (from_utf8 payload) [ none ↦ none | some s ↦ parse_u64 (trim s) ]

unfoldable pub arithmetic_closure :
    ArithmeticOp → ℕ → ℕ → Option ℕ → ℕ → Closure (Unit {0}) (Result String ℕ)
unfolding is_expired numeric_value apply_op
arithmetic_closure op delta now oldest_live token item u =
    if is_expired item now oldest_live
    then (item, remove, u)
    else elim (numeric_value item.payload) [
      | none ↦ (item, retain (err (arithmetic_error op)), u)
      | some val ↦
          let new_val = apply_op op val delta in
          (record item { payload = to_string new_val; cas = token }, retain (ok new_val), u)
    ]

unfoldable pub touch_closure : ℤ → ℕ → Option ℕ → ℕ → Closure (Unit {0}) (Unit {0})
unfolding is_expired resolve_expiry
touch_closure exptime now oldest_live token item u =
    if is_expired item now oldest_live
    then (item, remove, u)
    else (record item { expires_at = resolve_expiry exptime now; cas = token }, retain tt, u)

module _ (C : Cache) where
  unfoldable pub finish_arithmetic :
      ArithmeticOp → EntryResult (Result String ℕ) → Store C → Response × Store C
  finish_arithmetic op (retained (ok new_val)) s =
      (Response.number new_val, count C (counters op).1 1 s)
  finish_arithmetic op (retained (err msg)) s = (Response.client_error msg, s)
  finish_arithmetic op (removed _ _) s = (Response.not_found, count C (counters op).2 1 s)
  finish_arithmetic op vacant s = (Response.not_found, count C (counters op).2 1 s)

  unfoldable pub arithmetic : ArithmeticOp → Bytes → ℕ → Store C → Response × Store C
  unfolding arithmetic_closure finish_arithmetic
  arithmetic op key delta s =
      let s1 = count C (counters op).0 1 s in
      let (token, s2) = next_cas C s1 in
      let e =
        C.entry (arithmetic_closure op delta (now C s) (oldest_live C s) token) s2.items key tt in
      finish_arithmetic op e.result (settle C e.evicted e.cache s2)

  unfoldable pub finish_touch : EntryResult (Unit {0}) → Store C → Response × Store C
  finish_touch (retained _) s = (Response.touched, count C touch_hits 1 s)
  finish_touch (removed _ _) s = (Response.not_found, count C touch_misses 1 s)
  finish_touch vacant s = (Response.not_found, count C touch_misses 1 s)

  unfoldable pub touch : Bytes → ℤ → Store C → Response × Store C
  unfolding touch_closure finish_touch
  touch key exptime s =
      let (token, s1) = next_cas C s in
      let s2 = count C cmd_touch 1 s1 in
      let e = C.entry (touch_closure exptime (now C s) (oldest_live C s) token) s2.items key tt in
      finish_touch e.result (settle C e.evicted e.cache s2)

  abbrev clear : Store C → Store C
  clear s = record s { items = C.clear s.items }

  unfoldable pub flush_delay : Option ℕ → Store C → Store C
  unfolding flush_all
  flush_delay none s = clear s
  flush_delay (some zero) s = clear s
  flush_delay (some (suc n)) s = flush_all C (suc n) s

  unfoldable pub flush : Option ℕ → Store C → Response × Store C
  unfolding flush_delay
  flush delay s = (Response.ok, flush_delay delay (count C cmd_flush 1 s))

  abbrev pub item_count : Store C → ℕ
  item_count s = C.len s.items

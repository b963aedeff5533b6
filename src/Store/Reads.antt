-- ===== src/Store/Reads.antt =====
-- src/store.rs: `Store::get` and `Store::get_and_touch`.
use ousagi.Commands.{Value, Response}
use ousagi.Prelude.{
  ℕ, Bool, Option, none, some, List, [], ◌∷◌, ◌++◌, Bytes, length, ℤ, if◌then◌else◌,
}
use ousagi.Stats.{cmd_get, get_hits, get_misses, get_expired}
use ousagi.Store.Cache.{Cache, retain, remove, EntryResult, retained, removed, vacant, Closure}
use ousagi.Store.Inner.{Store, now, oldest_live, count, settle}
use ousagi.Store.Items.{Item, is_expired, resolve_expiry, add_u64}

-- Flags, data and cas token of an item that is live.
abbrev pub Read : Type 0
Read = ℕ × Bytes × ℕ

abbrev pub read_item : Item → Read
read_item item = (item.flags, item.payload, item.cas)

unfoldable pub read_closure : ℕ → Option ℕ → Closure (Unit {0}) Read
unfolding is_expired
read_closure now oldest_live item u =
    if is_expired item now oldest_live
    then (item, remove, u)
    else (item, retain (read_item item), u)

-- The closure of `get_and_touch` draws a cas token, from the counter that it captures.
unfoldable pub touch_read_closure : ℤ → ℕ → Option ℕ → Closure ℕ Read
unfolding is_expired resolve_expiry
touch_read_closure exptime now oldest_live item next_cas =
    if is_expired item now oldest_live
    then (item, remove, next_cas)
    else (let touched = record item { expires_at = resolve_expiry exptime now; cas = next_cas } in
        (touched, retain (read_item touched), add_u64 next_cas 1))

-- The value of a hit.
abbrev pub value_of : Bool → Bytes → Read → Value
value_of with_cas key (flags, payload, cas) =
    (key, flags, payload, if with_cas then some cas else none)

module _ (C : Cache) where
  -- The `match` on the result of the entry: the values so far, and the counters.
  unfoldable pub record_read :
      Bool → Bytes → EntryResult Read → List Value → Store C → List Value × Store C
  record_read with_cas key (retained r) values s =
      (values ++ value_of with_cas key r ∷ [], count C get_hits 1 s)
  record_read with_cas key (removed _ _) values s =
      (values, count C get_misses 1 (count C get_expired 1 s))
  record_read with_cas key vacant values s = (values, count C get_misses 1 s)

  -- One round of the loop of `get`.
  unfoldable pub get_key : Bool → ℕ → Option ℕ → Bytes → List Value → Store C → List Value × Store C
  unfolding read_closure record_read
  get_key with_cas now oldest_live key values s =
      let e = C.entry (read_closure now oldest_live) s.items key tt in
      record_read with_cas key e.result values (settle C e.evicted e.cache s)

  unfoldable pub get_keys :
      Bool → ℕ → Option ℕ → List Bytes → List Value → Store C → List Value × Store C
  unfolding get_key
  get_keys with_cas now oldest_live [] values s = (values, s)
  get_keys with_cas now oldest_live (key ∷ keys) values s =
      let (values', s') = get_key with_cas now oldest_live key values s in
      get_keys with_cas now oldest_live keys values' s'

  unfoldable pub get : List Bytes → Bool → Store C → Response × Store C
  unfolding get_keys
  get keys with_cas s =
      let (values, s') =
        get_keys with_cas (now C s) (oldest_live C s) keys [] (count C cmd_get (length keys) s) in
      (Response.values values, s')

  -- One round of the loop of `get_and_touch`.
  unfoldable pub touch_key :
      Bool → ℤ → ℕ → Option ℕ → Bytes → List Value → Store C → List Value × Store C
  unfolding touch_read_closure record_read
  touch_key with_cas exptime now oldest_live key values s =
      let e = C.entry (touch_read_closure exptime now oldest_live) s.items key s.next_cas in
      record_read with_cas key e.result values
        (record (settle C e.evicted e.cache s) { next_cas = e.captured })

  unfoldable pub touch_keys :
      Bool → ℤ → ℕ → Option ℕ → List Bytes → List Value → Store C → List Value × Store C
  unfolding touch_key
  touch_keys with_cas exptime now oldest_live [] values s = (values, s)
  touch_keys with_cas exptime now oldest_live (key ∷ keys) values s =
      let (values', s') = touch_key with_cas exptime now oldest_live key values s in
      touch_keys with_cas exptime now oldest_live keys values' s'

  -- It counts its keys under `cmd_get`, and its hits and misses under those of `get`.
  unfoldable pub get_and_touch : List Bytes → ℤ → Bool → Store C → Response × Store C
  unfolding touch_keys
  get_and_touch keys exptime with_cas s =
      let (values, s') =
        touch_keys with_cas exptime (now C s) (oldest_live C s) keys []
          (count C cmd_get (length keys) s) in
      (Response.values values, s')

-- ===== src/Store/ReadTokens.antt =====
-- `get` and `get_and_touch` draw new tokens only.
use ousagi.Commands.{Value}
use ousagi.Prelude.{
  ℕ, ◌+◌, ◌^◌, ◌≤◌, ◌<◌, ◌≡◌, refl, ◌⊎◌, inl, Bool, Option, none, some, List, [], ◌∷◌, Bytes,
  length, ℤ, arith,
}
use ousagi.Stats.{cmd_get}
use ousagi.Store.Cache.{Cache, EntryResult, retained, removed, vacant, run_entry}
use ousagi.Store.Inner.{Store, count, settle, cutoff}
use ousagi.Store.Items.{Item}
use ousagi.Store.Reads.{
  Read, read_closure, touch_read_closure, record_read, get_key, get_keys, get, touch_key,
  touch_keys, get_and_touch,
}
use ousagi.Store.Versions.{Advances, Advances-trans, Advances-same, entry-Advances}

-- A closure of `get_and_touch` draws the token `c` if it changes the item, and none otherwise.
touch_read-tokens :
    (exptime : ℤ) (now : ℕ) (oldest_live : Option ℕ) (key : Bytes) (c : ℕ) (o : Option Item)
    → c + 1 < 2 ^ 64
    → (c ≤ (run_entry (touch_read_closure exptime now oldest_live) o key c).1)
      × ((run_entry (touch_read_closure exptime now oldest_live) o key c).1 ≤ c + 1)
      × ((i : Item)
          → o ≡ some i
          → ((touch_read_closure exptime now oldest_live i c).0 ≡ i)
            ⊎ ((c ≤ (touch_read_closure exptime now oldest_live i c).0.cas)
                × ((touch_read_closure exptime now oldest_live i c).0.cas
                    < (run_entry (touch_read_closure exptime now oldest_live) o key c).1)))
unfolding touch_read_closure
touch_read-tokens exptime now oldest_live key c none fits = (omega arith, omega arith, λ i h. cc)
touch_read-tokens exptime now oldest_live key c (some j) fits =
    (ground arith, ground arith, λ i h. ground arith)

module _ (C : Cache) where
  -- Recording a result changes neither the items nor the next token.
  pub record_read-same :
      (with_cas : Bool) (key : Bytes) (r : EntryResult Read) (values : List Value) (s : Store C)
      → ((record_read C with_cas key r values s).1.items ≡ s.items)
        × ((record_read C with_cas key r values s).1.next_cas ≡ s.next_cas)
  unfolding record_read
  record_read-same with_cas key (retained r) values s = (refl, refl)
  record_read-same with_cas key (removed _ _) values s = (refl, refl)
  record_read-same with_cas key vacant values s = (refl, refl)

  pub get_key-Advances :
      (with_cas : Bool) (now : ℕ) (oldest_live : Option ℕ) (key : Bytes) (values : List Value)
      (s : Store C)
      → Advances C s (get_key C with_cas now oldest_live key values s).1
  unfolding get_key
  get_key-Advances with_cas now oldest_live key values s =
      let e = C.entry (read_closure now oldest_live) s.items key tt in
      let same = record_read-same with_cas key e.result values (settle C e.evicted e.cache s) in
      entry-Advances C (read_closure now oldest_live) key tt s _ same.0 (omega (arith, same.1))
        λ i _. inl (unfold read_closure in ground arith)

  get_keys-Advances :
      (with_cas : Bool) (now : ℕ) (oldest_live : Option ℕ) (keys : List Bytes) (values : List Value)
      (s : Store C)
      → Advances C s (get_keys C with_cas now oldest_live keys values s).1
  unfolding get_keys
  get_keys-Advances with_cas now oldest_live [] values s = Advances-same C s s refl (omega arith)
  get_keys-Advances with_cas now oldest_live (key ∷ keys) values s =
      let (values', s') = get_key C with_cas now oldest_live key values s in
      Advances-trans C (get_key-Advances with_cas now oldest_live key values s)
        (get_keys-Advances with_cas now oldest_live keys values' s')

  -- A hit of `get_and_touch` draws the one token of its round.
  pub touch_key-Advances :
      (with_cas : Bool) (exptime : ℤ) (now : ℕ) (oldest_live : Option ℕ) (key : Bytes)
      (values : List Value) (s : Store C)
      → s.next_cas + 1 < 2 ^ 64
      → Advances C s (touch_key C with_cas exptime now oldest_live key values s).1
        × ((touch_key C with_cas exptime now oldest_live key values s).1.next_cas ≤ s.next_cas + 1)
  unfolding touch_key
  touch_key-Advances with_cas exptime now oldest_live key values s fits =
      let f = touch_read_closure exptime now oldest_live in
      let e = C.entry f s.items key s.next_cas in
      let moved = record (settle C e.evicted e.cache s) { next_cas = e.captured } in
      let same = record_read-same with_cas key e.result values moved in
      let drawn = C.entry-captured f s.items key s.next_cas in
      let (lo, hi, made) =
        touch_read-tokens exptime now oldest_live key s.next_cas (C.find s.items key) fits in
      (
        entry-Advances C f key s.next_cas s _ same.0 (omega (arith, same.1, drawn))
            λ i found. rw (same.1, drawn) (made i found),
        omega (arith, same.1, drawn),
      )

  touch_keys-Advances :
      (with_cas : Bool) (exptime : ℤ) (now : ℕ) (oldest_live : Option ℕ) (keys : List Bytes)
      (values : List Value) (s : Store C)
      → s.next_cas + length keys < 2 ^ 64
      → Advances C s (touch_keys C with_cas exptime now oldest_live keys values s).1
        × ((touch_keys C with_cas exptime now oldest_live keys values s).1.next_cas
            ≤ s.next_cas + length keys)
  unfolding touch_keys
  touch_keys-Advances with_cas exptime now oldest_live [] values s fits =
      (Advances-same C s s refl (omega arith), omega arith)
  touch_keys-Advances with_cas exptime now oldest_live (key ∷ keys) values s fits =
      let (values', s') = touch_key C with_cas exptime now oldest_live key values s in
      let (one, le) =
        touch_key-Advances with_cas exptime now oldest_live key values s (omega arith) in
      let (rest, le') =
        touch_keys-Advances with_cas exptime now oldest_live keys values' s' (omega arith) in
      (Advances-trans C one rest, omega arith)

  pub get-Advances :
      (keys : List Bytes) (with_cas : Bool) (s : Store C) → Advances C s (get C keys with_cas s).1
  unfolding get
  get-Advances keys with_cas s =
      let counted = count C cmd_get (length keys) s in
      Advances-trans C (Advances-same C s counted refl (omega arith))
        (get_keys-Advances with_cas s.shared_clock (cutoff s.oldest_live) keys [] counted)

  pub get_and_touch-Advances :
      (keys : List Bytes) (exptime : ℤ) (with_cas : Bool) (s : Store C)
      → s.next_cas + length keys < 2 ^ 64
      → Advances C s (get_and_touch C keys exptime with_cas s).1
        × ((get_and_touch C keys exptime with_cas s).1.next_cas ≤ s.next_cas + length keys)
  unfolding get_and_touch
  get_and_touch-Advances keys exptime with_cas s fits =
      let counted = count C cmd_get (length keys) s in
      let (rest, le) =
        touch_keys-Advances with_cas exptime s.shared_clock (cutoff s.oldest_live) keys [] counted
          fits in
      (Advances-trans C (Advances-same C s counted refl (omega arith)) rest, le)

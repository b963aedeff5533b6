-- ===== src/Store/Hits.antt =====
-- What `Store::get` answers: the live items of its keys, in order.
use ousagi.Commands.{Value, Response}
use mathlib.Core.List.{append-nil, append_assoc}
use mathlib.Core.Path.{fun_ext}
use ousagi.Prelude.{
  ℕ, ◌+◌, ◌≤◌, ◌≡◌, refl, sym, ap, ◌∙◌, inl, inr, Bool, Option, none, some, List, [], ◌∷◌, ◌++◌,
  Bytes, length, All, All-append, arith,
}
use ousagi.Stats.{evictions, cmd_get, add}
use ousagi.Store.Cache.{Cache, EntryResult, retained, removed, vacant, run_entry, Settles, updated}
use ousagi.Store.Inner.{Store, count, settle, cutoff}
use ousagi.Store.Items.{Item}
use ousagi.Store.Reads.{
  Read, read_item, value_of, read_closure, record_read, get_key, get_keys, get,
}
use ousagi.Store.ReadTokens.{record_read-same}
use ousagi.Store.View.{
  evicted_so_far, on_evict-evictions, length-zero, live, live-updated, live-Settles, updated_self,
  view,
}

abbrev hit : Bool → Bytes → Option Item → List Value
hit with_cas key none = []
hit with_cas key (some i) = value_of with_cas key (read_item i) ∷ []

-- The values of the keys at which something is seen, in the order of the keys.
abbrev pub hits : Bool → (Bytes → Option Item) → List Bytes → List Value
hits with_cas seen [] = []
hits with_cas seen (key ∷ keys) = hit with_cas key (seen key) ++ hits with_cas seen keys

Settles-trans : {a b c : Option Item} → Settles a b → Settles b c → Settles a c
Settles-trans (inl gone) k = inl gone
Settles-trans (inr kept) (inl gone) = inl (kept ∙ gone)
Settles-trans (inr kept) (inr kept') = inr (kept ∙ kept')

-- A value that is answered is that of an item seen under its key.
abbrev pub IsSeen : Bool → (Bytes → Option Item) → Value → Type 0
IsSeen with_cas see v = (i : Item) × (see v.0 ≡ some i) × (v ≡ value_of with_cas v.0 (read_item i))

module _ (C : Cache) (with_cas : Bool) (now : ℕ) (oldest_live : Option ℕ) where
  abbrev seen : Store C → Bytes → Option Item
  seen s j = live now oldest_live (C.find s.items j)

  pub record_read-evictions :
      (key : Bytes) (r : EntryResult Read) (values : List Value) (t : Store C)
      → (record_read C with_cas key r values t).1.stats evictions ≡ t.stats evictions
  unfolding record_read add
  record_read-evictions key (retained _) values t = refl
  record_read-evictions key (removed _ _) values t = refl
  record_read-evictions key vacant values t = refl

  read_value :
      (key : Bytes) (o : Option Item) (values : List Value) (t : Store C)
      → (record_read C with_cas key
          (run_entry (read_closure now oldest_live) o key tt).0
          values
          t).0
        ≡ values ++ hit with_cas key (live now oldest_live o)
  unfolding record_read read_closure
  read_value key none values t = rw append-nil
  read_value key (some i) values t = ground (arith, append-nil values)

  read_kept :
      (key : Bytes) (o : Option Item)
      → live now oldest_live (run_entry (read_closure now oldest_live) o key tt).2
        ≡ live now oldest_live o
  unfolding read_closure
  read_kept key o = ground arith

  -- The evictions of one round, and what it answers.
  get_key-value :
      (key : Bytes) (values : List Value) (s : Store C)
      → (get_key C with_cas now oldest_live key values s).0
        ≡ values ++ hit with_cas key (seen s key)
  unfolding get_key
  get_key-value key values s =
      let e = C.entry (read_closure now oldest_live) s.items key tt in
      ap (λ r. (record_read C with_cas key r values (settle C e.evicted e.cache s)).0)
        (C.entry-result (read_closure now oldest_live) s.items key tt)
      ∙ read_value key (C.find s.items key) values _

  get_key-evictions :
      (key : Bytes) (values : List Value) (s : Store C)
      → (get_key C with_cas now oldest_live key values s).1.stats evictions
        ≡ s.stats evictions + length (C.entry (read_closure now oldest_live) s.items key tt).evicted
  unfolding get_key
  get_key-evictions key values s = record_read-evictions key _ values _ ∙ on_evict-evictions _ _

  -- Following the closure changes nothing that is seen.
  seen_same :
      (key : Bytes) (find : Bytes → Option Item) (j : Bytes)
      → live now oldest_live
          (updated key (run_entry (read_closure now oldest_live) (find key) key tt).2 find j)
        ≡ live now oldest_live (find j)
  seen_same key find j =
      live-updated now oldest_live key _ find j
      ∙ rw (read_kept key (find key)) (updated_self key (λ i. live now oldest_live (find i)) j)

  get_key-items :
      (key : Bytes) (values : List Value) (s : Store C)
      → (get_key C with_cas now oldest_live key values s).1.items
        ≡ (C.entry (read_closure now oldest_live) s.items key tt).cache
  unfolding get_key
  get_key-items key values s = (record_read-same C with_cas key _ values _).0

  get_key-seen :
      (key : Bytes) (values : List Value) (s : Store C) (j : Bytes)
      → Settles (seen (get_key C with_cas now oldest_live key values s).1 j) (seen s j)
  get_key-seen key values s j =
      rw (get_key-items key values s, ← seen_same key (C.find s.items) j)
        (live-Settles now oldest_live
          (C.find-entry (read_closure now oldest_live) s.items key tt j))

  get_key-seen_kept :
      (key : Bytes) (values : List Value) (s : Store C)
      → (C.entry (read_closure now oldest_live) s.items key tt).evicted ≡ []
      → (j : Bytes) → seen (get_key C with_cas now oldest_live key values s).1 j ≡ seen s j
  get_key-seen_kept key values s h j =
      ap (λ items. live now oldest_live (C.find items j)) (get_key-items key values s)
      ∙ ap (live now oldest_live)
          (C.find-entry_kept (read_closure now oldest_live) s.items key tt j h)
      ∙ seen_same key (C.find s.items) j

  get_keys-evictions :
      (keys : List Bytes) (values : List Value) (s : Store C)
      → s.stats evictions ≤ (get_keys C with_cas now oldest_live keys values s).1.stats evictions
  unfolding get_keys
  get_keys-evictions [] values s = omega arith
  get_keys-evictions (key ∷ keys) values s =
      let (values', s') = get_key C with_cas now oldest_live key values s in
      omega (arith, get_keys-evictions keys values' s', get_key-evictions key values s)

  -- With no eviction on the way the loop answers the hits of all its keys.
  get_keys-hits :
      (keys : List Bytes) (values : List Value) (s : Store C)
      → (get_keys C with_cas now oldest_live keys values s).1.stats evictions ≡ s.stats evictions
      → (get_keys C with_cas now oldest_live keys values s).0
        ≡ values ++ hits with_cas (seen s) keys
  unfolding get_keys
  get_keys-hits [] values s h = sym (append-nil values)
  get_keys-hits (key ∷ keys) values s h =
      let (values', s') = get_key C with_cas now oldest_live key values s in
      let evicted = (C.entry (read_closure now oldest_live) s.items key tt).evicted in
      let none_here : length evicted ≡ 0 =
        omega (arith, h, get_keys-evictions keys values' s', get_key-evictions key values s) in
      let none_later : (get_keys C with_cas now oldest_live keys values' s').1.stats evictions
          ≡ s'.stats evictions =
        omega (arith, h, get_keys-evictions keys values' s', get_key-evictions key values s) in
      let same = fun_ext (get_key-seen_kept key values s (length-zero evicted none_here)) in
      get_keys-hits keys values' s' none_later
      ∙ rw (same, get_key-value key values s)
          (append_assoc values (hit with_cas key (seen s key)) (hits with_cas (seen s) keys))

  hit-IsSeen :
      (see : Bytes → Option Item) (key : Bytes) (o : Option Item)
      → Settles o (see key)
      → All (IsSeen with_cas see) (hit with_cas key o)
  hit-IsSeen see key none h = tt
  hit-IsSeen see key (some i) (inl gone) = cc
  hit-IsSeen see key (some i) (inr kept) = ((i, sym kept, refl), tt)

  get_keys-IsSeen :
      (see : Bytes → Option Item) (keys : List Bytes) (values : List Value) (s : Store C)
      → ((j : Bytes) → Settles (seen s j) (see j))
      → All (IsSeen with_cas see) values
      → All (IsSeen with_cas see) (get_keys C with_cas now oldest_live keys values s).0
  unfolding get_keys
  get_keys-IsSeen see [] values s h seen_values = seen_values
  get_keys-IsSeen see (key ∷ keys) values s h seen_values =
      let (values', s') = get_key C with_cas now oldest_live key values s in
      get_keys-IsSeen see keys values' s' (λ j. Settles-trans (get_key-seen key values s j) (h j))
        (rw (get_key-value key values s) (
          All-append (IsSeen with_cas see) values (hit with_cas key (seen s key)) seen_values
            (hit-IsSeen see key (seen s key) (h key))))

module _ (C : Cache) where
  -- If no eviction was counted during a `get`, it answers the values of its keys that have a live
  -- item, in the order of the keys, with the cas tokens exactly if these are asked for.
  pub get-hits :
      (keys : List Bytes) (with_cas : Bool) (s : Store C)
      → evicted_so_far (get C keys with_cas s).1.stats ≡ evicted_so_far s.stats
      → (get C keys with_cas s).0 ≡ Response.values (hits with_cas (view C s) keys)
  unfolding get
  get-hits keys with_cas s h = ap Response.values (
      get_keys-hits C with_cas s.shared_clock (cutoff s.oldest_live) keys []
        (count C cmd_get (length keys) s) (unfold add in h))

  -- Whatever is evicted, `get` answers values, and each is the value of an item that was live
  -- under its key before.
  pub get-IsSeen :
      (keys : List Bytes) (with_cas : Bool) (s : Store C)
      → (vs : List Value) × ((get C keys with_cas s).0 ≡ Response.values vs)
        × All (IsSeen with_cas (view C s)) vs
  unfolding get
  get-IsSeen keys with_cas s =
      let counted = count C cmd_get (length keys) s in
      let now = s.shared_clock in
      (
        _,
        refl,
        get_keys-IsSeen C with_cas now (cutoff s.oldest_live) (view C s) keys [] counted
            (λ j. inr refl) tt,
      )

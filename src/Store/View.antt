-- ===== src/Store/View.antt =====
-- What a client can see of the store: the live item under each key. An operation of src/store.rs
-- implements an outcome on the item under its key and leaves the other keys alone, up to evictions.
use ousagi.Commands.{Response}
use ousagi.Prelude.{
  ◌+◌, length, ◌∷◌, ℕ, ◌≡◌, refl, sym, ap, ◌∙◌, inl, inr, Bool, true, Option, none, some, List, [],
  Bytes, bytes_eq, bytes_eq_iff, arith, if◌then◌else◌, Bool-cases,
}
use ousagi.Store.Cache.{Cache, EntryResult, Closure, run_entry, Settles, updated}
use ousagi.Stats.{Stats, evictions, add}
use ousagi.Store.Inner.{Store, cutoff, settle, on_evict}
use ousagi.Store.Items.{Item, is_expired}

abbrev pub live : ℕ → Option ℕ → Option Item → Option Item
live now oldest_live none = none
live now oldest_live (some i) = if is_expired i now oldest_live then none else some i

pub live-updated :
    (now : ℕ) (oldest_live : Option ℕ) (k : Bytes) (o : Option Item) (find : Bytes → Option Item)
    (j : Bytes)
    → live now oldest_live (updated k o find j)
      ≡ updated k (live now oldest_live o) (λ j. live now oldest_live (find j)) j
live-updated now oldest_live k o find j = elim (Bool-cases (bytes_eq k j)) [
  | inl same ↦ rw same
  | inr other ↦ rw other
]

pub live-Settles :
    (now : ℕ) (oldest_live : Option ℕ) {found expected : Option Item}
    → Settles found expected
    → Settles (live now oldest_live found) (live now oldest_live expected)
live-Settles now oldest_live (inl gone) = inl (rw gone)
live-Settles now oldest_live (inr kept) = inr (ap (live now oldest_live) kept)

live-live :
    (now : ℕ) (oldest_live : Option ℕ) (o : Option Item)
    → live now oldest_live (live now oldest_live o) ≡ live now oldest_live o
live-live now oldest_live o = ground arith

pub updated_self :
    (k : Bytes) (find : Bytes → Option Item) (j : Bytes) → updated k (find k) find j ≡ find j
updated_self k find j = elim (Bool-cases (bytes_eq k j)) [
  | inl same ↦ rw same (ap find ((bytes_eq_iff k j).0 same))
  | inr other ↦ rw other
]

-- A second write under the same key, after a first that may have evicted.
pub Settles-again :
    {found : Option Item} (k : Bytes) (o o' : Option Item) (find find' : Bytes → Option Item)
    (j : Bytes)
    → Settles found (updated k o find j)
    → Settles (find j) (updated k o' find' j)
    → Settles found (updated k o find' j)
Settles-again k o o' find find' j h h' = ground arith

-- The number of evictions that were counted.
abbrev pub evicted_so_far : Stats → ℕ
evicted_so_far st = st evictions

pub on_evict-evictions :
    (l : List (Bytes × Item)) (st : Stats) → on_evict l st evictions ≡ st evictions + length l
unfolding on_evict add
on_evict-evictions [] st = omega arith
on_evict-evictions (x ∷ l) st = omega (arith, on_evict-evictions l (add evictions 1 st))

pub length-zero {ℓ} : {A : Type ℓ} (l : List A) → length l ≡ 0 → l ≡ []
length-zero [] h = refl
length-zero (x ∷ l) h = absurd (omega arith)

pub none_evicted :
    (l : List (Bytes × Item)) (st : Stats) → on_evict l st evictions ≡ st evictions → l ≡ []
none_evicted l st h = length-zero l (omega (arith, h, on_evict-evictions l st))

-- A guard that is accepted, after a call that left other keys as they were.
pub updated_again :
    (accepted : Bool) (k : Bytes) (i : Item) (o : Option Item) (find find' : Bytes → Option Item)
    (j : Bytes)
    → accepted ≡ true
    → find j ≡ updated k o find' j
    → updated k (if accepted then some i else none) find j ≡ updated k (some i) find' j
updated_again accepted k i o find find' j h h' = ground arith

module _ (C : Cache) where
  abbrev pub view : Store C → Bytes → Option Item
  view s k = live s.shared_clock (cutoff s.oldest_live) (C.find s.items k)

  abbrev pub live_at : Store C → Option Item → Option Item
  live_at s = live s.shared_clock (cutoff s.oldest_live)

  -- The response is the expected one, the key has the expected item as far as that is live, and
  -- every other key has what it had; any of the items may have been evicted instead, but none is
  -- missing if no eviction was counted.
  pub record Implements (key : Bytes) (s : Store C) (out : Response × Store C)
      (expected : Response × Option Item) : Type 0 where
    pub answers : out.0 ≡ expected.0
    pub views : (j : Bytes) → Settles (view out.1 j) (updated key (live_at s expected.1) (view s) j)
    pub keeps :
        evicted_so_far out.1.stats ≡ evicted_so_far s.stats
        → (j : Bytes) → view out.1 j ≡ updated key (live_at s expected.1) (view s) j

  -- What is seen stays, and no eviction is counted.
  abbrev pub Quiet : Store C → Store C → Type 0
  Quiet t u =
      ((j : Bytes) → view u j ≡ view t j) × (evicted_so_far u.stats ≡ evicted_so_far t.stats)

  pub Settles-view :
      (key : Bytes) (s t : Store C) (o o' : Option Item)
      → t.shared_clock ≡ s.shared_clock
      → t.oldest_live ≡ s.oldest_live
      → live_at s o ≡ live_at s o'
      → (j : Bytes) → Settles (C.find t.items j) (updated key o (C.find s.items) j)
      → Settles (view t j) (updated key (live_at s o') (view s) j)
  Settles-view key s t o o' clock oldest same j h =
      rw
        (
          clock,
          oldest,
          ← same,
          ← live-updated s.shared_clock (cutoff s.oldest_live) key o (C.find s.items) j,
        )
        (live-Settles s.shared_clock (cutoff s.oldest_live) h)

  pub kept-view :
      (key : Bytes) (s t : Store C) (o o' : Option Item)
      → t.shared_clock ≡ s.shared_clock
      → t.oldest_live ≡ s.oldest_live
      → live_at s o ≡ live_at s o'
      → (j : Bytes) → C.find t.items j ≡ updated key o (C.find s.items) j
      → view t j ≡ updated key (live_at s o') (view s) j
  kept-view key s t o o' clock oldest same j h =
      rw
        (
          clock,
          oldest,
          ← same,
          ← live-updated s.shared_clock (cutoff s.oldest_live) key o (C.find s.items) j,
        )
        (ap (live s.shared_clock (cutoff s.oldest_live)) h)

  -- Keeping what is seen under a key is no change.
  pub unchanged :
      (key : Bytes) (s : Store C) (j : Bytes)
      → updated key (live_at s (view s key)) (view s) j ≡ view s j
  unchanged key s j =
      rw (live-live s.shared_clock (cutoff s.oldest_live) (C.find s.items key))
        (updated_self key (view s) j)

  -- An operation that is one entry call, with its result handed to `finish`.
  pub entry-Implements :
      {T : Type 0} (f : Closure (Unit {0}) T) (key : Bytes) (s : Store C)
      (finish : EntryResult T → Store C → Response × Store C) (expected : Response × Option Item)
      → ((t : Store C) → Quiet t (finish (run_entry f (C.find s.items key) key tt).0 t).1)
      → ((t : Store C) → (finish (run_entry f (C.find s.items key) key tt).0 t).0 ≡ expected.0)
      → live_at s (run_entry f (C.find s.items key) key tt).2 ≡ live_at s expected.1
      → Implements key s
          (let e = C.entry f s.items key tt in finish e.result (settle C e.evicted e.cache s))
          expected
  entry-Implements f key s finish expected quiet answer item =
      let e = C.entry f s.items key tt in
      let t = settle C e.evicted e.cache s in
      let quiet_t : Quiet t (finish e.result t).1 =
        rw (C.entry-result f s.items key tt) (quiet t) in
      record {
        answers = ap (λ r. (finish r t).0) (C.entry-result f s.items key tt) ∙ answer t;
        views = λ j.
            rw (quiet_t.0 j) (
              Settles-view key s t _ expected.1 refl refl item j (C.find-entry f s.items key tt j));
        keeps = λ same j.
            quiet_t.0 j
            ∙ kept-view key s t _ expected.1 refl refl item j (
                C.find-entry_kept f s.items key tt j
                  (none_evicted e.evicted s.stats (sym quiet_t.1 ∙ same)));
      }

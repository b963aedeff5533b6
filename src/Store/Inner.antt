-- ===== src/Store/Inner.antt =====
-- src/store.rs: `StoreInner`. The clock and the counters are shared with the rest of the program;
-- they stand in the store's state, since its methods read the one and change the others.
use ousagi.Clock
use ousagi.Clock.{Clock}
use ousagi.Prelude.{ℕ, zero, suc, Option, none, some, List, [], ◌∷◌, Bytes}
use ousagi.Stats.{Counter, evictions, Stats, new_stats, add}
use ousagi.Store.Cache.{Cache}
use ousagi.Store.Items.{Item, weight, add_u64}

-- `ItemLifecycle::on_evict`, for each item that is evicted.
unfoldable pub on_evict : List (Bytes × Item) → Stats → Stats
unfolding add
on_evict [] st = st
on_evict (_ ∷ rest) st = on_evict rest (add evictions 1 st)

-- The cutoff of a delayed flush; 0 stands for none.
abbrev pub cutoff : ℕ → Option ℕ
cutoff zero = none
cutoff (suc n) = some (suc n)

module _ (C : Cache) where
  pub record Store : Type 0 where
    pub items : C.State
    pub next_cas : ℕ
    pub oldest_live : ℕ
    pub shared_clock : Clock
    pub stats : Stats

  unfoldable pub new_store : Clock → ℕ → Store
  unfolding weight
  new_store shared_clock memory_limit_bytes = record {
    items = C.with_options memory_limit_bytes weight;
    next_cas = 1;
    oldest_live = 0;
    shared_clock = shared_clock;
    stats = new_stats;
  }

  abbrev pub now : Store → ℕ
  now s = Clock.now s.shared_clock

  abbrev pub oldest_live : Store → Option ℕ
  oldest_live s = cutoff s.oldest_live

  -- `fetch_add`, which wraps.
  abbrev pub next_cas : Store → ℕ × Store
  next_cas s = (s.next_cas, record s { next_cas = add_u64 s.next_cas 1 })

  unfoldable pub flush_all : ℕ → Store → Store
  flush_all delay_secs s = record s { oldest_live = add_u64 s.shared_clock delay_secs }

  abbrev pub count : Counter → ℕ → Store → Store
  count c n s = record s { stats = add c n s.stats }

  -- The state after a call on the cache that evicted some items.
  abbrev pub settle : List (Bytes × Item) → C.State → Store → Store
  settle evicted items s = record s { items = items; stats = on_evict evicted s.stats }

-- ===== src/Store/Books.antt =====
-- The counters of src/stats.rs add up: every command that is counted is a hit or a miss.
use ousagi.Commands.{StoreArgs, incr, decr, Value}
use ousagi.Prelude.{
  ℕ, suc, ◌+◌, ◌≤◌, ◌≡◌, Bool, true, false, Option, none, some, List, [], ◌∷◌, Bytes, String, ℤ,
  Result, ok, err, length, Bool-cases, inl, inr, arith,
}
use ousagi.Stats
use ousagi.Stats.{
  Stats, new_stats, evictions, cmd_set, cmd_get, cmd_flush, cmd_touch, cmd_incr, cmd_decr, get_hits,
  get_misses, get_expired, touch_hits, touch_misses, delete_misses, delete_hits, incr_hits,
  incr_misses, decr_hits, decr_misses, cas_hits, cas_misses, cas_badval, total_items,
}
use ousagi.Store.Cache.{Cache, EntryResult, retained, removed, vacant}
use ousagi.Store.Inner.{Store, on_evict}
use ousagi.Store.Items.{Item, is_expired}
use ousagi.Store.Reads.{
  Read, record_read, read_closure, touch_read_closure, get_key, get_keys, touch_key, touch_keys,
}
use ousagi.Store.Updates.{finish_arithmetic, finish_touch}
use ousagi.Store.Writes.{args_item, finish_add, finish_update, finish_cas, finish_delete}

-- Keys, touches, increments, decrements and storage commands that are counted and not yet settled.
abbrev pub Owed : Type 0
Owed = ℕ × ℕ × ℕ × ℕ × ℕ

abbrev pub Sums : Owed → Stats → Type 0
Sums (keys, touches, incrs, decrs, sets) st =
    (st cmd_get ≡ st get_hits + st get_misses + keys)
    × (st get_expired ≤ st get_misses + st delete_misses)
    × (st cmd_touch ≡ st touch_hits + st touch_misses + touches)
    × (st incr_hits + st incr_misses + incrs ≤ st cmd_incr)
    × (st decr_hits + st decr_misses + decrs ≤ st cmd_decr)
    × (st cas_hits + st cas_misses + st cas_badval + sets ≤ st cmd_set)
    × (st total_items + sets ≤ st cmd_set)

pub record Books (owed : Owed) (st : Stats) : Type 0 where
  pub sums : Sums owed st

abbrev pub none_owed : Owed
none_owed = (0, 0, 0, 0, 0)

abbrev pub keys_owed : ℕ → Owed
keys_owed n = (n, 0, 0, 0, 0)

abbrev pub touch_owed : Owed
touch_owed = (0, 1, 0, 0, 0)

abbrev pub incr_owed : Owed
incr_owed = (0, 0, 1, 0, 0)

abbrev pub decr_owed : Owed
decr_owed = (0, 0, 0, 1, 0)

abbrev pub set_owed : Owed
set_owed = (0, 0, 0, 0, 1)

-- The books of a store between commands.
abbrev pub Balanced : Stats → Type 0
Balanced st = Books none_owed st

pub on_evict-Books :
    (owed : Owed) (l : List (Bytes × Item)) (st : Stats)
    → Books owed st
    → Books owed (on_evict l st)
unfolding on_evict Stats.add
on_evict-Books owed [] st h = h
on_evict-Books owed (_ ∷ l) st h =
    on_evict-Books owed l (Stats.add evictions 1 st) (record { sums = h.sums })

module _ (C : Cache) where
  record_read-Books :
      (with_cas : Bool) (key : Bytes) (r : EntryResult Read) (values : List Value) (s : Store C)
      (n : ℕ)
      → Books (keys_owed (suc n)) s.stats
      → Books (keys_owed n) (record_read C with_cas key r values s).1.stats
  unfolding record_read Stats.add
  record_read-Books with_cas key (retained _) values s n h = record {
    sums = ground (arith, h.sums);
  }
  record_read-Books with_cas key (removed _ _) values s n h = record {
    sums = ground (arith, h.sums);
  }
  record_read-Books with_cas key vacant values s n h = record { sums = ground (arith, h.sums) }

  pub get_keys-Books :
      (with_cas : Bool) (now : ℕ) (point : Option ℕ) (keys : List Bytes) (values : List Value)
      (s : Store C)
      → Books (keys_owed (length keys)) s.stats
      → Balanced (get_keys C with_cas now point keys values s).1.stats
  unfolding get_keys get_key
  get_keys-Books with_cas now point [] values s h = h
  get_keys-Books with_cas now point (key ∷ keys) values s h =
      get_keys-Books with_cas now point keys _ _ (
        record_read-Books with_cas key _ values _ (length keys) (
          on_evict-Books (keys_owed (suc (length keys)))
            (C.entry (read_closure now point) s.items key tt).evicted s.stats h))

  pub touch_keys-Books :
      (with_cas : Bool) (exptime : ℤ) (now : ℕ) (point : Option ℕ) (keys : List Bytes)
      (values : List Value) (s : Store C)
      → Books (keys_owed (length keys)) s.stats
      → Balanced (touch_keys C with_cas exptime now point keys values s).1.stats
  unfolding touch_keys touch_key
  touch_keys-Books with_cas exptime now point [] values s h = h
  touch_keys-Books with_cas exptime now point (key ∷ keys) values s h =
      touch_keys-Books with_cas exptime now point keys _ _ (
        record_read-Books with_cas key _ values _ (length keys) (
          on_evict-Books (keys_owed (suc (length keys)))
            (C.entry (touch_read_closure exptime now point) s.items key s.next_cas).evicted s.stats
            h))

  pub finish_add-Books :
      (args : StoreArgs) (now token : ℕ) (r : EntryResult Bool) (s : Store C)
      → Books set_owed s.stats
      → Balanced (finish_add C args now token r s).1.stats
  unfolding finish_add Stats.add
  finish_add-Books args now token (retained true) s h = record { sums = ground (arith, h.sums) }
  finish_add-Books args now token (retained false) s h = record { sums = ground (arith, h.sums) }
  finish_add-Books args now token (removed _ _) s h = record { sums = ground (arith, h.sums) }
  finish_add-Books args now token vacant s h =
      let guard = C.guard_insert s.items args.key (args_item args token now) in
      let settled = on_evict-Books set_owed guard.1 s.stats h in
      elim (Bool-cases guard.0) [
        | inl accepted ↦ rw accepted (record { sums = ground (arith, settled.sums) })
        | inr refused ↦ rw refused (record { sums = ground (arith, settled.sums) })
      ]

  pub finish_update-Books :
      (r : EntryResult (Unit {0})) (s : Store C)
      → Books set_owed s.stats
      → Balanced (finish_update C r s).1.stats
  unfolding finish_update Stats.add
  finish_update-Books (retained _) s h = record { sums = ground (arith, h.sums) }
  finish_update-Books (removed _ _) s h = record { sums = ground (arith, h.sums) }
  finish_update-Books vacant s h = record { sums = ground (arith, h.sums) }

  pub finish_cas-Books :
      (r : EntryResult Bool) (s : Store C)
      → Books set_owed s.stats
      → Balanced (finish_cas C r s).1.stats
  unfolding finish_cas Stats.add
  finish_cas-Books (retained true) s h = record { sums = ground (arith, h.sums) }
  finish_cas-Books (retained false) s h = record { sums = ground (arith, h.sums) }
  finish_cas-Books (removed _ _) s h = record { sums = ground (arith, h.sums) }
  finish_cas-Books vacant s h = record { sums = ground (arith, h.sums) }

  pub finish_incr-Books :
      (r : EntryResult (Result String ℕ)) (s : Store C)
      → Books incr_owed s.stats
      → Balanced (finish_arithmetic C incr r s).1.stats
  unfolding finish_arithmetic Stats.add
  finish_incr-Books (retained (ok _)) s h = record { sums = ground (arith, h.sums) }
  finish_incr-Books (retained (err _)) s h = record { sums = ground (arith, h.sums) }
  finish_incr-Books (removed _ _) s h = record { sums = ground (arith, h.sums) }
  finish_incr-Books vacant s h = record { sums = ground (arith, h.sums) }

  pub finish_decr-Books :
      (r : EntryResult (Result String ℕ)) (s : Store C)
      → Books decr_owed s.stats
      → Balanced (finish_arithmetic C decr r s).1.stats
  unfolding finish_arithmetic Stats.add
  finish_decr-Books (retained (ok _)) s h = record { sums = ground (arith, h.sums) }
  finish_decr-Books (retained (err _)) s h = record { sums = ground (arith, h.sums) }
  finish_decr-Books (removed _ _) s h = record { sums = ground (arith, h.sums) }
  finish_decr-Books vacant s h = record { sums = ground (arith, h.sums) }

  pub finish_touch-Books :
      (r : EntryResult (Unit {0})) (s : Store C)
      → Books touch_owed s.stats
      → Balanced (finish_touch C r s).1.stats
  unfolding finish_touch Stats.add
  finish_touch-Books (retained _) s h = record { sums = ground (arith, h.sums) }
  finish_touch-Books (removed _ _) s h = record { sums = ground (arith, h.sums) }
  finish_touch-Books vacant s h = record { sums = ground (arith, h.sums) }

  pub finish_delete-Books :
      (o : Option (Bytes × Item)) (now : ℕ) (point : Option ℕ) (s : Store C)
      → Balanced s.stats
      → Balanced (finish_delete C o now point s).1.stats
  unfolding finish_delete Stats.add
  finish_delete-Books none now point s h = record { sums = ground (arith, h.sums) }
  finish_delete-Books (some (_, i)) now point s h = elim (Bool-cases (is_expired i now point)) [
    | inl expired ↦ rw expired (record { sums = ground (arith, h.sums) })
    | inr alive ↦ rw alive (record { sums = ground (arith, h.sums) })
  ]

-- ===== src/Store/Expiry.antt =====
-- How long an item that `set` stores is live, as the clock goes on.
use ousagi.Commands.{StoreArgs, set}
use ousagi.Prelude.{
  ℕ, zero, suc, ◌+◌, ◌^◌, ◌<◌, ◌≡◌, refl, ◌∙◌, Bool, true, false, none, some, Bytes, ℤ, pos, negsuc,
  ltb, leb, arith, bytes_eq_iff, if◌then◌else◌,
}
use ousagi.Stats.{cmd_set, add}
use ousagi.Store.Cache.{Cache, updated}
use ousagi.Store.Inner.{Store}
use ousagi.Store.Items.{thirty_days_secs, resolve_expiry, new_item, is_expired}
use ousagi.Store.Traces.{set_clock}
use ousagi.Store.View.{evicted_so_far, none_evicted, live, view}
use ousagi.Store.Writes.{args_item, store_op, store}

-- Whether an item that was stored at `now` is live at `secs`: 0 is for ever, up to thirty days count
-- from `now`, more is a time of its own, and a negative number has passed.
abbrev pub lives : ℤ → ℕ → ℕ → Bool
lives (pos zero) now secs = true
lives (pos (suc n)) now secs =
    if leb (suc n) 2592000 then ltb secs (now + suc n) else ltb secs (suc n)
lives (negsuc n) now secs = false

live-lives :
    (payload : Bytes) (flags : ℕ) (exptime : ℤ) (token now secs : ℕ)
    → now + thirty_days_secs < 2 ^ 64
    → live secs none (some (new_item payload flags exptime token now))
      ≡ (if lives exptime now secs then some (new_item payload flags exptime token now) else none)
unfolding is_expired new_item resolve_expiry
live-lives payload flags (pos zero) token now secs h = refl
live-lives payload flags (pos (suc n)) token now secs h = ground (arith, h)
live-lives payload flags (negsuc n) token now secs h = ground arith

module _ (C : Cache) where
  -- If no delayed flush is set, the clock is more than thirty days below 2^64 and no eviction was
  -- counted during a `set`, then at any later or earlier time the key has the item that was
  -- stored if its expiry is 0, if it is at most thirty days and the time is before the time of
  -- the `set` and the expiry together, or if it is more and the time is before the expiry itself,
  -- and no live item otherwise.
  pub view-set_clock-store :
      (args : StoreArgs) (secs : ℕ) (s : Store C)
      → s.shared_clock + thirty_days_secs < 2 ^ 64
      → s.oldest_live ≡ 0
      → evicted_so_far (store C set args s).1.stats ≡ evicted_so_far s.stats
      → view C (set_clock C secs (store C set args s).1) args.key ≡ (
          if lives args.exptime s.shared_clock secs
          then some (args_item args s.next_cas s.shared_clock)
          else none)
  unfolding store store_op set_clock add
  view-set_clock-store args secs s fits unflushed same =
      let item = args_item args s.next_cas s.shared_clock in
      let kept =
        C.find-insert_kept s.items args.key item args.key
          (none_evicted (C.insert s.items args.key item).0 (add cmd_set 1 s.stats) same) in
      let here : updated args.key (some item) (C.find s.items) args.key ≡ some item =
        rw ((bytes_eq_iff args.key args.key).1 refl) refl in
      rw (unflushed, kept ∙ here)
        (live-lives args.payload args.flags args.exptime s.next_cas s.shared_clock secs fits)

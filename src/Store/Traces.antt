-- ===== src/Store/Traces.antt =====
-- Runs of the store: commands of any client, one at a time, and ticks of the clock (src/clock.rs).
use ousagi.Clock
use ousagi.Commands.{StoreArgs, cas, Command, stored}
use ousagi.Handler.{handle}
use ousagi.Prelude.{
  ℕ, ◌+◌, ◌^◌, ◌<◌, ◌≡◌, refl, sym, ◌∙◌, inl, inr, Bool, true, false, Option, none, some, Bytes,
  arith,
}
use ousagi.Store.Cache.{Cache, EntryResult, retained, removed, vacant, run_entry}
use ousagi.Store.Inner.{Store, new_store, settle, cutoff}
use ousagi.Store.Items.{Item, weight, is_expired}
use ousagi.Store.Tokens.{tokens, handle-Advances}
use ousagi.Store.Versions.{find_item, Advances, Advances-trans, Advances-same}
use ousagi.Store.Writes.{cas_closure, finish_cas, store_cas, store}

-- The closure of `cas` asks for a write only at a live item with the expected token.
run-cas :
    (args : StoreArgs) (now : ℕ) (oldest_live : Option ℕ) (new expected : ℕ) (o : Option Item)
    → (run_entry (cas_closure args now oldest_live new expected) o args.key tt).0 ≡ retained true
    → (i : Item) × (o ≡ some i) × (i.cas ≡ expected) × (is_expired i now oldest_live ≡ false)
run-cas args now oldest_live new expected none h = cc
run-cas args now oldest_live new expected (some i) h =
    (i, refl, unfold cas_closure in ground arith, unfold cas_closure in ground arith)

module _ (C : Cache) where
  -- `Clock::set`, which the background task calls once a second.
  unfoldable pub set_clock : ℕ → Store C → Store C
  set_clock secs s = record s { shared_clock = Clock.set secs s.shared_clock }

  -- `t` comes after `s`, before the counter of cas tokens wraps around.
  pub data Reach (s : Store C) : Store C → Type 0 where
    here : {t : Store C} → t ≡ s → Reach s t
    command :
        {t u : Store C}
        → Reach s t
        → (c : Command) → t.next_cas + tokens c < 2 ^ 64
        → u ≡ (handle C c t).1
        → Reach s u
    tick : {t u : Store C} → Reach s t → (secs : ℕ) → u ≡ set_clock secs t → Reach s u

  pub Reach-Advances : {s t : Store C} → Reach s t → Advances C s t
  unfolding set_clock
  Reach-Advances {s} (here e) = rw e (Advances-same C s s refl (omega arith))
  Reach-Advances (command {t} r c fits e) =
      rw e (Advances-trans C (Reach-Advances r) (handle-Advances C c t fits))
  Reach-Advances (tick {t} r secs e) = rw e (
      Advances-trans C (Reach-Advances r)
        (Advances-same C t (record t { shared_clock = secs }) refl (omega arith)))

  -- In a state reached from a new store before the counter of cas tokens wraps around, every item
  -- found has a token below the counter.
  pub Reach-token :
      (clock limit : ℕ) {s : Store C}
      → Reach (new_store C clock limit) s
      → (k : Bytes) (i : Item) → find_item C s k ≡ some i
      → i.cas < s.next_cas
  unfolding new_store
  Reach-token clock limit r k i h = elim ((Reach-Advances r).fresh k i h) [
    | inl old ↦ cc (old, C.find-with_options limit weight k)
    | inr new ↦ new.1
  ]

  finish_cas-stored :
      (r : EntryResult Bool) (s : Store C) → (finish_cas C r s).0 ≡ stored → r ≡ retained true
  unfolding finish_cas
  finish_cas-stored (retained true) s h = refl
  finish_cas-stored (retained false) s h = cc
  finish_cas-stored (removed _ _) s h = cc
  finish_cas-stored vacant s h = cc

  pub store_cas-stored :
      (expected : Option ℕ) (args : StoreArgs) (now : ℕ) (oldest_live : Option ℕ) (new token : ℕ)
      (s : Store C)
      → expected ≡ some token
      → (store_cas C expected args now oldest_live new s).0 ≡ stored
      → (i : Item) × (C.find s.items args.key ≡ some i)
        × (i.cas ≡ token)
        × (is_expired i now oldest_live ≡ false)
  unfolding store_cas
  store_cas-stored none args now oldest_live new token s given h = cc
  store_cas-stored (some expected) args now oldest_live new token s given h =
      let f = cas_closure args now oldest_live new expected in
      let e = C.entry f s.items args.key tt in
      let ran =
        sym (C.entry-result f s.items args.key tt)
        ∙ finish_cas-stored e.result (settle C e.evicted e.cache s) h in
      let (i, found, same, live) =
        run-cas args now oldest_live new expected (C.find s.items args.key) ran in
      (i, found, ground arith, live)

  -- A `cas` that is stored found a live item with the client's token.
  cas-stored :
      (args : StoreArgs) (token : ℕ) (s : Store C)
      → args.cas ≡ some token
      → (store C cas args s).0 ≡ stored
      → (i : Item) × (find_item C s args.key ≡ some i)
        × (i.cas ≡ token)
        × (is_expired i s.shared_clock (cutoff s.oldest_live) ≡ false)
  unfolding store
  cas-stored args token s given h =
      store_cas-stored args.cas args s.shared_clock (cutoff s.oldest_live) s.next_cas token _ given
        h

  -- If an item is found under a key in some state that is reached from a new store, and a `cas`
  -- with its token comes in any state reached from there, whatever commands and clock ticks lie
  -- between, then a `cas` that answers `stored` finds the very same item under the key. The
  -- states are reached before the counter of cas tokens wraps around.
  pub cas_overwrites_what_was_read :
      (clock limit : ℕ) {s t : Store C} (k : Bytes) (i : Item) (args : StoreArgs)
      → Reach (new_store C clock limit) s
      → find_item C s k ≡ some i
      → Reach s t
      → args.key ≡ k
      → args.cas ≡ some i.cas
      → (store C cas args t).0 ≡ stored
      → find_item C t k ≡ some i
  cas_overwrites_what_was_read clock limit {s = s} {t = t} k i args before found r key token h =
      let (j, found_j, same, _) = cas-stored args i.cas t token h in
      let at_k : find_item C t k ≡ some j = rw (← key) found_j in
      elim ((Reach-Advances r).fresh k j at_k) [
        | inl old ↦ cc (old, found, at_k)
        | inr new ↦ absurd (omega (arith, Reach-token clock limit before k i found, same))
      ]

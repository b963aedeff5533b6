-- ===== src/Store/Additions.antt =====
-- `add` against its outcome.
use ousagi.Commands.{StoreArgs, add, stored}
use ousagi.Prelude.{
  ℕ, ◌≡◌, refl, ap, ◌∙◌, inl, inr, Bool, true, false, Option, none, some, Bytes, Option-cases,
  Bool-cases, arith,
}
use ousagi.Stats.{cmd_set, cmd_touch, total_items}
use ousagi.Store.Cache.{Cache, EntryResult, retained, vacant, run_entry, updated}
use ousagi.Store.Inner.{on_evict, Store, next_cas, count, settle, cutoff}
use ousagi.Store.Items.{Item, is_expired}
use ousagi.Store.Outcomes.{outcome}
use ousagi.Store.WriteTokens.{vacant-find}
use ousagi.Stats
use ousagi.Store.View.{
  Quiet, kept-view, evicted_so_far, on_evict-evictions, length-zero, updated_again, live, view,
  live_at, Implements, Settles-view, Settles-again, entry-Implements,
}
use ousagi.Store.Writes.{args_item, add_closure, finish_add, store_op, store}

module _ (C : Cache) (args : StoreArgs) (now : ℕ) (oldest_live : Option ℕ) (token : ℕ)
    (i : Item) where
  abbrev followed : EntryResult Bool × (Unit {0}) × Option Item
  followed = run_entry (add_closure args now oldest_live token) (some i) args.key tt

  finish_add-Quiet :
      (b : Bool) (t : Store C) → Quiet C t (finish_add C args now token (retained b) t).1
  unfolding finish_add Stats.add
  finish_add-Quiet true t = ((λ j. refl), refl)
  finish_add-Quiet false t = ((λ j. refl), refl)

  run_add-Quiet : (t : Store C) → Quiet C t (finish_add C args now token followed.0 t).1
  unfolding add_closure
  run_add-Quiet t = elim (Bool-cases (is_expired i now oldest_live)) [
    | inl expired ↦ rw expired (finish_add-Quiet true t)
    | inr alive ↦ rw alive (finish_add-Quiet false t)
  ]

  add_answer :
      (t : Store C)
      → (finish_add C args now token followed.0 t).0
        ≡ (outcome add args (args_item args token now) token (live now oldest_live (some i))).0
  unfolding add_closure finish_add
  add_answer t = ground arith

  add_kept :
      live now oldest_live followed.2
      ≡ live now oldest_live
          (outcome add args (args_item args token now) token (live now oldest_live (some i))).1
  unfolding add_closure
  add_kept = ground arith

-- `add`, where the guard of a vacant entry is not refused: the crate refuses one only if another
-- task has taken its place meanwhile.
module _ (C : Cache)
    (accepted : (c : C.State) (k : Bytes) (i : Item) → (C.guard_insert c k i).0 ≡ true) where
  finish_add-vacant :
      (args : StoreArgs) (now token : ℕ) (t : Store C)
      → ((finish_add C args now token vacant t).0 ≡ stored)
        × ((finish_add C args now token vacant t).1.items
            ≡ (C.guard_insert t.items args.key (args_item args token now)).2)
        × ((finish_add C args now token vacant t).1.shared_clock ≡ t.shared_clock)
        × ((finish_add C args now token vacant t).1.oldest_live ≡ t.oldest_live)
        × (evicted_so_far (finish_add C args now token vacant t).1.stats
            ≡ evicted_so_far
                (on_evict (C.guard_insert t.items args.key (args_item args token now)).1 t.stats))
  unfolding finish_add Stats.add
  finish_add-vacant args now token t =
      rw (accepted t.items args.key (args_item args token now)) (refl, refl, refl, refl, refl)

  add_vacant_keeps :
      (args : StoreArgs) (token : ℕ) (s : Store C)
      → C.find s.items args.key ≡ none
      → (let e =
            C.entry
              (add_closure args s.shared_clock (cutoff s.oldest_live) token)
              s.items
              args.key
              tt in
          let t = settle C e.evicted e.cache s in
          let u = (finish_add C args s.shared_clock token vacant t).1 in
          e.result ≡ vacant
          → evicted_so_far u.stats ≡ evicted_so_far s.stats
          → (j : Bytes)
          → view C u j
            ≡ updated args.key
                (live_at C s (some (args_item args token s.shared_clock)))
                (view C s)
                j)
  add_vacant_keeps args token s absent vacated same j =
      let now = s.shared_clock in
      let item = args_item args token now in
      let f = add_closure args now (cutoff s.oldest_live) token in
      let e = C.entry f s.items args.key tt in
      let t = settle C e.evicted e.cache s in
      let u = (finish_add C args now token vacant t).1 in
      let (answer, items, clock, oldest, counted) = finish_add-vacant args now token t in
      let guard = C.guard_insert e.cache args.key item in
      let first = on_evict-evictions e.evicted s.stats in
      let second = on_evict-evictions guard.1 t.stats in
      let none_first = length-zero e.evicted (omega (arith, same, counted, first, second)) in
      let none_second = length-zero guard.1 (omega (arith, same, counted, first, second)) in
      let guarded =
        C.find-guard_insert_kept e.cache args.key item j
          (vacant-find C f s.items args.key tt vacated) none_second in
      let entered = C.find-entry_kept f s.items args.key tt j none_first in
      kept-view C args.key s u (some item) (some item) clock oldest refl j (
        ap (λ c. C.find c j) items
        ∙ guarded
        ∙ updated_again guard.0 args.key item _ (C.find e.cache) (C.find s.items) j
            (accepted e.cache args.key item) entered)

  add_vacant-Implements :
      (args : StoreArgs) (token : ℕ) (s : Store C)
      → C.find s.items args.key ≡ none
      → Implements C args.key s
          (store_op C add args s.shared_clock (cutoff s.oldest_live) token s)
          (stored, some (args_item args token s.shared_clock))
  unfolding store_op
  add_vacant-Implements args token s absent =
      let now = s.shared_clock in
      let item = args_item args token now in
      let f = add_closure args now (cutoff s.oldest_live) token in
      let e = C.entry f s.items args.key tt in
      let t = settle C e.evicted e.cache s in
      let vacated =
        C.entry-result f s.items args.key tt ∙ ap (λ o. (run_entry f o args.key tt).0) absent in
      let left = C.find-entry f s.items args.key tt in
      let (answer, items, clock, oldest, counted) = finish_add-vacant args now token t in
      record {
        answers = ap (λ r. (finish_add C args now token r t).0) vacated ∙ answer;
        views = λ j. rw vacated (
            Settles-view C args.key s (finish_add C args now token vacant t).1 (some item)
              (some item) clock oldest refl j
              (rw items (
                Settles-again args.key (some item)
                  (run_entry f (C.find s.items args.key) args.key tt).2 (C.find e.cache)
                  (C.find s.items) j
                  (rw (accepted e.cache args.key item) at (
                    C.find-guard_insert e.cache args.key item j
                      (vacant-find C f s.items args.key tt vacated)))
                  (left j))));
        keeps = λ same j.
            rw vacated (add_vacant_keeps args token s absent vacated (rw vacated at same) j);
      }

  add_found-Implements :
      (args : StoreArgs) (token : ℕ) (s : Store C) (i : Item)
      → C.find s.items args.key ≡ some i
      → Implements C args.key s
          (store_op C add args s.shared_clock (cutoff s.oldest_live) token s)
          (outcome add args (args_item args token s.shared_clock) token (live_at C s (some i)))
  unfolding store_op
  add_found-Implements args token s i found =
      let now = s.shared_clock in
      let oldest_live = cutoff s.oldest_live in
      entry-Implements C (add_closure args now oldest_live token) args.key s
        (finish_add C args now token) _
        (λ t. rw found (run_add-Quiet C args now oldest_live token i t))
        (λ t. rw found (add_answer C args now oldest_live token i t))
        (rw found (add_kept C args now oldest_live token i))

  -- At an absent key the item is stored; at a present one it is stored only over an expired item.
  add_op-Implements :
      (args : StoreArgs) (token : ℕ) (s : Store C)
      → Implements C args.key s
          (store_op C add args s.shared_clock (cutoff s.oldest_live) token s)
          (outcome add args (args_item args token s.shared_clock) token (view C s args.key))
  add_op-Implements args token s = elim (Option-cases (C.find s.items args.key)) [
    | inl absent ↦ rw absent (add_vacant-Implements args token s absent)
    | inr (i, found) ↦ rw found (add_found-Implements args token s i found)
  ]

  -- If the cache refuses no guard, then the response of `add` and the live item under its key are
  -- those of the outcome of `add` on the live item before it, and the live items under other keys
  -- stay; an item may be missing instead if the cache evicts, and none is if no eviction was
  -- counted.
  pub add-Implements :
      (args : StoreArgs) (s : Store C)
      → Implements C args.key s (store C add args s) (
          outcome add args
            (args_item args s.next_cas s.shared_clock)
            s.next_cas
            (view C s args.key))
  unfolding store
  add-Implements args s =
      let x = add_op-Implements args s.next_cas (next_cas C (count C cmd_set 1 s)).1 in
      record {
        answers = x.answers;
        views = x.views;
        keeps = λ same. x.keeps (unfold Stats.add in same);
      }

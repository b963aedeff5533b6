-- ===== src/Store/Outcomes.antt =====
-- The storage commands, `delete`, `incr`, `decr` and `touch` against their outcomes.
use ousagi.Commands.{
  StoreOp, StoreArgs, set, add, replace, append, prepend, cas, Response, stored, not_stored,
  not_found, exists,
}
use ousagi.Prelude.{
  ℕ, ◌≡◌, refl, sym, inr, ◌≢◌, Bool, true, false, Option, none, some, ◌++◌, arith, ◌==◌,
  if◌then◌else◌,
}
use ousagi.Stats.{cmd_set, total_items}
use ousagi.Store.Cache.{Cache, EntryResult, retained, removed, vacant, run_entry}
use ousagi.Store.Inner.{Store, next_cas, count, settle, cutoff}
use ousagi.Store.Items.{Item}
use ousagi.Stats
use ousagi.Store.View.{
  Quiet, kept-view, none_evicted, live, view, Implements, Settles-view, unchanged, entry-Implements,
}
use ousagi.Store.Writes.{
  args_item, replace_closure, concat_closure, cas_closure, finish_update, finish_cas, store_cas,
  store_op, store,
}

abbrev pub cas_outcome : Item → Option ℕ → Option Item → Response × Option Item
cas_outcome new none o = (Response.server_error "missing cas value", o)
cas_outcome new (some expected) none = (not_found, none)
cas_outcome new (some expected) (some i) =
    if i.cas == expected then (stored, some new) else (exists, some i)

-- What a storage command promises, from the new item, its token and the live item under the key.
abbrev pub outcome : StoreOp → StoreArgs → Item → ℕ → Option Item → Response × Option Item
outcome set args new token o = (stored, some new)
outcome add args new token none = (stored, some new)
outcome add args new token (some i) = (not_stored, some i)
outcome replace args new token none = (not_stored, none)
outcome replace args new token (some i) = (stored, some new)
outcome append args new token none = (not_stored, none)
outcome append args new token (some i) =
    (stored, some (record i { payload = i.payload ++ args.payload; cas = token }))
outcome prepend args new token none = (not_stored, none)
outcome prepend args new token (some i) =
    (stored, some (record i { payload = args.payload ++ i.payload; cas = token }))
outcome cas args new token o = cas_outcome new args.cas o

-- Each closure, followed and finished, is the outcome; `o` is the item under the key.
module _ (C : Cache) (args : StoreArgs) (now : ℕ) (oldest_live : Option ℕ) (token : ℕ)
    (o : Option Item) where
  abbrev new : Item
  new = args_item args token now

  replace_answer :
      (t : Store C)
      → (finish_update C
          (run_entry (replace_closure args now oldest_live token) o args.key tt).0
          t).0
        ≡ (outcome replace args new token (live now oldest_live o)).0
  unfolding replace_closure finish_update
  replace_answer t = ground arith

  replace_item :
      live now oldest_live (run_entry (replace_closure args now oldest_live token) o args.key tt).2
      ≡ live now oldest_live (outcome replace args new token (live now oldest_live o)).1
  unfolding replace_closure
  replace_item = ground arith

  append_answer :
      (t : Store C)
      → (finish_update C
          (run_entry (concat_closure args now oldest_live token true) o args.key tt).0
          t).0
        ≡ (outcome append args new token (live now oldest_live o)).0
  unfolding concat_closure finish_update
  append_answer t = ground arith

  append_item :
      live now oldest_live
        (run_entry (concat_closure args now oldest_live token true) o args.key tt).2
      ≡ live now oldest_live (outcome append args new token (live now oldest_live o)).1
  unfolding concat_closure
  append_item = ground arith

  prepend_answer :
      (t : Store C)
      → (finish_update C
          (run_entry (concat_closure args now oldest_live token false) o args.key tt).0
          t).0
        ≡ (outcome prepend args new token (live now oldest_live o)).0
  unfolding concat_closure finish_update
  prepend_answer t = ground arith

  prepend_item :
      live now oldest_live
        (run_entry (concat_closure args now oldest_live token false) o args.key tt).2
      ≡ live now oldest_live (outcome prepend args new token (live now oldest_live o)).1
  unfolding concat_closure
  prepend_item = ground arith

  cas_answer :
      (expected : ℕ) (t : Store C)
      → (finish_cas C
          (run_entry (cas_closure args now oldest_live token expected) o args.key tt).0
          t).0
        ≡ (cas_outcome new (some expected) (live now oldest_live o)).0
  unfolding cas_closure finish_cas
  cas_answer expected t = ground arith

  cas_item :
      (expected : ℕ)
      → live now oldest_live
          (run_entry (cas_closure args now oldest_live token expected) o args.key tt).2
        ≡ live now oldest_live (cas_outcome new (some expected) (live now oldest_live o)).1
  unfolding cas_closure
  cas_item expected = ground arith

module _ (C : Cache) where
  finish_update-Quiet :
      (r : EntryResult (Unit {0})) (t : Store C) → Quiet C t (finish_update C r t).1
  unfolding finish_update Stats.add
  finish_update-Quiet (retained _) t = ((λ j. refl), refl)
  finish_update-Quiet (removed _ _) t = ((λ j. refl), refl)
  finish_update-Quiet vacant t = ((λ j. refl), refl)

  finish_cas-Quiet : (r : EntryResult Bool) (t : Store C) → Quiet C t (finish_cas C r t).1
  unfolding finish_cas Stats.add
  finish_cas-Quiet (retained true) t = ((λ j. refl), refl)
  finish_cas-Quiet (retained false) t = ((λ j. refl), refl)
  finish_cas-Quiet (removed _ _) t = ((λ j. refl), refl)
  finish_cas-Quiet vacant t = ((λ j. refl), refl)

  store_cas-Implements :
      (expected : Option ℕ) (args : StoreArgs) (token : ℕ) (s : Store C)
      → Implements C args.key s
          (store_cas C expected args s.shared_clock (cutoff s.oldest_live) token s)
          (cas_outcome (args_item args token s.shared_clock) expected (view C s args.key))
  unfolding store_cas
  store_cas-Implements none args token s = record {
    answers = refl;
    views = λ j. inr (sym (unchanged C args.key s j));
    keeps = λ _ j. sym (unchanged C args.key s j);
  }
  store_cas-Implements (some expected) args token s =
      let o = C.find s.items args.key in
      entry-Implements C _ args.key s (finish_cas C) _ (finish_cas-Quiet _)
        (cas_answer C args s.shared_clock (cutoff s.oldest_live) token o expected)
        (cas_item C args s.shared_clock (cutoff s.oldest_live) token o expected)

  -- Every storage command but `add` implements its outcome.
  store_op-Implements :
      (op : StoreOp) (args : StoreArgs) (token : ℕ) (s : Store C)
      → op ≢ add
      → Implements C args.key s
          (store_op C op args s.shared_clock (cutoff s.oldest_live) token s)
          (outcome op args (args_item args token s.shared_clock) token (view C s args.key))
  unfolding store_op
  store_op-Implements set args token s ne =
      let item = args_item args token s.shared_clock in
      let (evicted, items) = C.insert s.items args.key item in
      record {
        answers = refl;
        views = λ j.
            Settles-view C args.key s (count C total_items 1 (settle C evicted items s)) (some item)
              (some item) refl refl refl j (C.find-insert s.items args.key item j);
        keeps = λ same j.
            kept-view C args.key s (count C total_items 1 (settle C evicted items s)) (some item)
              (some item) refl refl refl j
              (C.find-insert_kept s.items args.key item j
                (none_evicted evicted s.stats (unfold Stats.add in same)));
      }
  store_op-Implements add args token s ne = absurd (ne refl)
  store_op-Implements replace args token s ne =
      let o = C.find s.items args.key in
      entry-Implements C _ args.key s (finish_update C) _ (finish_update-Quiet _)
        (replace_answer C args s.shared_clock (cutoff s.oldest_live) token o)
        (replace_item C args s.shared_clock (cutoff s.oldest_live) token o)
  store_op-Implements append args token s ne =
      let o = C.find s.items args.key in
      entry-Implements C _ args.key s (finish_update C) _ (finish_update-Quiet _)
        (append_answer C args s.shared_clock (cutoff s.oldest_live) token o)
        (append_item C args s.shared_clock (cutoff s.oldest_live) token o)
  store_op-Implements prepend args token s ne =
      let o = C.find s.items args.key in
      entry-Implements C _ args.key s (finish_update C) _ (finish_update-Quiet _)
        (prepend_answer C args s.shared_clock (cutoff s.oldest_live) token o)
        (prepend_item C args s.shared_clock (cutoff s.oldest_live) token o)
  store_op-Implements cas args token s ne = store_cas-Implements args.cas args token s

  -- For a storage command other than `add`, the response and the live item under its key are
  -- those of the outcome of the command on the live item before it, with the token that is drawn,
  -- and the live items under other keys stay; an item may be missing instead if the cache evicts,
  -- and none is if no eviction was counted.
  pub store-Implements :
      (op : StoreOp) (args : StoreArgs) (s : Store C)
      → op ≢ add
      → Implements C args.key s (store C op args s) (
          outcome op args (args_item args s.next_cas s.shared_clock) s.next_cas (view C s args.key))
  unfolding store
  store-Implements op args s ne =
      let x = store_op-Implements op args s.next_cas (next_cas C (count C cmd_set 1 s)).1 ne in
      record {
        answers = x.answers;
        views = x.views;
        keeps = λ same. x.keeps (unfold Stats.add in same);
      }

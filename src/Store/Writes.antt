-- ===== src/Store/Writes.antt =====
-- src/store.rs: `Store::store` and `Store::delete`.
use ousagi.Commands.{StoreOp, StoreArgs, set, add, replace, append, prepend, cas, Response}
use ousagi.Prelude.{ℕ, Bool, true, false, Option, none, some, ◌++◌, ◌==◌, Bytes, if◌then◌else◌}
use ousagi.Stats.{
  cmd_set, total_items, cas_hits, cas_misses, cas_badval, get_expired, delete_hits, delete_misses,
}
use ousagi.Store.Cache.{Cache, retain, remove, EntryResult, retained, removed, vacant, Closure}
use ousagi.Store.Inner.{Store, now, oldest_live, next_cas, count, settle}
use ousagi.Store.Items.{Item, new_item, is_expired}

-- The item that a storage command writes.
abbrev pub args_item : StoreArgs → ℕ → ℕ → Item
args_item args token now = new_item args.payload args.flags args.exptime token now

module _ (args : StoreArgs) (now : ℕ) (oldest_live : Option ℕ) (token : ℕ) where
  unfoldable pub add_closure : Closure (Unit {0}) Bool
  unfolding is_expired
  add_closure item u =
      if is_expired item now oldest_live
      then (args_item args token now, retain true, u)
      else (item, retain false, u)

  unfoldable pub replace_closure : Closure (Unit {0}) (Unit {0})
  unfolding is_expired
  replace_closure item u =
      if is_expired item now oldest_live
      then (item, remove, u)
      else (args_item args token now, retain tt, u)

  unfoldable pub concat_closure : Bool → Closure (Unit {0}) (Unit {0})
  unfolding is_expired
  concat_closure is_append item u =
      if is_expired item now oldest_live
      then (item, remove, u)
      else (let joined =
            if is_append then item.payload ++ args.payload else args.payload ++ item.payload in
          (record item { payload = joined; cas = token }, retain tt, u))

  unfoldable pub cas_closure : ℕ → Closure (Unit {0}) Bool
  unfolding is_expired
  cas_closure expected_cas item u =
      if is_expired item now oldest_live
      then (item, remove, u)
      else if item.cas == expected_cas
      then (args_item args token now, retain true, u)
      else (item, retain false, u)

module _ (C : Cache) where
  unfoldable pub finish_add : StoreArgs → ℕ → ℕ → EntryResult Bool → Store C → Response × Store C
  finish_add args now token (retained true) s = (Response.stored, count C total_items 1 s)
  finish_add args now token (retained false) s = (Response.not_stored, s)
  finish_add args now token vacant s =
      let (inserted, evicted, items) = C.guard_insert s.items args.key (args_item args token now) in
      let s' = settle C evicted items s in
      if inserted then (Response.stored, count C total_items 1 s') else (Response.not_stored, s')
  finish_add args now token (removed _ _) s = (Response.not_stored, s)

  -- Of `replace`, `append` and `prepend`.
  unfoldable pub finish_update : EntryResult (Unit {0}) → Store C → Response × Store C
  finish_update (retained _) s = (Response.stored, count C total_items 1 s)
  finish_update (removed _ _) s = (Response.not_stored, s)
  finish_update vacant s = (Response.not_stored, s)

  unfoldable pub finish_cas : EntryResult Bool → Store C → Response × Store C
  finish_cas (retained true) s = (Response.stored, count C total_items 1 (count C cas_hits 1 s))
  finish_cas (retained false) s = (Response.exists, count C cas_badval 1 s)
  finish_cas (removed _ _) s = (Response.not_found, count C cas_misses 1 s)
  finish_cas vacant s = (Response.not_found, count C cas_misses 1 s)

  -- `replace`, `append` and `prepend`: the closure on the entry, then the result.
  abbrev pub update_entry : Closure (Unit {0}) (Unit {0}) → Bytes → Store C → Response × Store C
  update_entry f key s =
      let e = C.entry f s.items key tt in finish_update e.result (settle C e.evicted e.cache s)

  -- `StoreOp::Cas`, with the token that the client gave.
  unfoldable pub store_cas : Option ℕ → StoreArgs → ℕ → Option ℕ → ℕ → Store C → Response × Store C
  unfolding cas_closure finish_cas
  store_cas none args now oldest_live token s = (Response.server_error "missing cas value", s)
  store_cas (some expected_cas) args now oldest_live token s =
      let e = C.entry (cas_closure args now oldest_live token expected_cas) s.items args.key tt in
      finish_cas e.result (settle C e.evicted e.cache s)

  -- The `match` on the operation, with the time, the cutoff and the token drawn before it.
  unfoldable pub store_op : StoreOp → StoreArgs → ℕ → Option ℕ → ℕ → Store C → Response × Store C
  unfolding add_closure replace_closure concat_closure finish_add finish_update store_cas
  store_op set args now oldest_live token s =
      let (evicted, items) = C.insert s.items args.key (args_item args token now) in
      (Response.stored, count C total_items 1 (settle C evicted items s))
  store_op add args now oldest_live token s =
      let e = C.entry (add_closure args now oldest_live token) s.items args.key tt in
      finish_add args now token e.result (settle C e.evicted e.cache s)
  store_op replace args now oldest_live token s =
      update_entry (replace_closure args now oldest_live token) args.key s
  store_op append args now oldest_live token s =
      update_entry (concat_closure args now oldest_live token true) args.key s
  store_op prepend args now oldest_live token s =
      update_entry (concat_closure args now oldest_live token false) args.key s
  store_op cas args now oldest_live token s = store_cas args.cas args now oldest_live token s

  unfoldable pub store : StoreOp → StoreArgs → Store C → Response × Store C
  unfolding store_op
  store op args s =
      let s1 = count C cmd_set 1 s in
      let (token, s2) = next_cas C s1 in store_op op args (now C s) (oldest_live C s) token s2

  unfoldable pub finish_delete : Option (Bytes × Item) → ℕ → Option ℕ → Store C → Response × Store C
  unfolding is_expired
  finish_delete none now oldest_live s = (Response.not_found, count C delete_misses 1 s)
  finish_delete (some (_, item)) now oldest_live s =
      if is_expired item now oldest_live
      then (Response.not_found, count C delete_misses 1 (count C get_expired 1 s))
      else (Response.deleted, count C delete_hits 1 s)

  unfoldable pub delete : Bytes → Store C → Response × Store C
  unfolding finish_delete
  delete key s =
      let (taken, items) = C.remove s.items key in
      finish_delete taken (now C s) (oldest_live C s) (record s { items = items })

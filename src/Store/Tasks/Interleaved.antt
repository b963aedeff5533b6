-- ===== src/Store/Tasks/Interleaved.antt =====
-- `cas` of src/store.rs among the methods of other connections.
use ousagi.Commands.{StoreArgs, cas, Response}
use ousagi.Prelude.{ℕ, ◌≡◌, inl, inr, false, Option, some, Bytes, arith}
use ousagi.Store.Cache.{Cache}
use ousagi.Store.Inner.{Store}
use ousagi.Store.Items.{Item, is_expired}
use ousagi.Store.Tasks.{Task, storing, finished, resume}
use ousagi.Store.Traces.{store_cas-stored}
use ousagi.Store.Versions.{find_item}
use ousagi.Store.Writes.{store_op, store_cas}
use ousagi.Store.Tasks.System.{System, start, Reach}
use ousagi.Store.Tasks.Moves.{Reach-Runs, start-Apart}

module _ (C : Cache) where
  resume-cas :
      (task : Task) (args : StoreArgs) (now : ℕ) (point : Option ℕ) (new token : ℕ) (s : Store C)
      → task ≡ storing cas args now point new
      → args.cas ≡ some token
      → (resume C task s).0 ≡ finished Response.stored
      → (i : Item) × (find_item C s args.key ≡ some i)
        × (i.cas ≡ token)
        × (is_expired i now point ≡ false)
  unfolding resume store_op
  resume-cas task args now point new token s is given h =
      let ran : finished (store_cas C args.cas args now point new s).0 ≡ finished Response.stored =
        rw is at h in
      store_cas-stored C args.cas args now point new token s given (cc ran)

  -- The methods of any number of connections take their steps in any order, with clock ticks
  -- between. If an item is found under a key in some state that is reached from the start, and in
  -- a later state a connection is at the call on the cache of a `cas` of this key with the token
  -- of that item, and the call answers `stored`, then the very same item is under the key, and
  -- was not expired by the time and the cutoff that the method has read. The states are reached
  -- before the counter of cas tokens wraps around.
  pub cas-interleaved :
      (clock limit : ℕ) {x y : System C} (k : Bytes) (i : Item) (n : ℕ) (args : StoreArgs) (now : ℕ)
      (point : Option ℕ) (new : ℕ)
      → Reach C (start C clock limit) x
      → find_item C x.store k ≡ some i
      → Reach C x y
      → y.tasks n ≡ storing cas args now point new
      → args.key ≡ k
      → args.cas ≡ some i.cas
      → (resume C (y.tasks n) y.store).0 ≡ finished Response.stored
      → (find_item C y.store k ≡ some i) × (is_expired i now point ≡ false)
  cas-interleaved clock limit {x} {y} k i n args now point new before found r is key given h =
      let (j, found_j, same, live) =
        resume-cas (y.tasks n) args now point new i.cas y.store is given h in
      let at_k : find_item C y.store k ≡ some j = rw (← key) found_j in
      let apart = (Reach-Runs C (start-Apart C clock limit) before).apart in
      elim ((Reach-Runs C apart r).from.fresh k j at_k) [
        | inl old ↦ let is_i : j ≡ i = cc (old, found) in (rw is_i at at_k, rw is_i at live)
        | inr (inl (m, drawn)) ↦ absurd (apart.unused k i m found (rw same at drawn))
        | inr (inr new) ↦ absurd (omega (arith, apart.items_below k i found, same, new))
      ]

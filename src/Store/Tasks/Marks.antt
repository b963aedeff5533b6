-- ===== src/Store/Tasks/Marks.antt =====
-- src/store.rs: what the calls on the cache of a storage command do to the tokens of the items.
use ousagi.Commands.{StoreOp, StoreArgs, set, add, replace, append, prepend, cas}
use ousagi.Prelude.{
  ℕ, suc, ◌≡◌, refl, ◌⊎◌, inl, inr, Bool, true, false, Option, none, some, Bytes, arith, Bool-cases,
}
use ousagi.Store.Cache.{Cache, EntryResult, retained, removed, vacant, Closure}
use ousagi.Store.Inner.{Store, settle}
use ousagi.Store.Items.{Item, new_item}
use ousagi.Store.Versions.{Advances, Advances-trans, Advances-same, entry-Advances, insert-Advances}
use ousagi.Store.WriteTokens.{finish_update-same, finish_cas-same, finish_add-Advances, vacant-find}
use ousagi.Store.Writes.{
  args_item, add_closure, replace_closure, concat_closure, cas_closure, finish_add, finish_update,
  finish_cas, store_cas, store_op,
}

module _ (C : Cache) where
  -- Items change only together with their token, which is then `token`.
  abbrev pub Marked : ℕ → Store C → Store C → Type 0
  Marked token s s' =
      Advances C (record s { next_cas = token }) (record s' { next_cas = suc token })

  Advances-items :
      {s u u' : Store C}
      → Advances C s u
      → u.items ≡ u'.items
      → u.next_cas ≡ u'.next_cas
      → Advances C s u'
  Advances-items {u = u} {u' = u'} a items n =
      Advances-trans C a (Advances-same C u u' items (omega (arith, n)))

  pub entry-Marked :
      {T : Type 0} (f : Closure (Unit {0}) T) (key : Bytes) (token : ℕ) (s s' : Store C)
      → s'.items ≡ (C.entry f s.items key tt).cache
      → ((i : Item) → ((f i tt).0 ≡ i) ⊎ ((f i tt).0.cas ≡ token))
      → Marked token s s'
  entry-Marked f key token s s' e marks =
      entry-Advances C f key tt (record s { next_cas = token }) (record s' { next_cas = suc token })
        e (omega arith) λ i _. ground (arith, marks i)

  -- What `add` leaves depends on the items alone.
  finish_add-items :
      (args : StoreArgs) (now token : ℕ) (r : EntryResult Bool) (t u : Store C)
      → t.items ≡ u.items
      → (finish_add C args now token r t).1.items ≡ (finish_add C args now token r u).1.items
  unfolding finish_add
  finish_add-items args now token (retained true) t u e = e
  finish_add-items args now token (retained false) t u e = e
  finish_add-items args now token (removed _ _) t u e = e
  finish_add-items args now token vacant t u e =
      elim (Bool-cases (C.guard_insert t.items args.key (args_item args token now)).0) [
        | inl accepted ↦ rw (← e, accepted)
        | inr refused ↦ rw (← e, refused)
      ]

  finish_add-next :
      (args : StoreArgs) (now token : ℕ) (r : EntryResult Bool) (t : Store C)
      → (finish_add C args now token r t).1.next_cas ≡ t.next_cas
  unfolding finish_add
  finish_add-next args now token (retained true) t = refl
  finish_add-next args now token (retained false) t = refl
  finish_add-next args now token (removed _ _) t = refl
  finish_add-next args now token vacant t = ground arith

  store_cas-Marked :
      (expected : Option ℕ) (args : StoreArgs) (now : ℕ) (point : Option ℕ) (token : ℕ)
      (s : Store C)
      → Marked token s (store_cas C expected args now point token s).1
  unfolding store_cas
  store_cas-Marked none args now point token s =
      Advances-same C (record s { next_cas = token }) (record s { next_cas = suc token }) refl
        (omega arith)
  store_cas-Marked (some expected) args now point token s =
      let f = cas_closure args now point token expected in
      let e = C.entry f s.items args.key tt in
      entry-Marked f args.key token s (finish_cas C e.result (settle C e.evicted e.cache s)).1
        (finish_cas-same C e.result (settle C e.evicted e.cache s)).0
        λ i. unfold cas_closure new_item in ground arith

  pub store_op-Marked :
      (op : StoreOp) (args : StoreArgs) (now : ℕ) (point : Option ℕ) (token : ℕ) (s : Store C)
      → Marked token s (store_op C op args now point token s).1
  unfolding store_op
  store_op-Marked set args now point token s =
      let marked : (args_item args token now).cas ≡ token = unfold new_item in refl in
      insert-Advances C args.key (args_item args token now) (record s { next_cas = token }) _ refl
        (omega (arith, marked)) (omega (arith, marked))
  store_op-Marked add args now point token s =
      let f = add_closure args now point token in
      let e = C.entry f s.items args.key tt in
      let start = record s { next_cas = token } in
      let t = settle C e.evicted e.cache (record s { next_cas = suc token }) in
      let entered : Advances C start t =
        entry-Advances C f args.key tt start t refl (omega arith)
          λ i _. unfold add_closure new_item in ground arith in
      let added =
        finish_add-Advances C args now token e.result start t entered
          (vacant-find C f s.items args.key tt) refl (omega arith) in
      Advances-items added
        (finish_add-items args now token e.result t (settle C e.evicted e.cache s) refl)
        (finish_add-next args now token e.result t)
  store_op-Marked replace args now point token s =
      let f = replace_closure args now point token in
      let e = C.entry f s.items args.key tt in
      entry-Marked f args.key token s (finish_update C e.result (settle C e.evicted e.cache s)).1
        (finish_update-same C e.result (settle C e.evicted e.cache s)).0
        λ i. unfold replace_closure new_item in ground arith
  store_op-Marked append args now point token s =
      let f = concat_closure args now point token true in
      let e = C.entry f s.items args.key tt in
      entry-Marked f args.key token s (finish_update C e.result (settle C e.evicted e.cache s)).1
        (finish_update-same C e.result (settle C e.evicted e.cache s)).0
        λ i. unfold concat_closure in ground arith
  store_op-Marked prepend args now point token s =
      let f = concat_closure args now point token false in
      let e = C.entry f s.items args.key tt in
      entry-Marked f args.key token s (finish_update C e.result (settle C e.evicted e.cache s)).1
        (finish_update-same C e.result (settle C e.evicted e.cache s)).0
        λ i. unfold concat_closure in ground arith
  store_op-Marked cas args now point token s = store_cas-Marked args.cas args now point token s

  store_cas-next :
      (expected : Option ℕ) (args : StoreArgs) (now : ℕ) (point : Option ℕ) (token : ℕ)
      (s : Store C)
      → (store_cas C expected args now point token s).1.next_cas ≡ s.next_cas
  unfolding store_cas
  store_cas-next none args now point token s = refl
  store_cas-next (some expected) args now point token s = (finish_cas-same C _ _).1

  -- A storage command draws no token but the one before its call on the cache.
  pub store_op-next :
      (op : StoreOp) (args : StoreArgs) (now : ℕ) (point : Option ℕ) (token : ℕ) (s : Store C)
      → (store_op C op args now point token s).1.next_cas ≡ s.next_cas
  unfolding store_op
  store_op-next set args now point token s = refl
  store_op-next add args now point token s = finish_add-next args now token _ _
  store_op-next replace args now point token s = (finish_update-same C _ _).1
  store_op-next append args now point token s = (finish_update-same C _ _).1
  store_op-next prepend args now point token s = (finish_update-same C _ _).1
  store_op-next cas args now point token s = store_cas-next args.cas args now point token s

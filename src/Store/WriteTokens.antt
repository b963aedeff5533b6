-- ===== src/Store/WriteTokens.antt =====
-- The storage commands, `incr`, `decr` and `touch` draw new tokens only.
use ousagi.Commands.{StoreOp, StoreArgs, set, add, replace, append, prepend, cas, ArithmeticOp}
use ousagi.Prelude.{
  ℕ, ◌+◌, ◌^◌, ◌≤◌, ◌<◌, ◌≡◌, refl, sym, ap, ◌∙◌, ◌⊎◌, inl, inr, Bool, true, false, Option, none,
  some, Bytes, ℤ, Result, ok, err, String, arith,
}
use ousagi.Stats.{cmd_set}
use ousagi.Store.Cache.{
  Cache, EntryResult, retained, removed, vacant, Closure, run_entry, Settles, updated,
}
use ousagi.Store.Inner.{Store, next_cas, count, cutoff}
use ousagi.Store.Items.{Item, new_item, add_u64}
use ousagi.Store.Updates.{
  arithmetic_closure, touch_closure, finish_arithmetic, arithmetic, finish_touch, touch,
}
use ousagi.Store.Versions.{
  Advances, Advances-trans, Advances-same, entry-Advances, insert-Advances, settled-cases,
}
use ousagi.Store.Writes.{
  args_item, add_closure, replace_closure, concat_closure, cas_closure, finish_add, finish_update,
  finish_cas, store_cas, store,
}

run_entry-vacant :
    {S T : Type 0} (f : Closure S T) (o : Option Item) (k : Bytes) (s : S)
    → (run_entry f o k s).0 ≡ vacant
    → o ≡ none
run_entry-vacant f none k s h = refl
run_entry-vacant f (some i) k s h = ground arith

Settles-none :
    {found expected : Option Item} → Settles found expected → expected ≡ none → found ≡ none
Settles-none (inl gone) h = gone
Settles-none (inr kept) h = kept ∙ h

updated-none :
    (k : Bytes) (o : Option Item) (find : Bytes → Option Item)
    → o ≡ none
    → find k ≡ none
    → updated k o find k ≡ none
updated-none k o find e h = ground arith

module _ (C : Cache) where
  -- The entry call of an operation that has drawn one token before it.
  drawn-Advances :
      {T : Type 0} (f : Closure (Unit {0}) T) (key : Bytes) (s s' : Store C)
      → s'.items ≡ (C.entry f s.items key tt).cache
      → s'.next_cas ≡ add_u64 s.next_cas 1
      → s.next_cas + 1 < 2 ^ 64
      → ((i : Item) → ((f i tt).0 ≡ i) ⊎ ((f i tt).0.cas ≡ s.next_cas))
      → Advances C s s'
  drawn-Advances f key s s' e n fits marks =
      entry-Advances C f key tt s s' e (omega arith) λ i _. ground (arith, marks i)

  pub finish_update-same :
      (r : EntryResult (Unit {0})) (s : Store C)
      → ((finish_update C r s).1.items ≡ s.items) × ((finish_update C r s).1.next_cas ≡ s.next_cas)
  unfolding finish_update
  finish_update-same (retained _) s = (refl, refl)
  finish_update-same (removed _ _) s = (refl, refl)
  finish_update-same vacant s = (refl, refl)

  pub finish_cas-same :
      (r : EntryResult Bool) (s : Store C)
      → ((finish_cas C r s).1.items ≡ s.items) × ((finish_cas C r s).1.next_cas ≡ s.next_cas)
  unfolding finish_cas
  finish_cas-same (retained true) s = (refl, refl)
  finish_cas-same (retained false) s = (refl, refl)
  finish_cas-same (removed _ _) s = (refl, refl)
  finish_cas-same vacant s = (refl, refl)

  pub finish_arithmetic-same :
      (op : ArithmeticOp) (r : EntryResult (Result String ℕ)) (s : Store C)
      → ((finish_arithmetic C op r s).1.items ≡ s.items)
        × ((finish_arithmetic C op r s).1.next_cas ≡ s.next_cas)
  unfolding finish_arithmetic
  finish_arithmetic-same op (retained (ok _)) s = (refl, refl)
  finish_arithmetic-same op (retained (err _)) s = (refl, refl)
  finish_arithmetic-same op (removed _ _) s = (refl, refl)
  finish_arithmetic-same op vacant s = (refl, refl)

  pub finish_touch-same :
      (r : EntryResult (Unit {0})) (s : Store C)
      → ((finish_touch C r s).1.items ≡ s.items) × ((finish_touch C r s).1.next_cas ≡ s.next_cas)
  unfolding finish_touch
  finish_touch-same (retained _) s = (refl, refl)
  finish_touch-same (removed _ _) s = (refl, refl)
  finish_touch-same vacant s = (refl, refl)

  pub arithmetic-Advances :
      (op : ArithmeticOp) (key : Bytes) (delta : ℕ) (s : Store C)
      → s.next_cas + 1 < 2 ^ 64
      → Advances C s (arithmetic C op key delta s).1
  unfolding arithmetic
  arithmetic-Advances op key delta s fits =
      let same = finish_arithmetic-same op _ _ in
      drawn-Advances _ key s _ same.0 same.1 fits λ i. unfold arithmetic_closure in ground arith

  pub touch-Advances :
      (key : Bytes) (exptime : ℤ) (s : Store C)
      → s.next_cas + 1 < 2 ^ 64
      → Advances C s (touch C key exptime s).1
  unfolding touch
  touch-Advances key exptime s fits =
      let same = finish_touch-same _ _ in
      drawn-Advances _ key s _ same.0 same.1 fits λ i. unfold touch_closure in ground arith

  -- The guard of a vacant entry, after an entry call.
  guard-Advances :
      (key : Bytes) (item : Item) (s t u : Store C)
      → Advances C s t
      → C.find t.items key ≡ none
      → u.items ≡ (C.guard_insert t.items key item).2
      → u.next_cas ≡ t.next_cas
      → s.next_cas ≤ item.cas
      → item.cas < t.next_cas
      → Advances C s u
  guard-Advances key item s t u before absent e n lo hi = record {
    mono = omega (arith, before.mono);
    fresh = λ j i h.
        elim (settled-cases key j _ (C.find t.items) (C.find-guard_insert t.items key item j absent)
          (rw e at h)) [
            | inl (_, stored) ↦ ground (arith)
            | inr kept ↦ rw n (before.fresh j i kept)
          ];
  }

  pub vacant-find :
      {S T : Type 0} (f : Closure S T) (c : C.State) (k : Bytes) (s : S)
      → (C.entry f c k s).result ≡ vacant
      → C.find (C.entry f c k s).cache k ≡ none
  vacant-find f c k s v =
      let none_before = run_entry-vacant f (C.find c k) k s (sym (C.entry-result f c k s) ∙ v) in
      Settles-none (C.find-entry f c k s k) (
        updated-none k (run_entry f (C.find c k) k s).2 (C.find c)
          (ap (λ o. (run_entry f o k s).2) none_before) none_before)

  pub finish_add-Advances :
      (args : StoreArgs) (now token : ℕ) (r : EntryResult Bool) (s t : Store C)
      → Advances C s t
      → (r ≡ vacant → C.find t.items args.key ≡ none)
      → s.next_cas ≡ token
      → token < t.next_cas
      → Advances C s (finish_add C args now token r t).1
  unfolding finish_add
  finish_add-Advances args now token (retained true) s t a v lo hi =
      Advances-trans C a (Advances-same C t _ refl (omega arith))
  finish_add-Advances args now token (retained false) s t a v lo hi = a
  finish_add-Advances args now token (removed _ _) s t a v lo hi = a
  finish_add-Advances args now token vacant s t a v lo hi =
      let item = args_item args token now in
      let marked : item.cas ≡ token = unfold new_item in refl in
      guard-Advances args.key item s t _ a (v refl) (ground arith) (ground arith)
        (omega (arith, marked)) (omega (arith, marked))

  store_cas-Advances :
      (expected : Option ℕ) (args : StoreArgs) (now : ℕ) (oldest_live : Option ℕ) (s : Store C)
      → s.next_cas + 1 < 2 ^ 64
      → Advances C s
          (store_cas C expected args now oldest_live s.next_cas
            (next_cas C (count C cmd_set 1 s)).1).1
  unfolding store_cas
  store_cas-Advances none args now oldest_live s fits = Advances-same C s _ refl (omega arith)
  store_cas-Advances (some expected) args now oldest_live s fits =
      let same = finish_cas-same _ _ in
      drawn-Advances _ args.key s _ same.0 same.1 fits
        λ i. unfold cas_closure new_item in ground arith

  pub store-Advances :
      (op : StoreOp) (args : StoreArgs) (s : Store C)
      → s.next_cas + 1 < 2 ^ 64
      → Advances C s (store C op args s).1
  unfolding store
  store-Advances set args s fits =
      let marked : (args_item args s.next_cas s.shared_clock).cas ≡ s.next_cas =
        unfold new_item in refl in
      insert-Advances C args.key (args_item args s.next_cas s.shared_clock) s _ refl
        (omega (arith, marked)) (omega (arith, marked))
  store-Advances add args s fits =
      let f = add_closure args s.shared_clock (cutoff s.oldest_live) s.next_cas in
      let e = C.entry f s.items args.key tt in
      finish_add-Advances args s.shared_clock s.next_cas e.result s _
        (drawn-Advances f args.key s _ refl refl fits
          λ i. unfold add_closure new_item in ground arith)
        (vacant-find f s.items args.key tt) refl (omega arith)
  store-Advances replace args s fits =
      let same = finish_update-same _ _ in
      drawn-Advances _ args.key s _ same.0 same.1 fits
        λ i. unfold replace_closure new_item in ground arith
  store-Advances append args s fits =
      let same = finish_update-same _ _ in
      drawn-Advances _ args.key s _ same.0 same.1 fits λ i. unfold concat_closure in ground arith
  store-Advances prepend args s fits =
      let same = finish_update-same _ _ in
      drawn-Advances _ args.key s _ same.0 same.1 fits λ i. unfold concat_closure in ground arith
  store-Advances cas args s fits =
      store_cas-Advances args.cas args s.shared_clock (cutoff s.oldest_live) s fits

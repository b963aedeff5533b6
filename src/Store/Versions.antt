-- ===== src/Store/Versions.antt =====
-- The cas tokens of src/store.rs: a step changes an item only together with its token, and the new
-- token is one that was never drawn before.
use ousagi.Prelude.{
  ◌≤◌, ◌<◌, ◌≡◌, refl, sym, ◌∙◌, ◌⊎◌, inl, inr, Option, none, some, Bytes, bytes_eq, bytes_eq_iff,
  Bool-cases, arith,
}
use ousagi.Store.Cache.{
  Cache, EntryAction, retain, remove, Closure, follow, run_entry, Settles, updated,
}
use ousagi.Store.Inner.{Store}
use ousagi.Store.Items.{Item}

follow-item :
    {S T : Type 0} (k : Bytes) (r : Item × EntryAction T × S) (i : Item)
    → (follow k r).2 ≡ some i
    → r.0 ≡ i
follow-item k (j, retain t, s) i h = cc
follow-item k (j, remove, s) i h = cc

-- Where a resident item comes from: it is the one stored under `k`, or it was there before.
pub settled-cases :
    {found : Option Item} (k j : Bytes) (o : Option Item) (find : Bytes → Option Item) {i : Item}
    → Settles found (updated k o find j)
    → found ≡ some i
    → ((k ≡ j) × (o ≡ some i)) ⊎ (find j ≡ some i)
settled-cases k j o find (inl gone) h = absurd (cc (gone, h))
settled-cases k j o find (inr kept) h = elim (Bool-cases (bytes_eq k j)) [
  | inl same ↦ inl ((bytes_eq_iff k j).0 same, sym (rw same at kept) ∙ h)
  | inr other ↦ inr (sym (rw other at kept) ∙ h)
]

-- An item that an entry call leaves under its key was there, and is what the closure made of it.
run_entry-item :
    {S T : Type 0} (f : Closure S T) (o : Option Item) (k : Bytes) (s : S) (i : Item)
    → (run_entry f o k s).2 ≡ some i
    → (j : Item) × (o ≡ some j) × ((f j s).0 ≡ i)
run_entry-item f none k s i h = cc
run_entry-item f (some j) k s i h = (j, refl, follow-item k (f j s) i h)

module _ (C : Cache) where
  -- The item under a key, live or not.
  abbrev pub find_item : Store C → Bytes → Option Item
  find_item s k = C.find s.items k

  -- Tokens grow, and an item that changes has a token drawn since.
  pub record Advances (s s' : Store C) : Type 0 where
    pub mono : s.next_cas ≤ s'.next_cas
    pub fresh :
        (j : Bytes) (i : Item)
        → find_item s' j ≡ some i
        → (find_item s j ≡ some i) ⊎ ((s.next_cas ≤ i.cas) × (i.cas < s'.next_cas))

  pub Advances-trans : {s t u : Store C} → Advances s t → Advances t u → Advances s u
  Advances-trans {s} {t} {u} a b = record {
    mono = omega (arith, a.mono, b.mono);
    fresh = λ j i h. later j i (b.fresh j i h);
  }
    where
      later :
          (j : Bytes) (i : Item)
          → ((find_item t j ≡ some i) ⊎ ((t.next_cas ≤ i.cas) × (i.cas < u.next_cas)))
          → (find_item s j ≡ some i) ⊎ ((s.next_cas ≤ i.cas) × (i.cas < u.next_cas))
      later j i (inl h) = ground (arith, a.fresh j i h, b.mono)
      later j i (inr new) = inr (omega (arith, a.mono))

  -- Of a state with the same items and no fewer tokens.
  pub Advances-same :
      (s s' : Store C) → s.items ≡ s'.items → s.next_cas ≤ s'.next_cas → Advances s s'
  Advances-same s s' same le = record { mono = le; fresh = λ j i h. inl (rw same h) }

  -- An entry call whose closure leaves the item alone or gives it a token drawn by `s'`.
  pub entry-Advances :
      {S T : Type 0} (f : Closure S T) (k : Bytes) (c : S) (s s' : Store C)
      → s'.items ≡ (C.entry f s.items k c).cache
      → s.next_cas ≤ s'.next_cas
      → ((i : Item)
          → C.find s.items k ≡ some i
          → ((f i c).0 ≡ i) ⊎ ((s.next_cas ≤ (f i c).0.cas) × ((f i c).0.cas < s'.next_cas)))
      → Advances s s'
  entry-Advances f k c s s' e le drawn = record {
    mono = le;
    fresh = λ j i h.
        elim (settled-cases k j (run_entry f (C.find s.items k) k c).2 (C.find s.items)
          (C.find-entry f s.items k c j) (rw e at h)) [
            | inl (at_k, stored) ↦
                let (was, found, made) = run_entry-item f (C.find s.items k) k c i stored in
                let found_j : C.find s.items j ≡ some was = rw (← at_k) found in
                ground (arith, drawn was found)
            | inr kept ↦ inl kept
          ];
  }

  -- The same for an insertion, of an item whose token is drawn by `s'`.
  pub insert-Advances :
      (k : Bytes) (item : Item) (s s' : Store C)
      → s'.items ≡ (C.insert s.items k item).1
      → s.next_cas ≤ item.cas
      → item.cas < s'.next_cas
      → Advances s s'
  insert-Advances k item s s' e lo hi = record {
    mono = omega arith;
    fresh = λ j i h.
        elim (settled-cases k j (some item) (C.find s.items) (C.find-insert s.items k item j)
          (rw e at h)) [ inl (_, stored) ↦ ground arith | inr kept ↦ inl kept ];
  }

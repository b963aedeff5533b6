-- ===== src/Store/Cache.antt =====
-- The cache of the crate `quick_cache` as src/store.rs uses it: the operations it calls, and what
-- their documentation says of the items that are resident afterwards. The crate may evict any item
-- whenever it stores one, and tells the lifecycle hook of each that it evicts.
--
-- `entry` is called with no timeout and with closures that never ask for a replacement guard, so
-- its result is one of three. A closure is a function of the item and of what it captures by
-- reference. The guard of a vacant entry is `guard_insert`, or nothing where it is dropped.
use ousagi.Prelude.{ℕ, ◌≡◌, ◌⊎◌, Bool, Option, none, some, List, [], Bytes, bytes_eq, if◌then◌else◌}
use ousagi.Store.Items.{Item}

pub data EntryAction (T : Type 0) : Type 0 where
  retain : T → EntryAction T
  remove : EntryAction T

pub data EntryResult (T : Type 0) : Type 0 where
  retained : T → EntryResult T
  removed : Bytes → Item → EntryResult T
  vacant : EntryResult T

-- What an entry call leaves: its result, what the closure captured, the evicted and the cache.
pub record Entered (C S T : Type 0) : Type 0 where
  pub result : EntryResult T
  pub captured : S
  pub evicted : List (Bytes × Item)
  pub cache : C

abbrev pub Closure : Type 0 → Type 0 → Type 0
Closure S T = Item → S → Item × EntryAction T × S

-- The result, the captured state, and the item under the key, if the closure's wish is followed.
abbrev pub follow :
    {S T : Type 0} → Bytes → Item × EntryAction T × S → EntryResult T × S × Option Item
follow k (i, retain t, s) = (retained t, s, some i)
follow k (i, remove, s) = (removed k i, s, none)

abbrev pub run_entry :
    {S T : Type 0} → Closure S T → Option Item → Bytes → S → EntryResult T × S × Option Item
run_entry f none k s = (vacant, s, none)
run_entry f (some i) k s = follow k (f i s)

-- An item is as expected, or was evicted.
abbrev pub Settles : Option Item → Option Item → Type 0
Settles found expected = (found ≡ none) ⊎ (found ≡ expected)

-- The expected item under `j` once `k` holds `o`.
abbrev pub updated : Bytes → Option Item → (Bytes → Option Item) → Bytes → Option Item
updated k o find j = if bytes_eq k j then o else find j

pub record Cache : Type 1 where
  pub State : Type 0
  pub with_options : ℕ → (Bytes → Item → ℕ) → State
  -- The resident item under a key: what the closure of an `entry` call would be given.
  pub find : State → Bytes → Option Item
  pub entry : {S T : Type 0} → Closure S T → State → Bytes → S → Entered State S T
  pub insert : State → Bytes → Item → List (Bytes × Item) × State
  pub guard_insert : State → Bytes → Item → Bool × List (Bytes × Item) × State
  pub remove : State → Bytes → Option (Bytes × Item) × State
  pub clear : State → State
  pub len : State → ℕ
  pub find-with_options :
      (n : ℕ) (w : Bytes → Item → ℕ) (k : Bytes) → find (with_options n w) k ≡ none
  pub entry-result :
      {S T : Type 0} (f : Closure S T) (c : State) (k : Bytes) (s : S)
      → (entry f c k s).result ≡ (run_entry f (find c k) k s).0
  pub entry-captured :
      {S T : Type 0} (f : Closure S T) (c : State) (k : Bytes) (s : S)
      → (entry f c k s).captured ≡ (run_entry f (find c k) k s).1
  pub find-entry :
      {S T : Type 0} (f : Closure S T) (c : State) (k : Bytes) (s : S) (j : Bytes)
      → Settles (find (entry f c k s).cache j) (updated k (run_entry f (find c k) k s).2 (find c) j)
  pub find-entry_kept :
      {S T : Type 0} (f : Closure S T) (c : State) (k : Bytes) (s : S) (j : Bytes)
      → (entry f c k s).evicted ≡ []
      → find (entry f c k s).cache j ≡ updated k (run_entry f (find c k) k s).2 (find c) j
  pub find-insert :
      (c : State) (k : Bytes) (i : Item) (j : Bytes)
      → Settles (find (insert c k i).1 j) (updated k (some i) (find c) j)
  pub find-insert_kept :
      (c : State) (k : Bytes) (i : Item) (j : Bytes)
      → (insert c k i).0 ≡ []
      → find (insert c k i).1 j ≡ updated k (some i) (find c) j
  -- An entry is vacant when its guard is used; a refused guard has stored nothing.
  pub find-guard_insert :
      (c : State) (k : Bytes) (i : Item) (j : Bytes)
      → find c k ≡ none
      → Settles
          (find (guard_insert c k i).2 j)
          (updated k (if (guard_insert c k i).0 then some i else none) (find c) j)
  pub find-guard_insert_kept :
      (c : State) (k : Bytes) (i : Item) (j : Bytes)
      → find c k ≡ none
      → (guard_insert c k i).1 ≡ []
      → find (guard_insert c k i).2 j
        ≡ updated k (if (guard_insert c k i).0 then some i else none) (find c) j
  pub remove-result :
      (c : State) (k : Bytes)
      → (remove c k).0 ≡ elim (find c k) [ none ↦ none | some i ↦ some (k, i) ]
  pub find-remove : (c : State) (k j : Bytes) → find (remove c k).1 j ≡ updated k none (find c) j
  pub find-clear : (c : State) (k : Bytes) → find (clear c) k ≡ none

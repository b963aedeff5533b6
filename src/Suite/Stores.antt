-- ===== src/Suite/Stores.antt =====
-- The helpers of the unit tests in src/store.rs. The cache is the stand-in of Tests/Crates.
use ousagi.Clock
use ousagi.Commands.{StoreArgs, Response, Value}
use ousagi.Prelude.{
  ℕ, ◌*◌, ◌==◌, Bool, true, false, Option, none, some, List, [], ◌∷◌, Bytes, codes, ℤ,
}
use ousagi.Store.Inner.{Store, new_store}
use ousagi.Store.Items.{Item, new_item}
use ousagi.Tests.Crates.{roomy_cache}

abbrev pub test_now : ℕ
test_now = 1000000

abbrev pub test_memory_limit : ℕ
test_memory_limit = 1024 * 1024

abbrev pub item_at : ℤ → ℕ → Item
item_at secs_from_now now = new_item (codes "data") 0 secs_from_now 1 now

-- `Clock::mock` gives the time that the store starts with.
abbrev pub empty_store : Store roomy_cache
empty_store = new_store roomy_cache (Clock.mock test_now) test_memory_limit

-- The helpers `store_with` and `store_with_clock`: the clock stands in the store.
abbrev pub store_with : Bytes → Item → Store roomy_cache
store_with key item = record empty_store {
  items = (roomy_cache.insert empty_store.items key item).1;
}

abbrev pub mock_item : Bytes → ℕ → ℤ → ℕ → Item
mock_item payload flags exptime cas = new_item payload flags exptime cas test_now

abbrev pub store_args : Bytes → ℕ → ℤ → Bytes → Option ℕ → StoreArgs
store_args key flags exptime payload cas = record {
  key = key;
  flags = flags;
  exptime = exptime;
  payload = payload;
  noreply = false;
  cas = cas;
}

-- `Clock::advance`.
abbrev pub advance : ℕ → Store roomy_cache → Store roomy_cache
advance secs s = record s { shared_clock = Clock.advance secs s.shared_clock }

abbrev item_is : (Item → Bool) → Option Item → Bool
item_is test none = false
item_is test (some item) = test item

abbrev pub found : Bytes → Store roomy_cache → (Item → Bool) → Bool
found key s test = item_is test (roomy_cache.find s.items key)

abbrev is_none : Option Item → Bool
is_none none = true
is_none (some item) = false

abbrev pub missing : Bytes → Store roomy_cache → Bool
missing key s = is_none (roomy_cache.find s.items key)

abbrev pub values_are : Response → (List Value → Bool) → Bool
values_are (Response.values found_values) test = test found_values
values_are _ test = false

-- What is tested of `values[0]`.
abbrev pub on_first : List Value → (Value → Bool) → Bool
on_first [] test = false
on_first (value ∷ _) test = test value

abbrev pub is_stored : Response → Bool
is_stored Response.stored = true
is_stored _ = false

abbrev pub is_not_stored : Response → Bool
is_not_stored Response.not_stored = true
is_not_stored _ = false

abbrev pub is_exists : Response → Bool
is_exists Response.exists = true
is_exists _ = false

abbrev pub is_not_found : Response → Bool
is_not_found Response.not_found = true
is_not_found _ = false

abbrev pub is_deleted : Response → Bool
is_deleted Response.deleted = true
is_deleted _ = false

abbrev pub is_touched : Response → Bool
is_touched Response.touched = true
is_touched _ = false

abbrev pub is_ok : Response → Bool
is_ok Response.ok = true
is_ok _ = false

abbrev pub is_number : ℕ → Response → Bool
is_number n (Response.number m) = m == n
is_number n _ = false

abbrev pub is_client_error : Response → Bool
is_client_error (Response.client_error _) = true
is_client_error _ = false

abbrev pub is_server_error : Response → Bool
is_server_error (Response.server_error _) = true
is_server_error _ = false

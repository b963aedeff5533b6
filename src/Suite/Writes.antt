-- ===== src/Suite/Writes.antt =====
-- The unit tests of src/store.rs on storage commands.
use ousagi.Commands.{set, add, replace, append, prepend, cas}
use ousagi.Store.Inner.{new_store}
use ousagi.Store.Items.{new_item}
use ousagi.Store.Writes.{store}
use ousagi.Suite.{same_option, all_true}
use ousagi.Suite.Stores.{
  empty_store, store_with, mock_item, store_args, found, missing, is_stored, is_not_stored,
  is_exists, is_not_found, is_server_error,
}
use ousagi.Tests.Crates.{roomy_cache}
use ousagi.Prelude.{
  ◌≡◌, refl, ◌==◌, Bool, true, not, ◌&&◌, none, some, [], ◌∷◌, codes, bytes_eq, pos, negsuc,
}

abbrev add_new_key_stores_it_and_returns_stored : Bool
add_new_key_stores_it_and_returns_stored =
    let s0 = empty_store in
    let (resp, s1) =
      store roomy_cache add (store_args (codes "foo") 42 (pos 0) (codes "hello") none) s0 in
    is_stored resp
    && found (codes "foo") s1 (λ item. bytes_eq item.payload (codes "hello") && item.flags == 42)

abbrev add_existing_key_fails_and_returns_not_stored : Bool
add_existing_key_fails_and_returns_not_stored =
    let s0 = store_with (codes "foo") (mock_item (codes "hello") 42 (pos 0) 1) in
    let (resp, s1) =
      store roomy_cache add (store_args (codes "foo") 50 (pos 0) (codes "jello") none) s0 in
    is_not_stored resp
    && found (codes "foo") s1 (λ item. bytes_eq item.payload (codes "hello") && item.flags == 42)

abbrev add_existing_expired_key_overwrites_it_and_returns_stored : Bool
add_existing_expired_key_overwrites_it_and_returns_stored =
    let s0 = store_with (codes "foo") (mock_item (codes "hello") 42 (negsuc 0) 1) in
    let (resp, s1) =
      store roomy_cache add (store_args (codes "foo") 50 (pos 0) (codes "jello") none) s0 in
    is_stored resp
    && found (codes "foo") s1 (λ item. bytes_eq item.payload (codes "jello") && item.flags == 50)

abbrev set_new_key_stores_value : Bool
set_new_key_stores_value =
    let s0 = empty_store in
    let (resp, s1) =
      store roomy_cache set (store_args (codes "foo") 42 (pos 0) (codes "hello") none) s0 in
    is_stored resp
    && found (codes "foo") s1 (λ item. bytes_eq item.payload (codes "hello") && item.flags == 42)

abbrev set_overwrites_existing_key : Bool
set_overwrites_existing_key =
    let s0 = store_with (codes "foo") (mock_item (codes "hello") 42 (pos 0) 1) in
    let (resp, s1) =
      store roomy_cache set (store_args (codes "foo") 50 (pos 0) (codes "jello") none) s0 in
    is_stored resp
    && found (codes "foo") s1 (λ item. bytes_eq item.payload (codes "jello") && item.flags == 50)

abbrev replace_existing_key_stores_new_value : Bool
replace_existing_key_stores_new_value =
    let s0 = store_with (codes "foo") (mock_item (codes "hello") 42 (pos 0) 1) in
    let (resp, s1) =
      store roomy_cache replace (store_args (codes "foo") 50 (pos 0) (codes "jello") none) s0 in
    is_stored resp
    && found (codes "foo") s1 (λ item. bytes_eq item.payload (codes "jello") && item.flags == 50)

abbrev replace_missing_key_returns_not_stored : Bool
replace_missing_key_returns_not_stored =
    let s0 = empty_store in
    let (resp, s1) =
      store roomy_cache replace (store_args (codes "foo") 42 (pos 0) (codes "hello") none) s0 in
    is_not_stored resp && missing (codes "foo") s1

abbrev replace_expired_key_returns_not_stored : Bool
replace_expired_key_returns_not_stored =
    let s0 = store_with (codes "foo") (mock_item (codes "hello") 42 (negsuc 0) 1) in
    let (resp, s1) =
      store roomy_cache replace (store_args (codes "foo") 50 (pos 0) (codes "jello") none) s0 in
    is_not_stored resp && missing (codes "foo") s1

abbrev append_existing_key_appends_data_keeping_flags_and_expiry : Bool
append_existing_key_appends_data_keeping_flags_and_expiry =
    let original = mock_item (codes "hello") 42 (pos 100) 1 in
    let s0 = store_with (codes "foo") original in
    let (resp, s1) =
      store roomy_cache append (store_args (codes "foo") 0 (pos 0) (codes " world") none) s0 in
    is_stored resp
    && found (codes "foo") s1 (λ item.
      bytes_eq item.payload (codes "hello world")
      && item.flags == 42
      && same_option item.expires_at original.expires_at)

abbrev prepend_existing_key_prepends_data : Bool
prepend_existing_key_prepends_data =
    let s0 = store_with (codes "foo") (mock_item (codes "world") 42 (pos 0) 1) in
    let (resp, s1) =
      store roomy_cache prepend (store_args (codes "foo") 0 (pos 0) (codes "hello ") none) s0 in
    is_stored resp && found (codes "foo") s1 (λ item. bytes_eq item.payload (codes "hello world"))

abbrev append_missing_key_returns_not_stored : Bool
append_missing_key_returns_not_stored =
    let s0 = empty_store in
    let (resp, s1) =
      store roomy_cache append (store_args (codes "foo") 0 (pos 0) (codes "hello") none) s0 in
    is_not_stored resp && missing (codes "foo") s1

abbrev append_expired_key_returns_not_stored : Bool
append_expired_key_returns_not_stored =
    let s0 = store_with (codes "foo") (mock_item (codes "hello") 42 (negsuc 0) 1) in
    let (resp, s1) =
      store roomy_cache append (store_args (codes "foo") 0 (pos 0) (codes " world") none) s0 in
    is_not_stored resp && missing (codes "foo") s1

abbrev cas_matching_token_updates_value_and_returns_stored : Bool
cas_matching_token_updates_value_and_returns_stored =
    let s0 = store_with (codes "foo") (mock_item (codes "hello") 42 (pos 0) 7) in
    let (resp, s1) =
      store roomy_cache cas (store_args (codes "foo") 50 (pos 0) (codes "jello") (some 7)) s0 in
    is_stored resp
    && found (codes "foo") s1
        (λ item. bytes_eq item.payload (codes "jello") && item.flags == 50 && not (item.cas == 7))

abbrev cas_mismatched_token_returns_exists_and_leaves_value_unchanged : Bool
cas_mismatched_token_returns_exists_and_leaves_value_unchanged =
    let s0 = store_with (codes "foo") (mock_item (codes "hello") 42 (pos 0) 7) in
    let (resp, s1) =
      store roomy_cache cas (store_args (codes "foo") 42 (pos 0) (codes "jello") (some 999)) s0 in
    is_exists resp
    && found (codes "foo") s1 (λ item. bytes_eq item.payload (codes "hello") && item.cas == 7)

abbrev cas_missing_key_returns_not_found : Bool
cas_missing_key_returns_not_found =
    let s0 = empty_store in
    let (resp, s1) =
      store roomy_cache cas (store_args (codes "foo") 42 (pos 0) (codes "hello") (some 1)) s0 in
    is_not_found resp

abbrev cas_expired_key_returns_not_found : Bool
cas_expired_key_returns_not_found =
    let s0 = store_with (codes "foo") (mock_item (codes "hello") 42 (negsuc 0) 7) in
    let (resp, s1) =
      store roomy_cache cas (store_args (codes "foo") 42 (pos 0) (codes "jello") (some 7)) s0 in
    is_not_found resp && missing (codes "foo") s1

abbrev cas_without_cas_token_returns_server_error : Bool
cas_without_cas_token_returns_server_error =
    let s0 = store_with (codes "foo") (mock_item (codes "hello") 42 (pos 0) 7) in
    let (resp, s1) =
      store roomy_cache cas (store_args (codes "foo") 42 (pos 0) (codes "jello") none) s0 in
    is_server_error resp && found (codes "foo") s1 (λ item. bytes_eq item.payload (codes "hello"))

writes_pass :
    all_true (
      add_new_key_stores_it_and_returns_stored ∷ add_existing_key_fails_and_returns_not_stored
      ∷ add_existing_expired_key_overwrites_it_and_returns_stored ∷ set_new_key_stores_value
      ∷ set_overwrites_existing_key ∷ replace_existing_key_stores_new_value
      ∷ replace_missing_key_returns_not_stored ∷ replace_expired_key_returns_not_stored
      ∷ append_existing_key_appends_data_keeping_flags_and_expiry
      ∷ prepend_existing_key_prepends_data ∷ append_missing_key_returns_not_stored
      ∷ append_expired_key_returns_not_stored ∷ cas_matching_token_updates_value_and_returns_stored
      ∷ cas_mismatched_token_returns_exists_and_leaves_value_unchanged
      ∷ cas_missing_key_returns_not_found ∷ cas_expired_key_returns_not_found
      ∷ cas_without_cas_token_returns_server_error ∷ [])
    ≡ true
unfolding new_item new_store store bytes_eq
writes_pass = refl

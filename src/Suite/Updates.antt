-- ===== src/Suite/Updates.antt =====
-- The unit tests of src/store.rs on `delete`, `incr` and `decr`.
use ousagi.Commands.{incr, decr}
use ousagi.Store.Inner.{new_store}
use ousagi.Store.Items.{new_item}
use ousagi.Store.Writes.{delete}
use ousagi.Store.Updates.{arithmetic, numeric_value}
use ousagi.Suite.{all_true}
use ousagi.Suite.Stores.{
  empty_store, store_with, mock_item, found, missing, is_not_found, is_deleted, is_number,
  is_client_error,
}
use ousagi.Tests.Crates.{roomy_cache}
use ousagi.Text.{parse_u64, trim, to_string, from_utf8}
use ousagi.Prelude.{◌-◌, ◌^◌, ◌≡◌, refl, Bool, true, ◌&&◌, [], ◌∷◌, codes, bytes_eq, pos, negsuc}

abbrev delete_existing_key_returns_deleted_and_removes_it : Bool
delete_existing_key_returns_deleted_and_removes_it =
    let s0 = store_with (codes "foo") (mock_item (codes "hello") 42 (pos 0) 1) in
    let (resp, s1) = delete roomy_cache (codes "foo") s0 in
    is_deleted resp && missing (codes "foo") s1

abbrev delete_missing_key_returns_not_found : Bool
delete_missing_key_returns_not_found =
    let s0 = empty_store in
    let (resp, s1) = delete roomy_cache (codes "foo") s0 in is_not_found resp

abbrev incr_existing_key_increments_value_and_returns_it : Bool
incr_existing_key_increments_value_and_returns_it =
    let s0 = store_with (codes "foo") (mock_item (codes "10") 42 (pos 0) 1) in
    let (resp, s1) = arithmetic roomy_cache incr (codes "foo") 5 s0 in
    is_number 15 resp && found (codes "foo") s1 (λ item. bytes_eq item.payload (codes "15"))

abbrev incr_missing_key_returns_not_found : Bool
incr_missing_key_returns_not_found =
    let s0 = empty_store in
    let (resp, s1) = arithmetic roomy_cache incr (codes "foo") 5 s0 in is_not_found resp

abbrev incr_overflow_wraps_around : Bool
incr_overflow_wraps_around =
    let s0 = store_with (codes "foo") (mock_item (to_string (2 ^ 64 - 1)) 42 (pos 0) 1) in
    let (resp, s1) = arithmetic roomy_cache incr (codes "foo") 1 s0 in
    is_number 0 resp && found (codes "foo") s1 (λ item. bytes_eq item.payload (codes "0"))

abbrev decr_existing_key_decrements_value_and_returns_it : Bool
decr_existing_key_decrements_value_and_returns_it =
    let s0 = store_with (codes "foo") (mock_item (codes "10") 42 (pos 0) 1) in
    let (resp, s1) = arithmetic roomy_cache decr (codes "foo") 5 s0 in
    is_number 5 resp && found (codes "foo") s1 (λ item. bytes_eq item.payload (codes "5"))

abbrev decr_missing_key_returns_not_found : Bool
decr_missing_key_returns_not_found =
    let s0 = empty_store in
    let (resp, s1) = arithmetic roomy_cache decr (codes "foo") 5 s0 in is_not_found resp

abbrev decr_underflow_saturates_at_zero : Bool
decr_underflow_saturates_at_zero =
    let s0 = store_with (codes "foo") (mock_item (codes "0") 42 (pos 0) 1) in
    let (resp, s1) = arithmetic roomy_cache decr (codes "foo") 1 s0 in
    is_number 0 resp && found (codes "foo") s1 (λ item. bytes_eq item.payload (codes "0"))

abbrev incr_expired_key_is_evicted_and_returns_not_found : Bool
incr_expired_key_is_evicted_and_returns_not_found =
    let s0 = store_with (codes "foo") (mock_item (codes "10") 42 (negsuc 0) 1) in
    let (resp, s1) = arithmetic roomy_cache incr (codes "foo") 5 s0 in
    is_not_found resp && missing (codes "foo") s1

abbrev incr_non_numeric_value_returns_client_error : Bool
incr_non_numeric_value_returns_client_error =
    let s0 = store_with (codes "foo") (mock_item (codes "not_a_number") 42 (pos 0) 1) in
    let (resp, s1) = arithmetic roomy_cache incr (codes "foo") 5 s0 in
    is_client_error resp
    && found (codes "foo") s1 (λ item. bytes_eq item.payload (codes "not_a_number"))

abbrev decr_expired_key_is_evicted_and_returns_not_found : Bool
decr_expired_key_is_evicted_and_returns_not_found =
    let s0 = store_with (codes "foo") (mock_item (codes "10") 42 (negsuc 0) 1) in
    let (resp, s1) = arithmetic roomy_cache decr (codes "foo") 5 s0 in
    is_not_found resp && missing (codes "foo") s1

updates_pass :
    all_true (
      delete_existing_key_returns_deleted_and_removes_it ∷ delete_missing_key_returns_not_found
      ∷ incr_existing_key_increments_value_and_returns_it ∷ incr_missing_key_returns_not_found
      ∷ incr_overflow_wraps_around ∷ decr_existing_key_decrements_value_and_returns_it
      ∷ decr_missing_key_returns_not_found ∷ decr_underflow_saturates_at_zero
      ∷ incr_expired_key_is_evicted_and_returns_not_found
      ∷ incr_non_numeric_value_returns_client_error
      ∷ decr_expired_key_is_evicted_and_returns_not_found ∷ [])
    ≡ true
unfolding new_item new_store delete arithmetic bytes_eq to_string parse_u64 numeric_value from_utf8
    trim
updates_pass = refl

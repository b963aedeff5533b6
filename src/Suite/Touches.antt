-- ===== src/Suite/Touches.antt =====
-- The unit tests of src/store.rs on `touch` and `flush_all`.
use ousagi.Store.Inner.{new_store, oldest_live}
use ousagi.Store.Items.{new_item}
use ousagi.Store.Reads.{get}
use ousagi.Store.Updates.{touch, flush, item_count}
use ousagi.Suite.{same_option, all_true}
use ousagi.Suite.Stores.{
  test_now, test_memory_limit, empty_store, store_with, mock_item, advance, found, missing,
  values_are, is_not_found, is_touched, is_ok,
}
use ousagi.Tests.Crates.{roomy_cache}
use ousagi.Prelude.{
  ◌+◌, ◌≡◌, refl, ◌==◌, Bool, true, false, ◌&&◌, none, some, [], ◌∷◌, codes, bytes_eq, length, pos,
  negsuc,
}

abbrev touch_existing_key_updates_expiry_and_returns_touched : Bool
touch_existing_key_updates_expiry_and_returns_touched =
    let s0 = store_with (codes "foo") (mock_item (codes "hello") 42 (pos 0) 1) in
    let (resp, s1) = touch roomy_cache (codes "foo") (pos 100) s0 in
    is_touched resp
    && found (codes "foo") s1 (λ item. same_option item.expires_at (some (test_now + 100)))

abbrev touch_missing_key_returns_not_found : Bool
touch_missing_key_returns_not_found =
    let s0 = empty_store in
    let (resp, s1) = touch roomy_cache (codes "foo") (pos 100) s0 in is_not_found resp

abbrev touch_preserves_data_and_flags : Bool
touch_preserves_data_and_flags =
    let s0 = store_with (codes "foo") (mock_item (codes "hello") 42 (pos 0) 1) in
    let (resp1_, s1) = touch roomy_cache (codes "foo") (pos 100) s0 in
    found (codes "foo") s1 (λ item. bytes_eq item.payload (codes "hello") && item.flags == 42)

abbrev touch_expired_key_is_evicted_and_returns_not_found : Bool
touch_expired_key_is_evicted_and_returns_not_found =
    let s0 = store_with (codes "foo") (mock_item (codes "hello") 42 (negsuc 0) 1) in
    let (resp, s1) = touch roomy_cache (codes "foo") (pos 100) s0 in
    is_not_found resp && missing (codes "foo") s1

abbrev flush_all_immediate_clears_all_items_and_returns_ok : Bool
flush_all_immediate_clears_all_items_and_returns_ok =
    let s0 = store_with (codes "foo") (mock_item (codes "hello") 42 (pos 0) 1) in
    let (resp, s1) = flush roomy_cache none s0 in is_ok resp && item_count roomy_cache s1 == 0

abbrev flush_all_with_delay_does_not_immediately_remove_items : Bool
flush_all_with_delay_does_not_immediately_remove_items =
    let s0 = store_with (codes "foo") (mock_item (codes "hello") 42 (pos 0) 1) in
    let (resp, s1) = flush roomy_cache (some 3600) s0 in
    is_ok resp && found (codes "foo") s1 (λ item. bytes_eq item.payload (codes "hello"))

abbrev flush_all_sets_oldest_live : Bool
flush_all_sets_oldest_live =
    let (resp, s1) = flush roomy_cache (some 30) (new_store roomy_cache 1000 test_memory_limit) in
    same_option (oldest_live roomy_cache s1) (some 1030)

abbrev flush_all_delayed_item_becomes_invisible_after_clock_advances_past_delay : Bool
flush_all_delayed_item_becomes_invisible_after_clock_advances_past_delay =
    let s0 = store_with (codes "foo") (mock_item (codes "hello") 42 (pos 0) 1) in
    let (resp, s1) = flush roomy_cache (some 10) s0 in
    let (before, s2) = get roomy_cache (codes "foo" ∷ []) false s1 in
    let (after, s3) = get roomy_cache (codes "foo" ∷ []) false (advance 11 s2) in
    values_are before (λ values. length values == 1)
    && values_are after (λ values. length values == 0)
    && missing (codes "foo") s3

touches_pass :
    all_true (
      touch_existing_key_updates_expiry_and_returns_touched ∷ touch_missing_key_returns_not_found
      ∷ touch_preserves_data_and_flags ∷ touch_expired_key_is_evicted_and_returns_not_found
      ∷ flush_all_immediate_clears_all_items_and_returns_ok
      ∷ flush_all_with_delay_does_not_immediately_remove_items ∷ flush_all_sets_oldest_live
      ∷ flush_all_delayed_item_becomes_invisible_after_clock_advances_past_delay ∷ [])
    ≡ true
unfolding new_item new_store touch flush get bytes_eq
touches_pass = refl

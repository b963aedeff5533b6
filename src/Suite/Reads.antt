-- ===== src/Suite/Reads.antt =====
-- The unit tests of src/store.rs on retrieval commands.
use ousagi.Commands.{set}
use ousagi.Store.Inner.{new_store}
use ousagi.Store.Items.{new_item}
use ousagi.Store.Reads.{get, get_and_touch}
use ousagi.Store.Writes.{store}
use ousagi.Suite.{same_option, all_true}
use ousagi.Suite.Stores.{
  test_now, empty_store, store_with, mock_item, store_args, found, missing, values_are, on_first,
}
use ousagi.Tests.Crates.{roomy_cache}
use ousagi.Prelude.{
  ◌+◌, ◌≡◌, refl, ◌==◌, Bool, true, false, not, ◌&&◌, none, some, [], ◌∷◌, codes, bytes_eq, length,
  pos, negsuc,
}

abbrev get_existing_key_returns_value_with_correct_flag_and_data : Bool
get_existing_key_returns_value_with_correct_flag_and_data =
    let s0 = store_with (codes "foo") (mock_item (codes "hello") 42 (pos 0) 1) in
    let (resp, s1) = get roomy_cache (codes "foo" ∷ []) false s0 in
    values_are resp (λ values.
      length values == 1
      && on_first values (λ first.
        bytes_eq first.0 (codes "foo")
        && first.1 == 42
        && bytes_eq first.2 (codes "hello")
        && same_option first.3 none))

abbrev get_missing_key_returns_empty_values : Bool
get_missing_key_returns_empty_values =
    let s0 = store_with (codes "foo") (mock_item (codes "hello") 42 (pos 0) 1) in
    let (resp, s1) = get roomy_cache (codes "bar" ∷ []) false s0 in
    values_are resp (λ values. length values == 0)

abbrev get_multiple_existing_keys_returns_all_values : Bool
get_multiple_existing_keys_returns_all_values =
    let s0 = empty_store in
    let (resp1_, s1) =
      store roomy_cache set (store_args (codes "foo") 0 (pos 0) (codes "a") none) s0 in
    let (resp2_, s2) =
      store roomy_cache set (store_args (codes "bar") 0 (pos 0) (codes "b") none) s1 in
    let (resp, s3) = get roomy_cache (codes "foo" ∷ codes "bar" ∷ []) false s2 in
    values_are resp (λ values. length values == 2)

abbrev get_multiple_keys_skips_missing_one : Bool
get_multiple_keys_skips_missing_one =
    let s0 = store_with (codes "foo") (mock_item (codes "hello") 42 (pos 0) 1) in
    let (resp, s1) = get roomy_cache (codes "foo" ∷ codes "bar" ∷ []) false s0 in
    values_are resp (λ values. length values == 1)

abbrev get_expired_key_is_treated_as_missing_and_lazily_removed : Bool
get_expired_key_is_treated_as_missing_and_lazily_removed =
    let s0 = store_with (codes "foo") (mock_item (codes "hello") 42 (negsuc 0) 1) in
    let (resp, s1) = get roomy_cache (codes "foo" ∷ []) false s0 in
    values_are resp (λ values. length values == 0) && missing (codes "foo") s1

abbrev gat_hit_updates_expiry_and_returns_value : Bool
gat_hit_updates_expiry_and_returns_value =
    let s0 = store_with (codes "foo") (mock_item (codes "hello") 42 (pos 0) 999) in
    let (resp, s1) = get_and_touch roomy_cache (codes "foo" ∷ []) (pos 100) false s0 in
    values_are resp (λ values.
      length values == 1
      && on_first values (λ first.
        bytes_eq first.0 (codes "foo")
        && first.1 == 42
        && bytes_eq first.2 (codes "hello")
        && same_option first.3 none))
    && found (codes "foo") s1 (λ item. same_option item.expires_at (some (test_now + 100)))

abbrev gat_hit_with_cas_returns_new_cas_token : Bool
gat_hit_with_cas_returns_new_cas_token =
    let s0 = store_with (codes "foo") (mock_item (codes "hello") 42 (pos 0) 999) in
    let (resp, s1) = get_and_touch roomy_cache (codes "foo" ∷ []) (pos 100) true s0 in
    values_are resp (λ values.
      on_first values
        (λ first. not (same_option first.3 none) && not (same_option first.3 (some 999))))

reads_pass :
    all_true (
      get_existing_key_returns_value_with_correct_flag_and_data
      ∷ get_missing_key_returns_empty_values ∷ get_multiple_existing_keys_returns_all_values
      ∷ get_multiple_keys_skips_missing_one
      ∷ get_expired_key_is_treated_as_missing_and_lazily_removed
      ∷ gat_hit_updates_expiry_and_returns_value ∷ gat_hit_with_cas_returns_new_cas_token ∷ [])
    ≡ true
unfolding new_item new_store get get_and_touch store bytes_eq
reads_pass = refl

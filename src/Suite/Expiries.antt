-- ===== src/Suite/Expiries.antt =====
-- The unit tests of src/store.rs on items and on the store alone.
use ousagi.Store.Inner.{new_store, next_cas, oldest_live}
use ousagi.Store.Items.{resolve_expiry, is_expired, new_item, thirty_days_secs}
use ousagi.Suite.{same_option, all_true}
use ousagi.Suite.Stores.{test_memory_limit, item_at}
use ousagi.Tests.Crates.{roomy_cache}
use ousagi.Prelude.{
  ◌+◌, ◌-◌, ◌^◌, ◌≡◌, refl, ◌==◌, Bool, true, not, ◌&&◌, none, some, [], ◌∷◌, pos, negsuc,
}

abbrev resolve_expiry_zero_means_never_expires : Bool
resolve_expiry_zero_means_never_expires = same_option (resolve_expiry (pos 0) 1000) none

abbrev resolve_expiry_negative_means_already_expired : Bool
resolve_expiry_negative_means_already_expired =
    same_option (resolve_expiry (negsuc 0) 1000) (some 0)

abbrev resolve_expiry_relative_time_under_threshold : Bool
resolve_expiry_relative_time_under_threshold =
    same_option (resolve_expiry (pos 60) 1000) (some 1060)

abbrev resolve_expiry_at_thirty_day_boundary_is_relative : Bool
resolve_expiry_at_thirty_day_boundary_is_relative =
    same_option (resolve_expiry (pos thirty_days_secs) 1000) (some (1000 + thirty_days_secs))

abbrev resolve_expiry_just_over_thirty_day_boundary_is_absolute : Bool
resolve_expiry_just_over_thirty_day_boundary_is_absolute =
    same_option (resolve_expiry (pos (thirty_days_secs + 1)) 1000) (some (thirty_days_secs + 1))

abbrev item_expired_at_expires_at : Bool
item_expired_at_expires_at = is_expired (item_at (pos 60) 1000) 1060 none

abbrev item_not_expired_before_expires_at : Bool
item_not_expired_before_expires_at = not (is_expired (item_at (pos 60) 1000) 1059 none)

abbrev item_with_no_expiry_never_expires_by_time : Bool
item_with_no_expiry_never_expires_by_time =
    not (is_expired (item_at (pos 0) 1000) (2 ^ 64 - 1) none)

abbrev item_expired_by_oldest_live_cutoff : Bool
item_expired_by_oldest_live_cutoff = is_expired (item_at (pos 0) 1000) 1001 (some 1001)

abbrev item_stored_exactly_at_oldest_live_cutoff_not_expired : Bool
item_stored_exactly_at_oldest_live_cutoff_not_expired =
    not (is_expired (item_at (pos 0) 1000) 1000 (some 1000))

abbrev next_cas_starts_at_one_and_increments : Bool
next_cas_starts_at_one_and_increments =
    let (first, s1) = next_cas roomy_cache (new_store roomy_cache 1000 test_memory_limit) in
    let (second, s2) = next_cas roomy_cache s1 in first == 1 && second == 2

abbrev oldest_live_defaults_to_none : Bool
oldest_live_defaults_to_none =
    same_option (oldest_live roomy_cache (new_store roomy_cache 1000 test_memory_limit)) none

expiries_pass :
    all_true (
      resolve_expiry_zero_means_never_expires ∷ resolve_expiry_negative_means_already_expired
      ∷ resolve_expiry_relative_time_under_threshold
      ∷ resolve_expiry_at_thirty_day_boundary_is_relative
      ∷ resolve_expiry_just_over_thirty_day_boundary_is_absolute ∷ item_expired_at_expires_at
      ∷ item_not_expired_before_expires_at ∷ item_with_no_expiry_never_expires_by_time
      ∷ item_expired_by_oldest_live_cutoff ∷ item_stored_exactly_at_oldest_live_cutoff_not_expired
      ∷ next_cas_starts_at_one_and_increments ∷ oldest_live_defaults_to_none ∷ [])
    ≡ true
unfolding resolve_expiry new_item is_expired new_store
expiries_pass = refl

-- ===== src/Store/Items.antt =====
-- src/store.rs: `Item`, its expiry and its weight.
use ousagi.Prelude.{
  ℕ, zero, suc, ◌+◌, ◌*◌, ◌%◌, ◌^◌, Bool, true, false, ◌&&◌, Option, none, some, Bytes, length, ℤ,
  pos, negsuc, ltb, leb, if◌then◌else◌,
}

abbrev pub thirty_days_secs : ℕ
thirty_days_secs = 60 * 60 * 24 * 30

-- `payload` is the field `data`.
pub record Item : Type 0 where
  pub payload : Bytes
  pub flags : ℕ
  pub expires_at : Option ℕ
  pub cas : ℕ
  pub stored_at : ℕ

-- `u64` addition, which wraps in a release build.
abbrev pub add_u64 : ℕ → ℕ → ℕ
add_u64 a b = (a + b) % 2 ^ 64

unfoldable pub resolve_expiry : ℤ → ℕ → Option ℕ
resolve_expiry (pos zero) now = none
resolve_expiry (pos (suc n)) now =
    if leb (suc n) thirty_days_secs then some (add_u64 now (suc n)) else some (suc n)
resolve_expiry (negsuc n) now = some 0

-- `Item::new`.
unfoldable pub new_item : Bytes → ℕ → ℤ → ℕ → ℕ → Item
unfolding resolve_expiry
new_item payload flags exptime cas now = record {
  payload = payload;
  flags = flags;
  expires_at = resolve_expiry exptime now;
  cas = cas;
  stored_at = now;
}

-- `is_some_and(|t| now >= t)`.
abbrev pub expires : Option ℕ → ℕ → Bool
expires none now = false
expires (some t) now = leb t now

-- Whether a delayed flush has reached the item.
abbrev pub flushed : Item → ℕ → Option ℕ → Bool
flushed item now none = false
flushed item now (some cutoff) = leb cutoff now && ltb item.stored_at cutoff

unfoldable pub is_expired : Item → ℕ → Option ℕ → Bool
is_expired item now oldest_live =
    if expires item.expires_at now
    then true
    else if flushed item now oldest_live
    then true
    else false

-- `ItemWeighter::weight`.
unfoldable pub weight : Bytes → Item → ℕ
weight key item = (length key + length item.payload + 64) % 2 ^ 64

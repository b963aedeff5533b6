-- ===== src/Stats.antt =====
-- src/stats.rs: the counters and their report. A counter of the crate `contatori` is modelled by the
-- number that was added to it, less what was taken off; the crate spreads that sum over threads.
use ousagi.Prelude.{ℕ, ◌+◌, ◌-◌, String, List, [], ◌∷◌, Bytes, ◌==◌, if◌then◌else◌}
use ousagi.Text.{to_string}

pub data Counter : Type 0 where
  curr_connections total_connections : Counter
  cmd_get cmd_gat cmd_set cmd_incr cmd_decr cmd_touch cmd_flush : Counter
  get_hits get_misses get_expired gat_hits gat_misses : Counter
  cas_hits cas_misses cas_badval : Counter
  incr_hits incr_misses decr_hits decr_misses : Counter
  touch_hits touch_misses delete_hits delete_misses : Counter
  total_items evictions bytes_read bytes_written : Counter

-- The counters are statics: a number of its own for each.
abbrev pub index : Counter → ℕ
index curr_connections = 0
index total_connections = 1
index cmd_get = 2
index cmd_gat = 3
index cmd_set = 4
index cmd_incr = 5
index cmd_decr = 6
index cmd_touch = 7
index cmd_flush = 8
index get_hits = 9
index get_misses = 10
index get_expired = 11
index gat_hits = 12
index gat_misses = 13
index cas_hits = 14
index cas_misses = 15
index cas_badval = 16
index incr_hits = 17
index incr_misses = 18
index decr_hits = 19
index decr_misses = 20
index touch_hits = 21
index touch_misses = 22
index delete_hits = 23
index delete_misses = 24
index total_items = 25
index evictions = 26
index bytes_read = 27
index bytes_written = 28

abbrev pub Stats : Type 0
Stats = Counter → ℕ

-- Every counter starts at 0.
abbrev pub new_stats : Stats
new_stats c = 0

unfoldable pub add : Counter → ℕ → Stats → Stats
add c n st d = if index c == index d then st d + n else st d

unfoldable pub sub : Counter → ℕ → Stats → Stats
sub c n st d = if index c == index d then st d - n else st d

abbrev line : Stats → Counter → String → String × Bytes
line st c name = (name, to_string (st c))

unfoldable pub report : Stats → ℕ → List (String × Bytes)
report st curr_items =
    line st curr_connections "curr_connections"
    ∷ line st total_connections "total_connections"
    ∷ line st cmd_get "cmd_get"
    ∷ line st cmd_gat "cmd_gat"
    ∷ line st cmd_set "cmd_set"
    ∷ line st cmd_incr "cmd_incr"
    ∷ line st cmd_decr "cmd_decr"
    ∷ line st cmd_touch "cmd_touch"
    ∷ line st cmd_flush "cmd_flush"
    ∷ line st get_hits "get_hits"
    ∷ line st get_misses "get_misses"
    ∷ line st get_expired "get_expired"
    ∷ line st gat_hits "gat_hits"
    ∷ line st gat_misses "gat_misses"
    ∷ line st cas_hits "cas_hits"
    ∷ line st cas_misses "cas_misses"
    ∷ line st cas_badval "cas_badval"
    ∷ line st incr_hits "incr_hits"
    ∷ line st incr_misses "incr_misses"
    ∷ line st decr_hits "decr_hits"
    ∷ line st decr_misses "decr_misses"
    ∷ line st touch_hits "touch_hits"
    ∷ line st touch_misses "touch_misses"
    ∷ line st delete_hits "delete_hits"
    ∷ line st delete_misses "delete_misses"
    ∷ ("curr_items", to_string curr_items)
    ∷ line st total_items "total_items"
    ∷ line st evictions "evictions"
    ∷ line st bytes_read "bytes_read"
    ∷ line st bytes_written "bytes_written"
    ∷ []

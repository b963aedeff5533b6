-- ===== src/Tests.antt =====
-- Runs of the parser and the store on small inputs, and the theorems applied to them.
pub mod Crates
mod Data
mod Wire
mod Runs
mod Server
mod Tasks
mod Session
use ousagi.Commands.{Value, Command, StoreArgs, Response, set, cas, add, append, incr, replace}
use ousagi.Handler.{handle}
use ousagi.Parser.{parse_command_line}
use ousagi.Parser.Grammar.{command_words}
use ousagi.Parser.Header.{CommandHeader, PendingStore}
use ousagi.Parser.Keys.{IsKey, extract_key-IsKey}
use ousagi.Parser.Refines.{parse_command_line-words}
use ousagi.Parser.Tokens.{next, validate_key, extract_key}
use ousagi.Parser.WellFormed.{IsHeader, parse_command_line-IsHeader}
use ousagi.Parser.Words.{words}
use ousagi.Prelude.{
  inl, ℕ, ◌^◌, ◌+◌, ◌<◌, ◌≡◌, refl, ◌↔◌, Bool, true, false, Option, none, some, List, [], ◌∷◌,
  Bytes, bytes_eq, position, any, ◌∙◌, sym, codes, ℤ, pos, Result, ok, err, All, arith,
}
use ousagi.Stats
use ousagi.Store.Additions.{add-Implements}
use ousagi.Store.Books.{Balanced}
use ousagi.Store.Balance.{Reach-Balanced}
use ousagi.Store.Cache.{Cache}
use ousagi.Store.Expiry.{view-set_clock-store}
use ousagi.Store.Effects.{
  arithmetic-Implements, touch-Implements, delete-Implements, arithmetic_outcome, touch_outcome,
  delete_outcome,
}
use ousagi.Store.Flushes.{left_after, flush-left_after, numeric_value-apply_op}
use ousagi.Store.Hits.{hits, IsSeen, get-hits, get-IsSeen}
use ousagi.Store.Idle.{idle, handle-idle}
use ousagi.Store.Inner.{Store, new_store, on_evict}
use ousagi.Store.Items.{Item, new_item}
use ousagi.Store.Outcomes.{outcome, store-Implements}
use ousagi.Store.Reads.{get, get_and_touch}
use ousagi.Store.Touches.{touches, get_and_touch-touches}
use ousagi.Store.Tokens.{tokens, handle-Advances}
use ousagi.Store.Traces.{Reach, set_clock, Reach-token, cas_overwrites_what_was_read}
use ousagi.Store.Updates.{flush, apply_op, numeric_value, arithmetic, touch}
use ousagi.Store.Versions.{Advances, find_item}
use ousagi.Store.View.{evicted_so_far, Implements, view}
use ousagi.Store.Writes.{store, delete, args_item}
use ousagi.Text.{parse_u64, trim, to_string}
use Data.{key, set_args, cas_args, empty, one_item, later, item}
use Crates.{roomy_cache, whole_text_atoi}

from_empty : Reach roomy_cache empty one_item
unfolding new_store
from_empty = Reach.command (Reach.here refl) (Command.store set set_args) (omega arith) refl

tick_later : Reach roomy_cache one_item later
tick_later = Reach.tick (Reach.here refl) 1001 refl

item_found : find_item roomy_cache one_item key ≡ some item
unfolding handle store new_store bytes_eq new_item
item_found = refl

cas_is_stored : (store roomy_cache cas cas_args later).0 ≡ Response.stored
unfolding handle store new_store set_clock bytes_eq new_item
cas_is_stored = refl

cas_overwrites_what_was_read_example : find_item roomy_cache later key ≡ some item
cas_overwrites_what_was_read_example =
    cas_overwrites_what_was_read roomy_cache 1000 1024 key item cas_args from_empty item_found
      tick_later refl refl cas_is_stored

Reach-token_example : item.cas < one_item.next_cas
Reach-token_example = Reach-token roomy_cache 1000 1024 from_empty key item item_found

handle-Advances_example :
    Advances roomy_cache empty (handle roomy_cache (Command.store set set_args) empty).1
handle-Advances_example =
    handle-Advances roomy_cache (Command.store set set_args) empty (unfold new_store in omega arith)

abbrev append_args : StoreArgs
append_args = record set_args { payload = codes "7" }

store-Implements_example :
    Implements roomy_cache key one_item (store roomy_cache append append_args one_item) (
      outcome append append_args
        (args_item append_args one_item.next_cas one_item.shared_clock)
        one_item.next_cas
        (view roomy_cache one_item key))
store-Implements_example = store-Implements roomy_cache append append_args one_item (λ same. cc)

add-Implements_example :
    Implements roomy_cache key one_item (store roomy_cache add append_args one_item) (
      outcome add append_args
        (args_item append_args one_item.next_cas one_item.shared_clock)
        one_item.next_cas
        (view roomy_cache one_item key))
add-Implements_example = add-Implements roomy_cache (λ c k i. refl) append_args one_item

arithmetic-Implements_example :
    Implements roomy_cache key one_item
      (arithmetic roomy_cache incr key 3 one_item)
      (arithmetic_outcome incr 3 one_item.next_cas (view roomy_cache one_item key))
arithmetic-Implements_example = arithmetic-Implements roomy_cache incr key 3 one_item

touch-Implements_example :
    Implements roomy_cache key one_item (touch roomy_cache key (pos 60) one_item) (
      touch_outcome
        (pos 60)
        one_item.shared_clock
        one_item.next_cas
        (view roomy_cache one_item key))
touch-Implements_example = touch-Implements roomy_cache key (pos 60) one_item

delete-Implements_example :
    Implements roomy_cache key one_item
      (delete roomy_cache key one_item)
      (delete_outcome (view roomy_cache one_item key))
delete-Implements_example = delete-Implements roomy_cache key one_item

none_evicted : evicted_so_far (get roomy_cache (key ∷ []) true one_item).1.stats ≡ 0
unfolding handle get store new_store bytes_eq new_item Stats.add on_evict
none_evicted = refl

none_evicted_before : evicted_so_far one_item.stats ≡ 0
unfolding handle store new_store Stats.add on_evict
none_evicted_before = refl

get-hits_example :
    (get roomy_cache (key ∷ []) true one_item).0
    ≡ Response.values (hits true (view roomy_cache one_item) (key ∷ []))
get-hits_example =
    get-hits roomy_cache (key ∷ []) true one_item (none_evicted ∙ sym none_evicted_before)

get-IsSeen_example :
    (vs : List Value) × ((get roomy_cache (key ∷ []) true one_item).0 ≡ Response.values vs)
    × All (IsSeen true (view roomy_cache one_item)) vs
get-IsSeen_example = get-IsSeen roomy_cache (key ∷ []) true one_item

abbrev set_line : Bytes
set_line = codes "set  k 7 0 1 "

abbrev set_header : CommandHeader
set_header = CommandHeader.store (record {
  op = set;
  key = key;
  flags = 7;
  exptime = pos 0;
  len = 1;
  cas = none;
  noreply = false;
})

set_line_parsed : parse_command_line whole_text_atoi set_line ≡ ok set_header
unfolding parse_command_line next bytes_eq position parse_u64 trim validate_key any
set_line_parsed = refl

parse_command_line-words_example :
    parse_command_line whole_text_atoi set_line ≡ command_words whole_text_atoi (words set_line)
parse_command_line-words_example = parse_command_line-words whole_text_atoi set_line

parse_command_line-IsHeader_example : IsHeader set_header
parse_command_line-IsHeader_example =
    parse_command_line-IsHeader whole_text_atoi set_line set_header set_line_parsed

flush-left_after_example :
    ((flush roomy_cache (some 5) one_item).0 ≡ Response.ok)
    × (view roomy_cache (set_clock roomy_cache 1004 (flush roomy_cache (some 5) one_item).1) key
        ≡ left_after (some 5) one_item.shared_clock 1004 (roomy_cache.find one_item.items key))
unfolding handle store new_store
flush-left_after_example = flush-left_after roomy_cache (some 5) 1004 one_item key (omega arith)

handle-idle_example :
    idle (handle roomy_cache (Command.get_and_touch (key ∷ []) (pos 60) false) one_item).1.stats
    ≡ idle one_item.stats
handle-idle_example =
    handle-idle roomy_cache (Command.get_and_touch (key ∷ []) (pos 60) false) one_item

none_evicted_by_touch :
    evicted_so_far (get_and_touch roomy_cache (key ∷ key ∷ []) (pos 60) true one_item).1.stats ≡ 0
unfolding handle get_and_touch store new_store bytes_eq new_item Stats.add on_evict
none_evicted_by_touch = refl

get_and_touch-touches_example :
    (let (values, token, see) =
        touches true
          (pos 60)
          1000
          none
          (key ∷ key ∷ [])
          one_item.next_cas
          (view roomy_cache one_item) in
      ((get_and_touch roomy_cache (key ∷ key ∷ []) (pos 60) true one_item).0
        ≡ Response.values values)
      × ((get_and_touch roomy_cache (key ∷ key ∷ []) (pos 60) true one_item).1.next_cas ≡ token)
      × (view roomy_cache (get_and_touch roomy_cache (key ∷ key ∷ []) (pos 60) true one_item).1
          ≡ see))
unfolding handle store new_store
get_and_touch-touches_example =
    get_and_touch-touches roomy_cache (key ∷ key ∷ []) (pos 60) true one_item
      (none_evicted_by_touch ∙ sym none_evicted_before)

Reach-Balanced_example : Balanced one_item.stats
Reach-Balanced_example = Reach-Balanced roomy_cache 1000 1024 from_empty

abbrev brief_args : StoreArgs
brief_args = record set_args { exptime = pos 60 }

none_evicted_by_set :
    evicted_so_far (store roomy_cache set brief_args one_item).1.stats
    ≡ evicted_so_far one_item.stats
unfolding handle store new_store Stats.add on_evict
none_evicted_by_set = refl

view-set_clock-store_example :
    view roomy_cache (set_clock roomy_cache 1059 (store roomy_cache set brief_args one_item).1) key
    ≡ some (args_item brief_args one_item.next_cas one_item.shared_clock)
unfolding handle store new_store
view-set_clock-store_example =
    view-set_clock-store roomy_cache brief_args 1059 one_item (omega arith) refl none_evicted_by_set

extract_key-IsKey_example : (extract_key key ≡ ok key) ↔ IsKey key
extract_key-IsKey_example = extract_key-IsKey key

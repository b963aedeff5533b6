-- ===== src/Suite/Storages.antt =====
-- The unit tests of src/parser.rs on storage commands and `delete`.
use ousagi.Commands.{Command}
use ousagi.Parser.{parse_command_line}
use ousagi.Parser.Header.{max_item_size}
use ousagi.Parser.Tokens.{next, validate_key}
use ousagi.Suite.{
  expect_immediate, expect_store, expect_error, same_option, same_int, is_set, is_add, is_replace,
  is_append, is_prepend, is_cas, is_bad_format, is_too_large, is_unknown, all_true,
}
use ousagi.Text.{parse_u64, trim, to_string}
use ousagi.Prelude.{
  ◌+◌, ◌≡◌, refl, ◌==◌, Bool, true, false, not, ◌&&◌, none, some, [], ◌∷◌, ◌++◌, codes, bytes_eq,
  any, position, pos,
}

abbrev set_with_invalid_flags_discards_payload : Bool
set_with_invalid_flags_discards_payload =
    expect_error (codes "set foo not_a_number 0 5")
      (λ err. is_bad_format err.kind && same_option err.discard (some (5 + 2)))

abbrev set_parses_all_fields_correctly : Bool
set_parses_all_fields_correctly = expect_store (codes "set foo 42 0 5") (λ pending.
    is_set pending.op
    && bytes_eq pending.key (codes "foo")
    && pending.flags == 42
    && same_int pending.exptime (pos 0)
    && pending.len == 5
    && same_option pending.cas none
    && not pending.noreply)

abbrev set_item_larger_than_max_item_size_fails : Bool
set_item_larger_than_max_item_size_fails =
    expect_error (codes "set foo 0 0 " ++ to_string (max_item_size + 1))
      (λ err. is_too_large err.kind && same_option err.discard (some (max_item_size + 1 + 2)))

abbrev set_item_at_max_item_size_parses_correctly : Bool
set_item_at_max_item_size_parses_correctly =
    expect_store (codes "set foo 0 0 " ++ to_string max_item_size)
      (λ pending. pending.len == max_item_size)

abbrev set_with_invalid_key_and_valid_len_discards_payload : Bool
set_with_invalid_key_and_valid_len_discards_payload =
    expect_error (codes "set fo" ++ 0x01 ∷ codes "o 0 0 5")
      (λ err. is_bad_format err.kind && same_option err.discard (some (5 + 2)))

abbrev set_with_invalid_exptime_discards_payload : Bool
set_with_invalid_exptime_discards_payload =
    expect_error (codes "set foo 0 abc 5")
      (λ err. is_bad_format err.kind && same_option err.discard (some (5 + 2)))

abbrev set_missing_fields_fails : Bool
set_missing_fields_fails =
    expect_error (codes "set foo 0 0") (λ err. is_unknown err.kind && same_option err.discard none)

abbrev set_noreply_parses_correctly : Bool
set_noreply_parses_correctly =
    expect_store (codes "set foo 0 0 5 noreply") (λ pending. pending.noreply)

abbrev add_parses_correctly : Bool
add_parses_correctly = expect_store (codes "add foo 0 0 5") (λ pending. is_add pending.op)

abbrev replace_parses_correctly : Bool
replace_parses_correctly =
    expect_store (codes "replace foo 0 0 5") (λ pending. is_replace pending.op)

abbrev append_parses_correctly : Bool
append_parses_correctly = expect_store (codes "append foo 0 0 5") (λ pending. is_append pending.op)

abbrev prepend_parses_correctly : Bool
prepend_parses_correctly =
    expect_store (codes "prepend foo 0 0 5") (λ pending. is_prepend pending.op)

abbrev cas_with_valid_token_parses_correctly : Bool
cas_with_valid_token_parses_correctly =
    expect_store (codes "cas foo 0 0 5 8")
      (λ pending. is_cas pending.op && same_option pending.cas (some 8))

abbrev cas_missing_cas_token_fails : Bool
cas_missing_cas_token_fails =
    expect_error (codes "cas foo 0 0 5")
      (λ err. is_bad_format err.kind && same_option err.discard (some (5 + 2)))

abbrev cas_non_numeric_cas_token_fails : Bool
cas_non_numeric_cas_token_fails =
    expect_error (codes "cas foo 0 0 5 abc")
      (λ err. is_bad_format err.kind && same_option err.discard (some (5 + 2)))

abbrev delete_parses_correctly : Bool
delete_parses_correctly = expect_immediate (codes "delete foo") (λ cmd. elim cmd [
  | Command.delete key noreply ↦ bytes_eq key (codes "foo") && not noreply
  | _ ↦ false
])

abbrev delete_missing_key_fails : Bool
delete_missing_key_fails =
    expect_error (codes "delete") (λ err. is_unknown err.kind && same_option err.discard none)

abbrev delete_noreply_parses_correctly : Bool
delete_noreply_parses_correctly =
    expect_immediate (codes "delete foo noreply")
      (λ cmd. elim cmd [ Command.delete _ noreply ↦ noreply | _ ↦ false ])

storages_pass :
    all_true (
      set_with_invalid_flags_discards_payload ∷ set_parses_all_fields_correctly
      ∷ set_item_larger_than_max_item_size_fails ∷ set_item_at_max_item_size_parses_correctly
      ∷ set_with_invalid_key_and_valid_len_discards_payload
      ∷ set_with_invalid_exptime_discards_payload ∷ set_missing_fields_fails
      ∷ set_noreply_parses_correctly ∷ add_parses_correctly ∷ replace_parses_correctly
      ∷ append_parses_correctly ∷ prepend_parses_correctly ∷ cas_with_valid_token_parses_correctly
      ∷ cas_missing_cas_token_fails ∷ cas_non_numeric_cas_token_fails ∷ delete_parses_correctly
      ∷ delete_missing_key_fails ∷ delete_noreply_parses_correctly ∷ [])
    ≡ true
unfolding parse_command_line next position bytes_eq parse_u64 trim validate_key any to_string
storages_pass = refl

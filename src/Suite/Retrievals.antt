-- ===== src/Suite/Retrievals.antt =====
-- The unit tests of src/parser.rs on the tokenizer, keys and retrieval commands.
use ousagi.Commands.{Command}
use ousagi.Parser.{parse_command_line}
use ousagi.Parser.Tokens.{next, validate_key}
use ousagi.Suite.{
  expect_immediate, expect_error, same_keys, same_option, same_int, long_key, too_long_key,
  is_bad_format, is_unknown, all_true,
}
use ousagi.Text.{parse_u64, trim}
use ousagi.Prelude.{
  ◌≡◌, refl, Bool, true, false, not, ◌&&◌, none, [], ◌∷◌, ◌++◌, codes, bytes_eq, any, position, pos,
}

abbrev empty_line_fails_with_unknown : Bool
empty_line_fails_with_unknown =
    expect_error (codes "") (λ err. is_unknown err.kind && same_option err.discard none)

abbrev tokenizer_skips_leading_and_trailing_spaces : Bool
tokenizer_skips_leading_and_trailing_spaces = expect_immediate (codes " get foo ") (λ cmd.
    elim cmd [
      | Command.get keys with_cas ↦ same_keys keys (codes "foo" ∷ []) && not with_cas
      | _ ↦ false
    ])

abbrev tokenizer_skips_repeated_spaces_between_tokens : Bool
tokenizer_skips_repeated_spaces_between_tokens = expect_immediate (codes "get    foo") (λ cmd.
    elim cmd [
      | Command.get keys with_cas ↦ same_keys keys (codes "foo" ∷ []) && not with_cas
      | _ ↦ false
    ])

abbrev unknown_command_fails : Bool
unknown_command_fails =
    expect_error (codes "foo get") (λ err. is_unknown err.kind && same_option err.discard none)

abbrev key_at_max_length_parses_correctly : Bool
key_at_max_length_parses_correctly = expect_immediate (codes "get " ++ long_key) (λ cmd. elim cmd [
  | Command.get keys with_cas ↦ same_keys keys (long_key ∷ []) && not with_cas
  | _ ↦ false
])

abbrev key_exceeding_max_length_fails : Bool
key_exceeding_max_length_fails =
    expect_error (codes "get " ++ too_long_key)
      (λ err. is_bad_format err.kind && same_option err.discard none)

abbrev key_with_control_character_fails : Bool
key_with_control_character_fails =
    expect_error (codes "get foo" ++ 0x01 ∷ codes "bar")
      (λ err. is_bad_format err.kind && same_option err.discard none)

abbrev key_with_del_byte_fails : Bool
key_with_del_byte_fails =
    expect_error (codes "get foo" ++ 0x7f ∷ codes "bar")
      (λ err. is_bad_format err.kind && same_option err.discard none)

abbrev get_single_key_parses_correctly : Bool
get_single_key_parses_correctly = expect_immediate (codes "get foo") (λ cmd. elim cmd [
  | Command.get keys with_cas ↦ same_keys keys (codes "foo" ∷ []) && not with_cas
  | _ ↦ false
])

abbrev get_multiple_keys_parses_correctly : Bool
get_multiple_keys_parses_correctly = expect_immediate (codes "get foo bar baz") (λ cmd. elim cmd [
  | Command.get keys with_cas ↦
      same_keys keys (codes "foo" ∷ codes "bar" ∷ codes "baz" ∷ []) && not with_cas
  | _ ↦ false
])

abbrev get_with_no_keys_fails : Bool
get_with_no_keys_fails =
    expect_error (codes "get") (λ err. is_unknown err.kind && same_option err.discard none)

abbrev gets_sets_with_cas_true : Bool
gets_sets_with_cas_true = expect_immediate (codes "gets foo") (λ cmd. elim cmd [
  | Command.get keys with_cas ↦ same_keys keys (codes "foo" ∷ []) && with_cas
  | _ ↦ false
])

abbrev gat_single_key_parses_correctly : Bool
gat_single_key_parses_correctly = expect_immediate (codes "gat 100 foo") (λ cmd. elim cmd [
  | Command.get_and_touch keys exptime with_cas ↦
      same_keys keys (codes "foo" ∷ []) && same_int exptime (pos 100) && not with_cas
  | _ ↦ false
])

abbrev gat_multiple_keys_parses_correctly : Bool
gat_multiple_keys_parses_correctly = expect_immediate (codes "gat 100 foo bar baz") (λ cmd.
    elim cmd [
      | Command.get_and_touch keys exptime with_cas ↦
          same_keys keys (codes "foo" ∷ codes "bar" ∷ codes "baz" ∷ [])
          && same_int exptime (pos 100)
          && not with_cas
      | _ ↦ false
    ])

abbrev gats_sets_with_cas_true : Bool
gats_sets_with_cas_true = expect_immediate (codes "gats 100 foo") (λ cmd. elim cmd [
  | Command.get_and_touch keys exptime with_cas ↦
      same_keys keys (codes "foo" ∷ []) && same_int exptime (pos 100) && with_cas
  | _ ↦ false
])

abbrev gat_with_missing_exptime_fails : Bool
gat_with_missing_exptime_fails =
    expect_error (codes "gat foo") (λ err. is_bad_format err.kind && same_option err.discard none)

abbrev gat_non_numeric_exptime_fails : Bool
gat_non_numeric_exptime_fails =
    expect_error (codes "gat abc foo")
      (λ err. is_bad_format err.kind && same_option err.discard none)

abbrev gat_with_exptime_but_no_keys_fails : Bool
gat_with_exptime_but_no_keys_fails =
    expect_error (codes "gat 100") (λ err. is_unknown err.kind && same_option err.discard none)

retrievals_pass :
    all_true (
      empty_line_fails_with_unknown ∷ tokenizer_skips_leading_and_trailing_spaces
      ∷ tokenizer_skips_repeated_spaces_between_tokens ∷ unknown_command_fails
      ∷ key_at_max_length_parses_correctly ∷ key_exceeding_max_length_fails
      ∷ key_with_control_character_fails ∷ key_with_del_byte_fails ∷ get_single_key_parses_correctly
      ∷ get_multiple_keys_parses_correctly ∷ get_with_no_keys_fails ∷ gets_sets_with_cas_true
      ∷ gat_single_key_parses_correctly ∷ gat_multiple_keys_parses_correctly
      ∷ gats_sets_with_cas_true ∷ gat_with_missing_exptime_fails ∷ gat_non_numeric_exptime_fails
      ∷ gat_with_exptime_but_no_keys_fails ∷ [])
    ≡ true
unfolding parse_command_line next position bytes_eq parse_u64 trim validate_key any
retrievals_pass = refl

-- ===== src/Suite/Others.antt =====
-- The unit tests of src/parser.rs on the other commands.
use ousagi.Commands.{Command}
use ousagi.Parser.{parse_command_line}
use ousagi.Parser.Tokens.{next, validate_key}
use ousagi.Tests.Crates.{whole_text_atoi}
use ousagi.Suite.{
  expect_immediate, expect_error, same_option, same_int, is_quit, is_incr, is_decr, is_bad_format,
  is_numeric_delta, is_numeric_delay, is_unknown, all_true,
}
use ousagi.Text.{parse_u64, trim}
use ousagi.Prelude.{
  ◌≡◌, refl, ◌==◌, Bool, true, false, not, ◌&&◌, none, some, [], ◌∷◌, codes, bytes_eq, any,
  position, pos,
}

abbrev incr_parses_correctly : Bool
incr_parses_correctly = expect_immediate (codes "incr foo 5") (λ cmd. elim cmd [
  | Command.arithmetic op key delta noreply ↦
      is_incr op && bytes_eq key (codes "foo") && delta == 5 && not noreply
  | _ ↦ false
])

abbrev decr_parses_correctly : Bool
decr_parses_correctly =
    expect_immediate (codes "decr foo 5")
      (λ cmd. elim cmd [ Command.arithmetic op _ _ _ ↦ is_decr op | _ ↦ false ])

abbrev incr_non_numeric_delta_fails : Bool
incr_non_numeric_delta_fails =
    expect_error (codes "incr foo abc")
      (λ err. is_numeric_delta err.kind && same_option err.discard none)

abbrev incr_negative_delta_fails : Bool
incr_negative_delta_fails =
    expect_error (codes "incr foo -5")
      (λ err. is_numeric_delta err.kind && same_option err.discard none)

abbrev touch_parses_correctly : Bool
touch_parses_correctly = expect_immediate (codes "touch foo 100") (λ cmd. elim cmd [
  | Command.touch key exptime noreply ↦
      bytes_eq key (codes "foo") && same_int exptime (pos 100) && not noreply
  | _ ↦ false
])

abbrev touch_missing_exptime_fails : Bool
touch_missing_exptime_fails =
    expect_error (codes "touch foo") (λ err. is_unknown err.kind && same_option err.discard none)

abbrev touch_non_numeric_exptime_fails : Bool
touch_non_numeric_exptime_fails =
    expect_error (codes "touch foo abc")
      (λ err. is_bad_format err.kind && same_option err.discard none)

abbrev flush_all_with_no_args_parses_correctly : Bool
flush_all_with_no_args_parses_correctly = expect_immediate (codes "flush_all") (λ cmd. elim cmd [
  | Command.flush_all delay noreply ↦ same_option delay none && not noreply
  | _ ↦ false
])

abbrev flush_all_with_delay_parses_correctly : Bool
flush_all_with_delay_parses_correctly = expect_immediate (codes "flush_all 30") (λ cmd. elim cmd [
  | Command.flush_all delay noreply ↦ same_option delay (some 30) && not noreply
  | _ ↦ false
])

abbrev flush_all_noreply_parses_correctly : Bool
flush_all_noreply_parses_correctly = expect_immediate (codes "flush_all noreply") (λ cmd. elim cmd [
  | Command.flush_all delay noreply ↦ same_option delay none && noreply
  | _ ↦ false
])

abbrev flush_all_with_delay_and_noreply_parses_correctly : Bool
flush_all_with_delay_and_noreply_parses_correctly =
    expect_immediate (codes "flush_all 30 noreply") (λ cmd. elim cmd [
      | Command.flush_all delay noreply ↦ same_option delay (some 30) && noreply
      | _ ↦ false
    ])

abbrev flush_all_noreply_followed_by_trailing_token_fails : Bool
flush_all_noreply_followed_by_trailing_token_fails =
    expect_error (codes "flush_all noreply foo")
      (λ err. is_bad_format err.kind && same_option err.discard none)

abbrev flush_all_non_numeric_delay_fails : Bool
flush_all_non_numeric_delay_fails =
    expect_error (codes "flush_all abc")
      (λ err. is_numeric_delay err.kind && same_option err.discard none)

abbrev version_parses_correctly : Bool
version_parses_correctly =
    expect_immediate (codes "version") (λ cmd. elim cmd [ Command.version ↦ true | _ ↦ false ])

abbrev verbosity_parses_correctly : Bool
verbosity_parses_correctly =
    expect_immediate (codes "verbosity 100") (λ cmd. elim cmd [
      | Command.verbosity level noreply ↦ level == 100 && not noreply
      | _ ↦ false
    ])

abbrev verbosity_with_trailing_token_fails : Bool
verbosity_with_trailing_token_fails =
    expect_error (codes "verbosity 100 foo")
      (λ err. is_bad_format err.kind && same_option err.discard none)

abbrev verbosity_non_numeric_level_fails : Bool
verbosity_non_numeric_level_fails =
    expect_error (codes "verbosity abc")
      (λ err. is_bad_format err.kind && same_option err.discard none)

abbrev stats_with_no_args_parses_correctly : Bool
stats_with_no_args_parses_correctly =
    expect_immediate (codes "stats") (λ cmd. elim cmd [ Command.stats ↦ true | _ ↦ false ])

abbrev stats_with_subcommand_fails : Bool
stats_with_subcommand_fails =
    expect_error (codes "stats cmd_get")
      (λ err. is_bad_format err.kind && same_option err.discard none)

abbrev quit_parses_correctly : Bool
quit_parses_correctly = is_quit (parse_command_line whole_text_atoi (codes "quit"))

others_pass :
    all_true (
      incr_parses_correctly ∷ decr_parses_correctly ∷ incr_non_numeric_delta_fails
      ∷ incr_negative_delta_fails ∷ touch_parses_correctly ∷ touch_missing_exptime_fails
      ∷ touch_non_numeric_exptime_fails ∷ flush_all_with_no_args_parses_correctly
      ∷ flush_all_with_delay_parses_correctly ∷ flush_all_noreply_parses_correctly
      ∷ flush_all_with_delay_and_noreply_parses_correctly
      ∷ flush_all_noreply_followed_by_trailing_token_fails ∷ flush_all_non_numeric_delay_fails
      ∷ version_parses_correctly ∷ verbosity_parses_correctly ∷ verbosity_with_trailing_token_fails
      ∷ verbosity_non_numeric_level_fails ∷ stats_with_no_args_parses_correctly
      ∷ stats_with_subcommand_fails ∷ quit_parses_correctly ∷ [])
    ≡ true
unfolding parse_command_line next position bytes_eq parse_u64 trim validate_key any
others_pass = refl

-- ===== src/Language/Error.antt =====
-- `CommandError` of crates/command/src/error.rs.
use vaylix.Prelude.{ℕ, String}

pub data CommandError : Type 0 where
  empty_command expected_opening_quote : CommandError
  unknown_command invalid_arity : String → CommandError
  invalid_integer invalid_option conflicting_options : String → String → CommandError
  unterminated_quoted_string : ℕ → CommandError

-- ===== src/Language/Parser.antt =====
-- `Parser::parse` of crates/command/src/parser.rs: the command of a line.
mod Options
mod Users
mod Yields
mod Consistent
pub mod Good
mod Admins
pub mod Typed
unfoldable pub use Options.*
unfoldable pub use Users.*
use Prim.Native.Char.{Char}
use vaylix.Prelude.{
  String, Bool, true, false, ◌||◌, Option, none, some, List, [], ◌∷◌, Result, ok, err, ◌>>=◌,
  str_eq, if◌then◌else◌,
}
use vaylix.Engine.Command.{Command, AdminCommand}
use vaylix.Language.Error.{CommandError, empty_command, unknown_command}
use vaylix.Language.Lexer.{Token, tokenize}
use vaylix.Language.Words.{keyword}

-- The parser of a command, by its keyword, on all the tokens.
unfoldable pub parse_command : String → List Token → Result CommandError Command
parse_command word tokens =
    if str_eq word "auth"
    then parse_auth tokens
    else if str_eq word "ping"
    then parse_ping tokens
    else if str_eq word "get"
    then parse_single_key tokens "get <key>" (λ x. Command.get x)
    else if str_eq word "set"
    then parse_set tokens
    else if str_eq word "setnx"
    then parse_setnx tokens
    else if str_eq word "getdel"
    then parse_single_key tokens "getdel <key>" (λ x. Command.get_del x)
    else if str_eq word "getex"
    then parse_getex tokens
    else if str_eq word "mget"
    then parse_mget tokens
    else if str_eq word "mset"
    then parse_mset tokens
    else if str_eq word "del" || str_eq word "delete"
    then parse_delete tokens
    else if str_eq word "exists"
    then parse_single_key tokens "exists <key>" (λ x. Command.exists x)
    else if str_eq word "incr"
    then parse_single_key tokens "incr <key>" (λ x. Command.incr x)
    else if str_eq word "decr"
    then parse_single_key tokens "decr <key>" (λ x. Command.decr x)
    else if str_eq word "expire"
    then parse_expire tokens
    else if str_eq word "ttl"
    then parse_single_key tokens "ttl <key>" (λ x. Command.ttl x)
    else if str_eq word "persist"
    then parse_single_key tokens "persist <key>" (λ x. Command.persist x)
    else if str_eq word "rename"
    then parse_rename tokens false
    else if str_eq word "renamenx"
    then parse_rename tokens true
    else if str_eq word "scan"
    then parse_scan tokens
    else if str_eq word "dbsize"
    then parse_no_args tokens (Command.db_size) "dbsize"
    else if str_eq word "count"
    then parse_no_args tokens (Command.count) "count"
    else if str_eq word "info"
    then parse_no_args tokens (Command.administrative AdminCommand.info) "info"
    else if str_eq word "metrics"
    then parse_metrics tokens
    else if str_eq word "list"
    then parse_no_args tokens (Command.list) "list"
    else if str_eq word "clear"
    then parse_no_args tokens (Command.clear) "clear"
    else if str_eq word "flushdb"
    then parse_no_args tokens (Command.clear) "flushdb"
    else if str_eq word "help"
    then parse_no_args tokens (Command.administrative AdminCommand.help) "help"
    else if str_eq word "exit" || str_eq word "quit"
    then parse_no_args tokens (Command.administrative AdminCommand.exit) "exit"
    else if str_eq word "save"
    then parse_no_args tokens (Command.administrative AdminCommand.save) "save"
    else if str_eq word "snapshot"
    then parse_no_args tokens (Command.administrative AdminCommand.snapshot) "snapshot"
    else if str_eq word "backup"
    then parse_backup tokens
    else if str_eq word "restore"
    then parse_restore tokens
    else if str_eq word "alter"
    then parse_alter tokens
    else if str_eq word "create"
    then parse_create tokens
    else if str_eq word "drop"
    then parse_drop tokens
    else if str_eq word "grant"
    then parse_grant tokens
    else if str_eq word "revoke"
    then parse_revoke tokens
    else if str_eq word "show"
    then parse_show tokens
    else if str_eq word "whoami"
    then parse_no_args tokens (Command.administrative AdminCommand.who_am_i) "whoami"
    else if str_eq word "multi"
    then parse_no_args tokens (Command.administrative AdminCommand.multi) "multi"
    else if str_eq word "exec"
    then parse_no_args tokens (Command.administrative AdminCommand.exec) "exec"
    else if str_eq word "discard"
    then parse_no_args tokens (Command.administrative AdminCommand.discard) "discard"
    else if str_eq word "maintenance"
    then parse_maintenance tokens
    else if str_eq word "health"
    then parse_no_args tokens (Command.administrative AdminCommand.health) "health"
    else if str_eq word "cluster"
    then parse_cluster tokens
    else if str_eq word "promote"
    then parse_promote tokens
    else if str_eq word "pause"
    then parse_replication_toggle tokens true
    else if str_eq word "resume"
    then parse_replication_toggle tokens false
    else err (unknown_command word)

unfoldable pub parse_tokens : List Token → Result CommandError Command
parse_tokens [] = err empty_command
parse_tokens (t ∷ rest) = parse_command (keyword t) (t ∷ rest)

abbrev pub parse_all :
    Option (Result CommandError (List Token)) → Option (Result CommandError Command)
parse_all none = none
parse_all (some tokens) = some (tokens >>= parse_tokens)

-- `none` is an end of the lexer's fuel.
unfoldable pub parse : List Char → Option (Result CommandError Command)
parse input = parse_all (tokenize input)

-- ===== src/Language/Parser/Typed.antt =====
-- Every command that crates/command/src/parser.rs gives, and what the transport relies on.
use Prim.Native.Char.{Char}
use vaylix.Prelude.{
  ℕ, ◌^◌, ◌≡◌, refl, Result, err, ◌>>=◌, String, Bool, true, false, ◌||◌, Option, none, some, List,
  [], ◌∷◌, ok, str_eq,
}
use vaylix.Text.{as_bytes}
use vaylix.Engine.Command.{Command}
use vaylix.Transport.Request.RoundTrip.{Fits}
use vaylix.Language.Error.{CommandError}
use vaylix.Language.Lexer.{Token, tokenize}
use vaylix.Language.Words.{token_text, keyword}
use vaylix.Language.Parser.Yields.{
  ok-Yields, >>=-Yields, Below, options_loop-Yields, parse_u64-Yields,
}
use vaylix.Language.Parser.Consistent.{
  IsSetOptions, IsGetExOptions, IsScanOptions, set_option-Yields, getex_option-Yields,
  scan_option-Yields,
}
use vaylix.Language.Parser.{
  parse, parse_all, parse_command, parse_tokens, parse_set, parse_getex, getex_with, parse_scan,
  parse_setnx, parse_mget, parse_delete, parse_mset, mset_of, pairs, parse_expire, parse_rename,
  parse_ping, parse_single_key, parse_no_args, set_option, getex_option, scan_option,
  default_set_options, no_getex, no_scan,
}
use vaylix.Language.Parser.Good.{IsTyped, Good, bad, when◌then◌else◌}
use vaylix.Language.Parser.Admins.{
  parse_auth-Yields, parse_backup-Yields, parse_restore-Yields, parse_metrics-Yields,
  parse_maintenance-Yields, parse_promote-Yields, parse_cluster-Yields,
  parse_replication_toggle-Yields, parse_alter-Yields, parse_create-Yields, parse_drop-Yields,
  parse_grant-Yields, parse_revoke-Yields, parse_show-Yields,
}

parse_set-Yields : (ts : List Token) → Good (parse_set ts)
unfolding parse_set
parse_set-Yields (_ ∷ key ∷ value ∷ rest) =
    >>=-Yields IsTyped IsSetOptions _ _
      (options_loop-Yields IsSetOptions set_option (λ t r o v. set_option-Yields o v t r) 0 rest
        default_set_options
        (record { version = tt; expiration = tt; one_condition = refl; one_ttl = refl }))
      (λ o v. ok-Yields IsTyped (Command.set (token_text key) (as_bytes (token_text value)) o) v)
parse_set-Yields [] = bad _
parse_set-Yields (_ ∷ []) = bad _
parse_set-Yields (_ ∷ _ ∷ []) = bad _

getex_with-Yields : (key : Token) (rest : List Token) → Good (getex_with key rest)
unfolding getex_with
getex_with-Yields key rest =
    >>=-Yields IsTyped IsGetExOptions _ _
      (options_loop-Yields IsGetExOptions getex_option getex_option-Yields 0 rest no_getex
        (tt, refl))
      (λ o v. ok-Yields IsTyped (Command.get_ex (token_text key) o.0 o.1) v)

parse_getex-Yields : (ts : List Token) → Good (parse_getex ts)
unfolding parse_getex
parse_getex-Yields (_ ∷ key ∷ []) = getex_with-Yields key []
parse_getex-Yields (_ ∷ key ∷ x ∷ []) = getex_with-Yields key (x ∷ [])
parse_getex-Yields (_ ∷ key ∷ x ∷ y ∷ []) = getex_with-Yields key (x ∷ y ∷ [])
parse_getex-Yields _ = bad _

parse_scan-Yields : (ts : List Token) → Good (parse_scan ts)
unfolding parse_scan
parse_scan-Yields (_ ∷ c ∷ rest) =
    >>=-Yields IsTyped (Below (2 ^ 64)) _ _ (parse_u64-Yields "cursor" c) λ cursor h.
      >>=-Yields IsTyped IsScanOptions _ _
        (options_loop-Yields IsScanOptions scan_option scan_option-Yields 0 rest no_scan tt)
        (λ o v. ok-Yields IsTyped (Command.scan cursor o.0 o.1) (h, v))
parse_scan-Yields _ = bad _

parse_expire-Yields : (ts : List Token) → Good (parse_expire ts)
unfolding parse_expire
parse_expire-Yields (_ ∷ key ∷ seconds ∷ []) =
    >>=-Yields IsTyped (Below (2 ^ 64)) _ _ (parse_u64-Yields "seconds" seconds)
      (λ n h. ok-Yields IsTyped (Command.expire (token_text key) n) h)
parse_expire-Yields _ = bad _

parse_setnx-Yields : (ts : List Token) → Good (parse_setnx ts)
unfolding parse_setnx
parse_setnx-Yields (_ ∷ k ∷ v ∷ []) =
    ok-Yields IsTyped (Command.set_nx (token_text k) (as_bytes (token_text v))) tt
parse_setnx-Yields _ = bad _

parse_mget-Yields : (ts : List Token) → Good (parse_mget ts)
unfolding parse_mget
parse_mget-Yields (_ ∷ key ∷ keys) = ok-Yields IsTyped _ tt
parse_mget-Yields _ = bad _

parse_delete-Yields : (ts : List Token) → Good (parse_delete ts)
unfolding parse_delete
parse_delete-Yields (_ ∷ key ∷ keys) = ok-Yields IsTyped _ tt
parse_delete-Yields _ = bad _

mset_of-Yields : (o : Option (List (String × List ℕ))) → Good (mset_of o)
mset_of-Yields none = bad _
mset_of-Yields (some []) = bad _
mset_of-Yields (some (e ∷ entries)) = ok-Yields IsTyped (Command.mset (e ∷ entries)) tt

parse_mset-Yields : (ts : List Token) → Good (parse_mset ts)
unfolding parse_mset
parse_mset-Yields [] = bad _
parse_mset-Yields (_ ∷ rest) = mset_of-Yields (pairs rest)

parse_rename-Yields : (ts : List Token) (nx : Bool) → Good (parse_rename ts nx)
unfolding parse_rename
parse_rename-Yields (_ ∷ a ∷ b ∷ []) true = ok-Yields IsTyped _ tt
parse_rename-Yields (_ ∷ a ∷ b ∷ []) false = ok-Yields IsTyped _ tt
parse_rename-Yields _ nx = bad _

parse_ping-Yields : (ts : List Token) → Good (parse_ping ts)
unfolding parse_ping
parse_ping-Yields (_ ∷ []) = ok-Yields IsTyped (Command.ping none) tt
parse_ping-Yields (_ ∷ m ∷ []) = ok-Yields IsTyped (Command.ping (some (token_text m))) tt
parse_ping-Yields _ = bad _

parse_single_key-Yields :
    (ts : List Token) (usage : String) (make : String → Command)
    → ((k : String) → IsTyped (make k))
    → Good (parse_single_key ts usage make)
unfolding parse_single_key
parse_single_key-Yields (_ ∷ k ∷ []) usage make h = ok-Yields IsTyped _ (h (token_text k))
parse_single_key-Yields _ usage make h = bad _

parse_no_args-Yields :
    (ts : List Token) (c : Command) (usage : String) → IsTyped c → Good (parse_no_args ts c usage)
unfolding parse_no_args
parse_no_args-Yields (_ ∷ []) c usage h = ok-Yields IsTyped c h
parse_no_args-Yields _ c usage h = bad _

parse_command-Yields : (word : String) (ts : List Token) → Good (parse_command word ts)
unfolding parse_command
parse_command-Yields word ts =
    when str_eq word "auth"
    then parse_auth-Yields ts
    else when str_eq word "ping"
    then parse_ping-Yields ts
    else when str_eq word "get"
    then parse_single_key-Yields ts _ _ (λ k. tt)
    else when str_eq word "set"
    then parse_set-Yields ts
    else when str_eq word "setnx"
    then parse_setnx-Yields ts
    else when str_eq word "getdel"
    then parse_single_key-Yields ts _ _ (λ k. tt)
    else when str_eq word "getex"
    then parse_getex-Yields ts
    else when str_eq word "mget"
    then parse_mget-Yields ts
    else when str_eq word "mset"
    then parse_mset-Yields ts
    else when str_eq word "del" || str_eq word "delete"
    then parse_delete-Yields ts
    else when str_eq word "exists"
    then parse_single_key-Yields ts _ _ (λ k. tt)
    else when str_eq word "incr"
    then parse_single_key-Yields ts _ _ (λ k. tt)
    else when str_eq word "decr"
    then parse_single_key-Yields ts _ _ (λ k. tt)
    else when str_eq word "expire"
    then parse_expire-Yields ts
    else when str_eq word "ttl"
    then parse_single_key-Yields ts _ _ (λ k. tt)
    else when str_eq word "persist"
    then parse_single_key-Yields ts _ _ (λ k. tt)
    else when str_eq word "rename"
    then parse_rename-Yields ts false
    else when str_eq word "renamenx"
    then parse_rename-Yields ts true
    else when str_eq word "scan"
    then parse_scan-Yields ts
    else when str_eq word "dbsize"
    then parse_no_args-Yields ts _ _ tt
    else when str_eq word "count"
    then parse_no_args-Yields ts _ _ tt
    else when str_eq word "info"
    then parse_no_args-Yields ts _ _ tt
    else when str_eq word "metrics"
    then parse_metrics-Yields ts
    else when str_eq word "list"
    then parse_no_args-Yields ts _ _ tt
    else when str_eq word "clear"
    then parse_no_args-Yields ts _ _ tt
    else when str_eq word "flushdb"
    then parse_no_args-Yields ts _ _ tt
    else when str_eq word "help"
    then parse_no_args-Yields ts _ _ tt
    else when str_eq word "exit" || str_eq word "quit"
    then parse_no_args-Yields ts _ _ tt
    else when str_eq word "save"
    then parse_no_args-Yields ts _ _ tt
    else when str_eq word "snapshot"
    then parse_no_args-Yields ts _ _ tt
    else when str_eq word "backup"
    then parse_backup-Yields ts
    else when str_eq word "restore"
    then parse_restore-Yields ts
    else when str_eq word "alter"
    then parse_alter-Yields ts
    else when str_eq word "create"
    then parse_create-Yields ts
    else when str_eq word "drop"
    then parse_drop-Yields ts
    else when str_eq word "grant"
    then parse_grant-Yields ts
    else when str_eq word "revoke"
    then parse_revoke-Yields ts
    else when str_eq word "show"
    then parse_show-Yields ts
    else when str_eq word "whoami"
    then parse_no_args-Yields ts _ _ tt
    else when str_eq word "multi"
    then parse_no_args-Yields ts _ _ tt
    else when str_eq word "exec"
    then parse_no_args-Yields ts _ _ tt
    else when str_eq word "discard"
    then parse_no_args-Yields ts _ _ tt
    else when str_eq word "maintenance"
    then parse_maintenance-Yields ts
    else when str_eq word "health"
    then parse_no_args-Yields ts _ _ tt
    else when str_eq word "cluster"
    then parse_cluster-Yields ts
    else when str_eq word "promote"
    then parse_promote-Yields ts
    else when str_eq word "pause"
    then parse_replication_toggle-Yields ts true
    else when str_eq word "resume"
    then parse_replication_toggle-Yields ts false
    else bad _

-- Every command that is parsed is typed.
pub parse_tokens-IsTyped : (ts : List Token) (c : Command) → parse_tokens ts ≡ ok c → IsTyped c
unfolding parse_tokens
parse_tokens-IsTyped [] c h = cc
parse_tokens-IsTyped (t ∷ rest) c h = (parse_command-Yields (keyword t) (t ∷ rest)).yields c h

-- The numbers of a typed command fit the payload of its request.
pub IsTyped-Fits : (c : Command) → IsTyped c → Fits c
IsTyped-Fits (Command.set key value o) h = (h.expiration, h.version)
IsTyped-Fits (Command.get_ex key e persist) h = h.0
IsTyped-Fits (Command.expire key n) h = h
IsTyped-Fits (Command.scan cursor pattern count) h = h
IsTyped-Fits (Command.ping m) h = tt
IsTyped-Fits _ h = tt

outcome-IsTyped :
    (r : Result CommandError (List Token)) (c : Command) → (r >>= parse_tokens) ≡ ok c → IsTyped c
outcome-IsTyped (ok ts) c h = parse_tokens-IsTyped ts c h
outcome-IsTyped (err e) c h = cc

parse_all-IsTyped :
    (o : Option (Result CommandError (List Token))) (c : Command)
    → parse_all o ≡ some (ok c)
    → IsTyped c
parse_all-IsTyped none c h = cc
parse_all-IsTyped (some r) c h = outcome-IsTyped r c (cc)

-- Every command that a line is parsed to is typed: its numbers fit the integers of their fields, SET
-- has no condition beside a version and no expiration beside KEEPTTL, and GETEX no expiration beside
-- PERSIST.
pub parse-IsTyped : (input : List Char) (c : Command) → parse input ≡ some (ok c) → IsTyped c
unfolding parse
parse-IsTyped input c h = parse_all-IsTyped (tokenize input) c h

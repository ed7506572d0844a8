-- ===== src/Language/Parser/Options.antt =====
-- The commands on keys in crates/command/src/parser.rs, with their options.
use vaylix.Prelude.{
  ℕ, zero, suc, String, Bool, true, false, Option, none, some, List, [], ◌∷◌, Result, ok, err,
  ◌>>=◌, str_eq, if◌then◌else◌,
}
use vaylix.Text.{as_bytes}
use vaylix.Engine.Command.{Command, SetCondition, Expiration, SetOptions}
use vaylix.Language.Error.{CommandError, invalid_arity, invalid_option, conflicting_options}
use vaylix.Language.Lexer.{Token}
use vaylix.Language.Words.{
  token_text, keyword, is_word, parse_u64, parse_following_u64, parse_following_u16,
}

abbrev pub is_some {ℓ} : {A : Type ℓ} → Option A → Bool
is_some none = false
is_some (some _) = true

abbrev pub default_set_options : SetOptions
default_set_options = record {
  condition = none;
  if_version = none;
  expiration = none;
  keep_ttl = false;
  return_previous = false;
}

abbrev pub conflict {ℓ} : {A : Type ℓ} → String → String → Result CommandError A
conflict command detail = err (conflicting_options command detail)

unfoldable pub set_condition : SetCondition → SetOptions → Result CommandError SetOptions
set_condition c o =
    if is_some o.condition
    then conflict "set" "only one of NX or XX may be specified"
    else if is_some o.if_version
    then conflict "set" "NX or XX cannot be combined with IF VERSION"
    else ok (record o { condition = some c })

unfoldable pub set_expiration : Expiration → SetOptions → Result CommandError SetOptions
set_expiration e o =
    if o.keep_ttl
    then conflict "set" "EX or PX cannot be combined with KEEPTTL"
    else if is_some o.expiration
    then conflict "set" "only one of EX or PX may be specified"
    else ok (record o { expiration = some e })

unfoldable pub set_keep_ttl : SetOptions → Result CommandError SetOptions
set_keep_ttl o =
    if o.keep_ttl
    then conflict "set" "KEEPTTL can only be specified once"
    else if is_some o.expiration
    then conflict "set" "KEEPTTL cannot be combined with EX or PX"
    else ok (record o { keep_ttl = true })

unfoldable pub set_return_previous : SetOptions → Result CommandError SetOptions
set_return_previous o =
    if o.return_previous
    then conflict "set" "GET can only be specified once"
    else ok (record o { return_previous = true })

abbrev pub set_usage : String
set_usage =
    "set <key> <value> [nx|xx] [if version <version>] [ex <seconds>|px <millis>] [keepttl] [get]"

unfoldable pub once_version : ℕ → SetOptions → Result CommandError SetOptions
once_version n o =
    if is_some o.if_version
    then conflict "set" "IF VERSION can only be specified once"
    else ok (record o { if_version = some n })

-- IF, with the tokens behind it.
unfoldable pub set_version : Token → List Token → SetOptions → Result CommandError SetOptions
set_version t [] o = err (invalid_option "set" (token_text t))
set_version t (v ∷ rest) o =
    if is_word "version" v
    then (if is_some o.condition
        then conflict "set" "IF VERSION cannot be combined with NX or XX"
        else (parse_following_u64 rest "version" set_usage >>= λ n. once_version n o))
    else err (invalid_option "set" (token_text t))

-- How many more tokens an option has taken, and the options then.
abbrev pub taking {ℓ} : {A : Type ℓ} → ℕ → Result CommandError A → Result CommandError (ℕ × A)
taking n (ok o) = ok (n, o)
taking n (err e) = err e

unfoldable pub set_option : Token → List Token → SetOptions → Result CommandError (ℕ × SetOptions)
set_option t rest o =
    let word = keyword t in
    if str_eq word "nx"
    then taking 0 (set_condition SetCondition.nx o)
    else if str_eq word "xx"
    then taking 0 (set_condition SetCondition.xx o)
    else if str_eq word "if"
    then taking 2 (set_version t rest o)
    else if str_eq word "ex"
    then taking 1
        (parse_following_u64 rest "seconds" set_usage >>= λ n. set_expiration (Expiration.ex n) o)
    else if str_eq word "px"
    then taking 1 (
        parse_following_u64 rest "milliseconds" set_usage >>= λ n.
        set_expiration (Expiration.px n) o)
    else if str_eq word "keepttl"
    then taking 0 (set_keep_ttl o)
    else if str_eq word "get"
    then taking 0 (set_return_previous o)
    else err (invalid_option "set" word)

-- A loop over the tokens, the next ones of which an option has taken already.
module _ {ℓ} {S : Type ℓ} (option : Token → List Token → S → Result CommandError (ℕ × S)) where
  unfoldable pub options_loop : ℕ → List Token → S → Result CommandError S
  options_loop skip [] o = ok o
  options_loop (suc skip) (t ∷ rest) o = options_loop skip rest o
  options_loop zero (t ∷ rest) o = option t rest o >>= λ (taken, o'). options_loop taken rest o'

unfoldable pub parse_set : List Token → Result CommandError Command
parse_set (_ ∷ key ∷ value ∷ rest) = options_loop set_option 0 rest default_set_options >>= λ o.
    ok (Command.set (token_text key) (as_bytes (token_text value)) o)
parse_set _ = err (invalid_arity set_usage)

-- The expiration of GETEX, and PERSIST.
abbrev pub GetExOptions : Type 0
GetExOptions = Option Expiration × Bool

abbrev pub getex_usage : String
getex_usage = "getex <key> [ex <seconds>|px <millis>|persist]"

abbrev pub expiring : Expiration → Bool → Result CommandError GetExOptions
expiring e persist = ok (some e, persist)

unfoldable pub getex_expiration :
    List Token → String → (ℕ → Expiration) → GetExOptions → Result CommandError GetExOptions
getex_expiration rest field make (e, persist) =
    if persist
    then conflict "getex" "PERSIST cannot be combined with EX or PX"
    else if is_some e
    then conflict "getex" "only one expiration modifier is allowed"
    else (parse_following_u64 rest field getex_usage >>= λ n. expiring (make n) persist)

unfoldable pub getex_persist : GetExOptions → Result CommandError GetExOptions
getex_persist (e, persist) =
    if persist
    then conflict "getex" "PERSIST can only be specified once"
    else if is_some e
    then conflict "getex" "PERSIST cannot be combined with EX or PX"
    else ok (e, true)

unfoldable pub getex_option :
    Token → List Token → GetExOptions → Result CommandError (ℕ × GetExOptions)
getex_option t rest o =
    let word = keyword t in
    if str_eq word "ex"
    then taking 1 (getex_expiration rest "seconds" (λ n. Expiration.ex n) o)
    else if str_eq word "px"
    then taking 1 (getex_expiration rest "milliseconds" (λ n. Expiration.px n) o)
    else if str_eq word "persist"
    then taking 0 (getex_persist o)
    else err (invalid_option "getex" word)

abbrev pub no_getex : GetExOptions
no_getex = (none, false)

unfoldable pub getex_with : Token → List Token → Result CommandError Command
getex_with key rest = options_loop getex_option 0 rest no_getex >>= λ (e, persist).
    ok (Command.get_ex (token_text key) e persist)

-- At most two tokens behind the key.
unfoldable pub parse_getex : List Token → Result CommandError Command
parse_getex (_ ∷ key ∷ []) = getex_with key []
parse_getex (_ ∷ key ∷ x ∷ []) = getex_with key (x ∷ [])
parse_getex (_ ∷ key ∷ x ∷ y ∷ []) = getex_with key (x ∷ y ∷ [])
parse_getex _ = err (invalid_arity getex_usage)

-- The pattern and the count of SCAN.
abbrev pub ScanOptions : Type 0
ScanOptions = Option String × Option ℕ

abbrev pub scan_usage : String
scan_usage = "scan <cursor> [match <pattern>] [count <n>]"

unfoldable pub scan_pattern : List Token → ScanOptions → Result CommandError ScanOptions
scan_pattern rest (some p, n) = conflict "scan" "MATCH can only be specified once"
scan_pattern [] (none, n) = err (invalid_arity scan_usage)
scan_pattern (t ∷ rest) (none, n) = ok (some (token_text t), n)

abbrev pub with_count : Option String → Result CommandError ℕ → Result CommandError ScanOptions
with_count p (ok n) = ok (p, some n)
with_count p (err e) = err e

unfoldable pub scan_count : List Token → ScanOptions → Result CommandError ScanOptions
scan_count rest (p, some n) = conflict "scan" "COUNT can only be specified once"
scan_count rest (p, none) = with_count p (parse_following_u16 rest "count" scan_usage)

unfoldable pub scan_option :
    Token → List Token → ScanOptions → Result CommandError (ℕ × ScanOptions)
scan_option t rest o =
    let word = keyword t in
    if str_eq word "match"
    then taking 1 (scan_pattern rest o)
    else if str_eq word "count"
    then taking 1 (scan_count rest o)
    else err (invalid_option "scan" word)

abbrev pub no_scan : ScanOptions
no_scan = (none, none)

unfoldable pub parse_scan : List Token → Result CommandError Command
parse_scan (_ ∷ c ∷ rest) = parse_u64 "cursor" c >>= λ cursor.
    options_loop scan_option 0 rest no_scan >>= λ (p, n). ok (Command.scan cursor p n)
parse_scan _ = err (invalid_arity scan_usage)

unfoldable pub parse_setnx : List Token → Result CommandError Command
parse_setnx (_ ∷ key ∷ value ∷ []) =
    ok (Command.set_nx (token_text key) (as_bytes (token_text value)))
parse_setnx _ = err (invalid_arity "setnx <key> <value>")

abbrev pub texts : List Token → List String
texts [] = []
texts (t ∷ rest) = token_text t ∷ texts rest

unfoldable pub parse_mget : List Token → Result CommandError Command
parse_mget (_ ∷ key ∷ keys) = ok (Command.mget (texts (key ∷ keys)))
parse_mget _ = err (invalid_arity "mget <key> [key ...]")

unfoldable pub parse_delete : List Token → Result CommandError Command
parse_delete (_ ∷ key ∷ keys) = ok (Command.delete (texts (key ∷ keys)))
parse_delete _ = err (invalid_arity "del <key> [key ...]")

abbrev pub with_pair :
    String → List ℕ → Option (List (String × List ℕ)) → Option (List (String × List ℕ))
with_pair k v none = none
with_pair k v (some entries) = some ((k, v) ∷ entries)

-- The pairs of MSET; a number of tokens that is odd is none.
unfoldable pub pairs : List Token → Option (List (String × List ℕ))
pairs [] = some []
pairs (_ ∷ []) = none
pairs (k ∷ v ∷ rest) = with_pair (token_text k) (as_bytes (token_text v)) (pairs rest)

abbrev pub mset_of : Option (List (String × List ℕ)) → Result CommandError Command
mset_of none = err (invalid_arity "mset <key> <value> [key value ...]")
mset_of (some []) = err (invalid_arity "mset <key> <value> [key value ...]")
mset_of (some (e ∷ entries)) = ok (Command.mset (e ∷ entries))

unfoldable pub parse_mset : List Token → Result CommandError Command
parse_mset [] = mset_of none
parse_mset (_ ∷ rest) = mset_of (pairs rest)

unfoldable pub parse_expire : List Token → Result CommandError Command
parse_expire (_ ∷ key ∷ seconds ∷ []) =
    parse_u64 "seconds" seconds >>= λ n. ok (Command.expire (token_text key) n)
parse_expire _ = err (invalid_arity "expire <key> <seconds>")

unfoldable pub parse_rename : List Token → Bool → Result CommandError Command
parse_rename (_ ∷ source ∷ destination ∷ []) nx =
    let s = token_text source in
    let d = token_text destination in ok (if nx then Command.rename_nx s d else Command.rename s d)
parse_rename _ nx = err (
    invalid_arity
      (if nx then "renamenx <source> <destination>" else "rename <source> <destination>"))

unfoldable pub parse_ping : List Token → Result CommandError Command
parse_ping (_ ∷ []) = ok (Command.ping none)
parse_ping (_ ∷ m ∷ []) = ok (Command.ping (some (token_text m)))
parse_ping _ = err (invalid_arity "ping [message]")

unfoldable pub parse_single_key :
    List Token → String → (String → Command) → Result CommandError Command
parse_single_key (_ ∷ key ∷ []) usage make = ok (make (token_text key))
parse_single_key _ usage make = err (invalid_arity usage)

unfoldable pub parse_no_args : List Token → Command → String → Result CommandError Command
parse_no_args (_ ∷ []) command usage = ok command
parse_no_args _ command usage = err (invalid_arity usage)

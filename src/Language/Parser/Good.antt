-- ===== src/Language/Parser/Good.antt =====
-- What a parsed command of crates/command/src/parser.rs promises the rest of the program.
use vaylix.Prelude.{◌<◌, Bool, Result, ok, err, if◌then◌else◌}
use vaylix.Engine.Command.{Command, AdminCommand}
use vaylix.Transport.Buf.{u16, u64, range}
use vaylix.Transport.Request.Trips.{OptionFits}
use vaylix.Language.Error.{CommandError}
use vaylix.Language.Parser.Yields.{Yields, err-Yields, ok-Yields, if-Yields}
use vaylix.Language.Parser.Consistent.{IsSetOptions, IsGetExOptions}

-- Numbers fit their types, SET has no condition beside a version and no expiration beside KEEPTTL,
-- and GETEX no expiration beside PERSIST.
abbrev pub IsTyped : Command → Type 0
IsTyped (Command.set key value o) = IsSetOptions o
IsTyped (Command.get_ex key e persist) = IsGetExOptions (e, persist)
IsTyped (Command.expire key n) = n < range u64
IsTyped (Command.scan cursor pattern count) = (cursor < range u64) × OptionFits u16 count
IsTyped _ = Unit {0}

abbrev pub Good : Result CommandError Command → Type 0
Good = Yields IsTyped

pub bad : (e : CommandError) → Good (err e)
bad = err-Yields IsTyped

pub choose :
    (t : Bool) {r s : Result CommandError Command} → Good r → Good s → Good (if t then r else s)
choose t y z = if-Yields IsTyped t y z

pub command : (c : AdminCommand) → Good (ok (Command.administrative c))
command c = ok-Yields IsTyped (Command.administrative c) tt

-- `choose`, as the parsers write it.
infix 1 when◌then◌else◌
pub when◌then◌else◌ :
    (t : Bool) {r s : Result CommandError Command} → Good r → Good s → Good (if t then r else s)
when◌then◌else◌ t y z = choose t y z

-- ===== src/Language/Parser/Consistent.antt =====
-- What the option loops of crates/command/src/parser.rs let through.
use vaylix.Prelude.{
  ℕ, ◌^◌, ◌<◌, ◌≡◌, refl, String, Bool, true, false, ◌&&◌, Option, none, some, List, [], ◌∷◌,
  Result, ok, err, ◌>>=◌, str_eq, if◌then◌else◌, arith,
}
use vaylix.Engine.Command.{SetCondition, Expiration, SetOptions}
use vaylix.Transport.Buf.{u16, u64}
use vaylix.Transport.Request.Trips.{OptionFits, ExpirationFits}
use vaylix.Language.Error.{CommandError, conflicting_options}
use vaylix.Language.Lexer.{Token}
use vaylix.Language.Words.{token_text, keyword, is_word, parse_following_u64}
use vaylix.Language.Parser.Options.{
  is_some, set_condition, set_expiration, set_keep_ttl, set_return_previous, once_version,
  set_version, set_usage, set_option, GetExOptions, getex_usage, getex_expiration, getex_persist,
  getex_option, ScanOptions, scan_usage, scan_pattern, with_count, scan_count, scan_option,
}
use vaylix.Language.Parser.Yields.{
  Yields, err-Yields, ok-Yields, if-Yields, >>=-Yields, Second, taking-Yields, Below,
  following_u64-Yields, following_u16-Yields,
}

-- The options of SET that the loop gives: numbers are `u64`s, a condition excludes a version, and an
-- expiration excludes KEEPTTL.
pub record IsSetOptions (o : SetOptions) : Type 0 where
  pub version : OptionFits u64 o.if_version
  pub expiration : ExpirationFits o.expiration
  pub one_condition : (is_some o.condition && is_some o.if_version) ≡ false
  pub one_ttl : (o.keep_ttl && is_some o.expiration) ≡ false

module _ (o : SetOptions) (v : IsSetOptions o) where
  set_condition-Yields : (c : SetCondition) → Yields IsSetOptions (set_condition c o)
  unfolding set_condition
  set_condition-Yields c = record { yields = λ a h. ground arith }

  set_expiration-Yields :
      (e : Expiration) → ExpirationFits (some e) → Yields IsSetOptions (set_expiration e o)
  unfolding set_expiration
  set_expiration-Yields e f = record { yields = λ a h. ground arith }

  set_keep_ttl-Yields : Yields IsSetOptions (set_keep_ttl o)
  unfolding set_keep_ttl
  set_keep_ttl-Yields = record { yields = λ a h. ground arith }

  set_return_previous-Yields : Yields IsSetOptions (set_return_previous o)
  unfolding set_return_previous
  set_return_previous-Yields = record { yields = λ a h. ground arith }

  once_version-Yields :
      (n : ℕ) → n < 2 ^ 64 → is_some o.condition ≡ false → Yields IsSetOptions (once_version n o)
  unfolding once_version
  once_version-Yields n h k = record { yields = λ a e. ground arith }

  set_version-Yields : (t : Token) (rest : List Token) → Yields IsSetOptions (set_version t rest o)
  unfolding set_version
  set_version-Yields t [] = err-Yields IsSetOptions _
  set_version-Yields t (w ∷ rest) =
      if-Yields IsSetOptions (is_word "version" w) (by_condition (is_some o.condition) refl)
        (err-Yields IsSetOptions _)
    where
      by_condition :
          (c : Bool)
          → is_some o.condition ≡ c
          → Yields IsSetOptions (
              if c
              then err (conflicting_options "set" "IF VERSION cannot be combined with NX or XX")
              else (parse_following_u64 rest "version" set_usage >>= λ n. once_version n o))
      by_condition true h = err-Yields IsSetOptions _
      by_condition false h =
          >>=-Yields IsSetOptions (Below (2 ^ 64)) _ _
            (following_u64-Yields rest "version" set_usage) (λ n k. once_version-Yields n k h)

  pub set_option-Yields :
      (t : Token) (rest : List Token) → Yields (Second IsSetOptions) (set_option t rest o)
  unfolding set_option
  set_option-Yields t rest =
      let word = keyword t in
      let P = IsSetOptions in
      let S = Second IsSetOptions in
      let number = λ (field : String). following_u64-Yields rest field set_usage in
      if-Yields S (str_eq word "nx") (taking-Yields P 0 _ (set_condition-Yields SetCondition.nx)) (
        if-Yields S (str_eq word "xx") (taking-Yields P 0 _ (set_condition-Yields SetCondition.xx))
          (if-Yields S (str_eq word "if") (taking-Yields P 2 _ (set_version-Yields t rest)) (
            if-Yields S (str_eq word "ex")
              (taking-Yields P 1 _ (
                >>=-Yields P (Below (2 ^ 64)) _ _ (number "seconds")
                  (λ n h. set_expiration-Yields (Expiration.ex n) h)))
              (if-Yields S (str_eq word "px")
                (taking-Yields P 1 _ (
                  >>=-Yields P (Below (2 ^ 64)) _ _ (number "milliseconds")
                    (λ n h. set_expiration-Yields (Expiration.px n) h)))
                (if-Yields S (str_eq word "keepttl") (taking-Yields P 0 _ set_keep_ttl-Yields) (
                  if-Yields S (str_eq word "get") (taking-Yields P 0 _ set_return_previous-Yields)
                    (err-Yields S _)))))))

-- GETEX with PERSIST has no expiration.
abbrev pub IsGetExOptions : GetExOptions → Type 0
IsGetExOptions (e, persist) = ExpirationFits e × ((persist && is_some e) ≡ false)

getex_expiration-Yields :
    (rest : List Token) (field : String) (make : ℕ → Expiration) (o : GetExOptions)
    → ((n : ℕ) → n < 2 ^ 64 → ExpirationFits (some (make n)))
    → Yields IsGetExOptions (getex_expiration rest field make o)
unfolding getex_expiration
getex_expiration-Yields rest field make (e, true) fits = err-Yields IsGetExOptions _
getex_expiration-Yields rest field make (some e, false) fits = err-Yields IsGetExOptions _
getex_expiration-Yields rest field make (none, false) fits =
    >>=-Yields IsGetExOptions (Below (2 ^ 64)) _ _ (following_u64-Yields rest field getex_usage)
      (λ n h. ok-Yields IsGetExOptions (some (make n), false) (fits n h, refl))

getex_persist-Yields : (o : GetExOptions) → Yields IsGetExOptions (getex_persist o)
unfolding getex_persist
getex_persist-Yields (e, true) = err-Yields IsGetExOptions _
getex_persist-Yields (some e, false) = err-Yields IsGetExOptions _
getex_persist-Yields (none, false) = ok-Yields IsGetExOptions (none, true) (tt, refl)

pub getex_option-Yields :
    (t : Token) (rest : List Token) (o : GetExOptions)
    → IsGetExOptions o
    → Yields (Second IsGetExOptions) (getex_option t rest o)
unfolding getex_option
getex_option-Yields t rest o v =
    let word = keyword t in
    let P = IsGetExOptions in
    let S = Second IsGetExOptions in
    if-Yields S (str_eq word "ex")
      (taking-Yields P 1 _ (getex_expiration-Yields rest "seconds" _ o (λ n h. h)))
      (if-Yields S (str_eq word "px")
        (taking-Yields P 1 _ (getex_expiration-Yields rest "milliseconds" _ o (λ n h. h)))
        (if-Yields S (str_eq word "persist") (taking-Yields P 0 _ (getex_persist-Yields o))
          (err-Yields S _)))

-- The count of SCAN is a `u16`.
abbrev pub IsScanOptions : ScanOptions → Type 0
IsScanOptions (p, n) = OptionFits u16 n

scan_pattern-Yields :
    (rest : List Token) (o : ScanOptions)
    → IsScanOptions o
    → Yields IsScanOptions (scan_pattern rest o)
unfolding scan_pattern
scan_pattern-Yields rest (some p, n) v = err-Yields IsScanOptions _
scan_pattern-Yields [] (none, n) v = err-Yields IsScanOptions _
scan_pattern-Yields (t ∷ rest) (none, n) v = ok-Yields IsScanOptions (some (token_text t), n) v

with_count-Yields :
    (p : Option String) (r : Result CommandError ℕ)
    → Yields (Below (2 ^ 16)) r
    → Yields IsScanOptions (with_count p r)
with_count-Yields p (ok n) y = ok-Yields IsScanOptions (p, some n) (y.yields n refl)
with_count-Yields p (err e) y = err-Yields IsScanOptions _

scan_count-Yields : (rest : List Token) (o : ScanOptions) → Yields IsScanOptions (scan_count rest o)
unfolding scan_count
scan_count-Yields rest (p, some n) = err-Yields IsScanOptions _
scan_count-Yields rest (p, none) =
    with_count-Yields p _ (following_u16-Yields rest "count" scan_usage)

pub scan_option-Yields :
    (t : Token) (rest : List Token) (o : ScanOptions)
    → IsScanOptions o
    → Yields (Second IsScanOptions) (scan_option t rest o)
unfolding scan_option
scan_option-Yields t rest o v =
    let word = keyword t in
    let P = IsScanOptions in
    let S = Second IsScanOptions in
    if-Yields S (str_eq word "match") (taking-Yields P 1 _ (scan_pattern-Yields rest o v)) (
      if-Yields S (str_eq word "count") (taking-Yields P 1 _ (scan_count-Yields rest o))
        (err-Yields S _))

-- ===== src/Language/Parser/Yields.antt =====
-- Properties of what the parsers of crates/command/src/parser.rs give, and the numbers that they read.
use mathlib.Core.Path.{subst}
use vaylix.Prelude.{
  ℕ, zero, suc, ◌^◌, ◌<◌, ◌≡◌, refl, String, Bool, true, false, Option, none, some, List, [], ◌∷◌,
  Result, ok, err, ◌>>=◌, if◌then◌else◌, arith,
}
use vaylix.Text.{as_bytes}
use vaylix.Language.Error.{CommandError}
use vaylix.Language.Lexer.{Token}
use vaylix.Language.Words.{
  token_text, or_invalid_integer, parse_unsigned, parse_u64, parse_u16, parse_following_u64,
  parse_following_u16,
}
use vaylix.Language.Parser.Options.{taking, options_loop}

-- If there is a result, it has the property.
pub record Yields {ℓ κ} {A : Type ℓ} (P : A → Type κ) (r : Result CommandError A)
    : Type (ℓ ⊔ κ) where
  pub yields : (a : A) → r ≡ ok a → P a

module _ {ℓ κ} {A : Type ℓ} (P : A → Type κ) where
  pub err-Yields : (e : CommandError) → Yields P (err e)
  err-Yields e = record { yields = λ a h. cc }

  pub ok-Yields : (a : A) → P a → Yields P (ok a)
  ok-Yields a p = record { yields = λ b h. subst P (cc) p }

  pub if-Yields :
      (t : Bool) {r s : Result CommandError A}
      → Yields P r
      → Yields P s
      → Yields P (if t then r else s)
  if-Yields true y z = y
  if-Yields false y z = z

  pub >>=-Yields {μ ν} :
      {B : Type μ} (Q : B → Type ν) (r : Result CommandError B) (f : B → Result CommandError A)
      → Yields Q r
      → ((b : B) → Q b → Yields P (f b))
      → Yields P (r >>= f)
  >>=-Yields Q (ok b) f y z = z b (y.yields b refl)
  >>=-Yields Q (err e) f y z = err-Yields e

  abbrev pub Second : ℕ × A → Type κ
  Second r = P r.1

  pub taking-Yields : (n : ℕ) (r : Result CommandError A) → Yields P r → Yields Second (taking n r)
  taking-Yields n (ok a) y = record {
    yields = λ b h. let e : ◌≡◌ {A = ℕ × A} (n, a) b = cc in subst Second e (y.yields a refl);
  }
  taking-Yields n (err e) y = record { yields = λ b h. cc }

  -- What every option keeps, the loop keeps.
  pub options_loop-Yields :
      (option : Token → List Token → A → Result CommandError (ℕ × A))
      → ((t : Token) (rest : List Token) (o : A) → P o → Yields Second (option t rest o))
      → (skip : ℕ) (ts : List Token) (o : A) → P o
      → Yields P (options_loop option skip ts o)
  unfolding options_loop
  options_loop-Yields option keep zero [] o p = ok-Yields o p
  options_loop-Yields option keep (suc skip) [] o p = ok-Yields o p
  options_loop-Yields option keep (suc skip) (t ∷ rest) o p =
      options_loop-Yields option keep skip rest o p
  options_loop-Yields option keep zero (t ∷ rest) o p =
      >>=-Yields Second (option t rest o) (λ r. options_loop option r.0 rest r.1) (keep t rest o p)
        (λ r q. options_loop-Yields option keep r.0 rest r.1 q)

abbrev pub Below : ℕ → ℕ → Type 0
Below limit n = n < limit

parse_unsigned-Below :
    (limit : ℕ) (cs : List ℕ) {n : ℕ} → parse_unsigned limit cs ≡ some n → n < limit
unfolding parse_unsigned
parse_unsigned-Below limit [] h = cc
parse_unsigned-Below limit (c ∷ rest) h = ground arith

integer_Yields :
    (limit : ℕ) (field : String) (t : Token) (o : Option ℕ)
    → ((n : ℕ) → o ≡ some n → n < limit)
    → Yields (Below limit) (or_invalid_integer field t o)
integer_Yields limit field t none f = err-Yields _ _
integer_Yields limit field t (some n) f = ok-Yields (Below limit) n (f n refl)

pub parse_u64-Yields : (field : String) (t : Token) → Yields (Below (2 ^ 64)) (parse_u64 field t)
unfolding parse_u64
parse_u64-Yields field t =
    let text = as_bytes (token_text t) in
    integer_Yields (2 ^ 64) field t (parse_unsigned (2 ^ 64) text)
      (λ n h. parse_unsigned-Below (2 ^ 64) text h)

parse_u16-Yields : (field : String) (t : Token) → Yields (Below (2 ^ 16)) (parse_u16 field t)
unfolding parse_u16
parse_u16-Yields field t =
    let text = as_bytes (token_text t) in
    integer_Yields (2 ^ 16) field t (parse_unsigned (2 ^ 16) text)
      (λ n h. parse_unsigned-Below (2 ^ 16) text h)

pub following_u64-Yields :
    (rest : List Token) (field usage : String)
    → Yields (Below (2 ^ 64)) (parse_following_u64 rest field usage)
unfolding parse_following_u64
following_u64-Yields [] field usage = err-Yields _ _
following_u64-Yields (t ∷ rest) field usage = parse_u64-Yields field t

pub following_u16-Yields :
    (rest : List Token) (field usage : String)
    → Yields (Below (2 ^ 16)) (parse_following_u16 rest field usage)
unfolding parse_following_u16
following_u16-Yields [] field usage = err-Yields _ _
following_u16-Yields (t ∷ rest) field usage = parse_u16-Yields field t

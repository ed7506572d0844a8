-- ===== src/Transport/Request/Trips.antt =====
-- Encoders of crates/transport/src/request against the readers of what they wrote.
use vaylix.Prelude.{
  ℕ, ◌<◌, ◌≡◌, refl, ◌∙◌, String, Bool, Option, none, some, List, [], ◌∷◌, ◌++◌, append_assoc,
  append-nil, ok, ◌>>=◌ as bind, >>=-eq-ok, length, ltb, ltb→lt, Bool-cases, inl, inr, arith,
}
use vaylix.Engine.Command.{SetCondition, Expiration}
use vaylix.Transport.Buf.{
  Width, u8, u64, range, Buf, Reader, pure, ◌>>=◌, >>=-ok, get_uint, read_uint, or_panic,
}
use vaylix.Transport.Primitives.{
  byte_of, ensure_empty, put_string_u16, put_bytes_u32, put_string_u32, read_string_u16,
  read_string_u32, read_bytes_u32, read_bool,
}
use vaylix.Transport.Primitives.RoundTrip.{
  read_uint-put, read_string_u16-put, read_string_u32-put, read_bytes_u32-put, read_bool-put,
}
use vaylix.Transport.Request.Encode.{
  Encoded, ◌&◌, encode_condition, encode_expiration, encode_optional, encode_key_bytes, put_keys,
  put_pairs, counted,
}
use vaylix.Transport.Request.Decode.{
  whole, decode_condition, decode_expiration, condition_of, expiration_of, unchecked_optional,
  optional_of, key_bytes_reader, read_many,
}

-- The numbers of a command that the payload has room for.
abbrev pub OptionFits : Width → Option ℕ → Type 0
OptionFits w none = Unit {0}
OptionFits w (some n) = n < range w

abbrev pub ExpirationFits : Option Expiration → Type 0
ExpirationFits none = Unit {0}
ExpirationFits (some (Expiration.ex n)) = n < range u64
ExpirationFits (some (Expiration.px n)) = n < range u64

-- The reader reads the value off what the encoder wrote, in front of any bytes.
pub record Trips {ℓ} {A : Type ℓ} (e : Encoded) (m : Reader A) (a : A) : Type ℓ where
  pub trip : (p rest : List ℕ) → e ≡ ok p → m (p ++ rest) ≡ ok (a, rest)

module _ {ℓ κ} {A : Type ℓ} {C : Type κ} where
  pub Trips-& :
      {e f : Encoded} {m : Reader A} (g : A → Reader C) {a : A} {c : C}
      → Trips e m a
      → Trips f (g a) c
      → Trips (e & f) (m >>= g) c
  Trips-& {e} {f} {m} g t u = record {
    trip = λ p rest h.
        let (x, hx, k) = >>=-eq-ok e (λ x. bind f (λ y. ok (x ++ y))) h in
        let (y, hy, l) = >>=-eq-ok f (λ y. ok (x ++ y)) k in
        let same : p ≡ x ++ y = cc in
        rw (same, append_assoc)
          (>>=-ok m g (x ++ (y ++ rest)) (t.trip x (y ++ rest) hx) ∙ u.trip y rest hy);
  }

  -- The last part of a payload, and the value made of the parts.
  pub Trips-last :
      {e : Encoded} {m : Reader A} (g : A → Reader C) {a : A} {c : C}
      → Trips e m a
      → ((s : List ℕ) → g a s ≡ ok (c, s))
      → Trips e (m >>= g) c
  Trips-last {m = m} g t made = record {
    trip = λ p rest h. >>=-ok m g (p ++ rest) (t.trip p rest h) ∙ made rest;
  }

pub nil_Trips {ℓ} : {A : Type ℓ} (a : A) → Trips (ok []) (pure a) a
nil_Trips a = record { trip = λ p rest h. let same : p ≡ [] = cc in rw same refl }

pub whole-Trips {ℓ} :
    {A : Type ℓ} {e : Encoded} {m : Reader A} {a : A}
    → Trips e m a
    → (p : List ℕ) → e ≡ ok p
    → whole m p ≡ ok a
unfolding whole ensure_empty
whole-Trips {m = m} t p h =
    let read : m p ≡ ok (_, []) = rw append-nil at (t.trip p [] h) in rw (read, whole) refl

module _ (b : Buf) where
  pub uint_Trips : (w : Width) (n : ℕ) → n < range w → Trips (ok (b.put w n)) (read_uint b w) n
  uint_Trips w n fits = record {
    trip = λ p rest h. let same : p ≡ b.put w n = cc in rw same (read_uint-put b w n rest fits);
  }

  -- The same, read with no check before it.
  pub unchecked_Trips : (w : Width) (n : ℕ) → n < range w → Trips (ok (b.put w n)) (get_uint b w) n
  unfolding get_uint
  unchecked_Trips w n fits = record {
    trip = λ p rest h.
        let same : p ≡ b.put w n = cc in rw same (rw (b.get-put w n rest fits, or_panic) refl);
  }

  pub bool_Trips : (x : Bool) → Trips (ok (b.put u8 (byte_of x))) (read_bool b) x
  bool_Trips x = record {
    trip = λ p rest h. let same : p ≡ b.put u8 (byte_of x) = cc in rw same (read_bool-put b x rest);
  }

  pub string_u16_Trips : (s : String) → Trips (put_string_u16 b s) (read_string_u16 b) s
  string_u16_Trips s = record { trip = λ p rest h. read_string_u16-put b rest s h }

  pub string_u32_Trips : (s : String) → Trips (put_string_u32 b s) (read_string_u32 b) s
  string_u32_Trips s = record { trip = λ p rest h. read_string_u32-put b rest s h }

  pub bytes_u32_Trips : (v : List ℕ) → Trips (put_bytes_u32 b v) (read_bytes_u32 b) v
  bytes_u32_Trips v = record { trip = λ p rest h. read_bytes_u32-put b rest v h }

  pub pair_Trips :
      (key : String) (value : List ℕ)
      → Trips (encode_key_bytes b key value) (key_bytes_reader b) (key, value)
  unfolding encode_key_bytes key_bytes_reader
  pair_Trips key value =
      Trips-& _ (string_u16_Trips key) (Trips-last _ (bytes_u32_Trips value) (λ s. refl))

  encode_condition-lt : (c : Option SetCondition) → encode_condition c < 256
  unfolding encode_condition
  encode_condition-lt none = omega arith
  encode_condition-lt (some SetCondition.nx) = omega arith
  encode_condition-lt (some SetCondition.xx) = omega arith

  condition_of-encode_condition :
      (c : Option SetCondition) (s : List ℕ) → condition_of (encode_condition c) s ≡ ok (c, s)
  unfolding encode_condition
  condition_of-encode_condition none s = refl
  condition_of-encode_condition (some SetCondition.nx) s = refl
  condition_of-encode_condition (some SetCondition.xx) s = refl

  pub condition_Trips :
      (c : Option SetCondition) → Trips (ok (b.put u8 (encode_condition c))) (decode_condition b) c
  unfolding decode_condition
  condition_Trips c =
      Trips-last condition_of (uint_Trips u8 _ (encode_condition-lt c))
        (condition_of-encode_condition c)

  pub expiration_Trips :
      (e : Option Expiration)
      → ExpirationFits e
      → Trips (ok (encode_expiration b e)) (decode_expiration b) e
  unfolding encode_expiration decode_expiration
  expiration_Trips none h = Trips-last (expiration_of b) (uint_Trips u8 0 (omega arith)) (λ s. refl)
  expiration_Trips (some (Expiration.ex n)) h =
      Trips-& (expiration_of b) (uint_Trips u8 1 (omega arith))
        (Trips-last _ (uint_Trips u64 n h) (λ s. refl))
  expiration_Trips (some (Expiration.px n)) h =
      Trips-& (expiration_of b) (uint_Trips u8 2 (omega arith))
        (Trips-last _ (uint_Trips u64 n h) (λ s. refl))

  pub optional_Trips :
      (w : Width) (o : Option ℕ)
      → OptionFits w o
      → Trips (ok (encode_optional b w o)) (unchecked_optional b w) o
  unfolding encode_optional unchecked_optional
  optional_Trips w none h =
      Trips-last (optional_of b w) (unchecked_Trips u8 0 (omega arith)) (λ s. refl)
  optional_Trips w (some n) h =
      Trips-& (optional_of b w) (unchecked_Trips u8 1 (omega arith))
        (Trips-last _ (uint_Trips w n h) (λ s. refl))

  pub keys_Trips :
      (keys : List String)
      → Trips (put_keys b keys) (read_many (read_string_u16 b) (length keys)) keys
  unfolding put_keys read_many
  keys_Trips [] = nil_Trips []
  keys_Trips (key ∷ keys) =
      Trips-& _ (string_u16_Trips key) (Trips-last _ (keys_Trips keys) (λ s. refl))

  pub pairs_Trips :
      (entries : List (String × List ℕ))
      → Trips (put_pairs b entries) (read_many (key_bytes_reader b) (length entries)) entries
  unfolding put_pairs read_many
  pairs_Trips [] = nil_Trips []
  pairs_Trips ((key, value) ∷ entries) =
      Trips-& _ (pair_Trips key value) (Trips-last _ (pairs_Trips entries) (λ s. refl))

  -- A sequence is read by the number in front of it.
  pub counted-Trips {ℓ} :
      {C : Type ℓ} {e : Encoded} (f : ℕ → Reader C) {c : C} (w : Width) (n : ℕ)
      → Trips e (f n) c
      → Trips (counted b w n e) (read_uint b w >>= f) c
  unfolding counted
  counted-Trips f w n t = elim (Bool-cases (ltb n (range w))) [
    | inl fits ↦ rw fits (Trips-& f (uint_Trips w n (ltb→lt n (range w) fits)) t)
    | inr long ↦ rw long (record { trip = λ p rest h. cc })
  ]

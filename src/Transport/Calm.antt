-- ===== src/Transport/Calm.antt =====
-- Readers of crates/transport/src that panic on no bytes, and the primitives among them.
use vaylix.Prelude.{
  ℕ, ◌≤◌, ◌≡◌, ◌≢◌, refl, String, Bool, true, false, Option, none, some, List, ok, err, length, ltb,
  if◌then◌else◌, Bool-cases, inl, inr, ◌==◌, arith,
}
use vaylix.Text.{from_utf8}
use vaylix.Transport.Error.{TransportError, Decoded, panic, error, corrupted_payload}
use vaylix.Transport.Buf.{
  Width, u8, u16, u32, size, Buf, Reader, pure, ◌>>=◌, >>=-ok, need, get_uint, read_uint, failed,
  or_panic,
}
use vaylix.Transport.Primitives.{
  take_bytes, utf8_text, read_string, read_string_u16, read_string_u32, read_bytes_u32, read_bool,
  bool_of,
}

-- A reader that panics on no payload.
pub record IsCalm {ℓ} {A : Type ℓ} (m : Reader A) : Type ℓ where
  pub calm : (s : List ℕ) → m s ≢ err panic

module _ {ℓ κ} {A : Type ℓ} {C : Type κ} where
  pub >>=-IsCalm :
      {m : Reader A} (g : A → Reader C) → IsCalm m → ((a : A) → IsCalm (g a)) → IsCalm (m >>= g)
  >>=-IsCalm {m} g c d = record { calm = λ s. go s (m s) refl }
    where
      go : (s : List ℕ) (r : Decoded (A × List ℕ)) → m s ≡ r → (m >>= g) s ≢ err panic
      go s (ok (a, rest)) e = λ h. (d a).calm rest (cc (>>=-ok m g s e))
      go s (err (error x)) e = λ h. cc
      go s (err panic) e = λ h. c.calm s e

pub need_lem : (n : ℕ) (s : List ℕ) → need n s ≢ err panic
unfolding need
need_lem n s h = ground arith

pub need-IsCalm : (n : ℕ) → IsCalm (need n)
need-IsCalm n = record { calm = need_lem n }

pub pure-IsCalm {ℓ} : {A : Type ℓ} (a : A) → IsCalm (pure a)
pure-IsCalm a = record { calm = λ s h. cc }

pub failed-IsCalm {ℓ} : {A : Type ℓ} (e : TransportError) → IsCalm (failed {A = A} e)
failed-IsCalm e = record { calm = λ s h. cc }

pub if-IsCalm {ℓ} :
    {A : Type ℓ} (t : Bool) {m n : Reader A} → IsCalm m → IsCalm n → IsCalm (if t then m else n)
if-IsCalm true c d = c
if-IsCalm false c d = d

pub take_bytes-IsCalm : (n : ℕ) → IsCalm (take_bytes n)
unfolding take_bytes
take_bytes-IsCalm n = >>=-IsCalm _ (need-IsCalm n) (λ u. record { calm = λ s h. cc })

pub utf8_text-IsCalm : (bytes : List ℕ) → IsCalm (utf8_text bytes)
utf8_text-IsCalm bytes = record { calm = λ s. go s (from_utf8 bytes) refl }
  where
    go : (s : List ℕ) (o : Option String) → from_utf8 bytes ≡ o → utf8_text bytes s ≢ err panic
    go s none e = rw (e, utf8_text) (λ h. cc)
    go s (some t) e = rw (e, utf8_text) (λ h. cc)

pub read_string-IsCalm : (n : ℕ) → IsCalm (read_string n)
unfolding read_string
read_string-IsCalm n = >>=-IsCalm _ (take_bytes-IsCalm n) utf8_text-IsCalm

module _ (b : Buf) where
  pub get_uint_lem : (w : Width) (s : List ℕ) → size w ≤ length s → get_uint b w s ≢ err panic
  unfolding get_uint
  get_uint_lem w s h = let (n, rest, e, k) = b.get_enough w s h in rw (e, or_panic) (λ p. cc)

  pub read_uint_lem : (w : Width) (s : List ℕ) → read_uint b w s ≢ err panic
  unfolding read_uint need
  read_uint_lem w s = elim (Bool-cases (ltb (length s) (size w))) [
    | inl short ↦ rw (short, ◌>>=◌) (λ p. cc)
    | inr long ↦ rw (long, ◌>>=◌) (get_uint_lem w s (ground arith))
  ]

  pub read_uint-IsCalm : (w : Width) → IsCalm (read_uint b w)
  read_uint-IsCalm w = record { calm = read_uint_lem w }

  pub read_string_u16-IsCalm : IsCalm (read_string_u16 b)
  unfolding read_string_u16
  read_string_u16-IsCalm = >>=-IsCalm _ (read_uint-IsCalm u16) read_string-IsCalm

  pub read_string_u32-IsCalm : IsCalm (read_string_u32 b)
  unfolding read_string_u32
  read_string_u32-IsCalm = >>=-IsCalm _ (read_uint-IsCalm u32) read_string-IsCalm

  pub read_bytes_u32-IsCalm : IsCalm (read_bytes_u32 b)
  unfolding read_bytes_u32
  read_bytes_u32-IsCalm = >>=-IsCalm _ (read_uint-IsCalm u32) take_bytes-IsCalm

  pub bool_of-IsCalm : (n : ℕ) → IsCalm (bool_of n)
  bool_of-IsCalm n =
      if-IsCalm (n == 0) (pure-IsCalm _)
        (if-IsCalm (n == 1) (pure-IsCalm _) (failed-IsCalm corrupted_payload))

  pub read_bool-IsCalm : IsCalm (read_bool b)
  unfolding read_bool
  read_bool-IsCalm = >>=-IsCalm _ (read_uint-IsCalm u8) bool_of-IsCalm

-- ===== src/Transport/Request/Calm.antt =====
-- The readers of the payloads in crates/transport/src/request/mod.rs panic on no payload, but that of
-- SCAN.
use vaylix.Prelude.{
  ℕ, zero, suc, ◌<◌, ◌≡◌, ◌≢◌, refl, List, [], ◌∷◌, ok, err, ◌>>=◌ as bind, length, if◌then◌else◌,
  ◌==◌, arith,
}
use vaylix.Engine.Command.{Command}
use vaylix.Transport.Error.{Decoded, panic, error, corrupted_payload}
use vaylix.Transport.Buf.{Width, u8, u64, Buf, Reader, pure, ◌>>=◌, get_uint, failed, or_panic}
use vaylix.Transport.Primitives.{ensure_empty}
use vaylix.Transport.Request.{
  whole, decode_condition, decode_expiration, optional_of, unchecked_optional, decode_version,
  set_reader, get_ex_reader, key_value_reader, key_bytes_reader, three_strings_reader,
  key_u64_reader, optional_string_of, read_many, decode_empty,
}
use vaylix.Transport.Calm.{
  >>=-IsCalm, IsCalm, failed-IsCalm, if-IsCalm, pure-IsCalm, read_bool-IsCalm,
  read_bytes_u32-IsCalm, read_string_u16-IsCalm, read_string_u32-IsCalm, read_uint-IsCalm,
}

pub three_way-IsCalm :
    {A : Type 0} {m n : Reader A} (k : ℕ)
    → IsCalm m
    → IsCalm n
    → IsCalm (if k == 0 then m else if k == 1 then n else failed corrupted_payload)
three_way-IsCalm k c d = if-IsCalm (k == 0) c (if-IsCalm (k == 1) d (failed-IsCalm _))

pub then_pure-IsCalm :
    {A B : Type 0} {m : Reader A} (f : A → B) → IsCalm m → IsCalm (m >>= λ a. pure (f a))
then_pure-IsCalm f c = >>=-IsCalm _ c (λ a. pure-IsCalm (f a))

module _ (b : Buf) where
  pub decode_condition-IsCalm : IsCalm (decode_condition b)
  unfolding decode_condition
  decode_condition-IsCalm = >>=-IsCalm _ (read_uint-IsCalm b u8) λ n.
      if-IsCalm (n == 0) (pure-IsCalm _) (
        if-IsCalm (n == 1) (pure-IsCalm _)
          (if-IsCalm (n == 2) (pure-IsCalm _) (failed-IsCalm corrupted_payload)))

  pub decode_expiration-IsCalm : IsCalm (decode_expiration b)
  unfolding decode_expiration
  decode_expiration-IsCalm = >>=-IsCalm _ (read_uint-IsCalm b u8) λ n.
      if-IsCalm (n == 0) (pure-IsCalm _) (
        if-IsCalm (n == 1) (then_pure-IsCalm _ (read_uint-IsCalm b u64)) (
          if-IsCalm (n == 2) (then_pure-IsCalm _ (read_uint-IsCalm b u64))
            (failed-IsCalm corrupted_payload)))

  pub optional_of-IsCalm : (w : Width) (n : ℕ) → IsCalm (optional_of b w n)
  optional_of-IsCalm w n =
      three_way-IsCalm n (pure-IsCalm _) (then_pure-IsCalm _ (read_uint-IsCalm b w))

  -- The flag is there if a byte is.
  pub unchecked_optional_lem :
      (w : Width) (s : List ℕ) → 0 < length s → unchecked_optional b w s ≢ err panic
  unfolding unchecked_optional get_uint
  unchecked_optional_lem w s h =
      let (n, rest, e, k) = b.get_enough u8 s (omega arith) in
      rw (e, or_panic, ◌>>=◌) ((optional_of-IsCalm w n).calm rest)

  pub decode_version_lem : (s : List ℕ) → decode_version b s ≢ err panic
  unfolding decode_version
  decode_version_lem [] = λ h. cc
  decode_version_lem (x ∷ s) = unchecked_optional_lem u64 (x ∷ s) (omega arith)

  pub set_reader-IsCalm : IsCalm (set_reader b)
  unfolding set_reader
  set_reader-IsCalm = >>=-IsCalm _ (read_string_u16-IsCalm b) λ key.
      >>=-IsCalm _ (read_bytes_u32-IsCalm b) λ value. >>=-IsCalm _ decode_condition-IsCalm λ c.
        >>=-IsCalm _ decode_expiration-IsCalm λ e. >>=-IsCalm _ (read_bool-IsCalm b) λ k.
          >>=-IsCalm _ (read_bool-IsCalm b)
            λ r. then_pure-IsCalm _ (record { calm = decode_version_lem })

  pub get_ex_reader-IsCalm : IsCalm (get_ex_reader b)
  unfolding get_ex_reader
  get_ex_reader-IsCalm =
      >>=-IsCalm _ (read_string_u16-IsCalm b)
        λ key. >>=-IsCalm _ decode_expiration-IsCalm λ e. then_pure-IsCalm _ (read_bool-IsCalm b)

  pub key_value_reader-IsCalm : IsCalm (key_value_reader b)
  unfolding key_value_reader
  key_value_reader-IsCalm =
      >>=-IsCalm _ (read_string_u16-IsCalm b) λ key. then_pure-IsCalm _ (read_string_u32-IsCalm b)

  pub key_bytes_reader-IsCalm : IsCalm (key_bytes_reader b)
  unfolding key_bytes_reader
  key_bytes_reader-IsCalm =
      >>=-IsCalm _ (read_string_u16-IsCalm b) λ key. then_pure-IsCalm _ (read_bytes_u32-IsCalm b)

  pub three_strings_reader-IsCalm : IsCalm (three_strings_reader b)
  unfolding three_strings_reader
  three_strings_reader-IsCalm = >>=-IsCalm _ (read_string_u16-IsCalm b) λ first.
      >>=-IsCalm _ (read_string_u16-IsCalm b)
        λ second. then_pure-IsCalm _ (read_string_u16-IsCalm b)

  pub key_u64_reader-IsCalm : IsCalm (key_u64_reader b)
  unfolding key_u64_reader
  key_u64_reader-IsCalm =
      >>=-IsCalm _ (read_string_u16-IsCalm b) λ key. then_pure-IsCalm _ (read_uint-IsCalm b u64)

  pub optional_string_of-IsCalm : (n : ℕ) → IsCalm (optional_string_of b n)
  unfolding optional_string_of
  optional_string_of-IsCalm n =
      three_way-IsCalm n (pure-IsCalm _) (then_pure-IsCalm _ (read_string_u32-IsCalm b))

pub read_many-IsCalm :
    {A : Type 0} {element : Reader A} → IsCalm element → (n : ℕ) → IsCalm (read_many element n)
unfolding read_many
read_many-IsCalm c zero = pure-IsCalm []
read_many-IsCalm {element = element} c (suc n) =
    >>=-IsCalm _ c λ a. >>=-IsCalm _ (read_many-IsCalm c n) λ rest. pure-IsCalm (a ∷ rest)

-- The check for trailing bytes and the command around the parts add no panic.
pub whole-IsCalm :
    {A : Type 0} {m : Reader A} (f : A → Command)
    → IsCalm m
    → (p : List ℕ) → bind (whole m p) (λ a. ok (f a)) ≢ err panic
unfolding whole ensure_empty
whole-IsCalm {A} {m} f c p = go (m p) refl
  where
    go : (r : Decoded (A × List ℕ)) → m p ≡ r → bind (whole m p) (λ a. ok (f a)) ≢ err panic
    go (ok (a, [])) e = rw (e, whole) (λ h. cc)
    go (ok (a, (x ∷ rest))) e = rw (e, whole) (λ h. cc)
    go (err (error x)) e = rw (e, whole) (λ h. cc)
    go (err panic) e = λ h. c.calm p e

pub decode_empty_lem : (c : Command) (p : List ℕ) → bind (decode_empty p) (λ u. ok c) ≢ err panic
unfolding decode_empty ensure_empty
decode_empty_lem c [] = λ h. cc
decode_empty_lem c (x ∷ p) = λ h. cc

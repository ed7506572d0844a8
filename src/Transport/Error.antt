-- ===== src/Transport/Error.antt =====
-- `TransportError` of crates/transport/src/error.rs, and the outcome of a decoder.
use vaylix.Prelude.{ℕ, String, Result, ok, err}

pub data TransportError : Type 0 where
  invalid_frame unexpected_eof corrupted_payload compression_failure : TransportError
  invalid_utf8 io deadline_exceeded : TransportError
  unknown_opcode unknown_status unsupported_flags : ℕ → TransportError
  unsupported_command negotiation_failed : String → TransportError
  capability_mismatch protocol_state_violation : String → TransportError
  version_mismatch frame_too_large checksum_mismatch : ℕ → ℕ → TransportError
  decompressed_frame_too_large : ℕ → ℕ → TransportError

-- What ends a decoder early: an error that it answers, or a panic of the reading of an integer from
-- a buffer that has too few bytes.
pub data Failure : Type 0 where
  error : TransportError → Failure
  panic : Failure

abbrev pub Decoded {ℓ} : Type ℓ → Type ℓ
Decoded A = Result Failure A

abbrev pub fail {ℓ} : {A : Type ℓ} → TransportError → Decoded A
fail e = err (error e)

-- The errors of an encoder are errors of the caller that decodes.
abbrev pub or_fail {ℓ} : {A : Type ℓ} → Result TransportError A → Decoded A
or_fail (ok a) = ok a
or_fail (err e) = fail e

-- ===== src/Stream/RoundTrip.antt =====
-- src/stream.rs: frame headers and frame kinds are read back as they were written.
use pprofessor.Common.{ℕ, ◌^◌, ◌<◌, ◌≡◌, ◌↔◌, refl, arith, ok}
use pprofessor.Stream.{
  FrameKind, hello, kind_code, try_from, StreamHeader, be16, be64, from_be, encode, decode,
}

pub try_from-kind_code : (k : FrameKind) → try_from (kind_code k) ≡ ok k
unfolding try_from kind_code
try_from-kind_code hello = refl
try_from-kind_code _ = refl

try_from_sound : (v : ℕ) (k : FrameKind) → try_from v ≡ ok k → v ≡ kind_code k
unfolding try_from kind_code
try_from_sound v k h = ground arith

-- A number is read as a frame kind exactly when it is the kind's own number.
pub try_from_iff : (v : ℕ) (k : FrameKind) → (try_from v ≡ ok k) ↔ (v ≡ kind_code k)
try_from_iff v k = (try_from_sound v k, λ e. rw e (try_from-kind_code k))

-- The numbers fit their fields.
pub record IsInRange (h : StreamHeader) : Type 0 where
  pub major_fits : h.major < 2 ^ 16
  pub minor_fits : h.minor < 2 ^ 16
  pub flags_fits : h.flags < 2 ^ 16
  pub sequence_fits : h.sequence < 2 ^ 64
  pub payload_len_fits : h.payload_len < 2 ^ 64

from_be-be16 : (v : ℕ) → v < 2 ^ 16 → from_be 0 (be16 v) ≡ v
from_be-be16 v h = omega arith

from_be-be64 : (v : ℕ) → v < 2 ^ 64 → from_be 0 (be64 v) ≡ v
from_be-be64 v h = omega arith

kind_code_fits : (k : FrameKind) → kind_code k < 2 ^ 16
unfolding kind_code
kind_code_fits hello = omega arith
kind_code_fits _ = omega arith

-- Decoding an encoded header gives the header back.
pub decode-encode_header : (h : StreamHeader) → IsInRange h → decode (encode h) ≡ ok h
unfolding decode encode
decode-encode_header h r =
    rw (from_be-be16 (kind_code h.kind) (kind_code_fits h.kind), try_from-kind_code h.kind)
      (λ i. ok (record {
        major = from_be-be16 h.major r.major_fits i;
        minor = from_be-be16 h.minor r.minor_fits i;
        kind = h.kind;
        flags = from_be-be16 h.flags r.flags_fits i;
        sequence = from_be-be64 h.sequence r.sequence_fits i;
        payload_len = from_be-be64 h.payload_len r.payload_len_fits i;
      }))

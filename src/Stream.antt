-- ===== src/Stream.antt =====
-- src/stream.rs: frame kinds and the frame header; `Publisher` is the session's connection.
pub mod RoundTrip
pub mod Publisher
use pprofessor.Common.{
  ℕ, ◌+◌, ◌*◌, ◌/◌, ◌%◌, ◌^◌, List, [], ◌∷◌, ◌++◌, length, take, drop, beq, ◌==◌, not,
  if◌then◌else◌, Result, ok, err, ◌>>=◌, ◌>>◌, ensure,
}

pub data FrameKind : Type 0 where
  hello profile_checkpoint profile_delta finalizing final_profile failed heartbeat : FrameKind
  acknowledged stop protocol_error : FrameKind

pub data StreamProtocolError : Type 0 where
  unknown_frame_kind invalid_header_length invalid_stream_magic : StreamProtocolError

-- `kind as u16`
unfoldable pub kind_code : FrameKind → ℕ
kind_code hello = 1
kind_code profile_checkpoint = 2
kind_code profile_delta = 3
kind_code finalizing = 4
kind_code final_profile = 5
kind_code failed = 6
kind_code heartbeat = 7
kind_code acknowledged = 101
kind_code stop = 102
kind_code protocol_error = 103

unfoldable pub try_from : ℕ → Result StreamProtocolError FrameKind
try_from v =
    if v == 1
    then ok hello
    else if v == 2
    then ok profile_checkpoint
    else if v == 3
    then ok profile_delta
    else if v == 4
    then ok finalizing
    else if v == 5
    then ok final_profile
    else if v == 6
    then ok failed
    else if v == 7
    then ok heartbeat
    else if v == 101
    then ok acknowledged
    else if v == 102
    then ok stop
    else if v == 103
    then ok protocol_error
    else err unknown_frame_kind

pub record StreamHeader : Type 0 where
  pub major : ℕ
  pub minor : ℕ
  pub kind : FrameKind
  pub flags : ℕ
  pub sequence : ℕ
  pub payload_len : ℕ

abbrev pub stream_header_len : ℕ
stream_header_len = 28

-- b"PPRS"
abbrev pub magic : List ℕ
magic = b'P' ∷ b'P' ∷ b'R' ∷ b'S' ∷ []

-- `to_be_bytes` of a u16 and of a u64.
abbrev pub be16 : ℕ → List ℕ
be16 v = v / 256 % 256 ∷ v % 256 ∷ []

abbrev pub be64 : ℕ → List ℕ
be64 v =
    v / 256 ^ 7 % 256
    ∷ v / 256 ^ 6 % 256
    ∷ v / 256 ^ 5 % 256
    ∷ v / 256 ^ 4 % 256
    ∷ v / 256 ^ 3 % 256
    ∷ v / 256 ^ 2 % 256
    ∷ v / 256 % 256
    ∷ v % 256
    ∷ []

-- `from_be_bytes`
abbrev pub from_be : ℕ → List ℕ → ℕ
from_be acc [] = acc
from_be acc (b ∷ bs) = from_be (acc * 256 + b) bs

unfoldable pub encode : StreamHeader → List ℕ
unfolding kind_code
encode h =
    magic
    ++ (be16 h.major
        ++ (be16 h.minor
            ++ (be16 (kind_code h.kind)
                ++ (be16 h.flags ++ (be64 h.sequence ++ be64 h.payload_len)))))

-- `bytes[lo..lo + count]`
abbrev pub slice : ℕ → ℕ → List ℕ → List ℕ
slice lo count bs = take count (drop lo bs)

unfoldable pub decode : List ℕ → Result StreamProtocolError StreamHeader
unfolding try_from
decode bs = do
  ensure (length bs == stream_header_len) invalid_header_length
  ensure (beq (slice 0 4 bs) magic) invalid_stream_magic
  kind ← try_from (from_be 0 (slice 8 2 bs))
  ok (record {
    major = from_be 0 (slice 4 2 bs);
    minor = from_be 0 (slice 6 2 bs);
    kind = kind;
    flags = from_be 0 (slice 10 2 bs);
    sequence = from_be 0 (slice 12 8 bs);
    payload_len = from_be 0 (slice 20 8 bs);
  })

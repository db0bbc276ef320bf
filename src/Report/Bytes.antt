-- ===== src/Report/Bytes.antt =====
-- src/report.rs, `from_pprof`: a report of encoded data. What decompresses gzip data is the environment.
use pprofessor.Common.{
  ℕ, ◌^◌, ◌<◌, List, [], ◌∷◌, length, take, beq, Option, none, some, Bool, true, if◌then◌else◌,
  Result, ok, err, ◌>>=◌, ◌≡◌, refl, ap,
}
use pprofessor.Wire.Decode.{DecodeError, Decoded}
use pprofessor.Pprof.Profile
use pprofessor.Pprof.Profile.{PprofProfile}
use pprofessor.Pprof.Profile.Fields
use pprofessor.Pprof.Profile.RoundTrip.{kept, decode-encode_profile}
use pprofessor.Pprof.Profile.Leading.{encode-ne-gzip}
use pprofessor.Report.{ReportError, Reported}
use pprofessor.Report.Analyze.{ProfileReport, from_profile}

pub data ReadError : Type 0 where
  gzip_failed : ReadError
  of_decode : DecodeError → ReadError
  of_report : ReportError → ReadError

abbrev pub Read {ℓ} : Type ℓ → Type ℓ
Read A = Result ReadError A

-- `data.starts_with(&[0x1f, 0x8b])`
abbrev pub is_gzip : List ℕ → Bool
is_gzip bytes = beq (take 2 bytes) (31 ∷ 139 ∷ [])

abbrev pub or_failed : Option (List ℕ) → Read (List ℕ)
or_failed none = err gzip_failed
or_failed (some bytes) = ok bytes

abbrev pub from_decoded {ℓ} : {A : Type ℓ} → Decoded A → Read A
from_decoded (ok p) = ok p
from_decoded (err e) = err (of_decode e)

abbrev pub from_reported {ℓ} : {A : Type ℓ} → Reported A → Read A
from_reported (ok r) = ok r
from_reported (err e) = err (of_report e)

module _ (gunzip : List ℕ → Option (List ℕ)) where
  unfoldable pub decompress_if_needed : List ℕ → Read (List ℕ)
  decompress_if_needed bytes = if is_gzip bytes then or_failed (gunzip bytes) else ok bytes

  unfoldable pub from_pprof : List ℕ → Option (List ℕ) → Read ProfileReport
  unfolding decompress_if_needed
  from_pprof bytes sample_type = do
    plain ← decompress_if_needed bytes
    profile ← from_decoded (Profile.decode plain)
    from_reported (from_profile profile sample_type)

-- Data that holds the encoding of a profile: the encoding itself, or gzip data, which begins with the
-- bytes 31 and 139, that decompresses to it.
pub data Holds (gunzip : List ℕ → Option (List ℕ)) (p : PprofProfile) (bytes : List ℕ)
    : Type 0 where
  plain : bytes ≡ Profile.encode p → Holds gunzip p bytes
  compressed :
      (rest : List ℕ)
      → bytes ≡ 31 ∷ 139 ∷ rest
      → gunzip bytes ≡ some (Profile.encode p)
      → Holds gunzip p bytes

decompress_if_needed-Holds :
    (gunzip : List ℕ → Option (List ℕ)) (p : PprofProfile) (bytes : List ℕ)
    → Holds gunzip p bytes
    → decompress_if_needed gunzip bytes ≡ ok (Profile.encode p)
unfolding decompress_if_needed
decompress_if_needed-Holds gunzip p bytes (plain e) = rw (e, encode-ne-gzip p 139) refl
decompress_if_needed-Holds gunzip p bytes (compressed rest e g) =
    let magic : is_gzip bytes ≡ true = ap is_gzip e in rw (magic, g) refl

-- A report of data that holds the encoding of a profile, plain or as gzip data, is the report of the
-- profile itself, as far as the encoding keeps it, where the profile has numbers and texts in range and
-- its encoding has a length below 2 ^ 64. Plain encodings are never taken for gzip data.
pub from_pprof-encode :
    (gunzip : List ℕ → Option (List ℕ)) (p : PprofProfile) (sample_type : Option (List ℕ))
    (bytes : List ℕ)
    → Fields.IsInRange p
    → length (Profile.encode p) < 2 ^ 64
    → Holds gunzip p bytes
    → from_pprof gunzip bytes sample_type ≡ from_reported (from_profile (kept p) sample_type)
unfolding from_pprof
from_pprof-encode gunzip p sample_type bytes h l d =
    rw (decompress_if_needed-Holds gunzip p bytes d, decode-encode_profile p h l) refl

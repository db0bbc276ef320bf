-- ===== src/Pprof/Profile.antt =====
-- src/pprof.rs, `PprofProfile`: the profile, `encode` and `decode`.
pub mod Fields
pub mod RoundTrip
pub mod Total
pub mod Leading
pub mod Kept
use pprofessor.Common.{ℕ, List, [], ◌∷◌, push, ok, err, ◌>>=◌, ◌==◌, if◌then◌else◌}
use pprofessor.Common.Int.{ℤ, pos, as_i64}
use pprofessor.Wire.Encode.{
  encode_varint_field, encode_sint64_field, encode_length_delimited, encode_string_field,
  encode_messages,
}
use pprofessor.Wire.Decode.{
  Field, FieldValue, varint, bytes, Decoded, decode_message, decode_packed, invalid_utf8,
}
use pprofessor.Pprof.ValueType
use pprofessor.Pprof.ValueType.{ValueType}
use pprofessor.Pprof.Sample
use pprofessor.Pprof.Sample.{Sample}
use pprofessor.Pprof.Mapping
use pprofessor.Pprof.Mapping.{Mapping}
use pprofessor.Pprof.Location
use pprofessor.Pprof.Location.{Location}
use pprofessor.Pprof.Function
use pprofessor.Pprof.Function.{Function}
use pprofessor.Pprof.StringTable
use pprofessor.Pprof.StringTable.{StringTable}
use pprofessor.Pprof.Utf8.{is_utf8}

pub record PprofProfile : Type 0 where
  pub strings : StringTable
  pub value_types : List ValueType
  pub samples : List Sample
  pub mappings : List Mapping
  pub locations : List Location
  pub functions : List Function
  pub time_nanos : ℤ
  pub duration_nanos : ℤ
  pub period_type : ValueType
  pub period : ℤ
  pub drop_frames : ℕ
  pub keep_frames : ℕ
  pub comments : List ℕ
  pub default_sample_type : ℕ
  pub doc_url : ℕ

-- `PprofProfile::new`, over a string table.
abbrev pub blank : StringTable → PprofProfile
blank t = record {
  strings = t;
  value_types = [];
  samples = [];
  mappings = [];
  locations = [];
  functions = [];
  time_nanos = pos 0;
  duration_nanos = pos 0;
  period_type = ValueType.default;
  period = pos 0;
  drop_frames = 0;
  keep_frames = 0;
  comments = [];
  default_sample_type = 0;
  doc_url = 0;
}

abbrev pub new : PprofProfile
new = blank StringTable.new

-- `for s in &self.strings.strings { encode_string_field(&mut buf, 6, s) }`
unfoldable pub encode_strings : List ℕ → List (List ℕ) → List ℕ
encode_strings buf [] = buf
encode_strings buf (s ∷ ss) = encode_strings (encode_string_field buf 6 s) ss

-- `for &comment in &self.comments { encode_varint_field(&mut buf, 13, comment) }`
unfoldable pub encode_comments : List ℕ → List ℕ → List ℕ
encode_comments buf [] = buf
encode_comments buf (c ∷ cs) = encode_comments (encode_varint_field buf 13 c) cs

unfoldable pub encode : PprofProfile → List ℕ
unfolding encode_strings encode_comments
encode p =
    let b₁ = encode_messages ValueType.encode [] 1 p.value_types in
    let b₂ = encode_messages Sample.encode b₁ 2 p.samples in
    let b₃ = encode_messages Mapping.encode b₂ 3 p.mappings in
    let b₄ = encode_messages Location.encode b₃ 4 p.locations in
    let b₅ = encode_messages Function.encode b₄ 5 p.functions in
    let b₆ = encode_strings b₅ p.strings.strings in
    let b₇ = encode_varint_field b₆ 7 p.drop_frames in
    let b₈ = encode_varint_field b₇ 8 p.keep_frames in
    let b₉ = encode_sint64_field b₈ 9 p.time_nanos in
    let b₁₀ = encode_sint64_field b₉ 10 p.duration_nanos in
    let b₁₁ = encode_length_delimited b₁₀ 11 (ValueType.encode [] p.period_type) in
    let b₁₂ = encode_sint64_field b₁₁ 12 p.period in
    let b₁₃ = encode_comments b₁₂ p.comments in
    let b₁₄ = encode_varint_field b₁₃ 14 p.default_sample_type in
    encode_varint_field b₁₄ 15 p.doc_url

abbrev pub push_string : PprofProfile → List ℕ → PprofProfile
push_string p s = record p {
  strings = record { strings = push p.strings.strings s; indices = p.strings.indices };
}

abbrev push_comment : PprofProfile → ℕ → PprofProfile
push_comment p v = record p { comments = push p.comments v }

-- The arms of the decoder's `match` for a number, and for bytes; other fields are passed over.
unfoldable pub visit_varint : PprofProfile → ℕ → ℕ → PprofProfile
visit_varint p n v =
    if n == 7
    then record p { drop_frames = v }
    else if n == 8
    then record p { keep_frames = v }
    else if n == 9
    then record p { time_nanos = as_i64 v }
    else if n == 10
    then record p { duration_nanos = as_i64 v }
    else if n == 12
    then record p { period = as_i64 v }
    else if n == 13
    then push_comment p v
    else if n == 14
    then record p { default_sample_type = v }
    else if n == 15
    then record p { doc_url = v }
    else p

unfoldable pub visit_bytes : PprofProfile → ℕ → List ℕ → Decoded PprofProfile
visit_bytes p n b =
    if n == 1
    then (do m ← ValueType.decode b; ok (record p { value_types = push p.value_types m }))
    else if n == 2
    then (do m ← Sample.decode b; ok (record p { samples = push p.samples m }))
    else if n == 3
    then (do m ← Mapping.decode b; ok (record p { mappings = push p.mappings m }))
    else if n == 4
    then (do m ← Location.decode b; ok (record p { locations = push p.locations m }))
    else if n == 5
    then (do m ← Function.decode b; ok (record p { functions = push p.functions m }))
    else if n == 6
    then (if is_utf8 b then ok (push_string p b) else err invalid_utf8)
    else if n == 11
    then (do m ← ValueType.decode b; ok (record p { period_type = m }))
    else if n == 13
    then decode_packed push_comment p b
    else ok p

unfoldable pub visit_value : PprofProfile → ℕ → FieldValue → Decoded PprofProfile
unfolding visit_varint visit_bytes
visit_value p n (varint v) = ok (visit_varint p n v)
visit_value p n (bytes b) = visit_bytes p n b
visit_value p n _ = ok p

unfoldable pub visit : PprofProfile → Field → Decoded PprofProfile
unfolding visit_value
visit p f = visit_value p f.number f.value

abbrev pub no_strings : StringTable
no_strings = record { strings = []; indices = [] }

unfoldable pub decode : List ℕ → Decoded PprofProfile
unfolding visit
decode bs = do
  p ← decode_message visit (blank no_strings) bs
  t ← StringTable.from_strings p.strings.strings
  ok (record p { strings = t })

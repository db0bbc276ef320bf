-- ===== src/Pprof/Line.antt =====
-- src/pprof.rs, `Line`: the record, its encoder and decoder.
use pprofessor.Common.{
  ℕ, ◌<◌, ◌^◌, List, [], ◌++◌, length, is_nil, ◌≡◌, refl, ap, ◌∙◌, arith, ◌==◌, ◌&&◌, Bool,
  if◌then◌else◌, All, All-append, ok, and_true,
}
use pprofessor.Common.Int.{
  ℤ, pos, IsU64, IsI64, as_u64, as_i64, as_u64-IsU64, as_i64-as_u64, as_u64-eq-zero, is_zero_ℤ,
  is_zero-as_u64,
}
use pprofessor.Wire.Encode.{encode_varint_field, encode_sint64_field}
use pprofessor.Wire.Decode.{Field, FieldValue, varint, Decoded, decode_message}
use pprofessor.Wire.Emit.{emit, emit-nil, emit_laws, IsWritten, varint_fields}
use pprofessor.Wire.RoundTrip.{run, decode_message-emit}
use pprofessor.Wire.Codec.{Codec, run-varint_fields, varint_fields-IsWritten, is_nil-varint_fields}

pub record Line : Type 0 where
  pub function_id : ℕ
  pub line : ℤ
  pub column : ℤ

abbrev pub default : Line
default = record { function_id = 0; line = pos 0; column = pos 0 }

unfoldable pub encode : List ℕ → Line → List ℕ
encode buf m =
    let b₁ = encode_varint_field buf 1 m.function_id in
    let b₂ = encode_sint64_field b₁ 2 m.line in encode_sint64_field b₂ 3 m.column

-- The arm of the decoder's `match` on a field's number; other fields are passed over.
unfoldable pub visit_value : Line → ℕ → FieldValue → Line
visit_value m n (varint v) =
    if n == 1
    then record m { function_id = v }
    else if n == 2
    then record m { line = as_i64 v }
    else if n == 3
    then record m { column = as_i64 v }
    else m
visit_value m n _ = m

unfoldable pub visit : Line → Field → Decoded Line
unfolding visit_value
visit m f = ok (visit_value m f.number f.value)

unfoldable pub decode : List ℕ → Decoded Line
unfolding visit
decode bs = decode_message visit default bs

-- What `encode` writes.
abbrev fields : Line → List Field
fields m =
    varint_fields 1 m.function_id
    ++ (varint_fields 2 (as_u64 m.line) ++ (varint_fields 3 (as_u64 m.column) ++ []))

encode-emit : (buf : List ℕ) (m : Line) → encode buf m ≡ buf ++ emit (fields m)
unfolding encode
encode-emit buf m = simp emit_laws

-- The numbers fit their types.
pub record IsInRange (m : Line) : Type 0 where
  pub function_id_fits : IsU64 m.function_id
  pub line_fits : IsI64 m.line
  pub column_fits : IsI64 m.column

fields-IsWritten : (m : Line) → IsInRange m → All IsWritten (fields m)
fields-IsWritten m r =
    All-append IsWritten (varint_fields 1 m.function_id) _
      (varint_fields-IsWritten 1 _ (omega arith) (omega arith) r.function_id_fits)
      (All-append IsWritten (varint_fields 2 (as_u64 m.line)) _
        (varint_fields-IsWritten 2 _ (omega arith) (omega arith) (as_u64-IsU64 m.line))
        (All-append IsWritten (varint_fields 3 (as_u64 m.column)) _
          (varint_fields-IsWritten 3 _ (omega arith) (omega arith) (as_u64-IsU64 m.column)) tt))

-- The first fields of `m`, and zero for the others.
abbrev first_1 : Line → Line
first_1 m = record { function_id = m.function_id; line = pos 0; column = pos 0 }

abbrev first_2 : Line → Line
first_2 m = record { function_id = m.function_id; line = m.line; column = pos 0 }

run-fields : (m : Line) → IsInRange m → run visit default (fields m) ≡ ok m
unfolding visit run
run-fields m r =
    run-varint_fields visit default (first_1 m) 1 m.function_id _ refl
      (λ e. ap (λ x. record default { function_id = x }) e)
    ∙ run-varint_fields visit (first_1 m) (first_2 m) 2 (as_u64 m.line) _
        (ap (λ x. ok (record (first_1 m) { line = x })) (as_i64-as_u64 m.line r.line_fits))
        (λ e. ap (λ x. record (first_1 m) { line = x }) (as_u64-eq-zero m.line r.line_fits e))
    ∙ run-varint_fields visit (first_2 m) m 3 (as_u64 m.column) _
        (ap (λ x. ok (record (first_2 m) { column = x })) (as_i64-as_u64 m.column r.column_fits))
        (λ e. ap (λ x. record (first_2 m) { column = x }) (as_u64-eq-zero m.column r.column_fits e))

-- Decoding what `encode` wrote gives the message back.
pub decode-encode :
    (m : Line) → IsInRange m → length (encode [] m) < 2 ^ 64 → decode (encode [] m) ≡ ok m
unfolding decode
decode-encode m r h =
    let h' : length (emit (fields m)) < 2 ^ 64 = rw (encode-emit [] m) at h in
    rw (encode-emit [] m)
      (decode_message-emit visit (fields m) default (fields-IsWritten m r) h' ∙ run-fields m r)

abbrev pub is_default : Line → Bool
is_default m = m.function_id == 0 && (is_zero_ℤ m.line && (is_zero_ℤ m.column))

-- A message of zeros is written as no bytes at all.
pub is_nil-encode : (m : Line) → IsInRange m → is_nil (encode [] m) ≡ is_default m
is_nil-encode m r = rw (encode-emit [] m) (
    simp (
      is_nil-varint_fields,
      is_zero-as_u64 m.line r.line_fits,
      is_zero-as_u64 m.column r.column_fits,
      emit-nil,
      and_true,
    ))

abbrev pub codec : Codec Line
codec = record {
  encode = encode;
  decode = decode;
  kept = λ m. m;
  is_default = is_default;
  IsInRange = IsInRange;
  decode-encode = decode-encode;
  is_nil-encode = is_nil-encode;
}

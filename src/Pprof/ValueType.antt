-- ===== src/Pprof/ValueType.antt =====
-- src/pprof.rs, `ValueType`: the record, its encoder and decoder.
use pprofessor.Common.{
  ℕ, ◌<◌, ◌^◌, List, [], ◌++◌, length, is_nil, ◌≡◌, refl, ap, ◌∙◌, arith, ◌==◌, ◌&&◌, Bool,
  if◌then◌else◌, All, All-append, ok, and_true,
}
use pprofessor.Common.Int.{IsU64}
use pprofessor.Wire.Encode.{encode_varint_field}
use pprofessor.Wire.Decode.{Field, FieldValue, varint, Decoded, decode_message}
use pprofessor.Wire.Emit.{emit, emit-nil, emit_laws, IsWritten, varint_fields}
use pprofessor.Wire.RoundTrip.{run, decode_message-emit}
use pprofessor.Wire.Codec.{Codec, run-varint_fields, varint_fields-IsWritten, is_nil-varint_fields}

pub record ValueType : Type 0 where
  pub type : ℕ
  pub unit : ℕ

abbrev pub default : ValueType
default = record { type = 0; unit = 0 }

unfoldable pub encode : List ℕ → ValueType → List ℕ
encode buf m = let b₁ = encode_varint_field buf 1 m.type in encode_varint_field b₁ 2 m.unit

-- The arm of the decoder's `match` on a field's number; other fields are passed over.
unfoldable pub visit_value : ValueType → ℕ → FieldValue → ValueType
visit_value m n (varint v) =
    if n == 1 then record m { type = v } else if n == 2 then record m { unit = v } else m
visit_value m n _ = m

unfoldable pub visit : ValueType → Field → Decoded ValueType
unfolding visit_value
visit m f = ok (visit_value m f.number f.value)

unfoldable pub decode : List ℕ → Decoded ValueType
unfolding visit
decode bs = decode_message visit default bs

-- What `encode` writes.
abbrev fields : ValueType → List Field
fields m = varint_fields 1 m.type ++ (varint_fields 2 m.unit ++ [])

encode-emit : (buf : List ℕ) (m : ValueType) → encode buf m ≡ buf ++ emit (fields m)
unfolding encode
encode-emit buf m = simp emit_laws

-- The numbers fit their types.
pub record IsInRange (m : ValueType) : Type 0 where
  pub type_fits : IsU64 m.type
  pub unit_fits : IsU64 m.unit

fields-IsWritten : (m : ValueType) → IsInRange m → All IsWritten (fields m)
fields-IsWritten m r =
    All-append IsWritten (varint_fields 1 m.type) _
      (varint_fields-IsWritten 1 _ (omega arith) (omega arith) r.type_fits)
      (All-append IsWritten (varint_fields 2 m.unit) _
        (varint_fields-IsWritten 2 _ (omega arith) (omega arith) r.unit_fits) tt)

-- The first fields of `m`, and zero for the others.
abbrev first_1 : ValueType → ValueType
first_1 m = record { type = m.type; unit = 0 }

run-fields : (m : ValueType) → IsInRange m → run visit default (fields m) ≡ ok m
unfolding visit run
run-fields m r =
    run-varint_fields visit default (first_1 m) 1 m.type _ refl
      (λ e. ap (λ x. record default { type = x }) e)
    ∙ run-varint_fields visit (first_1 m) m 2 m.unit _ refl
        (λ e. ap (λ x. record (first_1 m) { unit = x }) e)

-- Decoding what `encode` wrote gives the message back.
pub decode-encode :
    (m : ValueType) → IsInRange m → length (encode [] m) < 2 ^ 64 → decode (encode [] m) ≡ ok m
unfolding decode
decode-encode m r h =
    let h' : length (emit (fields m)) < 2 ^ 64 = rw (encode-emit [] m) at h in
    rw (encode-emit [] m)
      (decode_message-emit visit (fields m) default (fields-IsWritten m r) h' ∙ run-fields m r)

abbrev pub is_default : ValueType → Bool
is_default m = m.type == 0 && (m.unit == 0)

-- A message of zeros is written as no bytes at all.
pub is_nil-encode : (m : ValueType) → IsInRange m → is_nil (encode [] m) ≡ is_default m
is_nil-encode m r = rw (encode-emit [] m) (simp (is_nil-varint_fields, emit-nil, and_true))

abbrev pub codec : Codec ValueType
codec = record {
  encode = encode;
  decode = decode;
  kept = λ m. m;
  is_default = is_default;
  IsInRange = IsInRange;
  decode-encode = decode-encode;
  is_nil-encode = is_nil-encode;
}

-- ===== src/Pprof/Label.antt =====
-- src/pprof.rs, `Label`: the record, its encoder and decoder.
use pprofessor.Common.{
  ℕ, ◌<◌, ◌^◌, List, [], ◌++◌, length, is_nil, ◌≡◌, refl, ap, ◌∙◌, arith, ◌==◌, ◌&&◌, Bool,
  if◌then◌else◌, All, All-append, ok, and_true,
}
use pprofessor.Common.Int.{
  ℤ, pos, IsU64, IsI64, as_u64, as_i64, as_u64-IsU64, as_i64-as_u64, as_u64-eq-zero, is_zero_ℤ,
  is_zero-as_u64,
}
use pprofessor.Wire.Encode.{encode_varint_field, encode_sint64_field}
use pprofessor.Wire.Decode.{Field, FieldValue, varint, Decoded, decode_message}
use pprofessor.Wire.Emit.{emit, emit-nil, emit_laws, IsWritten, varint_fields}
use pprofessor.Wire.RoundTrip.{run, decode_message-emit}
use pprofessor.Wire.Codec.{Codec, run-varint_fields, varint_fields-IsWritten, is_nil-varint_fields}

pub record Label : Type 0 where
  pub key : ℕ
  pub str_index : ℕ
  pub num : ℤ
  pub num_unit : ℕ

abbrev pub default : Label
default = record { key = 0; str_index = 0; num = pos 0; num_unit = 0 }

unfoldable pub encode : List ℕ → Label → List ℕ
encode buf m =
    let b₁ = encode_varint_field buf 1 m.key in
    let b₂ = encode_varint_field b₁ 2 m.str_index in
    let b₃ = encode_sint64_field b₂ 3 m.num in encode_varint_field b₃ 4 m.num_unit

-- The arm of the decoder's `match` on a field's number; other fields are passed over.
unfoldable pub visit_value : Label → ℕ → FieldValue → Label
visit_value m n (varint v) =
    if n == 1
    then record m { key = v }
    else if n == 2
    then record m { str_index = v }
    else if n == 3
    then record m { num = as_i64 v }
    else if n == 4
    then record m { num_unit = v }
    else m
visit_value m n _ = m

unfoldable pub visit : Label → Field → Decoded Label
unfolding visit_value
visit m f = ok (visit_value m f.number f.value)

unfoldable pub decode : List ℕ → Decoded Label
unfolding visit
decode bs = decode_message visit default bs

-- What `encode` writes.
abbrev fields : Label → List Field
fields m =
    varint_fields 1 m.key
    ++ (varint_fields 2 m.str_index
        ++ (varint_fields 3 (as_u64 m.num) ++ (varint_fields 4 m.num_unit ++ [])))

encode-emit : (buf : List ℕ) (m : Label) → encode buf m ≡ buf ++ emit (fields m)
unfolding encode
encode-emit buf m = simp emit_laws

-- The numbers fit their types.
pub record IsInRange (m : Label) : Type 0 where
  pub key_fits : IsU64 m.key
  pub str_index_fits : IsU64 m.str_index
  pub num_fits : IsI64 m.num
  pub num_unit_fits : IsU64 m.num_unit

fields-IsWritten : (m : Label) → IsInRange m → All IsWritten (fields m)
fields-IsWritten m r =
    All-append IsWritten (varint_fields 1 m.key) _
      (varint_fields-IsWritten 1 _ (omega arith) (omega arith) r.key_fits)
      (All-append IsWritten (varint_fields 2 m.str_index) _
        (varint_fields-IsWritten 2 _ (omega arith) (omega arith) r.str_index_fits)
        (All-append IsWritten (varint_fields 3 (as_u64 m.num)) _
          (varint_fields-IsWritten 3 _ (omega arith) (omega arith) (as_u64-IsU64 m.num))
          (All-append IsWritten (varint_fields 4 m.num_unit) _
            (varint_fields-IsWritten 4 _ (omega arith) (omega arith) r.num_unit_fits) tt)))

-- The first fields of `m`, and zero for the others.
abbrev first_1 : Label → Label
first_1 m = record { key = m.key; str_index = 0; num = pos 0; num_unit = 0 }

abbrev first_2 : Label → Label
first_2 m = record { key = m.key; str_index = m.str_index; num = pos 0; num_unit = 0 }

abbrev first_3 : Label → Label
first_3 m = record { key = m.key; str_index = m.str_index; num = m.num; num_unit = 0 }

run-fields : (m : Label) → IsInRange m → run visit default (fields m) ≡ ok m
unfolding visit run
run-fields m r =
    run-varint_fields visit default (first_1 m) 1 m.key _ refl
      (λ e. ap (λ x. record default { key = x }) e)
    ∙ run-varint_fields visit (first_1 m) (first_2 m) 2 m.str_index _ refl
        (λ e. ap (λ x. record (first_1 m) { str_index = x }) e)
    ∙ run-varint_fields visit (first_2 m) (first_3 m) 3 (as_u64 m.num) _
        (ap (λ x. ok (record (first_2 m) { num = x })) (as_i64-as_u64 m.num r.num_fits))
        (λ e. ap (λ x. record (first_2 m) { num = x }) (as_u64-eq-zero m.num r.num_fits e))
    ∙ run-varint_fields visit (first_3 m) m 4 m.num_unit _ refl
        (λ e. ap (λ x. record (first_3 m) { num_unit = x }) e)

-- Decoding what `encode` wrote gives the message back.
pub decode-encode :
    (m : Label) → IsInRange m → length (encode [] m) < 2 ^ 64 → decode (encode [] m) ≡ ok m
unfolding decode
decode-encode m r h =
    let h' : length (emit (fields m)) < 2 ^ 64 = rw (encode-emit [] m) at h in
    rw (encode-emit [] m)
      (decode_message-emit visit (fields m) default (fields-IsWritten m r) h' ∙ run-fields m r)

abbrev pub is_default : Label → Bool
is_default m = m.key == 0 && (m.str_index == 0 && (is_zero_ℤ m.num && (m.num_unit == 0)))

-- A message of zeros is written as no bytes at all.
pub is_nil-encode : (m : Label) → IsInRange m → is_nil (encode [] m) ≡ is_default m
is_nil-encode m r =
    rw (encode-emit [] m)
      (simp (is_nil-varint_fields, is_zero-as_u64 m.num r.num_fits, emit-nil, and_true))

abbrev pub codec : Codec Label
codec = record {
  encode = encode;
  decode = decode;
  kept = λ m. m;
  is_default = is_default;
  IsInRange = IsInRange;
  decode-encode = decode-encode;
  is_nil-encode = is_nil-encode;
}

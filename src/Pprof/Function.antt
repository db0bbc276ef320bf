-- ===== src/Pprof/Function.antt =====
-- src/pprof.rs, `Function`: the record, its encoder and decoder.
use pprofessor.Common.{
  ℕ, ◌<◌, ◌^◌, List, [], ◌++◌, length, is_nil, ◌≡◌, refl, ap, ◌∙◌, arith, ◌==◌, ◌&&◌, Bool,
  if◌then◌else◌, All, All-append, ok, and_true,
}
use pprofessor.Common.Int.{
  ℤ, pos, IsU64, IsI64, as_u64, as_i64, as_u64-IsU64, as_i64-as_u64, as_u64-eq-zero, is_zero_ℤ,
  is_zero-as_u64,
}
use pprofessor.Wire.Encode.{encode_varint_field, encode_sint64_field}
use pprofessor.Wire.Decode.{Field, FieldValue, varint, Decoded, decode_message}
use pprofessor.Wire.Emit.{emit, emit-nil, emit_laws, IsWritten, varint_fields}
use pprofessor.Wire.RoundTrip.{run, decode_message-emit}
use pprofessor.Wire.Codec.{Codec, run-varint_fields, varint_fields-IsWritten, is_nil-varint_fields}

pub record Function : Type 0 where
  pub id : ℕ
  pub name : ℕ
  pub system_name : ℕ
  pub filename : ℕ
  pub start_line : ℤ

abbrev pub default : Function
default = record { id = 0; name = 0; system_name = 0; filename = 0; start_line = pos 0 }

unfoldable pub encode : List ℕ → Function → List ℕ
encode buf m =
    let b₁ = encode_varint_field buf 1 m.id in
    let b₂ = encode_varint_field b₁ 2 m.name in
    let b₃ = encode_varint_field b₂ 3 m.system_name in
    let b₄ = encode_varint_field b₃ 4 m.filename in encode_sint64_field b₄ 5 m.start_line

-- The arm of the decoder's `match` on a field's number; other fields are passed over.
unfoldable pub visit_value : Function → ℕ → FieldValue → Function
visit_value m n (varint v) =
    if n == 1
    then record m { id = v }
    else if n == 2
    then record m { name = v }
    else if n == 3
    then record m { system_name = v }
    else if n == 4
    then record m { filename = v }
    else if n == 5
    then record m { start_line = as_i64 v }
    else m
visit_value m n _ = m

unfoldable pub visit : Function → Field → Decoded Function
unfolding visit_value
visit m f = ok (visit_value m f.number f.value)

unfoldable pub decode : List ℕ → Decoded Function
unfolding visit
decode bs = decode_message visit default bs

-- What `encode` writes.
abbrev fields : Function → List Field
fields m =
    varint_fields 1 m.id
    ++ (varint_fields 2 m.name
        ++ (varint_fields 3 m.system_name
            ++ (varint_fields 4 m.filename ++ (varint_fields 5 (as_u64 m.start_line) ++ []))))

encode-emit : (buf : List ℕ) (m : Function) → encode buf m ≡ buf ++ emit (fields m)
unfolding encode
encode-emit buf m = simp emit_laws

-- The numbers fit their types.
pub record IsInRange (m : Function) : Type 0 where
  pub id_fits : IsU64 m.id
  pub name_fits : IsU64 m.name
  pub system_name_fits : IsU64 m.system_name
  pub filename_fits : IsU64 m.filename
  pub start_line_fits : IsI64 m.start_line

fields-IsWritten : (m : Function) → IsInRange m → All IsWritten (fields m)
fields-IsWritten m r =
    All-append IsWritten (varint_fields 1 m.id) _
      (varint_fields-IsWritten 1 _ (omega arith) (omega arith) r.id_fits)
      (All-append IsWritten (varint_fields 2 m.name) _
        (varint_fields-IsWritten 2 _ (omega arith) (omega arith) r.name_fits)
        (All-append IsWritten (varint_fields 3 m.system_name) _
          (varint_fields-IsWritten 3 _ (omega arith) (omega arith) r.system_name_fits)
          (All-append IsWritten (varint_fields 4 m.filename) _
            (varint_fields-IsWritten 4 _ (omega arith) (omega arith) r.filename_fits)
            (All-append IsWritten (varint_fields 5 (as_u64 m.start_line)) _
              (varint_fields-IsWritten 5 _ (omega arith) (omega arith) (as_u64-IsU64 m.start_line))
              tt))))

-- The first fields of `m`, and zero for the others.
abbrev first_1 : Function → Function
first_1 m = record { id = m.id; name = 0; system_name = 0; filename = 0; start_line = pos 0 }

abbrev first_2 : Function → Function
first_2 m = record { id = m.id; name = m.name; system_name = 0; filename = 0; start_line = pos 0 }

abbrev first_3 : Function → Function
first_3 m = record {
  id = m.id;
  name = m.name;
  system_name = m.system_name;
  filename = 0;
  start_line = pos 0;
}

abbrev first_4 : Function → Function
first_4 m = record {
  id = m.id;
  name = m.name;
  system_name = m.system_name;
  filename = m.filename;
  start_line = pos 0;
}

run-fields : (m : Function) → IsInRange m → run visit default (fields m) ≡ ok m
unfolding visit run
run-fields m r =
    run-varint_fields visit default (first_1 m) 1 m.id _ refl
      (λ e. ap (λ x. record default { id = x }) e)
    ∙ run-varint_fields visit (first_1 m) (first_2 m) 2 m.name _ refl
        (λ e. ap (λ x. record (first_1 m) { name = x }) e)
    ∙ run-varint_fields visit (first_2 m) (first_3 m) 3 m.system_name _ refl
        (λ e. ap (λ x. record (first_2 m) { system_name = x }) e)
    ∙ run-varint_fields visit (first_3 m) (first_4 m) 4 m.filename _ refl
        (λ e. ap (λ x. record (first_3 m) { filename = x }) e)
    ∙ run-varint_fields visit (first_4 m) m 5 (as_u64 m.start_line) _
        (ap (λ x. ok (record (first_4 m) { start_line = x }))
          (as_i64-as_u64 m.start_line r.start_line_fits))
        (λ e.
          ap (λ x. record (first_4 m) { start_line = x })
            (as_u64-eq-zero m.start_line r.start_line_fits e))

-- Decoding what `encode` wrote gives the message back.
pub decode-encode :
    (m : Function) → IsInRange m → length (encode [] m) < 2 ^ 64 → decode (encode [] m) ≡ ok m
unfolding decode
decode-encode m r h =
    let h' : length (emit (fields m)) < 2 ^ 64 = rw (encode-emit [] m) at h in
    rw (encode-emit [] m)
      (decode_message-emit visit (fields m) default (fields-IsWritten m r) h' ∙ run-fields m r)

abbrev pub is_default : Function → Bool
is_default m =
    m.id == 0
    && (m.name == 0 && (m.system_name == 0 && (m.filename == 0 && (is_zero_ℤ m.start_line))))

-- A message of zeros is written as no bytes at all.
pub is_nil-encode : (m : Function) → IsInRange m → is_nil (encode [] m) ≡ is_default m
is_nil-encode m r =
    rw (encode-emit [] m) (
      simp
        (is_nil-varint_fields, is_zero-as_u64 m.start_line r.start_line_fits, emit-nil, and_true))

abbrev pub codec : Codec Function
codec = record {
  encode = encode;
  decode = decode;
  kept = λ m. m;
  is_default = is_default;
  IsInRange = IsInRange;
  decode-encode = decode-encode;
  is_nil-encode = is_nil-encode;
}

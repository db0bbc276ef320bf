-- ===== src/Pprof/Mapping.antt =====
-- src/pprof.rs, `Mapping`: the record, its encoder and decoder.
use pprofessor.Common.{
  ℕ, ◌<◌, ◌^◌, List, [], ◌++◌, length, is_nil, ◌≡◌, refl, ap, ◌∙◌, arith, ◌==◌, not, ◌&&◌, Bool,
  false, if◌then◌else◌, All, All-append, ok, and_true,
}
use pprofessor.Common.Int.{
  IsU64, bool_u64, bool_u64-IsU64, not-bool_u64, bool_u64-eq-zero, is_zero-bool_u64,
}
use pprofessor.Wire.Encode.{encode_varint_field}
use pprofessor.Wire.Decode.{Field, FieldValue, varint, Decoded, decode_message}
use pprofessor.Wire.Emit.{emit, emit-nil, emit_laws, IsWritten, varint_fields}
use pprofessor.Wire.RoundTrip.{run, decode_message-emit}
use pprofessor.Wire.Codec.{Codec, run-varint_fields, varint_fields-IsWritten, is_nil-varint_fields}

pub record Mapping : Type 0 where
  pub id : ℕ
  pub memory_start : ℕ
  pub memory_limit : ℕ
  pub file_offset : ℕ
  pub filename : ℕ
  pub build_id : ℕ
  pub has_functions : Bool
  pub has_filenames : Bool
  pub has_line_numbers : Bool
  pub has_inline_frames : Bool

abbrev pub default : Mapping
default = record {
  id = 0;
  memory_start = 0;
  memory_limit = 0;
  file_offset = 0;
  filename = 0;
  build_id = 0;
  has_functions = false;
  has_filenames = false;
  has_line_numbers = false;
  has_inline_frames = false;
}

unfoldable pub encode : List ℕ → Mapping → List ℕ
encode buf m =
    let b₁ = encode_varint_field buf 1 m.id in
    let b₂ = encode_varint_field b₁ 2 m.memory_start in
    let b₃ = encode_varint_field b₂ 3 m.memory_limit in
    let b₄ = encode_varint_field b₃ 4 m.file_offset in
    let b₅ = encode_varint_field b₄ 5 m.filename in
    let b₆ = encode_varint_field b₅ 6 m.build_id in
    let b₇ = encode_varint_field b₆ 7 (bool_u64 m.has_functions) in
    let b₈ = encode_varint_field b₇ 8 (bool_u64 m.has_filenames) in
    let b₉ = encode_varint_field b₈ 9 (bool_u64 m.has_line_numbers) in
    encode_varint_field b₉ 10 (bool_u64 m.has_inline_frames)

-- The arm of the decoder's `match` on a field's number; other fields are passed over.
unfoldable pub visit_value : Mapping → ℕ → FieldValue → Mapping
visit_value m n (varint v) =
    if n == 1
    then record m { id = v }
    else if n == 2
    then record m { memory_start = v }
    else if n == 3
    then record m { memory_limit = v }
    else if n == 4
    then record m { file_offset = v }
    else if n == 5
    then record m { filename = v }
    else if n == 6
    then record m { build_id = v }
    else if n == 7
    then record m { has_functions = not (v == 0) }
    else if n == 8
    then record m { has_filenames = not (v == 0) }
    else if n == 9
    then record m { has_line_numbers = not (v == 0) }
    else if n == 10
    then record m { has_inline_frames = not (v == 0) }
    else m
visit_value m n _ = m

unfoldable pub visit : Mapping → Field → Decoded Mapping
unfolding visit_value
visit m f = ok (visit_value m f.number f.value)

unfoldable pub decode : List ℕ → Decoded Mapping
unfolding visit
decode bs = decode_message visit default bs

-- What `encode` writes.
abbrev fields : Mapping → List Field
fields m =
    varint_fields 1 m.id
    ++ (varint_fields 2 m.memory_start
        ++ (varint_fields 3 m.memory_limit
            ++ (varint_fields 4 m.file_offset
                ++ (varint_fields 5 m.filename
                    ++ (varint_fields 6 m.build_id
                        ++ (varint_fields 7 (bool_u64 m.has_functions)
                            ++ (varint_fields 8 (bool_u64 m.has_filenames)
                                ++ (varint_fields 9 (bool_u64 m.has_line_numbers)
                                    ++ (varint_fields 10 (bool_u64 m.has_inline_frames)
                                        ++ [])))))))))

encode-emit : (buf : List ℕ) (m : Mapping) → encode buf m ≡ buf ++ emit (fields m)
unfolding encode
encode-emit buf m = simp emit_laws

-- The numbers fit their types.
pub record IsInRange (m : Mapping) : Type 0 where
  pub id_fits : IsU64 m.id
  pub memory_start_fits : IsU64 m.memory_start
  pub memory_limit_fits : IsU64 m.memory_limit
  pub file_offset_fits : IsU64 m.file_offset
  pub filename_fits : IsU64 m.filename
  pub build_id_fits : IsU64 m.build_id

fields-IsWritten : (m : Mapping) → IsInRange m → All IsWritten (fields m)
fields-IsWritten m r =
    All-append IsWritten (varint_fields 1 m.id) _
      (varint_fields-IsWritten 1 _ (omega arith) (omega arith) r.id_fits)
      (All-append IsWritten (varint_fields 2 m.memory_start) _
        (varint_fields-IsWritten 2 _ (omega arith) (omega arith) r.memory_start_fits)
        (All-append IsWritten (varint_fields 3 m.memory_limit) _
          (varint_fields-IsWritten 3 _ (omega arith) (omega arith) r.memory_limit_fits)
          (All-append IsWritten (varint_fields 4 m.file_offset) _
            (varint_fields-IsWritten 4 _ (omega arith) (omega arith) r.file_offset_fits)
            (All-append IsWritten (varint_fields 5 m.filename) _
              (varint_fields-IsWritten 5 _ (omega arith) (omega arith) r.filename_fits)
              (All-append IsWritten (varint_fields 6 m.build_id) _
                (varint_fields-IsWritten 6 _ (omega arith) (omega arith) r.build_id_fits)
                (All-append IsWritten (varint_fields 7 (bool_u64 m.has_functions)) _
                  (varint_fields-IsWritten 7 _ (omega arith) (omega arith)
                    (bool_u64-IsU64 m.has_functions))
                  (All-append IsWritten (varint_fields 8 (bool_u64 m.has_filenames)) _
                    (varint_fields-IsWritten 8 _ (omega arith) (omega arith)
                      (bool_u64-IsU64 m.has_filenames))
                    (All-append IsWritten (varint_fields 9 (bool_u64 m.has_line_numbers)) _
                      (varint_fields-IsWritten 9 _ (omega arith) (omega arith)
                        (bool_u64-IsU64 m.has_line_numbers))
                      (All-append IsWritten (varint_fields 10 (bool_u64 m.has_inline_frames)) _
                        (varint_fields-IsWritten 10 _ (omega arith) (omega arith)
                          (bool_u64-IsU64 m.has_inline_frames))
                        tt)))))))))

-- The first fields of `m`, and zero for the others.
abbrev first_1 : Mapping → Mapping
first_1 m = record {
  id = m.id;
  memory_start = 0;
  memory_limit = 0;
  file_offset = 0;
  filename = 0;
  build_id = 0;
  has_functions = false;
  has_filenames = false;
  has_line_numbers = false;
  has_inline_frames = false;
}

abbrev first_2 : Mapping → Mapping
first_2 m = record {
  id = m.id;
  memory_start = m.memory_start;
  memory_limit = 0;
  file_offset = 0;
  filename = 0;
  build_id = 0;
  has_functions = false;
  has_filenames = false;
  has_line_numbers = false;
  has_inline_frames = false;
}

abbrev first_3 : Mapping → Mapping
first_3 m = record {
  id = m.id;
  memory_start = m.memory_start;
  memory_limit = m.memory_limit;
  file_offset = 0;
  filename = 0;
  build_id = 0;
  has_functions = false;
  has_filenames = false;
  has_line_numbers = false;
  has_inline_frames = false;
}

abbrev first_4 : Mapping → Mapping
first_4 m = record {
  id = m.id;
  memory_start = m.memory_start;
  memory_limit = m.memory_limit;
  file_offset = m.file_offset;
  filename = 0;
  build_id = 0;
  has_functions = false;
  has_filenames = false;
  has_line_numbers = false;
  has_inline_frames = false;
}

abbrev first_5 : Mapping → Mapping
first_5 m = record {
  id = m.id;
  memory_start = m.memory_start;
  memory_limit = m.memory_limit;
  file_offset = m.file_offset;
  filename = m.filename;
  build_id = 0;
  has_functions = false;
  has_filenames = false;
  has_line_numbers = false;
  has_inline_frames = false;
}

abbrev first_6 : Mapping → Mapping
first_6 m = record {
  id = m.id;
  memory_start = m.memory_start;
  memory_limit = m.memory_limit;
  file_offset = m.file_offset;
  filename = m.filename;
  build_id = m.build_id;
  has_functions = false;
  has_filenames = false;
  has_line_numbers = false;
  has_inline_frames = false;
}

abbrev first_7 : Mapping → Mapping
first_7 m = record {
  id = m.id;
  memory_start = m.memory_start;
  memory_limit = m.memory_limit;
  file_offset = m.file_offset;
  filename = m.filename;
  build_id = m.build_id;
  has_functions = m.has_functions;
  has_filenames = false;
  has_line_numbers = false;
  has_inline_frames = false;
}

abbrev first_8 : Mapping → Mapping
first_8 m = record {
  id = m.id;
  memory_start = m.memory_start;
  memory_limit = m.memory_limit;
  file_offset = m.file_offset;
  filename = m.filename;
  build_id = m.build_id;
  has_functions = m.has_functions;
  has_filenames = m.has_filenames;
  has_line_numbers = false;
  has_inline_frames = false;
}

abbrev first_9 : Mapping → Mapping
first_9 m = record {
  id = m.id;
  memory_start = m.memory_start;
  memory_limit = m.memory_limit;
  file_offset = m.file_offset;
  filename = m.filename;
  build_id = m.build_id;
  has_functions = m.has_functions;
  has_filenames = m.has_filenames;
  has_line_numbers = m.has_line_numbers;
  has_inline_frames = false;
}

run-fields : (m : Mapping) → IsInRange m → run visit default (fields m) ≡ ok m
unfolding visit run
run-fields m r =
    run-varint_fields visit default (first_1 m) 1 m.id _ refl
      (λ e. ap (λ x. record default { id = x }) e)
    ∙ run-varint_fields visit (first_1 m) (first_2 m) 2 m.memory_start _ refl
        (λ e. ap (λ x. record (first_1 m) { memory_start = x }) e)
    ∙ run-varint_fields visit (first_2 m) (first_3 m) 3 m.memory_limit _ refl
        (λ e. ap (λ x. record (first_2 m) { memory_limit = x }) e)
    ∙ run-varint_fields visit (first_3 m) (first_4 m) 4 m.file_offset _ refl
        (λ e. ap (λ x. record (first_3 m) { file_offset = x }) e)
    ∙ run-varint_fields visit (first_4 m) (first_5 m) 5 m.filename _ refl
        (λ e. ap (λ x. record (first_4 m) { filename = x }) e)
    ∙ run-varint_fields visit (first_5 m) (first_6 m) 6 m.build_id _ refl
        (λ e. ap (λ x. record (first_5 m) { build_id = x }) e)
    ∙ run-varint_fields visit (first_6 m) (first_7 m) 7 (bool_u64 m.has_functions) _
        (ap (λ x. ok (record (first_6 m) { has_functions = x })) (not-bool_u64 m.has_functions))
        (λ e.
          ap (λ x. record (first_6 m) { has_functions = x }) (bool_u64-eq-zero m.has_functions e))
    ∙ run-varint_fields visit (first_7 m) (first_8 m) 8 (bool_u64 m.has_filenames) _
        (ap (λ x. ok (record (first_7 m) { has_filenames = x })) (not-bool_u64 m.has_filenames))
        (λ e.
          ap (λ x. record (first_7 m) { has_filenames = x }) (bool_u64-eq-zero m.has_filenames e))
    ∙ run-varint_fields visit (first_8 m) (first_9 m) 9 (bool_u64 m.has_line_numbers) _
        (ap (λ x. ok (record (first_8 m) { has_line_numbers = x }))
          (not-bool_u64 m.has_line_numbers))
        (λ e.
          ap (λ x. record (first_8 m) { has_line_numbers = x })
            (bool_u64-eq-zero m.has_line_numbers e))
    ∙ run-varint_fields visit (first_9 m) m 10 (bool_u64 m.has_inline_frames) _
        (ap (λ x. ok (record (first_9 m) { has_inline_frames = x }))
          (not-bool_u64 m.has_inline_frames))
        (λ e.
          ap (λ x. record (first_9 m) { has_inline_frames = x })
            (bool_u64-eq-zero m.has_inline_frames e))

-- Decoding what `encode` wrote gives the message back.
pub decode-encode :
    (m : Mapping) → IsInRange m → length (encode [] m) < 2 ^ 64 → decode (encode [] m) ≡ ok m
unfolding decode
decode-encode m r h =
    let h' : length (emit (fields m)) < 2 ^ 64 = rw (encode-emit [] m) at h in
    rw (encode-emit [] m)
      (decode_message-emit visit (fields m) default (fields-IsWritten m r) h' ∙ run-fields m r)

abbrev pub is_default : Mapping → Bool
is_default m =
    m.id == 0
    && (m.memory_start == 0
        && (m.memory_limit == 0
            && (m.file_offset == 0
                && (m.filename == 0
                    && (m.build_id == 0
                        && (not m.has_functions
                            && (not m.has_filenames
                                && (not m.has_line_numbers && (not m.has_inline_frames)))))))))

-- A message of zeros is written as no bytes at all.
pub is_nil-encode : (m : Mapping) → IsInRange m → is_nil (encode [] m) ≡ is_default m
is_nil-encode m r = rw (encode-emit [] m) (
    simp (
      is_nil-varint_fields,
      is_zero-bool_u64 m.has_functions,
      is_zero-bool_u64 m.has_filenames,
      is_zero-bool_u64 m.has_line_numbers,
      is_zero-bool_u64 m.has_inline_frames,
      emit-nil,
      and_true,
    ))

abbrev pub codec : Codec Mapping
codec = record {
  encode = encode;
  decode = decode;
  kept = λ m. m;
  is_default = is_default;
  IsInRange = IsInRange;
  decode-encode = decode-encode;
  is_nil-encode = is_nil-encode;
}

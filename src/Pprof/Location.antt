-- ===== src/Pprof/Location.antt =====
-- src/pprof.rs, `Location`: the record, its encoder and decoder.
use pprofessor.Common.{
  ℕ, ◌<◌, ◌^◌, List, [], ◌++◌, push, all, length, is_nil, ◌≡◌, refl, ap, ◌∙◌, arith, ◌==◌, not,
  ◌&&◌, Bool, false, if◌then◌else◌, All, All-append, ok, ◌>>=◌, and_true,
}
use pprofessor.Common.Int.{
  IsU64, bool_u64, bool_u64-IsU64, not-bool_u64, bool_u64-eq-zero, is_zero-bool_u64,
}
use pprofessor.Wire.Encode.{encode_varint_field, encode_messages}
use pprofessor.Wire.Decode.{Field, FieldValue, varint, bytes, Decoded, decode_message}
use pprofessor.Wire.Emit.{
  emit, length-emit-append, emit-nil, emit_laws, IsWritten, varint_fields, message_fields,
}
use pprofessor.Wire.RoundTrip.{run, decode_message-emit}
use pprofessor.Wire.Codec.{
  Codec, kept_all, run-varint_fields, varint_fields-IsWritten, is_nil-varint_fields,
  message_fields-IsWritten, run-message_fields, is_nil-message_fields,
}
use pprofessor.Pprof.Line
use pprofessor.Pprof.Line.{Line}

pub record Location : Type 0 where
  pub id : ℕ
  pub mapping_id : ℕ
  pub address : ℕ
  pub lines : List Line
  pub is_folded : Bool

abbrev pub default : Location
default = record { id = 0; mapping_id = 0; address = 0; lines = []; is_folded = false }

unfoldable pub encode : List ℕ → Location → List ℕ
encode buf m =
    let b₁ = encode_varint_field buf 1 m.id in
    let b₂ = encode_varint_field b₁ 2 m.mapping_id in
    let b₃ = encode_varint_field b₂ 3 m.address in
    let b₄ = encode_messages Line.encode b₃ 4 m.lines in
    encode_varint_field b₄ 5 (bool_u64 m.is_folded)

-- The arm of the decoder's `match` on a field's number and value; other fields are passed over.
unfoldable pub visit_value : Location → ℕ → FieldValue → Decoded Location
visit_value m n (varint v) =
    if n == 1
    then ok (record m { id = v })
    else if n == 2
    then ok (record m { mapping_id = v })
    else if n == 3
    then ok (record m { address = v })
    else if n == 5
    then ok (record m { is_folded = not (v == 0) })
    else ok m
visit_value m n (bytes b) =
    if n == 4 then (do line ← Line.decode b; ok (record m { lines = push m.lines line })) else ok m
visit_value m n _ = ok m

unfoldable pub visit : Location → Field → Decoded Location
unfolding visit_value
visit m f = visit_value m f.number f.value

unfoldable pub decode : List ℕ → Decoded Location
unfolding visit
decode bs = decode_message visit default bs

-- What `encode` writes.
abbrev fields : Location → List Field
fields m =
    varint_fields 1 m.id
    ++ (varint_fields 2 m.mapping_id
        ++ (varint_fields 3 m.address
            ++ (message_fields Line.encode 4 m.lines
                ++ (varint_fields 5 (bool_u64 m.is_folded) ++ []))))

encode-emit : (buf : List ℕ) (m : Location) → encode buf m ≡ buf ++ emit (fields m)
unfolding encode
encode-emit buf m = simp emit_laws

-- The numbers fit their types.
pub record IsInRange (m : Location) : Type 0 where
  pub id_fits : IsU64 m.id
  pub mapping_id_fits : IsU64 m.mapping_id
  pub address_fits : IsU64 m.address
  pub lines_fit : All Line.IsInRange m.lines

fields-IsWritten : (m : Location) → IsInRange m → All IsWritten (fields m)
fields-IsWritten m r =
    All-append IsWritten (varint_fields 1 m.id) _
      (varint_fields-IsWritten 1 _ (omega arith) (omega arith) r.id_fits)
      (All-append IsWritten (varint_fields 2 m.mapping_id) _
        (varint_fields-IsWritten 2 _ (omega arith) (omega arith) r.mapping_id_fits)
        (All-append IsWritten (varint_fields 3 m.address) _
          (varint_fields-IsWritten 3 _ (omega arith) (omega arith) r.address_fits)
          (All-append IsWritten (message_fields Line.encode 4 m.lines) _
            (message_fields-IsWritten Line.encode 4 m.lines (omega arith) (omega arith))
            (All-append IsWritten (varint_fields 5 (bool_u64 m.is_folded)) _
              (varint_fields-IsWritten 5 _ (omega arith) (omega arith) (bool_u64-IsU64 m.is_folded))
              tt))))

-- The lines of zeros are lost.
abbrev pub kept : Location → Location
kept m = record m { lines = kept_all Line.codec m.lines }

abbrev first_1 : Location → Location
first_1 m = record default { id = m.id }

abbrev first_2 : Location → Location
first_2 m = record (first_1 m) { mapping_id = m.mapping_id }

abbrev first_3 : Location → List Line → Location
first_3 m ls = record (first_2 m) { address = m.address; lines = ls }

run-fields :
    (m : Location)
    → IsInRange m
    → length (emit (message_fields Line.encode 4 m.lines)) < 2 ^ 64
    → run visit default (fields m) ≡ ok (kept m)
unfolding visit run
run-fields m r h =
    run-varint_fields visit default (first_1 m) 1 m.id _ refl
      (λ e. ap (λ x. record default { id = x }) e)
    ∙ run-varint_fields visit (first_1 m) (first_2 m) 2 m.mapping_id _ refl
        (λ e. ap (λ x. record (first_1 m) { mapping_id = x }) e)
    ∙ run-varint_fields visit (first_2 m) (first_3 m []) 3 m.address _ refl
        (λ e. ap (λ x. record (first_2 m) { address = x }) e)
    ∙ run-message_fields Line.codec visit 4 (first_3 m) (λ ys b x e. rw e) m.lines [] _ r.lines_fit
        h
    ∙ run-varint_fields visit (first_3 m (kept_all Line.codec m.lines)) (kept m) 5
        (bool_u64 m.is_folded) []
        (ap (λ x. ok (record (kept m) { is_folded = x })) (not-bool_u64 m.is_folded))
        (λ e. ap (λ x. record (kept m) { is_folded = x }) (bool_u64-eq-zero m.is_folded e))

-- Decoding what `encode` wrote gives the message back, without the lines of zeros.
pub decode-encode :
    (m : Location)
    → IsInRange m
    → length (encode [] m) < 2 ^ 64
    → decode (encode [] m) ≡ ok (kept m)
unfolding decode
decode-encode m r h =
    let h' : length (emit (fields m)) < 2 ^ 64 = rw (encode-emit [] m) at h in
    rw (encode-emit [] m) (
      decode_message-emit visit (fields m) default (fields-IsWritten m r) h'
      ∙ run-fields m r (omega (arith, length-emit-append)))

abbrev pub is_default : Location → Bool
is_default m =
    m.id == 0
    && (m.mapping_id == 0 && (m.address == 0 && (all Line.is_default m.lines && not m.is_folded)))

-- A message of zeros is written as no bytes at all.
pub is_nil-encode : (m : Location) → IsInRange m → is_nil (encode [] m) ≡ is_default m
is_nil-encode m r = rw (encode-emit [] m) (
    simp (
      is_nil-varint_fields,
      is_nil-message_fields Line.codec 4 m.lines _ r.lines_fit,
      is_zero-bool_u64 m.is_folded,
      emit-nil,
      and_true,
    ))

abbrev pub codec : Codec Location
codec = record {
  encode = encode;
  decode = decode;
  kept = kept;
  is_default = is_default;
  IsInRange = IsInRange;
  decode-encode = decode-encode;
  is_nil-encode = is_nil-encode;
}

-- ===== src/Wire/Encode.antt =====
-- src/pprof.rs, the `encode_*` functions. Each appends to `buf`, as the source does.
use Prim.Native.Nat.{bit_and, bit_or}
use pprofessor.Common.{
  ℕ, zero, suc, ◌*◌, ◌/◌, ◌%◌, ◌^◌, List, [], ◌∷◌, ◌++◌, push, length, is_nil, ◌==◌, if◌then◌else◌,
}
use pprofessor.Common.Int.{ℤ, as_u64}

-- A round handles seven bits, so ten rounds are enough for a u64.
unfoldable pub encode_varint_loop : ℕ → List ℕ → ℕ → List ℕ
encode_varint_loop zero buf v = buf
encode_varint_loop (suc rounds) buf v =
    let byte = bit_and v 0x7f % 256 in
    let more = encode_varint_loop rounds (push buf (bit_or byte 0x80)) (v / 2 ^ 7) in
    if v / 2 ^ 7 == 0 then push buf byte else more

unfoldable pub encode_varint : List ℕ → ℕ → List ℕ
unfolding encode_varint_loop
encode_varint buf v = encode_varint_loop 10 buf v

-- `(field << 3) as u8` and `((field << 3) | 2) as u8` on a u32.
abbrev pub varint_tag : ℕ → ℕ
varint_tag field = field * 8 % 2 ^ 32 % 256

abbrev pub bytes_tag : ℕ → ℕ
bytes_tag field = bit_or (field * 8 % 2 ^ 32) 2 % 256

unfoldable pub encode_varint_field : List ℕ → ℕ → ℕ → List ℕ
encode_varint_field buf field value =
    if value == 0 then buf else encode_varint (push buf (varint_tag field)) value

unfoldable pub encode_sint64_field : List ℕ → ℕ → ℤ → List ℕ
encode_sint64_field buf field value = encode_varint_field buf field (as_u64 value)

unfoldable pub encode_length_delimited : List ℕ → ℕ → List ℕ → List ℕ
encode_length_delimited buf field content =
    if is_nil content
    then buf
    else encode_varint (push buf (bytes_tag field)) (length content) ++ content

-- Emitted for the empty string too.
unfoldable pub encode_string_field : List ℕ → ℕ → List ℕ → List ℕ
encode_string_field buf field s = encode_varint (push buf (bytes_tag field)) (length s) ++ s

-- `for &v in values { encode_varint(&mut inner, v) }`
unfoldable pub encode_varints : List ℕ → List ℕ → List ℕ
encode_varints inner [] = inner
encode_varints inner (v ∷ vs) = encode_varints (encode_varint inner v) vs

unfoldable pub encode_packed_u64 : List ℕ → ℕ → List ℕ → List ℕ
encode_packed_u64 buf field values =
    if is_nil values then buf else encode_length_delimited buf field (encode_varints [] values)

-- `for &v in values { encode_varint(&mut inner, v as u64) }`
unfoldable pub encode_sint64s : List ℕ → List ℤ → List ℕ
encode_sint64s inner [] = inner
encode_sint64s inner (v ∷ vs) = encode_sint64s (encode_varint inner (as_u64 v)) vs

unfoldable pub encode_packed_i64 : List ℕ → ℕ → List ℤ → List ℕ
encode_packed_i64 buf field values =
    if is_nil values then buf else encode_length_delimited buf field (encode_sint64s [] values)

-- `for m in messages { let mut inner = Vec::new(); m.encode(&mut inner); encode_length_delimited(buf, field, &inner) }`
unfoldable pub encode_messages {ℓ} :
    {A : Type ℓ} → (List ℕ → A → List ℕ) → List ℕ → ℕ → List A → List ℕ
encode_messages encode buf field [] = buf
encode_messages encode buf field (m ∷ ms) =
    encode_messages encode (encode_length_delimited buf field (encode [] m)) field ms

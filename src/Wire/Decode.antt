-- ===== src/Wire/Decode.antt =====
-- src/pprof.rs, `read_varint`, the iterator `Fields` and the loops that the decoders share.
use Prim.Native.Nat.{bit_and, bit_or}
use pprofessor.Common.{
  ℕ, zero, suc, ◌+◌, ◌*◌, ◌/◌, ◌%◌, ◌^◌, List, [], ◌∷◌, length, take, drop, is_nil, Option, none,
  some, Result, ok, err, ◌>>=◌, ltb, leb, ◌==◌, ◌&&◌, if◌then◌else◌,
}

-- One constructor for each message that the source fails with; `out_of_fuel` is not one of them.
pub data DecodeError : Type 0 where
  truncated_varint varint_overflow field_number_zero : DecodeError
  field_length_overflow truncated_field : DecodeError
  unsupported_wire_type : ℕ → DecodeError
  invalid_utf8 invalid_string_table out_of_fuel : DecodeError

abbrev pub Decoded {ℓ} : Type ℓ → Type ℓ
Decoded A = Result DecodeError A

pub data FieldValue : Type 0 where
  varint : ℕ → FieldValue
  bytes : List ℕ → FieldValue
  fixed32 fixed64 : FieldValue

pub record Field : Type 0 where
  pub number : ℕ
  pub value : FieldValue

-- `rest` is `data[offset..]`.
pub record Fields : Type 0 where
  pub offset : ℕ
  pub rest : List ℕ

-- `shift` runs over 0, 7, …, 63; `rounds` counts the values that are left.
unfoldable pub read_varint_loop : ℕ → ℕ → ℕ → ℕ → List ℕ → Decoded (ℕ × Fields)
read_varint_loop zero shift value offset rest = err varint_overflow
read_varint_loop (suc rounds) shift value offset [] = err truncated_varint
read_varint_loop (suc rounds) shift value offset (byte ∷ rest) =
    let value' = bit_or value (bit_and byte 0x7f * 2 ^ shift % 2 ^ 64) in
    let more = read_varint_loop rounds (shift + 7) value' (offset + 1) rest in
    if shift == 63 && ltb 1 byte
    then err varint_overflow
    else if bit_and byte 0x80 == 0
    then ok (value', record { offset = offset + 1; rest = rest })
    else more

unfoldable pub read_varint : Fields → Decoded (ℕ × Fields)
unfolding read_varint_loop
read_varint fs = read_varint_loop 10 0 0 fs.offset fs.rest

-- `checked_add` on a 64-bit usize, and `get(offset..end)`.
unfoldable pub take_bytes : ℕ → Fields → Decoded (List ℕ × Fields)
take_bytes count fs =
    if leb (2 ^ 64) (fs.offset + count)
    then err field_length_overflow
    else if leb count (length fs.rest)
    then ok (take count fs.rest, record { offset = fs.offset + count; rest = drop count fs.rest })
    else err truncated_field

-- The value of a field by the wire type in its tag. A u64 length fits a 64-bit usize.
unfoldable pub read_value : ℕ → Fields → Decoded (FieldValue × Fields)
read_value wire fs =
    if wire == 0
    then (do (v, fs') ← read_varint fs; ok (varint v, fs'))
    else if wire == 1
    then (do (_, fs') ← take_bytes 8 fs; ok (fixed64, fs'))
    else if wire == 2
    then (do (count, fs₁) ← read_varint fs; (b, fs₂) ← take_bytes count fs₁; ok (bytes b, fs₂))
    else if wire == 5
    then (do (_, fs') ← take_bytes 4 fs; ok (fixed32, fs'))
    else err (unsupported_wire_type wire)

-- `Fields::next` where data is left.
unfoldable pub next_field : Fields → Decoded (Field × Fields)
next_field fs = do
  (tag, fs₁) ← read_varint fs
  if tag / 2 ^ 3 == 0 then err field_number_zero else (do
    (v, fs₂) ← read_value (bit_and tag 7) fs₁
    ok (record { number = tag / 2 ^ 3; value = v }, fs₂))

-- `self.offset == self.data.len()` says that no data is left.
unfoldable pub next : Fields → Decoded (Option Field × Fields)
unfolding next_field
next fs = if is_nil fs.rest then ok (none, fs) else (do (f, fs') ← next_field fs; ok (some f, fs'))

module _ {ℓ} {A : Type ℓ} where
  -- `while let Some(field) = fields.next()? { visit }`, with fuel.
  unfoldable pub decode_loop : ℕ → (A → Field → Decoded A) → A → Fields → Decoded A
  decode_loop zero visit m fs = err out_of_fuel
  decode_loop (suc fuel) visit m fs = next fs >>= λ (found, fs'). elim found [
    | none ↦ ok m
    | some f ↦ visit m f >>= λ m'. decode_loop fuel visit m' fs'
  ]

  -- Each round takes a byte at least, so the length of the data and one more is fuel enough.
  unfoldable pub decode_message : (A → Field → Decoded A) → A → List ℕ → Decoded A
  decode_message visit start bs =
      decode_loop (suc (length bs)) visit start (record { offset = 0; rest = bs })

  -- `decode_packed`: `while offset < data.len() { visit(read_varint(data, &mut offset)?) }`
  unfoldable pub decode_packed_loop : ℕ → (A → ℕ → A) → A → Fields → Decoded A
  decode_packed_loop zero visit m fs = err out_of_fuel
  decode_packed_loop (suc fuel) visit m fs =
      let more = read_varint fs >>= λ (v, fs'). decode_packed_loop fuel visit (visit m v) fs' in
      if is_nil fs.rest then ok m else more

  unfoldable pub decode_packed : (A → ℕ → A) → A → List ℕ → Decoded A
  unfolding decode_packed_loop
  decode_packed visit start bs =
      decode_packed_loop (suc (length bs)) visit start (record { offset = 0; rest = bs })

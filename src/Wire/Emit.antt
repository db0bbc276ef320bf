-- ===== src/Wire/Emit.antt =====
-- What the `encode_*` functions of src/pprof.rs write, as a list of fields in wire order.
use pprofessor.Common.{
  ℕ, ◌+◌, ◌*◌, ◌≤◌, ◌<◌, List, [], ◌∷◌, ◌++◌, length, is_nil, push, ◌≡◌, refl, sym, ap, ◌∙◌, arith,
  ◌==◌, ◌&&◌, Bool, true, false, Bool-cases, inl, inr, append_assoc, append-nil, length-append, map,
  if◌then◌else◌, All,
}
use pprofessor.Common.Int.{IsU64, ℤ, as_u64}
use pprofessor.Wire.Encode.{
  varint_tag, bytes_tag, encode_varint, encode_varint_field, encode_sint64_field,
  encode_length_delimited, encode_string_field, encode_varints, encode_sint64s, encode_packed_u64,
  encode_packed_i64, encode_messages,
}
use pprofessor.Wire.Decode.{Field, FieldValue, varint, bytes}
use pprofessor.Wire.Varint.{groups, encode_varint-groups}

abbrev pub at : ℕ → FieldValue → Field
at n v = record { number = n; value = v }

unfoldable pub emit_value : ℕ → FieldValue → List ℕ
emit_value n (varint v) = varint_tag n ∷ groups 10 v
emit_value n (bytes b) = bytes_tag n ∷ (groups 10 (length b) ++ b)
emit_value n _ = []

unfoldable pub emit_field : Field → List ℕ
unfolding emit_value
emit_field f = emit_value f.number f.value

unfoldable pub emit : List Field → List ℕ
unfolding emit_field
emit [] = []
emit (f ∷ fs) = emit_field f ++ emit fs

abbrev WrittenValue : FieldValue → Type 0
WrittenValue (varint v) = IsU64 v
WrittenValue (bytes b) = Unit {0}
WrittenValue _ = ⊥

-- A field that the encoders write: its tag is one byte.
abbrev pub IsWritten : Field → Type 0
IsWritten f = (0 < f.number) × (f.number < 16) × WrittenValue f.value

pub emit-nil : emit [] ≡ []
unfolding emit
emit-nil = refl

pub emit-append : (fs gs : List Field) → emit (fs ++ gs) ≡ emit fs ++ emit gs
unfolding emit
emit-append [] gs = refl
emit-append (f ∷ fs) gs =
    ap (λ l. emit_field f ++ l) (emit-append fs gs)
    ∙ sym (append_assoc (emit_field f) (emit fs) (emit gs))

pub length-emit-append :
    (fs gs : List Field) → length (emit (fs ++ gs)) ≡ length (emit fs) + length (emit gs)
length-emit-append fs gs = rw emit-append (length-append (emit fs) (emit gs))

-- The fields of a value: none where the encoder returns early.
unfoldable pub varint_fields : ℕ → ℕ → List Field
varint_fields n v = if v == 0 then [] else at n (varint v) ∷ []

unfoldable pub bytes_fields : ℕ → List ℕ → List Field
bytes_fields n b = if is_nil b then [] else at n (bytes b) ∷ []

unfoldable pub message_fields {ℓ} : {A : Type ℓ} → (List ℕ → A → List ℕ) → ℕ → List A → List Field
unfolding bytes_fields
message_fields encode n [] = []
message_fields encode n (m ∷ ms) = bytes_fields n (encode [] m) ++ message_fields encode n ms

abbrev pub varints : List ℕ → List ℕ
varints [] = []
varints (v ∷ vs) = groups 10 v ++ varints vs

pub encode_varint_field-emit :
    (buf : List ℕ) (n v : ℕ) → encode_varint_field buf n v ≡ buf ++ emit (varint_fields n v)
unfolding encode_varint_field emit varint_fields
encode_varint_field-emit buf n v = elim (Bool-cases (v == 0)) [
  | inl e ↦ rw e (sym (append-nil buf))
  | inr e ↦ rw e (
      encode_varint-groups (push buf (varint_tag n)) v
      ∙ append_assoc buf (varint_tag n ∷ []) (groups 10 v)
      ∙ ap (λ l. buf ++ (varint_tag n ∷ l)) (sym (append-nil (groups 10 v))))
]

pub encode_sint64_field-emit :
    (buf : List ℕ) (n : ℕ) (v : ℤ)
    → encode_sint64_field buf n v ≡ buf ++ emit (varint_fields n (as_u64 v))
unfolding encode_sint64_field
encode_sint64_field-emit buf n v = encode_varint_field-emit buf n (as_u64 v)

pub encode_string_field-emit :
    (buf : List ℕ) (n : ℕ) (s : List ℕ)
    → encode_string_field buf n s ≡ buf ++ emit (at n (bytes s) ∷ [])
unfolding encode_string_field emit
encode_string_field-emit buf n s = simp (encode_varint-groups, append_assoc, append-nil)

pub encode_length_delimited-emit :
    (buf : List ℕ) (n : ℕ) (b : List ℕ)
    → encode_length_delimited buf n b ≡ buf ++ emit (bytes_fields n b)
unfolding encode_length_delimited emit bytes_fields
encode_length_delimited-emit buf n b = elim (Bool-cases (is_nil b)) [
  | inl e ↦ rw e (sym (append-nil buf))
  | inr e ↦ rw e (simp (encode_varint-groups, append_assoc, append-nil))
]

pub encode_messages-emit {ℓ} :
    {A : Type ℓ} (encode : List ℕ → A → List ℕ) (buf : List ℕ) (n : ℕ) (ms : List A)
    → encode_messages encode buf n ms ≡ buf ++ emit (message_fields encode n ms)
unfolding encode_messages message_fields
encode_messages-emit encode buf n [] = unfold emit in sym (append-nil buf)
encode_messages-emit encode buf n (m ∷ ms) =
    encode_messages-emit encode (encode_length_delimited buf n (encode [] m)) n ms
    ∙ rw encode_length_delimited-emit (append_assoc buf _ _)
    ∙ ap (λ l. buf ++ l)
        (sym (emit-append (bytes_fields n (encode [] m)) (message_fields encode n ms)))

encode_varints-varints : (inner vs : List ℕ) → encode_varints inner vs ≡ inner ++ varints vs
unfolding encode_varints
encode_varints-varints inner [] = sym (append-nil inner)
encode_varints-varints inner (v ∷ vs) =
    encode_varints-varints (encode_varint inner v) vs
    ∙ rw encode_varint-groups (append_assoc inner (groups 10 v) (varints vs))

encode_sint64s-varints :
    (inner : List ℕ) (vs : List ℤ) → encode_sint64s inner vs ≡ inner ++ varints (map as_u64 vs)
unfolding encode_sint64s
encode_sint64s-varints inner [] = sym (append-nil inner)
encode_sint64s-varints inner (v ∷ vs) =
    encode_sint64s-varints (encode_varint inner (as_u64 v)) vs
    ∙ rw encode_varint-groups (append_assoc inner (groups 10 (as_u64 v)) (varints (map as_u64 vs)))

pub encode_packed_u64-emit :
    (buf : List ℕ) (n : ℕ) (vs : List ℕ)
    → encode_packed_u64 buf n vs ≡ buf ++ emit (bytes_fields n (varints vs))
unfolding encode_packed_u64
encode_packed_u64-emit buf n [] = unfold emit bytes_fields in sym (append-nil buf)
encode_packed_u64-emit buf n (v ∷ vs) =
    rw encode_varints-varints (encode_length_delimited-emit buf n (varints (v ∷ vs)))

pub encode_packed_i64-emit :
    (buf : List ℕ) (n : ℕ) (vs : List ℤ)
    → encode_packed_i64 buf n vs ≡ buf ++ emit (bytes_fields n (varints (map as_u64 vs)))
unfolding encode_packed_i64
encode_packed_i64-emit buf n [] = unfold emit bytes_fields in sym (append-nil buf)
encode_packed_i64-emit buf n (v ∷ vs) =
    rw encode_sint64s-varints (encode_length_delimited-emit buf n (varints (map as_u64 (v ∷ vs))))

-- The encoders' buffers as emitted fields.
pub ruleset emit_laws = (
  encode_varint_field-emit, encode_sint64_field-emit, encode_string_field-emit,
  encode_length_delimited-emit, encode_messages-emit, encode_packed_u64-emit,
  encode_packed_i64-emit, emit-append, append_assoc, emit-nil, append-nil,
)

-- ===== src/Pprof/Profile/Leading.antt =====
-- src/pprof.rs, `PprofProfile::encode`: the first byte of the encoding is a tag, and so not the byte with
-- which gzip data begins.
use pprofessor.Common.{
  ℕ, suc, zero, ◌/◌, ◌^◌, List, [], ◌∷◌, ◌++◌, push, length, take, beq, false, ◌==◌, Bool-cases,
  inl, inr, ◌≡◌, ◌≢◌, refl, arith,
}
use pprofessor.Common.Int.{ℤ, as_u64}
use pprofessor.Wire.Encode.{
  encode_varint_loop, encode_varint, varint_tag, bytes_tag, encode_varint_field,
  encode_sint64_field, encode_length_delimited, encode_string_field, encode_messages,
}
use pprofessor.Pprof.ValueType
use pprofessor.Pprof.Sample
use pprofessor.Pprof.Mapping
use pprofessor.Pprof.Location
use pprofessor.Pprof.Function
use pprofessor.Pprof.Profile.{PprofProfile, encode_strings, encode_comments, encode}

-- The bytes begin with another byte than 31.
abbrev Started : List ℕ → Type 0
Started [] = ⊥
Started (x ∷ xs) = x ≢ 31

-- The bytes are none, or begin with another byte than 31.
abbrev Unled : List ℕ → Type 0
Unled [] = Unit {0}
Unled (x ∷ xs) = x ≢ 31

Started-append : (xs ys : List ℕ) → Started xs → Started (xs ++ ys)
Started-append [] ys h = absurd h
Started-append (x ∷ xs) ys h = h

Started-Unled : (xs : List ℕ) → Started xs → Unled xs
Started-Unled [] h = absurd h
Started-Unled (x ∷ xs) h = h

push-Started : (xs : List ℕ) (tag : ℕ) → Unled xs → tag ≢ 31 → Started (push xs tag)
push-Started [] tag h t = t
push-Started (x ∷ xs) tag h t = h

encode_varint_loop-Started :
    (rounds : ℕ) (buf : List ℕ) (v : ℕ) → Started buf → Started (encode_varint_loop rounds buf v)
unfolding encode_varint_loop
encode_varint_loop-Started zero buf v h = h
encode_varint_loop-Started (suc rounds) buf v h = elim (Bool-cases (v / 2 ^ 7 == 0)) [
  | inl e ↦ rw e (Started-append buf _ h)
  | inr e ↦ rw e (encode_varint_loop-Started rounds _ (v / 2 ^ 7) (Started-append buf _ h))
]

encode_varint-Started : (buf : List ℕ) (v : ℕ) → Started buf → Started (encode_varint buf v)
unfolding encode_varint
encode_varint-Started buf v h = encode_varint_loop-Started 10 buf v h

encode_varint_field-Unled :
    (buf : List ℕ) (field v : ℕ)
    → Unled buf
    → varint_tag field ≢ 31
    → Unled (encode_varint_field buf field v)
unfolding encode_varint_field
encode_varint_field-Unled buf field v h t = elim (Bool-cases (v == 0)) [
  | inl e ↦ rw e h
  | inr e ↦ rw e (Started-Unled _ (encode_varint-Started _ v (push-Started buf _ h t)))
]

encode_sint64_field-Unled :
    (buf : List ℕ) (field : ℕ) (v : ℤ)
    → Unled buf
    → varint_tag field ≢ 31
    → Unled (encode_sint64_field buf field v)
unfolding encode_sint64_field
encode_sint64_field-Unled buf field v h t = encode_varint_field-Unled buf field (as_u64 v) h t

encode_length_delimited-Unled :
    (buf : List ℕ) (field : ℕ) (content : List ℕ)
    → Unled buf
    → bytes_tag field ≢ 31
    → Unled (encode_length_delimited buf field content)
unfolding encode_length_delimited
encode_length_delimited-Unled buf field [] h t = h
encode_length_delimited-Unled buf field (c ∷ content) h t =
    Started-Unled _ (Started-append _ _ (encode_varint-Started _ _ (push-Started buf _ h t)))

encode_messages-Unled :
    {A : Type 0} (enc : List ℕ → A → List ℕ) (buf : List ℕ) (field : ℕ) (ms : List A)
    → Unled buf
    → bytes_tag field ≢ 31
    → Unled (encode_messages enc buf field ms)
unfolding encode_messages
encode_messages-Unled enc buf field [] h t = h
encode_messages-Unled enc buf field (m ∷ ms) h t =
    encode_messages-Unled enc (encode_length_delimited buf field (enc [] m)) field ms
      (encode_length_delimited-Unled buf field (enc [] m) h t) t

encode_string_field-Unled :
    (buf : List ℕ) (field : ℕ) (s : List ℕ)
    → Unled buf
    → bytes_tag field ≢ 31
    → Unled (encode_string_field buf field s)
unfolding encode_string_field
encode_string_field-Unled buf field s h t =
    Started-Unled _
      (Started-append _ s (encode_varint-Started _ (length s) (push-Started buf _ h t)))

encode_strings-Unled :
    (buf : List ℕ) (ss : List (List ℕ)) → Unled buf → Unled (encode_strings buf ss)
unfolding encode_strings
encode_strings-Unled buf [] h = h
encode_strings-Unled buf (s ∷ ss) h =
    encode_strings-Unled (encode_string_field buf 6 s) ss
      (encode_string_field-Unled buf 6 s h (omega arith))

encode_comments-Unled : (buf cs : List ℕ) → Unled buf → Unled (encode_comments buf cs)
unfolding encode_comments
encode_comments-Unled buf [] h = h
encode_comments-Unled buf (c ∷ cs) h =
    encode_comments-Unled (encode_varint_field buf 13 c) cs
      (encode_varint_field-Unled buf 13 c h (omega arith))

unlike : (tag : ℕ) → (tag == 31) ≡ false → tag ≢ 31
unlike tag h e = ground arith

encode-Unled : (p : PprofProfile) → Unled (encode p)
unfolding encode
encode-Unled p =
    let h₁ = encode_messages-Unled ValueType.encode [] 1 p.value_types tt (unlike _ refl) in
    let h₂ = encode_messages-Unled Sample.encode _ 2 p.samples h₁ (unlike _ refl) in
    let h₃ = encode_messages-Unled Mapping.encode _ 3 p.mappings h₂ (unlike _ refl) in
    let h₄ = encode_messages-Unled Location.encode _ 4 p.locations h₃ (unlike _ refl) in
    let h₅ = encode_messages-Unled Function.encode _ 5 p.functions h₄ (unlike _ refl) in
    let h₆ = encode_strings-Unled _ p.strings.strings h₅ in
    let h₇ = encode_varint_field-Unled _ 7 p.drop_frames h₆ (unlike _ refl) in
    let h₈ = encode_varint_field-Unled _ 8 p.keep_frames h₇ (unlike _ refl) in
    let h₉ = encode_sint64_field-Unled _ 9 p.time_nanos h₈ (unlike _ refl) in
    let h₁₀ = encode_sint64_field-Unled _ 10 p.duration_nanos h₉ (unlike _ refl) in
    let h₁₁ = encode_length_delimited-Unled _ 11 _ h₁₀ (unlike _ refl) in
    let h₁₂ = encode_sint64_field-Unled _ 12 p.period h₁₁ (unlike _ refl) in
    let h₁₃ = encode_comments-Unled _ p.comments h₁₂ in
    let h₁₄ = encode_varint_field-Unled _ 14 p.default_sample_type h₁₃ (unlike _ refl) in
    encode_varint_field-Unled _ 15 p.doc_url h₁₄ (unlike _ refl)

pub encode-ne-gzip : (p : PprofProfile) (b : ℕ) → beq (take 2 (encode p)) (31 ∷ b ∷ []) ≡ false
encode-ne-gzip p b = by_bytes (encode p) (encode-Unled p)
  where
    by_bytes : (bs : List ℕ) → Unled bs → beq (take 2 bs) (31 ∷ b ∷ []) ≡ false
    by_bytes [] h = refl
    by_bytes (x ∷ []) h = ground arith
    by_bytes (x ∷ y ∷ bs) h = ground arith

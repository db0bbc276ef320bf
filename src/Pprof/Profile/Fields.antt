-- ===== src/Pprof/Profile/Fields.antt =====
-- src/pprof.rs: what `PprofProfile::encode` writes, as a list of fields.
use pprofessor.Common.{
  ℕ, ◌<◌, List, [], ◌∷◌, ◌++◌, ◌≡◌, sym, ap, ◌∙◌, arith, true, append_assoc, append-nil, All,
  All-append,
}
use pprofessor.Common.Int.{IsU64, IsI64, as_u64, as_u64-IsU64}
use pprofessor.Wire.Encode.{encode_varint_field, encode_string_field}
use pprofessor.Wire.Decode.{Field, bytes}
use pprofessor.Wire.Emit.{
  at, emit, emit-append, emit-nil, emit_laws, IsWritten, varint_fields, bytes_fields,
  message_fields, encode_string_field-emit, encode_varint_field-emit,
}
use pprofessor.Wire.Codec.{
  varint_fields-IsWritten, bytes_fields-IsWritten, message_fields-IsWritten,
}
use pprofessor.Pprof.ValueType
use pprofessor.Pprof.ValueType.{ValueType}
use pprofessor.Pprof.Sample
use pprofessor.Pprof.Mapping
use pprofessor.Pprof.Location
use pprofessor.Pprof.Function
use pprofessor.Pprof.StringTable.Laws.{IsCanonical}
use pprofessor.Pprof.Utf8.{is_utf8}
use pprofessor.Pprof.Profile.{PprofProfile, encode_strings, encode_comments, encode}

-- What `encode` writes.
unfoldable pub string_fields : List (List ℕ) → List Field
string_fields [] = []
string_fields (s ∷ ss) = at 6 (bytes s) ∷ string_fields ss

unfoldable pub comment_fields : List ℕ → List Field
comment_fields [] = []
comment_fields (c ∷ cs) = varint_fields 13 c ++ comment_fields cs

encode_strings-emit :
    (buf : List ℕ) (ss : List (List ℕ)) → encode_strings buf ss ≡ buf ++ emit (string_fields ss)
unfolding encode_strings string_fields
encode_strings-emit buf [] = rw emit-nil (sym (append-nil buf))
encode_strings-emit buf (s ∷ ss) =
    encode_strings-emit (encode_string_field buf 6 s) ss
    ∙ rw encode_string_field-emit (append_assoc buf _ _)
    ∙ ap (λ l. buf ++ l) (sym (emit-append (at 6 (bytes s) ∷ []) (string_fields ss)))

encode_comments-emit :
    (buf : List ℕ) (cs : List ℕ) → encode_comments buf cs ≡ buf ++ emit (comment_fields cs)
unfolding encode_comments comment_fields
encode_comments-emit buf [] = rw emit-nil (sym (append-nil buf))
encode_comments-emit buf (c ∷ cs) =
    encode_comments-emit (encode_varint_field buf 13 c) cs
    ∙ rw encode_varint_field-emit (append_assoc buf _ _)
    ∙ ap (λ l. buf ++ l) (sym (emit-append (varint_fields 13 c) (comment_fields cs)))

-- The fields behind the strings, and those from the strings on.
abbrev pub tail_numbers : PprofProfile → List Field
tail_numbers p =
    varint_fields 7 p.drop_frames
    ++ (varint_fields 8 p.keep_frames
        ++ (varint_fields 9 (as_u64 p.time_nanos)
            ++ (varint_fields 10 (as_u64 p.duration_nanos)
                ++ (bytes_fields 11 (ValueType.encode [] p.period_type)
                    ++ (varint_fields 12 (as_u64 p.period)
                        ++ (comment_fields p.comments
                            ++ (varint_fields 14 p.default_sample_type
                                ++ (varint_fields 15 p.doc_url ++ []))))))))

abbrev pub tail_fields : PprofProfile → List Field
tail_fields p = string_fields p.strings.strings ++ tail_numbers p

abbrev pub fields : PprofProfile → List Field
fields p =
    message_fields ValueType.encode 1 p.value_types
    ++ (message_fields Sample.encode 2 p.samples
        ++ (message_fields Mapping.encode 3 p.mappings
            ++ (message_fields Location.encode 4 p.locations
                ++ (message_fields Function.encode 5 p.functions ++ tail_fields p))))

pub encode-emit : (p : PprofProfile) → encode p ≡ emit (fields p)
unfolding encode
encode-emit p = simp (emit_laws, encode_strings-emit, encode_comments-emit)

-- The numbers fit their types, the strings are text, and the string table is one that `new`,
-- `intern` and `from_strings` make.
pub record IsInRange (p : PprofProfile) : Type 0 where
  pub value_types_fit : All ValueType.IsInRange p.value_types
  pub samples_fit : All Sample.IsInRange p.samples
  pub mappings_fit : All Mapping.IsInRange p.mappings
  pub locations_fit : All Location.IsInRange p.locations
  pub functions_fit : All Function.IsInRange p.functions
  pub strings_text : All (λ s. is_utf8 s ≡ true) p.strings.strings
  pub strings_canonical : IsCanonical p.strings
  pub drop_frames_fits : IsU64 p.drop_frames
  pub keep_frames_fits : IsU64 p.keep_frames
  pub time_nanos_fits : IsI64 p.time_nanos
  pub duration_nanos_fits : IsI64 p.duration_nanos
  pub period_type_fits : ValueType.IsInRange p.period_type
  pub period_fits : IsI64 p.period
  pub comments_fit : All IsU64 p.comments
  pub default_sample_type_fits : IsU64 p.default_sample_type
  pub doc_url_fits : IsU64 p.doc_url

string_fields-IsWritten : (ss : List (List ℕ)) → All IsWritten (string_fields ss)
unfolding string_fields
string_fields-IsWritten [] = tt
string_fields-IsWritten (s ∷ ss) = ((omega arith, omega arith, tt), string_fields-IsWritten ss)

comment_fields-IsWritten : (cs : List ℕ) → All IsU64 cs → All IsWritten (comment_fields cs)
unfolding comment_fields
comment_fields-IsWritten [] r = tt
comment_fields-IsWritten (c ∷ cs) (r, rs) =
    All-append IsWritten (varint_fields 13 c) _
      (varint_fields-IsWritten 13 c (omega arith) (omega arith) r) (comment_fields-IsWritten cs rs)

tail_fields-IsWritten : (p : PprofProfile) → IsInRange p → All IsWritten (tail_fields p)
tail_fields-IsWritten p r =
    join (string_fields p.strings.strings) _ (string_fields-IsWritten p.strings.strings) (
      number 7 p.drop_frames _ r.drop_frames_fits (omega arith) (omega arith) (
        number 8 p.keep_frames _ r.keep_frames_fits (omega arith) (omega arith) (
          number 9 _ _ (as_u64-IsU64 p.time_nanos) (omega arith) (omega arith) (
            number 10 _ _ (as_u64-IsU64 p.duration_nanos) (omega arith) (omega arith) (
              join (bytes_fields 11 (ValueType.encode [] p.period_type)) _
                (bytes_fields-IsWritten 11 _ (omega arith) (omega arith))
                (number 12 _ _ (as_u64-IsU64 p.period) (omega arith) (omega arith) (
                  join (comment_fields p.comments) _
                    (comment_fields-IsWritten p.comments r.comments_fit)
                    (number 14 p.default_sample_type _ r.default_sample_type_fits (omega arith)
                      (omega arith)
                      (number 15 p.doc_url _ r.doc_url_fits (omega arith) (omega arith) tt)))))))))
  where
    join : (fs gs : List Field) → All IsWritten fs → All IsWritten gs → All IsWritten (fs ++ gs)
    join fs gs h k = All-append IsWritten fs gs h k

    number :
        (n v : ℕ) (gs : List Field)
        → IsU64 v
        → 0 < n
        → n < 16
        → All IsWritten gs
        → All IsWritten (varint_fields n v ++ gs)
    number n v gs hv h₀ h₁ k =
        All-append IsWritten (varint_fields n v) gs (varint_fields-IsWritten n v h₀ h₁ hv) k

messages-IsWritten :
    {A : Type 0} (encode : List ℕ → A → List ℕ) (n : ℕ) (ms : List A) (gs : List Field)
    → 0 < n
    → n < 16
    → All IsWritten gs
    → All IsWritten (message_fields encode n ms ++ gs)
messages-IsWritten encode n ms gs h₀ h₁ k =
    All-append IsWritten (message_fields encode n ms) gs
      (message_fields-IsWritten encode n ms h₀ h₁) k

pub fields-IsWritten : (p : PprofProfile) → IsInRange p → All IsWritten (fields p)
fields-IsWritten p r =
    messages-IsWritten ValueType.encode 1 p.value_types _ (omega arith) (omega arith) (
      messages-IsWritten Sample.encode 2 p.samples _ (omega arith) (omega arith) (
        messages-IsWritten Mapping.encode 3 p.mappings _ (omega arith) (omega arith) (
          messages-IsWritten Location.encode 4 p.locations _ (omega arith) (omega arith) (
            messages-IsWritten Function.encode 5 p.functions _ (omega arith) (omega arith)
              (tail_fields-IsWritten p r)))))

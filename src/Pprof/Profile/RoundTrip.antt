-- ===== src/Pprof/Profile/RoundTrip.antt =====
-- src/pprof.rs: what `PprofProfile::decode` makes of the bytes of `PprofProfile::encode`.
use pprofessor.Common.{
  ℕ, ◌<◌, ◌^◌, List, [], ◌∷◌, ◌++◌, push, keep, length, ◌≡◌, refl, sym, ap, ◌∙◌, arith, ◌==◌, not,
  Bool, true, Bool-cases, inl, inr, append_assoc, append-nil, All, ok,
}
use pprofessor.Common.Int.{ℤ, pos, IsI64, as_u64, as_i64, as_i64-as_u64, as_u64-eq-zero}
use pprofessor.Wire.Decode.{Field, varint, decode_message, decode_loop, next}
use pprofessor.Wire.Emit.{at, emit, length-emit-append, varint_fields}
use pprofessor.Wire.RoundTrip.{run, decode_message-emit}
use pprofessor.Wire.Codec.{
  kept_all, run-varint_fields, run-bytes_fields, run-message_fields, bytes_fields_bound,
}
use pprofessor.Pprof.ValueType
use pprofessor.Pprof.ValueType.{ValueType}
use pprofessor.Pprof.Sample
use pprofessor.Pprof.Mapping
use pprofessor.Pprof.Location
use pprofessor.Pprof.Function
use pprofessor.Pprof.StringTable.Laws.{from_strings_complete}
use pprofessor.Pprof.Utf8.{is_utf8}
use pprofessor.Pprof.Profile.{PprofProfile, blank, encode, visit, no_strings, decode}
use pprofessor.Pprof.Profile.Fields.{
  string_fields, comment_fields, tail_numbers, fields, encode-emit, IsInRange, fields-IsWritten,
}

abbrev pub written : ℕ → Bool
written v = not (v == 0)

-- What of a profile comes back: messages whose fields are all zero are lost, and comments that
-- point at string 0.
abbrev pub kept : PprofProfile → PprofProfile
kept p = record p {
  value_types = kept_all ValueType.codec p.value_types;
  samples = kept_all Sample.codec p.samples;
  mappings = kept_all Mapping.codec p.mappings;
  locations = kept_all Location.codec p.locations;
  functions = kept_all Function.codec p.functions;
  comments = keep written p.comments;
}

-- The profile in the course of decoding.
abbrev with_value_types : List ValueType → PprofProfile
with_value_types l = record (blank no_strings) { value_types = l }

abbrev with_samples : PprofProfile → List Sample.Sample → PprofProfile
with_samples p l = record (with_value_types p.value_types) { samples = l }

abbrev with_mappings : PprofProfile → List Mapping.Mapping → PprofProfile
with_mappings p l = record (with_samples p p.samples) { mappings = l }

abbrev with_locations : PprofProfile → List Location.Location → PprofProfile
with_locations p l = record (with_mappings p p.mappings) { locations = l }

abbrev with_functions : PprofProfile → List Function.Function → PprofProfile
with_functions p l = record (with_locations p p.locations) { functions = l }

abbrev with_strings : PprofProfile → List (List ℕ) → PprofProfile
with_strings p l = record (with_functions p p.functions) {
  strings = record { strings = l; indices = [] };
}

abbrev raw : PprofProfile → PprofProfile
raw p = with_strings p p.strings.strings

abbrev with_frames : PprofProfile → PprofProfile
with_frames p = record (raw p) { drop_frames = p.drop_frames; keep_frames = p.keep_frames }

abbrev with_times : PprofProfile → PprofProfile
with_times p = record (with_frames p) {
  time_nanos = p.time_nanos;
  duration_nanos = p.duration_nanos;
}

abbrev with_period : PprofProfile → PprofProfile
with_period p = record (with_times p) { period_type = p.period_type; period = p.period }

abbrev with_comments : PprofProfile → List ℕ → PprofProfile
with_comments p l = record (with_period p) { comments = l }

run-string_fields :
    (p : PprofProfile) (ss done : List (List ℕ)) (gs : List Field)
    → All (λ s. is_utf8 s ≡ true) ss
    → run visit (with_strings p done) (string_fields ss ++ gs)
      ≡ run visit (with_strings p (done ++ ss)) gs
unfolding run visit string_fields
run-string_fields p [] done gs r = ap (λ l. run visit (with_strings p l) gs) (sym (append-nil done))
run-string_fields p (s ∷ ss) done gs (r, rs) = rw r (
    run-string_fields p ss (push done s) gs rs
    ∙ ap (λ l. run visit (with_strings p l) gs) (append_assoc done (s ∷ []) ss))

run-comment_fields :
    (p : PprofProfile) (cs done : List ℕ) (gs : List Field)
    → run visit (with_comments p done) (comment_fields cs ++ gs)
      ≡ run visit (with_comments p (done ++ keep written cs)) gs
unfolding run visit comment_fields varint_fields
run-comment_fields p [] done gs = ap (λ l. run visit (with_comments p l) gs) (sym (append-nil done))
run-comment_fields p (c ∷ cs) done gs = elim (Bool-cases (c == 0)) [
  | inl e ↦ rw e (run-comment_fields p cs done gs)
  | inr e ↦ rw e (
      run-comment_fields p cs (push done c) gs
      ∙ ap (λ l. run visit (with_comments p l) gs) (append_assoc done (c ∷ []) (keep written cs)))
]

decode-nil : ValueType.decode [] ≡ ok ValueType.default
unfolding ValueType.decode decode_message decode_loop next
decode-nil = refl

period_type-nil :
    (m : ValueType)
    → ValueType.IsInRange m
    → length (ValueType.encode [] m) < 2 ^ 64
    → ValueType.encode [] m ≡ []
    → m ≡ ValueType.default
period_type-nil m r h e = cc (ValueType.decode-encode m r h, ap ValueType.decode e, decode-nil)

-- A signed number that was not written is zero.
run-signed :
    (m : ℤ → PprofProfile) (n : ℕ) (v : ℤ) (gs : List Field)
    → IsI64 v
    → visit (m (pos 0)) (at n (varint (as_u64 v))) ≡ ok (m (as_i64 (as_u64 v)))
    → run visit (m (pos 0)) (varint_fields n (as_u64 v) ++ gs) ≡ run visit (m v) gs
run-signed m n v gs r e =
    run-varint_fields visit (m (pos 0)) (m v) n (as_u64 v) gs
      (e ∙ ap (λ x. ok (m x)) (as_i64-as_u64 v r)) (λ z. ap m (as_u64-eq-zero v r z))

-- An unsigned number that was not written is zero.
run-unsigned :
    (m : ℕ → PprofProfile) (n v : ℕ) (gs : List Field)
    → visit (m 0) (at n (varint v)) ≡ ok (m v)
    → run visit (m 0) (varint_fields n v ++ gs) ≡ run visit (m v) gs
run-unsigned m n v gs e = run-varint_fields visit (m 0) (m v) n v gs e (λ z. ap m z)

-- The fields behind the strings, one after the other.
run-numbers :
    (p : PprofProfile)
    → IsInRange p
    → length (ValueType.encode [] p.period_type) < 2 ^ 64
    → run visit (raw (kept p)) (tail_numbers p) ≡ ok (record (kept p) { strings = (raw p).strings })
unfolding visit
run-numbers p r h =
    let q = kept p in
    run-unsigned (λ x. record (raw q) { drop_frames = x }) 7 p.drop_frames _ refl
    ∙ run-unsigned (λ x. record (raw q) { drop_frames = p.drop_frames; keep_frames = x }) 8
        p.keep_frames _ refl
    ∙ run-signed (λ x. record (with_frames q) { time_nanos = x }) 9 p.time_nanos _ r.time_nanos_fits
        refl
    ∙ run-signed (λ x. record (with_frames q) { time_nanos = p.time_nanos; duration_nanos = x }) 10
        p.duration_nanos _ r.duration_nanos_fits refl
    ∙ run-bytes_fields visit (with_times q) (record (with_times q) { period_type = p.period_type })
        11 (ValueType.encode [] p.period_type) _
        (rw (ValueType.decode-encode p.period_type r.period_type_fits h))
        (λ e.
          ap (λ x. record (with_times q) { period_type = x })
            (period_type-nil p.period_type r.period_type_fits h e))
    ∙ run-signed (λ x. record (with_times q) { period_type = p.period_type; period = x }) 12
        p.period _ r.period_fits refl
    ∙ run-comment_fields q p.comments [] _
    ∙ run-unsigned (λ x. record (with_comments q q.comments) { default_sample_type = x }) 14
        p.default_sample_type _ refl
    ∙ run-unsigned
        (λ x. record (with_comments q q.comments) {
          default_sample_type = p.default_sample_type;
          doc_url = x;
        })
        15 p.doc_url [] refl
    ∙ unfold run in refl

run-fields :
    (p : PprofProfile)
    → IsInRange p
    → length (emit (fields p)) < 2 ^ 64
    → run visit (blank no_strings) (fields p) ≡ ok (record (kept p) { strings = (raw p).strings })
unfolding visit
run-fields p r h =
    let q = kept p in
    run-message_fields ValueType.codec visit 1 with_value_types (λ ys b x e. rw e) p.value_types []
      _ r.value_types_fit (omega (arith, length-emit-append))
    ∙ run-message_fields Sample.codec visit 2 (with_samples q) (λ ys b x e. rw e) p.samples [] _
        r.samples_fit (omega (arith, length-emit-append))
    ∙ run-message_fields Mapping.codec visit 3 (with_mappings q) (λ ys b x e. rw e) p.mappings [] _
        r.mappings_fit (omega (arith, length-emit-append))
    ∙ run-message_fields Location.codec visit 4 (with_locations q) (λ ys b x e. rw e) p.locations []
        _ r.locations_fit (omega (arith, length-emit-append))
    ∙ run-message_fields Function.codec visit 5 (with_functions q) (λ ys b x e. rw e) p.functions []
        _ r.functions_fit (omega (arith, length-emit-append))
    ∙ run-string_fields q p.strings.strings [] _ r.strings_text
    ∙ run-numbers p r (
        omega
          (arith, length-emit-append, bytes_fields_bound 11 (ValueType.encode [] p.period_type)))

-- Decoding the encoding of a profile gives the profile back, without the messages (value types,
-- samples, mappings, locations, functions, lines of a location, labels of a sample) whose fields are
-- all zero and without the comments that are 0. It holds of every profile whose numbers fit their
-- types, whose strings are UTF-8, whose string table is canonical, and whose encoding is below 2 ^ 64
-- bytes long.
pub decode-encode_profile :
    (p : PprofProfile) → IsInRange p → length (encode p) < 2 ^ 64 → decode (encode p) ≡ ok (kept p)
unfolding decode
decode-encode_profile p r h =
    let h' : length (emit (fields p)) < 2 ^ 64 = rw (encode-emit p) at h in
    rw (
      encode-emit p,
      decode_message-emit visit (fields p) (blank no_strings) (fields-IsWritten p r) h',
      run-fields p r h',
      from_strings_complete p.strings.strings p.strings r.strings_canonical refl,
    )

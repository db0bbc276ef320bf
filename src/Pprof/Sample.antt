-- ===== src/Pprof/Sample.antt =====
-- src/pprof.rs, `Sample`: the record, its encoder and decoder.
use pprofessor.Common.{
  ℕ, ◌<◌, ◌^◌, List, [], ◌∷◌, ◌++◌, push, map, all, length, is_nil, ◌≡◌, refl, ap, ◌∙◌, arith, ◌==◌,
  ◌&&◌, Bool, if◌then◌else◌, All, All-append, ok, ◌>>=◌, and_true,
}
use pprofessor.Common.Int.{ℤ, IsU64, IsI64, as_u64, as_i64, as_u64-IsU64, as_i64-as_u64}
use pprofessor.Wire.Encode.{encode_packed_u64, encode_packed_i64, encode_messages}
use pprofessor.Wire.Decode.{
  Field, FieldValue, varint, bytes, Decoded, decode_message, decode_packed,
}
use pprofessor.Wire.Emit.{
  emit, length-emit-append, emit-nil, emit_laws, IsWritten, bytes_fields, message_fields, varints,
}
use pprofessor.Wire.RoundTrip.{run, decode_message-emit}
use pprofessor.Wire.Packed.{decode_packed-varints, is_nil-varints}
use pprofessor.Wire.Codec.{
  Codec, kept_all, run-bytes_fields, bytes_fields-IsWritten, is_nil-bytes_fields,
  message_fields-IsWritten, run-message_fields, is_nil-message_fields,
}
use pprofessor.Pprof.Label
use pprofessor.Pprof.Label.{Label}

pub record Sample : Type 0 where
  pub location_ids : List ℕ
  pub values : List ℤ
  pub labels : List Label

abbrev pub default : Sample
default = record { location_ids = []; values = []; labels = [] }

unfoldable pub encode : List ℕ → Sample → List ℕ
encode buf m =
    let b₁ = encode_packed_u64 buf 1 m.location_ids in
    let b₂ = encode_packed_i64 b₁ 2 m.values in encode_messages Label.encode b₂ 3 m.labels

abbrev push_location : Sample → ℕ → Sample
push_location m v = record m { location_ids = push m.location_ids v }

abbrev push_value : Sample → ℕ → Sample
push_value m v = record m { values = push m.values (as_i64 v) }

-- The arm of the decoder's `match` on a field's number and value; a repeated number may come packed
-- or alone.
unfoldable pub visit_value : Sample → ℕ → FieldValue → Decoded Sample
visit_value m n (varint v) =
    if n == 1 then ok (push_location m v) else if n == 2 then ok (push_value m v) else ok m
visit_value m n (bytes b) =
    if n == 1
    then decode_packed push_location m b
    else if n == 2
    then decode_packed push_value m b
    else if n == 3
    then (do label ← Label.decode b; ok (record m { labels = push m.labels label }))
    else ok m
visit_value m n _ = ok m

unfoldable pub visit : Sample → Field → Decoded Sample
unfolding visit_value
visit m f = visit_value m f.number f.value

unfoldable pub decode : List ℕ → Decoded Sample
unfolding visit
decode bs = decode_message visit default bs

-- What `encode` writes.
abbrev fields : Sample → List Field
fields m =
    bytes_fields 1 (varints m.location_ids)
    ++ (bytes_fields 2 (varints (map as_u64 m.values))
        ++ (message_fields Label.encode 3 m.labels ++ []))

encode-emit : (buf : List ℕ) (m : Sample) → encode buf m ≡ buf ++ emit (fields m)
unfolding encode
encode-emit buf m = simp emit_laws

-- The numbers fit their types.
pub record IsInRange (m : Sample) : Type 0 where
  pub location_ids_fit : All IsU64 m.location_ids
  pub values_fit : All IsI64 m.values
  pub labels_fit : All Label.IsInRange m.labels

fields-IsWritten : (m : Sample) → All IsWritten (fields m)
fields-IsWritten m =
    All-append IsWritten (bytes_fields 1 (varints m.location_ids)) _
      (bytes_fields-IsWritten 1 _ (omega arith) (omega arith))
      (All-append IsWritten (bytes_fields 2 (varints (map as_u64 m.values))) _
        (bytes_fields-IsWritten 2 _ (omega arith) (omega arith))
        (All-append IsWritten (message_fields Label.encode 3 m.labels) _
          (message_fields-IsWritten Label.encode 3 m.labels (omega arith) (omega arith)) tt))

map-as_u64-IsU64 : (vs : List ℤ) → All IsU64 (map as_u64 vs)
map-as_u64-IsU64 [] = tt
map-as_u64-IsU64 (v ∷ vs) = (as_u64-IsU64 v, map-as_u64-IsU64 vs)

map-as_i64-as_u64 : (vs : List ℤ) → All IsI64 vs → map as_i64 (map as_u64 vs) ≡ vs
map-as_i64-as_u64 [] r = refl
map-as_i64-as_u64 (v ∷ vs) (r, rs) =
    ap (λ x. x ∷ map as_i64 (map as_u64 vs)) (as_i64-as_u64 v r)
    ∙ ap (λ l. v ∷ l) (map-as_i64-as_u64 vs rs)

map_same : (vs : List ℕ) → map (λ v. v) vs ≡ vs
map_same [] = refl
map_same (v ∷ vs) = ap (λ l. v ∷ l) (map_same vs)

-- No bytes stand for no numbers.
varints-nil : (vs : List ℕ) → varints vs ≡ [] → vs ≡ []
varints-nil [] e = refl
varints-nil (v ∷ vs) e = cc (ap is_nil e, is_nil-varints (v ∷ vs))

map-nil : (vs : List ℤ) → map as_u64 vs ≡ [] → vs ≡ []
map-nil [] e = refl
map-nil (v ∷ vs) e = cc

-- The labels of zeros are lost.
abbrev pub kept : Sample → Sample
kept m = record m { labels = kept_all Label.codec m.labels }

abbrev with_ids : List ℕ → Sample
with_ids l = record default { location_ids = l }

abbrev with_values : Sample → List ℤ → Sample
with_values m l = record default { location_ids = m.location_ids; values = l }

abbrev with_labels : Sample → List Label → Sample
with_labels m l = record m { labels = l }

run-fields :
    (m : Sample)
    → IsInRange m
    → length (emit (message_fields Label.encode 3 m.labels)) < 2 ^ 64
    → run visit default (fields m) ≡ ok (kept m)
unfolding visit run
run-fields m r h =
    run-bytes_fields visit default (with_ids m.location_ids) 1 (varints m.location_ids) _
      (decode_packed-varints push_location with_ids (λ v. v) (λ ys v. refl) m.location_ids []
          r.location_ids_fit
        ∙ ap (λ l. ok (with_ids l)) (map_same m.location_ids))
      (λ e. ap with_ids (varints-nil m.location_ids e))
    ∙ run-bytes_fields visit (with_values m []) (with_values m m.values) 2
        (varints (map as_u64 m.values)) _
        (decode_packed-varints push_value (with_values m) as_i64 (λ ys v. refl)
            (map as_u64 m.values) [] (map-as_u64-IsU64 m.values)
          ∙ ap (λ l. ok (with_values m l)) (map-as_i64-as_u64 m.values r.values_fit))
        (λ e. ap (with_values m) (map-nil m.values (varints-nil (map as_u64 m.values) e)))
    ∙ run-message_fields Label.codec visit 3 (with_labels m) (λ ys b x e. rw e) m.labels [] []
        r.labels_fit h

-- Decoding what `encode` wrote gives the message back, without the labels of zeros.
pub decode-encode :
    (m : Sample) → IsInRange m → length (encode [] m) < 2 ^ 64 → decode (encode [] m) ≡ ok (kept m)
unfolding decode
decode-encode m r h =
    let h' : length (emit (fields m)) < 2 ^ 64 = rw (encode-emit [] m) at h in
    rw (encode-emit [] m) (
      decode_message-emit visit (fields m) default (fields-IsWritten m) h'
      ∙ run-fields m r (omega (arith, length-emit-append)))

abbrev pub is_default : Sample → Bool
is_default m = is_nil m.location_ids && (is_nil m.values && all Label.is_default m.labels)

is_nil-map : (vs : List ℤ) → is_nil (map as_u64 vs) ≡ is_nil vs
is_nil-map [] = refl
is_nil-map (v ∷ vs) = refl

-- A message of zeros is written as no bytes at all.
pub is_nil-encode : (m : Sample) → IsInRange m → is_nil (encode [] m) ≡ is_default m
is_nil-encode m r = rw (encode-emit [] m) (
    simp (
      is_nil-bytes_fields,
      is_nil-varints,
      is_nil-map,
      is_nil-message_fields Label.codec 3 m.labels _ r.labels_fit,
      emit-nil,
      and_true,
    ))

abbrev pub codec : Codec Sample
codec = record {
  encode = encode;
  decode = decode;
  kept = kept;
  is_default = is_default;
  IsInRange = IsInRange;
  decode-encode = decode-encode;
  is_nil-encode = is_nil-encode;
}

-- ===== src/Pprof/Profile/Kept.antt =====
-- src/pprof.rs: which profiles survive encoding and decoding unchanged.
use pprofessor.Common.{
  ℕ, suc, ◌≤◌, ◌<◌, ◌^◌, List, [], ◌∷◌, keep, map, all, length, ◌≡◌, ◌≢◌, ◌↔◌, refl, sym, ap, ◌∙◌,
  arith, not, ◌&&◌, Bool, true, Bool-cases, inl, inr, ok,
}
use pprofessor.Wire.Codec.{Codec, kept_all}
use pprofessor.Wire.Decode.{Decoded}
use pprofessor.Pprof.ValueType
use pprofessor.Pprof.Line
use pprofessor.Pprof.Label
use pprofessor.Pprof.Sample
use pprofessor.Pprof.Sample.{Sample}
use pprofessor.Pprof.Mapping
use pprofessor.Pprof.Location
use pprofessor.Pprof.Location.{Location}
use pprofessor.Pprof.Function
use pprofessor.Pprof.Profile.{PprofProfile, encode, decode}
use pprofessor.Pprof.Profile.Fields.{IsInRange}
use pprofessor.Pprof.Profile.RoundTrip.{kept, written, decode-encode_profile}

and_iff : {a b : Bool} → (a && b ≡ true) ↔ ((a ≡ true) × (b ≡ true))
and_iff {a} {b} = ground arith

module _ {A : Type 0} where
  length-keep : (p : A → Bool) (xs : List A) → length (keep p xs) ≤ length xs
  length-keep p [] = omega arith
  length-keep p (x ∷ xs) = elim (Bool-cases (p x)) [
    | inl e ↦ rw e (omega (arith, length-keep p xs))
    | inr e ↦ rw e (omega (arith, length-keep p xs))
  ]

  length-map : (f : A → A) (xs : List A) → length (map f xs) ≡ length xs
  length-map f [] = refl
  length-map f (x ∷ xs) = ap suc (length-map f xs)

  too_short : (f : A → A) (p : A → Bool) (x : A) (xs : List A) → map f (keep p xs) ≢ x ∷ xs
  too_short f p x xs e = omega (arith, ap length e, length-map f (keep p xs), length-keep p xs)

  cons_parts : {x y : A} {xs ys : List A} → x ∷ xs ≡ y ∷ ys → (x ≡ y) × (xs ≡ ys)
  cons_parts e = (cc, cc)

  -- A filter followed by a map gives the list back exactly where nothing is dropped or changed.
  kept-same_iff :
      (f : A → A) (p whole : A → Bool)
      → ((x : A) → (f x ≡ x) ↔ (whole x ≡ true))
      → (xs : List A) → (map f (keep p xs) ≡ xs) ↔ (all (λ x. p x && whole x) xs ≡ true)
  kept-same_iff f p whole h [] = (λ _. refl, λ _. refl)
  kept-same_iff f p whole h (x ∷ xs) = elim (Bool-cases (p x)) [
    | inl e ↦ rw e (
      λ q. and_iff.1 ((h x).0 (cons_parts q).0, (kept-same_iff f p whole h xs).0 (cons_parts q).1),
      λ q.
          ap (λ y. y ∷ map f (keep p xs)) ((h x).1 (and_iff.0 q).0)
          ∙ ap (λ l. x ∷ l) ((kept-same_iff f p whole h xs).1 (and_iff.0 q).1),
    )
    | inr e ↦ rw e (λ q. absurd (too_short f p x xs q), λ q. cc)
  ]

-- A list of messages is kept whole: none is default, and each is kept whole itself.
abbrev pub all_whole : {A : Type 0} → Codec A → (A → Bool) → List A → Bool
all_whole c whole xs = all (λ x. not (c.is_default x) && whole x) xs

kept_all-same_iff :
    {A : Type 0} (c : Codec A) (whole : A → Bool)
    → ((x : A) → (c.kept x ≡ x) ↔ (whole x ≡ true))
    → (xs : List A) → (kept_all c xs ≡ xs) ↔ (all_whole c whole xs ≡ true)
unfolding kept_all
kept_all-same_iff c whole h xs = kept-same_iff c.kept (λ x. not (c.is_default x)) whole h xs

abbrev pub flat {ℓ} : {A : Type ℓ} → A → Bool
flat x = true

flat_iff : {A : Type 0} (x : A) → (x ≡ x) ↔ (flat x ≡ true)
flat_iff x = (λ _. refl, λ _. refl)

abbrev pub whole_location : Location → Bool
whole_location l = all_whole Line.codec flat l.lines

abbrev pub whole_sample : Sample → Bool
whole_sample s = all_whole Label.codec flat s.labels

whole_location_iff : (l : Location) → (Location.kept l ≡ l) ↔ (whole_location l ≡ true)
whole_location_iff l =
    let lines_iff = kept_all-same_iff Line.codec flat flat_iff l.lines in
    (
      λ e. lines_iff.0 (ap (λ (x : Location). x.lines) e),
      λ e. ap (λ x. record l { lines = x }) (lines_iff.1 e),
    )

whole_sample_iff : (s : Sample) → (Sample.kept s ≡ s) ↔ (whole_sample s ≡ true)
whole_sample_iff s =
    let labels_iff = kept_all-same_iff Label.codec flat flat_iff s.labels in
    (
      λ e. labels_iff.0 (ap (λ (x : Sample). x.labels) e),
      λ e. ap (λ x. record s { labels = x }) (labels_iff.1 e),
    )

-- No message of the profile is all zero, and no comment is 0.
pub record IsWhole (p : PprofProfile) : Type 0 where
  pub value_types_whole : all_whole ValueType.codec flat p.value_types ≡ true
  pub samples_whole : all_whole Sample.codec whole_sample p.samples ≡ true
  pub mappings_whole : all_whole Mapping.codec flat p.mappings ≡ true
  pub locations_whole : all_whole Location.codec whole_location p.locations ≡ true
  pub functions_whole : all_whole Function.codec flat p.functions ≡ true
  pub comments_written : all written p.comments ≡ true

comments_iff : (cs : List ℕ) → (keep written cs ≡ cs) ↔ (all written cs ≡ true)
comments_iff [] = (λ _. refl, λ _. refl)
comments_iff (c ∷ cs) = elim (Bool-cases (written c)) [
  | inl e ↦
      rw e (λ q. (comments_iff cs).0 (cons_parts q).1, λ q. ap (λ l. c ∷ l) ((comments_iff cs).1 q))
  | inr e ↦ rw e (λ q. absurd (omega (arith, ap length q, length-keep written cs)), λ q. cc)
]

kept-same : (p : PprofProfile) → IsWhole p → kept p ≡ p
kept-same p w = λ i. record p {
  value_types =
      (kept_all-same_iff ValueType.codec flat flat_iff p.value_types).1 w.value_types_whole i;
  samples =
      (kept_all-same_iff Sample.codec whole_sample whole_sample_iff p.samples).1 w.samples_whole i;
  mappings = (kept_all-same_iff Mapping.codec flat flat_iff p.mappings).1 w.mappings_whole i;
  locations =
      (kept_all-same_iff Location.codec whole_location whole_location_iff p.locations).1
        w.locations_whole i;
  functions = (kept_all-same_iff Function.codec flat flat_iff p.functions).1 w.functions_whole i;
  comments = (comments_iff p.comments).1 w.comments_written i;
}

same-IsWhole : (p : PprofProfile) → kept p ≡ p → IsWhole p
same-IsWhole p e = record {
  value_types_whole =
      (kept_all-same_iff ValueType.codec flat flat_iff p.value_types).0
        (ap (λ (x : PprofProfile). x.value_types) e);
  samples_whole =
      (kept_all-same_iff Sample.codec whole_sample whole_sample_iff p.samples).0
        (ap (λ (x : PprofProfile). x.samples) e);
  mappings_whole =
      (kept_all-same_iff Mapping.codec flat flat_iff p.mappings).0
        (ap (λ (x : PprofProfile). x.mappings) e);
  locations_whole =
      (kept_all-same_iff Location.codec whole_location whole_location_iff p.locations).0
        (ap (λ (x : PprofProfile). x.locations) e);
  functions_whole =
      (kept_all-same_iff Function.codec flat flat_iff p.functions).0
        (ap (λ (x : PprofProfile). x.functions) e);
  comments_written = (comments_iff p.comments).0 (ap (λ (x : PprofProfile). x.comments) e);
}

abbrev decoded : PprofProfile → Decoded PprofProfile
decoded p = ok p

ok_same : (a b : PprofProfile) → decoded a ≡ decoded b → a ≡ b
ok_same a b e = cc

-- A profile in range comes back unchanged from its encoding exactly when none of its value types,
-- samples, mappings, locations, functions, lines and labels is all zero and no comment is 0. A
-- profile that has one is changed by a save and a load, without an error.
pub round_trip_iff :
    (p : PprofProfile)
    → IsInRange p
    → length (encode p) < 2 ^ 64
    → (decode (encode p) ≡ ok p) ↔ IsWhole p
round_trip_iff p r h = (
  λ e. same-IsWhole p (ok_same _ p (sym (decode-encode_profile p r h) ∙ e)),
  λ w. decode-encode_profile p r h ∙ ap ok (kept-same p w),
)

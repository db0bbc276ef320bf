-- ===== src/Heap/Export/Accepted.antt =====
-- src/heap/mod.rs: `validate_profile` accepts what `to_pprof` makes.
use pprofessor.Common.{
  ℕ, ◌<◌, List, [], ◌∷◌, ◌++◌, push, length, All, All-append, is_nil, none, some, ok, Bool, true,
  false, if◌then◌else◌, ◌≡◌, refl, sym, arith, err, not, ensure, ◌>>◌,
}
use pprofessor.Common.Int.{ℤ, pos}
use pprofessor.Pprof.StringTable
use pprofessor.Pprof.StringTable.Laws.{new-IsCanonical}
use pprofessor.Pprof.Label.{Label}
use pprofessor.Pprof.Sample.{Sample}
use pprofessor.Pprof.Profile
use pprofessor.Pprof.Profile.{PprofProfile}
use pprofessor.Common.Maps.{lookup}
use pprofessor.Heap.{Heaped, empty_domain}
use pprofessor.Heap.Snapshot.{HeapProfile}
use pprofessor.Heap.Validate.{
  alloc_space_text, inuse_space_text, alloc_objects_text, inuse_objects_text, bytes_text,
  count_text, heap_text, validate_profile,
}
use pprofessor.Heap.Validate.Shape.{validate_profile_iff}
use pprofessor.Heap.Export.WellFormed.{Texts, four, Fits-IsWellFormed}
use pprofessor.Heap.Export.{
  intern_in, add_metric, add_metrics, domain_label, add_comment, image_flags, add_mappings,
  add_stacks, or_zero_sample, push_sample, fill, since_epoch, to_pprof,
}
use pprofessor.Heap.Export.Growth.{
  LabelFits, strings_count, Fits, index_lt, intern-Grown, intern_lt,
}
use pprofessor.Heap.Export.Steps.{intern-Fits, add_metric-Fits, push_sample-Fits}
use pprofessor.Heap.Export.Loops.{Good, intern-Twice, add_mappings-Good, add_stacks-Good}

All-tail : {A : Type 0} (P : A → Type 0) (xs ys : List A) → All P (xs ++ ys) → All P ys
All-tail P [] ys h = h
All-tail P (x ∷ xs) ys h = All-tail P xs ys h.1

All-init : {A : Type 0} (P : A → Type 0) (xs ys : List A) → All P (xs ++ ys) → All P xs
All-init P [] ys h = tt
All-init P (x ∷ xs) ys h = (h.0, All-init P xs ys h.1)

new-Fits : Fits [] Profile.new
new-Fits = record {
  canonical = new-IsCanonical;
  metrics = tt;
  mapping_numbers = refl;
  function_numbers = refl;
  location_numbers = refl;
  mappings_fit = tt;
  functions_fit = tt;
  locations_fit = tt;
  samples_fit = tt;
  others_fit =
      (some_string, (some_string, (some_string, (some_string, (some_string, (some_string, tt))))));
}
  where
    some_string : 0 < length StringTable.new.strings
    some_string = index_lt StringTable.new.strings 0 [] new-IsCanonical.starts_empty

-- The profile with another time, other comments and another default sample type, which are strings
-- of its table.
others-Fits :
    (ns : Texts) (p : PprofProfile) (t : ℤ) (d : ℕ) (cs : List ℕ)
    → Fits ns p
    → d < strings_count p
    → All (λ i. i < strings_count p) cs
    → Fits ns (record p { time_nanos = t; default_sample_type = d; comments = cs })
others-Fits ns p t d cs f hd hc = record {
  canonical = f.canonical;
  metrics = f.metrics;
  mapping_numbers = f.mapping_numbers;
  function_numbers = f.function_numbers;
  location_numbers = f.location_numbers;
  mappings_fit = f.mappings_fit;
  functions_fit = f.functions_fit;
  locations_fit = f.locations_fit;
  samples_fit = f.samples_fit;
  others_fit =
      All-append (λ i. i < strings_count p) cs _ hc
        (hd, (All-tail (λ i. i < strings_count p) p.comments _ f.others_fit).1);
}

add_metrics-Fits : (t : ℤ) → Fits four (record (add_metrics Profile.new) { time_nanos = t })
unfolding add_metrics
add_metrics-Fits t =
    let p₁ = add_metric alloc_objects_text count_text Profile.new in
    let p₂ = add_metric alloc_space_text bytes_text p₁ in
    let p₃ = add_metric inuse_objects_text count_text p₂ in
    let p₄ = add_metric inuse_space_text bytes_text p₃ in
    let f₁ = add_metric-Fits [] Profile.new new-Fits alloc_objects_text count_text in
    let f₂ = add_metric-Fits _ p₁ f₁ alloc_space_text bytes_text in
    let f₃ = add_metric-Fits _ p₂ f₂ inuse_objects_text count_text in
    let f₄ = add_metric-Fits _ p₃ f₃ inuse_space_text bytes_text in
    others-Fits four (intern_in p₄ inuse_space_text).0 t _ []
      (intern-Fits four p₄ f₄ inuse_space_text) (intern_lt p₄.strings inuse_space_text f₄.canonical)
      tt

-- The label of the domain fits the table after its two strings.
domain_label-Good :
    (ns : Texts) (domain : List ℕ) (p : PprofProfile)
    → Fits ns p
    → Good ns (strings_count (domain_label domain p).0) (domain_label domain p).0
      × LabelFits (strings_count (domain_label domain p).0) (domain_label domain p).1
unfolding domain_label
domain_label-Good ns domain p f =
    let w = intern-Twice ns p heap_text domain f in
    (
      record { fits = w.fits; longer = omega arith },
      (w.first_lt, (w.second_lt, omega (arith, w.first_lt))),
    )

add_comment-Good :
    (ns : Texts) (n : ℕ) (comment : List ℕ) (p : PprofProfile)
    → Good ns n p
    → Good ns n (add_comment comment p)
unfolding add_comment
add_comment-Good ns n comment p g = by_test (is_nil comment)
  where
    p' : PprofProfile
    p' = (intern_in p comment).0

    f' : Fits ns p'
    f' = intern-Fits ns p g.fits comment

    commented : PprofProfile
    commented = record p' { comments = push p'.comments (intern_in p comment).1 }

    commented-Good : Good ns n commented
    commented-Good = record {
      fits =
          others-Fits ns p' p'.time_nanos p'.default_sample_type
            (push p'.comments (intern_in p comment).1) f'
            (All-tail (λ i. i < strings_count p') p'.comments _ f'.others_fit).0
            (All-append (λ i. i < strings_count p') p'.comments _
              (All-init (λ i. i < strings_count p') p'.comments _ f'.others_fit)
              (intern_lt p.strings comment g.fits.canonical, tt));
      longer = omega (arith, g.longer, (intern-Grown p.strings comment g.fits.canonical).longer);
    }

    by_test : (b : Bool) → Good ns n (if b then p else commented)
    by_test true = g
    by_test false = commented-Good

or_zero_sample-Fits :
    (ns : Texts) (n : ℕ) (label : Label) (p : PprofProfile)
    → LabelFits n label
    → Good ns n p
    → Fits ns (or_zero_sample label p)
or_zero_sample-Fits ns n label p l g = by_test (is_nil p.samples)
  where
    zeros : Sample
    zeros = record {
      location_ids = [];
      values = pos 0 ∷ pos 0 ∷ pos 0 ∷ pos 0 ∷ [];
      labels = label ∷ [];
    }

    by_test : (b : Bool) → Fits ns (if b then push_sample p zeros else p)
    by_test true = push_sample-Fits ns p g.fits zeros (tt, ((omega (arith, l, g.longer), tt), refl))
    by_test false = g.fits

fill-Fits : (h : HeapProfile) → Fits four (fill h Profile.new)
unfolding fill lookup
fill-Fits h =
    let p₁ : PprofProfile = record (add_metrics Profile.new) { time_nanos = h.collected_at } in
    let p₂ = (domain_label h.domain p₁).0 in
    let label = (domain_label h.domain p₁).1 in
    let n = strings_count p₂ in
    let (g₂, l) = domain_label-Good four h.domain p₁ (add_metrics-Fits h.collected_at) in
    let p₃ = add_comment h.comment p₂ in
    let r = add_mappings (image_flags h.samples []) [] p₃ in
    let (g₄, i_fit) =
      add_mappings-Good four n (image_flags h.samples []) [] p₃
        (add_comment-Good four n h.comment p₂ g₂) (λ x i e. no_entry e) in
    or_zero_sample-Fits four n label (add_stacks r.1 label h.samples r.0 []) l (
      add_stacks-Good four n (length r.0.mappings) r.1 i_fit label h.samples r.0 [] l
        (record { good = g₄; mapped = refl; frames_fit = λ x i e. no_entry e }))
  where
    no_entry : {A : Type 0} {i : ℕ} → none ≡ some i → A
    no_entry e = cc

-- What `to_pprof` makes, `validate_profile` accepts: every heap snapshot that is exported at all is
-- exported as a well-formed heap profile.
pub validate_profile-to_pprof :
    (h : HeapProfile) (p : PprofProfile) → to_pprof h ≡ ok p → validate_profile p ≡ ok tt
unfolding to_pprof
validate_profile-to_pprof h p e = by_tests (not (is_nil h.domain)) (since_epoch h.collected_at) e
  where
    by_tests :
        (a : Bool) (b : Heaped (Unit {0}))
        → (do ensure a empty_domain; b; ok (fill h Profile.new)) ≡ ok p
        → validate_profile p ≡ ok tt
    by_tests true (ok t) q =
        let same : fill h Profile.new ≡ p = cc in
        rw (sym same) (
          (validate_profile_iff (fill h Profile.new)).1
            (Fits-IsWellFormed (fill h Profile.new) (fill-Fits h)))
    by_tests true (err x) q = cc
    by_tests false b q = cc

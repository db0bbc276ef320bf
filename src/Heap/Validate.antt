-- ===== src/Heap/Validate.antt =====
-- src/heap/mod.rs, `validate_profile` and `select_domain`.
pub mod Shape
pub mod Domains
pub mod Requested
use pprofessor.Common.{
  ℕ, ◌<◌, List, [], ◌∷◌, ◌++◌, length, get_elem?, is_nil, map, any, beq, ltb, leb, ◌==◌, Bool, true,
  false, not, ◌&&◌, ◌||◌, Option, none, some, Result, ok, err, ◌>>=◌, ◌>>◌, ensure, if◌then◌else◌,
  keep,
}
use pprofessor.Common.Sets.{contains, collect_set}
use pprofessor.Pprof.ValueType.{ValueType}
use pprofessor.Pprof.Label.{Label}
use pprofessor.Pprof.Line.{Line}
use pprofessor.Pprof.Sample.{Sample}
use pprofessor.Pprof.Location.{Location}
use pprofessor.Pprof.Mapping.{Mapping}
use pprofessor.Pprof.Function.{Function}
use pprofessor.Pprof.Profile.{PprofProfile}

-- One constructor for each message of the two functions.
pub data ProfileError : Type 0 where
  bad_string_table invalid_string bad_identifier : ProfileError
  missing_mapping missing_function missing_location : ProfileError
  no_sample_types duplicate_metric unsupported_metric wrong_metric_count : ProfileError
  not_a_heap_profile overlapping_domains unknown_domain : ProfileError

abbrev pub Checked {ℓ} : Type ℓ → Type ℓ
Checked A = Result ProfileError A

-- `for x in xs { check(x)?; }`
unfoldable pub each : {A : Type 0} → (A → Checked (Unit {0})) → List A → Checked (Unit {0})
each check [] = ok tt
each check (x ∷ xs) = do check x; each check xs

abbrev pub is_empty_string : Option (List ℕ) → Bool
is_empty_string none = false
is_empty_string (some s) = is_nil s

unfoldable pub valid_string : PprofProfile → ℕ → Checked (Unit {0})
valid_string p id = ensure (ltb id (length p.strings.strings)) invalid_string

unfoldable pub unique_ids : List ℕ → Checked (List ℕ)
unique_ids ids =
    let set = collect_set [] ids in
    do ensure (length set == length ids && not (contains 0 set)) bad_identifier; ok set

unfoldable pub check_mapping : PprofProfile → Mapping → Checked (Unit {0})
check_mapping p m = do valid_string p m.filename; valid_string p m.build_id

unfoldable pub check_function : PprofProfile → Function → Checked (Unit {0})
check_function p f = do
  valid_string p f.name
  valid_string p f.system_name
  valid_string p f.filename

unfoldable pub check_line : List ℕ → Line → Checked (Unit {0})
check_line functions l = ensure (contains l.function_id functions) missing_function

unfoldable pub check_location : List ℕ → List ℕ → Location → Checked (Unit {0})
check_location mappings functions l = do
  ensure (l.mapping_id == 0 || contains l.mapping_id mappings) missing_mapping
  each (check_line functions) l.lines

unfoldable pub check_label : PprofProfile → Label → Checked (Unit {0})
check_label p l = do valid_string p l.key; valid_string p l.str_index; valid_string p l.num_unit

unfoldable pub check_sample : PprofProfile → List ℕ → Sample → Checked (Unit {0})
check_sample p locations s = do
  each (λ id. ensure (contains id locations) missing_location) s.location_ids
  each (check_label p) s.labels

abbrev pub other_strings : PprofProfile → List ℕ
other_strings p =
    p.comments
    ++ (p.default_sample_type ∷ p.doc_url ∷ p.drop_frames ∷ p.keep_frames ∷ p.period_type.type
        ∷ p.period_type.unit ∷ [])

abbrev pub or_blank : Option (List ℕ) → List ℕ
or_blank none = []
or_blank (some s) = s

-- `profile.strings.strings.get(id as usize)…unwrap_or("")`
abbrev pub string_of : PprofProfile → ℕ → List ℕ
string_of p id = or_blank (get_elem? p.strings.strings id)

-- The texts `alloc_space`, `inuse_space`, `alloc_objects`, `inuse_objects`, `bytes`, `count` and `heap`.
abbrev pub alloc_space_text : List ℕ
alloc_space_text = 97 ∷ 108 ∷ 108 ∷ 111 ∷ 99 ∷ 95 ∷ 115 ∷ 112 ∷ 97 ∷ 99 ∷ 101 ∷ []

abbrev pub inuse_space_text : List ℕ
inuse_space_text = 105 ∷ 110 ∷ 117 ∷ 115 ∷ 101 ∷ 95 ∷ 115 ∷ 112 ∷ 97 ∷ 99 ∷ 101 ∷ []

abbrev pub alloc_objects_text : List ℕ
alloc_objects_text = 97 ∷ 108 ∷ 108 ∷ 111 ∷ 99 ∷ 95 ∷ 111 ∷ 98 ∷ 106 ∷ 101 ∷ 99 ∷ 116 ∷ 115 ∷ []

abbrev pub inuse_objects_text : List ℕ
inuse_objects_text = 105 ∷ 110 ∷ 117 ∷ 115 ∷ 101 ∷ 95 ∷ 111 ∷ 98 ∷ 106 ∷ 101 ∷ 99 ∷ 116 ∷ 115 ∷ []

abbrev pub bytes_text : List ℕ
bytes_text = 98 ∷ 121 ∷ 116 ∷ 101 ∷ 115 ∷ []

abbrev pub count_text : List ℕ
count_text = 99 ∷ 111 ∷ 117 ∷ 110 ∷ 116 ∷ []

abbrev pub heap_text : List ℕ
heap_text = 104 ∷ 101 ∷ 97 ∷ 112 ∷ []

unfoldable pub is_space : List ℕ → Bool
is_space s = beq s alloc_space_text || beq s inuse_space_text

unfoldable pub is_objects : List ℕ → Bool
is_objects s = beq s alloc_objects_text || beq s inuse_objects_text

unfoldable pub supported : List ℕ → List ℕ → Bool
unfolding is_space is_objects
supported name unit = is_space name && beq unit bytes_text || is_objects name && beq unit count_text

-- The loop over the value types; `seen` is the set of the names that were met.
unfoldable pub check_metrics : PprofProfile → List (List ℕ) → List ValueType → Checked (Unit {0})
check_metrics p seen [] = ok tt
check_metrics p seen (v ∷ vs) = do
  valid_string p v.type
  valid_string p v.unit
  ensure (not (any (beq (string_of p v.type)) seen)) duplicate_metric
  ensure (supported (string_of p v.type) (string_of p v.unit)) unsupported_metric
  check_metrics p (string_of p v.type ∷ seen) vs

unfoldable pub validate_profile : PprofProfile → Checked (Unit {0})
unfolding each valid_string unique_ids check_mapping check_function check_location check_sample
    check_metrics
validate_profile p = do
  ensure (is_empty_string (get_elem? p.strings.strings 0)) bad_string_table
  mappings ← unique_ids (map (λ (m : Mapping). m.id) p.mappings)
  functions ← unique_ids (map (λ (f : Function). f.id) p.functions)
  locations ← unique_ids (map (λ (l : Location). l.id) p.locations)
  each (check_mapping p) p.mappings
  each (check_function p) p.functions
  each (check_location mappings functions) p.locations
  each (check_sample p locations) p.samples
  each (valid_string p) (other_strings p)
  ensure (not (is_nil p.value_types)) no_sample_types
  check_metrics p [] p.value_types
  each (λ (s : Sample). ensure (length s.values == length p.value_types) wrong_metric_count)
      p.samples

-- `select_domain`: a profile is a heap profile where some value type has the name of a heap metric.
abbrev pub names_heap_metric : Option (List ℕ) → Bool
names_heap_metric none = false
names_heap_metric (some s) = is_space s || is_objects s

abbrev pub is_heap : PprofProfile → Bool
is_heap p =
    any (λ (v : ValueType). names_heap_metric (get_elem? p.strings.strings v.type)) p.value_types

-- The text `[unspecified heap]`.
abbrev pub unspecified_text : List ℕ
unspecified_text =
    91 ∷ 117 ∷ 110 ∷ 115 ∷ 112 ∷ 101 ∷ 99 ∷ 105 ∷ 102 ∷ 105 ∷ 101 ∷ 100 ∷ 32 ∷ 104 ∷ 101 ∷ 97 ∷ 112
    ∷ 93 ∷ []

abbrev pub is_heap_key : Option (List ℕ) → Bool
is_heap_key none = false
is_heap_key (some s) = beq s heap_text

unfoldable pub find_heap_label : PprofProfile → List Label → Option Label
find_heap_label p [] = none
find_heap_label p (l ∷ ls) =
    if is_heap_key (get_elem? p.strings.strings l.key) then some l else find_heap_label p ls

abbrev pub or_unspecified : Option (List ℕ) → List ℕ
or_unspecified none = unspecified_text
or_unspecified (some s) = s

abbrev pub label_domain : PprofProfile → Option Label → List ℕ
label_domain p none = unspecified_text
label_domain p (some l) = or_unspecified (get_elem? p.strings.strings l.str_index)

abbrev pub domain_of : PprofProfile → Sample → List ℕ
domain_of p s = label_domain p (find_heap_label p s.labels)

-- The set of the domains, of whose order nothing is used.
unfoldable pub domains_of : PprofProfile → List (List ℕ) → List Sample → List (List ℕ)
domains_of p seen [] = seen
domains_of p seen (s ∷ ss) =
    domains_of p (if any (beq (domain_of p s)) seen then seen else domain_of p s ∷ seen) ss

abbrev pub is_some : Option (List ℕ) → Bool
is_some none = false
is_some (some s) = true

abbrev pub select_requested : PprofProfile → List (List ℕ) → Option (List ℕ) → Checked PprofProfile
select_requested p domains none = ok p
select_requested p domains (some requested) = do
  ensure (any (beq requested) domains) unknown_domain
  ok (record p { samples = keep (λ s. beq (domain_of p s) requested) p.samples })

unfoldable pub select_in : PprofProfile → Option (List ℕ) → List (List ℕ) → Checked PprofProfile
select_in p requested domains = do
  ensure (leb (length domains) 1 || is_some requested) overlapping_domains
  select_requested p domains requested

unfoldable pub select_domain : PprofProfile → Option (List ℕ) → Checked PprofProfile
unfolding select_in domains_of
select_domain p requested =
    if is_heap p
    then select_in p requested (domains_of p [] p.samples)
    else (do ensure (not (is_some requested)) not_a_heap_profile; ok p)

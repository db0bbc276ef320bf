-- ===== src/Heap/Validate/Shape.antt =====
-- src/heap/mod.rs, `validate_profile`: which profiles it accepts.
use pprofessor.Common.{
  ℕ, ◌<◌, List, [], ◌∷◌, length, get_elem?, is_nil, map, any, beq, ltb, ◌==◌, Bool, true, false,
  not, ◌&&◌, ◌||◌, Option, none, some, ok, err, ◌>>=◌, ◌>>◌, ensure, All, ◌≡◌, ◌↔◌, refl, arith,
}
use pprofessor.Common.Sets.{
  contains, distinct, collect_set, contains-collect_set, length-collect_set,
}
use pprofessor.Pprof.ValueType.{ValueType}
use pprofessor.Pprof.Label.{Label}
use pprofessor.Pprof.Line.{Line}
use pprofessor.Pprof.Sample.{Sample}
use pprofessor.Pprof.Location.{Location}
use pprofessor.Pprof.Mapping.{Mapping}
use pprofessor.Pprof.Function.{Function}
use pprofessor.Pprof.Profile.{PprofProfile}
use pprofessor.Heap.Validate.{
  ProfileError, bad_identifier, missing_location, Checked, each, is_empty_string, valid_string,
  unique_ids, check_mapping, check_function, check_line, check_location, check_label, check_sample,
  other_strings, string_of, supported, check_metrics, validate_profile,
}

-- An index of the string table.
abbrev pub IsString : PprofProfile → ℕ → Type 0
IsString p id = id < length p.strings.strings

-- Identifiers of which no two are the same and none is 0.
abbrev pub AreIds : List ℕ → Type 0
AreIds ids = (distinct ids ≡ true) × (contains 0 ids ≡ false)

abbrev pub mapping_ids : PprofProfile → List ℕ
mapping_ids p = map (λ (m : Mapping). m.id) p.mappings

abbrev pub function_ids : PprofProfile → List ℕ
function_ids p = map (λ (f : Function). f.id) p.functions

abbrev pub location_ids : PprofProfile → List ℕ
location_ids p = map (λ (l : Location). l.id) p.locations

abbrev pub IsMapping : PprofProfile → Mapping → Type 0
IsMapping p m = IsString p m.filename × IsString p m.build_id

abbrev pub IsFunction : PprofProfile → Function → Type 0
IsFunction p f = IsString p f.name × (IsString p f.system_name × IsString p f.filename)

abbrev pub IsLocation : PprofProfile → Location → Type 0
IsLocation p l =
    ((l.mapping_id == 0 || contains l.mapping_id (mapping_ids p)) ≡ true)
    × All (λ (x : Line). contains x.function_id (function_ids p) ≡ true) l.lines

abbrev pub IsLabel : PprofProfile → Label → Type 0
IsLabel p l = IsString p l.key × (IsString p l.str_index × IsString p l.num_unit)

abbrev pub IsSample : PprofProfile → Sample → Type 0
IsSample p s =
    All (λ id. contains id (location_ids p) ≡ true) s.location_ids × All (IsLabel p) s.labels

-- The names and units of the value types are in the table and supported, and no name comes twice.
abbrev pub AreMetrics : PprofProfile → List (List ℕ) → List ValueType → Type 0
AreMetrics p seen [] = Unit {0}
AreMetrics p seen (v ∷ vs) =
    IsString p v.type
    × (IsString p v.unit
        × ((any (beq (string_of p v.type)) seen ≡ false)
            × ((supported (string_of p v.type) (string_of p v.unit) ≡ true)
                × AreMetrics p (string_of p v.type ∷ seen) vs)))

pub record IsWellFormed (p : PprofProfile) : Type 0 where
  pub starts_empty : get_elem? p.strings.strings 0 ≡ some []
  pub mappings_numbered : AreIds (mapping_ids p)
  pub functions_numbered : AreIds (function_ids p)
  pub locations_numbered : AreIds (location_ids p)
  pub mappings_named : All (IsMapping p) p.mappings
  pub functions_named : All (IsFunction p) p.functions
  pub locations_linked : All (IsLocation p) p.locations
  pub samples_linked : All (IsSample p) p.samples
  pub others_named : All (IsString p) (other_strings p)
  pub has_metrics : is_nil p.value_types ≡ false
  pub metrics : AreMetrics p [] p.value_types
  pub values_complete : All (λ (s : Sample). length s.values ≡ length p.value_types) p.samples

-- A check passes exactly where `P` holds.
abbrev Decides : Checked (Unit {0}) → Type 0 → Type 0
Decides m P = (m ≡ ok tt) ↔ P

then_Decides :
    (m k : Checked (Unit {0})) {P Q : Type 0}
    → Decides m P
    → Decides k Q
    → Decides (do m; k) (P × Q)
then_Decides (ok t) k h g = (λ e. (h.0 refl, g.0 e), λ x. g.1 x.1)
then_Decides (err x) k h g = (λ e. cc, λ y. cc (h.1 y.0))

ensure_Decides : (b : Bool) (e : ProfileError) → Decides (ensure b e) (b ≡ true)
ensure_Decides true e = (λ _. refl, λ _. refl)
ensure_Decides false e = (λ q. cc, λ q. cc)

each_Decides :
    {A : Type 0} (check : A → Checked (Unit {0})) (P : A → Type 0)
    → ((x : A) → Decides (check x) (P x))
    → (xs : List A) → Decides (each check xs) (All P xs)
unfolding each
each_Decides check P h [] = (λ _. tt, λ _. refl)
each_Decides check P h (x ∷ xs) =
    then_Decides (check x) (each check xs) (h x) (each_Decides check P h xs)

-- Where the two statements are one.
as_Decides : {m : Checked (Unit {0})} {P Q : Type 0} → Decides m P → (P → Q) → (Q → P) → Decides m Q
as_Decides h f g = (λ e. f (h.0 e), λ q. h.1 (g q))

valid_string_Decides : (p : PprofProfile) (id : ℕ) → Decides (valid_string p id) (IsString p id)
unfolding valid_string
valid_string_Decides p id =
    as_Decides (ensure_Decides (ltb id (length p.strings.strings)) _) (λ e. ground arith)
      (λ l. ground arith)

gate_Decides :
    (b : Bool) (e : ProfileError) (set : List ℕ) (k : List ℕ → Checked (Unit {0})) {Q : Type 0}
    → Decides (k set) Q
    → Decides ((do ensure b e; ok set) >>= k) ((b ≡ true) × Q)
gate_Decides true e set k h = (λ q. (refl, h.0 q), λ x. h.1 x.1)
gate_Decides false e set k h = (λ q. cc, λ x. cc (x.0))

-- The identifiers pass exactly where they are `AreIds`, and then the rest goes on with their set.
unique_ids_Decides :
    (ids : List ℕ) (k : List ℕ → Checked (Unit {0})) {Q : Type 0}
    → Decides (k (collect_set [] ids)) Q
    → Decides (do set ← unique_ids ids; k set) (AreIds ids × Q)
unfolding unique_ids
unique_ids_Decides ids k h =
    as_Decides (gate_Decides _ bad_identifier (collect_set [] ids) k h) (λ x. (ids_of x.0, x.1))
      (λ x. (tests_of x.0, x.1))
  where
    zero_same : contains 0 (collect_set [] ids) ≡ contains 0 ids
    zero_same = contains-collect_set 0 ids []

    ids_of :
        (length (collect_set [] ids) == length ids && not (contains 0 (collect_set [] ids))) ≡ true
        → AreIds ids
    ids_of e = ((length-collect_set ids).0 (ground (arith, e)), ground (arith, zero_same, e))

    tests_of :
        AreIds ids
        → (length (collect_set [] ids) == length ids && not (contains 0 (collect_set [] ids)))
          ≡ true
    tests_of (d, z) = ground (arith, (length-collect_set ids).1 d, zero_same)

location_Decides :
    (p : PprofProfile) (l : Location)
    → Decides
        (check_location (collect_set [] (mapping_ids p)) (collect_set [] (function_ids p)) l)
        (IsLocation p l)
unfolding check_location check_line
location_Decides p l = rw (contains-collect_set l.mapping_id (mapping_ids p) []) (
    then_Decides _ _ (ensure_Decides _ _) (
      each_Decides _ _
        (λ x. rw (contains-collect_set x.function_id (function_ids p) []) (ensure_Decides _ _))
        l.lines))

label_Decides : (p : PprofProfile) (l : Label) → Decides (check_label p l) (IsLabel p l)
unfolding check_label
label_Decides p l =
    then_Decides _ _ (valid_string_Decides p l.key)
      (then_Decides _ _ (valid_string_Decides p l.str_index) (valid_string_Decides p l.num_unit))

sample_Decides :
    (p : PprofProfile) (s : Sample)
    → Decides (check_sample p (collect_set [] (location_ids p)) s) (IsSample p s)
unfolding check_sample
sample_Decides p s =
    then_Decides _ _
      (each_Decides (λ id. ensure (contains id (collect_set [] (location_ids p))) missing_location)
        (λ id. contains id (location_ids p) ≡ true)
        (λ id. rw (contains-collect_set id (location_ids p) []) (ensure_Decides _ _))
        s.location_ids)
      (each_Decides _ _ (label_Decides p) s.labels)

mapping_Decides : (p : PprofProfile) (m : Mapping) → Decides (check_mapping p m) (IsMapping p m)
unfolding check_mapping
mapping_Decides p m =
    then_Decides _ _ (valid_string_Decides p m.filename) (valid_string_Decides p m.build_id)

function_Decides : (p : PprofProfile) (f : Function) → Decides (check_function p f) (IsFunction p f)
unfolding check_function
function_Decides p f =
    then_Decides _ _ (valid_string_Decides p f.name)
      (then_Decides _ _ (valid_string_Decides p f.system_name) (valid_string_Decides p f.filename))

not_Decides : (b : Bool) (e : ProfileError) → Decides (ensure (not b) e) (b ≡ false)
not_Decides b e = as_Decides (ensure_Decides (not b) e) (λ q. ground arith) (λ q. ground arith)

metrics_Decides :
    (p : PprofProfile) (seen : List (List ℕ)) (vs : List ValueType)
    → Decides (check_metrics p seen vs) (AreMetrics p seen vs)
unfolding check_metrics
metrics_Decides p seen [] = (λ _. tt, λ _. refl)
metrics_Decides p seen (v ∷ vs) = then_Decides _ _ (valid_string_Decides p v.type) (
    then_Decides _ _ (valid_string_Decides p v.unit) (
      then_Decides _ _ (not_Decides _ _)
        (then_Decides _ _ (ensure_Decides _ _) (metrics_Decides p (string_of p v.type ∷ seen) vs))))

starts_Decides :
    (o : Option (List ℕ)) (e : ProfileError) → Decides (ensure (is_empty_string o) e) (o ≡ some [])
starts_Decides none e = (λ q. cc, λ q. cc)
starts_Decides (some []) e = (λ _. refl, λ _. refl)
starts_Decides (some (c ∷ s)) e = (λ q. cc, λ q. cc)

values_Decides :
    (p : PprofProfile) (s : Sample) (e : ProfileError)
    → Decides
        (ensure (length s.values == length p.value_types) e)
        (length s.values ≡ length p.value_types)
values_Decides p s e = as_Decides (ensure_Decides _ e) (λ q. ground arith) (λ q. ground arith)

-- `validate_profile` accepts a profile exactly when it is well formed: its string table starts with
-- the empty string; the identifiers of its mappings, of its functions and of its locations are each
-- unique and not 0; every reference to a string, mapping, function or location has its target (a
-- location's mapping may be 0); it has value types, each a supported heap metric with its unit and no
-- name twice; and every sample has one value for each of them.
pub validate_profile_iff : (p : PprofProfile) → (validate_profile p ≡ ok tt) ↔ IsWellFormed p
unfolding validate_profile
validate_profile_iff p =
    as_Decides
      (then_Decides _ _ (starts_Decides (get_elem? p.strings.strings 0) _) (
        unique_ids_Decides (mapping_ids p) _ (
          unique_ids_Decides (function_ids p) _ (
            unique_ids_Decides (location_ids p) _ (
              then_Decides _ _ (each_Decides _ _ (mapping_Decides p) p.mappings) (
                then_Decides _ _ (each_Decides _ _ (function_Decides p) p.functions) (
                  then_Decides _ _ (each_Decides _ _ (location_Decides p) p.locations) (
                    then_Decides _ _ (each_Decides _ _ (sample_Decides p) p.samples) (
                      then_Decides _ _ (each_Decides _ _ (valid_string_Decides p) (other_strings p))
                        (then_Decides _ _ (not_Decides (is_nil p.value_types) _) (
                          then_Decides _ _ (metrics_Decides p [] p.value_types)
                            (each_Decides _ _ (λ s. values_Decides p s _) p.samples))))))))))))
      (λ (a, (b, (c, (d, (e, (f, (g, (h, (i, (j, (k, l))))))))))). record {
        starts_empty = a;
        mappings_numbered = b;
        functions_numbered = c;
        locations_numbered = d;
        mappings_named = e;
        functions_named = f;
        locations_linked = g;
        samples_linked = h;
        others_named = i;
        has_metrics = j;
        metrics = k;
        values_complete = l;
      })
      (λ w. (
        w.starts_empty,
        (
          w.mappings_numbered,
          (
            w.functions_numbered,
            (
              w.locations_numbered,
              (
                w.mappings_named,
                (
                  w.functions_named,
                  (
                    w.locations_linked,
                    (
                      w.samples_linked,
                      (w.others_named, (w.has_metrics, (w.metrics, w.values_complete))),
                    ),
                  ),
                ),
              ),
            ),
          ),
        ),
      ))

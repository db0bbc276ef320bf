-- ===== src/Heap/Export/WellFormed.antt =====
-- src/heap/mod.rs, `to_pprof`: a profile that fits, with the four heap metrics, is a well-formed one.
use pprofessor.Common.{
  map-All, ℕ, ◌<◌, List, [], ◌∷◌, length, get_elem?, is_nil, some, true, false, ◌≡◌, refl, arith,
}
use pprofessor.Common.Sets.{contains}
use pprofessor.Pprof.ValueType.{ValueType}
use pprofessor.Pprof.Line.{Line}
use pprofessor.Pprof.Sample.{Sample}
use pprofessor.Pprof.Location.{Location}
use pprofessor.Pprof.Profile.{PprofProfile}
use pprofessor.Heap.Validate.{
  alloc_space_text, inuse_space_text, alloc_objects_text, inuse_objects_text, bytes_text,
  count_text, supported,
}
use pprofessor.Heap.Validate.Shape.{
  IsWellFormed, IsLocation, IsSample, AreMetrics, AreIds, mapping_ids, function_ids, location_ids,
}
use pprofessor.Heap.Export.Growth.{
  upto, contains-upto, distinct-upto, MetricsAre, IsBetween, LocationFits, SampleFits,
  strings_count, Fits, index_lt,
}

abbrev pub Texts : Type 0
Texts = List (List ℕ × List ℕ)

abbrev pub four : Texts
four =
    (alloc_objects_text, count_text)
    ∷ (alloc_space_text, bytes_text)
    ∷ (inuse_objects_text, count_text)
    ∷ (inuse_space_text, bytes_text)
    ∷ []

-- The metrics that the profile has are well formed, and four.
record Done (p : PprofProfile) (vs : List ValueType) : Type 0 where
  metrics : AreMetrics p [] vs
  some_metric : is_nil vs ≡ false
  four_metrics : length vs ≡ 4

four-Done :
    (p : PprofProfile) (vs : List ValueType) → MetricsAre p.strings.strings vs four → Done p vs
unfolding supported
four-Done p [] h = absurd h
four-Done p (a ∷ []) h = absurd h.1.1
four-Done p (a ∷ b ∷ []) h = absurd h.1.1.1.1
four-Done p (a ∷ b ∷ c ∷ []) h = absurd h.1.1.1.1.1.1
four-Done p (a ∷ b ∷ c ∷ d ∷ e ∷ vs) h = absurd h.1.1.1.1.1.1.1.1
four-Done p (a ∷ b ∷ c ∷ d ∷ []) (a₀, (a₁, (b₀, (b₁, (c₀, (c₁, (d₀, (d₁, _)))))))) = record {
  metrics =
      rw (a₀, a₁, b₀, b₁, c₀, c₁, d₀, d₁)
        (
          lt a₀,
          (
            lt a₁,
            (
              refl,
              (
                refl,
                (
                  lt b₀,
                  (
                    lt b₁,
                    (
                      refl,
                      (
                        refl,
                        (lt c₀, (lt c₁, (refl, (refl, (lt d₀, (lt d₁, (refl, (refl, tt)))))))),
                      ),
                    ),
                  ),
                ),
              ),
            ),
          ),
        );
  some_metric = refl;
  four_metrics = refl;
}
  where
    lt :
        {i : ℕ} {s : List ℕ} → get_elem? p.strings.strings i ≡ some s → i < length p.strings.strings
    lt e = index_lt p.strings.strings _ _ e

numbered : (ids : List ℕ) (n : ℕ) → ids ≡ upto n → AreIds ids
numbered ids n e = rw e (distinct-upto n, ground (arith, contains-upto 0 n))

found_id : (ids : List ℕ) (n i : ℕ) → ids ≡ upto n → IsBetween n i → contains i ids ≡ true
found_id ids n i e b = rw e (ground (arith, contains-upto i n))

location_linked :
    (ns : Texts) (p : PprofProfile) (l : Location)
    → Fits ns p
    → LocationFits (length p.mappings) (length p.functions) l
    → IsLocation p l
location_linked ns p l f h = (
  rw f.mapping_numbers (ground (arith, contains-upto l.mapping_id (length p.mappings), h.0)),
  map-All (λ (x : Line). IsBetween (length p.functions) x.function_id)
      (λ (x : Line). contains x.function_id (function_ids p) ≡ true) l.lines
      (λ x b. found_id (function_ids p) (length p.functions) x.function_id f.function_numbers b)
      h.1,
)

pub Fits-IsWellFormed : (p : PprofProfile) → Fits four p → IsWellFormed p
Fits-IsWellFormed p f =
    let done = four-Done p p.value_types f.metrics in
    record {
      starts_empty = f.canonical.starts_empty;
      mappings_numbered = numbered (mapping_ids p) (length p.mappings) f.mapping_numbers;
      functions_numbered = numbered (function_ids p) (length p.functions) f.function_numbers;
      locations_numbered = numbered (location_ids p) (length p.functions) f.location_numbers;
      mappings_named = f.mappings_fit;
      functions_named = f.functions_fit;
      locations_linked =
          map-All (LocationFits (length p.mappings) (length p.functions)) (IsLocation p) p.locations
            (λ l h. location_linked four p l f h) f.locations_fit;
      samples_linked =
          map-All (SampleFits (strings_count p) (length p.functions)) (IsSample p) p.samples
            (λ s h. (
              map-All (IsBetween (length p.functions)) (λ i. contains i (location_ids p) ≡ true)
                  s.location_ids
                  (λ i b. found_id (location_ids p) (length p.functions) i f.location_numbers b)
                  h.0,
              h.1.0,
            ))
            f.samples_fit;
      others_named = f.others_fit;
      has_metrics = done.some_metric;
      metrics = done.metrics;
      values_complete =
          map-All (SampleFits (strings_count p) (length p.functions))
            (λ (s : Sample). length s.values ≡ length p.value_types) p.samples
            (λ s h. omega (arith, h.1.1, done.four_metrics)) f.samples_fit;
    }

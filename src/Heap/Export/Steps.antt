-- ===== src/Heap/Export/Steps.antt =====
-- src/heap/mod.rs, `to_pprof`: each step keeps the profile fitting.
use pprofessor.Common.{
  map-All, ℕ, suc, List, [], ◌∷◌, push, map, length, length-append, get_elem?, All-append, some,
  ◌≡◌, refl, sym, ap, ◌∙◌, arith,
}
use pprofessor.Pprof.StringTable
use pprofessor.Pprof.StringTable.{StringTable}
use pprofessor.Pprof.ValueType.{ValueType}
use pprofessor.Pprof.Sample.{Sample}
use pprofessor.Pprof.Location.{Location}
use pprofessor.Pprof.Mapping.{Mapping}
use pprofessor.Pprof.Function.{Function}
use pprofessor.Pprof.Profile.{PprofProfile}
use pprofessor.Heap.Export.{intern_in, add_metric, push_sample}
use pprofessor.Heap.Export.Growth.{
  upto, MetricsAre, MappingFits, FunctionFits, LocationFits, SampleFits, strings_count, Fits,
  intern-Grown, intern_found, Fits-Grown,
}

Texts : Type 0
Texts = List (List ℕ × List ℕ)

map-push :
    {A : Type 0} (f : A → ℕ) (xs : List A) (x : A) → map f (push xs x) ≡ push (map f xs) (f x)
map-push f [] x = refl
map-push f (y ∷ ys) x = ap (λ l. f y ∷ l) (map-push f ys x)

pub length-push : {A : Type 0} (xs : List A) (x : A) → length (push xs x) ≡ suc (length xs)
length-push xs x = omega (arith, length-append xs (x ∷ []))

numbers-push :
    {A : Type 0} (f : A → ℕ) (xs : List A) (x : A) (n : ℕ)
    → map f xs ≡ upto n
    → f x ≡ suc n
    → map f (push xs x) ≡ upto (suc n)
numbers-push f xs x n h e = map-push f xs x ∙ ap (λ l. push l (f x)) h ∙ ap (push (upto n)) e

MetricsAre-push :
    (ss : List (List ℕ)) (vs : List ValueType) (ns : List (List ℕ × List ℕ)) (v : ValueType)
    (n : List ℕ × List ℕ)
    → MetricsAre ss vs ns
    → get_elem? ss v.type ≡ some n.0
    → get_elem? ss v.unit ≡ some n.1
    → MetricsAre ss (push vs v) (push ns n)
MetricsAre-push ss [] [] v n h a b = (a, (b, tt))
MetricsAre-push ss [] (m ∷ ns) v n h a b = absurd h
MetricsAre-push ss (w ∷ vs) [] v n h a b = absurd h
MetricsAre-push ss (w ∷ vs) (m ∷ ns) v n (c, (d, h)) a b =
    (c, (d, MetricsAre-push ss vs ns v n h a b))

module _ (ns : List (List ℕ × List ℕ)) (p : PprofProfile) (f : Fits ns p) where
  pub intern-Fits : (s : List ℕ) → Fits ns (intern_in p s).0
  intern-Fits s = Fits-Grown ns p _ (intern-Grown p.strings s f.canonical) f

  pub add_metric-Fits : (name unit : List ℕ) → Fits (push ns (name, unit)) (add_metric name unit p)
  unfolding add_metric
  add_metric-Fits name unit =
      let t₁ = (StringTable.intern p.strings name).0 in
      let g₁ = intern-Grown p.strings name f.canonical in
      let g₂ = intern-Grown t₁ unit g₁.canonical in
      let f₂ = Fits-Grown ns (record p { strings = t₁ }) _ g₂ (Fits-Grown ns p t₁ g₁ f) in
      record {
        canonical = f₂.canonical;
        metrics =
            MetricsAre-push (StringTable.intern t₁ unit).0.strings p.value_types ns _ (name, unit)
              f₂.metrics
              (g₂.kept (StringTable.intern p.strings name).1 name
                (intern_found p.strings name f.canonical))
              (intern_found t₁ unit g₁.canonical);
        mapping_numbers = f.mapping_numbers;
        function_numbers = f.function_numbers;
        location_numbers = f.location_numbers;
        mappings_fit = f₂.mappings_fit;
        functions_fit = f₂.functions_fit;
        locations_fit = f₂.locations_fit;
        samples_fit = f₂.samples_fit;
        others_fit = f₂.others_fit;
      }

  pub push_mapping-Fits :
      (m : Mapping)
      → m.id ≡ suc (length p.mappings)
      → MappingFits (strings_count p) m
      → Fits ns (record p { mappings = push p.mappings m })
  push_mapping-Fits m e h =
      let l = length-push p.mappings m in
      record {
        canonical = f.canonical;
        metrics = f.metrics;
        mapping_numbers =
            numbers-push (λ (x : Mapping). x.id) p.mappings m (length p.mappings) f.mapping_numbers
              e
            ∙ ap upto (sym l);
        function_numbers = f.function_numbers;
        location_numbers = f.location_numbers;
        mappings_fit =
            All-append (MappingFits (strings_count p)) p.mappings (m ∷ []) f.mappings_fit (h, tt);
        functions_fit = f.functions_fit;
        locations_fit =
            map-All _ _ p.locations (λ x k. (omega (arith, k.0, l), k.1)) f.locations_fit;
        samples_fit = f.samples_fit;
        others_fit = f.others_fit;
      }

  pub push_frame-Fits :
      (x : Function) (y : Location)
      → x.id ≡ suc (length p.functions)
      → y.id ≡ suc (length p.functions)
      → FunctionFits (strings_count p) x
      → LocationFits (length p.mappings) (suc (length p.functions)) y
      → Fits ns (record p { functions = push p.functions x; locations = push p.locations y })
  push_frame-Fits x y ex ey hx hy =
      let l = length-push p.functions x in
      record {
        canonical = f.canonical;
        metrics = f.metrics;
        mapping_numbers = f.mapping_numbers;
        function_numbers =
            numbers-push (λ (z : Function). z.id) p.functions x (length p.functions)
              f.function_numbers ex
            ∙ ap upto (sym l);
        location_numbers =
            numbers-push (λ (z : Location). z.id) p.locations y (length p.functions)
              f.location_numbers ey
            ∙ ap upto (sym l);
        mappings_fit = f.mappings_fit;
        functions_fit =
            All-append (FunctionFits (strings_count p)) p.functions (x ∷ []) f.functions_fit
              (hx, tt);
        locations_fit = rw l (
            All-append (LocationFits (length p.mappings) (suc (length p.functions))) p.locations
              (y ∷ [])
              (map-All _ _ p.locations
                (λ z k. (k.0, map-All _ _ z.lines (λ w b. omega (arith, b)) k.1)) f.locations_fit)
              (hy, tt));
        samples_fit = rw l (
            map-All _ _ p.samples
              (λ z k. (map-All _ _ z.location_ids (λ w b. omega (arith, b)) k.0, k.1))
              f.samples_fit);
        others_fit = f.others_fit;
      }

  pub push_sample-Fits :
      (s : Sample) → SampleFits (strings_count p) (length p.functions) s → Fits ns (push_sample p s)
  push_sample-Fits s h = record {
    canonical = f.canonical;
    metrics = f.metrics;
    mapping_numbers = f.mapping_numbers;
    function_numbers = f.function_numbers;
    location_numbers = f.location_numbers;
    mappings_fit = f.mappings_fit;
    functions_fit = f.functions_fit;
    locations_fit = f.locations_fit;
    samples_fit =
        All-append (SampleFits (strings_count p) (length p.functions)) p.samples (s ∷ [])
          f.samples_fit (h, tt);
    others_fit = f.others_fit;
  }

-- ===== src/Heap/Export/Growth.antt =====
-- src/heap/mod.rs, `to_pprof`: what holds of the profile while it is built.
use pprofessor.Common.{
  map-All, ℕ, zero, suc, ◌≤◌, ◌<◌, List, [], ◌∷◌, push, length, length-append, get_elem?, All, some,
  true, leb, ◌&&◌, ◌≡◌, refl, ◌∙◌, arith, Option-cases, inl, inr,
}
use pprofessor.Common.Sets.{contains, distinct, contains-push, distinct-push}
use pprofessor.Pprof.StringTable.{StringTable, intern, get}
use pprofessor.Pprof.StringTable.Laws.{IsCanonical, intern-Interned}
use pprofessor.Pprof.ValueType.{ValueType}
use pprofessor.Pprof.Label.{Label}
use pprofessor.Pprof.Line.{Line}
use pprofessor.Pprof.Sample.{Sample}
use pprofessor.Pprof.Location.{Location}
use pprofessor.Pprof.Mapping.{Mapping}
use pprofessor.Pprof.Function.{Function}
use pprofessor.Pprof.Profile.{PprofProfile}
use pprofessor.Heap.Validate.{other_strings}
use pprofessor.Heap.Validate.Shape.{mapping_ids, function_ids, location_ids}

-- 1, 2, …, n.
abbrev pub upto : ℕ → List ℕ
upto zero = []
upto (suc n) = push (upto n) (suc n)

pub contains-upto : (i n : ℕ) → contains i (upto n) ≡ (leb 1 i && leb i n)
contains-upto i zero = ground arith
contains-upto i (suc n) = contains-push i (suc n) (upto n) ∙ ground (arith, contains-upto i n)

pub distinct-upto : (n : ℕ) → distinct (upto n) ≡ true
distinct-upto zero = refl
distinct-upto (suc n) =
    distinct-push (suc n) (upto n) (ground (arith, contains-upto (suc n) n)) (distinct-upto n)

-- The metrics of the profile, by the texts of their names and units.
abbrev pub MetricsAre : List (List ℕ) → List ValueType → List (List ℕ × List ℕ) → Type 0
MetricsAre ss [] [] = Unit {0}
MetricsAre ss [] (n ∷ ns) = ⊥
MetricsAre ss (v ∷ vs) [] = ⊥
MetricsAre ss (v ∷ vs) (n ∷ ns) =
    (get_elem? ss v.type ≡ some n.0) × ((get_elem? ss v.unit ≡ some n.1) × MetricsAre ss vs ns)

abbrev pub IsBetween : ℕ → ℕ → Type 0
IsBetween k id = (1 ≤ id) × (id ≤ k)

-- References into a table of `n` strings, `m` mappings and `k` functions.
abbrev pub MappingFits : ℕ → Mapping → Type 0
MappingFits n x = (x.filename < n) × (x.build_id < n)

abbrev pub FunctionFits : ℕ → Function → Type 0
FunctionFits n x = (x.name < n) × ((x.system_name < n) × (x.filename < n))

abbrev pub LocationFits : ℕ → ℕ → Location → Type 0
LocationFits m k x = (x.mapping_id ≤ m) × All (λ (l : Line). IsBetween k l.function_id) x.lines

abbrev pub LabelFits : ℕ → Label → Type 0
LabelFits n x = (x.key < n) × ((x.str_index < n) × (x.num_unit < n))

abbrev pub SampleFits : ℕ → ℕ → Sample → Type 0
SampleFits n k x =
    All (IsBetween k) x.location_ids × (All (LabelFits n) x.labels × (length x.values ≡ 4))

abbrev pub strings_count : PprofProfile → ℕ
strings_count p = length p.strings.strings

pub record Fits (ns : List (List ℕ × List ℕ)) (p : PprofProfile) : Type 0 where
  pub canonical : IsCanonical p.strings
  pub metrics : MetricsAre p.strings.strings p.value_types ns
  pub mapping_numbers : mapping_ids p ≡ upto (length p.mappings)
  pub function_numbers : function_ids p ≡ upto (length p.functions)
  pub location_numbers : location_ids p ≡ upto (length p.functions)
  pub mappings_fit : All (MappingFits (strings_count p)) p.mappings
  pub functions_fit : All (FunctionFits (strings_count p)) p.functions
  pub locations_fit : All (LocationFits (length p.mappings) (length p.functions)) p.locations
  pub samples_fit : All (SampleFits (strings_count p) (length p.functions)) p.samples
  pub others_fit : All (λ i. i < strings_count p) (other_strings p)

pub index_lt : (xs : List (List ℕ)) (i : ℕ) (x : List ℕ) → get_elem? xs i ≡ some x → i < length xs
index_lt [] i x e = cc
index_lt (y ∷ ys) zero x e = omega arith
index_lt (y ∷ ys) (suc i) x e = omega (arith, index_lt ys i x e)

-- A later string table: canonical, and every string is where it was.
pub record Grown (t t' : StringTable) : Type 0 where
  pub canonical : IsCanonical t'
  pub longer : length t.strings ≤ length t'.strings
  pub kept : (j : ℕ) (x : List ℕ) → get_elem? t.strings j ≡ some x → get_elem? t'.strings j ≡ some x

intern_longer : (t : StringTable) (s : List ℕ) → length t.strings ≤ length (intern t s).0.strings
unfolding intern
intern_longer t s = elim (Option-cases (get s t.indices)) [
  | inl e ↦ rw (e, intern) (omega (arith, length-append t.strings (s ∷ [])))
  | inr (i, e) ↦ rw (e, intern) (omega arith)
]

pub intern-Grown : (t : StringTable) (s : List ℕ) → IsCanonical t → Grown t (intern t s).0
intern-Grown t s c =
    let i = intern-Interned t s c in
    record { canonical = i.canonical; longer = intern_longer t s; kept = i.kept }

pub intern_found :
    (t : StringTable) (s : List ℕ)
    → IsCanonical t
    → get_elem? (intern t s).0.strings (intern t s).1 ≡ some s
intern_found t s c = (intern-Interned t s c).found

pub intern_lt :
    (t : StringTable) (s : List ℕ) → IsCanonical t → (intern t s).1 < length (intern t s).0.strings
intern_lt t s c = index_lt (intern t s).0.strings (intern t s).1 s (intern_found t s c)

MetricsAre-Grown :
    (t t' : StringTable) (vs : List ValueType) (ns : List (List ℕ × List ℕ))
    → Grown t t'
    → MetricsAre t.strings vs ns
    → MetricsAre t'.strings vs ns
MetricsAre-Grown t t' [] [] g h = h
MetricsAre-Grown t t' [] (n ∷ ns) g h = h
MetricsAre-Grown t t' (v ∷ vs) [] g h = h
MetricsAre-Grown t t' (v ∷ vs) (n ∷ ns) g (a, (b, c)) =
    (g.kept v.type n.0 a, (g.kept v.unit n.1 b, MetricsAre-Grown t t' vs ns g c))

-- A profile keeps fitting when its table grows.
pub Fits-Grown :
    (ns : List (List ℕ × List ℕ)) (p : PprofProfile) (t' : StringTable)
    → Grown p.strings t'
    → Fits ns p
    → Fits ns (record p { strings = t' })
Fits-Grown ns p t' g f = record {
  canonical = g.canonical;
  metrics = MetricsAre-Grown p.strings t' p.value_types ns g f.metrics;
  mapping_numbers = f.mapping_numbers;
  function_numbers = f.function_numbers;
  location_numbers = f.location_numbers;
  mappings_fit = map-All _ _ p.mappings (λ x h. omega (arith, h, g.longer)) f.mappings_fit;
  functions_fit = map-All _ _ p.functions (λ x h. omega (arith, h, g.longer)) f.functions_fit;
  locations_fit = f.locations_fit;
  samples_fit =
      map-All _ _ p.samples
        (λ x h. (h.0, (map-All _ _ x.labels (λ l k. omega (arith, k, g.longer)) h.1.0, h.1.1)))
        f.samples_fit;
  others_fit = map-All _ _ (other_strings p) (λ i h. omega (arith, h, g.longer)) f.others_fit;
}

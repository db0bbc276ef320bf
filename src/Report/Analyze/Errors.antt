-- ===== src/Report/Analyze/Errors.antt =====
-- src/report.rs, `from_profile`: when it fails.
use pprofessor.Common.{
  ℕ, zero, suc, ◌<◌, List, [], ◌∷◌, length, get_elem?, Option, some, ok, err, ◌>>=◌, ◌≡◌, ◌↔◌, refl,
  arith, Result-cases, inl, inr,
}
use pprofessor.Pprof.ValueType.{ValueType}
use pprofessor.Pprof.Profile.{PprofProfile}
use pprofessor.Report.{ReportError, sample_index}
use pprofessor.Report.Choice.{sample_index-lt}
use pprofessor.Report.Analyze.{analyze_at, from_profile}

get_elem?_lt :
    (vs : List ValueType) (i : ℕ) → i < length vs → (v : ValueType) × (get_elem? vs i ≡ some v)
get_elem?_lt [] i l = absurd (omega arith)
get_elem?_lt (v ∷ vs) zero l = (v, refl)
get_elem?_lt (v ∷ vs) (suc i) l = get_elem?_lt vs i (omega arith)

-- `from_profile` fails exactly where `sample_index` fails, and with its error: the lookup of the sample
-- type behind it never does.
pub from_profile_iff :
    (p : PprofProfile) (requested : Option (List ℕ)) (e : ReportError)
    → (from_profile p requested ≡ err e) ↔ (sample_index p requested ≡ err e)
unfolding from_profile
from_profile_iff p requested e = elim (Result-cases (sample_index p requested)) [
  | inl (i, q) ↦ with_index i q
  | inr (x, q) ↦ rw q (λ h. cc, λ h. cc)
]
  where
    with_index :
        (i : ℕ)
        → sample_index p requested ≡ ok i
        → ((sample_index p requested >>= (λ j. analyze_at p j (get_elem? p.value_types j))) ≡ err e)
          ↔ (sample_index p requested ≡ err e)
    with_index i q =
        let (v, g) = get_elem?_lt p.value_types i (sample_index-lt p requested i q) in
        rw (q, g) (λ h. cc, λ h. cc)

-- ===== src/Report/Choice.antt =====
-- src/report.rs: the index that `sample_index` chooses.
use pprofessor.Common.{
  ℕ, ◌+◌, ◌<◌, List, [], ◌∷◌, length, is_nil, beq, Option, none, some, ok, ◌>>◌, ensure, Bool, true,
  false, ◌≡◌, refl, arith, inl, inr, ltb, not, ◌==◌, Bool-cases,
}
use pprofessor.Pprof.ValueType.{ValueType}
use pprofessor.Pprof.Profile.{PprofProfile}
use pprofessor.Report.{
  no_sample_types, index_outside_range, sample_index, position, profile_string, or_unknown, or_last,
  requested_index, default_index, index_for, parse_usize,
}

position-lt :
    (p : PprofProfile) (name : List ℕ) (i k : ℕ) (vs : List ValueType)
    → position p name i vs ≡ some k
    → k < i + length vs
unfolding position
position-lt p name i k [] e = cc
position-lt p name i k (v ∷ vs) e = elim (Bool-cases (beq (profile_string p v.type) name)) [
  | inl q ↦ let s : some i ≡ some k = cc in ground (arith, s)
  | inr q ↦
      let s : position p name (i + 1) vs ≡ some k = cc in
      omega (arith, position-lt p name (i + 1) k vs s)
]

or_last-lt :
    (p : PprofProfile) (o : Option ℕ)
    → ((k : ℕ) → o ≡ some k → k < length p.value_types)
    → 0 < length p.value_types
    → or_last p o < length p.value_types
or_last-lt p none h l = omega arith
or_last-lt p (some k) h l = h k refl

default_index-lt :
    (p : PprofProfile) → 0 < length p.value_types → default_index p < length p.value_types
default_index-lt p l = elim (Bool-cases (not (p.default_sample_type == 0))) [
  | inl q ↦ rw q (
      or_last-lt p (position p (profile_string p p.default_sample_type) 0 p.value_types)
        (λ k e.
          omega (arith, position-lt p (profile_string p p.default_sample_type) 0 k p.value_types e))
        l)
  | inr q ↦ rw q (omega arith)
]

requested_index-lt :
    (p : PprofProfile) (name : List ℕ) (o : Option ℕ) (i : ℕ)
    → requested_index p name o ≡ ok i
    → i < length p.value_types
requested_index-lt p name (some k) i e = by_test (ltb k (length p.value_types)) refl e
  where
    by_test :
        (b : Bool)
        → ltb k (length p.value_types) ≡ b
        → (do ensure b index_outside_range; ok k) ≡ ok i
        → i < length p.value_types
    by_test true q h = let s : k ≡ i = cc in ground (arith, q, s)
    by_test false q h = cc
requested_index-lt p name none i e = by_position (position p name 0 p.value_types) refl e
  where
    by_position :
        (o : Option ℕ)
        → position p name 0 p.value_types ≡ o
        → or_unknown o ≡ ok i
        → i < length p.value_types
    by_position none q h = cc
    by_position (some k) q h =
        let s : k ≡ i = cc in omega (arith, position-lt p name 0 k p.value_types q, s)

has_types-lt : {A : Type 0} (vs : List A) → is_nil vs ≡ false → 0 < length vs
has_types-lt [] e = cc
has_types-lt (v ∷ vs) e = omega arith

-- The index that `sample_index` returns is that of a value type of the profile, whichever sample type
-- was asked for, by index or by name, or none.
pub sample_index-lt :
    (p : PprofProfile) (requested : Option (List ℕ)) (i : ℕ)
    → sample_index p requested ≡ ok i
    → i < length p.value_types
unfolding sample_index
sample_index-lt p requested i h = elim (Bool-cases (is_nil p.value_types)) [
  | inl q ↦ absurd_of q
  | inr q ↦ by_request requested (chosen requested h q) (has_types-lt p.value_types q)
]
  where
    absurd_of : is_nil p.value_types ≡ true → i < length p.value_types
    absurd_of q = absurd (ground (arith, q, h))

    chosen :
        (r : Option (List ℕ))
        → (do ensure (not (is_nil p.value_types)) no_sample_types; index_for p r) ≡ ok i
        → is_nil p.value_types ≡ false
        → index_for p r ≡ ok i
    chosen r k q = rw q at k

    by_request :
        (r : Option (List ℕ))
        → index_for p r ≡ ok i
        → 0 < length p.value_types
        → i < length p.value_types
    by_request none k l = let s : default_index p ≡ i = cc in rw (← s) (default_index-lt p l)
    by_request (some name) k l = requested_index-lt p name (parse_usize name) i k

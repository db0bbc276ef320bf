-- ===== src/Report.antt =====
-- src/report.rs: the types of a report, the choice of a sample type, and the parts of the module.
pub mod Resolve
pub mod Choice
pub mod Totals
pub mod Analyze
pub mod Tree
pub mod Bytes
use pprofessor.Common.{
  ℕ, zero, suc, ◌≡◌, refl, ◌+◌, ◌-◌, ◌*◌, ◌^◌, ◌≤◌, ◌<◌, List, [], ◌∷◌, length, get_elem?, is_nil,
  beq, Option, none, some, Result, ok, err, ◌>>=◌, ◌>>◌, ensure, leb, ltb, not, ◌==◌, ◌&&◌, Bool,
  true, false, if◌then◌else◌,
}
use pprofessor.Common.Int.{ℤ}
use pprofessor.Common.Ord.{Ord, nat_ord, list_ord, pair_ord, key_ord}
use pprofessor.Pprof.ValueType.{ValueType}
use pprofessor.Pprof.Profile.{PprofProfile}

pub record FrameStat : Type 0 where
  pub function : List ℕ
  pub file : List ℕ
  pub line : ℤ
  pub flat : ℤ
  pub cumulative : ℤ

pub record ReportFrame : Type 0 where
  pub function : List ℕ
  pub file : List ℕ
  pub line : ℤ

pub record StackStat : Type 0 where
  pub frames : List ReportFrame
  pub value : ℤ

pub data FrameIdentity : Type 0 where
  function_identity : ℕ → FrameIdentity
  address_identity : ℕ → FrameIdentity

abbrev pub identity_key : FrameIdentity → ℕ × ℕ
identity_key (function_identity n) = (0, n)
identity_key (address_identity n) = (1, n)

abbrev pub key_identity : ℕ × ℕ → FrameIdentity
key_identity (zero, n) = function_identity n
key_identity (suc i, n) = address_identity n

pub identity_inverse : (k : FrameIdentity) → key_identity (identity_key k) ≡ k
identity_inverse (function_identity n) = refl
identity_inverse (address_identity n) = refl

-- An order for the keys of the hash maps.
abbrev pub identity_ord : Ord FrameIdentity
identity_ord = key_ord (pair_ord nat_ord nat_ord) identity_key key_identity identity_inverse

abbrev pub stack_key_ord : Ord (List FrameIdentity)
stack_key_ord = list_ord identity_ord

pub record ResolvedFrame : Type 0 where
  pub identity : FrameIdentity
  pub function : List ℕ
  pub file : List ℕ
  pub line : ℤ

pub data ReportError : Type 0 where
  no_sample_types index_outside_range unknown_sample_type : ReportError

abbrev pub Reported {ℓ} : Type ℓ → Type ℓ
Reported A = Result ReportError A

abbrev or_empty : Option (List ℕ) → List ℕ
or_empty none = []
or_empty (some s) = s

unfoldable pub profile_string : PprofProfile → ℕ → List ℕ
profile_string p index = or_empty (get_elem? p.strings.strings index)

-- `str::parse::<usize>`: decimal digits, at least one, behind a plus sign or none, below 2 ^ 64.
abbrev parse_digit : ℕ → Option ℕ
parse_digit c = if leb 48 c && leb c 57 then some (c - 48) else none

abbrev next_number : ℕ → Option ℕ → Option ℕ
next_number n none = none
next_number n (some d) = if ltb (n * 10 + d) (2 ^ 64) then some (n * 10 + d) else none

unfoldable parse_digits : Option ℕ → List ℕ → Option ℕ
parse_digits none cs = none
parse_digits (some n) [] = some n
parse_digits (some n) (c ∷ cs) = parse_digits (next_number n (parse_digit c)) cs

abbrev parse_number : List ℕ → Option ℕ
parse_number [] = none
parse_number (c ∷ cs) = parse_digits (some 0) (c ∷ cs)

unfoldable pub parse_usize : List ℕ → Option ℕ
unfolding parse_digits
parse_usize [] = none
parse_usize (c ∷ cs) = if c == 43 then parse_number cs else parse_number (c ∷ cs)

-- `value_types.iter().position(…)` by the name, counted from `i`.
unfoldable pub position : PprofProfile → List ℕ → ℕ → List ValueType → Option ℕ
position p name i [] = none
position p name i (v ∷ vs) =
    if beq (profile_string p v.type) name then some i else position p name (i + 1) vs

abbrev pub or_unknown : Option ℕ → Reported ℕ
or_unknown none = err unknown_sample_type
or_unknown (some i) = ok i

abbrev pub requested_index : PprofProfile → List ℕ → Option ℕ → Reported ℕ
requested_index p name (some index) = do
  ensure (ltb index (length p.value_types)) index_outside_range
  ok index
requested_index p name none = or_unknown (position p name 0 p.value_types)

abbrev pub or_last : PprofProfile → Option ℕ → ℕ
or_last p none = length p.value_types - 1
or_last p (some i) = i

abbrev pub default_index : PprofProfile → ℕ
default_index p =
    if not (p.default_sample_type == 0)
    then or_last p (position p (profile_string p p.default_sample_type) 0 p.value_types)
    else length p.value_types - 1

abbrev pub index_for : PprofProfile → Option (List ℕ) → Reported ℕ
index_for p none = ok (default_index p)
index_for p (some requested) = requested_index p requested (parse_usize requested)

unfoldable pub sample_index : PprofProfile → Option (List ℕ) → Reported ℕ
unfolding position profile_string parse_usize
sample_index p requested = do
  ensure (not (is_nil p.value_types)) no_sample_types
  index_for p requested

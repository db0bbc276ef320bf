-- ===== src/Report/Analyze.antt =====
-- src/report.rs, `from_profile` and the report that it makes.
pub mod Ranking
pub mod Errors
use Prim.Native.Nat.{Ordering}
use pprofessor.Common.{
  ℕ, List, [], ◌∷◌, length, get_elem?, map, Option, none, some, Result, ok, err, ◌>>=◌,
}
use pprofessor.Common.Int.{ℤ}
use pprofessor.Common.Saturating.{saturating_abs}
use pprofessor.Common.Ord.{bytes_ord, list_ord, cmp_ℤ, then_cmp}
use pprofessor.Common.Sort.{sort_by}
use pprofessor.Pprof.ValueType.{ValueType}
use pprofessor.Pprof.Profile.{PprofProfile}
use pprofessor.Report.{
  FrameStat, ReportFrame, StackStat, FrameIdentity, Reported, no_sample_types, profile_string,
  sample_index,
}
use pprofessor.Report.Resolve.{locations_by_id, functions_by_id}
use pprofessor.Report.Totals.{Totals, no_totals, add_samples}

pub record ProfileReport : Type 0 where
  pub sample_type : List ℕ
  pub sample_unit : List ℕ
  pub available_sample_types : List (List ℕ)
  pub duration_nanos : ℤ
  pub sample_records : ℕ
  pub total_value : ℤ
  pub top_frames : List FrameStat
  pub top_stacks : List StackStat

-- The larger absolute value first.
abbrev pub cmp_cost : ℤ → ℤ → Ordering
cmp_cost a b = cmp_ℤ (saturating_abs b) (saturating_abs a)

unfoldable pub cmp_frames : FrameStat → FrameStat → Ordering
cmp_frames a b =
    then_cmp (cmp_cost a.flat b.flat)
      (then_cmp (cmp_cost a.cumulative b.cumulative) (bytes_ord.cmp a.function b.function))

abbrev pub function_names : StackStat → List (List ℕ)
function_names s = map (λ (f : ReportFrame). f.function) s.frames

abbrev names_ord_cmp : List (List ℕ) → List (List ℕ) → Ordering
names_ord_cmp = (list_ord bytes_ord).cmp

unfoldable pub cmp_stacks : StackStat → StackStat → Ordering
cmp_stacks a b =
    then_cmp (cmp_cost a.value b.value) (names_ord_cmp (function_names a) (function_names b))

unfoldable pub totals : PprofProfile → ℕ → Totals
unfolding add_samples locations_by_id functions_by_id
totals p index =
    add_samples p index (locations_by_id p.locations []) (functions_by_id p.functions []) p.samples
      no_totals

abbrev pub frame_stats : Totals → List FrameStat
frame_stats t = map (λ (e : FrameIdentity × FrameStat). e.1) t.stats

abbrev pub stack_stats : Totals → List StackStat
stack_stats t = map (λ (e : List FrameIdentity × StackStat). e.1) t.stacks

abbrev pub analyze : PprofProfile → ValueType → Totals → ProfileReport
analyze p selected t = record {
  sample_type = profile_string p selected.type;
  sample_unit = profile_string p selected.unit;
  available_sample_types = map (λ (v : ValueType). profile_string p v.type) p.value_types;
  duration_nanos = p.duration_nanos;
  sample_records = length p.samples;
  total_value = t.total_value;
  top_frames = sort_by cmp_frames (frame_stats t);
  top_stacks = sort_by cmp_stacks (stack_stats t);
}

abbrev pub analyze_at : PprofProfile → ℕ → Option ValueType → Reported ProfileReport
analyze_at p index none = err no_sample_types
analyze_at p index (some selected) = ok (analyze p selected (totals p index))

unfoldable pub from_profile : PprofProfile → Option (List ℕ) → Reported ProfileReport
unfolding sample_index totals
from_profile p sample_type = do
  index ← sample_index p sample_type
  analyze_at p index (get_elem? p.value_types index)

-- ===== src/Report/Analyze/Ranking.antt =====
-- src/report.rs, `from_profile`: which reports it makes.
use Prim.Native.Nat.{Ordering}
use pprofessor.Common.{
  ℕ, ◌≤◌, List, get_elem?, map, All, Option, none, some, ok, true, false, ◌≡◌, arith, >>=-eq-ok,
}
use pprofessor.Common.Int.{ℤ, pos, negsuc}
use pprofessor.Common.Saturating.{saturating_abs}
use pprofessor.Common.Ord.{then_cmp}
use pprofessor.Common.Sort.{is_gt, IsDescending, sort_by-All, sort_by-IsDescending}
use pprofessor.Pprof.ValueType.{ValueType}
use pprofessor.Pprof.Profile.{PprofProfile}
use pprofessor.Report.{FrameStat, StackStat, sample_index}
use pprofessor.Report.Totals.Bounds.{HasCosts, IsWithin, IsStackWithin, add_samples-All}
use pprofessor.Report.Analyze.{
  ProfileReport, cmp_cost, cmp_frames, cmp_stacks, totals, frame_stats, stack_stats, analyze,
  analyze_at, from_profile,
}

-- The number that `saturating_abs` gives.
abbrev pub magnitude : ℤ → ℕ
magnitude z = elim (saturating_abs z) [ pos n ↦ n | negsuc n ↦ 0 ]

after_cost :
    (a b : ℤ) (o : Ordering) → is_gt (then_cmp (cmp_cost a b) o) ≡ true → magnitude a ≤ magnitude b
unfolding saturating_abs
after_cost (pos a) (pos b) o e = ground arith
after_cost (pos a) (negsuc b) o e = ground arith
after_cost (negsuc a) (pos b) o e = ground arith
after_cost (negsuc a) (negsuc b) o e = ground arith

before_cost :
    (a b : ℤ) (o : Ordering) → is_gt (then_cmp (cmp_cost a b) o) ≡ false → magnitude b ≤ magnitude a
unfolding saturating_abs
before_cost (pos a) (pos b) o e = ground arith
before_cost (pos a) (negsuc b) o e = ground arith
before_cost (negsuc a) (pos b) o e = ground arith
before_cost (negsuc a) (negsuc b) o e = ground arith

-- A report that was made is the analysis for an index.
analyzed :
    (p : PprofProfile) (requested : Option (List ℕ)) (r : ProfileReport)
    → from_profile p requested ≡ ok r
    → (index : ℕ) × (selected : ValueType) × (analyze p selected (totals p index) ≡ r)
unfolding from_profile
analyzed p requested r h =
    let (index, e, k) =
      >>=-eq-ok (sample_index p requested) (λ i. analyze_at p i (get_elem? p.value_types i)) h in
    by_type index (get_elem? p.value_types index) k
  where
    by_type :
        (index : ℕ) (o : Option ValueType)
        → analyze_at p index o ≡ ok r
        → (i : ℕ) × (selected : ValueType) × (analyze p selected (totals p i) ≡ r)
    by_type index none k = cc
    by_type index (some selected) k = (index, selected, cc)

-- A report lists its frames by the absolute value of their flat costs, and its stacks by that of
-- their values, the largest first.
pub from_profile-IsDescending :
    (p : PprofProfile) (requested : Option (List ℕ)) (r : ProfileReport)
    → from_profile p requested ≡ ok r
    → IsDescending (map (λ (s : FrameStat). magnitude s.flat) r.top_frames)
      × IsDescending (map (λ (s : StackStat). magnitude s.value) r.top_stacks)
unfolding cmp_frames cmp_stacks
from_profile-IsDescending p requested r h =
    let (index, selected, e) = analyzed p requested r h in
    rw (← e) (
      sort_by-IsDescending cmp_frames (λ s. magnitude s.flat) (λ x y. after_cost x.flat y.flat _)
          (λ x y. before_cost x.flat y.flat _) (frame_stats (totals p index)),
      sort_by-IsDescending cmp_stacks (λ s. magnitude s.value) (λ x y. after_cost x.value y.value _)
          (λ x y. before_cost x.value y.value _) (stack_stats (totals p index)),
    )

-- Where no value of the profile is negative, every frame of a report has a flat cost that is not
-- negative and not above its cumulative cost, no cumulative cost is above the report's total, and the
-- value of a stack is not negative and not above the total.
pub from_profile-All :
    (p : PprofProfile) (requested : Option (List ℕ)) (r : ProfileReport)
    → HasCosts p.samples
    → from_profile p requested ≡ ok r
    → All (IsWithin r.total_value) r.top_frames × All (IsStackWithin r.total_value) r.top_stacks
from_profile-All p requested r costs h =
    let (index, selected, e) = analyzed p requested r h in
    let (frames, stacks) = within index in
    rw (← e) (
      sort_by-All cmp_frames (IsWithin (totals p index).total_value) (frame_stats (totals p index))
          frames,
      sort_by-All cmp_stacks (IsStackWithin (totals p index).total_value)
          (stack_stats (totals p index)) stacks,
    )
  where
    within :
        (index : ℕ)
        → All (IsWithin (totals p index).total_value) (frame_stats (totals p index))
          × All (IsStackWithin (totals p index).total_value) (stack_stats (totals p index))
    within index = unfold totals in (add_samples-All p index _ _ p.samples costs)

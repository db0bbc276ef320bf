-- ===== src/Tests/Reports.antt =====
-- Runs of src/report.rs on concrete inputs.
use pprofessor.Common.{
  ℕ, ◌<◌, List, [], ◌∷◌, map, All, none, some, ok, err, ◌↔◌, is_nil, true, ◌≡◌, refl, arith,
}
use pprofessor.Common.Int.{ℤ, pos}
use pprofessor.Common.Maps.{lookup, put}
use pprofessor.Common.Sort.{IsDescending, sort_by}
use pprofessor.Common.Saturating.{saturating_add, saturating_abs}
use pprofessor.Pprof.Line
use pprofessor.Pprof.Location
use pprofessor.Pprof.Function
use pprofessor.Pprof.Profile
use pprofessor.Pprof.Profile.{PprofProfile}
use pprofessor.Report.{FrameStat, ReportFrame, StackStat, sample_index, no_sample_types}
use pprofessor.Report.Resolve.{locations_by_id, functions_by_id, resolve_stack}
use pprofessor.Report.Totals.{no_totals, add_samples}
use pprofessor.Report.Totals.Entries.{measured}
use pprofessor.Report.Totals.Accounts.{Accounted, add_samples-Accounted}
use pprofessor.Report.Totals.Bounds.{HasCosts, IsWithin, IsStackWithin}
use pprofessor.Report.Choice.{sample_index-lt}
use pprofessor.Report.Analyze.{ProfileReport, from_profile, analyze, totals, cmp_frames}
use pprofessor.Report.Analyze.Ranking.{magnitude, from_profile-IsDescending, from_profile-All}
use pprofessor.Report.Analyze.Errors.{from_profile_iff}
use pprofessor.Report.Tree.{value, self_value, from_stacks}
use pprofessor.Report.Tree.Costs.{at_path, leads, has_node, is_shown, sum_stacks, from_stacks_sums}

abbrev cpu : List ℕ
cpu = 99 ∷ 112 ∷ 117 ∷ []

-- The function with the name stands twice in the stack of the first sample.
abbrev recursive : PprofProfile
recursive = record Profile.new {
  strings = record { strings = [] ∷ cpu ∷ []; indices = [] };
  value_types = record { type = 1; unit = 1 } ∷ [];
  samples =
      record { location_ids = 1 ∷ 1 ∷ 2 ∷ []; values = pos 5 ∷ []; labels = [] }
      ∷ record { location_ids = 2 ∷ []; values = pos 3 ∷ []; labels = [] }
      ∷ [];
  locations =
      record Location.default {
        id = 1;
        address = 4096;
        lines = record Line.default { function_id = 7 } ∷ [];
      }
      ∷ record Location.default { id = 2; address = 8192 }
      ∷ [];
  functions = record Function.default { id = 7; name = 1 } ∷ [];
}

abbrev recursive_report : ProfileReport
recursive_report = analyze recursive (record { type = 1; unit = 1 }) (totals recursive 0)

recursive_reported : from_profile recursive none ≡ ok recursive_report
unfolding from_profile
recursive_reported = refl

add_samples-Accounted_example :
    Accounted
      (measured recursive 0
        (locations_by_id recursive.locations [])
        (functions_by_id recursive.functions [])
        recursive.samples)
      no_totals
      (add_samples recursive 0
        (locations_by_id recursive.locations [])
        (functions_by_id recursive.functions [])
        recursive.samples
        no_totals)
add_samples-Accounted_example =
    add_samples-Accounted recursive 0 (locations_by_id recursive.locations [])
      (functions_by_id recursive.functions []) recursive.samples no_totals

abbrev costs_of : FrameStat → ℤ × ℤ
costs_of s = (s.flat, s.cumulative)

-- The location without a line has 3 of its own and is in both stacks; the recursive function has 5.
recursive_costs : map costs_of recursive_report.top_frames ≡ (pos 5, pos 5) ∷ (pos 3, pos 8) ∷ []
unfolding totals sort_by resolve_stack lookup put cmp_frames saturating_abs saturating_add
recursive_costs = refl

recursive-HasCosts : HasCosts recursive.samples
recursive-HasCosts = (((omega arith, omega arith), tt), (((omega arith, omega arith), tt), tt))

from_profile-All_example :
    All (IsWithin recursive_report.total_value) recursive_report.top_frames
    × All (IsStackWithin recursive_report.total_value) recursive_report.top_stacks
from_profile-All_example =
    from_profile-All recursive none recursive_report recursive-HasCosts recursive_reported

from_profile-IsDescending_example :
    IsDescending (map (λ (s : FrameStat). magnitude s.flat) recursive_report.top_frames)
    × IsDescending (map (λ (s : StackStat). magnitude s.value) recursive_report.top_stacks)
from_profile-IsDescending_example =
    from_profile-IsDescending recursive none recursive_report recursive_reported

chosen : sample_index recursive (some (48 ∷ [])) ≡ ok 0
unfolding sample_index
chosen = refl

sample_index-lt_example : 0 < 1
sample_index-lt_example = sample_index-lt recursive (some (48 ∷ [])) 0 chosen

abbrev main_frame : ReportFrame
main_frame = record { function = cpu; file = []; line = pos 1 }

abbrev work_frame : ReportFrame
work_frame = record { function = cpu; file = []; line = pos 2 }

abbrev three_stacks : List StackStat
three_stacks =
    record { frames = main_frame ∷ work_frame ∷ []; value = pos 4 }
    ∷ record { frames = main_frame ∷ []; value = pos 2 }
    ∷ record { frames = work_frame ∷ []; value = pos 1 }
    ∷ []

from_stacks_sums_example :
    (has_node (main_frame ∷ []) (from_stacks three_stacks)
      ≡ is_shown (main_frame ∷ []) three_stacks)
    × (at_path value (main_frame ∷ []) (from_stacks three_stacks)
        ≡ sum_stacks (leads (λ fs. true) (main_frame ∷ [])) three_stacks (pos 0))
    × (at_path self_value (main_frame ∷ []) (from_stacks three_stacks)
        ≡ sum_stacks (leads is_nil (main_frame ∷ [])) three_stacks (pos 0))
from_stacks_sums_example = from_stacks_sums three_stacks (main_frame ∷ [])

main_costs :
    (at_path value (main_frame ∷ []) (from_stacks three_stacks) ≡ pos 6)
    × (at_path self_value (main_frame ∷ []) (from_stacks three_stacks) ≡ pos 2)
unfolding from_stacks saturating_add
main_costs = (refl, refl)

from_profile_iff_example :
    (from_profile recursive (some cpu) ≡ err no_sample_types)
    ↔ (sample_index recursive (some cpu) ≡ err no_sample_types)
from_profile_iff_example = from_profile_iff recursive (some cpu) no_sample_types

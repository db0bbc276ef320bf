-- ===== src/Report/Totals.antt =====
-- src/report.rs, `from_profile`: the costs of the frames and stacks over all samples.
pub mod Entries
pub mod Accounts
pub mod Keys
pub mod Bounds
use pprofessor.Common.{
  ℕ, List, [], ◌∷◌, map, get_elem?, is_nil, any, Option, none, some, Bool, true, false,
  if◌then◌else◌,
}
use pprofessor.Common.Int.{ℤ, pos}
use pprofessor.Common.Saturating.{saturating_add, saturating_abs}
use pprofessor.Common.Maps.{lookup, put, same}
use pprofessor.Pprof.Sample.{Sample}
use pprofessor.Pprof.Profile.{PprofProfile}
use pprofessor.Report.{
  FrameStat, StackStat, FrameIdentity, identity_ord, stack_key_ord, ResolvedFrame,
}
use pprofessor.Report.Resolve.{Locations, Functions, resolve_stack, stat, report_frame}

abbrev pub Stats : Type 0
Stats = List (FrameIdentity × FrameStat)

abbrev pub Stacks : Type 0
Stacks = List (List FrameIdentity × StackStat)

-- The state of the loop over the samples.
pub record Totals : Type 0 where
  pub stats : Stats
  pub stacks : Stacks
  pub total_value : ℤ

abbrev pub no_totals : Totals
no_totals = record { stats = []; stacks = []; total_value = pos 0 }

abbrev pub identities : List ResolvedFrame → List FrameIdentity
identities fs = map (λ (f : ResolvedFrame). f.identity) fs

-- `stacks.entry(stack_key).or_insert_with(…)`
abbrev pub stack_entry : List ResolvedFrame → Option StackStat → StackStat
stack_entry frames none = record { frames = map report_frame frames; value = pos 0 }
stack_entry frames (some s) = s

abbrev pub with_value : ℤ → StackStat → StackStat
with_value v s = record s { value = saturating_add s.value v }

unfoldable pub add_stack : ℤ → List ResolvedFrame → Stacks → Stacks
add_stack v frames stacks =
    let key = identities frames in
    if is_nil key
    then stacks
    else put stack_key_ord key (with_value v (stack_entry frames (lookup stack_key_ord key stacks)))
        stacks

-- `stats.entry(frame.identity).or_insert_with(|| frame.stat())`
abbrev pub stat_entry : ResolvedFrame → Option FrameStat → FrameStat
stat_entry f none = stat f
stat_entry f (some s) = s

abbrev pub with_flat : ℤ → FrameStat → FrameStat
with_flat v s = record s { flat = saturating_add s.flat v }

abbrev pub with_cumulative : ℤ → FrameStat → FrameStat
with_cumulative v s = record s { cumulative = saturating_add s.cumulative v }

abbrev pub last : List ResolvedFrame → Option ResolvedFrame
last [] = none
last (f ∷ []) = some f
last (f ∷ g ∷ fs) = last (g ∷ fs)

abbrev pub add_leaf : ℤ → Option ResolvedFrame → Stats → Stats
add_leaf v none stats = stats
add_leaf v (some f) stats =
    put identity_ord f.identity (with_flat v (stat_entry f (lookup identity_ord f.identity stats)))
      stats

-- `seen` is the set of the identities that were met.
unfoldable pub add_frames : ℤ → List FrameIdentity → List ResolvedFrame → Stats → Stats
add_frames v seen [] stats = stats
add_frames v seen (f ∷ fs) stats =
    let known = add_frames v seen fs stats in
    let fresh = add_frames v (f.identity ∷ seen) fs (
      put identity_ord f.identity
        (with_cumulative v (stat_entry f (lookup identity_ord f.identity stats))) stats) in
    if any (same identity_ord f.identity) seen then known else fresh

unfoldable pub add_value : ℤ → List ResolvedFrame → Totals → Totals
unfolding add_stack add_frames
add_value v frames t = record {
  stats = add_frames v [] frames (add_leaf v (last frames) t.stats);
  stacks = add_stack v frames t.stacks;
  total_value = saturating_add t.total_value (saturating_abs v);
}

-- A sample that has no value for the index is left out.
abbrev pub add_sample : List ResolvedFrame → Option ℤ → Totals → Totals
add_sample frames none t = t
add_sample frames (some v) t = add_value v frames t

unfoldable pub add_samples :
    PprofProfile → ℕ → Locations → Functions → List Sample → Totals → Totals
unfolding add_value
add_samples p index locations functions [] t = t
add_samples p index locations functions (s ∷ ss) t =
    add_samples p index locations functions ss
      (add_sample (resolve_stack p s locations functions) (get_elem? s.values index) t)

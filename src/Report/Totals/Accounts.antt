-- ===== src/Report/Totals/Accounts.antt =====
-- src/report.rs, `from_profile`: the totals of the loop are sums over the samples.
use pprofessor.Common.{
  ℕ, List, [], ◌∷◌, get_elem?, Option, none, some, if◌then◌else◌, ◌≡◌, refl, ◌∙◌, ap,
}
use pprofessor.Common.Int.{ℤ}
use pprofessor.Common.Saturating.{saturating_add}
use pprofessor.Pprof.Sample.{Sample}
use pprofessor.Pprof.Profile.{PprofProfile}
use pprofessor.Report.{FrameIdentity, ResolvedFrame}
use pprofessor.Report.Resolve.{Locations, Functions, resolve_stack}
use pprofessor.Report.Totals.{Totals, last, add_value, add_sample, add_samples}
use pprofessor.Report.Totals.Entries.{
  Measured, push_measured, measured, sum_where, sum_abs, is_leaf, has_frame, is_stack, flat_of,
  cumulative_of, value_of, flat_of-add_leaf, cumulative_of-add_leaf, flat_of-add_frames,
  cumulative_of-add_frames, value_of-add_stack,
}

-- The totals as sums, from the totals at the start of the loop.
pub record Accounted (ms : Measured) (t t' : Totals) : Type 0 where
  pub flats :
      (k : FrameIdentity) → flat_of k t'.stats ≡ sum_where (is_leaf k) ms (flat_of k t.stats)
  pub cumulatives :
      (k : FrameIdentity)
      → cumulative_of k t'.stats ≡ sum_where (has_frame k) ms (cumulative_of k t.stats)
  pub stack_values :
      (key : List FrameIdentity)
      → value_of key t'.stacks ≡ sum_where (is_stack key) ms (value_of key t.stacks)
  pub total : t'.total_value ≡ sum_abs ms t.total_value

add_value-Accounted :
    (v : ℤ) (frames : List ResolvedFrame) (ms : Measured) (t t' : Totals)
    → Accounted ms (add_value v frames t) t'
    → Accounted ((frames, v) ∷ ms) t t'
unfolding add_value sum_where sum_abs
add_value-Accounted v frames ms t t' h = record {
  flats = λ k.
      h.flats k
      ∙ ap (sum_where (is_leaf k) ms)
          (flat_of-add_frames k v [] frames _ ∙ flat_of-add_leaf k v (last frames) t.stats);
  cumulatives = λ k.
      h.cumulatives k
      ∙ ap (sum_where (has_frame k) ms) (
          cumulative_of-add_frames k v [] frames _
          ∙ ap (λ x. if has_frame k frames then saturating_add x v else x)
              (cumulative_of-add_leaf k v (last frames) t.stats));
  stack_values = λ key.
      h.stack_values key
      ∙ ap (sum_where (is_stack key) ms) (value_of-add_stack key v frames t.stacks);
  total = h.total;
}

add_sample-Accounted :
    (frames : List ResolvedFrame) (o : Option ℤ) (ms : Measured) (t t' : Totals)
    → Accounted ms (add_sample frames o t) t'
    → Accounted (push_measured frames o ms) t t'
add_sample-Accounted frames none ms t t' h = h
add_sample-Accounted frames (some v) ms t t' h = add_value-Accounted v frames ms t t' h

-- The totals after the loop over the samples: a frame's flat value is the sum of the values of the
-- samples whose leaf it is, its cumulative value that of the samples in whose stack it is, each counted
-- once however often the frame stands there, a stack's value that of the samples with this stack, if it has frames, and
-- the total that of the absolute values. All sums saturate, from what the totals were before.
pub add_samples-Accounted :
    (p : PprofProfile) (index : ℕ) (locations : Locations) (functions : Functions)
    (ss : List Sample) (t : Totals)
    → Accounted
        (measured p index locations functions ss)
        t
        (add_samples p index locations functions ss t)
unfolding measured add_samples sum_where sum_abs
add_samples-Accounted p index locations functions [] t = record {
  flats = λ k. refl;
  cumulatives = λ k. refl;
  stack_values = λ key. refl;
  total = refl;
}
add_samples-Accounted p index locations functions (s ∷ ss) t =
    add_sample-Accounted (resolve_stack p s locations functions) (get_elem? s.values index) _ t _ (
      add_samples-Accounted p index locations functions ss
        (add_sample (resolve_stack p s locations functions) (get_elem? s.values index) t))

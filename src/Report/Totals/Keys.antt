-- ===== src/Report/Totals/Keys.antt =====
-- src/report.rs, `from_profile`: the maps of the totals hold each key once.
use pprofessor.Common.{ℕ, List, [], ◌∷◌, get_elem?, any, Option, none, some, Bool-cases, inl, inr}
use pprofessor.Common.Int.{ℤ}
use pprofessor.Common.Maps.{same, HasKeysOnce, put-HasKeysOnce}
use pprofessor.Pprof.Sample.{Sample}
use pprofessor.Pprof.Profile.{PprofProfile}
use pprofessor.Report.{FrameIdentity, identity_ord, stack_key_ord, ResolvedFrame}
use pprofessor.Report.Resolve.{Locations, Functions, resolve_stack}
use pprofessor.Report.Totals.{
  Stats, Stacks, Totals, no_totals, identities, add_stack, last, add_leaf, add_frames, add_value,
  add_sample, add_samples,
}

-- What the loops put into the maps leaves no key twice.
pub record AreMaps (t : Totals) : Type 0 where
  pub stats_once : HasKeysOnce identity_ord t.stats
  pub stacks_once : HasKeysOnce stack_key_ord t.stacks

add_leaf-HasKeysOnce :
    (v : ℤ) (o : Option ResolvedFrame) (stats : Stats)
    → HasKeysOnce identity_ord stats
    → HasKeysOnce identity_ord (add_leaf v o stats)
add_leaf-HasKeysOnce v none stats h = h
add_leaf-HasKeysOnce v (some f) stats h = put-HasKeysOnce identity_ord f.identity _ stats h

add_frames-HasKeysOnce :
    (v : ℤ) (seen : List FrameIdentity) (fs : List ResolvedFrame) (stats : Stats)
    → HasKeysOnce identity_ord stats
    → HasKeysOnce identity_ord (add_frames v seen fs stats)
unfolding add_frames
add_frames-HasKeysOnce v seen [] stats h = h
add_frames-HasKeysOnce v seen (f ∷ fs) stats h =
    elim (Bool-cases (any (same identity_ord f.identity) seen)) [
      | inl e ↦ rw e (add_frames-HasKeysOnce v seen fs stats h)
      | inr e ↦ rw e (
          add_frames-HasKeysOnce v (f.identity ∷ seen) fs _
            (put-HasKeysOnce identity_ord f.identity _ stats h))
    ]

add_stack-HasKeysOnce :
    (v : ℤ) (frames : List ResolvedFrame) (stacks : Stacks)
    → HasKeysOnce stack_key_ord stacks
    → HasKeysOnce stack_key_ord (add_stack v frames stacks)
unfolding add_stack
add_stack-HasKeysOnce v [] stacks h = h
add_stack-HasKeysOnce v (f ∷ fs) stacks h =
    put-HasKeysOnce stack_key_ord (identities (f ∷ fs)) _ stacks h

add_sample-AreMaps :
    (frames : List ResolvedFrame) (o : Option ℤ) (t : Totals)
    → AreMaps t
    → AreMaps (add_sample frames o t)
unfolding add_value
add_sample-AreMaps frames none t h = h
add_sample-AreMaps frames (some v) t h = record {
  stats_once =
      add_frames-HasKeysOnce v [] frames _
        (add_leaf-HasKeysOnce v (last frames) t.stats h.stats_once);
  stacks_once = add_stack-HasKeysOnce v frames t.stacks h.stacks_once;
}

pub add_samples-AreMaps :
    (p : PprofProfile) (index : ℕ) (locations : Locations) (functions : Functions)
    (ss : List Sample) (t : Totals)
    → AreMaps t
    → AreMaps (add_samples p index locations functions ss t)
unfolding add_samples
add_samples-AreMaps p index locations functions [] t h = h
add_samples-AreMaps p index locations functions (s ∷ ss) t h =
    add_samples-AreMaps p index locations functions ss _
      (add_sample-AreMaps (resolve_stack p s locations functions) (get_elem? s.values index) t h)

pub no_totals-AreMaps : AreMaps no_totals
unfolding HasKeysOnce
no_totals-AreMaps = record { stats_once = tt; stacks_once = tt }

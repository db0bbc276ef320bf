-- ===== src/Report/Totals/Bounds.antt =====
-- src/report.rs, `from_profile`: costs that are not negative are within the total.
use pprofessor.Common.{
  ℕ, List, [], ◌∷◌, get_elem?, All, map, Option, none, some, Bool, true, false, if◌then◌else◌, ◌≡◌,
  refl, ◌∙◌, ap, sym, arith, Bool-cases, inl, inr, zero, suc,
}
use mathlib.Core.Path.{subst}
use pprofessor.Common.Int.{ℤ, pos, IsI64}
use pprofessor.Common.Saturating.{
  saturating_add, ◌≤ℤ◌, ≤ℤ-saturating_add, saturating_add_mono, saturating_abs-eq_self,
  saturating_add-IsI64,
}
use pprofessor.Common.Maps.{lookup, same, found-All}
use pprofessor.Pprof.Sample.{Sample}
use pprofessor.Pprof.Profile.{PprofProfile}
use pprofessor.Report.{
  FrameStat, StackStat, FrameIdentity, identity_ord, stack_key_ord, ResolvedFrame,
}
use pprofessor.Report.Resolve.{Locations, Functions, resolve_stack}
use pprofessor.Report.Totals.{Totals, no_totals, add_samples}
use pprofessor.Report.Totals.Entries.{
  Measured, push_measured, measured, sum_where, sum_abs, is_leaf, has_frame, is_stack, flat_of,
  cumulative_of, value_of, flat_or_zero, cumulative_or_zero, value_or_zero,
}
use pprofessor.Report.Totals.Accounts.{Accounted, add_samples-Accounted}
use pprofessor.Report.Totals.Keys.{AreMaps, add_samples-AreMaps, no_totals-AreMaps}

-- A value of 64 bits that is not negative.
abbrev pub IsCost : ℤ → Type 0
IsCost v = (pos 0 ≤ℤ v) × IsI64 v

abbrev AreCosts : Measured → Type 0
AreCosts ms = All (λ (m : List ResolvedFrame × ℤ). IsCost m.1) ms

sum_where-le :
    (a b : List ResolvedFrame → Bool) (ms : Measured) (x y : ℤ)
    → ((fs : List ResolvedFrame) → a fs ≡ true → b fs ≡ true)
    → AreCosts ms
    → x ≤ℤ y
    → IsI64 y
    → sum_where a ms x ≤ℤ sum_where b ms y
unfolding sum_where
sum_where-le a b [] x y i h l f = l
sum_where-le a b ((fs, v) ∷ ms) x y i (c, h) l f = elim (Bool-cases (a fs)) [
  | inl e ↦
      rw (e, i fs e)
        (sum_where-le a b ms _ _ i h (saturating_add_mono x y v l) (saturating_add-IsI64 y v))
  | inr e ↦ rw e (elim (Bool-cases (b fs)) [
    | inl q ↦
        rw q
          (sum_where-le a b ms x _ i h (≤ℤ-saturating_add x y v l f c.0) (saturating_add-IsI64 y v))
    | inr q ↦ rw q (sum_where-le a b ms x y i h l f)
  ])
]

-- The sum of the absolute values is that of the values.
sum_abs-eq-sum_where :
    (ms : Measured) (x : ℤ) → AreCosts ms → sum_abs ms x ≡ sum_where (λ fs. true) ms x
unfolding sum_abs sum_where
sum_abs-eq-sum_where [] x h = refl
sum_abs-eq-sum_where ((fs, v) ∷ ms) x (c, h) =
    rw (saturating_abs-eq_self v c.0 c.1) (sum_abs-eq-sum_where ms (saturating_add x v) h)

sum_nowhere : (ms : Measured) (x : ℤ) → sum_where (λ fs. false) ms x ≡ x
unfolding sum_where
sum_nowhere [] x = refl
sum_nowhere (m ∷ ms) x = sum_nowhere ms x

no_stat : (k : FrameIdentity) → (flat_of k [] ≡ pos 0) × (cumulative_of k [] ≡ pos 0)
unfolding lookup
no_stat k = (refl, refl)

no_stack : (key : List FrameIdentity) → value_of key [] ≡ pos 0
unfolding lookup
no_stack key = refl

sum_where-ge :
    (a : List ResolvedFrame → Bool) (ms : Measured) → AreCosts ms → pos 0 ≤ℤ sum_where a ms (pos 0)
sum_where-ge a ms h =
    subst (λ x. x ≤ℤ sum_where a ms (pos 0)) (sum_nowhere ms (pos 0))
      (sum_where-le (λ fs. false) a ms (pos 0) (pos 0) (λ fs e. cc) h (omega arith) (omega arith))

-- The leaf is a frame of the stack.
is_leaf-has_frame :
    (k : FrameIdentity) (fs : List ResolvedFrame) → is_leaf k fs ≡ true → has_frame k fs ≡ true
is_leaf-has_frame k [] e = e
is_leaf-has_frame k (f ∷ []) e = rw e refl
is_leaf-has_frame k (f ∷ g ∷ fs) e =
    by_test (same identity_ord k f.identity) (is_leaf-has_frame k (g ∷ fs) e)
  where
    by_test :
        (b : Bool) → has_frame k (g ∷ fs) ≡ true → (if b then true else has_frame k (g ∷ fs)) ≡ true
    by_test true q = refl
    by_test false q = q

-- Every value of the samples is a cost.
abbrev pub HasCosts : List Sample → Type 0
HasCosts ss = All (λ (s : Sample). All IsCost s.values) ss

get-IsCost : (vs : List ℤ) (i : ℕ) (v : ℤ) → All IsCost vs → get_elem? vs i ≡ some v → IsCost v
get-IsCost [] i v h e = cc
get-IsCost (w ∷ vs) zero v h e = let q : w ≡ v = cc in rw (← q) h.0
get-IsCost (w ∷ vs) (suc i) v h e = get-IsCost vs i v h.1 e

measured-AreCosts :
    (p : PprofProfile) (index : ℕ) (locations : Locations) (functions : Functions)
    (ss : List Sample)
    → HasCosts ss
    → AreCosts (measured p index locations functions ss)
unfolding measured
measured-AreCosts p index locations functions [] h = tt
measured-AreCosts p index locations functions (s ∷ ss) h =
    by_value (get_elem? s.values index) refl (measured-AreCosts p index locations functions ss h.1)
  where
    ms : Measured
    ms = measured p index locations functions ss

    by_value :
        (o : Option ℤ)
        → get_elem? s.values index ≡ o
        → AreCosts ms
        → AreCosts (push_measured (resolve_stack p s locations functions) o ms)
    by_value none e k = k
    by_value (some v) e k = (get-IsCost s.values index v h.0 e, k)

-- Flat costs are within the cumulative ones, and those within the total; so are those of the stacks.
abbrev pub IsWithin : ℤ → FrameStat → Type 0
IsWithin total s = (pos 0 ≤ℤ s.flat) × ((s.flat ≤ℤ s.cumulative) × (s.cumulative ≤ℤ total))

abbrev pub IsStackWithin : ℤ → StackStat → Type 0
IsStackWithin total s = (pos 0 ≤ℤ s.value) × (s.value ≤ℤ total)

pub add_samples-All :
    (p : PprofProfile) (index : ℕ) (locations : Locations) (functions : Functions)
    (ss : List Sample)
    → HasCosts ss
    → All (IsWithin (add_samples p index locations functions ss no_totals).total_value) (
        map
          (λ (e : FrameIdentity × FrameStat). e.1)
          (add_samples p index locations functions ss no_totals).stats)
      × All (IsStackWithin (add_samples p index locations functions ss no_totals).total_value) (
          map
            (λ (e : List FrameIdentity × StackStat). e.1)
            (add_samples p index locations functions ss no_totals).stacks)
add_samples-All p index locations functions ss h = (
  found-All identity_ord (IsWithin t.total_value) t.stats maps.stats_once frame_within,
  found-All stack_key_ord (IsStackWithin t.total_value) t.stacks maps.stacks_once stack_within,
)
  where
    t : Totals
    t = add_samples p index locations functions ss no_totals

    ms : Measured
    ms = measured p index locations functions ss

    costs : AreCosts ms
    costs = measured-AreCosts p index locations functions ss h

    maps : AreMaps t
    maps = add_samples-AreMaps p index locations functions ss no_totals no_totals-AreMaps

    sums : Accounted ms no_totals t
    sums = add_samples-Accounted p index locations functions ss no_totals

    total_sum : t.total_value ≡ sum_where (λ fs. true) ms (pos 0)
    total_sum = sums.total ∙ sum_abs-eq-sum_where ms (pos 0) costs

    frame_within :
        (k : FrameIdentity) (s : FrameStat)
        → lookup identity_ord k t.stats ≡ some s
        → IsWithin t.total_value s
    frame_within k s e =
        let flat : s.flat ≡ sum_where (is_leaf k) ms (pos 0) =
          sym (ap flat_or_zero e) ∙ sums.flats k ∙ ap (sum_where (is_leaf k) ms) (no_stat k).0 in
        let cumulative : s.cumulative ≡ sum_where (has_frame k) ms (pos 0) =
          sym (ap cumulative_or_zero e)
          ∙ sums.cumulatives k
          ∙ ap (sum_where (has_frame k) ms) (no_stat k).1 in
        rw (flat, cumulative, total_sum)
          (
            sum_where-ge (is_leaf k) ms costs,
            (
              sum_where-le (is_leaf k) (has_frame k) ms (pos 0) (pos 0) (is_leaf-has_frame k) costs
                  (omega arith) (omega arith),
              sum_where-le (has_frame k) (λ fs. true) ms (pos 0) (pos 0) (λ fs q. refl) costs
                  (omega arith) (omega arith),
            ),
          )

    stack_within :
        (k : List FrameIdentity) (s : StackStat)
        → lookup stack_key_ord k t.stacks ≡ some s
        → IsStackWithin t.total_value s
    stack_within k s e =
        let value : s.value ≡ sum_where (is_stack k) ms (pos 0) =
          sym (ap value_or_zero e)
          ∙ sums.stack_values k
          ∙ ap (sum_where (is_stack k) ms) (no_stack k) in
        rw (value, total_sum)
          (
            sum_where-ge (is_stack k) ms costs,
            sum_where-le (is_stack k) (λ fs. true) ms (pos 0) (pos 0) (λ fs q. refl) costs
                (omega arith) (omega arith),
          )

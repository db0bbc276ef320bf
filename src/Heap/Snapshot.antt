-- ===== src/Heap/Snapshot.antt =====
-- src/heap/mod.rs: heap checkpoints, `HeapProfile`, and the tracker's snapshot of one.
use pprofessor.Common.{
  ℕ, zero, suc, List, [], ◌∷◌, map, Option, none, some, ok, err, ◌>>=◌, ◌>>◌, ensure, >>=-eq-ok,
  not, is_nil, if◌then◌else◌, ◌≡◌,
}
use pprofessor.Common.Int.{ℤ}
use pprofessor.Common.Maps.{lookup, insert, lookup-insert, same}
use pprofessor.Heap.{
  Stack, stack_ord, HeapValues, zero_values, checked_add, checked_add_ok, sum_values, Heaped,
  missing_stack, out_of_bounds,
}
use pprofessor.Heap.Tracker.{Tracker, in_use}

-- `collected_at` is the time in nanoseconds since the epoch, or before it where it is negative.
pub record HeapProfile : Type 0 where
  pub domain : List ℕ
  pub collected_at : ℤ
  pub comment : List ℕ
  pub samples : List (Stack × HeapValues)

-- `now` is the clock's time.
abbrev pub new_profile : ℤ → List ℕ → HeapProfile
new_profile now domain = record { domain = domain; collected_at = now; comment = []; samples = [] }

abbrev pub or_zero : Option HeapValues → HeapValues
or_zero none = zero_values
or_zero (some v) = v

unfoldable pub add_sample : HeapProfile → Stack → HeapValues → Heaped HeapProfile
add_sample p stack values = do
  ensure (not (is_nil stack)) missing_stack
  v ← checked_add (or_zero (lookup stack_ord stack p.samples)) values
  ok (record p { samples = insert stack_ord stack v p.samples })

-- `values[*id] = values[*id].checked_add(cost)?`
unfoldable pub add_at : List HeapValues → ℕ → HeapValues → Heaped (List HeapValues)
add_at [] i cost = err out_of_bounds
add_at (v ∷ vs) zero cost = do v' ← checked_add v cost; ok (v' ∷ vs)
add_at (v ∷ vs) (suc i) cost = do rest ← add_at vs i cost; ok (v ∷ rest)

unfoldable pub add_live : List (ℕ × (ℕ × ℕ)) → List HeapValues → Heaped (List HeapValues)
add_live [] values = ok values
add_live ((a, (size, i)) ∷ live) values = do
  values' ← add_at values i (in_use size)
  add_live live values'

unfoldable pub add_samples :
    List (Stack × HeapValues) → List HeapValues → HeapProfile → Heaped HeapProfile
add_samples ((stack, w) ∷ stacks) (v ∷ values) p = do
  p' ← add_sample p stack v
  add_samples stacks values p'
add_samples _ _ p = ok p

unfoldable pub snapshot : ℤ → Tracker → Heaped HeapProfile
snapshot now t = do
  values ← add_live t.live (map (λ x. x.1) t.stacks)
  add_samples t.stacks values (new_profile now t.domain)

-- A sample that is added to a profile: its stack then has the exact sum of what it had, or of
-- zeros, and the sample's values, and every other stack has what it had.
pub lookup-add_sample :
    (p p' : HeapProfile) (stack : Stack) (values : HeapValues)
    → add_sample p stack values ≡ ok p'
    → (s : Stack)
    → lookup stack_ord s p'.samples ≡ (
        if same stack_ord s stack
        then some (sum_values (or_zero (lookup stack_ord stack p.samples)) values)
        else lookup stack_ord s p.samples)
unfolding add_sample
lookup-add_sample p p' [] values h s = cc
lookup-add_sample p p' (f ∷ fs) values h s =
    let (v, e, g) =
      >>=-eq-ok (checked_add (or_zero (lookup stack_ord (f ∷ fs) p.samples)) values) _ h in
    let q : record p { samples = insert stack_ord (f ∷ fs) v p.samples } ≡ p' = cc in
    rw (← q, lookup-insert stack_ord s (f ∷ fs) v p.samples, (checked_add_ok _ _ v e).0)

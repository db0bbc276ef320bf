-- ===== src/Heap/Tracker/Log.antt =====
-- src/heap/mod.rs, `NativeHeapTracker`: what a tracker holds after an ordered log of events.
use pprofessor.Common.{
  ℕ, List, [], ◌∷◌, Option, none, some, ok, err, ◌>>=◌, ◌>>◌, ensure, >>=-eq-ok, not, is_nil, ◌==◌,
  Bool, true, false, if◌then◌else◌, Bool-cases, Option-cases, inl, inr, ◌≡◌, ◌≢◌, refl, sym, ap,
  ◌∙◌, arith,
}
use pprofessor.Common.Ord.{nat_ord}
use pprofessor.Common.Maps.{lookup, insert, remove, lookup-insert, lookup-remove, same}
use pprofessor.Heap.{
  Stack, stack_ord, HeapValues, zero_values, checked_add, checked_add_ok, sum_values, Heaped,
  HeapError, unknown_free, null_allocation, missing_stack, duplicate_live,
}
use pprofessor.Heap.Tracker.{Tracker, new, is_none, cost_of, charge, assign_id, allocate, release}
use pprofessor.Heap.Tracker.Accounting.{IsValid, value_at, Assigned, assign_old, assign_new}

-- One line of an allocation log.
pub data Event : Type 0 where
  allocated : ℕ → ℕ → Stack → Event
  released : ℕ → Event

abbrev pub step : Tracker → Event → Heaped Tracker
step t (allocated address size stack) = allocate t address size stack
step t (released address) = release t address

unfoldable pub run : Tracker → List Event → Heaped Tracker
run t [] = ok t
run t (e ∷ log) = do t' ← step t e; run t' log

-- A stack's measurements after the log: each of its allocations added to the first ones.
unfoldable pub costs : Stack → List Event → HeapValues → HeapValues
costs s [] v = v
costs s (allocated address size stack ∷ log) v =
    costs s log (if same stack_ord s stack then sum_values v (cost_of size) else v)
costs s (released address ∷ log) v = costs s log v

-- The size of the block at an address after the log.
unfoldable pub sizes : ℕ → List Event → Option ℕ → Option ℕ
sizes a [] o = o
sizes a (allocated address size stack ∷ log) o = sizes a log (if a == address then some size else o)
sizes a (released address ∷ log) o = sizes a log (if a == address then none else o)

abbrev pub size_of : Option (ℕ × ℕ) → Option ℕ
size_of none = none
size_of (some (size, i)) = some size

abbrev pub size_at : Tracker → ℕ → Option ℕ
size_at t a = size_of (lookup nat_ord a t.live)

-- The id that `assign_id` gives comes with the cost added for the stack, and for no other.
assign_id-Assigned :
    (t t' : Tracker) (stack : Stack) (cost : HeapValues) (i : ℕ)
    → IsValid t
    → assign_id t stack cost (lookup stack_ord stack t.stack_ids) ≡ ok (t', i)
    → Assigned t t' stack cost
unfolding assign_id
assign_id-Assigned t t' stack cost i v h =
    elim (Option-cases (lookup stack_ord stack t.stack_ids)) [
      | inl e ↦ made e (ap (assign_id t stack cost) (sym e) ∙ h)
      | inr (j, e) ↦ found j e (ap (assign_id t stack cost) (sym e) ∙ h)
    ]
  where
    found :
        (j : ℕ)
        → lookup stack_ord stack t.stack_ids ≡ some j
        → assign_id t stack cost (some j) ≡ ok (t', i)
        → Assigned t t' stack cost
    found j e k =
        let (stacks, c, f) = >>=-eq-ok (charge t.stacks j cost) _ k in
        let p : record t { stacks = stacks } ≡ t' = cc in
        rw (← p) (assign_old t stack cost j stacks v e c)

    made :
        lookup stack_ord stack t.stack_ids ≡ none
        → assign_id t stack cost none ≡ ok (t', i)
        → Assigned t t' stack cost
    made e k =
        let (w, c, f) = >>=-eq-ok (checked_add zero_values cost) _ k in
        let p : _ ≡ t' = ap (λ r. elim r [ ok (x, y) ↦ x | err z ↦ t ]) f in
        rw (← p) (assign_new t stack cost w v e (checked_add_ok zero_values cost w c).0)

-- A successful `allocate` passed its guards; the stack gained the cost and the block is live.
record Allocated (t t' : Tracker) (address size : ℕ) (stack : Stack) : Type 0 where
  valid : IsValid t'
  value :
      (s : Stack)
      → value_at t' s ≡ (
          if same stack_ord s stack then sum_values (value_at t s) (cost_of size) else value_at t s)
  live : (a : ℕ) → size_at t' a ≡ (if a == address then some size else size_at t a)

ensured :
    {A : Type 0} (b : Bool) (e : HeapError) (r : Heaped A) {a : A}
    → (do ensure b e; r) ≡ ok a
    → r ≡ ok a
ensured true e r h = h
ensured false e r h = cc

allocate-Allocated :
    (t t' : Tracker) (address size : ℕ) (stack : Stack)
    → IsValid t
    → allocate t address size stack ≡ ok t'
    → Allocated t t' address size stack
unfolding allocate
allocate-Allocated t t' address size stack v h =
    let ((x, i), e, f) =
      >>=-eq-ok (assign_id t stack (cost_of size) (lookup stack_ord stack t.stack_ids)) stored (
        ensured (is_none (lookup nat_ord address t.live)) duplicate_live body (
          ensured (not (is_nil stack)) missing_stack
            (do ensure (is_none (lookup nat_ord address t.live)) duplicate_live; body)
            (ensured (not (address == 0)) null_allocation
              (do
                ensure (not (is_nil stack)) missing_stack
                ensure (is_none (lookup nat_ord address t.live)) duplicate_live
                body)
              h))) in
    let got = assign_id-Assigned t x stack (cost_of size) i v e in
    let p : record x { live = insert nat_ord address (size, i) x.live } ≡ t' = cc in
    rw (← p) (record {
      valid = record { ids = got.valid.ids };
      value = got.values;
      live =
          λ a. rw (lookup-insert nat_ord a address (size, i) x.live, got.live_same) (by_test a i);
    })
  where
    stored : Tracker × ℕ → Heaped Tracker
    stored (x, i) = ok (record x { live = insert nat_ord address (size, i) x.live })

    body : Heaped Tracker
    body = do r ← assign_id t stack (cost_of size) (lookup stack_ord stack t.stack_ids); stored r

    by_test :
        (a i : ℕ)
        → size_of (if a == address then some (size, i) else lookup nat_ord a t.live)
          ≡ (if a == address then some size else size_at t a)
    by_test a i = ground arith

-- A successful `release` of an address keeps the measurements, and no block is left there.
record Released (t t' : Tracker) (address : ℕ) : Type 0 where
  valid : IsValid t'
  value : (s : Stack) → value_at t' s ≡ value_at t s
  live : (a : ℕ) → a ≢ 0 → size_at t' a ≡ (if a == address then none else size_at t a)

release-Released :
    (t t' : Tracker) (address : ℕ) → IsValid t → release t address ≡ ok t' → Released t t' address
unfolding release
release-Released t t' address v h = elim (Bool-cases (address == 0)) [
  | inl z ↦
      let p : t ≡ t' = cc in
      rw (← p) (record { valid = v; value = λ s. refl; live = λ a n. elsewhere a n z })
  | inr z ↦
      let k : rest ≡ ok t' = cc in
      elim (Bool-cases (is_none (lookup nat_ord address t.live))) [
        | inl q ↦ cc
        | inr q ↦
            let p : removed ≡ t' = cc in
            rw (← p) (record {
              valid = record { ids = v.ids };
              value = λ s. refl;
              live = λ a n. rw (lookup-remove nat_ord a address t.live) (by_test a);
            })
      ]
]
  where
    removed : Tracker
    removed = record t { live = remove nat_ord address t.live }

    rest : Heaped Tracker
    rest = if is_none (lookup nat_ord address t.live) then err unknown_free else ok removed

    elsewhere :
        (a : ℕ)
        → a ≢ 0
        → (address == 0) ≡ true
        → size_at t a ≡ (if a == address then none else size_at t a)
    elsewhere a n z = ground arith

    by_test :
        (a : ℕ)
        → size_of (if a == address then none else lookup nat_ord a t.live)
          ≡ (if a == address then none else size_at t a)
    by_test a = ground arith

-- What `run` adds up to, from a valid tracker.
record Ran (t t' : Tracker) (log : List Event) : Type 0 where
  valid : IsValid t'
  value : (s : Stack) → value_at t' s ≡ costs s log (value_at t s)
  live : (a : ℕ) → a ≢ 0 → size_at t' a ≡ sizes a log (size_at t a)

run-Ran : (log : List Event) (t t' : Tracker) → IsValid t → run t log ≡ ok t' → Ran t t' log
unfolding run costs sizes
run-Ran [] t t' v h =
    let p : t ≡ t' = cc in rw (← p) (record { valid = v; value = λ s. refl; live = λ a n. refl })
run-Ran (allocated address size stack ∷ log) t t' v h =
    let (x, e, f) = >>=-eq-ok (allocate t address size stack) _ h in
    let one = allocate-Allocated t x address size stack v e in
    let all = run-Ran log x t' one.valid f in
    record {
      valid = all.valid;
      value = λ s. all.value s ∙ ap (costs s log) (one.value s);
      live = λ a n. all.live a n ∙ ap (sizes a log) (one.live a);
    }
run-Ran (released address ∷ log) t t' v h =
    let (x, e, f) = >>=-eq-ok (release t address) _ h in
    let one = release-Released t x address v e in
    let all = run-Ran log x t' one.valid f in
    record {
      valid = all.valid;
      value = λ s. all.value s ∙ ap (costs s log) (one.value s);
      live = λ a n. all.live a n ∙ ap (sizes a log) (one.live a n);
    }

-- A tracker that followed a whole log from its start without an error holds, for every stack, one
-- object and the size for each allocation of the log at that stack, and has at every address other
-- than 0 the block that the log's last event there left, or none.
pub run_accounts :
    (domain : List ℕ) (log : List Event) (t : Tracker)
    → run (new domain) log ≡ ok t
    → ((s : Stack) → value_at t s ≡ costs s log zero_values)
      × ((a : ℕ) → a ≢ 0 → size_at t a ≡ sizes a log none)
unfolding run lookup
run_accounts domain log t h =
    let all = run-Ran log (new domain) t (record { ids = λ s i e. ground arith }) h in
    (all.value, all.live)

-- ===== src/Heap/Tracker.antt =====
-- src/heap/mod.rs, `NativeHeapTracker`: strict accounting for an ordered allocation log.
pub mod Log
pub mod Accounting
use pprofessor.Common.{
  ℕ, zero, suc, ◌+◌, List, [], ◌∷◌, push, length, get_elem?, set, Option, none, some, Result, ok,
  err, ◌>>=◌, ◌>>◌, ensure, not, is_nil, ◌==◌, Bool, true, false, if◌then◌else◌,
}
use pprofessor.Common.Ord.{nat_ord}
use pprofessor.Common.Maps.{lookup, insert, remove}
use pprofessor.Heap.{
  Stack, stack_ord, HeapValues, zero_values, checked_add, HeapError, Heaped, null_allocation,
  missing_stack, duplicate_live, unknown_free, out_of_bounds,
}

-- `live` has the size and the stack's id of each block that is not freed.
pub record Tracker : Type 0 where
  pub domain : List ℕ
  pub stack_ids : List (Stack × ℕ)
  pub stacks : List (Stack × HeapValues)
  pub live : List (ℕ × (ℕ × ℕ))

abbrev pub new : List ℕ → Tracker
new domain = record { domain = domain; stack_ids = []; stacks = []; live = [] }

abbrev pub is_none {ℓ} : {A : Type ℓ} → Option A → Bool
is_none none = true
is_none (some a) = false

-- An allocation of `size` bytes, before it is freed.
abbrev pub cost_of : ℕ → HeapValues
cost_of size = record zero_values { alloc_objects = 1; alloc_space = size }

abbrev pub in_use : ℕ → HeapValues
in_use size = record zero_values { inuse_objects = 1; inuse_space = size }

-- `self.stacks[id].1 = self.stacks[id].1.checked_add(cost)?`
unfoldable pub charge :
    List (Stack × HeapValues) → ℕ → HeapValues → Heaped (List (Stack × HeapValues))
charge [] i cost = err out_of_bounds
charge ((s, v) ∷ stacks) zero cost = do v' ← checked_add v cost; ok ((s, v') ∷ stacks)
charge ((s, v) ∷ stacks) (suc i) cost = do rest ← charge stacks i cost; ok ((s, v) ∷ rest)

-- The stack's id, and the tables with the cost added.
unfoldable pub assign_id : Tracker → Stack → HeapValues → Option ℕ → Heaped (Tracker × ℕ)
unfolding charge
assign_id t stack cost (some i) = do
  stacks ← charge t.stacks i cost
  ok (record t { stacks = stacks }, i)
assign_id t stack cost none = do
  v ← checked_add zero_values cost
  ok (
    record t {
      stack_ids = insert stack_ord stack (length t.stacks) t.stack_ids;
      stacks = push t.stacks (stack, v);
    },
    length t.stacks,
  )

unfoldable pub allocate : Tracker → ℕ → ℕ → Stack → Heaped Tracker
unfolding assign_id
allocate t address size stack = do
  ensure (not (address == 0)) null_allocation
  ensure (not (is_nil stack)) missing_stack
  ensure (is_none (lookup nat_ord address t.live)) duplicate_live
  (t', i) ← assign_id t stack (cost_of size) (lookup stack_ord stack t.stack_ids)
  ok (record t' { live = insert nat_ord address (size, i) t'.live })

unfoldable pub release : Tracker → ℕ → Heaped Tracker
release t address =
    if address == 0
    then ok t
    else if is_none (lookup nat_ord address t.live)
    then err unknown_free
    else ok (record t { live = remove nat_ord address t.live })

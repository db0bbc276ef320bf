-- ===== src/Heap/Tracker/Accounting.antt =====
-- src/heap/mod.rs, `NativeHeapTracker`: the measurements of a stack are the sums over the log.
use pprofessor.Common.{
  ℕ, zero, suc, List, [], ◌∷◌, push, length, get_elem?, Option, none, some, ok, >>=-eq-ok, ◌==◌,
  true, false, if◌then◌else◌, Bool-cases, Option-cases, inl, inr, ◌≡◌, ◌≢◌, refl, sym, ap, ◌∙◌,
  arith,
}
use pprofessor.Common.Maps.{lookup, insert, lookup-insert, same, same_iff}
use pprofessor.Heap.{
  Stack, stack_ord, HeapValues, zero_values, checked_add, checked_add_ok, sum_values,
}
use pprofessor.Heap.Tracker.{Tracker, charge}

-- The measurement that a tracker has for a stack: none where the stack has no id.
abbrev pub measured : List (Stack × HeapValues) → Option ℕ → HeapValues
measured stacks none = zero_values
measured stacks (some i) = elim (get_elem? stacks i) [ none ↦ zero_values | some (s, v) ↦ v ]

abbrev pub value_at : Tracker → Stack → HeapValues
value_at t s = measured t.stacks (lookup stack_ord s t.stack_ids)

-- Each stack's id is an index of its own entry, so ids of different stacks differ.
pub record IsValid (t : Tracker) : Type 0 where
  pub ids :
      (s : Stack) (i : ℕ)
      → lookup stack_ord s t.stack_ids ≡ some i
      → (v : HeapValues) × (get_elem? t.stacks i ≡ some (s, v))

-- The entry at `j` after the entry at `i` was charged.
abbrev charged : ℕ → ℕ → HeapValues → Option (Stack × HeapValues) → Option (Stack × HeapValues)
charged i j cost none = none
charged i j cost (some (s, v)) = some (s, (if i == j then sum_values v cost else v))

charge-charged :
    (stacks stacks' : List (Stack × HeapValues)) (i : ℕ) (cost : HeapValues)
    → charge stacks i cost ≡ ok stacks'
    → (j : ℕ) → get_elem? stacks' j ≡ charged i j cost (get_elem? stacks j)
unfolding charge
charge-charged [] stacks' i cost h = cc
charge-charged ((s, v) ∷ stacks) stacks' zero cost h =
    let (v', e, f) = >>=-eq-ok (checked_add v cost) _ h in
    let g : (s, v') ∷ stacks ≡ stacks' = cc in rw (← g, (checked_add_ok v cost v' e).0) at_head
  where
    keeps : (o : Option (Stack × HeapValues)) (j : ℕ) → o ≡ charged zero (suc j) cost o
    keeps none j = refl
    keeps (some (s, v)) j = ground arith

    at_head :
        (j : ℕ)
        → get_elem? ((s, sum_values v cost) ∷ stacks) j
          ≡ charged zero j cost (get_elem? ((s, v) ∷ stacks) j)
    at_head zero = refl
    at_head (suc j) = keeps (get_elem? stacks j) j
charge-charged ((s, v) ∷ stacks) stacks' (suc i) cost h =
    let (rest, e, f) = >>=-eq-ok (charge stacks i cost) _ h in
    let g : (s, v) ∷ rest ≡ stacks' = cc in
    rw (← g) (in_tail rest (charge-charged stacks rest i cost e))
  where
    shifted :
        (o : Option (Stack × HeapValues)) (j : ℕ)
        → charged i j cost o ≡ charged (suc i) (suc j) cost o
    shifted none j = refl
    shifted (some (s, v)) j = ground arith

    in_tail :
        (rest : List (Stack × HeapValues))
        → ((j : ℕ) → get_elem? rest j ≡ charged i j cost (get_elem? stacks j))
        → (j : ℕ)
        → get_elem? ((s, v) ∷ rest) j ≡ charged (suc i) j cost (get_elem? ((s, v) ∷ stacks) j)
    in_tail rest ih zero = ground arith
    in_tail rest ih (suc j) = ih j ∙ shifted (get_elem? stacks j) j

-- `IsValid` and the measurements, after the stack's id was found or made.
pub record Assigned (t t' : Tracker) (stack : Stack) (cost : HeapValues) : Type 0 where
  pub valid : IsValid t'
  pub values :
      (s : Stack)
      → value_at t' s
        ≡ (if same stack_ord s stack then sum_values (value_at t s) cost else value_at t s)
  pub live_same : t'.live ≡ t.live

get_elem?-push_last :
    {A : Type 0} (xs : List A) (x : A) → get_elem? (push xs x) (length xs) ≡ some x
get_elem?-push_last [] x = refl
get_elem?-push_last (y ∷ xs) x = get_elem?-push_last xs x

get_elem?-push_old :
    {A : Type 0} (xs : List A) (x : A) (i : ℕ) {y : A}
    → get_elem? xs i ≡ some y
    → get_elem? (push xs x) i ≡ some y
get_elem?-push_old [] x i h = cc
get_elem?-push_old (z ∷ xs) x zero h = h
get_elem?-push_old (z ∷ xs) x (suc i) h = get_elem?-push_old xs x i h

-- Two stacks with one id are one.
ids_injective :
    (t : Tracker) (s s' : Stack) (i : ℕ)
    → IsValid t
    → lookup stack_ord s t.stack_ids ≡ some i
    → lookup stack_ord s' t.stack_ids ≡ some i
    → s ≡ s'
ids_injective t s s' i v h k = let (x, p) = v.ids s i h in let (y, q) = v.ids s' i k in cc

same_refl : (s : Stack) → same stack_ord s s ≡ true
same_refl s = (same_iff stack_ord s s).1 refl

-- Ids tell stacks apart as their order does.
same_id :
    (t : Tracker) (s stack : Stack) (i j : ℕ)
    → IsValid t
    → lookup stack_ord stack t.stack_ids ≡ some i
    → lookup stack_ord s t.stack_ids ≡ some j
    → (i == j) ≡ same stack_ord s stack
same_id t s stack i j v h e = elim (Bool-cases (same stack_ord s stack)) [
  | inl q ↦
      let p : s ≡ stack = (same_iff stack_ord s stack).0 q in
      let ij : i ≡ j = cc (ap (λ x. lookup stack_ord x t.stack_ids) p) in rw q (ground arith)
  | inr q ↦
      rw q (apart (λ ij. cc (same_refl s, q, ids_injective t s stack i v (e ∙ ap some (sym ij)) h)))
]
  where
    apart : i ≢ j → (i == j) ≡ false
    apart ne = ground arith

measured_entry :
    (stacks : List (Stack × HeapValues)) (j : ℕ) (s : Stack) (x : HeapValues)
    → get_elem? stacks j ≡ some (s, x)
    → measured stacks (some j) ≡ x
measured_entry stacks j s x e = rw (e, measured)

pub assign_old :
    (t : Tracker) (stack : Stack) (cost : HeapValues) (i : ℕ) (stacks : List (Stack × HeapValues))
    → IsValid t
    → lookup stack_ord stack t.stack_ids ≡ some i
    → charge t.stacks i cost ≡ ok stacks
    → Assigned t (record t { stacks = stacks }) stack cost
assign_old t stack cost i stacks v h c = record {
  valid = record {
    ids = λ s j e.
        let (x, p) = v.ids s j e in (if i == j then sum_values x cost else x, entry s j x p);
  };
  values = λ s. elim (Option-cases (lookup stack_ord s t.stack_ids)) [
    | inl e ↦ rw (e, unknown s e)
    | inr (j, e) ↦
        let (x, p) = v.ids s j e in
        rw (
          e,
          measured_entry t.stacks j s x p,
          measured_entry stacks j s _ (entry s j x p),
          same_id t s stack i j v h e,
        )
  ];
  live_same = refl;
}
  where
    entry :
        (s : Stack) (j : ℕ) (x : HeapValues)
        → get_elem? t.stacks j ≡ some (s, x)
        → get_elem? stacks j ≡ some (s, (if i == j then sum_values x cost else x))
    entry s j x p = charge-charged t.stacks stacks i cost c j ∙ ap (charged i j cost) p

    unknown : (s : Stack) → lookup stack_ord s t.stack_ids ≡ none → same stack_ord s stack ≡ false
    unknown s e = elim (Bool-cases (same stack_ord s stack)) [
      | inl q ↦ cc (ap (λ x. lookup stack_ord x t.stack_ids) ((same_iff stack_ord s stack).0 q))
      | inr q ↦ q
    ]

pub assign_new :
    (t : Tracker) (stack : Stack) (cost v : HeapValues)
    → IsValid t
    → lookup stack_ord stack t.stack_ids ≡ none
    → v ≡ sum_values zero_values cost
    → Assigned t
        (record t {
          stack_ids = insert stack_ord stack (length t.stacks) t.stack_ids;
          stacks = push t.stacks (stack, v);
        })
        stack
        cost
assign_new t stack cost v w h ve = record {
  valid = record {
    ids = λ s j e. elim (Bool-cases (same stack_ord s stack)) [
      | inl q ↦
          let ps : s ≡ stack = (same_iff stack_ord s stack).0 q in
          let pj : some (length t.stacks) ≡ some j = cc (
            looked s,
            ap (λ b. if b then some (length t.stacks) else lookup stack_ord s t.stack_ids) q,
            e,
          ) in
          (v, rw (ps, ← index pj) (get_elem?-push_last t.stacks (stack, v)))
      | inr q ↦
          let (x, p) = w.ids s j (
            cc (
              looked s,
              ap (λ b. if b then some (length t.stacks) else lookup stack_ord s t.stack_ids) q,
              e,
            )) in
          (x, get_elem?-push_old t.stacks (stack, v) j p)
    ];
  };
  values = λ s. elim (Bool-cases (same stack_ord s stack)) [
    | inl q ↦
        let ps : s ≡ stack = (same_iff stack_ord s stack).0 q in
        rw
          (
            looked s,
            q,
            measured_entry (push t.stacks (stack, v)) (length t.stacks) stack v
                (get_elem?-push_last t.stacks (stack, v)),
            ps,
            h,
          )
          ve
    | inr q ↦ rw (looked s, q) (old s (lookup stack_ord s t.stack_ids) refl)
  ];
  live_same = refl;
}
  where
    index : {a b : ℕ} → some a ≡ some b → a ≡ b
    index e = cc

    looked :
        (s : Stack)
        → lookup stack_ord s (insert stack_ord stack (length t.stacks) t.stack_ids) ≡ (
            if same stack_ord s stack
            then some (length t.stacks)
            else lookup stack_ord s t.stack_ids)
    looked s = lookup-insert stack_ord s stack (length t.stacks) t.stack_ids

    old :
        (s : Stack) (o : Option ℕ)
        → lookup stack_ord s t.stack_ids ≡ o
        → measured (push t.stacks (stack, v)) o ≡ measured t.stacks o
    old s none e = refl
    old s (some j) e =
        let (x, p) = w.ids s j e in
        measured_entry (push t.stacks (stack, v)) j s x (get_elem?-push_old t.stacks (stack, v) j p)
        ∙ sym (measured_entry t.stacks j s x p)

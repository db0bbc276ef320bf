-- ===== src/Heap/Linux/Replay.antt =====
-- src/heap/linux.rs, `LogReader`: the tracker accounts for every allocation record of the log.
use pprofessor.Common.{
  ℕ, zero, suc, List, [], ◌∷◌, ◌++◌, take, drop, Bool, true, false, if◌then◌else◌, Bool-cases, inl,
  inr, ok, err, ◌>>◌, ensure, >>=-eq-ok, ◌≡◌, refl, sym, ap, ◌∙◌, ◌&&◌, leb,
}
use pprofessor.Heap.{Stack, HeapValues, zero_values, Heaped}
use pprofessor.Heap.Tracker
use pprofessor.Heap.Tracker.{Tracker, cost_of}
use pprofessor.Heap.Tracker.Accounting.{value_at}
use pprofessor.Heap.Tracker.Log
use pprofessor.Heap.Tracker.Log.{Event, allocated, released, run_accounts}
use pprofessor.Heap.Linux.{
  LogReader, word, native_text, record_length, stack_of, frees, freed_address, allocates, freed,
  free_event, allocated_in, allocate_event, read_event, read_events, corrupt_depth, unknown_record,
}

-- The allocation of a record, if it has one.
abbrev pub allocation : List ℕ → List Event
allocation event =
    if allocates event then allocated (word event 8) (word event 24) (stack_of event) ∷ [] else []

-- The allocations of the first `n` records.
unfoldable pub allocations : ℕ → List ℕ → List Event
allocations zero bytes = []
allocations (suc n) bytes =
    allocation (take record_length bytes) ++ allocations n (drop record_length bytes)

-- Events without the frees.
abbrev without_frees : List Event → List Event
without_frees [] = []
without_frees (allocated address size stack ∷ log) =
    allocated address size stack ∷ without_frees log
without_frees (released address ∷ log) = without_frees log

without_frees-append :
    (xs ys : List Event) → without_frees (xs ++ ys) ≡ without_frees xs ++ without_frees ys
without_frees-append [] ys = refl
without_frees-append (allocated a n s ∷ xs) ys =
    ap (λ l. allocated a n s ∷ l) (without_frees-append xs ys)
without_frees-append (released a ∷ xs) ys = without_frees-append xs ys

costs-without_frees :
    (s : Stack) (log : List Event) (v : HeapValues)
    → Log.costs s (without_frees log) v ≡ Log.costs s log v
unfolding Log.costs
costs-without_frees s [] v = refl
costs-without_frees s (allocated a n t ∷ log) v = costs-without_frees s log _
costs-without_frees s (released a ∷ log) v = costs-without_frees s log v

run-append :
    (t u : Tracker) (xs ys : List Event) → Log.run t xs ≡ ok u → Log.run t (xs ++ ys) ≡ Log.run u ys
unfolding Log.run
run-append t u [] ys h = let e : t ≡ u = cc in ap (λ x. Log.run x ys) e
run-append t u (x ∷ xs) ys h =
    let (w, e, k) = >>=-eq-ok (Log.step t x) (λ z. Log.run z xs) h in rw e (run-append w u xs ys k)

-- A log of events that leads from one tracker to the other, with these allocations.
record Replayed (t u : Tracker) (allocs : List Event) : Type 0 where
  log : List Event
  runs : Log.run t log ≡ ok u
  same_allocations : without_frees log ≡ allocs

Replayed-append :
    (t u w : Tracker) (xs ys : List Event)
    → Replayed t u xs
    → Replayed u w ys
    → Replayed t w (xs ++ ys)
Replayed-append t u w xs ys h k = record {
  log = h.log ++ k.log;
  runs = run-append t u h.log k.log h.runs ∙ k.runs;
  same_allocations =
      without_frees-append h.log k.log ∙ rw (h.same_allocations, k.same_allocations) refl;
}

freed-Replayed :
    (r : LogReader) (a : ℕ) (m : Heaped Tracker)
    → Tracker.release r.tracker a ≡ m
    → Replayed r.tracker (freed r m).tracker []
unfolding Log.run
freed-Replayed r a (ok t) e = record {
  log = released a ∷ [];
  runs = rw e refl;
  same_allocations = refl;
}
freed-Replayed r a (err x) e = record { log = []; runs = refl; same_allocations = refl }

free_event-Replayed :
    (event : List ℕ) (r : LogReader) → Replayed r.tracker (free_event event r).tracker []
unfolding Log.run
free_event-Replayed event r = elim (Bool-cases (frees event)) [
  | inl e ↦ rw e (
      freed-Replayed r (freed_address event) (Tracker.release r.tracker (freed_address event)) refl)
  | inr e ↦ rw e (record { log = []; runs = refl; same_allocations = refl })
]

allocate_event-Replayed :
    (event : List ℕ) (r r' : LogReader)
    → allocate_event event r ≡ ok r'
    → Replayed r.tracker r'.tracker (allocation event)
unfolding Log.run
allocate_event-Replayed event r r' h = by_test (allocates event) h
  where
    m : Heaped Tracker
    m = Tracker.allocate r.tracker (word event 8) (word event 24) (stack_of event)

    by_result :
        (x : Heaped Tracker)
        → m ≡ x
        → allocated_in r x ≡ ok r'
        → Replayed r.tracker r'.tracker
            (allocated (word event 8) (word event 24) (stack_of event) ∷ [])
    by_result (ok t) e k =
        let q : record r { tracker = t } ≡ r' = cc in
        rw (← q) (record {
          log = allocated (word event 8) (word event 24) (stack_of event) ∷ [];
          runs = rw e refl;
          same_allocations = refl;
        })
    by_result (err x) e k = cc

    by_test :
        (b : Bool)
        → (if b then allocated_in r m else ok r) ≡ ok r'
        → Replayed r.tracker r'.tracker
            (if b then allocated (word event 8) (word event 24) (stack_of event) ∷ [] else [])
    by_test true k = by_result m refl k
    by_test false k =
        let q : r ≡ r' = cc in rw (← q) (record { log = []; runs = refl; same_allocations = refl })

read_event-Replayed :
    (event : List ℕ) (r r' : LogReader)
    → read_event event r ≡ ok r'
    → Replayed r.tracker r'.tracker (allocation event)
unfolding read_event
read_event-Replayed event r r' h =
    let (u, e, k) = >>=-eq-ok (ensure (leb (word event 32) 64) corrupt_depth) _ h in
    let (w, f, l) = >>=-eq-ok (allocate_event event (free_event event r)) _ k in
    let q : w ≡ r' = last_check (leb 1 (word event 0) && leb (word event 0) 3) w l in
    rw (← q) (
      Replayed-append r.tracker (free_event event r).tracker w.tracker [] (allocation event)
        (free_event-Replayed event r) (allocate_event-Replayed event (free_event event r) w f))
  where
    last_check : (b : Bool) (w : LogReader) → (do ensure b unknown_record; ok w) ≡ ok r' → w ≡ r'
    last_check true w l = cc
    last_check false w l = cc

read_events-Replayed :
    (n : ℕ) (bytes : List ℕ) (r r' : LogReader)
    → read_events n bytes r ≡ ok r'
    → Replayed r.tracker r'.tracker (allocations n bytes)
unfolding read_events allocations Log.run
read_events-Replayed zero bytes r r' h =
    let q : r ≡ r' = cc in rw (← q) (record { log = []; runs = refl; same_allocations = refl })
read_events-Replayed (suc n) bytes r r' h =
    let (w, e, k) =
      >>=-eq-ok (read_event (take record_length bytes) r)
        (λ x. read_events n (drop record_length bytes) x) h in
    Replayed-append r.tracker w.tracker r'.tracker (allocation (take record_length bytes))
      (allocations n (drop record_length bytes))
      (read_event-Replayed (take record_length bytes) r w e)
      (read_events-Replayed n (drop record_length bytes) w r' k)

-- When a new reader has read records without an error, every stack's measurements in its tracker are
-- the costs of exactly the allocation records with that stack, whatever frees the log has, also of
-- blocks that were allocated before it.
pub read_events-costs :
    (n pid : ℕ) (bytes : List ℕ) (r : LogReader)
    → read_events n bytes
        (record { tracker = Tracker.new native_text; pid = pid; initial_frees = 0 })
      ≡ ok r
    → (s : Stack) → value_at r.tracker s ≡ Log.costs s (allocations n bytes) zero_values
read_events-costs n pid bytes r h s =
    let w =
      read_events-Replayed n bytes
        (record { tracker = Tracker.new native_text; pid = pid; initial_frees = 0 }) r h in
    (run_accounts native_text w.log r.tracker w.runs).0 s
    ∙ sym (costs-without_frees s w.log zero_values)
    ∙ ap (λ l. Log.costs s l zero_values) w.same_allocations

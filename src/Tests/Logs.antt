-- ===== src/Tests/Logs.antt =====
-- Runs of src/heap/linux.rs on concrete inputs.
use pprofessor.Common.{ℕ, zero, suc, List, [], ◌∷◌, ◌++◌, true, ok, ◌≡◌, refl}
use pprofessor.Common.Maps.{insert, lookup}
use pprofessor.Heap.{Stack, no_frame, zero_values, checked_add, stack_ord}
use pprofessor.Heap.Tracker
use pprofessor.Heap.Tracker.Accounting.{value_at}
use pprofessor.Heap.Tracker.Log
use pprofessor.Heap.Linux.{LogReader, native_text, open_log, read_events, log_magic}
use pprofessor.Heap.Linux.Replay.{allocations, read_events-costs}

abbrev zeros : ℕ → List ℕ
zeros zero = []
zeros (suc n) = 0 ∷ zeros n

abbrev small_word : ℕ → List ℕ
small_word n = n ∷ zeros 7

-- An allocation of 16 bytes at the address 8, called from the address 9.
abbrev one_record : List ℕ
one_record =
    small_word 1
    ++ small_word 8
    ++ small_word 0
    ++ small_word 16
    ++ small_word 1
    ++ small_word 9
    ++ zeros 504

abbrev new_reader : LogReader
new_reader = record { tracker = Tracker.new native_text; pid = 7; initial_frees = 0 }

log_opens :
    open_log 7 true (log_magic ++ small_word 1 ++ small_word 7 ++ small_word 0) ≡ ok new_reader
unfolding open_log
log_opens = refl

abbrev caller : Stack
caller = record no_frame { address = 9 } ∷ []

abbrev read_once : LogReader
read_once = record new_reader {
  tracker = record {
    domain = native_text;
    stack_ids = (caller, 0) ∷ [];
    stacks =
        (caller, record { alloc_objects = 1; alloc_space = 16; inuse_objects = 0; inuse_space = 0 })
        ∷ [];
    live = (8, (16, 0)) ∷ [];
  };
}

record_reads : read_events 1 one_record new_reader ≡ ok read_once
unfolding read_events Tracker.allocate checked_add stack_ord lookup insert
record_reads = refl

read_events-costs_example :
    value_at read_once.tracker caller ≡ Log.costs caller (allocations 1 one_record) zero_values
read_events-costs_example = read_events-costs 1 7 one_record read_once record_reads caller

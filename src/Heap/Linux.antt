-- ===== src/Heap/Linux.antt =====
-- src/heap/linux.rs, `LogReader`: the recorder's allocation log, read into a tracker. The file is the
-- environment: `open_log` (`LogReader::open`) is given its first bytes, and a read the status word and the bytes that follow
-- the records read before.
pub mod Replay
use pprofessor.Common.{
  Option, none, some, ltb, map, ℕ, zero, suc, ◌+◌, ◌*◌, ◌/◌, ◌%◌, List, [], ◌∷◌, ◌++◌, length, take,
  drop, beq, leb, ◌==◌, ◌&&◌, ◌||◌, not, Bool, true, false, if◌then◌else◌, Result, ok, err, ◌>>=◌,
  ◌>>◌, ensure,
}
use pprofessor.Common.Int.{ℤ, pos}
use pprofessor.Common.Maps.{insert}
use pprofessor.Symbolicated.{FrameInfo}
use pprofessor.Heap.Snapshot
use pprofessor.Heap.Snapshot.{HeapProfile}
use pprofessor.Heap.{
  HeapMapping, HeapValues, stack_ord, HeapFrame, no_frame, Stack, HeapError, Heaped,
}
use pprofessor.Heap.Tracker
use pprofessor.Heap.Tracker.{Tracker}

-- One constructor for each message, and `of_tracker` for an error of the tracker.
pub data LogError : Type 0 where
  short_header unsupported_log other_pid not_private : LogError
  exec_replaced lost_events invalid_status incomplete_record corrupt_depth unknown_record : LogError
  of_tracker : HeapError → LogError

abbrev pub Logged {ℓ} : Type ℓ → Type ℓ
Logged A = Result LogError A

pub record LogReader : Type 0 where
  pub tracker : Tracker
  pub pid : ℕ
  pub initial_frees : ℕ

-- `u64::from_le_bytes`
abbrev pub from_le : List ℕ → ℕ
from_le [] = 0
from_le (b ∷ bs) = b + 256 * from_le bs

abbrev pub word : List ℕ → ℕ → ℕ
word bytes offset = from_le (take 8 (drop offset bytes))

-- The texts `PPHEAP01`, `native` and `[unavailable allocation stack]`.
abbrev pub log_magic : List ℕ
log_magic = 80 ∷ 80 ∷ 72 ∷ 69 ∷ 65 ∷ 80 ∷ 48 ∷ 49 ∷ []

abbrev pub native_text : List ℕ
native_text = 110 ∷ 97 ∷ 116 ∷ 105 ∷ 118 ∷ 101 ∷ []

abbrev pub unavailable_text : List ℕ
unavailable_text =
    91 ∷ 117 ∷ 110 ∷ 97 ∷ 118 ∷ 97 ∷ 105 ∷ 108 ∷ 97 ∷ 98 ∷ 108 ∷ 101 ∷ 32 ∷ 97 ∷ 108 ∷ 108 ∷ 111
    ∷ 99 ∷ 97 ∷ 116 ∷ 105 ∷ 111 ∷ 110 ∷ 32 ∷ 115 ∷ 116 ∷ 97 ∷ 99 ∷ 107 ∷ 93 ∷ []

-- `private`: the file is the current user's, and no one else may read or write it.
unfoldable pub open_log : ℕ → Bool → List ℕ → Logged LogReader
open_log pid private file = do
  ensure (leb 32 (length file)) short_header
  ensure (beq (take 8 file) log_magic && word file 8 == 1) unsupported_log
  ensure (word file 16 == pid) other_pid
  ensure private not_private
  ok (record { tracker = Tracker.new native_text; pid = pid; initial_frees = 0 })

-- The length of a record in bytes.
abbrev pub record_length : ℕ
record_length = 69 * 8

-- The frames of the record's `depth` words from the one with number `i` on.
unfoldable pub frames_of : List ℕ → ℕ → ℕ → Stack
frames_of event i zero = []
frames_of event i (suc depth) =
    record no_frame { address = word event (40 + i * 8) } ∷ frames_of event (i + 1) depth

abbrev pub or_unavailable : Stack → Stack
or_unavailable [] = record no_frame { function = unavailable_text } ∷ []
or_unavailable (f ∷ fs) = f ∷ fs

abbrev pub stack_of : List ℕ → Stack
stack_of event = or_unavailable (frames_of event 0 (word event 32))

abbrev pub frees : List ℕ → Bool
frees event = word event 0 == 2 || (word event 0 == 3 && not (word event 16 == 0))

abbrev pub freed_address : List ℕ → ℕ
freed_address event = if word event 0 == 2 then word event 8 else word event 16

abbrev pub allocates : List ℕ → Bool
allocates event = (word event 0 == 1 || word event 0 == 3) && not (word event 8 == 0)

-- A free that the tracker does not know came before the log.
abbrev pub freed : LogReader → Heaped Tracker → LogReader
freed r (ok t) = record r { tracker = t }
freed r (err e) = record r { initial_frees = r.initial_frees + 1 }

abbrev pub free_event : List ℕ → LogReader → LogReader
free_event event r =
    if frees event then freed r (Tracker.release r.tracker (freed_address event)) else r

abbrev pub allocated_in : LogReader → Heaped Tracker → Logged LogReader
allocated_in r (ok t) = ok (record r { tracker = t })
allocated_in r (err e) = err (of_tracker e)

abbrev pub allocate_event : List ℕ → LogReader → Logged LogReader
allocate_event event r =
    if allocates event
    then allocated_in r (Tracker.allocate r.tracker (word event 8) (word event 24) (stack_of event))
    else ok r

unfoldable pub read_event : List ℕ → LogReader → Logged LogReader
unfolding frames_of
read_event event r = do
  ensure (leb (word event 32) 64) corrupt_depth
  r' ← allocate_event event (free_event event r)
  ensure (leb 1 (word event 0) && leb (word event 0) 3) unknown_record
  ok r'

unfoldable pub read_events : ℕ → List ℕ → LogReader → Logged LogReader
unfolding read_event
read_events zero bytes r = ok r
read_events (suc n) bytes r = do
  r' ← read_event (take record_length bytes) r
  read_events n (drop record_length bytes) r'

-- The part of `snapshot` that reads the records; `status` is the word at the offset 24.
unfoldable pub read_log : Bool → ℕ → List ℕ → LogReader → Logged LogReader
unfolding read_events
read_log final_read status bytes r = do
  ensure (not (status == 3)) exec_replaced
  ensure (not (status == 1)) lost_events
  ensure (status == 0 || status == 2) invalid_status
  ensure (not final_read || length bytes % record_length == 0) incomplete_record
  read_events (length bytes / record_length) bytes r

-- `mappings.iter().find(…)`: the first mapping that holds the address.
unfoldable pub mapping_of : ℕ → List HeapMapping → Option HeapMapping
mapping_of address [] = none
mapping_of address (m ∷ ms) =
    if leb m.memory_start address && ltb address m.memory_limit
    then some m
    else mapping_of address ms

abbrev pub with_symbol : Option FrameInfo → HeapFrame → HeapFrame
with_symbol none f = f
with_symbol (some info) f = record f {
  function = info.function;
  file = info.file;
  line = pos info.line;
}

-- A frame gets its mapping, and its names where the symbolizer has them.
unfoldable pub name_frame : List HeapMapping → (ℕ → Option FrameInfo) → HeapFrame → HeapFrame
unfolding mapping_of
name_frame mappings symbolize_frame f =
    with_symbol (symbolize_frame f.address) (record f { mapping = mapping_of f.address mappings })

-- The samples with named frames, collected into a `BTreeMap`.
unfoldable pub name_samples :
    List HeapMapping
    → (ℕ → Option FrameInfo)
    → List (Stack × HeapValues)
    → List (Stack × HeapValues)
    → List (Stack × HeapValues)
unfolding name_frame
name_samples mappings symbolize_frame [] named = named
name_samples mappings symbolize_frame ((stack, values) ∷ samples) named =
    name_samples mappings symbolize_frame samples
      (insert stack_ord (map (name_frame mappings symbolize_frame) stack) values named)

abbrev pub from_tracker {ℓ} : {A : Type ℓ} → Heaped A → Logged A
from_tracker (ok x) = ok x
from_tracker (err e) = err (of_tracker e)

-- `now` is the clock's time; the mappings and the symbolizer are those of the process.
unfoldable pub snapshot :
    List HeapMapping
    → (ℕ → Option FrameInfo)
    → ℤ
    → Bool
    → ℕ
    → List ℕ
    → LogReader
    → Logged (LogReader × HeapProfile)
unfolding read_log name_samples
snapshot mappings symbolize_frame now final_read status bytes r = do
  r' ← read_log final_read status bytes r
  p ← from_tracker (Snapshot.snapshot now r'.tracker)
  ok (r', record p { samples = name_samples mappings symbolize_frame p.samples [] })

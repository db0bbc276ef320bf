-- ===== src/Symbolicated/FromRaw.antt =====
-- src/symbolicated.rs, `SymbolicatedProfile::from_raw_with_symbolizer`. `symbolize` is the symbolizer's
-- `symbolize_frame`; the sets of addresses are lists, of whose order nothing is used.
use pprofessor.Common.{
  ℕ, zero, suc, ◌+◌, ◌-◌, ◌/◌, ◌%◌, List, [], ◌∷◌, ◌++◌, map, is_nil, ltb, Option, none, some,
  if◌then◌else◌,
}
use pprofessor.Common.Ord.{nat_ord}
use pprofessor.Common.Maps.{insert}
use pprofessor.Common.Sets.{contains, push_new}
use pprofessor.Symbolicated.{
  Unresolved, hex, skip, StackFrame, FrameInfo, Sample, RawSampleSeries, RawProfile,
  SymbolicatedProfile,
}

-- The character of a hexadecimal digit.
abbrev pub hex_digit : ℕ → ℕ
hex_digit d = if ltb d 10 then 48 + d else 87 + d

-- `{:0nx}` of a number that has no more than `n` digits.
unfoldable pub hex_digits : ℕ → ℕ → List ℕ
hex_digits zero v = []
hex_digits (suc n) v = hex_digits n (v / 16) ++ (hex_digit (v % 16) ∷ [])

-- `format!("0x{addr:016x}")`
unfoldable pub hex_name : ℕ → List ℕ
unfolding hex_digits
hex_name a = 48 ∷ 120 ∷ hex_digits 16 a

module _ (symbolize : ℕ → Option FrameInfo) (unresolved : Unresolved) where
  abbrev pub unresolved_frame : ℕ → Unresolved → Option StackFrame
  unresolved_frame a skip = none
  unresolved_frame a hex = some (record { address = a; function = hex_name a; file = []; line = 0 })

  -- The frame that an address gets, or none where it is put in the skip set.
  abbrev pub frame_of : ℕ → Option FrameInfo → Option StackFrame
  frame_of a none = unresolved_frame a unresolved
  frame_of a (some i) =
      some (record { address = a; function = i.function; file = i.file; line = i.line })

  abbrev pub insert_frame : ℕ → Option StackFrame → List (ℕ × StackFrame) → List (ℕ × StackFrame)
  insert_frame a none frames = frames
  insert_frame a (some f) frames = insert nat_ord a f frames

  unfoldable pub frames_from : List ℕ → List (ℕ × StackFrame) → List (ℕ × StackFrame)
  frames_from [] frames = frames
  frames_from (a ∷ addrs) frames =
      frames_from addrs (insert_frame a (frame_of a (symbolize a)) frames)

  abbrev pub skip_one : ℕ → Option StackFrame → List ℕ → List ℕ
  skip_one a none set = push_new set a
  skip_one a (some f) set = set

  unfoldable pub skip_set : List ℕ → List ℕ → List ℕ
  skip_set [] set = set
  skip_set (a ∷ addrs) set = skip_set addrs (skip_one a (frame_of a (symbolize a)) set)

-- The different addresses of all stacks.
unfoldable pub add_addrs : List ℕ → List ℕ → List ℕ
add_addrs set [] = set
add_addrs set (a ∷ stack) = add_addrs (push_new set a) stack

unfoldable pub all_addrs : List ((ℕ × List ℕ) × RawSampleSeries) → List ℕ → List ℕ
all_addrs [] set = set
all_addrs (((thread, stack), series) ∷ stacks) set = all_addrs stacks (add_addrs set stack)

unfoldable pub drop_skipped : List ℕ → List ℕ → List ℕ
drop_skipped set [] = []
drop_skipped set (a ∷ stack) =
    let rest = drop_skipped set stack in if contains a set then rest else a ∷ rest

abbrev pub samples_at : ℕ → List ℕ → ℕ → Option (List ℕ) → List Sample
samples_at thread stack count (some timestamps) =
    map (λ t. record { thread_id = thread; stack = stack; count = 1; timestamp_nanos = some t })
      timestamps
samples_at thread stack count none =
    record { thread_id = thread; stack = stack; count = count; timestamp_nanos = none } ∷ []

abbrev pub samples_of : ℕ → List ℕ → RawSampleSeries → List Sample
samples_of thread stack series =
    if is_nil stack then [] else samples_at thread stack series.count series.timestamps_nanos

unfoldable pub samples_from : List ℕ → List ((ℕ × List ℕ) × RawSampleSeries) → List Sample
unfolding drop_skipped
samples_from set [] = []
samples_from set (((thread, stack), series) ∷ stacks) =
    samples_of thread (drop_skipped set stack) series ++ samples_from set stacks

-- `duration_since` of an earlier end is zero.
unfoldable pub from_raw_with_symbolizer :
    RawProfile → (ℕ → Option FrameInfo) → Unresolved → ℕ → ℕ → SymbolicatedProfile
unfolding frames_from skip_set all_addrs samples_from
from_raw_with_symbolizer raw symbolize unresolved freq_hz start_wall =
    let addrs = all_addrs raw.stacks [] in
    record {
      images = raw.images;
      frames = frames_from symbolize unresolved addrs [];
      threads = raw.thread_names;
      samples = samples_from (skip_set symbolize unresolved addrs []) raw.stacks;
      start_time = start_wall;
      duration = raw.end_time - raw.start_time;
      freq_hz = freq_hz;
    }

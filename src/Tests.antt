-- ===== src/Tests.antt =====
-- Runs of src/pprof.rs, src/stream.rs, src/heap/mod.rs, src/symbolicated.rs and src/sampler/mod.rs on
-- concrete inputs.
mod Heaps
mod Reports
mod Sessions
mod Logs
mod Symbols
use Prim.Native.Nat.{max}
use pprofessor.Common.{
  ℕ, ◌+◌, ◌^◌, ◌<◌, List, [], ◌∷◌, ◌++◌, length, map, true, Option, ◌≡◌, ◌⊎◌, ◌≢◌, ◌↔◌, refl, arith,
  ok, err, some, none, if◌then◌else◌,
}
use pprofessor.Common.Int.{pos}
use pprofessor.Wire.Encode
use pprofessor.Wire.Decode
use pprofessor.Wire.Decode.{invalid_string_table}
use pprofessor.Wire.Varint.{after, read_varint-encode_varint}
use pprofessor.Pprof.StringTable
use pprofessor.Pprof.StringTable.Laws.{
  IsCanonical, Interned, intern-Interned, new-IsCanonical, StartsEmpty, IsIndexed,
  from_strings_cases,
}
use pprofessor.Pprof.Utf8
use pprofessor.Pprof.ValueType
use pprofessor.Pprof.Label
use pprofessor.Pprof.Sample
use pprofessor.Pprof.Line
use pprofessor.Pprof.Location
use pprofessor.Pprof.Profile
use pprofessor.Pprof.Profile.{PprofProfile}
use pprofessor.Pprof.Profile.Fields
use pprofessor.Pprof.Profile.RoundTrip.{kept, decode-encode_profile}
use pprofessor.Report.Analyze.{from_profile}
use pprofessor.Report.Bytes.{from_pprof, from_reported, compressed, from_pprof-encode}
use pprofessor.Pprof.Profile.Total.{decode-ne-out_of_fuel}
use pprofessor.Pprof.Profile.Kept.{IsWhole, round_trip_iff}
use pprofessor.Heap.{
  no_frame, Stack, stack_ord, HeapValues, zero_values, checked_add, checked_add_iff, FitsInt64,
  sum_values,
}
use pprofessor.Heap.Tracker
use pprofessor.Heap.Tracker.Log
use pprofessor.Heap.Tracker.Log.{Event, allocated, released, run_accounts}
use pprofessor.Heap.Tracker.Accounting.{value_at}
use pprofessor.Heap.Snapshot.{HeapProfile, new_profile, or_zero, add_sample, lookup-add_sample}
use pprofessor.Common.Maps.{lookup, insert, remove, same}
use pprofessor.Common.Sets.{contains, distinct}
use pprofessor.Symbolicated
use pprofessor.Symbolicated.{SymbolicatedProfile, TreeNode, RawProfile, FrameInfo}
use pprofessor.Symbolicated.FromRaw.{frame_of}
use pprofessor.Symbolicated.Tree.{addresses, below_some, children-addresses}
use pprofessor.Symbolicated.Counts.{sum, total_count-children}
use pprofessor.Cursor.{seen, delta, peak, seen-delta}
use pprofessor.Stream
use pprofessor.Stream.{StreamHeader, FrameKind, profile_checkpoint}
use pprofessor.Stream.RoundTrip.{decode-encode_header, try_from_iff}
use pprofessor.Stream.Publisher
use pprofessor.Stream.Publisher.Sequence
use pprofessor.Stream.Publisher.Sequence.{Call, session, session-IsValid}

read_varint-encode_varint_example :
    Decode.read_varint (after 3 (Encode.encode_varint [] 300 ++ (7 ∷ [])))
    ≡ ok (300, after (3 + length (Encode.encode_varint [] 300)) (7 ∷ []))
read_varint-encode_varint_example = read_varint-encode_varint 300 3 (7 ∷ []) (omega arith)

abbrev cpu : List ℕ
cpu = 99 ∷ 112 ∷ 117 ∷ []

intern-Interned_example :
    Interned StringTable.new cpu
      (StringTable.intern StringTable.new cpu).0
      (StringTable.intern StringTable.new cpu).1
intern-Interned_example = intern-Interned StringTable.new cpu new-IsCanonical

abbrev cpu_table : StringTable.StringTable
cpu_table = record { strings = [] ∷ cpu ∷ []; indices = ([], 0) ∷ (cpu, 1) ∷ [] }

cpu_table-IsCanonical : IsCanonical cpu_table
unfolding StringTable.index_from
cpu_table-IsCanonical = record { starts_empty = refl; indexed = refl }

from_strings_cases_example :
    (StartsEmpty ([] ∷ cpu ∷ [])
      × ((t : StringTable.StringTable) × (StringTable.from_strings ([] ∷ cpu ∷ []) ≡ ok t)
          × IsIndexed ([] ∷ cpu ∷ []) t))
    ⊎ ((¬ StartsEmpty ([] ∷ cpu ∷ []))
        × (StringTable.from_strings ([] ∷ cpu ∷ []) ≡ err invalid_string_table))
from_strings_cases_example = from_strings_cases ([] ∷ cpu ∷ [])

abbrev small_profile : PprofProfile
small_profile = record Profile.new {
  strings = cpu_table;
  value_types = record { type = 1; unit = 1 } ∷ [];
  samples =
      record {
        location_ids = 1 ∷ [];
        values = pos 300 ∷ [];
        labels = record Label.default { key = 1; num = pos 9 } ∷ Label.default ∷ [];
      }
      ∷ [];
  locations = record Location.default { id = 1; address = 4096; lines = Line.default ∷ [] } ∷ [];
  comments = 1 ∷ 0 ∷ [];
}

small_profile-IsInRange : Fields.IsInRange small_profile
unfolding Utf8.is_utf8
small_profile-IsInRange = record {
  value_types_fit = (record { type_fits = omega arith; unit_fits = omega arith }, tt);
  samples_fit = (
    record {
      location_ids_fit = (omega arith, tt);
      values_fit = (omega arith, tt);
      labels_fit = (
        record {
          key_fits = omega arith;
          str_index_fits = omega arith;
          num_fits = omega arith;
          num_unit_fits = omega arith;
        },
        (
          record {
            key_fits = omega arith;
            str_index_fits = omega arith;
            num_fits = omega arith;
            num_unit_fits = omega arith;
          },
          tt,
        ),
      );
    },
    tt,
  );
  mappings_fit = tt;
  locations_fit = (
    record {
      id_fits = omega arith;
      mapping_id_fits = omega arith;
      address_fits = omega arith;
      lines_fit = (
        record {
          function_id_fits = omega arith;
          line_fits = omega arith;
          column_fits = omega arith;
        },
        tt,
      );
    },
    tt,
  );
  functions_fit = tt;
  strings_text = (refl, (refl, tt));
  strings_canonical = cpu_table-IsCanonical;
  drop_frames_fits = omega arith;
  keep_frames_fits = omega arith;
  time_nanos_fits = omega arith;
  duration_nanos_fits = omega arith;
  period_type_fits = record { type_fits = omega arith; unit_fits = omega arith };
  period_fits = omega arith;
  comments_fit = (omega arith, (omega arith, tt));
  default_sample_type_fits = omega arith;
  doc_url_fits = omega arith;
}

small_profile-length : length (Profile.encode small_profile) ≡ 37
unfolding Profile.encode ValueType.encode Sample.encode Label.encode Location.encode Line.encode
    Encode.encode_varint Encode.encode_messages Encode.encode_varint_field
    Encode.encode_sint64_field Encode.encode_length_delimited Encode.encode_string_field
    Encode.encode_packed_u64 Encode.encode_packed_i64 Encode.encode_varints Encode.encode_sint64s
small_profile-length = refl

small_profile-length_fits : length (Profile.encode small_profile) < 2 ^ 64
small_profile-length_fits = rw small_profile-length (omega arith)

decode-encode_profile_example :
    Profile.decode (Profile.encode small_profile) ≡ ok (kept small_profile)
decode-encode_profile_example =
    decode-encode_profile small_profile small_profile-IsInRange small_profile-length_fits

-- Stands for a decompressor: it takes off the first two bytes.
abbrev strip_magic : List ℕ → Option (List ℕ)
strip_magic [] = none
strip_magic (x ∷ []) = none
strip_magic (x ∷ y ∷ bytes) = some bytes

from_pprof-encode_example :
    from_pprof strip_magic (31 ∷ 139 ∷ Profile.encode small_profile) (some cpu)
    ≡ from_reported (from_profile (kept small_profile) (some cpu))
from_pprof-encode_example =
    from_pprof-encode strip_magic small_profile (some cpu) (31 ∷ 139 ∷ Profile.encode small_profile)
      small_profile-IsInRange small_profile-length_fits
      (compressed (Profile.encode small_profile) refl refl)

round_trip_iff_example :
    (Profile.decode (Profile.encode small_profile) ≡ ok small_profile) ↔ IsWhole small_profile
round_trip_iff_example =
    round_trip_iff small_profile small_profile-IsInRange small_profile-length_fits

decode-ne-out_of_fuel_example : Profile.decode (10 ∷ 200 ∷ []) ≢ err Decode.out_of_fuel
decode-ne-out_of_fuel_example = decode-ne-out_of_fuel (10 ∷ 200 ∷ [])

abbrev checkpoint_header : StreamHeader
checkpoint_header = record {
  major = 1;
  minor = 0;
  kind = profile_checkpoint;
  flags = 0;
  sequence = 70000;
  payload_len = 12;
}

decode-encode_header_example :
    Stream.decode (Stream.encode checkpoint_header) ≡ ok checkpoint_header
decode-encode_header_example = decode-encode_header checkpoint_header (record {
  major_fits = omega arith;
  minor_fits = omega arith;
  flags_fits = omega arith;
  sequence_fits = omega arith;
  payload_len_fits = omega arith;
})

try_from_iff_example :
    (Stream.try_from 2 ≡ ok profile_checkpoint) ↔ (2 ≡ Stream.kind_code profile_checkpoint)
try_from_iff_example = try_from_iff 2 profile_checkpoint

abbrev two_calls : List Call
two_calls =
    record {
      answers = record {
        connects = Publisher.opened;
        greets = Publisher.sent;
        writes = Publisher.sent;
      };
      kind = profile_checkpoint;
      payload = 1 ∷ 2 ∷ [];
    }
    ∷ record {
      answers = record {
        connects = Publisher.refused;
        greets = Publisher.sent;
        writes = Publisher.sent;
      };
      kind = profile_checkpoint;
      payload = [];
    }
    ∷ []

session-IsValid_example : Sequence.IsValid (session (Publisher.new (9 ∷ [])) two_calls)
session-IsValid_example = session-IsValid (9 ∷ []) two_calls (omega arith)

abbrev leaf : Stack
leaf = record no_frame { address = 4096 } ∷ []

abbrev short_log : List Event
short_log = allocated 16 32 leaf ∷ allocated 64 8 leaf ∷ released 16 ∷ []

abbrev after_short_log : Tracker.Tracker
after_short_log = record {
  domain = cpu;
  stack_ids = (leaf, 0) ∷ [];
  stacks =
      (leaf, record { alloc_objects = 2; alloc_space = 40; inuse_objects = 0; inuse_space = 0 })
      ∷ [];
  live = (64, (8, 0)) ∷ [];
}

short_log_runs : Log.run (Tracker.new cpu) short_log ≡ ok after_short_log
unfolding Log.run Tracker.allocate Tracker.release checked_add stack_ord lookup insert remove
short_log_runs = refl

run_accounts_example :
    ((s : Stack) → value_at after_short_log s ≡ Log.costs s short_log zero_values)
    × ((a : ℕ) → a ≢ 0 → Log.size_at after_short_log a ≡ Log.sizes a short_log none)
run_accounts_example = run_accounts cpu short_log after_short_log short_log_runs

abbrev two_blocks : HeapValues
two_blocks = record { alloc_objects = 2; alloc_space = 40; inuse_objects = 1; inuse_space = 8 }

checked_add_iff_example :
    (checked_add two_blocks two_blocks ≡ ok (sum_values two_blocks two_blocks)) ↔ (
      (sum_values two_blocks two_blocks ≡ sum_values two_blocks two_blocks)
      × FitsInt64 (sum_values two_blocks two_blocks))
checked_add_iff_example = checked_add_iff two_blocks two_blocks (sum_values two_blocks two_blocks)

abbrev one_sample : HeapProfile
one_sample = record (new_profile (pos 0) cpu) { samples = (leaf, two_blocks) ∷ [] }

one_sample_added : add_sample (new_profile (pos 0) cpu) leaf two_blocks ≡ ok one_sample
unfolding add_sample checked_add stack_ord lookup insert
one_sample_added = refl

lookup-add_sample_example : lookup stack_ord leaf one_sample.samples ≡ (
    if same stack_ord leaf leaf
    then some
        (sum_values (or_zero (lookup stack_ord leaf (new_profile (pos 0) cpu).samples)) two_blocks)
    else lookup stack_ord leaf (new_profile (pos 0) cpu).samples)
lookup-add_sample_example =
    lookup-add_sample (new_profile (pos 0) cpu) one_sample leaf two_blocks one_sample_added leaf

abbrev two_stacks : SymbolicatedProfile
two_stacks = record {
  images = [];
  frames = [];
  threads = [];
  samples =
      record { thread_id = 1; stack = 20 ∷ 10 ∷ []; count = 5; timestamp_nanos = none }
      ∷ record { thread_id = 1; stack = 10 ∷ []; count = 2; timestamp_nanos = none }
      ∷ [];
  start_time = 0;
  duration = 1000;
  freq_hz = 99;
}

abbrev base : TreeNode
base = Symbolicated.root two_stacks 10

total_count-children_example :
    Symbolicated.total_count base
    ≡ Symbolicated.self_count base + sum (map Symbolicated.total_count (Symbolicated.children base))
total_count-children_example = total_count-children base (omega arith)

total_is_seven : Symbolicated.total_count base ≡ 7
unfolding Symbolicated.total_count
total_is_seven = refl

children-addresses_example :
    (distinct (addresses (Symbolicated.children base)) ≡ true)
    × ((a : ℕ)
        → contains a (addresses (Symbolicated.children base))
          ≡ below_some a base.prefix base.profile.samples)
children-addresses_example = children-addresses base

abbrev one_stack : RawProfile
one_stack = record {
  stacks = ((1, 20 ∷ 10 ∷ []), record { count = 3; timestamps_nanos = none }) ∷ [];
  thread_names = [];
  images = [];
  start_time = 5;
  end_time = 9;
}

abbrev no_symbols : ℕ → Option FrameInfo
no_symbols a = none

seen-delta_example :
    seen (1, 20 ∷ 10 ∷ []) (delta [] one_stack).0
    ≡ max (seen (1, 20 ∷ 10 ∷ []) []) (peak (1, 20 ∷ 10 ∷ []) one_stack.stacks)
seen-delta_example = seen-delta (1, 20 ∷ 10 ∷ []) [] one_stack

-- ===== src/Lib.antt =====
-- pprofessor: a sampling profiler that writes its measurements as pprof profiles.
--
-- Common/     shared types: results, integers, ordered keys and maps as association lists.
-- Wire/       src/pprof.rs, the protobuf primitives. Encode has the `encode_*` functions, which append to
--             a buffer of bytes; Decode has `read_varint`, `Fields` and the loops over fields and
--             packed numbers. Emit and Codec describe an encoding as the list of the fields it has.
-- Pprof/      src/pprof.rs, the messages. StringTable has `intern` and `from_strings`; a module for each
--             of `ValueType`, `Line`, `Location`, `Mapping`, `Function`, `Label` and `Sample` has its
--             `encode` and `decode`; Profile has `PprofProfile`, and Profile/Leading is about the first byte
--             of its encoding. Utf8 is the check of `String::from_utf8`.
-- Stream/     src/stream.rs. `FrameKind`, `StreamHeader`, and in Publisher the state and the calls of
--             `SessionPublisher`. The socket is the environment: each call is given what `connect` and
--             `write_all` answer, and an open connection is the list of the frames that went out on it.
--             Publisher/Checkpoint has `publish_heap_checkpoint`.
-- Heap/       src/heap/mod.rs. `HeapValues` and `HeapFrame` stand in Heap, `NativeHeapTracker` in
--             Tracker, and `HeapProfile` with the tracker's `snapshot` in Snapshot. Validate has
--             `validate_profile` and `select_domain`, Export has `to_pprof` step by step: each step
--             returns the profile after it. A `SystemTime` is its nanoseconds since the epoch, negative
--             before it. Linux has the `LogReader` of src/heap/linux.rs, which
--             is given the bytes of the log.
-- Symbolicated/ src/symbolicated.rs: `SymbolicatedProfile`, and `TreeNode`, which looks through the
--             profile's samples on every call. FromRaw has `from_raw_with_symbolizer`, over any
--             symbolizer, and HexName is about the names of unresolved addresses; `sum` on u64 wraps, as in a release build.
-- Symbolize/  src/symbolicate.rs: `SymbolizerChain`, and `NativeSymbolizer` with `resolve_all`. What opens
--             an object file, looks an address up in its debug information and demangles a name is a
--             parameter.
-- Encode/     src/encode.rs: `build_proto`, which is given the sizes of the images' files. Its panic on
--             a frequency of 0 is the result none.
-- Report/     src/report.rs. Report has the types of a report and `sample_index`; Resolve has
--             `resolve_stack`, Totals the loop of `from_profile` over the samples, Analyze the rest of
--             `from_profile`, Bytes `from_pprof`, and Tree `CallTree::from_stacks`. A `HashMap` is a list of its entries in
--             the order of their first insertion, which the source leaves open.
-- Cursor      src/sampler/mod.rs: `RawProfileCursor`, which tells what a raw profile has new.
--
-- A report is made of a decoded `PprofProfile`. A heap tracker's snapshot is a heap profile; a heap profile or a CPU profile is exported as a
-- `PprofProfile`; the encoder turns that into bytes, and the publisher sends such bytes as frames.
--
-- Bytes are natural numbers, a string is the list of its bytes, u64 and i64 wrap at 2 ^ 64, and usize
-- has 64 bits. A shift or cast that loses bits has its remainder written out.
--
-- Fuel: a varint of 64 bits has at most ten groups of seven bits, so its loops have ten rounds. The loop
-- over the fields of a message takes one byte at least from its data in each round, so the length of
-- the data and one more is fuel enough.
--
-- Not modelled: heap differences (src/heap/compare.rs), the rendering of reports (src/report.rs); of
-- src/heap/linux.rs the mappings, the comment and the loops that wait on a process; sampling, process
-- lists, capture and the command line, which call the platform or do I/O; the serde implementations.

pub mod Common
pub mod Wire
pub mod Pprof
pub mod Stream
pub mod Heap
pub mod Symbolicated
pub mod Cursor
pub mod Encode
pub mod Symbolize
pub mod Report
mod Tests

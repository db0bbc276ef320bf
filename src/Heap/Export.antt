-- ===== src/Heap/Export.antt =====
-- src/heap/mod.rs, `HeapProfile::to_pprof`. The profile is built step by step: each step returns the
-- profile after it, with the identifier or index that it gave.
pub mod Growth
pub mod Steps
pub mod Loops
pub mod WellFormed
pub mod Accepted
use pprofessor.Common.{
  ℕ, ◌+◌, ◌≤◌, List, [], ◌∷◌, ◌++◌, push, map, length, is_nil, Option, none, some, Result, ok, err,
  ◌>>=◌, ◌>>◌, ensure, leb, not, ◌||◌, ◌==◌, Bool, true, false, if◌then◌else◌,
}
use pprofessor.Common.Int.{ℤ, pos, negsuc, as_i64, i64_max, is_zero_ℤ}
use pprofessor.Common.Maps.{lookup, insert}
use pprofessor.Pprof.StringTable
use pprofessor.Pprof.ValueType.{ValueType}
use pprofessor.Pprof.Label
use pprofessor.Pprof.Label.{Label}
use pprofessor.Pprof.Line
use pprofessor.Pprof.Line.{Line}
use pprofessor.Pprof.Sample.{Sample}
use pprofessor.Pprof.Location
use pprofessor.Pprof.Location.{Location}
use pprofessor.Pprof.Mapping
use pprofessor.Pprof.Mapping.{Mapping}
use pprofessor.Pprof.Function
use pprofessor.Pprof.Function.{Function}
use pprofessor.Pprof.Profile
use pprofessor.Pprof.Profile.{PprofProfile}
use pprofessor.Symbolicated.FromRaw.{hex_name}
use pprofessor.Heap.{
  HeapMapping, HeapFrame, mapping_ord, frame_ord, Stack, HeapValues, HeapError, Heaped,
  empty_domain, before_epoch, invalid_time,
}
use pprofessor.Heap.Snapshot.{HeapProfile}
use pprofessor.Heap.Validate.{
  alloc_space_text, inuse_space_text, alloc_objects_text, inuse_objects_text, bytes_text,
  count_text, heap_text,
}

-- `p.strings.intern(s)`
abbrev pub intern_in : PprofProfile → List ℕ → PprofProfile × ℕ
intern_in p s =
    (record p { strings = (StringTable.intern p.strings s).0 }, (StringTable.intern p.strings s).1)

unfoldable pub add_metric : List ℕ → List ℕ → PprofProfile → PprofProfile
add_metric name unit p =
    let (p₁, t) = intern_in p name in
    let (p₂, u) = intern_in p₁ unit in
    record p₂ { value_types = push p₂.value_types (record { type = t; unit = u }) }

-- The value types and the default one.
unfoldable pub add_metrics : PprofProfile → PprofProfile
unfolding add_metric
add_metrics p =
    let p₁ = add_metric alloc_objects_text count_text p in
    let p₂ = add_metric alloc_space_text bytes_text p₁ in
    let p₃ = add_metric inuse_objects_text count_text p₂ in
    let p₄ = add_metric inuse_space_text bytes_text p₃ in
    let (p₅, d) = intern_in p₄ inuse_space_text in record p₅ { default_sample_type = d }

unfoldable pub domain_label : List ℕ → PprofProfile → PprofProfile × Label
domain_label domain p =
    let (p₁, k) = intern_in p heap_text in
    let (p₂, d) = intern_in p₁ domain in (p₂, record Label.default { key = k; str_index = d })

unfoldable pub add_comment : List ℕ → PprofProfile → PprofProfile
add_comment comment p =
    let (p', c) = intern_in p comment in
    if is_nil comment then p else record p' { comments = push p'.comments c }

-- Which symbols some frame of an image has: functions, files, lines.
pub record Flags : Type 0 where
  pub functions : Bool
  pub files : Bool
  pub lines : Bool

abbrev pub no_flags : Flags
no_flags = record { functions = false; files = false; lines = false }

abbrev pub or_no_flags : Option Flags → Flags
or_no_flags none = no_flags
or_no_flags (some f) = f

abbrev pub with_frame : HeapFrame → Flags → Flags
with_frame f g = record {
  functions = g.functions || not (is_nil f.function);
  files = g.files || not (is_nil f.file);
  lines = g.lines || not (is_zero_ℤ f.line);
}

abbrev pub flag_image :
    HeapFrame → Option HeapMapping → List (HeapMapping × Flags) → List (HeapMapping × Flags)
flag_image f none flags = flags
flag_image f (some image) flags =
    insert mapping_ord image (with_frame f (or_no_flags (lookup mapping_ord image flags))) flags

unfoldable pub flag_stack : List HeapFrame → List (HeapMapping × Flags) → List (HeapMapping × Flags)
flag_stack [] flags = flags
flag_stack (f ∷ fs) flags = flag_stack fs (flag_image f f.mapping flags)

unfoldable pub image_flags :
    List (Stack × HeapValues) → List (HeapMapping × Flags) → List (HeapMapping × Flags)
unfolding flag_stack
image_flags [] flags = flags
image_flags ((stack, v) ∷ samples) flags = image_flags samples (flag_stack stack flags)

abbrev pub Images : Type 0
Images = List (HeapMapping × ℕ)

unfoldable pub add_mapping : HeapMapping → Flags → PprofProfile → PprofProfile
add_mapping image flags p =
    let id = length p.mappings + 1 in
    let (p₁, filename) = intern_in p image.filename in
    let (p₂, build_id) = intern_in p₁ image.build_id in
    record p₂ {
      mappings = push p₂.mappings (record Mapping.default {
        id = id;
        memory_start = image.memory_start;
        memory_limit = image.memory_limit;
        file_offset = image.file_offset;
        filename = filename;
        build_id = build_id;
        has_functions = flags.functions;
        has_filenames = flags.files;
        has_line_numbers = flags.lines;
      });
    }

unfoldable pub add_mappings :
    List (HeapMapping × Flags) → Images → PprofProfile → PprofProfile × Images
add_mappings [] images p = (p, images)
add_mappings ((image, flags) ∷ rest) images p =
    add_mappings rest (insert mapping_ord image (length p.mappings + 1) images)
      (add_mapping image flags p)

abbrev pub Frames : Type 0
Frames = List (HeapFrame × ℕ)

abbrev pub or_zero_id : Option ℕ → ℕ
or_zero_id none = 0
or_zero_id (some i) = i

abbrev pub mapping_id_of : Images → Option HeapMapping → ℕ
mapping_id_of images none = 0
mapping_id_of images (some image) = or_zero_id (lookup mapping_ord image images)

abbrev pub frame_name : HeapFrame → List ℕ
frame_name f = if is_nil f.function then hex_name f.address else f.function

-- A new frame's function and its location, under one identifier.
unfoldable pub add_frame : Images → HeapFrame → PprofProfile → PprofProfile
add_frame images f p =
    let id = length p.functions + 1 in
    let (p₁, name) = intern_in p (frame_name f) in
    let (p₂, file) = intern_in p₁ f.file in
    record p₂ {
      functions =
          push p₂.functions
            (record Function.default { id = id; name = name; system_name = name; filename = file });
      locations = push p₂.locations (record Location.default {
        id = id;
        mapping_id = mapping_id_of images f.mapping;
        address = f.address;
        lines = record Line.default { function_id = id; line = f.line } ∷ [];
      });
    }

-- `frames.entry(frame).or_insert_with(…)`
abbrev pub frame_entry :
    Images → HeapFrame → PprofProfile → Frames → Option ℕ → (PprofProfile × Frames) × ℕ
frame_entry images f p frames (some id) = ((p, frames), id)
frame_entry images f p frames none = (
  (add_frame images f p, insert frame_ord f (length p.functions + 1) frames),
  length p.functions + 1,
)

unfoldable pub frame_ids :
    Images → List HeapFrame → PprofProfile → Frames → List ℕ → (PprofProfile × Frames) × List ℕ
unfolding add_frame
frame_ids images [] p frames ids = ((p, frames), ids)
frame_ids images (f ∷ fs) p frames ids =
    let ((p', frames'), id) = frame_entry images f p frames (lookup frame_ord f frames) in
    frame_ids images fs p' frames' (push ids id)

abbrev pub values_of : HeapValues → List ℤ
values_of v =
    as_i64 v.alloc_objects
    ∷ as_i64 v.alloc_space
    ∷ as_i64 v.inuse_objects
    ∷ as_i64 v.inuse_space
    ∷ []

abbrev pub push_sample : PprofProfile → Sample → PprofProfile
push_sample p s = record p { samples = push p.samples s }

unfoldable pub add_stacks :
    Images → Label → List (Stack × HeapValues) → PprofProfile → Frames → PprofProfile
unfolding frame_ids
add_stacks images label [] p frames = p
add_stacks images label ((stack, v) ∷ samples) p frames =
    let ((p', frames'), ids) = frame_ids images stack p frames [] in
    add_stacks images label samples
      (push_sample p' (record { location_ids = ids; values = values_of v; labels = label ∷ [] }))
      frames'

-- A profile without samples gets one with four zeros, for its domain.
abbrev pub or_zero_sample : Label → PprofProfile → PprofProfile
or_zero_sample label p =
    if is_nil p.samples
    then push_sample p (record {
      location_ids = [];
      values = pos 0 ∷ pos 0 ∷ pos 0 ∷ pos 0 ∷ [];
      labels = label ∷ [];
    })
    else p

unfoldable pub fill : HeapProfile → PprofProfile → PprofProfile
unfolding add_metrics domain_label add_comment image_flags add_mappings add_stacks
fill h p =
    let p₁ = record (add_metrics p) { time_nanos = h.collected_at } in
    let (p₂, label) = domain_label h.domain p₁ in
    let p₃ = add_comment h.comment p₂ in
    let (p₄, images) = add_mappings (image_flags h.samples []) [] p₃ in
    or_zero_sample label (add_stacks images label h.samples p₄ [])

-- `collected_at.duration_since(UNIX_EPOCH)?.as_nanos().try_into()?`, of which `fill` stores the result.
abbrev pub since_epoch : ℤ → Heaped (Unit {0})
since_epoch (pos n) = ensure (leb n i64_max) invalid_time
since_epoch (negsuc n) = err before_epoch

unfoldable pub to_pprof : HeapProfile → Heaped PprofProfile
unfolding fill
to_pprof h = do
  ensure (not (is_nil h.domain)) empty_domain
  since_epoch h.collected_at
  ok (fill h Profile.new)

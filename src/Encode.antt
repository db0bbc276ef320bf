-- ===== src/Encode.antt =====
-- src/encode.rs, `build_proto`: the pprof profile of a symbolicated profile. The size of an image's
-- file, which `std::fs::metadata` tells, is the environment.
pub mod Locations
pub mod Stacks
use Prim.Native.Nat.{Ordering, compare, min}
use pprofessor.Common.{
  ℕ, zero, suc, ◌+◌, ◌-◌, ◌*◌, ◌/◌, ◌%◌, ◌^◌, List, [], ◌∷◌, push, length, get_elem?, is_nil, ◌==◌,
  leb, ltb, Bool, true, false, if◌then◌else◌, Option, none, some,
}
use pprofessor.Common.Int.{ℤ, pos, as_i64, i64_max}
use pprofessor.Common.Saturating.{saturate}
use pprofessor.Common.Ord.{nat_ord}
use pprofessor.Common.Maps.{lookup, put}
use pprofessor.Common.Sort.{sort_by}
use pprofessor.Pprof.ValueType.{ValueType}
use pprofessor.Pprof.Line
use pprofessor.Pprof.Label
use pprofessor.Pprof.Label.{Label}
use pprofessor.Pprof.Sample
use pprofessor.Pprof.Location
use pprofessor.Pprof.Mapping
use pprofessor.Pprof.Function
use pprofessor.Pprof.Profile
use pprofessor.Pprof.Profile.{PprofProfile}
use pprofessor.Heap.Export.{intern_in}
use pprofessor.Symbolicated.{SymbolicatedProfile, StackFrame, LoadedImage, Sample}

-- The texts `samples`, `count`, `wall`, `nanoseconds`, `thread_id`, `thread_name` and
-- `pprofessor::timestamp`.
abbrev pub samples_text : List ℕ
samples_text = 115 ∷ 97 ∷ 109 ∷ 112 ∷ 108 ∷ 101 ∷ 115 ∷ []

abbrev pub count_text : List ℕ
count_text = 99 ∷ 111 ∷ 117 ∷ 110 ∷ 116 ∷ []

abbrev pub wall_text : List ℕ
wall_text = 119 ∷ 97 ∷ 108 ∷ 108 ∷ []

abbrev pub nanoseconds_text : List ℕ
nanoseconds_text = 110 ∷ 97 ∷ 110 ∷ 111 ∷ 115 ∷ 101 ∷ 99 ∷ 111 ∷ 110 ∷ 100 ∷ 115 ∷ []

abbrev pub thread_id_text : List ℕ
thread_id_text = 116 ∷ 104 ∷ 114 ∷ 101 ∷ 97 ∷ 100 ∷ 95 ∷ 105 ∷ 100 ∷ []

abbrev pub thread_name_text : List ℕ
thread_name_text = 116 ∷ 104 ∷ 114 ∷ 101 ∷ 97 ∷ 100 ∷ 95 ∷ 110 ∷ 97 ∷ 109 ∷ 101 ∷ []

abbrev pub timestamp_text : List ℕ
timestamp_text =
    112 ∷ 112 ∷ 114 ∷ 111 ∷ 102 ∷ 101 ∷ 115 ∷ 115 ∷ 111 ∷ 114 ∷ 58 ∷ 58 ∷ 116 ∷ 105 ∷ 109 ∷ 101
    ∷ 115 ∷ 116 ∷ 97 ∷ 109 ∷ 112 ∷ []

-- The indices of the strings that `build_proto` interns first.
pub record Texts : Type 0 where
  pub s_samples : ℕ
  pub s_count : ℕ
  pub s_wall : ℕ
  pub s_nanoseconds : ℕ
  pub s_thread_id : ℕ
  pub s_thread_name : ℕ
  pub s_timestamp : ℕ
  pub s_nanoseconds_label : ℕ

unfoldable pub intern_texts : PprofProfile → PprofProfile × Texts
intern_texts p =
    let (p₁, a) = intern_in p samples_text in
    let (p₂, b) = intern_in p₁ count_text in
    let (p₃, c) = intern_in p₂ wall_text in
    let (p₄, d) = intern_in p₃ nanoseconds_text in
    let (p₅, e) = intern_in p₄ thread_id_text in
    let (p₆, f) = intern_in p₅ thread_name_text in
    let (p₇, g) = intern_in p₆ timestamp_text in
    let (p₈, h) = intern_in p₇ nanoseconds_text in
    (
      p₈,
      record {
        s_samples = a;
        s_count = b;
        s_wall = c;
        s_nanoseconds = d;
        s_thread_id = e;
        s_thread_name = f;
        s_timestamp = g;
        s_nanoseconds_label = h;
      },
    )

-- `1_000_000_000i64 / profile.freq_hz as i64` of a frequency that is not 0: see `build_profile`.
abbrev pub period_ns : ℕ → ℕ
period_ns freq_hz = 1000000000 / freq_hz

-- The value types, the period and the times; a u128 of nanoseconds is cast to an i64.
unfoldable pub with_settings : SymbolicatedProfile → Texts → PprofProfile → PprofProfile
with_settings s t p = record p {
  value_types =
      push (push p.value_types (record { type = t.s_samples; unit = t.s_count }))
        (record { type = t.s_wall; unit = t.s_nanoseconds });
  period_type = record { type = t.s_wall; unit = t.s_nanoseconds };
  period = pos (period_ns s.freq_hz);
  duration_nanos = as_i64 (s.duration % 2 ^ 64);
  time_nanos = as_i64 (s.start_time % 2 ^ 64);
}

abbrev pub cmp_images : LoadedImage → LoadedImage → Ordering
cmp_images a b = compare a.load_address b.load_address

-- `saturating_add` on a u64.
abbrev pub add_u64 : ℕ → ℕ → ℕ
add_u64 a b = min (a + b) (2 ^ 64 - 1)

-- The next image's address, or the end of the image's file, or the next address.
abbrev pub limit_by_size : LoadedImage → Option ℕ → ℕ
limit_by_size image none = add_u64 image.load_address 1
limit_by_size image (some size) = add_u64 image.load_address size

abbrev pub memory_limit : (List ℕ → Option ℕ) → LoadedImage → List LoadedImage → ℕ
memory_limit file_size image [] = limit_by_size image (file_size image.path)
memory_limit file_size image (next ∷ rest) = next.load_address

-- A mapping for each image; `index` counts the images before.
unfoldable pub add_images : (List ℕ → Option ℕ) → ℕ → List LoadedImage → PprofProfile → PprofProfile
add_images file_size index [] p = p
add_images file_size index (image ∷ rest) p =
    let (p₁, filename) = intern_in p image.path in
    add_images file_size (index + 1) rest (record p₁ {
      mappings = push p₁.mappings (record Mapping.default {
        id = index + 1;
        memory_start = image.load_address;
        memory_limit = memory_limit file_size image rest;
        filename = filename;
      });
    })

-- `images.partition_point(|image| image.load_address <= addr)` of sorted images.
unfoldable pub partition_point : ℕ → List LoadedImage → ℕ
partition_point addr [] = 0
partition_point addr (image ∷ rest) =
    if leb image.load_address addr then 1 + partition_point addr rest else 0

-- The state of the loop over the samples.
pub record State : Type 0 where
  pub profile : PprofProfile
  pub func_id_map : List (ℕ × ℕ)
  pub loc_id_map : List (ℕ × ℕ)

unfoldable pub add_function : ℕ → StackFrame → State → State
add_function addr frame s =
    let fid = length s.profile.functions + 1 in
    let (p₁, name_idx) = intern_in s.profile frame.function in
    let (p₂, file_idx) = intern_in p₁ frame.file in
    record s {
      profile = record p₂ {
        functions = push p₂.functions (record Function.default {
          id = fid;
          name = name_idx;
          system_name = name_idx;
          filename = file_idx;
        });
      };
      func_id_map = put nat_ord addr fid s.func_id_map;
    }

-- `func_id_map.entry(addr).or_insert_with(…)`
abbrev pub function_entry : ℕ → StackFrame → State → Option ℕ → State × ℕ
function_entry addr frame s (some fid) = (s, fid)
function_entry addr frame s none = (add_function addr frame s, length s.profile.functions + 1)

unfoldable pub add_location : List LoadedImage → ℕ → StackFrame → ℕ → State → State
add_location images addr frame func_id s =
    let lid = length s.profile.locations + 1 in
    record s {
      profile = record s.profile {
        locations = push s.profile.locations (record Location.default {
          id = lid;
          mapping_id = partition_point addr images;
          address = addr;
          lines = record Line.default { function_id = func_id; line = pos frame.line } ∷ [];
        });
      };
      loc_id_map = put nat_ord addr lid s.loc_id_map;
    }

-- `loc_id_map.entry(addr).or_insert_with(…)`
abbrev pub location_entry : List LoadedImage → ℕ → StackFrame → State → Option ℕ → State × ℕ
location_entry images addr frame s (some lid) = (s, lid)
location_entry images addr frame s none =
    let (s', func_id) = function_entry addr frame s (lookup nat_ord addr s.func_id_map) in
    (add_location images addr frame func_id s', length s'.profile.locations + 1)

-- An address without a frame is left out.
abbrev pub visit_addr : List LoadedImage → ℕ → Option StackFrame → State → List ℕ → State × List ℕ
visit_addr images addr none s ids = (s, ids)
visit_addr images addr (some frame) s ids =
    let (s', loc_id) = location_entry images addr frame s (lookup nat_ord addr s.loc_id_map) in
    (s', push ids loc_id)

unfoldable pub visit_stack :
    SymbolicatedProfile → List LoadedImage → List ℕ → State → List ℕ → State × List ℕ
unfolding add_function add_location partition_point
visit_stack sp images [] s ids = (s, ids)
visit_stack sp images (addr ∷ addrs) s ids =
    let (s', ids') = visit_addr images addr (lookup nat_ord addr sp.frames) s ids in
    visit_stack sp images addrs s' ids'

abbrev pub or_no_name : Option (List ℕ) → List ℕ
or_no_name none = []
or_no_name (some name) = name

abbrev pub thread_label : Texts → Sample → Label
thread_label t s = record Label.default { key = t.s_thread_id; num = as_i64 s.thread_id }

abbrev pub add_thread_name : Texts → List ℕ → PprofProfile → List Label → PprofProfile × List Label
add_thread_name t name p labels =
    let (p', name_idx) = intern_in p name in
    if is_nil name
    then (p, labels)
    else (p', push labels (record Label.default { key = t.s_thread_name; str_index = name_idx }))

abbrev pub add_timestamp : Texts → Option ℕ → List Label → List Label
add_timestamp t none labels = labels
add_timestamp t (some timestamp_nanos) labels = push labels (record Label.default {
  key = t.s_timestamp;
  num = pos (min timestamp_nanos i64_max);
  num_unit = t.s_nanoseconds_label;
})

-- The count and the count's wall time; `saturating_mul` of numbers that are not negative.
abbrev pub values_of : ℕ → ℕ → List ℤ
values_of freq_hz count =
    let n = min count i64_max in pos n ∷ saturate (pos (n * period_ns freq_hz)) ∷ []

-- A sample without location is left out.
abbrev pub push_sample : SymbolicatedProfile → Texts → Sample → State → List ℕ → State
push_sample sp t s st [] = st
push_sample sp t s st (id ∷ ids) =
    let (p, labels) =
      add_thread_name t (or_no_name (lookup nat_ord s.thread_id sp.threads)) st.profile
        (thread_label t s ∷ []) in
    record st {
      profile = record p {
        samples = push p.samples (record {
          location_ids = id ∷ ids;
          values = values_of sp.freq_hz s.count;
          labels = add_timestamp t s.timestamp_nanos labels;
        });
      };
    }

unfoldable pub add_samples :
    SymbolicatedProfile → List LoadedImage → Texts → List Sample → State → State
unfolding visit_stack
add_samples sp images t [] st = st
add_samples sp images t (s ∷ ss) st =
    let (st', ids) = visit_stack sp images s.stack st [] in
    add_samples sp images t ss (push_sample sp t s st' ids)

-- The profile that `build_proto` encodes, where the frequency is not 0.
unfoldable pub profile_of : (List ℕ → Option ℕ) → SymbolicatedProfile → PprofProfile
unfolding intern_texts with_settings add_images add_samples
profile_of file_size sp =
    let (p, t) = intern_texts Profile.new in
    let images = sort_by cmp_images sp.images in
    let q = add_images file_size 0 images (with_settings sp t p) in
    (add_samples sp images t sp.samples
      (record { profile = q; func_id_map = []; loc_id_map = [] })).profile

-- None is a panic: the period is a quotient by the frequency.
unfoldable pub build_profile : (List ℕ → Option ℕ) → SymbolicatedProfile → Option PprofProfile
unfolding profile_of
build_profile file_size sp = if sp.freq_hz == 0 then none else some (profile_of file_size sp)

unfoldable pub build_proto : (List ℕ → Option ℕ) → SymbolicatedProfile → Option (List ℕ)
unfolding build_profile
build_proto file_size sp = elim (build_profile file_size sp) [
  | none ↦ none
  | some p ↦ some (Profile.encode p)
]

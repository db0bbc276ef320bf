-- ===== src/Tests/Heaps.antt =====
-- Runs of `to_pprof`, `validate_profile` and `select_domain` of src/heap/mod.rs on concrete inputs.
use pprofessor.Common.{
  ℕ, List, [], ◌∷◌, some, ok, err, true, if◌then◌else◌, ◌≡◌, ◌↔◌, ◌⊎◌, refl, is_nil,
}
use pprofessor.Common.Int.{pos}
use pprofessor.Common.Maps.{lookup, insert}
use pprofessor.Pprof.StringTable
use pprofessor.Pprof.Sample.{Sample}
use pprofessor.Pprof.Profile
use pprofessor.Pprof.Profile.{PprofProfile}
use pprofessor.Heap.{no_frame, Stack, HeapValues, HeapMapping}
use pprofessor.Heap.Snapshot.{HeapProfile, new_profile}
use pprofessor.Heap.Validate.{
  validate_profile, select_domain, is_heap, find_heap_label, unknown_domain, is_space, is_objects,
}
use pprofessor.Heap.Validate.Shape.{IsWellFormed, validate_profile_iff}
use pprofessor.Heap.Validate.Domains.{IsSingle, select_domain-IsSingle}
use pprofessor.Heap.Validate.Requested.{Selects, select_domain_requested}
use pprofessor.Heap.Export.{to_pprof, fill, add_mapping}
use pprofessor.Symbolicated.FromRaw.{hex_name}
use pprofessor.Stream.{profile_checkpoint}
use pprofessor.Stream.Publisher
use pprofessor.Stream.Publisher.Checkpoint.{
  handed, publish_heap_checkpoint, IsRejected, publish_heap_checkpoint_cases,
}
use pprofessor.Heap.Export.Accepted.{validate_profile-to_pprof}

abbrev cpu : List ℕ
cpu = 99 ∷ 112 ∷ 117 ∷ []

abbrev image : HeapMapping
image = record {
  memory_start = 4096;
  memory_limit = 8192;
  file_offset = 0;
  filename = cpu;
  build_id = [];
}

abbrev two_frames : Stack
two_frames =
    record no_frame { address = 4100; mapping = some image }
    ∷ record no_frame { address = 5000; function = cpu }
    ∷ []

abbrev block : HeapValues
block = record { alloc_objects = 2; alloc_space = 40; inuse_objects = 1; inuse_space = 8 }

abbrev snapshot : HeapProfile
snapshot = record (new_profile (pos 7) cpu) { samples = (two_frames, block) ∷ [] }

abbrev exported : PprofProfile
exported = fill snapshot Profile.new

snapshot-exported : to_pprof snapshot ≡ ok exported
unfolding to_pprof
snapshot-exported = refl

validate_profile-to_pprof_example : validate_profile exported ≡ ok tt
validate_profile-to_pprof_example = validate_profile-to_pprof snapshot exported snapshot-exported

validate_profile_iff_example : (validate_profile exported ≡ ok tt) ↔ IsWellFormed exported
validate_profile_iff_example = validate_profile_iff exported

exported-IsHeap : is_heap exported ≡ true
unfolding fill is_space is_objects lookup insert add_mapping StringTable.intern StringTable.get
    StringTable.new StringTable.insert hex_name
exported-IsHeap = refl

selects_exported : select_domain exported (some cpu) ≡ ok exported
unfolding select_domain fill lookup insert add_mapping StringTable.intern StringTable.get
    StringTable.new StringTable.insert hex_name is_space is_objects find_heap_label
selects_exported = refl

select_domain-IsSingle_example : IsSingle exported exported.samples
select_domain-IsSingle_example =
    select_domain-IsSingle exported exported (some cpu) exported-IsHeap selects_exported

select_domain_requested_example :
    (rest : List Sample) × Selects exported cpu exported.samples rest
    × (select_domain exported (some cpu)
        ≡ (if is_nil rest then err unknown_domain else ok (record exported { samples = rest })))
select_domain_requested_example = select_domain_requested exported cpu exported-IsHeap

abbrev all_sent : Publisher.Answers
all_sent = record { connects = Publisher.opened; greets = Publisher.sent; writes = Publisher.sent }

publish_heap_checkpoint_cases_example :
    (IsWellFormed Profile.new
      × (publish_heap_checkpoint (Publisher.new cpu) all_sent Profile.new
          ≡ handed (
              Publisher.send
                (Publisher.new cpu)
                all_sent
                profile_checkpoint
                (Profile.encode Profile.new))))
    ⊎ ((¬ IsWellFormed Profile.new)
        × IsRejected
            (Publisher.new cpu)
            (publish_heap_checkpoint (Publisher.new cpu) all_sent Profile.new))
publish_heap_checkpoint_cases_example =
    publish_heap_checkpoint_cases (Publisher.new cpu) all_sent Profile.new

-- ===== src/Tests/Sessions.antt =====
-- Runs of `build_proto` of src/encode.rs on concrete inputs.
use pprofessor.Common.{ℕ, List, [], ◌∷◌, Option, none, some, ◌≡◌, refl, arith}
use pprofessor.Symbolicated.{SymbolicatedProfile, StackFrame}
use pprofessor.Common.Int.{pos}
use pprofessor.Pprof.Profile.{PprofProfile}
use pprofessor.Encode.{build_profile}
use pprofessor.Encode.Stacks.{Shows, stacks_of, build_profile-Shows}
use pprofessor.Common.Maps.{lookup}

abbrev frame_at : ℕ → StackFrame
frame_at a = record { address = a; function = 99 ∷ []; file = []; line = 3 }

-- The address 30 has no frame.
abbrev two_samples : SymbolicatedProfile
two_samples = record {
  images = record { load_address = 5; path = 47 ∷ [] } ∷ [];
  frames = (10, frame_at 10) ∷ (20, frame_at 20) ∷ [];
  threads = [];
  samples =
      record { thread_id = 1; stack = 20 ∷ 30 ∷ 10 ∷ []; count = 5; timestamp_nanos = none }
      ∷ record { thread_id = 1; stack = 30 ∷ []; count = 2; timestamp_nanos = some 7 }
      ∷ [];
  start_time = 0;
  duration = 1000;
  freq_hz = 100;
}

abbrev no_file : List ℕ → Option ℕ
no_file path = none

build_profile-Shows_example :
    (p : PprofProfile) × (build_profile no_file two_samples ≡ some p)
    × Shows p.locations p.samples (stacks_of two_samples two_samples.samples)
build_profile-Shows_example = build_profile-Shows no_file two_samples (omega arith)

-- The stack with its count and, at 100 samples a second, its 50 milliseconds.
stacks_shown :
    stacks_of two_samples two_samples.samples ≡ (20 ∷ 10 ∷ [], pos 5 ∷ pos 50000000 ∷ []) ∷ []
unfolding lookup
stacks_shown = refl

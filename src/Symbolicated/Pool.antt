-- ===== src/Symbolicated/Pool.antt =====
-- src/symbolicated.rs, `from_raw_with_symbolizer`: which frames the pool has.
use pprofessor.Common.{ℕ, List, [], ◌∷◌, Bool, true, false, Option, none, some, if◌then◌else◌, ◌≡◌}
use pprofessor.Common.Sets.{contains}
use pprofessor.Symbolicated.HexName.{NamesAddress}
use pprofessor.Symbolicated.{Unresolved, hex, skip, StackFrame, FrameInfo, RawSampleSeries}
use pprofessor.Symbolicated.FromRaw.{frame_of}

-- The address stands in one of the raw stacks.
abbrev pub in_stacks : ℕ → List ((ℕ × List ℕ) × RawSampleSeries) → Bool
in_stacks a [] = false
in_stacks a (((thread, stack), series) ∷ stacks) =
    if contains a stack then true else in_stacks a stacks

-- `f` if there is one, else `o`.
abbrev or_frame : Option StackFrame → Option StackFrame → Option StackFrame
or_frame none o = o
or_frame (some f) o = some f

module _ (symbolize : ℕ → Option FrameInfo) (unresolved : Unresolved) where
  abbrev its_frame : ℕ → Option StackFrame
  its_frame a = frame_of symbolize unresolved a (symbolize a)

-- A frame without file and line, whose name tells the address.
pub record IsNamed (o : Option StackFrame) (a : ℕ) : Type 0 where
  pub name : List ℕ
  pub framed : o ≡ some (record { address = a; function = name; file = []; line = 0 })
  pub names : NamesAddress name a

-- What the pool has for an address of the stacks, by the symbolizer's answer and the setting for
-- unresolved addresses.
abbrev pub Pools : Option StackFrame → ℕ → Option FrameInfo → Unresolved → Type 0
Pools o a (some i) unresolved =
    o ≡ some (record { address = a; function = i.function; file = i.file; line = i.line })
Pools o a none hex = IsNamed o a
Pools o a none skip = o ≡ none

-- The same, or none for an address that does not stand in the stacks.
abbrev pub PoolsIf : Bool → Option StackFrame → ℕ → Option FrameInfo → Unresolved → Type 0
PoolsIf true o a answer unresolved = Pools o a answer unresolved
PoolsIf false o a answer unresolved = o ≡ none

-- ===== src/Symbolicated.antt =====
-- src/symbolicated.rs: the profile of a session, with its frames resolved, and its call tree.
pub mod FromRaw
pub mod HexName
pub mod Pool
pub mod Tree
pub mod Counts
use pprofessor.Common.{
  ℕ, zero, suc, ◌+◌, ◌%◌, ◌^◌, List, [], ◌∷◌, ◌++◌, push, map, length, get_elem?, is_nil, beq, ◌==◌,
  ltb, ◌&&◌, not, Bool, true, false, Option, none, some, if◌then◌else◌,
}
use pprofessor.Common.Sets.{push_new}
use pprofessor.Common.Ord.{nat_ord}
use pprofessor.Common.Maps.{lookup, insert}

pub data Unresolved : Type 0 where
  hex skip : Unresolved

pub record StackFrame : Type 0 where
  pub address : ℕ
  pub function : List ℕ
  pub file : List ℕ
  pub line : ℕ

pub record FrameInfo : Type 0 where
  pub function : List ℕ
  pub file : List ℕ
  pub line : ℕ

-- The stack is leaf first.
pub record Sample : Type 0 where
  pub thread_id : ℕ
  pub stack : List ℕ
  pub count : ℕ
  pub timestamp_nanos : Option ℕ

pub record RawSampleSeries : Type 0 where
  pub count : ℕ
  pub timestamps_nanos : Option (List ℕ)

pub record LoadedImage : Type 0 where
  pub load_address : ℕ
  pub path : List ℕ

-- What `from_raw_with_symbolizer` reads of a `RawProfile`, with the times in nanoseconds.
pub record RawProfile : Type 0 where
  pub stacks : List ((ℕ × List ℕ) × RawSampleSeries)
  pub thread_names : List (ℕ × List ℕ)
  pub images : List LoadedImage
  pub start_time : ℕ
  pub end_time : ℕ

pub record SymbolicatedProfile : Type 0 where
  pub images : List LoadedImage
  pub frames : List (ℕ × StackFrame)
  pub threads : List (ℕ × List ℕ)
  pub samples : List Sample
  pub start_time : ℕ
  pub duration : ℕ
  pub freq_hz : ℕ

unfoldable pub reversed : List ℕ → List ℕ
reversed [] = []
reversed (x ∷ xs) = push (reversed xs) x

unfoldable pub starts_with : List ℕ → List ℕ → Bool
starts_with xs [] = true
starts_with [] (p ∷ ps) = false
starts_with (x ∷ xs) (p ∷ ps) = if x == p then starts_with xs ps else false

-- `sum` on u64 in a release build, from an accumulator on.
unfoldable pub sum_u64 : ℕ → List ℕ → ℕ
sum_u64 acc [] = acc
sum_u64 acc (x ∷ xs) = sum_u64 ((acc + x) % 2 ^ 64) xs

unfoldable pub keep_samples : (Sample → Bool) → List Sample → List Sample
keep_samples p [] = []
keep_samples p (s ∷ ss) = let rest = keep_samples p ss in if p s then s ∷ rest else rest

abbrev pub counts : List Sample → List ℕ
counts ss = map (λ (s : Sample). s.count) ss

-- A node of the tree: the profile's samples are looked through on every call.
pub record TreeNode : Type 0 where
  pub profile : SymbolicatedProfile
  pub address : ℕ
  pub prefix : List ℕ

unfoldable pub frame : TreeNode → Option StackFrame
frame n = lookup nat_ord n.address n.profile.frames

unfoldable pub self_count : TreeNode → ℕ
unfolding reversed keep_samples sum_u64
self_count n = sum_u64 0 (
    counts (
      keep_samples
        (λ s. length (reversed s.stack) == length n.prefix && beq (reversed s.stack) n.prefix)
        n.profile.samples))

unfoldable pub total_count : TreeNode → ℕ
unfolding reversed keep_samples sum_u64 starts_with
total_count n =
    sum_u64 0
      (counts (keep_samples (λ s. starts_with (reversed s.stack) n.prefix) n.profile.samples))

-- `rev[self.prefix.len()]` of a longer stack below the prefix.
abbrev pub next_addr : List ℕ → Sample → Option ℕ
next_addr prefix s =
    let rev = reversed s.stack in
    if ltb (length prefix) (length rev) && starts_with rev prefix
    then get_elem? rev (length prefix)
    else none

abbrev pub push_found : List ℕ → Option ℕ → List ℕ
push_found xs none = xs
push_found xs (some a) = push_new xs a

unfoldable pub child_addrs : List ℕ → List Sample → List ℕ → List ℕ
child_addrs prefix [] found = found
child_addrs prefix (s ∷ ss) found = child_addrs prefix ss (push_found found (next_addr prefix s))

abbrev pub child : TreeNode → ℕ → TreeNode
child n a = record { profile = n.profile; address = a; prefix = push n.prefix a }

unfoldable pub children : TreeNode → List TreeNode
unfolding child_addrs
children n = map (child n) (child_addrs n.prefix n.profile.samples [])

-- `sample.stack.last()`, the root of a leaf-first stack.
abbrev pub last : List ℕ → Option ℕ
last [] = none
last (x ∷ xs) = elim (last xs) [ none ↦ some x | some y ↦ some y ]

unfoldable pub root_addrs : List Sample → List ℕ → List ℕ
root_addrs [] found = found
root_addrs (s ∷ ss) found = root_addrs ss (push_found found (last s.stack))

abbrev pub root : SymbolicatedProfile → ℕ → TreeNode
root p a = record { profile = p; address = a; prefix = a ∷ [] }

unfoldable pub roots : SymbolicatedProfile → List TreeNode
unfolding root_addrs
roots p = map (root p) (root_addrs p.samples [])

-- `resolve_stack`: addresses without a frame are left out.
abbrev pub found_frame : Option StackFrame → List StackFrame → List StackFrame
found_frame none fs = fs
found_frame (some f) fs = f ∷ fs

unfoldable pub resolve_addresses : List (ℕ × StackFrame) → List ℕ → List StackFrame
resolve_addresses frames [] = []
resolve_addresses frames (a ∷ as') =
    found_frame (lookup nat_ord a frames) (resolve_addresses frames as')

unfoldable pub resolve_stack : SymbolicatedProfile → Sample → List StackFrame
unfolding resolve_addresses
resolve_stack p s = resolve_addresses p.frames s.stack

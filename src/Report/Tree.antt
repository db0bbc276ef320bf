-- ===== src/Report/Tree.antt =====
-- src/report.rs: `CallTree`, and `from_stacks`, which builds it.
pub mod Costs
use pprofessor.Common.{
  ℕ, List, [], ◌∷◌, Option, none, some, Bool, true, false, if◌then◌else◌, ◌≡◌, refl,
}
use pprofessor.Common.Int.{ℤ, pos}
use pprofessor.Common.Saturating.{saturating_add}
use pprofessor.Common.Ord.{Ord, bytes_ord, int_ord, pair_ord, key_ord}
use pprofessor.Common.Maps.{same}
use pprofessor.Report.{ReportFrame, StackStat}

-- `ReportFrameKey` has the fields of a `ReportFrame`, so that a frame is its own key.
abbrev pub frame_key_ord : Ord ReportFrame
frame_key_ord =
    key_ord (pair_ord bytes_ord (pair_ord bytes_ord int_ord))
      (λ (f : ReportFrame). (f.function, (f.file, f.line)))
      (λ t. record { function = t.0; file = t.1.0; line = t.1.1 }) (λ f. refl)

-- A node has its frame, its value, its self value and its children by their keys.
mutual
  pub data CallTree : Type 0 where
    node : Option ReportFrame → ℤ → ℤ → Children → CallTree

  pub data Children : Type 0 where
    no_children : Children
    child : ReportFrame → CallTree → Children → Children

abbrev pub default_tree : CallTree
default_tree = node none (pos 0) (pos 0) no_children

abbrev pub frame_tree : ReportFrame → CallTree
frame_tree f = node (some f) (pos 0) (pos 0) no_children

abbrev pub value : CallTree → ℤ
value (node f v s cs) = v

abbrev pub self_value : CallTree → ℤ
self_value (node f v s cs) = s

abbrev pub children : CallTree → Children
children (node f v s cs) = cs

-- `node.value = node.value.saturating_add(…)`, and the same for `self_value`.
unfoldable pub add_to_value : ℤ → CallTree → CallTree
add_to_value x (node f v s cs) = node f (saturating_add v x) s cs

unfoldable pub add_to_self : ℤ → CallTree → CallTree
add_to_self x (node f v s cs) = node f v (saturating_add s x) cs

-- `children.entry(key).or_insert_with(…)`, with what happens at and below the entry.
unfoldable pub enter : (CallTree → CallTree) → ReportFrame → Children → Children
enter below f no_children = child f (below (frame_tree f)) no_children
enter below f (child k t cs) =
    let behind = child k t (enter below f cs) in
    if same frame_key_ord f k then child k (below t) cs else behind

unfoldable pub with_children : (Children → Children) → CallTree → CallTree
with_children change (node f v s cs) = node f v s (change cs)

-- The loop over the frames of one stack.
unfoldable pub add_frames : ℤ → List ReportFrame → CallTree → CallTree
unfolding add_to_value add_to_self enter with_children
add_frames x [] t = add_to_self x t
add_frames x (f ∷ fs) t = with_children (enter (λ c. add_frames x fs (add_to_value x c)) f) t

unfoldable pub add_stacks : List StackStat → CallTree → CallTree
unfolding add_frames add_to_value
add_stacks [] t = t
add_stacks (s ∷ ss) t = add_stacks ss (add_frames s.value s.frames (add_to_value s.value t))

unfoldable pub from_stacks : List StackStat → CallTree
unfolding add_stacks
from_stacks ss = add_stacks ss default_tree

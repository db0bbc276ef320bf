-- ===== src/Report/Tree/Costs.antt =====
-- src/report.rs, `CallTree::from_stacks`: the costs of the nodes are sums over the stacks.
use pprofessor.Common.{
  List, [], ◌∷◌, any, is_nil, Bool, true, false, if◌then◌else◌, ◌&&◌, ◌≡◌, refl, ap, ◌∙◌,
  Bool-cases, inl, inr,
}
use pprofessor.Common.Int.{ℤ, pos}
use pprofessor.Common.Saturating.{saturating_add}
use pprofessor.Common.Maps.{same, same_iff, same_comm}
use pprofessor.Report.{ReportFrame, StackStat}
use pprofessor.Report.Tree.{
  frame_key_ord, CallTree, Children, node, no_children, child, default_tree, frame_tree, value,
  self_value, children, add_to_value, enter, add_frames, add_stacks, from_stacks,
}

-- What is read of the child with a key, or a value for no child.
abbrev at_child : {B : Type 0} → B → (CallTree → B) → ReportFrame → Children → B
at_child missing read k no_children = missing
at_child missing read k (child j t cs) =
    if same frame_key_ord k j then read t else at_child missing read k cs

-- A number of the node at a path below the tree's root, or 0.
abbrev pub at_path : (CallTree → ℤ) → List ReportFrame → CallTree → ℤ
at_path read [] t = read t
at_path read (k ∷ ks) t = at_child (pos 0) (at_path read ks) k (children t)

-- There is a node at a path below the tree's root.
abbrev pub has_node : List ReportFrame → CallTree → Bool
has_node [] t = true
has_node (k ∷ ks) t = at_child false (has_node ks) k (children t)

-- The frames begin with the path, and what is left of them passes the test.
abbrev pub leads : (List ReportFrame → Bool) → List ReportFrame → List ReportFrame → Bool
leads test [] fs = test fs
leads test (k ∷ ks) [] = false
leads test (k ∷ ks) (f ∷ fs) = same frame_key_ord k f && leads test ks fs

-- The saturating sum of the values of the stacks whose frames pass the test.
unfoldable pub sum_stacks : (List ReportFrame → Bool) → List StackStat → ℤ → ℤ
sum_stacks test [] x = x
sum_stacks test (s ∷ ss) x =
    sum_stacks test ss (if test s.frames then saturating_add x s.value else x)

-- What `enter` does to what is read of a child.
at_child-enter :
    {B : Type 0} (missing : B) (read : CallTree → B) (below : CallTree → CallTree) (change : B → B)
    (k f : ReportFrame) (cs : Children)
    → ((t : CallTree) → read (below t) ≡ change (read t))
    → read (below (frame_tree f)) ≡ change missing
    → at_child missing read k (enter below f cs) ≡ (
        if same frame_key_ord k f
        then change (at_child missing read k cs)
        else at_child missing read k cs)
unfolding enter
at_child-enter missing read below change k f no_children h z =
    elim (Bool-cases (same frame_key_ord k f)) [ inl q ↦ rw q z | inr q ↦ rw q ]
at_child-enter {B} missing read below change k f (child j t cs) h z =
    let ih = at_child-enter missing read below change k f cs h z in
    elim (Bool-cases (same frame_key_ord f j)) [
      | inl q ↦ rw (q, (same_iff frame_key_ord f j).0 q) (by_test (same frame_key_ord k j) (h t))
      | inr q ↦ rw (q, ih) (apart (same frame_key_ord k j) (same frame_key_ord k f) (not_both q))
    ]
  where
    r : B
    r = at_child missing read k cs

    by_test :
        (b : Bool)
        → read (below t) ≡ change (read t)
        → (if b then read (below t) else r)
          ≡ (if b then change (if b then read t else r) else (if b then read t else r))
    by_test true e = e
    by_test false e = refl

    not_both :
        same frame_key_ord f j ≡ false
        → same frame_key_ord k j ≡ true
        → same frame_key_ord k f ≡ false
    not_both q e = rw ((same_iff frame_key_ord k j).0 e) (same_comm frame_key_ord j f ∙ q)

    apart :
        (b c : Bool)
        → (b ≡ true → c ≡ false)
        → (if b then read t else (if c then change r else r))
          ≡ (if c then change (if b then read t else r) else (if b then read t else r))
    apart true c g = rw (g refl) refl
    apart false c g = refl

-- The number that is read changes where the stack's last frame is met.
record Adds (read : CallTree → ℤ) (test : List ReportFrame → Bool) (x : ℤ) : Type 0 where
  empty : (f : ReportFrame) → read (frame_tree f) ≡ pos 0
  added :
      (fs : List ReportFrame) (t : CallTree)
      → read (add_frames x fs (add_to_value x t))
        ≡ (if test fs then saturating_add (read t) x else read t)

at_path_empty :
    (read : CallTree → ℤ)
    → ((f : ReportFrame) → read (frame_tree f) ≡ pos 0)
    → (q : List ReportFrame) (f : ReportFrame) → at_path read q (frame_tree f) ≡ pos 0
at_path_empty read z [] f = z f
at_path_empty read z (k ∷ ks) f = refl

children-leaf : (x : ℤ) (t : CallTree) → children (add_frames x [] (add_to_value x t)) ≡ children t
unfolding add_frames
children-leaf x (node f v s cs) = refl

children-below :
    (x : ℤ) (f : ReportFrame) (fs : List ReportFrame) (t : CallTree)
    → children (add_frames x (f ∷ fs) (add_to_value x t))
      ≡ enter (λ c. add_frames x fs (add_to_value x c)) f (children t)
unfolding add_frames
children-below x f fs (node g v s cs) = refl

at_path-add_frames :
    (read : CallTree → ℤ) (test : List ReportFrame → Bool) (x : ℤ)
    → Adds read test x
    → (q fs : List ReportFrame) (t : CallTree)
    → at_path read q (add_frames x fs (add_to_value x t))
      ≡ (if leads test q fs then saturating_add (at_path read q t) x else at_path read q t)
at_path-add_frames read test x a [] fs t = a.added fs t
at_path-add_frames read test x a (k ∷ ks) [] t =
    ap (at_child (pos 0) (at_path read ks) k) (children-leaf x t)
at_path-add_frames read test x a (k ∷ ks) (f ∷ fs) t =
    ap (at_child (pos 0) (at_path read ks) k) (children-below x f fs t)
    ∙ at_child-enter (pos 0) (at_path read ks) (λ c. add_frames x fs (add_to_value x c)) change k f
        (children t) (at_path-add_frames read test x a ks fs)
        (at_path-add_frames read test x a ks fs (frame_tree f)
          ∙ ap change (at_path_empty read a.empty ks f))
    ∙ nested (same frame_key_ord k f) (leads test ks fs)
  where
    change : ℤ → ℤ
    change n = if leads test ks fs then saturating_add n x else n

    z : ℤ
    z = at_path read (k ∷ ks) t

    nested :
        (b c : Bool)
        → (if b then (if c then saturating_add z x else z) else z)
          ≡ (if b && c then saturating_add z x else z)
    nested true c = refl
    nested false c = refl

value-Adds : (x : ℤ) → Adds value (λ fs. true) x
unfolding add_frames
value-Adds x = record { empty = λ f. refl; added = by_frames }
  where
    by_frames :
        (fs : List ReportFrame) (t : CallTree)
        → value (add_frames x fs (add_to_value x t)) ≡ saturating_add (value t) x
    by_frames [] (node f v s cs) = refl
    by_frames (g ∷ gs) (node f v s cs) = refl

self_value-Adds : (x : ℤ) → Adds self_value is_nil x
unfolding add_frames
self_value-Adds x = record { empty = λ f. refl; added = by_frames }
  where
    by_frames :
        (fs : List ReportFrame) (t : CallTree)
        → self_value (add_frames x fs (add_to_value x t))
          ≡ (if is_nil fs then saturating_add (self_value t) x else self_value t)
    by_frames [] (node f v s cs) = refl
    by_frames (g ∷ gs) (node f v s cs) = refl

at_path-add_stacks :
    (read : CallTree → ℤ) (test : List ReportFrame → Bool)
    → ((x : ℤ) → Adds read test x)
    → (q : List ReportFrame) (ss : List StackStat) (t : CallTree)
    → at_path read q (add_stacks ss t) ≡ sum_stacks (leads test q) ss (at_path read q t)
unfolding add_stacks sum_stacks
at_path-add_stacks read test a q [] t = refl
at_path-add_stacks read test a q (s ∷ ss) t =
    at_path-add_stacks read test a q ss (add_frames s.value s.frames (add_to_value s.value t))
    ∙ ap (sum_stacks (leads test q) ss)
        (at_path-add_frames read test s.value (a s.value) q s.frames t)

-- Some stack begins with the path.
abbrev pub leads_some : List ReportFrame → List StackStat → Bool
leads_some path ss = any (λ (s : StackStat). leads (λ fs. true) path s.frames) ss

-- The root's node is there in any case.
abbrev pub is_shown : List ReportFrame → List StackStat → Bool
is_shown [] ss = true
is_shown (k ∷ ks) ss = leads_some (k ∷ ks) ss

has_node-add_frames :
    (x : ℤ) (q fs : List ReportFrame) (t : CallTree)
    → has_node q (add_frames x fs (add_to_value x t))
      ≡ (if leads (λ fs. true) q fs then true else has_node q t)
has_node-add_frames x [] fs t = refl
has_node-add_frames x (k ∷ ks) [] t = ap (at_child false (has_node ks) k) (children-leaf x t)
has_node-add_frames x (k ∷ ks) (f ∷ fs) t =
    ap (at_child false (has_node ks) k) (children-below x f fs t)
    ∙ at_child-enter false (has_node ks) (λ c. add_frames x fs (add_to_value x c)) change k f
        (children t) (has_node-add_frames x ks fs)
        (has_node-add_frames x ks fs (frame_tree f) ∙ new ks)
    ∙ nested (same frame_key_ord k f) (leads (λ fs. true) ks fs)
  where
    change : Bool → Bool
    change b = if leads (λ fs. true) ks fs then true else b

    new :
        (q : List ReportFrame)
        → (if leads (λ fs. true) q fs then true else has_node q (frame_tree f))
          ≡ (if leads (λ fs. true) q fs then true else false)
    new [] = refl
    new (j ∷ js) = refl

    z : Bool
    z = has_node (k ∷ ks) t

    nested :
        (b c : Bool) → (if b then (if c then true else z) else z) ≡ (if b && c then true else z)
    nested true c = refl
    nested false c = refl

has_node-add_stacks :
    (k : ReportFrame) (ks : List ReportFrame) (ss : List StackStat) (t : CallTree)
    → has_node (k ∷ ks) (add_stacks ss t)
      ≡ (if has_node (k ∷ ks) t then true else leads_some (k ∷ ks) ss)
unfolding add_stacks
has_node-add_stacks k ks [] t = either (has_node (k ∷ ks) t)
  where
    either : (b : Bool) → b ≡ (if b then true else false)
    either true = refl
    either false = refl
has_node-add_stacks k ks (s ∷ ss) t =
    has_node-add_stacks k ks ss (add_frames s.value s.frames (add_to_value s.value t))
    ∙ rw (has_node-add_frames s.value (k ∷ ks) s.frames t) (
        swapped (leads (λ fs. true) (k ∷ ks) s.frames) (has_node (k ∷ ks) t)
          (leads_some (k ∷ ks) ss))
  where
    swapped :
        (b c e : Bool)
        → (if (if b then true else c) then true else e)
          ≡ (if c then true else (if b then true else e))
    swapped true true e = refl
    swapped true false e = refl
    swapped false c e = refl

shows_stacks :
    (ss : List StackStat) (path : List ReportFrame)
    → has_node path (from_stacks ss) ≡ is_shown path ss
unfolding from_stacks
shows_stacks ss [] = refl
shows_stacks ss (k ∷ ks) = has_node-add_stacks k ks ss default_tree

-- The call tree of a list of stacks has a node at the root and at exactly the paths with which some
-- stack begins. The node at a path has as its value the saturating sum of the values of the stacks that
-- begin with the path, and as its self value that of the stacks that are the path; both sums are 0 for a
-- path without a node, of which the values are read as 0.
pub from_stacks_sums :
    (ss : List StackStat) (path : List ReportFrame)
    → (has_node path (from_stacks ss) ≡ is_shown path ss)
      × (at_path value path (from_stacks ss) ≡ sum_stacks (leads (λ fs. true) path) ss (pos 0))
      × (at_path self_value path (from_stacks ss) ≡ sum_stacks (leads is_nil path) ss (pos 0))
unfolding from_stacks
from_stacks_sums ss path = (
  shows_stacks ss path,
  at_path-add_stacks value (λ fs. true) value-Adds path ss default_tree
      ∙ ap (sum_stacks (leads (λ fs. true) path) ss) (nothing value refl path),
  at_path-add_stacks self_value is_nil self_value-Adds path ss default_tree
      ∙ ap (sum_stacks (leads is_nil path) ss) (nothing self_value refl path),
)
  where
    nothing :
        (read : CallTree → ℤ)
        → read default_tree ≡ pos 0
        → (q : List ReportFrame) → at_path read q default_tree ≡ pos 0
    nothing read z [] = z
    nothing read z (k ∷ ks) = refl

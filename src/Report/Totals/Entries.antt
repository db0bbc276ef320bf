-- ===== src/Report/Totals/Entries.antt =====
-- src/report.rs, `from_profile`: what one sample changes of the totals.
use pprofessor.Common.{
  is_nil, ℕ, List, [], ◌∷◌, get_elem?, any, Option, none, some, Bool, true, false, if◌then◌else◌,
  ◌≡◌, refl, ◌∙◌, ap, sym, Bool-cases, inl, inr, not, ◌&&◌,
}
use pprofessor.Common.Int.{ℤ, pos}
use pprofessor.Common.Saturating.{saturating_add, saturating_abs}
use pprofessor.Common.Maps.{lookup, put, lookup-put, same, same_iff}
use pprofessor.Pprof.Sample.{Sample}
use pprofessor.Pprof.Profile.{PprofProfile}
use pprofessor.Report.{
  FrameStat, StackStat, FrameIdentity, identity_ord, stack_key_ord, ResolvedFrame,
}
use pprofessor.Report.Resolve.{Locations, Functions, resolve_stack}
use pprofessor.Report.Totals.{
  Stats, Stacks, identities, stack_entry, with_value, add_stack, stat_entry, last, add_leaf,
  add_frames,
}

-- The samples that have a value for the index, as their frames and the value.
abbrev pub Measured : Type 0
Measured = List (List ResolvedFrame × ℤ)

abbrev pub push_measured : List ResolvedFrame → Option ℤ → Measured → Measured
push_measured frames none ms = ms
push_measured frames (some v) ms = (frames, v) ∷ ms

unfoldable pub measured : PprofProfile → ℕ → Locations → Functions → List Sample → Measured
measured p index locations functions [] = []
measured p index locations functions (s ∷ ss) =
    push_measured (resolve_stack p s locations functions) (get_elem? s.values index)
      (measured p index locations functions ss)

-- The saturating sum of the values of the samples whose frames pass a test.
unfoldable pub sum_where : (List ResolvedFrame → Bool) → Measured → ℤ → ℤ
sum_where test [] x = x
sum_where test ((frames, v) ∷ ms) x =
    sum_where test ms (if test frames then saturating_add x v else x)

unfoldable pub sum_abs : Measured → ℤ → ℤ
sum_abs [] x = x
sum_abs ((frames, v) ∷ ms) x = sum_abs ms (saturating_add x (saturating_abs v))

abbrev pub is_frame : FrameIdentity → Option ResolvedFrame → Bool
is_frame k none = false
is_frame k (some f) = same identity_ord k f.identity

-- The identity is that of the leaf frame.
abbrev pub is_leaf : FrameIdentity → List ResolvedFrame → Bool
is_leaf k frames = is_frame k (last frames)

-- The identity is that of some frame.
abbrev pub has_frame : FrameIdentity → List ResolvedFrame → Bool
has_frame k frames = any (same identity_ord k) (identities frames)

abbrev pub is_stack : List FrameIdentity → List ResolvedFrame → Bool
is_stack key frames = not (is_nil key) && same stack_key_ord key (identities frames)

abbrev pub flat_or_zero : Option FrameStat → ℤ
flat_or_zero none = pos 0
flat_or_zero (some s) = s.flat

abbrev pub flat_of : FrameIdentity → Stats → ℤ
flat_of k stats = flat_or_zero (lookup identity_ord k stats)

abbrev pub cumulative_or_zero : Option FrameStat → ℤ
cumulative_or_zero none = pos 0
cumulative_or_zero (some s) = s.cumulative

abbrev pub cumulative_of : FrameIdentity → Stats → ℤ
cumulative_of k stats = cumulative_or_zero (lookup identity_ord k stats)

abbrev pub value_or_zero : Option StackStat → ℤ
value_or_zero none = pos 0
value_or_zero (some s) = s.value

abbrev pub value_of : List FrameIdentity → Stacks → ℤ
value_of key stacks = value_or_zero (lookup stack_key_ord key stacks)

-- What a put of a changed entry does to a number that is read off the entries.
module _ (read : Option FrameStat → ℤ) (k : FrameIdentity) (f : ResolvedFrame) (stats : Stats) where
  changed :
      (s : FrameStat) (x : ℤ)
      → read (some s) ≡ x
      → read (lookup identity_ord k (put identity_ord f.identity s stats))
        ≡ (if same identity_ord k f.identity then x else read (lookup identity_ord k stats))
  changed s x e =
      ap read (lookup-put identity_ord k f.identity s stats)
      ∙ by_test (same identity_ord k f.identity)
    where
      by_test :
          (b : Bool)
          → read (if b then some s else lookup identity_ord k stats)
            ≡ (if b then x else read (lookup identity_ord k stats))
      by_test true = e
      by_test false = refl

  same_read :
      (x : ℤ)
      → read (lookup identity_ord f.identity stats) ≡ x
      → (if same identity_ord k f.identity then x else read (lookup identity_ord k stats))
        ≡ read (lookup identity_ord k stats)
  same_read x e = elim (Bool-cases (same identity_ord k f.identity)) [
    | inl q ↦ rw (q, (same_iff identity_ord k f.identity).0 q) (sym e)
    | inr q ↦ rw q
  ]

  added_read :
      (v : ℤ)
      → (if same identity_ord k f.identity
          then saturating_add (read (lookup identity_ord f.identity stats)) v
          else read (lookup identity_ord k stats))
        ≡ (if same identity_ord k f.identity
            then saturating_add (read (lookup identity_ord k stats)) v
            else read (lookup identity_ord k stats))
  added_read v = elim (Bool-cases (same identity_ord k f.identity)) [
    | inl q ↦ rw (q, (same_iff identity_ord k f.identity).0 q)
    | inr q ↦ rw q
  ]

flat_entry : (f : ResolvedFrame) (o : Option FrameStat) → (stat_entry f o).flat ≡ flat_or_zero o
flat_entry f none = refl
flat_entry f (some s) = refl

cumulative_entry :
    (f : ResolvedFrame) (o : Option FrameStat) → (stat_entry f o).cumulative ≡ cumulative_or_zero o
cumulative_entry f none = refl
cumulative_entry f (some s) = refl

pub flat_of-add_leaf :
    (k : FrameIdentity) (v : ℤ) (o : Option ResolvedFrame) (stats : Stats)
    → flat_of k (add_leaf v o stats)
      ≡ (if is_frame k o then saturating_add (flat_of k stats) v else flat_of k stats)
flat_of-add_leaf k v none stats = refl
flat_of-add_leaf k v (some f) stats =
    changed flat_or_zero k f stats _ _
      (ap (λ x. saturating_add x v) (flat_entry f (lookup identity_ord f.identity stats)))
    ∙ added_read flat_or_zero k f stats v

pub cumulative_of-add_leaf :
    (k : FrameIdentity) (v : ℤ) (o : Option ResolvedFrame) (stats : Stats)
    → cumulative_of k (add_leaf v o stats) ≡ cumulative_of k stats
cumulative_of-add_leaf k v none stats = refl
cumulative_of-add_leaf k v (some f) stats =
    changed cumulative_or_zero k f stats _ _ refl
    ∙ same_read cumulative_or_zero k f stats _
        (sym (cumulative_entry f (lookup identity_ord f.identity stats)))

pub flat_of-add_frames :
    (k : FrameIdentity) (v : ℤ) (seen : List FrameIdentity) (fs : List ResolvedFrame)
    (stats : Stats)
    → flat_of k (add_frames v seen fs stats) ≡ flat_of k stats
unfolding add_frames
flat_of-add_frames k v seen [] stats = refl
flat_of-add_frames k v seen (f ∷ fs) stats =
    elim (Bool-cases (any (same identity_ord f.identity) seen)) [
      | inl e ↦ rw e (flat_of-add_frames k v seen fs stats)
      | inr e ↦ rw e (
          flat_of-add_frames k v (f.identity ∷ seen) fs _
          ∙ changed flat_or_zero k f stats _ _ refl
          ∙ same_read flat_or_zero k f stats _
              (sym (flat_entry f (lookup identity_ord f.identity stats))))
    ]

-- An identity that was seen gets nothing more.
seen_value :
    (a b : ℤ) (i c d : Bool)
    → (i ≡ true → c ≡ true)
    → (if not c && d then a else b) ≡ (if not c && (if i then true else d) then a else b)
seen_value a b true true d h = refl
seen_value a b true false d h = absurd_of (h refl)
  where
    absurd_of : false ≡ true → (if d then a else b) ≡ a
    absurd_of e = cc
seen_value a b false c d h = refl

-- A new one gets the value once.
new_value :
    (v a b : ℤ) (i c d : Bool)
    → (i ≡ true → c ≡ false)
    → a ≡ (if i then saturating_add b v else b)
    → (if not (if i then true else c) && d then saturating_add a v else a)
      ≡ (if not c && (if i then true else d) then saturating_add b v else b)
new_value v a b true c d h e = rw (h refl, e) refl
new_value v a b false c d h e = rw e refl

seen_at :
    (k : FrameIdentity) (f : ResolvedFrame) (seen : List FrameIdentity) (b : Bool)
    → any (same identity_ord f.identity) seen ≡ b
    → same identity_ord k f.identity ≡ true
    → any (same identity_ord k) seen ≡ b
seen_at k f seen b e q = rw ((same_iff identity_ord k f.identity).0 q) e

pub cumulative_of-add_frames :
    (k : FrameIdentity) (v : ℤ) (seen : List FrameIdentity) (fs : List ResolvedFrame)
    (stats : Stats)
    → cumulative_of k (add_frames v seen fs stats) ≡ (
        if not (any (same identity_ord k) seen) && has_frame k fs
        then saturating_add (cumulative_of k stats) v
        else cumulative_of k stats)
unfolding add_frames
cumulative_of-add_frames k v seen [] stats = by_test (any (same identity_ord k) seen)
  where
    by_test :
        (b : Bool)
        → cumulative_of k stats ≡ (
            if not b && false
            then saturating_add (cumulative_of k stats) v
            else cumulative_of k stats)
    by_test true = refl
    by_test false = refl
cumulative_of-add_frames k v seen (f ∷ fs) stats =
    let i = same identity_ord k f.identity in
    let c = any (same identity_ord k) seen in
    elim (Bool-cases (any (same identity_ord f.identity) seen)) [
      | inl e ↦ rw e (
          cumulative_of-add_frames k v seen fs stats
          ∙ seen_value _ _ i c (has_frame k fs) (seen_at k f seen true e))
      | inr e ↦ rw e (
          cumulative_of-add_frames k v (f.identity ∷ seen) fs _
          ∙ new_value v _ (cumulative_of k stats) i c (has_frame k fs) (seen_at k f seen false e) (
              changed cumulative_or_zero k f stats _ _ (
                ap (λ x. saturating_add x v)
                  (cumulative_entry f (lookup identity_ord f.identity stats)))
              ∙ added_read cumulative_or_zero k f stats v))
    ]

value_entry :
    (frames : List ResolvedFrame) (o : Option StackStat)
    → (stack_entry frames o).value ≡ value_or_zero o
value_entry frames none = refl
value_entry frames (some s) = refl

pub value_of-add_stack :
    (key : List FrameIdentity) (v : ℤ) (frames : List ResolvedFrame) (stacks : Stacks)
    → value_of key (add_stack v frames stacks) ≡ (
        if is_stack key frames then saturating_add (value_of key stacks) v else value_of key stacks)
unfolding add_stack
value_of-add_stack [] v [] stacks = refl
value_of-add_stack (k ∷ ks) v [] stacks = refl
value_of-add_stack [] v (f ∷ fs) stacks =
    ap value_or_zero (lookup-put stack_key_ord [] (identities (f ∷ fs)) _ stacks)
value_of-add_stack (k ∷ ks) v (f ∷ fs) stacks =
    let key = identities (f ∷ fs) in
    let s = stack_entry (f ∷ fs) (lookup stack_key_ord key stacks) in
    ap value_or_zero (lookup-put stack_key_ord (k ∷ ks) key (with_value v s) stacks)
    ∙ elim (Bool-cases (same stack_key_ord (k ∷ ks) key)) [
      | inl q ↦
          rw (q, (same_iff stack_key_ord (k ∷ ks) key).0 q)
            (ap (λ x. saturating_add x v) (value_entry (f ∷ fs) (lookup stack_key_ord key stacks)))
      | inr q ↦ rw q
    ]

-- ===== src/Symbolicated/Counts.antt =====
-- src/symbolicated.rs, `TreeNode`: the count of a node is made of its own and its children's.
use Prim.Native.Nat.{◌+◌, ◌≤◌}
use pprofessor.Common.{
  ℕ, ◌%◌, ◌^◌, ◌<◌, List, [], ◌∷◌, push, map, length, get_elem?, beq, ltb, ◌&&◌, Bool, true, false,
  Option, none, some, if◌then◌else◌, ◌==◌, ◌≡◌, refl, ◌∙◌, ap, arith, Bool-cases, inl, inr,
}
use pprofessor.Common.Sets.{contains, distinct}
use pprofessor.Symbolicated.{
  Sample, TreeNode, reversed, starts_with, sum_u64, keep_samples, counts, self_count, total_count,
  next_addr, child_addrs, children, child,
}
use pprofessor.Symbolicated.Tree.{is_addr, some_next, child_addrs_from, child_addrs-distinct_from}

abbrev pub sum : List ℕ → ℕ
sum [] = 0
sum (x ∷ xs) = x + sum xs

sum_u64-sum : (xs : List ℕ) (acc : ℕ) → acc + sum xs < 2 ^ 64 → sum_u64 acc xs ≡ acc + sum xs
unfolding sum_u64
sum_u64-sum [] acc h = omega arith
sum_u64-sum (x ∷ xs) acc h = omega (arith, sum_u64-sum xs ((acc + x) % 2 ^ 64) (omega arith))

-- The counts of the samples that pass a test.
abbrev pub weight : (Sample → Bool) → List Sample → ℕ
weight p [] = 0
weight p (s ∷ ss) = (if p s then s.count else 0) + weight p ss

sum-keep_samples :
    (p : Sample → Bool) (ss : List Sample) → sum (counts (keep_samples p ss)) ≡ weight p ss
unfolding keep_samples
sum-keep_samples p [] = refl
sum-keep_samples p (s ∷ ss) = ground (arith, sum-keep_samples p ss)

weight_bound : (p : Sample → Bool) (ss : List Sample) → weight p ss ≤ sum (counts ss)
weight_bound p [] = omega arith
weight_bound p (s ∷ ss) = ground (arith, weight_bound p ss)

-- Three tests of which the first holds exactly where one of the other two does.
weight_split :
    (p q r : Sample → Bool) (ss : List Sample)
    → ((s : Sample)
        → (if p s then s.count else 0)
          ≡ (if q s then s.count else 0) + (if r s then s.count else 0))
    → weight p ss ≡ weight q ss + weight r ss
weight_split p q r [] h = refl
weight_split p q r (s ∷ ss) h = omega (arith, h s, weight_split p q r ss h)

abbrev found_in : List ℕ → Option ℕ → Bool
found_in xs none = false
found_in xs (some a) = contains a xs

abbrev weights : List ℕ → (Sample → Option ℕ) → List Sample → List ℕ
weights xs next ss = map (λ a. weight (λ s. is_addr a (next s)) ss) xs

weight-false : (ss : List Sample) → weight (λ s. false) ss ≡ 0
weight-false [] = refl
weight-false (s ∷ ss) = omega (arith, weight-false ss)

found_in-nil :
    (next : Sample → Option ℕ) (ss : List Sample) → weight (λ s. found_in [] (next s)) ss ≡ 0
found_in-nil next [] = refl
found_in-nil next (s ∷ ss) = by_next (next s) (found_in-nil next ss)
  where
    by_next :
        (o : Option ℕ)
        → weight (λ t. found_in [] (next t)) ss ≡ 0
        → (if found_in [] o then s.count else 0) + weight (λ t. found_in [] (next t)) ss ≡ 0
    by_next none h = omega (arith, h)
    by_next (some a) h = omega (arith, h)

weights-sum :
    (xs : List ℕ) (next : Sample → Option ℕ) (ss : List Sample)
    → distinct xs ≡ true
    → weight (λ s. found_in xs (next s)) ss ≡ sum (weights xs next ss)
weights-sum [] next ss d = found_in-nil next ss
weights-sum (x ∷ xs) next ss d =
    weight_split (λ s. found_in (x ∷ xs) (next s)) (λ s. is_addr x (next s))
      (λ s. found_in xs (next s)) ss (λ s. by_next s.count (next s))
    ∙ ap (λ m. weight (λ s. is_addr x (next s)) ss + m) (weights-sum xs next ss tail_distinct)
  where
    tail_distinct : distinct xs ≡ true
    tail_distinct = ground arith

    x_new : contains x xs ≡ false
    x_new = ground arith

    by_next :
        (c : ℕ) (o : Option ℕ)
        → (if found_in (x ∷ xs) o then c else 0)
          ≡ (if is_addr x o then c else 0) + (if found_in xs o then c else 0)
    by_next c none = refl
    by_next c (some a) = elim (Bool-cases (a == x)) [
      | inl e ↦ let p : a ≡ x = ground arith in rw (p, x_new) (ground arith)
      | inr e ↦ ground arith
    ]

abbrev pub is_found : Option ℕ → Bool
is_found none = false
is_found (some a) = true

-- Where every address that some sample has next is in the list, being in it is being there at all.
weight_all :
    (xs prefix : List ℕ) (ss : List Sample)
    → ((a : ℕ) → some_next a prefix ss ≡ true → contains a xs ≡ true)
    → weight (λ s. found_in xs (next_addr prefix s)) ss
      ≡ weight (λ s. is_found (next_addr prefix s)) ss
weight_all xs prefix [] h = refl
weight_all xs prefix (s ∷ ss) h = omega (
  arith,
  by_next (next_addr prefix s) (λ a e. h a (first a (next_addr prefix s) e)),
  weight_all xs prefix ss (λ a e. h a (later a (next_addr prefix s) e)),
)
  where
    first :
        (a : ℕ) (o : Option ℕ)
        → is_addr a o ≡ true
        → (if is_addr a o then true else some_next a prefix ss) ≡ true
    first a o e = rw e refl

    later :
        (a : ℕ) (o : Option ℕ)
        → some_next a prefix ss ≡ true
        → (if is_addr a o then true else some_next a prefix ss) ≡ true
    later a o e = elim (Bool-cases (is_addr a o)) [ inl p ↦ rw p refl | inr p ↦ rw p e ]

    by_next :
        (o : Option ℕ)
        → ((a : ℕ) → is_addr a o ≡ true → contains a xs ≡ true)
        → (if found_in xs o then s.count else 0) ≡ (if is_found o then s.count else 0)
    by_next none k = refl
    by_next (some a) k = rw (k a (ground arith)) refl

-- `starts_with`, equality and the next address, on the reversed stack itself.
abbrev pub next_in : List ℕ → List ℕ → Option ℕ
next_in rev prefix =
    if ltb (length prefix) (length rev) && starts_with rev prefix
    then get_elem? rev (length prefix)
    else none

abbrev same_list : List ℕ → List ℕ → Bool
same_list rev prefix = length rev == length prefix && beq rev prefix

split_prefix :
    (c : ℕ) (rev prefix : List ℕ)
    → (if starts_with rev prefix then c else 0)
      ≡ (if same_list rev prefix then c else 0) + (if is_found (next_in rev prefix) then c else 0)
unfolding starts_with
split_prefix c [] [] = ground arith
split_prefix c [] (p ∷ ps) = ground arith
split_prefix c (x ∷ xs) [] = ground arith
split_prefix c (x ∷ xs) (p ∷ ps) = ground (arith, split_prefix c xs ps)

starts_with-push :
    (a : ℕ) (rev prefix : List ℕ) → starts_with rev (push prefix a) ≡ is_addr a (next_in rev prefix)
unfolding starts_with
starts_with-push a [] [] = refl
starts_with-push a [] (p ∷ ps) = ground arith
starts_with-push a (x ∷ xs) [] = ground arith
starts_with-push a (x ∷ xs) (p ∷ ps) = ground (arith, starts_with-push a xs ps)

module _ (n : TreeNode) where
  abbrev below : List Sample → ℕ
  below ss = weight (λ s. is_found (next_addr n.prefix s)) ss

  total-split :
      (ss : List Sample)
      → weight (λ s. starts_with (reversed s.stack) n.prefix) ss
        ≡ weight (λ s. same_list (reversed s.stack) n.prefix) ss + below ss
  total-split ss = weight_split _ _ _ ss (λ s. split_prefix s.count (reversed s.stack) n.prefix)

  exact :
      (p : Sample → Bool)
      → sum (counts n.profile.samples) < 2 ^ 64
      → sum_u64 0 (counts (keep_samples p n.profile.samples)) ≡ weight p n.profile.samples
  exact p h =
      sum_u64-sum (counts (keep_samples p n.profile.samples)) 0
        (omega (arith, sum-keep_samples p n.profile.samples, weight_bound p n.profile.samples))
      ∙ omega (arith, sum-keep_samples p n.profile.samples)

  weight_same :
      (p q : Sample → Bool) (ss : List Sample)
      → ((s : Sample) → p s ≡ q s)
      → weight p ss ≡ weight q ss
  weight_same p q [] h = refl
  weight_same p q (s ∷ ss) h =
      omega (arith, ap (λ b. if b then s.count else 0) (h s), weight_same p q ss h)

  child-total :
      (a : ℕ)
      → sum (counts n.profile.samples) < 2 ^ 64
      → total_count (child n a) ≡ weight (λ s. is_addr a (next_addr n.prefix s)) n.profile.samples
  unfolding total_count
  child-total a h =
      exact (λ s. starts_with (reversed s.stack) (push n.prefix a)) h
      ∙ weight_same _ _ n.profile.samples (λ s. starts_with-push a (reversed s.stack) n.prefix)

  totals_of :
      (xs : List ℕ)
      → sum (counts n.profile.samples) < 2 ^ 64
      → map total_count (map (child n) xs) ≡ weights xs (next_addr n.prefix) n.profile.samples
  totals_of [] h = refl
  totals_of (x ∷ xs) h =
      ap (λ m. m ∷ map total_count (map (child n) xs)) (child-total x h)
      ∙ ap (λ l. weight (λ s. is_addr x (next_addr n.prefix s)) n.profile.samples ∷ l)
          (totals_of xs h)

-- Where the counts of all samples together fit a u64, the total of a node is its own count and the
-- totals of its children.
pub total_count-children :
    (n : TreeNode)
    → sum (counts n.profile.samples) < 2 ^ 64
    → total_count n ≡ self_count n + sum (map total_count (children n))
unfolding total_count self_count children
total_count-children n h =
    exact n (λ s. starts_with (reversed s.stack) n.prefix) h
    ∙ total-split n n.profile.samples
    ∙ omega (
      arith,
      exact n (λ s. same_list (reversed s.stack) n.prefix) h,
      ap sum (totals_of n xs h),
      weights-sum xs (next_addr n.prefix) n.profile.samples
          (child_addrs-distinct_from n.prefix n.profile.samples [] refl),
      weight_all xs n.prefix n.profile.samples
          (λ a e. child_addrs_from n.prefix n.profile.samples [] a ∙ e),
    )
  where
    xs : List ℕ
    xs = child_addrs n.prefix n.profile.samples []

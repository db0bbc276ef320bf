-- ===== src/Common/Sets.antt =====
-- Sets of numbers as lists in which no number stands twice: `Vec::contains`, and `HashSet::insert`.
use Prim.Native.Nat.{ℕ, ◌+◌, ◌≤◌}
use mathlib.Core.Path.{◌≡◌, refl, ◌∙◌}
use mathlib.Core.Logic.{◌↔◌, inl, inr}
use mathlib.Core.Bool.{Bool, true, false}
use mathlib.Core.List.{List, [], ◌∷◌}
use native.Mathlib.Decide.{ℕ_discrete}
use native.Mathlib.Omega.{arith}
use pprofessor.Common.Tests.{◌==◌, if◌then◌else◌, Bool-cases}
use pprofessor.Common.Lists.{length, push, length-append}

abbrev pub contains : ℕ → List ℕ → Bool
contains a [] = false
contains a (x ∷ xs) = if a == x then true else contains a xs

-- `if !xs.contains(&a) { xs.push(a) }`
abbrev pub push_new : List ℕ → ℕ → List ℕ
push_new xs a = if contains a xs then xs else push xs a

-- No number stands twice in the list.
abbrev pub distinct : List ℕ → Bool
distinct [] = true
distinct (x ∷ xs) = if contains x xs then false else distinct xs

pub contains-push :
    (a x : ℕ) (xs : List ℕ) → contains a (push xs x) ≡ (if contains a xs then true else a == x)
contains-push a x [] = ground arith
contains-push a x (y ∷ ys) = ground (arith, contains-push a x ys)

pub contains-push_new :
    (a x : ℕ) (xs : List ℕ) → contains a (push_new xs x) ≡ (if contains a xs then true else a == x)
contains-push_new a x xs = elim (Bool-cases (contains x xs)) [
  | inl e ↦ rw e (elim (ℕ_discrete a x) [ yes p ↦ rw (p, e) refl | no p ↦ ground arith ])
  | inr e ↦ rw e (contains-push a x xs)
]

pub distinct-push :
    (x : ℕ) (xs : List ℕ) → contains x xs ≡ false → distinct xs ≡ true → distinct (push xs x) ≡ true
distinct-push x [] c d = refl
distinct-push x (y ∷ ys) c d = ground (arith, contains-push y x ys, distinct-push x ys)

pub distinct-push_new : (x : ℕ) (xs : List ℕ) → distinct xs ≡ true → distinct (push_new xs x) ≡ true
distinct-push_new x xs d = elim (Bool-cases (contains x xs)) [
  | inl e ↦ rw e d
  | inr e ↦ rw e (distinct-push x xs e d)
]

-- `iter().collect::<HashSet<_>>()`, behind the numbers that are in the set.
unfoldable pub collect_set : List ℕ → List ℕ → List ℕ
collect_set seen [] = seen
collect_set seen (x ∷ xs) = collect_set (push_new seen x) xs

pub contains-collect_set :
    (a : ℕ) (xs seen : List ℕ)
    → contains a (collect_set seen xs) ≡ (if contains a seen then true else contains a xs)
unfolding collect_set
contains-collect_set a [] seen = ground arith
contains-collect_set a (x ∷ xs) seen =
    contains-collect_set a xs (push_new seen x) ∙ rw (contains-push_new a x seen) (ground arith)

-- None of the numbers is in the set, and none stands twice.
abbrev pub new_to : List ℕ → List ℕ → Bool
new_to seen [] = true
new_to seen (x ∷ xs) = if contains x seen then false else new_to (push seen x) xs

length-collect_set_le : (xs seen : List ℕ) → length (collect_set seen xs) ≤ length seen + length xs
unfolding collect_set
length-collect_set_le [] seen = omega arith
length-collect_set_le (x ∷ xs) seen = elim (Bool-cases (contains x seen)) [
  | inl e ↦ rw e (omega (arith, length-collect_set_le xs seen))
  | inr e ↦
      rw e (omega (arith, length-collect_set_le xs (push seen x), length-append seen (x ∷ [])))
]

length-collect_set_iff :
    (xs seen : List ℕ)
    → (length (collect_set seen xs) ≡ length seen + length xs) ↔ (new_to seen xs ≡ true)
unfolding collect_set
length-collect_set_iff [] seen = (λ _. refl, λ _. omega arith)
length-collect_set_iff (x ∷ xs) seen = elim (Bool-cases (contains x seen)) [
  | inl e ↦ rw e (λ q. absurd (omega (arith, length-collect_set_le xs seen, q)), λ q. cc)
  | inr e ↦
      let ih = length-collect_set_iff xs (push seen x) in
      let l : length (push seen x) ≡ length seen + 1 = length-append seen (x ∷ []) in
      rw e (λ q. ih.0 (omega (arith, l, q)), λ q. omega (arith, l, ih.1 q))
]

-- None of the numbers is in the set.
abbrev apart : List ℕ → List ℕ → Bool
apart seen [] = true
apart seen (x ∷ xs) = if contains x seen then false else apart seen xs

apart-push :
    (x : ℕ) (seen xs : List ℕ)
    → apart (push seen x) xs ≡ (if contains x xs then false else apart seen xs)
apart-push x seen [] = refl
apart-push x seen (y ∷ ys) = rw (contains-push y x seen) (ground (arith, apart-push x seen ys))

new_to_split : (xs seen : List ℕ) → new_to seen xs ≡ (if apart seen xs then distinct xs else false)
new_to_split [] seen = refl
new_to_split (x ∷ xs) seen = elim (Bool-cases (contains x seen)) [
  | inl e ↦ rw e
  | inr e ↦ rw e (
      new_to_split xs (push seen x)
      ∙ rw (apart-push x seen xs) (by_tests (contains x xs) (apart seen xs) (distinct xs)))
]
  where
    by_tests :
        (b c d : Bool)
        → (if (if b then false else c) then d else false)
          ≡ (if c then (if b then false else d) else false)
    by_tests true true d = refl
    by_tests true false d = refl
    by_tests false true d = refl
    by_tests false false d = refl

apart-nil : (xs : List ℕ) → apart [] xs ≡ true
apart-nil [] = refl
apart-nil (x ∷ xs) = apart-nil xs

-- The set of a list has as many members as the list exactly when no number stands twice in it.
pub length-collect_set :
    (xs : List ℕ) → (length (collect_set [] xs) ≡ length xs) ↔ (distinct xs ≡ true)
length-collect_set xs =
    let counted = length-collect_set_iff xs [] in
    let same : new_to [] xs ≡ distinct xs = new_to_split xs [] ∙ rw (apart-nil xs) in
    (λ e. rw (← same) (counted.0 (omega (arith, e))), λ d. omega (arith, counted.1 (same ∙ d)))

-- ===== src/Common/Sort.antt =====
-- `sort_by`, a stable sort by a comparison, and what it keeps.
use Prim.Native.Nat.{ℕ, ◌≤◌, Ordering}
use mathlib.Core.Path.{◌≡◌}
use mathlib.Core.Logic.{inl, inr}
use mathlib.Core.Bool.{Bool, true, false}
use mathlib.Core.List.{List, [], ◌∷◌, map, Perm}
use mathlib.Core.List.Perm
use pprofessor.Common.Tests.{if◌then◌else◌, Bool-cases}
use pprofessor.Common.Lists.{All}

abbrev pub is_gt : Ordering → Bool
is_gt Ordering.lt = false
is_gt Ordering.eq = false
is_gt Ordering.gt = true

-- The larger number first.
abbrev pub IsDescending : List ℕ → Type 0
IsDescending [] = Unit {0}
IsDescending (x ∷ []) = Unit {0}
IsDescending (x ∷ y ∷ ys) = (y ≤ x) × IsDescending (y ∷ ys)

module _ {A : Type 0} (cmp : A → A → Ordering) where
  unfoldable pub insert_by : A → List A → List A
  insert_by x [] = x ∷ []
  insert_by x (y ∷ ys) =
      let behind = y ∷ insert_by x ys in if is_gt (cmp x y) then behind else x ∷ y ∷ ys

  unfoldable pub sort_by : List A → List A
  unfolding insert_by
  sort_by [] = []
  sort_by (x ∷ xs) = insert_by x (sort_by xs)

  insert_by-Perm : (x : A) (ys : List A) → Perm (insert_by x ys) (x ∷ ys)
  unfolding insert_by
  insert_by-Perm x [] = Perm.rfl
  insert_by-Perm x (y ∷ ys) = elim (Bool-cases (is_gt (cmp x y))) [
    | inl e ↦ rw e (Perm.trans (Perm.cons y (insert_by-Perm x ys)) (Perm.swap x y ys))
    | inr e ↦ rw e Perm.rfl
  ]

  pub sort_by-Perm : (xs : List A) → Perm (sort_by xs) xs
  unfolding sort_by
  sort_by-Perm [] = Perm.rfl
  sort_by-Perm (x ∷ xs) = Perm.trans (insert_by-Perm x (sort_by xs)) (Perm.cons x (sort_by-Perm xs))

  module _ {κ} (P : A → Type κ) where
    insert_by-All : (x : A) (ys : List A) → P x → All P ys → All P (insert_by x ys)
    unfolding insert_by
    insert_by-All x [] h k = (h, tt)
    insert_by-All x (y ∷ ys) h (k, ks) =
        by_test (is_gt (cmp x y)) (k, insert_by-All x ys h ks) (h, (k, ks))
      where
        by_test :
            (b : Bool)
            → All P (y ∷ insert_by x ys)
            → All P (x ∷ y ∷ ys)
            → All P (if b then y ∷ insert_by x ys else x ∷ y ∷ ys)
        by_test true u w = u
        by_test false u w = w

    pub sort_by-All : (xs : List A) → All P xs → All P (sort_by xs)
    unfolding sort_by
    sort_by-All [] h = h
    sort_by-All (x ∷ xs) (h, hs) = insert_by-All x (sort_by xs) h (sort_by-All xs hs)

  -- A measure that decreases along the comparison.
  module _ (rank : A → ℕ) (after : (x y : A) → is_gt (cmp x y) ≡ true → rank x ≤ rank y)
      (before : (x y : A) → is_gt (cmp x y) ≡ false → rank y ≤ rank x) where
    insert_behind :
        (x y : A) (ys : List A)
        → is_gt (cmp x y) ≡ true
        → IsDescending (map rank (y ∷ ys))
        → IsDescending (map rank (insert_by x ys))
        → IsDescending (map rank (y ∷ insert_by x ys))
    unfolding insert_by
    insert_behind x y [] g h k = (after x y g, tt)
    insert_behind x y (z ∷ zs) g h k = by_test (is_gt (cmp x z)) k
      where
        by_test :
            (b : Bool)
            → IsDescending (map rank (if b then z ∷ insert_by x zs else x ∷ z ∷ zs))
            → IsDescending (map rank (y ∷ (if b then z ∷ insert_by x zs else x ∷ z ∷ zs)))
        by_test true u = (h.0, u)
        by_test false u = (after x y g, u)

    insert_by-IsDescending :
        (x : A) (ys : List A)
        → IsDescending (map rank ys)
        → IsDescending (map rank (insert_by x ys))
    unfolding insert_by
    insert_by-IsDescending x [] h = tt
    insert_by-IsDescending x (y ∷ ys) h = elim (Bool-cases (is_gt (cmp x y))) [
      | inl e ↦ rw e (insert_behind x y ys e h (insert_by-IsDescending x ys (rest_of ys h)))
      | inr e ↦ rw e (before x y e, h)
    ]
      where
        rest_of : (zs : List A) → IsDescending (map rank (y ∷ zs)) → IsDescending (map rank zs)
        rest_of [] u = tt
        rest_of (z ∷ zs) u = u.1

    pub sort_by-IsDescending : (xs : List A) → IsDescending (map rank (sort_by xs))
    unfolding sort_by
    sort_by-IsDescending [] = tt
    sort_by-IsDescending (x ∷ xs) = insert_by-IsDescending x (sort_by xs) (sort_by-IsDescending xs)

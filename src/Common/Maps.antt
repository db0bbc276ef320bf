-- ===== src/Common/Maps.antt =====
-- Maps with ordered keys, as association lists. `insert` keeps the order of a `BTreeMap`; a
-- `HashMap`, which has none, is such a list too, and nothing is proved of its order.
use Prim.Native.Nat.{Ordering}
use mathlib.Core.Path.{◌≡◌, refl, ◌∙◌}
use mathlib.Core.Logic.{◌↔◌, inl, inr}
use mathlib.Core.Bool.{Bool, true, false}
use mathlib.Core.List.{List, [], ◌∷◌, map}
use mathlib.Core.Option.{Option, none, some}
use native.Mathlib.Omega.{arith}
use pprofessor.Common.Tests.{if◌then◌else◌, Bool-cases}
use pprofessor.Common.Lists.{All}
use pprofessor.Common.Ord.{Ord}

module _ {K : Type 0} (o : Ord K) where
  abbrev pub same : K → K → Bool
  same a b = elim (o.cmp a b) [ Ordering.eq ↦ true | _ ↦ false ]

  pub same_iff : (a b : K) → (same a b ≡ true) ↔ (a ≡ b)
  same_iff a b = ground (arith, o.cmp_iff a b)

  pub same_comm : (a b : K) → same a b ≡ same b a
  same_comm a b = ground (arith, o.cmp_iff a b, o.cmp_iff b a)

  module _ {ℓ} {V : Type ℓ} where
    unfoldable pub lookup : K → List (K × V) → Option V
    lookup k [] = none
    lookup k ((j, v) ∷ m) = if same k j then some v else lookup k m

    unfoldable pub insert : K → V → List (K × V) → List (K × V)
    insert k v [] = (k, v) ∷ []
    insert k v ((j, w) ∷ m) =
        let behind = (j, w) ∷ insert k v m in
        elim (o.cmp k j) [
          | Ordering.lt ↦ (k, v) ∷ (j, w) ∷ m
          | Ordering.eq ↦ (k, v) ∷ m
          | Ordering.gt ↦ behind
        ]

    unfoldable pub remove : K → List (K × V) → List (K × V)
    remove k [] = []
    remove k ((j, v) ∷ m) = if same k j then remove k m else (j, v) ∷ remove k m

    pub lookup-insert :
        (j k : K) (v : V) (m : List (K × V))
        → lookup j (insert k v m) ≡ (if same j k then some v else lookup j m)
    unfolding lookup insert
    lookup-insert j k v [] = refl
    lookup-insert j k v ((i, w) ∷ m) =
        ground (arith, o.cmp_iff j k, o.cmp_iff k i, o.cmp_iff j i, lookup-insert j k v m)

    pub lookup-remove :
        (j k : K) (m : List (K × V))
        → lookup j (remove k m) ≡ (if same j k then none else lookup j m)
    unfolding lookup remove
    lookup-remove j k [] = ground arith
    lookup-remove j k ((i, w) ∷ m) =
        ground (arith, o.cmp_iff j k, o.cmp_iff k i, o.cmp_iff j i, lookup-remove j k m)

    -- `HashMap::insert`: a new key goes to the end.
    unfoldable pub put : K → V → List (K × V) → List (K × V)
    put k v [] = (k, v) ∷ []
    put k v ((j, w) ∷ m) =
        let behind = (j, w) ∷ put k v m in if same k j then (k, v) ∷ m else behind

    pub lookup-put :
        (j k : K) (v : V) (m : List (K × V))
        → lookup j (put k v m) ≡ (if same j k then some v else lookup j m)
    unfolding lookup put
    lookup-put j k v [] = refl
    lookup-put j k v ((i, w) ∷ m) =
        ground (arith, o.cmp_iff j k, o.cmp_iff k i, o.cmp_iff j i, lookup-put j k v m)

    -- No key stands twice.
    unfoldable pub HasKeysOnce : List (K × V) → Type ℓ
    HasKeysOnce [] = Unit {ℓ}
    HasKeysOnce ((k, v) ∷ m) = (lookup k m ≡ none) × HasKeysOnce m

    pub put-HasKeysOnce :
        (k : K) (v : V) (m : List (K × V)) → HasKeysOnce m → HasKeysOnce (put k v m)
    unfolding put HasKeysOnce lookup
    put-HasKeysOnce k v [] h = (refl, tt)
    put-HasKeysOnce k v ((j, w) ∷ m) h = elim (Bool-cases (same k j)) [
      | inl e ↦ rw (e, (same_iff k j).0 e) h
      | inr e ↦ rw e (
        lookup-put j k v m ∙ ground (arith, e, o.cmp_iff j k, o.cmp_iff k j, h.0),
        put-HasKeysOnce k v m h.1,
      )
    ]

    -- What holds of every value that is found holds of every value.
    pub found-All {κ} :
        (P : V → Type κ) (m : List (K × V))
        → HasKeysOnce m
        → ((k : K) (v : V) → lookup k m ≡ some v → P v)
        → All P (map (λ (e : K × V). e.1) m)
    unfolding HasKeysOnce lookup
    found-All P [] once h = tt
    found-All P ((k, v) ∷ m) once h = (
      h k v (rw ((same_iff k k).1 refl) refl),
      found-All P m once.1 (λ j w e. h j w (kept j w e (same j k) refl)),
    )
      where
        kept :
            (j : K) (w : V)
            → lookup j m ≡ some w
            → (b : Bool) → same j k ≡ b
            → (if b then some v else lookup j m) ≡ some w
        kept j w e false q = e
        kept j w e true q =
            let none_there : lookup j m ≡ none = rw ((same_iff j k).0 q) once.0 in cc

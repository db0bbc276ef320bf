-- ===== src/Common/Ord.antt =====
-- Rust's derived orders: a comparison for each type, equal exactly on equal values.
use Prim.Native.Nat.{ℕ, compare, Ordering}
use mathlib.Core.Path.{◌≡◌, refl, sym, ap, ap₂, ◌∙◌}
use mathlib.Core.Logic.{◌↔◌}
use mathlib.Core.List.{List, [], ◌∷◌}
use mathlib.Core.Option.{Option, none, some}
use native.Mathlib.Omega.{arith}
use pprofessor.Common.Int.{ℤ, pos, negsuc}

pub record Ord (A : Type 0) : Type 0 where
  pub cmp : A → A → Ordering
  pub cmp_iff : (a b : A) → (cmp a b ≡ Ordering.eq) ↔ (a ≡ b)

-- The second comparison counts where the first is equal.
abbrev pub then_cmp : Ordering → Ordering → Ordering
then_cmp Ordering.lt o = Ordering.lt
then_cmp Ordering.eq o = o
then_cmp Ordering.gt o = Ordering.gt

pub then_cmp_iff :
    (a b : Ordering) → (then_cmp a b ≡ Ordering.eq) ↔ ((a ≡ Ordering.eq) × (b ≡ Ordering.eq))
then_cmp_iff Ordering.lt b = ground arith
then_cmp_iff Ordering.eq b = ground arith
then_cmp_iff Ordering.gt b = ground arith

pub compare_iff : (a b : ℕ) → (compare a b ≡ Ordering.eq) ↔ (a ≡ b)
compare_iff a b = ground arith

abbrev pub nat_ord : Ord ℕ
nat_ord = record { cmp = compare; cmp_iff = compare_iff }

abbrev pub cmp_ℤ : ℤ → ℤ → Ordering
cmp_ℤ (pos a) (pos b) = compare a b
cmp_ℤ (pos a) (negsuc b) = Ordering.gt
cmp_ℤ (negsuc a) (pos b) = Ordering.lt
cmp_ℤ (negsuc a) (negsuc b) = compare b a

pub cmp_ℤ_iff : (a b : ℤ) → (cmp_ℤ a b ≡ Ordering.eq) ↔ (a ≡ b)
cmp_ℤ_iff (pos a) (pos b) = ground arith
cmp_ℤ_iff (pos a) (negsuc b) = ground arith
cmp_ℤ_iff (negsuc a) (pos b) = ground arith
cmp_ℤ_iff (negsuc a) (negsuc b) = ground arith

abbrev pub int_ord : Ord ℤ
int_ord = record { cmp = cmp_ℤ; cmp_iff = cmp_ℤ_iff }

module _ {A : Type 0} (o : Ord A) where
  abbrev pub cmp_list : List A → List A → Ordering
  cmp_list [] [] = Ordering.eq
  cmp_list [] (y ∷ ys) = Ordering.lt
  cmp_list (x ∷ xs) [] = Ordering.gt
  cmp_list (x ∷ xs) (y ∷ ys) = then_cmp (o.cmp x y) (cmp_list xs ys)

  pub cmp_list_iff : (xs ys : List A) → (cmp_list xs ys ≡ Ordering.eq) ↔ (xs ≡ ys)
  cmp_list_iff [] [] = (λ _. refl, λ _. refl)
  cmp_list_iff [] (y ∷ ys) = (λ e. cc, λ e. cc)
  cmp_list_iff (x ∷ xs) [] = (λ e. cc, λ e. cc)
  cmp_list_iff (x ∷ xs) (y ∷ ys) =
      let heads = o.cmp_iff x y in
      let tails = cmp_list_iff xs ys in
      let both = then_cmp_iff (o.cmp x y) (cmp_list xs ys) in
      (
        λ e. ap₂ (λ a l. a ∷ l) (heads.0 (both.0 e).0) (tails.0 (both.0 e).1),
        λ e. both.1 (heads.1 (cc), tails.1 (cc)),
      )

  abbrev pub list_ord : Ord (List A)
  list_ord = record { cmp = cmp_list; cmp_iff = cmp_list_iff }

  abbrev pub cmp_option : Option A → Option A → Ordering
  cmp_option none none = Ordering.eq
  cmp_option none (some b) = Ordering.lt
  cmp_option (some a) none = Ordering.gt
  cmp_option (some a) (some b) = o.cmp a b

  pub cmp_option_iff : (a b : Option A) → (cmp_option a b ≡ Ordering.eq) ↔ (a ≡ b)
  cmp_option_iff none none = (λ _. refl, λ _. refl)
  cmp_option_iff none (some b) = (λ e. cc, λ e. cc)
  cmp_option_iff (some a) none = (λ e. cc, λ e. cc)
  cmp_option_iff (some a) (some b) =
      (λ e. ap some ((o.cmp_iff a b).0 e), λ e. (o.cmp_iff a b).1 (cc))

  abbrev pub option_ord : Ord (Option A)
  option_ord = record { cmp = cmp_option; cmp_iff = cmp_option_iff }

abbrev pub bytes_ord : Ord (List ℕ)
bytes_ord = list_ord nat_ord

module _ {A B : Type 0} (o : Ord A) (p : Ord B) where
  abbrev pub cmp_pair : A × B → A × B → Ordering
  cmp_pair x y = then_cmp (o.cmp x.0 y.0) (p.cmp x.1 y.1)

  pub cmp_pair_iff : (x y : A × B) → (cmp_pair x y ≡ Ordering.eq) ↔ (x ≡ y)
  cmp_pair_iff x y =
      let both = then_cmp_iff (o.cmp x.0 y.0) (p.cmp x.1 y.1) in
      (
        λ e.
            ap₂ (λ a b. (a, b)) ((o.cmp_iff x.0 y.0).0 (both.0 e).0)
              ((p.cmp_iff x.1 y.1).0 (both.0 e).1),
        λ e. both.1 (
          (o.cmp_iff x.0 y.0).1 (ap (λ (z : A × B). z.0) e),
          (p.cmp_iff x.1 y.1).1 (ap (λ (z : A × B). z.1) e),
        ),
      )

  -- Field after field.
  abbrev pub pair_ord : Ord (A × B)
  pair_ord = record { cmp = cmp_pair; cmp_iff = cmp_pair_iff }

module _ {A B : Type 0} (o : Ord B) (key : A → B) (back : B → A)
    (inv : (a : A) → back (key a) ≡ a) where
  pub cmp_key_iff : (x y : A) → (o.cmp (key x) (key y) ≡ Ordering.eq) ↔ (x ≡ y)
  cmp_key_iff x y = (
    λ e. sym (inv x) ∙ ap back ((o.cmp_iff (key x) (key y)).0 e) ∙ inv y,
    λ e. (o.cmp_iff (key x) (key y)).1 (ap key e),
  )

  -- The order of a record, by the tuple of its fields.
  abbrev pub key_ord : Ord A
  key_ord = record { cmp = λ x y. o.cmp (key x) (key y); cmp_iff = cmp_key_iff }

-- ===== src/Symbolicated/Tree.antt =====
-- src/symbolicated.rs, `TreeNode::children`: which addresses have a child, and that none has two.
use mathlib.Core.List.{reverse, reverse-cons}
use pprofessor.Common.{
  ℕ, suc, List, [], ◌∷◌, push, any, length, get_elem?, ltb, ◌&&◌, Bool-cases, inl, inr, sym, map,
  Bool, true, false, Option, none, some, if◌then◌else◌, ◌==◌, ◌≡◌, refl, ◌∙◌, ap, arith,
}
use pprofessor.Common.Sets.{contains, distinct, distinct-push_new, contains-push_new}
use pprofessor.Symbolicated.{
  Sample, TreeNode, reversed, starts_with, push_found, next_addr, child_addrs, children, child,
}

abbrev pub is_addr : ℕ → Option ℕ → Bool
is_addr a none = false
is_addr a (some b) = a == b

-- Some sample has the address directly below the prefix.
abbrev pub some_next : ℕ → List ℕ → List Sample → Bool
some_next a prefix [] = false
some_next a prefix (s ∷ ss) = if is_addr a (next_addr prefix s) then true else some_next a prefix ss

-- The address stands directly below the prefix in a stack that is root first.
abbrev pub is_below : ℕ → List ℕ → List ℕ → Bool
is_below a [] [] = false
is_below a [] (x ∷ rev) = a == x
is_below a (p ∷ prefix) [] = false
is_below a (p ∷ prefix) (x ∷ rev) = if p == x then is_below a prefix rev else false

is_below-next :
    (a : ℕ) (prefix rev : List ℕ)
    → is_addr a (
        if ltb (length prefix) (length rev) && starts_with rev prefix
        then get_elem? rev (length prefix)
        else none)
      ≡ is_below a prefix rev
unfolding starts_with
is_below-next a [] [] = refl
is_below-next a [] (x ∷ rev) = ground arith
is_below-next a (p ∷ prefix) [] = ground arith
is_below-next a (p ∷ prefix) (x ∷ rev) = elim (Bool-cases (x == p)) [
  | inl e ↦
      let q : p == x ≡ true = ground arith in
      rw (e, q)
        (ap (is_addr a) (one_less (starts_with rev prefix) (get_elem? rev (length prefix)))
          ∙ is_below-next a prefix rev)
  | inr e ↦ let q : p == x ≡ false = ground arith in rw (e, q) (ground arith)
]
  where
    one_less :
        (b : Bool) (o : Option ℕ)
        → (if ltb (suc (length prefix)) (suc (length rev)) && b then o else none)
          ≡ (if ltb (length prefix) (length rev) && b then o else none)
    one_less b o = ground arith

reversed-reverse : (xs : List ℕ) → reversed xs ≡ reverse xs
unfolding reversed
reversed-reverse [] = refl
reversed-reverse (x ∷ xs) = ap (λ l. push l x) (reversed-reverse xs) ∙ sym (reverse-cons x xs)

-- Some sample's stack, which is leaf first, has the address directly below the prefix.
abbrev pub below_some : ℕ → List ℕ → List Sample → Bool
below_some a prefix ss = any (λ (s : Sample). is_below a prefix (reverse s.stack)) ss

some_next-below :
    (a : ℕ) (prefix : List ℕ) (ss : List Sample) → some_next a prefix ss ≡ below_some a prefix ss
some_next-below a prefix [] = refl
some_next-below a prefix (s ∷ ss) =
    rw
      (
        is_below-next a prefix (reversed s.stack),
        reversed-reverse s.stack,
        some_next-below a prefix ss,
      )
      refl

distinct-push_found :
    (o : Option ℕ) (xs : List ℕ) → distinct xs ≡ true → distinct (push_found xs o) ≡ true
distinct-push_found none xs d = d
distinct-push_found (some x) xs d = distinct-push_new x xs d

contains-push_found :
    (a : ℕ) (o : Option ℕ) (xs : List ℕ)
    → contains a (push_found xs o) ≡ (if contains a xs then true else is_addr a o)
contains-push_found a none xs = ground arith
contains-push_found a (some x) xs = contains-push_new a x xs

pub child_addrs_from :
    (prefix : List ℕ) (ss : List Sample) (found : List ℕ) (a : ℕ)
    → contains a (child_addrs prefix ss found)
      ≡ (if contains a found then true else some_next a prefix ss)
unfolding child_addrs
child_addrs_from prefix [] found a = ground arith
child_addrs_from prefix (s ∷ ss) found a =
    child_addrs_from prefix ss (push_found found (next_addr prefix s)) a
    ∙ rw (contains-push_found a (next_addr prefix s) found)
        (by_test (contains a found) (is_addr a (next_addr prefix s)))
  where
    by_test :
        (b c : Bool)
        → (if (if b then true else c) then true else some_next a prefix ss)
          ≡ (if b then true else (if c then true else some_next a prefix ss))
    by_test true c = refl
    by_test false true = refl
    by_test false false = refl

pub child_addrs-distinct_from :
    (prefix : List ℕ) (ss : List Sample) (found : List ℕ)
    → distinct found ≡ true
    → distinct (child_addrs prefix ss found) ≡ true
unfolding child_addrs
child_addrs-distinct_from prefix [] found d = d
child_addrs-distinct_from prefix (s ∷ ss) found d =
    child_addrs-distinct_from prefix ss (push_found found (next_addr prefix s))
      (distinct-push_found (next_addr prefix s) found d)

abbrev pub addresses : List TreeNode → List ℕ
addresses ns = map (λ (n : TreeNode). n.address) ns

addresses_of : (n : TreeNode) (as' : List ℕ) → addresses (map (child n) as') ≡ as'
addresses_of n [] = refl
addresses_of n (a ∷ as') = ap (λ l. a ∷ l) (addresses_of n as')

-- The children of a node have distinct addresses, and an address has a child exactly where the stack
-- of some sample of the profile, read from its root on, begins with the node's prefix and goes on with
-- the address.
pub children-addresses :
    (n : TreeNode)
    → (distinct (addresses (children n)) ≡ true)
      × ((a : ℕ) → contains a (addresses (children n)) ≡ below_some a n.prefix n.profile.samples)
unfolding children
children-addresses n = rw (addresses_of n (child_addrs n.prefix n.profile.samples [])) (
  child_addrs-distinct_from n.prefix n.profile.samples [] refl,
  λ a.
      child_addrs_from n.prefix n.profile.samples [] a
      ∙ some_next-below a n.prefix n.profile.samples,
)

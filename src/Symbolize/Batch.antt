-- ===== src/Symbolize/Batch.antt =====
-- src/symbolicate.rs, `resolve_all`: a batch finds what each address by itself would find.
use pprofessor.Common.{
  ℕ, zero, suc, List, [], ◌∷◌, get_elem?, ltb, ◌==◌, ◌&&◌, Bool, true, false, if◌then◌else◌, Option,
  none, some, ◌≡◌, refl, sym, ap, ◌∙◌, Bool-cases, inl, inr, ==_iff, ==_refl,
}
use pprofessor.Common.Ord.{nat_ord}
use pprofessor.Common.Maps.{lookup, lookup-put}
use pprofessor.Common.Sets.{contains, contains-push}
use pprofessor.Symbolicated.{LoadedImage}
use pprofessor.Symbolize.{
  SymbolInfo, ImageInfo, Resolved, wrapping_sub, image_infos, partition_point, Batches, push_inside,
  push_at, push_below, group, empty_batches, or_else, insert_symbol, lookup_symbol,
  resolve_for_image, resolve_batches, resolve_all,
}

-- The address lies in the image.
abbrev pub inside : ℕ → ImageInfo → Bool
inside addr img = ltb (wrapping_sub addr img.load_address) img.object_len

module _ (demangle : List ℕ → List ℕ) where
  abbrev at_image : ℕ → Option ImageInfo → Option SymbolInfo
  at_image addr none = none
  at_image addr (some img) = if inside addr img then lookup_symbol demangle img addr else none

  abbrev below_point : List ImageInfo → ℕ → ℕ → Option SymbolInfo
  below_point infos addr zero = none
  below_point infos addr (suc i) = at_image addr (get_elem? infos i)

  -- The symbol of one address: in the last image at or below it, if the address lies in that image.
  abbrev pub resolve_one : List ImageInfo → ℕ → Option SymbolInfo
  resolve_one infos addr = below_point infos addr (partition_point addr infos)

  lookup-resolve_for_image :
      (img : ImageInfo) (addrs : List ℕ) (out : Resolved) (addr : ℕ)
      → lookup nat_ord addr (resolve_for_image demangle img addrs out) ≡ (
          if contains addr addrs
          then or_else (lookup_symbol demangle img addr) (lookup nat_ord addr out)
          else lookup nat_ord addr out)
  unfolding resolve_for_image
  lookup-resolve_for_image img [] out addr = refl
  lookup-resolve_for_image img (a ∷ addrs) out addr =
      lookup-resolve_for_image img addrs (insert_symbol a (lookup_symbol demangle img a) out) addr
      ∙ rw (inserted (lookup_symbol demangle img a) refl) (
          by_tests (addr == a) (contains addr addrs) (lookup_symbol demangle img addr)
            (lookup nat_ord addr out))
    where
      inserted :
          (o : Option SymbolInfo)
          → lookup_symbol demangle img a ≡ o
          → lookup nat_ord addr (insert_symbol a o out) ≡ (
              if addr == a
              then or_else (lookup_symbol demangle img addr) (lookup nat_ord addr out)
              else lookup nat_ord addr out)
      inserted none e = elim (Bool-cases (addr == a)) [
        | inl q ↦ let k : addr ≡ a = (==_iff addr a).0 q in rw (q, k, e) refl
        | inr q ↦ rw q refl
      ]
      inserted (some info) e = lookup-put nat_ord addr a info out ∙ elim (Bool-cases (addr == a)) [
        | inl q ↦ let k : addr ≡ a = (==_iff addr a).0 q in rw (q, k, e) refl
        | inr q ↦ rw q refl
      ]

      by_tests :
          (b c : Bool) (x y : Option SymbolInfo)
          → (if c then or_else x (if b then or_else x y else y) else (if b then or_else x y else y))
            ≡ (if (if b then true else c) then or_else x y else y)
      by_tests true true none y = refl
      by_tests true true (some i) y = refl
      by_tests true false x y = refl
      by_tests false c x y = refl

  -- What the batches give for one address, after what is already known.
  abbrev batch_result : ℕ → Batches → Option SymbolInfo → Option SymbolInfo
  batch_result addr [] o = o
  batch_result addr ((img, addrs) ∷ bs) o =
      batch_result addr bs
        (if contains addr addrs then or_else (lookup_symbol demangle img addr) o else o)

  lookup-resolve_batches :
      (bs : Batches) (out : Resolved) (addr : ℕ)
      → lookup nat_ord addr (resolve_batches demangle bs out)
        ≡ batch_result addr bs (lookup nat_ord addr out)
  unfolding resolve_batches
  lookup-resolve_batches [] out addr = refl
  lookup-resolve_batches ((img, addrs) ∷ bs) out addr =
      lookup-resolve_batches bs (resolve_for_image demangle img addrs out) addr
      ∙ ap (batch_result addr bs) (lookup-resolve_for_image img addrs out addr)

abbrev is_one : ℕ → Bool
is_one zero = false
is_one (suc zero) = true
is_one (suc (suc n)) = false

abbrev before_one : ℕ → ℕ
before_one zero = zero
before_one (suc n) = n

-- The batches are those of the images, and the address is in the batch that the partition point `p`
-- leads to, where it was given (`d`) and lies in the image, and in no other.
abbrev IsGrouped : ℕ → Bool → ℕ → List ImageInfo → Batches → Type 0
IsGrouped addr d p [] [] = Unit {0}
IsGrouped addr d p [] (b ∷ bs) = ⊥
IsGrouped addr d p (i ∷ is) [] = ⊥
IsGrouped addr d p (i ∷ is) (b ∷ bs) =
    (b.0 ≡ i)
    × ((contains addr b.1 ≡ (if is_one p then d && inside addr i else false))
        × IsGrouped addr d (before_one p) is bs)

empty-IsGrouped :
    (addr p : ℕ) (infos : List ImageInfo) → IsGrouped addr false p infos (empty_batches infos)
empty-IsGrouped addr p [] = tt
empty-IsGrouped addr p (i ∷ is) =
    (refl, (neither (is_one p), empty-IsGrouped addr (before_one p) is))
  where
    neither : (b : Bool) → false ≡ (if b then false else false)
    neither true = refl
    neither false = refl

contains-push_inside :
    (addr a : ℕ) (b : ImageInfo × List ℕ)
    → contains addr (push_inside a b).1 ≡ (
        if inside a b.0 then (if contains addr b.1 then true else addr == a) else contains addr b.1)
contains-push_inside addr a (img, addrs) = elim (Bool-cases (inside a img)) [
  | inl e ↦ rw e (contains-push addr a addrs)
  | inr e ↦ rw e refl
]

image-push_inside : (a : ℕ) (b : ImageInfo × List ℕ) → (push_inside a b).0 ≡ b.0
image-push_inside a (img, addrs) = elim (Bool-cases (inside a img)) [
  | inl e ↦ rw e refl
  | inr e ↦ rw e refl
]

other-IsGrouped :
    (addr a : ℕ) (d : Bool) (p i : ℕ) (infos : List ImageInfo) (bs : Batches)
    → (addr == a) ≡ false
    → IsGrouped addr d p infos bs
    → IsGrouped addr d p infos (push_at a i bs)
unfolding push_at
other-IsGrouped addr a d p i [] [] e h = tt
other-IsGrouped addr a d p i [] (b ∷ bs) e h = absurd h
other-IsGrouped addr a d p i (x ∷ xs) [] e h = absurd h
other-IsGrouped addr a d p zero (x ∷ xs) (b ∷ bs) e h = (
  image-push_inside a b ∙ h.0,
  (
    contains-push_inside addr a b ∙ rw e (same_contents (inside a b.0) (contains addr b.1)) ∙ h.1.0,
    h.1.1,
  ),
)
  where
    same_contents : (t c : Bool) → (if t then (if c then true else false) else c) ≡ c
    same_contents true true = refl
    same_contents true false = refl
    same_contents false c = refl
other-IsGrouped addr a d p (suc i) (x ∷ xs) (b ∷ bs) e h =
    (h.0, (h.1.0, other-IsGrouped addr a d (before_one p) i xs bs e h.1.1))

zero-IsGrouped :
    (addr : ℕ) (d d' : Bool) (infos : List ImageInfo) (bs : Batches)
    → IsGrouped addr d 0 infos bs
    → IsGrouped addr d' 0 infos bs
zero-IsGrouped addr d d' [] [] h = h
zero-IsGrouped addr d d' [] (b ∷ bs) h = h
zero-IsGrouped addr d d' (x ∷ xs) [] h = h
zero-IsGrouped addr d d' (x ∷ xs) (b ∷ bs) h = (h.0, (h.1.0, zero-IsGrouped addr d d' xs bs h.1.1))

self-IsGrouped :
    (addr : ℕ) (d : Bool) (i : ℕ) (infos : List ImageInfo) (bs : Batches)
    → IsGrouped addr d (suc i) infos bs
    → IsGrouped addr true (suc i) infos (push_at addr i bs)
unfolding push_at
self-IsGrouped addr d i [] [] h = tt
self-IsGrouped addr d i [] (b ∷ bs) h = absurd h
self-IsGrouped addr d i (x ∷ xs) [] h = absurd h
self-IsGrouped addr d zero (x ∷ xs) (b ∷ bs) h = (
  image-push_inside addr b ∙ h.0,
  (
    contains-push_inside addr addr b ∙ rw (==_refl addr, h.1.0, h.0) (now_in (inside addr x) d),
    zero-IsGrouped addr d true xs bs h.1.1,
  ),
)
  where
    now_in : (t c : Bool) → (if t then (if c && t then true else true) else c && t) ≡ t
    now_in true true = refl
    now_in true false = refl
    now_in false true = refl
    now_in false false = refl
self-IsGrouped addr d (suc i) (x ∷ xs) (b ∷ bs) h =
    (h.0, (h.1.0, self-IsGrouped addr d i xs bs h.1.1))

below-IsGrouped :
    (addr : ℕ) (d : Bool) (p : ℕ) (infos : List ImageInfo) (bs : Batches)
    → IsGrouped addr d p infos bs
    → IsGrouped addr true p infos (push_below addr p bs)
below-IsGrouped addr d zero infos bs h = zero-IsGrouped addr d true infos bs h
below-IsGrouped addr d (suc i) infos bs h = self-IsGrouped addr d i infos bs h

other_below-IsGrouped :
    (addr a : ℕ) (d : Bool) (p q : ℕ) (infos : List ImageInfo) (bs : Batches)
    → (addr == a) ≡ false
    → IsGrouped addr d p infos bs
    → IsGrouped addr d p infos (push_below a q bs)
other_below-IsGrouped addr a d p zero infos bs e h = h
other_below-IsGrouped addr a d p (suc i) infos bs e h = other-IsGrouped addr a d p i infos bs e h

group-IsGrouped :
    (addr : ℕ) (infos : List ImageInfo) (addrs : List ℕ) (d : Bool) (bs : Batches)
    → IsGrouped addr d (partition_point addr infos) infos bs
    → IsGrouped addr
        (if d then true else contains addr addrs)
        (partition_point addr infos)
        infos
        (group infos addrs bs)
unfolding group
group-IsGrouped addr infos [] true bs h = h
group-IsGrouped addr infos [] false bs h = h
group-IsGrouped addr infos (a ∷ addrs) d bs h = elim (Bool-cases (addr == a)) [
  | inl e ↦
      let k : a ≡ addr = sym ((==_iff addr a).0 e) in
      rw (e, k, both d)
        (group-IsGrouped addr infos addrs true _
          (below-IsGrouped addr d (partition_point addr infos) infos bs h))
  | inr e ↦ rw e (
      group-IsGrouped addr infos addrs d _ (
        other_below-IsGrouped addr a d (partition_point addr infos) (partition_point a infos) infos
          bs e h))
]
  where
    both : (b : Bool) → (if b then true else true) ≡ true
    both true = refl
    both false = refl

module _ (demangle : List ℕ → List ℕ) where
  past-batch_result :
      (addr : ℕ) (d : Bool) (infos : List ImageInfo) (bs : Batches) (o : Option SymbolInfo)
      → IsGrouped addr d 0 infos bs
      → batch_result demangle addr bs o ≡ o
  past-batch_result addr d [] [] o h = refl
  past-batch_result addr d [] (b ∷ bs) o h = absurd h
  past-batch_result addr d (x ∷ xs) [] o h = refl
  past-batch_result addr d (x ∷ xs) (b ∷ bs) o h =
      rw (h.1.0) (past-batch_result addr d xs bs o h.1.1)

  hit-batch_result :
      (addr : ℕ) (d : Bool) (i : ℕ) (infos : List ImageInfo) (bs : Batches)
      → IsGrouped addr d (suc i) infos bs
      → batch_result demangle addr bs none
        ≡ (if d then at_image demangle addr (get_elem? infos i) else none)
  hit-batch_result addr d i [] [] h = nothing d none
    where
      nothing : (b : Bool) (o : Option SymbolInfo) → o ≡ (if b then o else o)
      nothing true o = refl
      nothing false o = refl
  hit-batch_result addr d i [] (b ∷ bs) h = absurd h
  hit-batch_result addr d i (x ∷ xs) [] h = absurd h
  hit-batch_result addr d zero (x ∷ xs) (b ∷ bs) h =
      past-batch_result addr d xs bs _ h.1.1
      ∙ rw (h.1.0, h.0) (by_tests d (inside addr x) (lookup_symbol demangle x addr))
    where
      by_tests :
          (c t : Bool) (o : Option SymbolInfo)
          → (if c && t then or_else o none else none)
            ≡ (if c then (if t then o else none) else none)
      by_tests true true none = refl
      by_tests true true (some s) = refl
      by_tests true false o = refl
      by_tests false t o = refl
  hit-batch_result addr d (suc i) (x ∷ xs) (b ∷ bs) h =
      rw (h.1.0) (hit-batch_result addr d i xs bs h.1.1)

  result-one :
      (addr : ℕ) (d : Bool) (p : ℕ) (infos : List ImageInfo) (bs : Batches)
      → IsGrouped addr d p infos bs
      → batch_result demangle addr bs none ≡ (if d then below_point demangle infos addr p else none)
  result-one addr true zero infos bs h = past-batch_result addr true infos bs none h
  result-one addr false zero infos bs h = past-batch_result addr false infos bs none h
  result-one addr d (suc i) infos bs h = hit-batch_result addr d i infos bs h

  pub lookup-resolve_all :
      (open_image : List ℕ → ℕ → Option ImageInfo) (images : List LoadedImage) (addresses : List ℕ)
      (addr : ℕ)
      → lookup nat_ord addr (resolve_all demangle open_image images addresses) ≡ (
          if contains addr addresses
          then resolve_one demangle (image_infos open_image images) addr
          else none)
  unfolding resolve_all lookup
  lookup-resolve_all open_image images [] addr = refl
  lookup-resolve_all open_image images (a ∷ addrs) addr =
      let infos = image_infos open_image images in
      lookup-resolve_batches demangle (group infos (a ∷ addrs) (empty_batches infos)) [] addr
      ∙ result-one addr (contains addr (a ∷ addrs)) (partition_point addr infos) infos _ (
          group-IsGrouped addr infos (a ∷ addrs) false (empty_batches infos)
            (empty-IsGrouped addr (partition_point addr infos) infos))

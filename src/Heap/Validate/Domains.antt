-- ===== src/Heap/Validate/Domains.antt =====
-- src/heap/mod.rs, `select_domain`: what is left of a profile belongs to one heap domain.
use pprofessor.Common.{
  map-All, ℕ, ◌≤◌, List, [], ◌∷◌, length, any, beq, beq_iff, beq_refl, leb, Bool, true, false,
  Option, none, some, ok, if◌then◌else◌, keep, All, ◌≡◌, ◌⊎◌, refl, ap, ◌∙◌, arith, Bool-cases, inl,
  inr,
}
use pprofessor.Pprof.Sample.{Sample}
use pprofessor.Pprof.Profile.{PprofProfile}
use pprofessor.Heap.Validate.{is_heap, domain_of, domains_of, select_in, select_domain}

-- A domain is found exactly where it was seen or some sample has it.
pub any-domains_of :
    (p : PprofProfile) (d : List ℕ) (ss : List Sample) (seen : List (List ℕ))
    → any (beq d) (domains_of p seen ss)
      ≡ (if any (beq d) seen then true else any (λ s. beq d (domain_of p s)) ss)
unfolding domains_of
any-domains_of p d [] seen = ground arith
any-domains_of p d (s ∷ ss) seen = elim (Bool-cases (any (beq (domain_of p s)) seen)) [
  | inl old ↦ rw old (any-domains_of p d ss seen ∙ known (Bool-cases (beq d (domain_of p s))) old)
  | inr new ↦ rw new (
      any-domains_of p d ss (domain_of p s ∷ seen)
      ∙ swapped (beq d (domain_of p s)) (any (beq d) seen) (any (λ t. beq d (domain_of p t)) ss))
]
  where
    swapped :
        (b c e : Bool)
        → (if (if b then true else c) then true else e)
          ≡ (if c then true else (if b then true else e))
    swapped true true e = refl
    swapped true false e = refl
    swapped false c e = refl

    known :
        (beq d (domain_of p s) ≡ true) ⊎ (beq d (domain_of p s) ≡ false)
        → any (beq (domain_of p s)) seen ≡ true
        → (if any (beq d) seen then true else any (λ t. beq d (domain_of p t)) ss) ≡ (
            if any (beq d) seen
            then true
            else (if beq d (domain_of p s) then true else any (λ t. beq d (domain_of p t)) ss))
    known (inl e) old = rw (ap (λ x. any (beq x) seen) ((beq_iff d (domain_of p s)).0 e), old) refl
    known (inr e) old = rw e refl

members-found :
    (p : PprofProfile) (ss : List Sample) (seen ds : List (List ℕ))
    → ds ≡ domains_of p seen ss
    → All (λ s. any (beq (domain_of p s)) ds ≡ true) ss
unfolding domains_of
members-found p [] seen ds e = tt
members-found p (s ∷ ss) seen ds e = (
  ap (any (beq (domain_of p s))) e
      ∙ any-domains_of p (domain_of p s) (s ∷ ss) seen
      ∙ rw (beq_refl (domain_of p s)) (either (any (beq (domain_of p s)) seen)),
  members-found p ss (if any (beq (domain_of p s)) seen then seen else domain_of p s ∷ seen) ds e,
)
  where
    either : (b : Bool) → (if b then true else true) ≡ true
    either true = refl
    either false = refl

abbrev first_or_blank : List (List ℕ) → List ℕ
first_or_blank [] = []
first_or_blank (d ∷ ds) = d

only_member :
    (d : List ℕ) (ds : List (List ℕ))
    → length ds ≤ 1
    → any (beq d) ds ≡ true
    → d ≡ first_or_blank ds
only_member d [] h e = cc
only_member d (x ∷ []) h e = (beq_iff d x).0 (ground arith)
only_member d (x ∷ y ∷ ds) h e = absurd (omega arith)

keep-All :
    (p : PprofProfile) (d : List ℕ) (ss : List Sample)
    → All (λ s. domain_of p s ≡ d) (keep (λ s. beq (domain_of p s) d) ss)
keep-All p d [] = tt
keep-All p d (s ∷ ss) = elim (Bool-cases (beq (domain_of p s) d)) [
  | inl e ↦ rw e ((beq_iff (domain_of p s) d).0 e, keep-All p d ss)
  | inr e ↦ rw e (keep-All p d ss)
]

abbrev pub IsSingle : PprofProfile → List Sample → Type 0
IsSingle p ss = (d : List ℕ) × All (λ s. domain_of p s ≡ d) ss

select_in-IsSingle :
    (p q : PprofProfile) (requested : Option (List ℕ))
    → select_in p requested (domains_of p [] p.samples) ≡ ok q
    → IsSingle p q.samples
unfolding select_in
select_in-IsSingle p q none h =
    let ds = domains_of p [] p.samples in
    elim (Bool-cases (leb (length ds) 1)) [
      | inl few ↦
          let e : p ≡ q = cc in
          let l : length ds ≤ 1 = ground (arith, few) in
          rw (← e) (
            first_or_blank ds,
            map-All (λ s. any (beq (domain_of p s)) ds ≡ true)
                (λ s. domain_of p s ≡ first_or_blank ds) p.samples
                (λ s m. only_member (domain_of p s) ds l m) (members-found p p.samples [] ds refl),
          )
      | inr many ↦ absurd_of many
    ]
  where
    absurd_of : leb (length (domains_of p [] p.samples)) 1 ≡ false → IsSingle p q.samples
    absurd_of e = absurd (ground (arith, e, h))
select_in-IsSingle p q (some d) h = (d, ground (arith, keep-All p d p.samples))

-- What `select_domain` leaves of a heap profile has samples of one heap domain only.
pub select_domain-IsSingle :
    (p q : PprofProfile) (requested : Option (List ℕ))
    → is_heap p ≡ true
    → select_domain p requested ≡ ok q
    → IsSingle p q.samples
unfolding select_domain
select_domain-IsSingle p q requested heap h = select_in-IsSingle p q requested (cc)

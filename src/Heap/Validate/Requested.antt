-- ===== src/Heap/Validate/Requested.antt =====
-- src/heap/mod.rs, `select_domain` with a requested domain: which samples it keeps.
use pprofessor.Common.{
  ℕ, get_elem?, is_nil, not, ◌≢◌, Option-cases, List, [], ◌∷◌, any, beq, beq_iff, Bool, true, false,
  Option, none, some, ok, err, if◌then◌else◌, keep, ◌≡◌, ◌⊎◌, refl, ap, ◌∙◌, arith, Bool-cases, inl,
  inr,
}
use mathlib.Core.Path.{subst}
use pprofessor.Pprof.Label.{Label}
use pprofessor.Pprof.Sample.{Sample}
use pprofessor.Pprof.Profile.{PprofProfile}
use pprofessor.Heap.Validate.{
  Checked, heap_text, unspecified_text, is_heap_key, find_heap_label, label_domain, unknown_domain,
  is_heap, domain_of, domains_of, select_in, select_domain,
}
use pprofessor.Heap.Validate.Domains.{any-domains_of}

-- The heap domain of a sample with these labels: the text of the first label whose key is `heap`, or the
-- text for an unspecified heap where no label has this key or the label's text is missing.
pub data Domain (p : PprofProfile) : List Label → List ℕ → Type 0 where
  unlabelled : Domain p [] unspecified_text
  labelled :
      (l : Label) (ls : List Label) (d : List ℕ)
      → get_elem? p.strings.strings l.key ≡ some heap_text
      → get_elem? p.strings.strings l.str_index ≡ some d
      → Domain p (l ∷ ls) d
  unnamed :
      (l : Label) (ls : List Label)
      → get_elem? p.strings.strings l.key ≡ some heap_text
      → get_elem? p.strings.strings l.str_index ≡ none
      → Domain p (l ∷ ls) unspecified_text
  passed :
      (l : Label) (ls : List Label) (d : List ℕ)
      → get_elem? p.strings.strings l.key ≢ some heap_text
      → Domain p ls d
      → Domain p (l ∷ ls) d

is_heap_key_cases :
    (k : Option (List ℕ))
    → ((k ≡ some heap_text) × (is_heap_key k ≡ true))
      ⊎ ((k ≢ some heap_text) × (is_heap_key k ≡ false))
is_heap_key_cases none = inr (λ e. cc, refl)
is_heap_key_cases (some s) = elim (Bool-cases (beq s heap_text)) [
  | inl e ↦ inl (ap some ((beq_iff s heap_text).0 e), e)
  | inr e ↦ inr (λ q. ground (arith, q, e, beq_iff s heap_text), e)
]

Domain-found :
    (p : PprofProfile) (ls : List Label) → Domain p ls (label_domain p (find_heap_label p ls))
unfolding find_heap_label
Domain-found p [] = unlabelled
Domain-found p (l ∷ ls) = elim (is_heap_key_cases (get_elem? p.strings.strings l.key)) [
  | inl (k, e) ↦ rw e (elim (Option-cases (get_elem? p.strings.strings l.str_index)) [
    | inl q ↦ rw q (unnamed l ls k q)
    | inr (d, q) ↦ rw q (labelled l ls d k q)
  ])
  | inr (k, e) ↦ rw e (passed l ls _ k (Domain-found p ls))
]

Domain-unique :
    {p : PprofProfile} {ls : List Label} {d e : List ℕ} → Domain p ls d → Domain p ls e → d ≡ e
Domain-unique unlabelled unlabelled = refl
Domain-unique (labelled l ls d k q) (labelled _ _ e k' q') = cc
Domain-unique (labelled l ls d k q) (unnamed _ _ k' q') = cc
Domain-unique (labelled l ls d k q) (passed _ _ e n h) = absurd (n k)
Domain-unique (unnamed l ls k q) (labelled _ _ e k' q') = cc
Domain-unique (unnamed l ls k q) (unnamed _ _ k' q') = refl
Domain-unique (unnamed l ls k q) (passed _ _ e n h) = absurd (n k)
Domain-unique (passed l ls d n h) (labelled _ _ e k q) = absurd (n k)
Domain-unique (passed l ls d n h) (unnamed _ _ k q) = absurd (n k)
Domain-unique (passed l ls d n h) (passed _ _ e n' h') = Domain-unique h h'

-- The sample belongs to the heap domain.
abbrev pub InDomain : PprofProfile → List ℕ → Sample → Type 0
InDomain p d s = Domain p s.labels d

-- The second list has exactly the samples of the first that belong to the domain, in their order.
pub data Selects (p : PprofProfile) (d : List ℕ) : List Sample → List Sample → Type 0 where
  done : Selects p d [] []
  kept :
      (s : Sample) (ss rest : List Sample)
      → InDomain p d s
      → Selects p d ss rest
      → Selects p d (s ∷ ss) (s ∷ rest)
  left_out :
      (s : Sample) (ss rest : List Sample)
      → ¬ InDomain p d s
      → Selects p d ss rest
      → Selects p d (s ∷ ss) rest

InDomain-cases :
    (p : PprofProfile) (d : List ℕ) (s : Sample)
    → (InDomain p d s × (beq (domain_of p s) d ≡ true))
      ⊎ ((¬ InDomain p d s) × (beq (domain_of p s) d ≡ false))
InDomain-cases p d s = elim (Bool-cases (beq (domain_of p s) d)) [
  | inl e ↦
      inl (subst (Domain p s.labels) ((beq_iff (domain_of p s) d).0 e) (Domain-found p s.labels), e)
  | inr e ↦ inr (
    λ h.
        let q : domain_of p s ≡ d = Domain-unique (Domain-found p s.labels) h in
        cc (e, (beq_iff (domain_of p s) d).1 q),
    e,
  )
]

keep-Selects :
    (p : PprofProfile) (d : List ℕ) (ss : List Sample)
    → Selects p d ss (keep (λ s. beq (domain_of p s) d) ss)
keep-Selects p d [] = done
keep-Selects p d (s ∷ ss) = elim (InDomain-cases p d s) [
  | inl (h, e) ↦ rw e (kept s ss _ h (keep-Selects p d ss))
  | inr (h, e) ↦ rw e (left_out s ss _ h (keep-Selects p d ss))
]

beq_comm : (s t : List ℕ) → beq s t ≡ beq t s
beq_comm [] [] = refl
beq_comm [] (y ∷ ys) = refl
beq_comm (x ∷ xs) [] = refl
beq_comm (x ∷ xs) (y ∷ ys) = ground (arith, beq_comm xs ys)

any_kept :
    (p : PprofProfile) (d : List ℕ) (ss : List Sample)
    → any (λ s. beq d (domain_of p s)) ss ≡ not (is_nil (keep (λ s. beq (domain_of p s) d) ss))
any_kept p d [] = refl
any_kept p d (s ∷ ss) = rw (beq_comm d (domain_of p s)) (elim (Bool-cases (beq (domain_of p s) d)) [
  | inl e ↦ rw e refl
  | inr e ↦ rw e (any_kept p d ss)
])

select_in_requested :
    (p : PprofProfile) (d : List ℕ)
    → select_in p (some d) (domains_of p [] p.samples) ≡ (
        if not (is_nil (keep (λ s. beq (domain_of p s) d) p.samples))
        then ok (record p { samples = keep (λ s. beq (domain_of p s) d) p.samples })
        else err unknown_domain)
unfolding select_in
select_in_requested p d = ground (arith, any-domains_of p d p.samples [], any_kept p d p.samples)

-- With a requested domain, `select_domain` of a heap profile keeps exactly the samples that belong to
-- the domain, in their order, and leaves all else of the profile as it is, where some sample belongs to
-- the domain; where none does, it fails, for an unknown domain.
pub select_domain_requested :
    (p : PprofProfile) (d : List ℕ)
    → is_heap p ≡ true
    → (rest : List Sample) × Selects p d p.samples rest
      × (select_domain p (some d)
          ≡ (if is_nil rest then err unknown_domain else ok (record p { samples = rest })))
unfolding select_domain
select_domain_requested p d heap = (
  keep (λ s. beq (domain_of p s) d) p.samples,
  keep-Selects p d p.samples,
  rw heap
      (select_in_requested p d ∙ turned (is_nil (keep (λ s. beq (domain_of p s) d) p.samples)) _ _),
)
  where
    turned :
        (b : Bool) (x y : Checked PprofProfile) → (if not b then x else y) ≡ (if b then y else x)
    turned true x y = refl
    turned false x y = refl

-- ===== src/Symbolize/Chain.antt =====
-- src/symbolicate.rs, `SymbolizerChain`: which symbolizer's frame a chain gives.
use pprofessor.Common.{
  ℕ, List, [], ◌∷◌, ◌++◌, All, Option, none, some, Option-cases, inl, inr, ◌≡◌, ◌↔◌, refl, ap, ◌∙◌,
}
use pprofessor.Symbolicated.{FrameInfo}
use pprofessor.Symbolize.{symbolize_chain}

abbrev pub Symbolizer : Type 0
Symbolizer = ℕ → Option FrameInfo

-- None of the symbolizers knows the address.
abbrev pub AllMiss : ℕ → List Symbolizer → Type 0
AllMiss a ss = All (λ (s : Symbolizer). s a ≡ none) ss

-- The frame is that of a symbolizer before which none knows the address.
pub record IsFirst (ss : List Symbolizer) (a : ℕ) (info : FrameInfo) : Type 0 where
  pub before : List Symbolizer
  pub finder : Symbolizer
  pub after : List Symbolizer
  pub split : ss ≡ before ++ (finder ∷ after)
  pub missed : AllMiss a before
  pub found : finder a ≡ some info

chain_missed :
    (before rest : List Symbolizer) (a : ℕ)
    → AllMiss a before
    → symbolize_chain (before ++ rest) a ≡ symbolize_chain rest a
unfolding symbolize_chain
chain_missed [] rest a m = refl
chain_missed (s ∷ before) rest a m = rw m.0 (chain_missed before rest a m.1)

chain-IsFirst :
    (ss : List Symbolizer) (a : ℕ) (info : FrameInfo)
    → symbolize_chain ss a ≡ some info
    → IsFirst ss a info
unfolding symbolize_chain
chain-IsFirst [] a info h = cc
chain-IsFirst (s ∷ ss) a info h = elim (Option-cases (s a)) [
  | inl e ↦
      let f = chain-IsFirst ss a info (rw e at h) in
      record {
        before = s ∷ f.before;
        finder = f.finder;
        after = f.after;
        split = ap (λ l. s ∷ l) f.split;
        missed = (e, f.missed);
        found = f.found;
      }
  | inr (i, e) ↦ record {
    before = [];
    finder = s;
    after = ss;
    split = refl;
    missed = tt;
    found = e ∙ rw e at h;
  }
]

chain-AllMiss : (ss : List Symbolizer) (a : ℕ) → symbolize_chain ss a ≡ none → AllMiss a ss
unfolding symbolize_chain
chain-AllMiss [] a h = tt
chain-AllMiss (s ∷ ss) a h = elim (Option-cases (s a)) [
  | inl e ↦ (e, chain-AllMiss ss a (rw e at h))
  | inr (i, e) ↦ cc (rw e at h)
]

-- A chain gives a frame for an address exactly where one of its symbolizers gives it and none that
-- stands before that one knows the address; it gives no frame exactly where none of them knows it.
pub symbolize_chain_iff :
    (ss : List Symbolizer) (a : ℕ)
    → ((info : FrameInfo) → (symbolize_chain ss a ≡ some info) ↔ IsFirst ss a info)
      × ((symbolize_chain ss a ≡ none) ↔ AllMiss a ss)
unfolding symbolize_chain
symbolize_chain_iff ss a = (
  λ info. (
    chain-IsFirst ss a info,
    λ f.
        ap (λ l. symbolize_chain l a) f.split
        ∙ chain_missed f.before (f.finder ∷ f.after) a f.missed
        ∙ rw f.found refl,
  ),
  (chain-AllMiss ss a, λ m. all_missed ss m),
)
  where
    all_missed : (l : List Symbolizer) → AllMiss a l → symbolize_chain l a ≡ none
    all_missed [] m = refl
    all_missed (s ∷ l) m = rw m.0 (all_missed l m.1)

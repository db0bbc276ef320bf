-- ===== src/Symbolize/Refresh.antt =====
-- src/symbolicate.rs, `refresh_images`: what a symbolizer finds when the images have changed.
use pprofessor.Common.{
  ℕ, List, [], ◌∷◌, is_nil, Bool, true, false, if◌then◌else◌, ◌==◌, ==_iff, ◌||◌, Option, none,
  some, ◌≡◌, refl, ap, ◌∙◌, Bool-cases, inl, inr,
}
use pprofessor.Common.Ord.{nat_ord}
use pprofessor.Common.Maps.{lookup}
use pprofessor.Common.Sets.{contains}
use pprofessor.Symbolicated.{LoadedImage}
use pprofessor.Symbolize.{
  SymbolInfo, ImageInfo, Resolved, image_infos, resolve_all, NativeSymbolizer, attempt, or_else,
  or_next, new, add_pending, resolve_more, frame_info, symbolize_frame, refresh_images,
  retain_resolved, is_resolved, same_images,
}
use pprofessor.Symbolize.Batch.{resolve_one, lookup-resolve_all}
use pprofessor.Symbolize.Cache.{attempt-Attempted, lookup-extend, resolve_rounds, rounds-IsCached}

contains-retain_resolved :
    (resolved : Resolved) (attempted : List ℕ) (a : ℕ)
    → contains a (retain_resolved resolved attempted)
      ≡ (if contains a attempted then is_resolved (lookup nat_ord a resolved) else false)
unfolding retain_resolved
contains-retain_resolved resolved [] a = refl
contains-retain_resolved resolved (x ∷ xs) a =
    by_test (is_resolved (lookup nat_ord x resolved)) (at_head x)
      (contains-retain_resolved resolved xs a)
  where
    found : Bool
    found = is_resolved (lookup nat_ord a resolved)

    at_head : (y : ℕ) → (a == y) ≡ true → is_resolved (lookup nat_ord y resolved) ≡ found
    at_head y e = rw ((==_iff a y).0 e) refl

    rest : List ℕ
    rest = retain_resolved resolved xs

    only_false : (c : Bool) → false ≡ found → (if c then found else false) ≡ found
    only_false true e = refl
    only_false false e = e

    by_test :
        (r : Bool)
        → ((a == x) ≡ true → r ≡ found)
        → contains a rest ≡ (if contains a xs then found else false)
        → contains a (if r then x ∷ rest else rest)
          ≡ (if (if a == x then true else contains a xs) then found else false)
    by_test true q h = elim (Bool-cases (a == x)) [ inl e ↦ rw e (q e) | inr e ↦ rw e h ]
    by_test false q h = elim (Bool-cases (a == x)) [
      | inl e ↦ rw e (h ∙ only_false (contains a xs) (q e))
      | inr e ↦ rw e h
    ]

no_symbol : (o : Option SymbolInfo) → frame_info (or_else o none) ≡ frame_info o
no_symbol none = refl
no_symbol (some i) = refl

module _ (demangle : List ℕ → List ℕ) (open_image : List ℕ → ℕ → Option ImageInfo) where
  lookup-add_pending :
      (s : NativeSymbolizer) (r : List ℕ × List ℕ) (a : ℕ)
      → lookup nat_ord a (add_pending demangle open_image s r).resolved
        ≡ or_else
            (if contains a r.1
              then resolve_one demangle (image_infos open_image s.images) a
              else none)
            (lookup nat_ord a s.resolved)
  lookup-add_pending s (after, []) a = refl
  lookup-add_pending s (after, p ∷ ps) a =
      lookup-extend s.resolved (resolve_all demangle open_image s.images (p ∷ ps)) a
      ∙ ap (λ o. or_else o (lookup nat_ord a s.resolved))
          (lookup-resolve_all demangle open_image s.images (p ∷ ps) a)

  -- After a change of the images an address that has a symbol keeps it, and one that has none is looked
  -- up in the new images when it is asked for again. The symbolizer was made for some addresses and has
  -- resolved more in any number of rounds, and the new images are other than the old and not none.
  pub refresh_images_retries :
      (images new_images : List LoadedImage) (addresses : List ℕ) (rounds : List (List ℕ))
      (more : List ℕ) (a : ℕ)
      → (is_nil new_images || same_images new_images images) ≡ false
      → symbolize_frame
          (resolve_more demangle open_image
            (refresh_images
              (resolve_rounds demangle open_image (new demangle open_image images addresses) rounds)
              new_images)
            more)
          a
        ≡ or_next
            (symbolize_frame
              (resolve_rounds demangle open_image (new demangle open_image images addresses) rounds)
              a)
            (frame_info (
              if contains a more
              then resolve_one demangle (image_infos open_image new_images) a
              else none))
  unfolding symbolize_frame refresh_images resolve_more
  refresh_images_retries images new_images addresses rounds more a e =
      let s =
        resolve_rounds demangle open_image (new demangle open_image images addresses) rounds in
      let h = rounds-IsCached demangle open_image images addresses rounds in
      let t : NativeSymbolizer = record s {
        images = new_images;
        attempted = retain_resolved s.resolved s.attempted;
      } in
      let k = attempt-Attempted a t.attempted more in
      rw (h.same_images, e)
        (ap frame_info (lookup-add_pending t (attempt t.attempted more) a)
          ∙ by_symbol (lookup nat_ord a s.resolved) (contains a s.attempted)
              (contains a (attempt t.attempted more).1) (contains a more)
              (resolve_one demangle (image_infos open_image images) a) _
              (rw (h.attempts a) (h.symbols a))
              (k.new_in ∙ rw (contains-retain_resolved s.resolved s.attempted a) refl))
    where
      by_symbol :
          (o : Option SymbolInfo) (tried pending asked : Bool) (old one : Option SymbolInfo)
          → o ≡ (if tried then old else none)
          → pending ≡ (if (if tried then is_resolved o else false) then false else asked)
          → frame_info (or_else (if pending then one else none) o)
            ≡ or_next (frame_info o) (frame_info (if asked then one else none))
      by_symbol none true pending asked old one q n = rw n (no_symbol (if asked then one else none))
      by_symbol none false pending asked old one q n =
          rw n (no_symbol (if asked then one else none))
      by_symbol (some i) true pending asked old one q n = rw n refl
      by_symbol (some i) false pending asked old one q n = cc

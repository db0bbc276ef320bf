-- ===== src/Symbolize/Cache.antt =====
-- src/symbolicate.rs, `NativeSymbolizer`: what is resolved in batches is what each address has.
use pprofessor.Common.{
  ℕ, List, [], ◌∷◌, push, Bool, true, false, if◌then◌else◌, ◌==◌, Option, none, some, ◌≡◌, refl, ap,
  ◌∙◌, Bool-cases, inl, inr, ==_iff,
}
use pprofessor.Common.Ord.{nat_ord}
use pprofessor.Common.Maps.{lookup, lookup-put, same}
use pprofessor.Common.Sets.{contains, contains-push, contains-collect_set}
use pprofessor.Symbolicated.{LoadedImage}
use pprofessor.Symbolize.{
  SymbolInfo, ImageInfo, Resolved, image_infos, resolve_all, NativeSymbolizer, extend, attempt,
  or_else, new, add_pending, resolve_more, frame_info, symbolize_frame,
}
use pprofessor.Symbolize.Batch.{resolve_one, lookup-resolve_all}

pub lookup-extend :
    (resolved m : Resolved) (a : ℕ)
    → lookup nat_ord a (extend resolved m)
      ≡ or_else (lookup nat_ord a m) (lookup nat_ord a resolved)
unfolding extend lookup
lookup-extend resolved [] a = refl
lookup-extend resolved ((k, v) ∷ m) a =
    lookup-put nat_ord a k v (extend resolved m) ∙ elim (Bool-cases (same nat_ord a k)) [
      | inl e ↦ rw e refl
      | inr e ↦ rw e (lookup-extend resolved m a)
    ]

-- The set after the attempt, and what was new.
pub record Attempted (a : ℕ) (attempted addresses : List ℕ) (r : List ℕ × List ℕ) : Type 0 where
  pub all_in : contains a r.0 ≡ (if contains a attempted then true else contains a addresses)
  pub new_in : contains a r.1 ≡ (if contains a attempted then false else contains a addresses)

seen_again :
    (t i c d : Bool)
    → (i ≡ true → c ≡ true)
    → (if c then t else d) ≡ (if c then t else (if i then true else d))
seen_again t i true d h = refl
seen_again t false false d h = refl
seen_again t true false d h = absurd_of (h refl)
  where
    absurd_of : false ≡ true → d ≡ true
    absurd_of e = cc

seen_first :
    (c i d : Bool)
    → (if (if c then true else i) then true else d) ≡ (if c then true else (if i then true else d))
seen_first true i d = refl
seen_first false i d = refl

passes :
    (i c d : Bool)
    → (i ≡ true → c ≡ false)
    → (if i then true else (if (if c then true else i) then false else d))
      ≡ (if c then false else (if i then true else d))
passes true c d h = rw (h refl) refl
passes false true d h = refl
passes false false d h = refl

pub attempt-Attempted :
    (a : ℕ) (attempted addresses : List ℕ)
    → Attempted a attempted addresses (attempt attempted addresses)
unfolding attempt
attempt-Attempted a attempted [] = record {
  all_in = either (contains a attempted);
  new_in = neither (contains a attempted);
}
  where
    either : (b : Bool) → b ≡ (if b then true else false)
    either true = refl
    either false = refl

    neither : (b : Bool) → false ≡ (if b then false else false)
    neither true = refl
    neither false = refl
attempt-Attempted a attempted (x ∷ xs) =
    let k = attempt-Attempted a attempted xs in
    let n = attempt-Attempted a (push attempted x) xs in
    let i = a == x in
    let c = contains a attempted in
    let d = contains a xs in
    elim (Bool-cases (contains x attempted)) [
      | inl e ↦ rw e (record {
        all_in = k.all_in ∙ seen_again true i c d (at_seen true e);
        new_in = k.new_in ∙ seen_again false i c d (at_seen true e);
      })
      | inr e ↦ rw e (record {
        all_in = n.all_in ∙ rw (contains-push a x attempted) (seen_first c i d);
        new_in = rw (n.new_in, contains-push a x attempted) (passes i c d (at_seen false e));
      })
    ]
  where
    at_seen : (b : Bool) → contains x attempted ≡ b → (a == x) ≡ true → contains a attempted ≡ b
    at_seen b e q = rw ((==_iff a x).0 q) e

-- What a cache has for every address: the symbol by itself if it was attempted, or none.
module _ (demangle : List ℕ → List ℕ) (open_image : List ℕ → ℕ → Option ImageInfo) where
  pub record IsCached (images : List LoadedImage) (s : NativeSymbolizer) (asked : ℕ → Bool)
      : Type 0 where
    pub same_images : s.images ≡ images
    pub attempts : (a : ℕ) → contains a s.attempted ≡ asked a
    pub symbols :
        (a : ℕ)
        → lookup nat_ord a s.resolved
          ≡ (if asked a then resolve_one demangle (image_infos open_image images) a else none)

  new-IsCached :
      (images : List LoadedImage) (addresses : List ℕ)
      → IsCached images (new demangle open_image images addresses) (λ a. contains a addresses)
  unfolding new
  new-IsCached images addresses = record {
    same_images = refl;
    attempts = λ a. contains-collect_set a addresses [];
    symbols = λ a. lookup-resolve_all demangle open_image images addresses a;
  }

  add_pending-IsCached :
      (images : List LoadedImage) (s : NativeSymbolizer) (asked : ℕ → Bool) (addresses : List ℕ)
      (r : List ℕ × List ℕ)
      → IsCached images s asked
      → ((a : ℕ) → Attempted a s.attempted addresses r)
      → IsCached images
          (add_pending demangle open_image s r)
          (λ a. if asked a then true else contains a addresses)
  add_pending-IsCached images s asked addresses (after, []) h k = record {
    same_images = h.same_images;
    attempts = λ a. (k a).all_in ∙ rw (h.attempts a) refl;
    symbols = λ a.
        h.symbols a
        ∙ unchanged (asked a) (contains a addresses)
            (resolve_one demangle (image_infos open_image images) a)
            ((k a).new_in ∙ rw (h.attempts a) refl);
  }
    where
      unchanged :
          (b c : Bool) (o : Option SymbolInfo)
          → false ≡ (if b then false else c)
          → (if b then o else none) ≡ (if (if b then true else c) then o else none)
      unchanged true c o e = refl
      unchanged false c o e = rw (← e) refl
  add_pending-IsCached images s asked addresses (after, p ∷ ps) h k = record {
    same_images = h.same_images;
    attempts = λ a. (k a).all_in ∙ rw (h.attempts a) refl;
    symbols = λ a.
        lookup-extend s.resolved (resolve_all demangle open_image s.images (p ∷ ps)) a
        ∙ rw (h.symbols a, h.same_images, lookup-resolve_all demangle open_image images (p ∷ ps) a)
            (added (asked a) (contains a addresses) (contains a (p ∷ ps))
              (resolve_one demangle (image_infos open_image images) a)
              ((k a).new_in ∙ rw (h.attempts a) refl));
  }
    where
      added :
          (b c n : Bool) (o : Option SymbolInfo)
          → n ≡ (if b then false else c)
          → or_else (if n then o else none) (if b then o else none)
            ≡ (if (if b then true else c) then o else none)
      added true c n o e = rw e refl
      added false true n none e = rw e refl
      added false true n (some i) e = rw e refl
      added false false n o e = rw e refl

  resolve_more-IsCached :
      (images : List LoadedImage) (s : NativeSymbolizer) (asked : ℕ → Bool) (addresses : List ℕ)
      → IsCached images s asked
      → IsCached images
          (resolve_more demangle open_image s addresses)
          (λ a. if asked a then true else contains a addresses)
  unfolding resolve_more
  resolve_more-IsCached images s asked addresses h =
      add_pending-IsCached images s asked addresses (attempt s.attempted addresses) h
        (λ a. attempt-Attempted a s.attempted addresses)

  -- A symbolizer after several calls of `resolve_more`.
  unfoldable pub resolve_rounds : NativeSymbolizer → List (List ℕ) → NativeSymbolizer
  resolve_rounds s [] = s
  resolve_rounds s (addresses ∷ rest) =
      resolve_rounds (resolve_more demangle open_image s addresses) rest

  abbrev pub asked_in : (ℕ → Bool) → List (List ℕ) → ℕ → Bool
  asked_in asked [] a = asked a
  asked_in asked (addresses ∷ rest) a =
      asked_in (λ b. if asked b then true else contains b addresses) rest a

  resolve_rounds-IsCached :
      (images : List LoadedImage) (s : NativeSymbolizer) (asked : ℕ → Bool) (rounds : List (List ℕ))
      → IsCached images s asked
      → IsCached images (resolve_rounds s rounds) (asked_in asked rounds)
  unfolding resolve_rounds
  resolve_rounds-IsCached images s asked [] h = h
  resolve_rounds-IsCached images s asked (addresses ∷ rest) h =
      resolve_rounds-IsCached images (resolve_more demangle open_image s addresses) _ rest
        (resolve_more-IsCached images s asked addresses h)

  pub rounds-IsCached :
      (images : List LoadedImage) (addresses : List ℕ) (rounds : List (List ℕ))
      → IsCached images
          (resolve_rounds (new demangle open_image images addresses) rounds)
          (asked_in (λ b. contains b addresses) rounds)
  rounds-IsCached images addresses rounds =
      resolve_rounds-IsCached images (new demangle open_image images addresses) _ rounds
        (new-IsCached images addresses)

  -- A native symbolizer that was made for some addresses and then asked to resolve more, in any number of
  -- rounds, has for each of these addresses exactly the symbol that the address has by itself, and none
  -- for any other.
  pub symbolize_frame_rounds :
      (images : List LoadedImage) (addresses : List ℕ) (rounds : List (List ℕ)) (a : ℕ)
      → symbolize_frame (resolve_rounds (new demangle open_image images addresses) rounds) a
        ≡ frame_info (
            if asked_in (λ b. contains b addresses) rounds a
            then resolve_one demangle (image_infos open_image images) a
            else none)
  unfolding symbolize_frame
  symbolize_frame_rounds images addresses rounds a = ap frame_info (
      (resolve_rounds-IsCached images (new demangle open_image images addresses) _ rounds
          (new-IsCached images addresses)).symbols
        a)

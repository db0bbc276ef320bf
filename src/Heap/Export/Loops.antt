-- ===== src/Heap/Export/Loops.antt =====
-- src/heap/mod.rs, `to_pprof`: the loops over images, frames and stacks keep the profile fitting.
use pprofessor.Common.{
  map-All, ℕ, suc, ◌+◌, ◌≤◌, ◌<◌, List, [], ◌∷◌, push, length, All, All-append, Option, none, some,
  Bool, true, false, if◌then◌else◌, ◌≡◌, refl, sym, ap, ◌∙◌, arith,
}
use pprofessor.Common.Maps.{lookup, insert, lookup-insert, same}
use pprofessor.Pprof.Label.{Label}
use pprofessor.Pprof.Profile.{PprofProfile}
use pprofessor.Heap.{HeapMapping, HeapFrame, mapping_ord, frame_ord, Stack, HeapValues}
use pprofessor.Heap.Export.{
  intern_in, Flags, Images, add_mapping, add_mappings, Frames, mapping_id_of, or_zero_id,
  frame_name, add_frame, frame_entry, frame_ids, values_of, push_sample, add_stacks,
}
use pprofessor.Heap.Export.Growth.{
  IsBetween, LabelFits, strings_count, Fits, intern-Grown, intern_lt,
}
use pprofessor.Heap.Export.Steps.{
  intern-Fits, push_mapping-Fits, push_frame-Fits, push_sample-Fits, length-push,
}

-- The identifiers of the images are those of mappings.
abbrev pub ImagesFit : ℕ → Images → Type 0
ImagesFit m images = (x : HeapMapping) (i : ℕ) → lookup mapping_ord x images ≡ some i → i ≤ m

-- The identifiers of the frames are those of functions, and of locations.
abbrev pub FramesFit : ℕ → Frames → Type 0
FramesFit k frames = (x : HeapFrame) (i : ℕ) → lookup frame_ord x frames ≡ some i → IsBetween k i

images-insert :
    (m : ℕ) (image : HeapMapping) (images : Images)
    → ImagesFit m images
    → ImagesFit (suc m) (insert mapping_ord image (m + 1) images)
images-insert m image images h x i e = by_test (same mapping_ord x image) refl
  where
    looked :
        (if same mapping_ord x image then some (m + 1) else lookup mapping_ord x images) ≡ some i
    looked = sym (lookup-insert mapping_ord x image (m + 1) images) ∙ e

    by_test : (b : Bool) → same mapping_ord x image ≡ b → i ≤ suc m
    by_test true q =
        let s : some (m + 1) ≡ some i =
          cc (looked, ap (λ c. if c then some (m + 1) else lookup mapping_ord x images) q) in
        ground (arith, s)
    by_test false q =
        let s : lookup mapping_ord x images ≡ some i =
          cc (looked, ap (λ c. if c then some (m + 1) else lookup mapping_ord x images) q) in
        omega (arith, h x i s)

frames-insert :
    (k : ℕ) (f : HeapFrame) (frames : Frames)
    → FramesFit k frames
    → FramesFit (suc k) (insert frame_ord f (k + 1) frames)
frames-insert k f frames h x i e = by_test (same frame_ord x f) refl
  where
    looked : (if same frame_ord x f then some (k + 1) else lookup frame_ord x frames) ≡ some i
    looked = sym (lookup-insert frame_ord x f (k + 1) frames) ∙ e

    by_test : (b : Bool) → same frame_ord x f ≡ b → IsBetween (suc k) i
    by_test true q =
        let s : some (k + 1) ≡ some i =
          cc (looked, ap (λ c. if c then some (k + 1) else lookup frame_ord x frames) q) in
        ground (arith, s)
    by_test false q =
        let s : lookup frame_ord x frames ≡ some i =
          cc (looked, ap (λ c. if c then some (k + 1) else lookup frame_ord x frames) q) in
        omega (arith, h x i s)

-- The profile fits, and its table has at least `n` strings.
pub record Good (ns : List (List ℕ × List ℕ)) (n : ℕ) (p : PprofProfile) : Type 0 where
  pub fits : Fits ns p
  pub longer : n ≤ strings_count p

-- The table after two more strings: both have their index, and it has not lost any.
pub record Twice (ns : List (List ℕ × List ℕ)) (p : PprofProfile) (s t : List ℕ) : Type 0 where
  pub fits : Fits ns (intern_in (intern_in p s).0 t).0
  pub longer : strings_count p ≤ strings_count (intern_in (intern_in p s).0 t).0
  pub first_lt : (intern_in p s).1 < strings_count (intern_in (intern_in p s).0 t).0
  pub second_lt :
      (intern_in (intern_in p s).0 t).1 < strings_count (intern_in (intern_in p s).0 t).0

pub intern-Twice :
    (ns : List (List ℕ × List ℕ)) (p : PprofProfile) (s t : List ℕ) → Fits ns p → Twice ns p s t
intern-Twice ns p s t f =
    let p₁ = (intern_in p s).0 in
    let f₁ = intern-Fits ns p f s in
    let g₁ = intern-Grown p.strings s f.canonical in
    let g₂ = intern-Grown p₁.strings t f₁.canonical in
    record {
      fits = intern-Fits ns p₁ f₁ t;
      longer = omega (arith, g₁.longer, g₂.longer);
      first_lt = omega (arith, intern_lt p.strings s f.canonical, g₂.longer);
      second_lt = intern_lt p₁.strings t f₁.canonical;
    }

add_mapping-Good :
    (ns : List (List ℕ × List ℕ)) (n : ℕ) (image : HeapMapping) (flags : Flags) (p : PprofProfile)
    → Good ns n p
    → Good ns n (add_mapping image flags p)
      × (length (add_mapping image flags p).mappings ≡ suc (length p.mappings))
unfolding add_mapping
add_mapping-Good ns n image flags p g =
    let w = intern-Twice ns p image.filename image.build_id g.fits in
    (
      record {
        fits =
            push_mapping-Fits ns (intern_in (intern_in p image.filename).0 image.build_id).0 w.fits
              _ (omega arith) (w.first_lt, w.second_lt);
        longer = omega (arith, g.longer, w.longer);
      },
      length-push p.mappings _,
    )

pub add_mappings-Good :
    (ns : List (List ℕ × List ℕ)) (n : ℕ) (rest : List (HeapMapping × Flags)) (images : Images)
    (p : PprofProfile)
    → Good ns n p
    → ImagesFit (length p.mappings) images
    → Good ns n (add_mappings rest images p).0
      × ImagesFit (length (add_mappings rest images p).0.mappings) (add_mappings rest images p).1
unfolding add_mappings
add_mappings-Good ns n [] images p g h = (g, h)
add_mappings-Good ns n ((image, flags) ∷ rest) images p g h =
    let (g', e) = add_mapping-Good ns n image flags p g in
    add_mappings-Good ns n rest (insert mapping_ord image (length p.mappings + 1) images)
      (add_mapping image flags p) g' (rw e (images-insert (length p.mappings) image images h))

-- The state of the loops over the frames.
pub record Going (ns : List (List ℕ × List ℕ)) (n m : ℕ) (p : PprofProfile) (frames : Frames)
    : Type 0 where
  pub good : Good ns n p
  pub mapped : length p.mappings ≡ m
  pub frames_fit : FramesFit (length p.functions) frames

module _ (ns : List (List ℕ × List ℕ)) (n m : ℕ) (images : Images)
    (i_fit : ImagesFit m images) where
  mapping_id-le : (o : Option HeapMapping) → mapping_id_of images o ≤ m
  mapping_id-le none = omega arith
  mapping_id-le (some image) = by_lookup (lookup mapping_ord image images) refl
    where
      by_lookup : (o : Option ℕ) → lookup mapping_ord image images ≡ o → or_zero_id o ≤ m
      by_lookup none e = omega arith
      by_lookup (some i) e = i_fit image i e

  add_frame-Good :
      (f : HeapFrame) (p : PprofProfile)
      → Good ns n p
      → length p.mappings ≡ m
      → Good ns n (add_frame images f p)
        × (length (add_frame images f p).functions ≡ suc (length p.functions))
  unfolding add_frame
  add_frame-Good f p g e =
      let w = intern-Twice ns p (frame_name f) f.file g.fits in
      (
        record {
          fits =
              push_frame-Fits ns (intern_in (intern_in p (frame_name f)).0 f.file).0 w.fits _ _
                (omega arith) (omega arith) (w.first_lt, (w.first_lt, w.second_lt))
                (omega (arith, mapping_id-le f.mapping, e), (omega arith, tt));
          longer = omega (arith, g.longer, w.longer);
        },
        length-push p.functions _,
      )

  -- An entry's identifier is one of a location, and the functions do not become fewer.
  record Entered (k : ℕ) (r : (PprofProfile × Frames) × ℕ) : Type 0 where
    going : Going ns n m r.0.0 r.0.1
    more : k ≤ length r.0.0.functions
    id_fits : IsBetween (length r.0.0.functions) r.1

  frame_entry-Entered :
      (f : HeapFrame) (p : PprofProfile) (frames : Frames) (o : Option ℕ)
      → lookup frame_ord f frames ≡ o
      → Going ns n m p frames
      → Entered (length p.functions) (frame_entry images f p frames o)
  frame_entry-Entered f p frames (some id) e g = record {
    going = g;
    more = omega arith;
    id_fits = g.frames_fit f id e;
  }
  frame_entry-Entered f p frames none e g =
      let (good, l) = add_frame-Good f p g.good g.mapped in
      record {
        going = record {
          good = good;
          mapped = mapped_after g.mapped;
          frames_fit = rw l (frames-insert (length p.functions) f frames g.frames_fit);
        };
        more = omega (arith, l);
        id_fits = omega (arith, l);
      }
    where
      mapped_after : length p.mappings ≡ m → length (add_frame images f p).mappings ≡ m
      mapped_after q = unfold add_frame in q

  record Listed (r : (PprofProfile × Frames) × List ℕ) : Type 0 where
    going : Going ns n m r.0.0 r.0.1
    ids_fit : All (IsBetween (length r.0.0.functions)) r.1

  frame_ids-Listed :
      (fs : List HeapFrame) (p : PprofProfile) (frames : Frames) (ids : List ℕ)
      → Going ns n m p frames
      → All (IsBetween (length p.functions)) ids
      → Listed (frame_ids images fs p frames ids)
  unfolding frame_ids
  frame_ids-Listed [] p frames ids g h = record { going = g; ids_fit = h }
  frame_ids-Listed (f ∷ fs) p frames ids g h =
      let r = frame_entry images f p frames (lookup frame_ord f frames) in
      let en = frame_entry-Entered f p frames (lookup frame_ord f frames) refl g in
      frame_ids-Listed fs r.0.0 r.0.1 (push ids r.1) en.going (
        All-append (IsBetween (length r.0.0.functions)) ids (r.1 ∷ [])
          (map-All _ _ ids (λ i b. omega (arith, b, en.more)) h) (en.id_fits, tt))

  pub add_stacks-Good :
      (label : Label) (samples : List (Stack × HeapValues)) (p : PprofProfile) (frames : Frames)
      → LabelFits n label
      → Going ns n m p frames
      → Good ns n (add_stacks images label samples p frames)
  unfolding add_stacks
  add_stacks-Good label [] p frames l g = g.good
  add_stacks-Good label ((stack, v) ∷ samples) p frames l g =
      let r = frame_ids images stack p frames [] in
      let li = frame_ids-Listed stack p frames [] g tt in
      let good = li.going.good in
      add_stacks-Good label samples
        (push_sample r.0.0
          (record { location_ids = r.1; values = values_of v; labels = label ∷ [] }))
        r.0.1 l
        (record {
          good = record {
            fits =
                push_sample-Fits ns r.0.0 good.fits _
                  (li.ids_fit, ((omega (arith, l, good.longer), tt), refl));
            longer = good.longer;
          };
          mapped = li.going.mapped;
          frames_fit = li.going.frames_fit;
        })

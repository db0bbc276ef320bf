-- ===== src/Encode/Stacks.antt =====
-- src/encode.rs, `build_proto`: the samples of the pprof profile have the stacks of the session.
use Prim.Native.Nat.{min}
use pprofessor.Common.{
  ℕ, ◌+◌, ◌*◌, ◌/◌, ◌<◌, leb, if◌then◌else◌, arith, List, [], ◌∷◌, ◌++◌, push, map, append-nil,
  append_assoc, Option, some, ◌≡◌, refl, ap, ◌∙◌,
}
use pprofessor.Common.Int.{ℤ, pos, i64_max}
use pprofessor.Common.Ord.{nat_ord}
use pprofessor.Common.Maps.{lookup}
use pprofessor.Common.Sort.{sort_by}
use pprofessor.Pprof.Location.{Location}
use mathlib.Core.Path.{subst}
use pprofessor.Pprof.Label.{Label}
use pprofessor.Pprof.Sample
use pprofessor.Pprof.Profile
use pprofessor.Pprof.Profile.{PprofProfile}
use pprofessor.Symbolicated.{SymbolicatedProfile, LoadedImage, Sample}
use pprofessor.Encode.{
  Texts, intern_texts, with_settings, cmp_images, add_images, State, visit_stack, or_no_name,
  thread_label, add_thread_name, add_timestamp, values_of, push_sample, add_samples, profile_of,
  build_profile,
}
use pprofessor.Encode.Locations.{
  addresses, known, Extends, addresses-Extends, Ready, visit_stack-Visited,
}

abbrev pub push_stack : List ℕ → List ℤ → List (List ℕ × List ℤ) → List (List ℕ × List ℤ)
push_stack [] vs rest = rest
push_stack (a ∷ addrs) vs rest = (a ∷ addrs, vs) ∷ rest

push_stack-append :
    (addrs : List ℕ) (vs : List ℤ) (rest : List (List ℕ × List ℤ))
    → push_stack addrs vs [] ++ rest ≡ push_stack addrs vs rest
push_stack-append [] vs rest = refl
push_stack-append (a ∷ addrs) vs rest = refl

-- The count, and the nanoseconds that it stands for at this sampling frequency, each cut off at the
-- greatest i64.
abbrev pub costs : ℕ → ℕ → List ℤ
costs freq_hz count =
    let n = min count i64_max in pos n ∷ pos (min (n * (1000000000 / freq_hz)) i64_max) ∷ []

values_of-costs : (freq_hz count : ℕ) → values_of freq_hz count ≡ costs freq_hz count
values_of-costs freq_hz count = ap (λ (m : ℕ). pos (min count i64_max) ∷ pos m ∷ []) (capped _)
  where
    capped : (n : ℕ) → (if leb n i64_max then n else i64_max) ≡ min n i64_max
    capped n = ground arith

-- The stacks of the session, without the addresses that have no frame and without empty stacks, each
-- with its count and wall time.
abbrev pub stacks_of : SymbolicatedProfile → List Sample → List (List ℕ × List ℤ)
stacks_of sp [] = []
stacks_of sp (s ∷ ss) = push_stack (known sp s.stack) (costs sp.freq_hz s.count) (stacks_of sp ss)

-- The samples have these stacks, by the addresses of their locations, and these values.
abbrev pub Shows : List Location → List Sample.Sample → List (List ℕ × List ℤ) → Type 0
Shows ls [] [] = Unit {0}
Shows ls [] (e ∷ es) = ⊥
Shows ls (s ∷ ss) [] = ⊥
Shows ls (s ∷ ss) (e ∷ es) =
    (addresses ls s.location_ids ≡ map (λ a. some a) e.0) × ((s.values ≡ e.1) × Shows ls ss es)

Shows-Extends :
    (ls ls' : List Location) (ss : List Sample.Sample) (es : List (List ℕ × List ℤ))
    → Extends ls ls'
    → Shows ls ss es
    → Shows ls' ss es
Shows-Extends ls ls' [] [] x h = h
Shows-Extends ls ls' [] (e ∷ es) x h = h
Shows-Extends ls ls' (s ∷ ss) [] x h = h
Shows-Extends ls ls' (s ∷ ss) (e ∷ es) x h =
    (addresses-Extends ls ls' s.location_ids e.0 x h.0, (h.1.0, Shows-Extends ls ls' ss es x h.1.1))

Shows-push :
    (ls : List Location) (ss : List Sample.Sample) (es : List (List ℕ × List ℤ)) (s : Sample.Sample)
    (e : List ℕ × List ℤ)
    → Shows ls ss es
    → addresses ls s.location_ids ≡ map (λ a. some a) e.0
    → s.values ≡ e.1
    → Shows ls (push ss s) (push es e)
Shows-push ls [] [] s e h a v = (a, (v, tt))
Shows-push ls [] (d ∷ es) s e h a v = absurd h
Shows-push ls (r ∷ ss) [] s e h a v = absurd h
Shows-push ls (r ∷ ss) (d ∷ es) s e h a v = (h.0, (h.1.0, Shows-push ls ss es s e h.1.1 a v))

-- The samples so far show the stacks so far.
record Shown (es : List (List ℕ × List ℤ)) (st : State) : Type 0 where
  ready : Ready st
  shows : Shows st.profile.locations st.profile.samples es

-- Neither the locations nor the samples change with the name of a thread.
add_thread_name_same :
    (t : Texts) (name : List ℕ) (p : PprofProfile) (labels : List Label)
    → ((add_thread_name t name p labels).0.locations ≡ p.locations)
      × ((add_thread_name t name p labels).0.samples ≡ p.samples)
add_thread_name_same t [] p labels = (refl, refl)
add_thread_name_same t (c ∷ cs) p labels = (refl, refl)

push_sample-Shown :
    (sp : SymbolicatedProfile) (t : Texts) (s : Sample) (st : State) (ids found : List ℕ)
    (es : List (List ℕ × List ℤ))
    → Shown es st
    → addresses st.profile.locations ids ≡ map (λ a. some a) found
    → Shown (es ++ push_stack found (costs sp.freq_hz s.count) []) (push_sample sp t s st ids)
push_sample-Shown sp t s st [] [] es h e = rw (append-nil es) h
push_sample-Shown sp t s st [] (a ∷ addrs) es h e = cc
push_sample-Shown sp t s st (id ∷ ids) [] es h e = cc
push_sample-Shown sp t s st (id ∷ ids) (a ∷ addrs) es h e =
    with_labels (add_thread_name t name st.profile (thread_label t s ∷ [])) same_parts.0
      same_parts.1
  where
    name : List ℕ
    name = or_no_name (lookup nat_ord s.thread_id sp.threads)

    same_parts :
        ((add_thread_name t name st.profile (thread_label t s ∷ [])).0.locations
          ≡ st.profile.locations)
        × ((add_thread_name t name st.profile (thread_label t s ∷ [])).0.samples
            ≡ st.profile.samples)
    same_parts = add_thread_name_same t name st.profile (thread_label t s ∷ [])

    with_labels :
        (r : PprofProfile × List Label)
        → r.0.locations ≡ st.profile.locations
        → r.0.samples ≡ st.profile.samples
        → Shown (push es (a ∷ addrs, costs sp.freq_hz s.count)) (record st {
          profile = record r.0 {
            samples = push r.0.samples (record {
              location_ids = id ∷ ids;
              values = values_of sp.freq_hz s.count;
              labels = add_timestamp t s.timestamp_nanos r.1;
            });
          };
        })
    with_labels r el es' = record {
      ready = record {
        numbered = rw el h.ready.numbered;
        mapped = λ x i q. rw el (h.ready.mapped x i q);
      };
      shows =
          rw (el, es')
            (Shows-push st.profile.locations st.profile.samples es _ _ h.shows e
              (values_of-costs sp.freq_hz s.count));
    }

add_samples-Shown :
    (sp : SymbolicatedProfile) (images : List LoadedImage) (t : Texts) (ss : List Sample)
    (st : State) (es : List (List ℕ × List ℤ))
    → Shown es st
    → Shown (es ++ stacks_of sp ss) (add_samples sp images t ss st)
unfolding add_samples
add_samples-Shown sp images t [] st es h = rw (append-nil es) h
add_samples-Shown sp images t (s ∷ ss) st es h =
    let v = visit_stack-Visited sp images s.stack st [] [] h.ready refl in
    let r = visit_stack sp images s.stack st [] in
    let shown : Shown es r.0 = record {
      ready = v.later.ready;
      shows = rw v.later.same_samples (
          Shows-Extends st.profile.locations r.0.profile.locations st.profile.samples es
            v.later.extends h.shows);
    } in
    let next = push_sample-Shown sp t s r.0 r.1 (known sp s.stack) es shown v.ids_found in
    subst (λ x. Shown x (add_samples sp images t ss (push_sample sp t s r.0 r.1)))
      (append_assoc es (push_stack (known sp s.stack) (costs sp.freq_hz s.count) [])
          (stacks_of sp ss)
        ∙ ap (λ x. es ++ x)
            (push_stack-append (known sp s.stack) (costs sp.freq_hz s.count) (stacks_of sp ss)))
      (add_samples-Shown sp images t ss (push_sample sp t s r.0 r.1) _ next)

add_images_same :
    (file_size : List ℕ → Option ℕ) (index : ℕ) (images : List LoadedImage) (p : PprofProfile)
    → ((add_images file_size index images p).locations ≡ p.locations)
      × ((add_images file_size index images p).samples ≡ p.samples)
unfolding add_images
add_images_same file_size index [] p = (refl, refl)
add_images_same file_size index (image ∷ rest) p = add_images_same file_size (index + 1) rest _

profile_of-Shows :
    (file_size : List ℕ → Option ℕ) (sp : SymbolicatedProfile)
    → Shows
        (profile_of file_size sp).locations
        (profile_of file_size sp).samples
        (stacks_of sp sp.samples)
unfolding profile_of
profile_of-Shows file_size sp =
    let images = sort_by cmp_images sp.images in
    let r = intern_texts Profile.new in
    let q = add_images file_size 0 images (with_settings sp r.1 r.0) in
    let (el, es) = start images in
    (add_samples-Shown sp images r.1 sp.samples
      (record { profile = q; func_id_map = []; loc_id_map = [] }) []
      (record {
        ready = record { numbered = rw el tt; mapped = λ a id e. no_entry a id e };
        shows = rw (el, es) tt;
      })).shows
  where
    start :
        (images : List LoadedImage)
        → ((add_images file_size 0 images (
              with_settings sp (intern_texts Profile.new).1 (intern_texts Profile.new).0)).locations
            ≡ [])
          × ((add_images file_size 0 images (
                with_settings sp (intern_texts Profile.new).1 (intern_texts Profile.new).0)).samples
              ≡ [])
    start images = unfold intern_texts with_settings in (add_images_same file_size 0 images _)

    no_entry : {B : Type 0} (a id : ℕ) → lookup nat_ord a [] ≡ some id → B
    no_entry a id e = unfold lookup in cc

-- With a sampling frequency that is not 0, `build_proto` has a profile to encode, of which the samples
-- are those of the session, in their order: each has the locations of the addresses of its stack, leaf
-- first, without those that have no frame, and two values, first its count and then the nanoseconds
-- that the count stands for, each cut off at the greatest i64. A sample of which no address has a frame
-- is left out.
pub build_profile-Shows :
    (file_size : List ℕ → Option ℕ) (sp : SymbolicatedProfile)
    → 0 < sp.freq_hz
    → (p : PprofProfile) × (build_profile file_size sp ≡ some p)
      × Shows p.locations p.samples (stacks_of sp sp.samples)
unfolding build_profile
build_profile-Shows file_size sp h =
    (profile_of file_size sp, ground arith, profile_of-Shows file_size sp)

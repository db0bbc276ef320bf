-- ===== src/Encode/Locations.antt =====
-- src/encode.rs, `build_proto`: the locations that the addresses of a stack get.
use pprofessor.Common.{
  ℕ, suc, ◌+◌, ◌≤◌, List, [], ◌∷◌, ◌++◌, push, map, length, length-append, All, All-append, map-All,
  append-nil, append_assoc, Option, none, some, Bool-cases, inl, inr, Bool, true, false,
  if◌then◌else◌, ◌==◌, ◌≡◌, refl, sym, ap, ◌∙◌, arith,
}
use pprofessor.Common.Int.{pos}
use pprofessor.Common.Ord.{nat_ord}
use pprofessor.Common.Maps.{lookup, lookup-put, same, same_iff}
use pprofessor.Pprof.Line
use pprofessor.Pprof.Location
use pprofessor.Pprof.Location.{Location}
use pprofessor.Symbolicated.{SymbolicatedProfile, StackFrame, LoadedImage}
use pprofessor.Encode.{
  State, add_function, function_entry, add_location, location_entry, visit_addr, visit_stack,
  partition_point,
}

-- The address of the location with an identifier.
abbrev pub addr_at : List Location → ℕ → Option ℕ
addr_at [] id = none
addr_at (l ∷ ls) id = if l.id == id then some l.address else addr_at ls id

abbrev pub addresses : List Location → List ℕ → List (Option ℕ)
addresses ls ids = map (addr_at ls) ids

abbrev pub push_known : Option StackFrame → ℕ → List ℕ → List ℕ
push_known none a addrs = addrs
push_known (some f) a addrs = a ∷ addrs

-- The addresses of a stack that have a frame.
abbrev pub known : SymbolicatedProfile → List ℕ → List ℕ
known sp [] = []
known sp (a ∷ addrs) = push_known (lookup nat_ord a sp.frames) a (known sp addrs)

abbrev pub Extends : List Location → List Location → Type 0
Extends ls ls' = (id a : ℕ) → addr_at ls id ≡ some a → addr_at ls' id ≡ some a

addr_at-push :
    (ls : List Location) (x : Location) (id a : ℕ)
    → addr_at ls id ≡ some a
    → addr_at (push ls x) id ≡ some a
addr_at-push [] x id a e = cc
addr_at-push (l ∷ ls) x id a e = elim (Bool-cases (l.id == id)) [
  | inl q ↦ ground (arith, q, e)
  | inr q ↦ let k : addr_at ls id ≡ some a = ground (arith, q, e) in rw q (addr_at-push ls x id a k)
]

map-push :
    {A B : Type 0} (f : A → B) (xs : List A) (x : A) → map f (push xs x) ≡ push (map f xs) (f x)
map-push f [] x = refl
map-push f (y ∷ ys) x = ap (λ l. f y ∷ l) (map-push f ys x)

addr_at_new :
    (n : ℕ) (ls : List Location) (x : Location)
    → All (λ (l : Location). l.id ≤ n) ls
    → x.id ≡ suc n
    → addr_at (push ls x) x.id ≡ some x.address
addr_at_new n [] x h e = ground arith
addr_at_new n (l ∷ ls) x h e = ground (arith, h.0, e, addr_at_new n ls x h.1 e)

pub addresses-Extends :
    (ls ls' : List Location) (ids addrs : List ℕ)
    → Extends ls ls'
    → addresses ls ids ≡ map (λ a. some a) addrs
    → addresses ls' ids ≡ map (λ a. some a) addrs
addresses-Extends ls ls' [] [] x e = refl
addresses-Extends ls ls' [] (a ∷ addrs) x e = cc
addresses-Extends ls ls' (id ∷ ids) [] x e = cc
addresses-Extends ls ls' (id ∷ ids) (a ∷ addrs) x e =
    let h : addr_at ls id ≡ some a = cc in
    let t : addresses ls ids ≡ map (λ b. some b) addrs = cc in
    rw (x id a h) (ap (λ r. some a ∷ r) (addresses-Extends ls ls' ids addrs x t))

-- The map of the locations leads to locations with the addresses.
pub record Ready (st : State) : Type 0 where
  pub numbered : All (λ (l : Location). l.id ≤ length st.profile.locations) st.profile.locations
  pub mapped :
      (a id : ℕ)
      → lookup nat_ord a st.loc_id_map ≡ some id
      → addr_at st.profile.locations id ≡ some a

-- The state after some addresses: the samples are the same, and locations have only been added.
pub record Later (st st' : State) : Type 0 where
  pub ready : Ready st'
  pub extends : Extends st.profile.locations st'.profile.locations
  pub same_samples : st'.profile.samples ≡ st.profile.samples

Later-trans : (a b c : State) → Later a b → Later b c → Later a c
Later-trans a b c h k = record {
  ready = k.ready;
  extends = λ id x e. k.extends id x (h.extends id x e);
  same_samples = k.same_samples ∙ h.same_samples;
}

function_entry-Later :
    (addr : ℕ) (frame : StackFrame) (st : State) (o : Option ℕ)
    → Ready st
    → Later st (function_entry addr frame st o).0
unfolding add_function
function_entry-Later addr frame st none r = record {
  ready = record { numbered = r.numbered; mapped = r.mapped };
  extends = λ id a e. e;
  same_samples = refl;
}
function_entry-Later addr frame st (some fid) r = record {
  ready = r;
  extends = λ id a e. e;
  same_samples = refl;
}

add_location-Later :
    (images : List LoadedImage) (addr : ℕ) (frame : StackFrame) (func_id : ℕ) (st : State)
    → Ready st
    → Later st (add_location images addr frame func_id st)
      × (addr_at
            (add_location images addr frame func_id st).profile.locations
            (length st.profile.locations + 1)
          ≡ some addr)
unfolding add_location
add_location-Later images addr frame func_id st r = (
  record {
    ready = record {
      numbered =
          All-append (λ (l : Location). l.id ≤ length (push ls new_location)) ls (new_location ∷ [])
            (map-All (λ (l : Location). l.id ≤ length ls)
              (λ (l : Location). l.id ≤ length (push ls new_location)) ls
              (λ l h. omega (arith, h, grown)) r.numbered)
            (omega (arith, grown), tt);
      mapped = λ a id e.
          by_key a id (same nat_ord a addr) refl
            (sym (lookup-put nat_ord a addr (length ls + 1) st.loc_id_map) ∙ e);
    };
    extends = λ id a e. addr_at-push ls new_location id a e;
    same_samples = refl;
  },
  found,
)
  where
    ls : List Location
    ls = st.profile.locations

    new_location : Location
    new_location = record Location.default {
      id = length ls + 1;
      mapping_id = partition_point addr images;
      address = addr;
      lines = record Line.default { function_id = func_id; line = pos frame.line } ∷ [];
    }

    grown : length (push ls new_location) ≡ suc (length ls)
    grown = omega (arith, length-append ls (new_location ∷ []))

    found : addr_at (push ls new_location) (length ls + 1) ≡ some addr
    found = addr_at_new (length ls) ls new_location r.numbered (omega arith)

    by_key :
        (a id : ℕ) (b : Bool)
        → same nat_ord a addr ≡ b
        → (if same nat_ord a addr then some (length ls + 1) else lookup nat_ord a st.loc_id_map)
          ≡ some id
        → addr_at (push ls new_location) id ≡ some a
    by_key a id true q e =
        let s : some (length ls + 1) ≡ some id =
          cc (e, ap (λ c. if c then some (length ls + 1) else lookup nat_ord a st.loc_id_map) q) in
        let t : length ls + 1 ≡ id = cc in rw (← t, (same_iff nat_ord a addr).0 q) found
    by_key a id false q e =
        let s : lookup nat_ord a st.loc_id_map ≡ some id =
          cc (e, ap (λ c. if c then some (length ls + 1) else lookup nat_ord a st.loc_id_map) q) in
        addr_at-push ls new_location id a (r.mapped a id s)

-- An entry's identifier is that of a location with the address.
location_entry-Later :
    (images : List LoadedImage) (addr : ℕ) (frame : StackFrame) (st : State) (o : Option ℕ)
    → lookup nat_ord addr st.loc_id_map ≡ o
    → Ready st
    → Later st (location_entry images addr frame st o).0
      × (addr_at
            (location_entry images addr frame st o).0.profile.locations
            (location_entry images addr frame st o).1
          ≡ some addr)
location_entry-Later images addr frame st (some lid) e r =
    (record { ready = r; extends = λ id a h. h; same_samples = refl }, r.mapped addr lid e)
location_entry-Later images addr frame st none e r =
    let en = function_entry addr frame st (lookup nat_ord addr st.func_id_map) in
    let l = function_entry-Later addr frame st (lookup nat_ord addr st.func_id_map) r in
    let (k, a) = add_location-Later images addr frame en.1 en.0 l.ready in
    (Later-trans st en.0 (add_location images addr frame en.1 en.0) l k, a)

-- The identifiers that a stack gets are those of its known addresses.
pub record Visited (st : State) (done : List ℕ) (r : State × List ℕ) : Type 0 where
  pub later : Later st r.0
  pub ids_found : addresses r.0.profile.locations r.1 ≡ map (λ a. some a) done

visit_addr-Visited :
    (images : List LoadedImage) (addr : ℕ) (o : Option StackFrame) (st : State) (ids done : List ℕ)
    → Ready st
    → addresses st.profile.locations ids ≡ map (λ a. some a) done
    → Visited st (done ++ push_known o addr []) (visit_addr images addr o st ids)
visit_addr-Visited images addr none st ids done r h = record {
  later = record { ready = r; extends = λ id a e. e; same_samples = refl };
  ids_found = h ∙ ap (λ x. map (λ a. some a) x) (sym (append-nil done));
}
visit_addr-Visited images addr (some frame) st ids done r h =
    let en = location_entry images addr frame st (lookup nat_ord addr st.loc_id_map) in
    let (l, e) =
      location_entry-Later images addr frame st (lookup nat_ord addr st.loc_id_map) refl r in
    record {
      later = l;
      ids_found =
          map-push (addr_at en.0.profile.locations) ids en.1
          ∙ rw
              (
                addresses-Extends st.profile.locations en.0.profile.locations ids done l.extends h,
                e,
              )
              (sym (map-push (λ a. some a) done addr));
    }

push_known-append :
    (o : Option StackFrame) (a : ℕ) (xs : List ℕ) → push_known o a [] ++ xs ≡ push_known o a xs
push_known-append none a xs = refl
push_known-append (some f) a xs = refl

pub visit_stack-Visited :
    (sp : SymbolicatedProfile) (images : List LoadedImage) (addrs : List ℕ) (st : State)
    (ids done : List ℕ)
    → Ready st
    → addresses st.profile.locations ids ≡ map (λ a. some a) done
    → Visited st (done ++ known sp addrs) (visit_stack sp images addrs st ids)
unfolding visit_stack
visit_stack-Visited sp images [] st ids done r h = record {
  later = record { ready = r; extends = λ id a e. e; same_samples = refl };
  ids_found = h ∙ ap (λ x. map (λ a. some a) x) (sym (append-nil done));
}
visit_stack-Visited sp images (addr ∷ addrs) st ids done r h =
    let o = lookup nat_ord addr sp.frames in
    let v = visit_addr-Visited images addr o st ids done r h in
    let w =
      visit_stack-Visited sp images addrs (visit_addr images addr o st ids).0
        (visit_addr images addr o st ids).1 (done ++ push_known o addr []) v.later.ready
        v.ids_found in
    record {
      later = Later-trans st (visit_addr images addr o st ids).0 _ v.later w.later;
      ids_found =
          w.ids_found
          ∙ ap (λ x. map (λ a. some a) x)
              (append_assoc done (push_known o addr []) (known sp addrs)
                ∙ ap (λ x. done ++ x) (push_known-append o addr (known sp addrs)));
    }

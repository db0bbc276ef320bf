-- ===== src/Pprof/StringTable/Laws.antt =====
-- src/pprof.rs, `StringTable`: the lookup cache agrees with the strings, and interning.
use pprofessor.Common.{
  ℕ, zero, suc, ◌+◌, List, [], ◌∷◌, push, length, get_elem?, beq, beq_iff, beq_refl, ◌≡◌, refl, sym,
  ap, ◌∙◌, arith, Option, none, some, Option-cases, Bool-cases, inl, inr, if◌then◌else◌, ok, err,
  ◌⊎◌,
}
use pprofessor.Wire.Decode.{invalid_string_table}
use pprofessor.Pprof.StringTable.{
  StringTable, Indices, get, or_insert, insert, intern, new, index_from, from_strings,
}

-- The table starts with the empty string, and its cache is the one that `from_strings` builds.
pub record IsCanonical (t : StringTable) : Type 0 where
  pub starts_empty : get_elem? t.strings 0 ≡ some []
  pub indexed : t.indices ≡ index_from 0 t.strings []

-- The first index of a string, counted from `i`.
abbrev pub first_index : ℕ → List ℕ → List (List ℕ) → Option ℕ
first_index i s [] = none
first_index i s (k ∷ ks) = if beq s k then some i else first_index (i + 1) s ks

abbrev or_else : Option ℕ → Option ℕ → Option ℕ
or_else (some i) o = some i
or_else none o = o

get-or_insert :
    (s k : List ℕ) (i : ℕ) (m : Indices)
    → get s (or_insert k i m) ≡ or_else (get s m) (if beq s k then some i else none)
unfolding get or_insert
get-or_insert s k i [] = refl
get-or_insert s k i ((j, v) ∷ m) =
    ground (arith, beq_iff s k, beq_iff s j, beq_iff k j, get-or_insert s k i m)

or_else_assoc : (a b c : Option ℕ) → or_else (or_else a b) c ≡ or_else a (or_else b c)
or_else_assoc (some i) b c = refl
or_else_assoc none b c = refl

get-index_from :
    (s : List ℕ) (i : ℕ) (ks : List (List ℕ)) (m : Indices)
    → get s (index_from i ks m) ≡ or_else (get s m) (first_index i s ks)
unfolding index_from
get-index_from s i [] m = ground arith
get-index_from s i (k ∷ ks) m =
    get-index_from s (i + 1) ks (or_insert k i m) ∙ rw get-or_insert (ground arith)

insert_new : (s : List ℕ) (i : ℕ) (m : Indices) → get s m ≡ none → insert s i m ≡ or_insert s i m
unfolding get insert or_insert
insert_new s i [] h = refl
insert_new s i ((k, j) ∷ m) h = ground (arith, insert_new s i m)

index_from-push :
    (i : ℕ) (ks : List (List ℕ)) (s : List ℕ) (m : Indices)
    → index_from i (push ks s) m ≡ or_insert s (i + length ks) (index_from i ks m)
unfolding index_from
index_from-push i [] s m = ap (λ n. or_insert s n m) (omega arith)
index_from-push i (k ∷ ks) s m =
    index_from-push (i + 1) ks s (or_insert k i m)
    ∙ ap (λ n. or_insert s n (index_from (i + 1) ks (or_insert k i m))) (omega arith)

first_index_found :
    (i : ℕ) (s : List ℕ) (ks : List (List ℕ)) (j : ℕ)
    → first_index i s ks ≡ some j
    → (d : ℕ) × (j ≡ i + d) × (get_elem? ks d ≡ some s)
first_index_found i s [] j h = cc
first_index_found i s (k ∷ ks) j h = elim (Bool-cases (beq s k)) [
  | inl e ↦ (0, ground arith, ground (arith, beq_iff s k))
  | inr e ↦ let (d, p, q) = first_index_found (i + 1) s ks j (rw e at h) in (suc d, omega arith, q)
]

get_elem?-push_last :
    {A : Type 0} (xs : List A) (x : A) → get_elem? (push xs x) (length xs) ≡ some x
get_elem?-push_last [] x = refl
get_elem?-push_last (y ∷ xs) x = get_elem?-push_last xs x

get_elem?-push_old :
    {A : Type 0} (xs : List A) (x : A) (i : ℕ) (y : A)
    → get_elem? xs i ≡ some y
    → get_elem? (push xs x) i ≡ some y
get_elem?-push_old [] x i y h = cc
get_elem?-push_old (z ∷ xs) x zero y h = h
get_elem?-push_old (z ∷ xs) x (suc i) y h = get_elem?-push_old xs x i y h

intern_old : (t : StringTable) (s : List ℕ) (i : ℕ) → get s t.indices ≡ some i → intern t s ≡ (t, i)
unfolding intern
intern_old t s i h = rw (h, intern)

abbrev extended : StringTable → List ℕ → StringTable
extended t s = record {
  strings = push t.strings s;
  indices = insert s (length t.strings) t.indices;
}

intern_new :
    (t : StringTable) (s : List ℕ)
    → get s t.indices ≡ none
    → intern t s ≡ (extended t s, length t.strings)
unfolding intern
intern_new t s h = rw (h, intern)

canonical_get :
    (t : StringTable) (s : List ℕ) → IsCanonical t → get s t.indices ≡ first_index 0 s t.strings
canonical_get t s c = ap (get s) c.indexed ∙ get-index_from s 0 t.strings [] ∙ unfold get in refl

-- Interning gives the string's own index, and keeps every string where it was; a string that the
-- table has is not added again.
pub record Interned (t : StringTable) (s : List ℕ) (t' : StringTable) (i : ℕ) : Type 0 where
  pub found : get_elem? t'.strings i ≡ some s
  pub kept : (j : ℕ) (x : List ℕ) → get_elem? t.strings j ≡ some x → get_elem? t'.strings j ≡ some x
  pub again : intern t' s ≡ (t', i)
  pub canonical : IsCanonical t'

intern-Interned_old :
    (t : StringTable) (s : List ℕ) (i : ℕ)
    → IsCanonical t
    → get s t.indices ≡ some i
    → Interned t s t i
intern-Interned_old t s i c h =
    let (d, p, q) = first_index_found 0 s t.strings i (sym (canonical_get t s c) ∙ h) in
    let e : i ≡ d = omega arith in
    record {
      found = ap (get_elem? t.strings) e ∙ q;
      kept = λ j x e. e;
      again = intern_old t s i h;
      canonical = c;
    }

extended-IsCanonical :
    (t : StringTable) (s : List ℕ)
    → IsCanonical t
    → get s t.indices ≡ none
    → IsCanonical (extended t s)
extended-IsCanonical t s c h = record {
  starts_empty = get_elem?-push_old t.strings s 0 [] c.starts_empty;
  indexed =
      insert_new s (length t.strings) t.indices h
      ∙ ap (or_insert s (length t.strings)) c.indexed
      ∙ sym (
          index_from-push 0 t.strings s []
          ∙ ap (λ n. or_insert s n (index_from 0 t.strings [])) (omega arith));
}

intern-Interned_new :
    (t : StringTable) (s : List ℕ)
    → IsCanonical t
    → get s t.indices ≡ none
    → Interned t s (extended t s) (length t.strings)
intern-Interned_new t s c h = record {
  found = get_elem?-push_last t.strings s;
  kept = λ j x e. get_elem?-push_old t.strings s j x e;
  again = intern_old (extended t s) s (length t.strings) (
      ap (get s) (insert_new s (length t.strings) t.indices h)
      ∙ get-or_insert s s (length t.strings) t.indices
      ∙ rw (h, beq_refl s));
  canonical = extended-IsCanonical t s c h;
}

-- On a canonical table, `intern` returns an index that holds the string, leaves every earlier index
-- as it was, adds nothing when the same string is interned again, and keeps the table canonical.
pub intern-Interned :
    (t : StringTable) (s : List ℕ) → IsCanonical t → Interned t s (intern t s).0 (intern t s).1
intern-Interned t s c = elim (Option-cases (get s t.indices)) [
  | inl e ↦ rw (intern_new t s e) (intern-Interned_new t s c e)
  | inr (i, e) ↦ rw (intern_old t s i e) (intern-Interned_old t s i c e)
]

pub new-IsCanonical : IsCanonical new
unfolding new insert index_from get
new-IsCanonical = record { starts_empty = refl; indexed = refl }

abbrev built : List (List ℕ) → StringTable
built ss = record { strings = ss; indices = index_from 0 ss [] }

built-eq : (t : StringTable) (ss : List (List ℕ)) → IsCanonical t → t.strings ≡ ss → built ss ≡ t
built-eq t ss c e = λ i. record { strings = sym e i; indices = indices_eq i }
  where
    indices_eq : index_from 0 ss [] ≡ t.indices
    indices_eq = sym (c.indexed ∙ ap (λ l. index_from 0 l []) e)

pub from_strings_complete :
    (ss : List (List ℕ)) (t : StringTable) → IsCanonical t → t.strings ≡ ss → from_strings ss ≡ ok t
unfolding from_strings
from_strings_complete [] t c e = cc (c.starts_empty, ap (λ l. get_elem? l 0) e)
from_strings_complete ([] ∷ ss) t c e = ap ok (built-eq t ([] ∷ ss) c e)
from_strings_complete ((x ∷ s) ∷ ss) t c e = cc (c.starts_empty, ap (λ l. get_elem? l 0) e)

-- A table of the given strings, in which the cache has for every string its first index.
pub record IsIndexed (ss : List (List ℕ)) (t : StringTable) : Type 0 where
  pub same_strings : t.strings ≡ ss
  pub first : (s : List ℕ) → get s t.indices ≡ first_index 0 s ss

-- The first string is there and is empty.
abbrev pub StartsEmpty : List (List ℕ) → Type 0
StartsEmpty ss = get_elem? ss 0 ≡ some []

-- `from_strings` of strings of which the first is empty returns a table of these strings, in which
-- every string is looked up to its first index, and a string that is not among them to none; of any
-- other list of strings it fails, for an invalid string table.
pub from_strings_cases :
    (ss : List (List ℕ))
    → (StartsEmpty ss × ((t : StringTable) × (from_strings ss ≡ ok t) × IsIndexed ss t))
      ⊎ ((¬ StartsEmpty ss) × (from_strings ss ≡ err invalid_string_table))
unfolding from_strings
from_strings_cases [] = inr (λ h. cc, refl)
from_strings_cases ([] ∷ ss) = inl (
  refl,
  (
    built ([] ∷ ss),
    refl,
    record {
      same_strings = refl;
      first = λ s. get-index_from s 0 ([] ∷ ss) [] ∙ unfold get in refl;
    },
  ),
)
from_strings_cases ((x ∷ s) ∷ ss) = inr (λ h. cc, refl)

-- ===== src/Pprof/StringTable.antt =====
-- src/pprof.rs, `StringTable`. A string is the list of its bytes; the `HashMap` from strings to
-- indices is an association list in which a key is inserted at most once.
pub mod Laws
use pprofessor.Common.{
  ℕ, zero, suc, ◌+◌, ◌-◌, ◌≤◌, ◌<◌, List, [], ◌∷◌, ◌++◌, push, length, length-append, get_elem?,
  beq, beq_iff, beq_refl, ◌≡◌, ◌≢◌, refl, sym, ap, ◌∙◌, arith, Bool, true, false, Option, none,
  some, Option-cases, Bool-cases, inl, inr, if◌then◌else◌, ok, err, append_assoc, append-nil,
  is_nil,
}
use pprofessor.Wire.Decode.{Decoded, invalid_string_table}

abbrev pub Indices : Type 0
Indices = List (List ℕ × ℕ)

pub record StringTable : Type 0 where
  pub strings : List (List ℕ)
  pub indices : Indices

unfoldable pub get : List ℕ → Indices → Option ℕ
get s [] = none
get s ((k, i) ∷ m) = if beq s k then some i else get s m

-- `entry(s).or_insert(i)`
unfoldable pub or_insert : List ℕ → ℕ → Indices → Indices
or_insert s i [] = (s, i) ∷ []
or_insert s i ((k, j) ∷ m) = if beq s k then (k, j) ∷ m else (k, j) ∷ or_insert s i m

-- `indices.insert(s, i)`: an existing key takes the new value.
unfoldable pub insert : List ℕ → ℕ → Indices → Indices
insert s i [] = (s, i) ∷ []
insert s i ((k, j) ∷ m) = if beq s k then (k, i) ∷ m else (k, j) ∷ insert s i m

-- The new table and the index of `s`.
unfoldable pub intern : StringTable → List ℕ → StringTable × ℕ
intern t s = elim (get s t.indices) [
  | some i ↦ (t, i)
  | none ↦ (
    record { strings = push t.strings s; indices = insert s (length t.strings) t.indices },
    length t.strings,
  )
]

unfoldable pub new : StringTable
unfolding intern
new = (intern (record { strings = []; indices = [] }) []).0

-- `for (index, value) in strings.iter().enumerate()`, from `index` on.
unfoldable pub index_from : ℕ → List (List ℕ) → Indices → Indices
unfolding or_insert
index_from i [] m = m
index_from i (s ∷ ss) m = index_from (i + 1) ss (or_insert s i m)

unfoldable pub from_strings : List (List ℕ) → Decoded StringTable
from_strings [] = err invalid_string_table
from_strings (s ∷ ss) =
    if is_nil s
    then ok (record { strings = s ∷ ss; indices = index_from 0 (s ∷ ss) [] })
    else err invalid_string_table

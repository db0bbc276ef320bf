-- ===== src/Cursor.antt =====
-- src/sampler/mod.rs, `RawProfileCursor`: what a profile has new since the cursor last saw one.
use Prim.Native.Nat.{max}
use pprofessor.Common.{
  ℕ, ◌-◌, List, [], ◌∷◌, drop, is_nil, ltb, Bool, true, false, Option, none, some, if◌then◌else◌,
  ◌≡◌, refl, ap, ◌∙◌, arith, Bool-cases, inl, inr,
}
use pprofessor.Common.Ord.{Ord, nat_ord, bytes_ord, pair_ord}
use pprofessor.Common.Maps.{lookup, insert, lookup-insert, same, same_iff}
use pprofessor.Symbolicated.{RawSampleSeries, RawProfile}

abbrev pub Key : Type 0
Key = ℕ × List ℕ

unfoldable pub key_order : Ord Key
key_order = pair_ord nat_ord bytes_ord

abbrev pub or_none_seen : Option ℕ → ℕ
or_none_seen none = 0
or_none_seen (some n) = n

abbrev pub seen : Key → List (Key × ℕ) → ℕ
seen k counts = or_none_seen (lookup key_order k counts)

-- `timestamps.iter().skip(previous)`
abbrev pub skip_seen : ℕ → Option (List ℕ) → Option (List ℕ)
skip_seen n none = none
skip_seen n (some timestamps) = some (drop n timestamps)

-- The series without its first observations.
abbrev pub new_part : ℕ → RawSampleSeries → RawSampleSeries
new_part previous series = record {
  count = series.count - previous;
  timestamps_nanos = skip_seen previous series.timestamps_nanos;
}

-- The counts after the stacks, and the stacks that have something new.
unfoldable pub delta_stacks :
    List (Key × ℕ) → List (Key × RawSampleSeries) → List (Key × ℕ) × List (Key × RawSampleSeries)
delta_stacks counts [] = (counts, [])
delta_stacks counts ((key, series) ∷ stacks) =
    let grown = delta_stacks (insert key_order key series.count counts) stacks in
    let same_as_before = delta_stacks counts stacks in
    if ltb (seen key counts) series.count
    then (grown.0, (key, new_part (seen key counts) series) ∷ grown.1)
    else same_as_before

unfoldable pub delta : List (Key × ℕ) → RawProfile → List (Key × ℕ) × Option RawProfile
unfolding delta_stacks
delta counts profile =
    let (counts', stacks) = delta_stacks counts profile.stacks in
    (counts', (if is_nil stacks then none else some (record profile { stacks = stacks })))

-- The highest count that a key has in the stacks.
abbrev pub peak : Key → List (Key × RawSampleSeries) → ℕ
peak k [] = 0
peak k ((key, series) ∷ stacks) =
    max (if same key_order k key then series.count else 0) (peak k stacks)

seen-insert :
    (k key : Key) (n : ℕ) (counts : List (Key × ℕ))
    → seen k (insert key_order key n counts) ≡ (if same key_order k key then n else seen k counts)
seen-insert k key n counts =
    rw (lookup-insert key_order k key n counts) (by_test (same key_order k key))
  where
    by_test :
        (b : Bool)
        → or_none_seen (if b then some n else lookup key_order k counts)
          ≡ (if b then n else seen k counts)
    by_test true = refl
    by_test false = refl

seen-delta_stacks :
    (k : Key) (counts : List (Key × ℕ)) (stacks : List (Key × RawSampleSeries))
    → seen k (delta_stacks counts stacks).0 ≡ max (seen k counts) (peak k stacks)
unfolding delta_stacks
seen-delta_stacks k counts [] = omega arith
seen-delta_stacks k counts ((key, series) ∷ stacks) =
    elim (Bool-cases (ltb (seen key counts) series.count)) [
      | inl e ↦ rw e (
          seen-delta_stacks k (insert key_order key series.count counts) stacks
          ∙ rw (seen-insert k key series.count counts) (grown e (same key_order k key) refl))
      | inr e ↦ rw e (seen-delta_stacks k counts stacks ∙ kept e (same key_order k key) refl)
    ]
  where
    at_key : same key_order k key ≡ true → seen k counts ≡ seen key counts
    at_key q = ap (λ x. seen x counts) ((same_iff key_order k key).0 q)

    grown :
        ltb (seen key counts) series.count ≡ true
        → (b : Bool) → same key_order k key ≡ b
        → max (if b then series.count else seen k counts) (peak k stacks)
          ≡ max (seen k counts) (max (if b then series.count else 0) (peak k stacks))
    grown e true q = let p = at_key q in ground arith
    grown e false q = omega arith

    kept :
        ltb (seen key counts) series.count ≡ false
        → (b : Bool) → same key_order k key ≡ b
        → max (seen k counts) (peak k stacks)
          ≡ max (seen k counts) (max (if b then series.count else 0) (peak k stacks))
    kept e true q = let p = at_key q in ground arith
    kept e false q = omega arith

-- After a call of `delta` the cursor holds, for every key, the larger one of what it held before and
-- the key's highest count in the profile.
pub seen-delta :
    (k : Key) (counts : List (Key × ℕ)) (profile : RawProfile)
    → seen k (delta counts profile).0 ≡ max (seen k counts) (peak k profile.stacks)
unfolding delta
seen-delta k counts profile = seen-delta_stacks k counts profile.stacks

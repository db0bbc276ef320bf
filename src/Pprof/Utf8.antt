-- ===== src/Pprof/Utf8.antt =====
-- The test that `std::str::from_utf8` makes in src/pprof.rs, on a list of bytes.
use Prim.Native.Nat.{pred}
use pprofessor.Common.{
  ℕ, List, [], ◌∷◌, Bool, true, false, ◌&&◌, leb, ltb, if◌then◌else◌, ◌==◌, ◌≡◌, refl,
}

-- A continuation byte, and the range of the second byte after each lead byte.
abbrev is_tail : ℕ → Bool
is_tail b = leb 0x80 b && leb b 0xbf

abbrev second_lo : ℕ → ℕ
second_lo b = if b == 0xe0 then 0xa0 else if b == 0xf0 then 0x90 else 0x80

abbrev second_hi : ℕ → ℕ
second_hi b = if b == 0xed then 0x9f else if b == 0xf4 then 0x8f else 0xbf

-- The number of bytes that follow a lead byte; 4 marks a byte that leads nothing.
abbrev tail_count : ℕ → ℕ
tail_count b =
    if ltb b 0x80
    then 0
    else if ltb b 0xc2
    then 4
    else if ltb b 0xe0
    then 1
    else if ltb b 0xf0
    then 2
    else if ltb b 0xf5
    then 3
    else 4

-- The state: 0 between characters, else the number of bytes still due and the range of the next.
unfoldable pub utf8_from : ℕ → ℕ → ℕ → List ℕ → Bool
utf8_from due lo hi [] = due == 0
utf8_from due lo hi (b ∷ bs) =
    let start = tail_count b in
    let fresh = utf8_from start (second_lo b) (second_hi b) bs in
    let next = utf8_from (pred due) 0x80 0xbf bs in
    if due == 0
    then (if start == 4 then false else fresh)
    else (if leb lo b && leb b hi then next else false)

unfoldable pub is_utf8 : List ℕ → Bool
unfolding utf8_from
is_utf8 bs = utf8_from 0 0x80 0xbf bs

-- "é€😀" is text; an overlong form, a surrogate and a cut character are not.
accepts_text :
    is_utf8 (0xc3 ∷ 0xa9 ∷ 0xe2 ∷ 0x82 ∷ 0xac ∷ 0xf0 ∷ 0x9f ∷ 0x98 ∷ 0x80 ∷ 65 ∷ []) ≡ true
unfolding is_utf8
accepts_text = refl

rejects_overlong : is_utf8 (0xc0 ∷ 0x80 ∷ []) ≡ false
unfolding is_utf8
rejects_overlong = refl

rejects_surrogate : is_utf8 (0xed ∷ 0xa0 ∷ 0x80 ∷ []) ≡ false
unfolding is_utf8
rejects_surrogate = refl

rejects_cut : is_utf8 (0xe2 ∷ 0x82 ∷ []) ≡ false
unfolding is_utf8
rejects_cut = refl

-- ===== src/Wire/Varint.antt =====
-- src/pprof.rs, `read_varint` on what `encode_varint` wrote.
use Prim.Native.Nat.{bit_and, bit_or}
use pprofessor.Common.{
  ℕ, zero, suc, ◌+◌, ◌*◌, ◌/◌, ◌%◌, ◌^◌, ◌≤◌, ◌<◌, List, [], ◌∷◌, ◌++◌, length, ◌≡◌, ◌≢◌, ap, arith,
  ok, ◌==◌, append_assoc, append-nil, if◌then◌else◌, push, sym, ◌∙◌,
}
use pprofessor.Common.Int.{IsU64}
use pprofessor.Common.Bits.{bit_and_low7, top_bit, set_top_bit, bit_or-disjoint}
use pprofessor.Wire.Encode.{encode_varint_loop, encode_varint}
use pprofessor.Wire.Decode.{Fields, read_varint_loop, read_varint}
use native.Mathlib.Decide.{dec_lt}
use native.Mathlib.Nat.{div-add-mod}
use native.Mathlib.Numerals.{towards_suc}

-- The groups of seven bits, lowest first, in plain arithmetic.
unfoldable pub groups : ℕ → ℕ → List ℕ
groups zero v = []
groups (suc k) v =
    let more = groups k (v / 128) in if v / 128 == 0 then v ∷ [] else (v % 128 + 128) ∷ more

low_group : (v : ℕ) → bit_and v 127 % 256 ≡ v % 128
low_group v = omega (arith, bit_and_low7 v)

high_group : (v : ℕ) → bit_or (bit_and v 127 % 256) 128 ≡ v % 128 + 128
high_group v = rw low_group (set_top_bit _ (omega arith))

encode_varint_loop-groups :
    (k : ℕ) (buf : List ℕ) (v : ℕ) → encode_varint_loop k buf v ≡ buf ++ groups k v
unfolding encode_varint_loop groups
encode_varint_loop-groups zero buf v = sym (append-nil buf)
encode_varint_loop-groups (suc k) buf v =
    let b : ℕ = bit_or (bit_and v 127 % 256) 128 in
    ground (
      arith,
      low_group v,
      high_group v,
      encode_varint_loop-groups k (push buf b) (v / 128),
      append_assoc buf (b ∷ []) (groups k (v / 128)),
    )

pub encode_varint-groups : (buf : List ℕ) (v : ℕ) → encode_varint buf v ≡ buf ++ groups 10 v
unfolding encode_varint
encode_varint-groups buf v = encode_varint_loop-groups 10 buf v

pub length-groups_pos : (k v : ℕ) → 0 < length (groups (suc k) v)
unfolding groups
length-groups_pos k v = ground arith

-- One round of the reader on a last byte, and on a byte with the top bit set.
last_byte :
    (r w acc shift o : ℕ) (rest : List ℕ)
    → w < 128
    → acc < 2 ^ shift
    → acc + w * 2 ^ shift < 2 ^ 64
    → read_varint_loop (suc r) shift acc o (w ∷ rest)
      ≡ ok (acc + w * 2 ^ shift, record { offset = o + 1; rest = rest })
unfolding read_varint_loop
last_byte r w acc shift o rest hw ha fits =
    ground (arith, bit_and_low7 w, top_bit w, bit_or-disjoint shift acc w)

inner_byte :
    (r g acc shift o : ℕ) (rest : List ℕ)
    → g < 128
    → shift ≢ 63
    → acc < 2 ^ shift
    → acc + g * 2 ^ shift < 2 ^ 64
    → read_varint_loop (suc r) shift acc o ((g + 128) ∷ rest)
      ≡ read_varint_loop r (shift + 7) (acc + g * 2 ^ shift) (o + 1) rest
unfolding read_varint_loop
inner_byte r g acc shift o rest hg hs ha fits =
    ground (arith, bit_and_low7 (g + 128), top_bit (g + 128), bit_or-disjoint shift acc g)

seven : (s : ℕ) → 128 * 2 ^ s ≡ 2 ^ (s + 7)
seven s = simp towards_suc (omega arith)

-- A number is its lowest seven bits and the others, here all from bit `s` on.
low_and_high : (s w : ℕ) → w / 128 * 2 ^ (s + 7) + w % 128 * 2 ^ s ≡ w * 2 ^ s
low_and_high s w =
    let scaled : 128 * 2 ^ s ≡ 2 ^ (s + 7) = seven s in
    omega
      (arith, ap (λ (x : ℕ). x * (w / 128)) scaled, ap (λ (x : ℕ). 2 ^ s * x) (div-add-mod w 128))

-- After the lowest group the accumulator stays below the next shift.
group_bound : (g acc s : ℕ) → g < 128 → acc < 2 ^ s → acc + g * 2 ^ s < 2 ^ (s + 7)
group_bound g acc s hg ha = rw (← seven s) (grind arith)

pub groups_last : (k v : ℕ) → v < 128 → groups (suc k) v ≡ v ∷ []
unfolding groups
groups_last k v h = ground arith

groups_more : (k v : ℕ) → 128 ≤ v → groups (suc k) v ≡ (v % 128 + 128) ∷ groups k (v / 128)
unfolding groups
groups_more k v h = ground arith

not_last : (w acc s : ℕ) → 128 ≤ w → acc + w * 2 ^ s < 2 ^ 64 → s ≢ 63
not_last w acc s hw fits e = omega (arith, ap (λ (t : ℕ). w * 2 ^ t) e)

abbrev pub after : ℕ → List ℕ → Fields
after o rest = record { offset = o; rest = rest }

-- `w` is what is still to be read, and it counts from bit `shift` on.
read_varint_loop-groups :
    (k w acc shift o : ℕ) (rest : List ℕ)
    → w < 128 ^ suc k
    → acc < 2 ^ shift
    → acc + w * 2 ^ shift < 2 ^ 64
    → read_varint_loop (suc k) shift acc o (groups (suc k) w ++ rest)
      ≡ ok (acc + w * 2 ^ shift, after (o + length (groups (suc k) w)) rest)
read_varint_loop-groups zero w acc shift o rest hw ha fits =
    rw (groups_last 0 w (omega arith)) (last_byte 0 w acc shift o rest (omega arith) ha fits)
read_varint_loop-groups (suc k) w acc shift o rest hw ha fits = elim (dec_lt w 128) [
  | yes p ↦ rw (groups_last (suc k) w p) (last_byte (suc k) w acc shift o rest p ha fits)
  | no p ↦ rw (groups_more (suc k) w (omega arith)) (
      inner_byte (suc k) (w % 128) acc shift o (groups (suc k) (w / 128) ++ rest) (omega arith)
        (not_last w acc shift (omega arith) fits) ha (omega (arith, low_and_high shift w))
      ∙ read_varint_loop-groups k (w / 128) (acc + w % 128 * 2 ^ shift) (shift + 7) (o + 1) rest
          (omega arith) (group_bound (w % 128) acc shift (omega arith) ha)
          (omega (arith, low_and_high shift w))
      ∙ ground (arith, low_and_high shift w))
]

-- What `encode_varint` appends, `read_varint` takes off, whatever follows.
pub read_varint-groups :
    (v o : ℕ) (rest : List ℕ)
    → IsU64 v
    → read_varint (after o (groups 10 v ++ rest)) ≡ ok (v, after (o + length (groups 10 v)) rest)
unfolding read_varint
read_varint-groups v o rest h =
    rw (read_varint_loop-groups 9 v 0 0 o rest (omega arith) (omega arith) (omega arith))
      (ground arith)

-- The bytes that `encode_varint` appends for a u64 are read back by `read_varint` as that number,
-- whatever follows them, and the offset is then behind them.
pub read_varint-encode_varint :
    (v o : ℕ) (rest : List ℕ)
    → IsU64 v
    → read_varint (after o (encode_varint [] v ++ rest))
      ≡ ok (v, after (o + length (encode_varint [] v)) rest)
read_varint-encode_varint v o rest h =
    rw (encode_varint-groups [] v) (read_varint-groups v o rest h)

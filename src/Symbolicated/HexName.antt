-- ===== src/Symbolicated/HexName.antt =====
-- src/symbolicated.rs, `format!("0x{addr:016x}")`: the name of an unresolved address tells the address.
use native.Mathlib.Nat.{pow-suc}
use pprofessor.Common.{
  ℕ, zero, suc, ◌+◌, ◌-◌, ◌*◌, ◌/◌, ◌%◌, ◌^◌, ◌<◌, List, [], ◌∷◌, ◌++◌, length, length-append, ltb,
  if◌then◌else◌, ◌≡◌, refl, ◌∙◌, arith,
}
use pprofessor.Symbolicated.FromRaw.{hex_digit, hex_digits, hex_name}

abbrev digit_value : ℕ → ℕ
digit_value c = if ltb c 58 then c - 48 else c - 87

-- The number that hexadecimal digits stand for, the highest first.
abbrev pub read_hex : ℕ → List ℕ → ℕ
read_hex n [] = n
read_hex n (c ∷ cs) = read_hex (n * 16 + digit_value c) cs

read_hex-push :
    (n : ℕ) (cs : List ℕ) (c : ℕ) → read_hex n (cs ++ (c ∷ [])) ≡ read_hex n cs * 16 + digit_value c
read_hex-push n [] c = refl
read_hex-push n (d ∷ cs) c = read_hex-push (n * 16 + digit_value d) cs c

digit_value-hex_digit : (d : ℕ) → d < 16 → digit_value (hex_digit d) ≡ d
digit_value-hex_digit d h = ground arith

read_hex-hex_digits : (n v : ℕ) → v < 16 ^ n → read_hex 0 (hex_digits n v) ≡ v
unfolding hex_digits
read_hex-hex_digits zero v h = omega arith
read_hex-hex_digits (suc n) v h =
    let p : 16 ^ suc n ≡ 16 * 16 ^ n = omega (arith, pow-suc 16 n) in
    read_hex-push 0 (hex_digits n (v / 16)) (hex_digit (v % 16))
    ∙ omega (
      arith,
      p,
      read_hex-hex_digits n (v / 16) (omega (arith, p)),
      digit_value-hex_digit (v % 16) (omega arith),
    )

length-hex_digits : (n v : ℕ) → length (hex_digits n v) ≡ n
unfolding hex_digits
length-hex_digits zero v = refl
length-hex_digits (suc n) v = omega (
  arith,
  length-append (hex_digits n (v / 16)) (hex_digit (v % 16) ∷ []),
  length-hex_digits n (v / 16),
)

-- The text is 0x and sixteen hexadecimal digits, which stand for the address.
pub record NamesAddress (name : List ℕ) (a : ℕ) : Type 0 where
  pub digits : List ℕ
  pub prefixed : name ≡ 48 ∷ 120 ∷ digits
  pub sixteen : length digits ≡ 16
  pub valued : read_hex 0 digits ≡ a

pub hex_name-NamesAddress : (a : ℕ) → a < 2 ^ 64 → NamesAddress (hex_name a) a
unfolding hex_name
hex_name-NamesAddress a h = record {
  digits = hex_digits 16 a;
  prefixed = refl;
  sixteen = length-hex_digits 16 a;
  valued = read_hex-hex_digits 16 a h;
}
